-- ===== src/Fmt/Doc.antt =====
-- lib/Fmt/Doc.h: the layout documents. A `DocPtr` may be null, and then stands for nothing: `null`.
-- The indent of `Nest` is a natural number: the planner passes its indent step, 1 or more.
use nslc.Prelude.{ℕ, Bytes, Bool, true, false}

mutual
  pub data Doc : Type 0 where
    null : Doc
    text : Bytes → Doc
    line : Bool → Doc
    nest : ℕ → Doc → Doc
    group : Doc → Doc
    concat : Docs → Doc
    align : Doc → Doc
    comment : Bytes → Bool → Bool → Doc

  pub data Docs : Type 0 where
    nil : Docs
    cons : Doc → Docs → Docs

-- `Doc::line()` and `Doc::hardline()`.
abbrev pub soft_line : Doc
soft_line = line false

abbrev pub hardline : Doc
hardline = line true
