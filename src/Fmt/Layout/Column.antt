-- ===== src/Fmt/Layout/Column.antt =====
-- The column that the renderer keeps is the column at the end of its output.
use nslc.Fmt.Doc.{Doc, Docs, null, text, line, nest, group, concat, align, comment, nil, cons}
use nslc.Fmt.Layout.Render.{emit_indent, emit_line, fits, render_into, render_items}
use nslc.Prelude.{
  ℕ, zero, suc, ◌+◌, ◌≡◌, refl, sym, ap, ◌∙◌, Bytes, Bool, true, false, [], ◌∷◌, ◌++◌, ◌==◌,
  if◌then◌else◌, arith, length, All,
}

-- The column behind `r`, which begins at `column`: the bytes since the last newline.
unfoldable pub column_after : ℕ → Bytes → ℕ
column_after column [] = column
column_after column (c ∷ r) = column_after (if c == b'\n' then 0 else column + 1) r

abbrev pub OneLine : Bytes → Type 0
OneLine = All (λ c. (c == b'\n') ≡ false)

-- No text of the document holds a newline.
abbrev mutual
  pub OneLineTexts : Doc → Type 0
  OneLineTexts null = Unit
  OneLineTexts (text s) = OneLine s
  OneLineTexts (line hard) = Unit
  OneLineTexts (nest n d) = OneLineTexts d
  OneLineTexts (group d) = OneLineTexts d
  OneLineTexts (concat ds) = AllOneLineTexts ds
  OneLineTexts (align d) = OneLineTexts d
  OneLineTexts (comment s leading trailing) = OneLine s

  pub AllOneLineTexts : Docs → Type 0
  AllOneLineTexts nil = Unit
  AllOneLineTexts (cons d ds) = OneLineTexts d × AllOneLineTexts ds

column_after-nil : (column : ℕ) → column_after column [] ≡ column
unfolding column_after
column_after-nil column = refl

column_after-append :
    (column : ℕ) (a b : Bytes)
    → column_after column (a ++ b) ≡ column_after (column_after column a) b
unfolding column_after
column_after-append column [] b = refl
column_after-append column (c ∷ a) b =
    column_after-append (if c == b'\n' then 0 else column + 1) a b

column_after-OneLine :
    (column : ℕ) (s : Bytes) → OneLine s → column_after column s ≡ column + length s
unfolding column_after
column_after-OneLine column [] h = omega arith
column_after-OneLine column (c ∷ s) (h, t) =
    rw h (column_after-OneLine (column + 1) s t ∙ omega arith)

column_after-emit_indent :
    (tabs : Bool) (column n : ℕ) → column_after column (emit_indent tabs n) ≡ column + n
unfolding column_after emit_indent
column_after-emit_indent tabs column zero = omega arith
column_after-emit_indent true column (suc n) =
    column_after-emit_indent true (column + 1) n ∙ omega arith
column_after-emit_indent false column (suc n) =
    column_after-emit_indent false (column + 1) n ∙ omega arith

column_after-emit_line :
    (tabs : Bool) (indent : ℕ) (flat hard : Bool) (column : ℕ)
    → (let r = emit_line tabs indent flat hard column in r.1 ≡ column_after column r.0)
unfolding emit_line column_after
column_after-emit_line tabs indent flat hard column =
    ground (arith, column_after-emit_indent tabs 0 indent)

mutual
  unfolding render_into

  column_is :
      (d : Doc) (limit : ℕ) (tabs : Bool) (indent column : ℕ) (flat : Bool)
      → OneLineTexts d
      → (let r = render_into d limit tabs indent column flat in r.1 ≡ column_after column r.0)
  column_is null limit tabs indent column flat h = sym (column_after-nil column)
  column_is (text s) limit tabs indent column flat h = sym (column_after-OneLine column s h)
  column_is (line hard) limit tabs indent column flat h =
      column_after-emit_line tabs indent flat hard column
  column_is (nest n d) limit tabs indent column flat h =
      column_is d limit tabs (indent + n) column flat h
  column_is (group d) limit tabs indent column flat h =
      column_is d limit tabs indent column (fits d column limit) h
  column_is (concat ds) limit tabs indent column flat h =
      columns_are ds limit tabs indent column flat h
  column_is (align d) limit tabs indent column flat h = column_is d limit tabs column column flat h
  column_is (comment s lead trail) limit tabs indent column flat h =
      sym (column_after-OneLine column s h)

  columns_are :
      (ds : Docs) (limit : ℕ) (tabs : Bool) (indent column : ℕ) (flat : Bool)
      → AllOneLineTexts ds
      → (let r = render_items ds limit tabs indent column flat in r.1 ≡ column_after column r.0)
  columns_are nil limit tabs indent column flat h = sym (column_after-nil column)
  columns_are (cons d ds) limit tabs indent column flat (h, t) =
      let first = render_into d limit tabs indent column flat in
      let rest = render_items ds limit tabs indent first.1 flat in
      columns_are ds limit tabs indent first.1 flat t
      ∙ ap (λ c. column_after c rest.0) (column_is d limit tabs indent column flat h)
      ∙ sym (column_after-append column first.0 rest.0)

-- The column that is passed on, from which the budget of a later group is computed, is the number of
-- bytes behind the last newline of the output, where no text holds a newline.
pub render_into-column :
    (d : Doc) (limit : ℕ) (tabs : Bool) (indent column : ℕ) (flat : Bool)
    → OneLineTexts d
    → (render_into d limit tabs indent column flat).1
      ≡ column_after column (render_into d limit tabs indent column flat).0
render_into-column d limit tabs indent column flat h = column_is d limit tabs indent column flat h
