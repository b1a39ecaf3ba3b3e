-- ===== src/Fmt/Layout/Content.antt =====
-- The layout moves blanks and line breaks only: the other bytes of the output do not depend on the
-- limit, the indent or the mode.
use mathlib.Core.Path.{ap₂}
use nslc.Fmt.Doc.{Doc, Docs, null, text, line, nest, group, concat, align, comment, nil, cons}
use nslc.Fmt.Layout.Flat.{flat_text, flat_texts}
use nslc.Fmt.Layout.Render.{emit_indent, emit_line, fits, render_into, render_items, render}
use nslc.Prelude.{
  ℕ, zero, suc, ◌+◌, ◌≡◌, refl, sym, ◌∙◌, Bytes, Bool, true, false, ◌||◌, [], ◌∷◌, ◌++◌, ◌==◌,
  if◌then◌else◌, arith,
}

unfoldable pub is_blank : ℕ → Bool
is_blank c = c == b' ' || c == b'\t' || c == b'\n'

-- The bytes that are no blank, tab or newline, in their order.
unfoldable pub ink : Bytes → Bytes
unfolding is_blank
ink [] = []
ink (c ∷ r) = let rest = ink r in if is_blank c then rest else c ∷ rest

ink-append : (a b : Bytes) → ink (a ++ b) ≡ ink a ++ ink b
unfolding ink
ink-append [] b = refl
ink-append (c ∷ a) b = ground (arith, ink-append a b)

ink-blank : ink (b' ' ∷ []) ≡ []
unfolding ink
ink-blank = refl

ink-emit_indent : (tabs : Bool) (n : ℕ) → ink (emit_indent tabs n) ≡ []
unfolding ink emit_indent
ink-emit_indent tabs zero = refl
ink-emit_indent true (suc n) = ink-emit_indent true n
ink-emit_indent false (suc n) = ink-emit_indent false n

ink-emit_line :
    (tabs : Bool) (indent : ℕ) (flat hard : Bool) (column : ℕ)
    → ink (emit_line tabs indent flat hard column).0 ≡ []
unfolding emit_line ink
ink-emit_line tabs indent flat hard column = ground (arith, ink-emit_indent tabs indent)

mutual
  unfolding render_into flat_text

  ink-render_into :
      (d : Doc) (limit : ℕ) (tabs : Bool) (indent column : ℕ) (flat : Bool)
      → ink (render_into d limit tabs indent column flat).0 ≡ ink (flat_text d)
  ink-render_into null limit tabs indent column flat = refl
  ink-render_into (text s) limit tabs indent column flat = refl
  ink-render_into (line hard) limit tabs indent column flat =
      ink-emit_line tabs indent flat hard column ∙ sym ink-blank
  ink-render_into (nest n d) limit tabs indent column flat =
      ink-render_into d limit tabs (indent + n) column flat
  ink-render_into (group d) limit tabs indent column flat =
      ink-render_into d limit tabs indent column (fits d column limit)
  ink-render_into (concat ds) limit tabs indent column flat =
      ink-render_items ds limit tabs indent column flat
  ink-render_into (align d) limit tabs indent column flat =
      ink-render_into d limit tabs column column flat
  ink-render_into (comment s lead trail) limit tabs indent column flat = refl

  ink-render_items :
      (ds : Docs) (limit : ℕ) (tabs : Bool) (indent column : ℕ) (flat : Bool)
      → ink (render_items ds limit tabs indent column flat).0 ≡ ink (flat_texts ds)
  ink-render_items nil limit tabs indent column flat = refl
  ink-render_items (cons d ds) limit tabs indent column flat =
      let first = render_into d limit tabs indent column flat in
      ink-append first.0 (render_items ds limit tabs indent first.1 flat).0
      ∙ ap₂ (◌++◌ {A = ℕ}) (ink-render_into d limit tabs indent column flat)
          (ink-render_items ds limit tabs indent first.1 flat)
      ∙ sym (ink-append (flat_text d) (flat_texts ds))

-- Whatever the limit and the indent, the bytes of the output that are no blanks are those of the
-- document's texts, in their order.
pub ink-render : (d : Doc) (limit : ℕ) (tabs : Bool) → ink (render d limit tabs) ≡ ink (flat_text d)
unfolding render
ink-render d limit tabs = ink-render_into d limit tabs 0 0 false
