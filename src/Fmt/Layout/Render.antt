-- ===== src/Fmt/Layout/Render.antt =====
-- `emitIndent`, `flatWidth`, `fits`, `renderInto` and `LayoutRenderer::render`.
use nslc.Fmt.Doc.{Doc, Docs, null, text, line, nest, group, concat, align, comment, nil, cons}
use nslc.Prelude.{
  ℕ, ◌+◌, Bytes, Bool, true, false, ◌&&◌, not, [], ◌∷◌, ◌++◌, Option, none, some, if◌then◌else◌,
  leb, length, replicate,
}

-- One tab or one blank for each column of the indent; `tabs` is a negative `indentSpaces`.
unfoldable pub emit_indent : Bool → ℕ → Bytes
emit_indent tabs indent = replicate indent (if tabs then b'\t' else b' ')

unfoldable pub is_null : Doc → Bool
is_null null = true
is_null _ = false

-- One item of the loop of a `Concat`, behind `total` columns, for the item's width: `none` is the
-- result -1. A null item is passed over.
unfoldable pub add_width : Bool → ℕ → ℕ → ℕ → Option ℕ → Option ℕ
add_width true used limit total w = some total
add_width false used limit total none = none
add_width false used limit total (some w) =
    if leb (used + total + w) limit then some (total + w) else none

-- The columns that the document takes on one line; `none` is -1.
unfoldable mutual
  pub flat_width : Doc → ℕ → ℕ → Option ℕ
  flat_width null used limit = some 0
  flat_width (text s) used limit = some (length s)
  flat_width (line hard) used limit = if hard then none else some 1
  flat_width (nest indent d) used limit = flat_width d used limit
  flat_width (group d) used limit = flat_width d used limit
  flat_width (concat ds) used limit = flat_widths ds used limit 0
  flat_width (align d) used limit = flat_width d used limit
  flat_width (comment s leading trailing) used limit = some (length s)

  pub flat_widths : Docs → ℕ → ℕ → ℕ → Option ℕ
  flat_widths nil used limit total = some total
  flat_widths (cons d ds) used limit total =
      elim (add_width (is_null d) used limit total (flat_width d (used + total) limit)) [
        | none ↦ none
        | some total' ↦ flat_widths ds used limit total'
      ]

unfoldable pub fits : Doc → ℕ → ℕ → Bool
fits d used limit = elim (flat_width d used limit) [ none ↦ false | some w ↦ leb (used + w) limit ]

-- What one leaf or line appends, and the column behind it.
unfoldable pub emit_line : Bool → ℕ → Bool → Bool → ℕ → Bytes × ℕ
unfolding emit_indent
emit_line tabs indent flat hard column =
    if flat && not hard then (b' ' ∷ [], column + 1) else (b'\n' ∷ emit_indent tabs indent, indent)

-- The bytes appended to `out` and the column behind them.
unfoldable mutual
  pub render_into : Doc → ℕ → Bool → ℕ → ℕ → Bool → Bytes × ℕ
  render_into null limit tabs indent column flat = ([], column)
  render_into (text s) limit tabs indent column flat = (s, column + length s)
  render_into (line hard) limit tabs indent column flat = emit_line tabs indent flat hard column
  render_into (nest n d) limit tabs indent column flat =
      render_into d limit tabs (indent + n) column flat
  render_into (group d) limit tabs indent column flat =
      render_into d limit tabs indent column (fits d column limit)
  render_into (concat ds) limit tabs indent column flat =
      render_items ds limit tabs indent column flat
  render_into (align d) limit tabs indent column flat = render_into d limit tabs column column flat
  render_into (comment s leading trailing) limit tabs indent column flat = (s, column + length s)

  pub render_items : Docs → ℕ → Bool → ℕ → ℕ → Bool → Bytes × ℕ
  render_items nil limit tabs indent column flat = ([], column)
  render_items (cons d ds) limit tabs indent column flat =
      let first = render_into d limit tabs indent column flat in
      let rest = render_items ds limit tabs indent first.1 flat in (first.0 ++ rest.0, rest.1)

-- `LayoutRenderer::render`: the root is laid out in break mode from column 0.
unfoldable pub render : Doc → ℕ → Bool → Bytes
unfolding render_into
render d limit tabs = (render_into d limit tabs 0 0 false).0
