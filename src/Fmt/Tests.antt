-- ===== src/Fmt/Tests.antt =====
-- Layouts and diffs of small inputs, and the theorems of Fmt at concrete inputs.
use nslc.Fmt.Diff.{
  split_lines, split_loop, diff_edits, trace_diff, walk, fill_lcs, fill_rows, fill_row, fill_cell,
  put, at, new_table, edit, context, added,
}
use nslc.Fmt.Diff.Script.{old_lines, new_lines, trace_diff-lines}
use nslc.Fmt.Doc.{Doc, text, nest, group, concat, cons, nil, soft_line}
use nslc.Fmt.Layout.{
  render, render_into, fits, flat_width, add_width, is_null, emit_line, emit_indent,
}
use nslc.Fmt.Layout.Column.{column_after, render_into-column}
use nslc.Fmt.Layout.Content.{ink, ink-render}
use nslc.Fmt.Layout.Fits.{render_into-group}
use nslc.Fmt.Layout.Flat.{flat_text, has_hardline}
use nslc.Prelude.{
  ◌+◌, ◌<◌, ◌≤◌, ◌≡◌, ◌⊎◌, refl, Bytes, codes, true, false, List, [], ◌∷◌, length, bytes_eq,
}

abbrev call : Doc
call = concat (
    cons (text (codes "f(")) (
      cons (nest 2 (concat (cons soft_line (cons (text (codes "a")) nil))))
        (cons (text (codes ")")) nil)))

-- The group is one line where the limit admits it, and is broken where it does not.
render_flat : render (group call) 20 false ≡ codes "f( a)"
unfolding render render_into fits flat_width add_width is_null emit_line emit_indent
render_flat = refl

render_broken : render (group call) 4 false ≡ codes "f(\n  a)"
unfolding render render_into fits flat_width add_width is_null emit_line emit_indent
render_broken = refl

abbrev old_text : List Bytes
old_text = codes "a" ∷ codes "b" ∷ []

abbrev new_text : List Bytes
new_text = codes "a" ∷ codes "c" ∷ codes "b" ∷ []

split_lines-text : split_lines (codes "a\nb") ≡ old_text
unfolding split_lines split_loop
split_lines-text = refl

diff_edits-text :
    diff_edits old_text new_text
    ≡ edit context (codes "a") ∷ edit added (codes "c") ∷ edit context (codes "b") ∷ []
unfolding diff_edits trace_diff walk fill_lcs fill_rows fill_row fill_cell put at bytes_eq
diff_edits-text = refl

render_into-group_example :
    ((has_hardline call ≡ false)
      → 0 + length (flat_text call) ≤ 4
      → render_into (group call) 4 false 0 0 false ≡ (flat_text call, 0 + length (flat_text call)))
    × ((has_hardline call ≡ true) ⊎ (4 < 0 + length (flat_text call))
        → render_into (group call) 4 false 0 0 false ≡ render_into call 4 false 0 0 false)
render_into-group_example = render_into-group call 4 false 0 0 false

ink-render_example : ink (render (group call) 4 false) ≡ ink (flat_text (group call))
ink-render_example = ink-render (group call) 4 false

render_into-column_example :
    (render_into call 4 false 0 0 false).1 ≡ column_after 0 (render_into call 4 false 0 0 false).0
render_into-column_example =
    render_into-column call 4 false 0 0 false
      ((refl, (refl, tt)), ((tt, ((refl, tt), tt)), ((refl, tt), tt)))

trace_diff-lines_example :
    (old_lines (trace_diff (new_table 2 3) old_text new_text) ≡ old_text)
    × (new_lines (trace_diff (new_table 2 3) old_text new_text) ≡ new_text)
trace_diff-lines_example = trace_diff-lines (new_table 2 3) old_text new_text refl refl
