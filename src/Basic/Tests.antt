-- ===== src/Basic/Tests.antt =====
-- Locations in a small buffer, and the theorems of Basic at concrete inputs.
use nslc.Basic.Directives.{
  LineDirective, Ordered, From, last_before, IsMoved, resolve_virtual, resolve_virtual_lem,
}
use nslc.Basic.Lines.{
  get_line_col, get_line, line_col, walk_to, get_line_col_lem, line_index, line_offsets,
  offsets_from, upper_bound, line_start, line_end,
}
use nslc.Basic.Lines.Text.{nth_line, get_line_lem}
use nslc.Basic.Diagnostics.{
  Diagnostic, diagnostic, DiagnosticEngine, new_engine, error, note, report, attached, counted,
  sorted, has_error,
}
use nslc.Basic.Diagnostics.Counts.{IsCounted, count_of, is_severity, report-IsCounted}
use nslc.Basic.Diagnostics.Rendered.{IsSorted, only, sorted_lem}
use nslc.Basic.Diagnostics.Escapes.{read_json_string, read_json_string-write_json_string}
use nslc.Basic.Diagnostics.Json.{write_json_string, write_json_bytes, write_json_byte}
use nslc.Basic.Location.{
  SourceLocation, no_location, make, file, offset, max_offset, IsWord, is_valid, is_valid_file,
  make-file-offset,
}
use nslc.Basic.Manager.{
  SourceManager, new_manager, allocate, added, abort, new_buffer, buffer_or_null, load_file,
  find_path, has_path, find_file_id_by_path, push_include_frame, pop_include_frame,
  get_include_stack_for, site_of,
}
use nslc.Basic.Manager.Files.{allocate_lem, load_file-again}
use nslc.Basic.Manager.Includes.{push_include_frame_lem}
use nslc.Prelude.{
  ℕ, ◌+◌, ◌-◌, ◌<◌, ◌≤◌, ◌≡◌, refl, Bytes, codes, true, not, ◌&&◌, ◌||◌, List, [], ◌∷◌, ◌++◌,
  Option, some, none, ◌==◌, if◌then◌else◌, arith,
}

abbrev bytes : Bytes
bytes = codes "ab\ncd\n"

-- The offset 4 is the second byte of the second line.
get_line_col-bytes : get_line_col bytes 4 ≡ line_col 2 2
unfolding get_line_col line_index line_offsets offsets_from upper_bound
get_line_col-bytes = refl

get_line-bytes : get_line bytes 4 ≡ codes "cd"
unfolding get_line line_start line_end line_index line_offsets offsets_from upper_bound
get_line-bytes = refl

abbrev at : ℕ → SourceLocation
at n = record { bits = 16777216 + n }

make-file-offset_example :
    (5 < max_offset
      → (l : SourceLocation) × (make 1 5 ≡ some l) × (file l ≡ 1) × (offset l ≡ 5) × IsWord l)
    × (max_offset ≤ 5 → make 1 5 ≡ none)
make-file-offset_example = make-file-offset 1 5 (omega arith)

get_line_col_lem_example : get_line_col bytes 4 ≡ walk_to bytes 4 (line_col 1 1)
get_line_col_lem_example = get_line_col_lem bytes 4 (omega arith) (omega arith)

get_line_lem_example : get_line bytes 4 ≡ nth_line ((walk_to bytes 4 (line_col 1 1)).line - 1) bytes
get_line_lem_example = get_line_lem bytes 4 (omega arith)

abbrev directives : List LineDirective
directives = record { origin_offset = 3; virtual_line = 40; virtual_path = codes "p" } ∷ []

directives-Ordered : Ordered directives
unfolding From
directives-Ordered = (omega arith, tt)

no_directives-Ordered : Ordered []
unfolding From
no_directives-Ordered = tt

resolve_virtual_lem_example :
    ((resolve_virtual (codes "f") bytes directives 4).col ≡ (walk_to bytes 4 (line_col 1 1)).col)
    × (last_before directives 4 ≡ none
        → ((resolve_virtual (codes "f") bytes directives 4).path ≡ codes "f")
          × ((resolve_virtual (codes "f") bytes directives 4).line
              ≡ (walk_to bytes 4 (line_col 1 1)).line))
    × ((d : LineDirective)
        → last_before directives 4 ≡ some d
        → IsMoved (codes "f") bytes 4 d (resolve_virtual (codes "f") bytes directives 4))
resolve_virtual_lem_example =
    resolve_virtual_lem (codes "f") bytes directives 4 directives-Ordered (omega arith)
      (omega arith)

abbrev one_file : SourceManager
one_file = record new_manager { buffers = none ∷ some (new_buffer (codes "f") bytes) ∷ [] }

allocate_lem_example :
    (2 ≤ 255
      → (after : SourceManager) × (allocate one_file (codes "g") [] ≡ added after 2)
        × (buffer_or_null after 2 ≡ some (new_buffer (codes "g") []))
        × ((f : ℕ) → f < 2 → buffer_or_null after f ≡ buffer_or_null one_file f))
    × (255 < 2 → allocate one_file (codes "g") [] ≡ abort)
allocate_lem_example = allocate_lem one_file (codes "g") [] (omega arith)

abbrev disk : Bytes → Option Bytes
disk path = some bytes

load_file-one_file : load_file disk new_manager (codes "f") ≡ added one_file 1
unfolding load_file find_path allocate
load_file-one_file = refl

load_file-again_example :
    (load_file (λ p. none) one_file (codes "f") ≡ added one_file 1)
    × (find_file_id_by_path one_file (codes "f") ≡ 1)
    × (has_path (codes "f") (buffer_or_null one_file 1) ≡ true)
load_file-again_example =
    load_file-again disk (λ p. none) new_manager (codes "f") one_file 1 (omega arith) (omega arith)
      load_file-one_file

push_include_frame_lem_example :
    (get_include_stack_for (push_include_frame new_manager (at 0) 2) 2 ≡ at 0 ∷ [])
    × ((g : ℕ)
        → site_of (push_include_frame new_manager (at 0) 2) g ≡ (
            if is_valid_file 2 && not (is_valid (site_of new_manager 2)) && 2 == g
            then at 0
            else site_of new_manager g))
    × ((after : SourceManager) × (pop_include_frame (push_include_frame new_manager (at 0) 2)
          ≡ some after)
        × (after.include_stack ≡ []))
push_include_frame_lem_example = push_include_frame_lem new_manager (at 0) 2 (omega arith)

abbrev reported : Diagnostic
reported = diagnostic error no_location (codes "e") []

abbrev noted : Diagnostic
noted = diagnostic note no_location (codes "n") []

sorted_lem_example :
    IsSorted (sorted (reported ∷ noted ∷ []))
    × ((x : Diagnostic) → only x (sorted (reported ∷ noted ∷ [])) ≡ only x (reported ∷ noted ∷ []))
sorted_lem_example = sorted_lem (reported ∷ noted ∷ [])

abbrev one_error : DiagnosticEngine
one_error = record { diags = reported ∷ []; error_count = 1; warning_count = 0 }

new_engine-IsCounted : IsCounted new_engine
unfolding count_of
new_engine-IsCounted = record { errors = refl; warnings = refl }

report-one : report new_manager new_engine error no_location (codes "e") ≡ some one_error
unfolding report attached counted is_valid
report-one = refl

report-IsCounted_example :
    IsCounted one_error × (has_error one_error ≡ (has_error new_engine || is_severity error error))
report-IsCounted_example =
    report-IsCounted new_manager new_engine one_error error no_location (codes "e")
      new_engine-IsCounted report-one

write_json_string-escapes :
    write_json_string (codes "a\"\n" ++ 1 ∷ []) ≡ codes "\"a\\\"\\n\\u0001\""
unfolding write_json_string write_json_bytes write_json_byte
write_json_string-escapes = refl

read_json_string-write_json_string_example :
    read_json_string 4 (write_json_string (codes "a\"\n") ++ codes "}")
    ≡ some (codes "a\"\n", codes "}")
read_json_string-write_json_string_example =
    read_json_string-write_json_string (codes "a\"\n") (codes "}")
