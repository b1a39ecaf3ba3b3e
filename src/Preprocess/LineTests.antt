-- ===== src/Preprocess/LineTests.antt =====
-- The theorems on single lines, their conditionals and their search paths, at concrete inputs.
use nslc.Basic.Diagnostics.{new_engine}
use nslc.Basic.Location.{no_location}
use nslc.Basic.Manager.{new_manager}
use nslc.Preprocess.Conditionals.Blocks.{
  Blocks, done, line, branch, else_part, events, chosen, run, outcome, run_lem,
}
use nslc.Preprocess.Conditionals.{is_emitting}
use nslc.Preprocess.Directives.Printed.{
  define, print, expected, IsPrintable, IsWord, classify_line-print,
}
use nslc.Preprocess.Directives.{
  classify_line, trim_end, is_body_blank, is_ws, is_empty, is_name_start, is_name_body,
}
use nslc.Preprocess.Macros.{macro_def, no_range, MacroTable, lookup}
use nslc.Preprocess.Search.{
  IncludeSearchPath, find_quote, find_angle, join_path, JoinsBySlash, IsFirst, quote_candidates,
  angle_candidates, find_lem,
}
use nslc.Preprocess.Expander.Strings.{done, plain, escape}
use nslc.Preprocess.Splicer.Plain.{
  Segment, byte, quoted, comment, splice_of, IsSegment, IsLine, has_end, line_text, line_meaning,
  splice_lem,
}
use nslc.Preprocess.Splicer.{Expressions, spliced, splice, needs_reduction}
use nslc.Prelude.{
  Bytes, codes, Bool, true, false, List, [], ◌∷◌, some, if◌then◌else◌, bytes_eq, ◌≡◌, refl, arith,
}

abbrev blocks : Blocks
blocks =
    branch true no_range
      (branch false no_range (line (codes "a") done) (else_part (line (codes "b") done)) done)
      (else_part (line (codes "c") done)) (line (codes "d") done)

run_lem_example :
    run (events blocks) [] ≡ some (outcome (if is_emitting [] then chosen blocks else []) [])
run_lem_example = run_lem blocks []

define-IsPrintable : IsPrintable (define (codes "W") (codes "8 + 1"))
unfolding IsPrintable IsWord is_name_start trim_end is_body_blank is_ws is_empty
define-IsPrintable = ((refl, tt), record { front = refl; back = refl })

classify_line-print_example :
    classify_line (print (define (codes "W") (codes "8 + 1"))) 0 15
    ≡ expected (define (codes "W") (codes "8 + 1")) 0 15
classify_line-print_example =
    classify_line-print (define (codes "W") (codes "8 + 1")) 0 15 define-IsPrintable

abbrev exprs : Expressions
exprs = record {
  reduced = λ sm macros engine body loc. some (spliced body engine);
  truthy = λ sm macros engine text loc. some (true, engine);
}

abbrev macros : MacroTable
macros = macro_def (codes "W") (codes "8") no_range ∷ []

abbrev segments : List Segment
segments = byte b'/' ∷ quoted (codes "\\\"%W%") ∷ comment (codes "**") ∷ splice_of (codes "W") ∷ []

segments-IsLine : IsLine macros segments (some (codes "W"))
unfolding IsSegment has_end is_name_body is_name_start lookup bytes_eq needs_reduction
segments-IsLine = (
  (refl, refl, λ e. ground arith),
  (
    escape refl (plain refl refl (plain refl refl (plain refl refl done))),
    (
      refl,
      (
        record {
          is_name = (refl, tt);
          is_not_empty = refl;
          def = macro_def (codes "W") (codes "8") no_range;
          is_defined = refl;
          is_text = refl;
        },
        tt,
      ),
    ),
  ),
)

splice_lem_example :
    splice exprs new_manager macros no_location new_engine (line_text segments (some (codes "W")))
    ≡ some (spliced (line_meaning macros segments (some (codes "W"))) new_engine)
splice_lem_example =
    splice_lem exprs new_manager macros no_location segments (some (codes "W")) new_engine
      segments-IsLine

abbrev paths : IncludeSearchPath
paths = record {
  quote_paths = codes "inc" ∷ [];
  angle_paths = codes "sys/" ∷ [];
  angle_env_populated = false;
}

abbrev exists : Bytes → Bool
exists = bytes_eq (codes "inc/f")

find_lem_example :
    IsFirst exists
      (quote_candidates paths (codes "f") (codes "src"))
      (find_quote exists paths (codes "f") (codes "src"))
    × IsFirst exists (angle_candidates paths (codes "f")) (find_angle exists paths (codes "f"))
    × JoinsBySlash join_path (codes "f")
find_lem_example = find_lem exists paths (codes "f") (codes "src")
