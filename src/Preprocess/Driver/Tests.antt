-- ===== src/Preprocess/Driver/Tests.antt =====
-- Runs on small texts.
use nslc.Preprocess.Driver.{
  report_open, loc_for, directive_range, get_path, emit_line_directive, put_top, strip_cr,
  read_line, open_cond, handle_ifdef, handle_else, handle_endif, resolve_include, enter_file,
  open_include, include_path, handle_include, resume, end_frame, terminate, report_helpers,
  report_floats, pass_through, dispatch, process_line, round_on, run_loop, predefined, result_of,
}
use nslc.Preprocess.Directives.{
  is_ws, is_name_start, is_name_body, skip_ws, ident_size, is_empty, trim_end, trim, enclosed,
  include_of, classify_keyword_line, classify_line,
}
use nslc.Preprocess.Conditionals.{is_emitting, push_cond_frame, flip_branch, else_cond, end_cond}
use nslc.Preprocess.Splicer.{
  needs_reduction, loc_at, comment_end, spliced_name, line_piece, splice_piece, splice_loop, splice,
}
use nslc.Preprocess.Seam.{
  seam_comment_end, opaque_size, helper_round, fraction_size, exponent_size, float_round, scan,
  scan_for_helper, scan_for_float,
}
use nslc.Preprocess.Search.{last_is_slash, join_path, has_slash, dir_of, find_in, find_quote}
use nslc.Preprocess.Macros.{macro_def, no_range, lookup, predefine}
use nslc.Basic.Manager.{
  buffer_or_null, allocate, has_path, find_path, load_file, push_include_frame, pop_include_frame,
}
use nslc.Basic.Location.{before, is_valid_file, make, file, offset, is_valid, make_range}
use nslc.Prelude.{bytes_eq, run_length, decimal_from}
use nslc.Basic.Diagnostics.{new_engine, has_error}
use nslc.Preprocess.Expander.{scan_string_end}
use nslc.Basic.Location.{SourceRange}
use nslc.Basic.Manager.{SourceManager, new_manager, new_buffer}
use nslc.Preprocess.Driver.Loop.{Ended, finished, aborted, out_of_fuel, run_loop, start, result_of}
use nslc.Preprocess.Driver.State.{Setting, State, Frame, new_frame, line_directive, quoted_path}
use nslc.Preprocess.Driver.Termination.{Ends, run_loop-Ends}
use nslc.Preprocess.Driver.Depth.{here, further, Reaches_lem}
use nslc.Preprocess.Driver.Growth.{KeepsErrors}
use nslc.Preprocess.Driver.Sticky.{run_loop-error}
use nslc.Preprocess.Driver.Passing.{passed, round_on-text}
use nslc.Preprocess.Splicer.Plain.{
  Segment, byte, splice_of, IsSegment, IsLine, line_text, line_meaning,
}
use nslc.Preprocess.Driver.Emitted.{line_directive-read}
use nslc.Preprocess.Driver.Lines.{operand, parse_operand}
use nslc.Preprocess.Directives.Printed.{print, line}
use nslc.Preprocess.Directives.{directive, line_kind}
use nslc.Preprocess.Splicer.{Expressions, spliced}
use nslc.Prelude.{
  Bytes, codes, true, false, not, List, [], ◌∷◌, ◌++◌, Option, none, some, if◌then◌else◌, ◌≡◌, refl,
  length, ◌-◌, ◌≤◌, decimal, arith, Ensures-some,
}

-- An expression is truthy unless it is `0`, and a body is left as it stands.
abbrev exprs : Expressions
exprs = record {
  reduced = λ sm macros engine body loc. some (spliced body engine);
  truthy = λ sm macros engine text loc. some (not (bytes_eq text (codes "0")), engine);
}

abbrev env : Setting
env = record {
  search = record { quote_paths = []; angle_paths = []; angle_env_populated = false };
  exists = bytes_eq (codes "i");
  read = λ path. if bytes_eq (codes "i") path then some (codes "x\n") else none;
  exprs = exprs;
}

abbrev manager : Bytes → SourceManager
manager text = record new_manager { buffers = none ∷ some (new_buffer (codes "m") text) ∷ [] }

abbrev output_of : Ended → Option Bytes
output_of (finished st) = result_of st
output_of aborted = none
output_of out_of_fuel = none

abbrev root : Bytes
root = codes "#ifdef W\na[%W%]\n#else\nb\n#endif\n#include \"i\"\nend"

abbrev at_root : State
at_root = start (manager root) ((codes "W", codes "8") ∷ []) 1

-- A conditional, a splice, an included file, and the `#line` directives around it.
run_loop-root :
    output_of (run_loop env 20 at_root)
    ≡ some (codes "\na[8]\n\n\n\n#line 1 \"i\"\nx\n#line 7 \"m\"\nend")
unfolding loc_for directive_range get_path emit_line_directive put_top strip_cr read_line open_cond
    handle_ifdef handle_else handle_endif resolve_include enter_file open_include include_path
    handle_include resume end_frame terminate report_helpers report_floats pass_through dispatch
    process_line round_on run_loop predefined result_of is_ws is_name_start is_name_body skip_ws
    ident_size is_empty trim_end trim enclosed include_of classify_keyword_line classify_line
    is_emitting push_cond_frame flip_branch else_cond end_cond loc_at comment_end spliced_name
    line_piece splice_piece splice_loop splice seam_comment_end opaque_size helper_round
    fraction_size exponent_size float_round scan scan_for_helper scan_for_float last_is_slash
    join_path has_slash dir_of find_in find_quote lookup predefine buffer_or_null allocate has_path
    find_path load_file push_include_frame pop_include_frame is_valid_file make file offset is_valid
    make_range bytes_eq run_length decimal_from has_error scan_string_end before needs_reduction
    report_open
run_loop-root = refl

run_loop-Ends_example : Ends env at_root
run_loop-Ends_example = run_loop-Ends env at_root

-- Behind the first line the conditional is open, and the output has a newline.
abbrev opener : SourceRange
opener = record { begin = record { bits = 16777216 }; end = record { bits = 16777225 } }

abbrev second : State
second = record at_root {
  include_stack =
      record {
        fid = 1;
        cursor = 9;
        physical_line = 2;
        cond_stack =
            record {
              currently_emitting = true;
              any_branch_taken = true;
              parent_suppressed = false;
              opener_loc = opener;
            }
            ∷ [];
      }
      ∷ [];
  output = codes "\n";
}

round_on-first : round_on env at_root (new_frame 1) [] ≡ some second
unfolding loc_for directive_range get_path emit_line_directive put_top strip_cr read_line open_cond
    handle_ifdef handle_else handle_endif resolve_include enter_file open_include include_path
    handle_include resume end_frame terminate report_helpers report_floats pass_through dispatch
    process_line round_on run_loop predefined result_of is_ws is_name_start is_name_body skip_ws
    ident_size is_empty trim_end trim enclosed include_of classify_keyword_line classify_line
    is_emitting push_cond_frame flip_branch else_cond end_cond loc_at comment_end spliced_name
    line_piece splice_piece splice_loop splice seam_comment_end opaque_size helper_round
    fraction_size exponent_size float_round scan scan_for_helper scan_for_float last_is_slash
    join_path has_slash dir_of find_in find_quote lookup predefine buffer_or_null allocate has_path
    find_path load_file push_include_frame pop_include_frame is_valid_file make file offset is_valid
    make_range bytes_eq run_length decimal_from has_error scan_string_end before needs_reduction
    report_open
round_on-first = refl

Reaches_lem_example :
    (length second.include_stack ≤ 256)
    × (length second.sm.include_stack ≡ length second.include_stack - 1)
    × ((f outer : Frame) (frames : List Frame)
        → second.include_stack ≡ f ∷ outer ∷ frames
        → (after : SourceManager) × (pop_include_frame second.sm ≡ some after))
Reaches_lem_example =
    Reaches_lem env (manager root) ((codes "W", codes "8") ∷ []) 1 second refl
      (further (new_frame 1) [] here refl round_on-first)

line_directive-read_example :
    (line_directive 7 (codes "m")
      ≡ print (line (decimal 7 ++ quoted_path (codes "m"))) ++ codes "\n")
    × (classify_line (print (line (decimal 7 ++ quoted_path (codes "m")))) 0 12
        ≡ record (directive line_kind 0 12) { line_operand = decimal 7 ++ quoted_path (codes "m") })
    × (parse_operand (decimal 7 ++ quoted_path (codes "m")) ≡ operand 7 (codes "m") false)
line_directive-read_example = line_directive-read 7 (codes "m") 0 12 (omega arith) (refl, tt)

abbrev plain_text : Bytes
plain_text = codes "a[%W%]\nb"

abbrev at_text : State
at_text = start (manager plain_text) ((codes "W", codes "8") ∷ []) 1

abbrev segments : List Segment
segments = byte b'a' ∷ byte b'[' ∷ splice_of (codes "W") ∷ byte b']' ∷ []

segments-IsLine : IsLine at_text.macros segments none
unfolding IsSegment is_name_body is_name_start lookup bytes_eq needs_reduction predefined predefine
segments-IsLine = (
  (refl, refl, λ e. ground arith),
  (
    (refl, refl, λ e. ground arith),
    (
      record {
        is_name = (refl, tt);
        is_not_empty = refl;
        def = macro_def (codes "W") (codes "8") no_range;
        is_defined = refl;
        is_text = refl;
      },
      ((refl, refl, λ e. ground arith), tt),
    ),
  ),
)

text-HasBuffer : buffer_or_null at_text.sm 1 ≡ some (new_buffer (codes "m") plain_text)
unfolding buffer_or_null is_valid_file
text-HasBuffer = refl

text-strip_cr : strip_cr (line_text segments none) ≡ line_text segments none
unfolding strip_cr
text-strip_cr = refl

emitting-text : is_emitting (new_frame 1).cond_stack ≡ true
unfolding is_emitting
emitting-text = refl

helper-text : scan_for_helper (line_meaning at_text.macros segments none) ≡ []
unfolding scan_for_helper scan helper_round opaque_size run_length is_name_body is_name_start
    skip_ws is_ws lookup bytes_eq predefined predefine
helper-text = refl

float-text : scan_for_float (line_meaning at_text.macros segments none) ≡ []
unfolding scan_for_float scan float_round opaque_size run_length is_name_body is_name_start
    fraction_size exponent_size lookup bytes_eq predefined predefine
float-text = refl

round_on-text_example :
    round_on env at_text (new_frame 1) [] ≡ some (passed env at_text (new_frame 1) segments none [])
round_on-text_example =
    round_on-text env at_text (new_frame 1) segments none [] (new_buffer (codes "m") plain_text)
      (codes "b") refl text-HasBuffer refl (refl, (refl, (refl, (refl, (refl, (refl, tt))))))
      text-strip_cr emitting-text segments-IsLine refl helper-text float-text

-- An error stands before the only line is read.
abbrev failed : State
failed = record (start (manager (codes "a\n")) [] 1) {
  engine = record new_engine { error_count = 1 };
}

abbrev failed_end : State
failed_end = record failed { include_stack = []; output = codes "a\n" }

run_loop-failed : run_loop env 5 failed ≡ finished failed_end
unfolding loc_for directive_range get_path emit_line_directive put_top strip_cr read_line open_cond
    handle_ifdef handle_else handle_endif resolve_include enter_file open_include include_path
    handle_include resume end_frame terminate report_helpers report_floats pass_through dispatch
    process_line round_on run_loop predefined result_of is_ws is_name_start is_name_body skip_ws
    ident_size is_empty trim_end trim enclosed include_of classify_keyword_line classify_line
    is_emitting push_cond_frame flip_branch else_cond end_cond loc_at comment_end spliced_name
    line_piece splice_piece splice_loop splice seam_comment_end opaque_size helper_round
    fraction_size exponent_size float_round scan scan_for_helper scan_for_float last_is_slash
    join_path has_slash dir_of find_in find_quote lookup predefine buffer_or_null allocate has_path
    find_path load_file push_include_frame pop_include_frame is_valid_file make file offset is_valid
    make_range bytes_eq run_length decimal_from has_error scan_string_end before needs_reduction
    report_open
run_loop-failed = refl

exprs-KeepsErrors : KeepsErrors exprs
exprs-KeepsErrors = record {
  reduced = λ sm macros engine body loc. Ensures-some (record { more = omega arith });
  truthy = λ sm macros engine text loc. Ensures-some (record { more = omega arith });
}

run_loop-error_example : result_of failed_end ≡ none
run_loop-error_example =
    run_loop-error env exprs-KeepsErrors 5 failed failed_end (unfold has_error in refl)
      run_loop-failed
