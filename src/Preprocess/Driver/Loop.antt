-- ===== src/Preprocess/Driver/Loop.antt =====
-- A round of `runFile`, the loop, and `run`.
use nslc.Basic.Diagnostics.{error, has_error, new_engine}
use nslc.Basic.Location.{FileId}
use nslc.Basic.Manager.{SourceManager, buffer_or_null, pop_include_frame}
use nslc.Preprocess.Conditionals.{CondFrame, is_emitting}
use nslc.Preprocess.Directives.{
  ParsedDirective, DirectiveKind, none_kind, include_kind, define_kind, undef_kind, ifdef_kind,
  ifndef_kind, if_kind, else_kind, endif_kind, line_kind, unknown_kind, classify_line,
}
use nslc.Preprocess.Driver.Handlers.{
  handle_define, handle_undef, handle_ifdef, handle_if, handle_else, handle_endif, handle_line,
  handle_include,
}
use nslc.Preprocess.Driver.Lines.{Line, read_line}
use nslc.Preprocess.Driver.State.{
  Frame, new_frame, State, Setting, report_in, begin_loc, loc_for, get_path, emit_line_directive,
  put_top,
}
use nslc.Preprocess.Macros.{MacroTable, predefine}
use nslc.Preprocess.Seam.{Offence, scan_for_helper, scan_for_float}
use nslc.Preprocess.Splicer.{splice}
use nslc.Prelude.{
  ℕ, zero, suc, ◌+◌, ◌%◌, Bytes, codes, Bool, true, false, List, [], ◌∷◌, ◌++◌, Option, none, some,
  ◌>>=◌, if◌then◌else◌,
}

-- The reports of the openers left, the outermost first.
unfoldable pub report_open : State → List CondFrame → Option State
report_open st [] = some st
report_open st (cf ∷ conds) = do
  outer ← report_open st conds
  report_in outer error cf.opener_loc.begin (codes "unterminated #if at end of file")

-- What is done behind the popped frame: nothing below the root.
unfoldable pub resume : State → List Frame → Option State
resume st [] = some (record st { include_stack = [] })
resume st (outer ∷ frames) = do
  sm ← pop_include_frame st.sm
  path ← get_path st outer.fid
  some (
      emit_line_directive (record st { sm = sm; include_stack = outer ∷ frames })
        outer.physical_line path)

unfoldable pub end_frame : State → Frame → List Frame → Option State
end_frame st f frames = do reported ← report_open st f.cond_stack; resume reported frames

-- `output += term`, with the newline of the line or none.
unfoldable pub terminate : Bool → State → Option State
terminate had_newline st =
    some (record st { output = st.output ++ (if had_newline then codes "\n" else []) })

unfoldable pub report_helpers : State → Frame → ℕ → List Offence → Option State
report_helpers st f base [] = some st
report_helpers st f base (o ∷ offences) = do
  reported ←
      report_in st error (loc_for f (base + o.at))
        (codes "compile-time helper '" ++ o.text ++ codes "' used outside #define / #if condition")
  report_helpers reported f base offences

unfoldable pub report_floats : State → Frame → ℕ → List Offence → Option State
report_floats st f base [] = some st
report_floats st f base (o ∷ offences) = do
  reported ←
      report_in st error (loc_for f (base + o.at))
        (codes "float literal cannot cross the preprocessor seam")
  report_floats reported f base offences

-- A line that is no directive, where lines pass.
unfoldable pub pass_through : Setting → State → Frame → ℕ → Line → Option State
pass_through env st f base line = do
  s ← splice env.exprs st.sm st.macros (loc_for f (base % 4294967296)) st.engine line.text
  helpers ← report_helpers (record st { engine = s.engine }) f base (scan_for_helper s.out)
  floats ← report_floats helpers f base (scan_for_float s.out)
  terminate line.had_newline (record floats { output = floats.output ++ s.out })

unfoldable pub unknown_directive : State → Frame → ParsedDirective → Option State
unknown_directive st f d =
    report_in st error (begin_loc f d)
      (codes "unknown preprocessor directive: '#" ++ d.name ++ codes "'")

-- The `switch` over the kind; `emitting` is the state of the conditionals before the line.
unfoldable pub dispatch :
    Setting → State → Frame → Bool → ℕ → Line → ParsedDirective → DirectiveKind → Option State
dispatch env st f emitting base line d none_kind =
    if emitting then pass_through env st f base line else terminate line.had_newline st
dispatch env st f emitting base line d define_kind =
    (if emitting then handle_define st f d else some st) >>= terminate line.had_newline
dispatch env st f emitting base line d undef_kind =
    (if emitting then handle_undef st f d else some st) >>= terminate line.had_newline
dispatch env st f emitting base line d ifdef_kind =
    handle_ifdef st f d false >>= terminate line.had_newline
dispatch env st f emitting base line d ifndef_kind =
    handle_ifdef st f d true >>= terminate line.had_newline
dispatch env st f emitting base line d if_kind = handle_if env st f d >>= terminate line.had_newline
dispatch env st f emitting base line d else_kind = handle_else st f d >>= terminate line.had_newline
dispatch env st f emitting base line d endif_kind =
    handle_endif st f d >>= terminate line.had_newline
dispatch env st f emitting base line d line_kind =
    if emitting then handle_line env st f d else terminate line.had_newline st
dispatch env st f emitting base line d include_kind =
    if emitting then handle_include env st f d else terminate line.had_newline st
dispatch env st f emitting base line d unknown_kind =
    (if emitting then unknown_directive st f d else some st) >>= terminate line.had_newline

-- The frame once the line is read.
abbrev pub advanced : Frame → Line → Frame
advanced f line = record f { cursor = line.line_end; physical_line = suc f.physical_line }

unfoldable pub process_line : Setting → State → Frame → Line → Option State
process_line env st f line =
    let d = classify_line line.text (f.cursor % 4294967296) (line.line_end % 4294967296) in
    dispatch env (put_top st (advanced f line)) (advanced f line) (is_emitting f.cond_stack)
      f.cursor line d d.kind

-- A round of the loop, with the frame on top and those below.
unfoldable pub round_on : Setting → State → Frame → List Frame → Option State
round_on env st f frames = do
  b ← buffer_or_null st.sm f.fid
  elim (read_line b.bytes f.cursor) [
    | none ↦ end_frame st f frames
    | some line ↦ process_line env st f line
  ]

pub data Ended : Type 0 where
  finished : State → Ended
  aborted out_of_fuel : Ended

unfoldable pub run_loop : Setting → ℕ → State → Ended
run_loop env zero st = out_of_fuel
run_loop env (suc fuel) st = elim st.include_stack [
  | [] ↦ finished st
  | f ∷ frames ↦ elim (round_on env st f frames) [
    | none ↦ aborted
    | some next ↦ run_loop env fuel next
  ]
]

unfoldable pub predefined : MacroTable → List (Bytes × Bytes) → MacroTable
predefined macros [] = macros
predefined macros (kv ∷ kvs) = predefined (predefine macros (kv.0) (kv.1)) kvs

-- The state in which `runFile` enters its loop.
abbrev pub start : SourceManager → List (Bytes × Bytes) → FileId → State
start sm macros input = record {
  sm = sm;
  engine = new_engine;
  macros = predefined [] macros;
  include_stack = new_frame input ∷ [];
  output = [];
}

-- What `run` returns of the state in which the loop ends: the text, unless an error was reported.
unfoldable pub result_of : State → Option Bytes
result_of st = if has_error st.engine then none else some st.output
