-- ===== src/Preprocess/Driver/Handlers.antt =====
-- One function for each directive, given the frame on top of the stack.
use nslc.Basic.Diagnostics.{Note, warning, error, append_note_at}
use nslc.Basic.Location.{SourceRange, FileId, is_valid, make}
use nslc.Basic.Manager.{
  SourceManager, Added, added, no_such_file, abort, load_file, push_include_frame, add_directive,
}
use nslc.Preprocess.Conditionals.{push_cond_frame, else_cond, end_cond}
use nslc.Preprocess.Directives.{ParsedDirective, is_empty}
use nslc.Preprocess.Driver.Lines.{
  Operand, malformed, overflowed, unterminated, operand, parse_operand,
}
use nslc.Preprocess.Driver.State.{
  Frame, new_frame, State, Setting, report_in, begin_loc, directive_range, get_path,
  emit_line_directive, put_conds,
}
use nslc.Preprocess.Macros.{MacroTable, lookup, redefine, undef}
use nslc.Preprocess.Search.{find_angle, find_quote, dir_of}
use nslc.Preprocess.Splicer.{splice}
use nslc.Prelude.{
  ℕ, ◌+◌, ◌-◌, ◌%◌, Bytes, codes, Bool, true, false, not, ◌&&◌, List, [], ◌∷◌, ◌++◌, Option, none,
  some, ◌>>=◌, if◌then◌else◌, ltb, length,
}

abbrev defined : MacroTable → Bytes → Bool
defined macros name = elim (lookup macros name) [ none ↦ false | some _ ↦ true ]

abbrev previous_note : SourceRange → Note
previous_note previous = record {
  loc = previous.begin;
  message = codes "previous definition was here";
  is_include_from_note = false;
}

-- The warning on a second definition, with its note.
unfoldable pub warn_redefined : State → Frame → ParsedDirective → SourceRange → Option State
warn_redefined st f d previous = do
  warned ← report_in st warning (begin_loc f d) (codes "macro '" ++ d.name ++ codes "' redefined")
  engine ← append_note_at warned.engine (length warned.engine.diags - 1) (previous_note previous)
  some (record warned { engine = engine })

unfoldable pub handle_define : State → Frame → ParsedDirective → Option State
handle_define st f d =
    if is_empty d.name
    then report_in st error (begin_loc f d) (codes "missing identifier in '#define' directive")
    else directive_range f d >>= λ loc.
        (let made = redefine st.macros d.name d.body loc in
          let stored = record st { macros = made.0 } in
          if defined st.macros d.name && (is_valid made.1.begin && is_valid made.1.end)
          then warn_redefined stored f d made.1
          else some stored)

unfoldable pub handle_undef : State → Frame → ParsedDirective → Option State
handle_undef st f d =
    if is_empty d.name
    then report_in st error (begin_loc f d) (codes "missing identifier in '#undef' directive")
    else some (record st { macros = (undef st.macros d.name).0 })

-- Opens a conditional; the directive and its range are those of the opener.
unfoldable pub open_cond : State → Frame → ParsedDirective → Bool → Option State
open_cond st f d taken = do
  loc ← directive_range f d
  some (put_conds st f (push_cond_frame f.cond_stack taken loc))

unfoldable pub handle_ifdef : State → Frame → ParsedDirective → Bool → Option State
handle_ifdef st f d negate =
    if is_empty d.name
    then (report_in st error (begin_loc f d)
          (codes "missing identifier in '#ifdef'/'#ifndef' directive")
        >>= λ st. open_cond st f d false)
    else open_cond st f d
        (if negate then not (defined st.macros d.name) else defined st.macros d.name)

unfoldable pub handle_if : Setting → State → Frame → ParsedDirective → Option State
handle_if env st f d = do
  v ← env.exprs.truthy st.sm st.macros st.engine d.if_expr (begin_loc f d)
  open_cond (record st { engine = v.1 }) f d v.0

unfoldable pub handle_else : State → Frame → ParsedDirective → Option State
handle_else st f d = elim (else_cond f.cond_stack) [
  | none ↦
      report_in st error (begin_loc f d)
        (codes "'#else' without matching '#if' / '#ifdef' / '#ifndef'")
  | some conds ↦ some (put_conds st f conds)
]

unfoldable pub handle_endif : State → Frame → ParsedDirective → Option State
handle_endif st f d = elim (end_cond f.cond_stack) [
  | none ↦
      report_in st error (begin_loc f d)
        (codes "'#endif' without matching '#if' / '#ifdef' / '#ifndef'")
  | some conds ↦ some (put_conds st f conds)
]

-- A line number with its name: the source manager learns it, and it is written out.
unfoldable pub relocate : State → Frame → ParsedDirective → ℕ → Bytes → Option State
relocate st f d n path = do
  at ← make f.fid (d.line_end_offset % 4294967296)
  sm ← add_directive st.sm at (n % 4294967296) path
  some (emit_line_directive (record st { sm = sm }) n path)

unfoldable pub handle_operand : State → Frame → ParsedDirective → Operand → Option State
handle_operand st f d malformed =
    report_in st error (begin_loc f d)
      (codes "'#line' directive must be followed by a positive integer (parser-note N14)")
handle_operand st f d overflowed = none
handle_operand st f d unterminated =
    report_in st error (begin_loc f d) (codes "'#line' directive: unterminated filename string")
handle_operand st f d (operand n path false) = relocate st f d n path
handle_operand st f d (operand n path true) = do
  reported ←
      report_in st error (begin_loc f d) (codes "'#line' directive: unexpected trailing content")
  relocate reported f d n path

unfoldable pub handle_line : Setting → State → Frame → ParsedDirective → Option State
handle_line env st f d = do
  s ← splice env.exprs st.sm st.macros (begin_loc f d) st.engine d.line_operand
  handle_operand (record st { engine = s.engine }) f d (parse_operand s.out)

abbrev max_include_depth : ℕ
max_include_depth = 256

-- `if (!trace.empty()) trace += " -> "`.
unfoldable pub with_arrow : Bytes → Bytes
with_arrow [] = []
with_arrow (c ∷ trace) = (c ∷ trace) ++ codes " -> "

-- The paths of the frames, the outermost first, with arrows between them.
unfoldable pub trace_of : State → List Frame → Option Bytes
trace_of st [] = some []
trace_of st (f ∷ frames) = do
  outer ← trace_of st frames
  path ← get_path st f.fid
  some (with_arrow outer ++ path)

unfoldable pub resolve_include : Setting → State → Frame → ParsedDirective → Option (Option Bytes)
resolve_include env st f d =
    if d.include_is_angle
    then some (find_angle env.exists env.search d.include_filename)
    else get_path st f.fid >>= λ path.
        some (find_quote env.exists env.search d.include_filename (dir_of path))

unfoldable pub enter_file : State → Frame → ParsedDirective → SourceManager → FileId → Option State
enter_file st f d sm inner = do
  path ← get_path (record st { sm = sm }) inner
  some (
      emit_line_directive
        (record st {
          sm = push_include_frame sm (begin_loc f d) inner;
          include_stack = new_frame inner ∷ st.include_stack;
        })
        1 path)

unfoldable pub open_include : State → Frame → ParsedDirective → Bytes → Added → Option State
open_include st f d path abort = none
open_include st f d path no_such_file =
    report_in st error (begin_loc f d) (codes "could not open include: '" ++ path ++ codes "'")
open_include st f d path (added sm inner) = enter_file st f d sm inner

unfoldable pub include_path :
    Setting → State → Frame → ParsedDirective → Option Bytes → Option State
include_path env st f d none =
    report_in st error (begin_loc f d)
      (codes "could not find include: '" ++ d.include_filename ++ codes "'")
include_path env st f d (some path) =
    if ltb max_include_depth (length st.include_stack + 1)
    then (trace_of st st.include_stack >>= λ trace.
        report_in st error (begin_loc f d)
          (codes "#include cycle detected: " ++ trace ++ codes " -> " ++ path))
    else open_include st f d path (load_file env.read st.sm path)

unfoldable pub handle_include : Setting → State → Frame → ParsedDirective → Option State
handle_include env st f d =
    if is_empty d.include_filename
    then report_in st error (begin_loc f d) (codes "could not find include: empty filename")
    else resolve_include env st f d >>= λ path. include_path env st f d path
