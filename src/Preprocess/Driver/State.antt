-- ===== src/Preprocess/Driver/State.antt =====
-- The frames, the state, and what every handler does to it: reports and `#line` in the output.
use nslc.Basic.Diagnostics.{DiagnosticEngine, Severity, report}
use nslc.Basic.Location.{
  FileId, SourceLocation, SourceRange, no_location, make, make_range, max_offset,
}
use nslc.Basic.Manager.{SourceManager, buffer_or_null}
use nslc.Preprocess.Conditionals.{CondFrame}
use nslc.Preprocess.Directives.{ParsedDirective}
use nslc.Preprocess.Macros.{MacroTable}
use nslc.Preprocess.Search.{IncludeSearchPath}
use nslc.Preprocess.Splicer.{Expressions}
use nslc.Prelude.{
  ℕ, ◌-◌, ◌%◌, Bytes, codes, decimal, Bool, List, [], ◌∷◌, ◌++◌, Option, none, some, ◌>>=◌,
  if◌then◌else◌, leb,
}

pub record Frame : Type 0 where
  pub fid : FileId
  pub cursor : ℕ
  pub physical_line : ℕ
  pub cond_stack : List CondFrame

abbrev pub new_frame : FileId → Frame
new_frame fid = record { fid = fid; cursor = 0; physical_line = 1; cond_stack = [] }

-- `include_stack` has its back first.
pub record State : Type 0 where
  pub sm : SourceManager
  pub engine : DiagnosticEngine
  pub macros : MacroTable
  pub include_stack : List Frame
  pub output : Bytes

-- What the preprocessor is built with: the search path, the file system, and the expressions.
pub record Setting : Type 0 where
  pub search : IncludeSearchPath
  pub exists : Bytes → Bool
  pub read : Bytes → Option Bytes
  pub exprs : Expressions

-- `none` stands for an abort, here and below.
unfoldable pub report_in : State → Severity → SourceLocation → Bytes → Option State
report_in st sev loc msg = do
  engine ← report st.sm st.engine sev loc msg
  some (record st { engine = engine })

-- An offset that does not fit is cut.
unfoldable pub loc_for : Frame → ℕ → SourceLocation
loc_for f off = elim (make f.fid (if leb max_offset off then max_offset - 1 else off)) [
  | none ↦ no_location
  | some l ↦ l
]

abbrev pub begin_loc : Frame → ParsedDirective → SourceLocation
begin_loc f d = loc_for f d.line_begin_offset

unfoldable pub directive_range : Frame → ParsedDirective → Option SourceRange
directive_range f d = make_range (begin_loc f d) (loc_for f d.line_end_offset)

unfoldable pub get_path : State → FileId → Option Bytes
get_path st fid = do b ← buffer_or_null st.sm fid; some b.path

abbrev pub quoted_path : Bytes → Bytes
quoted_path [] = []
quoted_path (c ∷ path) = codes " \"" ++ (c ∷ path) ++ codes "\""

abbrev pub line_directive : ℕ → Bytes → Bytes
line_directive n path =
    codes "#line " ++ (decimal (n % 4294967296) ++ (quoted_path path ++ codes "\n"))

unfoldable pub emit_line_directive : State → ℕ → Bytes → State
emit_line_directive st n path = record st { output = st.output ++ line_directive n path }

-- Sets the frame on top.
unfoldable pub put_top : State → Frame → State
put_top st f = record st {
  include_stack = elim st.include_stack [ [] ↦ [] | _ ∷ frames ↦ f ∷ frames ];
}

abbrev pub put_conds : State → Frame → List CondFrame → State
put_conds st f conds = put_top st (record f { cond_stack = conds })
