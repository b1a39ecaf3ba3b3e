-- ===== src/Preprocess/Driver/Growth.antt =====
-- lib/Preprocess/Preprocessor.cpp and IdentSplicer.cpp: the counter of errors behind each handler of a directive.
use nslc.Basic.Diagnostics.{
  Severity, note, warning, error, Note, Diagnostic, DiagnosticEngine, report, counted,
  append_note_at,
}
use nslc.Basic.Location.{SourceLocation, SourceRange, make}
use nslc.Basic.Manager.{SourceManager, Added, added, no_such_file, abort, load_file, add_directive}
use nslc.Preprocess.Conditionals.{CondFrame, else_cond, end_cond}
use nslc.Preprocess.Directives.{ParsedDirective, is_empty}
use nslc.Preprocess.Driver.Handlers.{
  warn_redefined, handle_define, handle_undef, open_cond, handle_ifdef, handle_else, handle_endif,
  relocate, handle_operand, enter_file, open_include, include_path, handle_include,
}
use nslc.Preprocess.Driver.Lines.{Operand, malformed, overflowed, unterminated, operand}
use nslc.Preprocess.Driver.Loop.{terminate}
use nslc.Preprocess.Driver.State.{
  Frame, State, Setting, report_in, directive_range, emit_line_directive, put_conds, put_top,
}
use nslc.Preprocess.Expander.{Piece, verbatim, reference}
use nslc.Preprocess.Macros.{MacroDef, MacroTable, lookup, redefine}
use nslc.Preprocess.Splicer.{Expressions, line_piece, splice_piece, splice_loop, splice}
use nslc.Prelude.{
  ℕ, zero, suc, ◌≤◌, ◌≡◌, Bytes, Bool, true, false, List, [], ◌∷◌, Option, none, some, ◌>>=◌,
  length, Ensures, Ensures-some, Ensures-none, Ensures-bind, Ensures-after, Ensures-if,
  Ensures-mono, arith, Option-cases, inl, inr, ◌%◌,
}

pub record Grown (before after : DiagnosticEngine) : Type 0 where
  pub more : before.error_count ≤ after.error_count

-- No error is lost from one state to the other.
pub record Grows (before after : State) : Type 0 where
  pub more : before.engine.error_count ≤ after.engine.error_count

-- The evaluation of expressions reports errors and takes none back.
pub record KeepsErrors (exprs : Expressions) : Type 0 where
  pub reduced :
      (sm : SourceManager) (macros : MacroTable) (engine : DiagnosticEngine) (body : Bytes)
      (loc : SourceLocation)
      → Ensures (exprs.reduced sm macros engine body loc) (λ s. Grown engine s.engine)
  pub truthy :
      (sm : SourceManager) (macros : MacroTable) (engine : DiagnosticEngine) (text : Bytes)
      (loc : SourceLocation)
      → Ensures (exprs.truthy sm macros engine text loc) (λ v. Grown engine v.1)

Grown-refl : (engine : DiagnosticEngine) → Grown engine engine
Grown-refl engine = record { more = omega arith }

pub Grows-refl : (st : State) → Grows st st
Grows-refl st = record { more = omega arith }

Grown-trans : {a b c : DiagnosticEngine} → Grown a b → Grown b c → Grown a c
Grown-trans f g = record { more = omega (arith, f.more, g.more) }

pub Grows-trans : {a b c : State} → Grows a b → Grows b c → Grows a c
Grows-trans f g = record { more = omega (arith, f.more, g.more) }

counted-Grown :
    (sev : Severity) (engine : DiagnosticEngine) (ds : List Diagnostic)
    → Grown engine (counted sev (record engine { diags = ds }))
unfolding counted
counted-Grown note engine ds = record { more = omega arith }
counted-Grown warning engine ds = record { more = omega arith }
counted-Grown error engine ds = record { more = omega arith }

report-Grown :
    (sm : SourceManager) (engine : DiagnosticEngine) (sev : Severity) (loc : SourceLocation)
    (msg : Bytes)
    → Ensures (report sm engine sev loc msg) (Grown engine)
unfolding report
report-Grown sm engine sev loc msg =
    Ensures-after _ _ (λ notes. Ensures-some (counted-Grown sev engine _))

pub report_in-Grows :
    (st : State) (sev : Severity) (loc : SourceLocation) (msg : Bytes)
    → Ensures (report_in st sev loc msg) (Grows st)
unfolding report_in
report_in-Grows st sev loc msg =
    Ensures-bind _ _ (report-Grown st.sm st.engine sev loc msg)
      (λ engine g. Ensures-some (record { more = g.more }))

append_note_at-Grown :
    (engine : DiagnosticEngine) (i : ℕ) (n : Note)
    → Ensures (append_note_at engine i n) (Grown engine)
unfolding append_note_at
append_note_at-Grown engine i n =
    Ensures-after _ _ (λ d. Ensures-some (record { more = omega arith }))

-- The same with the report made from a later state.
pub report_after :
    (st st' : State) (sev : Severity) (loc : SourceLocation) (msg : Bytes)
    → Grows st st'
    → Ensures (report_in st' sev loc msg) (Grows st)
report_after st st' sev loc msg g =
    Ensures-mono _ (λ after h. Grows-trans g h) (report_in-Grows st' sev loc msg)

pub terminate-Grows :
    (st : State) (had_newline : Bool) (m : Option State)
    → Ensures m (Grows st)
    → Ensures (m >>= terminate had_newline) (Grows st)
unfolding terminate
terminate-Grows st had m h = Ensures-bind _ _ h (λ st' g. Ensures-some (record { more = g.more }))

module _ (exprs : Expressions) (keeps : KeepsErrors exprs) (sm : SourceManager)
    (macros : MacroTable) (line_loc : SourceLocation) where
  defined-Grown :
      (at : ℕ) (engine : DiagnosticEngine) (name text : Bytes) (d : MacroDef)
      → lookup macros name ≡ some d
      → Ensures
          (splice_piece exprs sm macros line_loc at engine (reference name text))
          (λ s. Grown engine s.engine)
  unfolding splice_piece
  defined-Grown at engine name text d e =
      rw (e, splice_piece)
        (Ensures-if _ _ _ (keeps.reduced sm macros engine d.body _)
          (Ensures-some (Grown-refl engine)))

  splice_piece-Grown :
      (at : ℕ) (engine : DiagnosticEngine) (p : Piece)
      → Ensures (splice_piece exprs sm macros line_loc at engine p) (λ s. Grown engine s.engine)
  unfolding splice_piece
  splice_piece-Grown at engine (verbatim text) = Ensures-some (Grown-refl engine)
  splice_piece-Grown at engine (reference name text) = elim (Option-cases (lookup macros name)) [
    | inl n ↦
        rw (n, splice_piece)
          (Ensures-bind _ _ (report-Grown sm engine warning _ _) (λ after g. Ensures-some g))
    | inr s ↦ defined-Grown at engine name text (s.0) (s.1)
  ]

  splice_loop-Grown :
      (fuel at : ℕ) (engine : DiagnosticEngine) (text : Bytes)
      → Ensures
          (splice_loop exprs sm macros line_loc fuel at engine text)
          (λ s. Grown engine s.engine)
  unfolding splice_loop
  splice_loop-Grown zero at engine text = Ensures-some (Grown-refl engine)
  splice_loop-Grown (suc fuel) at engine [] = Ensures-some (Grown-refl engine)
  splice_loop-Grown (suc fuel) at engine (c ∷ r) =
      Ensures-bind _ _ (splice_piece-Grown at engine (line_piece c r)) (λ first g.
        Ensures-bind _ _ (splice_loop-Grown fuel _ first.engine _)
          (λ later h. Ensures-some (Grown-trans g h)))

  pub splice-Grown :
      (engine : DiagnosticEngine) (text : Bytes)
      → Ensures (splice exprs sm macros line_loc engine text) (λ s. Grown engine s.engine)
  unfolding splice
  splice-Grown engine text = splice_loop-Grown (length text) 0 engine text

module _ (f : Frame) (d : ParsedDirective) where
  warn_redefined-Grows :
      (st : State) (previous : SourceRange) → Ensures (warn_redefined st f d previous) (Grows st)
  unfolding warn_redefined
  warn_redefined-Grows st previous = Ensures-bind _ _ (report_in-Grows st _ _ _) (λ warned g.
      Ensures-bind _ _ (append_note_at-Grown warned.engine _ _)
        (λ engine h. Ensures-some (record { more = omega (arith, g.more, h.more) })))

  pub handle_define-Grows : (st : State) → Ensures (handle_define st f d) (Grows st)
  unfolding handle_define
  handle_define-Grows st = Ensures-if (is_empty d.name) _ _ (report_in-Grows st _ _ _) (
      Ensures-after (directive_range f d) _ (λ loc.
        let made = redefine st.macros d.name d.body loc in
        let stored = record st { macros = made.0 } in
        Ensures-if _ _ _
          (Ensures-mono (warn_redefined stored f d (made.1)) (λ st' g. record { more = g.more })
            (warn_redefined-Grows stored (made.1)))
          (Ensures-some (record { more = omega arith }))))

  pub handle_undef-Grows : (st : State) → Ensures (handle_undef st f d) (Grows st)
  unfolding handle_undef
  handle_undef-Grows st =
      Ensures-if _ _ _ (report_in-Grows st _ _ _) (Ensures-some (record { more = omega arith }))

  pub open_cond-Grows :
      (st st' : State) (taken : Bool) → Grows st st' → Ensures (open_cond st' f d taken) (Grows st)
  unfolding open_cond put_top
  open_cond-Grows st st' taken g =
      Ensures-after _ _ (λ loc. Ensures-some (record { more = g.more }))

  pub handle_ifdef-Grows :
      (st : State) (negate : Bool) → Ensures (handle_ifdef st f d negate) (Grows st)
  unfolding handle_ifdef
  handle_ifdef-Grows st negate =
      Ensures-if _ _ _
        (Ensures-bind _ _ (report_in-Grows st _ _ _) (λ st' g. open_cond-Grows st st' false g))
        (open_cond-Grows st st _ (Grows-refl st))

  stray-Grows :
      (st : State) (o : Option (List CondFrame)) (msg : Bytes) (loc : SourceLocation)
      → Ensures
          (elim o [ none ↦ report_in st error loc msg | some conds ↦ some (put_conds st f conds) ])
          (Grows st)
  unfolding put_top
  stray-Grows st none msg loc = report_in-Grows st error loc msg
  stray-Grows st (some conds) msg loc = Ensures-some (record { more = omega arith })

  pub handle_else-Grows : (st : State) → Ensures (handle_else st f d) (Grows st)
  unfolding handle_else
  handle_else-Grows st = stray-Grows st (else_cond f.cond_stack) _ _

  pub handle_endif-Grows : (st : State) → Ensures (handle_endif st f d) (Grows st)
  unfolding handle_endif
  handle_endif-Grows st = stray-Grows st (end_cond f.cond_stack) _ _

  relocate-Grows :
      (st st' : State) (n : ℕ) (path : Bytes)
      → Grows st st'
      → Ensures (relocate st' f d n path) (Grows st)
  unfolding relocate emit_line_directive
  relocate-Grows st st' n path g =
      Ensures-after (make f.fid (d.line_end_offset % 4294967296)) _ (λ at.
        Ensures-after (add_directive st'.sm at (n % 4294967296) path) _ (λ sm.
          Ensures-some {a = emit_line_directive (record st' { sm = sm }) n path}
            (record { more = g.more })))

  pub handle_operand-Grows :
      (st st' : State) (o : Operand) → Grows st st' → Ensures (handle_operand st' f d o) (Grows st)
  unfolding handle_operand
  handle_operand-Grows st st' malformed g = report_after st st' _ _ _ g
  handle_operand-Grows st st' overflowed g = Ensures-none
  handle_operand-Grows st st' unterminated g = report_after st st' _ _ _ g
  handle_operand-Grows st st' (operand n path false) g = relocate-Grows st st' n path g
  handle_operand-Grows st st' (operand n path true) g =
      Ensures-bind _ _ (report_after st st' _ _ _ g) (λ after h. relocate-Grows st after n path h)

  enter_file-Grows :
      (st : State) (sm : SourceManager) (inner : ℕ)
      → Ensures (enter_file st f d sm inner) (Grows st)
  unfolding enter_file emit_line_directive
  enter_file-Grows st sm inner =
      Ensures-after _ _ (λ path. Ensures-some (record { more = omega arith }))

  open_include-Grows :
      (st : State) (path : Bytes) (a : Added) → Ensures (open_include st f d path a) (Grows st)
  unfolding open_include
  open_include-Grows st path abort = Ensures-none
  open_include-Grows st path no_such_file = report_in-Grows st _ _ _
  open_include-Grows st path (added sm inner) = enter_file-Grows st sm inner

  include_path-Grows :
      (env : Setting) (st : State) (path : Option Bytes)
      → Ensures (include_path env st f d path) (Grows st)
  unfolding include_path
  include_path-Grows env st none = report_in-Grows st _ _ _
  include_path-Grows env st (some path) =
      Ensures-if _ _ _ (Ensures-after _ _ (λ trace. report_in-Grows st _ _ _))
        (open_include-Grows st path (load_file env.read st.sm path))

  pub handle_include-Grows :
      (env : Setting) (st : State) → Ensures (handle_include env st f d) (Grows st)
  unfolding handle_include
  handle_include-Grows env st =
      Ensures-if _ _ _ (report_in-Grows st _ _ _)
        (Ensures-after _ _ (λ path. include_path-Grows env st path))
