-- ===== src/Preprocess/Driver/Sticky.antt =====
-- lib/Preprocess/Preprocessor.cpp: what becomes of an error once it is reported, along a run.
use nslc.Basic.Diagnostics.{has_error}
use nslc.Basic.Manager.{pop_include_frame}
use nslc.Preprocess.Conditionals.{CondFrame}
use nslc.Preprocess.Directives.{
  ParsedDirective, DirectiveKind, none_kind, include_kind, define_kind, undef_kind, ifdef_kind,
  ifndef_kind, if_kind, else_kind, endif_kind, line_kind, unknown_kind,
}
use nslc.Preprocess.Driver.Growth.{
  Grows, KeepsErrors, Grows-refl, Grows-trans, report_in-Grows, report_after, terminate-Grows,
  splice-Grown, handle_define-Grows, handle_undef-Grows, open_cond-Grows, handle_ifdef-Grows,
  handle_else-Grows, handle_endif-Grows, handle_operand-Grows, handle_include-Grows,
}
use nslc.Preprocess.Driver.Handlers.{handle_if, handle_line}
use nslc.Preprocess.Driver.Lines.{Line, read_line, parse_operand}
use nslc.Preprocess.Driver.Loop.{
  report_open, resume, end_frame, terminate, report_helpers, report_floats, pass_through,
  unknown_directive, dispatch, process_line, round_on, finished, run_loop, result_of,
}
use nslc.Preprocess.Driver.State.{Frame, State, Setting, get_path, emit_line_directive, put_top}
use nslc.Preprocess.Seam.{Offence}
use nslc.Prelude.{
  ℕ, zero, suc, ◌≡◌, refl, Bool, true, false, List, [], ◌∷◌, Option, none, some, Ensures,
  Ensures-some, Ensures-bind, Ensures-after, Ensures-if, Ensures-mono, arith, Option-cases, inl,
  inr, ◌⊎◌,
}

report_open-Grows :
    (st : State) (conds : List CondFrame) → Ensures (report_open st conds) (Grows st)
unfolding report_open
report_open-Grows st [] = Ensures-some (Grows-refl st)
report_open-Grows st (cf ∷ conds) =
    Ensures-bind _ _ (report_open-Grows st conds) (λ outer g. report_after st outer _ _ _ g)

resume-Grows :
    (st st' : State) (frames : List Frame) → Grows st st' → Ensures (resume st' frames) (Grows st)
unfolding resume emit_line_directive
resume-Grows st st' [] g = Ensures-some (record { more = g.more })
resume-Grows st st' (outer ∷ frames) g = Ensures-after (pop_include_frame st'.sm) _ (λ sm.
    Ensures-after (get_path st' outer.fid) _ (λ path.
      Ensures-some
        {a = emit_line_directive (record st' { sm = sm; include_stack = outer ∷ frames })
          outer.physical_line path}
        (record { more = g.more })))

report_helpers-Grows :
    (st st' : State) (f : Frame) (base : ℕ) (os : List Offence)
    → Grows st st'
    → Ensures (report_helpers st' f base os) (Grows st)
unfolding report_helpers
report_helpers-Grows st st' f base [] g = Ensures-some g
report_helpers-Grows st st' f base (o ∷ os) g =
    Ensures-bind _ _ (report_after st st' _ _ _ g)
      (λ after h. report_helpers-Grows st after f base os h)

report_floats-Grows :
    (st st' : State) (f : Frame) (base : ℕ) (os : List Offence)
    → Grows st st'
    → Ensures (report_floats st' f base os) (Grows st)
unfolding report_floats
report_floats-Grows st st' f base [] g = Ensures-some g
report_floats-Grows st st' f base (o ∷ os) g =
    Ensures-bind _ _ (report_after st st' _ _ _ g)
      (λ after h. report_floats-Grows st after f base os h)

terminated : (st : State) (had_newline : Bool) → Ensures (terminate had_newline st) (Grows st)
unfolding terminate
terminated st had = Ensures-some (record { more = omega arith })

module _ (env : Setting) (keeps : KeepsErrors env.exprs) (f : Frame) where
  handle_if-Grows : (st : State) (d : ParsedDirective) → Ensures (handle_if env st f d) (Grows st)
  unfolding handle_if
  handle_if-Grows st d =
      Ensures-bind _ _ (keeps.truthy st.sm st.macros st.engine _ _)
        (λ v g. open_cond-Grows f d st _ v.0 (record { more = g.more }))

  handle_line-Grows :
      (st : State) (d : ParsedDirective) → Ensures (handle_line env st f d) (Grows st)
  unfolding handle_line
  handle_line-Grows st d =
      Ensures-bind _ _ (splice-Grown env.exprs keeps st.sm st.macros _ st.engine _)
        (λ s g. handle_operand-Grows f d st _ (parse_operand s.out) (record { more = g.more }))

  pass_through-Grows :
      (st : State) (base : ℕ) (line : Line) → Ensures (pass_through env st f base line) (Grows st)
  unfolding pass_through terminate
  pass_through-Grows st base line =
      Ensures-bind _ _ (splice-Grown env.exprs keeps st.sm st.macros _ st.engine _) (λ s g.
        Ensures-bind _ _ (report_helpers-Grows st _ f base _ (record { more = g.more }))
          (λ helpers h.
            Ensures-bind _ _ (report_floats-Grows st helpers f base _ h)
              (λ floats k. Ensures-some (record { more = k.more }))))

  dispatch-Grows :
      (st : State) (emitting : Bool) (base : ℕ) (line : Line) (d : ParsedDirective)
      (kind : DirectiveKind)
      → Ensures (dispatch env st f emitting base line d kind) (Grows st)
  unfolding dispatch unknown_directive
  dispatch-Grows st emitting base line d none_kind =
      Ensures-if _ _ _ (pass_through-Grows st base line) (terminated st _)
  dispatch-Grows st emitting base line d define_kind =
      terminate-Grows st _ _
        (Ensures-if _ _ _ (handle_define-Grows f d st) (Ensures-some (Grows-refl st)))
  dispatch-Grows st emitting base line d undef_kind =
      terminate-Grows st _ _
        (Ensures-if _ _ _ (handle_undef-Grows f d st) (Ensures-some (Grows-refl st)))
  dispatch-Grows st emitting base line d ifdef_kind =
      terminate-Grows st _ _ (handle_ifdef-Grows f d st false)
  dispatch-Grows st emitting base line d ifndef_kind =
      terminate-Grows st _ _ (handle_ifdef-Grows f d st true)
  dispatch-Grows st emitting base line d if_kind = terminate-Grows st _ _ (handle_if-Grows st d)
  dispatch-Grows st emitting base line d else_kind =
      terminate-Grows st _ _ (handle_else-Grows f d st)
  dispatch-Grows st emitting base line d endif_kind =
      terminate-Grows st _ _ (handle_endif-Grows f d st)
  dispatch-Grows st emitting base line d line_kind =
      Ensures-if _ _ _ (handle_line-Grows st d) (terminated st _)
  dispatch-Grows st emitting base line d include_kind =
      Ensures-if _ _ _ (handle_include-Grows f d env st) (terminated st _)
  dispatch-Grows st emitting base line d unknown_kind =
      terminate-Grows st _ _
        (Ensures-if _ _ _ (report_in-Grows st _ _ _) (Ensures-some (Grows-refl st)))

module _ (env : Setting) (keeps : KeepsErrors env.exprs) where
  process_line-Grows :
      (st : State) (f : Frame) (line : Line) → Ensures (process_line env st f line) (Grows st)
  unfolding process_line put_top
  process_line-Grows st f line =
      Ensures-mono _ (λ st' g. record { more = g.more })
        (dispatch-Grows env keeps _ (put_top st _) _ _ line _ _)

  read-Grows :
      (st : State) (f : Frame) (frames : List Frame) (o : Option Line)
      → Ensures
          (elim o [ none ↦ end_frame st f frames | some line ↦ process_line env st f line ])
          (Grows st)
  unfolding end_frame
  read-Grows st f frames none =
      Ensures-bind _ _ (report_open-Grows st f.cond_stack) (λ st' g. resume-Grows st st' frames g)
  read-Grows st f frames (some line) = process_line-Grows st f line

  round_on-Grows :
      (st : State) (f : Frame) (frames : List Frame) → Ensures (round_on env st f frames) (Grows st)
  unfolding round_on
  round_on-Grows st f frames =
      Ensures-after _ _ (λ b. read-Grows st f frames (read_line b.bytes f.cursor))

  run_loop_end :
      (fuel : ℕ) (st after : State)
      → st.include_stack ≡ []
      → run_loop env (suc fuel) st ≡ finished after
      → after ≡ st
  unfolding run_loop
  run_loop_end fuel st after top e = ground arith

  run_loop_round :
      (fuel : ℕ) (st after : State) (f : Frame) (frames : List Frame)
      → st.include_stack ≡ f ∷ frames
      → run_loop env (suc fuel) st ≡ finished after
      → (next : State) × (round_on env st f frames ≡ some next)
        × (run_loop env fuel next ≡ finished after)
  unfolding run_loop
  run_loop_round fuel st after f frames top e = elim (Option-cases (round_on env st f frames)) [
    | inl n ↦ ground (arith, n)
    | inr s ↦ (s.0, s.1, ground (arith, s.1))
  ]

  run_loop-Grows :
      (fuel : ℕ) (st after : State) → run_loop env fuel st ≡ finished after → Grows st after
  run_loop-Grows zero st after e = unfold run_loop in ground arith
  run_loop-Grows (suc fuel) st after e = elim (stack_cases st.include_stack) [
    | inl top ↦ rw (run_loop_end fuel st after top e) (Grows-refl st)
    | inr (f, frames, top) ↦
        let round = run_loop_round fuel st after f frames top e in
        Grows-trans ((round_on-Grows st f frames).gives round.0 round.1)
          (run_loop-Grows fuel round.0 after round.2)
  ]
    where
      stack_cases :
          (fs : List Frame) → (fs ≡ []) ⊎ ((f : Frame) × (frames : List Frame) × (fs ≡ f ∷ frames))
      stack_cases [] = inl refl
      stack_cases (f ∷ frames) = inr (f, frames, refl)

  -- Where the evaluation of expressions takes no report back, a run that is at a state with an error
  -- reported, whatever the rest of the files holds, ends without a text if it finishes.
  pub run_loop-error :
      (fuel : ℕ) (st after : State)
      → has_error st.engine ≡ true
      → run_loop env fuel st ≡ finished after
      → result_of after ≡ none
  unfolding result_of has_error
  run_loop-error fuel st after h e = ground (arith, (run_loop-Grows fuel st after e).more)
