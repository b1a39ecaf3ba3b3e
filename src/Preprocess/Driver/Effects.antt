-- ===== src/Preprocess/Driver/Effects.antt =====
-- What the handlers leave as it is: the bytes of the buffers, the frames, and the include frames of the
-- source manager.
use nslc.Basic.Diagnostics.{Severity, error}
use nslc.Basic.Location.{SourceLocation, SourceRange}
use nslc.Basic.Manager.{buffer_or_null}
use nslc.Basic.Manager.Grows.{Extends, add_directive-Extends}
use nslc.Preprocess.Conditionals.{CondFrame, else_cond, end_cond}
use nslc.Preprocess.Directives.{ParsedDirective, is_empty}
use nslc.Preprocess.Driver.Handlers.{
  relocate, handle_operand, handle_line, warn_redefined, handle_define, handle_undef, open_cond,
  handle_ifdef, handle_if, handle_else, handle_endif,
}
use nslc.Preprocess.Driver.Lines.{
  Operand, malformed, overflowed, unterminated, operand, parse_operand,
}
use nslc.Preprocess.Driver.State.{
  Frame, State, Setting, report_in, emit_line_directive, begin_loc, directive_range, put_conds,
  put_top,
}
use nslc.Preprocess.Macros.{redefine}
use mathlib.Core.Path.{subst}
use nslc.Prelude.{
  ℕ, ◌≡◌, refl, ap, ◌∙◌, Bytes, Bool, true, false, List, ◌∷◌, Option, none, some, Ensures,
  Ensures-some, Ensures-bind, Ensures-after, Ensures-if, Ensures-mono, Ensures-none,
}

-- Only reports, macros and the output change.
pub record Quiet (st st' : State) : Type 0 where
  pub same_manager : st'.sm ≡ st.sm
  pub same_stack : st'.include_stack ≡ st.include_stack

pub Quiet-refl : (st : State) → Quiet st st
Quiet-refl st = record { same_manager = refl; same_stack = refl }

pub Quiet-trans : (a b c : State) → Quiet a b → Quiet b c → Quiet a c
Quiet-trans a b c h k = record {
  same_manager = k.same_manager ∙ h.same_manager;
  same_stack = k.same_stack ∙ h.same_stack;
}

-- The frame `f` on top of `frames` may change its conditionals, and a buffer its line directives.
pub record Kept (f : Frame) (frames : List Frame) (st st' : State) : Type 0 where
  pub frame : Frame
  pub stack : st'.include_stack ≡ frame ∷ frames
  pub same_file : frame.fid ≡ f.fid
  pub same_cursor : frame.cursor ≡ f.cursor
  pub extends : Extends st.sm st'.sm
  pub same_includes : st'.sm.include_stack ≡ st.sm.include_stack

pub Kept-Quiet :
    (f : Frame) (frames : List Frame) (st st' : State)
    → st.include_stack ≡ f ∷ frames
    → Quiet st st'
    → Kept f frames st st'
Kept-Quiet f frames st st' top q = record {
  frame = f;
  stack = q.same_stack ∙ top;
  same_file = refl;
  same_cursor = refl;
  extends = λ fid b e. (b, ap (λ sm. buffer_or_null sm fid) (q.same_manager) ∙ e, refl);
  same_includes = ap (λ sm. sm.include_stack) (q.same_manager);
}

pub report_in-Quiet :
    (st : State) (sev : Severity) (loc : SourceLocation) (msg : Bytes)
    → Ensures (report_in st sev loc msg) (Quiet st)
unfolding report_in
report_in-Quiet st sev loc msg =
    Ensures-after _ _ (λ engine. Ensures-some (record { same_manager = refl; same_stack = refl }))

module _ (f : Frame) (d : ParsedDirective) where
  warn_redefined-Quiet :
      (st : State) (previous : SourceRange) → Ensures (warn_redefined st f d previous) (Quiet st)
  unfolding warn_redefined
  warn_redefined-Quiet st previous = Ensures-bind _ _ (report_in-Quiet st _ _ _) (λ warned q.
      Ensures-after _ _ (λ engine.
        Ensures-some (record { same_manager = q.same_manager; same_stack = q.same_stack })))

  pub handle_define-Quiet : (st : State) → Ensures (handle_define st f d) (Quiet st)
  unfolding handle_define
  handle_define-Quiet st = Ensures-if (is_empty d.name) _ _ (report_in-Quiet st _ _ _) (
      Ensures-after (directive_range f d) _ (λ loc.
        let made = redefine st.macros d.name d.body loc in
        let stored = record st { macros = made.0 } in
        Ensures-if _ _ _
          (Ensures-mono (warn_redefined stored f d (made.1))
            (λ st' q. record { same_manager = q.same_manager; same_stack = q.same_stack })
            (warn_redefined-Quiet stored (made.1)))
          (Ensures-some (record { same_manager = refl; same_stack = refl }))))

  pub handle_undef-Quiet : (st : State) → Ensures (handle_undef st f d) (Quiet st)
  unfolding handle_undef
  handle_undef-Quiet st =
      Ensures-if (is_empty d.name) _ _ (report_in-Quiet st _ _ _)
        (Ensures-some (record { same_manager = refl; same_stack = refl }))

  module _ (frames : List Frame) where
    put_conds-Kept :
        (st st' : State) (conds : List CondFrame)
        → st.include_stack ≡ f ∷ frames
        → Quiet st st'
        → Kept f frames st (put_conds st' f conds)
    unfolding put_top
    put_conds-Kept st st' conds top q =
        rw (q.same_stack, top)
          (record {
            frame = record f { cond_stack = conds };
            stack = refl;
            same_file = refl;
            same_cursor = refl;
            extends = λ fid b e. (b, ap (λ sm. buffer_or_null sm fid) (q.same_manager) ∙ e, refl);
            same_includes = ap (λ sm. sm.include_stack) (q.same_manager);
          })

    open_cond-Kept :
        (st st' : State) (taken : Bool)
        → st.include_stack ≡ f ∷ frames
        → Quiet st st'
        → Ensures (open_cond st' f d taken) (Kept f frames st)
    unfolding open_cond
    open_cond-Kept st st' taken top q =
        Ensures-after _ _ (λ loc. Ensures-some (put_conds-Kept st st' _ top q))

    pub handle_ifdef-Kept :
        (st : State) (negate : Bool)
        → st.include_stack ≡ f ∷ frames
        → Ensures (handle_ifdef st f d negate) (Kept f frames st)
    unfolding handle_ifdef
    handle_ifdef-Kept st negate top =
        Ensures-if (is_empty d.name) _ _
          (Ensures-bind _ _ (report_in-Quiet st _ _ _) (λ st' q. open_cond-Kept st st' false top q))
          (open_cond-Kept st st _ top (Quiet-refl st))

    pub handle_if-Kept :
        (env : Setting) (st : State)
        → st.include_stack ≡ f ∷ frames
        → Ensures (handle_if env st f d) (Kept f frames st)
    unfolding handle_if
    handle_if-Kept env st top = Ensures-after _ _ (λ v.
        open_cond-Kept st (record st { engine = v.1 }) (v.0) top
          (record { same_manager = refl; same_stack = refl }))

    stray-Kept :
        (st : State) (o : Option (List CondFrame)) (msg : Bytes)
        → st.include_stack ≡ f ∷ frames
        → Ensures
            (elim o [
              | none ↦ report_in st error (begin_loc f d) msg
              | some conds ↦ some (put_conds st f conds)
            ])
            (Kept f frames st)
    stray-Kept st none msg top =
        Ensures-mono _ (λ st' q. Kept-Quiet f frames st st' top q) (report_in-Quiet st _ _ _)
    stray-Kept st (some conds) msg top =
        Ensures-some (put_conds-Kept st st conds top (Quiet-refl st))

    pub handle_else-Kept :
        (st : State)
        → st.include_stack ≡ f ∷ frames
        → Ensures (handle_else st f d) (Kept f frames st)
    unfolding handle_else
    handle_else-Kept st top = stray-Kept st (else_cond f.cond_stack) _ top

    pub handle_endif-Kept :
        (st : State)
        → st.include_stack ≡ f ∷ frames
        → Ensures (handle_endif st f d) (Kept f frames st)
    unfolding handle_endif
    handle_endif-Kept st top = stray-Kept st (end_cond f.cond_stack) _ top

    relocate-Kept :
        (st st' : State) (n : ℕ) (path : Bytes)
        → st.include_stack ≡ f ∷ frames
        → Quiet st st'
        → Ensures (relocate st' f d n path) (Kept f frames st)
    unfolding relocate emit_line_directive
    relocate-Kept st st' n path top q = Ensures-after _ _ (λ at.
        Ensures-bind _ _ (add_directive-Extends st'.sm at _ path) (λ sm grown.
          Ensures-some (record {
            frame = f;
            stack = q.same_stack ∙ top;
            same_file = refl;
            same_cursor = refl;
            extends = subst (λ m. Extends m sm) (q.same_manager) (grown.0);
            same_includes = grown.1 ∙ ap (λ m. m.include_stack) (q.same_manager);
          })))

    handle_operand-Kept :
        (st st' : State) (o : Operand)
        → st.include_stack ≡ f ∷ frames
        → Quiet st st'
        → Ensures (handle_operand st' f d o) (Kept f frames st)
    unfolding handle_operand
    handle_operand-Kept st st' malformed top q =
        Ensures-mono _ (λ st'' r. Kept-Quiet f frames st st'' top (Quiet-trans st st' st'' q r))
          (report_in-Quiet st' _ _ _)
    handle_operand-Kept st st' overflowed top q = Ensures-none
    handle_operand-Kept st st' unterminated top q =
        Ensures-mono _ (λ st'' r. Kept-Quiet f frames st st'' top (Quiet-trans st st' st'' q r))
          (report_in-Quiet st' _ _ _)
    handle_operand-Kept st st' (operand n path false) top q = relocate-Kept st st' n path top q
    handle_operand-Kept st st' (operand n path true) top q =
        Ensures-bind _ _ (report_in-Quiet st' _ _ _)
          (λ st'' r. relocate-Kept st st'' n path top (Quiet-trans st st' st'' q r))

    pub handle_line-Kept :
        (env : Setting) (st : State)
        → st.include_stack ≡ f ∷ frames
        → Ensures (handle_line env st f d) (Kept f frames st)
    unfolding handle_line
    handle_line-Kept env st top = Ensures-after _ _ (λ s.
        handle_operand-Kept st (record st { engine = s.engine }) (parse_operand s.out) top
          (record { same_manager = refl; same_stack = refl }))
