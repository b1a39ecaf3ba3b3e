-- ===== src/Preprocess/Driver/Rounds.antt =====
-- What a round of the loop does to the frames: it reads on in the frame on top, enters a file, or leaves
-- one.
use nslc.Basic.Manager.{
  SourceManager, Buffer, buffer_or_null, Added, added, no_such_file, abort, load_file,
  push_include_frame, pop_include_frame,
}
use nslc.Basic.Manager.Grows.{
  Extends, Extends-trans, Extends-eq, load_file-Extends, load_file-include_stack,
}
use nslc.Preprocess.Conditionals.{CondFrame}
use nslc.Preprocess.Directives.{
  ParsedDirective, DirectiveKind, none_kind, include_kind, define_kind, undef_kind, ifdef_kind,
  ifndef_kind, if_kind, else_kind, endif_kind, line_kind, unknown_kind, is_empty,
}
use nslc.Preprocess.Driver.Effects.{
  Quiet, Quiet-refl, Quiet-trans, Kept, Kept-Quiet, report_in-Quiet, handle_define-Quiet,
  handle_undef-Quiet, handle_ifdef-Kept, handle_if-Kept, handle_else-Kept, handle_endif-Kept,
  handle_line-Kept,
}
use nslc.Preprocess.Driver.Handlers.{enter_file, open_include, include_path, handle_include}
use nslc.Preprocess.Driver.Lines.{Line, read_line}
use nslc.Preprocess.Driver.Loop.{
  report_open, resume, end_frame, terminate, report_helpers, report_floats, pass_through,
  unknown_directive, dispatch, advanced, process_line, round_on,
}
use nslc.Preprocess.Driver.State.{Frame, new_frame, State, Setting, emit_line_directive, put_top}
use nslc.Preprocess.Seam.{Offence}
use nslc.Prelude.{
  ℕ, suc, ◌+◌, ◌<◌, ◌≤◌, ◌≡◌, refl, ap, ◌∙◌, Bytes, Bool, not, true, false, List, [], ◌∷◌, ◌++◌,
  Option, none, some, ◌>>=◌, ltb, ◌==◌, length, run_length-le, drop, length-drop, arith, Ensures,
  Ensures_self, Ensures-bind, Ensures-after, Ensures-if, Ensures-test, Ensures-mono, Ensures-none,
  Ensures-some,
}

-- The frame on top goes on, or a file is entered above it.
pub data Turned (f : Frame) (frames : List Frame) (st st' : State) : Type 0 where
  kept : Kept f frames st st' → Turned f frames st st'
  entered :
      (inner : Frame)
      → st'.include_stack ≡ inner ∷ f ∷ frames
      → Extends st.sm st'.sm
      → length (inner ∷ f ∷ frames) ≤ 256
      → length st'.sm.include_stack ≡ suc (length st.sm.include_stack)
      → Turned f frames st st'

module _ (f : Frame) (d : ParsedDirective) (frames : List Frame) where
  Quiet-Turned :
      (st : State) (m : Option State)
      → st.include_stack ≡ f ∷ frames
      → Ensures m (Quiet st)
      → Ensures m (Turned f frames st)
  Quiet-Turned st m top = Ensures-mono m (λ st' q. kept (Kept-Quiet f frames st st' top q))

  one_deeper :
      (inner : Frame) (stack : List Frame)
      → stack ≡ f ∷ frames
      → length stack + 1 ≤ 256
      → length (inner ∷ f ∷ frames) ≤ 256
  one_deeper inner stack top room = omega (arith, room, ap length top)

  open_include-Turned :
      (env : Setting) (st : State) (path : Bytes) (loaded : Added)
      → st.include_stack ≡ f ∷ frames
      → length st.include_stack + 1 ≤ 256
      → load_file env.read st.sm path ≡ loaded
      → Ensures (open_include st f d path loaded) (Turned f frames st)
  unfolding open_include enter_file emit_line_directive push_include_frame
  open_include-Turned env st path abort top room e = Ensures-none
  open_include-Turned env st path no_such_file top room e =
      Quiet-Turned st _ top (report_in-Quiet st _ _ _)
  open_include-Turned env st path (added sm inner) top room e = Ensures-after _ _ (λ label.
      Ensures-some (
        entered (new_frame inner) (ap (◌∷◌ (new_frame inner)) top)
          (Extends-trans st.sm sm _ (load_file-Extends env.read st.sm sm path inner e)
            (Extends-eq sm _ refl))
          (one_deeper (new_frame inner) st.include_stack top room)
          (ap (λ s. suc (length s)) (load_file-include_stack env.read st.sm sm path inner e))))

  include_path-Turned :
      (env : Setting) (st : State) (path : Option Bytes)
      → st.include_stack ≡ f ∷ frames
      → Ensures (include_path env st f d path) (Turned f frames st)
  unfolding include_path
  include_path-Turned env st none top = Quiet-Turned st _ top (report_in-Quiet st _ _ _)
  include_path-Turned env st (some path) top =
      Ensures-test (ltb 256 (length st.include_stack + 1)) _ _
        (λ deep. Ensures-after _ _ (λ trace. Quiet-Turned st _ top (report_in-Quiet st _ _ _)))
        (λ room.
          open_include-Turned env st path (load_file env.read st.sm path) top (ground arith) refl)

  handle_include-Turned :
      (env : Setting) (st : State)
      → st.include_stack ≡ f ∷ frames
      → Ensures (handle_include env st f d) (Turned f frames st)
  unfolding handle_include
  handle_include-Turned env st top =
      Ensures-if (is_empty d.include_filename) _ _
        (Quiet-Turned st _ top (report_in-Quiet st _ _ _))
        (Ensures-after _ _ (λ path. include_path-Turned env st path top))

  terminate-Turned :
      (had_newline : Bool) (st st' : State)
      → Kept f frames st st'
      → Ensures (terminate had_newline st') (Turned f frames st)
  unfolding terminate
  terminate-Turned had_newline st st' k = Ensures-some (
      kept (record {
        frame = k.frame;
        stack = k.stack;
        same_file = k.same_file;
        same_cursor = k.same_cursor;
        extends = k.extends;
        same_includes = k.same_includes;
      }))

  Quiet-line :
      (had_newline : Bool) (st : State) (m : Option State)
      → st.include_stack ≡ f ∷ frames
      → Ensures m (Quiet st)
      → Ensures (m >>= terminate had_newline) (Turned f frames st)
  Quiet-line had_newline st m top h =
      Ensures-bind m _ h
        (λ st' q. terminate-Turned had_newline st st' (Kept-Quiet f frames st st' top q))

  Kept-line :
      (had_newline : Bool) (st : State) (m : Option State)
      → Ensures m (Kept f frames st)
      → Ensures (m >>= terminate had_newline) (Turned f frames st)
  Kept-line had_newline st m h = Ensures-bind m _ h (λ st' k. terminate-Turned had_newline st st' k)

  report_helpers-Quiet :
      (st : State) (base : ℕ) (offences : List Offence)
      → Ensures (report_helpers st f base offences) (Quiet st)
  unfolding report_helpers
  report_helpers-Quiet st base [] = Ensures-some (Quiet-refl st)
  report_helpers-Quiet st base (o ∷ offences) =
      Ensures-bind _ _ (report_in-Quiet st _ _ _) (λ st' q.
        Ensures-mono _ (λ st'' r. Quiet-trans st st' st'' q r)
          (report_helpers-Quiet st' base offences))

  report_floats-Quiet :
      (st : State) (base : ℕ) (offences : List Offence)
      → Ensures (report_floats st f base offences) (Quiet st)
  unfolding report_floats
  report_floats-Quiet st base [] = Ensures-some (Quiet-refl st)
  report_floats-Quiet st base (o ∷ offences) = Ensures-bind _ _ (report_in-Quiet st _ _ _) (λ st' q.
      Ensures-mono _ (λ st'' r. Quiet-trans st st' st'' q r)
        (report_floats-Quiet st' base offences))

  pass_through-Turned :
      (env : Setting) (st : State) (base : ℕ) (line : Line)
      → st.include_stack ≡ f ∷ frames
      → Ensures (pass_through env st f base line) (Turned f frames st)
  unfolding pass_through
  pass_through-Turned env st base line top = Ensures-after _ _ (λ s.
      Ensures-bind _ _ (report_helpers-Quiet (record st { engine = s.engine }) base _) (λ helpers q.
        Ensures-bind _ _ (report_floats-Quiet helpers base _) (λ floats r.
          terminate-Turned line.had_newline st (record floats { output = floats.output ++ s.out })
            (Kept-Quiet f frames st _ top (record {
              same_manager = r.same_manager ∙ q.same_manager;
              same_stack = r.same_stack ∙ q.same_stack;
            })))))

  dispatch-Turned :
      (env : Setting) (st : State) (emitting : Bool) (base : ℕ) (line : Line) (k : DirectiveKind)
      → st.include_stack ≡ f ∷ frames
      → Ensures (dispatch env st f emitting base line d k) (Turned f frames st)
  unfolding dispatch unknown_directive
  dispatch-Turned env st emitting base line none_kind top =
      Ensures-if emitting _ _ (pass_through-Turned env st base line top)
        (terminate-Turned line.had_newline st st (Kept-Quiet f frames st st top (Quiet-refl st)))
  dispatch-Turned env st emitting base line define_kind top =
      Quiet-line line.had_newline st _ top
        (Ensures-if emitting _ _ (handle_define-Quiet f d st) (Ensures-some (Quiet-refl st)))
  dispatch-Turned env st emitting base line undef_kind top =
      Quiet-line line.had_newline st _ top
        (Ensures-if emitting _ _ (handle_undef-Quiet f d st) (Ensures-some (Quiet-refl st)))
  dispatch-Turned env st emitting base line unknown_kind top =
      Quiet-line line.had_newline st _ top
        (Ensures-if emitting _ _ (report_in-Quiet st _ _ _) (Ensures-some (Quiet-refl st)))
  dispatch-Turned env st emitting base line ifdef_kind top =
      Kept-line line.had_newline st _ (handle_ifdef-Kept f d frames st false top)
  dispatch-Turned env st emitting base line ifndef_kind top =
      Kept-line line.had_newline st _ (handle_ifdef-Kept f d frames st true top)
  dispatch-Turned env st emitting base line if_kind top =
      Kept-line line.had_newline st _ (handle_if-Kept f d frames env st top)
  dispatch-Turned env st emitting base line else_kind top =
      Kept-line line.had_newline st _ (handle_else-Kept f d frames st top)
  dispatch-Turned env st emitting base line endif_kind top =
      Kept-line line.had_newline st _ (handle_endif-Kept f d frames st top)
  dispatch-Turned env st emitting base line line_kind top =
      Ensures-if emitting _ _
        (Ensures-mono _ (λ st' k. kept k) (handle_line-Kept f d frames env st top))
        (terminate-Turned line.had_newline st st (Kept-Quiet f frames st st top (Quiet-refl st)))
  dispatch-Turned env st emitting base line include_kind top =
      Ensures-if emitting _ _ (handle_include-Turned env st top)
        (terminate-Turned line.had_newline st st (Kept-Quiet f frames st st top (Quiet-refl st)))

-- The frame `f` has a line to read.
pub record Reads (st : State) (f : Frame) : Type 0 where
  pub buffer : Buffer
  pub there : buffer_or_null st.sm f.fid ≡ some buffer
  pub left : f.cursor < length buffer.bytes

-- The include frame of the source manager goes with the frame of an included file.
abbrev pub Popped : List Frame → SourceManager → SourceManager → Type 0
Popped [] sm sm' = sm' ≡ sm
Popped (outer ∷ frames) sm sm' = suc (length sm'.include_stack) ≡ length sm.include_stack

-- What a round does: `g` is the frame `f`, further on in its file.
pub data Effect (f : Frame) (frames : List Frame) (st st' : State) : Type 0 where
  stays :
      (g : Frame)
      → st'.include_stack ≡ g ∷ frames
      → g.fid ≡ f.fid
      → f.cursor < g.cursor
      → Reads st f
      → Extends st.sm st'.sm
      → st'.sm.include_stack ≡ st.sm.include_stack
      → Effect f frames st st'
  enters :
      (g inner : Frame)
      → st'.include_stack ≡ inner ∷ g ∷ frames
      → g.fid ≡ f.fid
      → f.cursor < g.cursor
      → Reads st f
      → Extends st.sm st'.sm
      → length (inner ∷ g ∷ frames) ≤ 256
      → length st'.sm.include_stack ≡ suc (length st.sm.include_stack)
      → Effect f frames st st'
  leaves :
      st'.include_stack ≡ frames
      → Extends st.sm st'.sm
      → Popped frames st.sm st'.sm
      → Effect f frames st st'

read_line-left :
    (bytes : Bytes) (cursor : ℕ) (line : Line)
    → read_line bytes cursor ≡ some line
    → (cursor < length bytes) × (cursor < line.line_end)
unfolding read_line
read_line-left bytes cursor line e =
    ground
      (arith, run_length-le (λ c. not (c == b'\n')) (drop cursor bytes), length-drop cursor bytes)

report_open-Quiet :
    (st : State) (conds : List CondFrame) → Ensures (report_open st conds) (Quiet st)
unfolding report_open
report_open-Quiet st [] = Ensures-some (Quiet-refl st)
report_open-Quiet st (cf ∷ conds) =
    Ensures-bind _ _ (report_open-Quiet st conds)
      (λ st' q. Ensures-mono _ (λ st'' r. Quiet-trans st st' st'' q r) (report_in-Quiet st' _ _ _))

pop-length :
    (sm : SourceManager)
    → Ensures (pop_include_frame sm) (λ sm'.
      (suc (length sm'.include_stack) ≡ length sm.include_stack) × (sm'.buffers ≡ sm.buffers))
unfolding pop_include_frame
pop-length sm = record { gives = λ sm' e. (ground (arith, e), ground (arith, e)) }

resume-leaves :
    (f : Frame) (frames : List Frame) (st st' : State)
    → Quiet st st'
    → Ensures (resume st' frames) (Effect f frames st)
unfolding resume emit_line_directive
resume-leaves f [] st st' q =
    Ensures-some (
      leaves refl (Extends-eq st.sm st'.sm (ap (λ m. m.buffers) (q.same_manager))) (q.same_manager))
resume-leaves f (outer ∷ frames) st st' q = Ensures-bind _ _ (pop-length st'.sm) (λ sm p.
    Ensures-after _ _ (λ path. Ensures-some (
      leaves refl (Extends-eq st.sm sm (p.1 ∙ ap (λ m. m.buffers) (q.same_manager)))
        (p.0 ∙ ap (λ m. length m.include_stack) (q.same_manager)))))

-- From what a line does to the frame that has moved on.
Turned-Effect :
    (f : Frame) (frames : List Frame) (line : Line) (st st' : State)
    → f.cursor < line.line_end
    → Reads st f
    → Turned (advanced f line) frames (put_top st (advanced f line)) st'
    → Effect f frames st st'
unfolding put_top
Turned-Effect f frames line st st' far r (kept k) =
    stays k.frame k.stack k.same_file (omega (arith, far, k.same_cursor)) r k.extends
      k.same_includes
Turned-Effect f frames line st st' far r (entered inner e x room deeper) =
    enters (advanced f line) inner e refl far r x room deeper

put_top-stack :
    (st : State) (f g : Frame) (frames : List Frame)
    → st.include_stack ≡ f ∷ frames
    → (put_top st g).include_stack ≡ g ∷ frames
unfolding put_top
put_top-stack st f g frames top = rw top refl

line-Effect :
    (env : Setting) (st : State) (f : Frame) (frames : List Frame) (buffer : Buffer) (line : Line)
    → st.include_stack ≡ f ∷ frames
    → buffer_or_null st.sm f.fid ≡ some buffer
    → read_line buffer.bytes f.cursor ≡ some line
    → Ensures (process_line env st f line) (Effect f frames st)
unfolding process_line
line-Effect env st f frames buffer line top there e =
    let read = read_line-left buffer.bytes f.cursor line e in
    Ensures-mono _
      (λ st' t.
        Turned-Effect f frames line st st' (read.1)
          (record { buffer = buffer; there = there; left = read.0 }) t)
      (dispatch-Turned (advanced f line) _ frames env (put_top st (advanced f line)) _ _ line _
        (put_top-stack st f (advanced f line) frames top))

round_read-Effect :
    (env : Setting) (st : State) (f : Frame) (frames : List Frame) (buffer : Buffer)
    (o : Option Line)
    → st.include_stack ≡ f ∷ frames
    → buffer_or_null st.sm f.fid ≡ some buffer
    → read_line buffer.bytes f.cursor ≡ o
    → Ensures
        (elim o [ none ↦ end_frame st f frames | some line ↦ process_line env st f line ])
        (Effect f frames st)
unfolding end_frame
round_read-Effect env st f frames buffer none top there e =
    Ensures-bind _ _ (report_open-Quiet st f.cond_stack) (λ st' q. resume-leaves f frames st st' q)
round_read-Effect env st f frames buffer (some line) top there e =
    line-Effect env st f frames buffer line top there e

-- Every round has one of the three effects.
pub round_on-Effect :
    (env : Setting) (st : State) (f : Frame) (frames : List Frame)
    → st.include_stack ≡ f ∷ frames
    → Ensures (round_on env st f frames) (Effect f frames st)
unfolding round_on
round_on-Effect env st f frames top =
    Ensures-bind _ _ (Ensures_self (buffer_or_null st.sm f.fid)) (λ buffer there.
      round_read-Effect env st f frames buffer (read_line buffer.bytes f.cursor) top there refl)
