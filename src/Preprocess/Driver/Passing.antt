-- ===== src/Preprocess/Driver/Passing.antt =====
-- A line that is no directive, from the buffer to the output.
use nslc.Basic.Manager.{Buffer, buffer_or_null}
use nslc.Preprocess.Conditionals.{is_emitting}
use nslc.Preprocess.Directives.{directive, none_kind, classify_line}
use nslc.Preprocess.Driver.Lines.{Line, read_line, strip_cr}
use nslc.Preprocess.Driver.Loop.{
  round_on, process_line, dispatch, pass_through, report_helpers, report_floats, terminate,
  advanced,
}
use nslc.Preprocess.Driver.State.{Frame, State, Setting, put_top, loc_for}
use nslc.Preprocess.Seam.{scan_for_helper, scan_for_float}
use nslc.Preprocess.Splicer.Plain.{Segment, IsLine, line_text, line_meaning, splice_lem}
use nslc.Prelude.{
  ℕ, suc, ◌+◌, ◌-◌, ◌%◌, ◌≡◌, refl, sym, ap, ◌∙◌, Bytes, codes, true, false, not, List, [], ◌∷◌,
  ◌++◌, Option, some, ◌>>=◌, ◌==◌, ltb, leb, peek_byte, run_length-append, drop, length,
  length-append, length-drop, take-length, All, All-mono, arith,
}

abbrev line_of : Bytes → ℕ → Line
line_of text cursor = record {
  text = text;
  line_end = cursor + length text + 1;
  had_newline = true;
}

not_at_end : (size cursor n m : ℕ) → size - cursor ≡ n + suc m → leb size cursor ≡ false
not_at_end size cursor n m e = ground (arith, e)

has_newline : (n m : ℕ) → ltb n (n + suc m) ≡ true
has_newline n m = ground arith

read_line-text :
    (bytes text rest : Bytes) (cursor : ℕ)
    → drop cursor bytes ≡ text ++ b'\n' ∷ rest
    → All (λ c. (c == b'\n') ≡ false) text
    → strip_cr text ≡ text
    → read_line bytes cursor ≡ some (line_of text cursor)
unfolding read_line
read_line-text bytes text rest cursor e h s =
    let total = sym (length-drop cursor bytes) ∙ ap length e ∙ length-append text (b'\n' ∷ rest) in
    rw
      (
        e,
        run_length-append (λ c. not (c == b'\n')) text b'\n' rest
            (All-mono _ _ (λ c e. rw e refl) text h) refl,
        take-length text (b'\n' ∷ rest),
        s,
        length-append text (b'\n' ∷ rest),
      )
      (rw
        (
          not_at_end (length bytes) cursor (length text) (length rest) total,
          has_newline (length text) (length rest),
        )
        refl)

classify_line-text :
    (text : Bytes) (b e : ℕ)
    → (peek_byte text == b'#') ≡ false
    → classify_line text b e ≡ directive none_kind b e
unfolding classify_line
classify_line-text [] b e h = refl
classify_line-text (c ∷ text) b e h = rw h refl

-- The frame at the next line.
abbrev pub moved : Frame → List Segment → Option Bytes → Frame
moved f segs end = advanced f (line_of (line_text segs end) f.cursor)

put_top-output :
    (st : State) (f g : Frame) (frames : List Frame) (out : Bytes)
    → st.include_stack ≡ f ∷ frames
    → record (put_top st g) { output = out }
      ≡ record st { include_stack = g ∷ frames; output = out }
unfolding put_top
put_top-output st f g frames out top =
    ap
      (λ fs. record st {
        include_stack = elim fs [ [] ↦ [] | _ ∷ below ↦ g ∷ below ];
        output = out;
      })
      top

module _ (env : Setting) (st : State) (f : Frame) (segs : List Segment) (end : Option Bytes) where
  abbrev meaning_of : Bytes
  meaning_of = line_meaning st.macros segs end

  pass_through-text :
      (base : ℕ) (line : Line)
      → line.text ≡ line_text segs end
      → line.had_newline ≡ true
      → IsLine st.macros segs end
      → scan_for_helper meaning_of ≡ []
      → scan_for_float meaning_of ≡ []
      → pass_through env st f base line
        ≡ some (record st { output = st.output ++ meaning_of ++ codes "\n" })
  unfolding pass_through report_helpers report_floats terminate
  pass_through-text base line t had h p q =
      rw
        (
          t,
          splice_lem env.exprs st.sm st.macros (loc_for f (base % 4294967296)) segs end st.engine h,
          p,
          q,
          had,
        )
        refl

  -- The state behind the line.
  abbrev pub passed : List Frame → State
  passed frames = record st {
    include_stack = moved f segs end ∷ frames;
    output = st.output ++ meaning_of ++ codes "\n";
  }

module _ (env : Setting) (st : State) (f : Frame) (segs : List Segment) (end : Option Bytes) where
  process_line-text :
      (frames : List Frame)
      → st.include_stack ≡ f ∷ frames
      → is_emitting f.cond_stack ≡ true
      → IsLine st.macros segs end
      → (peek_byte (line_text segs end) == b'#') ≡ false
      → scan_for_helper (line_meaning st.macros segs end) ≡ []
      → scan_for_float (line_meaning st.macros segs end) ≡ []
      → process_line env st f (line_of (line_text segs end) f.cursor)
        ≡ some (passed env st f segs end frames)
  unfolding process_line dispatch put_top
  process_line-text frames top emitting h first p q =
      rw
        (
          classify_line-text (line_text segs end) (f.cursor % 4294967296)
              ((f.cursor + length (line_text segs end) + 1) % 4294967296) first,
          emitting,
        )
        (pass_through-text env (put_top st (moved f segs end)) (moved f segs end) segs end f.cursor
            (line_of (line_text segs end) f.cursor) refl refl h p q
          ∙ ap some (
              put_top-output st f (moved f segs end) frames
                (st.output ++ line_meaning st.macros segs end ++ codes "\n") top))

  round_on-line :
      (frames : List Frame) (b : Buffer) (line : Line)
      → buffer_or_null st.sm f.fid ≡ some b
      → read_line b.bytes f.cursor ≡ some line
      → round_on env st f frames ≡ process_line env st f line
  unfolding round_on
  round_on-line frames b line there e = rw (there, ◌>>=◌, e) refl

  -- In a frame where lines pass and whose file has a buffer, a line that ends in a newline with no
  -- carriage return, that `splice_lem` applies to (so with no undefined reference and no unclosed string
  -- or comment), whose first byte is not `#` and whose result holds no helper call and no float, goes to
  -- the output with each reference replaced by the body, the newline with it; the frame stands at the
  -- next line, and the rest of the state stays. A `#` behind blanks passes as text.
  pub round_on-text :
      (frames : List Frame) (b : Buffer) (rest : Bytes)
      → st.include_stack ≡ f ∷ frames
      → buffer_or_null st.sm f.fid ≡ some b
      → drop f.cursor b.bytes ≡ line_text segs end ++ b'\n' ∷ rest
      → All (λ c. (c == b'\n') ≡ false) (line_text segs end)
      → strip_cr (line_text segs end) ≡ line_text segs end
      → is_emitting f.cond_stack ≡ true
      → IsLine st.macros segs end
      → (peek_byte (line_text segs end) == b'#') ≡ false
      → scan_for_helper (line_meaning st.macros segs end) ≡ []
      → scan_for_float (line_meaning st.macros segs end) ≡ []
      → round_on env st f frames ≡ some (passed env st f segs end frames)
  round_on-text frames b rest top there here newlines cr emitting h first p q =
      round_on-line frames b (line_of (line_text segs end) f.cursor) there
        (read_line-text b.bytes (line_text segs end) rest f.cursor here newlines cr)
      ∙ process_line-text frames top emitting h first p q
