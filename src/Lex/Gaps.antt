-- ===== src/Lex/Gaps.antt =====
-- lib/Lex/Lexer.cpp, `skipWhitespaceAndComments`: what stands between two tokens, as an independent
-- grammar of white space and comments.
mod Block
mod Step
use nslc.Lex.Gaps.Block.{has_newline, has_newline-append}
use nslc.Lex.Gaps.Step.{IsNoBlank, StepPasses, skip_step-StepPasses}
pub use Block.{has_newline}
pub use Step.{IsPiece, IsNoBlank}
use nslc.Lex.Scanner.{
  Scanner, is_whitespace, Skip, stop, pass, skip_step, skip_pass, skip_loop,
  skip_whitespace_and_comments, advance,
}
use mathlib.Core.Path.{subst}
use nslc.Prelude.{
  ℕ, zero, suc, ◌+◌, ◌≤◌, ◌<◌, ◌≡◌, ◌≢◌, refl, sym, ap, ◌∙◌, Bytes, Bool, true, false, ◌&&◌, ◌||◌,
  ◌==◌, peek_byte, [], ◌∷◌, ◌++◌, length, take, drop, arith, length-append, length-take,
  length-drop, take-append-drop, append_assoc, ◌⊎◌, inl, inr,
}

-- A run of pieces in front of `after`.
pub data IsGap (after : Bytes) : Bytes → Type 0 where
  empty : IsGap after []
  more :
      (piece gap : Bytes)
      → IsPiece (gap ++ after) piece
      → IsGap after gap
      → IsGap after (piece ++ gap)

-- No piece of trivia begins here, neither a blank nor `//` nor `/*`, or the buffer ends.
abbrev pub Stops : Bytes → Type 0
Stops [] = Unit
Stops (c ∷ r) = IsNoBlank c × ((c == b'/' && (peek_byte r == b'/' || peek_byte r == b'*')) ≡ false)

stop-Stops : (c : ℕ) (r : Bytes) → skip_step c r ≡ stop → Stops (c ∷ r)
unfolding skip_step is_whitespace
stop-Stops c r h = ((ground arith, ground arith, ground arith, ground arith), ground arith)

-- From `s` to `s'` a gap is passed, and it is as long as it can be.
pub record Skipped (s s' : Scanner) : Type 0 where
  pub gap : Bytes
  pub splits : s.rest ≡ gap ++ s'.rest
  pub cur_is : s'.cur ≡ s.cur + length gap
  pub diag_is : s'.diag ≡ s.diag
  pub is_gap : IsGap s'.rest gap
  pub stops : Stops s'.rest
  pub line_start_is : s'.rest ≢ [] → s'.at_line_start ≡ (has_newline gap || s.at_line_start)

Skipped-here : (s : Scanner) → Stops s.rest → Skipped s s
Skipped-here s h = record {
  gap = [];
  splits = refl;
  cur_is = omega arith;
  diag_is = refl;
  is_gap = empty;
  stops = h;
  line_start_is = λ _. unfold has_newline in refl;
}

Skip-cases : (k : Skip) → (k ≡ stop) ⊎ ((n : ℕ) × (newline : Bool) × (k ≡ pass n newline))
Skip-cases stop = inl refl
Skip-cases (pass n newline) = inr (n, newline, refl)

drop-append : (a b : Bytes) (n : ℕ) → n ≡ length a → drop n (a ++ b) ≡ b
drop-append [] b n h = rw h
drop-append (x ∷ a) b n h = rw h (drop-append a b (length a) refl)

-- What is left behind the first piece begins with the gap that the later rounds pass.
after_piece :
    (s s' : Scanner) (n : ℕ) (newline : Bool) (p : StepPasses s.rest n newline)
    → (k : Skipped (skip_pass n newline s) s') → p.after ≡ k.gap ++ s'.rest
unfolding skip_pass
after_piece s s' n newline p k =
    sym (ap (drop n) p.splits ∙ drop-append p.piece p.after n p.len_is) ∙ k.splits

or-newline : (n b a c : Bool) → n ≡ a → (b || (n || c)) ≡ ((a || b) || c)
or-newline n b a c h = ground arith

append-ne-nil : (a b : Bytes) → b ≢ [] → a ++ b ≢ []
append-ne-nil [] b h = h
append-ne-nil (x ∷ a) b h = cc

Skipped-more :
    (s s' : Scanner) (n : ℕ) (newline : Bool)
    → StepPasses s.rest n newline
    → Skipped (skip_pass n newline s) s'
    → Skipped s s'
unfolding skip_pass
Skipped-more s s' n newline p k =
    let later = after_piece s s' n newline p k in
    record {
      gap = p.piece ++ k.gap;
      splits = p.splits ∙ ap (◌++◌ p.piece) later ∙ sym (append_assoc p.piece k.gap s'.rest);
      cur_is = omega (arith, k.cur_is, p.len_is, length-append p.piece k.gap);
      diag_is = k.diag_is;
      is_gap = more p.piece k.gap (subst (λ a. IsPiece a p.piece) later p.is_piece) k.is_gap;
      stops = k.stops;
      line_start_is = λ ne.
          k.line_start_is ne
          ∙ rw has_newline-append (
              or-newline newline (has_newline k.gap) (has_newline p.piece) s.at_line_start
                (p.newline_is (λ e. append-ne-nil k.gap s'.rest ne (sym later ∙ e))));
    }

length-after :
    (s : Scanner) (n : ℕ) (newline : Bool)
    → StepPasses s.rest n newline
    → length (skip_pass n newline s).rest < length s.rest
unfolding skip_pass
length-after s n newline p = omega (
  arith,
  length-drop n s.rest,
  p.len_is,
  ap length p.splits,
  length-append p.piece p.after,
  p.positive,
)

Stops-nil : (r : Bytes) → length r ≤ 0 → Stops r
Stops-nil [] h = tt
Stops-nil (c ∷ r) h = absurd (omega arith)

skip_loop_end : (fuel : ℕ) (s : Scanner) → s.rest ≡ [] → skip_loop (suc fuel) s ≡ s
unfolding skip_loop
skip_loop_end fuel s e = ground arith

skip_loop_stop :
    (fuel : ℕ) (s : Scanner) (c : ℕ) (r : Bytes)
    → s.rest ≡ c ∷ r
    → skip_step c r ≡ stop
    → skip_loop (suc fuel) s ≡ s
unfolding skip_loop
skip_loop_stop fuel s c r e h = ground arith

skip_loop_pass :
    (fuel : ℕ) (s : Scanner) (c : ℕ) (r : Bytes) (n : ℕ) (newline : Bool)
    → s.rest ≡ c ∷ r
    → skip_step c r ≡ pass n newline
    → skip_loop (suc fuel) s ≡ skip_loop fuel (skip_pass n newline s)
unfolding skip_loop
skip_loop_pass fuel s c r n newline e h = ground arith

-- One round, given the rounds behind it.
skip_round :
    (fuel : ℕ) (s : Scanner)
    → ((s' : Scanner) → length s'.rest ≤ fuel → Skipped s' (skip_loop fuel s'))
    → length s.rest ≤ suc fuel
    → (r : Bytes) → s.rest ≡ r
    → Skipped s (skip_loop (suc fuel) s)
skip_round fuel s later h [] e =
    subst (Skipped s) (sym (skip_loop_end fuel s e)) (Skipped-here s (rw e tt))
skip_round fuel s later h (c ∷ r) e = elim (Skip-cases (skip_step c r)) [
  | inl halt ↦
      subst (Skipped s) (sym (skip_loop_stop fuel s c r e halt))
        (Skipped-here s (rw e (stop-Stops c r halt)))
  | inr (n, nl, go) ↦
      let p : StepPasses s.rest n nl = rw e (skip_step-StepPasses c r n nl go) in
      subst (Skipped s) (sym (skip_loop_pass fuel s c r n nl e go))
        (Skipped-more s _ n nl p (later _ (omega (arith, length-after s n nl p))))
]

skip_loop-Skipped : (fuel : ℕ) (s : Scanner) → length s.rest ≤ fuel → Skipped s (skip_loop fuel s)
unfolding skip_loop
skip_loop-Skipped zero s h = Skipped-here s (Stops-nil s.rest h)
skip_loop-Skipped (suc fuel) s h =
    skip_round fuel s (λ s' le. skip_loop-Skipped fuel s' le) h s.rest refl

-- From any state, a run of blanks and comments is passed, neither a blank nor the beginning of a comment
-- is left behind it, and `at_line_start` is set where the run holds a newline and kept otherwise, unless
-- the run reaches the end of the buffer; the diagnostics stay.
pub skip_whitespace_and_comments-Skipped :
    (s : Scanner) → Skipped s (skip_whitespace_and_comments s)
unfolding skip_whitespace_and_comments
skip_whitespace_and_comments-Skipped s = skip_loop-Skipped (length s.rest) s (omega arith)
