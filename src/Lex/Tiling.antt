-- ===== src/Lex/Tiling.antt =====
-- `nextImpl` cuts the buffer without loss: the bytes it passes are a gap of trivia and the token's
-- spelling, at the offsets of the token's range.
use nslc.Lex.Bounds.{Emits, is_eof, scan_token-Emits, scan_line_directive-Emits}
use nslc.Lex.Gaps.{IsGap, skip_whitespace_and_comments-Skipped}
use nslc.Lex.Kind.{Token, eof, plain}
use nslc.Lex.Scanner.{
  Scanner, emit, skip_whitespace_and_comments, next_at, next_impl, clear_line_start, is_line_marker,
  scan_token, scan_line_directive,
}
use mathlib.Core.Path.{subst}
use nslc.Prelude.{
  ℕ, ◌+◌, ◌<◌, ◌≡◌, refl, sym, ap, ◌∙◌, Bytes, Bool, true, false, [], ◌∷◌, ◌++◌, length, arith, ◌⊎◌,
  inl, inr, take-append-drop, length-take, Bool-cases, ◌&&◌,
}

pub record Tiles (s : Scanner) (t : Token) (s' : Scanner) : Type 0 where
  pub gap : Bytes
  pub is_gap : IsGap (t.spelling ++ s'.rest) gap
  pub splits : s.rest ≡ gap ++ (t.spelling ++ s'.rest)
  pub begin_is : t.begin ≡ s.cur + length gap
  pub end_is : t.end ≡ t.begin + length t.spelling
  pub cur_is : s'.cur ≡ t.end

-- The token is `eof` at the end of the buffer, and has bytes before it.
abbrev pub EndsOrMoves : Token → Scanner → Type 0
EndsOrMoves t s' =
    ((t.kind ≡ eof) × (t.spelling ≡ []) × (s'.rest ≡ []))
    ⊎ ((is_eof t.kind ≡ false) × (0 < length t.spelling))

-- A token cut off at the cursor.
record Cuts (s : Scanner) (t : Token) (s' : Scanner) : Type 0 where
  splits : s.rest ≡ t.spelling ++ s'.rest
  begin_is : t.begin ≡ s.cur
  end_is : t.end ≡ t.begin + length t.spelling
  cur_is : s'.cur ≡ t.end
  ends_or_moves : EndsOrMoves t s'

Emits-Cuts : (s : Scanner) (r : Token × Scanner) → Emits s r → Cuts s r.0 r.1
unfolding emit
Emits-Cuts s r e = rw e.is_emit (record {
  splits = sym (take-append-drop e.len s.rest);
  begin_is = refl;
  end_is = omega (arith, length-take e.len s.rest, e.within_rest);
  cur_is = refl;
  ends_or_moves =
      inr (e.not_eof, omega (arith, length-take e.len s.rest, e.within_rest, e.positive));
})

next_at_nil : (s : Scanner) → s.rest ≡ [] → next_at s ≡ emit eof plain 0 s
unfolding next_at
next_at_nil s e = ground arith

next_at_line :
    (s : Scanner) (c : ℕ) (r : Bytes)
    → s.rest ≡ c ∷ r
    → (s.at_line_start && is_line_marker (c ∷ r)) ≡ true
    → next_at s ≡ scan_line_directive (clear_line_start s)
unfolding next_at
next_at_line s c r e h = ground arith

next_at_token :
    (s : Scanner) (c : ℕ) (r : Bytes)
    → s.rest ≡ c ∷ r
    → (s.at_line_start && is_line_marker (c ∷ r)) ≡ false
    → next_at s ≡ scan_token c (clear_line_start s)
unfolding next_at
next_at_token s c r e h = ground arith

cleared-rest : (s : Scanner) (r : Bytes) → s.rest ≡ r → (clear_line_start s).rest ≡ r
unfolding clear_line_start
cleared-rest s r e = e

and-right : (a b : Bool) → (a && b) ≡ true → b ≡ true
and-right a b h = ground arith

-- `at_line_start` and the diagnostics do not matter for the cut.
Cuts-clear :
    (s : Scanner) (r r' : Token × Scanner)
    → r' ≡ r
    → Emits (clear_line_start s) r
    → Cuts s r'.0 r'.1
unfolding clear_line_start
Cuts-clear s r r' p e = rw p (
    let c = Emits-Cuts (clear_line_start s) r e in
    record {
      splits = c.splits;
      begin_is = c.begin_is;
      end_is = c.end_is;
      cur_is = c.cur_is;
      ends_or_moves = c.ends_or_moves;
    })

Cuts-eof : (s : Scanner) → s.rest ≡ [] → Cuts s (next_at s).0 (next_at s).1
unfolding emit
Cuts-eof s e = rw (next_at_nil s e) (record {
  splits = refl;
  begin_is = refl;
  end_is = omega arith;
  cur_is = refl;
  ends_or_moves = inl (refl, refl, e);
})

next_at-Cuts : (s : Scanner) (r : Bytes) → s.rest ≡ r → Cuts s (next_at s).0 (next_at s).1
next_at-Cuts s [] e = Cuts-eof s e
next_at-Cuts s (c ∷ r) e = elim (Bool-cases (s.at_line_start && is_line_marker (c ∷ r))) [
  | inl h ↦ Cuts-clear s _ _ (next_at_line s c r e h) (
      scan_line_directive-Emits (clear_line_start s) c r (cleared-rest s (c ∷ r) e)
        (and-right _ _ h))
  | inr h ↦
      Cuts-clear s _ _ (next_at_token s c r e h)
        (scan_token-Emits (clear_line_start s) c r (cleared-rest s (c ∷ r) e))
]

-- A token is cut off without loss behind a gap of trivia; it is `eof`, with no bytes, exactly where
-- nothing but the gap is left.
pub next_impl-Tiles :
    (s : Scanner)
    → Tiles s (next_impl s).0 (next_impl s).1 × EndsOrMoves (next_impl s).0 (next_impl s).1
unfolding next_impl
next_impl-Tiles s =
    let s' = skip_whitespace_and_comments s in
    let k = skip_whitespace_and_comments-Skipped s in
    let c = next_at-Cuts s' s'.rest refl in
    (
      record {
        gap = k.gap;
        is_gap = subst (λ a. IsGap a k.gap) c.splits k.is_gap;
        splits = k.splits ∙ ap (◌++◌ k.gap) c.splits;
        begin_is = c.begin_is ∙ k.cur_is;
        end_is = c.end_is;
        cur_is = c.cur_is;
      },
      c.ends_or_moves,
    )
