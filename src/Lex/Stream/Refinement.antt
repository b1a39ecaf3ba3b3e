-- ===== src/Lex/Stream/Refinement.antt =====
-- What a `Lexer` promises is a stream of tokens; looking ahead does not change it.
use nslc.Lex.Bounds.{is_eof}
use nslc.Lex.Kind.{Token, TokenKind, eof}
use nslc.Lex.Scanner.{Scanner, next_impl}
use nslc.Lex.Stream.Defs.{Lexer, next_from, next, push_back, fill, peek}
use nslc.Lex.Tiling.{Tiles, next_impl-Tiles}
use nslc.Prelude.{
  ℕ, zero, suc, ◌+◌, ◌<◌, ◌≡◌, refl, ap, ◌∙◌, false, List, [], ◌∷◌, ◌++◌, some, length, get_elem?,
  ltb, arith, Bool-cases, inl, inr, length-append,
}

-- The token `i` places ahead of the scanner.
scan_at : ℕ → Scanner → Token
scan_at zero s = (next_impl s).0
scan_at (suc i) s = scan_at i (next_impl s).1

stream_from : List Token → Scanner → ℕ → Token
stream_from [] s i = scan_at i s
stream_from (t ∷ cache) s zero = t
stream_from (t ∷ cache) s (suc i) = stream_from cache s i

-- The abstract view: the tokens that the lexer has still to give, by their distance.
unfoldable pub stream : Lexer → ℕ → Token
unfolding stream_from scan_at
stream l = stream_from l.peek_cache l.impl

stream_from-push :
    (cache : List Token) (s : Scanner) (i : ℕ)
    → stream_from (cache ++ (next_impl s).0 ∷ []) (next_impl s).1 i ≡ stream_from cache s i
unfolding stream_from scan_at
stream_from-push [] s zero = refl
stream_from-push [] s (suc i) = refl
stream_from-push (t ∷ cache) s zero = refl
stream_from-push (t ∷ cache) s (suc i) = stream_from-push cache s i

stream_from-get :
    (cache : List Token) (s : Scanner) (i : ℕ)
    → i < length cache
    → get_elem? cache i ≡ some (stream_from cache s i)
unfolding stream_from
stream_from-get [] s i h = absurd (omega arith)
stream_from-get (t ∷ cache) s zero h = refl
stream_from-get (t ∷ cache) s (suc i) h = stream_from-get cache s i (omega arith)

stream-push_back : (l : Lexer) (i : ℕ) → stream (push_back l) i ≡ stream l i
unfolding stream push_back
stream-push_back l i = stream_from-push l.peek_cache l.impl i

stream-fill : (fuel n : ℕ) (l : Lexer) (i : ℕ) → stream (fill fuel n l) i ≡ stream l i
unfolding fill
stream-fill zero n l i = refl
stream-fill (suc fuel) n l i = elim (Bool-cases (ltb n (length l.peek_cache))) [
  | inl e ↦ rw e refl
  | inr e ↦ rw e (stream-fill fuel n (push_back l) i ∙ stream-push_back l i)
]

-- The loop of `peek` ends with the cache long enough.
fill-length :
    (fuel n : ℕ) (l : Lexer)
    → n < length l.peek_cache + fuel
    → n < length (fill fuel n l).peek_cache
unfolding fill push_back
fill-length zero n l h = omega arith
fill-length (suc fuel) n l h = elim (Bool-cases (ltb n (length l.peek_cache))) [
  | inl e ↦ rw e (ground arith)
  | inr e ↦ rw e (
      fill-length fuel n (push_back l)
        (omega (arith, length-append l.peek_cache ((next_impl l.impl).0 ∷ []))))
]

-- `next` gives the head of the stream and leaves its tail, whether or not tokens are cached.
pub next-stream :
    (l : Lexer) → ((next l).0 ≡ stream l 0) × ((i : ℕ) → stream (next l).1 i ≡ stream l (suc i))
unfolding next stream
next-stream l = by_cache l.peek_cache l.impl
  where
    by_cache :
        (cache : List Token) (s : Scanner)
        → ((next_from cache s).0 ≡ stream_from cache s 0)
          × ((i : ℕ) → stream (next_from cache s).1 i ≡ stream_from cache s (suc i))
    by_cache [] s = (refl, λ i. refl)
    by_cache (t ∷ cache) s = (refl, λ i. refl)

-- `peek(n)` gives the token `n` places ahead, always finds one, and changes no token that `next` or
-- `peek` gives later.
pub peek-stream :
    (n : ℕ) (l : Lexer)
    → ((peek n l).0 ≡ some (stream l n)) × ((i : ℕ) → stream (peek n l).1 i ≡ stream l i)
unfolding peek
peek-stream n l =
    let l' = fill (suc n) n l in
    let found : get_elem? l'.peek_cache n ≡ some (stream l' n) =
      unfold stream in
      stream_from-get l'.peek_cache l'.impl n (fill-length (suc n) n l (omega arith)) in
    (found ∙ ap some (stream-fill (suc n) n l n), stream-fill (suc n) n l)

next_impl-eof : (s : Scanner) → (next_impl s).0.kind ≡ eof → (next_impl s).1.rest ≡ []
next_impl-eof s h = elim (next_impl-Tiles s).1 [
  | inl (_, _, e) ↦ e
  | inr (ne, _) ↦ absurd (eof-absurd _ h ne)
]
  where
    eof-absurd : (k : TokenKind) → k ≡ eof → is_eof k ≡ false → ⊥
    eof-absurd k h ne = ground arith

next_impl-nil : (s : Scanner) → s.rest ≡ [] → (next_impl s).0.kind ≡ eof
next_impl-nil s h = elim (next_impl-Tiles s).1 [
  | inl (e, _, _) ↦ e
  | inr (_, pos) ↦ absurd (no_bytes (next_impl-Tiles s).0 pos)
]
  where
    no_bytes : {t : Token} {s' : Scanner} → Tiles s t s' → 0 < length t.spelling → ⊥
    no_bytes {t} {s'} tile pos = omega (
      arith,
      ap length tile.splits,
      ap length h,
      length-append tile.gap (t.spelling ++ s'.rest),
      length-append t.spelling s'.rest,
    )

scan_at-nil : (i : ℕ) (s : Scanner) → s.rest ≡ [] → (scan_at i s).kind ≡ eof
unfolding scan_at
scan_at-nil zero s h = next_impl-nil s h
scan_at-nil (suc i) s h = scan_at-nil i (next_impl s).1 (next_impl-eof s (next_impl-nil s h))

scan_at-eof : (i j : ℕ) (s : Scanner) → (scan_at i s).kind ≡ eof → (scan_at (i + j) s).kind ≡ eof
unfolding scan_at
scan_at-eof zero zero s h = h
scan_at-eof zero (suc j) s h =
    let e : 0 + suc j ≡ suc j = omega arith in
    rw e (scan_at-nil j (next_impl s).1 (next_impl-eof s h))
scan_at-eof (suc i) j s h =
    let e : suc i + j ≡ suc (i + j) = omega arith in rw e (scan_at-eof i j (next_impl s).1 h)

-- Once `eof` has been given, every later token is `eof`.
pub stream-eof :
    (l : Lexer) (i j : ℕ)
    → l.peek_cache ≡ []
    → (stream l i).kind ≡ eof
    → (stream l (i + j)).kind ≡ eof
unfolding stream
stream-eof l i j h e = rw h (scan_at-eof i j l.impl (rw h at e))
