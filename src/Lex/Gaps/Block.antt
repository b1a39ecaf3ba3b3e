-- ===== src/Lex/Gaps/Block.antt =====
-- Block comments: where the first `*/` ends.
use nslc.Lex.Scanner.{block_comment, not_newline}
use nslc.Prelude.{
  ℕ, suc, ◌+◌, ◌≡◌, refl, ap, Bytes, Bool, true, false, ◌&&◌, ◌||◌, [], ◌∷◌, ◌++◌, ◌==◌, length,
  arith, ◌⊎◌, inl, inr, Bool-cases, All,
}

unfoldable pub has_newline : Bytes → Bool
has_newline [] = false
has_newline (c ∷ r) = c == b'\n' || has_newline r

pub has_newline-append : (a b : Bytes) → has_newline (a ++ b) ≡ (has_newline a || has_newline b)
unfolding has_newline
has_newline-append [] b = refl
has_newline-append (c ∷ a) b = ground (arith, has_newline-append a b)

pub has_newline-All : (a : Bytes) → All (λ c. not_newline c ≡ true) a → has_newline a ≡ false
unfolding has_newline not_newline
has_newline-All [] h = refl
has_newline-All (c ∷ a) (h, t) = ground (arith, has_newline-All a t)

pub has_newline-block :
    (inner : Bytes) → has_newline inner ≡ has_newline (b'/' ∷ b'*' ∷ (inner ++ (b'*' ∷ b'/' ∷ [])))
unfolding has_newline
has_newline-block inner = ground (arith, has_newline-append inner (b'*' ∷ b'/' ∷ []))

-- Whether `*/` occurs.
unfoldable pub has_close : Bytes → Bool
has_close [] = false
has_close (c ∷ []) = false
has_close (c ∷ d ∷ r) = c == b'*' && d == b'/' || has_close (d ∷ r)

pub record ClosedBlock (r : Bytes) : Type 0 where
  pub inner : Bytes
  pub after : Bytes
  pub splits : r ≡ inner ++ (b'*' ∷ b'/' ∷ after)
  pub first : has_close (inner ++ (b'*' ∷ [])) ≡ false
  pub len_is : (block_comment r).0 ≡ length inner + 2
  pub newline_is : (block_comment r).1 ≡ has_newline inner

pub record OpenBlock (r : Bytes) : Type 0 where
  pub unclosed : has_close r ≡ false
  pub len_is : (block_comment r).0 ≡ length r

ClosedBlock-cons :
    (c d : ℕ) (r : Bytes)
    → (c == b'*' && d == b'/') ≡ false
    → ClosedBlock (d ∷ r)
    → ClosedBlock (c ∷ d ∷ r)
unfolding block_comment has_newline
ClosedBlock-cons c d r e b = record {
  inner = c ∷ b.inner;
  after = b.after;
  splits = ap (◌∷◌ c) b.splits;
  first = first-cons c d r b.inner b.after e b.splits b.first;
  len_is = rw e (omega (arith, b.len_is));
  newline_is = rw e (rw b.newline_is);
}
  where
    first-cons :
        (c d : ℕ) (r inner after : Bytes)
        → (c == b'*' && d == b'/') ≡ false
        → d ∷ r ≡ inner ++ (b'*' ∷ b'/' ∷ after)
        → has_close (inner ++ (b'*' ∷ [])) ≡ false
        → has_close (c ∷ (inner ++ (b'*' ∷ []))) ≡ false
    first-cons c d r [] after e p h = unfold has_close in ground arith
    first-cons c d r (x ∷ xs) after e p h = unfold has_close in ground arith

pub block_comment_cases : (r : Bytes) → ClosedBlock r ⊎ OpenBlock r
unfolding block_comment has_close
block_comment_cases [] = inr (record { unclosed = refl; len_is = refl })
block_comment_cases (c ∷ []) = inr (record { unclosed = refl; len_is = refl })
block_comment_cases (c ∷ d ∷ r) = elim (Bool-cases (c == b'*' && d == b'/')) [
  | inl e ↦ inl (record {
    inner = [];
    after = r;
    splits = ground arith;
    first = refl;
    len_is = rw e refl;
    newline_is = rw e (unfold has_newline in refl);
  })
  | inr e ↦ elim (block_comment_cases (d ∷ r)) [
    | inl b ↦ inl (ClosedBlock-cons c d r e b)
    | inr b ↦ inr (record { unclosed = rw e b.unclosed; len_is = rw e (ap suc b.len_is) })
  ]
]
