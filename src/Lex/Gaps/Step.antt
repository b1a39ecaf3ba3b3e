-- ===== src/Lex/Gaps/Step.antt =====
-- One round of the trivia loop passes one piece: a blank, a line comment or a block comment.
use nslc.Lex.Gaps.Block.{
  has_newline, has_newline-All, has_newline-block, has_close, ClosedBlock, OpenBlock,
  block_comment_cases,
}
use nslc.Lex.Scanner.{pass, skip_step, is_whitespace, not_newline, block_comment}
use mathlib.Core.Path.{subst₂}
use nslc.Prelude.{
  ℕ, ◌+◌, ◌<◌, ◌≡◌, ◌≢◌, refl, ap, sym, ◌∙◌, append_assoc, append-nil, length-append, length-take,
  take-append-drop, run_length-le, Bytes, Bool, true, false, [], ◌∷◌, ◌++◌, ◌==◌, length, take,
  drop, arith, ◌⊎◌, inl, inr, Bool-cases, All, StopsAt, run_length, run_length-All,
  run_length-StopsAt,
}

-- The four blanks of the language.
pub data IsBlank (c : ℕ) : Type 0 where
  by_space : c ≡ b' ' → IsBlank c
  by_tab : c ≡ b'\t' → IsBlank c
  by_return : c ≡ b'\r' → IsBlank c
  by_newline : c ≡ b'\n' → IsBlank c

abbrev pub IsNoBlank : ℕ → Type 0
IsNoBlank c = (c ≢ b' ') × (c ≢ b'\t') × (c ≢ b'\r') × (c ≢ b'\n')

is_whitespace-IsBlank : (c : ℕ) → is_whitespace c ≡ true → IsBlank c
unfolding is_whitespace
is_whitespace-IsBlank c h = elim (Bool-cases (c == b' ')) [
  | inl e ↦ by_space (ground arith)
  | inr e ↦ elim (Bool-cases (c == b'\t')) [
    | inl f ↦ by_tab (ground arith)
    | inr f ↦ elim (Bool-cases (c == b'\r')) [
      | inl g ↦ by_return (ground arith)
      | inr g ↦ by_newline (ground arith)
    ]
  ]
]

-- A piece of trivia in front of `after`. A line comment runs up to the newline or the end, a block
-- comment up to the first `*/`, or to the end where there is none.
pub data IsPiece (after : Bytes) : Bytes → Type 0 where
  blank : (c : ℕ) → IsBlank c → IsPiece after (c ∷ [])
  line_comment :
      (body : Bytes)
      → All (λ c. not_newline c ≡ true) body
      → StopsAt not_newline after
      → IsPiece after (b'/' ∷ b'/' ∷ body)
  closed_comment :
      (inner : Bytes)
      → has_close (inner ++ (b'*' ∷ [])) ≡ false
      → IsPiece after (b'/' ∷ b'*' ∷ (inner ++ (b'*' ∷ b'/' ∷ [])))
  open_comment :
      (body : Bytes) → has_close body ≡ false → after ≡ [] → IsPiece after (b'/' ∷ b'*' ∷ body)

pub record StepPasses (text : Bytes) (n : ℕ) (newline : Bool) : Type 0 where
  pub piece : Bytes
  pub after : Bytes
  pub splits : text ≡ piece ++ after
  pub len_is : n ≡ length piece
  pub positive : 0 < n
  pub is_piece : IsPiece after piece
  pub newline_is : after ≢ [] → newline ≡ has_newline piece

has_newline-slashes :
    (body : Bytes) → has_newline body ≡ false → has_newline (b'/' ∷ b'/' ∷ body) ≡ false
unfolding has_newline
has_newline-slashes body h = h

blank_passes : (c : ℕ) (r : Bytes) → is_whitespace c ≡ true → StepPasses (c ∷ r) 1 (c == b'\n')
blank_passes c r h = record {
  piece = c ∷ [];
  after = r;
  splits = refl;
  len_is = refl;
  positive = omega arith;
  is_piece = blank c (is_whitespace-IsBlank c h);
  newline_is = λ _. unfold has_newline in ground arith;
}

line_passes : (r : Bytes) → StepPasses (b'/' ∷ b'/' ∷ r) (2 + run_length not_newline r) false
line_passes r = record {
  piece = b'/' ∷ b'/' ∷ take (run_length not_newline r) r;
  after = drop (run_length not_newline r) r;
  splits = ap (λ t. b'/' ∷ b'/' ∷ t) (sym (take-append-drop _ r));
  len_is = omega (arith, length-take (run_length not_newline r) r, run_length-le not_newline r);
  positive = omega arith;
  is_piece = line_comment _ (run_length-All not_newline r) (run_length-StopsAt not_newline r);
  newline_is = λ _. sym (has_newline-slashes _ (has_newline-All _ (run_length-All not_newline r)));
}

closed_passes :
    (r : Bytes) (b : ClosedBlock r)
    → StepPasses (b'/' ∷ b'*' ∷ r) (2 + (block_comment r).0) (block_comment r).1
closed_passes r b = record {
  piece = b'/' ∷ b'*' ∷ (b.inner ++ (b'*' ∷ b'/' ∷ []));
  after = b.after;
  splits =
      ap (λ t. b'/' ∷ b'*' ∷ t) (b.splits ∙ sym (append_assoc b.inner (b'*' ∷ b'/' ∷ []) b.after));
  len_is = omega (arith, b.len_is, length-append b.inner (b'*' ∷ b'/' ∷ []));
  positive = omega arith;
  is_piece = closed_comment b.inner b.first;
  newline_is = λ _. b.newline_is ∙ has_newline-block b.inner;
}

open_passes :
    (r : Bytes) (b : OpenBlock r)
    → StepPasses (b'/' ∷ b'*' ∷ r) (2 + (block_comment r).0) (block_comment r).1
open_passes r b = record {
  piece = b'/' ∷ b'*' ∷ r;
  after = [];
  splits = sym (append-nil (b'/' ∷ b'*' ∷ r));
  len_is = omega (arith, b.len_is);
  positive = omega arith;
  is_piece = open_comment r b.unclosed refl;
  newline_is = λ h. absurd (h refl);
}

-- The three ways in which a round goes on.
skip_step_blank :
    (c : ℕ) (r : Bytes) (n : ℕ) (newline : Bool)
    → is_whitespace c ≡ true
    → skip_step c r ≡ pass n newline
    → (n ≡ 1) × (newline ≡ (c == b'\n'))
unfolding skip_step
skip_step_blank c r n newline w h = ground arith

skip_step_comment :
    (c : ℕ) (r : Bytes) (n : ℕ) (newline : Bool)
    → is_whitespace c ≡ false
    → skip_step c r ≡ pass n newline
    → (c ≡ b'/') × ((r ≡ b'/' ∷ drop 1 r) ⊎ (r ≡ b'*' ∷ drop 1 r))
unfolding skip_step
skip_step_comment c [] n newline w h = ground arith
skip_step_comment c (d ∷ r) n newline w h = ground arith

skip_step_line : (r : Bytes) → skip_step b'/' (b'/' ∷ r) ≡ pass (2 + run_length not_newline r) false
unfolding skip_step
skip_step_line r = refl

skip_step_block :
    (r : Bytes) → skip_step b'/' (b'*' ∷ r) ≡ pass (2 + (block_comment r).0) (block_comment r).1
unfolding skip_step
skip_step_block r = refl

StepPasses-eq :
    {text : Bytes} {n m : ℕ} {a b : Bool}
    → StepPasses text n a
    → pass n a ≡ pass m b
    → StepPasses text m b
StepPasses-eq {text} p e = subst₂ (λ n a. StepPasses text n a) (cc) (cc) p

comment_passes :
    (r : Bytes) (n : ℕ) (newline : Bool)
    → (r ≡ b'/' ∷ drop 1 r) ⊎ (r ≡ b'*' ∷ drop 1 r)
    → skip_step b'/' r ≡ pass n newline
    → StepPasses (b'/' ∷ r) n newline
comment_passes r n newline (inl e) h =
    rw e (StepPasses-eq (line_passes (drop 1 r)) (sym (skip_step_line _) ∙ rw (← e) h))
comment_passes r n newline (inr e) h = rw e (elim (block_comment_cases (drop 1 r)) [
  | inl b ↦ StepPasses-eq (closed_passes _ b) (sym (skip_step_block _) ∙ rw (← e) h)
  | inr b ↦ StepPasses-eq (open_passes _ b) (sym (skip_step_block _) ∙ rw (← e) h)
])

pub skip_step-StepPasses :
    (c : ℕ) (r : Bytes) (n : ℕ) (newline : Bool)
    → skip_step c r ≡ pass n newline
    → StepPasses (c ∷ r) n newline
skip_step-StepPasses c r n newline h = elim (Bool-cases (is_whitespace c)) [
  | inl w ↦ let (p, q) = skip_step_blank c r n newline w h in rw (p, q) (blank_passes c r w)
  | inr w ↦
      let (p, q) = skip_step_comment c r n newline w h in
      rw p (comment_passes r n newline q (rw p at h))
]
