-- ===== src/Basic/Lines/Text.antt =====
-- The text that `getLine` cuts out of a buffer.
use nslc.Basic.Lines.{
  offsets_from, line_offsets, line_index, line_start, line_end, get_line, offsets_from-newline,
  offsets_from-other, line_index_lem, upper_bound, line_col, walk_to, walk_to-line,
}
use nslc.Prelude.{
  ℕ, zero, suc, ◌+◌, ◌-◌, ◌<◌, ◌≤◌, ◌≡◌, refl, ap, ◌∙◌, Bytes, List, [], ◌∷◌, ◌==◌, if◌then◌else◌,
  ltb, get_or, take, drop, length, arith, true, false, Bool-cases, inl, inr,
}

-- The bytes before the first newline, and the line behind `n` newlines.
unfoldable pub first_line : Bytes → Bytes
first_line [] = []
first_line (c ∷ bytes) = let rest = first_line bytes in if c == b'\n' then [] else c ∷ rest

unfoldable pub nth_line : ℕ → Bytes → Bytes
nth_line zero bytes = first_line bytes
nth_line (suc n) [] = []
nth_line (suc n) (c ∷ bytes) =
    let behind = nth_line n bytes in
    let along = nth_line (suc n) bytes in if c == b'\n' then behind else along

-- The end of the line `k` in the table `offsets` behind the first entry.
abbrev end_in : List ℕ → ℕ → ℕ → ℕ
end_in offsets total k = if ltb k (length offsets) then get_or offsets k 0 - 1 else total

cut_lem : (c : ℕ) (bytes : Bytes) (n : ℕ) → 1 ≤ n → take n (c ∷ bytes) ≡ c ∷ take (n - 1) bytes
cut_lem c bytes zero h = absurd (omega arith)
cut_lem c bytes (suc n) h = ap (λ m. c ∷ take m bytes) (omega arith)

skip_lem : (c : ℕ) (bytes : Bytes) (n m : ℕ) → n ≡ suc m → drop n (c ∷ bytes) ≡ drop m bytes
skip_lem c bytes zero m e = absurd (omega arith)
skip_lem c bytes (suc n) m e = ap (λ k. drop k bytes) (omega arith)

-- Where the table has an entry `k`, it lies behind `i` and not behind the end.
Behind : ℕ → ℕ → List ℕ → ℕ → Type 0
Behind i total offsets k =
    k < length offsets → (i + 1 ≤ get_or offsets k 0) × (get_or offsets k 0 ≤ total)

Behind-cons :
    (i total : ℕ) (offsets : List ℕ) (k : ℕ)
    → i + 1 ≤ total
    → ((j : ℕ) → Behind (i + 1) total offsets j)
    → Behind i total ((i + 1) ∷ offsets) k
unfolding Behind
Behind-cons i total offsets zero t f h = (omega arith, omega arith)
Behind-cons i total offsets (suc k) t f h =
    let b = f k (omega arith) in (omega (arith, b), omega (arith, b))

Behind-weaken :
    (i total : ℕ) (offsets : List ℕ) (k : ℕ)
    → Behind (i + 1) total offsets k
    → Behind i total offsets k
unfolding Behind
Behind-weaken i total offsets k f h = let b = f h in (omega (arith, b), omega (arith, b))

offsets_from-Behind :
    (i total : ℕ) (bytes : Bytes)
    → i + length bytes ≡ total
    → total < 4294967296
    → (k : ℕ) → Behind i total (offsets_from i bytes) k
offsets_from-Behind i total [] e w k = unfold offsets_from Behind in λ h. absurd (omega arith)
offsets_from-Behind i total (c ∷ bytes) e w k = elim (Bool-cases (c == b'\n')) [
  | inl n ↦ rw (offsets_from-newline i c bytes n (omega arith)) (
      Behind-cons i total (offsets_from (i + 1) bytes) k (omega arith)
        (λ j. offsets_from-Behind (i + 1) total bytes (omega arith) w j))
  | inr n ↦ rw (offsets_from-other i c bytes n) (
      Behind-weaken i total (offsets_from (i + 1) bytes) k
        (offsets_from-Behind (i + 1) total bytes (omega arith) w k))
]

end_in-le :
    (i total : ℕ) (offsets : List ℕ) (k : ℕ)
    → Behind i total offsets k
    → i ≤ total
    → i ≤ end_in offsets total k
unfolding Behind
end_in-le i total offsets k f h = ground (arith, f)

take-nil : (n : ℕ) → take {A = ℕ} n [] ≡ []
take-nil zero = refl
take-nil (suc n) = refl

first_line-newline : (c : ℕ) (bytes : Bytes) → (c == b'\n') ≡ true → first_line (c ∷ bytes) ≡ []
unfolding first_line
first_line-newline c bytes e = ground arith

first_line-other :
    (c : ℕ) (bytes : Bytes) → (c == b'\n') ≡ false → first_line (c ∷ bytes) ≡ c ∷ first_line bytes
unfolding first_line
first_line-other c bytes e = ground arith

take_none : (n : ℕ) (bytes : Bytes) → n ≡ 0 → take n bytes ≡ []
take_none zero bytes e = refl
take_none (suc n) bytes e = absurd (omega arith)

first_line-cut :
    (i total : ℕ) (bytes : Bytes)
    → i + length bytes ≡ total
    → total < 4294967296
    → take (end_in (offsets_from i bytes) total 0 - i) bytes ≡ first_line bytes
first_line-cut i total [] e w = unfold first_line in take-nil _
first_line-cut i total (c ∷ bytes) e w = elim (Bool-cases (c == b'\n')) [
  | inl n ↦
      rw (offsets_from-newline i c bytes n (omega arith), first_line-newline c bytes n)
        (take_none _ (c ∷ bytes) (ground arith))
  | inr n ↦
      let far =
        end_in-le (i + 1) total (offsets_from (i + 1) bytes) 0
          (offsets_from-Behind (i + 1) total bytes (omega arith) w 0) (omega arith) in
      rw (offsets_from-other i c bytes n, first_line-other c bytes n)
        (cut_lem c bytes _ (omega (arith, far))
          ∙ ap (λ m. c ∷ take m bytes) (omega arith)
          ∙ ap (◌∷◌ c) (first_line-cut (i + 1) total bytes (omega arith) w))
]

start_le :
    (i total : ℕ) (offsets : List ℕ) (k : ℕ)
    → ((j : ℕ) → Behind i total offsets j)
    → k ≤ length offsets
    → i ≤ get_or (i ∷ offsets) k 0
unfolding Behind
start_le i total offsets zero f h = omega arith
start_le i total offsets (suc k) f h = let b = f k h in omega (arith, b)

drop_none : (n : ℕ) (bytes : Bytes) → n ≡ 0 → drop n bytes ≡ bytes
drop_none zero bytes e = refl
drop_none (suc n) bytes e = absurd (omega arith)

end_in-cons :
    (o : ℕ) (offsets : List ℕ) (total k : ℕ)
    → end_in (o ∷ offsets) total (suc k) ≡ end_in offsets total k
end_in-cons o offsets total k = ground arith

nth_line-newline :
    (n c : ℕ) (bytes : Bytes)
    → (c == b'\n') ≡ true
    → nth_line (suc n) (c ∷ bytes) ≡ nth_line n bytes
unfolding nth_line
nth_line-newline n c bytes e = ground arith

nth_line-other :
    (n c : ℕ) (bytes : Bytes)
    → (c == b'\n') ≡ false
    → nth_line (suc n) (c ∷ bytes) ≡ nth_line (suc n) bytes
unfolding nth_line
nth_line-other n c bytes e = ground arith

abbrev cut : List ℕ → ℕ → ℕ → ℕ → Bytes → Bytes
cut offsets total i k bytes =
    take (end_in offsets total k - get_or (i ∷ offsets) k 0)
      (drop (get_or (i ∷ offsets) k 0 - i) bytes)

no_entry : (i k : ℕ) → suc k ≤ length (offsets_from i []) → ⊥
unfolding offsets_from
no_entry i k h = omega arith

cut-newline :
    (i total c : ℕ) (offsets : List ℕ) (k : ℕ) (bytes : Bytes)
    → i + 1 ≤ get_or ((i + 1) ∷ offsets) k 0
    → cut ((i + 1) ∷ offsets) total i (suc k) (c ∷ bytes) ≡ cut offsets total (i + 1) k bytes
cut-newline i total c offsets k bytes h =
    ap
      (λ n.
        take (n - get_or ((i + 1) ∷ offsets) k 0)
          (drop (get_or ((i + 1) ∷ offsets) k 0 - i) (c ∷ bytes)))
      (end_in-cons (i + 1) offsets total k)
    ∙ ap (λ b. take (end_in offsets total k - get_or ((i + 1) ∷ offsets) k 0) b)
        (skip_lem c bytes (get_or ((i + 1) ∷ offsets) k 0 - i)
          (get_or ((i + 1) ∷ offsets) k 0 - (i + 1)) (omega arith))

cut-other :
    (i total c : ℕ) (offsets : List ℕ) (k : ℕ) (bytes : Bytes)
    → i + 1 ≤ get_or offsets k 0
    → cut offsets total i (suc k) (c ∷ bytes) ≡ cut offsets total (i + 1) (suc k) bytes
cut-other i total c offsets k bytes h =
    ap (λ b. take (end_in offsets total (suc k) - get_or offsets k 0) b)
      (skip_lem c bytes (get_or offsets k 0 - i) (get_or offsets k 0 - (i + 1)) (omega arith))

nth_line-cut :
    (i total : ℕ) (bytes : Bytes) (k : ℕ)
    → i + length bytes ≡ total
    → total < 4294967296
    → k ≤ length (offsets_from i bytes)
    → cut (offsets_from i bytes) total i k bytes ≡ nth_line k bytes
nth_line-cut i total bytes zero e w = λ h.
    ap (λ b. take (end_in (offsets_from i bytes) total 0 - i) b)
      (drop_none (i - i) bytes (omega arith))
    ∙ first_line-cut i total bytes e w
    ∙ (unfold nth_line in refl)
nth_line-cut i total [] (suc k) e w = λ h. absurd (no_entry i k h)
nth_line-cut i total (c ∷ bytes) (suc k) e w = elim (Bool-cases (c == b'\n')) [
  | inl n ↦
      rw (offsets_from-newline i c bytes n (omega arith), nth_line-newline k c bytes n)
        (λ h.
          cut-newline i total c (offsets_from (i + 1) bytes) k bytes (
            start_le (i + 1) total (offsets_from (i + 1) bytes) k
              (offsets_from-Behind (i + 1) total bytes (omega arith) w) (omega arith))
          ∙ nth_line-cut (i + 1) total bytes k (omega arith) w (omega arith))
  | inr n ↦
      rw (offsets_from-other i c bytes n, nth_line-other k c bytes n)
        (λ h.
          cut-other i total c (offsets_from (i + 1) bytes) k bytes (
            start_le (i + 1) total (offsets_from (i + 1) bytes) (suc k)
              (offsets_from-Behind (i + 1) total bytes (omega arith) w) h)
          ∙ nth_line-cut (i + 1) total bytes (suc k) (omega arith) w h)
]

upper_bound-entries : (offsets : List ℕ) (off : ℕ) → upper_bound offsets off ≤ length offsets
unfolding upper_bound
upper_bound-entries [] off = omega arith
upper_bound-entries (o ∷ offsets) off = ground (arith, upper_bound-entries offsets off)

get_or-next :
    (o : ℕ) (offsets : List ℕ) (k : ℕ) → get_or (o ∷ offsets) (k + 1) 0 ≡ get_or offsets k 0
get_or-next o offsets k = ap (λ j. get_or (o ∷ offsets) j 0) (suc_lem k)
  where
    suc_lem : (k : ℕ) → k + 1 ≡ suc k
    suc_lem k = omega arith

minus_zero : (n : ℕ) → n ≡ n - 0
minus_zero n = omega arith

line_end_lem :
    (bytes : Bytes) (off : ℕ)
    → line_end bytes off ≡ end_in (offsets_from 0 bytes) (length bytes) (line_index bytes off)
unfolding line_end line_offsets
line_end_lem bytes off = ground (arith, get_or-next 0 (offsets_from 0 bytes) (line_index bytes off))

line_index-walk :
    (bytes : Bytes) (off : ℕ)
    → length bytes < 4294967296
    → line_index bytes off ≡ (walk_to bytes off (line_col 1 1)).line - 1
line_index-walk bytes off w = omega (arith, walk_to-line bytes off w)

-- On a buffer under 2^32 bytes, the line that `getLine` cuts out at an offset is the one behind as
-- many newlines as a walk over the bytes before the offset meets, up to the next newline or the end.
pub get_line_lem :
    (bytes : Bytes) (off : ℕ)
    → length bytes < 4294967296
    → get_line bytes off ≡ nth_line ((walk_to bytes off (line_col 1 1)).line - 1) bytes
unfolding get_line line_start line_offsets
get_line_lem bytes off w =
    let k = line_index bytes off in
    let st = get_or (0 ∷ offsets_from 0 bytes) k 0 in
    ap (λ n. take (n - st) (drop st bytes)) (line_end_lem bytes off)
    ∙ ap (λ n. take (end_in (offsets_from 0 bytes) (length bytes) k - st) (drop n bytes))
        (minus_zero st)
    ∙ nth_line-cut 0 (length bytes) bytes k (omega arith) w
        (omega (arith, line_index_lem bytes off, upper_bound-entries (offsets_from 0 bytes) off))
    ∙ ap (λ n. nth_line n bytes) (line_index-walk bytes off w)
