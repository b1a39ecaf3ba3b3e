-- ===== src/Prelude/Text.antt =====
-- Texts as lists of byte values, with the comparisons and searches that the scanners share.
use Prim.Native.Nat.{ℕ, zero, suc, ◌+◌, ◌/◌, ◌%◌, ◌≤◌}
use Prim.Native.Char.{code}
use Prim.Native.String.{String}
use mathlib.Core.Path.{◌≡◌, refl, ap}
use mathlib.Core.Logic.{◌↔◌}
use mathlib.Core.Bool.{Bool, true, false, ◌&&◌}
use mathlib.Core.List.{List, [], ◌∷◌, ◌++◌}
use native.Mathlib.Omega.{arith}
use nslc.Prelude.Tests.{◌==◌, leb, ltb, if◌then◌else◌}
use nslc.Prelude.Lists.{length, take, drop}

abbrev pub Bytes : Type 0
Bytes = List ℕ

-- The bytes of an ASCII literal.
abbrev pub codes : String → Bytes
codes String.[] = []
codes (String.◌∷◌ c s) = code c ∷ codes s

abbrev pub within : ℕ → ℕ → ℕ → Bool
within lo hi c = leb lo c && leb c hi

-- The first byte, or 0 at the end.
abbrev pub peek_byte : Bytes → ℕ
peek_byte [] = 0
peek_byte (c ∷ r) = c

unfoldable pub bytes_eq : Bytes → Bytes → Bool
bytes_eq [] [] = true
bytes_eq (x ∷ xs) (y ∷ ys) = x == y && bytes_eq xs ys
bytes_eq _ _ = false

pub bytes_eq_iff : (a b : Bytes) → (bytes_eq a b ≡ true) ↔ (a ≡ b)
unfolding bytes_eq
bytes_eq_iff (x ∷ a) (y ∷ b) = ground (arith, bytes_eq_iff a b)
bytes_eq_iff _ _ = ground arith

-- `while (p(buf[cur])) ++cur;` as the number of bytes passed.
unfoldable pub run_length : (ℕ → Bool) → Bytes → ℕ
run_length p [] = 0
run_length p (c ∷ r) = if p c then suc (run_length p r) else 0

pub run_length-le : (p : ℕ → Bool) (r : Bytes) → run_length p r ≤ length r
unfolding run_length
run_length-le p [] = omega arith
run_length-le p (c ∷ r) = ground (arith, run_length-le p r)

module _ {ℓ κ} {A : Type ℓ} where
  abbrev pub All : (A → Type κ) → List A → Type κ
  All P [] = Unit
  All P (x ∷ xs) = P x × All P xs

module _ {ℓ κ ν} {A : Type ℓ} where
  pub All-mono :
      (P : A → Type κ) (Q : A → Type ν)
      → ((a : A) → P a → Q a)
      → (xs : List A) → All P xs
      → All Q xs
  All-mono P Q f [] h = tt
  All-mono P Q f (x ∷ xs) h = (f x (h.0), All-mono P Q f xs (h.1))

-- Every byte passed meets the test, and the byte behind the run, if there is one, does not.
abbrev pub StopsAt : (ℕ → Bool) → Bytes → Type 0
StopsAt p [] = Unit
StopsAt p (c ∷ r) = p c ≡ false

pub run_length-All : (p : ℕ → Bool) (r : Bytes) → All (λ c. p c ≡ true) (take (run_length p r) r)
unfolding run_length
run_length-All p [] = tt
run_length-All p (c ∷ r) = ground (arith, run_length-All p r)

pub run_length-StopsAt : (p : ℕ → Bool) (r : Bytes) → StopsAt p (drop (run_length p r) r)
unfolding run_length
run_length-StopsAt p [] = tt
run_length-StopsAt p (c ∷ r) = ground (arith, run_length-StopsAt p r)

-- `%u`: the decimal digits of `n` before those in `digits`, with the digits that are left as fuel.
unfoldable pub decimal_from : ℕ → ℕ → Bytes → Bytes
decimal_from zero n digits = digits
decimal_from (suc left) n digits =
    let longer = decimal_from left (n / 10) ((b'0' + n % 10) ∷ digits) in
    if ltb n 10 then (b'0' + n % 10) ∷ digits else longer

-- A word of 32 bits has at most ten digits.
abbrev pub decimal : ℕ → Bytes
decimal n = decimal_from 10 n []

pub run_length-append :
    (p : ℕ → Bool) (s : Bytes) (q : ℕ) (t : Bytes)
    → All (λ c. p c ≡ true) s
    → p q ≡ false
    → run_length p (s ++ q ∷ t) ≡ length s
unfolding run_length
run_length-append p [] q t h e = rw e refl
run_length-append p (c ∷ s) q t h e = rw (h.0) (ap suc (run_length-append p s q t (h.1) e))

pub run_length-whole :
    (p : ℕ → Bool) (s rest : Bytes)
    → All (λ c. p c ≡ true) s
    → StopsAt p rest
    → run_length p (s ++ rest) ≡ length s
unfolding run_length
run_length-whole p [] [] h e = refl
run_length-whole p [] (q ∷ t) h e = rw e refl
run_length-whole p (c ∷ s) rest h e = rw (h.0) (ap suc (run_length-whole p s rest (h.1) e))
