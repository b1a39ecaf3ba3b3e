-- ===== src/Prelude/Tests.antt =====
-- Boolean tests on the native numbers, and the conditional.
use Prim.Native.Nat.{ℕ, ◌≤◌, ◌<◌, compare, Ordering}
use mathlib.Core.Path.{◌≡◌, refl, subst}
use mathlib.Core.Logic.{◌↔◌, ◌⊎◌, inl, inr}
use mathlib.Core.Bool.{Bool, true, false}
use mathlib.Core.Option.{Option, none, some}
use native.Mathlib.Omega.{arith}

-- These compute to `compare`, which `ground` and `grind` read with no lemma listed.
abbrev pub ltb : ℕ → ℕ → Bool
ltb a b = elim (compare a b) [ Ordering.lt ↦ true | _ ↦ false ]

abbrev pub leb : ℕ → ℕ → Bool
leb a b = elim (compare a b) [ Ordering.gt ↦ false | _ ↦ true ]

infix 50 ◌==◌
abbrev pub ◌==◌ : ℕ → ℕ → Bool
a == b = elim (compare a b) [ Ordering.eq ↦ true | _ ↦ false ]

infix 1 if◌then◌else◌
abbrev pub if◌then◌else◌ {ℓ} : {A : Type ℓ} → Bool → A → A → A
if true then x else y = x
if false then x else y = y

-- `omega` reads a test through such lemmas.
pub ltb→lt : (a b : ℕ) → ltb a b ≡ true → a < b
ltb→lt a b h = ground arith

pub lt→ltb : (a b : ℕ) → a < b → ltb a b ≡ true
lt→ltb a b h = ground arith

pub leb→le : (a b : ℕ) → leb a b ≡ true → a ≤ b
leb→le a b h = ground arith

pub ==_iff : (a b : ℕ) → ((a == b) ≡ true) ↔ (a ≡ b)
==_iff a b = ground arith

pub ruleset tests = (arith, ltb→lt, lt→ltb, leb→le)

-- To split on a computed value and keep the equation.
pub Bool-cases : (b : Bool) → (b ≡ true) ⊎ (b ≡ false)
Bool-cases true = inl refl
Bool-cases false = inr refl

pub Option-cases {ℓ} : {A : Type ℓ} (o : Option A) → (o ≡ none) ⊎ ((a : A) × (o ≡ some a))
Option-cases none = inl refl
Option-cases (some a) = inr (a, refl)

-- A chain of steps of which each may fail.
infixl 5 ◌>>=◌ ◌>>◌
abbrev pub ◌>>=◌ {ℓ κ} : {A : Type ℓ} {B : Type κ} → Option A → (A → Option B) → Option B
none >>= f = none
some a >>= f = f a

abbrev pub ◌>>◌ {ℓ} : {B : Type ℓ} → Option (Unit {0}) → Option B → Option B
m >> k = m >>= λ _. k

none-some {ℓ} : {A : Type ℓ} {a : A} → none ≡ some a → ⊥
none-some h = cc h

pub >>=-eq-some {ℓ κ} :
    {A : Type ℓ} {B : Type κ} (m : Option A) (f : A → Option B) {b : B}
    → (m >>= f) ≡ some b
    → (a : A) × (m ≡ some a) × (f a ≡ some b)
>>=-eq-some (some a) f h = (a, refl, h)
>>=-eq-some none f h = absurd (none-some h)

-- What holds of the result, if there is one.
pub record Ensures {ℓ κ} {A : Type ℓ} (m : Option A) (P : A → Type κ) : Type (ℓ ⊔ κ) where
  pub gives : (a : A) → m ≡ some a → P a

some-eq {ℓ} : {A : Type ℓ} {a b : A} → some a ≡ some b → a ≡ b
some-eq e = cc e

pub Ensures-some {ℓ κ} : {A : Type ℓ} {P : A → Type κ} {a : A} → P a → Ensures (some a) P
Ensures-some {P = P} h = record { gives = λ b e. subst P (some-eq e) h }

pub Ensures-none {ℓ κ} : {A : Type ℓ} {P : A → Type κ} → Ensures none P
Ensures-none = record { gives = λ b e. absurd (none-some e) }

pub Ensures_self {ℓ} : {A : Type ℓ} (m : Option A) → Ensures m (λ a. m ≡ some a)
Ensures_self m = record { gives = λ a e. e }

pub Ensures-bind {ℓ κ ι ν} :
    {A : Type ℓ} {B : Type κ} {P : A → Type ι} {Q : B → Type ν} (m : Option A) (f : A → Option B)
    → Ensures m P
    → ((a : A) → P a → Ensures (f a) Q)
    → Ensures (m >>= f) Q
Ensures-bind none f h k = Ensures-none
Ensures-bind (some a) f h k = k a (h.gives a refl)

-- Any result will do.
pub Ensures-after {ℓ κ ν} :
    {A : Type ℓ} {B : Type κ} {Q : B → Type ν} (m : Option A) (f : A → Option B)
    → ((a : A) → Ensures (f a) Q)
    → Ensures (m >>= f) Q
Ensures-after none f k = Ensures-none
Ensures-after (some a) f k = k a

pub Ensures-if {ℓ κ} :
    {A : Type ℓ} {P : A → Type κ} (c : Bool) (a b : Option A)
    → Ensures a P
    → Ensures b P
    → Ensures (if c then a else b) P
Ensures-if true a b h k = h
Ensures-if false a b h k = k

pub Ensures-test {ℓ κ} :
    {A : Type ℓ} {P : A → Type κ} (c : Bool) (a b : Option A)
    → (c ≡ true → Ensures a P)
    → (c ≡ false → Ensures b P)
    → Ensures (if c then a else b) P
Ensures-test true a b h k = h refl
Ensures-test false a b h k = k refl

pub Ensures-mono {ℓ κ ν} :
    {A : Type ℓ} {P : A → Type κ} {Q : A → Type ν} (m : Option A)
    → ((a : A) → P a → Q a)
    → Ensures m P
    → Ensures m Q
Ensures-mono m f h = record { gives = λ a e. f a (h.gives a e) }
