-- ===== src/Preprocess/Helpers/Typed.antt =====
-- The kinds and the ranges of the values of the helpers.
use nslc.Basic.Diagnostics.{warning, error}
use mathlib.Core.Path.{subst}
use nslc.Preprocess.Helpers.{HelperEntry, helpers, find_helper}
use nslc.Preprocess.Helpers.Evaluator.{
  Evaluation, quiet, eval_pow, eval_sqrt, eval_asin, eval_acos, eval_log, eval_log10, eval_exp,
  eval_abs, eval_min, eval_max, unary_call, binary_call, invoke,
}
use nslc.Preprocess.Helpers.Value.{Reals, int, real, Value, to_int, to_real}
use nslc.Prelude.{
  ◌≡◌, ◌⊎◌, inl, inr, refl, Bytes, codes, ℤ, pos, negsuc, ltb_ℤ, int64_max, int64_min, IsInt64,
  Bool, true, false, ◌||◌, List, [], ◌∷◌, some, if◌then◌else◌, bytes_eq, length, All, arith,
  Bool-cases,
}

if-IsInt64 : (c : Bool) (x y : ℤ) → IsInt64 x → IsInt64 y → IsInt64 (if c then x else y)
if-IsInt64 true x y h k = h
if-IsInt64 false x y h k = k

abbrev clamped : ℤ → ℤ
clamped t = if ltb_ℤ int64_max t then int64_max else if ltb_ℤ t int64_min then int64_min else t

clamped-IsInt64 : (t : ℤ) → IsInt64 (clamped t)
clamped-IsInt64 (pos n) = ground arith
clamped-IsInt64 (negsuc n) = ground arith

find_helper-hit :
    (g h : HelperEntry) (hs : List HelperEntry) (name : Bytes)
    → bytes_eq name g.name ≡ true
    → find_helper (g ∷ hs) name ≡ some h
    → g ≡ h
unfolding find_helper
find_helper-hit g h hs name t e = ground (arith, t, e)

find_helper-miss :
    (g h : HelperEntry) (hs : List HelperEntry) (name : Bytes)
    → bytes_eq name g.name ≡ false
    → find_helper (g ∷ hs) name ≡ some h
    → find_helper hs name ≡ some h
unfolding find_helper
find_helper-miss g h hs name t e = ground (arith, t, e)

find_helper-nil : (h : HelperEntry) (name : Bytes) → find_helper [] name ≡ some h → ⊥
unfolding find_helper
find_helper-nil h name e = cc e

find_helper-All :
    (P : HelperEntry → Type 0) (hs : List HelperEntry) (name : Bytes) (h : HelperEntry)
    → All P hs
    → find_helper hs name ≡ some h
    → P h
find_helper-All P [] name h all e = absurd (find_helper-nil h name e)
find_helper-All P (g ∷ hs) name h all e = elim (Bool-cases (bytes_eq name g.name)) [
  | inl t ↦ subst P (find_helper-hit g h hs name t e) (all.0)
  | inr t ↦ find_helper-All P hs name h (all.1) (find_helper-miss g h hs name t e)
]

module _ (R : Reals) where
  -- An integer is a signed word of 64 bits.
  abbrev pub InRange : Value R → Type 0
  InRange (int i) = IsInt64 i
  InRange (real r) = Unit

  abbrev pub IsReal : Value R → Type 0
  IsReal (int i) = ⊥
  IsReal (real r) = Unit

  -- What is promised of a helper: a value in range, and a real one, or an error, where the table says so.
  abbrev pub Promised : Bool → Evaluation (Value R) → Type 0
  Promised true e =
      InRange e.value × (IsReal e.value ⊎ ((msg : Bytes) × (e.reported ≡ some (error, msg))))
  Promised false e = InRange e.value

  to_int-IsInt64 : (v : Value R) → InRange v → IsInt64 (to_int R v)
  unfolding to_int
  to_int-IsInt64 (int i) h = h
  to_int-IsInt64 (real r) h =
      if-IsInt64 (R.is_nan r || R.is_inf r) (pos 0) (clamped (R.trunc r)) (omega arith)
        (clamped-IsInt64 (R.trunc r))

  eval_abs-InRange : (v : Value R) → InRange v → InRange (eval_abs R v)
  unfolding eval_abs
  eval_abs-InRange (int (pos n)) h = h
  eval_abs-InRange (int (negsuc n)) h = ground (arith, h)
  eval_abs-InRange (real r) h = tt

  eval_min-InRange : (a b : Value R) → InRange a → InRange b → InRange (eval_min R a b)
  unfolding eval_min
  eval_min-InRange (int x) (int y) h k = if-IsInt64 (ltb_ℤ x y) x y h k
  eval_min-InRange (int x) (real y) h k = tt
  eval_min-InRange (real x) (int y) h k = tt
  eval_min-InRange (real x) (real y) h k = tt

  eval_max-InRange : (a b : Value R) → InRange a → InRange b → InRange (eval_max R a b)
  unfolding eval_max
  eval_max-InRange (int x) (int y) h k = if-IsInt64 (ltb_ℤ y x) x y h k
  eval_max-InRange (int x) (real y) h k = tt
  eval_max-InRange (real x) (int y) h k = tt
  eval_max-InRange (real x) (real y) h k = tt

  -- A real, with a warning or without one.
  checked-Promised :
      (c : Bool) (msg : Bytes) (r : R.Real)
      → Promised true
          (if c then record { value = real r; reported = some (warning, msg) } else quiet (real r))
  checked-Promised true msg r = (tt, inl tt)
  checked-Promised false msg r = (tt, inl tt)

  -- A real, or an error.
  domain-Promised :
      (c : Bool) (msg : Bytes) (r : R.Real)
      → Promised true (
          if c
          then record { value = int (pos 0); reported = some (error, msg) }
          else quiet (real r))
  domain-Promised true msg r = (omega arith, inr (msg, refl))
  domain-Promised false msg r = (tt, inl tt)

  -- What a call of one helper gives, with as many arguments as the table says.
  abbrev Meets : HelperEntry → Type 0
  Meets h =
      (args : List (Value R))
      → length args ≡ h.arity
      → All InRange args
      → (e : Evaluation (Value R)) × (invoke R h.name args ≡ some e) × Promised h.returns_real e

  eval_sqrt-Promised : (a : Value R) → Promised true (eval_sqrt R a)
  unfolding eval_sqrt
  eval_sqrt-Promised a =
      domain-Promised (R.lt (to_real R a) (R.of_int (pos 0)))
        (codes "helper '_sqrt' domain error: argument must be non-negative") (R.sqrt (to_real R a))

  eval_asin-Promised : (a : Value R) → Promised true (eval_asin R a)
  unfolding eval_asin
  eval_asin-Promised a =
      domain-Promised
        (R.lt (to_real R a) (R.of_int (negsuc 0)) || R.lt (R.of_int (pos 1)) (to_real R a))
        (codes "helper '_asin' domain error: argument must be in [-1, 1]") (R.asin (to_real R a))

  eval_acos-Promised : (a : Value R) → Promised true (eval_acos R a)
  unfolding eval_acos
  eval_acos-Promised a =
      domain-Promised
        (R.lt (to_real R a) (R.of_int (negsuc 0)) || R.lt (R.of_int (pos 1)) (to_real R a))
        (codes "helper '_acos' domain error: argument must be in [-1, 1]") (R.acos (to_real R a))

  eval_log-Promised : (a : Value R) → Promised true (eval_log R a)
  unfolding eval_log
  eval_log-Promised a =
      domain-Promised (R.le (to_real R a) (R.of_int (pos 0)))
        (codes "helper '_log' domain error: argument must be positive") (R.log (to_real R a))

  eval_log10-Promised : (a : Value R) → Promised true (eval_log10 R a)
  unfolding eval_log10
  eval_log10-Promised a =
      domain-Promised (R.le (to_real R a) (R.of_int (pos 0)))
        (codes "helper '_log10' domain error: argument must be positive") (R.log10 (to_real R a))

  eval_pow-Promised : (a b : Value R) → Promised true (eval_pow R a b)
  unfolding eval_pow
  eval_pow-Promised a b =
      let r = R.pow (to_real R a) (to_real R b) in
      checked-Promised (R.is_inf r || R.is_nan r)
        (codes "helper '_pow' result exceeds long-double range") r

  eval_exp-Promised : (a : Value R) → Promised true (eval_exp R a)
  unfolding eval_exp
  eval_exp-Promised a =
      let r = R.exp (to_real R a) in
      checked-Promised (R.is_inf r || R.is_nan r)
        (codes "helper '_exp' result exceeds long-double range") r

  unary_call-Meets :
      (name : Bytes) (returns_real : Bool) (f : Value R → Evaluation (Value R))
      → ((args : List (Value R)) → invoke R name args ≡ unary_call R f args)
      → ((a : Value R) → InRange a → Promised returns_real (f a))
      → Meets (record { name = name; arity = 1; returns_real = returns_real })
  unfolding unary_call
  unary_call-Meets name returns_real f e p [] l all = absurd (omega (arith, l))
  unary_call-Meets name returns_real f e p (a ∷ []) l all = (f a, e (a ∷ []), p a (all.0))
  unary_call-Meets name returns_real f e p (a ∷ b ∷ args) l all = absurd (omega (arith, l))

  binary_call-Meets :
      (name : Bytes) (returns_real : Bool) (f : Value R → Value R → Evaluation (Value R))
      → ((args : List (Value R)) → invoke R name args ≡ binary_call R f args)
      → ((a b : Value R) → InRange a → InRange b → Promised returns_real (f a b))
      → Meets (record { name = name; arity = 2; returns_real = returns_real })
  unfolding binary_call
  binary_call-Meets name returns_real f e p [] l all = absurd (omega (arith, l))
  binary_call-Meets name returns_real f e p (a ∷ []) l all = absurd (omega (arith, l))
  binary_call-Meets name returns_real f e p (a ∷ b ∷ []) l all =
      (f a b, e (a ∷ b ∷ []), p a b (all.0) ((all.1).0))
  binary_call-Meets name returns_real f e p (a ∷ b ∷ c ∷ args) l all = absurd (omega (arith, l))

  plain-Meets :
      (name : Bytes) (f : R.Real → R.Real)
      → ((args : List (Value R))
          → invoke R name args ≡ unary_call R (λ v. quiet (real (f (to_real R v)))) args)
      → Meets (record { name = name; arity = 1; returns_real = true })
  plain-Meets name f e =
      unary_call-Meets name true (λ v. quiet (real (f (to_real R v)))) e (λ a h. (tt, inl tt))

  helpers-Meets : All Meets helpers
  unfolding helpers invoke bytes_eq
  helpers-Meets = (
    unary_call-Meets (codes "_int") false (λ v. quiet (int (to_int R v))) (λ args. refl)
        to_int-IsInt64,
    (
      unary_call-Meets (codes "_real") true (λ v. quiet (real (to_real R v))) (λ args. refl)
          (λ a h. (tt, inl tt)),
      (
        binary_call-Meets (codes "_pow") true (eval_pow R) (λ args. refl)
            (λ a b h k. eval_pow-Promised a b),
        (
          unary_call-Meets (codes "_sqrt") true (eval_sqrt R) (λ args. refl)
              (λ a h. eval_sqrt-Promised a),
          (
            plain-Meets (codes "_sin") R.sin (λ args. refl),
            (
              plain-Meets (codes "_cos") R.cos (λ args. refl),
              (
                plain-Meets (codes "_tan") R.tan (λ args. refl),
                (
                  unary_call-Meets (codes "_asin") true (eval_asin R) (λ args. refl)
                      (λ a h. eval_asin-Promised a),
                  (
                    unary_call-Meets (codes "_acos") true (eval_acos R) (λ args. refl)
                        (λ a h. eval_acos-Promised a),
                    (
                      plain-Meets (codes "_atan") R.atan (λ args. refl),
                      (
                        plain-Meets (codes "_sinh") R.sinh (λ args. refl),
                        (
                          plain-Meets (codes "_cosh") R.cosh (λ args. refl),
                          (
                            plain-Meets (codes "_tanh") R.tanh (λ args. refl),
                            (
                              unary_call-Meets (codes "_log") true (eval_log R) (λ args. refl)
                                  (λ a h. eval_log-Promised a),
                              (
                                unary_call-Meets (codes "_log10") true (eval_log10 R) (λ args. refl)
                                    (λ a h. eval_log10-Promised a),
                                (
                                  unary_call-Meets (codes "_exp") true (eval_exp R) (λ args. refl)
                                      (λ a h. eval_exp-Promised a),
                                  (
                                    plain-Meets (codes "_floor") R.floor (λ args. refl),
                                    (
                                      plain-Meets (codes "_ceil") R.ceil (λ args. refl),
                                      (
                                        plain-Meets (codes "_round") R.round (λ args. refl),
                                        (
                                          unary_call-Meets (codes "_abs") false
                                              (λ v. quiet (eval_abs R v)) (λ args. refl)
                                              eval_abs-InRange,
                                          (
                                            binary_call-Meets (codes "_min") false
                                                (λ a b. quiet (eval_min R a b)) (λ args. refl)
                                                eval_min-InRange,
                                            (
                                              binary_call-Meets (codes "_max") false
                                                  (λ a b. quiet (eval_max R a b)) (λ args. refl)
                                                  eval_max-InRange,
                                              tt,
                                            ),
                                          ),
                                        ),
                                      ),
                                    ),
                                  ),
                                ),
                              ),
                            ),
                          ),
                        ),
                      ),
                    ),
                  ),
                ),
              ),
            ),
          ),
        ),
      ),
    ),
  )

  -- A helper of the table, called with as many arguments as the table says, all in the range of a signed
  -- word of 64 bits, reads no argument that is not there and returns a value in that range; where the
  -- table says that it is real, it is real or an error was reported.
  pub invoke-Promised :
      (h : HelperEntry) (args : List (Value R))
      → find_helper helpers h.name ≡ some h
      → length args ≡ h.arity
      → All InRange args
      → (e : Evaluation (Value R)) × (invoke R h.name args ≡ some e) × Promised h.returns_real e
  invoke-Promised h args found l all =
      find_helper-All Meets helpers h.name h helpers-Meets found args l all
