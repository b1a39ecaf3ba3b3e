-- ===== src/Preprocess/Helpers/Evaluator.antt =====
-- lib/Preprocess/HelperEvaluator.cpp: one function for each helper, and `invoke`.
use nslc.Basic.Diagnostics.{Severity, warning, error}
use nslc.Preprocess.Helpers.Value.{Reals, int, real, Value, to_int, to_real}
use nslc.Prelude.{
  Bytes, codes, ℤ, pos, negsuc, ltb_ℤ, negate, int64_max, Bool, ◌||◌, List, ◌++◌, Option, none,
  some, ◌>>=◌, if◌then◌else◌, bytes_eq, get_elem?, ◌==◌,
}

-- The value, and the report that comes with it.
pub record Evaluation (V : Type 0) : Type 0 where
  pub value : V
  pub reported : Option (Severity × Bytes)

abbrev pub quiet : {V : Type 0} → V → Evaluation V
quiet v = record { value = v; reported = none }

module _ (R : Reals) where
  abbrev pub loud : Value R → Severity → Bytes → Evaluation (Value R)
  loud v sev msg = record { value = v; reported = some (sev, msg) }

  abbrev zero_of : R.Real
  zero_of = R.of_int (pos 0)

  abbrev is_overflow_real : R.Real → Bool
  is_overflow_real r = R.is_inf r || R.is_nan r

  -- A warning on a result that is out of range.
  abbrev checked : Bytes → R.Real → Evaluation (Value R)
  checked msg r = if is_overflow_real r then loud (real r) warning msg else quiet (real r)

  -- An error and 0 on an argument outside the domain.
  abbrev within_domain : Bool → Bytes → R.Real → Evaluation (Value R)
  within_domain outside msg r = if outside then loud (int (pos 0)) error msg else quiet (real r)

  abbrev beyond_one : R.Real → Bool
  beyond_one v = R.lt v (R.of_int (negsuc 0)) || R.lt (R.of_int (pos 1)) v

  unfoldable pub eval_pow : Value R → Value R → Evaluation (Value R)
  eval_pow base exp =
      checked (codes "helper '_pow' result exceeds long-double range")
        (R.pow (to_real R base) (to_real R exp))

  unfoldable pub eval_sqrt : Value R → Evaluation (Value R)
  eval_sqrt arg =
      within_domain (R.lt (to_real R arg) zero_of)
        (codes "helper '_sqrt' domain error: argument must be non-negative")
        (R.sqrt (to_real R arg))

  unfoldable pub eval_asin : Value R → Evaluation (Value R)
  eval_asin arg =
      within_domain (beyond_one (to_real R arg))
        (codes "helper '_asin' domain error: argument must be in [-1, 1]") (R.asin (to_real R arg))

  unfoldable pub eval_acos : Value R → Evaluation (Value R)
  eval_acos arg =
      within_domain (beyond_one (to_real R arg))
        (codes "helper '_acos' domain error: argument must be in [-1, 1]") (R.acos (to_real R arg))

  unfoldable pub eval_log : Value R → Evaluation (Value R)
  eval_log arg =
      within_domain (R.le (to_real R arg) zero_of)
        (codes "helper '_log' domain error: argument must be positive") (R.log (to_real R arg))

  unfoldable pub eval_log10 : Value R → Evaluation (Value R)
  eval_log10 arg =
      within_domain (R.le (to_real R arg) zero_of)
        (codes "helper '_log10' domain error: argument must be positive") (R.log10 (to_real R arg))

  unfoldable pub eval_exp : Value R → Evaluation (Value R)
  eval_exp arg =
      checked (codes "helper '_exp' result exceeds long-double range") (R.exp (to_real R arg))

  -- INT64_MIN has no absolute value in the range.
  abbrev abs_int : ℤ → ℤ
  abs_int (pos n) = pos n
  abs_int (negsuc n) = if n == 9223372036854775807 then int64_max else negate (negsuc n)

  unfoldable pub eval_abs : Value R → Value R
  eval_abs (int i) = int (abs_int i)
  eval_abs (real r) = real (R.fabs r)

  unfoldable pub eval_min : Value R → Value R → Value R
  eval_min (int x) (int y) = int (if ltb_ℤ x y then x else y)
  eval_min a b = real (if R.lt (to_real R a) (to_real R b) then to_real R a else to_real R b)

  unfoldable pub eval_max : Value R → Value R → Value R
  eval_max (int x) (int y) = int (if ltb_ℤ y x then x else y)
  eval_max a b = real (if R.lt (to_real R b) (to_real R a) then to_real R a else to_real R b)

  -- A function of reals as a helper.
  abbrev on_real : (R.Real → R.Real) → Value R → Evaluation (Value R)
  on_real f v = quiet (real (f (to_real R v)))

  -- `none` is a read past the arguments.
  unfoldable pub unary_call :
      (Value R → Evaluation (Value R)) → List (Value R) → Option (Evaluation (Value R))
  unary_call f args = get_elem? args 0 >>= λ a. some (f a)

  unfoldable pub binary_call :
      (Value R → Value R → Evaluation (Value R)) → List (Value R) → Option (Evaluation (Value R))
  binary_call f args = get_elem? args 0 >>= λ a. get_elem? args 1 >>= λ b. some (f a b)

  unfoldable pub invoke : Bytes → List (Value R) → Option (Evaluation (Value R))
  invoke name args =
      if bytes_eq name (codes "_int")
      then unary_call (λ v. quiet (int (to_int R v))) args
      else if bytes_eq name (codes "_real")
      then unary_call (λ v. quiet (real (to_real R v))) args
      else if bytes_eq name (codes "_pow")
      then binary_call eval_pow args
      else if bytes_eq name (codes "_sqrt")
      then unary_call eval_sqrt args
      else if bytes_eq name (codes "_sin")
      then unary_call (on_real R.sin) args
      else if bytes_eq name (codes "_cos")
      then unary_call (on_real R.cos) args
      else if bytes_eq name (codes "_tan")
      then unary_call (on_real R.tan) args
      else if bytes_eq name (codes "_asin")
      then unary_call eval_asin args
      else if bytes_eq name (codes "_acos")
      then unary_call eval_acos args
      else if bytes_eq name (codes "_atan")
      then unary_call (on_real R.atan) args
      else if bytes_eq name (codes "_sinh")
      then unary_call (on_real R.sinh) args
      else if bytes_eq name (codes "_cosh")
      then unary_call (on_real R.cosh) args
      else if bytes_eq name (codes "_tanh")
      then unary_call (on_real R.tanh) args
      else if bytes_eq name (codes "_log")
      then unary_call eval_log args
      else if bytes_eq name (codes "_log10")
      then unary_call eval_log10 args
      else if bytes_eq name (codes "_exp")
      then unary_call eval_exp args
      else if bytes_eq name (codes "_floor")
      then unary_call (on_real R.floor) args
      else if bytes_eq name (codes "_ceil")
      then unary_call (on_real R.ceil) args
      else if bytes_eq name (codes "_round")
      then unary_call (on_real R.round) args
      else if bytes_eq name (codes "_abs")
      then unary_call (λ v. quiet (eval_abs v)) args
      else if bytes_eq name (codes "_min")
      then binary_call (λ a b. quiet (eval_min a b)) args
      else if bytes_eq name (codes "_max")
      then binary_call (λ a b. quiet (eval_max a b)) args
      else some
          (loud (int (pos 0)) error (codes "unknown compile-time helper: '" ++ name ++ codes "'"))
