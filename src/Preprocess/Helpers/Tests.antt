-- ===== src/Preprocess/Helpers/Tests.antt =====
-- Helpers over integers in place of reals.
use nslc.Preprocess.Helpers.{HelperEntry, helper, helpers, find_helper}
use nslc.Preprocess.Helpers.Evaluator.{Evaluation, quiet, invoke, eval_abs, unary_call}
use nslc.Preprocess.Helpers.Typed.{Promised, invoke-Promised}
use nslc.Preprocess.Helpers.Value.{Reals, int, Value, render}
use nslc.Prelude.{
  codes, ℤ, pos, negsuc, ltb_ℤ, negate, int64_max, int64_min, decimal_from, true, false, not, ◌&&◌,
  ◌≡◌, refl, [], ◌∷◌, some, if◌then◌else◌, bytes_eq, arith,
}

-- Whole numbers only: a function without a whole value gives its argument.
abbrev whole : Reals
whole = record {
  Real = ℤ;
  of_int = λ i. i;
  trunc = λ r. r;
  is_nan = λ r. false;
  is_inf = λ r. false;
  lt = ltb_ℤ;
  le = λ a b. not (ltb_ℤ b a);
  eq = λ a b. not (ltb_ℤ a b) && not (ltb_ℤ b a);
  pow = λ a b. a;
  sqrt = λ a. a;
  sin = λ a. a;
  cos = λ a. a;
  tan = λ a. a;
  asin = λ a. a;
  acos = λ a. a;
  atan = λ a. a;
  sinh = λ a. a;
  cosh = λ a. a;
  tanh = λ a. a;
  log = λ a. a;
  log10 = λ a. a;
  exp = λ a. a;
  floor = λ a. a;
  ceil = λ a. a;
  round = λ a. a;
  fabs = λ a. if ltb_ℤ a (pos 0) then negate a else a;
  print = λ a. codes "0";
}

-- The absolute value of the least word is the greatest.
invoke-abs : invoke whole (codes "_abs") (int int64_min ∷ []) ≡ some (quiet (int int64_max))
unfolding invoke bytes_eq unary_call eval_abs
invoke-abs = refl

render-negative : render whole (int (negsuc 41)) ≡ codes "-42"
unfolding render decimal_from
render-negative = refl

abbrev sqrt_entry : HelperEntry
sqrt_entry = helper (codes "_sqrt") 1 true

sqrt_entry-found : find_helper helpers (codes "_sqrt") ≡ some sqrt_entry
unfolding find_helper helpers bytes_eq
sqrt_entry-found = refl

invoke-Promised_example :
    (e : Evaluation (Value whole)) × (invoke whole (codes "_sqrt") (int (negsuc 0) ∷ []) ≡ some e)
    × Promised whole true e
invoke-Promised_example =
    invoke-Promised whole sqrt_entry (int (negsuc 0) ∷ []) sqrt_entry-found refl (omega arith, tt)
