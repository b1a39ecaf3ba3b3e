-- ===== src/Preprocess/Helpers/Value.antt =====
-- lib/Preprocess/HelperEvaluator.cpp: the class `PPValue`, over a type of reals.
use nslc.Prelude.{
  suc, Bytes, codes, decimal_from, ℤ, pos, negsuc, ltb_ℤ, int64_max, int64_min, Bool, true, false,
  not, ◌||◌, ◌==◌, [], ◌∷◌, ◌++◌, if◌then◌else◌,
}

-- `long double` and the functions of the mathematical library. `trunc` is the integer part of a number
-- that is finite, and `print` its text with 17 digits.
pub record Reals : Type 1 where
  pub Real : Type 0
  pub of_int : ℤ → Real
  pub trunc : Real → ℤ
  pub is_nan : Real → Bool
  pub is_inf : Real → Bool
  pub lt : Real → Real → Bool
  pub le : Real → Real → Bool
  pub eq : Real → Real → Bool
  pub pow : Real → Real → Real
  pub sqrt : Real → Real
  pub sin : Real → Real
  pub cos : Real → Real
  pub tan : Real → Real
  pub asin : Real → Real
  pub acos : Real → Real
  pub atan : Real → Real
  pub sinh : Real → Real
  pub cosh : Real → Real
  pub tanh : Real → Real
  pub log : Real → Real
  pub log10 : Real → Real
  pub exp : Real → Real
  pub floor : Real → Real
  pub ceil : Real → Real
  pub round : Real → Real
  pub fabs : Real → Real
  pub print : Real → Bytes

pub data PpValue (R : Type 0) : Type 0 where
  int : ℤ → PpValue R
  real : R → PpValue R

-- The sign and the digits of `%lld`, at most 19.
abbrev pub signed_decimal : ℤ → Bytes
signed_decimal (pos n) = decimal_from 19 n []
signed_decimal (negsuc n) = b'-' ∷ decimal_from 19 (suc n) []

-- A byte that tells a real from an integer.
unfoldable pub has_decimal : Bytes → Bool
has_decimal [] = false
has_decimal (c ∷ s) =
    let later = has_decimal s in
    if c == b'.' || (c == b'e' || (c == b'E' || (c == b'n' || c == b'i'))) then true else later

abbrev pub with_decimal : Bytes → Bytes
with_decimal s = if has_decimal s then s else s ++ codes ".0"

module _ (R : Reals) where
  abbrev pub Value : Type 0
  Value = PpValue R.Real

  abbrev clamp : ℤ → ℤ
  clamp t = if ltb_ℤ int64_max t then int64_max else if ltb_ℤ t int64_min then int64_min else t

  unfoldable pub to_int : Value → ℤ
  to_int (int i) = i
  to_int (real r) = if R.is_nan r || R.is_inf r then pos 0 else clamp (R.trunc r)

  unfoldable pub to_real : Value → R.Real
  to_real (int i) = R.of_int i
  to_real (real r) = r

  unfoldable pub is_truthy : Value → Bool
  is_truthy (int (pos n)) = not (n == 0)
  is_truthy (int (negsuc n)) = true
  is_truthy (real r) = not (R.eq r (R.of_int (pos 0)))

  unfoldable pub render : Value → Bytes
  render (int i) = signed_decimal i
  render (real r) = with_decimal (R.print r)
