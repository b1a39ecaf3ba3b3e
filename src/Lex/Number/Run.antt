-- ===== src/Lex/Number/Run.antt =====
-- The character classes of lib/Lex/NumberLiteral.cpp and its loop `consumeValueRun`.
use nslc.Lex.Kind.{NumericFlags}
use nslc.Prelude.{ℕ, suc, Bytes, within, Bool, ◌||◌, [], ◌∷◌, ◌==◌, if◌then◌else◌}

unfoldable pub is_dec_digit : ℕ → Bool
is_dec_digit c = within b'0' b'9' c

unfoldable pub is_hex_digit : ℕ → Bool
unfolding is_dec_digit
is_hex_digit c = is_dec_digit c || within b'a' b'f' c || within b'A' b'F' c

unfoldable pub is_decimal_body : ℕ → Bool
unfolding is_dec_digit
is_decimal_body c = is_dec_digit c || c == b'_'

-- `isValueMarker`: which of the three markers, if any.
unfoldable pub is_z : ℕ → Bool
is_z c = c == b'Z' || c == b'z'

unfoldable pub is_x : ℕ → Bool
is_x c = c == b'X' || c == b'x'

unfoldable pub is_u : ℕ → Bool
is_u c = c == b'U' || c == b'u'

unfoldable pub is_value_marker : ℕ → Bool
unfolding is_z is_x is_u
is_value_marker c = is_z c || is_x c || is_u c

-- `setMarkerFlag`: a flag once set stays set.
unfoldable pub set_marker_flag : ℕ → NumericFlags → NumericFlags
unfolding is_z is_x is_u
set_marker_flag c f = record {
  has_z = is_z c || f.has_z;
  has_x = is_x c || f.has_x;
  has_u = is_u c || f.has_u;
}

-- The bases that have a value run.
pub data Radix : Type 0 where
  binary octal hex : Radix

unfoldable pub is_digit_of : Radix → ℕ → Bool
unfolding is_hex_digit
is_digit_of binary c = c == b'0' || c == b'1'
is_digit_of octal c = within b'0' b'7' c
is_digit_of hex c = is_hex_digit c

-- The number of bytes passed and the flags behind the run.
unfoldable pub consume_value_run : Radix → Bytes → NumericFlags → ℕ × NumericFlags
consume_value_run base [] flags = (0, flags)
consume_value_run base (c ∷ r) flags =
    let passed : NumericFlags → ℕ × NumericFlags =
      λ f. let rest = consume_value_run base r f in (suc rest.0, rest.1) in
    if c == b'_'
    then passed flags
    else if is_value_marker c
    then passed (set_marker_flag c flags)
    else if is_digit_of base c
    then passed flags
    else (0, flags)
