-- ===== src/Lex/Number/Documented.antt =====
-- The number literals of docs/spec/nsl_lang.ebnf, section 13, and what `scanNumber` makes of each.
use nslc.Lex.Kind.{TokenKind, NumericFlags, plain, hex_lit, binary_lit, decimal_lit}
use nslc.Lex.Number.Grammar.{value_byte, markers, is_base_char, NoRadix}
use nslc.Lex.Number.Run.{
  is_dec_digit, is_decimal_body, is_value_marker, Radix, binary, hex, is_digit_of,
}
use nslc.Lex.Number.Scan.{NumberScanResult, radix_from_char}
use nslc.Prelude.{
  ℕ, ◌≡◌, Bytes, true, false, ◌||◌, ◌∷◌, ◌++◌, ◌==◌, All, StopsAt, none, some, peek_byte,
}

-- `value_run` with the digits of the base: a digit or a marker, and then digits, markers and `_`, in
-- front of a text that does not go on with one of these.
pub record IsValueRun (base : Radix) (v after : Bytes) : Type 0 where
  pub first : (is_digit_of base (peek_byte v) || is_value_marker (peek_byte v)) ≡ true
  pub others : All (λ c. value_byte base c ≡ true) v
  pub stops : StopsAt (value_byte base) after

-- `decimal_integer`: a digit, and then digits and `_`.
pub record IsDecimalInteger (text : Bytes) : Type 0 where
  pub first : is_dec_digit (peek_byte text) ≡ true
  pub others : All (λ c. is_decimal_body c ≡ true) text

-- A literal of the kind and the flags in front of the text `after`. A decimal integer is no width and
-- no prefix there.
pub data IsNumber (after : Bytes) : TokenKind → NumericFlags → Bytes → Type 0 where
  c_hex :
      (p : ℕ) (v : Bytes)
      → (p == b'x' || p == b'X') ≡ true
      → IsValueRun hex v after
      → IsNumber after hex_lit (markers v) (b'0' ∷ p ∷ v)
  c_binary :
      (p : ℕ) (v : Bytes)
      → (p == b'b' || p == b'B') ≡ true
      → IsValueRun binary v after
      → IsNumber after binary_lit (markers v) (b'0' ∷ p ∷ v)
  verilog :
      {kind : TokenKind} {base : Radix} (width : Bytes) (radix : ℕ) (v : Bytes)
      → IsDecimalInteger width
      → radix_from_char radix ≡ some (kind, some base)
      → IsValueRun base v after
      → IsNumber after kind (markers v) (width ++ (b'\'' ∷ radix ∷ v))
  verilog_decimal :
      {kind : TokenKind} (width : Bytes) (radix : ℕ) (text : Bytes)
      → IsDecimalInteger width
      → radix_from_char radix ≡ some (kind, none)
      → IsDecimalInteger text
      → StopsAt is_decimal_body after
      → IsNumber after kind plain (width ++ (b'\'' ∷ radix ∷ text))
  plain_decimal :
      (text : Bytes)
      → IsDecimalInteger text
      → StopsAt is_decimal_body after
      → NoRadix after
      → is_base_char (peek_byte after) ≡ false
      → IsNumber after decimal_lit plain text

abbrev whole : TokenKind → NumericFlags → ℕ → NumberScanResult
whole kind flags n = record { kind = kind; len = n; flags = flags }
