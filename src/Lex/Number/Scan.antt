-- ===== src/Lex/Number/Scan.antt =====
-- `radixFromChar` and `scanNumber`.
use nslc.Lex.Number.Run.{
  is_dec_digit, is_decimal_body, Radix, binary, octal, hex, consume_value_run,
}
use nslc.Lex.Kind.{
  TokenKind, unknown, decimal_lit, hex_lit, binary_lit, octal_lit, NumericFlags, plain,
}
use nslc.Prelude.{
  ℕ, ◌+◌, Bytes, ◌&&◌, ◌||◌, not, [], ◌∷◌, ◌==◌, if◌then◌else◌, run_length, drop, peek_byte, Option,
  none, some,
}

pub record NumberScanResult : Type 0 where
  pub kind : TokenKind
  pub len : ℕ
  pub flags : NumericFlags

-- The run behind a radix, up to the literal's end.
unfoldable pub radix_tail : TokenKind → Radix → ℕ → Bytes → NumberScanResult
unfolding consume_value_run
radix_tail k base skipped r =
    let run = consume_value_run base r plain in
    record { kind = k; len = skipped + run.0; flags = run.1 }

-- `radixFromChar`; `none` for `tk_unknown`. The base 10 has no value run.
unfoldable pub radix_from_char : ℕ → Option (TokenKind × Option Radix)
radix_from_char c =
    if c == b'b' || c == b'B'
    then some (binary_lit, some binary)
    else if c == b'o' || c == b'O'
    then some (octal_lit, some octal)
    else if c == b'd' || c == b'D'
    then some (decimal_lit, none)
    else if c == b'h' || c == b'H'
    then some (hex_lit, some hex)
    else none

-- The body behind `<width>'<radix>`.
unfoldable pub verilog_body : TokenKind → Option Radix → ℕ → Bytes → NumberScanResult
unfolding radix_tail
verilog_body k none skipped r = record {
  kind = k;
  len = skipped + run_length is_decimal_body r;
  flags = plain;
}
verilog_body k (some base) skipped r = radix_tail k base skipped r

plain_decimal : ℕ → NumberScanResult
plain_decimal pos = record { kind = decimal_lit; len = pos; flags = plain }

-- Behind the leading digits: an apostrophe with a radix, or the end of a plain decimal.
unfoldable pub scan_width_tail : ℕ → Bytes → NumberScanResult
unfolding plain_decimal
scan_width_tail pos (q ∷ c ∷ r) =
    if q == b'\''
    then (elim (radix_from_char c) [
      | some (k, base) ↦ verilog_body k base (pos + 2) r
      | none ↦ plain_decimal pos
    ])
    else plain_decimal pos
scan_width_tail pos _ = plain_decimal pos

unfoldable pub scan_decimal : Bytes → NumberScanResult
unfolding scan_width_tail
scan_decimal r = let pos = run_length is_decimal_body r in scan_width_tail pos (drop pos r)

unfoldable pub scan_number : Bytes → NumberScanResult
unfolding scan_decimal radix_tail
scan_number [] = record { kind = unknown; len = 0; flags = plain }
scan_number (c ∷ r) =
    if not (is_dec_digit c)
    then record { kind = unknown; len = 0; flags = plain }
    else if c == b'0' && (peek_byte r == b'x' || peek_byte r == b'X')
    then radix_tail hex_lit hex 2 (drop 1 r)
    else if c == b'0' && (peek_byte r == b'b' || peek_byte r == b'B')
    then radix_tail binary_lit binary 2 (drop 1 r)
    else scan_decimal (c ∷ r)
