-- ===== src/Lex/Bounds/Lengths.antt =====
-- No scanner passes more bytes than there are.
use nslc.Lex.Number.{
  Radix, binary, hex, consume_value_run, radix_from_char, set_marker_flag, verilog_body,
  scan_width_tail, scan_number, is_decimal_body,
}
use nslc.Lex.Kind.{TokenKind, NumericFlags, plain}
use nslc.Lex.Scanner.{
  splice_residue, ident_length, string_body, punctuation, block_comment, is_ident_body,
}
use nslc.Prelude.{
  ℕ, zero, suc, ◌+◌, ◌≤◌, ◌<◌, ◌≡◌, Bytes, [], ◌∷◌, length, drop, run_length, run_length-le,
  length-drop, arith, Option-cases, inl, inr, Option, some, none,
}

pub consume_value_run-le :
    (base : Radix) (r : Bytes) (f : NumericFlags) → (consume_value_run base r f).0 ≤ length r
unfolding consume_value_run
consume_value_run-le base [] f = omega arith
consume_value_run-le base (c ∷ r) f =
    ground (arith, consume_value_run-le base r f, consume_value_run-le base r (set_marker_flag c f))

verilog_body-le :
    (k : TokenKind) (base : Option Radix) (n : ℕ) (r : Bytes)
    → (verilog_body k base n r).len ≤ n + length r
unfolding verilog_body
verilog_body-le k none n r = omega (arith, run_length-le is_decimal_body r)
verilog_body-le k (some base) n r = omega (arith, consume_value_run-le base r plain)

scan_width_tail-le : (n : ℕ) (r : Bytes) → (scan_width_tail n r).len ≤ n + length r
unfolding scan_width_tail
scan_width_tail-le n [] = omega arith
scan_width_tail-le n (q ∷ []) = omega arith
scan_width_tail-le n (q ∷ c ∷ r) = elim (Option-cases (radix_from_char c)) [
  | inl e ↦ rw e (ground arith)
  | inr ((k, base), e) ↦ rw e (ground (arith, verilog_body-le k base (n + 2) r))
]

pub scan_number-le : (r : Bytes) → (scan_number r).len ≤ length r
unfolding scan_number
scan_number-le [] = omega arith
scan_number-le (c ∷ r) =
    let pos = run_length is_decimal_body (c ∷ r) in
    ground (
      arith,
      consume_value_run-le hex (drop 1 r) plain,
      consume_value_run-le binary (drop 1 r) plain,
      run_length-le is_decimal_body (c ∷ r),
      scan_width_tail-le pos (drop pos (c ∷ r)),
      length-drop pos (c ∷ r),
      length-drop 1 r,
    )

pub splice_residue-le : (r : Bytes) → splice_residue r ≤ length r
unfolding splice_residue
splice_residue-le [] = omega arith
splice_residue-le (p ∷ r) =
    ground (arith, length-drop (run_length is_ident_body r) r, run_length-le is_ident_body r)

pub ident_length-le : (skip : ℕ) (r : Bytes) → ident_length skip r ≤ length r
unfolding ident_length
ident_length-le skip [] = omega arith
ident_length-le (suc skip) (c ∷ r) = omega (arith, ident_length-le skip r)
ident_length-le zero (c ∷ r) =
    ground (arith, ident_length-le 0 r, ident_length-le (splice_residue r) r)

pub string_body-le : (r : Bytes) → (string_body r).0 ≤ length r
unfolding string_body
string_body-le [] = omega arith
string_body-le (c ∷ []) = ground arith
string_body-le (c ∷ d ∷ r) = ground (arith, string_body-le r, string_body-le (d ∷ r))

pub block_comment-le : (r : Bytes) → (block_comment r).0 ≤ length r
unfolding block_comment
block_comment-le [] = omega arith
block_comment-le (c ∷ []) = ground arith
block_comment-le (c ∷ d ∷ r) = ground (arith, block_comment-le (d ∷ r))

pub punctuation-le : (c n : ℕ) → (0 < (punctuation c n).1) × ((punctuation c n).1 ≤ 2)
unfolding punctuation
punctuation-le c n = ground arith

-- At the last byte there is no second one to match.
pub punctuation-last : (c : ℕ) → (punctuation c 0).1 ≡ 1
unfolding punctuation
punctuation-last c = ground arith
