-- ===== src/Preprocess/Driver/Lines.antt =====
-- `readLine`, and the operand of `#line`.
use nslc.Preprocess.Directives.{skip_ws}
use nslc.Preprocess.Seam.{is_digit}
use nslc.Prelude.{
  ℕ, ◌+◌, ◌-◌, ◌*◌, Bytes, Bool, true, false, not, [], ◌∷◌, Option, none, some, ◌==◌, if◌then◌else◌,
  ltb, leb, run_length, take, drop, length,
}

pub record Line : Type 0 where
  pub text : Bytes
  pub line_end : ℕ
  pub had_newline : Bool

unfoldable pub strip_cr : Bytes → Bytes
strip_cr [] = []
strip_cr (c ∷ []) = if c == b'\r' then [] else c ∷ []
strip_cr (c ∷ d ∷ r) = c ∷ strip_cr (d ∷ r)

-- The line at the cursor; `none` at the end of the buffer.
unfoldable pub read_line : Bytes → ℕ → Option Line
read_line bytes cursor =
    let rest = drop cursor bytes in
    let n = run_length (λ c. not (c == b'\n')) rest in
    let had = ltb n (length rest) in
    if leb (length bytes) cursor
    then none
    else some (record {
      text = strip_cr (take n rest);
      line_end = cursor + n + (if had then 1 else 0);
      had_newline = had;
    })

-- What the operand of `#line` says: nothing, a number that a `long long` does not hold, which is
-- undefined, a name without its closing mark, or a number with a name or none and, behind, more text or
-- none.
pub data Operand : Type 0 where
  malformed overflowed unterminated : Operand
  operand : ℕ → Bytes → Bool → Operand

-- The value of digits behind those that make `n`.
unfoldable pub value_of : ℕ → Bytes → ℕ
value_of n [] = n
value_of n (c ∷ r) = value_of (n * 10 + (c - b'0')) r

abbrev is_left : Bytes → Bool
is_left [] = false
is_left (c ∷ r) = true

-- The text behind the closing mark.
abbrev behind_name : ℕ → Bytes → Bytes → Operand
behind_name n path [] = unterminated
behind_name n path (c ∷ r) = operand n path (is_left (skip_ws r))

unfoldable pub named_operand : ℕ → Bytes → Operand
named_operand n [] = operand n [] false
named_operand n (c ∷ r) =
    let size = run_length (λ c. not (c == b'"')) r in
    if c == b'"' then behind_name n (take size r) (drop size r) else operand n [] true

unfoldable pub parse_operand : Bytes → Operand
parse_operand text =
    let s = skip_ws text in
    let digits = run_length is_digit s in
    let n = value_of 0 (take digits s) in
    if digits == 0
    then malformed
    else if leb 9223372036854775808 n
    then overflowed
    else named_operand n (skip_ws (drop digits s))
