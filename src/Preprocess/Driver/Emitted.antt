-- ===== src/Preprocess/Driver/Emitted.antt =====
-- The `#line` directives that are written out, read again.
use nslc.Preprocess.Directives.{classify_line, directive, line_kind, is_ws, skip_ws, trim_end}
use nslc.Preprocess.Directives.Printed.{
  print, line, expected, IsPrintable, classify_line-print, trim_end-closed, skip_ws-trimmed,
}
use nslc.Preprocess.Driver.Lines.{operand, value_of, named_operand, parse_operand}
use nslc.Preprocess.Seam.{is_digit}
use nslc.Preprocess.Driver.State.{quoted_path, line_directive}
use nslc.Prelude.{
  ℕ, zero, suc, ◌+◌, ◌*◌, ◌/◌, ◌%◌, ◌<◌, ◌≤◌, ◌≡◌, refl, sym, ap, ◌∙◌, Bytes, codes, Bool, true,
  false, not, [], ◌∷◌, ◌++◌, append_assoc, append-nil, ◌==◌, ltb, decimal, decimal_from, peek_byte,
  run_length, run_length-append, length, take-length, drop-length, All, All-mono, arith, Bool-cases,
  inl, inr,
}

-- The numbers of at most `k` digits.
abbrev below : ℕ → ℕ
below zero = 1
below (suc k) = 10 * below k

value_of-decimal_from :
    (k n : ℕ) (digits : Bytes)
    → n < below k
    → value_of 0 (decimal_from k n digits) ≡ value_of n digits
unfolding decimal_from value_of
value_of-decimal_from zero n digits h = ap (λ m. value_of m digits) (omega arith)
value_of-decimal_from (suc k) n digits h = elim (Bool-cases (ltb n 10)) [
  | inl e ↦ rw e (ap (λ m. value_of m digits) (ground arith))
  | inr e ↦ rw e (
      value_of-decimal_from k (n / 10) ((b'0' + n % 10) ∷ digits) (omega (arith, h))
      ∙ ap (λ m. value_of m digits) (omega arith))
]

decimal_from-digits :
    (k n : ℕ) (digits : Bytes)
    → All (λ c. is_digit c ≡ true) digits
    → All (λ c. is_digit c ≡ true) (decimal_from k n digits)
unfolding decimal_from
decimal_from-digits zero n digits h = h
decimal_from-digits (suc k) n digits h =
    ground (arith, decimal_from-digits k (n / 10) ((b'0' + n % 10) ∷ digits) (ground arith, h))

length-decimal_from : (k n : ℕ) (digits : Bytes) → length digits ≤ length (decimal_from k n digits)
unfolding decimal_from
length-decimal_from zero n digits = omega arith
length-decimal_from (suc k) n digits =
    ground (arith, length-decimal_from k (n / 10) ((b'0' + n % 10) ∷ digits))

-- The digits of a word of 32 bits.
decimal_value : (n : ℕ) → n < 4294967296 → value_of 0 (decimal n) ≡ n
decimal_value n h = value_of-decimal_from 10 n [] (omega (arith, h)) ∙ (unfold value_of in refl)

decimal_digits : (n : ℕ) → All (λ c. is_digit c ≡ true) (decimal n)
decimal_digits n = decimal_from-digits 10 n [] tt

decimal_some : (n : ℕ) → 1 ≤ length (decimal n)
unfolding decimal_from
decimal_some n = ground (arith, length-decimal_from 9 (n / 10) ((b'0' + n % 10) ∷ []))

run_length-All_eq : (p : ℕ → Bool) (s : Bytes) → All (λ c. p c ≡ true) s → run_length p s ≡ length s
unfolding run_length
run_length-All_eq p [] h = refl
run_length-All_eq p (c ∷ s) h = rw (h.0) (ap suc (run_length-All_eq p s (h.1)))

digits_front :
    (s t : Bytes)
    → 1 ≤ length s
    → All (λ c. is_digit c ≡ true) s
    → is_ws (peek_byte (s ++ t)) ≡ false
unfolding is_ws
digits_front [] t n h = elim n [ ]
digits_front (c ∷ s) t n h = ground (arith, h.0)

run_length-digits :
    (s path : Bytes)
    → All (λ c. is_digit c ≡ true) s
    → run_length is_digit (s ++ quoted_path path) ≡ length s
run_length-digits s [] h = ap (run_length is_digit) (append-nil s) ∙ run_length-All_eq is_digit s h
run_length-digits s (c ∷ path) h = run_length-append is_digit s b' ' _ h refl

skip_ws-nil : skip_ws [] ≡ []
unfolding skip_ws run_length
skip_ws-nil = refl

named_operand-closed :
    (n : ℕ) (path : Bytes)
    → All (λ c. (c == b'"') ≡ false) path
    → named_operand n (b'"' ∷ (path ++ b'"' ∷ [])) ≡ operand n path false
unfolding named_operand
named_operand-closed n path h =
    rw
      (
        run_length-append (λ c. not (c == b'"')) path b'"' []
            (All-mono _ _ (λ c e. rw e refl) path h) refl,
        take-length path (b'"' ∷ []),
        drop-length path (b'"' ∷ []),
        skip_ws-nil,
      )
      refl

-- What follows the number.
named_operand-quoted :
    (n : ℕ) (path : Bytes)
    → All (λ c. (c == b'"') ≡ false) path
    → named_operand n (skip_ws (quoted_path path)) ≡ operand n path false
unfolding skip_ws is_ws run_length
named_operand-quoted n [] h = unfold named_operand in refl
named_operand-quoted n (c ∷ path) h = named_operand-closed n (c ∷ path) h

parse_operand-digits :
    (s path : Bytes) (n : ℕ)
    → 1 ≤ length s
    → All (λ c. is_digit c ≡ true) s
    → value_of 0 s ≡ n
    → n < 9223372036854775808
    → All (λ c. (c == b'"') ≡ false) path
    → parse_operand (s ++ quoted_path path) ≡ operand n path false
unfolding parse_operand
parse_operand-digits s path n l h e w q =
    rw
      (
        skip_ws-trimmed (s ++ quoted_path path) (digits_front s (quoted_path path) l h),
        run_length-digits s path h,
        take-length s (quoted_path path),
        drop-length s (quoted_path path),
        e,
      )
      (ground (arith, l, w, named_operand-quoted n path q))

trim_end-digits : (s : Bytes) → All (λ c. is_digit c ≡ true) s → trim_end is_ws s ≡ s
unfolding trim_end is_ws
trim_end-digits [] h = refl
trim_end-digits (c ∷ s) h = ground (arith, trim_end-digits s (h.1), h.0)

regrouped :
    (s path : Bytes)
    → s ++ (codes " \"" ++ path ++ codes "\"") ≡ (s ++ (codes " \"" ++ path)) ++ b'"' ∷ []
regrouped s path = sym (append_assoc s (codes " \"" ++ path) (codes "\""))

operand_back :
    (s path : Bytes)
    → All (λ c. is_digit c ≡ true) s
    → trim_end is_ws (s ++ quoted_path path) ≡ s ++ quoted_path path
operand_back s [] h = ap (trim_end is_ws) (append-nil s) ∙ trim_end-digits s h ∙ sym (append-nil s)
operand_back s (c ∷ path) h =
    ap (trim_end is_ws) (regrouped s (c ∷ path))
    ∙ trim_end-closed is_ws (s ++ (codes " \"" ++ (c ∷ path))) b'"' (unfold is_ws in refl)
    ∙ sym (regrouped s (c ∷ path))

word : (n : ℕ) → n < 4294967296 → n % 4294967296 ≡ n
word n h = omega (arith, h)

-- A line number below 2^32 and a path without a quotation mark, written out as a canonical directive, are
-- read back from the line: it is a `#line` directive, and its operand has the number and the path and
-- nothing behind them.
pub line_directive-read :
    (n : ℕ) (path : Bytes) (b e : ℕ)
    → n < 4294967296
    → All (λ c. (c == b'"') ≡ false) path
    → (line_directive n path ≡ print (line (decimal n ++ quoted_path path)) ++ codes "\n")
      × (classify_line (print (line (decimal n ++ quoted_path path))) b e
          ≡ record (directive line_kind b e) { line_operand = decimal n ++ quoted_path path })
      × (parse_operand (decimal n ++ quoted_path path) ≡ operand n path false)
unfolding print IsPrintable expected
line_directive-read n path b e h q = (
  rw (ap decimal (word n h), append_assoc (decimal n) (quoted_path path) (codes "\n")) refl,
  classify_line-print (line (decimal n ++ quoted_path path)) b e (record {
    front = digits_front (decimal n) (quoted_path path) (decimal_some n) (decimal_digits n);
    back = operand_back (decimal n) path (decimal_digits n);
  }),
  parse_operand-digits (decimal n) path n (decimal_some n) (decimal_digits n) (decimal_value n h)
      (omega (arith, h)) q,
)
