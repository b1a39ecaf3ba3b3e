-- ===== src/Lex/Number/Grammar.antt =====
-- The literals that the scanner of lib/Lex/NumberLiteral.cpp takes. They are more than those of
-- docs/spec/nsl_lang.ebnf: a value run may be empty or begin with `_`; and it has the digits of its base
-- only.
use nslc.Lex.Kind.{TokenKind, NumericFlags, plain, hex_lit, binary_lit, decimal_lit}
use nslc.Lex.Number.Run.{
  is_decimal_body, is_z, is_x, is_u, is_value_marker, set_marker_flag, Radix, binary, hex,
  is_digit_of, consume_value_run,
}
use nslc.Lex.Number.Scan.{radix_from_char}
use nslc.Prelude.{
  ℕ, suc, ◌≡◌, refl, ◌∙◌, Bytes, Bool, true, false, ◌||◌, [], ◌∷◌, ◌++◌, ◌==◌, All, StopsAt,
  run_length, take, arith, none, some, inl, inr, Bool-cases, peek_byte,
}

-- A byte that a value run of the base passes.
unfoldable pub value_byte : Radix → ℕ → Bool
value_byte base c = c == b'_' || is_value_marker c || is_digit_of base c

unfoldable pub any : (ℕ → Bool) → Bytes → Bool
any p [] = false
any p (c ∷ r) = p c || any p r

-- The flags of a body: which markers occur in it.
unfoldable pub markers : Bytes → NumericFlags
markers body = record { has_z = any is_z body; has_x = any is_x body; has_u = any is_u body }

set_marker_flag-none :
    (c : ℕ) (f : NumericFlags) → is_value_marker c ≡ false → set_marker_flag c f ≡ f
unfolding is_value_marker set_marker_flag
set_marker_flag-none c f h = ground arith

underscore-none : (c : ℕ) → (c == b'_') ≡ true → is_value_marker c ≡ false
unfolding is_value_marker
underscore-none c h = ground arith

-- One round of the value run, on all three of its paths.
consume_value_run-pass :
    (base : Radix) (c : ℕ) (r : Bytes) (f : NumericFlags)
    → value_byte base c ≡ true
    → let rest = consume_value_run base r (set_marker_flag c f) in
      consume_value_run base (c ∷ r) f ≡ (suc rest.0, rest.1)
unfolding consume_value_run value_byte
consume_value_run-pass base c r f h = ground (arith, set_marker_flag-none c f, underscore-none c)

consume_value_run-stop :
    (base : Radix) (c : ℕ) (r : Bytes) (f : NumericFlags)
    → value_byte base c ≡ false
    → consume_value_run base (c ∷ r) f ≡ (0, f)
unfolding consume_value_run value_byte
consume_value_run-stop base c r f h = ground arith

abbrev pub or_flags : NumericFlags → NumericFlags → NumericFlags
or_flags a b = record {
  has_z = a.has_z || b.has_z;
  has_x = a.has_x || b.has_x;
  has_u = a.has_u || b.has_u;
}

markers-cons :
    (c : ℕ) (t : Bytes) (f : NumericFlags)
    → or_flags (markers t) (set_marker_flag c f) ≡ or_flags (markers (c ∷ t)) f
unfolding markers any set_marker_flag
markers-cons c t f = ground arith

-- A value run passes the longest run of bytes of its base, and sets the flags of the markers in it.
pub consume_value_run_lem :
    (base : Radix) (r : Bytes) (f : NumericFlags)
    → let n = run_length (value_byte base) r in
      consume_value_run base r f ≡ (n, or_flags (markers (take n r)) f)
unfolding run_length
consume_value_run_lem base [] f = unfold consume_value_run markers any in refl
consume_value_run_lem base (c ∷ r) f = elim (Bool-cases (value_byte base c)) [
  | inl e ↦
      consume_value_run-pass base c r f e
      ∙ rw e (rw (consume_value_run_lem base r (set_marker_flag c f)) (rw markers-cons))
  | inr e ↦ consume_value_run-stop base c r f e ∙ rw e (unfold markers any in refl)
]

-- The letters that make a leading 0 a prefix.
unfoldable pub is_base_char : ℕ → Bool
is_base_char c = c == b'x' || c == b'X' || c == b'b' || c == b'B'

-- No apostrophe with a radix follows.
abbrev pub NoRadix : Bytes → Type 0
NoRadix (q ∷ c ∷ r) = (q ≡ b'\'') → radix_from_char c ≡ none
NoRadix _ = Unit

-- A literal of the kind and the flags, in front of `after`: each body runs as far as it can.
pub data Literal (after : Bytes) : TokenKind → NumericFlags → Bytes → Type 0 where
  c_hex :
      (p : ℕ) (body : Bytes)
      → (p == b'x' || p == b'X') ≡ true
      → All (λ c. value_byte hex c ≡ true) body
      → StopsAt (value_byte hex) after
      → Literal after hex_lit (markers body) (b'0' ∷ p ∷ body)
  c_binary :
      (p : ℕ) (body : Bytes)
      → (p == b'b' || p == b'B') ≡ true
      → All (λ c. value_byte binary c ≡ true) body
      → StopsAt (value_byte binary) after
      → Literal after binary_lit (markers body) (b'0' ∷ p ∷ body)
  verilog :
      {kind : TokenKind} {base : Radix} (width : Bytes) (radix : ℕ) (body : Bytes)
      → All (λ c. is_decimal_body c ≡ true) width
      → radix_from_char radix ≡ some (kind, some base)
      → All (λ c. value_byte base c ≡ true) body
      → StopsAt (value_byte base) after
      → Literal after kind (markers body) (width ++ (b'\'' ∷ radix ∷ body))
  verilog_decimal :
      {kind : TokenKind} (width : Bytes) (radix : ℕ) (body : Bytes)
      → All (λ c. is_decimal_body c ≡ true) width
      → radix_from_char radix ≡ some (kind, none)
      → All (λ c. is_decimal_body c ≡ true) body
      → StopsAt is_decimal_body after
      → Literal after kind plain (width ++ (b'\'' ∷ radix ∷ body))
  decimal :
      (text : Bytes)
      → All (λ c. is_decimal_body c ≡ true) text
      → StopsAt is_decimal_body after
      → NoRadix after
      → (text ≡ b'0' ∷ [] → is_base_char (peek_byte after) ≡ false)
      → Literal after decimal_lit plain text
