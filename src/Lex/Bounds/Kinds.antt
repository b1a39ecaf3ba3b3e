-- ===== src/Lex/Bounds/Kinds.antt =====
-- No scanner of a token that has bytes gives it the kind `eof`.
use nslc.Lex.Kind.{TokenKind, eof}
use nslc.Lex.Keyword.{
  KeywordMap, keyword_map, find_kind, classify_keyword, classify_underscore_name,
}
use nslc.Lex.Number.{
  Radix, is_decimal_body, scan_number, scan_width_tail, radix_from_char, verilog_body,
}
use nslc.Lex.Scanner.{punctuation}
use nslc.Prelude.{
  ℕ, ◌+◌, Bytes, Bool, true, false, [], ◌∷◌, ◌≡◌, refl, arith, All, Bool-cases, Option-cases, inl,
  inr, drop, run_length, bytes_eq, Option, some, none,
}

abbrev pub is_eof : TokenKind → Bool
is_eof eof = true
is_eof _ = false

find_kind-ne-eof :
    (m : KeywordMap) (ident : Bytes)
    → All (λ e. is_eof e.1 ≡ false) m
    → is_eof (find_kind m ident) ≡ false
unfolding find_kind
find_kind-ne-eof [] ident h = refl
find_kind-ne-eof ((s, k) ∷ m) ident (h, t) = elim (Bool-cases (bytes_eq s ident)) [
  | inl e ↦ rw e h
  | inr e ↦ rw e (find_kind-ne-eof m ident t)
]

pub classify_keyword-ne-eof : (ident : Bytes) → is_eof (classify_keyword ident) ≡ false
unfolding classify_keyword
classify_keyword-ne-eof ident = find_kind-ne-eof keyword_map ident (ground arith)

pub classify_underscore_name-ne-eof :
    (text : Bytes) → is_eof (classify_underscore_name text) ≡ false
unfolding classify_underscore_name
classify_underscore_name-ne-eof text = ground arith

pub punctuation-ne-eof : (c n : ℕ) → is_eof (punctuation c n).0 ≡ false
unfolding punctuation
punctuation-ne-eof c n = ground arith

verilog_body-kind :
    (k : TokenKind) (base : Option Radix) (n : ℕ) (r : Bytes) → (verilog_body k base n r).kind ≡ k
unfolding verilog_body
verilog_body-kind k none n r = refl
verilog_body-kind k (some base) n r = refl

radix_from_char-ne-eof :
    (c : ℕ) (k : TokenKind) (base : Option Radix)
    → radix_from_char c ≡ some (k, base)
    → is_eof k ≡ false
unfolding radix_from_char
radix_from_char-ne-eof c k base h = ground arith

scan_width_tail-ne-eof : (n : ℕ) (r : Bytes) → is_eof (scan_width_tail n r).kind ≡ false
unfolding scan_width_tail
scan_width_tail-ne-eof n [] = refl
scan_width_tail-ne-eof n (q ∷ []) = refl
scan_width_tail-ne-eof n (q ∷ c ∷ r) = elim (Option-cases (radix_from_char c)) [
  | inl e ↦ rw e (ground arith)
  | inr ((k, base), e) ↦
      rw e (ground (arith, verilog_body-kind k base (n + 2) r, radix_from_char-ne-eof c k base e))
]

pub scan_number-ne-eof : (r : Bytes) → is_eof (scan_number r).kind ≡ false
unfolding scan_number
scan_number-ne-eof [] = refl
scan_number-ne-eof (c ∷ r) =
    let n = run_length is_decimal_body (c ∷ r) in
    ground (arith, scan_width_tail-ne-eof n (drop n (c ∷ r)))
