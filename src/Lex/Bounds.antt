-- ===== src/Lex/Bounds.antt =====
-- Every scanner of Lex.Scanner emits one token of the bytes at the cursor, at least one and within
-- the buffer.
mod Lengths
mod Kinds
use nslc.Lex.Bounds.Lengths.{
  ident_length-le, string_body-le, scan_number-le, punctuation-le, punctuation-last,
}
use nslc.Lex.Bounds.Kinds.{
  is_eof, classify_keyword-ne-eof, classify_underscore_name-ne-eof, punctuation-ne-eof,
  scan_number-ne-eof,
}
pub use Kinds.{is_eof}
use nslc.Lex.Kind.{Token, TokenKind, NumericFlags, plain, unknown, line_directive, string_lit}
use nslc.Lex.Number.{scan_number, is_dec_digit}
use nslc.Lex.Scanner.{
  Scanner, Report, emit, advance, scan_identifier_or_keyword, scan_string, scan_line_directive,
  scan_number_token, scan_punctuation, scan_token, string_body, not_newline, ident_length,
  is_line_marker, report, unterminated_string, is_ident_start, punctuation,
}
use nslc.Prelude.{
  ℕ, suc, ◌+◌, ◌≤◌, ◌<◌, ◌≡◌, refl, Bytes, List, [], ◌∷◌, ◌++◌, take, drop, length, arith, Bool,
  true, false, run_length, run_length-le, length-take, length-drop, Bool-cases, inl, inr,
  if◌then◌else◌, ◌==◌, ◌||◌, take-append-drop, peek_byte,
}

-- `r` is what `emit` gives at `s`, but for the diagnostics, for 1 to `length s.rest` bytes.
pub record Emits (s : Scanner) (r : Token × Scanner) : Type 0 where
  pub kind : TokenKind
  pub flags : NumericFlags
  pub len : ℕ
  pub diag : List Report
  pub is_emit : r ≡ emit kind flags len (record s { diag = diag })
  pub not_eof : is_eof kind ≡ false
  pub positive : 0 < len
  pub within_rest : len ≤ length s.rest

emit-Emits :
    (k : TokenKind) (f : NumericFlags) (n : ℕ) (s : Scanner)
    → is_eof k ≡ false
    → 0 < n
    → n ≤ length s.rest
    → Emits s (emit k f n s)
emit-Emits k f n s ne pos le = record {
  kind = k;
  flags = f;
  len = n;
  diag = s.diag;
  is_emit = refl;
  not_eof = ne;
  positive = pos;
  within_rest = le;
}

is_eof-if :
    (b : Bool) (x y : TokenKind)
    → is_eof x ≡ false
    → is_eof y ≡ false
    → is_eof (if b then x else y) ≡ false
is_eof-if true x y hx hy = hx
is_eof-if false x y hx hy = hy

Emits-if :
    {s : Scanner} (b : Bool) {x y : Token × Scanner}
    → Emits s x
    → Emits s y
    → Emits s (if b then x else y)
Emits-if true hx hy = hx
Emits-if false hx hy = hy

punctuation-le_length : (c : ℕ) (r : Bytes) → (punctuation c (peek_byte r)).1 ≤ suc (length r)
punctuation-le_length c [] = omega (arith, punctuation-last c)
punctuation-le_length c (d ∷ r) = omega (arith, (punctuation-le c d).1)

run_length-marker :
    (c : ℕ) (r : Bytes) → is_line_marker (c ∷ r) ≡ true → 0 < run_length not_newline (c ∷ r)
unfolding is_line_marker run_length not_newline
run_length-marker c r m = ground arith

module _ (s : Scanner) (c : ℕ) (r : Bytes) (at : s.rest ≡ c ∷ r) where
  rest_pos : 0 < length s.rest
  rest_pos = rw at (omega arith)

  scan_identifier_or_keyword-Emits : Emits s (scan_identifier_or_keyword s)
  unfolding scan_identifier_or_keyword
  scan_identifier_or_keyword-Emits =
      emit-Emits _ _ _ s
        (is_eof-if (peek_byte s.rest == b'_') _ _ (classify_underscore_name-ne-eof _)
          (classify_keyword-ne-eof _))
        (omega arith) (rw at (omega (arith, ident_length-le 0 r)))

  scan_number_token-Emits : Emits s (scan_number_token s)
  unfolding scan_number_token
  scan_number_token-Emits = elim (Bool-cases ((scan_number s.rest).len == 0)) [
    | inl e ↦ rw e (emit-Emits _ _ 1 s refl (omega arith) rest_pos)
    | inr e ↦
        rw e (emit-Emits _ _ _ s (scan_number-ne-eof s.rest) (ground arith) (scan_number-le s.rest))
  ]

  scan_string-Emits : Emits s (scan_string s)
  unfolding scan_string
  scan_string-Emits = elim (Bool-cases (string_body (drop 1 s.rest)).1) [
    | inl e ↦ rw e (emit-Emits _ _ _ s refl (omega arith) (rw at (omega (arith, string_body-le r))))
    | inr e ↦ rw e (record {
      kind = unknown;
      flags = plain;
      len = suc (string_body (drop 1 s.rest)).0;
      diag = (report unterminated_string s).diag;
      is_emit = unfold report in refl;
      not_eof = refl;
      positive = omega arith;
      within_rest = rw at (omega (arith, string_body-le r));
    })
  ]

  scan_punctuation-Emits : Emits s (scan_punctuation s)
  unfolding scan_punctuation
  scan_punctuation-Emits =
      let n = (punctuation (peek_byte s.rest) (peek_byte (drop 1 s.rest))).1 in
      emit-Emits _ _ n s (punctuation-ne-eof _ _) (punctuation-le _ _).0
        (rw at (punctuation-le_length c r))

  pub scan_token-Emits : Emits s (scan_token c s)
  unfolding scan_token
  scan_token-Emits = Emits-if (is_ident_start c || c == b'_') scan_identifier_or_keyword-Emits (
      Emits-if (is_dec_digit c) scan_number_token-Emits
        (Emits-if (c == b'"') scan_string-Emits scan_punctuation-Emits))

  pub scan_line_directive-Emits : is_line_marker (c ∷ r) ≡ true → Emits s (scan_line_directive s)
  unfolding scan_line_directive
  scan_line_directive-Emits m =
      emit-Emits _ _ _ s refl (rw at (run_length-marker c r m)) (run_length-le not_newline s.rest)
