-- ===== src/Lex/Scanner/Scans.antt =====
-- The token scanners of lib/Lex/Lexer.cpp but punctuation. Each is given the bytes from `cur` on.
use nslc.Lex.Kind.{Token, unknown, string_lit, line_directive, plain}
use nslc.Lex.Keyword.{classify_keyword, classify_underscore_name}
use nslc.Lex.Number.{scan_number}
use nslc.Lex.Scanner.State.{
  Scanner, is_ident_start, is_ident_body, emit, report, unterminated_string,
}
use nslc.Lex.Scanner.Trivia.{not_newline}
use nslc.Prelude.{
  ℕ, zero, suc, ◌+◌, Bytes, Bool, true, false, ◌&&◌, ◌||◌, not, [], ◌∷◌, ◌==◌, if◌then◌else◌,
  run_length, drop, peek_byte, take,
}

-- The probe for `%IDENT%`, from behind the opening `%`: the bytes up to and including the closing
-- `%`, or 0 where the shape does not match.
unfoldable pub splice_residue : Bytes → ℕ
unfolding is_ident_start is_ident_body
splice_residue [] = 0
splice_residue (p ∷ r) =
    let scan = suc (run_length is_ident_body r) in
    if (is_ident_start p || p == b'_') && peek_byte (drop scan (p ∷ r)) == b'%' then suc scan else 0

-- The loop of `scanIdentifierOrKeyword`: the bytes passed. `skip` counts the bytes of a `%IDENT%`
-- that has been recognised and is passed whole.
unfoldable pub ident_length : ℕ → Bytes → ℕ
unfolding is_ident_body splice_residue
ident_length skip [] = 0
ident_length (suc skip) (c ∷ r) = suc (ident_length skip r)
ident_length zero (c ∷ r) =
    let plain_byte = suc (ident_length 0 r) in
    let residue = splice_residue r in
    let spliced = suc (ident_length residue r) in
    if is_ident_body c then plain_byte else if c == b'%' && not (residue == 0) then spliced else 0

unfoldable pub scan_identifier_or_keyword : Scanner → Token × Scanner
unfolding ident_length
scan_identifier_or_keyword s =
    let n = suc (ident_length 0 (drop 1 s.rest)) in
    let text = take n s.rest in
    let kind =
      if peek_byte s.rest == b'_' then classify_underscore_name text else classify_keyword text in
    emit kind plain n s

-- The loop of `scanString` from behind the opening quote: the bytes passed, and whether a closing
-- quote was met.
unfoldable pub string_body : Bytes → ℕ × Bool
string_body [] = (0, false)
string_body (c ∷ []) =
    if c == b'"' then (1, true) else if c == b'\n' then (0, false) else (1, false)
string_body (c ∷ d ∷ r) =
    let escaped : ℕ × Bool = let inner = string_body r in (2 + inner.0, inner.1) in
    let plain_byte : ℕ × Bool = let inner = string_body (d ∷ r) in (suc inner.0, inner.1) in
    if c == b'"'
    then (1, true)
    else if c == b'\n'
    then (0, false)
    else if c == b'\\'
    then escaped
    else plain_byte

unfoldable pub scan_string : Scanner → Token × Scanner
unfolding string_body
scan_string s =
    let body = string_body (drop 1 s.rest) in
    if body.1
    then emit string_lit plain (suc body.0) s
    else emit unknown plain (suc body.0) (report unterminated_string s)

unfoldable pub scan_line_directive : Scanner → Token × Scanner
unfolding not_newline
scan_line_directive s = emit line_directive plain (run_length not_newline s.rest) s

unfoldable pub scan_number_token : Scanner → Token × Scanner
scan_number_token s =
    let r = scan_number s.rest in
    if r.len == 0 then emit unknown plain 1 s else emit r.kind r.flags r.len s
