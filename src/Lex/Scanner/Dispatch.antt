-- ===== src/Lex/Scanner/Dispatch.antt =====
-- `nextImpl` of lib/Lex/Lexer.cpp.
use nslc.Lex.Kind.{Token, eof, plain}
use nslc.Lex.Number.{is_dec_digit}
use nslc.Lex.Scanner.State.{Scanner, is_ident_start, emit}
use nslc.Lex.Scanner.Trivia.{skip_whitespace_and_comments}
use nslc.Lex.Scanner.Scans.{
  scan_identifier_or_keyword, scan_string, scan_line_directive, scan_number_token,
}
use nslc.Lex.Scanner.Punctuation.{scan_punctuation}
use nslc.Prelude.{
  ℕ, Bytes, codes, Bool, false, ◌&&◌, ◌||◌, [], ◌∷◌, ◌==◌, if◌then◌else◌, run_length, drop,
  peek_byte, take, bytes_eq,
}

unfoldable pub is_space : ℕ → Bool
is_space c = c == b' ' || c == b'\t'

-- The N5 test, from `#` on: `#line`, a blank, more blanks and a decimal digit.
unfoldable pub is_line_marker : Bytes → Bool
unfolding is_space is_dec_digit bytes_eq
is_line_marker r =
    let tail = drop 5 r in
    bytes_eq (take 5 r) (codes "#line")
    && is_space (peek_byte tail)
    && is_dec_digit (peek_byte (drop (run_length is_space tail) tail))

unfoldable pub clear_line_start : Scanner → Scanner
clear_line_start s = record s { at_line_start = false }

-- The choice of the scanner by the first byte.
unfoldable pub scan_token : ℕ → Scanner → Token × Scanner
scan_token c s =
    if is_ident_start c || c == b'_'
    then scan_identifier_or_keyword s
    else if is_dec_digit c
    then scan_number_token s
    else if c == b'"'
    then scan_string s
    else scan_punctuation s

-- `nextImpl` behind the trivia.
unfoldable pub next_at : Scanner → Token × Scanner
next_at s = elim s.rest [
  | [] ↦ emit eof plain 0 s
  | c ∷ r ↦
      if s.at_line_start && is_line_marker (c ∷ r)
      then scan_line_directive (clear_line_start s)
      else scan_token c (clear_line_start s)
]

unfoldable pub next_impl : Scanner → Token × Scanner
unfolding next_at skip_whitespace_and_comments
next_impl s = next_at (skip_whitespace_and_comments s)
