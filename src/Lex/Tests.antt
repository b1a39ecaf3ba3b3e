-- ===== src/Lex/Tests.antt =====
-- Runs of the scanner on small inputs, and the theorems of Lex at concrete inputs.
use nslc.Lex.Gaps.{Skipped, skip_whitespace_and_comments-Skipped}
use nslc.Lex.Keyword.{classify_keyword, classify_underscore_name}
use nslc.Lex.Kind.{
  TokenKind, NumericFlags, Token, plain, eof, identifier, reg, hex_lit, assign_seq, unknown,
  semicolon,
}
use nslc.Lex.Number.{
  scan_number, consume_value_run, scan_width_tail, set_marker_flag, is_value_marker, is_digit_of,
  is_decimal_body, radix_from_char,
}
use nslc.Lex.Scanner.{
  initial, next_impl, scan_token, scan_identifier_or_keyword, scan_number_token, scan_punctuation,
  punctuation, scan_string, emit, advance, clear_line_start, is_line_marker, scan_line_directive,
  report, unterminated_string, is_ident_start, skip_whitespace_and_comments,
}
use nslc.Lex.Stream.{lexer, tokenize, next, peek}
use nslc.Lex.Stream.Cover.{Covers, tokenize-Covers}
use nslc.Lex.Stream.Refinement.{stream, next-stream, peek-stream}
use nslc.Lex.Tiling.{Tiles, EndsOrMoves, next_impl-Tiles}
use Prim.Native.String.{String}
use nslc.Prelude.{
  ℕ, suc, bytes_eq, run_length, ◌≡◌, refl, Bytes, codes, true, false, List, [], ◌∷◌, some, arith,
}

abbrev line : Bytes
line = codes "/* a\n*/ reg r := 0xZ_f; // end"

abbrev word : TokenKind → ℕ → ℕ → String → Token
word k b e s = record { kind = k; begin = b; end = e; spelling = codes s; flags = plain }

abbrev has_z : NumericFlags
has_z = record { has_z = true; has_x = false; has_u = false }

tokenize-line :
    tokenize 40 (lexer line)
    ≡ some (
        word reg 8 11 "reg"
        ∷ word identifier 12 13 "r"
        ∷ word assign_seq 14 16 ":="
        ∷ record { kind = hex_lit; begin = 17; end = 22; spelling = codes "0xZ_f"; flags = has_z }
        ∷ word semicolon 22 23 ";"
        ∷ word eof 30 30 ""
        ∷ [])
unfolding tokenize next next_impl scan_token scan_identifier_or_keyword scan_number_token
    scan_number scan_punctuation punctuation scan_string emit advance clear_line_start
    is_line_marker classify_keyword classify_underscore_name bytes_eq run_length scan_line_directive
    report consume_value_run scan_width_tail set_marker_flag is_value_marker is_digit_of
    is_decimal_body radix_from_char is_ident_start
tokenize-line = refl

-- An unterminated string is reported at its quote, and its bytes are one `unknown` token.
unterminated : next_impl (initial (codes "\"ab\n")) ≡ (
  word unknown 0 3 "\"ab",
  record {
    cur = 3;
    rest = codes "\n";
    at_line_start = false;
    diag = record { message = unterminated_string; at = 0 } ∷ [];
  },
)
unfolding next_impl scan_token scan_string emit advance clear_line_start report is_line_marker
    is_ident_start bytes_eq
unterminated = refl

tokenize-Covers_example :
    (ts : List Token) × (tokenize 40 (lexer line) ≡ some ts) × Covers 0 line ts
tokenize-Covers_example = tokenize-Covers 40 line (omega arith)

next_impl-Tiles_example :
    Tiles (initial line) (next_impl (initial line)).0 (next_impl (initial line)).1
    × EndsOrMoves (next_impl (initial line)).0 (next_impl (initial line)).1
next_impl-Tiles_example = next_impl-Tiles (initial line)

skip-Skipped_example : Skipped (initial line) (skip_whitespace_and_comments (initial line))
skip-Skipped_example = skip_whitespace_and_comments-Skipped (initial line)

next-stream_example :
    ((next (peek 2 (lexer line)).1).0 ≡ stream (peek 2 (lexer line)).1 0)
    × ((i : ℕ) → stream (next (peek 2 (lexer line)).1).1 i ≡ stream (peek 2 (lexer line)).1 (suc i))
next-stream_example = next-stream (peek 2 (lexer line)).1

peek-stream_example :
    ((peek 2 (lexer line)).0 ≡ some (stream (lexer line) 2))
    × ((i : ℕ) → stream (peek 2 (lexer line)).1 i ≡ stream (lexer line) i)
peek-stream_example = peek-stream 2 (lexer line)

-- An empty buffer gives `eof` at once.
empty_eof : (stream (lexer []) 0).kind ≡ eof
unfolding stream next_impl emit skip_whitespace_and_comments
empty_eof = refl
