-- ===== src/Lex/Scanner/Punctuation.antt =====
-- `scanPunctuation` of lib/Lex/Lexer.cpp: one- and two-byte operators, the longer first.
use nslc.Lex.Kind.{
  TokenKind, Token, plain, unknown, amp, apostrophe_zero_extend, assign, assign_seq, at, caret,
  colon, comma, dot, dot_lbrace, equal, greater, greater_equal, hash_sign_extend, lbrace, lbracket,
  less, less_equal, logical_and, logical_not, logical_or, lparen, minus, minus_minus, not_equal,
  percent, pipe, plus, plus_plus, question, rbrace, rbracket, rparen, semicolon, shift_left,
  shift_right, slash, star, tilde,
}
use nslc.Lex.Scanner.State.{Scanner, emit}
use nslc.Prelude.{ℕ, ◌==◌, if◌then◌else◌, peek_byte, drop}

-- The kind and the length for the first byte `c` and the one behind it, `n` (0 at the end).
unfoldable pub punctuation : ℕ → ℕ → TokenKind × ℕ
punctuation c n =
    if c == b'('
    then (lparen, 1)
    else if c == b')'
    then (rparen, 1)
    else if c == b'{'
    then (lbrace, 1)
    else if c == b'}'
    then (rbrace, 1)
    else if c == b'['
    then (lbracket, 1)
    else if c == b']'
    then (rbracket, 1)
    else if c == b','
    then (comma, 1)
    else if c == b';'
    then (semicolon, 1)
    else if c == b':'
    then (if n == b'=' then (assign_seq, 2) else (colon, 1))
    else if c == b'.'
    then (if n == b'{' then (dot_lbrace, 2) else (dot, 1))
    else if c == b'='
    then (if n == b'=' then (equal, 2) else (assign, 1))
    else if c == b'!'
    then (if n == b'=' then (not_equal, 2) else (logical_not, 1))
    else if c == b'<'
    then (if n == b'=' then (less_equal, 2) else if n == b'<' then (shift_left, 2) else (less, 1))
    else if c == b'>'
    then (if n == b'='
        then (greater_equal, 2)
        else if n == b'>'
        then (shift_right, 2)
        else (greater, 1))
    else if c == b'&'
    then (if n == b'&' then (logical_and, 2) else (amp, 1))
    else if c == b'|'
    then (if n == b'|' then (logical_or, 2) else (pipe, 1))
    else if c == b'^'
    then (caret, 1)
    else if c == b'~'
    then (tilde, 1)
    else if c == b'+'
    then (if n == b'+' then (plus_plus, 2) else (plus, 1))
    else if c == b'-'
    then (if n == b'-' then (minus_minus, 2) else (minus, 1))
    else if c == b'*'
    then (star, 1)
    else if c == b'/'
    then (slash, 1)
    else if c == b'%'
    then (percent, 1)
    else if c == b'?'
    then (question, 1)
    else if c == b'@'
    then (at, 1)
    else if c == b'#'
    then (hash_sign_extend, 1)
    else if c == b'\''
    then (apostrophe_zero_extend, 1)
    else (unknown, 1)

unfoldable pub scan_punctuation : Scanner → Token × Scanner
scan_punctuation s =
    let (kind, len) = punctuation (peek_byte s.rest) (peek_byte (drop 1 s.rest)) in
    emit kind plain len s
