-- ===== src/Lex/Scanner/Trivia.antt =====
-- `skipWhitespaceAndComments` of lib/Lex/Lexer.cpp. The fuel of the outer loop is the number of bytes
-- left: each round passes at least one.
use nslc.Lex.Scanner.State.{Scanner, is_whitespace, advance}
use nslc.Prelude.{
  ℕ, zero, suc, ◌+◌, Bytes, Bool, true, false, ◌&&◌, ◌||◌, not, [], ◌∷◌, ◌==◌, if◌then◌else◌,
  run_length, drop, peek_byte, length,
}

unfoldable pub not_newline : ℕ → Bool
not_newline c = not (c == b'\n')

-- The inner loop of a block comment, from behind `/*`: the bytes passed up to and including `*/`, or
-- all of them, and whether the loop met a newline.
unfoldable pub block_comment : Bytes → ℕ × Bool
block_comment [] = (0, false)
block_comment (c ∷ []) = (1, false)
block_comment (c ∷ d ∷ r) =
    let more : ℕ × Bool =
      let inner = block_comment (d ∷ r) in (suc inner.0, c == b'\n' || inner.1) in
    if c == b'*' && d == b'/' then (2, false) else more

-- What one round of the loop does at the byte `c`, which `r` follows; `none` is its `break`.
pub data Skip : Type 0 where
  stop : Skip
  pass : ℕ → Bool → Skip

unfoldable pub skip_step : ℕ → Bytes → Skip
unfolding is_whitespace not_newline block_comment
skip_step c r =
    if c == b'\n'
    then pass 1 true
    else if is_whitespace c
    then pass 1 false
    else if c == b'/' && peek_byte r == b'/'
    then pass (2 + run_length not_newline (drop 1 r)) false
    else if c == b'/' && peek_byte r == b'*'
    then (let body = block_comment (drop 1 r) in pass (2 + body.0) body.1)
    else stop

-- A round that met a newline sets `at_line_start`; none clears it.
unfoldable pub skip_pass : ℕ → Bool → Scanner → Scanner
unfolding advance
skip_pass n newline s =
    let s' = advance n s in record s' { at_line_start = newline || s.at_line_start }

unfoldable pub skip_loop : ℕ → Scanner → Scanner
skip_loop zero s = s
skip_loop (suc fuel) s = elim s.rest [
  | [] ↦ s
  | c ∷ r ↦ elim (skip_step c r) [ stop ↦ s | pass n nl ↦ skip_loop fuel (skip_pass n nl s) ]
]

unfoldable pub skip_whitespace_and_comments : Scanner → Scanner
unfolding skip_loop skip_step skip_pass
skip_whitespace_and_comments s = skip_loop (length s.rest) s
