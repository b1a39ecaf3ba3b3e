-- ===== src/Lex/Scanner/State.antt =====
-- The members of `Lexer::Impl`, the character classes of lib/Lex/Lexer.cpp and the steps by which
-- every scanner moves the cursor.
use nslc.Lex.Kind.{Token, TokenKind, NumericFlags}
use nslc.Prelude.{ℕ, ◌+◌, Bytes, within, Bool, true, ◌||◌, List, [], ◌∷◌, ◌++◌, ◌==◌, take, drop}

pub data Message : Type 0 where
  unterminated_string : Message

-- An error report: the message and the offset it is reported at.
pub record Report : Type 0 where
  pub message : Message
  pub at : ℕ

pub record Scanner : Type 0 where
  pub cur : ℕ
  pub rest : Bytes
  pub at_line_start : Bool
  pub diag : List Report

unfoldable pub is_ident_start : ℕ → Bool
is_ident_start c = within b'A' b'Z' c || within b'a' b'z' c

unfoldable pub is_ident_body : ℕ → Bool
unfolding is_ident_start
is_ident_body c = is_ident_start c || within b'0' b'9' c || c == b'_'

unfoldable pub is_whitespace : ℕ → Bool
is_whitespace c = c == b' ' || c == b'\t' || c == b'\r' || c == b'\n'

-- `cur += n`.
unfoldable pub advance : ℕ → Scanner → Scanner
advance n s = record s { cur = s.cur + n; rest = drop n s.rest }

-- The token of the next `n` bytes, and the scanner behind them.
unfoldable pub emit : TokenKind → NumericFlags → ℕ → Scanner → Token × Scanner
unfolding advance
emit k flags n s = (
  record { kind = k; begin = s.cur; end = s.cur + n; spelling = take n s.rest; flags = flags },
  advance n s,
)

unfoldable pub report : Message → Scanner → Scanner
report m s = record s { diag = s.diag ++ record { message = m; at = s.cur } ∷ [] }

-- `Impl(s, f, d)`: the start of the file is the start of a line.
abbrev pub initial : Bytes → Scanner
initial buf = record { cur = 0; rest = buf; at_line_start = true; diag = [] }
