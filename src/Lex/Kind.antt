-- ===== src/Lex/Kind.antt =====
-- include/nsl/Lex/Token.h: token kinds, numeric flags and tokens. The keyword kinds are the entries
-- of include/nsl/Lex/KeywordSet.def, in its order. A token's range is a pair of byte offsets of the
-- lexer's own file; `make_range` of the source packs them with the file id (Basic.Location).
pub mod Names
use nslc.Prelude.{ℕ, Bool, false, Bytes}

pub data TokenKind : Type 0 where
  unknown eof identifier string_lit decimal_lit hex_lit binary_lit octal_lit : TokenKind
  system_task system_function unused_underscore : TokenKind
  alt any declare finish for_ func func_in func_out func_self generate goto_ inout : TokenKind
  input integer interface label label_name m_clock mem module_ output p_reset proc : TokenKind
  proc_name reg seq state state_name variable while_ wire else_ first_state : TokenKind
  function if_ invoke param_int param_str parameter return_ simulation struct_ : TokenKind
  lparen rparen lbrace rbrace lbracket rbracket comma semicolon colon dot assign : TokenKind
  assign_seq plus minus plus_plus minus_minus star slash percent amp pipe caret : TokenKind
  tilde logical_and logical_or logical_not equal not_equal less less_equal greater : TokenKind
  greater_equal shift_left shift_right question at hash_sign_extend : TokenKind
  apostrophe_zero_extend dot_lbrace line_directive count : TokenKind

-- `NumericFlag`: the bits that are set.
pub record NumericFlags : Type 0 where
  pub has_z : Bool
  pub has_x : Bool
  pub has_u : Bool

abbrev pub plain : NumericFlags
plain = record { has_z = false; has_x = false; has_u = false }

pub record Token : Type 0 where
  pub kind : TokenKind
  pub begin : ℕ
  pub end : ℕ
  pub spelling : Bytes
  pub flags : NumericFlags
