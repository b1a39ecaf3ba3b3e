-- ===== src/Preprocess/Directives/Defs.antt =====
-- `classifyLine` and the scanners below it. A scanner is given the rest of the line.
use nslc.Prelude.{
  ℕ, suc, Bytes, codes, Bool, true, false, not, ◌||◌, [], ◌∷◌, ◌==◌, if◌then◌else◌, within,
  run_length, take, drop, bytes_eq,
}

pub data DirectiveKind : Type 0 where
  none_kind include_kind define_kind undef_kind ifdef_kind ifndef_kind if_kind else_kind endif_kind
        line_kind unknown_kind :
      DirectiveKind

pub record ParsedDirective : Type 0 where
  pub kind : DirectiveKind
  pub line_begin_offset : ℕ
  pub line_end_offset : ℕ
  pub include_filename : Bytes
  pub include_is_angle : Bool
  pub name : Bytes
  pub body : Bytes
  pub if_expr : Bytes
  pub line_operand : Bytes

abbrev pub directive : DirectiveKind → ℕ → ℕ → ParsedDirective
directive k b e = record {
  kind = k;
  line_begin_offset = b;
  line_end_offset = e;
  include_filename = [];
  include_is_angle = false;
  name = [];
  body = [];
  if_expr = [];
  line_operand = [];
}

unfoldable pub is_ws : ℕ → Bool
is_ws c = c == b' ' || c == b'\t'

unfoldable pub is_name_start : ℕ → Bool
is_name_start c = within b'A' b'Z' c || within b'a' b'z' c || c == b'_'

unfoldable pub is_name_body : ℕ → Bool
is_name_body c = is_name_start c || within b'0' b'9' c

unfoldable pub skip_ws : Bytes → Bytes
skip_ws s = drop (run_length is_ws s) s

-- The bytes of the identifier at the front, none where none starts.
unfoldable pub ident_size : Bytes → ℕ
ident_size [] = 0
ident_size (c ∷ s) = if is_name_start c then suc (run_length is_name_body s) else 0

unfoldable pub is_empty : Bytes → Bool
is_empty [] = true
is_empty (c ∷ s) = false

-- The bytes before the run of blanks, as `p` tells them, at the end.
unfoldable pub trim_end : (ℕ → Bool) → Bytes → Bytes
trim_end p [] = []
trim_end p (c ∷ s) =
    let t = trim_end p s in if p c then (if is_empty t then [] else c ∷ t) else c ∷ t

unfoldable pub trim : Bytes → Bytes
trim s = trim_end is_ws (skip_ws s)

-- The bytes up to the closing mark, or none where it is missing.
unfoldable pub enclosed : ℕ → Bytes → Bytes
enclosed close s =
    let n = run_length (λ c. not (c == close)) s in if is_empty (drop n s) then [] else take n s

unfoldable pub include_of : ParsedDirective → Bytes → ParsedDirective
include_of d [] = d
include_of d (c ∷ tail) =
    if c == b'"'
    then record d { include_filename = enclosed b'"' tail }
    else if c == b'<'
    then record d { include_is_angle = true; include_filename = enclosed b'>' tail }
    else d

unfoldable pub is_body_blank : ℕ → Bool
is_body_blank c = is_ws c || c == b'\r'

-- `s` is the line behind the keyword.
unfoldable pub define_of : ParsedDirective → Bytes → ParsedDirective
define_of d s =
    let at_name = skip_ws s in
    let n = ident_size at_name in
    record d { name = take n at_name; body = trim_end is_body_blank (skip_ws (drop n at_name)) }

-- The chain of tests on the keyword `kw`, which `s` follows.
unfoldable pub classify_keyword_line : ℕ → ℕ → Bytes → Bytes → ParsedDirective
classify_keyword_line b e kw s =
    if bytes_eq kw (codes "include")
    then include_of (directive include_kind b e) (trim s)
    else if bytes_eq kw (codes "define")
    then define_of (directive define_kind b e) s
    else if bytes_eq kw (codes "undef")
    then record (directive undef_kind b e) { name = trim (trim s) }
    else if bytes_eq kw (codes "ifdef")
    then record (directive ifdef_kind b e) { name = trim (trim s) }
    else if bytes_eq kw (codes "ifndef")
    then record (directive ifndef_kind b e) { name = trim (trim s) }
    else if bytes_eq kw (codes "if")
    then record (directive if_kind b e) { if_expr = trim (trim s) }
    else if bytes_eq kw (codes "else")
    then directive else_kind b e
    else if bytes_eq kw (codes "endif")
    then directive endif_kind b e
    else if bytes_eq kw (codes "line")
    then record (directive line_kind b e) { line_operand = trim (trim s) }
    else record (directive unknown_kind b e) { name = kw }

unfoldable pub classify_line : Bytes → ℕ → ℕ → ParsedDirective
classify_line [] b e = directive none_kind b e
classify_line (c ∷ line) b e =
    let s = skip_ws line in
    let n = ident_size s in
    if c == b'#'
    then (if n == 0
        then directive unknown_kind b e
        else classify_keyword_line b e (take n s) (drop n s))
    else directive none_kind b e
