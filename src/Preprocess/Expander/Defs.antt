-- ===== src/Preprocess/Expander/Defs.antt =====
-- The expander as a recursion on the depth that is left and a loop over the text.
use nslc.Preprocess.Macros.{MacroTable, lookup}
use nslc.Prelude.{
  ℕ, zero, suc, ◌+◌, Bytes, Bool, ◌&&◌, ◌||◌, List, [], ◌∷◌, ◌++◌, Option, none, some, ◌==◌,
  if◌then◌else◌, within, peek_byte, run_length, take, drop, length,
}

unfoldable pub is_ident_start : ℕ → Bool
is_ident_start c = c == b'_' || within b'A' b'Z' c || within b'a' b'z' c

unfoldable pub is_ident_char : ℕ → Bool
is_ident_char c = is_ident_start c || within b'0' b'9' c

-- `scanIdentEnd`, from behind the first byte: the bytes passed.
abbrev pub scan_ident : Bytes → ℕ
scan_ident r = run_length is_ident_char r

-- `scanStringEnd`, from behind the opening quote: the bytes passed, the closing quote included.
unfoldable pub scan_string_end : Bytes → ℕ
scan_string_end [] = 0
scan_string_end (c ∷ []) = 1
scan_string_end (c ∷ d ∷ r) =
    let escaped = scan_string_end r in
    let further = scan_string_end (d ∷ r) in
    if c == b'\\' then 2 + escaped else if c == b'"' then 1 else suc further

-- A step of the loop of `expandImpl`: bytes that pass through, or a reference with its span.
pub data Piece : Type 0 where
  verbatim : Bytes → Piece
  reference : Bytes → Bytes → Piece

-- The name between two `%`, from behind the first.
unfoldable pub splice_name : Bytes → Option Bytes
splice_name [] = none
splice_name (d ∷ r) =
    if is_ident_start d && peek_byte (drop (scan_ident r) r) == b'%'
    then some (d ∷ take (scan_ident r) r)
    else none

unfoldable pub piece_at : ℕ → Bytes → Piece
piece_at c r =
    if c == b'"'
    then verbatim (c ∷ take (scan_string_end r) r)
    else if c == b'%'
    then elim (splice_name r) [
      | some name ↦ reference name (c ∷ name ++ b'%' ∷ [])
      | none ↦ verbatim (c ∷ [])
    ]
    else if is_ident_start c
    then reference (c ∷ take (scan_ident r) r) (c ∷ take (scan_ident r) r)
    else verbatim (c ∷ [])

abbrev pub span : Piece → Bytes
span (verbatim text) = text
span (reference name text) = text

-- The text that replaces a text, and the names reported as recursive, in the order of the reports.
pub record Expansion : Type 0 where
  pub out : Bytes
  pub reports : List Bytes

abbrev pub expansion : Bytes → List Bytes → Expansion
expansion out reports = record { out = out; reports = reports }

abbrev pub join : Expansion → Expansion → Expansion
join e f = expansion (e.out ++ f.out) (e.reports ++ f.reports)

-- `deeper` is the call at `depth + 1`, or `none` at `kMaxExpansionDepth`.
unfoldable pub substitute : Option (Bytes → Expansion) → MacroTable → Piece → Expansion
substitute deeper macros (verbatim text) = expansion text []
substitute deeper macros (reference name text) = elim (lookup macros name) [
  | none ↦ expansion text []
  | some def ↦ elim deeper [
    | none ↦ expansion text (name ∷ [])
    | some expand_body ↦ expand_body def.body
  ]
]

unfoldable pub expand_loop : Option (Bytes → Expansion) → MacroTable → ℕ → Bytes → Expansion
expand_loop deeper macros zero text = expansion [] []
expand_loop deeper macros (suc fuel) [] = expansion [] []
expand_loop deeper macros (suc fuel) (c ∷ r) =
    join (substitute deeper macros (piece_at c r))
      (expand_loop deeper macros fuel (drop (length (span (piece_at c r))) (c ∷ r)))

-- `expandImpl` at the depth `256 - left`.
unfoldable pub expand_impl : MacroTable → ℕ → Bytes → Expansion
expand_impl macros zero text = expand_loop none macros (length text) text
expand_impl macros (suc left) text =
    expand_loop (some (λ body. expand_impl macros left body)) macros (length text) text

unfoldable pub expand : MacroTable → Bytes → Expansion
expand macros text = expand_impl macros 256 text
