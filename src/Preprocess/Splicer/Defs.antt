-- ===== src/Preprocess/Splicer/Defs.antt =====
-- `splice` as a loop over the rest of the line, and the reduction of a body as a parameter.
use nslc.Basic.Diagnostics.{DiagnosticEngine, warning, report}
use nslc.Basic.Location.{SourceLocation, no_location, is_valid, file, offset, make}
use nslc.Basic.Manager.{SourceManager}
use nslc.Preprocess.Directives.{is_name_body}
use nslc.Preprocess.Expander.{scan_string_end, Piece, verbatim, reference, span}
use nslc.Preprocess.Seam.{is_digit}
use nslc.Preprocess.Macros.{MacroDef, MacroTable, lookup}
use nslc.Prelude.{
  ℕ, zero, suc, ◌+◌, ◌%◌, Bytes, codes, Bool, true, false, ◌&&◌, ◌||◌, [], ◌∷◌, ◌++◌, Option, none,
  some, ◌>>=◌, ◌==◌, ltb, if◌then◌else◌, within, peek_byte, run_length, take, drop, length,
}

pub record Spliced : Type 0 where
  pub out : Bytes
  pub engine : DiagnosticEngine

abbrev pub spliced : Bytes → DiagnosticEngine → Spliced
spliced out engine = record { out = out; engine = engine }

-- What is asked of `PPExpression`; `none` stands for a call that aborts.
pub record Expressions : Type 0 where
  -- The value of `reduceDefineBody` as `render` writes it, the body itself where it is refused.
  pub reduced :
      SourceManager → MacroTable → DiagnosticEngine → Bytes → SourceLocation → Option Spliced
  -- Whether the value of `parse` is truthy.
  pub truthy :
      SourceManager
      → MacroTable
      → DiagnosticEngine
      → Bytes
      → SourceLocation
      → Option (Bool × DiagnosticEngine)

-- `locAt`: a sum that does not fit leaves the base.
unfoldable pub loc_at : SourceLocation → ℕ → SourceLocation
loc_at base delta =
    if is_valid base
    then elim (make (file base) ((offset base + delta) % 4294967296)) [ none ↦ base | some l ↦ l ]
    else no_location

-- The bytes of a block comment from behind its opener, all that are left where it does not end.
unfoldable pub comment_end : Bytes → ℕ
comment_end [] = 0
comment_end (c ∷ []) = 1
comment_end (c ∷ d ∷ r) =
    let further = comment_end (d ∷ r) in if c == b'*' && d == b'/' then 2 else suc further

-- The name in front of a closing `%`.
unfoldable pub spliced_name : Bytes → Option Bytes
spliced_name r =
    let n = run_length is_name_body r in
    if ltb 0 n && peek_byte (drop n r) == b'%' then some (take n r) else none

-- A round of the loop at the byte `c`.
unfoldable pub line_piece : ℕ → Bytes → Piece
line_piece c r =
    if c == b'"'
    then verbatim (c ∷ take (scan_string_end r) r)
    else if c == b'/' && peek_byte r == b'/'
    then verbatim (c ∷ r)
    else if c == b'/' && peek_byte r == b'*'
    then verbatim (c ∷ take (suc (comment_end (drop 1 r))) r)
    else if c == b'%'
    then elim (spliced_name r) [
      | some name ↦ reference name (c ∷ name ++ b'%' ∷ [])
      | none ↦ verbatim (c ∷ [])
    ]
    else verbatim (c ∷ [])

abbrev is_letter : ℕ → Bool
is_letter c = within b'a' b'z' c || within b'A' b'Z' c

unfoldable pub helper_ahead : Bytes → Bool
helper_ahead [] = false
helper_ahead (c ∷ r) =
    let further = helper_ahead r in
    if c == b'(' then true else if is_name_body c then further else false

unfoldable pub skip_sign : Bytes → Bytes
skip_sign [] = []
skip_sign (c ∷ r) = if c == b'+' || c == b'-' then r else c ∷ r

-- A helper call or a literal with a fraction or an exponent begins here.
unfoldable pub reduction_at : ℕ → ℕ → Bytes → Bool
reduction_at a b r =
    (a == b'_' && is_letter b && helper_ahead r)
    || (is_digit a && b == b'.' && is_digit (peek_byte r))
    || (is_digit a && (b == b'e' || b == b'E') && is_digit (peek_byte (skip_sign r)))

unfoldable pub needs_reduction : Bytes → Bool
needs_reduction [] = false
needs_reduction (a ∷ []) = false
needs_reduction (a ∷ b ∷ r) = let later = needs_reduction (b ∷ r) in reduction_at a b r || later

-- The location is invalid where the macro is predefined.
abbrev body_loc : MacroDef → SourceLocation
body_loc d = d.defining_loc.begin

module _ (exprs : Expressions) (sm : SourceManager) (macros : MacroTable)
    (line_loc : SourceLocation) where
  -- The text for a piece that begins at the byte `at` of the line.
  unfoldable pub splice_piece : ℕ → DiagnosticEngine → Piece → Option Spliced
  splice_piece at engine (verbatim text) = some (spliced text engine)
  splice_piece at engine (reference name text) = elim (lookup macros name) [
    | none ↦
        report sm engine warning (loc_at line_loc at)
          (codes "undefined macro reference: '%" ++ name ++ codes "%'")
        >>= λ engine. some (spliced text engine)
    | some d ↦
        if needs_reduction d.body
        then exprs.reduced sm macros engine d.body (body_loc d)
        else some (spliced d.body engine)
  ]

  unfoldable pub splice_loop : ℕ → ℕ → DiagnosticEngine → Bytes → Option Spliced
  splice_loop zero at engine rest = some (spliced [] engine)
  splice_loop (suc fuel) at engine [] = some (spliced [] engine)
  splice_loop (suc fuel) at engine (c ∷ r) = do
    first ← splice_piece at engine (line_piece c r)
    later ←
        splice_loop fuel (at + length (span (line_piece c r))) first.engine
          (drop (length (span (line_piece c r))) (c ∷ r))
    some (spliced (first.out ++ later.out) later.engine)

  -- A round passes a byte at least.
  unfoldable pub splice : DiagnosticEngine → Bytes → Option Spliced
  splice engine line = splice_loop (length line) 0 engine line
