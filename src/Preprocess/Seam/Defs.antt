-- ===== src/Preprocess/Seam/Defs.antt =====
-- Each scan as a loop over the rest of the line, with the byte in front of it.
use nslc.Preprocess.Directives.{is_name_body, skip_ws}
use nslc.Preprocess.Expander.{scan_string_end}
use nslc.Preprocess.Helpers.{lookup_helper}
use nslc.Prelude.{
  ℕ, zero, suc, ◌+◌, Bytes, Bool, true, false, not, ◌&&◌, ◌||◌, List, [], ◌∷◌, Option, none, some,
  ◌==◌, ltb, if◌then◌else◌, within, peek_byte, run_length, take, drop, length,
}

-- The bytes of a block comment from behind its opener; where it does not end, the last byte is left.
unfoldable pub seam_comment_end : Bytes → ℕ
seam_comment_end [] = 0
seam_comment_end (c ∷ []) = 0
seam_comment_end (c ∷ d ∷ r) =
    let further = seam_comment_end (d ∷ r) in if c == b'*' && d == b'/' then 2 else suc further

-- The bytes of a string or a comment at the front, 0 where there is none.
unfoldable pub opaque_size : ℕ → Bytes → ℕ
opaque_size c r =
    if c == b'"'
    then suc (scan_string_end r)
    else if c == b'/' && peek_byte r == b'/'
    then suc (length r)
    else if c == b'/' && peek_byte r == b'*'
    then 2 + seam_comment_end (drop 1 r)
    else 0

-- What a round finds: the bytes it passes and, with its text, what it reports.
pub record Round : Type 0 where
  pub passed : ℕ
  pub reported : Option Bytes

abbrev pub round : ℕ → Option Bytes → Round
round n o = record { passed = n; reported = o }

abbrev is_call : Bytes → Bytes → Bool
is_call name rest =
    peek_byte (skip_ws rest) == b'(' && elim (lookup_helper name) [ none ↦ false | some _ ↦ true ]

unfoldable pub helper_round : ℕ → ℕ → Bytes → Round
helper_round prev c r =
    let n = run_length is_name_body r in
    if ltb 0 (opaque_size c r)
    then round (opaque_size c r) none
    else if c == b'_' && not (is_name_body prev)
    then round (suc n) (if is_call (c ∷ take n r) (drop n r) then some (c ∷ take n r) else none)
    else round 1 none

abbrev pub is_digit : ℕ → Bool
is_digit c = within b'0' b'9' c

-- A point with its digits.
unfoldable pub fraction_size : Bytes → ℕ
fraction_size [] = 0
fraction_size (c ∷ r) =
    if c == b'.' && is_digit (peek_byte r) then suc (run_length is_digit r) else 0

-- `e` or `E` with a sign, if there is one, and digits.
unfoldable pub exponent_size : Bytes → ℕ
exponent_size [] = 0
exponent_size (c ∷ r) =
    let signed = if peek_byte r == b'+' || peek_byte r == b'-' then 1 else 0 in
    if (c == b'e' || c == b'E') && is_digit (peek_byte (drop signed r))
    then 1 + signed + run_length is_digit (drop signed r)
    else 0

unfoldable pub float_round : ℕ → ℕ → Bytes → Round
float_round prev c r =
    let whole = run_length is_digit r in
    let fraction = fraction_size (drop whole r) in
    let exponent = exponent_size (drop (whole + fraction) r) in
    let size = suc (whole + fraction + exponent) in
    if ltb 0 (opaque_size c r)
    then round (opaque_size c r) none
    else if is_digit c && not (is_name_body prev)
    then round size (if ltb 0 (fraction + exponent) then some (take size (c ∷ r)) else none)
    else round 1 none

abbrev last_byte : ℕ → Bytes → ℕ
last_byte prev [] = prev
last_byte prev (c ∷ r) = last_byte c r

-- What is reported of a line: the offset in the line, and the text.
pub record Offence : Type 0 where
  pub at : ℕ
  pub text : Bytes

abbrev offences : ℕ → Option Bytes → List Offence → List Offence
offences at none later = later
offences at (some t) later = record { at = at; text = t } ∷ later

unfoldable pub scan : (ℕ → ℕ → Bytes → Round) → ℕ → ℕ → ℕ → Bytes → List Offence
scan turn zero at prev rest = []
scan turn (suc fuel) at prev [] = []
scan turn (suc fuel) at prev (c ∷ r) =
    let n = (turn prev c r).passed in
    offences at (turn prev c r).reported
      (scan turn fuel (at + n) (last_byte prev (take n (c ∷ r))) (drop n (c ∷ r)))

-- A round passes a byte at least.
unfoldable pub scan_for_helper : Bytes → List Offence
scan_for_helper text = scan helper_round (length text) 0 0 text

unfoldable pub scan_for_float : Bytes → List Offence
scan_for_float text = scan float_round (length text) 0 0 text
