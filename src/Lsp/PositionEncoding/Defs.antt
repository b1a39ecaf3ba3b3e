-- ===== src/Lsp/PositionEncoding/Defs.antt =====
-- The two loops, and the boundaries between the sequences of a line.
use nslc.Basic.Lines.{uint32}
use nslc.Prelude.{
  ℕ, zero, suc, ◌+◌, ◌-◌, ◌%◌, ◌≤◌, Bytes, [], ◌∷◌, ◌==◌, if◌then◌else◌, leb, ltb, length, drop,
  length-drop, arith,
}

pub record Sequence : Type 0 where
  pub len : ℕ
  pub units : ℕ

abbrev pub sequence : ℕ → ℕ → Sequence
sequence len units = record { len = len; units = units }

-- `b & ~(m - 1)` for a power of two `m`.
abbrev masked : ℕ → ℕ → ℕ
masked m b = b - b % m

-- On a byte under 256.
unfoldable pub utf8_sequence_len : ℕ → Sequence
utf8_sequence_len b =
    if ltb b 128
    then sequence 1 1
    else if masked 32 b == 192
    then sequence 2 1
    else if masked 16 b == 224
    then sequence 3 1
    else if masked 8 b == 240
    then sequence 4 2
    else sequence 1 1

-- The sequence at the byte `c` before `r`: a truncated one counts as one byte and one unit.
unfoldable pub sequence_at : ℕ → Bytes → Sequence
sequence_at c r =
    if ltb (suc (length r)) (utf8_sequence_len c).len then sequence 1 1 else utf8_sequence_len c

-- The loop of `byteToUtf16Column` on the bytes from `i` on, with `byteOffset - i` left to pass.
unfoldable pub column_loop : ℕ → Bytes → ℕ → ℕ → ℕ
column_loop zero rest left utf16 = utf16
column_loop (suc fuel) [] left utf16 = utf16
column_loop (suc fuel) (c ∷ r) left utf16 =
    let s = sequence_at c r in
    let more = column_loop fuel (drop s.len (c ∷ r)) (left - s.len) (uint32 (utf16 + s.units)) in
    if left == 0 then utf16 else if ltb left s.len then utf16 else more

unfoldable pub byte_to_utf16_column : Bytes → ℕ → ℕ
byte_to_utf16_column line off =
    column_loop (length line) line (if leb (length line) off then length line else off) 0

-- The loop of `utf16ToByteOffset` on the bytes from `i` on.
unfoldable pub offset_loop : ℕ → Bytes → ℕ → ℕ → ℕ → ℕ
offset_loop zero rest i utf16 character = i
offset_loop (suc fuel) [] i utf16 character = i
offset_loop (suc fuel) (c ∷ r) i utf16 character =
    let s = sequence_at c r in
    let more =
      offset_loop fuel (drop s.len (c ∷ r)) (i + s.len) (uint32 (utf16 + s.units)) character in
    if leb character utf16 then i else if ltb character (uint32 (utf16 + s.units)) then i else more

unfoldable pub utf16_to_byte_offset : Bytes → ℕ → ℕ
utf16_to_byte_offset line character = offset_loop (length line) line 0 0 character

-- The boundaries between the sequences of a line, as a byte offset and a column.
pub data Boundary : Bytes → ℕ → ℕ → Type 0 where
  start : {rest : Bytes} → Boundary rest 0 0
  next :
      {c : ℕ} {r : Bytes} {i u : ℕ}
      → Boundary (drop (sequence_at c r).len (c ∷ r)) i u
      → Boundary (c ∷ r) ((sequence_at c r).len + i) ((sequence_at c r).units + u)

pub sequence_at-bounds :
    (c : ℕ) (r : Bytes)
    → (1 ≤ (sequence_at c r).len)
      × ((sequence_at c r).len ≤ suc (length r))
      × (1 ≤ (sequence_at c r).units)
      × ((sequence_at c r).units ≤ (sequence_at c r).len)
unfolding sequence_at utf8_sequence_len
sequence_at-bounds c r = ground arith

pub Boundary-mono :
    {rest : Bytes} {i u j v : ℕ}
    → Boundary rest i u
    → Boundary rest j v
    → (i ≤ j → u ≤ v) × (u ≤ v → i ≤ j)
Boundary-mono start b = (λ h. omega arith, λ h. omega arith)
Boundary-mono (next {c} {r} a) start =
    let s = sequence_at-bounds c r in
    (λ h. absurd (omega (arith, s.0)), λ h. absurd (omega (arith, s.2)))
Boundary-mono (next {c} {r} a) (next b) =
    let ih = Boundary-mono a b in
    (λ h. omega (arith, ih.0 (omega arith)), λ h. omega (arith, ih.1 (omega arith)))

pub Boundary-length : {line : Bytes} {i u : ℕ} → Boundary line i u → i ≤ length line
Boundary-length start = omega arith
Boundary-length (next {c} {r} b) =
    omega
      (arith, Boundary-length b, sequence_at-bounds c r, length-drop (sequence_at c r).len (c ∷ r))
