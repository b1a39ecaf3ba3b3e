-- ===== src/Lsp/PositionEncoding/Columns.antt =====
-- `byteToUtf16Column` and the boundaries.
use mathlib.Core.Path.{subst}
use nslc.Prelude.{
  ℕ, zero, suc, ◌+◌, ◌-◌, ◌<◌, ◌≤◌, ◌≡◌, Bytes, [], ◌∷◌, if◌then◌else◌, leb, ltb, length, drop,
  length-drop, arith, Bool-cases, inl, inr,
}
use nslc.Lsp.PositionEncoding.Defs.{
  sequence_at, column_loop, byte_to_utf16_column, Boundary, start, next, sequence_at-bounds,
  Boundary-length,
}

-- What the loop of `byteToUtf16Column` has found: the last boundary within the bytes left.
record Passed (rest : Bytes) (left utf16 result : ℕ) : Type 0 where
  at : ℕ
  units : ℕ
  boundary : Boundary rest at units
  within : at ≤ left
  sum : result ≡ utf16 + units
  last : (j v : ℕ) → Boundary rest j v → j ≤ left → j ≤ at

first_only :
    (c : ℕ) (r : Bytes) (left j v : ℕ)
    → left < (sequence_at c r).len
    → Boundary (c ∷ r) j v
    → j ≤ left
    → j ≤ 0
first_only c r left j v h start l = omega arith
first_only c r left j v h (next b) l = absurd (omega arith)

nowhere : (j v : ℕ) → Boundary [] j v → j ≤ 0
nowhere j v start = omega arith

Passed-end : (left utf16 : ℕ) → Passed [] left utf16 utf16
Passed-end left utf16 = record {
  at = 0;
  units = 0;
  boundary = start;
  within = omega arith;
  sum = omega arith;
  last = λ j v b l. nowhere j v b;
}

Passed-here :
    (c : ℕ) (r : Bytes) (left utf16 : ℕ)
    → left < (sequence_at c r).len
    → Passed (c ∷ r) left utf16 utf16
Passed-here c r left utf16 h = record {
  at = 0;
  units = 0;
  boundary = start;
  within = omega arith;
  sum = omega arith;
  last = λ j v b l. first_only c r left j v h b l;
}

later :
    (c : ℕ) (r : Bytes) (left at : ℕ)
    → ((j v : ℕ)
        → Boundary (drop (sequence_at c r).len (c ∷ r)) j v
        → j ≤ left - (sequence_at c r).len
        → j ≤ at)
    → (j v : ℕ) → Boundary (c ∷ r) j v
    → j ≤ left
    → j ≤ (sequence_at c r).len + at
later c r left at p j v start l = omega arith
later c r left at p j v (next {i = i} {u = u} b) l = omega (arith, p i u b (omega arith))

Passed-step :
    (c : ℕ) (r : Bytes) (left utf16 result : ℕ)
    → (sequence_at c r).len ≤ left
    → Passed
        (drop (sequence_at c r).len (c ∷ r))
        (left - (sequence_at c r).len)
        (utf16 + (sequence_at c r).units)
        result
    → Passed (c ∷ r) left utf16 result
Passed-step c r left utf16 result h p = record {
  at = (sequence_at c r).len + p.at;
  units = (sequence_at c r).units + p.units;
  boundary = next p.boundary;
  within = omega (arith, p.within);
  sum = omega (arith, p.sum);
  last = λ j v b l. later c r left p.at p.last j v b l;
}

column_loop-here :
    (fuel c : ℕ) (r : Bytes) (left utf16 : ℕ)
    → left < (sequence_at c r).len
    → column_loop (suc fuel) (c ∷ r) left utf16 ≡ utf16
unfolding column_loop
column_loop-here fuel c r left utf16 h = ground arith

column_loop-step :
    (fuel c : ℕ) (r : Bytes) (left utf16 : ℕ)
    → (sequence_at c r).len ≤ left
    → utf16 + suc (length r) < 4294967296
    → column_loop (suc fuel) (c ∷ r) left utf16
      ≡ column_loop fuel
          (drop (sequence_at c r).len (c ∷ r))
          (left - (sequence_at c r).len)
          (utf16 + (sequence_at c r).units)
unfolding column_loop
column_loop-step fuel c r left utf16 h w = ground (arith, sequence_at-bounds c r)

column_loop-Passed :
    (fuel : ℕ) (rest : Bytes) (left utf16 : ℕ)
    → length rest ≤ fuel
    → utf16 + length rest < 4294967296
    → Passed rest left utf16 (column_loop fuel rest left utf16)
column_loop-Passed zero [] left utf16 h w = unfold column_loop in Passed-end left utf16
column_loop-Passed zero (c ∷ r) left utf16 h w = absurd (omega arith)
column_loop-Passed (suc fuel) [] left utf16 h w = unfold column_loop in Passed-end left utf16
column_loop-Passed (suc fuel) (c ∷ r) left utf16 h w =
    elim (Bool-cases (ltb left (sequence_at c r).len)) [
      | inl e ↦
          rw (column_loop-here fuel c r left utf16 (ground arith))
            (Passed-here c r left utf16 (ground arith))
      | inr e ↦
          let s = sequence_at-bounds c r in
          let d = length-drop (sequence_at c r).len (c ∷ r) in
          rw (column_loop-step fuel c r left utf16 (ground arith) w) (
            Passed-step c r left utf16 _ (ground arith) (
              column_loop-Passed fuel (drop (sequence_at c r).len (c ∷ r))
                (left - (sequence_at c r).len) (utf16 + (sequence_at c r).units)
                (omega (arith, s, d)) (omega (arith, s, d))))
    ]

column-Passed :
    (line : Bytes) (off cut result : ℕ)
    → Passed line cut 0 result
    → cut ≤ off
    → ((j : ℕ) → j ≤ length line → j ≤ off → j ≤ cut)
    → (i : ℕ) × Boundary line i result
      × (i ≤ off)
      × ((j v : ℕ) → Boundary line j v → j ≤ off → j ≤ i)
column-Passed line off cut result p c low = (
  p.at,
  subst (Boundary line p.at) (omega (arith, p.sum)) p.boundary,
  omega (arith, p.within),
  λ j v b l. p.last j v b (low j (Boundary-length b) l),
)

-- The column of a byte offset is that of the last boundary at the offset or before: an offset inside
-- a sequence rounds down, one behind the end counts as the end. The line has under 2^32 bytes.
pub byte_to_utf16_column_lem :
    (line : Bytes) (off : ℕ)
    → length line < 4294967296
    → (i : ℕ) × Boundary line i (byte_to_utf16_column line off)
      × (i ≤ off)
      × ((j v : ℕ) → Boundary line j v → j ≤ off → j ≤ i)
unfolding byte_to_utf16_column
byte_to_utf16_column_lem line off w =
    column-Passed line off (if leb (length line) off then length line else off) _
      (column_loop-Passed (length line) line _ 0 (omega arith) (omega arith)) (ground arith)
      (λ j h l. ground arith)
