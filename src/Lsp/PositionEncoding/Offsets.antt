-- ===== src/Lsp/PositionEncoding/Offsets.antt =====
-- `utf16ToByteOffset` and the boundaries.
use mathlib.Core.Path.{subst}
use nslc.Prelude.{
  ℕ, zero, suc, ◌+◌, ◌<◌, ◌≤◌, ◌≡◌, Bytes, [], ◌∷◌, ltb, length, drop, length-drop, arith,
  Bool-cases, inl, inr,
}
use nslc.Lsp.PositionEncoding.Defs.{
  sequence_at, offset_loop, utf16_to_byte_offset, Boundary, start, next, sequence_at-bounds,
}

-- What the loop of `utf16ToByteOffset` has found: the last boundary within the units left.
record Reached (rest : Bytes) (i utf16 character result : ℕ) : Type 0 where
  at : ℕ
  units : ℕ
  boundary : Boundary rest at units
  within : utf16 + units ≤ character
  sum : result ≡ i + at
  last : (j v : ℕ) → Boundary rest j v → utf16 + v ≤ character → v ≤ units

nothing : (j v : ℕ) → Boundary [] j v → v ≤ 0
nothing j v start = omega arith

no_unit :
    (c : ℕ) (r : Bytes) (utf16 character j v : ℕ)
    → character < utf16 + (sequence_at c r).units
    → Boundary (c ∷ r) j v
    → utf16 + v ≤ character
    → v ≤ 0
no_unit c r utf16 character j v h start l = omega arith
no_unit c r utf16 character j v h (next b) l = absurd (omega arith)

Reached-end : (i utf16 character : ℕ) → utf16 ≤ character → Reached [] i utf16 character i
Reached-end i utf16 character h = record {
  at = 0;
  units = 0;
  boundary = start;
  within = omega arith;
  sum = omega arith;
  last = λ j v b l. nothing j v b;
}

Reached-here :
    (c : ℕ) (r : Bytes) (i utf16 character : ℕ)
    → utf16 ≤ character
    → character < utf16 + (sequence_at c r).units
    → Reached (c ∷ r) i utf16 character i
Reached-here c r i utf16 character w h = record {
  at = 0;
  units = 0;
  boundary = start;
  within = omega arith;
  sum = omega arith;
  last = λ j v b l. no_unit c r utf16 character j v h b l;
}

farther :
    (c : ℕ) (r : Bytes) (utf16 character units : ℕ)
    → ((j v : ℕ)
        → Boundary (drop (sequence_at c r).len (c ∷ r)) j v
        → utf16 + (sequence_at c r).units + v ≤ character
        → v ≤ units)
    → (j v : ℕ) → Boundary (c ∷ r) j v
    → utf16 + v ≤ character
    → v ≤ (sequence_at c r).units + units
farther c r utf16 character units p j v start l = omega arith
farther c r utf16 character units p j v (next {i = i} {u = u} b) l =
    omega (arith, p i u b (omega arith))

Reached-step :
    (c : ℕ) (r : Bytes) (i utf16 character result : ℕ)
    → Reached
        (drop (sequence_at c r).len (c ∷ r))
        (i + (sequence_at c r).len)
        (utf16 + (sequence_at c r).units)
        character
        result
    → Reached (c ∷ r) i utf16 character result
Reached-step c r i utf16 character result p = record {
  at = (sequence_at c r).len + p.at;
  units = (sequence_at c r).units + p.units;
  boundary = next p.boundary;
  within = omega (arith, p.within);
  sum = omega (arith, p.sum);
  last = λ j v b l. farther c r utf16 character p.units p.last j v b l;
}

offset_loop-here :
    (fuel c : ℕ) (r : Bytes) (i utf16 character : ℕ)
    → character < utf16 + (sequence_at c r).units
    → utf16 + suc (length r) < 4294967296
    → offset_loop (suc fuel) (c ∷ r) i utf16 character ≡ i
unfolding offset_loop
offset_loop-here fuel c r i utf16 character h w = ground (arith, sequence_at-bounds c r)

offset_loop-step :
    (fuel c : ℕ) (r : Bytes) (i utf16 character : ℕ)
    → utf16 + (sequence_at c r).units ≤ character
    → utf16 + suc (length r) < 4294967296
    → offset_loop (suc fuel) (c ∷ r) i utf16 character
      ≡ offset_loop fuel
          (drop (sequence_at c r).len (c ∷ r))
          (i + (sequence_at c r).len)
          (utf16 + (sequence_at c r).units)
          character
unfolding offset_loop
offset_loop-step fuel c r i utf16 character h w = ground (arith, sequence_at-bounds c r)

offset_loop-Reached :
    (fuel : ℕ) (rest : Bytes) (i utf16 character : ℕ)
    → length rest ≤ fuel
    → utf16 + length rest < 4294967296
    → utf16 ≤ character
    → Reached rest i utf16 character (offset_loop fuel rest i utf16 character)
offset_loop-Reached zero [] i utf16 ch h w l = unfold offset_loop in Reached-end i utf16 ch l
offset_loop-Reached zero (c ∷ r) i utf16 ch h w l = absurd (omega arith)
offset_loop-Reached (suc fuel) [] i utf16 ch h w l = unfold offset_loop in Reached-end i utf16 ch l
offset_loop-Reached (suc fuel) (c ∷ r) i utf16 ch h w l =
    elim (Bool-cases (ltb ch (utf16 + (sequence_at c r).units))) [
      | inl e ↦
          rw (offset_loop-here fuel c r i utf16 ch (ground arith) w)
            (Reached-here c r i utf16 ch l (ground arith))
      | inr e ↦
          let s = sequence_at-bounds c r in
          let d = length-drop (sequence_at c r).len (c ∷ r) in
          rw (offset_loop-step fuel c r i utf16 ch (ground arith) w) (
            Reached-step c r i utf16 ch _ (
              offset_loop-Reached fuel (drop (sequence_at c r).len (c ∷ r))
                (i + (sequence_at c r).len) (utf16 + (sequence_at c r).units) ch
                (omega (arith, s, d)) (omega (arith, s, d)) (ground arith)))
    ]

offset-Reached :
    (line : Bytes) (character result : ℕ)
    → Reached line 0 0 character result
    → (u : ℕ) × Boundary line result u
      × (u ≤ character)
      × ((j v : ℕ) → Boundary line j v → v ≤ character → v ≤ u)
offset-Reached line character result p = (
  p.units,
  subst (λ i. Boundary line i p.units) (omega (arith, p.sum)) p.boundary,
  omega (arith, p.within),
  λ j v b l. p.last j v b (omega arith),
)

-- The offset of a column is the last boundary with that column or a smaller one: a column between
-- the two units of a sequence rounds down, one behind the end gives the end. The line has
-- under 2^32 bytes.
pub utf16_to_byte_offset_lem :
    (line : Bytes) (character : ℕ)
    → length line < 4294967296
    → (u : ℕ) × Boundary line (utf16_to_byte_offset line character) u
      × (u ≤ character)
      × ((j v : ℕ) → Boundary line j v → v ≤ character → v ≤ u)
unfolding utf16_to_byte_offset
utf16_to_byte_offset_lem line character w =
    offset-Reached line character _ (
      offset_loop-Reached (length line) line 0 0 character (omega arith) (omega arith)
        (omega arith))
