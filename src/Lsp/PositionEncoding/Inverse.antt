-- ===== src/Lsp/PositionEncoding/Inverse.antt =====
-- The two conversions at the boundaries.
use nslc.Prelude.{ℕ, ◌<◌, ◌≤◌, ◌≡◌, Bytes, length, arith}
use nslc.Lsp.PositionEncoding.Defs.{
  byte_to_utf16_column, utf16_to_byte_offset, Boundary, Boundary-mono,
}
use nslc.Lsp.PositionEncoding.Columns.{byte_to_utf16_column_lem}
use nslc.Lsp.PositionEncoding.Offsets.{utf16_to_byte_offset_lem}

same_column :
    {line : Bytes} {i u j v : ℕ} → Boundary line j v → Boundary line i u → j ≤ i → i ≤ j → v ≡ u
same_column a b h l = omega (arith, (Boundary-mono a b).0 h, (Boundary-mono b a).0 l)

same_offset :
    {line : Bytes} {i u j v : ℕ} → Boundary line j v → Boundary line i u → v ≤ u → u ≤ v → j ≡ i
same_offset a b h l = omega (arith, (Boundary-mono a b).1 h, (Boundary-mono b a).1 l)

-- At each boundary of a line under 2^32 bytes the two conversions give each other's argument back.
pub utf16_to_byte_offset-byte_to_utf16_column :
    (line : Bytes) (i u : ℕ)
    → length line < 4294967296
    → Boundary line i u
    → (byte_to_utf16_column line i ≡ u) × (utf16_to_byte_offset line u ≡ i)
utf16_to_byte_offset-byte_to_utf16_column line i u w b =
    let c = byte_to_utf16_column_lem line i w in
    let o = utf16_to_byte_offset_lem line u w in
    (
      same_column (c.1) b (c.2) (c.3 i u b (omega arith)),
      same_offset (o.1) b (o.2) (o.3 i u b (omega arith)),
    )
