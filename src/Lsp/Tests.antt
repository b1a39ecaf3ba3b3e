-- ===== src/Lsp/Tests.antt =====
-- Columns in a small line, and the theorems of Lsp at concrete inputs.
use nslc.Lsp.PositionEncoding.{
  Boundary, start, next, byte_to_utf16_column, utf16_to_byte_offset, column_loop, offset_loop,
  sequence_at, utf8_sequence_len,
}
use nslc.Lsp.PositionEncoding.Inverse.{utf16_to_byte_offset-byte_to_utf16_column}
use nslc.Prelude.{◌≡◌, refl, Bytes, [], ◌∷◌, arith}

-- One ASCII byte, one sequence of four bytes, and another ASCII byte.
abbrev emoji : Bytes
emoji = 97 ∷ 240 ∷ 159 ∷ 152 ∷ 128 ∷ 98 ∷ []

-- The four bytes are two units, and an offset inside them rounds down.
byte_to_utf16_column-emoji : byte_to_utf16_column emoji 5 ≡ 3
unfolding byte_to_utf16_column column_loop sequence_at utf8_sequence_len
byte_to_utf16_column-emoji = refl

byte_to_utf16_column-inside : byte_to_utf16_column emoji 3 ≡ 1
unfolding byte_to_utf16_column column_loop sequence_at utf8_sequence_len
byte_to_utf16_column-inside = refl

utf16_to_byte_offset-inside : utf16_to_byte_offset emoji 2 ≡ 1
unfolding utf16_to_byte_offset offset_loop sequence_at utf8_sequence_len
utf16_to_byte_offset-inside = refl

emoji-Boundary : Boundary emoji 5 3
unfolding sequence_at utf8_sequence_len
emoji-Boundary = next (next start)

utf16_to_byte_offset-byte_to_utf16_column_example :
    (byte_to_utf16_column emoji 5 ≡ 3) × (utf16_to_byte_offset emoji 3 ≡ 5)
utf16_to_byte_offset-byte_to_utf16_column_example =
    utf16_to_byte_offset-byte_to_utf16_column emoji 5 3 (omega arith) emoji-Boundary
