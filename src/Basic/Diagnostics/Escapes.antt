-- ===== src/Basic/Diagnostics/Escapes.antt =====
-- The strings of the JSON format, read back.
use nslc.Basic.Diagnostics.Json.{write_json_byte, write_json_bytes, write_json_string, hex_digit}
use nslc.Prelude.{
  ℕ, zero, suc, ◌+◌, ◌-◌, ◌*◌, ◌/◌, ◌%◌, ◌<◌, ◌≡◌, ◌||◌, refl, ap, ◌∙◌, Bytes, codes, within,
  Bool-cases, inl, inr, false, [], ◌∷◌, ◌++◌, append_assoc, Option, none, some, ◌==◌, ltb,
  if◌then◌else◌, length, drop, peek_byte, ◌>>=◌, arith,
}

hex_value : ℕ → Option ℕ
hex_value c =
    if within b'0' b'9' c
    then some (c - b'0')
    else if within b'a' b'f' c
    then some (10 + (c - b'a'))
    else if within b'A' b'F' c
    then some (10 + (c - b'A'))
    else none

-- The byte that a letter behind a backslash stands for, `none` where JSON has no such escape.
letter_value : ℕ → Option ℕ
letter_value d =
    if d == b'b'
    then some 8
    else if d == b'f'
    then some 12
    else if d == b'n'
    then some 10
    else if d == b'r'
    then some 13
    else if d == b't'
    then some 9
    else if d == b'"' || d == b'\\' || d == b'/'
    then some d
    else none

-- Four hexadecimal digits.
read_hex : Bytes → Option (ℕ × Bytes)
read_hex (d ∷ e ∷ g ∷ h ∷ r) = do
  first ← hex_value d
  second ← hex_value e
  third ← hex_value g
  fourth ← hex_value h
  some (((first * 16 + second) * 16 + third) * 16 + fourth, r)
read_hex _ = none

-- What follows a backslash.
read_escape : Bytes → Option (ℕ × Bytes)
read_escape [] = none
read_escape (d ∷ r) = if d == b'u' then read_hex r else letter_value d >>= λ c. some (c, r)

-- A byte of the string, and the text behind it; a control byte may not stand in a string.
read_byte : Bytes → Option (ℕ × Bytes)
read_byte [] = none
read_byte (c ∷ r) = if c == b'\\' then read_escape r else if ltb c 32 then none else some (c, r)

-- The string up to the closing mark, from behind the opening one, and the text behind it.
pub read_string : ℕ → Bytes → Option (Bytes × Bytes)
read_string zero text = none
read_string (suc fuel) text =
    if peek_byte text == b'"'
    then some ([], drop 1 text)
    else read_byte text >>= λ first.
        read_string fuel first.1 >>= λ rest. some (first.0 ∷ rest.0, rest.1)

hex_value-hex_digit : (n : ℕ) → n < 16 → hex_value (hex_digit n) ≡ some n
unfolding hex_value
hex_value-hex_digit n h = ground arith

hex_zero : hex_value b'0' ≡ some 0
unfolding hex_value
hex_zero = refl

read_byte-control :
    (c : ℕ) (rest : Bytes)
    → c < 32
    → read_byte (codes "\\u00" ++ hex_digit (c / 16) ∷ hex_digit (c % 16) ∷ rest) ≡ some (c, rest)
unfolding read_byte read_escape read_hex
read_byte-control c rest h =
    rw
      (
        hex_zero,
        hex_value-hex_digit (c / 16) (omega arith),
        hex_value-hex_digit (c % 16) (omega arith),
      )
      (ap (λ n. some (n, rest)) (omega arith))

read_byte-write_json_byte :
    (c : ℕ) (rest : Bytes) → read_byte (write_json_byte c ++ rest) ≡ some (c, rest)
unfolding read_byte read_escape letter_value write_json_byte
read_byte-write_json_byte c rest = elim (Bool-cases (ltb c 32)) [
  | inl l ↦ ground (arith, read_byte-control c rest (ground arith))
  | inr l ↦ ground arith
]

peek_byte-write_json_byte :
    (c : ℕ) (rest : Bytes) → (peek_byte (write_json_byte c ++ rest) == b'"') ≡ false
unfolding write_json_byte
peek_byte-write_json_byte c rest = ground arith

read_string-step :
    (fuel c : ℕ) (text behind s rest : Bytes)
    → (peek_byte text == b'"') ≡ false
    → read_byte text ≡ some (c, behind)
    → read_string fuel behind ≡ some (s, rest)
    → read_string (suc fuel) text ≡ some (c ∷ s, rest)
unfolding read_string
read_string-step fuel c text behind s rest e b h = rw (e, b, ◌>>=◌, h) refl

grouped :
    (c : ℕ) (s rest : Bytes)
    → write_json_byte c ++ write_json_bytes s ++ b'"' ∷ rest
      ≡ write_json_byte c ++ (write_json_bytes s ++ b'"' ∷ rest)
grouped c s rest = append_assoc (write_json_byte c) (write_json_bytes s) (b'"' ∷ rest)

read_string-write_json_bytes :
    (s rest : Bytes)
    → read_string (suc (length s)) (write_json_bytes s ++ b'"' ∷ rest) ≡ some (s, rest)
unfolding write_json_bytes
read_string-write_json_bytes [] rest = unfold read_string in refl
read_string-write_json_bytes (c ∷ s) rest =
    read_string-step (suc (length s)) c (write_json_byte c ++ write_json_bytes s ++ b'"' ∷ rest)
      (write_json_bytes s ++ b'"' ∷ rest) s rest
      (ap (λ t. peek_byte t == b'"') (grouped c s rest)
        ∙ peek_byte-write_json_byte c (write_json_bytes s ++ b'"' ∷ rest))
      (ap read_byte (grouped c s rest)
        ∙ read_byte-write_json_byte c (write_json_bytes s ++ b'"' ∷ rest))
      (read_string-write_json_bytes s rest)

-- A string between its marks.
pub read_json_string : ℕ → Bytes → Option (Bytes × Bytes)
read_json_string fuel [] = none
read_json_string fuel (c ∷ text) = if c == b'"' then read_string fuel text else none

-- A string that is written as JSON, with whatever text behind it, is read back by a reader that refuses
-- a control byte, an escape that JSON does not have, and a digit that is not hexadecimal.
pub read_json_string-write_json_string :
    (s rest : Bytes)
    → read_json_string (suc (length s)) (write_json_string s ++ rest) ≡ some (s, rest)
unfolding read_json_string write_json_string
read_json_string-write_json_string s rest =
    ap (read_string (suc (length s))) (append_assoc (write_json_bytes s) (b'"' ∷ []) rest)
    ∙ read_string-write_json_bytes s rest
