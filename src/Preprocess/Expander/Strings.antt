-- ===== src/Preprocess/Expander/Strings.antt =====
-- lib/Preprocess/MacroExpander.cpp: what `scanStringEnd` passes, as a grammar of strings.
use nslc.Preprocess.Expander.Defs.{scan_string_end}
use nslc.Prelude.{
  ℕ, suc, ◌+◌, ◌≡◌, refl, ap, Bytes, true, false, [], ◌∷◌, ◌++◌, ◌==◌, ==_iff, peek_byte, length,
  arith,
}

-- What stands in a string: bytes that are no quote and no backslash, and a backslash with the byte
-- behind it, whatever that is.
pub data IsStringBody : Bytes → Type 0 where
  done : IsStringBody []
  plain :
      {c : ℕ} {t : Bytes}
      → (c == b'"') ≡ false
      → (c == b'\\') ≡ false
      → IsStringBody t
      → IsStringBody (c ∷ t)
  escape : {c d : ℕ} {t : Bytes} → (c == b'\\') ≡ true → IsStringBody t → IsStringBody (c ∷ d ∷ t)

scan_string_end-plain :
    (c : ℕ) (t rest : Bytes)
    → (c == b'"') ≡ false
    → (c == b'\\') ≡ false
    → scan_string_end (c ∷ (t ++ b'"' ∷ rest)) ≡ suc (scan_string_end (t ++ b'"' ∷ rest))
unfolding scan_string_end
scan_string_end-plain c [] rest q e = ground arith
scan_string_end-plain c (d ∷ t) rest q e = ground arith

scan_string_end-escape :
    (c d : ℕ) (r : Bytes)
    → (c == b'\\') ≡ true
    → scan_string_end (c ∷ d ∷ r) ≡ 2 + scan_string_end r
unfolding scan_string_end
scan_string_end-escape c d r e = ground arith

pub scan_string_end-quoted :
    (t rest : Bytes) → IsStringBody t → scan_string_end (t ++ b'"' ∷ rest) ≡ suc (length t)
scan_string_end-quoted [] [] done = unfold scan_string_end in refl
scan_string_end-quoted [] (d ∷ rest) done = unfold scan_string_end in refl
scan_string_end-quoted (c ∷ t) rest (plain q e b) =
    omega (arith, scan_string_end-plain c t rest q e, scan_string_end-quoted t rest b)
scan_string_end-quoted (c ∷ d ∷ t) rest (escape e b) =
    omega (arith, scan_string_end-escape c d (t ++ b'"' ∷ rest) e, scan_string_end-quoted t rest b)

pub peek_byte-front :
    (r : Bytes) → (peek_byte r == b'%') ≡ true → (rest : Bytes) × (r ≡ b'%' ∷ rest)
peek_byte-front [] e = ground arith
peek_byte-front (c ∷ r) e = (r, ap (λ x. x ∷ r) ((==_iff c b'%').0 e))
