-- ===== src/Basic/Lines.antt =====
-- lib/Basic/SourceManager.cpp: the table of line starts of a buffer, and lines and columns by a search
-- in it. `bytes` are the visible bytes of a buffer, without the closing NUL.
pub mod Text
use nslc.Prelude.{
  ℕ, zero, suc, ◌+◌, ◌-◌, ◌%◌, ◌<◌, ◌≤◌, ◌≡◌, refl, ap, sym, Bytes, List, [], ◌∷◌, ◌==◌,
  if◌then◌else◌, leb, ltb, get_or, take, drop, length, arith, ◌∙◌, true, false, Bool-cases, inl,
  inr,
}

abbrev pub uint32 : ℕ → ℕ
uint32 n = n % 4294967296

-- The loop of `buildLineOffsetsIfNeeded` from the byte `i` on.
unfoldable pub offsets_from : ℕ → Bytes → List ℕ
offsets_from i [] = []
offsets_from i (c ∷ bytes) =
    let rest = offsets_from (i + 1) bytes in if c == b'\n' then uint32 (i + 1) ∷ rest else rest

unfoldable pub line_offsets : Bytes → List ℕ
line_offsets bytes = 0 ∷ offsets_from 0 bytes

-- `std::upper_bound` on an ordered table: the position of the first entry above `off`.
unfoldable pub upper_bound : List ℕ → ℕ → ℕ
upper_bound [] off = 0
upper_bound (o ∷ offsets) off = if leb o off then suc (upper_bound offsets off) else 0

unfoldable pub line_index : Bytes → ℕ → ℕ
line_index bytes off = upper_bound (line_offsets bytes) off - 1

pub record LineCol : Type 0 where
  pub line : ℕ
  pub col : ℕ

abbrev pub line_col : ℕ → ℕ → LineCol
line_col l c = record { line = l; col = c }

unfoldable pub get_line_col : Bytes → ℕ → LineCol
get_line_col bytes off =
    line_col (uint32 (uint32 (line_index bytes off) + 1))
      (uint32 (off - get_or (line_offsets bytes) (line_index bytes off) 0 + 1))

-- The begin and the end of the line that `getLine` returns.
unfoldable pub line_start : Bytes → ℕ → ℕ
line_start bytes off = get_or (line_offsets bytes) (line_index bytes off) 0

unfoldable pub line_end : Bytes → ℕ → ℕ
line_end bytes off =
    if ltb (line_index bytes off + 1) (length (line_offsets bytes))
    then get_or (line_offsets bytes) (line_index bytes off + 1) 0 - 1
    else length bytes

unfoldable pub get_line : Bytes → ℕ → Bytes
get_line bytes off =
    take (line_end bytes off - line_start bytes off) (drop (line_start bytes off) bytes)

-- A cursor that walks over `n` bytes from a line and a column, and past the end to the right.
unfoldable pub walk_to : Bytes → ℕ → LineCol → LineCol
walk_to bytes zero at = at
walk_to [] (suc n) at = line_col at.line (at.col + suc n)
walk_to (c ∷ bytes) (suc n) at =
    walk_to bytes n (if c == b'\n' then line_col (at.line + 1) 1 else line_col at.line (at.col + 1))

line_col_eq : {l m c d : ℕ} → l ≡ m → c ≡ d → line_col l c ≡ line_col m d
line_col_eq e f = cc

-- No entry of the table from the byte `i` on is at `i` or before it.
upper_bound-later :
    (i : ℕ) (bytes : Bytes) (off : ℕ)
    → off ≤ i
    → i + length bytes < 4294967296
    → upper_bound (offsets_from i bytes) off ≡ 0
unfolding upper_bound offsets_from
upper_bound-later i [] off h w = refl
upper_bound-later i (c ∷ bytes) off h w =
    ground (arith, upper_bound-later (i + 1) bytes off (omega arith) (omega arith))

pub offsets_from-newline :
    (i c : ℕ) (bytes : Bytes)
    → (c == b'\n') ≡ true
    → i + 1 < 4294967296
    → offsets_from i (c ∷ bytes) ≡ (i + 1) ∷ offsets_from (i + 1) bytes
unfolding offsets_from
offsets_from-newline i c bytes e w = ground arith

pub offsets_from-other :
    (i c : ℕ) (bytes : Bytes)
    → (c == b'\n') ≡ false
    → offsets_from i (c ∷ bytes) ≡ offsets_from (i + 1) bytes
unfolding offsets_from
offsets_from-other i c bytes e = ground arith

upper_bound-cons :
    (o : ℕ) (offsets : List ℕ) (off : ℕ)
    → o ≤ off
    → upper_bound (o ∷ offsets) off ≡ suc (upper_bound offsets off)
unfolding upper_bound
upper_bound-cons o offsets off h = ground arith

walk_to-newline :
    (c : ℕ) (bytes : Bytes) (l col k : ℕ)
    → (c == b'\n') ≡ true
    → walk_to (c ∷ bytes) (suc k) (line_col l col) ≡ walk_to bytes k (line_col (l + 1) 1)
unfolding walk_to
walk_to-newline c bytes l col k e = ground arith

walk_to-other :
    (c : ℕ) (bytes : Bytes) (l col k : ℕ)
    → (c == b'\n') ≡ false
    → walk_to (c ∷ bytes) (suc k) (line_col l col) ≡ walk_to bytes k (line_col l (col + 1))
unfolding walk_to
walk_to-other c bytes l col k e = ground arith

upper_bound-length :
    (i : ℕ) (bytes : Bytes) (off : ℕ) → upper_bound (offsets_from i bytes) off ≤ length bytes
unfolding upper_bound offsets_from
upper_bound-length i [] off = omega arith
upper_bound-length i (c ∷ bytes) off = ground (arith, upper_bound-length (i + 1) bytes off)

-- The walk from the byte `i` of a line that starts at `s`, and the search in the rest of the table.
walk_to-search :
    (i s : ℕ) (bytes : Bytes) (off l col k : ℕ)
    → s ≤ i
    → i + length bytes < 4294967296
    → i + k ≡ off
    → i - s + 1 ≡ col
    → walk_to bytes k (line_col l col)
      ≡ line_col
          (l + upper_bound (offsets_from i bytes) off)
          (off - get_or (s ∷ offsets_from i bytes) (upper_bound (offsets_from i bytes) off) 0 + 1)
walk_to-search i s bytes off l col zero h w o e =
    unfold walk_to in
    rw (upper_bound-later i bytes off (omega arith) w) (line_col_eq (omega arith) (omega arith))
walk_to-search i s [] off l col (suc k) h w o e =
    unfold walk_to upper_bound offsets_from in line_col_eq (omega arith) (omega arith)
walk_to-search i s (c ∷ bytes) off l col (suc k) h w o e = elim (Bool-cases (c == b'\n')) [
  | inl n ↦
      let ih =
        walk_to-search (i + 1) (i + 1) bytes off (l + 1) 1 k (omega arith) (omega arith)
          (omega arith) (omega arith) in
      rw
        (
          offsets_from-newline i c bytes n (omega arith),
          walk_to-newline c bytes l col k n,
          upper_bound-cons (i + 1) (offsets_from (i + 1) bytes) off (omega arith),
        )
        (ih ∙ line_col_eq (omega arith) refl)
  | inr n ↦
      let ih =
        walk_to-search (i + 1) s bytes off l (col + 1) k (omega arith) (omega arith) (omega arith)
          (omega arith) in
      rw (offsets_from-other i c bytes n, walk_to-other c bytes l col k n) ih
]

walk_to-zero : (bytes : Bytes) (at : LineCol) → walk_to bytes zero at ≡ at
unfolding walk_to
walk_to-zero bytes at = refl

-- A later offset is on the same line or a later one.
pub walk_to_mono :
    (bytes : Bytes) (k n : ℕ) (at : LineCol)
    → k ≤ n
    → (walk_to bytes k at).line ≤ (walk_to bytes n at).line
unfolding walk_to
walk_to_mono [] zero zero at h = omega arith
walk_to_mono [] zero (suc n) at h = omega arith
walk_to_mono [] (suc k) zero at h = omega arith
walk_to_mono [] (suc k) (suc n) at h = omega arith
walk_to_mono (c ∷ bytes) (suc k) zero at h = absurd (omega arith)
walk_to_mono (c ∷ bytes) zero zero at h = omega arith
walk_to_mono (c ∷ bytes) zero (suc n) at h = ground (
  arith,
  walk_to_mono bytes zero n (line_col (at.line + 1) 1) (omega arith),
  walk_to_mono bytes zero n (line_col at.line (at.col + 1)) (omega arith),
  walk_to-zero bytes (line_col (at.line + 1) 1),
  walk_to-zero bytes (line_col at.line (at.col + 1)),
)
walk_to_mono (c ∷ bytes) (suc k) (suc n) at h = ground (
  arith,
  walk_to_mono bytes k n (line_col (at.line + 1) 1) (omega arith),
  walk_to_mono bytes k n (line_col at.line (at.col + 1)) (omega arith),
)

pub walk_to-le :
    (bytes : Bytes) (k : ℕ) (at : LineCol) → (walk_to bytes k at).line ≤ at.line + length bytes
unfolding walk_to
walk_to-le [] zero at = omega arith
walk_to-le [] (suc k) at = omega arith
walk_to-le (c ∷ bytes) zero at = omega arith
walk_to-le (c ∷ bytes) (suc k) at = ground (
  arith,
  walk_to-le bytes k (line_col (at.line + 1) 1),
  walk_to-le bytes k (line_col at.line (at.col + 1)),
)

pub walk_to-ge : (bytes : Bytes) (k : ℕ) (at : LineCol) → at.line ≤ (walk_to bytes k at).line
unfolding walk_to
walk_to-ge bytes k at = walk_to_mono bytes zero k at (omega arith)

pub line_index_lem :
    (bytes : Bytes) (off : ℕ) → line_index bytes off ≡ upper_bound (offsets_from 0 bytes) off
unfolding line_index line_offsets
line_index_lem bytes off =
    rw (upper_bound-cons 0 (offsets_from 0 bytes) off (omega arith)) (omega arith)

-- The line that a walk ends at, and the index that the search finds.
pub walk_to-line :
    (bytes : Bytes) (off : ℕ)
    → length bytes < 4294967296
    → (walk_to bytes off (line_col 1 1)).line ≡ 1 + line_index bytes off
walk_to-line bytes off h =
    ap LineCol.line
      (walk_to-search 0 0 bytes off 1 1 off (omega arith) (omega arith) (omega arith) (omega arith))
    ∙ ap (◌+◌ 1) (sym (line_index_lem bytes off))

-- The binary search finds the line and the column that a walk over the bytes before the offset ends
-- at: the line counts the newlines before the offset, the column the bytes behind the last of them,
-- both from 1. The buffer has under 2^32 - 1 bytes, the offset is under 2^32 - 1.
pub get_line_col_lem :
    (bytes : Bytes) (off : ℕ)
    → length bytes < 4294967295
    → off < 4294967295
    → get_line_col bytes off ≡ walk_to bytes off (line_col 1 1)
unfolding get_line_col line_offsets
get_line_col_lem bytes off h o =
    let few = upper_bound-length 0 bytes off in
    rw
      (
        walk_to-search 0 0 bytes off 1 1 off (omega arith) (omega arith) (omega arith)
            (omega arith),
        line_index_lem bytes off,
      )
      (line_col_eq (omega (arith, few)) (omega arith))
