-- ===== src/Basic/Location.antt =====
-- include/nsl/Basic/SourceLocation.h and lib/Basic/SourceLocation.cpp: a location is one 32-bit word,
-- a FileID in the top 8 bits and a byte offset in the low 24.
use mathlib.Core.Path.{subst}
use nslc.Prelude.{
  ℕ, ◌+◌, ◌-◌, ◌*◌, ◌/◌, ◌%◌, ◌<◌, ◌≤◌, ◌≡◌, sym, ◌≢◌, ◌↔◌, ◌⊎◌, Bool, true, false, not, ◌&&◌, ◌||◌,
  Option, none, some, ◌==◌, if◌then◌else◌, ltb, arith,
}

-- The raw value of a `FileID`; 0 is the invalid one.
abbrev pub FileId : Type 0
FileId = ℕ

unfoldable pub is_valid_file : FileId → Bool
is_valid_file f = not (f == 0)

abbrev pub max_offset : ℕ
max_offset = 16777216

pub record SourceLocation : Type 0 where
  pub bits : ℕ

abbrev pub no_location : SourceLocation
no_location = record { bits = 0 }

-- `none` is the abort on an offset that does not fit. The two operands of `|` share no bit.
unfoldable pub make : FileId → ℕ → Option SourceLocation
make fid off =
    if ltb off max_offset
    then some (record { bits = (fid * 16777216) % 4294967296 + off % 16777216 })
    else none

unfoldable pub file : SourceLocation → FileId
file l = (l.bits / 16777216) % 256

unfoldable pub offset : SourceLocation → ℕ
offset l = l.bits % 16777216

unfoldable pub is_valid : SourceLocation → Bool
is_valid l = not (l.bits == 0)

unfoldable pub before : SourceLocation → SourceLocation → Bool
before l r = ltb l.bits r.bits

pub record SourceRange : Type 0 where
  pub begin : SourceLocation
  pub end : SourceLocation

-- `none` is one of the two aborts of the constructor.
unfoldable pub make_range : SourceLocation → SourceLocation → Option SourceRange
make_range b e =
    if file b == file e && not (before e b) then some (record { begin = b; end = e }) else none

unfoldable pub range_length : SourceRange → ℕ
range_length r = offset r.end - offset r.begin

unfoldable pub contains : SourceRange → SourceLocation → Bool
contains r l =
    if not (is_valid l) || not (is_valid r.begin && is_valid r.end)
    then false
    else if not (file l == file r.begin)
    then false
    else not (before l r.begin) && before l r.end

-- A word of 32 bits.
abbrev pub IsWord : SourceLocation → Type 0
IsWord l = l.bits < 4294967296

-- For a FileID under 256, an offset below 16 MiB is packed with its file, and both come back; any other offset aborts.
pub make-file-offset :
    (fid off : ℕ)
    → fid < 256
    → (off < max_offset
        → (l : SourceLocation) × (make fid off ≡ some l)
          × (file l ≡ fid)
          × (offset l ≡ off)
          × IsWord l)
      × (max_offset ≤ off → make fid off ≡ none)
unfolding make file offset
make-file-offset fid off h = (
  λ o.
      (record { bits = fid * 16777216 + off }, ground arith, omega arith, omega arith, omega arith),
  λ o. ground arith,
)

-- On words of 32 bits, one comparison orders by file and then by offset.
pub before_iff :
    (l r : SourceLocation)
    → IsWord l
    → IsWord r
    → (before l r ≡ true) ↔ ((file l < file r) ⊎ ((file l ≡ file r) × (offset l < offset r)))
unfolding before file offset
before_iff l r hl hr = ground arith

make_range_eq :
    (b e : SourceLocation) {r : SourceRange}
    → make_range b e ≡ some r
    → (r ≡ record { begin = b; end = e }) × (file b ≡ file e) × (b.bits ≤ e.bits)
unfolding make_range before
make_range_eq b e m = ground arith

contains-made :
    (b e l : SourceLocation)
    → file b ≡ file e
    → b.bits ≤ e.bits
    → IsWord b
    → IsWord e
    → IsWord l
    → b.bits ≢ 0
    → (contains (record { begin = b; end = e }) l ≡ true)
      ↔ ((file l ≡ file b) × (offset b ≤ offset l) × (offset l < offset e))
unfolding contains before file offset is_valid
contains-made b e l f o hb he hl nb = ground arith

-- On words of 32 bits and a begin that is not the invalid location, a range that was made contains
-- exactly the locations of its file with an offset from its begin on and below its end.
pub contains_iff :
    (b e l : SourceLocation) (r : SourceRange)
    → make_range b e ≡ some r
    → IsWord b
    → IsWord e
    → IsWord l
    → b.bits ≢ 0
    → (contains r l ≡ true) ↔ ((file l ≡ file b) × (offset b ≤ offset l) × (offset l < offset e))
contains_iff b e l r m hb he hl nb =
    let made = make_range_eq b e m in
    subst
      (λ r.
        (contains r l ≡ true) ↔ ((file l ≡ file b) × (offset b ≤ offset l) × (offset l < offset e)))
      (sym (made.0)) (contains-made b e l (made.1) (made.2) hb he hl nb)
