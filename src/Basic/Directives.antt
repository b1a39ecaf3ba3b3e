-- ===== src/Basic/Directives.antt =====
-- lib/Basic/SourceManager.cpp: the line directives of a buffer, and the virtual line of a location.
use nslc.Basic.Lines.{
  LineCol, line_col, walk_to, walk_to_mono, walk_to-le, walk_to-ge, get_line_col_lem, get_line_col,
  uint32, line_index,
}
use mathlib.Core.Path.{subst}
use nslc.Prelude.{
  ℕ, suc, ◌+◌, ◌-◌, ◌<◌, ◌≤◌, ◌≡◌, ◌≢◌, refl, sym, ap, Option-cases, ◌∙◌, inl, inr, Bytes, Bool,
  true, false, List, [], ◌∷◌, ◌++◌, Option, none, some, if◌then◌else◌, leb, ltb, length, arith,
  Bool-cases,
}

pub record LineDirective : Type 0 where
  pub origin_offset : ℕ
  pub virtual_line : ℕ
  pub virtual_path : Bytes

-- `overrides.empty() || at > overrides.back().origin_offset`
unfoldable pub is_behind_last : List LineDirective → ℕ → Bool
is_behind_last [] off = true
is_behind_last (d ∷ []) off = ltb d.origin_offset off
is_behind_last (d ∷ e ∷ ds) off = is_behind_last (e ∷ ds) off

-- `none` is the abort on a directive out of order.
unfoldable pub add_line_directive : List LineDirective → ℕ → ℕ → Bytes → Option (List LineDirective)
add_line_directive overrides off line path =
    if is_behind_last overrides off
    then some
        (overrides ++ record { origin_offset = off; virtual_line = line; virtual_path = path } ∷ [])
    else none

-- `(active == nullptr) || d.origin_offset > active->origin_offset`
unfoldable pub replaces : LineDirective → Option LineDirective → Bool
replaces d none = true
replaces d (some active) = ltb active.origin_offset d.origin_offset

-- The loop of `resolveVirtual` over the directives, with the one found so far.
unfoldable pub find_active : List LineDirective → ℕ → Option LineDirective → Option LineDirective
find_active [] off active = active
find_active (d ∷ ds) off active =
    let taken = find_active ds off (some d) in
    let passed = find_active ds off active in
    if leb d.origin_offset off then (if replaces d active then taken else passed) else active

pub record VirtualLoc : Type 0 where
  pub path : Bytes
  pub line : ℕ
  pub col : ℕ

unfoldable pub virtual_path_of : Bytes → Bytes → Bytes
virtual_path_of path [] = path
virtual_path_of path (c ∷ virtual) = c ∷ virtual

-- The rest of `resolveVirtual`, on 32-bit words: a difference below 0 wraps.
unfoldable pub virtual_loc : Bytes → Bytes → ℕ → Option LineDirective → VirtualLoc
virtual_loc path bytes off none = record {
  path = path;
  line = (get_line_col bytes off).line;
  col = (get_line_col bytes off).col;
}
virtual_loc path bytes off (some d) = record {
  path = virtual_path_of path d.virtual_path;
  line = uint32 (
      d.virtual_line
      + uint32 (
          4294967296
          + (get_line_col bytes off).line
          - uint32 (uint32 (line_index bytes d.origin_offset) + 1)));
  col = (get_line_col bytes off).col;
}

unfoldable pub resolve_virtual : Bytes → Bytes → List LineDirective → ℕ → VirtualLoc
resolve_virtual path bytes overrides off =
    virtual_loc path bytes off (find_active overrides off none)

-- The origins increase, from `low` on.
unfoldable pub From : ℕ → List LineDirective → Type 0
From low [] = Unit
From low (d ∷ ds) = (low ≤ d.origin_offset) × From (suc d.origin_offset) ds

abbrev pub Ordered : List LineDirective → Type 0
Ordered ds = From 0 ds

-- The directive that counts at an offset: the last one with an origin there or before.
unfoldable pub last_before : List LineDirective → ℕ → Option LineDirective
last_before [] off = none
last_before (d ∷ ds) off =
    let later = last_before ds off in
    elim later [ none ↦ if leb d.origin_offset off then some d else none | some e ↦ some e ]

get_line_col-line :
    (bytes : Bytes) (off : ℕ)
    → (get_line_col bytes off).line ≡ uint32 (uint32 (line_index bytes off) + 1)
unfolding get_line_col
get_line_col-line bytes off = refl

or_active : Option LineDirective → Option LineDirective → Option LineDirective
or_active none active = active
or_active (some d) active = some d

last_before-none :
    (low : ℕ) (ds : List LineDirective) (off : ℕ)
    → From low ds
    → off < low
    → last_before ds off ≡ none
unfolding last_before From
last_before-none low [] off f h = refl
last_before-none low (d ∷ ds) off f h =
    rw (last_before-none (suc d.origin_offset) ds off (f.1) (omega arith)) (ground arith)

data IsBelow (low : ℕ) : Option LineDirective → Type 0 where
  nothing : IsBelow low none
  active : {d : LineDirective} → d.origin_offset < low → IsBelow low (some d)

replaces-IsBelow :
    (d : LineDirective) (a : Option LineDirective) {low : ℕ}
    → IsBelow low a
    → low ≤ d.origin_offset
    → replaces d a ≡ true
unfolding replaces
replaces-IsBelow d none b h = refl
replaces-IsBelow d (some a) (active l) h = ground arith

last_before-cons :
    (d : LineDirective) (ds : List LineDirective) (off : ℕ) (a : Option LineDirective)
    → leb d.origin_offset off ≡ true
    → or_active (last_before (d ∷ ds) off) a ≡ or_active (last_before ds off) (some d)
unfolding last_before or_active
last_before-cons d ds off a e = ground arith

last_before-skip :
    (d : LineDirective) (ds : List LineDirective) (off : ℕ)
    → leb d.origin_offset off ≡ false
    → last_before (d ∷ ds) off ≡ last_before ds off
unfolding last_before
last_before-skip d ds off e = ground arith

find_active-From :
    (low : ℕ) (ds : List LineDirective) (off : ℕ) (a : Option LineDirective)
    → From low ds
    → IsBelow low a
    → find_active ds off a ≡ or_active (last_before ds off) a
unfolding find_active From
find_active-From low [] off a f b = unfold last_before or_active in refl
find_active-From low (d ∷ ds) off a f b = elim (Bool-cases (leb d.origin_offset off)) [
  | inl e ↦
      rw (e, replaces-IsBelow d a b (f.0), last_before-cons d ds off a e)
        (find_active-From (suc d.origin_offset) ds off (some d) (f.1) (active (omega arith)))
  | inr e ↦
      rw
        (
          e,
          last_before-skip d ds off e,
          last_before-none (suc d.origin_offset) ds off (f.1) (ground arith),
        )
        (unfold or_active in refl)
]

or_active-none : (a : Option LineDirective) → or_active a none ≡ a
unfolding or_active
or_active-none none = refl
or_active-none (some d) = refl

-- On directives in order, the loop with its early exit finds the last one at the offset or before.
pub find_active_lem :
    (ds : List LineDirective) (off : ℕ) → Ordered ds → find_active ds off none ≡ last_before ds off
find_active_lem ds off f =
    find_active-From 0 ds off none f nothing ∙ or_active-none (last_before ds off)

From-append :
    (low off line : ℕ) (path : Bytes) (d : LineDirective) (ds : List LineDirective)
    → From low (d ∷ ds)
    → is_behind_last (d ∷ ds) off ≡ true
    → From low
        ((d ∷ ds) ++ record { origin_offset = off; virtual_line = line; virtual_path = path } ∷ [])
unfolding is_behind_last From
From-append low off line path d [] f e = (f.0, (ground arith, tt))
From-append low off line path d (e ∷ ds) f b =
    (f.0, From-append (suc d.origin_offset) off line path e ds (f.1) b)

add_line_directive_eq :
    (ds es : List LineDirective) (off line : ℕ) (path : Bytes)
    → add_line_directive ds off line path ≡ some es
    → (is_behind_last ds off ≡ true)
      × (es ≡ ds ++ record { origin_offset = off; virtual_line = line; virtual_path = path } ∷ [])
unfolding add_line_directive
add_line_directive_eq ds es off line path e = ground arith

-- The list of directives stays in order.
pub add_line_directive-Ordered :
    (ds es : List LineDirective) (off line : ℕ) (path : Bytes)
    → Ordered ds
    → add_line_directive ds off line path ≡ some es
    → Ordered es
add_line_directive-Ordered [] es off line path f e =
    subst Ordered (sym ((add_line_directive_eq [] es off line path e).1))
      (unfold From in (omega arith, tt))
add_line_directive-Ordered (d ∷ ds) es off line path f e =
    let added = add_line_directive_eq (d ∷ ds) es off line path e in
    subst Ordered (sym (added.1)) (From-append 0 off line path d ds f (added.0))

last_before-le :
    (ds : List LineDirective) (off : ℕ) (d : LineDirective)
    → last_before ds off ≡ some d
    → d.origin_offset ≤ off
unfolding last_before
last_before-le [] off d e = ground arith
last_before-le (x ∷ ds) off d e = elim (Option-cases (last_before ds off)) [
  | inl n ↦ ground arith
  | inr s ↦ ground (arith, last_before-le ds off (s.0) (s.1))
]

virtual_loc-some :
    (path bytes : Bytes) (off : ℕ) (d : LineDirective)
    → length bytes < 4294967295
    → off < 4294967295
    → d.origin_offset ≤ off
    → d.virtual_line + length bytes < 4294967296
    → (virtual_loc path bytes off (some d)).line
        + (walk_to bytes d.origin_offset (line_col 1 1)).line
      ≡ d.virtual_line + (walk_to bytes off (line_col 1 1)).line
unfolding virtual_loc
virtual_loc-some path bytes off d h o le w =
    let later = walk_to_mono bytes d.origin_offset off (line_col 1 1) le in
    let few = walk_to-le bytes off (line_col 1 1) in
    let origin = ap LineCol.line (get_line_col_lem bytes d.origin_offset h (omega arith)) in
    let here = ap LineCol.line (get_line_col_lem bytes off h o) in
    let first = walk_to-ge bytes d.origin_offset (line_col 1 1) in
    let stored = get_line_col-line bytes d.origin_offset in
    omega (arith, later, few, origin, here, first, stored)

virtual_loc-col :
    (path bytes : Bytes) (off : ℕ) (o : Option LineDirective)
    → (virtual_loc path bytes off o).col ≡ (get_line_col bytes off).col
unfolding virtual_loc
virtual_loc-col path bytes off none = refl
virtual_loc-col path bytes off (some d) = refl

virtual_path_of-named :
    (path virtual : Bytes) → virtual ≢ [] → virtual_path_of path virtual ≡ virtual
unfolding virtual_path_of
virtual_path_of-named path [] h = absurd (h refl)
virtual_path_of-named path (c ∷ virtual) h = refl

-- What the directive `d` makes of a location: its path, or the buffer's where it gives none, and its
-- line and one more for each newline from its origin to the location.
pub record IsMoved (path bytes : Bytes) (off : ℕ) (d : LineDirective) (v : VirtualLoc)
    : Type 0 where
  pub named : d.virtual_path ≢ [] → v.path ≡ d.virtual_path
  pub unnamed : d.virtual_path ≡ [] → v.path ≡ path
  pub counted :
      d.virtual_line + length bytes < 4294967296
      → v.line + (walk_to bytes d.origin_offset (line_col 1 1)).line
        ≡ d.virtual_line + (walk_to bytes off (line_col 1 1)).line

virtual_loc-IsMoved :
    (path bytes : Bytes) (off : ℕ) (d : LineDirective)
    → length bytes < 4294967295
    → off < 4294967295
    → d.origin_offset ≤ off
    → IsMoved path bytes off d (virtual_loc path bytes off (some d))
unfolding virtual_loc virtual_path_of
virtual_loc-IsMoved path bytes off d h o le = record {
  named = virtual_path_of-named path d.virtual_path;
  unnamed = λ e. rw e refl;
  counted = virtual_loc-some path bytes off d h o le;
}

-- On directives in order, a buffer and an offset under 2^32 - 1, the column of a location is its own; a
-- location before the first directive has the buffer's path and its own line; a location behind a
-- directive has the directive's path, the buffer's where that is empty, and, where the directive's
-- lines stay below 2^32, the directive's line and one more for each newline between the two.
pub resolve_virtual_lem :
    (path bytes : Bytes) (ds : List LineDirective) (off : ℕ)
    → Ordered ds
    → length bytes < 4294967295
    → off < 4294967295
    → ((resolve_virtual path bytes ds off).col ≡ (walk_to bytes off (line_col 1 1)).col)
      × (last_before ds off ≡ none
          → ((resolve_virtual path bytes ds off).path ≡ path)
            × ((resolve_virtual path bytes ds off).line ≡ (walk_to bytes off (line_col 1 1)).line))
      × ((d : LineDirective)
          → last_before ds off ≡ some d
          → IsMoved path bytes off d (resolve_virtual path bytes ds off))
unfolding resolve_virtual virtual_loc
resolve_virtual_lem path bytes ds off f h o =
    let own = get_line_col_lem bytes off h o in
    (
      virtual_loc-col path bytes off (find_active ds off none) ∙ ap LineCol.col own,
      λ e. rw (find_active_lem ds off f, e) (refl, ap LineCol.line own),
      λ d e.
          rw (find_active_lem ds off f, e)
            (virtual_loc-IsMoved path bytes off d h o (last_before-le ds off d e)),
    )
