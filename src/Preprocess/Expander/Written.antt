-- ===== src/Preprocess/Expander/Written.antt =====
-- A text written piece by piece, and what the expander makes of it at one level.
use nslc.Preprocess.Expander.Defs.{
  Piece, verbatim, reference, piece_at, splice_name, scan_ident, scan_string_end, is_ident_start,
  is_ident_char, span, Expansion, expansion, join, substitute, expand_loop, expand_impl,
}
use nslc.Preprocess.Expander.Strings.{IsStringBody, scan_string_end-quoted, peek_byte-front}
use nslc.Preprocess.Macros.{MacroDef, MacroTable, lookup}
use nslc.Prelude.{
  ℕ, zero, suc, ◌≤◌, ◌≡◌, refl, sym, ap, ◌∙◌, Bytes, true, false, List, [], ◌∷◌, ◌++◌, append_assoc,
  Option, none, some, ◌==◌, peek_byte, take, drop, length, length-append, take-length, drop-length,
  take-append-drop, StopsAt, run_length-whole, run_length-append, run_length-All, All, arith,
  Bool-cases, inl, inr,
}

-- A byte that begins nothing where it stands, a string, an identifier, and an identifier between `%`; an
-- identifier is its first letter and the rest.
pub data Segment : Type 0 where
  byte : ℕ → Segment
  quoted : Bytes → Segment
  word named : ℕ → Bytes → Segment

abbrev pub written : Segment → Bytes
written (byte c) = c ∷ []
written (quoted t) = b'"' ∷ (t ++ b'"' ∷ [])
written (word d t) = d ∷ t
written (named d t) = b'%' ∷ ((d ∷ t) ++ b'%' ∷ [])

abbrev pub text_of : List Segment → Bytes
text_of [] = []
text_of (seg ∷ segs) = written seg ++ text_of segs

-- A reference is replaced by the expansion of its body; where the depth is used up it stays and its
-- name is reported. An undefined one stays.
abbrev replaced : Option (Bytes → Expansion) → Bytes → Bytes → Option MacroDef → Expansion
replaced deeper name text none = expansion text []
replaced none name text (some d) = expansion text (name ∷ [])
replaced (some expand_body) name text (some d) = expand_body d.body

abbrev meaning : Option (Bytes → Expansion) → MacroTable → Segment → Expansion
meaning deeper macros (byte c) = expansion (written (byte c)) []
meaning deeper macros (quoted t) = expansion (written (quoted t)) []
meaning deeper macros (word d t) =
    replaced deeper (d ∷ t) (written (word d t)) (lookup macros (d ∷ t))
meaning deeper macros (named d t) =
    replaced deeper (d ∷ t) (written (named d t)) (lookup macros (d ∷ t))

abbrev pub text_meaning : Option (Bytes → Expansion) → MacroTable → List Segment → Expansion
text_meaning deeper macros [] = expansion [] []
text_meaning deeper macros (seg ∷ segs) =
    join (meaning deeper macros seg) (text_meaning deeper macros segs)

-- The expansion of a body, `none` where the depth is used up.
abbrev pub below : MacroTable → ℕ → Option (Bytes → Expansion)
below macros zero = none
below macros (suc left) = some (λ body. expand_impl macros left body)

-- Behind a `%` no identifier and closing `%` follow.
abbrev pub IsLone : Bytes → Type 0
IsLone rest =
    (d : ℕ) (t after : Bytes)
    → is_ident_start d ≡ true
    → All (λ c. is_ident_char c ≡ true) t
    → rest ≡ d ∷ (t ++ b'%' ∷ after)
    → ⊥

-- A segment in front of the text `rest`.
unfoldable pub IsSegment : Segment → Bytes → Type 0
IsSegment (byte c) rest =
    ((c == b'"') ≡ false) × (is_ident_start c ≡ false) × ((c == b'%') ≡ true → IsLone rest)
IsSegment (quoted t) rest = IsStringBody t
IsSegment (word d t) rest =
    (is_ident_start d ≡ true) × All (λ c. is_ident_char c ≡ true) t × StopsAt is_ident_char rest
IsSegment (named d t) rest = (is_ident_start d ≡ true) × All (λ c. is_ident_char c ≡ true) t

abbrev pub IsText : List Segment → Type 0
IsText [] = Unit
IsText (seg ∷ segs) = IsSegment seg (text_of segs) × IsText segs

abbrev front : Segment → ℕ
front seg = peek_byte (written seg)

abbrev back : Segment → Bytes
back seg = drop 1 (written seg)

abbrev piece_of : Segment → Piece
piece_of (byte c) = verbatim (written (byte c))
piece_of (quoted t) = verbatim (written (quoted t))
piece_of (word d t) = reference (d ∷ t) (written (word d t))
piece_of (named d t) = reference (d ∷ t) (written (named d t))

no_percent : is_ident_char b'%' ≡ false
unfolding is_ident_char is_ident_start
no_percent = refl

splice_name-named :
    (d : ℕ) (t rest : Bytes)
    → is_ident_start d ≡ true
    → All (λ c. is_ident_char c ≡ true) t
    → splice_name (((d ∷ t) ++ b'%' ∷ []) ++ rest) ≡ some (d ∷ t)
splice_name-named d t rest i h =
    ap (λ r. splice_name (d ∷ r)) (append_assoc t (b'%' ∷ []) rest)
    ∙ (unfold splice_name in
        rw
          (
            run_length-append is_ident_char t b'%' rest h no_percent,
            i,
            drop-length t (b'%' ∷ rest),
            take-length t (b'%' ∷ rest),
          )
          refl)

splice_name-lone : (r : Bytes) → IsLone r → splice_name r ≡ none
unfolding splice_name
splice_name-lone [] h = refl
splice_name-lone (d ∷ r) h = elim (Bool-cases (is_ident_start d)) [
  | inr i ↦ ground arith
  | inl i ↦ elim (Bool-cases (peek_byte (drop (scan_ident r) r) == b'%')) [
    | inr p ↦ ground arith
    | inl p ↦
        let behind = peek_byte-front (drop (scan_ident r) r) p in
        absurd (
          h d (take (scan_ident r) r) behind.0 i (run_length-All is_ident_char r) (
            ap (◌∷◌ d) (
              sym (take-append-drop (scan_ident r) r)
              ∙ ap (◌++◌ (take (scan_ident r) r)) behind.1)))
  ]
]

string_size :
    (t rest : Bytes)
    → IsStringBody t
    → scan_string_end ((t ++ b'"' ∷ []) ++ rest) ≡ length (t ++ b'"' ∷ [])
string_size t rest h =
    ap scan_string_end (append_assoc t (b'"' ∷ []) rest)
    ∙ scan_string_end-quoted t rest h
    ∙ omega (arith, length-append t (b'"' ∷ []))

piece_at-word :
    (d : ℕ) (r : Bytes)
    → is_ident_start d ≡ true
    → piece_at d r ≡ reference (d ∷ take (scan_ident r) r) (d ∷ take (scan_ident r) r)
unfolding piece_at is_ident_start
piece_at-word d r h = ground arith

piece_at-segment :
    (seg : Segment) (rest : Bytes)
    → IsSegment seg rest
    → piece_at (front seg) (back seg ++ rest) ≡ piece_of seg
unfolding IsSegment piece_at
piece_at-segment (byte c) rest h = elim (Bool-cases (c == b'%')) [
  | inl e ↦ ground (arith, splice_name-lone rest (h.2 e))
  | inr e ↦ ground arith
]
piece_at-segment (quoted t) rest h =
    ap (λ n. verbatim (b'"' ∷ take n ((t ++ b'"' ∷ []) ++ rest))) (string_size t rest h)
    ∙ ap (λ s. verbatim (b'"' ∷ s)) (take-length (t ++ b'"' ∷ []) rest)
piece_at-segment (word d t) rest (i, h, s) =
    piece_at-word d (t ++ rest) i
    ∙ ap (λ n. reference (d ∷ take n (t ++ rest)) (d ∷ take n (t ++ rest)))
        (run_length-whole is_ident_char t rest h s)
    ∙ ap (λ w. reference (d ∷ w) (d ∷ w)) (take-length t rest)
piece_at-segment (named d t) rest (i, h) = rw (splice_name-named d t rest i h) refl

drop-span :
    (seg : Segment) (rest : Bytes)
    → drop (length (span (piece_of seg))) (front seg ∷ (back seg ++ rest)) ≡ rest
drop-span (byte c) rest = refl
drop-span (quoted t) rest = drop-length (t ++ b'"' ∷ []) rest
drop-span (word d t) rest = drop-length t rest
drop-span (named d t) rest = drop-length ((d ∷ t) ++ b'%' ∷ []) rest

written-front :
    (seg : Segment) (rest : Bytes) → written seg ++ rest ≡ front seg ∷ (back seg ++ rest)
written-front (byte c) rest = refl
written-front (quoted t) rest = refl
written-front (word d t) rest = refl
written-front (named d t) rest = refl

substitute-meaning :
    (deeper : Option (Bytes → Expansion)) (macros : MacroTable) (seg : Segment)
    → substitute deeper macros (piece_of seg) ≡ meaning deeper macros seg
unfolding substitute
substitute-meaning deeper macros (byte c) = refl
substitute-meaning deeper macros (quoted t) = refl
substitute-meaning deeper macros (word d t) = ground arith
substitute-meaning deeper macros (named d t) = ground arith

module _ (deeper : Option (Bytes → Expansion)) (macros : MacroTable) where
  expand_loop-segment :
      (seg : Segment) (rest : Bytes) (fuel : ℕ)
      → IsSegment seg rest
      → expand_loop deeper macros (suc fuel) (front seg ∷ (back seg ++ rest))
        ≡ join (meaning deeper macros seg) (expand_loop deeper macros fuel rest)
  unfolding expand_loop
  expand_loop-segment seg rest fuel h =
      rw (piece_at-segment seg rest h, substitute-meaning deeper macros seg)
        (rw (drop-span seg rest) refl)

  expand_loop-end : (fuel : ℕ) → expand_loop deeper macros fuel [] ≡ expansion [] []
  unfolding expand_loop
  expand_loop-end zero = refl
  expand_loop-end (suc fuel) = refl

  expand_loop-written :
      (segs : List Segment) (fuel : ℕ)
      → IsText segs
      → length (text_of segs) ≤ fuel
      → expand_loop deeper macros fuel (text_of segs) ≡ text_meaning deeper macros segs
  expand_loop-written [] fuel h n = expand_loop-end fuel
  expand_loop-written (seg ∷ segs) zero h n =
      absurd (omega (arith, n, ap length (written-front seg (text_of segs))))
  expand_loop-written (seg ∷ segs) (suc fuel) h n =
      ap (expand_loop deeper macros (suc fuel)) (written-front seg (text_of segs))
      ∙ expand_loop-segment seg (text_of segs) fuel (h.0)
      ∙ ap (join (meaning deeper macros seg)) (
          expand_loop-written segs fuel (h.1) (
            omega (
              arith,
              n,
              ap length (written-front seg (text_of segs)),
              length-append (back seg) (text_of segs),
            )))

-- At every depth a text of strings, identifiers, `%name%` and other bytes, in which a `%` that is no
-- part of a reference begins none, is expanded piece by piece: strings, which may hold escapes, and other
-- bytes stay; an identifier or `%name%` that names a macro is replaced by the expansion of its body one
-- level down, with the reports of that, or stays and is reported where no level is left; one that names
-- none stays.
pub expand_impl-written :
    (macros : MacroTable) (left : ℕ) (segs : List Segment)
    → IsText segs
    → expand_impl macros left (text_of segs) ≡ text_meaning (below macros left) macros segs
unfolding expand_impl
expand_impl-written macros zero segs h =
    expand_loop-written none macros segs (length (text_of segs)) h (omega arith)
expand_impl-written macros (suc left) segs h =
    expand_loop-written (below macros (suc left)) macros segs (length (text_of segs)) h
      (omega arith)
