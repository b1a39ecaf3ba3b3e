-- ===== src/Preprocess/Splicer/Plain.antt =====
-- A line written piece by piece, and what the splicer makes of it.
use nslc.Basic.Diagnostics.{DiagnosticEngine}
use nslc.Basic.Location.{SourceLocation}
use nslc.Basic.Manager.{SourceManager}
use nslc.Preprocess.Directives.{is_name_body, is_name_start}
use nslc.Preprocess.Expander.Strings.{IsStringBody, scan_string_end-quoted, peek_byte-front}
use nslc.Preprocess.Expander.{scan_string_end, Piece, verbatim, reference, span}
use nslc.Preprocess.Macros.{MacroDef, MacroTable, lookup}
use nslc.Preprocess.Splicer.Defs.{
  Expressions, spliced, comment_end, spliced_name, line_piece, needs_reduction, splice_piece,
  splice_loop, splice,
}
use nslc.Prelude.{
  ℕ, zero, suc, ◌+◌, ◌≤◌, ◌≡◌, refl, sym, ap, ◌∙◌, Bytes, Bool, true, false, ◌&&◌, ◌||◌, List, [],
  ◌∷◌, ◌++◌, append_assoc, append-nil, Option, none, some, ◌==◌, ltb, peek_byte, take, drop, length,
  length-append, length-take, take-append-drop, take-length, drop-length, run_length,
  run_length-append, run_length-All, run_length-le, Bool-cases, inl, inr, All, arith,
}

-- A byte that begins nothing where it stands, a string, a block comment, and a reference.
pub data Segment : Type 0 where
  byte : ℕ → Segment
  quoted comment splice_of : Bytes → Segment

abbrev pub written : Segment → Bytes
written (byte c) = c ∷ []
written (quoted t) = b'"' ∷ (t ++ b'"' ∷ [])
written (comment t) = b'/' ∷ b'*' ∷ (t ++ b'*' ∷ b'/' ∷ [])
written (splice_of name) = b'%' ∷ (name ++ b'%' ∷ [])

-- The segments, and a line comment at the end or none.
abbrev pub tail_text : Option Bytes → Bytes
tail_text none = []
tail_text (some t) = b'/' ∷ b'/' ∷ t

abbrev pub line_text : List Segment → Option Bytes → Bytes
line_text [] end = tail_text end
line_text (seg ∷ segs) end = written seg ++ line_text segs end

abbrev pub body_or : Bytes → Option MacroDef → Bytes
body_or text none = text
body_or text (some d) = d.body

abbrev pub meaning : MacroTable → Segment → Bytes
meaning macros (byte c) = written (byte c)
meaning macros (quoted t) = written (quoted t)
meaning macros (comment t) = written (comment t)
meaning macros (splice_of name) = body_or (written (splice_of name)) (lookup macros name)

abbrev pub line_meaning : MacroTable → List Segment → Option Bytes → Bytes
line_meaning macros [] end = tail_text end
line_meaning macros (seg ∷ segs) end = meaning macros seg ++ line_meaning macros segs end

-- A name has a body that is spliced as it stands.
pub record IsSpliceable (macros : MacroTable) (name : Bytes) : Type 0 where
  pub is_name : All (λ c. is_name_body c ≡ true) name
  pub is_not_empty : ltb 0 (length name) ≡ true
  pub def : MacroDef
  pub is_defined : lookup macros name ≡ some def
  pub is_text : needs_reduction def.body ≡ false

-- Whether `*/` occurs.
unfoldable pub has_end : Bytes → Bool
has_end [] = false
has_end (c ∷ []) = false
has_end (c ∷ d ∷ r) = (c == b'*' && d == b'/') || has_end (d ∷ r)

-- Behind a `%` no name and closing `%` follow.
abbrev pub IsLone : Bytes → Type 0
IsLone rest =
    (name after : Bytes)
    → All (λ c. is_name_body c ≡ true) name
    → ltb 0 (length name) ≡ true
    → rest ≡ name ++ b'%' ∷ after
    → ⊥

-- A segment in front of the text `rest`: `/` and `%` are operators unless they begin a comment or a
-- reference.
unfoldable pub IsSegment : MacroTable → Segment → Bytes → Type 0
IsSegment macros (byte c) rest =
    ((c == b'"') ≡ false)
    × ((c == b'/' && (peek_byte rest == b'/' || peek_byte rest == b'*')) ≡ false)
    × ((c == b'%') ≡ true → IsLone rest)
IsSegment macros (quoted t) rest = IsStringBody t
IsSegment macros (comment t) rest = has_end (t ++ b'*' ∷ []) ≡ false
IsSegment macros (splice_of name) rest = IsSpliceable macros name

abbrev pub IsLine : MacroTable → List Segment → Option Bytes → Type 0
IsLine macros [] end = Unit
IsLine macros (seg ∷ segs) end = IsSegment macros seg (line_text segs end) × IsLine macros segs end

comment_end-comment :
    (t rest : Bytes)
    → has_end (t ++ b'*' ∷ []) ≡ false
    → comment_end (t ++ b'*' ∷ b'/' ∷ rest) ≡ length t + 2
unfolding comment_end has_end
comment_end-comment [] rest h = refl
comment_end-comment (c ∷ []) rest h = ground (arith, comment_end-comment [] rest refl)
comment_end-comment (c ∷ d ∷ t) rest h =
    ground (arith, comment_end-comment (d ∷ t) rest (ground arith))

spliced_name-found :
    (r : Bytes)
    → (peek_byte (drop (run_length is_name_body r) r) == b'%') ≡ true
    → (after : Bytes) × (r ≡ take (run_length is_name_body r) r ++ b'%' ∷ after)
spliced_name-found r e =
    let behind = peek_byte-front (drop (run_length is_name_body r) r) e in
    (
      behind.0,
      sym (take-append-drop (run_length is_name_body r) r)
          ∙ ap (◌++◌ (take (run_length is_name_body r) r)) behind.1,
    )

spliced_name-lone : (r : Bytes) → IsLone r → spliced_name r ≡ none
unfolding spliced_name
spliced_name-lone r h = elim (Bool-cases (ltb 0 (run_length is_name_body r))) [
  | inr e ↦ ground arith
  | inl e ↦ elim (Bool-cases (peek_byte (drop (run_length is_name_body r) r) == b'%')) [
    | inr p ↦ ground arith
    | inl p ↦
        let found = spliced_name-found r p in
        absurd (
          h (take (run_length is_name_body r) r) found.0 (run_length-All is_name_body r)
            (ground
              (arith, length-take (run_length is_name_body r) r, run_length-le is_name_body r))
            found.1)
  ]
]

-- The first byte of a segment and the others.
abbrev front : Segment → ℕ
front seg = peek_byte (written seg)

abbrev back : Segment → Bytes
back seg = drop 1 (written seg)

abbrev piece_of : Segment → Piece
piece_of (byte c) = verbatim (written (byte c))
piece_of (quoted t) = verbatim (written (quoted t))
piece_of (comment t) = verbatim (written (comment t))
piece_of (splice_of name) = reference name (written (splice_of name))

string_size :
    (t rest : Bytes)
    → IsStringBody t
    → scan_string_end ((t ++ b'"' ∷ []) ++ rest) ≡ length (t ++ b'"' ∷ [])
string_size t rest h =
    ap scan_string_end (append_assoc t (b'"' ∷ []) rest)
    ∙ scan_string_end-quoted t rest h
    ∙ omega (arith, length-append t (b'"' ∷ []))

comment_size :
    (t rest : Bytes)
    → has_end (t ++ b'*' ∷ []) ≡ false
    → comment_end ((t ++ b'*' ∷ b'/' ∷ []) ++ rest) ≡ length (t ++ b'*' ∷ b'/' ∷ [])
comment_size t rest h =
    ap comment_end (append_assoc t (b'*' ∷ b'/' ∷ []) rest)
    ∙ comment_end-comment t rest h
    ∙ omega (arith, length-append t (b'*' ∷ b'/' ∷ []))

spliced_name-closed :
    (name rest : Bytes)
    → All (λ c. is_name_body c ≡ true) name
    → ltb 0 (length name) ≡ true
    → spliced_name ((name ++ b'%' ∷ []) ++ rest) ≡ some name
spliced_name-closed name rest h k =
    ap spliced_name (append_assoc name (b'%' ∷ []) rest)
    ∙ (unfold spliced_name in
        rw
          (
            run_length-append is_name_body name b'%' rest h
                (unfold is_name_body is_name_start in refl),
            k,
            drop-length name (b'%' ∷ rest),
            take-length name (b'%' ∷ rest),
          )
          refl)

line_piece-segment :
    (macros : MacroTable) (seg : Segment) (rest : Bytes)
    → IsSegment macros seg rest
    → line_piece (front seg) (back seg ++ rest) ≡ piece_of seg
unfolding line_piece IsSegment
line_piece-segment macros (byte c) rest h = elim (Bool-cases (c == b'%')) [
  | inl e ↦ ground (arith, spliced_name-lone rest (h.2 e))
  | inr e ↦ ground arith
]
line_piece-segment macros (quoted t) rest h =
    ap (λ n. verbatim (b'"' ∷ take n ((t ++ b'"' ∷ []) ++ rest))) (string_size t rest h)
    ∙ ap (λ s. verbatim (b'"' ∷ s)) (take-length (t ++ b'"' ∷ []) rest)
line_piece-segment macros (comment t) rest h =
    ap (λ n. verbatim (b'/' ∷ b'*' ∷ take n ((t ++ b'*' ∷ b'/' ∷ []) ++ rest)))
      (comment_size t rest h)
    ∙ ap (λ s. verbatim (b'/' ∷ b'*' ∷ s)) (take-length (t ++ b'*' ∷ b'/' ∷ []) rest)
line_piece-segment macros (splice_of name) rest h =
    rw (spliced_name-closed name rest h.is_name h.is_not_empty) refl

drop-span :
    (seg : Segment) (rest : Bytes)
    → drop (length (span (piece_of seg))) (front seg ∷ (back seg ++ rest)) ≡ rest
drop-span (byte c) rest = refl
drop-span (quoted t) rest = drop-length (t ++ b'"' ∷ []) rest
drop-span (comment t) rest = drop-length (t ++ b'*' ∷ b'/' ∷ []) rest
drop-span (splice_of name) rest = drop-length (name ++ b'%' ∷ []) rest

length-rest :
    (seg : Segment) (rest : Bytes) (fuel : ℕ)
    → length (written seg ++ rest) ≤ suc fuel
    → length rest ≤ fuel
length-rest (byte c) rest fuel h = omega (arith, h)
length-rest (quoted t) rest fuel h = omega (arith, h, length-append (t ++ b'"' ∷ []) rest)
length-rest (comment t) rest fuel h = omega (arith, h, length-append (t ++ b'*' ∷ b'/' ∷ []) rest)
length-rest (splice_of name) rest fuel h = omega (arith, h, length-append (name ++ b'%' ∷ []) rest)

written-front :
    (seg : Segment) (rest : Bytes) → written seg ++ rest ≡ front seg ∷ (back seg ++ rest)
written-front (byte c) rest = refl
written-front (quoted t) rest = refl
written-front (comment t) rest = refl
written-front (splice_of name) rest = refl

length-written : (seg : Segment) (rest : Bytes) → length (written seg ++ rest) ≤ 0 → ⊥
length-written (byte c) rest h = omega (arith, h)
length-written (quoted t) rest h = omega (arith, h)
length-written (comment t) rest h = omega (arith, h)
length-written (splice_of name) rest h = omega (arith, h)

drop-all : (t : Bytes) → drop (length t) t ≡ []
drop-all t = ap (drop (length t)) (sym (append-nil t)) ∙ drop-length t []

module _ (exprs : Expressions) (sm : SourceManager) (macros : MacroTable)
    (line_loc : SourceLocation) where
  splice_piece-segment :
      (seg : Segment) (rest : Bytes) (at : ℕ) (engine : DiagnosticEngine)
      → IsSegment macros seg rest
      → splice_piece exprs sm macros line_loc at engine (piece_of seg)
        ≡ some (spliced (meaning macros seg) engine)
  unfolding splice_piece IsSegment
  splice_piece-segment (byte c) rest at engine h = refl
  splice_piece-segment (quoted t) rest at engine h = refl
  splice_piece-segment (comment t) rest at engine h = refl
  splice_piece-segment (splice_of name) rest at engine h = ground (arith, h.is_defined, h.is_text)

  -- One round, from what the rest of the loop gives.
  loop-round :
      (seg : Segment) (rest out : Bytes) (fuel at : ℕ) (engine : DiagnosticEngine)
      → IsSegment macros seg rest
      → ((at : ℕ)
          → splice_loop exprs sm macros line_loc fuel at engine rest ≡ some (spliced out engine))
      → splice_loop exprs sm macros line_loc (suc fuel) at engine (front seg ∷ (back seg ++ rest))
        ≡ some (spliced (meaning macros seg ++ out) engine)
  unfolding splice_loop
  loop-round seg rest out fuel at engine h k =
      rw (line_piece-segment macros seg rest h, splice_piece-segment seg rest at engine h)
        (rw (drop-span seg rest, k (at + length (span (piece_of seg)))) refl)

  loop-end :
      (fuel at : ℕ) (engine : DiagnosticEngine)
      → splice_loop exprs sm macros line_loc fuel at engine [] ≡ some (spliced [] engine)
  unfolding splice_loop
  loop-end zero at engine = refl
  loop-end (suc fuel) at engine = refl

  loop-tail :
      (end : Option Bytes) (fuel at : ℕ) (engine : DiagnosticEngine)
      → length (tail_text end) ≤ fuel
      → splice_loop exprs sm macros line_loc fuel at engine (tail_text end)
        ≡ some (spliced (tail_text end) engine)
  unfolding splice_loop splice_piece line_piece
  loop-tail none zero at engine h = refl
  loop-tail none (suc fuel) at engine h = refl
  loop-tail (some t) zero at engine h = elim h [ ]
  loop-tail (some t) (suc fuel) at engine h =
      rw
        (
          drop-all t,
          loop-end fuel (at + length (span (line_piece b'/' (b'/' ∷ t)))) engine,
          append-nil t,
        )
        refl

  loop-written :
      (segs : List Segment) (end : Option Bytes) (fuel at : ℕ) (engine : DiagnosticEngine)
      → IsLine macros segs end
      → length (line_text segs end) ≤ fuel
      → splice_loop exprs sm macros line_loc fuel at engine (line_text segs end)
        ≡ some (spliced (line_meaning macros segs end) engine)
  loop-written [] end fuel at engine h n = loop-tail end fuel at engine n
  loop-written (seg ∷ segs) end zero at engine h n =
      elim (length-written seg (line_text segs end) n) [ ]
  loop-written (seg ∷ segs) end (suc fuel) at engine h n =
      ap (splice_loop exprs sm macros line_loc (suc fuel) at engine)
        (written-front seg (line_text segs end))
      ∙ loop-round seg (line_text segs end) (line_meaning macros segs end) fuel at engine (h.0)
          (λ at.
            loop-written segs end fuel at engine (h.1)
              (length-rest seg (line_text segs end) fuel n))

  -- A line of closed strings, closed comments, references to macros whose bodies hold no helper call and
  -- no float, other bytes, and at its end a line comment or none, is spliced to the same line with each
  -- such reference replaced by the body, strings and comments as they stand, and nothing is reported. A
  -- string may hold escapes and a comment stars; `/` and `%` pass where no comment and no `%name%` begins.
  pub splice_lem :
      (segs : List Segment) (end : Option Bytes) (engine : DiagnosticEngine)
      → IsLine macros segs end
      → splice exprs sm macros line_loc engine (line_text segs end)
        ≡ some (spliced (line_meaning macros segs end) engine)
  unfolding splice
  splice_lem segs end engine h =
      loop-written segs end (length (line_text segs end)) 0 engine h (omega arith)
