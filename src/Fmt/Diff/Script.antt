-- ===== src/Fmt/Diff/Script.antt =====
-- An edit script between two lists of lines, and the proof that `traceDiff` gives one, whatever the
-- table holds.
use mathlib.Core.List.{reverse, reverse-cons}
use nslc.Fmt.Diff.Defs.{
  LcsTable, at, line_at, context, removed, added, Edit, edit, walk, trace_diff,
}
use nslc.Prelude.{
  ℕ, zero, suc, ◌≤◌, ◌<◌, ◌≡◌, refl, sym, ap, ◌∙◌, Bytes, List, [], ◌∷◌, ◌++◌, ltb, bytes_eq,
  bytes_eq_iff, take, length, append-nil, arith, Bool-cases, inl, inr,
}

-- The lines that an edit script reads and the lines that it leaves.
unfoldable pub old_lines : List Edit → List Bytes
old_lines [] = []
old_lines (e ∷ es) =
    let rest = old_lines es in
    elim e.kind [ context ↦ e.text ∷ rest | removed ↦ e.text ∷ rest | added ↦ rest ]

unfoldable pub new_lines : List Edit → List Bytes
new_lines [] = []
new_lines (e ∷ es) =
    let rest = new_lines es in
    elim e.kind [ context ↦ e.text ∷ rest | removed ↦ rest | added ↦ e.text ∷ rest ]

-- A script from the first `i` lines of `a` to the first `j` of `b`, its last edit first.
pub data Back (a b : List Bytes) : ℕ → ℕ → List Edit → Type 0 where
  start : Back a b 0 0 []
  keep :
      {i j : ℕ} {es : List Edit}
      → line_at a i ≡ line_at b j
      → Back a b i j es
      → Back a b (suc i) (suc j) (edit context (line_at a i) ∷ es)
  remove :
      {i j : ℕ} {es : List Edit}
      → Back a b i j es
      → Back a b (suc i) j (edit removed (line_at a i) ∷ es)
  add :
      {i j : ℕ} {es : List Edit}
      → Back a b i j es
      → Back a b i (suc j) (edit added (line_at b j) ∷ es)

walk-Back : (l : LcsTable) (a b : List Bytes) (i j : ℕ) → Back a b i j (walk l a b i j)
unfolding walk
walk-Back l a b zero zero = start
walk-Back l a b (suc i) zero = remove (walk-Back l a b i zero)
walk-Back l a b zero (suc j) = add (walk-Back l a b zero j)
walk-Back l a b (suc i) (suc j) = elim (Bool-cases (bytes_eq (line_at a i) (line_at b j))) [
  | inl e ↦ rw (e, walk) (keep ((bytes_eq_iff _ _).0 e) (walk-Back l a b i j))
  | inr e ↦ elim (Bool-cases (ltb (at l (suc i) j) (at l i (suc j)))) [
    | inl t ↦ rw (e, walk) (rw (t, walk) (remove (walk-Back l a b i (suc j))))
    | inr t ↦ rw (e, walk) (rw (t, walk) (add (walk-Back l a b (suc i) j)))
  ]
]

old_lines-append : (es fs : List Edit) → old_lines (es ++ fs) ≡ old_lines es ++ old_lines fs
unfolding old_lines
old_lines-append [] fs = refl
old_lines-append (e ∷ es) fs = ground (arith, old_lines-append es fs)

new_lines-append : (es fs : List Edit) → new_lines (es ++ fs) ≡ new_lines es ++ new_lines fs
unfolding new_lines
new_lines-append [] fs = refl
new_lines-append (e ∷ es) fs = ground (arith, new_lines-append es fs)

take-suc : (a : List Bytes) (i : ℕ) → i < length a → take (suc i) a ≡ take i a ++ line_at a i ∷ []
take-suc [] i h = absurd (omega arith)
take-suc (x ∷ a) zero h = refl
take-suc (x ∷ a) (suc i) h = ap (◌∷◌ x) (take-suc a i (omega arith))

take-length : (a : List Bytes) → take (length a) a ≡ a
take-length [] = refl
take-length (x ∷ a) = ap (◌∷◌ x) (take-length a)

old_lines-last :
    (es : List Edit) (e : Edit)
    → old_lines (reverse (e ∷ es)) ≡ old_lines (reverse es) ++ old_lines (e ∷ [])
old_lines-last es e = ap old_lines (reverse-cons e es) ∙ old_lines-append (reverse es) (e ∷ [])

new_lines-last :
    (es : List Edit) (e : Edit)
    → new_lines (reverse (e ∷ es)) ≡ new_lines (reverse es) ++ new_lines (e ∷ [])
new_lines-last es e = ap new_lines (reverse-cons e es) ∙ new_lines-append (reverse es) (e ∷ [])

-- The script between the first lines, read forwards.
Back-lines :
    (a b : List Bytes) {i j : ℕ} {es : List Edit}
    → Back a b i j es
    → i ≤ length a
    → j ≤ length b
    → (old_lines (reverse es) ≡ take i a) × (new_lines (reverse es) ≡ take j b)
unfolding old_lines new_lines
Back-lines a b start hi hj = (refl, refl)
Back-lines a b (keep {i} {j} {es} e r) hi hj =
    let ih = Back-lines a b r (omega arith) (omega arith) in
    (
      old_lines-last es _ ∙ ap (λ xs. xs ++ line_at a i ∷ []) (ih.0) ∙ sym (take-suc a i hi),
      new_lines-last es _
          ∙ ap (λ xs. xs ++ line_at a i ∷ []) (ih.1)
          ∙ ap (λ x. take j b ++ x ∷ []) e
          ∙ sym (take-suc b j hj),
    )
Back-lines a b (remove {i} {j} {es} r) hi hj =
    let ih = Back-lines a b r (omega arith) (omega arith) in
    (
      old_lines-last es _ ∙ ap (λ xs. xs ++ line_at a i ∷ []) (ih.0) ∙ sym (take-suc a i hi),
      new_lines-last es _ ∙ append-nil _ ∙ ih.1,
    )
Back-lines a b (add {i} {j} {es} r) hi hj =
    let ih = Back-lines a b r (omega arith) (omega arith) in
    (
      old_lines-last es _ ∙ append-nil _ ∙ ih.0,
      new_lines-last es _ ∙ ap (λ xs. xs ++ line_at b j ∷ []) (ih.1) ∙ sym (take-suc b j hj),
    )

-- Whatever the table holds, the edits that `traceDiff` returns read the old lines and leave the new
-- ones: without the added lines they are the old text, without the removed lines the new text, all
-- in order. The table has the sizes of the two texts.
pub trace_diff-lines :
    (l : LcsTable) (a b : List Bytes)
    → l.n ≡ length a
    → l.m ≡ length b
    → (old_lines (trace_diff l a b) ≡ a) × (new_lines (trace_diff l a b) ≡ b)
unfolding trace_diff
trace_diff-lines l a b n m =
    let ls = Back-lines a b (walk-Back l a b l.n l.m) (omega (arith, n)) (omega (arith, m)) in
    (ls.0 ∙ ap (λ i. take i a) n ∙ take-length a, ls.1 ∙ ap (λ j. take j b) m ∙ take-length b)
