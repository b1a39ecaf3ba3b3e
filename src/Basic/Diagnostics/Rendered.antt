-- ===== src/Basic/Diagnostics/Rendered.antt =====
-- The order in which diagnostics are rendered.
use nslc.Basic.Diagnostics.Defs.{
  Severity, note, warning, error, rank, Diagnostic, diag_less, place, sorted,
}
use nslc.Basic.Location.{before}
use nslc.Prelude.{
  ◌<◌, ◌≡◌, ◌⊎◌, refl, ◌∙◌, ◌==◌, ltb, Bool, true, false, ◌&&◌, List, [], ◌∷◌, if◌then◌else◌, arith,
  All, All-mono, Bool-cases, inl, inr,
}

-- Of one severity.
unfoldable pub same_severity : Severity → Severity → Bool
same_severity note note = true
same_severity warning warning = true
same_severity error error = true
same_severity _ _ = false

-- A note goes before a warning, and a warning before an error.
pub data IsMilder : Severity → Severity → Type 0 where
  note_warning : IsMilder note warning
  note_error : IsMilder note error
  warning_error : IsMilder warning error

-- The order of the rendering: by location, and at one location by severity.
pub data InOrder (a b : Diagnostic) : Type 0 where
  by_location : a.loc.bits < b.loc.bits → InOrder a b
  by_severity : a.loc.bits ≡ b.loc.bits → IsMilder a.severity b.severity → InOrder a b
  tied : a.loc.bits ≡ b.loc.bits → a.severity ≡ b.severity → InOrder a b

-- Of one location and one severity.
unfoldable pub same_key : Diagnostic → Diagnostic → Bool
same_key a b = (a.loc.bits == b.loc.bits) && same_severity a.severity b.severity

unfoldable pub only : Diagnostic → List Diagnostic → List Diagnostic
only x [] = []
only x (d ∷ ds) = let rest = only x ds in if same_key x d then d ∷ rest else rest

unfoldable pub IsSorted : List Diagnostic → Type 0
IsSorted [] = Unit
IsSorted (d ∷ ds) = All (InOrder d) ds × IsSorted ds

severity-cases : (s t : Severity) → (rank t < rank s) ⊎ ((s ≡ t) ⊎ IsMilder s t)
severity-cases note note = inr (inl refl)
severity-cases note warning = inr (inr note_warning)
severity-cases note error = inr (inr note_error)
severity-cases warning note = inl (omega arith)
severity-cases warning warning = inr (inl refl)
severity-cases warning error = inr (inr warning_error)
severity-cases error note = inl (omega arith)
severity-cases error warning = inl (omega arith)
severity-cases error error = inr (inl refl)

same_severity-rank : (s t : Severity) → same_severity s t ≡ true → rank s ≡ rank t
unfolding same_severity
same_severity-rank note note e = refl
same_severity-rank note warning e = cc
same_severity-rank note error e = cc
same_severity-rank warning note e = cc
same_severity-rank warning warning e = refl
same_severity-rank warning error e = cc
same_severity-rank error note e = cc
same_severity-rank error warning e = cc
same_severity-rank error error e = refl

same_key-parts :
    (a b : Diagnostic)
    → same_key a b ≡ true
    → (a.loc.bits ≡ b.loc.bits) × (rank a.severity ≡ rank b.severity)
unfolding same_key
same_key-parts a b e = (ground arith, same_severity-rank a.severity b.severity (ground arith))

-- What does not go before a diagnostic is in order behind it.
diag_less-InOrder : (d e : Diagnostic) → diag_less e d ≡ false → InOrder d e
unfolding diag_less before
diag_less-InOrder d e h = elim (severity-cases d.severity e.severity) [
  | inl worse ↦ by_location (ground arith)
  | inr (inl same) ↦ elim (Bool-cases (ltb d.loc.bits e.loc.bits)) [
    | inl l ↦ by_location (ground arith)
    | inr l ↦ tied (ground arith) same
  ]
  | inr (inr milder) ↦ elim (Bool-cases (ltb d.loc.bits e.loc.bits)) [
    | inl l ↦ by_location (ground arith)
    | inr l ↦ by_severity (ground arith) milder
  ]
]

asym : (a b : Diagnostic) → diag_less a b ≡ true → diag_less b a ≡ false
unfolding diag_less before
asym a b h = ground arith

trans : (a b c : Diagnostic) → diag_less b a ≡ false → diag_less c b ≡ false → diag_less c a ≡ false
unfolding diag_less before
trans a b c h k = ground arith

apart : (x a b : Diagnostic) → diag_less a b ≡ true → same_key x a ≡ true → same_key x b ≡ false
unfolding diag_less before
apart x a b h k = elim (Bool-cases (same_key x b)) [
  | inl e ↦ ground (arith, same_key-parts x a k, same_key-parts x b e)
  | inr e ↦ e
]

only-place : (x d : Diagnostic) (es : List Diagnostic) → only x (place d es) ≡ only x (d ∷ es)
unfolding only place
only-place x d [] = refl
only-place x d (e ∷ es) = ground (arith, only-place x d es, apart x e d)

All-place :
    (P : Diagnostic → Type 0) (d : Diagnostic) (es : List Diagnostic)
    → P d
    → All P es
    → All P (place d es)
unfolding place
All-place P d [] p a = (p, tt)
All-place P d (e ∷ es) p a = ground (arith, All-place P d es p (a.1))

-- The list in the order of the test that the sort makes.
Placed : List Diagnostic → Type 0
Placed [] = Unit
Placed (d ∷ ds) = All (λ e. diag_less e d ≡ false) ds × Placed ds

place-Placed : (d : Diagnostic) (es : List Diagnostic) → Placed es → Placed (place d es)
unfolding place Placed
place-Placed d [] s = (tt, tt)
place-Placed d (e ∷ es) s = elim (Bool-cases (diag_less e d)) [
  | inl h ↦
      rw h (All-place (λ f. diag_less f e ≡ false) d es (asym e d h) (s.0), place-Placed d es (s.1))
  | inr h ↦ rw h ((h, All-mono _ _ (λ f. trans d e f h) es (s.0)), s)
]

sorted-Placed : (ds : List Diagnostic) → Placed (sorted ds)
unfolding sorted
sorted-Placed [] = unfold Placed in tt
sorted-Placed (d ∷ ds) = place-Placed d (sorted ds) (sorted-Placed ds)

Placed-IsSorted : (ds : List Diagnostic) → Placed ds → IsSorted ds
unfolding Placed IsSorted
Placed-IsSorted [] s = tt
Placed-IsSorted (d ∷ ds) s =
    (All-mono _ _ (λ e. diag_less-InOrder d e) ds (s.0), Placed-IsSorted ds (s.1))

only-cons :
    (x d : Diagnostic) (ds es : List Diagnostic)
    → only x ds ≡ only x es
    → only x (d ∷ ds) ≡ only x (d ∷ es)
unfolding only
only-cons x d ds es h = rw h refl

only-sorted : (x : Diagnostic) (ds : List Diagnostic) → only x (sorted ds) ≡ only x ds
unfolding sorted
only-sorted x [] = refl
only-sorted x (d ∷ ds) =
    only-place x d (sorted ds) ∙ only-cons x d (sorted ds) ds (only-sorted x ds)

-- Diagnostics are rendered by location and at one location by severity, notes before warnings before
-- errors; and those that agree in both, each as often as it was reported, in the order of the reports.
pub sorted_lem :
    (ds : List Diagnostic)
    → IsSorted (sorted ds) × ((x : Diagnostic) → only x (sorted ds) ≡ only x ds)
sorted_lem ds = (Placed-IsSorted (sorted ds) (sorted-Placed ds), λ x. only-sorted x ds)
