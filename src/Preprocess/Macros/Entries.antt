-- ===== src/Preprocess/Macros/Entries.antt =====
-- How appending, overwriting and erasing an entry act on a search, on the names and their order.
use nslc.Basic.Location.{SourceRange}
use nslc.Prelude.{
  Bytes, true, List, [], ◌∷◌, ◌++◌, none, some, if◌then◌else◌, bytes_eq, bytes_eq_iff, ◌≡◌, refl,
  ap, ◌∙◌, arith, inl, inr, Bool-cases,
}
use nslc.Preprocess.Macros.Defs.{MacroDef, macro_def, MacroTable, lookup, overwrite, erase}

-- No two entries have one name.
unfoldable pub Distinct : MacroTable → Type 0
Distinct [] = Unit
Distinct (d ∷ entries) = (lookup entries d.name ≡ none) × Distinct entries

pub lookup-eq : (entries : MacroTable) {a b : Bytes} → a ≡ b → lookup entries a ≡ lookup entries b
lookup-eq entries e = ap (lookup entries) e

pub bytes_eq_comm : (a b : Bytes) → bytes_eq a b ≡ bytes_eq b a
unfolding bytes_eq
bytes_eq_comm (x ∷ a) (y ∷ b) = ground (arith, bytes_eq_comm a b)
bytes_eq_comm [] [] = refl
bytes_eq_comm [] (y ∷ b) = refl
bytes_eq_comm (x ∷ a) [] = refl

pub bytes_eq-left : (a b : Bytes) → bytes_eq a b ≡ true → (n : Bytes) → bytes_eq a n ≡ bytes_eq b n
bytes_eq-left a b e n = ap (λ x. bytes_eq x n) ((bytes_eq_iff a b).0 e)

pub bytes_eq-right : (a b : Bytes) → bytes_eq a b ≡ true → (n : Bytes) → bytes_eq n a ≡ bytes_eq n b
bytes_eq-right a b e n = ap (bytes_eq n) ((bytes_eq_iff a b).0 e)

pub lookup-append :
    (entries : MacroTable) (d : MacroDef) (n : Bytes)
    → lookup (entries ++ d ∷ []) n ≡ elim (lookup entries n) [
      | some e ↦ some e
      | none ↦ if bytes_eq d.name n then some d else none
    ]
unfolding lookup
lookup-append [] d n = refl
lookup-append (e ∷ entries) d n = ground (arith, lookup-append entries d n)

pub Distinct-append :
    (entries : MacroTable) (d : MacroDef)
    → Distinct entries
    → lookup entries d.name ≡ none
    → Distinct (entries ++ d ∷ [])
unfolding Distinct lookup
Distinct-append [] d w f = (refl, tt)
Distinct-append (e ∷ entries) d w f = (
  ground (arith, lookup-append entries d e.name, bytes_eq_comm d.name e.name, w.0),
  Distinct-append entries d (w.1) (ground arith),
)

pub lookup-overwrite :
    (entries : MacroTable) (name body : Bytes) (loc : SourceRange) (n : Bytes) (d : MacroDef)
    → lookup entries name ≡ some d
    → lookup (overwrite entries name body loc) n
      ≡ (if bytes_eq name n then some (macro_def name body loc) else lookup entries n)
unfolding lookup overwrite
lookup-overwrite [] name body loc n d e = ground arith
lookup-overwrite (x ∷ entries) name body loc n d e = elim (Bool-cases (bytes_eq x.name name)) [
  | inl t ↦ ground (arith, bytes_eq-left x.name name t n, (bytes_eq_iff x.name name).0 t)
  | inr t ↦ elim (Bool-cases (bytes_eq name n)) [
    | inl s ↦ ground (
      arith,
      lookup-overwrite entries name body loc n d (ground arith),
      bytes_eq-right name n s x.name,
    )
    | inr s ↦ ground (arith, lookup-overwrite entries name body loc n d (ground arith))
  ]
]

pub lookup-erase :
    (entries : MacroTable) (name n : Bytes)
    → Distinct entries
    → lookup (erase entries name) n ≡ (if bytes_eq name n then none else lookup entries n)
unfolding lookup erase Distinct
lookup-erase [] name n w = ground arith
lookup-erase (d ∷ entries) name n w = elim (Bool-cases (bytes_eq d.name name)) [
  | inl t ↦ elim (Bool-cases (bytes_eq name n)) [
    | inl s ↦ ground (
      arith,
      bytes_eq-left d.name name t n,
      lookup-eq entries ((bytes_eq_iff d.name name).0 t ∙ (bytes_eq_iff name n).0 s),
      w.0,
    )
    | inr s ↦ ground (arith, bytes_eq-left d.name name t n)
  ]
  | inr t ↦ elim (Bool-cases (bytes_eq name n)) [
    | inl s ↦ ground (arith, lookup-erase entries name n (w.1), bytes_eq-right name n s d.name)
    | inr s ↦ ground (arith, lookup-erase entries name n (w.1))
  ]
]

abbrev pub names : MacroTable → List Bytes
names [] = []
names (d ∷ entries) = d.name ∷ names entries

pub names-overwrite :
    (entries : MacroTable) (name body : Bytes) (loc : SourceRange)
    → names (overwrite entries name body loc) ≡ names entries
unfolding overwrite
names-overwrite [] name body loc = refl
names-overwrite (d ∷ entries) name body loc = ground (arith, names-overwrite entries name body loc)

pub names-append :
    (entries : MacroTable) (d : MacroDef) → names (entries ++ d ∷ []) ≡ names entries ++ d.name ∷ []
names-append [] d = refl
names-append (e ∷ entries) d = ap (◌∷◌ e.name) (names-append entries d)

pub overwrite-none :
    (entries : MacroTable) (name body : Bytes) (loc : SourceRange) (m : Bytes)
    → lookup entries m ≡ none
    → lookup (overwrite entries name body loc) m ≡ none
unfolding lookup overwrite
overwrite-none [] name body loc m e = refl
overwrite-none (d ∷ entries) name body loc m e =
    ground (arith, overwrite-none entries name body loc m (ground arith))

pub erase-none :
    (entries : MacroTable) (name m : Bytes)
    → lookup entries m ≡ none
    → lookup (erase entries name) m ≡ none
unfolding lookup erase
erase-none [] name m e = refl
erase-none (d ∷ entries) name m e = ground (arith, erase-none entries name m (ground arith))

pub Distinct-overwrite :
    (entries : MacroTable) (name body : Bytes) (loc : SourceRange)
    → Distinct entries
    → Distinct (overwrite entries name body loc)
unfolding overwrite Distinct
Distinct-overwrite [] name body loc w = tt
Distinct-overwrite (d ∷ entries) name body loc w = elim (Bool-cases (bytes_eq d.name name)) [
  | inl t ↦ rw t w
  | inr t ↦ rw t (
    overwrite-none entries name body loc d.name (w.0),
    Distinct-overwrite entries name body loc (w.1),
  )
]

pub Distinct-erase :
    (entries : MacroTable) (name : Bytes) → Distinct entries → Distinct (erase entries name)
unfolding erase Distinct
Distinct-erase [] name w = tt
Distinct-erase (d ∷ entries) name w = elim (Bool-cases (bytes_eq d.name name)) [
  | inl t ↦ rw t (w.1)
  | inr t ↦ rw t (erase-none entries name d.name (w.0), Distinct-erase entries name (w.1))
]
