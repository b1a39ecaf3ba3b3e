-- ===== src/Preprocess/Macros/Laws.antt =====
-- The table as a map from names to macros.
use nslc.Basic.Location.{SourceRange}
use nslc.Prelude.{
  Bytes, true, false, [], ◌∷◌, ◌++◌, none, some, if◌then◌else◌, bytes_eq, bytes_eq_iff, ◌≡◌, ◌↔◌,
  refl, arith, Option-cases, inl, inr, Bool-cases,
}
use nslc.Preprocess.Macros.Defs.{
  MacroDef, macro_def, no_range, MacroTable, lookup, insert, overwrite, redefine, erase, undef,
  predefine,
}
use nslc.Preprocess.Macros.Entries.{
  Distinct, lookup-eq, lookup-append, lookup-overwrite, lookup-erase, names, names-overwrite,
  names-append, Distinct-append, Distinct-overwrite, Distinct-erase,
}

-- The map from names to macros after `insert`, which keeps a macro that stands.
abbrev pub Kept : MacroTable → MacroDef → MacroTable → Type 0
Kept entries d after =
    (n : Bytes)
    → lookup after n ≡ elim (lookup entries n) [
      | some e ↦ some e
      | none ↦ if bytes_eq d.name n then some d else none
    ]

-- The map after `redefine`, in which the new macro wins.
abbrev pub Replaced : MacroTable → MacroDef → MacroTable → Type 0
Replaced entries d after =
    (n : Bytes) → lookup after n ≡ (if bytes_eq d.name n then some d else lookup entries n)

Kept-same :
    (entries : MacroTable) (d e : MacroDef)
    → lookup entries d.name ≡ some e
    → Kept entries d entries
Kept-same entries d e s m = elim (Bool-cases (bytes_eq d.name m)) [
  | inl t ↦ ground (arith, lookup-eq entries ((bytes_eq_iff d.name m).0 t))
  | inr t ↦ ground arith
]

Replaced-append :
    (entries : MacroTable) (d : MacroDef)
    → lookup entries d.name ≡ none
    → Replaced entries d (entries ++ d ∷ [])
Replaced-append entries d f m = elim (Bool-cases (bytes_eq d.name m)) [
  | inl t ↦
      ground (arith, lookup-append entries d m, lookup-eq entries ((bytes_eq_iff d.name m).0 t))
  | inr t ↦ ground (arith, lookup-append entries d m)
]

Removed-same :
    (entries : MacroTable) (name : Bytes)
    → lookup entries name ≡ none
    → (n : Bytes) → lookup entries n ≡ (if bytes_eq name n then none else lookup entries n)
Removed-same entries name f m = elim (Bool-cases (bytes_eq name m)) [
  | inl t ↦ ground (arith, lookup-eq entries ((bytes_eq_iff name m).0 t))
  | inr t ↦ ground arith
]

insert-some :
    (entries : MacroTable) (name body : Bytes) (loc : SourceRange) (e : MacroDef)
    → lookup entries name ≡ some e
    → insert entries name body loc ≡ (entries, false)
unfolding insert
insert-some entries name body loc e h = rw (h, insert) refl

insert-none :
    (entries : MacroTable) (name body : Bytes) (loc : SourceRange)
    → lookup entries name ≡ none
    → insert entries name body loc ≡ (entries ++ macro_def name body loc ∷ [], true)
unfolding insert
insert-none entries name body loc h = rw (h, insert) refl

redefine-none :
    (entries : MacroTable) (name body : Bytes) (loc : SourceRange)
    → lookup entries name ≡ none
    → redefine entries name body loc ≡ (entries ++ macro_def name body loc ∷ [], no_range)
unfolding redefine
redefine-none entries name body loc h = rw (h, redefine) refl

redefine-some :
    (entries : MacroTable) (name body : Bytes) (loc : SourceRange) (d : MacroDef)
    → lookup entries name ≡ some d
    → redefine entries name body loc ≡ (overwrite entries name body loc, d.defining_loc)
unfolding redefine
redefine-some entries name body loc d h = rw (h, redefine) refl

undef-none :
    (entries : MacroTable) (name : Bytes)
    → lookup entries name ≡ none
    → undef entries name ≡ (entries, false)
unfolding undef
undef-none entries name h = rw (h, undef) refl

undef-some :
    (entries : MacroTable) (name : Bytes) (d : MacroDef)
    → lookup entries name ≡ some d
    → undef entries name ≡ (erase entries name, true)
unfolding undef
undef-some entries name d h = rw (h, undef) refl

-- The names behind an insertion: where the name was free, it is the last one, behind all the others in their order.
abbrev pub Ordered : MacroTable → Bytes → MacroTable → Type 0
Ordered entries name after =
    names after
    ≡ elim (lookup entries name) [ some _ ↦ names entries | none ↦ names entries ++ name ∷ [] ]

-- On distinct names, `insert` keeps the names distinct and every macro that stands; it adds the new one,
-- its name behind all the others, exactly where its name was free, and says so; and `predefine` does to
-- the table what `insert` does with no location.
pub insert-Kept :
    (entries : MacroTable) (name body : Bytes) (loc : SourceRange)
    → Distinct entries
    → Distinct ((insert entries name body loc).0)
      × Kept entries (macro_def name body loc) ((insert entries name body loc).0)
      × Ordered entries name ((insert entries name body loc).0)
      × (((insert entries name body loc).1 ≡ true) ↔ (lookup entries name ≡ none))
      × (predefine entries name body ≡ (insert entries name body no_range).0)
unfolding predefine
insert-Kept entries name body loc w = elim (Option-cases (lookup entries name)) [
  | inl n ↦
      rw (insert-none entries name body loc n, insert-none entries name body no_range n)
        (
          Distinct-append entries (macro_def name body loc) w n,
          λ m. lookup-append entries (macro_def name body loc) m,
          rw n (names-append entries (macro_def name body loc)),
          (λ _. n, λ _. refl),
          rw (n, predefine) refl,
        )
  | inr s ↦
      rw
        (
          insert-some entries name body loc (s.0) (s.1),
          insert-some entries name body no_range (s.0) (s.1),
        )
        (
          w,
          Kept-same entries (macro_def name body loc) (s.0) (s.1),
          rw (s.1) refl,
          (λ e. ground arith, λ e. ground arith),
          rw (s.1, predefine) refl,
        )
]

-- On distinct names, `redefine` keeps the names distinct and makes its macro the one of its name, touching no other; a
-- macro that stood gives its location back, and its place in the order is kept.
pub redefine-Replaced :
    (entries : MacroTable) (name body : Bytes) (loc : SourceRange)
    → Distinct entries
    → Distinct ((redefine entries name body loc).0)
      × Replaced entries (macro_def name body loc) ((redefine entries name body loc).0)
      × ((d : MacroDef)
          → lookup entries name ≡ some d
          → ((redefine entries name body loc).1 ≡ d.defining_loc)
            × (names ((redefine entries name body loc).0) ≡ names entries))
redefine-Replaced entries name body loc w = elim (Option-cases (lookup entries name)) [
  | inl n ↦ rw (redefine-none entries name body loc n) (
    Distinct-append entries (macro_def name body loc) w n,
    Replaced-append entries (macro_def name body loc) n,
    λ d e. ground arith,
  )
  | inr s ↦ rw (redefine-some entries name body loc (s.0) (s.1)) (
    Distinct-overwrite entries name body loc w,
    λ m. lookup-overwrite entries name body loc m (s.0) (s.1),
    λ d e. (ground arith, names-overwrite entries name body loc),
  )
]

-- On distinct names, `undef` keeps the names distinct and removes the macro of the name and no other; it tells whether
-- there was one.
pub undef_lem :
    (entries : MacroTable) (name : Bytes)
    → Distinct entries
    → Distinct ((undef entries name).0)
      × ((n : Bytes)
          → lookup ((undef entries name).0) n
            ≡ (if bytes_eq name n then none else lookup entries n))
      × (((undef entries name).1 ≡ false) ↔ (lookup entries name ≡ none))
undef_lem entries name w = elim (Option-cases (lookup entries name)) [
  | inl n ↦ rw (undef-none entries name n) (w, Removed-same entries name n, (λ _. n, λ _. refl))
  | inr s ↦ rw (undef-some entries name (s.0) (s.1)) (
    Distinct-erase entries name w,
    λ m. lookup-erase entries name m w,
    (λ e. ground arith, λ e. ground arith),
  )
]
