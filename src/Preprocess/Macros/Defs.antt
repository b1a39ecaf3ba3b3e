-- ===== src/Preprocess/Macros/Defs.antt =====
-- The entries of the macro table and its operations.
use nslc.Basic.Location.{SourceRange, no_location}
use nslc.Prelude.{
  Bytes, Bool, true, false, List, [], ◌∷◌, ◌++◌, Option, none, some, if◌then◌else◌, bytes_eq,
}

pub record MacroDef : Type 0 where
  pub name : Bytes
  pub body : Bytes
  pub defining_loc : SourceRange

abbrev pub macro_def : Bytes → Bytes → SourceRange → MacroDef
macro_def name body loc = record { name = name; body = body; defining_loc = loc }

abbrev pub no_range : SourceRange
no_range = record { begin = no_location; end = no_location }

-- The entries of the `MapVector`; an erased entry leaves the order of the others.
abbrev pub MacroTable : Type 0
MacroTable = List MacroDef

unfoldable pub lookup : MacroTable → Bytes → Option MacroDef
lookup [] name = none
lookup (d ∷ entries) name = if bytes_eq d.name name then some d else lookup entries name

abbrev pub Flagged : Type 0
Flagged = MacroTable × Bool

unfoldable pub insert : MacroTable → Bytes → Bytes → SourceRange → Flagged
insert entries name body loc = elim (lookup entries name) [
  | some _ ↦ (entries, false)
  | none ↦ (entries ++ macro_def name body loc ∷ [], true)
]

-- The entry `it` gets the new body and location, and keeps its place.
unfoldable pub overwrite : MacroTable → Bytes → Bytes → SourceRange → MacroTable
overwrite [] name body loc = []
overwrite (d ∷ entries) name body loc =
    let rest = overwrite entries name body loc in
    if bytes_eq d.name name
    then record d { body = body; defining_loc = loc } ∷ entries
    else d ∷ rest

-- The table, and `*out_previous_loc`.
unfoldable pub redefine : MacroTable → Bytes → Bytes → SourceRange → MacroTable × SourceRange
redefine entries name body loc = elim (lookup entries name) [
  | none ↦ (entries ++ macro_def name body loc ∷ [], no_range)
  | some d ↦ (overwrite entries name body loc, d.defining_loc)
]

unfoldable pub erase : MacroTable → Bytes → MacroTable
erase [] name = []
erase (d ∷ entries) name =
    let rest = erase entries name in if bytes_eq d.name name then entries else d ∷ rest

unfoldable pub undef : MacroTable → Bytes → Flagged
undef entries name = elim (lookup entries name) [
  | none ↦ (entries, false)
  | some _ ↦ (erase entries name, true)
]

unfoldable pub predefine : MacroTable → Bytes → Bytes → MacroTable
predefine entries name body = elim (lookup entries name) [
  | some _ ↦ entries
  | none ↦ entries ++ macro_def name body no_range ∷ []
]
