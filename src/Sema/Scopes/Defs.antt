-- ===== src/Sema/Scopes/Defs.antt =====
-- The state of a scope and of the symbol table, and their operations. A symbol's type, which no
-- operation here reads, is left out.
use nslc.Basic.Location.{SourceRange}
use nslc.Prelude.{
  Bytes, Bool, true, false, List, [], ◌∷◌, ◌++◌, Option, none, some, if◌then◌else◌, bytes_eq,
}

pub data SymbolKind : Type 0 where
  port reg wire variable integer mem func_in func_out func_self proc state submodule struct_type :
      SymbolKind

pub data ScopeKind : Type 0 where
  global declare_block module_ proc_scope seq_or_parallel function : ScopeKind

pub record Symbol : Type 0 where
  pub kind : SymbolKind
  pub name : Bytes
  pub decl_loc : SourceRange

-- `table` is the map of names, `decl_order` the symbols in the order of their declaration. The parent
-- of a scope is the next one of the stack.
pub record Scope : Type 0 where
  pub kind : ScopeKind
  pub owner : Option Symbol
  pub table : List (Bytes × Symbol)
  pub decl_order : List Symbol

unfoldable pub find : List (Bytes × Symbol) → Bytes → Option Symbol
find [] name = none
find ((key, sym) ∷ table) name =
    let rest = find table name in if bytes_eq key name then some sym else rest

unfoldable pub lookup_local : Scope → Bytes → Option Symbol
lookup_local s name = find s.table name

pub record Inserted (A : Type 0) : Type 0 where
  pub after : A
  pub is_new : Bool

abbrev pub inserted : {A : Type 0} → A → Bool → Inserted A
inserted a b = record { after = a; is_new = b }

unfoldable pub insert : Scope → Symbol → Inserted Scope
insert s sym = elim (lookup_local s sym.name) [
  | some _ ↦ inserted s false
  | none ↦
      inserted
        (record s { table = (sym.name, sym) ∷ s.table; decl_order = s.decl_order ++ sym ∷ [] }) true
]

-- Both vectors have their back first.
pub record SymbolTable : Type 0 where
  pub scopes : List Scope
  pub retired : List Scope

abbrev pub new_table : SymbolTable
new_table = record { scopes = []; retired = [] }

unfoldable pub enter_scope : SymbolTable → ScopeKind → Option Symbol → SymbolTable
enter_scope t k owner = record t {
  scopes = record { kind = k; owner = owner; table = []; decl_order = [] } ∷ t.scopes;
}

-- `none` is the failed assertion on an empty stack, here and below.
unfoldable pub leave_scope : SymbolTable → Option SymbolTable
leave_scope t = elim t.scopes [
  | [] ↦ none
  | s ∷ scopes ↦ some (record { scopes = scopes; retired = s ∷ t.retired })
]

-- Replace the top of the stack.
abbrev with_top : SymbolTable → List Scope → Inserted Scope → Inserted SymbolTable
with_top t scopes i = inserted (record t { scopes = i.after ∷ scopes }) i.is_new

unfoldable pub declare : SymbolTable → Symbol → Option (Inserted SymbolTable)
declare t sym = elim t.scopes [ [] ↦ none | s ∷ scopes ↦ some (with_top t scopes (insert s sym)) ]

unfoldable pub same_kind : ScopeKind → ScopeKind → Bool
same_kind global global = true
same_kind declare_block declare_block = true
same_kind module_ module_ = true
same_kind proc_scope proc_scope = true
same_kind seq_or_parallel seq_or_parallel = true
same_kind function function = true
same_kind _ _ = false

-- The loop of `declareInScope`; `none` where no scope has the kind.
unfoldable pub insert_in : List Scope → ScopeKind → Symbol → Option (Inserted (List Scope))
insert_in [] k sym = none
insert_in (s ∷ scopes) k sym =
    let here = insert s sym in
    let below = insert_in scopes k sym in
    if same_kind s.kind k
    then some (inserted (here.after ∷ scopes) here.is_new)
    else elim below [ none ↦ none | some i ↦ some (inserted (s ∷ i.after) i.is_new) ]

unfoldable pub declare_in_scope : SymbolTable → ScopeKind → Symbol → Option (Inserted SymbolTable)
declare_in_scope t k sym = elim (insert_in t.scopes k sym) [
  | some i ↦ some (inserted (record t { scopes = i.after }) i.is_new)
  | none ↦ declare t sym
]

-- The first match from the back.
unfoldable pub search : List Scope → Bytes → Option Symbol
search [] name = none
search (s ∷ scopes) name =
    let outer = search scopes name in
    elim (lookup_local s name) [ some sym ↦ some sym | none ↦ outer ]

unfoldable pub lookup : SymbolTable → Bytes → Option Symbol
lookup t name = elim (search t.scopes name) [
  | some sym ↦ some sym
  | none ↦ elim t.scopes [ [] ↦ search t.retired name | s ∷ scopes ↦ none ]
]

-- On the parts of a scoped name.
unfoldable pub lookup_scoped : SymbolTable → List Bytes → Option Symbol
lookup_scoped t [] = none
lookup_scoped t (name ∷ []) = lookup t name
lookup_scoped t (name ∷ next ∷ parts) = none

unfoldable pub module_owner : List Scope → Option Symbol
module_owner [] = none
module_owner (s ∷ scopes) =
    let outer = module_owner scopes in if same_kind s.kind module_ then s.owner else outer

unfoldable pub current_module : SymbolTable → Option Symbol
current_module t = module_owner t.scopes

unfoldable pub current_scope : SymbolTable → Option Scope
current_scope t = elim t.scopes [ [] ↦ none | s ∷ scopes ↦ some s ]
