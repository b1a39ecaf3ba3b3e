-- ===== src/Sema/Scopes/Laws.antt =====
-- Declarations, shadowing and leaving: what a name means after each operation.
use nslc.Sema.Scopes.Defs.{
  ScopeKind, Symbol, Scope, find, lookup_local, inserted, insert, SymbolTable, enter_scope,
  leave_scope, declare, same_kind, insert_in, declare_in_scope, search, lookup,
}
use nslc.Prelude.{
  Bytes, true, false, List, [], ◌∷◌, ◌++◌, Option, none, some, if◌then◌else◌, bytes_eq,
  bytes_eq_iff, ◌≡◌, refl, ap, arith,
}

-- A table with at least one scope.
abbrev pub open_table : Scope → List Scope → List Scope → SymbolTable
open_table s rest retired = record { scopes = s ∷ rest; retired = retired }

abbrev with_symbol : Scope → Symbol → Scope
with_symbol s sy = record s {
  table = (sy.name, sy) ∷ s.table;
  decl_order = s.decl_order ++ sy ∷ [];
}

insert-free :
    (s : Scope) (sy : Symbol)
    → lookup_local s sy.name ≡ none
    → insert s sy ≡ inserted (with_symbol s sy) true
unfolding insert
insert-free s sy e = rw (e, insert) refl

insert-taken :
    (s : Scope) (sy e : Symbol) → lookup_local s sy.name ≡ some e → insert s sy ≡ inserted s false
unfolding insert
insert-taken s sy e h = rw (h, insert) refl

lookup_local-with_symbol :
    (s : Scope) (sy : Symbol) (n : Bytes)
    → lookup_local (with_symbol s sy) n ≡ (if bytes_eq sy.name n then some sy else lookup_local s n)
unfolding lookup_local find
lookup_local-with_symbol s sy n = refl

lookup-with_symbol :
    (s : Scope) (rest retired : List Scope) (sy : Symbol) (n : Bytes)
    → lookup (open_table (with_symbol s sy) rest retired) n
      ≡ (if bytes_eq sy.name n then some sy else lookup (open_table s rest retired) n)
unfolding lookup search
lookup-with_symbol s rest retired sy n = ground (arith, lookup_local-with_symbol s sy n)

-- A declaration in the innermost scope goes through exactly where that scope has no symbol of the
-- name; then the name means the new symbol, also where an outer scope has one, and every other name
-- keeps its meaning. A declaration that does not go through changes nothing.
pub declare_lem :
    (s : Scope) (rest retired : List Scope) (sy : Symbol)
    → (lookup_local s sy.name ≡ none
        → (after : SymbolTable) × (declare (open_table s rest retired) sy
            ≡ some (inserted after true))
          × ((n : Bytes)
              → lookup after n
                ≡ (if bytes_eq sy.name n then some sy else lookup (open_table s rest retired) n)))
      × ((e : Symbol)
          → lookup_local s sy.name ≡ some e
          → declare (open_table s rest retired) sy
            ≡ some (inserted (open_table s rest retired) false))
unfolding declare
declare_lem s rest retired sy = (
  λ f. (
    open_table (with_symbol s sy) rest retired,
    rw (insert-free s sy f) refl,
    λ n. lookup-with_symbol s rest retired sy n,
  ),
  λ e f. rw (insert-taken s sy e f) refl,
)

bytes_eq_refl : (n : Bytes) → bytes_eq n n ≡ true
bytes_eq_refl n = (bytes_eq_iff n n).1 refl

abbrev fresh : ScopeKind → Option Symbol → Scope
fresh k owner = record { kind = k; owner = owner; table = []; decl_order = [] }

-- Entering a scope, declaring any symbol there and leaving it again: inside, the name means the
-- symbol whatever the outer scopes have; behind, the stack of scopes and the meaning of every name
-- are those of before.
pub leave_scope-declare-enter_scope :
    (s : Scope) (rest retired : List Scope) (k : ScopeKind) (owner : Option Symbol) (sy : Symbol)
    → (inner : SymbolTable) × (after : SymbolTable) × (declare
          (enter_scope (open_table s rest retired) k owner)
          sy
        ≡ some (inserted inner true))
      × (lookup inner sy.name ≡ some sy)
      × (leave_scope inner ≡ some after)
      × (after.scopes ≡ s ∷ rest)
      × ((n : Bytes) → lookup after n ≡ lookup (open_table s rest retired) n)
unfolding declare enter_scope leave_scope
leave_scope-declare-enter_scope s rest retired k owner sy = (
  open_table (with_symbol (fresh k owner) sy) (s ∷ rest) retired,
  open_table s rest (with_symbol (fresh k owner) sy ∷ retired),
  rw (insert-free (fresh k owner) sy (unfold lookup_local find in refl)) refl,
  ground (
    arith,
    lookup-with_symbol (fresh k owner) (s ∷ rest) retired sy sy.name,
    bytes_eq_refl sy.name,
  ),
  refl,
  refl,
  λ n. unfold lookup in refl,
)

-- When the last scope is left, names keep a meaning: that of the scope just left, and behind it that
-- of the scopes retired before, the latest first.
pub lookup-leave_scope :
    (s : Scope) (retired : List Scope)
    → (after : SymbolTable) × (leave_scope (open_table s [] retired) ≡ some after)
      × ((n : Bytes)
          → lookup after n ≡ elim (lookup_local s n) [ some e ↦ some e | none ↦ search retired n ])
unfolding leave_scope lookup search
lookup-leave_scope s retired = (record { scopes = []; retired = s ∷ retired }, refl, λ n. refl)

-- `declareInScope` reaches the innermost scope of the kind, over the scopes of other kinds.
insert_in_lem :
    (inner : List Scope) (s : Scope) (outer : List Scope) (k : ScopeKind) (sy : Symbol)
    → ((x : Scope)
        → (before after : List Scope) → inner ≡ before ++ x ∷ after
        → same_kind x.kind k ≡ false)
    → same_kind s.kind k ≡ true
    → insert_in (inner ++ s ∷ outer) k sy
      ≡ some (inserted (inner ++ (insert s sy).after ∷ outer) ((insert s sy).is_new))
unfolding insert_in
insert_in_lem [] s outer k sy others e = rw (e, insert_in) refl
insert_in_lem (x ∷ inner) s outer k sy others e =
    rw (others x [] inner refl, insert_in)
      (rw
        (insert_in_lem inner s outer k sy
          (λ y before after q. others y (x ∷ before) after (ap (◌∷◌ x) q)) e)
        refl)

-- `declareInScope` inserts into the innermost scope of the kind, over the scopes of other kinds inside
-- it, and leaves all other scopes as they are.
pub declare_in_scope_lem :
    (inner : List Scope) (s : Scope) (outer retired : List Scope) (k : ScopeKind) (sy : Symbol)
    → ((x : Scope)
        → (before after : List Scope) → inner ≡ before ++ x ∷ after
        → same_kind x.kind k ≡ false)
    → same_kind s.kind k ≡ true
    → declare_in_scope (record { scopes = inner ++ s ∷ outer; retired = retired }) k sy
      ≡ some (
          inserted
            (record { scopes = inner ++ (insert s sy).after ∷ outer; retired = retired })
            ((insert s sy).is_new))
unfolding declare_in_scope
declare_in_scope_lem inner s outer retired k sy others e =
    rw (insert_in_lem inner s outer k sy others e, declare_in_scope) refl
