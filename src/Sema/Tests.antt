-- ===== src/Sema/Tests.antt =====
-- The theorems of Sema at concrete inputs.
use nslc.Basic.Location.{no_location}
use nslc.Sema.Scopes.{
  module_, proc_scope, seq_or_parallel, wire, reg, Symbol, Scope, inserted, insert, SymbolTable,
  declare, declare_in_scope, enter_scope, leave_scope, lookup, lookup_local, same_kind,
}
use nslc.Sema.Scopes.Laws.{
  open_table, declare_lem, leave_scope-declare-enter_scope, declare_in_scope_lem,
}
use nslc.Prelude.{
  Bytes, codes, true, false, List, [], ◌∷◌, ◌++◌, some, none, if◌then◌else◌, bytes_eq, ◌≡◌, refl,
  arith,
}

abbrev x_reg : Symbol
x_reg = record {
  kind = reg;
  name = codes "x";
  decl_loc = record { begin = no_location; end = no_location };
}

abbrev x_wire : Symbol
x_wire = record {
  kind = wire;
  name = codes "x";
  decl_loc = record { begin = no_location; end = no_location };
}

abbrev body : Scope
body = record {
  kind = module_;
  owner = none;
  table = (codes "x", x_reg) ∷ [];
  decl_order = x_reg ∷ [];
}

abbrev par_block : Scope
par_block = record { kind = seq_or_parallel; owner = none; table = []; decl_order = [] }

declare_lem_example :
    (lookup_local par_block (codes "x") ≡ none
      → (after : SymbolTable) × (declare (open_table par_block (body ∷ []) []) x_wire
          ≡ some (inserted after true))
        × ((n : Bytes)
            → lookup after n ≡ (
                if bytes_eq (codes "x") n
                then some x_wire
                else lookup (open_table par_block (body ∷ []) []) n)))
    × ((e : Symbol)
        → lookup_local par_block (codes "x") ≡ some e
        → declare (open_table par_block (body ∷ []) []) x_wire
          ≡ some (inserted (open_table par_block (body ∷ []) []) false))
declare_lem_example = declare_lem par_block (body ∷ []) [] x_wire

leave_scope-declare-enter_scope_example :
    (inner : SymbolTable) × (after : SymbolTable) × (declare
        (enter_scope (open_table body [] []) proc_scope none)
        x_wire
      ≡ some (inserted inner true))
    × (lookup inner (codes "x") ≡ some x_wire)
    × (leave_scope inner ≡ some after)
    × (after.scopes ≡ body ∷ [])
    × ((n : Bytes) → lookup after n ≡ lookup (open_table body [] []) n)
leave_scope-declare-enter_scope_example =
    leave_scope-declare-enter_scope body [] [] proc_scope none x_wire

other_kinds :
    (x : Scope) (before after : List Scope)
    → par_block ∷ [] ≡ before ++ x ∷ after
    → same_kind x.kind module_ ≡ false
unfolding same_kind
other_kinds x [] after e = ground arith
other_kinds x (b ∷ []) after e = ground arith
other_kinds x (b ∷ c ∷ before) after e = ground arith

declare_in_scope_lem_example :
    declare_in_scope (record { scopes = par_block ∷ body ∷ []; retired = [] }) module_ x_wire
    ≡ some (
        inserted
          (record { scopes = par_block ∷ (insert body x_wire).after ∷ []; retired = [] })
          ((insert body x_wire).is_new))
declare_in_scope_lem_example =
    declare_in_scope_lem (par_block ∷ []) body [] [] module_ x_wire other_kinds
      (unfold same_kind in refl)
