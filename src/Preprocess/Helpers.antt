-- ===== src/Preprocess/Helpers.antt =====
-- include/nsl/Basic/HelperSet.def and `lookupHelper` of lib/Preprocess/HelperEvaluator.cpp: the closed
-- set of compile-time helpers.
pub mod Value
pub mod Evaluator
pub mod Typed
mod Tests
use nslc.Prelude.{
  ℕ, Bytes, codes, Bool, true, false, List, [], ◌∷◌, Option, none, some, if◌then◌else◌, bytes_eq,
}

pub record HelperEntry : Type 0 where
  pub name : Bytes
  pub arity : ℕ
  pub returns_real : Bool

abbrev pub helper : Bytes → ℕ → Bool → HelperEntry
helper name arity returns_real = record { name = name; arity = arity; returns_real = returns_real }

unfoldable pub helpers : List HelperEntry
helpers =
    helper (codes "_int") 1 false
    ∷ helper (codes "_real") 1 true
    ∷ helper (codes "_pow") 2 true
    ∷ helper (codes "_sqrt") 1 true
    ∷ helper (codes "_sin") 1 true
    ∷ helper (codes "_cos") 1 true
    ∷ helper (codes "_tan") 1 true
    ∷ helper (codes "_asin") 1 true
    ∷ helper (codes "_acos") 1 true
    ∷ helper (codes "_atan") 1 true
    ∷ helper (codes "_sinh") 1 true
    ∷ helper (codes "_cosh") 1 true
    ∷ helper (codes "_tanh") 1 true
    ∷ helper (codes "_log") 1 true
    ∷ helper (codes "_log10") 1 true
    ∷ helper (codes "_exp") 1 true
    ∷ helper (codes "_floor") 1 true
    ∷ helper (codes "_ceil") 1 true
    ∷ helper (codes "_round") 1 true
    ∷ helper (codes "_abs") 1 false
    ∷ helper (codes "_min") 2 false
    ∷ helper (codes "_max") 2 false
    ∷ []

unfoldable pub find_helper : List HelperEntry → Bytes → Option HelperEntry
find_helper [] name = none
find_helper (h ∷ hs) name = if bytes_eq name h.name then some h else find_helper hs name

unfoldable pub lookup_helper : Bytes → Option HelperEntry
lookup_helper name = find_helper helpers name
