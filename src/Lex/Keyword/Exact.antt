-- ===== src/Lex/Keyword/Exact.antt =====
-- The recognisers against the reserved words of docs/spec/nsl_lang.ebnf and the names of the kinds.
use nslc.Lex.Keyword.{task_names, variable_names, is_one_of, classify_underscore_name}
use nslc.Lex.Kind.{system_task, system_function}
use nslc.Prelude.{
  Bytes, codes, bytes_eq, bytes_eq_iff, List, [], ◌∷◌, ◌≡◌, ◌↔◌, ◌⊎◌, inl, inr, refl, sym, true,
  false, All, Bool-cases, arith,
}

abbrev pub In : {A : Type 0} → A → List A → Type 0
In a [] = ⊥
In a (x ∷ xs) = (x ≡ a) ⊎ In a xs

In-All {κ} : {A : Type 0} (P : A → Type κ) {a : A} (xs : List A) → All P xs → In a xs → P a
In-All P [] h i = absurd i
In-All P (x ∷ xs) h (inl e) = rw (← e) h.0
In-All P (x ∷ xs) h (inr i) = In-All P xs h.1 i

is_one_of→In : (names : List Bytes) (text : Bytes) → is_one_of names text ≡ true → In text names
unfolding is_one_of
is_one_of→In [] text h = cc
is_one_of→In (t ∷ names) text h = elim (Bool-cases (bytes_eq text t)) [
  | inl e ↦ inl (sym ((bytes_eq_iff text t).0 e))
  | inr e ↦ inr (is_one_of→In names text (rw e at h))
]

In→is_one_of : (names : List Bytes) (text : Bytes) → In text names → is_one_of names text ≡ true
unfolding is_one_of
In→is_one_of [] text i = absurd i
In→is_one_of (t ∷ names) text (inl e) = rw ((bytes_eq_iff text t).1 (sym e)) refl
In→is_one_of (t ∷ names) text (inr i) = ground (arith, In→is_one_of names text i)

is_one_of_iff : (names : List Bytes) (text : Bytes) → (is_one_of names text ≡ true) ↔ In text names
is_one_of_iff names text = (is_one_of→In names text, In→is_one_of names text)

task_only :
    (text : Bytes) → classify_underscore_name text ≡ system_task → is_one_of task_names text ≡ true
unfolding classify_underscore_name
task_only text h = ground arith

task_listed :
    (text : Bytes) → is_one_of task_names text ≡ true → classify_underscore_name text ≡ system_task
unfolding classify_underscore_name
task_listed text h = ground arith

variable_only :
    (text : Bytes)
    → classify_underscore_name text ≡ system_function
    → is_one_of variable_names text ≡ true
unfolding classify_underscore_name
variable_only text h = ground arith

-- No name is in both tables.
disjoint : All (λ v. is_one_of task_names v ≡ false) variable_names
unfolding is_one_of bytes_eq
disjoint = ground arith

variable_listed :
    (text : Bytes)
    → is_one_of variable_names text ≡ true
    → classify_underscore_name text ≡ system_function
unfolding classify_underscore_name
variable_listed text h = ground (
  arith,
  In-All (λ v. is_one_of task_names v ≡ false) variable_names disjoint
      (is_one_of→In variable_names text h),
)

-- A name that begins with `_` is a task or a system variable exactly where it is listed as one.
pub classify_underscore_name_iff :
    (text : Bytes)
    → ((classify_underscore_name text ≡ system_task) ↔ In text task_names)
      × ((classify_underscore_name text ≡ system_function) ↔ In text variable_names)
classify_underscore_name_iff text = (
  (
    λ h. (is_one_of_iff task_names text).0 (task_only text h),
    λ i. task_listed text ((is_one_of_iff task_names text).1 i),
  ),
  (
    λ h. (is_one_of_iff variable_names text).0 (variable_only text h),
    λ i. variable_listed text ((is_one_of_iff variable_names text).1 i),
  ),
)

-- docs/spec/nsl_lang.ebnf section 15, `reserved_keyword`.
abbrev pub reserved_words : List Bytes
reserved_words =
    codes "alt"
    ∷ codes "any"
    ∷ codes "declare"
    ∷ codes "finish"
    ∷ codes "for"
    ∷ codes "func"
    ∷ codes "func_in"
    ∷ codes "func_out"
    ∷ codes "func_self"
    ∷ codes "generate"
    ∷ codes "goto"
    ∷ codes "inout"
    ∷ codes "input"
    ∷ codes "integer"
    ∷ codes "interface"
    ∷ codes "label"
    ∷ codes "label_name"
    ∷ codes "m_clock"
    ∷ codes "mem"
    ∷ codes "module"
    ∷ codes "output"
    ∷ codes "p_reset"
    ∷ codes "proc"
    ∷ codes "proc_name"
    ∷ codes "reg"
    ∷ codes "seq"
    ∷ codes "state"
    ∷ codes "state_name"
    ∷ codes "variable"
    ∷ codes "while"
    ∷ codes "wire"
    ∷ codes "else"
    ∷ codes "first_state"
    ∷ codes "function"
    ∷ codes "if"
    ∷ codes "invoke"
    ∷ codes "param_int"
    ∷ codes "param_str"
    ∷ codes "parameter"
    ∷ codes "return"
    ∷ codes "simulation"
    ∷ codes "struct"
    ∷ []
