-- ===== src/Preprocess/Expander/Depth.antt =====
-- What the bound on the depth does: a text is expanded without a report exactly where its chains of
-- definitions are no longer than the bound, and then the bound does not show in the result.
use nslc.Preprocess.Expander.Defs.{
  Piece, verbatim, reference, piece_at, span, Expansion, expansion, substitute, expand_loop,
  expand_impl,
}
use nslc.Preprocess.Macros.{MacroDef, MacroTable, lookup}
use mathlib.Core.Path.{subst}
use nslc.Prelude.{
  ℕ, zero, suc, ◌≤◌, ◌≡◌, ◌↔◌, refl, sym, ◌∙◌, Bytes, List, [], ◌∷◌, ◌++◌, Option, none, some, drop,
  length, arith, Option-cases, inl, inr,
}

-- The macro at a step, if there is one, meets `P`.
unfoldable pub Refers : MacroTable → (MacroDef → Type 0) → Piece → Type 0
Refers macros P p =
    (name text : Bytes) (def : MacroDef)
    → p ≡ reference name text
    → lookup macros name ≡ some def
    → P def

-- `P` holds of the macro of every reference in the text.
pub data Each (macros : MacroTable) (P : MacroDef → Type 0) : ℕ → Bytes → Type 0 where
  out_of_fuel : {text : Bytes} → Each macros P 0 text
  end : {fuel : ℕ} → Each macros P (suc fuel) []
  more :
      {fuel c : ℕ} {r : Bytes}
      → Refers macros P (piece_at c r)
      → Each macros P fuel (drop (length (span (piece_at c r))) (c ∷ r))
      → Each macros P (suc fuel) (c ∷ r)

-- Chains of definitions from the text on have at most `k` macros one inside the other.
unfoldable pub Shallow : MacroTable → ℕ → Bytes → Type 0
Shallow macros zero text = Each macros (λ def. ⊥) (length text) text
Shallow macros (suc k) text = Each macros (λ def. Shallow macros k def.body) (length text) text

append-nil_iff : (xs ys : List Bytes) → xs ++ ys ≡ [] → (xs ≡ []) × (ys ≡ [])
append-nil_iff [] ys e = (refl, e)
append-nil_iff (x ∷ xs) ys e = ground arith

Silent : Option (Bytes → Expansion) → MacroDef → Type 0
Silent none def = ⊥
Silent (some deeper) def = (deeper def.body).reports ≡ []

substitute-free :
    (deeper : Option (Bytes → Expansion)) (macros : MacroTable) (name text : Bytes)
    → lookup macros name ≡ none
    → substitute deeper macros (reference name text) ≡ expansion text []
unfolding substitute
substitute-free deeper macros name text e = rw (e, substitute) refl

substitute-defined :
    (deeper : Option (Bytes → Expansion)) (macros : MacroTable) (name text : Bytes) (def : MacroDef)
    → lookup macros name ≡ some def
    → ((substitute deeper macros (reference name text)).reports ≡ []) ↔ Silent deeper def
unfolding substitute Silent
substitute-defined none macros name text def e =
    rw (e, substitute) (λ f. ground arith, λ f. absurd f)
substitute-defined (some deeper) macros name text def e = rw (e, substitute) (λ f. f, λ f. f)

same_def :
    (macros : MacroTable) (name text n t : Bytes) (def d : MacroDef)
    → reference name text ≡ reference n t
    → lookup macros n ≡ some d
    → lookup macros name ≡ some def
    → def ≡ d
same_def macros name text n t def d q m l = ground arith

Refers-free :
    (macros : MacroTable) (P : MacroDef → Type 0) (name text : Bytes)
    → lookup macros name ≡ none
    → Refers macros P (reference name text)
unfolding Refers
Refers-free macros P name text e n t d q m = absurd (ground arith)

Refers-found :
    (macros : MacroTable) (P : MacroDef → Type 0) (name text : Bytes) (def : MacroDef)
    → lookup macros name ≡ some def
    → P def
    → Refers macros P (reference name text)
unfolding Refers
Refers-found macros P name text def l p n t d q m =
    subst P (same_def macros name text n t def d q m l) p

-- One step makes no report exactly where the macro at it, if there is one, makes none.
substitute_iff :
    (deeper : Option (Bytes → Expansion)) (macros : MacroTable) (p : Piece)
    → ((substitute deeper macros p).reports ≡ []) ↔ Refers macros (Silent deeper) p
substitute_iff deeper macros (verbatim t) =
    (λ e. unfold Refers in λ n x d q l. ground arith, λ f. unfold substitute in refl)
substitute_iff deeper macros (reference m t) = elim (Option-cases (lookup macros m)) [
  | inl n ↦
      rw (substitute-free deeper macros m t n)
        (λ e. Refers-free macros (Silent deeper) m t n, λ f. refl)
  | inr s ↦
      let i = substitute-defined deeper macros m t (s.0) (s.1) in
      (
        λ e. Refers-found macros (Silent deeper) m t (s.0) (s.1) (i.0 e),
        λ f. i.1 (unfold Refers in f m t (s.0) refl (s.1)),
      )
]

expand_loop_iff :
    (deeper : Option (Bytes → Expansion)) (macros : MacroTable) (fuel : ℕ) (text : Bytes)
    → ((expand_loop deeper macros fuel text).reports ≡ []) ↔ Each macros (Silent deeper) fuel text
unfolding expand_loop
expand_loop_iff deeper macros zero text = (λ e. out_of_fuel, λ f. refl)
expand_loop_iff deeper macros (suc fuel) [] = (λ e. end, λ f. refl)
expand_loop_iff deeper macros (suc fuel) (c ∷ r) =
    let ih = expand_loop_iff deeper macros fuel (drop (length (span (piece_at c r))) (c ∷ r)) in
    let here = substitute_iff deeper macros (piece_at c r) in
    (
      λ e. let parts = append-nil_iff _ _ e in more (here.0 (parts.0)) (ih.0 (parts.1)),
      λ f. elim f [ more a b ↦ rw (here.1 a, ih.1 b) refl ],
    )

Each-map :
    (macros : MacroTable) {P Q : MacroDef → Type 0}
    → ((def : MacroDef) → P def → Q def)
    → {fuel : ℕ} {text : Bytes} → Each macros P fuel text
    → Each macros Q fuel text
unfolding Refers
Each-map macros f out_of_fuel = out_of_fuel
Each-map macros f end = end
Each-map macros f (more a b) = more (λ n t d q l. f d (a n t d q l)) (Each-map macros f b)

-- With `left` levels left, expansion reports no recursive macro exactly where the text's chains of
-- definitions have at most `left` macros one inside the other.
pub expand_impl_iff :
    (macros : MacroTable) (left : ℕ) (text : Bytes)
    → ((expand_impl macros left text).reports ≡ []) ↔ Shallow macros left text
unfolding expand_impl Shallow Silent
expand_impl_iff macros zero text = expand_loop_iff none macros (length text) text
expand_impl_iff macros (suc left) text =
    let i =
      expand_loop_iff (some (λ body. expand_impl macros left body)) macros (length text) text in
    (
      λ e. Each-map macros (λ d s. (expand_impl_iff macros left d.body).0 s) (i.0 e),
      λ f. i.1 (Each-map macros (λ d s. (expand_impl_iff macros left d.body).1 s) f),
    )

Same :
    Option (Bytes → Expansion)
    → Option (Bytes → Expansion)
    → MacroTable
    → (MacroDef → Type 0)
    → Type 0
Same a b macros P =
    (name text : Bytes) (def : MacroDef)
    → lookup macros name ≡ some def
    → P def
    → substitute a macros (reference name text) ≡ substitute b macros (reference name text)

Same-nothing : (macros : MacroTable) (a : Option (Bytes → Expansion)) → Same a none macros (λ d. ⊥)
unfolding Same
Same-nothing macros a n t d l e = absurd e

Same-bodies :
    (macros : MacroTable) (P : MacroDef → Type 0) (f g : Bytes → Expansion)
    → ((def : MacroDef) → P def → f def.body ≡ g def.body)
    → Same (some f) (some g) macros P
unfolding Same substitute
Same-bodies macros P f g e n t d l q = rw (l, substitute) (e d q)

substitute-same :
    (a b : Option (Bytes → Expansion)) (macros : MacroTable) (P : MacroDef → Type 0) (p : Piece)
    → Same a b macros P
    → Refers macros P p
    → substitute a macros p ≡ substitute b macros p
substitute-same a b macros P (verbatim t) same f = unfold substitute in refl
substitute-same a b macros P (reference m t) same f = elim (Option-cases (lookup macros m)) [
  | inl n ↦ substitute-free a macros m t n ∙ sym (substitute-free b macros m t n)
  | inr s ↦ unfold Same Refers in same m t (s.0) (s.1) (f m t (s.0) refl (s.1))
]

expand_loop-same :
    (a b : Option (Bytes → Expansion)) (macros : MacroTable) (P : MacroDef → Type 0) (fuel : ℕ)
    (text : Bytes)
    → Same a b macros P
    → Each macros P fuel text
    → expand_loop a macros fuel text ≡ expand_loop b macros fuel text
unfolding expand_loop
expand_loop-same a b macros P zero text same f = refl
expand_loop-same a b macros P (suc fuel) [] same f = refl
expand_loop-same a b macros P (suc fuel) (c ∷ r) same (more here later) =
    rw
      (
        substitute-same a b macros P (piece_at c r) same here,
        expand_loop-same a b macros P fuel _ same later,
      )
      refl

-- A text whose chains of definitions have at most `k` macros one inside the other is expanded in the
-- same way with `k` levels left and with any more: the bound of 256 does not show in the result.
pub expand_impl-Shallow :
    (macros : MacroTable) (k left : ℕ) (text : Bytes)
    → k ≤ left
    → Shallow macros k text
    → expand_impl macros left text ≡ expand_impl macros k text
unfolding expand_impl Shallow
expand_impl-Shallow macros zero zero text h s = refl
expand_impl-Shallow macros zero (suc left) text h s =
    expand_loop-same _ none macros (λ d. ⊥) (length text) text (Same-nothing macros _) s
expand_impl-Shallow macros (suc k) zero text h s = absurd (omega arith)
expand_impl-Shallow macros (suc k) (suc left) text h s =
    expand_loop-same _ _ macros (λ d. Shallow macros k d.body) (length text) text
      (Same-bodies macros _ _ _ (λ d q. expand_impl-Shallow macros k left d.body (omega arith) q)) s
