-- ===== src/Preprocess/Conditionals/Blocks.antt =====
-- Nested conditionals as trees, and what the stack of frames lets through of them.
use nslc.Basic.Location.{SourceRange}
use nslc.Preprocess.Conditionals.Defs.{CondFrame, is_emitting, push_cond_frame, flip_branch}
use nslc.Prelude.{
  Bytes, Bool, true, false, not, List, [], ◌∷◌, ◌++◌, Option, none, some, if◌then◌else◌, ◌≡◌, refl,
  sym, ap, ◌∙◌, append_assoc, append-nil, arith,
}

-- The lines of a file, as the handlers see them; an opener comes with the value of its condition.
pub data Event : Type 0 where
  text : Bytes → Event
  opened : Bool → SourceRange → Event
  otherwise closed : Event

-- A text with its conditionals; a conditional has a value, the place of its opener, its first branch,
-- perhaps a second one, and what follows.
mutual
  pub data Blocks : Type 0 where
    done : Blocks
    line : Bytes → Blocks → Blocks
    branch : Bool → SourceRange → Blocks → Otherwise → Blocks → Blocks

  pub data Otherwise : Type 0 where
    no_else : Otherwise
    else_part : Blocks → Otherwise

unfoldable mutual
  pub events : Blocks → List Event
  events done = []
  events (line t bs) = text t ∷ events bs
  events (branch c loc first second bs) =
      opened c loc ∷ (events first ++ (else_events second ++ closed ∷ events bs))

  pub else_events : Otherwise → List Event
  else_events no_else = []
  else_events (else_part second) = otherwise ∷ events second

-- The lines of the branches that are chosen.
unfoldable mutual
  pub chosen : Blocks → List Bytes
  chosen done = []
  chosen (line t bs) = t ∷ chosen bs
  chosen (branch c loc first second bs) =
      (if c then chosen first else chosen_else second) ++ chosen bs

  pub chosen_else : Otherwise → List Bytes
  chosen_else no_else = []
  chosen_else (else_part second) = chosen second

pub record Outcome : Type 0 where
  pub passed : List Bytes
  pub conds : List CondFrame

abbrev pub outcome : List Bytes → List CondFrame → Outcome
outcome p c = record { passed = p; conds = c }

abbrev behind : List Bytes → Option Outcome → Option Outcome
behind p none = none
behind p (some o) = some (outcome (p ++ o.passed) o.conds)

-- The loop over the lines, as far as conditionals go; `none` is a report of a stray directive.
unfoldable pub run : List Event → List CondFrame → Option Outcome
run [] conds = some (outcome [] conds)
run (text t ∷ es) conds = behind (if is_emitting conds then t ∷ [] else []) (run es conds)
run (opened c loc ∷ es) conds = run es (push_cond_frame conds c loc)
run (otherwise ∷ es) [] = none
run (otherwise ∷ es) (cf ∷ conds) = run es (flip_branch cf ∷ conds)
run (closed ∷ es) [] = none
run (closed ∷ es) (cf ∷ conds) = run es conds

-- What a text lets through under a stack.
abbrev visible : List CondFrame → List Bytes → List Bytes
visible conds ts = if is_emitting conds then ts else []

behind-behind : (a b : List Bytes) (o : Option Outcome) → behind a (behind b o) ≡ behind (a ++ b) o
behind-behind a b none = refl
behind-behind a b (some o) = ap (λ p. some (outcome p o.conds)) (sym (append_assoc a b o.passed))

pushed_visible :
    (conds : List CondFrame) (c : Bool) (loc : SourceRange) (ts : List Bytes)
    → visible (push_cond_frame conds c loc) ts ≡ (if c then visible conds ts else [])
unfolding push_cond_frame is_emitting
pushed_visible [] c loc ts = ground arith
pushed_visible (cf ∷ conds) c loc ts = ground arith

flipped : List CondFrame → Bool → SourceRange → CondFrame
flipped conds c loc = flip_branch (record {
  currently_emitting = if not (is_emitting conds) then false else c;
  any_branch_taken = if not (is_emitting conds) then false else c;
  parent_suppressed = not (is_emitting conds);
  opener_loc = loc;
})

visible-flipped :
    (conds : List CondFrame) (c : Bool) (loc : SourceRange) (ts : List Bytes)
    → visible (flipped conds c loc ∷ conds) ts ≡ (if c then [] else visible conds ts)
unfolding flip_branch is_emitting flipped
visible-flipped [] c loc ts = ground arith
visible-flipped (cf ∷ conds) c loc ts = ground arith

both_branches :
    (conds : List CondFrame) (c : Bool) (a b : List Bytes)
    → (if c then visible conds a else []) ++ (if c then [] else visible conds b)
      ≡ visible conds (if c then a else b)
both_branches conds true a b = append-nil _
both_branches conds false a b = refl

visible-append :
    (conds : List CondFrame) (a b : List Bytes)
    → visible conds a ++ visible conds b ≡ visible conds (a ++ b)
visible-append conds a b = ground arith

behind-nil : (o : Option Outcome) → behind [] o ≡ o
behind-nil none = refl
behind-nil (some o) = refl

visible-nil : (conds : List CondFrame) → visible conds [] ≡ []
visible-nil conds = ground arith

run-text :
    (t : Bytes) (es : List Event) (conds : List CondFrame) (ts : List Bytes) (o : Option Outcome)
    → run es conds ≡ behind (visible conds ts) o
    → run (text t ∷ es) conds ≡ behind (visible conds (t ∷ ts)) o
unfolding run
run-text t es conds ts o h =
    ap (behind (visible conds (t ∷ []))) h
    ∙ behind-behind (visible conds (t ∷ [])) (visible conds ts) o
    ∙ ap (λ p. behind p o) (visible-append conds (t ∷ []) ts)

regroup :
    (a b : List Event) (e : Event) (c d : List Event)
    → (a ++ (b ++ e ∷ c)) ++ d ≡ a ++ (b ++ e ∷ (c ++ d))
regroup a b e c d = append_assoc a (b ++ e ∷ c) d ∙ ap (λ x. a ++ x) (append_assoc b (e ∷ c) d)

-- A conditional, from what its parts let through.
run-branch :
    (c : Bool) (loc : SourceRange) (a b d es : List Event) (conds : List CondFrame)
    (first second rest : List Bytes) (o : Option Outcome)
    → ((es : List Event)
        → run (a ++ es) (push_cond_frame conds c loc)
          ≡ behind
              (visible (push_cond_frame conds c loc) first)
              (run es (push_cond_frame conds c loc)))
    → run (b ++ closed ∷ (d ++ es)) (push_cond_frame conds c loc)
      ≡ behind (if c then [] else visible conds second) (run (d ++ es) conds)
    → run (d ++ es) conds ≡ behind (visible conds rest) o
    → run (opened c loc ∷ ((a ++ (b ++ closed ∷ d)) ++ es)) conds
      ≡ behind (visible conds ((if c then first else second) ++ rest)) o
unfolding run
run-branch c loc a b d es conds first second rest o h k m =
    ap (λ x. run x (push_cond_frame conds c loc)) (regroup a b closed d es)
    ∙ h (b ++ closed ∷ (d ++ es))
    ∙ ap (behind (visible (push_cond_frame conds c loc) first))
        (k ∙ ap (behind (if c then [] else visible conds second)) m)
    ∙ ap
        (λ v.
          behind v
            (behind (if c then [] else visible conds second) (behind (visible conds rest) o)))
        (pushed_visible conds c loc first)
    ∙ behind-behind (if c then visible conds first else []) (if c then [] else visible conds second)
        _
    ∙ ap (λ v. behind v (behind (visible conds rest) o)) (both_branches conds c first second)
    ∙ behind-behind (visible conds (if c then first else second)) (visible conds rest) o
    ∙ ap (λ v. behind v o) (visible-append conds (if c then first else second) rest)

run-closed :
    (c : Bool) (loc : SourceRange) (es : List Event) (conds : List CondFrame)
    → run (closed ∷ es) (push_cond_frame conds c loc)
      ≡ behind (if c then [] else visible conds []) (run es conds)
unfolding run push_cond_frame
run-closed true loc es conds = sym (behind-nil (run es conds))
run-closed false loc es conds =
    sym (ap (λ v. behind v (run es conds)) (visible-nil conds) ∙ behind-nil (run es conds))

run-otherwise :
    (c : Bool) (loc : SourceRange) (a es : List Event) (conds : List CondFrame)
    (second : List Bytes)
    → run (a ++ closed ∷ es) (flipped conds c loc ∷ conds)
      ≡ behind
          (visible (flipped conds c loc ∷ conds) second)
          (run (closed ∷ es) (flipped conds c loc ∷ conds))
    → run (otherwise ∷ (a ++ closed ∷ es)) (push_cond_frame conds c loc)
      ≡ behind (if c then [] else visible conds second) (run es conds)
unfolding run push_cond_frame flipped
run-otherwise c loc a es conds second h =
    h ∙ ap (λ v. behind v (run es conds)) (visible-flipped conds c loc second)

run-end :
    (bs : Blocks) (conds : List CondFrame)
    → behind (visible conds (chosen bs)) (run [] conds)
      ≡ some (outcome (visible conds (chosen bs)) conds)
unfolding run
run-end bs conds = ap (λ p. some (outcome p conds)) (append-nil (visible conds (chosen bs)))

mutual
  unfolding events chosen

  run-events :
      (bs : Blocks) (es : List Event) (conds : List CondFrame)
      → run (events bs ++ es) conds ≡ behind (visible conds (chosen bs)) (run es conds)
  run-events done es conds =
      sym (ap (λ v. behind v (run es conds)) (visible-nil conds) ∙ behind-nil (run es conds))
  run-events (line t bs) es conds =
      run-text t (events bs ++ es) conds (chosen bs) (run es conds) (run-events bs es conds)
  run-events (branch c loc first second bs) es conds =
      run-branch c loc (events first) (else_events second) (events bs) es conds (chosen first)
        (chosen_else second) (chosen bs) (run es conds)
        (λ es. run-events first es (push_cond_frame conds c loc))
        (run-else second c loc (events bs ++ es) conds) (run-events bs es conds)

  run-else :
      (o : Otherwise) (c : Bool) (loc : SourceRange) (es : List Event) (conds : List CondFrame)
      → run (else_events o ++ closed ∷ es) (push_cond_frame conds c loc)
        ≡ behind (if c then [] else visible conds (chosen_else o)) (run es conds)
  run-else no_else c loc es conds = run-closed c loc es conds
  run-else (else_part second) c loc es conds =
      run-otherwise c loc (events second) es conds (chosen second)
        (run-events second (closed ∷ es) (flipped conds c loc ∷ conds))

-- A text with balanced conditionals leaves the stack of frames as it was, reports no stray directive,
-- and lets through the lines of the chosen branches, in order, where the stack emits, and none where
-- an outer branch is suppressed.
pub run_lem :
    (bs : Blocks) (conds : List CondFrame)
    → run (events bs) conds ≡ some (outcome (if is_emitting conds then chosen bs else []) conds)
run_lem bs conds =
    ap (λ es. run es conds) (sym (append-nil (events bs)))
    ∙ run-events bs [] conds
    ∙ run-end bs conds
