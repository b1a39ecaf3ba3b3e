-- ===== src/Preprocess/Conditionals/Defs.antt =====
-- `CondFrame` and what `#if`, `#else` and `#endif` do to the stack of one file, its back first.
use nslc.Basic.Location.{SourceRange}
use nslc.Prelude.{Bool, true, false, not, List, [], ◌∷◌, Option, none, some, if◌then◌else◌}

pub record CondFrame : Type 0 where
  pub currently_emitting : Bool
  pub any_branch_taken : Bool
  pub parent_suppressed : Bool
  pub opener_loc : SourceRange

unfoldable pub is_emitting : List CondFrame → Bool
is_emitting [] = true
is_emitting (cf ∷ conds) = cf.currently_emitting

unfoldable pub push_cond_frame : List CondFrame → Bool → SourceRange → List CondFrame
push_cond_frame conds taken_now opener =
    let suppressed = not (is_emitting conds) in
    record {
      currently_emitting = if suppressed then false else taken_now;
      any_branch_taken = if suppressed then false else taken_now;
      parent_suppressed = suppressed;
      opener_loc = opener;
    }
    ∷ conds

-- What `handleElse` does to the innermost frame.
unfoldable pub flip_branch : CondFrame → CondFrame
flip_branch cf =
    if cf.parent_suppressed
    then record cf { currently_emitting = false }
    else if cf.any_branch_taken
    then record cf { currently_emitting = false }
    else record cf { currently_emitting = true; any_branch_taken = true }

-- `none` is the report of a directive without an opener, here and below.
unfoldable pub else_cond : List CondFrame → Option (List CondFrame)
else_cond [] = none
else_cond (cf ∷ conds) = some (flip_branch cf ∷ conds)

unfoldable pub end_cond : List CondFrame → Option (List CondFrame)
end_cond [] = none
end_cond (cf ∷ conds) = some conds
