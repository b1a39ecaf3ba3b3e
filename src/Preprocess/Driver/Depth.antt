-- ===== src/Preprocess/Driver/Depth.antt =====
-- How deep the frames can stand, and that every frame of an included file has its include frame in the
-- source manager.
use nslc.Basic.Location.{FileId}
use nslc.Basic.Manager.{SourceManager, IncludeFrame, pop_include_frame}
use nslc.Preprocess.Driver.Loop.{round_on, start}
use nslc.Preprocess.Driver.Rounds.{Effect, stays, enters, leaves, round_on-Effect}
use nslc.Preprocess.Driver.State.{Frame, State, Setting}
use nslc.Prelude.{◌-◌, ◌≤◌, ◌≡◌, refl, ap, Bytes, List, [], ◌∷◌, some, length, arith}

-- The states that rounds lead to.
pub data Reaches (env : Setting) (from : State) : State → Type 0 where
  here : Reaches env from from
  further :
      {st st' : State} (f : Frame) (frames : List Frame)
      → Reaches env from st
      → st.include_stack ≡ f ∷ frames
      → round_on env st f frames ≡ some st'
      → Reaches env from st'

pub record IsBalanced (st : State) : Type 0 where
  pub depth : length st.include_stack ≤ 256
  pub includes : length st.sm.include_stack ≡ length st.include_stack - 1

Effect-IsBalanced :
    (f : Frame) (frames : List Frame) (st st' : State)
    → st.include_stack ≡ f ∷ frames
    → IsBalanced st
    → Effect f frames st st'
    → IsBalanced st'
Effect-IsBalanced f frames st st' top b (stays g e _ _ _ _ same) = record {
  depth = omega (arith, b.depth, ap length top, ap length e);
  includes = omega (arith, b.includes, ap length top, ap length e, ap length same);
}
Effect-IsBalanced f frames st st' top b (enters g inner e _ _ _ _ room deeper) = record {
  depth = omega (arith, room, ap length e);
  includes = omega (arith, b.includes, ap length top, ap length e, deeper);
}
Effect-IsBalanced f [] st st' top b (leaves e _ p) = record {
  depth = omega (arith, ap length e);
  includes =
      omega (arith, b.includes, ap length top, ap length e, ap (λ m. length m.include_stack) p);
}
Effect-IsBalanced f (outer ∷ frames) st st' top b (leaves e _ p) = record {
  depth = omega (arith, b.depth, ap length top, ap length e);
  includes = omega (arith, b.includes, ap length top, ap length e, p);
}

Reaches-IsBalanced :
    (env : Setting) (from st : State) → IsBalanced from → Reaches env from st → IsBalanced st
Reaches-IsBalanced env from st b here = b
Reaches-IsBalanced env from st' b (further {st = st} f frames r top e) =
    Effect-IsBalanced f frames st st' top (Reaches-IsBalanced env from st b r)
      ((round_on-Effect env st f frames top).gives st' e)

pop-some :
    (sm : SourceManager) (frames : List IncludeFrame)
    → sm.include_stack ≡ frames
    → 1 ≤ length frames
    → (after : SourceManager) × (pop_include_frame sm ≡ some after)
unfolding pop_include_frame
pop-some sm [] e h = elim h [ ]
pop-some sm (frame ∷ frames) e h = (record sm { include_stack = frames }, ground (arith, e))

-- From the start on a source manager without include frames, never more than 256 frames are open, the
-- source manager has an include frame for each of them but the root, and so the pop at the end of an
-- included file does not abort.
pub Reaches_lem :
    (env : Setting) (sm : SourceManager) (macros : List (Bytes × Bytes)) (input : FileId)
    (st : State)
    → sm.include_stack ≡ []
    → Reaches env (start sm macros input) st
    → (length st.include_stack ≤ 256)
      × (length st.sm.include_stack ≡ length st.include_stack - 1)
      × ((f outer : Frame) (frames : List Frame)
          → st.include_stack ≡ f ∷ outer ∷ frames
          → (after : SourceManager) × (pop_include_frame st.sm ≡ some after))
Reaches_lem env sm macros input st e r =
    let b =
      Reaches-IsBalanced env (start sm macros input) st
        (record { depth = omega arith; includes = ap length e }) r in
    (
      b.depth,
      b.includes,
      λ f outer frames top.
          pop-some st.sm st.sm.include_stack refl (omega (arith, b.includes, ap length top)),
    )
