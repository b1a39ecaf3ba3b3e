-- ===== src/Preprocess/Driver/Termination.antt =====
-- The loop ends: an included file stands one level deeper, of 256 levels, and a round in a file passes a
-- byte of it at least.
use nslc.Basic.Manager.{SourceManager, Buffer, buffer_or_null}
use nslc.Basic.Manager.Grows.{Extends, Extends-trans}
use nslc.Preprocess.Driver.Loop.{Ended, finished, aborted, out_of_fuel, run_loop, round_on}
use nslc.Preprocess.Driver.Rounds.{Effect, stays, enters, leaves, Reads, round_on-Effect}
use nslc.Preprocess.Driver.State.{Frame, State, Setting}
use nslc.Prelude.{
  ℕ, zero, suc, ◌+◌, ◌<◌, ◌≤◌, ◌≡◌, ◌≢◌, refl, sym, ap, ◌∙◌, List, [], ◌∷◌, none, some, length,
  arith, Option-cases, inl, inr,
}

-- With enough fuel the loop ends, always in the same way.
abbrev pub Ends : Setting → State → Type 0
Ends env st =
    (fuel : ℕ) × (e : Ended) × (e ≢ out_of_fuel) × ((more : ℕ) → run_loop env (fuel + more) st ≡ e)

finished-out : (st : State) → finished st ≢ out_of_fuel
finished-out st e = cc e

aborted-out : aborted ≢ out_of_fuel
aborted-out e = cc e

same_length : (b c : Buffer) → some b ≡ some c → length b.bytes ≡ length c.bytes
same_length b c e = cc e

module _ (env : Setting) where
  run_loop-none :
      (n : ℕ) (st : State) → st.include_stack ≡ [] → run_loop env (suc n) st ≡ finished st
  unfolding run_loop
  run_loop-none n st top = ground (arith, top)

  run_loop-aborted :
      (n : ℕ) (st : State) (f : Frame) (frames : List Frame)
      → st.include_stack ≡ f ∷ frames
      → round_on env st f frames ≡ none
      → run_loop env (suc n) st ≡ aborted
  unfolding run_loop
  run_loop-aborted n st f frames top e = ground (arith, top, e)

  run_loop-round :
      (n : ℕ) (st st' : State) (f : Frame) (frames : List Frame)
      → st.include_stack ≡ f ∷ frames
      → round_on env st f frames ≡ some st'
      → run_loop env (suc n) st ≡ run_loop env n st'
  unfolding run_loop
  run_loop-round n st st' f frames top e = ground (arith, top, e)

  with_fuel : (st : State) (a b : ℕ) → a ≡ b → run_loop env a st ≡ run_loop env b st
  with_fuel st a b e = ap (λ n. run_loop env n st) e

  no_frame-Ends : (st : State) → st.include_stack ≡ [] → Ends env st
  no_frame-Ends st top = (
    1,
    finished st,
    finished-out st,
    λ more. with_fuel st (1 + more) (suc more) (omega arith) ∙ run_loop-none more st top,
  )

  aborted-Ends :
      (st : State) (f : Frame) (frames : List Frame)
      → st.include_stack ≡ f ∷ frames
      → round_on env st f frames ≡ none
      → Ends env st
  aborted-Ends st f frames top e = (
    1,
    aborted,
    aborted-out,
    λ more.
        with_fuel st (1 + more) (suc more) (omega arith) ∙ run_loop-aborted more st f frames top e,
  )

  round-Ends :
      (st st' : State) (f : Frame) (frames : List Frame)
      → st.include_stack ≡ f ∷ frames
      → round_on env st f frames ≡ some st'
      → Ends env st'
      → Ends env st
  round-Ends st st' f frames top e (fuel, r, n, h) = (
    suc fuel,
    r,
    n,
    λ more.
        with_fuel st (suc fuel + more) (suc (fuel + more)) (omega arith)
        ∙ run_loop-round (fuel + more) st st' f frames top e
        ∙ h more,
  )

  next-Ends :
      (st : State) (f : Frame) (frames : List Frame)
      → st.include_stack ≡ f ∷ frames
      → ((st' : State) → Effect f frames st st' → Ends env st')
      → Ends env st
  next-Ends st f frames top next = elim (Option-cases (round_on env st f frames)) [
    | inl e ↦ aborted-Ends st f frames top e
    | inr s ↦
        round-Ends st (s.0) f frames top (s.1)
          (next (s.0) ((round_on-Effect env st f frames top).gives (s.0) (s.1)))
  ]

  -- What is to be shown of the states behind a frame.
  abbrev Behind : SourceManager → List Frame → Type 0
  Behind sm frames = (st : State) → st.include_stack ≡ frames → Extends sm st.sm → Ends env st

  -- What is to be shown of the frames at a level, `k` levels above the deepest.
  abbrev Level : ℕ → Type 0
  Level k =
      (f : Frame) (frames : List Frame) (st : State)
      → st.include_stack ≡ f ∷ frames
      → 256 ≤ length (f ∷ frames) + k
      → Behind st.sm frames
      → Ends env st

  -- The same of a file that is entered from a frame at that level.
  abbrev Inner : ℕ → Type 0
  Inner k =
      (inner g : Frame) (frames : List Frame) (st : State)
      → st.include_stack ≡ inner ∷ g ∷ frames
      → length (inner ∷ g ∷ frames) ≤ 256
      → 256 ≤ length (g ∷ frames) + k
      → Behind st.sm (g ∷ frames)
      → Ends env st

  -- The rest of a file, `n` bytes at most.
  abbrev Rest : ℕ → ℕ → Type 0
  Rest k n =
      (f : Frame) (frames : List Frame) (st : State) (b : Buffer)
      → st.include_stack ≡ f ∷ frames
      → 256 ≤ length (f ∷ frames) + k
      → buffer_or_null st.sm f.fid ≡ some b
      → length b.bytes ≤ f.cursor + n
      → Behind st.sm frames
      → Ends env st

  Behind-later :
      (sm sm' : SourceManager) (frames : List Frame)
      → Extends sm sm'
      → Behind sm frames
      → Behind sm' frames
  Behind-later sm sm' frames x h st top y = h st top (Extends-trans sm sm' st.sm x y)

  -- The frame on top after a round has the buffer of the frame before it, and less of it is left.
  next-Rest :
      (k n m : ℕ) (f g : Frame) (frames : List Frame) (st st' : State) (b : Buffer)
      → Rest k m
      → length b.bytes ≤ f.cursor + n
      → n ≤ suc m
      → buffer_or_null st.sm f.fid ≡ some b
      → 256 ≤ length (f ∷ frames) + k
      → st'.include_stack ≡ g ∷ frames
      → g.fid ≡ f.fid
      → f.cursor < g.cursor
      → Extends st.sm st'.sm
      → Behind st'.sm frames
      → Ends env st'
  next-Rest k n m f g frames st st' b rest short less there deep top same far x behind =
      let kept = x f.fid b there in
      rest g frames st' (kept.0) top deep (ap (buffer_or_null st'.sm) same ∙ kept.1)
        (omega (arith, short, less, far, ap length (kept.2))) behind

  step-Rest :
      (k n m : ℕ) (f : Frame) (frames : List Frame) (st : State) (b : Buffer)
      → Inner k
      → Rest k m
      → length b.bytes ≤ f.cursor + n
      → n ≤ suc m
      → buffer_or_null st.sm f.fid ≡ some b
      → 256 ≤ length (f ∷ frames) + k
      → Behind st.sm frames
      → (st' : State) → Effect f frames st st'
      → Ends env st'
  step-Rest k n m f frames st b inner rest short less there deep behind st' (leaves top x p) =
      behind st' top x
  step-Rest k n m f frames st b inner rest short less there deep behind st'
        (stays g top same far r x i) =
      next-Rest k n m f g frames st st' b rest short less there deep top same far x
        (Behind-later st.sm st'.sm frames x behind)
  step-Rest k n m f frames st b inner rest short less there deep behind st'
        (enters g in_file top same far r x room i) =
      inner in_file g frames st' top room deep (λ st'' top' y.
        next-Rest k n m f g frames st st'' b rest short less there deep top' same far
          (Extends-trans st.sm st'.sm st''.sm x y)
          (Behind-later st.sm st''.sm frames (Extends-trans st.sm st'.sm st''.sm x y) behind))

  nothing_left :
      (f : Frame) (st : State) (b : Buffer)
      → length b.bytes ≤ f.cursor
      → buffer_or_null st.sm f.fid ≡ some b
      → Reads st f
      → ⊥
  nothing_left f st b short there r =
      omega (arith, short, r.left, same_length b r.buffer (sym there ∙ r.there))

  -- Nothing is left: there is no line to read.
  at_end :
      (k : ℕ) (f : Frame) (frames : List Frame) (st : State) (b : Buffer)
      → length b.bytes ≤ f.cursor
      → buffer_or_null st.sm f.fid ≡ some b
      → Behind st.sm frames
      → (st' : State) → Effect f frames st st'
      → Ends env st'
  at_end k f frames st b short there behind st' (leaves top x p) = behind st' top x
  at_end k f frames st b short there behind st' (stays g top same far r x i) =
      absurd (nothing_left f st b short there r)
  at_end k f frames st b short there behind st' (enters g in_file top same far r x room i) =
      absurd (nothing_left f st b short there r)

  Rest-Inner : (k : ℕ) → Inner k → (n : ℕ) → Rest k n
  Rest-Inner k inner zero f frames st b top deep there short behind =
      next-Ends st f frames top (at_end k f frames st b (omega arith) there behind)
  Rest-Inner k inner (suc n) f frames st b top deep there short behind = next-Ends st f frames top (
      step-Rest k (suc n) n f frames st b inner (Rest-Inner k inner n) short (omega arith) there
        deep behind)

  no_buffer :
      (st : State) (f : Frame) (frames : List Frame)
      → buffer_or_null st.sm f.fid ≡ none
      → round_on env st f frames ≡ none
  unfolding round_on
  no_buffer st f frames e = ground (arith, e)

  Level-Inner : (k : ℕ) → Inner k → Level k
  Level-Inner k inner f frames st top deep behind =
      elim (Option-cases (buffer_or_null st.sm f.fid)) [
        | inl e ↦ aborted-Ends st f frames top (no_buffer st f frames e)
        | inr b ↦
            Rest-Inner k inner (length (b.0).bytes) f frames st (b.0) top deep (b.1) (omega arith)
              behind
      ]

  Inner-all : (k : ℕ) → Inner k
  Inner-all zero in_file g frames st top room deep behind = absurd (omega (arith, room, deep))
  Inner-all (suc k) in_file g frames st top room deep behind =
      Level-Inner k (Inner-all k) in_file (g ∷ frames) st top (omega (arith, deep)) behind

  frames-Ends : (frames : List Frame) (st : State) → st.include_stack ≡ frames → Ends env st
  frames-Ends [] st top = no_frame-Ends st top
  frames-Ends (f ∷ frames) st top =
      Level-Inner 256 (Inner-all 256) f frames st top (omega arith)
        (λ st' e x. frames-Ends frames st' e)

-- Whatever the files say, the loop over the frames ends, from any state and with any file system and
-- any evaluation of expressions that returns: some fuel is enough, and more fuel gives the same.
pub run_loop-Ends : (env : Setting) (st : State) → Ends env st
run_loop-Ends env st = frames-Ends env st.include_stack st refl
