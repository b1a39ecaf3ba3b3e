-- ===== src/Basic/Manager/Includes.antt =====
-- lib/Basic/SourceManager.cpp: the include stack, the permanent include sites, and the trace of the stack.
use nslc.Basic.Location.{FileId, SourceLocation, is_valid_file, is_valid, no_location}
use nslc.Basic.Manager.Defs.{
  IncludeFrame, SourceManager, site_of, push_include_frame, pop_include_frame, locs, trace_from,
  get_include_stack_for,
}
use nslc.Prelude.{
  ◌<◌, ◌≡◌, refl, ap, true, not, ◌&&◌, List, [], ◌∷◌, some, ◌==◌, if◌then◌else◌, get_or-set, length,
  arith,
}

trace_from-found :
    (f : FileId) (frames : List IncludeFrame) → trace_from f true frames ≡ locs frames
unfolding trace_from
trace_from-found f [] = refl
trace_from-found f (frame ∷ frames) =
    ap (◌∷◌ frame.include_directive_loc) (trace_from-found f frames)

-- For a FileID within the array of sites, a push makes the include's location the head of the trace of the pushed file, over the locations
-- of all frames below; it records the location as the file's permanent site where the file had
-- none, and leaves every other site; and a pop gives the stack of before.
pub push_include_frame_lem :
    (sm : SourceManager) (loc : SourceLocation) (f : FileId)
    → f < length sm.permanent_include_sites
    → (get_include_stack_for (push_include_frame sm loc f) f ≡ loc ∷ locs sm.include_stack)
      × ((g : FileId)
          → site_of (push_include_frame sm loc f) g ≡ (
              if is_valid_file f && not (is_valid (site_of sm f)) && f == g
              then loc
              else site_of sm g))
      × ((after : SourceManager) × (pop_include_frame (push_include_frame sm loc f) ≡ some after)
          × (after.include_stack ≡ sm.include_stack))
unfolding push_include_frame pop_include_frame get_include_stack_for trace_from
push_include_frame_lem sm loc f h = (
  ground (arith, trace_from-found f sm.include_stack),
  λ g. ground (arith, get_or-set sm.permanent_include_sites f g loc no_location h),
  (_, refl, refl),
)
