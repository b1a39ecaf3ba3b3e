-- ===== src/Basic/Manager/Defs.antt =====
-- The state and the operations of `SourceManager`.
use nslc.Basic.Directives.{LineDirective, add_line_directive}
use nslc.Basic.Location.{FileId, SourceLocation, no_location, is_valid_file, is_valid, file, offset}
use nslc.Prelude.{
  ℕ, zero, suc, ◌+◌, ◌%◌, Bytes, Bool, true, false, not, ◌&&◌, ◌||◌, List, [], ◌∷◌, ◌++◌, Option,
  none, some, ◌>>=◌, ◌==◌, if◌then◌else◌, leb, bytes_eq, get_or, set, replicate, drop, length,
}

-- `bytes` without the closing NUL; the table of lines, built on demand, is a function of them.
pub record Buffer : Type 0 where
  pub path : Bytes
  pub bytes : Bytes
  pub line_overrides : List LineDirective

pub record IncludeFrame : Type 0 where
  pub include_directive_loc : SourceLocation
  pub included : FileId

-- `buffers` holds the null pointer at 0; `include_stack` has its back first.
pub record SourceManager : Type 0 where
  pub buffers : List (Option Buffer)
  pub include_stack : List IncludeFrame
  pub permanent_include_sites : List SourceLocation

abbrev pub new_manager : SourceManager
new_manager = record {
  buffers = none ∷ [];
  include_stack = [];
  permanent_include_sites = replicate 256 no_location;
}

unfoldable pub buffer_or_null : SourceManager → FileId → Option Buffer
buffer_or_null sm f =
    if not (is_valid_file f) || leb (length sm.buffers) f then none else get_or sm.buffers f none

pub data Added : Type 0 where
  added : SourceManager → FileId → Added
  no_such_file abort : Added

abbrev pub new_buffer : Bytes → Bytes → Buffer
new_buffer path bytes = record { path = path; bytes = bytes; line_overrides = [] }

unfoldable pub allocate : SourceManager → Bytes → Bytes → Added
allocate sm path bytes =
    if leb (length sm.buffers) 255
    then added (record sm { buffers = sm.buffers ++ some (new_buffer path bytes) ∷ [] })
        (length sm.buffers % 256)
    else abort

unfoldable pub has_path : Bytes → Option Buffer → Bool
has_path path none = false
has_path path (some b) = bytes_eq b.path path

-- The loops of `loadFile` and `findFileIDByPath` over the buffers from the index `i` on.
unfoldable pub find_path : List (Option Buffer) → ℕ → Bytes → Option FileId
find_path [] i path = none
find_path (b ∷ buffers) i path =
    let later = find_path buffers (i + 1) path in if has_path path b then some (i % 256) else later

-- `read` is the file system: `none` for a file that does not open.
unfoldable pub load_file : (Bytes → Option Bytes) → SourceManager → Bytes → Added
load_file read sm path = elim (find_path (drop 1 sm.buffers) 1 path) [
  | some f ↦ added sm f
  | none ↦ elim (read path) [ none ↦ no_such_file | some bytes ↦ allocate sm path bytes ]
]

unfoldable pub find_file_id_by_path : SourceManager → Bytes → FileId
find_file_id_by_path sm path = elim (find_path (drop 1 sm.buffers) 1 path) [ some f ↦ f | none ↦ 0 ]

abbrev pub site_of : SourceManager → FileId → SourceLocation
site_of sm f = get_or sm.permanent_include_sites f no_location

unfoldable pub push_include_frame : SourceManager → SourceLocation → FileId → SourceManager
push_include_frame sm loc f = record sm {
  include_stack = record { include_directive_loc = loc; included = f } ∷ sm.include_stack;
  permanent_include_sites =
      if is_valid_file f && not (is_valid (site_of sm f))
      then set sm.permanent_include_sites f loc
      else sm.permanent_include_sites;
}

-- `none` is the abort on an empty stack.
unfoldable pub pop_include_frame : SourceManager → Option SourceManager
pop_include_frame sm = elim sm.include_stack [
  | [] ↦ none
  | _ ∷ frames ↦ some (record sm { include_stack = frames })
]

abbrev pub locs : List IncludeFrame → List SourceLocation
locs [] = []
locs (frame ∷ frames) = frame.include_directive_loc ∷ locs frames

-- The loop of `getIncludeStackFor`, from the back, with its flag `found`.
unfoldable pub trace_from : FileId → Bool → List IncludeFrame → List SourceLocation
trace_from f found [] = []
trace_from f true (frame ∷ frames) = frame.include_directive_loc ∷ trace_from f true frames
trace_from f false (frame ∷ frames) =
    let hit = trace_from f true frames in
    let miss = trace_from f false frames in
    if frame.included == f then frame.include_directive_loc ∷ hit else miss

unfoldable pub get_include_stack_for : SourceManager → FileId → List SourceLocation
get_include_stack_for sm f = trace_from f false sm.include_stack

-- `rounds` more rounds of the loop of `getOriginalIncludeStackFor`.
unfoldable pub climb : SourceManager → ℕ → FileId → List SourceLocation
climb sm zero cursor = []
climb sm (suc rounds) cursor =
    let above = climb sm rounds (file (site_of sm cursor)) in
    if not (is_valid_file cursor) || not (is_valid (site_of sm cursor))
    then []
    else if file (site_of sm cursor) == cursor
    then site_of sm cursor ∷ []
    else site_of sm cursor ∷ above

unfoldable pub get_original_include_stack_for : SourceManager → FileId → List SourceLocation
get_original_include_stack_for sm f = climb sm (length sm.buffers) f

-- `SourceManager::addLineDirective`; `none` is one of its aborts.
unfoldable pub add_directive : SourceManager → SourceLocation → ℕ → Bytes → Option SourceManager
add_directive sm at line path = do
  b ← buffer_or_null sm (file at)
  overrides ← add_line_directive b.line_overrides (offset at) line path
  some (record sm {
    buffers = set sm.buffers (file at) (some (record b { line_overrides = overrides }));
  })
