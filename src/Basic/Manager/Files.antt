-- ===== src/Basic/Manager/Files.antt =====
-- A file has one FileID: what `loadFile` and `allocate` do to the buffers.
use mathlib.Core.Path.{subst}
use nslc.Basic.Location.{FileId, is_valid_file}
use nslc.Basic.Manager.Defs.{
  Buffer, SourceManager, buffer_or_null, added, abort, new_buffer, allocate, has_path, find_path,
  load_file, find_file_id_by_path,
}
use nslc.Prelude.{
  ℕ, zero, suc, ◌+◌, ◌%◌, ◌<◌, ◌≤◌, ◌⊎◌, ◌-◌, ◌≡◌, refl, sym, ◌∙◌, ap, Bytes, true, false, List, [],
  ◌∷◌, ◌++◌, Option, none, some, bytes_eq_iff, get_or, get_or-append, drop, length, length-append,
  length-drop, arith, Option-cases, inl, inr, Bool-cases,
}

get_or-last :
    (xs : List (Option Buffer)) (b : Option Buffer) → get_or (xs ++ b ∷ []) (length xs) none ≡ b
get_or-last [] b = refl
get_or-last (x ∷ xs) b = get_or-last xs b

-- Where the null entry stands, a buffer is added at the next FileID, from 1 to 255, every older FileID keeps its buffer, and the
-- call aborts exactly where 255 buffers stand.
pub allocate_lem :
    (sm : SourceManager) (path bytes : Bytes)
    → 1 ≤ length sm.buffers
    → (length sm.buffers ≤ 255
        → (after : SourceManager) × (allocate sm path bytes ≡ added after (length sm.buffers))
          × (buffer_or_null after (length sm.buffers) ≡ some (new_buffer path bytes))
          × ((f : FileId) → f < length sm.buffers → buffer_or_null after f ≡ buffer_or_null sm f))
      × (255 < length sm.buffers → allocate sm path bytes ≡ abort)
unfolding allocate buffer_or_null is_valid_file
allocate_lem sm path bytes w = (
  λ h. (
    record sm { buffers = sm.buffers ++ some (new_buffer path bytes) ∷ [] },
    ground arith,
    ground (
      arith,
      get_or-last sm.buffers (some (new_buffer path bytes)),
      length-append sm.buffers (some (new_buffer path bytes) ∷ []),
    ),
    λ f l. ground (
      arith,
      get_or-append sm.buffers (some (new_buffer path bytes) ∷ []) f none l,
      length-append sm.buffers (some (new_buffer path bytes) ∷ []),
    ),
  ),
  λ h. ground arith,
)

find_path-append :
    (xs : List (Option Buffer)) (i : ℕ) (path bytes : Bytes)
    → find_path xs i path ≡ none
    → find_path (xs ++ some (new_buffer path bytes) ∷ []) i path ≡ some ((i + length xs) % 256)
unfolding find_path has_path
find_path-append [] i path bytes h = ground (arith, bytes_eq_iff path path)
find_path-append (x ∷ xs) i path bytes h = ground (arith, find_path-append xs (i + 1) path bytes)

get_or-first :
    (x : Option Buffer) (xs : List (Option Buffer)) (d : ℕ) → d ≡ 0 → get_or (x ∷ xs) d none ≡ x
get_or-first x xs zero e = refl
get_or-first x xs (suc d) e = absurd (omega arith)

get_or-later :
    (x : Option Buffer) (xs : List (Option Buffer)) (d k : ℕ)
    → d ≡ suc k
    → get_or (x ∷ xs) d none ≡ get_or xs k none
get_or-later x xs zero k e = absurd (omega arith)
get_or-later x xs (suc d) k e = ap (λ n. get_or xs n none) (omega arith)

find_path-hit :
    (x : Option Buffer) (xs : List (Option Buffer)) (i : ℕ) (path : Bytes) (f : FileId)
    → has_path path x ≡ true
    → find_path (x ∷ xs) i path ≡ some f
    → i < 256
    → f ≡ i
unfolding find_path
find_path-hit x xs i path f t e w = ground arith

find_path-miss :
    (x : Option Buffer) (xs : List (Option Buffer)) (i : ℕ) (path : Bytes)
    → has_path path x ≡ false
    → find_path (x ∷ xs) i path ≡ find_path xs (i + 1) path
unfolding find_path
find_path-miss x xs i path t = ground arith

find_path-get :
    (xs : List (Option Buffer)) (i : ℕ) (path : Bytes) (f : FileId)
    → i + length xs ≤ 256
    → find_path xs i path ≡ some f
    → (i ≤ f) × (f < i + length xs) × (has_path path (get_or xs (f - i) none) ≡ true)
unfolding find_path
find_path-get [] i path f w e = ground arith
find_path-get (x ∷ xs) i path f w e = elim (Bool-cases (has_path path x)) [
  | inl t ↦
      let here = find_path-hit x xs i path f t e (omega arith) in
      (
        omega (arith, here),
        omega (arith, here),
        ap (has_path path) (get_or-first x xs (f - i) (omega (arith, here))) ∙ t,
      )
  | inr t ↦
      let ih =
        find_path-get xs (i + 1) path f (omega arith) (sym (find_path-miss x xs i path t) ∙ e) in
      (
        omega (arith, ih.0),
        omega (arith, ih.1),
        ap (has_path path) (get_or-later x xs (f - i) (f - (i + 1)) (omega (arith, ih.0))) ∙ ih.2,
      )
]

pub load_file-cases :
    (read : Bytes → Option Bytes) (sm : SourceManager) (path : Bytes) (after : SourceManager)
    (f : FileId)
    → load_file read sm path ≡ added after f
    → ((after ≡ sm) × (find_path (drop 1 sm.buffers) 1 path ≡ some f))
      ⊎ ((find_path (drop 1 sm.buffers) 1 path ≡ none)
          × (bytes : Bytes) × (allocate sm path bytes ≡ added after f))
unfolding load_file
load_file-cases read sm path after f e =
    elim (Option-cases (find_path (drop 1 sm.buffers) 1 path)) [
      | inl n ↦ elim (Option-cases (read path)) [
        | inl r ↦ ground arith
        | inr r ↦ inr (n, r.0, ground arith)
      ]
      | inr s ↦ inl (ground arith)
    ]

get_or-drop :
    (xs : List (Option Buffer)) (f : ℕ) → 1 ≤ f → get_or xs f none ≡ get_or (drop 1 xs) (f - 1) none
get_or-drop [] f h = refl
get_or-drop (x ∷ xs) zero h = absurd (omega arith)
get_or-drop (x ∷ xs) (suc f) h = ap (λ n. get_or xs n none) (omega arith)

drop-append : (xs ys : List (Option Buffer)) → 1 ≤ length xs → drop 1 (xs ++ ys) ≡ drop 1 xs ++ ys
drop-append [] ys h = absurd (omega arith)
drop-append (x ∷ xs) ys h = refl

buffer_or_null-in :
    (sm : SourceManager) (f : FileId)
    → 1 ≤ f
    → f < length sm.buffers
    → buffer_or_null sm f ≡ get_or sm.buffers f none
unfolding buffer_or_null is_valid_file
buffer_or_null-in sm f h l = ground arith

find_path-buffer :
    (sm : SourceManager) (path : Bytes) (f : FileId)
    → 1 ≤ length sm.buffers
    → length sm.buffers ≤ 256
    → find_path (drop 1 sm.buffers) 1 path ≡ some f
    → has_path path (buffer_or_null sm f) ≡ true
find_path-buffer sm path f l u e =
    let found =
      find_path-get (drop 1 sm.buffers) 1 path f (omega (arith, length-drop 1 sm.buffers)) e in
    ap (has_path path) (
      buffer_or_null-in sm f (found.0) (omega (arith, found.1, length-drop 1 sm.buffers))
      ∙ get_or-drop sm.buffers f (found.0))
    ∙ found.2

pub allocate_eq :
    (sm : SourceManager) (path bytes : Bytes) (after : SourceManager) (f : FileId)
    → allocate sm path bytes ≡ added after f
    → (length sm.buffers ≤ 255)
      × (after.buffers ≡ sm.buffers ++ some (new_buffer path bytes) ∷ [])
      × (f ≡ length sm.buffers % 256)
unfolding allocate
allocate_eq sm path bytes after f e = ground arith

allocate-find_path :
    (sm : SourceManager) (path bytes : Bytes) (after : SourceManager) (f : FileId)
    → 1 ≤ length sm.buffers
    → find_path (drop 1 sm.buffers) 1 path ≡ none
    → allocate sm path bytes ≡ added after f
    → (find_path (drop 1 after.buffers) 1 path ≡ some f)
      × (1 ≤ length after.buffers)
      × (length after.buffers ≤ 256)
allocate-find_path sm path bytes after f l n e =
    let made = allocate_eq sm path bytes after f e in
    let longer =
      ap length (made.1) ∙ length-append sm.buffers (some (new_buffer path bytes) ∷ []) in
    (
      ap (λ bs. find_path (drop 1 bs) 1 path) (made.1)
          ∙ ap (λ bs. find_path bs 1 path) (drop-append sm.buffers _ l)
          ∙ find_path-append (drop 1 sm.buffers) 1 path bytes n
          ∙ ap some (omega (arith, made.2, length-drop 1 sm.buffers)),
      omega (arith, longer),
      omega (arith, longer, made.0),
    )

load_file-find_path :
    (read : Bytes → Option Bytes) (sm : SourceManager) (path : Bytes) (after : SourceManager)
    (f : FileId)
    → 1 ≤ length sm.buffers
    → length sm.buffers ≤ 256
    → load_file read sm path ≡ added after f
    → (find_path (drop 1 after.buffers) 1 path ≡ some f)
      × (1 ≤ length after.buffers)
      × (length after.buffers ≤ 256)
load_file-find_path read sm path after f l u e = elim (load_file-cases read sm path after f e) [
  | inl s ↦
      subst
        (λ a.
          (find_path (drop 1 a.buffers) 1 path ≡ some f)
          × (1 ≤ length a.buffers)
          × (length a.buffers ≤ 256))
        (sym (s.0)) (s.1, l, u)
  | inr m ↦ allocate-find_path sm path (m.1) after f l (m.0) (m.2)
]

-- A file that was loaded has one FileID: loading its path again, whatever the file system says by
-- then, gives the same FileID and changes nothing, `findFileIDByPath` gives it too, and the buffer
-- of that FileID carries the path. The table holds the null entry and at most 255 buffers.
pub load_file-again :
    (read again : Bytes → Option Bytes) (sm : SourceManager) (path : Bytes) (after : SourceManager)
    (f : FileId)
    → 1 ≤ length sm.buffers
    → length sm.buffers ≤ 256
    → load_file read sm path ≡ added after f
    → (load_file again after path ≡ added after f)
      × (find_file_id_by_path after path ≡ f)
      × (has_path path (buffer_or_null after f) ≡ true)
unfolding load_file find_file_id_by_path
load_file-again read again sm path after f l u e =
    let found = load_file-find_path read sm path after f l u e in
    (
      rw (found.0, load_file) refl,
      rw (found.0, find_file_id_by_path) refl,
      find_path-buffer after path f (found.1) (found.2) (found.0),
    )
