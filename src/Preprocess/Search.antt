-- ===== src/Preprocess/Search.antt =====
-- lib/Preprocess/Preprocessor.cpp: the class `IncludeSearchPath`. `exists` is the file system: whether
-- a path opens for reading.
use nslc.Prelude.{
  ℕ, zero, suc, ◌≡◌, refl, ap, ◌∙◌, append_assoc, Bytes, Bool, true, false, not, List, [], ◌∷◌,
  ◌++◌, map, Option, none, some, if◌then◌else◌, ◌==◌, run_length, take, drop, length, All,
  Bool-cases, inl, inr,
}

pub record IncludeSearchPath : Type 0 where
  pub quote_paths : List Bytes
  pub angle_paths : List Bytes
  pub angle_env_populated : Bool

unfoldable pub last_is_slash : Bytes → Bool
last_is_slash [] = false
last_is_slash (c ∷ []) = c == b'/'
last_is_slash (c ∷ d ∷ r) = last_is_slash (d ∷ r)

unfoldable pub join_path : Bytes → Bytes → Bytes
join_path [] name = name
join_path (c ∷ dir) name =
    if last_is_slash (c ∷ dir) then (c ∷ dir) ++ name else (c ∷ dir) ++ b'/' ∷ name

unfoldable pub has_slash : Bytes → Bool
has_slash [] = false
has_slash (c ∷ r) = let later = has_slash r in if c == b'/' then true else later

-- The bytes before the last slash, none without one.
unfoldable pub dir_of : Bytes → Bytes
dir_of [] = []
dir_of (c ∷ r) = let later = dir_of r in if has_slash r then c ∷ later else []

unfoldable pub append_quote_path : IncludeSearchPath → Bytes → IncludeSearchPath
append_quote_path search dir = record search { quote_paths = search.quote_paths ++ dir ∷ [] }

unfoldable pub append_angle_path : IncludeSearchPath → Bytes → IncludeSearchPath
append_angle_path search dir = record search { angle_paths = search.angle_paths ++ dir ∷ [] }

-- The loop over the text of the variable; a round passes a byte at least.
unfoldable pub split_env : ℕ → Bytes → List Bytes
split_env zero rest = []
split_env (suc fuel) [] = []
split_env (suc fuel) (c ∷ r) =
    let n = run_length (λ c. not (c == b':')) (c ∷ r) in
    let later = split_env fuel (drop (suc n) (c ∷ r)) in
    elim (drop n (c ∷ r)) [ [] ↦ (c ∷ r) ∷ [] | _ ∷ _ ↦ take n (c ∷ r) ∷ later ]

-- `env` is the value of NSL_INCLUDE; `none` is the assertion on a second call.
unfoldable pub populate_angle_from_env : Option Bytes → IncludeSearchPath → Option IncludeSearchPath
populate_angle_from_env env search =
    if search.angle_env_populated
    then none
    else some (record search {
      angle_env_populated = true;
      angle_paths =
          search.angle_paths ++ elim env [ none ↦ [] | some text ↦ split_env (length text) text ];
    })

-- The loop over the registered directories.
unfoldable pub find_in : (Bytes → Bool) → Bytes → List Bytes → Option Bytes
find_in exists filename [] = none
find_in exists filename (dir ∷ dirs) =
    let later = find_in exists filename dirs in
    if exists (join_path dir filename) then some (join_path dir filename) else later

unfoldable pub find_quote : (Bytes → Bool) → IncludeSearchPath → Bytes → Bytes → Option Bytes
find_quote exists search filename [] =
    if exists filename then some filename else find_in exists filename search.quote_paths
find_quote exists search filename (c ∷ including_dir) =
    if exists (join_path (c ∷ including_dir) filename)
    then some (join_path (c ∷ including_dir) filename)
    else find_in exists filename search.quote_paths

unfoldable pub find_angle : (Bytes → Bool) → IncludeSearchPath → Bytes → Option Bytes
find_angle exists search filename = find_in exists filename search.angle_paths

-- The result is the first of the candidates that exists.
unfoldable pub IsFirst : (Bytes → Bool) → List Bytes → Option Bytes → Type 0
IsFirst exists candidates none = All (λ p. exists p ≡ false) candidates
IsFirst exists candidates (some p) =
    (before after : List Bytes) × (candidates ≡ before ++ p ∷ after)
    × All (λ q. exists q ≡ false) before
    × (exists p ≡ true)

-- Where `#include` looks, in order.
abbrev pub quote_candidates : IncludeSearchPath → Bytes → Bytes → List Bytes
quote_candidates search filename including_dir =
    join_path including_dir filename ∷ map (λ dir. join_path dir filename) search.quote_paths

abbrev pub angle_candidates : IncludeSearchPath → Bytes → List Bytes
angle_candidates search filename = map (λ dir. join_path dir filename) search.angle_paths

IsFirst-hit :
    (exists : Bytes → Bool) (p : Bytes) (ps : List Bytes)
    → exists p ≡ true
    → IsFirst exists (p ∷ ps) (some p)
unfolding IsFirst
IsFirst-hit exists p ps h = ([], ps, refl, tt, h)

IsFirst-miss :
    (exists : Bytes → Bool) (p : Bytes) (ps : List Bytes) (o : Option Bytes)
    → exists p ≡ false
    → IsFirst exists ps o
    → IsFirst exists (p ∷ ps) o
unfolding IsFirst
IsFirst-miss exists p ps none h f = (h, f)
IsFirst-miss exists p ps (some q) h (before, after, e, missing, found) =
    (p ∷ before, after, ap (◌∷◌ p) e, (h, missing), found)

find_in-IsFirst :
    (exists : Bytes → Bool) (filename : Bytes) (dirs : List Bytes)
    → IsFirst exists (map (λ dir. join_path dir filename) dirs) (find_in exists filename dirs)
unfolding find_in
find_in-IsFirst exists filename [] = unfold IsFirst in tt
find_in-IsFirst exists filename (dir ∷ dirs) =
    let rest = find_in-IsFirst exists filename dirs in
    elim (Bool-cases (exists (join_path dir filename))) [
      | inl h ↦ rw h (IsFirst-hit exists _ _ h)
      | inr h ↦ rw h (IsFirst-miss exists _ _ _ h rest)
    ]

find_quote-front :
    (exists : Bytes → Bool) (search : IncludeSearchPath) (filename including_dir : Bytes)
    → find_quote exists search filename including_dir ≡ (
        if exists (join_path including_dir filename)
        then some (join_path including_dir filename)
        else find_in exists filename search.quote_paths)
unfolding find_quote join_path
find_quote-front exists search filename [] = refl
find_quote-front exists search filename (c ∷ dir) = refl

last_is_slash-snoc : (dir : Bytes) (c : ℕ) → last_is_slash (dir ++ c ∷ []) ≡ (c == b'/')
unfolding last_is_slash
last_is_slash-snoc [] c = refl
last_is_slash-snoc (x ∷ []) c = refl
last_is_slash-snoc (x ∷ y ∷ dir) c = last_is_slash-snoc (y ∷ dir) c

join_path-snoc :
    (dir name : Bytes) (c : ℕ)
    → join_path (dir ++ c ∷ []) name
      ≡ (if c == b'/' then (dir ++ c ∷ []) ++ name else (dir ++ c ∷ []) ++ b'/' ∷ name)
unfolding join_path
join_path-snoc [] name c = rw (last_is_slash-snoc [] c) refl
join_path-snoc (x ∷ dir) name c = rw (last_is_slash-snoc (x ∷ dir) c) refl

-- A path in a directory: the name alone in the empty one, and otherwise the directory and the name with
-- one slash between them where the directory does not end in one.
pub record JoinsBySlash (join : Bytes → Bytes → Bytes) (name : Bytes) : Type 0 where
  pub nowhere : join [] name ≡ name
  pub behind_slash : (dir : Bytes) → join (dir ++ b'/' ∷ []) name ≡ dir ++ b'/' ∷ name
  pub with_slash :
      (dir : Bytes) (c : ℕ)
      → (c == b'/') ≡ false
      → join (dir ++ c ∷ []) name ≡ dir ++ c ∷ b'/' ∷ name

join_path-JoinsBySlash : (name : Bytes) → JoinsBySlash join_path name
join_path-JoinsBySlash name = record {
  nowhere = unfold join_path in refl;
  behind_slash = λ dir. join_path-snoc dir name b'/' ∙ append_assoc dir (b'/' ∷ []) name;
  with_slash =
      λ dir c e. join_path-snoc dir name c ∙ rw e (append_assoc dir (c ∷ []) (b'/' ∷ name));
}

-- A quoted name is looked up in the directory of the including file and then in the registered ones, in
-- their order, and a name in angle brackets in the directories for it alone: the result is the first
-- candidate that exists, as it was joined and not made absolute, and there is none only if no candidate
-- exists. A candidate is the directory and the name with one slash between them, the name alone where
-- the directory is empty.
pub find_lem :
    (exists : Bytes → Bool) (search : IncludeSearchPath) (filename including_dir : Bytes)
    → IsFirst exists
        (quote_candidates search filename including_dir)
        (find_quote exists search filename including_dir)
      × IsFirst exists (angle_candidates search filename) (find_angle exists search filename)
      × JoinsBySlash join_path filename
unfolding find_angle
find_lem exists search filename including_dir =
    let registered = find_in-IsFirst exists filename search.quote_paths in
    let angle = find_in-IsFirst exists filename search.angle_paths in
    rw (find_quote-front exists search filename including_dir)
      (elim (Bool-cases (exists (join_path including_dir filename))) [
        | inl h ↦ rw h (IsFirst-hit exists _ _ h, angle, join_path-JoinsBySlash filename)
        | inr h ↦
            rw h (IsFirst-miss exists _ _ _ h registered, angle, join_path-JoinsBySlash filename)
      ])
