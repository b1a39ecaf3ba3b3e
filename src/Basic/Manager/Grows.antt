-- ===== src/Basic/Manager/Grows.antt =====
-- No operation loses a buffer or changes its bytes.
use nslc.Basic.Directives.{LineDirective}
use nslc.Basic.Location.{FileId, SourceLocation, is_valid_file, file}
use nslc.Basic.Manager.Defs.{
  Buffer, SourceManager, buffer_or_null, added, allocate, load_file, add_directive,
}
use nslc.Basic.Manager.Files.{allocate_eq, load_file-cases}
use nslc.Prelude.{
  ℕ, ◌<◌, ◌≡◌, refl, sym, ap, ◌∙◌, Bytes, true, List, [], ◌∷◌, ◌++◌, Option, none, some, ◌==◌,
  get_or, set, get_or-append, get_or-set, length, length-append, length-set, arith, Bool-cases, inl,
  inr, Ensures, Ensures-bind, Ensures-after, Ensures-some, Ensures_self, ==_iff,
}

-- Every buffer is still there, with the same bytes.
abbrev pub Extends : SourceManager → SourceManager → Type 0
Extends sm sm' =
    (fid : FileId) (b : Buffer)
    → buffer_or_null sm fid ≡ some b
    → (b' : Buffer) × (buffer_or_null sm' fid ≡ some b') × (b'.bytes ≡ b.bytes)

pub Extends-refl : (sm : SourceManager) → Extends sm sm
Extends-refl sm fid b e = (b, e, refl)

pub Extends-trans : (a b c : SourceManager) → Extends a b → Extends b c → Extends a c
Extends-trans a b c h k fid buffer e =
    let first = h fid buffer e in
    let second = k fid (first.0) (first.1) in (second.0, second.1, second.2 ∙ first.2)

pub Extends-eq : (sm sm' : SourceManager) → sm'.buffers ≡ sm.buffers → Extends sm sm'
unfolding buffer_or_null
Extends-eq sm sm' e fid b h = (b, rw e h, refl)

buffer_or_null-some :
    (sm : SourceManager) (fid : FileId) (b : Buffer)
    → buffer_or_null sm fid ≡ some b
    → (is_valid_file fid ≡ true) × (fid < length sm.buffers) × (get_or sm.buffers fid none ≡ some b)
unfolding buffer_or_null
buffer_or_null-some sm fid b h = ground arith

buffer_or_null-in :
    (sm : SourceManager) (fid : FileId)
    → is_valid_file fid ≡ true
    → fid < length sm.buffers
    → buffer_or_null sm fid ≡ get_or sm.buffers fid none
unfolding buffer_or_null
buffer_or_null-in sm fid h k = ground arith

append-Extends :
    (sm sm' : SourceManager) (entry : Option Buffer)
    → sm'.buffers ≡ sm.buffers ++ entry ∷ []
    → Extends sm sm'
append-Extends sm sm' entry e fid b h =
    let there = buffer_or_null-some sm fid b h in
    let longer = ap length e ∙ length-append sm.buffers (entry ∷ []) in
    (
      b,
      buffer_or_null-in sm' fid (there.0) (omega (arith, longer, there.1))
          ∙ ap (λ bs. get_or bs fid none) e
          ∙ get_or-append sm.buffers (entry ∷ []) fid none (there.1)
          ∙ there.2,
      refl,
    )

pub load_file-Extends :
    (read : Bytes → Option Bytes) (sm after : SourceManager) (path : Bytes) (fid : FileId)
    → load_file read sm path ≡ added after fid
    → Extends sm after
load_file-Extends read sm after path fid e = elim (load_file-cases read sm path after fid e) [
  | inl s ↦ Extends-eq sm after (ap (λ m. m.buffers) (s.0))
  | inr m ↦ append-Extends sm after _ ((allocate_eq sm path (m.1) after fid (m.2)).1)
]

allocate-include_stack :
    (sm after : SourceManager) (path bytes : Bytes) (fid : FileId)
    → allocate sm path bytes ≡ added after fid
    → after.include_stack ≡ sm.include_stack
unfolding allocate
allocate-include_stack sm after path bytes fid e = ground arith

pub load_file-include_stack :
    (read : Bytes → Option Bytes) (sm after : SourceManager) (path : Bytes) (fid : FileId)
    → load_file read sm path ≡ added after fid
    → after.include_stack ≡ sm.include_stack
load_file-include_stack read sm after path fid e = elim (load_file-cases read sm path after fid e) [
  | inl s ↦ ap (λ m. m.include_stack) (s.0)
  | inr m ↦ allocate-include_stack sm after path (m.1) fid (m.2)
]

same_bytes : (b c : Buffer) → some b ≡ some c → b.bytes ≡ c.bytes
same_bytes b c e = cc e

set-Extends :
    (sm : SourceManager) (at : FileId) (b : Buffer) (overrides : List LineDirective)
    → buffer_or_null sm at ≡ some b
    → Extends sm
        (record sm { buffers = set sm.buffers at (some (record b { line_overrides = overrides })) })
set-Extends sm at b overrides h fid c k =
    let there = buffer_or_null-some sm at b h in
    let other = buffer_or_null-some sm fid c k in
    let changed = some (record b { line_overrides = overrides }) in
    let after = record sm { buffers = set sm.buffers at changed } in
    let found =
      buffer_or_null-in after fid (other.0)
        (omega (arith, length-set sm.buffers at changed, other.1))
      ∙ get_or-set sm.buffers at fid changed none (there.1) in
    elim (Bool-cases (at == fid)) [
      | inl e ↦ (
        record b { line_overrides = overrides },
        found ∙ rw e refl,
        same_bytes b c (sym h ∙ ap (buffer_or_null sm) ((==_iff at fid).0 e) ∙ k),
      )
      | inr e ↦ (c, found ∙ rw e (other.2), refl)
    ]

-- A line directive changes no bytes and no include frame.
pub add_directive-Extends :
    (sm : SourceManager) (at : SourceLocation) (line : ℕ) (path : Bytes)
    → Ensures
        (add_directive sm at line path)
        (λ after. Extends sm after × (after.include_stack ≡ sm.include_stack))
unfolding add_directive
add_directive-Extends sm at line path =
    Ensures-bind _ _ (Ensures_self (buffer_or_null sm (file at))) (λ b e.
      Ensures-after _ _ (λ overrides. Ensures-some (set-Extends sm (file at) b overrides e, refl)))
