-- ===== src/Basic/Diagnostics/Counts.antt =====
-- The counters of the engine.
use nslc.Basic.Diagnostics.Defs.{
  Severity, note, warning, error, Note, Diagnostic, DiagnosticEngine, diagnostic, report, attached,
  included_from_notes, resolve, included_from, counted, has_error,
}
use nslc.Basic.Directives.{resolve_virtual}
use nslc.Basic.Location.{SourceLocation, is_valid, file, offset}
use nslc.Basic.Manager.{
  SourceManager, Buffer, buffer_or_null, get_original_include_stack_for, find_file_id_by_path,
}
use nslc.Prelude.{
  ℕ, suc, ◌+◌, ◌≡◌, refl, Bytes, Bool, true, false, List, [], ◌∷◌, ◌++◌, map, some, >>=-eq-some,
  Bool-cases, inl, inr, if◌then◌else◌, arith, ◌||◌, sym,
}
use mathlib.Core.Path.{subst}

abbrev pub is_severity : Severity → Severity → Bool
is_severity note note = true
is_severity warning warning = true
is_severity error error = true
is_severity _ _ = false

unfoldable pub count_of : Severity → List Diagnostic → ℕ
count_of sev [] = 0
count_of sev (d ∷ ds) = (if is_severity sev d.severity then 1 else 0) + count_of sev ds

-- The counters say how many errors and warnings were reported.
pub record IsCounted (engine : DiagnosticEngine) : Type 0 where
  pub errors : engine.error_count ≡ count_of error engine.diags
  pub warnings : engine.warning_count ≡ count_of warning engine.diags

count_of-append :
    (sev : Severity) (xs : List Diagnostic) (d : Diagnostic)
    → count_of sev (xs ++ d ∷ []) ≡ count_of sev xs + count_of sev (d ∷ [])
unfolding count_of
count_of-append sev [] d = omega arith
count_of-append sev (x ∷ xs) d = omega (arith, count_of-append sev xs d)

counted-IsCounted :
    (engine : DiagnosticEngine) (sev : Severity) (d : Diagnostic)
    → d.severity ≡ sev
    → IsCounted engine
    → IsCounted (counted sev (record engine { diags = engine.diags ++ d ∷ [] }))
unfolding counted count_of
counted-IsCounted engine note d s c = record {
  errors = ground (arith, count_of-append error engine.diags d, s, c.errors);
  warnings = ground (arith, count_of-append warning engine.diags d, s, c.warnings);
}
counted-IsCounted engine warning d s c = record {
  errors = ground (arith, count_of-append error engine.diags d, s, c.errors);
  warnings = ground (arith, count_of-append warning engine.diags d, s, c.warnings);
}
counted-IsCounted engine error d s c = record {
  errors = ground (arith, count_of-append error engine.diags d, s, c.errors);
  warnings = ground (arith, count_of-append warning engine.diags d, s, c.warnings);
}

counted-has_error :
    (engine : DiagnosticEngine) (sev : Severity) (ds : List Diagnostic)
    → has_error (counted sev (record engine { diags = ds }))
      ≡ (has_error engine || is_severity error sev)
unfolding counted has_error
counted-has_error engine note ds = ground arith
counted-has_error engine warning ds = ground arith
counted-has_error engine error ds = ground arith

report_eq :
    (sm : SourceManager) (engine engine' : DiagnosticEngine) (sev : Severity) (loc : SourceLocation)
    (msg : Bytes)
    → report sm engine sev loc msg ≡ some engine'
    → (notes : List Note) × (engine'
        ≡ counted sev (record engine { diags = engine.diags ++ diagnostic sev loc msg notes ∷ [] }))
unfolding report
report_eq sm engine engine' sev loc msg e =
    let bound =
      >>=-eq-some (attached sm sev loc)
        (λ notes. some (
          counted sev
            (record engine { diags = engine.diags ++ diagnostic sev loc msg notes ∷ [] })))
        e in
    (bound.0, cc (bound.2))

-- A report keeps the counters true, and sets off the flag of errors exactly if it was set before or the severity is an error.
pub report-IsCounted :
    (sm : SourceManager) (engine engine' : DiagnosticEngine) (sev : Severity) (loc : SourceLocation)
    (msg : Bytes)
    → IsCounted engine
    → report sm engine sev loc msg ≡ some engine'
    → IsCounted engine' × (has_error engine' ≡ (has_error engine || is_severity error sev))
report-IsCounted sm engine engine' sev loc msg c e =
    let made = report_eq sm engine engine' sev loc msg e in
    subst
      (λ engine'.
        IsCounted engine' × (has_error engine' ≡ (has_error engine || is_severity error sev)))
      (sym (made.1))
      (
        counted-IsCounted engine sev (diagnostic sev loc msg (made.0)) refl c,
        counted-has_error engine sev _,
      )

notes_of : SourceManager → SourceLocation → Buffer → List Note
notes_of sm loc b =
    if is_valid loc
    then map included_from (
        get_original_include_stack_for sm (
          find_file_id_by_path sm
            (resolve_virtual b.path b.bytes b.line_overrides (offset loc)).path))
    else []

attached-error :
    (sm : SourceManager) (loc : SourceLocation) (b : Buffer)
    → buffer_or_null sm (file loc) ≡ some b
    → attached sm error loc ≡ some (notes_of sm loc b)
unfolding attached included_from_notes resolve notes_of
attached-error sm loc b e = elim (Bool-cases (is_valid loc)) [
  | inl v ↦ rw (v, e) refl
  | inr v ↦ rw v refl
]

-- A report at a location whose file has a buffer returns, and an error sets off the flag.
pub report-error :
    (sm : SourceManager) (engine : DiagnosticEngine) (loc : SourceLocation) (msg : Bytes)
    (b : Buffer)
    → buffer_or_null sm (file loc) ≡ some b
    → (engine' : DiagnosticEngine) × (report sm engine error loc msg ≡ some engine')
      × (has_error engine' ≡ true)
unfolding report counted has_error
report-error sm engine loc msg b e = (
  record engine {
    diags = engine.diags ++ diagnostic error loc msg (notes_of sm loc b) ∷ [];
    error_count = suc engine.error_count;
  },
  rw (attached-error sm loc b e) refl,
  ground arith,
)
