-- ===== src/Basic/Diagnostics/Defs.antt =====
-- Diagnostics, the engine that collects them, and their rendering as text.
use nslc.Basic.Directives.{VirtualLoc, resolve_virtual}
use nslc.Basic.Location.{SourceLocation, SourceRange, is_valid, before, file, offset}
use nslc.Basic.Manager.{
  SourceManager, buffer_or_null, find_file_id_by_path, get_original_include_stack_for,
}
use nslc.Prelude.{
  ℕ, suc, Bytes, codes, decimal, Bool, true, false, List, [], ◌∷◌, ◌++◌, map, Option, some, ◌>>=◌,
  if◌then◌else◌, ltb, get_elem?, set,
}

pub data Severity : Type 0 where
  note warning error : Severity

pub record FixItHint : Type 0 where
  pub range : SourceRange
  pub replacement : Bytes

-- A diagnostic in the list `notes` of another: a note, whose own hints and notes nothing reads.
pub record Note : Type 0 where
  pub loc : SourceLocation
  pub message : Bytes
  pub is_include_from_note : Bool

pub record Diagnostic : Type 0 where
  pub severity : Severity
  pub loc : SourceLocation
  pub message : Bytes
  pub fixits : List FixItHint
  pub notes : List Note

pub record DiagnosticEngine : Type 0 where
  pub diags : List Diagnostic
  pub error_count : ℕ
  pub warning_count : ℕ

abbrev pub new_engine : DiagnosticEngine
new_engine = record { diags = []; error_count = 0; warning_count = 0 }

-- `SourceManager::resolveVirtual`; `none` is its abort on a location without a buffer.
unfoldable pub resolve : SourceManager → SourceLocation → Option VirtualLoc
resolve sm loc = do
  b ← buffer_or_null sm (file loc)
  some (resolve_virtual b.path b.bytes b.line_overrides (offset loc))

abbrev pub included_from : SourceLocation → Note
included_from site = record {
  loc = site;
  message = codes "included from";
  is_include_from_note = true;
}

-- The notes of `addIncludedFromNotes`, for a diagnostic at a location.
unfoldable pub included_from_notes : SourceManager → SourceLocation → Option (List Note)
included_from_notes sm loc = do
  v ← resolve sm loc
  some (map included_from (get_original_include_stack_for sm (find_file_id_by_path sm v.path)))

-- The notes that `report` attaches.
unfoldable pub attached : SourceManager → Severity → SourceLocation → Option (List Note)
attached sm note loc = some []
attached sm warning loc = if is_valid loc then included_from_notes sm loc else some []
attached sm error loc = if is_valid loc then included_from_notes sm loc else some []

unfoldable pub counted : Severity → DiagnosticEngine → DiagnosticEngine
counted note engine = engine
counted warning engine = record engine { warning_count = suc engine.warning_count }
counted error engine = record engine { error_count = suc engine.error_count }

abbrev pub diagnostic : Severity → SourceLocation → Bytes → List Note → Diagnostic
diagnostic sev loc msg notes = record {
  severity = sev;
  loc = loc;
  message = msg;
  fixits = [];
  notes = notes;
}

-- `none` is an abort of the source manager.
unfoldable pub report :
    SourceManager → DiagnosticEngine → Severity → SourceLocation → Bytes → Option DiagnosticEngine
report sm engine sev loc msg = do
  notes ← attached sm sev loc
  some (counted sev (record engine { diags = engine.diags ++ diagnostic sev loc msg notes ∷ [] }))

-- `none` is an index that is out of range, here and below.
unfoldable pub append_fix_it_at : DiagnosticEngine → ℕ → FixItHint → Option DiagnosticEngine
append_fix_it_at engine index hint = do
  d ← get_elem? engine.diags index
  some (record engine {
    diags = set engine.diags index (record d { fixits = d.fixits ++ hint ∷ [] });
  })

unfoldable pub append_note_at : DiagnosticEngine → ℕ → Note → Option DiagnosticEngine
append_note_at engine index n = do
  d ← get_elem? engine.diags index
  some (record engine { diags = set engine.diags index (record d { notes = d.notes ++ n ∷ [] }) })

unfoldable pub has_error : DiagnosticEngine → Bool
has_error engine = ltb 0 engine.error_count

abbrev pub rank : Severity → ℕ
rank note = 0
rank warning = 1
rank error = 2

unfoldable pub diag_less : Diagnostic → Diagnostic → Bool
diag_less a b =
    if before a.loc b.loc
    then true
    else if before b.loc a.loc
    then false
    else ltb (rank a.severity) (rank b.severity)

-- `std::stable_sort`: an element goes before those that are not less.
unfoldable pub place : Diagnostic → List Diagnostic → List Diagnostic
place d [] = d ∷ []
place d (e ∷ es) = let later = place d es in if diag_less e d then e ∷ later else d ∷ e ∷ es

unfoldable pub sorted : List Diagnostic → List Diagnostic
sorted [] = []
sorted (d ∷ ds) = place d (sorted ds)

abbrev pub severity_name : Severity → Bytes
severity_name note = codes "note"
severity_name warning = codes "warning"
severity_name error = codes "error"

abbrev pub position : VirtualLoc → Bytes
position v = v.path ++ codes ":" ++ decimal v.line ++ codes ":" ++ decimal v.col

unfoldable pub write_text_header_line :
    SourceManager → Bool → Severity → SourceLocation → Bytes → Option Bytes
write_text_header_line sm from sev loc msg = do
  v ← resolve sm loc
  some (
      if from
      then codes "note: included from " ++ position v ++ codes "\n"
      else position v ++ codes ": " ++ severity_name sev ++ codes ": " ++ msg ++ codes "\n")

unfoldable pub write_fixit : SourceManager → FixItHint → Option Bytes
write_fixit sm fx =
    if is_valid fx.range.begin
    then (resolve sm fx.range.begin >>= λ v.
        some (codes "fix-it:" ++ position v ++ codes ":" ++ fx.replacement ++ codes "\n"))
    else some (codes "fix-it:" ++ fx.replacement ++ codes "\n")

unfoldable pub write_fixits : SourceManager → List FixItHint → Option Bytes
write_fixits sm [] = some []
write_fixits sm (fx ∷ fixits) = do
  fixit ← write_fixit sm fx
  rest ← write_fixits sm fixits
  some (fixit ++ rest)

unfoldable pub write_notes : SourceManager → List Note → Option Bytes
write_notes sm [] = some []
write_notes sm (n ∷ notes) = do
  header ← write_text_header_line sm n.is_include_from_note note n.loc n.message
  rest ← write_notes sm notes
  some (header ++ rest)

unfoldable pub write_text : SourceManager → List Diagnostic → Option Bytes
write_text sm [] = some []
write_text sm (d ∷ ds) = do
  header ← write_text_header_line sm false d.severity d.loc d.message
  fixits ← write_fixits sm d.fixits
  notes ← write_notes sm d.notes
  rest ← write_text sm ds
  some (header ++ fixits ++ notes ++ rest)

-- `renderAll` in the format `Text`.
unfoldable pub render_all : SourceManager → DiagnosticEngine → Option Bytes
render_all sm engine = write_text sm (sorted engine.diags)
