-- ===== src/Basic/Diagnostics/Json.antt =====
-- Diagnostics as JSON, and the reset of the engine.
use nslc.Basic.Diagnostics.Defs.{
  Severity, note, Note, Diagnostic, DiagnosticEngine, new_engine, resolve, sorted, severity_name,
}
use nslc.Basic.Directives.{VirtualLoc}
use nslc.Basic.Location.{SourceLocation}
use nslc.Basic.Manager.{SourceManager}
use nslc.Prelude.{
  ℕ, ◌+◌, ◌-◌, ◌/◌, ◌%◌, Bytes, codes, decimal, List, [], ◌∷◌, ◌++◌, Option, none, some, ◌>>=◌,
  ◌==◌, ltb, if◌then◌else◌,
}

unfoldable pub clear : DiagnosticEngine → DiagnosticEngine
clear engine = new_engine

abbrev pub hex_digit : ℕ → ℕ
hex_digit n = if ltb n 10 then b'0' + n else b'a' + (n - 10)

-- A byte within a string.
unfoldable pub write_json_byte : ℕ → Bytes
write_json_byte c =
    if c == b'"'
    then codes "\\\""
    else if c == b'\\'
    then codes "\\\\"
    else if c == 8
    then codes "\\b"
    else if c == 12
    then codes "\\f"
    else if c == b'\n'
    then codes "\\n"
    else if c == b'\r'
    then codes "\\r"
    else if c == b'\t'
    then codes "\\t"
    else if ltb c 32
    then codes "\\u00" ++ hex_digit (c / 16) ∷ hex_digit (c % 16) ∷ []
    else c ∷ []

unfoldable pub write_json_bytes : Bytes → Bytes
write_json_bytes [] = []
write_json_bytes (c ∷ s) = write_json_byte c ++ write_json_bytes s

unfoldable pub write_json_string : Bytes → Bytes
write_json_string s = b'"' ∷ (write_json_bytes s ++ b'"' ∷ [])

abbrev pub json_position : VirtualLoc → Bytes
json_position v =
    codes "\"path\":"
    ++ write_json_string v.path
    ++ codes ",\"line\":"
    ++ decimal v.line
    ++ codes ",\"col\":"
    ++ decimal v.col

unfoldable pub included_from_field : SourceManager → Option SourceLocation → Option Bytes
included_from_field sm none = some []
included_from_field sm (some site) = do
  v ← resolve sm site
  some (codes ",\"included_from\":{" ++ json_position v ++ codes "}")

unfoldable pub write_json_object :
    SourceManager → Severity → SourceLocation → Bytes → Option SourceLocation → Option Bytes
write_json_object sm sev loc msg site = do
  v ← resolve sm loc
  included ← included_from_field sm site
  some (
      codes "{"
      ++ json_position v
      ++ codes ",\"severity\":"
      ++ write_json_string (severity_name sev)
      ++ codes ",\"message\":"
      ++ write_json_string msg
      ++ included
      ++ codes "}\n")

unfoldable pub write_json_notes : SourceManager → List Note → Option Bytes
write_json_notes sm [] = some []
write_json_notes sm (n ∷ notes) = do
  object ← write_json_object sm note n.loc n.message (some n.loc)
  rest ← write_json_notes sm notes
  some (object ++ rest)

unfoldable pub write_json : SourceManager → List Diagnostic → Option Bytes
write_json sm [] = some []
write_json sm (d ∷ ds) = do
  object ← write_json_object sm d.severity d.loc d.message none
  notes ← write_json_notes sm d.notes
  rest ← write_json sm ds
  some (object ++ notes ++ rest)

-- `renderAll` in the format `JSON`.
unfoldable pub render_json : SourceManager → DiagnosticEngine → Option Bytes
render_json sm engine = write_json sm (sorted engine.diags)
