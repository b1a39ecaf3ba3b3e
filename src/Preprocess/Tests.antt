-- ===== src/Preprocess/Tests.antt =====
-- Expansions of small texts, and the theorems of Preprocess at concrete inputs.
use nslc.Preprocess.Expander.{
  expansion, expand, expand_impl, expand_loop, substitute, piece_at, splice_name, scan_string_end,
  is_ident_start, is_ident_char,
}
use nslc.Preprocess.Expander.Depth.{Shallow, expand_impl_iff}
use nslc.Preprocess.Expander.Strings.{done, plain, escape}
use nslc.Preprocess.Expander.Written.{
  Segment, byte, quoted, word, named, text_of, text_meaning, below, IsSegment, IsText,
  expand_impl-written,
}
use nslc.Preprocess.Macros.{
  MacroDef, macro_def, no_range, MacroTable, lookup, insert, redefine, predefine,
}
use nslc.Preprocess.Macros.Entries.{Distinct, names}
use nslc.Preprocess.Macros.Laws.{Kept, Ordered, Replaced, insert-Kept, redefine-Replaced}
use nslc.Prelude.{
  ◌≡◌, ◌↔◌, refl, codes, true, arith, List, [], ◌∷◌, some, none, bytes_eq, run_length,
}

abbrev macros : MacroTable
macros =
    macro_def (codes "W") (codes "%V%-1") no_range ∷ macro_def (codes "V") (codes "8") no_range ∷ []

-- A chain of two macros, a splice, an undefined name, and a string.
expand-chain : expand macros (codes "r[W] %V%x \"V\"") ≡ expansion (codes "r[8-1] 8x \"V\"") []
unfolding expand expand_impl expand_loop substitute piece_at splice_name scan_string_end
    is_ident_start is_ident_char lookup bytes_eq run_length
expand-chain = refl

abbrev cycle : MacroTable
cycle = macro_def (codes "A") (codes "A") no_range ∷ []

-- A macro that names itself is reported at the bound, and its name stays.
expand-cycle : expand cycle (codes "A") ≡ expansion (codes "A") (codes "A" ∷ [])
unfolding expand expand_impl expand_loop substitute piece_at splice_name scan_string_end
    is_ident_start is_ident_char lookup bytes_eq run_length
expand-cycle = refl

macros-Distinct : Distinct macros
unfolding Distinct lookup bytes_eq
macros-Distinct = (refl, (refl, tt))

insert-Kept_example :
    Distinct (insert macros (codes "V") (codes "9") no_range).0
    × Kept macros
        (macro_def (codes "V") (codes "9") no_range)
        (insert macros (codes "V") (codes "9") no_range).0
    × Ordered macros (codes "V") (insert macros (codes "V") (codes "9") no_range).0
    × (((insert macros (codes "V") (codes "9") no_range).1 ≡ true)
        ↔ (lookup macros (codes "V") ≡ none))
    × (predefine macros (codes "V") (codes "9")
        ≡ (insert macros (codes "V") (codes "9") no_range).0)
insert-Kept_example = insert-Kept macros (codes "V") (codes "9") no_range macros-Distinct

redefine-Replaced_example :
    Distinct (redefine macros (codes "V") (codes "9") no_range).0
    × Replaced macros
        (macro_def (codes "V") (codes "9") no_range)
        (redefine macros (codes "V") (codes "9") no_range).0
    × ((d : MacroDef)
        → lookup macros (codes "V") ≡ some d
        → ((redefine macros (codes "V") (codes "9") no_range).1 ≡ d.defining_loc)
          × (names (redefine macros (codes "V") (codes "9") no_range).0 ≡ names macros))
redefine-Replaced_example =
    redefine-Replaced macros (codes "V") (codes "9") no_range macros-Distinct

expand_impl_iff_example :
    ((expand_impl macros 256 (codes "W")).reports ≡ []) ↔ Shallow macros 256 (codes "W")
expand_impl_iff_example = expand_impl_iff macros 256 (codes "W")

two_deep : (expand_impl macros 2 (codes "W")).reports ≡ []
unfolding expand_impl expand_loop substitute piece_at splice_name scan_string_end is_ident_start
    is_ident_char lookup bytes_eq run_length
two_deep = refl

-- A reference, and a string with an escaped quote.
abbrev segments : List Segment
segments =
    named b'V' [] ∷ byte b' ' ∷ word b'x' (codes "1") ∷ byte b'%' ∷ quoted (codes "\\\"V") ∷ []

segments-IsText : IsText segments
unfolding IsSegment is_ident_start is_ident_char
segments-IsText = (
  (refl, tt),
  (
    (refl, refl, λ e. ground arith),
    (
      (refl, (refl, tt), refl),
      ((refl, refl, λ e d t after i h p. ground arith), (escape refl (plain refl refl done), tt)),
    ),
  ),
)

expand_impl-written_example :
    expand_impl macros 256 (text_of segments) ≡ text_meaning (below macros 256) macros segments
expand_impl-written_example = expand_impl-written macros 256 segments segments-IsText
