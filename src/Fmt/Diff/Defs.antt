-- ===== src/Fmt/Diff/Defs.antt =====
-- `splitLines`, `LCSTable`, `fillLCS` and `traceDiff`.
use nslc.Prelude.{
  ℕ, zero, suc, ◌+◌, ◌*◌, max, Bytes, true, false, List, [], ◌∷◌, ◌++◌, ◌==◌, if◌then◌else◌, ltb,
  bytes_eq, get_or, set, replicate, length,
}
use mathlib.Core.List.{reverse}

-- The loop of `splitLines`; `current` is `text.substr(start, i - start)`.
unfoldable pub split_loop : Bytes → Bytes → List Bytes
split_loop [] [] = []
split_loop (c ∷ current) [] = (c ∷ current) ∷ []
split_loop current (c ∷ text) =
    let ended = current ∷ split_loop [] text in
    let longer = split_loop (current ++ c ∷ []) text in if c == b'\n' then ended else longer

unfoldable pub split_lines : Bytes → List Bytes
unfolding split_loop
split_lines text = split_loop [] text

-- A table of (n + 1) * (m + 1) cells, row by row.
pub record LcsTable : Type 0 where
  pub n : ℕ
  pub m : ℕ
  pub cells : List ℕ

abbrev pub new_table : ℕ → ℕ → LcsTable
new_table n m = record { n = n; m = m; cells = replicate ((n + 1) * (m + 1)) 0 }

unfoldable pub at : LcsTable → ℕ → ℕ → ℕ
at l i j = get_or l.cells (i * (l.m + 1) + j) 0

unfoldable pub put : LcsTable → ℕ → ℕ → ℕ → LcsTable
put l i j v = record l { cells = set l.cells (i * (l.m + 1) + j) v }

-- The line `i - 1` of `a` for a position `i` from 1 on.
abbrev pub line_at : List Bytes → ℕ → Bytes
line_at a i = get_or a i []

-- The body of the two loops of `fillLCS`, at the row `suc i` and the column `suc j`.
unfoldable pub fill_cell : List Bytes → List Bytes → ℕ → ℕ → LcsTable → LcsTable
fill_cell a b i j l = put l (suc i) (suc j) (
    if bytes_eq (line_at a i) (line_at b j)
    then at l i j + 1
    else max (at l i (suc j)) (at l (suc i) j))

-- `rounds` rounds of the inner loop, from the column `suc j` on.
unfoldable pub fill_row : List Bytes → List Bytes → ℕ → ℕ → ℕ → LcsTable → LcsTable
fill_row a b i j zero l = l
fill_row a b i j (suc rounds) l = fill_row a b i (suc j) rounds (fill_cell a b i j l)

unfoldable pub fill_rows : List Bytes → List Bytes → ℕ → ℕ → LcsTable → LcsTable
fill_rows a b i zero l = l
fill_rows a b i (suc rounds) l = fill_rows a b (suc i) rounds (fill_row a b i 0 l.m l)

unfoldable pub fill_lcs : List Bytes → List Bytes → LcsTable → LcsTable
fill_lcs a b l = fill_rows a b 0 l.n l

pub data EditKind : Type 0 where
  context removed added : EditKind

pub record Edit : Type 0 where
  pub kind : EditKind
  pub text : Bytes

abbrev pub edit : EditKind → Bytes → Edit
edit k t = record { kind = k; text = t }

-- The loops of `traceDiff` from the position (i, j) down to (0, 0), in the order of the pushes.
unfoldable pub walk : LcsTable → List Bytes → List Bytes → ℕ → ℕ → List Edit
walk l a b zero zero = []
walk l a b (suc i) zero = edit removed (line_at a i) ∷ walk l a b i zero
walk l a b zero (suc j) = edit added (line_at b j) ∷ walk l a b zero j
walk l a b (suc i) (suc j) = elim (bytes_eq (line_at a i) (line_at b j)) [
  | true ↦ edit context (line_at a i) ∷ walk l a b i j
  | false ↦ elim (ltb (at l (suc i) j) (at l i (suc j))) [
    | true ↦ edit removed (line_at a i) ∷ walk l a b i (suc j)
    | false ↦ edit added (line_at b j) ∷ walk l a b (suc i) j
  ]
]

unfoldable pub trace_diff : LcsTable → List Bytes → List Bytes → List Edit
unfolding walk
trace_diff l a b = reverse (walk l a b l.n l.m)

-- The edits that `computeUnifiedDiff` groups into hunks.
unfoldable pub diff_edits : List Bytes → List Bytes → List Edit
diff_edits a b = trace_diff (fill_lcs a b (new_table (length a) (length b))) a b
