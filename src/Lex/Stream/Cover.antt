-- ===== src/Lex/Stream/Cover.antt =====
-- The token list of a buffer: the driver's loop ends, and the tokens with the gaps of trivia between
-- them are the buffer.
use mathlib.Core.Path.{subst}
use nslc.Lex.Bounds.{is_eof}
use nslc.Lex.Gaps.{IsGap}
use nslc.Lex.Kind.{Token, eof}
use nslc.Lex.Scanner.{Scanner, next_impl, initial}
use nslc.Lex.Stream.Defs.{Lexer, lexer, next, tokenize}
use nslc.Lex.Tiling.{Tiles, next_impl-Tiles}
use nslc.Prelude.{
  ℕ, zero, suc, ◌+◌, ◌<◌, ◌≡◌, refl, ap, ◌∙◌, Bytes, true, false, List, [], ◌∷◌, ◌++◌, some, length,
  arith, inl, inr, length-append, append-nil,
}

-- The tokens cut `text`, which stands at the offset `at`, from its start to its end: gap, token, gap,
-- token, and at last `eof` behind the last gap.
pub data Covers : ℕ → Bytes → List Token → Type 0 where
  last :
      {at : ℕ} {text : Bytes} (t : Token)
      → IsGap [] text
      → t.kind ≡ eof
      → t.spelling ≡ []
      → t.begin ≡ at + length text
      → t.end ≡ t.begin
      → Covers at text (t ∷ [])
  token :
      {at : ℕ} {text : Bytes} {ts : List Token} (t : Token) (gap rest : Bytes)
      → text ≡ gap ++ (t.spelling ++ rest)
      → IsGap (t.spelling ++ rest) gap
      → 0 < length t.spelling
      → t.begin ≡ at + length gap
      → t.end ≡ t.begin + length t.spelling
      → Covers t.end rest ts
      → Covers at text (t ∷ ts)

abbrev uncached : Scanner → Lexer
uncached s = record { impl = s; peek_cache = [] }

tokenize_eof :
    (fuel : ℕ) (s : Scanner)
    → is_eof (next_impl s).0.kind ≡ true
    → tokenize (suc fuel) (uncached s) ≡ some ((next_impl s).0 ∷ [])
unfolding tokenize next
tokenize_eof fuel s e = rw (e, tokenize) refl

tokenize_more :
    (fuel : ℕ) (s : Scanner) (ts : List Token)
    → is_eof (next_impl s).0.kind ≡ false
    → tokenize fuel (uncached (next_impl s).1) ≡ some ts
    → tokenize (suc fuel) (uncached s) ≡ some ((next_impl s).0 ∷ ts)
unfolding tokenize next
tokenize_more fuel s ts e h = rw (e, tokenize) (rw h)

IsGap-only :
    {a b text gap : Bytes} → a ≡ [] → b ≡ [] → IsGap (a ++ b) gap → text ≡ gap → IsGap [] text
IsGap-only {gap} p q g e = rw e (subst (λ x. IsGap x gap) (rw (p, q)) g)

Covers-token :
    (s : Scanner) (t : Token) (s' : Scanner) (ts : List Token)
    → Tiles s t s'
    → 0 < length t.spelling
    → Covers s'.cur s'.rest ts
    → Covers s.cur s.rest (t ∷ ts)
Covers-token s t s' ts tile pos c =
    token t tile.gap s'.rest tile.splits tile.is_gap pos tile.begin_is tile.end_is
      (subst (λ n. Covers n s'.rest ts) tile.cur_is c)

-- A token that has bytes leaves fewer behind it.
Tiles-shorter :
    (s : Scanner) (t : Token) (s' : Scanner)
    → Tiles s t s'
    → 0 < length t.spelling
    → length s'.rest < length s.rest
Tiles-shorter s t s' tile pos = omega (
  arith,
  ap length tile.splits,
  length-append tile.gap (t.spelling ++ s'.rest),
  length-append t.spelling s'.rest,
)

Covers-last :
    (s : Scanner) (t : Token) (s' : Scanner)
    → Tiles s t s'
    → t.kind ≡ eof
    → t.spelling ≡ []
    → s'.rest ≡ []
    → Covers s.cur s.rest (t ∷ [])
Covers-last s t s' tile k sp end =
    let only : s.rest ≡ tile.gap = tile.splits ∙ rw (sp, end) (append-nil tile.gap) in
    last t (IsGap-only sp end tile.is_gap only) k sp (tile.begin_is ∙ rw only refl)
      (omega (arith, tile.end_is, ap length sp))

tokens_from :
    (fuel : ℕ) (s : Scanner)
    → length s.rest < fuel
    → (ts : List Token) × (tokenize fuel (uncached s) ≡ some ts) × Covers s.cur s.rest ts
tokens_from zero s h = absurd (omega arith)
tokens_from (suc fuel) s h = elim (next_impl-Tiles s).1 [
  | inl (k, sp, end) ↦ (
    (next_impl s).0 ∷ [],
    tokenize_eof fuel s (ap is_eof k),
    Covers-last s _ _ (next_impl-Tiles s).0 k sp end,
  )
  | inr (ne, pos) ↦
      let tile = (next_impl-Tiles s).0 in
      let (ts, run, covers) =
        tokens_from fuel (next_impl s).1 (omega (arith, Tiles-shorter s _ _ tile pos)) in
      ((next_impl s).0 ∷ ts, tokenize_more fuel s ts ne run, Covers-token s _ _ ts tile pos covers)
]

-- With fuel above the length of the buffer the loop ends, and its tokens and the gaps between them are
-- the buffer, in order, with their ranges: no byte is lost, and none is read twice.
pub tokenize-Covers :
    (fuel : ℕ) (buf : Bytes)
    → length buf < fuel
    → (ts : List Token) × (tokenize fuel (lexer buf) ≡ some ts) × Covers 0 buf ts
tokenize-Covers fuel buf h = tokens_from fuel (initial buf) h
