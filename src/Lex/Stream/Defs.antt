-- ===== src/Lex/Stream/Defs.antt =====
-- The state and the methods of `Lexer`.
use nslc.Lex.Bounds.{is_eof}
use nslc.Lex.Kind.{Token}
use nslc.Lex.Scanner.{Scanner, next_impl, initial}
use nslc.Prelude.{
  ℕ, zero, suc, Bytes, Bool, true, false, ◌&&◌, List, [], ◌∷◌, ◌++◌, Option, none, some,
  if◌then◌else◌, length, get_elem?, ltb,
}

pub record Lexer : Type 0 where
  pub impl : Scanner
  pub peek_cache : List Token

-- `Lexer(sm, fid, diag)` over the bytes of the file.
abbrev pub lexer : Bytes → Lexer
lexer buf = record { impl = initial buf; peek_cache = [] }

-- The front of the cache, or the next token of the scanner.
unfoldable pub next_from : List Token → Scanner → Token × Lexer
next_from [] s = let (t, s') = next_impl s in (t, record { impl = s'; peek_cache = [] })
next_from (t ∷ cache) s = (t, record { impl = s; peek_cache = cache })

unfoldable pub next : Lexer → Token × Lexer
unfolding next_from
next l = next_from l.peek_cache l.impl

-- One round of the loop of `peek`.
unfoldable pub push_back : Lexer → Lexer
push_back l = record {
  impl = (next_impl l.impl).1;
  peek_cache = l.peek_cache ++ (next_impl l.impl).0 ∷ [];
}

-- `while (size <= n)`: the fuel bounds the rounds, one token each.
unfoldable pub fill : ℕ → ℕ → Lexer → Lexer
fill zero n l = l
fill (suc fuel) n l =
    let more = fill fuel n (push_back l) in if ltb n (length l.peek_cache) then l else more

-- `peek(n)`, for `n` not negative: a negative `n` is replaced by 0 first.
unfoldable pub peek : ℕ → Lexer → Option Token × Lexer
unfolding fill push_back
peek n l = let l' = fill (suc n) n l in (get_elem? l'.peek_cache n, l')

unfoldable pub at_eof : Lexer → Bool
at_eof l = is_empty l.peek_cache && is_empty l.impl.rest
  where
    is_empty : {A : Type 0} → List A → Bool
    is_empty [] = true
    is_empty (x ∷ xs) = false

-- The driver's loop: `next` until `eof`, which is taken too. `none` where the fuel runs out.
unfoldable pub tokenize : ℕ → Lexer → Option (List Token)
tokenize zero l = none
tokenize (suc fuel) l =
    let (t, l') = next l in
    elim (is_eof t.kind) [
      | true ↦ some (t ∷ [])
      | false ↦ (elim (tokenize fuel l') [ none ↦ none | some ts ↦ some (t ∷ ts) ])
    ]
