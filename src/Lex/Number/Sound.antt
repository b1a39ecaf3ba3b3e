-- ===== src/Lex/Number/Sound.antt =====
-- lib/Lex/NumberLiteral.cpp: the branches of `scanNumber`, each with the literal that it passes.
use nslc.Lex.Kind.{TokenKind}
use nslc.Lex.Number.Grammar.{value_byte, markers, consume_value_run_lem, Literal}
use nslc.Lex.Number.Run.{Radix}
use nslc.Lex.Number.Scan.{NumberScanResult, radix_tail}
use nslc.Prelude.{ℕ, ◌+◌, ◌≡◌, Bytes, ◌++◌, run_length, take, drop, arith, length}

-- The result for the bytes `read ++ rest`, of which `read` has been passed.
pub record Passes (read rest : Bytes) (res : NumberScanResult) : Type 0 where
  pub more : ℕ
  pub len_is : res.len ≡ length read + more
  pub literal : Literal (drop more rest) res.kind res.flags (read ++ take more rest)

pub radix_tail-is :
    (k : TokenKind) (base : Radix) (n : ℕ) (r : Bytes)
    → let m = run_length (value_byte base) r in
      radix_tail k base n r ≡ record { kind = k; len = n + m; flags = markers (take m r) }
unfolding radix_tail
radix_tail-is k base n r = rw consume_value_run_lem (unfold markers in ground arith)

-- `res` is a literal at the start of `text`.
abbrev pub IsLiteralAt : Bytes → NumberScanResult → Type 0
IsLiteralAt text res = Literal (drop res.len text) res.kind res.flags (take res.len text)
