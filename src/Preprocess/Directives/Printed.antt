-- ===== src/Preprocess/Directives/Printed.antt =====
-- Each directive, written with one blank behind the keyword, is read back.
use nslc.Preprocess.Directives.Defs.{
  ParsedDirective, directive, include_kind, define_kind, undef_kind, ifdef_kind, ifndef_kind,
  if_kind, else_kind, endif_kind, line_kind, is_ws, is_name_start, is_name_body, skip_ws,
  ident_size, is_empty, trim_end, trim, enclosed, include_of, is_body_blank, define_of,
  classify_keyword_line, classify_line,
}
use nslc.Prelude.{
  ℕ, suc, Bytes, codes, Bool, true, false, not, [], ◌∷◌, ◌++◌, ◌==◌, if◌then◌else◌, run_length,
  bytes_eq, length, take-length, drop-length, run_length-append, arith, ◌≡◌, refl, ap, ◌∙◌, All,
  All-mono, peek_byte,
}

-- What a line can say.
pub data Directive : Type 0 where
  include : Bool → Bytes → Directive
  define : Bytes → Bytes → Directive
  undef ifdef ifndef if_true line : Bytes → Directive
  else_branch endif : Directive

unfoldable pub print : Directive → Bytes
print (include angle file) =
    codes "#include " ++ (if angle then b'<' ∷ file ++ b'>' ∷ [] else b'"' ∷ file ++ b'"' ∷ [])
print (define name body) = codes "#define " ++ name ++ b' ' ∷ body
print (undef name) = codes "#undef " ++ name
print (ifdef name) = codes "#ifdef " ++ name
print (ifndef name) = codes "#ifndef " ++ name
print (if_true expr) = codes "#if " ++ expr
print (line operand) = codes "#line " ++ operand
print else_branch = codes "#else"
print endif = codes "#endif"

unfoldable pub expected : Directive → ℕ → ℕ → ParsedDirective
expected (include angle file) b e = record (directive include_kind b e) {
  include_is_angle = angle;
  include_filename = file;
}
expected (define name body) b e = record (directive define_kind b e) { name = name; body = body }
expected (undef name) b e = record (directive undef_kind b e) { name = name }
expected (ifdef name) b e = record (directive ifdef_kind b e) { name = name }
expected (ifndef name) b e = record (directive ifndef_kind b e) { name = name }
expected (if_true expr) b e = record (directive if_kind b e) { if_expr = expr }
expected (line operand) b e = record (directive line_kind b e) { line_operand = operand }
expected else_branch b e = directive else_kind b e
expected endif b e = directive endif_kind b e

-- No blank at the front and none at the end.
pub record IsTrimmed (p : ℕ → Bool) (s : Bytes) : Type 0 where
  pub front : p (peek_byte s) ≡ false
  pub back : trim_end p s ≡ s

unfoldable pub IsWord : Bytes → Type 0
IsWord [] = ⊥
IsWord (c ∷ s) = (is_name_start c ≡ true) × All (λ d. is_name_body d ≡ true) s

-- What can be written: names are identifiers, the other texts have no blanks around them, and a file
-- name does not hold its closing mark.
unfoldable pub IsPrintable : Directive → Type 0
IsPrintable (include angle file) = All (λ c. (c == (if angle then b'>' else b'"')) ≡ false) file
IsPrintable (define name body) = IsWord name × IsTrimmed is_body_blank body
IsPrintable (undef name) = IsTrimmed is_ws name
IsPrintable (ifdef name) = IsTrimmed is_ws name
IsPrintable (ifndef name) = IsTrimmed is_ws name
IsPrintable (if_true expr) = IsTrimmed is_ws expr
IsPrintable (line operand) = IsTrimmed is_ws operand
IsPrintable else_branch = Unit
IsPrintable endif = Unit

pub run_length-none : (p : ℕ → Bool) (s : Bytes) → p (peek_byte s) ≡ false → run_length p s ≡ 0
unfolding run_length
run_length-none p [] h = refl
run_length-none p (c ∷ s) h = rw h refl

pub skip_ws-trimmed : (s : Bytes) → is_ws (peek_byte s) ≡ false → skip_ws s ≡ s
unfolding skip_ws
skip_ws-trimmed s h = rw (run_length-none is_ws s h) refl

trim-trimmed : (s : Bytes) → IsTrimmed is_ws s → trim s ≡ s
unfolding trim
trim-trimmed s h = rw (skip_ws-trimmed s h.front) h.back

trim_blank : (s : Bytes) → trim (b' ' ∷ s) ≡ trim s
unfolding trim skip_ws run_length is_ws
trim_blank s = refl

trim-blank : (s : Bytes) → IsTrimmed is_ws s → trim (trim (b' ' ∷ s)) ≡ s
trim-blank s h = ap trim (trim_blank s) ∙ ap trim (trim-trimmed s h) ∙ trim-trimmed s h

cons_back :
    (p : ℕ → Bool) (c : ℕ) (t : Bytes)
    → is_empty t ≡ false
    → trim_end p t ≡ t
    → trim_end p (c ∷ t) ≡ c ∷ t
unfolding trim_end
cons_back p c t n e = ground (arith, e, n)

is_empty-closed : (s : Bytes) (q : ℕ) → is_empty (s ++ q ∷ []) ≡ false
unfolding is_empty
is_empty-closed [] q = refl
is_empty-closed (c ∷ s) q = refl

pub trim_end-closed :
    (p : ℕ → Bool) (s : Bytes) (q : ℕ) → p q ≡ false → trim_end p (s ++ q ∷ []) ≡ s ++ q ∷ []
trim_end-closed p [] q e = unfold trim_end in ground (arith, e)
trim_end-closed p (c ∷ s) q e =
    cons_back p c (s ++ q ∷ []) (is_empty-closed s q) (trim_end-closed p s q e)

-- A file name between its marks.
trim-quoted :
    (mark close : ℕ) (file : Bytes)
    → is_ws mark ≡ false
    → is_ws close ≡ false
    → trim (b' ' ∷ mark ∷ (file ++ close ∷ [])) ≡ mark ∷ (file ++ close ∷ [])
trim-quoted mark close file o c =
    trim_blank _
    ∙ trim-trimmed _ (record { front = o; back = trim_end-closed is_ws (mark ∷ file) close c })

enclosed-closed :
    (close : ℕ) (file : Bytes)
    → All (λ c. (c == close) ≡ false) file
    → enclosed close (file ++ close ∷ []) ≡ file
unfolding enclosed is_empty
enclosed-closed close file h =
    let n =
      run_length-append (λ c. not (c == close)) file close []
        (All-mono _ _ (λ c e. rw e refl) file h) (ground arith) in
    rw (n, drop-length file (close ∷ []), take-length file (close ∷ [])) refl

skip_name : (c : ℕ) (s : Bytes) → is_name_start c ≡ true → skip_ws (b' ' ∷ c ∷ s) ≡ c ∷ s
unfolding skip_ws run_length is_ws is_name_start
skip_name c s h = ground arith

ident_size-name :
    (c : ℕ) (name t : Bytes)
    → is_name_start c ≡ true
    → run_length is_name_body (name ++ t) ≡ length name
    → ident_size (c ∷ (name ++ t)) ≡ suc (length name)
unfolding ident_size
ident_size-name c name t h e = rw (h, e) refl

not_ws : (c : ℕ) → is_body_blank c ≡ false → is_ws c ≡ false
unfolding is_body_blank
not_ws c h = ground arith

skip_blank : (s : Bytes) → skip_ws (b' ' ∷ s) ≡ skip_ws s
unfolding skip_ws run_length is_ws
skip_blank s = refl

body_back :
    (body : Bytes)
    → IsTrimmed is_body_blank body
    → trim_end is_body_blank (skip_ws (b' ' ∷ body)) ≡ body
body_back body t =
    ap (trim_end is_body_blank)
      (skip_blank body ∙ skip_ws-trimmed body (not_ws (peek_byte body) t.front))
    ∙ t.back

define_of-printed :
    (d : ParsedDirective) (name body : Bytes)
    → IsWord name
    → IsTrimmed is_body_blank body
    → define_of d (b' ' ∷ (name ++ b' ' ∷ body)) ≡ record d { name = name; body = body }
unfolding IsWord
define_of-printed d [] body w t = absurd w
define_of-printed d (c ∷ name) body w t =
    let at = skip_name c (name ++ b' ' ∷ body) (w.0) in
    let n = ident_size-name c name (b' ' ∷ body) (w.0) (
      run_length-append is_name_body name b' ' body (w.1)
        (unfold is_name_body is_name_start in refl)) in
    unfold define_of in
    rw (at, n, take-length (c ∷ name) (b' ' ∷ body), drop-length (c ∷ name) (b' ' ∷ body))
      (ap (λ b. record d { name = c ∷ name; body = b }) (body_back body t))

-- A directive that is printable, written as a line, is classified as that directive, with its name, its
-- body, its expression, its operand or its file name as they were.
pub classify_line-print :
    (d : Directive) (b e : ℕ) → IsPrintable d → classify_line (print d) b e ≡ expected d b e
unfolding classify_line include_of print expected IsPrintable classify_keyword_line skip_ws
    ident_size run_length is_ws is_name_start is_name_body bytes_eq
classify_line-print (include true file) b e h =
    ap (include_of (directive include_kind b e)) (trim-quoted b'<' b'>' file refl refl)
    ∙ ap
        (λ f. record (directive include_kind b e) { include_is_angle = true; include_filename = f })
        (enclosed-closed b'>' file h)
classify_line-print (include false file) b e h =
    ap (include_of (directive include_kind b e)) (trim-quoted b'"' b'"' file refl refl)
    ∙ ap (λ f. record (directive include_kind b e) { include_filename = f })
        (enclosed-closed b'"' file h)
classify_line-print (define name body) b e h =
    define_of-printed (directive define_kind b e) name body (h.0) (h.1)
classify_line-print (undef name) b e h =
    ap (λ s. record (directive undef_kind b e) { name = s }) (trim-blank _ h)
classify_line-print (ifdef name) b e h =
    ap (λ s. record (directive ifdef_kind b e) { name = s }) (trim-blank _ h)
classify_line-print (ifndef name) b e h =
    ap (λ s. record (directive ifndef_kind b e) { name = s }) (trim-blank _ h)
classify_line-print (if_true expr) b e h =
    ap (λ s. record (directive if_kind b e) { if_expr = s }) (trim-blank _ h)
classify_line-print (line operand) b e h =
    ap (λ s. record (directive line_kind b e) { line_operand = s }) (trim-blank _ h)
classify_line-print else_branch b e h = refl
classify_line-print endif b e h = refl
