-- ===== src/Lex/Keyword.antt =====
-- lib/Lex/KeywordSet.cpp with include/nsl/Lex/KeywordSet.def: the keyword recogniser, and
-- `classifyUnderscoreName` of lib/Lex/Lexer.cpp. The string map is the list of its insertions.
pub mod Exact
use nslc.Lex.Kind.{TokenKind, identifier, system_task, system_function, unused_underscore}
use nslc.Prelude.{Bytes, codes, bytes_eq, List, [], ◌∷◌, if◌then◌else◌, Bool, ◌||◌, false}

abbrev pub KeywordMap : Type 0
KeywordMap = List (Bytes × TokenKind)

abbrev pub keyword_map : KeywordMap
keyword_map =
    (codes "alt", TokenKind.alt)
    ∷ (codes "any", TokenKind.any)
    ∷ (codes "declare", TokenKind.declare)
    ∷ (codes "finish", TokenKind.finish)
    ∷ (codes "for", TokenKind.for_)
    ∷ (codes "func", TokenKind.func)
    ∷ (codes "func_in", TokenKind.func_in)
    ∷ (codes "func_out", TokenKind.func_out)
    ∷ (codes "func_self", TokenKind.func_self)
    ∷ (codes "generate", TokenKind.generate)
    ∷ (codes "goto", TokenKind.goto_)
    ∷ (codes "inout", TokenKind.inout)
    ∷ (codes "input", TokenKind.input)
    ∷ (codes "integer", TokenKind.integer)
    ∷ (codes "interface", TokenKind.interface)
    ∷ (codes "label", TokenKind.label)
    ∷ (codes "label_name", TokenKind.label_name)
    ∷ (codes "m_clock", TokenKind.m_clock)
    ∷ (codes "mem", TokenKind.mem)
    ∷ (codes "module", TokenKind.module_)
    ∷ (codes "output", TokenKind.output)
    ∷ (codes "p_reset", TokenKind.p_reset)
    ∷ (codes "proc", TokenKind.proc)
    ∷ (codes "proc_name", TokenKind.proc_name)
    ∷ (codes "reg", TokenKind.reg)
    ∷ (codes "seq", TokenKind.seq)
    ∷ (codes "state", TokenKind.state)
    ∷ (codes "state_name", TokenKind.state_name)
    ∷ (codes "variable", TokenKind.variable)
    ∷ (codes "while", TokenKind.while_)
    ∷ (codes "wire", TokenKind.wire)
    ∷ (codes "else", TokenKind.else_)
    ∷ (codes "first_state", TokenKind.first_state)
    ∷ (codes "function", TokenKind.function)
    ∷ (codes "if", TokenKind.if_)
    ∷ (codes "invoke", TokenKind.invoke)
    ∷ (codes "param_int", TokenKind.param_int)
    ∷ (codes "param_str", TokenKind.param_str)
    ∷ (codes "parameter", TokenKind.parameter)
    ∷ (codes "return", TokenKind.return_)
    ∷ (codes "simulation", TokenKind.simulation)
    ∷ (codes "struct", TokenKind.struct_)
    ∷ []

unfoldable pub find_kind : KeywordMap → Bytes → TokenKind
find_kind [] ident = identifier
find_kind ((s, k) ∷ m) ident = if bytes_eq s ident then k else find_kind m ident

unfoldable pub classify_keyword : Bytes → TokenKind
unfolding find_kind
classify_keyword ident = find_kind keyword_map ident

abbrev pub task_names : List Bytes
task_names =
    codes "_display"
    ∷ codes "_monitor"
    ∷ codes "_write"
    ∷ codes "_finish"
    ∷ codes "_stop"
    ∷ codes "_readmemh"
    ∷ codes "_readmemb"
    ∷ codes "_delay"
    ∷ codes "_init"
    ∷ []

abbrev pub variable_names : List Bytes
variable_names = codes "_random" ∷ codes "_time" ∷ []

unfoldable pub is_one_of : List Bytes → Bytes → Bool
is_one_of [] text = false
is_one_of (t ∷ ts) text = bytes_eq text t || is_one_of ts text

unfoldable pub classify_underscore_name : Bytes → TokenKind
classify_underscore_name text =
    if is_one_of task_names text
    then system_task
    else if is_one_of variable_names text
    then system_function
    else unused_underscore
