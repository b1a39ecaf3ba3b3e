-- ===== src/Lex/Kind/Names.antt =====
-- lib/Lex/Token.cpp: the names of the token kinds.
use nslc.Lex.Kind.{TokenKind}
use nslc.Prelude.{Bytes, codes}

-- `toString`; the keywords' names are those of include/nsl/Lex/KeywordSet.def.
unfoldable pub to_string : TokenKind → Bytes
to_string TokenKind.unknown = codes "tk_unknown"
to_string TokenKind.eof = codes "tk_eof"
to_string TokenKind.identifier = codes "tk_identifier"
to_string TokenKind.string_lit = codes "tk_string_lit"
to_string TokenKind.decimal_lit = codes "tk_decimal_lit"
to_string TokenKind.hex_lit = codes "tk_hex_lit"
to_string TokenKind.binary_lit = codes "tk_binary_lit"
to_string TokenKind.octal_lit = codes "tk_octal_lit"
to_string TokenKind.system_task = codes "tk_system_task"
to_string TokenKind.system_function = codes "tk_system_function"
to_string TokenKind.unused_underscore = codes "tk_unused_underscore"
to_string TokenKind.alt = codes "tk_alt"
to_string TokenKind.any = codes "tk_any"
to_string TokenKind.declare = codes "tk_declare"
to_string TokenKind.finish = codes "tk_finish"
to_string TokenKind.for_ = codes "tk_for"
to_string TokenKind.func = codes "tk_func"
to_string TokenKind.func_in = codes "tk_func_in"
to_string TokenKind.func_out = codes "tk_func_out"
to_string TokenKind.func_self = codes "tk_func_self"
to_string TokenKind.generate = codes "tk_generate"
to_string TokenKind.goto_ = codes "tk_goto"
to_string TokenKind.inout = codes "tk_inout"
to_string TokenKind.input = codes "tk_input"
to_string TokenKind.integer = codes "tk_integer"
to_string TokenKind.interface = codes "tk_interface"
to_string TokenKind.label = codes "tk_label"
to_string TokenKind.label_name = codes "tk_label_name"
to_string TokenKind.m_clock = codes "tk_m_clock"
to_string TokenKind.mem = codes "tk_mem"
to_string TokenKind.module_ = codes "tk_module"
to_string TokenKind.output = codes "tk_output"
to_string TokenKind.p_reset = codes "tk_p_reset"
to_string TokenKind.proc = codes "tk_proc"
to_string TokenKind.proc_name = codes "tk_proc_name"
to_string TokenKind.reg = codes "tk_reg"
to_string TokenKind.seq = codes "tk_seq"
to_string TokenKind.state = codes "tk_state"
to_string TokenKind.state_name = codes "tk_state_name"
to_string TokenKind.variable = codes "tk_variable"
to_string TokenKind.while_ = codes "tk_while"
to_string TokenKind.wire = codes "tk_wire"
to_string TokenKind.else_ = codes "tk_else"
to_string TokenKind.first_state = codes "tk_first_state"
to_string TokenKind.function = codes "tk_function"
to_string TokenKind.if_ = codes "tk_if"
to_string TokenKind.invoke = codes "tk_invoke"
to_string TokenKind.param_int = codes "tk_param_int"
to_string TokenKind.param_str = codes "tk_param_str"
to_string TokenKind.parameter = codes "tk_parameter"
to_string TokenKind.return_ = codes "tk_return"
to_string TokenKind.simulation = codes "tk_simulation"
to_string TokenKind.struct_ = codes "tk_struct"
to_string TokenKind.lparen = codes "tk_lparen"
to_string TokenKind.rparen = codes "tk_rparen"
to_string TokenKind.lbrace = codes "tk_lbrace"
to_string TokenKind.rbrace = codes "tk_rbrace"
to_string TokenKind.lbracket = codes "tk_lbracket"
to_string TokenKind.rbracket = codes "tk_rbracket"
to_string TokenKind.comma = codes "tk_comma"
to_string TokenKind.semicolon = codes "tk_semicolon"
to_string TokenKind.colon = codes "tk_colon"
to_string TokenKind.dot = codes "tk_dot"
to_string TokenKind.assign = codes "tk_assign"
to_string TokenKind.assign_seq = codes "tk_assign_seq"
to_string TokenKind.plus = codes "tk_plus"
to_string TokenKind.minus = codes "tk_minus"
to_string TokenKind.plus_plus = codes "tk_plus_plus"
to_string TokenKind.minus_minus = codes "tk_minus_minus"
to_string TokenKind.star = codes "tk_star"
to_string TokenKind.slash = codes "tk_slash"
to_string TokenKind.percent = codes "tk_percent"
to_string TokenKind.amp = codes "tk_amp"
to_string TokenKind.pipe = codes "tk_pipe"
to_string TokenKind.caret = codes "tk_caret"
to_string TokenKind.tilde = codes "tk_tilde"
to_string TokenKind.logical_and = codes "tk_logical_and"
to_string TokenKind.logical_or = codes "tk_logical_or"
to_string TokenKind.logical_not = codes "tk_logical_not"
to_string TokenKind.equal = codes "tk_equal"
to_string TokenKind.not_equal = codes "tk_not_equal"
to_string TokenKind.less = codes "tk_less"
to_string TokenKind.less_equal = codes "tk_less_equal"
to_string TokenKind.greater = codes "tk_greater"
to_string TokenKind.greater_equal = codes "tk_greater_equal"
to_string TokenKind.shift_left = codes "tk_shift_left"
to_string TokenKind.shift_right = codes "tk_shift_right"
to_string TokenKind.question = codes "tk_question"
to_string TokenKind.at = codes "tk_at"
to_string TokenKind.hash_sign_extend = codes "tk_hash_sign_extend"
to_string TokenKind.apostrophe_zero_extend = codes "tk_apostrophe_zero_extend"
to_string TokenKind.dot_lbrace = codes "tk_dot_lbrace"
to_string TokenKind.line_directive = codes "tk_line_directive"
to_string TokenKind.count = codes "tk_count"
