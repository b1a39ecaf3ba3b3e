-- ===== src/Lib.antt =====
-- nslc is a compiler for NSL, a hardware description language. Its front end preprocesses a
-- source text, cuts it into tokens, parses them and resolves names; MLIR passes then lower the
-- tree to CIRCT and Verilog, and two tools, a formatter and a language server, stand on the same
-- front end.
--
-- The parts modelled, each with the file or folder of this library:
-- * Lex models lib/Lex and include/nsl/Lex. Lex.Kind has the token kinds and their names,
--   Lex.Keyword `classifyKeyword` and `classifyUnderscoreName`, Lex.Number `scanNumber` with
--   `consumeValueRun` and `radixFromChar`, Lex.Scanner the class `Lexer::Impl`
--   (`skipWhitespaceAndComments`, the token scanners and `nextImpl`), and Lex.Stream the class
--   `Lexer` (`next`, `peek`, `atEOF`) with the loop of lib/Driver/EmitTokens.cpp.
-- * Basic models include/nsl/Basic/SourceLocation.h and lib/Basic: Basic.Location the packed
--   locations and ranges, Basic.Lines the line table with `getLineCol` and `getLine`,
--   Basic.Directives the line directives with `resolveVirtual`, Basic.Manager the class
--   `SourceManager` (`loadFile`, the FileIDs, the include frames and `addLineDirective`), and
--   Basic.Diagnostics the class `DiagnosticEngine` with its rendering as text and as JSON. Its
--   locations are those of macros, symbols and diagnostics.
-- * Preprocess models lib/Preprocess. Preprocess.Macros is MacroTable.cpp, and
--   Preprocess.Expander MacroExpander.cpp, which looks names up in the table.
--   Preprocess.Directives is DirectiveParser.cpp, Preprocess.Splicer IdentSplicer.cpp, and
--   Preprocess.Helpers HelperEvaluator.cpp with the table HelperSet.def. Preprocessor.cpp has
--   four modules: Preprocess.Search the class `IncludeSearchPath`, Preprocess.Conditionals the
--   stack of `#if` frames, Preprocess.Seam the two scans of a line that passes through, and
--   Preprocess.Driver the class `Preprocessor::Impl`: a handler for each directive (Handlers),
--   `readLine` and the operand of `#line` (Lines), and `runFile` as a round on the frame on top
--   and a loop over rounds (Loop). The driver takes the directive parser, the splicer, the macro
--   table and the source manager as they are modelled here.
-- * Sema models lib/Sema/SymbolTable.cpp: Sema.Scopes has the scopes and the table as a stack of
--   them.
-- * Fmt models lib/Fmt/Doc.h (Fmt.Doc), lib/Fmt/LayoutRenderer.cpp (Fmt.Layout) and
--   lib/Fmt/Diff.cpp up to the edit script (Fmt.Diff).
-- * Lsp models lib/LSP/PositionEncoding.cpp.
-- * Prelude has the lists, texts, integers and Boolean tests that the parts share, and each part
--   has a module Tests with runs at small inputs.
--
-- How the state corresponds: a buffer is the list of its byte values. A scanner of the source
-- works on a buffer and a cursor; here it is given the bytes from the cursor on, and it returns
-- how many it passes, so an offset of the source is the cursor plus that length. Members that a
-- method changes are fields of a record that the function returns anew. A diagnostic is appended
-- to a list. An abort of the process is `none`, and so is an overflow of the `long long` in the
-- operand of `#line`, which is undefined in the source.
--
-- Bounds and fuel: byte offsets are natural numbers. The source packs them into 24 bits and
-- aborts beyond, so the model agrees with it on buffers below 16 MiB. The trivia loop has the
-- length of the rest as its fuel, and a round passes a byte at least; the token loop is shown to
-- end with any fuel above the length of the buffer; the loop of `peek` has as many rounds as
-- tokens are asked for. The expander has the levels of depth that are left as its first
-- recursion, 256 from `expand`, and the length of the text as the fuel of its loop, of which a
-- step uses up one byte at least; the loops of Lsp have the length of the line as their fuel.
-- The loop over the frames of the preprocessor is a recursion on fuel, and some fuel is shown to
-- be enough for every state; the loops over a line have its length as their fuel. Words of 32
-- bits wrap where lines, columns and units are counted, and the theorems name the sizes below
-- which they do not. Widths in layout documents and cells of the diff table are natural numbers:
-- the source keeps them in 32 bits, which texts below 2 GiB do not overflow.
--
-- The file system is a parameter: `load_file` takes a function from paths to contents, and the
-- search path a test whether a path opens. The numbers of type `long double`, with the functions
-- of the mathematical library, are a parameter of the helpers (Preprocess.Helpers.Value.Reals).
-- The evaluation of expressions in lib/Preprocess/PPExpression.cpp is a parameter of the driver
-- (Preprocess.Splicer.Expressions): a call returns a value or aborts, and so an evaluation that
-- does not return lies outside of what is said of the driver.
--
-- Not modelled: the ladder of operators in PPExpression.cpp; LLVM, MLIR, CIRCT and the standard
-- library, which the sources only call; the passes and printers that only build IR; input and
-- output. A negative argument of `peek` is replaced by 0 in the source before anything else, and
-- the model starts behind that.
pub mod Prelude
pub mod Basic
pub mod Fmt
pub mod Lex
pub mod Lsp
pub mod Preprocess
pub mod Sema
