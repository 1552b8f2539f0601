-- ===== src/Lib.antt =====
-- The metagen compiler, a C program: a lexer and a parser for a small language, its type checker, a
-- bytecode compiler with a stack machine that runs code at compile time, and a generator of C.
--
-- What is modelled, by file of src/ of the repository:
--   * src/compiler/lex.c, lex.h: Lex/Token (kinds, points, tokens), Lex/State (the Lexer struct as a
--     record, passed from call to call; next, match, backup, accept, accept_run, emit, emit_str,
--     lex_init), Lex/Rules (lex_next, lex_peek, lex_ident, lex_num, lex_str, lex_comment). The other
--     modules of Lex describe tokens (Spelling, Position) and relate the lexer to that description.
--   * src/compiler/error.c: Diagnostics, the handler as in a program built without assertions;
--     Diagnostics/Message, the texts of the messages that error.c puts together
--     itself, whose making fails an assertion. The lexer carries
--     its error handler as a field.
--   * src/base/str.c: Str, the reading of a number literal; Str/Builder, the string builder.
--   * src/compiler/type.h, type.c, compiler.h: Types (types, with type_info_equal and
--     type_info_bit_size), Types/Store (the Compiler struct; tables and symbols behind pointers, which are
--     numbers), Types/Symt (symt_init, symt_new_sym, symt_find_sym), Types/Resolve (ast_type_resolve, the
--     types of declarations), Types/Global (built-in types, resolve_global_types), Types/Layout (the graph
--     of structs, sizes and offsets), Types/Typegen (typegen), Types/Infer (bind_expr, bind_stmt,
--     bind_function, infer), Types/Check (typecheck_expr) and Types/CheckStmts (typecheck_stmt, typecheck).
--     Of the others, Pointers, Scopes, Insert, Grow and Lookup are about the tables as a tree of scopes, Bound,
--     Binding, Blocks and Statements about binding, Offsets about the layout of structs, and Typing, Sizes, Accepts, Callees and Sound about the
--     checker and a typing relation.
--   * src/main.c: Driver, the passes in order and the run of the bytecode.
--   * src/compiler/ast.h, ast.c: Ast, the tree; Ast/Make, the constructors of its nodes.
--   * src/compiler/parser.c, parser.h: Parser/State (the Parser struct and the functions that read
--     tokens), Parser/Expr (expressions, by precedence climbing), Parser/Stmt (types, variables,
--     statements), Parser/Root (declarations, parse). A function that calls parse_expr or parse_stmt
--     has it as an argument. The modules of Parser/Runs bound the calls by the tokens left; those of
--     Parser/Sound relate the trees to a grammar, of expressions (Grammar), of types and variables
--     (VarGrammar) and of statements (StmtGrammar); Stops is about the token in front of which an
--     expression ends.
--   * src/compiler/comptime/bytecode.c, bytecode.h: Comptime/Code (opcodes, the writers and
--     patchers), Comptime/Compile (the compiler of expressions, statements and a function),
--     Comptime/Sample (fib_test).
--   * src/compiler/comptime/vm.c, vm.h: Comptime/Word (s64 and C's operators), Comptime/Machine (the
--     helpers, the switch and the loop of run). The other modules of Comptime relate the compiler
--     to the machine.
-- Base holds what all share: Boolean tests, lists, wrap-around on u32, integers, and Outcome, the
-- result of code that may stop at a failed assertion, at what C leaves undefined, or by exit.
--
-- How the parts interact: the lexer reports to the error handler and hands tokens to the parser; the
-- parser builds the tree of Ast; the type checker fills in the types and symbols that the tree
-- keeps, in the tables and types of the Compiler; the bytecode compiler reads them, asks Types for sizes and Str for literals, and writes the
-- code that the machine runs.
--
-- Fuel: a loop of the lexer has one round more than the input has bytes, and so has lex_next for its
-- calls of itself, since every round but the last reads a byte. The loops and the nested calls of the
-- parser have three more than the input has bytes: every round and every nested call reads a token, of
-- at least one byte, and one token more may wait in the slot. The loop that doubles the bytes of a
-- string builder has 33 rounds, more than a u32 has doublings. The loop of run has any fuel, since a
-- program need not stop. A lookup has one round more than there are tables, since a parent is older than
-- its table. typecheck_expr has one more than the expression has nodes, since binding again the right side
-- of a dot keeps its size.
--
-- Parameters: the hash map of src/base/nicc.h, a copy of a library, is the record
-- HashMap.StrMap with the laws of get and put; the graphs of src/base/nag.h, another copy, are the
-- record Types.Layout.Nag. C does not say which operand of an operator
-- is evaluated first, so the machine has an EvalOrder, and a cell of the stack that was never
-- written holds a value that the machine is given.
--
-- Not modelled: the generator of C (src/compiler/codegen/gen.c), the string list, the printing of trees,
-- tokens, symbols and bytecode, the reading of the input, memory, and the copies of nicc, nag and sac in
-- src/base.
pub mod Ast
pub mod Base
pub mod Comptime
pub mod Diagnostics
pub mod Driver
pub mod HashMap
pub mod Lex
pub mod Parser
pub mod Str
pub mod Types
