-- ===== src/Parser/Root.antt =====
-- Declarations and the whole source (compiler/parser.c).
use metagen.Base.{
  ℕ, zero, suc, Bool, true, false, List, [], Option, none, some, if◌then◌else◌, Outcome, ok, fault,
  out_of_fuel, ◌>>=◌,
}
use metagen.Diagnostics.{ErrorHandler}
use metagen.Lex.Token.{
  TokenKind, token_err, token_assignment, token_lparen, token_rparen, token_at, token_eof,
  token_identifier, token_func, token_struct, token_enum, token_var, token_compiler, Token,
  bare_token, is_kind,
}
use metagen.Lex.State.{lex_init}
use metagen.Ast.{TypedIdent, AstStmt, AstFunc, AstRoot}
use metagen.Ast.Make.{make_func, make_struct, make_enum, node_list_push_back, make_root}
use metagen.Parser.State.{Parser, next_token, peek_token, error_parse, consume_or_err, parse_fuel}
use metagen.Parser.Expr.{parse_call, parse_full_expr}
use metagen.Parser.Stmt.{parse_type, parse_variable_list, parse_full_stmt}

unfoldable pub parse_params : Parser → Outcome (List TypedIdent × Parser)
parse_params parser = do
  (next, p₁) ← peek_token parser
  if is_kind next.kind token_rparen then ok ([], p₁) else parse_variable_list p₁ true true

unfoldable pub parse_body : Bool → Parser → Outcome (Option AstStmt × Parser)
parse_body true parser = parse_full_stmt parser >>= λ r. ok (some r.0, r.1)
parse_body false parser = ok (none, parser)

unfoldable pub parse_func : Parser → Bool → Outcome (AstFunc × Parser)
parse_func parser require_body = do
  (identifier, p₁) ← consume_or_err parser token_identifier "Expected function name"
  (left, p₂) ← consume_or_err p₁ token_lparen "Expected '(' to start function parameter list"
  (vars, p₃) ← parse_params p₂
  (right, p₄) ← consume_or_err p₃ token_rparen "Expected ')' to terminate function parameter list"
  (return_type, p₅) ← parse_type p₄ true
  (body, p₆) ← parse_body require_body p₅
  ok (make_func identifier.lexeme vars body return_type, p₆)

-- The name and the members of a struct or an enum.
unfoldable pub parse_members : Bool → Parser → Outcome ((Token × List TypedIdent) × Parser)
parse_members typed parser = do
  (name, p₁) ←
      consume_or_err parser token_identifier
        (if typed then "Expected struct name" else "Expected enum name")
  (becomes, p₂) ←
      consume_or_err p₁ token_assignment
        (if typed then "Expected ':=' after struct name" else "Expected ':=' after enum name")
  (members, p₃) ← parse_variable_list p₂ true typed
  ok ((name, members), p₃)

-- One declaration, by the kind of its first token, on top of the lists so far.
unfoldable pub decl_of : TokenKind → Token → AstRoot → Parser → Outcome (AstRoot × Parser)
decl_of token_var next root parser = do
  (v, p₁) ← parse_variable_list parser true true
  ok (record root { vars = node_list_push_back root.vars v }, p₁)
decl_of token_compiler next root parser = do
  (func_word, p₁) ← consume_or_err parser token_func "Expected a function"
  (func, p₂) ← parse_func p₁ false
  ok (record root { funcs = node_list_push_back root.funcs func }, p₂)
decl_of token_func next root parser = do
  (func, p₁) ← parse_func parser true
  ok (record root { funcs = node_list_push_back root.funcs func }, p₁)
decl_of token_struct next root parser = do
  (named, p₁) ← parse_members true parser
  ok (
    record root { structs = node_list_push_back root.structs (make_struct named.0.lexeme named.1) },
    p₁,
  )
decl_of token_enum next root parser = do
  (named, p₁) ← parse_members false parser
  ok (record root { enums = node_list_push_back root.enums (make_enum named.0.lexeme named.1) }, p₁)
decl_of token_at next root parser = do
  (function_identifier, p₁) ←
      consume_or_err parser token_identifier "Expected an function name after '@'"
  (call, p₂) ← parse_call parse_full_expr p₁ function_identifier true
  ok (record root { calls = node_list_push_back root.calls call }, p₂)
decl_of _ next root parser =
    ok (root, error_parse parser "Illegal first token. Expected var, struct or func" next)

-- The loop of `parse_root`.
unfoldable pub root_run : ℕ → AstRoot → Parser → Outcome (AstRoot × Parser)
root_run zero root parser = fault out_of_fuel
root_run (suc f) root parser = next_token parser >>= λ r.
    if is_kind r.0.kind token_eof
    then ok (root, r.1)
    else (decl_of r.0.kind r.0 root r.1 >>= λ s. root_run f s.0 s.1)

unfoldable pub parse_root : Parser → Outcome (AstRoot × Parser)
parse_root parser = root_run (parse_fuel parser) (make_root [] [] [] [] []) parser

-- The parser behind the last token, which holds the error handler, comes with the tree.
unfoldable pub parse : ErrorHandler → List ℕ → Outcome (AstRoot × Parser)
parse e input =
    parse_root (record { lexer = lex_init e input; unlex = false; previous = bare_token token_err })
