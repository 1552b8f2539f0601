-- ===== src/Parser/Expr.antt =====
-- Expressions (compiler/parser.c), by precedence climbing. A function that calls `parse_expr` has it
-- as the argument `expr`; the number of nested calls is the fuel of `parse_expr`. The loops have the
-- fuel `parse_fuel`.
use metagen.Base.{
  ℕ, zero, suc, Bool, false, Option, none, some, if◌then◌else◌, leb, Outcome, ok, fault,
  out_of_fuel, ◌>>=◌,
}
use metagen.Lex.Token.{
  TokenKind, token_num, token_str, token_minus, token_star, token_lparen, token_rparen,
  token_lbracket, token_rbracket, token_dot, token_comma, token_ampersand, token_identifier,
  token_null, Token, is_kind,
}
use metagen.Ast.{AstExpr, expr_null, AstExprs, nil}
use metagen.Ast.Make.{
  make_unary, make_binary, make_literal, make_call, make_list, ast_list_push_back,
}
use metagen.Parser.State.{
  Parser, token_precedences, is_bin_op, next_token, peek_token, match_token, error_parse,
  consume_or_err, parse_fuel,
}

-- A call of `parse_expr`.
abbrev pub ExprParser : Type 0
ExprParser = Parser → ℕ → Outcome (AstExpr × Parser)

-- A string, or an expression.
unfoldable pub parse_item : ExprParser → Parser → Outcome (AstExpr × Parser)
parse_item expr parser = peek_token parser >>= λ r.
    if is_kind r.0.kind token_str
    then (next_token r.1 >>= λ s. ok (make_literal s.0, s.1))
    else expr r.1 0

-- The do-while loop of `parse_expr_list`, entered with a comma peeked.
unfoldable pub list_run : ℕ → ExprParser → AstExprs → Parser → Outcome (AstExprs × Parser)
list_run zero expr list parser = fault out_of_fuel
list_run (suc f) expr list parser = do
  (comma, p₁) ← next_token parser
  (e, p₂) ← parse_item expr p₁
  (next, p₃) ← peek_token p₂
  let rest = list_run f expr (ast_list_push_back list e) p₃ in
      if is_kind next.kind token_comma then rest else ok (ast_list_push_back list e, p₃)

unfoldable pub parse_expr_list : ExprParser → Parser → Outcome (AstExprs × Parser)
parse_expr_list expr parser = do
  (e, p₁) ← parse_item expr parser
  (next, p₂) ← peek_token p₁
  if is_kind next.kind token_comma
      then list_run (parse_fuel p₂) expr (make_list e) p₂
      else ok (make_list e, p₂)

unfoldable pub parse_args : ExprParser → Token → Bool → Parser → Outcome (AstExpr × Parser)
parse_args expr identifier is_comptime parser = do
  (args, p₁) ← parse_expr_list expr parser
  (close, p₂) ← consume_or_err p₁ token_rparen "Expected ')' to end function call"
  ok (make_call is_comptime identifier.lexeme args, p₂)

unfoldable pub parse_call : ExprParser → Parser → Token → Bool → Outcome (AstExpr × Parser)
parse_call expr parser identifier is_comptime = do
  (open_paren, p₁) ← next_token parser
  (closed, p₂) ← match_token p₁ token_rparen
  if closed
      then ok (make_call is_comptime identifier.lexeme nil, p₂)
      else parse_args expr identifier is_comptime p₂

-- The case of '('.
unfoldable pub parse_group : ExprParser → Parser → Outcome (AstExpr × Parser)
parse_group expr parser = do
  (e, p₁) ← expr parser 0
  (close, p₂) ← consume_or_err p₁ token_rparen "Expected ')' to terminate the group expression"
  ok (e, p₂)

-- The case of '-', and of '*' and '&' behind their check.
unfoldable pub parse_unary : ExprParser → TokenKind → Parser → Outcome (AstExpr × Parser)
parse_unary expr op parser = expr parser 0 >>= λ r. ok (make_unary r.0 op, r.1)

unfoldable pub parse_address : ExprParser → TokenKind → Parser → Outcome (AstExpr × Parser)
parse_address expr op parser = peek_token parser >>= λ r. parse_unary expr op (
    if is_kind r.0.kind token_identifier
    then r.1
    else error_parse r.1 "RHS of unary * or & must start with an identifier" r.0)

unfoldable pub parse_index : ExprParser → Token → Token → Parser → Outcome (AstExpr × Parser)
parse_index expr token next parser = do
  (open_bracket, p₁) ← next_token parser
  (right, p₂) ← expr p₁ 0
  (close, p₃) ← consume_or_err p₂ token_rbracket "Expected ']' to terminate array indexing"
  ok (make_binary (make_literal token) next.kind right, p₃)

-- The case of a number or an identifier.
unfoldable pub parse_atom : ExprParser → Token → Parser → Outcome (AstExpr × Parser)
parse_atom expr token parser = peek_token parser >>= λ r.
    if is_kind r.0.kind token_lparen
    then parse_call expr r.1 token false
    else if is_kind r.0.kind token_lbracket
    then parse_index expr token r.0 r.1
    else ok (make_literal token, r.1)

-- The switch of `parse_primary` on the kind of the token that was read.
unfoldable pub primary_of : ExprParser → TokenKind → Token → Parser → Outcome (AstExpr × Parser)
primary_of expr token_lparen token parser = parse_group expr parser
primary_of expr token_star token parser = parse_address expr token.kind parser
primary_of expr token_ampersand token parser = parse_address expr token.kind parser
primary_of expr token_minus token parser = parse_unary expr token.kind parser
primary_of expr token_num token parser = parse_atom expr token parser
primary_of expr token_identifier token parser = parse_atom expr token parser
primary_of expr token_null token parser = ok (make_literal token, parser)
primary_of expr _ token parser =
    ok (expr_null, error_parse parser "Invalid start of a primary expression" token)

unfoldable pub parse_primary : ExprParser → Parser → Outcome (AstExpr × Parser)
parse_primary expr parser = next_token parser >>= λ r. primary_of expr r.0.kind r.0 r.1

-- The operand behind an operator.
unfoldable pub parse_operand : ExprParser → TokenKind → Parser → Outcome (AstExpr × Parser)
parse_operand expr op parser =
    if is_kind op token_dot
    then (consume_or_err parser token_identifier "Expected a struct member name" >>= λ r.
        ok (make_literal r.0, r.1))
    else expr parser (token_precedences op)

-- `none` is the result `left`, which the caller knows by its pointer.
unfoldable pub parse_increasing_precedence :
    ExprParser → Parser → AstExpr → ℕ → Outcome (Option AstExpr × Parser)
parse_increasing_precedence expr parser left precedence = do
  (next, p₁) ← peek_token parser
  if is_bin_op next.kind
      then if leb (token_precedences next.kind) precedence then ok (none, p₁) else (do
        (op, p₂) ← next_token p₁
        (right, p₃) ← parse_operand expr next.kind p₂
        ok (some (make_binary left next.kind right), p₃))
      else ok (none, p₁)

-- The loop of `parse_expr`.
unfoldable pub expr_run : ℕ → ExprParser → AstExpr → ℕ → Parser → Outcome (AstExpr × Parser)
expr_run zero expr left precedence parser = fault out_of_fuel
expr_run (suc f) expr left precedence parser =
    parse_increasing_precedence expr parser left precedence >>= λ r. elim (r.0) [
      | none ↦ ok (left, r.1)
      | some e ↦ expr_run f expr e precedence (r.1)
    ]

unfoldable pub parse_expr : ℕ → ExprParser
parse_expr zero parser precedence = fault out_of_fuel
parse_expr (suc f) parser precedence = parse_primary (parse_expr f) parser >>= λ r.
    expr_run (parse_fuel r.1) (parse_expr f) r.0 precedence r.1

-- A call of `parse_expr` with nested calls enough.
abbrev pub parse_full_expr : ExprParser
parse_full_expr parser precedence = parse_expr (parse_fuel parser) parser precedence
