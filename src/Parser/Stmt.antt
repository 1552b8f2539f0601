-- ===== src/Parser/Stmt.antt =====
-- Statements (compiler/parser.c). A function that calls `parse_stmt` has it as the argument `stmt`; the
-- number of nested calls is the fuel of `parse_stmt`.
use metagen.Base.{
  ℕ, zero, suc, ◌+◌, ◌-◌, ◌^◌, Bool, true, false, ◌||◌, List, [], ◌∷◌, ◌++◌, Option, none, some,
  if◌then◌else◌, Outcome, ok, fault, out_of_fuel, ◌>>=◌,
}
use metagen.Lex.Token.{
  TokenKind, token_num, token_colon, token_assignment, token_star, token_lparen, token_lbracket,
  token_rbracket, token_dot, token_comma, token_caret, token_eof, token_identifier, token_begin,
  token_end, token_return, token_print, token_break, token_continue, token_if, token_then,
  token_else, token_while, token_do, token_var, Token, is_kind,
}
use metagen.Ast.{
  AstTypeInfo, TypedIdent, AstExpr, AstStmt, stmt_null, stmt_return, stmt_expr, stmt_break,
  stmt_continue, stmt_print, AstStmts,
}
use metagen.Ast.Make.{
  make_binary, make_literal, make_while, make_if, make_block, make_assignment, make_stmt_list,
  stmt_list_push_back,
}
use metagen.Str.{str_view_to_u32}
use metagen.Parser.State.{
  Parser, is_relation_op, next_token, peek_token, match_token, error_parse, consume_or_err,
  parse_fuel,
}
use metagen.Parser.Expr.{parse_expr_list, parse_call, parse_full_expr}

-- A call of `parse_stmt`.
abbrev pub StmtParser : Type 0
StmtParser = Parser → Outcome (AstStmt × Parser)

-- The loop over the '^' of a type.
unfoldable pub caret_run : ℕ → ℕ → Parser → Outcome (ℕ × Parser)
caret_run zero n parser = fault out_of_fuel
caret_run (suc f) n parser = match_token parser token_caret >>= λ r.
    let rest = caret_run f (n + 1) r.1 in if r.0 then rest else ok (n, r.1)

-- The number of elements, as its 32-bit pattern: -1 when there is none.
unfoldable pub parse_elements : Parser → Outcome (ℕ × Parser)
parse_elements parser = peek_token parser >>= λ r.
    if is_kind r.0.kind token_num
    then (next_token r.1 >>= λ s.
        let (elements, parsed_success) = str_view_to_u32 r.0.lexeme in
        ok (
          elements,
          if parsed_success then s.1 else error_parse s.1 "Could not be parsed as a u32" r.0,
        ))
    else ok (2 ^ 32 - 1, r.1)

abbrev pub plain_type : List ℕ → ℕ → AstTypeInfo
plain_type name pointer_indirection = record {
  name = name;
  is_array = false;
  elements = 0;
  pointer_indirection = pointer_indirection;
}

-- Behind the '['.
unfoldable pub parse_array : Bool → Token → ℕ → Parser → Outcome (AstTypeInfo × Parser)
parse_array true name pointer_indirection parser = do
  (elements, p₁) ← parse_elements parser
  (close, p₂) ← consume_or_err p₁ token_rbracket "Expected ']' to terminate the array type"
  ok (
    record {
      name = name.lexeme;
      is_array = true;
      elements = elements;
      pointer_indirection = pointer_indirection;
    },
    p₂,
  )
parse_array false name pointer_indirection parser = do
  (close, p₁) ← consume_or_err parser token_rbracket "Local arrays are not allowed"
  ok (plain_type name.lexeme pointer_indirection, p₁)

unfoldable pub parse_type : Parser → Bool → Outcome (AstTypeInfo × Parser)
parse_type parser allow_array_types = do
  (colon, p₁) ← consume_or_err parser token_colon "Expected ':' after declaration to denote type"
  (pointer_indirection, p₂) ← caret_run (parse_fuel p₁) 0 p₁
  (name, p₃) ← consume_or_err p₂ token_identifier "Expected typename after ':'"
  (bracket, p₄) ← match_token p₃ token_lbracket
  if bracket
      then parse_array allow_array_types name pointer_indirection p₄
      else ok (plain_type name.lexeme pointer_indirection, p₄)

unfoldable pub parse_type_if : Bool → Bool → Parser → Outcome (AstTypeInfo × Parser)
parse_type_if true allow_array_types parser = parse_type parser allow_array_types
parse_type_if false allow_array_types parser = ok (plain_type [] 0, parser)

-- The do-while loop of `parse_variable_list`: a variable, and the rest behind a comma.
unfoldable pub variable_run : ℕ → Bool → Bool → Parser → Outcome (List TypedIdent × Parser)
variable_run zero allow_array_types typed parser = fault out_of_fuel
variable_run (suc f) allow_array_types typed parser = do
  (identifier, p₁) ← consume_or_err parser token_identifier "Expected variable name"
  (type_info, p₂) ← parse_type_if typed allow_array_types p₁
  (next, p₃) ← peek_token p₂
  let var : TypedIdent = record { name = identifier.lexeme; ast_type_info = type_info } in
      if is_kind next.kind token_comma
      then (do
        (comma, p₄) ← next_token p₃
        (rest, p₅) ← variable_run f allow_array_types typed p₄
        ok (var ∷ rest, p₅))
      else ok (var ∷ [], p₃)

unfoldable pub parse_variable_list : Parser → Bool → Bool → Outcome (List TypedIdent × Parser)
parse_variable_list parser allow_array_types typed =
    variable_run (parse_fuel parser) allow_array_types typed parser

-- The loop of `parse_local_decl_list`: the lists stand one behind another in the arena.
unfoldable pub decl_run : ℕ → List TypedIdent → Parser → Outcome (List TypedIdent × Parser)
decl_run zero identifiers parser = fault out_of_fuel
decl_run (suc f) identifiers parser = do
  (more, p₁) ← match_token parser token_var
  if more
      then (do
        (next_identifiers, p₂) ← parse_variable_list p₁ false true
        decl_run f (identifiers ++ next_identifiers) p₂)
      else ok (identifiers, p₁)

unfoldable pub parse_local_decl_list : Parser → Outcome (List TypedIdent × Parser)
parse_local_decl_list parser = do
  (identifiers, p₁) ← parse_variable_list parser false true
  decl_run (parse_fuel p₁) identifiers p₁

unfoldable pub parse_relation : Parser → Outcome (AstExpr × Parser)
parse_relation parser = do
  (left, p₁) ← parse_full_expr parser 0
  (op, p₂) ← peek_token p₁
  (read, p₃) ←
      if is_relation_op op.kind
      then next_token p₂
      else ok (op, error_parse p₂ "Expected a relation operator" op)
  (right, p₄) ← parse_full_expr p₃ 0
  ok (make_binary left op.kind right, p₄)

unfoldable pub parse_while : StmtParser → Parser → Outcome (AstStmt × Parser)
parse_while stmt parser = do
  (condition, p₁) ← parse_relation parser
  (do_word, p₂) ← consume_or_err p₁ token_do "Expected 'do' keyword to start the while-loop"
  (body, p₃) ← stmt p₂
  ok (make_while condition body, p₃)

unfoldable pub parse_else : StmtParser → Parser → Outcome (Option AstStmt × Parser)
parse_else stmt parser = do
  (found, p₁) ← match_token parser token_else
  if found then (stmt p₁ >>= λ r. ok (some r.0, r.1)) else ok (none, p₁)

unfoldable pub parse_if : StmtParser → Parser → Outcome (AstStmt × Parser)
parse_if stmt parser = do
  (condition, p₁) ← parse_relation parser
  (then_word, p₂) ←
      consume_or_err p₁ token_then "Expected 'then' keyword after if-statement condition"
  (then_branch, p₃) ← stmt p₂
  (else_branch, p₄) ← parse_else stmt p₃
  ok (make_if condition then_branch else_branch, p₄)

-- The loop of `parse_block`, with what stands behind it.
unfoldable pub block_run : ℕ → StmtParser → AstStmts → Parser → Outcome (AstStmts × Parser)
block_run zero stmt stmts parser = fault out_of_fuel
block_run (suc f) stmt stmts parser = do
  (next, p₁) ← peek_token parser
  if is_kind next.kind token_end
      then (next_token p₁ >>= λ r. ok (stmts, r.1))
      else if is_kind next.kind token_eof
      then ok (stmts, error_parse p₁ "Found EOF inside a block. Expected END" next)
      else (do (s, p₂) ← stmt p₁; block_run f stmt (stmt_list_push_back stmts s) p₂)

unfoldable pub parse_decls : Parser → Outcome (List TypedIdent × Parser)
parse_decls parser = do
  (found, p₁) ← match_token parser token_var
  if found then parse_local_decl_list p₁ else ok ([], p₁)

unfoldable pub parse_block : StmtParser → Parser → Outcome (AstStmt × Parser)
parse_block stmt parser = do
  (declarations, p₁) ← parse_decls parser
  (first, p₂) ← stmt p₁
  (stmts, p₃) ← block_run (parse_fuel p₂) stmt (make_stmt_list first) p₂
  ok (make_block declarations stmts, p₃)

unfoldable pub parse_assignment : Parser → AstExpr → Outcome (AstStmt × Parser)
parse_assignment parser left = do
  (token, p₁) ← next_token parser
  if is_kind token.kind token_assignment
      then (parse_full_expr p₁ 0 >>= λ r. ok (make_assignment left r.0, r.1))
      else ok (stmt_null, error_parse p₁ "Expected assignment after expression" token)

-- The left-hand side from the token that was read on, by `unlex`.
unfoldable pub parse_again : Parser → Outcome (AstStmt × Parser)
parse_again parser = do
  (left, p₁) ← parse_full_expr (record parser { unlex = true }) 0
  parse_assignment p₁ left

-- The case of an identifier, and the part behind the switch for it.
unfoldable pub parse_call_or_assignment : Token → Parser → Outcome (AstStmt × Parser)
parse_call_or_assignment token parser = do
  (next, p₁) ← peek_token parser
  if is_kind next.kind token_lparen
      then (parse_call parse_full_expr p₁ token false >>= λ r. ok (stmt_expr r.0, r.1))
      else (do
        (second, p₂) ← peek_token p₁
        if is_kind second.kind token_dot || is_kind second.kind token_lbracket
            then parse_again p₂
            else parse_assignment p₂ (make_literal token))

-- `parse_stmt` behind its first token.
unfoldable pub stmt_of : StmtParser → TokenKind → Token → Parser → Outcome (AstStmt × Parser)
stmt_of stmt token_while token parser = parse_while stmt parser
stmt_of stmt token_if token parser = parse_if stmt parser
stmt_of stmt token_print token parser =
    parse_expr_list parse_full_expr parser >>= λ r. ok (stmt_print r.0, r.1)
stmt_of stmt token_return token parser = parse_full_expr parser 0 >>= λ r. ok (stmt_return r.0, r.1)
stmt_of stmt token_identifier token parser = parse_call_or_assignment token parser
stmt_of stmt token_break token parser = ok (stmt_break, parser)
stmt_of stmt token_continue token parser = ok (stmt_continue, parser)
stmt_of stmt token_begin token parser = parse_block stmt parser
stmt_of stmt token_star token parser = parse_again parser
stmt_of stmt _ token parser =
    ok (stmt_null, error_parse parser "Illegal first token in statement" token)

unfoldable pub parse_stmt : ℕ → StmtParser
parse_stmt zero parser = fault out_of_fuel
parse_stmt (suc f) parser = next_token parser >>= λ r. stmt_of (parse_stmt f) r.0.kind r.0 r.1

-- A call of `parse_stmt` with nested calls enough.
abbrev pub parse_full_stmt : StmtParser
parse_full_stmt parser = parse_stmt (parse_fuel parser) parser
