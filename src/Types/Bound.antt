-- ===== src/Types/Bound.antt =====
-- Trees before and after the pass of compiler/type.c that gives identifiers their symbols.
use metagen.Base.{ℕ, ◌≡◌, false, List, Option, some}
use metagen.Lex.Token.{token_dot, is_kind}
use metagen.Ast.{
  LiteralType, lit_ident, AstExpr, expr_null, expr_unary, expr_binary, expr_literal, expr_call,
  AstExprs, nil, cons, AstStmt, stmt_null, stmt_while, stmt_if, stmt_if_else, stmt_break,
  stmt_continue, stmt_return, stmt_expr, stmt_print, stmt_block, stmt_assignment, AstStmts,
  none_left, then_stmt,
}
use metagen.Types.{Symbol}

-- No node is NULL.
abbrev mutual
  pub Full : AstExpr → Type 0
  Full expr_null = ⊥
  Full (expr_unary t op expr) = Full expr
  Full (expr_binary t left op right) = Full left × Full right
  Full (expr_literal t sym lit literal) = Unit
  Full (expr_call t is_comptime identifier args) = FullExprs args

  pub FullExprs : AstExprs → Type 0
  FullExprs nil = Unit
  FullExprs (cons expr exprs) = Full expr × FullExprs exprs

-- The node of a return or of an expression that stands alone may be NULL.
abbrev pub FullSingle : AstExpr → Type 0
FullSingle expr_null = Unit
FullSingle expr = Full expr

abbrev mutual
  pub FullStmt : AstStmt → Type 0
  FullStmt stmt_null = ⊥
  FullStmt (stmt_while condition body) = Full condition × FullStmt body
  FullStmt (stmt_if condition then_branch) = Full condition × FullStmt then_branch
  FullStmt (stmt_if_else condition then_branch else_branch) =
      Full condition × FullStmt then_branch × FullStmt else_branch
  FullStmt stmt_break = Unit
  FullStmt stmt_continue = Unit
  FullStmt (stmt_return expr) = FullSingle expr
  FullStmt (stmt_expr expr) = FullSingle expr
  FullStmt (stmt_print exprs) = FullExprs exprs
  FullStmt (stmt_block decls stmts symt symbols) = FullStmts stmts
  FullStmt (stmt_assignment left right) = Full left × Full right

  pub FullStmts : AstStmts → Type 0
  FullStmts none_left = Unit
  FullStmts (then_stmt stmt stmts) = FullStmt stmt × FullStmts stmts

-- An identifier has a symbol of its name.
abbrev pub Resolved : LiteralType → Option Symbol → List ℕ → Type 0
Resolved lit_ident sym literal = (s : Symbol) × (sym ≡ some s) × (s.name ≡ literal)
Resolved _ sym literal = Unit

-- So has every identifier but those of members, which stand on the right of a dot.
abbrev mutual
  pub Bound : AstExpr → Type 0
  Bound expr_null = Unit
  Bound (expr_unary t op expr) = Bound expr
  Bound (expr_binary t left op right) = Bound left × (is_kind op token_dot ≡ false → Bound right)
  Bound (expr_literal t sym lit literal) = Resolved lit sym literal
  Bound (expr_call t is_comptime identifier args) = BoundExprs args

  pub BoundExprs : AstExprs → Type 0
  BoundExprs nil = Unit
  BoundExprs (cons expr exprs) = Bound expr × BoundExprs exprs

abbrev mutual
  pub BoundStmt : AstStmt → Type 0
  BoundStmt stmt_null = Unit
  BoundStmt (stmt_while condition body) = Bound condition × BoundStmt body
  BoundStmt (stmt_if condition then_branch) = Bound condition × BoundStmt then_branch
  BoundStmt (stmt_if_else condition then_branch else_branch) =
      Bound condition × BoundStmt then_branch × BoundStmt else_branch
  BoundStmt stmt_break = Unit
  BoundStmt stmt_continue = Unit
  BoundStmt (stmt_return expr) = Bound expr
  BoundStmt (stmt_expr expr) = Bound expr
  BoundStmt (stmt_print exprs) = BoundExprs exprs
  BoundStmt (stmt_block decls stmts symt symbols) = BoundStmts stmts
  BoundStmt (stmt_assignment left right) = Bound left × Bound right

  pub BoundStmts : AstStmts → Type 0
  BoundStmts none_left = Unit
  BoundStmts (then_stmt stmt stmts) = BoundStmt stmt × BoundStmts stmts
