-- ===== src/Types/CheckStmts.antt =====
-- The types of statements and functions (compiler/type.c: typecheck_stmt, typecheck).
use metagen.Base.{ℕ, suc, List, [], ◌∷◌, Option, none, some, Outcome, ok, fault, bad_access, ◌>>=◌}
use metagen.HashMap.{StrMap}
use metagen.Diagnostics.{ErrorHandler}
use metagen.Ast.{
  AstExpr, AstExprs, nil, cons, AstStmt, stmt_null, stmt_while, stmt_if, stmt_if_else, stmt_break,
  stmt_continue, stmt_return, stmt_expr, stmt_print, stmt_block, stmt_assignment, AstStmts,
  none_left, then_stmt, AstFunc, AstRoot,
}
use metagen.Types.Store.{TypeInfoFunc, Compiler}
use metagen.Types.Infer.{func_cell}
use metagen.Types.Check.{head_type, expr_size, compare, as_func, typecheck_expr}

module _ (h : StrMap) where
  open h use {Map, init, get, put}

  -- The check of one expression, with enough fuel.
  unfoldable pub check :
      Compiler Map → ℕ → AstExpr → ErrorHandler → Outcome (AstExpr × ErrorHandler)
  check c p head e = typecheck_expr h (suc (expr_size head)) c p head e

  unfoldable pub check_all :
      Compiler Map → ℕ → AstExprs → ErrorHandler → Outcome (AstExprs × ErrorHandler)
  check_all c p nil e = ok (nil, e)
  check_all c p (cons expr exprs) e = do
    (expr', e₁) ← check c p expr e
    (exprs', e₂) ← check_all c p exprs e₁
    ok (cons expr' exprs', e₂)

  -- `parent_func` is read when there is a return to check.
  unfoldable mutual
    pub typecheck_stmt :
        Compiler Map
        → ℕ
        → Outcome TypeInfoFunc
        → AstStmt
        → ErrorHandler
        → Outcome (AstStmt × ErrorHandler)
    typecheck_stmt c p parent_func stmt_null e = fault bad_access
    typecheck_stmt c p parent_func (stmt_while condition body) e = do
      (condition', e₁) ← check c p condition e
      (body', e₂) ← typecheck_stmt c p parent_func body e₁
      ok (stmt_while condition' body', e₂)
    typecheck_stmt c p parent_func (stmt_if condition then_branch) e = do
      (condition', e₁) ← check c p condition e
      (then_branch', e₂) ← typecheck_stmt c p parent_func then_branch e₁
      ok (stmt_if condition' then_branch', e₂)
    typecheck_stmt c p parent_func (stmt_if_else condition then_branch else_branch) e = do
      (condition', e₁) ← check c p condition e
      (then_branch', e₂) ← typecheck_stmt c p parent_func then_branch e₁
      (else_branch', e₃) ← typecheck_stmt c p parent_func else_branch e₂
      ok (stmt_if_else condition' then_branch' else_branch', e₃)
    typecheck_stmt c p parent_func stmt_break e = ok (stmt_break, e)
    typecheck_stmt c p parent_func stmt_continue e = ok (stmt_continue, e)
    typecheck_stmt c p parent_func (stmt_return expr) e = do
      (expr', e₁) ← check c p expr e
      fn ← parent_func
      e₂ ← compare "wrong return type" (head_type expr') fn.return_type e₁
      ok (stmt_return expr', e₂)
    typecheck_stmt c p parent_func (stmt_expr expr) e = do
      (expr', e₁) ← check c p expr e
      ok (stmt_expr expr', e₁)
    typecheck_stmt c p parent_func (stmt_print exprs) e = do
      (exprs', e₁) ← check_all c p exprs e
      ok (stmt_print exprs', e₁)
    typecheck_stmt c p parent_func (stmt_block decls stmts symt symbols) e = do
      (stmts', e₁) ← typecheck_stmts c symt parent_func stmts e
      ok (stmt_block decls stmts' symt symbols, e₁)
    typecheck_stmt c p parent_func (stmt_assignment left right) e = do
      (left', e₁) ← check c p left e
      (right', e₂) ← check c p right e₁
      e₃ ← compare "Typecheck error in assignment" (head_type left') (head_type right') e₂
      ok (stmt_assignment left' right', e₃)

    pub typecheck_stmts :
        Compiler Map
        → ℕ
        → Outcome TypeInfoFunc
        → AstStmts
        → ErrorHandler
        → Outcome (AstStmts × ErrorHandler)
    typecheck_stmts c p parent_func none_left e = ok (none_left, e)
    typecheck_stmts c p parent_func (then_stmt stmt stmts) e = do
      (stmt', e₁) ← typecheck_stmt c p parent_func stmt e
      (stmts', e₂) ← typecheck_stmts c p parent_func stmts e₁
      ok (then_stmt stmt' stmts', e₂)

  unfoldable pub typecheck_body :
      Compiler Map
      → ℕ
      → Outcome TypeInfoFunc
      → Option AstStmt
      → ErrorHandler
      → Outcome (Option AstStmt × ErrorHandler)
  typecheck_body c p parent_func none e = ok (none, e)
  typecheck_body c p parent_func (some body) e =
      typecheck_stmt c p parent_func body e >>= λ r. ok (some r.0, r.1)

  unfoldable pub typecheck_func :
      Compiler Map → AstFunc → ErrorHandler → Outcome (AstFunc × ErrorHandler)
  typecheck_func c fn e = do
    cell ← func_cell h c fn.name
    (body, e₁) ← typecheck_body c cell.symt_local (as_func h c cell.sym.type_info) fn.body e
    ok (record fn { body = body }, e₁)

  unfoldable pub typecheck_funcs :
      Compiler Map → List AstFunc → ErrorHandler → Outcome (List AstFunc × ErrorHandler)
  typecheck_funcs c [] e = ok ([], e)
  typecheck_funcs c (fn ∷ fns) e = do
    (fn', e₁) ← typecheck_func c fn e
    (fns', e₂) ← typecheck_funcs c fns e₁
    ok (fn' ∷ fns', e₂)

  unfoldable pub typecheck : Compiler Map → AstRoot → Outcome (AstRoot × Compiler Map)
  typecheck c root = do
    (funcs, e) ← typecheck_funcs c root.funcs c.e
    ok (record root { funcs = funcs }, record c { e = e })
