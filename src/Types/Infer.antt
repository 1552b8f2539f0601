-- ===== src/Types/Infer.antt =====
-- Symbols for the identifiers of a function (compiler/type.c: bind_expr, bind_stmt, bind_function and
-- infer). Of the Compiler, bind_expr changes the error handler only, which it is given apart.
use metagen.Base.{
  ℕ, zero, suc, true, List, [], ◌∷◌, ◌++◌, Option, none, some, ◌==◌, length, if◌then◌else◌, codes,
  Outcome, ok, fault, bad_access, assert_failed, ◌>>=◌,
}
use metagen.HashMap.{StrMap}
use metagen.Diagnostics.{ErrorHandler, error_sym}
use metagen.Lex.Token.{token_dot, is_kind}
use metagen.Ast.{
  lit_null, lit_ident, TypedIdent, AstExpr, expr_null, expr_unary, expr_binary, expr_literal,
  expr_call, AstExprs, nil, cons, AstStmt, stmt_null, stmt_while, stmt_if, stmt_if_else, stmt_break,
  stmt_continue, stmt_return, stmt_expr, stmt_print, stmt_block, stmt_assignment, AstStmts,
  none_left, then_stmt, AstFunc, AstRoot,
}
use metagen.Str.Builder.{make_str_builder, str_builder_append_cstr, str_builder_end}
use metagen.Types.{TypeInfo, null_pointer, symbol_local_var, symbol_param, symbol_null_ptr, Symbol}
use metagen.Types.Store.{SymbolCell, Compiler, deref, symt_root}
use metagen.Types.Symt.{symt_init, symt_new_sym, symt_find_sym}
use metagen.Types.Resolve.{ast_type_resolve}

module _ (h : StrMap) where
  open h use {Map, init, get, put}

  -- The symbol that a pointer to it stands for in the tree.
  unfoldable pub sym_at : Compiler Map → ℕ → Outcome (Option Symbol)
  sym_at c zero = ok none
  sym_at c (suc n) = deref c.cells (suc n) >>= λ cell. ok (some cell.sym)

  unfoldable pub bind_ident :
      Compiler Map → ℕ → Option TypeInfo → List ℕ → ErrorHandler → Outcome (AstExpr × ErrorHandler)
  bind_ident c p t literal e = do
    s ← symt_find_sym h c p literal
    sym ← sym_at c s
    ok (
      expr_literal t sym lit_ident literal,
      if s == 0 then error_sym e "Symbol never declared" literal else e,
    )

  unfoldable pub bind_null :
      Compiler Map → Option TypeInfo → List ℕ → ErrorHandler → Outcome (AstExpr × ErrorHandler)
  bind_null c t literal e =
      sym_at c c.sym_null >>= λ sym. ok (expr_literal t sym lit_null literal, e)

  unfoldable mutual
    pub bind_expr : Compiler Map → ℕ → AstExpr → ErrorHandler → Outcome (AstExpr × ErrorHandler)
    bind_expr c p expr_null e = fault bad_access
    bind_expr c p (expr_unary t op expr) e = do
      (expr', e₁) ← bind_expr c p expr e
      ok (expr_unary t op expr', e₁)
    bind_expr c p (expr_binary t left op right) e = do
      (left', e₁) ← bind_expr c p left e
      let bound = bind_expr c p right e₁ in
          do
            (right', e₂) ← if is_kind op token_dot then ok (right, e₁) else bound
            ok (expr_binary t left' op right', e₂)
    bind_expr c p (expr_literal t sym lit_null literal) e = bind_null c t literal e
    bind_expr c p (expr_literal t sym lit_ident literal) e = bind_ident c p t literal e
    bind_expr c p (expr_literal t sym lit_type literal) e =
        ok (expr_literal t sym lit_type literal, e)
    bind_expr c p (expr_call t is_comptime identifier args) e = do
      (args', e₁) ← bind_exprs c p args e
      ok (expr_call t is_comptime identifier args', e₁)

    pub bind_exprs : Compiler Map → ℕ → AstExprs → ErrorHandler → Outcome (AstExprs × ErrorHandler)
    bind_exprs c p nil e = ok (nil, e)
    bind_exprs c p (cons expr exprs) e = do
      (expr', e₁) ← bind_expr c p expr e
      (exprs', e₂) ← bind_exprs c p exprs e₁
      ok (cons expr' exprs', e₂)

  -- `bind_expr` on the Compiler.
  unfoldable pub bind_expr_in : Compiler Map → ℕ → AstExpr → Outcome (AstExpr × Compiler Map)
  bind_expr_in c p expr = bind_expr c p expr c.e >>= λ r. ok (r.0, record c { e = r.1 })

  -- The node of a return or of an expression that stands alone, which may be NULL.
  unfoldable pub bind_single : Compiler Map → ℕ → AstExpr → Outcome (AstExpr × Compiler Map)
  bind_single c p expr_null = ok (expr_null, c)
  bind_single c p expr = bind_expr_in c p expr

  unfoldable pub bind_exprs_in : Compiler Map → ℕ → AstExprs → Outcome (AstExprs × Compiler Map)
  bind_exprs_in c p exprs = bind_exprs c p exprs c.e >>= λ r. ok (r.0, record c { e = r.1 })

  -- A new table in front of `p`.
  unfoldable pub open_scope : Compiler Map → ℕ → ℕ × Compiler Map
  open_scope c p = (suc (length c.tables), record c { tables = c.tables ++ symt_init h p ∷ [] })

  unfoldable pub bind_decls : Compiler Map → ℕ → List TypedIdent → Outcome (Compiler Map)
  bind_decls c p [] = ok c
  bind_decls c p (decl ∷ decls) = do
    (decl_type, c₁) ← ast_type_resolve h c decl.ast_type_info true
    (sym, c₂) ← symt_new_sym h c₁ p symbol_local_var decl.name decl_type
    bind_decls c₂ p decls

  unfoldable pub syms_at : Compiler Map → List ℕ → Outcome (List Symbol)
  syms_at c [] = ok []
  syms_at c (s ∷ ss) = do cell ← deref c.cells s; syms ← syms_at c ss; ok (cell.sym ∷ syms)

  -- The symbols of the table at `p`.
  unfoldable pub table_syms : Compiler Map → ℕ → Outcome (List Symbol)
  table_syms c p = deref c.tables p >>= λ symt. syms_at c symt.symbols

  unfoldable mutual
    pub bind_stmt : Compiler Map → ℕ → AstStmt → Outcome (AstStmt × Compiler Map)
    bind_stmt c p stmt_null = fault bad_access
    bind_stmt c p (stmt_while condition body) = do
      (condition', c₁) ← bind_expr_in c p condition
      (body', c₂) ← bind_stmt c₁ p body
      ok (stmt_while condition' body', c₂)
    bind_stmt c p (stmt_if condition then_branch) = do
      (condition', c₁) ← bind_expr_in c p condition
      (then_branch', c₂) ← bind_stmt c₁ p then_branch
      ok (stmt_if condition' then_branch', c₂)
    bind_stmt c p (stmt_if_else condition then_branch else_branch) = do
      (condition', c₁) ← bind_expr_in c p condition
      (then_branch', c₂) ← bind_stmt c₁ p then_branch
      (else_branch', c₃) ← bind_stmt c₂ p else_branch
      ok (stmt_if_else condition' then_branch' else_branch', c₃)
    bind_stmt c p stmt_break = ok (stmt_break, c)
    bind_stmt c p stmt_continue = ok (stmt_continue, c)
    bind_stmt c p (stmt_return expr) = do
      (expr', c₁) ← bind_single c p expr
      ok (stmt_return expr', c₁)
    bind_stmt c p (stmt_expr expr) = do (expr', c₁) ← bind_single c p expr; ok (stmt_expr expr', c₁)
    bind_stmt c p (stmt_print exprs) = do
      (exprs', c₁) ← bind_exprs_in c p exprs
      ok (stmt_print exprs', c₁)
    bind_stmt c p (stmt_block decls stmts symt symbols) =
        let (q, c₁) = open_scope c p in
        do
          c₂ ← bind_decls c₁ q decls
          syms ← table_syms c₂ q
          (stmts', c₃) ← bind_stmts c₂ q stmts
          ok (stmt_block decls stmts' q (some syms), c₃)
    bind_stmt c p (stmt_assignment left right) = do
      (left', c₁) ← bind_expr_in c p left
      (right', c₂) ← bind_expr_in c₁ p right
      ok (stmt_assignment left' right', c₂)

    pub bind_stmts : Compiler Map → ℕ → AstStmts → Outcome (AstStmts × Compiler Map)
    bind_stmts c p none_left = ok (none_left, c)
    bind_stmts c p (then_stmt stmt stmts) = do
      (stmt', c₁) ← bind_stmt c p stmt
      (stmts', c₂) ← bind_stmts c₁ p stmts
      ok (then_stmt stmt' stmts', c₂)

  unfoldable pub bind_params : Compiler Map → ℕ → List TypedIdent → Outcome (Compiler Map)
  bind_params c p [] = ok c
  bind_params c p (param ∷ params) = do
    (param_t, c₁) ← ast_type_resolve h c param.ast_type_info true
    (sym, c₂) ← symt_new_sym h c₁ p symbol_param param.name param_t
    bind_params c₂ p params

  unfoldable pub bind_body :
      Compiler Map → ℕ → Option AstStmt → Outcome (Option AstStmt × Compiler Map)
  bind_body c p none = ok (none, c)
  bind_body c p (some body) = bind_stmt c p body >>= λ r. ok (some r.0, r.1)

  -- The cell of a function's symbol.
  unfoldable pub func_cell : Compiler Map → List ℕ → Outcome SymbolCell
  func_cell c name = do
    s ← symt_find_sym h c symt_root name
    if s == 0 then fault assert_failed else deref c.cells s

  unfoldable pub bind_function : Compiler Map → AstFunc → Outcome (AstFunc × Compiler Map)
  bind_function c fn = do
    cell ← func_cell c fn.name
    c₁ ← bind_params c cell.symt_local fn.parameters
    (body, c₂) ← bind_body c₁ cell.symt_local fn.body
    ok (record fn { body = body }, c₂)

  unfoldable pub bind_functions :
      Compiler Map → List AstFunc → Outcome (List AstFunc × Compiler Map)
  bind_functions c [] = ok ([], c)
  bind_functions c (fn ∷ fns) = do
    (fn', c₁) ← bind_function c fn
    (fns', c₂) ← bind_functions c₁ fns
    ok (fn' ∷ fns', c₂)

  unfoldable pub infer : Compiler Map → AstRoot → Outcome (AstRoot × Compiler Map)
  infer c root = do
    sb ← str_builder_append_cstr make_str_builder (codes "null")
    name ← str_builder_end sb true
    (s, c₁) ← symt_new_sym h c symt_root symbol_null_ptr name (some (null_pointer name))
    (funcs, c₂) ← bind_functions (record c₁ { sym_null = s }) root.funcs
    ok (record root { funcs = funcs }, c₂)
