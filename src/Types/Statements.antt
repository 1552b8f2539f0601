-- ===== src/Types/Statements.antt =====
-- Binding a whole statement, blocks with their new scopes included (compiler/type.c: bind_stmt).
use metagen.Base.{
  ℕ, suc, ◌≤◌, ◌≡◌, refl, ap, arith, List, [], ◌∷◌, ◌++◌, length, length-append, Outcome, ok, ◌>>=◌,
  Ensures, Ensures-bind, Ensures-imp,
}
use metagen.HashMap.{StrMap}
use metagen.Ast.{
  AstExpr, expr_null, expr_unary, expr_binary, expr_literal, expr_call, AstExprs, AstStmt,
  stmt_null, stmt_while, stmt_if, stmt_if_else, stmt_break, stmt_continue, stmt_return, stmt_expr,
  stmt_print, stmt_block, stmt_assignment, AstStmts, none_left, then_stmt,
}
use metagen.Types.Store.{SymbolCell, Compiler, deref}
use metagen.Types.Symt.{symt_init}
use metagen.Types.Infer.{
  bind_expr, bind_exprs, bind_expr_in, bind_single, bind_exprs_in, open_scope, bind_decls, syms_at,
  table_syms, bind_stmt, bind_stmts,
}
use metagen.Types.Pointers.{deref-within}
use metagen.Types.Scopes.{IsValid}
use metagen.Types.Insert.{Scoped-mono, Scoped-table}
use metagen.Types.Bound.{
  Full, FullExprs, FullSingle, Bound, BoundExprs, FullStmt, FullStmts, BoundStmt, BoundStmts,
}
use metagen.Types.Binding.{BindsExpr, BindsExprs, Ready, bind_expr-Binds, bind_exprs-Binds}
use metagen.Types.Blocks.{After, After-turn, After-imp, After-refl, bind_decls-After}

module _ (h : StrMap) where
  open h use {Map, get}

  bind_expr_in-After :
      (c : Compiler Map) (p : ℕ) (expr : AstExpr)
      → Ready h c
      → p ≤ length c.tables
      → Full expr
      → Ensures (λ r. After h c (Bound r.0) r.1) (bind_expr_in h c p expr)
  unfolding bind_expr_in
  bind_expr_in-After c p expr ready le full =
      Ensures-bind (BindsExpr c.e) (λ r. After h c (Bound r.0) r.1) (bind_expr h c p expr c.e) _
        (bind_expr-Binds h c p ready le expr c.e full)
        (λ r k. record {
          ready = record { valid = ready.valid; null_live = ready.null_live };
          more = record { kept = λ s cell q. q; tables = omega arith; null = refl; reports = k.0 };
          quiet = k.1;
        })

  bind_single-After :
      (c : Compiler Map) (p : ℕ) (expr : AstExpr)
      → Ready h c
      → p ≤ length c.tables
      → FullSingle expr
      → Ensures (λ r. After h c (Bound r.0) r.1) (bind_single h c p expr)
  unfolding bind_single
  bind_single-After c p expr_null ready le full = After-refl h c ready
  bind_single-After c p (expr_unary t op expr) ready le full =
      bind_expr_in-After c p (expr_unary t op expr) ready le full
  bind_single-After c p (expr_binary t left op right) ready le full =
      bind_expr_in-After c p (expr_binary t left op right) ready le full
  bind_single-After c p (expr_literal t sym lit literal) ready le full =
      bind_expr_in-After c p (expr_literal t sym lit literal) ready le full
  bind_single-After c p (expr_call t is_comptime identifier args) ready le full =
      bind_expr_in-After c p (expr_call t is_comptime identifier args) ready le full

  bind_exprs_in-After :
      (c : Compiler Map) (p : ℕ) (exprs : AstExprs)
      → Ready h c
      → p ≤ length c.tables
      → FullExprs exprs
      → Ensures (λ r. After h c (BoundExprs r.0) r.1) (bind_exprs_in h c p exprs)
  unfolding bind_exprs_in
  bind_exprs_in-After c p exprs ready le full =
      Ensures-bind (BindsExprs c.e) (λ r. After h c (BoundExprs r.0) r.1)
        (bind_exprs h c p exprs c.e) _ (bind_exprs-Binds h c p ready le exprs c.e full)
        (λ r k. record {
          ready = record { valid = ready.valid; null_live = ready.null_live };
          more = record { kept = λ s cell q. q; tables = omega arith; null = refl; reports = k.0 };
          quiet = k.1;
        })

  open_scope-After :
      (c : Compiler Map) (p : ℕ)
      → Ready h c
      → p ≤ length c.tables
      → After h c Unit ((open_scope h c p).1)
  unfolding open_scope symt_init
  open_scope-After c p ready le =
      let l = length-append c.tables (symt_init h p ∷ []) in
      record {
        ready = record {
          valid =
              Scoped-mono h (c.tables ++ symt_init h p ∷ []) c.cells (length c.tables)
                (length (c.tables ++ symt_init h p ∷ [])) (omega (arith, l))
                (Scoped-table h c.tables c.cells (length c.tables) p p le ready.valid);
          null_live = ready.null_live;
        };
        more = record {
          kept = λ s cell q. q;
          tables = omega (arith, l);
          null = refl;
          reports = omega arith;
        };
        quiet = λ q. tt;
      }

  open_scope-last :
      (c : Compiler Map) (p : ℕ)
      → ((open_scope h c p).0 ≡ suc (length c.tables))
        × (length ((open_scope h c p).1.tables) ≡ suc (length c.tables))
  unfolding open_scope
  open_scope-last c p =
      let l = length-append c.tables (symt_init h p ∷ []) in (refl, omega (arith, l))

  syms_at-Ensures :
      (c : Compiler Map) (ss : List ℕ)
      → ((i s : ℕ) → deref ss (suc i) ≡ ok s → (cell : SymbolCell) × (deref c.cells s ≡ ok cell))
      → Ensures (λ syms. length syms ≡ length ss) (syms_at h c ss)
  unfolding syms_at
  syms_at-Ensures c [] live = refl
  syms_at-Ensures c (s ∷ ss) live =
      let (cell, at) = live 0 s refl in
      rw (at) (
        Ensures-bind (λ syms. length syms ≡ length ss) (λ syms. length syms ≡ suc (length ss))
          (syms_at h c ss) _ (syms_at-Ensures c ss (λ i z q. live (suc i) z q))
          (λ syms k. ap suc k))

  table_syms-Ensures :
      (c : Compiler Map) (p : ℕ)
      → IsValid h c
      → 1 ≤ p
      → p ≤ length c.tables
      → Ensures (λ syms. Unit) (table_syms h c p)
  unfolding table_syms
  table_syms-Ensures c p v low high =
      let (t, at) = deref-within c.tables p low high in
      rw (at) (
        Ensures-imp (λ syms. length syms ≡ length t.symbols) (λ syms. Unit) (syms_at h c t.symbols)
          (λ syms k. tt)
          (syms_at-Ensures c t.symbols
            (λ i s q. let found = (v.scopes p t at).listed i s q in (found.0, found.1))))

  -- Another step, and what follows it.
  After-bind :
      {Y Z : Type 0} (B : Y → Type 0) (Q : Z → Type 0) (c c₁ : Compiler Map) (P : Type 0)
      (m : Outcome (Y × Compiler Map)) (f : Y × Compiler Map → Outcome Z)
      → After h c P c₁
      → Ensures (λ r. After h c₁ (B r.0) r.1) m
      → ((r : Y × Compiler Map) → After h c (P × B r.0) r.1 → Ensures Q (f r))
      → Ensures Q (m >>= f)
  After-bind B Q c c₁ P m f x y k =
      Ensures-bind (λ r. After h c (P × B r.0) r.1) Q m f
        (Ensures-imp (λ r. After h c₁ (B r.0) r.1) (λ r. After h c (P × B r.0) r.1) m
          (λ r z. After-turn h P (B r.0) c c₁ r.1 x z) y)
        k

  within :
      (A : Type 0) (c c' : Compiler Map) (p : ℕ)
      → After h c A c'
      → p ≤ length c.tables
      → p ≤ length c'.tables
  within A c c' p x le = let a = x.more.tables in omega (arith, a, le)

  mutual
    unfolding bind_stmt

    bind_stmt_lem :
        (c : Compiler Map) (p : ℕ) (stmt : AstStmt)
        → Ready h c
        → p ≤ length c.tables
        → FullStmt stmt
        → Ensures (λ r. After h c (BoundStmt r.0) r.1) (bind_stmt h c p stmt)
    bind_stmt_lem c p stmt_null ready le full = absurd full
    bind_stmt_lem c p (stmt_while condition body) ready le full =
        Ensures-bind (λ r. After h c (Bound r.0) r.1)
          (λ (r : AstStmt × Compiler Map). After h c (BoundStmt r.0) r.1)
          (bind_expr_in h c p condition) _ (bind_expr_in-After c p condition ready le full.0)
          (λ a x.
            After-bind BoundStmt (λ (r : AstStmt × Compiler Map). After h c (BoundStmt r.0) r.1) c
              a.1 (Bound a.0) (bind_stmt h a.1 p body) _ x
              (bind_stmt_lem a.1 p body x.ready (within (Bound a.0) c a.1 p x le) full.1)
              (λ b y. y))
    bind_stmt_lem c p (stmt_if condition then_branch) ready le full =
        Ensures-bind (λ r. After h c (Bound r.0) r.1)
          (λ (r : AstStmt × Compiler Map). After h c (BoundStmt r.0) r.1)
          (bind_expr_in h c p condition) _ (bind_expr_in-After c p condition ready le full.0)
          (λ a x.
            After-bind BoundStmt (λ (r : AstStmt × Compiler Map). After h c (BoundStmt r.0) r.1) c
              a.1 (Bound a.0) (bind_stmt h a.1 p then_branch) _ x
              (bind_stmt_lem a.1 p then_branch x.ready (within (Bound a.0) c a.1 p x le) full.1)
              (λ b y. y))
    bind_stmt_lem c p (stmt_if_else condition then_branch else_branch) ready le full =
        Ensures-bind (λ r. After h c (Bound r.0) r.1)
          (λ (r : AstStmt × Compiler Map). After h c (BoundStmt r.0) r.1)
          (bind_expr_in h c p condition) _ (bind_expr_in-After c p condition ready le full.0)
          (λ a x.
            After-bind BoundStmt (λ (r : AstStmt × Compiler Map). After h c (BoundStmt r.0) r.1) c
              a.1 (Bound a.0) (bind_stmt h a.1 p then_branch) _ x
              (bind_stmt_lem a.1 p then_branch x.ready (within (Bound a.0) c a.1 p x le) full.1)
              (λ b y.
                After-bind BoundStmt (λ (r : AstStmt × Compiler Map). After h c (BoundStmt r.0) r.1)
                  c b.1 (Bound a.0 × BoundStmt b.0) (bind_stmt h b.1 p else_branch) _ y
                  (bind_stmt_lem b.1 p else_branch y.ready
                    (within (Bound a.0 × BoundStmt b.0) c b.1 p y le) full.2)
                  (λ d z.
                    After-imp h ((Bound a.0 × BoundStmt b.0) × BoundStmt d.0)
                      (Bound a.0 × BoundStmt b.0 × BoundStmt d.0) c d.1 (λ k. (k.0.0, k.0.1, k.1))
                      z)))
    bind_stmt_lem c p stmt_break ready le full = After-refl h c ready
    bind_stmt_lem c p stmt_continue ready le full = After-refl h c ready
    bind_stmt_lem c p (stmt_return expr) ready le full =
        Ensures-bind (λ r. After h c (Bound r.0) r.1)
          (λ (r : AstStmt × Compiler Map). After h c (BoundStmt r.0) r.1) (bind_single h c p expr) _
          (bind_single-After c p expr ready le full) (λ a x. x)
    bind_stmt_lem c p (stmt_expr expr) ready le full =
        Ensures-bind (λ r. After h c (Bound r.0) r.1)
          (λ (r : AstStmt × Compiler Map). After h c (BoundStmt r.0) r.1) (bind_single h c p expr) _
          (bind_single-After c p expr ready le full) (λ a x. x)
    bind_stmt_lem c p (stmt_print exprs) ready le full =
        Ensures-bind (λ r. After h c (BoundExprs r.0) r.1)
          (λ (r : AstStmt × Compiler Map). After h c (BoundStmt r.0) r.1)
          (bind_exprs_in h c p exprs) _ (bind_exprs_in-After c p exprs ready le full) (λ a x. x)
    bind_stmt_lem c p (stmt_assignment left right) ready le full =
        Ensures-bind (λ r. After h c (Bound r.0) r.1)
          (λ (r : AstStmt × Compiler Map). After h c (BoundStmt r.0) r.1) (bind_expr_in h c p left)
          _ (bind_expr_in-After c p left ready le full.0)
          (λ a x.
            After-bind Bound (λ (r : AstStmt × Compiler Map). After h c (BoundStmt r.0) r.1) c a.1
              (Bound a.0) (bind_expr_in h a.1 p right) _ x
              (bind_expr_in-After a.1 p right x.ready (within (Bound a.0) c a.1 p x le) full.1)
              (λ b y. y))
    bind_stmt_lem c p (stmt_block decls stmts symt symbols) ready le full =
        let q = (open_scope h c p).0 in
        let c₁ = (open_scope h c p).1 in
        let last = open_scope-last c p in
        let low : 1 ≤ q = (let a = last.0 in omega (arith, a)) in
        let high : q ≤ length c₁.tables =
          (let a = last.0 in let b = last.1 in omega (arith, a, b)) in
        let x = open_scope-After c p ready le in
        Ensures-bind (After h c₁ Unit)
          (λ (r : AstStmt × Compiler Map). After h c (BoundStmt r.0) r.1) (bind_decls h c₁ q decls)
          _ (bind_decls-After h c₁ q decls low high x.ready)
          (λ c₂ y.
            let within_c₂ = within Unit c₁ c₂ q y high in
            Ensures-bind (λ syms. Unit)
              (λ (r : AstStmt × Compiler Map). After h c (BoundStmt r.0) r.1) (table_syms h c₂ q) _
              (table_syms-Ensures c₂ q y.ready.valid low within_c₂)
              (λ syms u.
                After-bind BoundStmts
                  (λ (r : AstStmt × Compiler Map). After h c (BoundStmt r.0) r.1) c c₂ (Unit × Unit)
                  (bind_stmts h c₂ q stmts) _ (After-turn h Unit Unit c c₁ c₂ x y)
                  (bind_stmts_lem c₂ q stmts y.ready within_c₂ full)
                  (λ d z.
                    After-imp h ((Unit × Unit) × BoundStmts d.0) (BoundStmts d.0) c d.1 (λ k. k.1)
                      z)))

    bind_stmts_lem :
        (c : Compiler Map) (p : ℕ) (stmts : AstStmts)
        → Ready h c
        → p ≤ length c.tables
        → FullStmts stmts
        → Ensures (λ r. After h c (BoundStmts r.0) r.1) (bind_stmts h c p stmts)
    bind_stmts_lem c p none_left ready le full = After-refl h c ready
    bind_stmts_lem c p (then_stmt stmt stmts) ready le full =
        Ensures-bind (λ r. After h c (BoundStmt r.0) r.1) (λ r. After h c (BoundStmts r.0) r.1)
          (bind_stmt h c p stmt) _ (bind_stmt_lem c p stmt ready le full.0)
          (λ a x.
            After-bind BoundStmts (λ (r : AstStmts × Compiler Map). After h c (BoundStmts r.0) r.1)
              c a.1 (BoundStmt a.0) (bind_stmts h a.1 p stmts) _ x
              (bind_stmts_lem a.1 p stmts x.ready (within (BoundStmt a.0) c a.1 p x le) full.1)
              (λ b y. y))

  -- In a tree of scopes, in which the symbol of null has been made if there is one, the binding of a statement without
  -- NULL nodes, but for the expression of a return or of an expression statement, in any scope never stops. It leaves a tree of scopes in which all symbols and tables keep their
  -- addresses, and no report is lost. When nothing was reported, every identifier in the statement but
  -- the members on the right of a dot has a symbol of its name.
  pub bind_stmt-After :
      (c : Compiler Map) (p : ℕ) (stmt : AstStmt)
      → Ready h c
      → p ≤ length c.tables
      → FullStmt stmt
      → Ensures (λ r. After h c (BoundStmt r.0) r.1) (bind_stmt h c p stmt)
  bind_stmt-After c p stmt ready le full = bind_stmt_lem c p stmt ready le full
