-- ===== src/Types/Binding.antt =====
-- Binding the identifiers of expressions and statements (compiler/type.c: bind_expr, bind_stmt) in a tree
-- of scopes.
use metagen.Base.{
  ℕ, zero, suc, ◌≤◌, ◌≡◌, ◌≢◌, refl, sym, arith, false, List, length, Option, some, ◌==◌, ==_iff,
  if_split, ok, ◌>>=◌, Ensures, Ensures-bind,
}
use metagen.HashMap.{StrMap}
use metagen.Diagnostics.{ErrorHandler, error_sym}
use metagen.Lex.Token.{token_dot, is_kind}
use metagen.Ast.{
  lit_num, lit_str, lit_null, lit_ident, AstExpr, expr_null, expr_unary, expr_binary, expr_literal,
  expr_call, AstExprs, nil, cons,
}
use metagen.Types.{TypeInfo}
use metagen.Types.Store.{SymbolCell, Compiler, deref}
use metagen.Types.Symt.{symt_find_sym}
use metagen.Types.Infer.{sym_at, bind_ident, bind_null, bind_expr, bind_exprs}
use metagen.Types.Scopes.{IsValid}
use metagen.Types.Grow.{error_sym-length}
use metagen.Types.Lookup.{Finds, Named, symt_find_sym-Finds}
use metagen.Types.Bound.{Full, FullExprs, Bound, BoundExprs}

-- Nothing is lost from the list of reports.
abbrev pub Grows : ErrorHandler → ErrorHandler → Type 0
Grows e e' = length e.errors ≤ length e'.errors

-- Nothing is new in it.
abbrev pub Silent : ErrorHandler → ErrorHandler → Type 0
Silent e e' = length e'.errors ≤ length e.errors

-- What binding an expression gives: without a report, every identifier has its symbol.
abbrev pub BindsExpr : ErrorHandler → AstExpr × ErrorHandler → Type 0
BindsExpr e r = Grows e r.1 × (Silent e r.1 → Bound r.0)

abbrev pub BindsExprs : ErrorHandler → AstExprs × ErrorHandler → Type 0
BindsExprs e r = Grows e r.1 × (Silent e r.1 → BoundExprs r.0)

-- Two steps in turn, of which `A` and `B` hold when they report nothing.
pub in_turn :
    (A B : Type 0) (e e₁ e₂ : ErrorHandler)
    → Grows e e₁ × (Silent e e₁ → A)
    → Grows e₁ e₂ × (Silent e₁ e₂ → B)
    → Grows e e₂ × (Silent e e₂ → A × B)
in_turn A B e e₁ e₂ k l =
    let a = k.0 in
    let b = l.0 in
    (omega (arith, a, b), λ q. (k.1 (omega (arith, b, q)), l.1 (omega (arith, a, q))))

module _ (h : StrMap) where
  open h use {Map, get}

  -- A tree of scopes in which the symbol of null, if there is one, has been made.
  pub record Ready (c : Compiler Map) : Type 0 where
    pub valid : IsValid h c
    pub null_live : c.sym_null ≢ 0 → (cell : SymbolCell) × (deref c.cells c.sym_null ≡ ok cell)

  sym_at-Ensures :
      (c : Compiler Map) (s : ℕ) (Q : SymbolCell → Type 0)
      → (s ≢ 0 → (cell : SymbolCell) × (deref c.cells s ≡ ok cell) × Q cell)
      → Ensures (λ sym. s ≢ 0 → (cell : SymbolCell) × (sym ≡ some cell.sym) × Q cell) (sym_at h c s)
  unfolding sym_at
  sym_at-Ensures c zero Q k = λ d. absurd (d refl)
  sym_at-Ensures c (suc n) Q k =
      let (cell, live, q) = k (λ z. omega (arith, z)) in rw (live) (λ d. (cell, refl, q))

  module _ (c : Compiler Map) (p : ℕ) (ready : Ready c) (le : p ≤ length c.tables) where
    bind_ident-Binds :
        (t : Option TypeInfo) (literal : List ℕ) (e : ErrorHandler)
        → Ensures (BindsExpr e) (bind_ident h c p t literal e)
    unfolding bind_ident
    bind_ident-Binds t literal e =
        Ensures-bind (λ s. Finds h c literal p s × Named h c literal s) (BindsExpr e)
          (symt_find_sym h c p literal) _ (symt_find_sym-Finds h c p literal le ready.valid)
          (λ s k.
            Ensures-bind
              (λ sym.
                s ≢ 0 → (cell : SymbolCell) × (sym ≡ some cell.sym) × (cell.sym.name ≡ literal))
              (BindsExpr e) (sym_at h c s) _
              (sym_at-Ensures c s (λ cell. cell.sym.name ≡ literal) k.1)
              (λ sym b.
                if_split (λ e'. BindsExpr e (expr_literal t sym lit_ident literal, e')) (s == 0)
                  {x = error_sym e "Symbol never declared" literal} {y = e}
                  (λ z.
                    let l = error_sym-length e "Symbol never declared" literal in
                    (omega (arith, l), λ q. absurd (omega (arith, l, q))))
                  (λ z. (
                    omega arith,
                    λ q.
                        let (cell, is_cell, named) = b (λ y. let r = (==_iff s 0).1 y in cc) in
                        (cell.sym, is_cell, named),
                  ))))

    mutual
      unfolding bind_expr bind_null

      pub bind_expr-Binds :
          (expr : AstExpr) (e : ErrorHandler)
          → Full expr
          → Ensures (BindsExpr e) (bind_expr h c p expr e)
      bind_expr-Binds expr_null e full = absurd full
      bind_expr-Binds (expr_unary t op expr) e full =
          Ensures-bind (BindsExpr e) (BindsExpr e) (bind_expr h c p expr e) _
            (bind_expr-Binds expr e full) (λ r k. k)
      bind_expr-Binds (expr_binary t left op right) e full =
          Ensures-bind (BindsExpr e) (BindsExpr e) (bind_expr h c p left e) _
            (bind_expr-Binds left e full.0)
            (λ r k.
              if_split (λ m. Ensures (BindsExpr e) (m >>= λ s. ok (expr_binary t r.0 op s.0, s.1)))
                (is_kind op token_dot) {x = ok (right, r.1)} {y = bind_expr h c p right r.1}
                (λ z. (k.0, λ q. (k.1 q, λ y. cc)))
                (λ z.
                  Ensures-bind (BindsExpr r.1) (BindsExpr e) (bind_expr h c p right r.1) _
                    (bind_expr-Binds right r.1 full.1)
                    (λ s l.
                      in_turn (Bound r.0) (is_kind op token_dot ≡ false → Bound s.0) e r.1 s.1 k
                        (l.0, λ q y. l.1 q))))
      bind_expr-Binds (expr_literal t sym lit_null literal) e full =
          Ensures-bind _ (BindsExpr e) (sym_at h c c.sym_null) _
            (sym_at-Ensures c c.sym_null (λ cell. Unit)
              (λ d. let (cell, live) = ready.null_live d in (cell, live, tt)))
            (λ sym k. (omega arith, λ q. tt))
      bind_expr-Binds (expr_literal t sym lit_ident literal) e full = bind_ident-Binds t literal e
      bind_expr-Binds (expr_literal t sym lit_num literal) e full = (omega arith, λ q. tt)
      bind_expr-Binds (expr_literal t sym lit_str literal) e full = (omega arith, λ q. tt)
      bind_expr-Binds (expr_call t is_comptime identifier args) e full =
          Ensures-bind (BindsExprs e) (BindsExpr e) (bind_exprs h c p args e) _
            (bind_exprs-Binds args e full) (λ r k. k)

      pub bind_exprs-Binds :
          (exprs : AstExprs) (e : ErrorHandler)
          → FullExprs exprs
          → Ensures (BindsExprs e) (bind_exprs h c p exprs e)
      bind_exprs-Binds nil e full = (omega arith, λ q. tt)
      bind_exprs-Binds (cons expr exprs) e full =
          Ensures-bind (BindsExpr e) (BindsExprs e) (bind_expr h c p expr e) _
            (bind_expr-Binds expr e full.0)
            (λ r k.
              Ensures-bind (BindsExprs r.1) (BindsExprs e) (bind_exprs h c p exprs r.1) _
                (bind_exprs-Binds exprs r.1 full.1)
                (λ s l. in_turn (Bound r.0) (BoundExprs s.0) e r.1 s.1 k l))
