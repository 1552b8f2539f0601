-- ===== src/Types/Sizes.antt =====
-- Binding an expression (compiler/type.c: bind_expr) keeps its size, which bounds the fuel of the checker.
use metagen.Base.{
  ℕ, zero, suc, ◌+◌, ◌≤◌, ◌≡◌, refl, ap, arith, List, [], ◌∷◌, Option, ◌==◌, if_split, ok, ◌>>=◌,
  Settles, Settles-bind, Ensures-Settles, Ensures-imp, length,
}
use metagen.HashMap.{StrMap}
use metagen.Diagnostics.{ErrorHandler, error_sym}
use metagen.Lex.Token.{token_dot, is_kind}
use metagen.Ast.{
  lit_num, lit_str, lit_null, lit_ident, AstExpr, expr_null, expr_unary, expr_binary, expr_literal,
  expr_call, AstExprs, nil, cons,
}
use metagen.Types.{TypeInfo}
use metagen.Types.Store.{Compiler, deref}
use metagen.Types.Symt.{symt_find_sym}
use metagen.Types.Infer.{sym_at, bind_ident, bind_null, bind_expr, bind_exprs}
use metagen.Types.Check.{expr_size, exprs_size}
use metagen.Types.Scopes.{IsValid}
use metagen.Types.Grow.{error_sym-length}
use metagen.Types.Lookup.{Finds, Named, symt_find_sym-Finds}
use metagen.Types.Binding.{Grows}

-- A read through a pointer takes no fuel.
pub deref-Settles :
    {A : Type 0} (xs : List A) (p : ℕ) → Settles (λ x. deref xs p ≡ ok x) (deref xs p)
deref-Settles xs zero = tt
deref-Settles [] (suc n) = tt
deref-Settles (x ∷ xs) (suc zero) = refl
deref-Settles (x ∷ xs) (suc (suc n)) = deref-Settles xs (suc n)

module _ (h : StrMap) where
  open h use {Map, get}

  pub find-Settles :
      (c : Compiler Map) (p : ℕ) (key : List ℕ)
      → IsValid h c
      → p ≤ length c.tables
      → Settles (Finds h c key p) (symt_find_sym h c p key)
  find-Settles c p key v le = Ensures-Settles (Finds h c key p) (symt_find_sym h c p key) (
      Ensures-imp (λ s. Finds h c key p s × Named h c key s) (Finds h c key p)
        (symt_find_sym h c p key) (λ s k. k.0) (symt_find_sym-Finds h c p key le v))

  sym_at-Settles : (c : Compiler Map) (s : ℕ) → Settles (λ sym. Unit) (sym_at h c s)
  unfolding sym_at
  sym_at-Settles c zero = tt
  sym_at-Settles c (suc n) =
      Settles-bind (λ x. deref c.cells (suc n) ≡ ok x) (λ sym. Unit) (deref c.cells (suc n)) _
        (deref-Settles c.cells (suc n)) (λ cell e. tt)

  -- The same number of nodes, and no report lost.
  abbrev pub Sized : ℕ → ErrorHandler → AstExpr × ErrorHandler → Type 0
  Sized n e r = (expr_size r.0 ≡ n) × Grows e r.1

  module _ (c : Compiler Map) (p : ℕ) (v : IsValid h c) (le : p ≤ length c.tables) where
    bind_ident-Sized :
        (t : Option TypeInfo) (literal : List ℕ) (e : ErrorHandler)
        → Settles (Sized 1 e) (bind_ident h c p t literal e)
    unfolding bind_ident expr_size
    bind_ident-Sized t literal e =
        Settles-bind (Finds h c literal p) (Sized 1 e) (symt_find_sym h c p literal) _
          (find-Settles c p literal v le)
          (λ s k.
            Settles-bind (λ sym. Unit) (Sized 1 e) (sym_at h c s) _ (sym_at-Settles c s)
              (λ sym u. (
                refl,
                if_split (Grows e) (s == 0) {x = error_sym e "Symbol never declared" literal}
                    {y = e}
                    (λ z.
                      let l = error_sym-length e "Symbol never declared" literal in
                      omega (arith, l))
                    (λ z. omega arith),
              )))

    mutual
      unfolding bind_expr bind_null expr_size

      pub bind_expr-Sized :
          (expr : AstExpr) (e : ErrorHandler)
          → Settles (Sized (expr_size expr) e) (bind_expr h c p expr e)
      bind_expr-Sized expr_null e = tt
      bind_expr-Sized (expr_unary t op expr) e =
          Settles-bind (Sized (expr_size expr) e) (Sized (suc (expr_size expr)) e)
            (bind_expr h c p expr e) _ (bind_expr-Sized expr e) (λ r k. (ap suc k.0, k.1))
      bind_expr-Sized (expr_binary t left op right) e =
          let whole = suc (expr_size left + expr_size right) in
          Settles-bind (Sized (expr_size left) e) (Sized whole e) (bind_expr h c p left e) _
            (bind_expr-Sized left e)
            (λ r k.
              if_split
                (λ m. Settles (Sized whole e) (m >>= λ s. ok (expr_binary t r.0 op s.0, s.1)))
                (is_kind op token_dot) {x = ok (right, r.1)} {y = bind_expr h c p right r.1}
                (λ z. ((let a = k.0 in omega (arith, a)), k.1))
                (λ z.
                  Settles-bind (Sized (expr_size right) r.1) (Sized whole e)
                    (bind_expr h c p right r.1) _ (bind_expr-Sized right r.1)
                    (λ s l.
                      let a = k.0 in
                      let b = l.0 in
                      let a' = k.1 in
                      let b' = l.1 in (omega (arith, a, b), omega (arith, a', b')))))
      bind_expr-Sized (expr_literal t sym lit_null literal) e =
          Settles-bind (λ sym. Unit) (Sized 1 e) (sym_at h c c.sym_null) _
            (sym_at-Settles c c.sym_null) (λ sym u. (refl, omega arith))
      bind_expr-Sized (expr_literal t sym lit_ident literal) e = bind_ident-Sized t literal e
      bind_expr-Sized (expr_literal t sym lit_num literal) e = (refl, omega arith)
      bind_expr-Sized (expr_literal t sym lit_str literal) e = (refl, omega arith)
      bind_expr-Sized (expr_call t is_comptime identifier args) e =
          Settles-bind (λ r. (exprs_size r.0 ≡ exprs_size args) × Grows e r.1)
            (Sized (suc (exprs_size args)) e) (bind_exprs h c p args e) _ (bind_exprs-Sized args e)
            (λ r k. (ap suc k.0, k.1))

      bind_exprs-Sized :
          (exprs : AstExprs) (e : ErrorHandler)
          → Settles
              (λ r. (exprs_size r.0 ≡ exprs_size exprs) × Grows e r.1)
              (bind_exprs h c p exprs e)
      bind_exprs-Sized nil e = (refl, omega arith)
      bind_exprs-Sized (cons expr exprs) e =
          let Whole : AstExprs × ErrorHandler → Type 0 =
            λ r. (exprs_size r.0 ≡ suc (expr_size expr + exprs_size exprs)) × Grows e r.1 in
          Settles-bind (Sized (expr_size expr) e) Whole (bind_expr h c p expr e) _
            (bind_expr-Sized expr e)
            (λ r k.
              Settles-bind (λ s. (exprs_size s.0 ≡ exprs_size exprs) × Grows r.1 s.1) Whole
                (bind_exprs h c p exprs r.1) _ (bind_exprs-Sized exprs r.1)
                (λ s l.
                  let a = k.0 in
                  let b = l.0 in
                  let a' = k.1 in let b' = l.1 in (omega (arith, a, b), omega (arith, a', b'))))
