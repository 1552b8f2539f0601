-- ===== src/Types/Sound.antt =====
-- The type checker (compiler/type.c: typecheck_expr) answers with types that the typing relation gives.
use metagen.Base.{
  ℕ, zero, suc, ◌≤◌, ◌<◌, ◌≡◌, sym, arith, true, false, List, [], ◌∷◌, length, Option, some, ◌==◌,
  ==_iff, if_split, ok, Settles, Settles-bind,
}
use metagen.HashMap.{StrMap}
use metagen.Diagnostics.{ErrorHandler, error_node, error_typecheck_binary}
use metagen.Lex.Token.{TokenKind, token_dot, is_kind}
use metagen.Ast.{
  AstExpr, expr_null, expr_unary, expr_binary, expr_literal, expr_call, AstExprs, nil, cons,
}
use metagen.Types.{TypeInfo}
use metagen.Types.Store.{Compiler}
use metagen.Types.Infer.{bind_expr}
use metagen.Types.Check.{
  head_type, expr_size, exprs_size, n_args, compare, unary_type, accessed_type, has_members,
  Checker, literal_type, members_table, callee_of, typecheck_operands, typecheck_inner,
  typecheck_member, typecheck_all, typecheck_args, typecheck_expr,
}
use metagen.Types.Scopes.{IsValid}
use metagen.Types.Binding.{in_turn}
use metagen.Types.Sizes.{Sized, bind_expr-Sized}
use metagen.Types.Typing.{Accessed, HasType, member, call, HaveTypes, no_more}
use metagen.Types.Accepts.{
  Then, reported, Agree, compare-Agree, accessed_type-Accessed, Typed, unary_type-Typed,
}
use metagen.Types.Callees.{
  binary_of, one_of, Callee, callee_of-Callee, typed_as, literal_type-Typed, members_table-Refers,
}

module _ (h : StrMap) (c : Compiler h.Map) (v : IsValid h c) where
  module _ (f : ℕ) (rec : Checker)
      (checks : (p : ℕ) (expr : AstExpr) (e : ErrorHandler)
        → p ≤ length c.tables
        → expr_size expr < f
        → Settles (Typed h c p e) (rec p expr e)) where
    typecheck_operands-Typed :
        (p : ℕ) (left : AstExpr) (op : TokenKind) (right : AstExpr) (e₀ e : ErrorHandler)
        → p ≤ length c.tables
        → expr_size right < f
        → is_kind op token_dot ≡ false
        → Then e₀ (HasType h c p left (head_type left)) e
        → Settles (Typed h c p e₀) (typecheck_operands h rec p left op right e)
    unfolding typecheck_operands
    typecheck_operands-Typed p left op right e₀ e le small dot l =
        Settles-bind (Typed h c p e) (Typed h c p e₀) (rec p right e) _ (checks p right e le small)
          (λ r k.
            Settles-bind (Then r.1 (Agree (head_type left) (head_type r.0))) (Typed h c p e₀)
              (compare "bin" (head_type left) (head_type r.0) r.1) _
              (compare-Agree "bin" (head_type left) (head_type r.0) r.1)
              (λ e₂ a.
                let L = HasType h c p left (head_type left) in
                let R = HasType h c p r.0 (head_type r.0) in
                let both =
                  in_turn (L × R) (Agree (head_type left) (head_type r.0)) e₀ r.1 e₂
                    (in_turn L R e₀ e r.1 l k) a in
                (
                  both.0,
                  λ q.
                      let g = both.1 q in
                      binary_of h c v p left op r.0 (head_type left) (head_type r.0) dot g.0.0 g.0.1
                        g.1,
                )))

    typecheck_inner-Typed :
        (p : ℕ) (s t : TypeInfo) (left : AstExpr) (op : TokenKind) (right : AstExpr)
        (e₀ e : ErrorHandler)
        → p ≤ length c.tables
        → expr_size right < f
        → is_kind op token_dot ≡ true
        → Accessed s t
        → has_members t ≡ true
        → Then e₀ (HasType h c p left (some s)) e
        → Settles (Typed h c p e₀) (typecheck_inner h c rec p t left op right e)
    unfolding typecheck_inner
    typecheck_inner-Typed p s t left op right e₀ e le small dot acc has l =
        Settles-bind _ (Typed h c p e₀) (members_table h c p t) _
          (members_table-Refers h c v p t le)
          (λ q m.
            Settles-bind (Sized h (expr_size right) e) (Typed h c p e₀) (bind_expr h c q right e) _
              (bind_expr-Sized h c q v m.3 right e)
              (λ b z.
                Settles-bind (Typed h c q b.1) (Typed h c p e₀) (rec q b.0 b.1) _
                  (checks q b.0 b.1 m.3 (let a = z.0 in omega (arith, a, small)))
                  (λ r k.
                    let L = HasType h c p left (some s) in
                    let R = HasType h c q r.0 (head_type r.0) in
                    let both =
                      in_turn (L × Unit) R e₀ b.1 r.1 (in_turn L Unit e₀ e b.1 l (z.1, λ y. tt))
                        k in
                    (
                      both.0,
                      λ y.
                          let g = both.1 y in
                          member p left op r.0 s t m.0 (head_type r.0) dot g.0.0 acc has m.1
                            (rw (← m.2) g.1),
                    ))))

    typecheck_member-Typed :
        (p : ℕ) (left : AstExpr) (op : TokenKind) (right : AstExpr) (e₀ e : ErrorHandler)
        → p ≤ length c.tables
        → expr_size right < f
        → is_kind op token_dot ≡ true
        → Then e₀ (HasType h c p left (head_type left)) e
        → Settles (Typed h c p e₀) (typecheck_member h c rec p left op right e)
    unfolding typecheck_member
    typecheck_member-Typed p left op right e₀ e le small dot l =
        Settles-bind (λ t. (s : TypeInfo) × (head_type left ≡ some s) × Accessed s t)
          (Typed h c p e₀) (accessed_type (head_type left)) _
          (accessed_type-Accessed (head_type left))
          (λ t k.
            if_split (Settles (Typed h c p e₀)) (has_members t)
              {x = typecheck_inner h c rec p t left op right e}
              {y = ok
                (expr_binary (some t) left op right, error_typecheck_binary e "Has no members")}
              (λ z.
                typecheck_inner-Typed p k.0 t left op right e₀ e le small dot k.2 z
                  (l.0, λ q. typed_as h c v p left (head_type left) k.0 k.1 (l.1 q)))
              (λ z.
                let L = HasType h c p left (head_type left) in
                let G = HasType h c p (expr_binary (some t) left op right) (some t) in
                let both =
                  in_turn L G e₀ e (error_typecheck_binary e "Has no members") l
                    (reported G e "Has no members") in
                (both.0, λ q. (both.1 q).1)))

    typecheck_all-Typed :
        (p : ℕ) (ts : List (Option TypeInfo)) (args : AstExprs) (e : ErrorHandler)
        → p ≤ length c.tables
        → exprs_size args ≤ f
        → n_args args ≡ length ts
        → Settles (λ r. Then e (HaveTypes h c p r.0 ts) r.1) (typecheck_all h rec p ts args e)
    unfolding typecheck_all exprs_size
    typecheck_all-Typed p [] nil e le small same = (omega arith, λ q. no_more p)
    typecheck_all-Typed p (t ∷ ts) nil e le small same = absurd (omega (arith, same))
    typecheck_all-Typed p [] (cons arg args) e le small same = tt
    typecheck_all-Typed p (t ∷ ts) (cons arg args) e le small same =
        let Q : AstExprs × ErrorHandler → Type 0 = λ r. Then e (HaveTypes h c p r.0 (t ∷ ts)) r.1 in
        Settles-bind (Typed h c p e) Q (rec p arg e) _ (checks p arg e le (omega (arith, small)))
          (λ r k.
            Settles-bind (Then r.1 (Agree (head_type r.0) t)) Q
              (compare "Argument mismatch" (head_type r.0) t r.1) _
              (compare-Agree "Argument mismatch" (head_type r.0) t r.1)
              (λ e₂ a.
                Settles-bind (λ z. Then e₂ (HaveTypes h c p z.0 ts) z.1) Q
                  (typecheck_all h rec p ts args e₂) _
                  (typecheck_all-Typed p ts args e₂ le (omega (arith, small)) (omega (arith, same)))
                  (λ z b.
                    let K = HasType h c p r.0 (head_type r.0) in
                    let A = Agree (head_type r.0) t in
                    let both =
                      in_turn (K × A) (HaveTypes h c p z.0 ts) e e₂ z.1 (in_turn K A e r.1 e₂ k a)
                        b in
                    (
                      both.0,
                      λ q.
                          let g = both.1 q in
                          one_of h c v p r.0 z.0 (head_type r.0) t ts g.0.0 g.0.1 g.1,
                    ))))

    typecheck_args-Typed :
        (p : ℕ) (ts : List (Option TypeInfo)) (args : AstExprs) (e : ErrorHandler)
        → p ≤ length c.tables
        → exprs_size args ≤ f
        → Settles (λ r. Then e (HaveTypes h c p r.0 ts) r.1) (typecheck_args h rec p ts args e)
    unfolding typecheck_args
    typecheck_args-Typed p [] nil e le small = (omega arith, λ q. no_more p)
    typecheck_args-Typed p (t ∷ ts) nil e le small =
        reported (HaveTypes h c p nil (t ∷ ts)) e "Expected n args, but got 0"
    typecheck_args-Typed p ts (cons arg args) e le small =
        if_split (Settles (λ (r : AstExprs × ErrorHandler). Then e (HaveTypes h c p r.0 ts) r.1))
          (n_args (cons arg args) == length ts) {x = typecheck_all h rec p ts (cons arg args) e}
          {y = ok (cons arg args, error_node e "Expected x args, but got y")}
          (λ z.
            typecheck_all-Typed p ts (cons arg args) e le small
              ((==_iff (n_args (cons arg args)) (length ts)).0 z))
          (λ z. reported (HaveTypes h c p (cons arg args) ts) e "Expected x args, but got y")

  -- With more fuel than the expression has nodes, the checker of types in a tree of scopes does not run
  -- out of fuel. When it returns without a new report, the tree that it returns has the type that stands in
  -- its root by the typing relation; and no report is lost.
  pub typecheck_expr-Typed :
      (f p : ℕ) (expr : AstExpr) (e : ErrorHandler)
      → p ≤ length c.tables
      → expr_size expr < f
      → Settles (Typed h c p e) (typecheck_expr h f c p expr e)
  unfolding typecheck_expr expr_size
  typecheck_expr-Typed zero p expr e le small = absurd (omega (arith, small))
  typecheck_expr-Typed (suc f) p expr_null e le small = tt
  typecheck_expr-Typed (suc f) p (expr_unary old op expr) e le small =
      Settles-bind (Typed h c p e) (Typed h c p e) (typecheck_expr h f c p expr e) _
        (typecheck_expr-Typed f p expr e le (omega (arith, small)))
        (λ r k.
          Settles-bind
            (λ t.
              Then r.1
                (HasType h c p r.0 (head_type r.0) → HasType h c p (expr_unary t.0 op r.0) t.0) t.1)
            (Typed h c p e) (unary_type op old (head_type r.0) r.1) _
            (unary_type-Typed h c p op r.0 old (head_type r.0) r.1)
            (λ t u.
              let K = HasType h c p r.0 (head_type r.0) in
              let both = in_turn K (K → HasType h c p (expr_unary t.0 op r.0) t.0) e r.1 t.1 k u in
              (both.0, λ q. let g = both.1 q in g.1 g.0)))
  typecheck_expr-Typed (suc f) p (expr_binary old left op right) e le small =
      Settles-bind (Typed h c p e) (Typed h c p e) (typecheck_expr h f c p left e) _
        (typecheck_expr-Typed f p left e le (omega (arith, small)))
        (λ r k.
          if_split (Settles (Typed h c p e)) (is_kind op token_dot)
            {x = typecheck_member h c (typecheck_expr h f c) p r.0 op right r.1}
            {y = typecheck_operands h (typecheck_expr h f c) p r.0 op right r.1}
            (λ z.
              typecheck_member-Typed f (typecheck_expr h f c)
                (λ q x y b s. typecheck_expr-Typed f q x y b s) p r.0 op right e r.1 le
                (omega (arith, small)) z k)
            (λ z.
              typecheck_operands-Typed f (typecheck_expr h f c)
                (λ q x y b s. typecheck_expr-Typed f q x y b s) p r.0 op right e r.1 le
                (omega (arith, small)) z k))
  typecheck_expr-Typed (suc f) p (expr_literal old sym lit literal) e le small =
      Settles-bind (λ t. HasType h c p (expr_literal t sym lit literal) t) (Typed h c p e)
        (literal_type h c p lit sym) _ (literal_type-Typed h c v p sym lit literal le)
        (λ t k. (omega arith, λ q. k))
  typecheck_expr-Typed (suc f) p (expr_call old is_comptime identifier args) e le small =
      Settles-bind (Callee h c v p identifier) (Typed h c p e) (callee_of h c p identifier) _
        (callee_of-Callee h c v p identifier le)
        (λ fn k.
          Settles-bind (λ r. Then e (HaveTypes h c p r.0 fn.param_types) r.1) (Typed h c p e)
            (typecheck_args h (typecheck_expr h f c) p fn.param_types args e) _
            (typecheck_args-Typed f (typecheck_expr h f c)
              (λ q x y b s. typecheck_expr-Typed f q x y b s) p fn.param_types args e le
              (omega (arith, small)))
            (λ r l. (l.0, λ q. call p is_comptime identifier r.0 k.0 k.1 fn k.2 k.3 k.4 (l.1 q))))
