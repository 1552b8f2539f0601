-- ===== src/Parser/Sound/Size.antt =====
-- How large the trees of expressions are.
use metagen.Base.{
  ℕ, suc, ◌+◌, ◌≤◌, ◌≡◌, arith, List, [], ◌∷◌, length, length-append, Runs, Runs-imp,
}
use metagen.Lex.Token.{Token}
use metagen.Ast.{
  AstExpr, expr_null, expr_unary, expr_binary, expr_literal, expr_call, AstExprs, nil, cons,
}
use metagen.Ast.Make.{ast_list_push_back}
use metagen.Parser.State.{Parser}
use metagen.Parser.Expr.{parse_full_expr}
use metagen.Parser.Runs.Tokens.{Reads}
use metagen.Parser.Sound.Grammar.{
  Primary, literal, group, negated, pointed, indexed, called_empty, called, Expr, operand, binary,
  member, Item, text, value, Items, one, more,
}
use metagen.Parser.Sound.Trail.{Trail-imp, Gives}
use metagen.Parser.Sound.Exprs.{parse_full_expr-Gives}

-- The nodes of a tree, its literals included.
abbrev mutual
  pub nodes : AstExpr → ℕ
  nodes expr_null = 1
  nodes (expr_unary t op e) = 1 + nodes e
  nodes (expr_binary t left op right) = 1 + nodes left + nodes right
  nodes (expr_literal t s k x) = 1
  nodes (expr_call t c name args) = 1 + nodes_all args

  pub nodes_all : AstExprs → ℕ
  nodes_all nil = 0
  nodes_all (cons e es) = nodes e + nodes_all es

nodes_all-push_back :
    (es : AstExprs) (e : AstExpr) → nodes_all (ast_list_push_back es e) ≡ nodes_all es + nodes e
nodes_all-push_back nil e = omega arith
nodes_all-push_back (cons x es) e = omega (arith, nodes_all-push_back es e)

mutual
  Primary-nodes : (ts : List Token) (e : AstExpr) → Primary ts e → nodes e ≤ length ts
  Primary-nodes _ _ (literal t k) = omega arith
  Primary-nodes _ _ (group o c ts e h x k) =
      omega (arith, Expr-nodes 0 ts e x, length-append ts (c ∷ []))
  Primary-nodes _ _ (negated op ts e h x) = omega (arith, Expr-nodes 0 ts e x)
  Primary-nodes _ _ (pointed op ts e h x) = omega (arith, Expr-nodes 0 ts e x)
  Primary-nodes _ _ (indexed n o c ts e h k x z) =
      omega (arith, Expr-nodes 0 ts e x, length-append ts (c ∷ []))
  Primary-nodes _ _ (called_empty n o c h k z) = omega arith
  Primary-nodes _ _ (called n o c ts args h k x z) =
      omega (arith, Items-nodes ts args x, length-append ts (c ∷ []))

  Expr-nodes : (n : ℕ) (ts : List Token) (e : AstExpr) → Expr n ts e → nodes e ≤ length ts
  Expr-nodes n ts e (operand _ _ _ x) = Primary-nodes ts e x
  Expr-nodes n _ _ (binary _ below op ts us left right x b l y) = omega (
    arith,
    Expr-nodes below ts left x,
    Expr-nodes (suc below) us right y,
    length-append ts (op ∷ us),
  )
  Expr-nodes n _ _ (member _ dot name ts left x d l k) =
      omega (arith, Expr-nodes 14 ts left x, length-append ts (dot ∷ name ∷ []))

  Item-nodes : (ts : List Token) (e : AstExpr) → Item ts e → nodes e ≤ length ts
  Item-nodes _ _ (text t k) = omega arith
  Item-nodes ts e (value _ _ x) = Expr-nodes 0 ts e x

  Items-nodes : (ts : List Token) (es : AstExprs) → Items ts es → nodes_all es ≤ length ts
  Items-nodes ts _ (one _ e x) = omega (arith, Item-nodes ts e x)
  Items-nodes _ _ (more comma ts us es e x k y) = omega (
    arith,
    Items-nodes ts es x,
    Item-nodes us e y,
    length-append ts (comma ∷ us),
    nodes_all-push_back es e,
  )

-- Parsing an expression, with no token given back and the lexer ready, returns or exits. When it
-- returns and no report was made on the way, the tree has at most as many nodes as tokens were taken.
pub nodes-parse_full_expr :
    (p : Parser) (n : ℕ)
    → Reads p
    → Runs (Gives p (λ ts e. nodes e ≤ length ts)) (parse_full_expr p n)
nodes-parse_full_expr p n r =
    Runs-imp (Gives p (Expr n)) (Gives p (λ ts e. nodes e ≤ length ts)) (parse_full_expr p n)
      (λ x.
        Trail-imp p x.1 (λ ts. Expr n ts x.0) (λ ts. nodes x.0 ≤ length ts)
          (λ ts d. Expr-nodes n ts x.0 d))
      (parse_full_expr-Gives p n r)
