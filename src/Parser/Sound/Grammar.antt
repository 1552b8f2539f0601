-- ===== src/Parser/Sound/Grammar.antt =====
-- The grammar of expressions, stated without the parser: which tokens stand for which tree. `Expr n ts e`
-- says so with the binary operators of `e` outside of brackets and unary operators binding tighter
-- than `n`.
use metagen.Base.{ℕ, suc, ◌<◌, ◌≡◌, ◌⊎◌, false, List, [], ◌∷◌, ◌++◌}
use metagen.Lex.Token.{
  TokenKind, token_num, token_str, token_plus, token_minus, token_star, token_slash, token_lshift,
  token_rshift, token_lparen, token_rparen, token_lbracket, token_rbracket, token_dot, token_comma,
  token_ampersand, token_identifier, token_null, Token,
}
use metagen.Ast.{AstExpr, AstExprs, nil}
use metagen.Ast.Make.{
  make_unary, make_binary, make_literal, make_call, make_list, ast_list_push_back,
}

-- How tight a binary operator binds, member access left out.
abbrev pub BindsAt : TokenKind → ℕ → Type 0
BindsAt token_lshift n = n ≡ 4
BindsAt token_rshift n = n ≡ 4
BindsAt token_plus n = n ≡ 5
BindsAt token_minus n = n ≡ 5
BindsAt token_star n = n ≡ 10
BindsAt token_slash n = n ≡ 10
BindsAt _ n = ⊥

abbrev pub IsName : TokenKind → Type 0
IsName k = (k ≡ token_num) ⊎ (k ≡ token_identifier)

mutual
  pub data Primary : List Token → AstExpr → Type 0 where
    literal :
        (t : Token) → IsName t.kind ⊎ (t.kind ≡ token_null) → Primary (t ∷ []) (make_literal t)
    group :
        (left_bracket right_bracket : Token) (ts : List Token) (e : AstExpr)
        → left_bracket.kind ≡ token_lparen
        → Expr 0 ts e
        → right_bracket.kind ≡ token_rparen
        → Primary (left_bracket ∷ ts ++ right_bracket ∷ []) e
    negated :
        (op : Token) (ts : List Token) (e : AstExpr)
        → op.kind ≡ token_minus
        → Expr 0 ts e
        → Primary (op ∷ ts) (make_unary e op.kind)
    pointed :
        (op : Token) (ts : List Token) (e : AstExpr)
        → (op.kind ≡ token_star) ⊎ (op.kind ≡ token_ampersand)
        → Expr 0 ts e
        → Primary (op ∷ ts) (make_unary e op.kind)
    indexed :
        (name left_bracket right_bracket : Token) (ts : List Token) (e : AstExpr)
        → IsName name.kind
        → left_bracket.kind ≡ token_lbracket
        → Expr 0 ts e
        → right_bracket.kind ≡ token_rbracket
        → Primary
            (name ∷ left_bracket ∷ ts ++ right_bracket ∷ [])
            (make_binary (make_literal name) token_lbracket e)
    called_empty :
        (name left_bracket right_bracket : Token)
        → IsName name.kind
        → left_bracket.kind ≡ token_lparen
        → right_bracket.kind ≡ token_rparen
        → Primary (name ∷ left_bracket ∷ right_bracket ∷ []) (make_call false name.lexeme nil)
    called :
        (name left_bracket right_bracket : Token) (ts : List Token) (args : AstExprs)
        → IsName name.kind
        → left_bracket.kind ≡ token_lparen
        → Items ts args
        → right_bracket.kind ≡ token_rparen
        → Primary
            (name ∷ left_bracket ∷ ts ++ right_bracket ∷ [])
            (make_call false name.lexeme args)

  -- The left operand of an operator of a level has operators of that level or tighter ones only, and the
  -- right operand tighter ones only: `a + b * c` is a sum, and `a - b - c` groups from the left.
  pub data Expr : ℕ → List Token → AstExpr → Type 0 where
    operand : (n : ℕ) (ts : List Token) (e : AstExpr) → Primary ts e → Expr n ts e
    binary :
        (n below : ℕ) (op : Token) (ts us : List Token) (left right : AstExpr)
        → Expr below ts left
        → BindsAt op.kind (suc below)
        → n < suc below
        → Expr (suc below) us right
        → Expr n (ts ++ op ∷ us) (make_binary left op.kind right)
    member :
        (n : ℕ) (dot name : Token) (ts : List Token) (left : AstExpr)
        → Expr 14 ts left
        → dot.kind ≡ token_dot
        → n < 15
        → name.kind ≡ token_identifier
        → Expr n (ts ++ dot ∷ name ∷ []) (make_binary left dot.kind (make_literal name))

  pub data Item : List Token → AstExpr → Type 0 where
    text : (t : Token) → t.kind ≡ token_str → Item (t ∷ []) (make_literal t)
    value : (ts : List Token) (e : AstExpr) → Expr 0 ts e → Item ts e

  pub data Items : List Token → AstExprs → Type 0 where
    one : (ts : List Token) (e : AstExpr) → Item ts e → Items ts (make_list e)
    more :
        (comma : Token) (ts us : List Token) (list : AstExprs) (e : AstExpr)
        → Items ts list
        → comma.kind ≡ token_comma
        → Item us e
        → Items (ts ++ comma ∷ us) (ast_list_push_back list e)
