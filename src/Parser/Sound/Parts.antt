-- ===== src/Parser/Sound/Parts.antt =====
-- Lists of expressions follow the grammar.
use metagen.Base.{
  ℕ, zero, suc, ◌<◌, ◌≡◌, arith, true, List, ◌∷◌, ◌++◌, append-nil, append_assoc, if_split, Runs,
  Runs-imp,
}
use metagen.Lex.Token.{token_str, token_comma, Token, is_kind}
use metagen.Ast.{AstExprs}
use metagen.Ast.Make.{make_literal, make_list, ast_list_push_back}
use metagen.Parser.State.{Parser, parse_fuel}
use metagen.Parser.Expr.{ExprParser, parse_item, list_run, parse_expr_list}
use metagen.Parser.Runs.Tokens.{
  Reads, tokens_left, After-Reads, After-left, After-below, TokenShown, shown_read, kind_not_eof,
}
use metagen.Parser.Runs.Operands.{enough}
use metagen.Parser.Sound.Grammar.{Expr, Item, text, value, Items, one, more}
use metagen.Parser.Sound.Trail.{
  Trail-imp, Trail-refl, Gives, Gives-bind, next_bind, peek_bind, read_kind,
}

-- An expression parser whose trees follow the grammar, with fewer than `f` tokens left.
abbrev pub FollowsExpr : ℕ → ExprParser → Type 0
FollowsExpr f expr =
    (p : Parser) (n : ℕ) → Reads p → tokens_left p < f → Runs (Gives p (Expr n)) (expr p n)

module _ (f : ℕ) (expr : ExprParser) (follows : FollowsExpr f expr) where
  parse_item-Gives :
      (p : Parser) → Reads p → tokens_left p < f → Runs (Gives p Item) (parse_item expr p)
  unfolding parse_item
  parse_item-Gives p r l = peek_bind p Item _ r λ t a.
      let u = After-Reads p t.1 a.after in
      if_split (Runs (Gives t.1 Item)) (is_kind t.0.kind token_str)
        (λ h. next_bind t.1 Item _ u λ s b.
          Trail-refl s.1 (λ ts. Item (s.0 ∷ ts) (make_literal s.0)) (After-Reads t.1 s.1 b.after)
            (text s.0 (read_kind p t s token_str a b h)))
        (λ _.
          Runs-imp (Gives t.1 (Expr 0)) (Gives t.1 Item) (expr t.1 0)
            (λ x.
              Trail-imp t.1 x.1 (λ ts. Expr 0 ts x.0) (λ ts. Item ts x.0) (λ ts d. value ts x.0 d))
            (follows t.1 0 u (After-below p t.1 f a.after l)))

  list_run-Gives :
      (g : ℕ) (list : AstExprs) (p : Parser) (t : Token × Parser)
      → TokenShown p t
      → is_kind t.0.kind token_comma ≡ true
      → tokens_left t.1 < f
      → tokens_left t.1 < g
      → Reads p
      → Runs
          (Gives t.1 (λ us l. (ts : List Token) → Items ts list → Items (ts ++ us) l))
          (list_run g expr list t.1)
  unfolding list_run
  list_run-Gives zero list p t a h l m r = omega arith
  list_run-Gives (suc g) list p t a h l m r =
      let K : List Token → AstExprs → Type 0 =
        λ us x. (ts : List Token) → Items ts list → Items (ts ++ us) x in
      next_bind t.1 K _ (After-Reads p t.1 a.after) λ s b.
        let c = shown_read p t s a b (kind_not_eof t.0.kind token_comma h (λ e. cc)) in
        let v = After-Reads t.1 s.1 b.after in
        Gives-bind s.1 Item (λ us x. K (s.0 ∷ us) x) (parse_item expr s.1) _
          (parse_item-Gives s.1 v (omega (arith, c)))
          λ e d.
            let w = After-Reads s.1 e.1 d in
            let H : List Token → AstExprs → Type 0 =
              λ us x. (vs : List Token) → Item vs e.0 → K (s.0 ∷ vs ++ us) x in
            let next_list = ast_list_push_back list e.0 in
            let longer : (ts vs : List Token)
                → Items ts list
                → Item vs e.0
                → Items (ts ++ s.0 ∷ vs) next_list =
              λ ts vs i j. more s.0 ts vs list e.0 i (read_kind p t s token_comma a b h) j in
            peek_bind e.1 H _ w λ n k.
              let x = After-left s.1 e.1 d in
              let y = After-left e.1 n.1 k.after in
              if_split (Runs (Gives n.1 H)) (is_kind n.0.kind token_comma)
                (λ again.
                  Runs-imp
                    (Gives n.1
                      (λ us z. (ts : List Token) → Items ts next_list → Items (ts ++ us) z))
                    (Gives n.1 H) (list_run g expr next_list n.1)
                    (λ z.
                      Trail-imp n.1 z.1
                        (λ us. (ts : List Token) → Items ts next_list → Items (ts ++ us) z.0)
                        (λ us. H us z.0)
                        (λ us q vs j ts i.
                          rw (← append_assoc ts (s.0 ∷ vs) us)
                            (q (ts ++ s.0 ∷ vs) (longer ts vs i j))))
                    (list_run-Gives g next_list e.1 n k again (omega (arith, c, x, y))
                      (omega (arith, c, x, y)) w))
                (λ _.
                  Trail-refl n.1 (λ us. H us next_list) (After-Reads e.1 n.1 k.after)
                    (λ vs j ts i. rw (append-nil vs) (longer ts vs i j)))

  pub parse_expr_list-Gives :
      (p : Parser) → Reads p → tokens_left p < f → Runs (Gives p Items) (parse_expr_list expr p)
  unfolding parse_expr_list
  parse_expr_list-Gives p r l =
      Gives-bind p Item Items (parse_item expr p) _ (parse_item-Gives p r l) λ e d.
        let w = After-Reads p e.1 d in
        let K : List Token → AstExprs → Type 0 =
          λ us x. (ts : List Token) → Item ts e.0 → Items (ts ++ us) x in
        peek_bind e.1 K _ w λ n k.
          if_split (Runs (Gives n.1 K)) (is_kind n.0.kind token_comma)
            (λ again.
              Runs-imp
                (Gives n.1
                  (λ us z. (ts : List Token) → Items ts (make_list e.0) → Items (ts ++ us) z))
                (Gives n.1 K) (list_run (parse_fuel n.1) expr (make_list e.0) n.1)
                (λ z.
                  Trail-imp n.1 z.1
                    (λ us. (ts : List Token) → Items ts (make_list e.0) → Items (ts ++ us) z.0)
                    (λ us. K us z.0) (λ us q ts i. q ts (one ts e.0 i)))
                (list_run-Gives (parse_fuel n.1) (make_list e.0) e.1 n k again
                  (After-below e.1 n.1 f k.after (After-below p e.1 f d l)) (enough n.1) w))
            (λ _.
              Trail-refl n.1 (λ us. K us (make_list e.0)) (After-Reads e.1 n.1 k.after)
                (λ ts i. rw (append-nil ts) (one ts e.0 i)))
