-- ===== src/Parser/Sound/Primaries.antt =====
-- Brackets, calls and unary operators follow the grammar.
use metagen.Base.{
  [], String, ℕ, suc, ◌<◌, ◌≡◌, ◌⊎◌, inl, inr, refl, arith, true, false, List, ◌∷◌, ◌++◌,
  append-nil, if_split, Runs, Runs-imp,
}
use metagen.Lex.Token.{
  TokenKind, token_lparen, token_rparen, token_lbracket, token_rbracket, token_minus, token_star,
  token_ampersand, token_identifier, Token, is_kind, is_kind_eq,
}
use metagen.Ast.{AstExpr, expr_null, nil}
use metagen.Ast.Make.{make_unary, make_binary, make_literal, make_call}
use metagen.Parser.State.{Parser, match_token, consume_or_err, error_parse}
use metagen.Parser.Expr.{
  ExprParser, parse_expr_list, parse_args, parse_call, parse_group, parse_unary, parse_address,
  parse_index, parse_atom,
}
use metagen.Parser.Runs.Tokens.{Reads, tokens_left, After-Reads, After-below, TokenShown}
use metagen.Parser.Sound.Grammar.{
  IsName, Primary, literal, group, negated, pointed, indexed, called_empty, called, Expr, Items,
}
use metagen.Parser.Sound.Trail.{
  Trail-imp, Trail-then, Trail-refl, Gives, Gives-bind, next_bind, peek_bind, read_kind,
  error_parse-Trail, Consumed, consume_or_err-Gives, MaybeToken, match_token-Gives,
}
use metagen.Parser.Sound.Parts.{FollowsExpr, parse_expr_list-Gives}
use metagen.Parser.Expr.{primary_of, parse_primary}
use metagen.Lex.Token.{token_eof, token_num, token_null}

-- The tokens behind `first` that complete a primary expression.
abbrev pub Completes : Token → List Token → AstExpr → Type 0
Completes first ts e = Primary (first ∷ ts) e

-- They begin with a bracket.
abbrev pub Calls : Token → List Token → AstExpr → Type 0
Calls first [] e = ⊥
Calls first (t ∷ ts) e = (t.kind ≡ token_lparen) × Primary (first ∷ t ∷ ts) e

pub Calls-Completes :
    (first : Token) (ts : List Token) (e : AstExpr) → Calls first ts e → Completes first ts e
Calls-Completes first [] e c = absurd c
Calls-Completes first (t ∷ ts) e c = c.1

module _ (f : ℕ) (expr : ExprParser) (follows : FollowsExpr f expr) where
  parse_args-Gives :
      (identifier : Token) (p : Parser)
      → IsName identifier.kind
      → Reads p
      → tokens_left p < f
      → Runs
          (Gives p (λ ts e. (o : Token) → o.kind ≡ token_lparen → Completes identifier (o ∷ ts) e))
          (parse_args expr identifier false p)
  unfolding parse_args
  parse_args-Gives identifier p named r l =
      let K : List Token → AstExpr → Type 0 =
        λ ts e. (o : Token) → o.kind ≡ token_lparen → Completes identifier (o ∷ ts) e in
      Gives-bind p Items K (parse_expr_list expr p) _ (parse_expr_list-Gives f expr follows p r l)
        λ e d.
          let w = After-Reads p e.1 d in
          let H : List Token → AstExpr → Type 0 =
            λ us x. (ts : List Token) → Items ts e.0 → K (ts ++ us) x in
          Gives-bind e.1 (Consumed token_rparen) H (consume_or_err e.1 token_rparen _) _
            (consume_or_err-Gives e.1 token_rparen _ w)
            λ s b.
              Trail-refl s.1
                (λ us.
                  (cs : List Token)
                  → Consumed token_rparen cs s.0
                  → H (cs ++ us) (make_call false identifier.lexeme e.0))
                (After-Reads e.1 s.1 b)
                (λ cs c ts i o h. rw (c.0) (called identifier o s.0 ts e.0 named h i c.1))

  pub parse_call-Gives :
      (identifier : Token) (p : Parser) (t : Token × Parser)
      → IsName identifier.kind
      → Reads p
      → TokenShown p t
      → is_kind t.0.kind token_lparen ≡ true
      → tokens_left t.1 < f
      → Runs (Gives t.1 (Calls identifier)) (parse_call expr t.1 identifier false)
  unfolding parse_call
  parse_call-Gives identifier p t named r a h l =
      next_bind t.1 (Calls identifier) _ (After-Reads p t.1 a.after) λ s b.
        let v = After-Reads t.1 s.1 b.after in
        let o = read_kind p t s token_lparen a b h in
        let K : List Token → AstExpr → Type 0 = λ ts e. Calls identifier (s.0 ∷ ts) e in
        Gives-bind s.1 (MaybeToken token_rparen) K (match_token s.1 token_rparen) _
          (match_token-Gives s.1 token_rparen v)
          λ m k.
            let w = After-Reads s.1 m.1 k in
            let H : List Token → AstExpr → Type 0 =
              λ us x. (ts : List Token) → MaybeToken token_rparen ts m.0 → K (ts ++ us) x in
            if_split (Runs (Gives m.1 H)) m.0
              (λ e.
                Trail-refl m.1 (λ us. H us (make_call false identifier.lexeme nil)) w
                  (λ ts x.
                    let y = x.0 e in rw (y.1) (o, called_empty identifier s.0 y.0 named o y.2)))
              (λ e.
                Runs-imp
                  (Gives m.1
                    (λ ts x. (q : Token) → q.kind ≡ token_lparen → Completes identifier (q ∷ ts) x))
                  (Gives m.1 H) (parse_args expr identifier false m.1)
                  (λ z.
                    Trail-imp m.1 z.1
                      (λ ts.
                        (q : Token) → q.kind ≡ token_lparen → Completes identifier (q ∷ ts) z.0)
                      (λ us. H us z.0) (λ us g ts x. rw (x.1 e) (o, g s.0 o)))
                  (parse_args-Gives identifier m.1 named w
                    (After-below s.1 m.1 f k (After-below t.1 s.1 f b.after l))))

  parse_group-Gives :
      (token : Token) (p : Parser)
      → token.kind ≡ token_lparen
      → Reads p
      → tokens_left p < f
      → Runs (Gives p (Completes token)) (parse_group expr p)
  unfolding parse_group
  parse_group-Gives token p o r l =
      Gives-bind p (Expr 0) (Completes token) (expr p 0) _ (follows p 0 r l) λ e d.
        let H : List Token → AstExpr → Type 0 =
          λ us x. (ts : List Token) → Expr 0 ts e.0 → Completes token (ts ++ us) x in
        Gives-bind e.1 (Consumed token_rparen) H (consume_or_err e.1 token_rparen _) _
          (consume_or_err-Gives e.1 token_rparen _ (After-Reads p e.1 d))
          λ s b.
            Trail-refl s.1
              (λ us. (cs : List Token) → Consumed token_rparen cs s.0 → H (cs ++ us) e.0)
              (After-Reads e.1 s.1 b) (λ cs c ts x. rw (c.0) (group token s.0 ts e.0 o x c.1))

  -- `unary` is the production of the operator.
  parse_unary-Gives :
      (token : Token) (p : Parser)
      → ((ts : List Token) (e : AstExpr)
          → Expr 0 ts e
          → Completes token ts (make_unary e token.kind))
      → Reads p
      → tokens_left p < f
      → Runs (Gives p (Completes token)) (parse_unary expr token.kind p)
  unfolding parse_unary
  parse_unary-Gives token p unary r l =
      Gives-bind p (Expr 0) (Completes token) (expr p 0) _ (follows p 0 r l) λ e d.
        Trail-refl e.1
          (λ us.
            (ts : List Token)
            → Expr 0 ts e.0
            → Completes token (ts ++ us) (make_unary e.0 token.kind))
          (After-Reads p e.1 d) (λ ts x. rw (append-nil ts) (unary ts e.0 x))

  parse_address-Gives :
      (token : Token) (p : Parser)
      → (token.kind ≡ token_star) ⊎ (token.kind ≡ token_ampersand)
      → Reads p
      → tokens_left p < f
      → Runs (Gives p (Completes token)) (parse_address expr token.kind p)
  unfolding parse_address
  parse_address-Gives token p o r l =
      let production : (ts : List Token) (e : AstExpr)
          → Expr 0 ts e
          → Completes token ts (make_unary e token.kind) =
        λ ts e x. pointed token ts e o x in
      peek_bind p (Completes token) _ r λ t a.
        let u = After-Reads p t.1 a.after in
        let n = After-below p t.1 f a.after l in
        if_split (λ q. Runs (Gives t.1 (Completes token)) (parse_unary expr token.kind q))
          (is_kind t.0.kind token_identifier) (λ _. parse_unary-Gives token t.1 production u n)
          (λ _.
            let msg : String = "RHS of unary * or & must start with an identifier" in
            let q = error_parse t.1 msg t.0 in
            let d = error_parse-Trail t.1 msg t.0 (λ ts. ⊥) u in
            Runs-imp (Gives q (Completes token)) (Gives t.1 (Completes token))
              (parse_unary expr token.kind q)
              (λ x y.
                Trail-then t.1 q x.1 (λ ts. ⊥) (λ ts. Completes token ts x.0) d
                  (Trail-imp q x.1 (λ ts. Completes token ts x.0)
                    (λ us. (ts : List Token) → ⊥ → Completes token (ts ++ us) x.0)
                    (λ us g ts z. absurd z) y))
              (parse_unary-Gives token q production (After-Reads t.1 q d.after)
                (After-below t.1 q f d.after n)))

  parse_index-Gives :
      (token : Token) (p : Parser) (t : Token × Parser)
      → IsName token.kind
      → Reads p
      → TokenShown p t
      → is_kind t.0.kind token_lbracket ≡ true
      → tokens_left t.1 < f
      → Runs (Gives t.1 (Completes token)) (parse_index expr token t.0 t.1)
  unfolding parse_index
  parse_index-Gives token p t named r a h l =
      next_bind t.1 (Completes token) _ (After-Reads p t.1 a.after) λ s b.
        let K : List Token → AstExpr → Type 0 = λ ts e. Completes token (s.0 ∷ ts) e in
        Gives-bind s.1 (Expr 0) K (expr s.1 0) _
          (follows s.1 0 (After-Reads t.1 s.1 b.after) (After-below t.1 s.1 f b.after l))
          λ e d.
            let H : List Token → AstExpr → Type 0 =
              λ us x. (ts : List Token) → Expr 0 ts e.0 → K (ts ++ us) x in
            Gives-bind e.1 (Consumed token_rbracket) H (consume_or_err e.1 token_rbracket _) _
              (consume_or_err-Gives e.1 token_rbracket _ (After-Reads s.1 e.1 d))
              λ c k.
                Trail-refl c.1
                  (λ us.
                    (cs : List Token)
                    → Consumed token_rbracket cs c.0
                    → H (cs ++ us) (make_binary (make_literal token) t.0.kind e.0))
                  (After-Reads e.1 c.1 k)
                  (λ cs x ts y.
                    rw (x.0, is_kind_eq t.0.kind token_lbracket h)
                      (indexed token s.0 c.0 ts e.0 named (read_kind p t s token_lbracket a b h) y
                        x.1))

  parse_atom-Gives :
      (token : Token) (p : Parser)
      → IsName token.kind
      → Reads p
      → tokens_left p < f
      → Runs (Gives p (Completes token)) (parse_atom expr token p)
  unfolding parse_atom
  parse_atom-Gives token p named r l = peek_bind p (Completes token) _ r λ t a.
      let n = After-below p t.1 f a.after l in
      if_split (Runs (Gives t.1 (Completes token))) (is_kind t.0.kind token_lparen)
        (λ h.
          Runs-imp (Gives t.1 (Calls token)) (Gives t.1 (Completes token))
            (parse_call expr t.1 token false)
            (λ x.
              Trail-imp t.1 x.1 (λ ts. Calls token ts x.0) (λ ts. Completes token ts x.0)
                (λ ts c. Calls-Completes token ts x.0 c))
            (parse_call-Gives token p t named r a h n))
        (λ _.
          if_split (Runs (Gives t.1 (Completes token))) (is_kind t.0.kind token_lbracket)
            (λ h. parse_index-Gives token p t named r a h n)
            (λ _.
              Trail-refl t.1 (λ ts. Completes token ts (make_literal token))
                (After-Reads p t.1 a.after) (literal token (inl named))))

  pub primary_of-Gives :
      (kind : TokenKind) (token : Token) (p : Parser)
      → token.kind ≡ kind
      → Reads p
      → (kind ≡ token_eof) ⊎ (tokens_left p < f)
      → Runs (Gives p (Completes token)) (primary_of expr kind token p)
  unfolding primary_of
  primary_of-Gives token_lparen token p k r h = elim h [
    | inl e ↦ cc
    | inr l ↦ parse_group-Gives token p k r l
  ]
  primary_of-Gives token_star token p k r h = elim h [
    | inl e ↦ cc
    | inr l ↦ parse_address-Gives token p (inl k) r l
  ]
  primary_of-Gives token_ampersand token p k r h = elim h [
    | inl e ↦ cc
    | inr l ↦ parse_address-Gives token p (inr k) r l
  ]
  primary_of-Gives token_minus token p k r h = elim h [
    | inl e ↦ cc
    | inr l ↦ parse_unary-Gives token p (λ ts e x. negated token ts e k x) r l
  ]
  primary_of-Gives token_num token p k r h = elim h [
    | inl e ↦ cc
    | inr l ↦ parse_atom-Gives token p (inl k) r l
  ]
  primary_of-Gives token_identifier token p k r h = elim h [
    | inl e ↦ cc
    | inr l ↦ parse_atom-Gives token p (inr k) r l
  ]
  primary_of-Gives token_null token p k r h =
      Trail-refl p (λ ts. Completes token ts (make_literal token)) r (literal token (inr k))
  primary_of-Gives _ token p k r h =
      error_parse-Trail p "Invalid start of a primary expression" token
        (λ ts. Completes token ts expr_null) r

  pub parse_primary-Gives :
      (p : Parser) → Reads p → tokens_left p < suc f → Runs (Gives p Primary) (parse_primary expr p)
  unfolding parse_primary
  parse_primary-Gives p r l = next_bind p Primary _ r λ s b.
      primary_of-Gives s.0.kind s.0 s.1 refl (After-Reads p s.1 b.after)
        (elim (b.fewer) [ inl e ↦ inl e | inr m ↦ inr (omega arith) ])
