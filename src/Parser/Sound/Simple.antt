-- ===== src/Parser/Sound/Simple.antt =====
-- Relations and assignments follow the grammar.
use metagen.Base.{
  ℕ, suc, ◌<◌, ◌≡◌, ◌⊎◌, inl, inr, refl, sym, ap, ◌∙◌, arith, true, false, not, ◌&&◌, ◌||◌, List,
  [], ◌∷◌, ◌++◌, length, append-nil, if_split, if◌then◌else◌, ok, Runs, Runs-imp,
}
use metagen.Lex.Token.{
  TokenKind, token_assignment, token_eq, token_neq, token_less, token_greater, token_lparen,
  token_lbracket, token_dot, token_identifier, token_star, Token, is_kind, is_kind_eq,
}
use metagen.Lex.Stream.{ends_stream}
use metagen.Ast.{AstExpr, AstStmt, stmt_null, stmt_expr}
use metagen.Ast.Make.{make_binary, make_literal, make_assignment}
use metagen.Parser.State.{Parser, next_token, is_relation_op, error_parse, parse_fuel}
use metagen.Parser.Expr.{
  primary_of, parse_primary, parse_call, expr_run, parse_expr, parse_full_expr,
}
use metagen.Parser.Stmt.{parse_relation, parse_assignment, parse_again, parse_call_or_assignment}
use metagen.Parser.Runs.Ready.{one_at_most}
use metagen.Parser.Runs.Tokens.{Reads, tokens_left, After-Reads, After-left, TokenRead}
use metagen.Parser.Runs.Operands.{enough}
use metagen.Parser.Sound.Grammar.{literal, Expr, operand}
use metagen.Parser.Sound.StmtGrammar.{IsRelation, Relation, compared, Stmt, assigned, call_stmt}
use metagen.Parser.Sound.Trail.{
  Trail, Trail-imp, Trail-refl, error_parse-Trail, Gives, Gives-bind, next_bind, peek_bind,
  next_token-Gives,
}
use metagen.Parser.Sound.Primaries.{Completes, Calls, primary_of-Gives, parse_call-Gives}
use metagen.Parser.Sound.Stops.{parse_expr-Stops, Bounded-dot}
use metagen.Parser.Sound.Exprs.{Left, expr_run-Gives, parse_expr-FollowsExpr, parse_full_expr-Gives}

is_relation_op-IsRelation : (k : TokenKind) → is_relation_op k ≡ true → IsRelation k
is_relation_op-IsRelation token_eq h = inl refl
is_relation_op-IsRelation token_neq h = inr (inl refl)
is_relation_op-IsRelation token_less h = inr (inr (inl refl))
is_relation_op-IsRelation token_greater h = inr (inr (inr refl))
is_relation_op-IsRelation _ h = cc

pub parse_relation-Gives : (p : Parser) → Reads p → Runs (Gives p Relation) (parse_relation p)
unfolding parse_relation
parse_relation-Gives p r =
    Gives-bind p (Expr 0) Relation (parse_full_expr p 0) _ (parse_full_expr-Gives p 0 r) λ e a.
      let K : List Token → AstExpr → Type 0 =
        λ us x. (ts : List Token) → Expr 0 ts e.0 → Relation (ts ++ us) x in
      peek_bind e.1 K _ (After-Reads p e.1 a) λ op b.
        let u = After-Reads e.1 op.1 b.after in
        let O : List Token → Token → Type 0 = λ ts t. (ts ≡ op.0 ∷ []) × IsRelation op.0.kind in
        Gives-bind op.1 O K
          (if is_relation_op op.0.kind
            then next_token op.1
            else ok (op.0, error_parse op.1 "Expected a relation operator" op.0))
          _
          (if_split (Runs (Gives op.1 O)) (is_relation_op op.0.kind)
            (λ h.
              Runs-imp (λ t. Trail op.1 t.1 (λ ts. ts ≡ t.0 ∷ []) × TokenRead op.1 t) (Gives op.1 O)
                (next_token op.1)
                (λ t m.
                  let c = m.1 in
                  Trail-imp op.1 t.1 (λ ts. ts ≡ t.0 ∷ []) (λ ts. O ts t.0)
                    (λ ts x. (
                      x ∙ ap (λ y. y ∷ []) (c.same b.full ∙ b.token),
                      is_relation_op-IsRelation op.0.kind h,
                    ))
                    m.0)
                (next_token-Gives op.1 u))
            (λ _. error_parse-Trail op.1 "Expected a relation operator" op.0 (λ ts. O ts op.0) u))
          λ t c.
            let H : List Token → AstExpr → Type 0 =
              λ us x. (ts : List Token) → O ts t.0 → K (ts ++ us) x in
            Gives-bind t.1 (Expr 0) H (parse_full_expr t.1 0) _
              (parse_full_expr-Gives t.1 0 (After-Reads op.1 t.1 c))
              λ x d.
                Trail-refl x.1
                  (λ us.
                    (vs : List Token)
                    → Expr 0 vs x.0
                    → H (vs ++ us) (make_binary e.0 op.0.kind x.0))
                  (After-Reads t.1 x.1 d)
                  (λ vs y os o ts z. rw (o.0, append-nil vs) (compared op.0 ts vs e.0 x.0 z o.1 y))

-- What follows the left-hand side of an assignment.
abbrev pub Assigns : AstExpr → List Token → AstStmt → Type 0
Assigns left us s =
    (first : Token) (ts : List Token)
    → (first.kind ≡ token_identifier) ⊎ (first.kind ≡ token_star)
    → Expr 0 (first ∷ ts) left
    → Stmt (first ∷ ts ++ us) s

parse_assignment-Gives :
    (p : Parser) (left : AstExpr)
    → Reads p
    → Runs (Gives p (Assigns left)) (parse_assignment p left)
unfolding parse_assignment
parse_assignment-Gives p left r = next_bind p (Assigns left) _ r λ t a.
    let u = After-Reads p t.1 a.after in
    let K : List Token → AstStmt → Type 0 = λ us s. Assigns left (t.0 ∷ us) s in
    if_split (Runs (Gives t.1 K)) (is_kind t.0.kind token_assignment)
      (λ h.
        Gives-bind t.1 (Expr 0) K (parse_full_expr t.1 0) _ (parse_full_expr-Gives t.1 0 u) λ x d.
          Trail-refl x.1
            (λ us. (vs : List Token) → Expr 0 vs x.0 → K (vs ++ us) (make_assignment left x.0))
            (After-Reads t.1 x.1 d)
            (λ vs y first ts f l.
              rw (append-nil vs)
                (assigned first t.0 ts vs left x.0 f l (is_kind_eq t.0.kind token_assignment h) y)))
      (λ _.
        error_parse-Trail t.1 "Expected assignment after expression" t.0 (λ us. K us stmt_null) u)

Trail-from : (p q r : Parser) (G : List Token → Type 0) → q ≡ p → Trail q r G → Trail p r G
Trail-from p q r G e t = rw (← e) t

-- An expression whose first token is given back by `unlex`.
parse_expr-unlex :
    (f : ℕ) (p : Parser)
    → Reads p
    → tokens_left p < f
    → Runs
        (Gives p (λ us e. Expr 0 (p.previous ∷ us) e))
        (parse_expr (suc f) (record p { unlex = true }) 0)
unfolding parse_expr parse_primary next_token
parse_expr-unlex f p r l =
    let q : Parser = record p { unlex = false } in
    let rq : Reads q = record { on = refl; ready = r.ready } in
    let K : List Token → AstExpr → Type 0 = λ us e. Expr 0 (p.previous ∷ us) e in
    Runs-imp (Gives q K) (Gives p K) (parse_expr (suc f) (record p { unlex = true }) 0)
      (λ x a. Trail-from p q x.1 (λ us. K us x.0) (ap (λ b. record p { unlex = b }) (sym r.on)) a)
      (Gives-bind q (Completes p.previous) K
        (primary_of (parse_expr f) p.previous.kind p.previous q) _
        (primary_of-Gives f (parse_expr f) (parse_expr-FollowsExpr f) p.previous.kind p.previous q
          refl rq (inr l))
        λ e d.
          let H : List Token → AstExpr → Type 0 =
            λ us z. (ts : List Token) → Expr 0 ts e.0 → Left 15 ts e.0 → Expr 0 (ts ++ us) z in
          Runs-imp (Gives e.1 H)
            (Gives e.1 (λ us z. (ts : List Token) → Completes p.previous ts e.0 → K (ts ++ us) z))
            (expr_run (parse_fuel e.1) (parse_expr f) e.0 0 e.1)
            (λ z.
              Trail-imp e.1 z.1 (λ us. H us z.0)
                (λ us. (ts : List Token) → Completes p.previous ts e.0 → K (ts ++ us) z.0)
                (λ us g ts x.
                  g (p.previous ∷ ts) (operand 0 (p.previous ∷ ts) e.0 x)
                    (λ m below. operand m (p.previous ∷ ts) e.0 x)))
            (expr_run-Gives f (parse_expr f) (parse_expr-FollowsExpr f) (parse_expr-Stops f)
              (parse_fuel e.1) e.0 0 15 e.1 (After-Reads q e.1 d)
              (let x = After-left q e.1 d in omega (arith, x)) (enough e.1) (Bounded-dot e.1)))

pub parse_again-Gives :
    (p : Parser)
    → (p.previous.kind ≡ token_identifier) ⊎ (p.previous.kind ≡ token_star)
    → Reads p
    → Runs (Gives p (λ us s. Stmt (p.previous ∷ us) s)) (parse_again p)
unfolding parse_again
parse_again-Gives p k r =
    let G : List Token → AstStmt → Type 0 = λ us s. Stmt (p.previous ∷ us) s in
    Gives-bind p (λ us e. Expr 0 (p.previous ∷ us) e) G
      (parse_full_expr (record p { unlex = true }) 0) _
      (parse_expr-unlex (suc (suc (length p.lexer.input))) p r (
        let l = p.lexer in
        let n = one_at_most (l.has_next && not (ends_stream l.next.kind)) in omega (arith, n)))
      λ e d.
        Runs-imp (Gives e.1 (Assigns e.0))
          (Gives e.1 (λ us s. (ts : List Token) → Expr 0 (p.previous ∷ ts) e.0 → G (ts ++ us) s))
          (parse_assignment e.1 e.0)
          (λ z.
            Trail-imp e.1 z.1 (λ us. Assigns e.0 us z.0)
              (λ us. (ts : List Token) → Expr 0 (p.previous ∷ ts) e.0 → G (ts ++ us) z.0)
              (λ us g ts x. g p.previous ts k x))
          (parse_assignment-Gives e.1 e.0 (After-Reads p e.1 d))

called_stmt :
    (name : Token) (ts : List Token) (e : AstExpr)
    → name.kind ≡ token_identifier
    → Calls name ts e
    → Stmt (name ∷ ts) (stmt_expr e)
called_stmt name [] e k c = absurd c
called_stmt name (t ∷ ts) e k c = call_stmt name t ts e k c.0 c.1

pub parse_call_or_assignment-Gives :
    (token : Token) (p : Parser)
    → token.kind ≡ token_identifier
    → p.previous ≡ token
    → Reads p
    → Runs (Gives p (λ us s. Stmt (token ∷ us) s)) (parse_call_or_assignment token p)
unfolding parse_call_or_assignment
parse_call_or_assignment-Gives token p k last r =
    let G : List Token → AstStmt → Type 0 = λ us s. Stmt (token ∷ us) s in
    peek_bind p G _ r λ t a.
      let u = After-Reads p t.1 a.after in
      if_split (Runs (Gives t.1 G)) (is_kind t.0.kind token_lparen)
        (λ h.
          Gives-bind t.1 (Calls token) G (parse_call parse_full_expr t.1 token false) _
            (parse_call-Gives (suc (tokens_left t.1)) parse_full_expr
              (λ q n s _. parse_full_expr-Gives q n s) token p t (inr k) r a h (omega arith))
            λ e d.
              Trail-refl e.1
                (λ us. (ts : List Token) → Calls token ts e.0 → G (ts ++ us) (stmt_expr e.0))
                (After-Reads t.1 e.1 d) (λ ts c. rw (append-nil ts) (called_stmt token ts e.0 k c)))
        (λ _. peek_bind t.1 G _ u λ s b.
          let v = After-Reads t.1 s.1 b.after in
          let first : s.1.previous ≡ token = b.kept ∙ a.kept ∙ last in
          if_split (Runs (Gives s.1 G))
            (is_kind s.0.kind token_dot || is_kind s.0.kind token_lbracket)
            (λ _.
              Runs-imp (Gives s.1 (λ us z. Stmt (s.1.previous ∷ us) z)) (Gives s.1 G)
                (parse_again s.1)
                (λ z.
                  Trail-imp s.1 z.1 (λ us. Stmt (s.1.previous ∷ us) z.0) (λ us. G us z.0)
                    (λ us x. rw (← first) x))
                (parse_again-Gives s.1 (inl (ap (λ (x : Token). x.kind) first ∙ k)) v))
            (λ _.
              Runs-imp (Gives s.1 (Assigns (make_literal token))) (Gives s.1 G)
                (parse_assignment s.1 (make_literal token))
                (λ z.
                  Trail-imp s.1 z.1 (λ us. Assigns (make_literal token) us z.0) (λ us. G us z.0)
                    (λ us g.
                      g token [] (inl k) (
                        operand 0 (token ∷ []) (make_literal token) (literal token (inl (inr k))))))
                (parse_assignment-Gives s.1 (make_literal token) v)))
