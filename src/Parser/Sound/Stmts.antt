-- ===== src/Parser/Sound/Stmts.antt =====
-- The trees of statements follow the grammar.
use metagen.Base.{
  ℕ, zero, suc, ◌<◌, ◌≡◌, ◌⊎◌, inl, inr, refl, sym, ap, ◌∙◌, arith, Option, none, some, List, [],
  ◌∷◌, ◌++◌, append-nil, append_assoc, if_split, Runs, Runs-imp, Runs-bind, Runs-both,
}
use metagen.Lex.Token.{
  TokenKind, token_eof, token_identifier, token_begin, token_end, token_return, token_print,
  token_break, token_continue, token_if, token_then, token_else, token_while, token_do, token_star,
  Token, is_kind,
}
use metagen.Ast.{AstStmt, stmt_null, stmt_return, stmt_break, stmt_continue, stmt_print, AstStmts}
use metagen.Ast.Make.{make_while, make_if, make_block, make_stmt_list, stmt_list_push_back}
use metagen.Parser.State.{Parser, match_token, consume_or_err, parse_fuel}
use metagen.Parser.Expr.{parse_expr_list, parse_full_expr}
use metagen.Parser.Stmt.{
  StmtParser, parse_relation, parse_while, parse_else, parse_if, block_run, parse_decls,
  parse_block, stmt_of, parse_stmt, parse_full_stmt,
}
use metagen.Parser.Runs.Tokens.{Reads, tokens_left, After-Reads, After-below, not_kind}
use metagen.Parser.Runs.Operands.{enough}
use metagen.Parser.Runs.Stmts.{StmtRead, ServesStmt, parse_stmt-Serves}
use metagen.Parser.Sound.Grammar.{Expr, Items}
use metagen.Parser.Sound.VarGrammar.{Decls}
use metagen.Parser.Sound.StmtGrammar.{
  Relation, Stmt, while_loop, branch, printed, returned, broken, continued, block, Else, no_else,
  else_branch, Stmts, first_stmt, next_stmt,
}
use metagen.Parser.Sound.Trail.{
  Trail-imp, Trail-then, Trail-refl, error_parse-Trail, Gives, Gives-bind, next_bind, peek_bind,
  read_kind, Consumed, consume_or_err-Gives, MaybeToken, match_token-Gives,
}
use metagen.Parser.Sound.Parts.{parse_expr_list-Gives}
use metagen.Parser.Sound.Exprs.{parse_full_expr-Gives}
use metagen.Parser.Sound.VarLists.{parse_decls-Gives}
use metagen.Parser.Sound.Simple.{
  parse_relation-Gives, parse_again-Gives, parse_call_or_assignment-Gives,
}

-- A statement parser whose trees follow the grammar, with fewer than `f` tokens left.
abbrev pub FollowsStmt : ℕ → StmtParser → Type 0
FollowsStmt f stmt = (p : Parser) → Reads p → tokens_left p < f → Runs (Gives p Stmt) (stmt p)

-- The tokens behind `first` that complete a statement.
abbrev Ends : Token → List Token → AstStmt → Type 0
Ends first ts s = Stmt (first ∷ ts) s

-- Statements up to the word `end`.
abbrev Closed : List Token → AstStmts → Type 0
Closed ts stmts =
    (us : List Token) × (word : Token) × (ts ≡ us ++ word ∷ [])
    × Stmts us stmts
    × (word.kind ≡ token_end)

module _ (f : ℕ) (stmt : StmtParser) (serves : ServesStmt f stmt)
    (follows : FollowsStmt f stmt) where
  parse_while-Gives :
      (token : Token) (p : Parser)
      → token.kind ≡ token_while
      → Reads p
      → tokens_left p < f
      → Runs (Gives p (Ends token)) (parse_while stmt p)
  unfolding parse_while
  parse_while-Gives token p k r l =
      Gives-bind p Relation (Ends token) (parse_relation p) _ (parse_relation-Gives p r) λ c a.
        let K : List Token → AstStmt → Type 0 =
          λ us z. (ts : List Token) → Relation ts c.0 → Ends token (ts ++ us) z in
        Gives-bind c.1 (Consumed token_do) K (consume_or_err c.1 token_do _) _
          (consume_or_err-Gives c.1 token_do _ (After-Reads p c.1 a))
          λ d b.
            let H : List Token → AstStmt → Type 0 =
              λ us z. (os : List Token) → Consumed token_do os d.0 → K (os ++ us) z in
            Gives-bind d.1 Stmt H (stmt d.1) _
              (follows d.1 (After-Reads c.1 d.1 b)
                (After-below c.1 d.1 f b (After-below p c.1 f a l)))
              λ s m.
                Trail-refl s.1
                  (λ us. (vs : List Token) → Stmt vs s.0 → H (vs ++ us) (make_while c.0 s.0))
                  (After-Reads d.1 s.1 m)
                  (λ vs x os o ts y.
                    rw (o.0, append-nil vs) (while_loop token d.0 ts vs c.0 s.0 k y o.1 x))

  parse_else-Gives :
      (p : Parser) → Reads p → tokens_left p < f → Runs (Gives p Else) (parse_else stmt p)
  unfolding parse_else
  parse_else-Gives p r l =
      Gives-bind p (MaybeToken token_else) Else (match_token p token_else) _
        (match_token-Gives p token_else r)
        λ m a.
          let u = After-Reads p m.1 a in
          let K : List Token → Option AstStmt → Type 0 =
            λ us z. (ts : List Token) → MaybeToken token_else ts m.0 → Else (ts ++ us) z in
          if_split (Runs (Gives m.1 K)) m.0
            (λ e.
              Gives-bind m.1 Stmt K (stmt m.1) _ (follows m.1 u (After-below p m.1 f a l)) λ s k.
                Trail-refl s.1 (λ us. (vs : List Token) → Stmt vs s.0 → K (vs ++ us) (some s.0))
                  (After-Reads m.1 s.1 k)
                  (λ vs x ts y.
                    let o = y.0 e in rw (o.1, append-nil vs) (else_branch o.0 vs s.0 o.2 x)))
            (λ e. Trail-refl m.1 (λ us. K us none) u (λ ts y. rw (y.1 e) no_else))

  parse_if-Gives :
      (token : Token) (p : Parser)
      → token.kind ≡ token_if
      → Reads p
      → tokens_left p < f
      → Runs (Gives p (Ends token)) (parse_if stmt p)
  unfolding parse_if
  parse_if-Gives token p k r l =
      Gives-bind p Relation (Ends token) (parse_relation p) _ (parse_relation-Gives p r) λ c a.
        let K : List Token → AstStmt → Type 0 =
          λ us z. (ts : List Token) → Relation ts c.0 → Ends token (ts ++ us) z in
        Gives-bind c.1 (Consumed token_then) K (consume_or_err c.1 token_then _) _
          (consume_or_err-Gives c.1 token_then _ (After-Reads p c.1 a))
          λ d b.
            let H : List Token → AstStmt → Type 0 =
              λ us z. (os : List Token) → Consumed token_then os d.0 → K (os ++ us) z in
            let below = After-below c.1 d.1 f b (After-below p c.1 f a l) in
            Gives-bind d.1 Stmt H (stmt d.1) _ (follows d.1 (After-Reads c.1 d.1 b) below) λ s m.
              let J : List Token → AstStmt → Type 0 =
                λ us z. (vs : List Token) → Stmt vs s.0 → H (vs ++ us) z in
              Gives-bind s.1 Else J (parse_else stmt s.1) _
                (parse_else-Gives s.1 (After-Reads d.1 s.1 m) (After-below d.1 s.1 f m below))
                λ e n.
                  Trail-refl e.1
                    (λ us. (ws : List Token) → Else ws e.0 → J (ws ++ us) (make_if c.0 s.0 e.0))
                    (After-Reads s.1 e.1 n)
                    (λ ws z vs x os o ts y.
                      rw (o.0, append-nil ws) (branch token d.0 ts vs ws c.0 s.0 e.0 k y o.1 x z))

  block_run-Gives :
      (g : ℕ) (stmts : AstStmts) (p : Parser)
      → Reads p
      → tokens_left p < f
      → tokens_left p < g
      → Runs
          (Gives p (λ us z. (ts : List Token) → Stmts ts stmts → Closed (ts ++ us) z))
          (block_run g stmt stmts p)
  unfolding block_run
  block_run-Gives zero stmts p r l m = omega arith
  block_run-Gives (suc g) stmts p r l m =
      let K : List Token → AstStmts → Type 0 =
        λ us z. (ts : List Token) → Stmts ts stmts → Closed (ts ++ us) z in
      peek_bind p K _ r λ t a.
        let u = After-Reads p t.1 a.after in
        let below = After-below p t.1 f a.after l in
        let small = After-below p t.1 (suc g) a.after m in
        if_split (Runs (Gives t.1 K)) (is_kind t.0.kind token_end)
          (λ h. next_bind t.1 K _ u λ s b.
            Trail-refl s.1 (λ us. K (s.0 ∷ us) stmts) (After-Reads t.1 s.1 b.after)
              (λ ts x. (ts, s.0, refl, x, read_kind p t s token_end a b h)))
          (λ _.
            if_split (Runs (Gives t.1 K)) (is_kind t.0.kind token_eof)
              (λ _.
                error_parse-Trail t.1 "Found EOF inside a block. Expected END" t.0
                  (λ us. K us stmts) u)
              (λ n.
                Runs-bind (λ s. Gives t.1 Stmt s × StmtRead t.1 s) (Gives t.1 K) (stmt t.1) _
                  (Runs-both (Gives t.1 Stmt) (StmtRead t.1) (stmt t.1) (follows t.1 u below)
                    (serves t.1 u below))
                  λ s b.
                    let d = b.1 in
                    let c : tokens_left s.1 < tokens_left t.1 = d.fewer a.full λ e.
                      not_kind t.0.kind token_eof n
                        (ap (λ (t : Token). t.kind) (sym a.token) ∙ e) in
                    let next = stmt_list_push_back stmts s.0 in
                    Runs-imp
                      (Gives s.1 (λ us z. (ts : List Token) → Stmts ts next → Closed (ts ++ us) z))
                      (Gives t.1 K) (block_run g stmt next s.1)
                      (λ z y.
                        Trail-then t.1 s.1 z.1 (λ ts. Stmt ts s.0) (λ ts. K ts z.0) b.0
                          (Trail-imp s.1 z.1
                            (λ us. (ts : List Token) → Stmts ts next → Closed (ts ++ us) z.0)
                            (λ us. (vs : List Token) → Stmt vs s.0 → K (vs ++ us) z.0)
                            (λ us q vs x ts w.
                              rw (← append_assoc ts vs us)
                                (q (ts ++ vs) (next_stmt ts vs stmts s.0 w x)))
                            y))
                      (block_run-Gives g next s.1 (After-Reads t.1 s.1 d.after)
                        (omega (arith, c, below)) (omega (arith, c, small)))))

  parse_block-Gives :
      (token : Token) (p : Parser)
      → token.kind ≡ token_begin
      → Reads p
      → tokens_left p < f
      → Runs (Gives p (Ends token)) (parse_block stmt p)
  unfolding parse_block
  parse_block-Gives token p k r l =
      Gives-bind p Decls (Ends token) (parse_decls p) _ (parse_decls-Gives p r) λ d a.
        let K : List Token → AstStmt → Type 0 =
          λ us z. (ts : List Token) → Decls ts d.0 → Ends token (ts ++ us) z in
        let below = After-below p d.1 f a l in
        Gives-bind d.1 Stmt K (stmt d.1) _ (follows d.1 (After-Reads p d.1 a) below) λ s b.
          let H : List Token → AstStmt → Type 0 =
            λ us z. (vs : List Token) → Stmt vs s.0 → K (vs ++ us) z in
          let Q : List Token → AstStmts → Type 0 =
            λ us z. (ts : List Token) → Stmts ts (make_stmt_list s.0) → Closed (ts ++ us) z in
          Gives-bind s.1 Q H (block_run (parse_fuel s.1) stmt (make_stmt_list s.0) s.1) _
            (block_run-Gives (parse_fuel s.1) (make_stmt_list s.0) s.1 (After-Reads d.1 s.1 b)
              (After-below d.1 s.1 f b below) (enough s.1))
            λ e m.
              Trail-refl e.1
                (λ us. (ws : List Token) → Q ws e.0 → H (ws ++ us) (make_block d.0 e.0))
                (After-Reads s.1 e.1 m)
                (λ ws q vs x ts y.
                  let n = q vs (first_stmt vs s.0 x) in
                  rw (append-nil ws, n.2) (block token n.1 ts n.0 d.0 e.0 k y n.3 n.4))

  stmt_of-Gives :
      (kind : TokenKind) (token : Token) (p : Parser)
      → token.kind ≡ kind
      → p.previous ≡ token
      → Reads p
      → (kind ≡ token_eof) ⊎ (tokens_left p < f)
      → Runs (Gives p (Ends token)) (stmt_of stmt kind token p)
  unfolding stmt_of
  stmt_of-Gives token_while token p k last r h = elim h [
    | inl e ↦ cc
    | inr l ↦ parse_while-Gives token p k r l
  ]
  stmt_of-Gives token_if token p k last r h = elim h [
    | inl e ↦ cc
    | inr l ↦ parse_if-Gives token p k r l
  ]
  stmt_of-Gives token_begin token p k last r h = elim h [
    | inl e ↦ cc
    | inr l ↦ parse_block-Gives token p k r l
  ]
  stmt_of-Gives token_print token p k last r h =
      Gives-bind p Items (Ends token) (parse_expr_list parse_full_expr p) _
        (parse_expr_list-Gives (suc (tokens_left p)) parse_full_expr
          (λ q n s _. parse_full_expr-Gives q n s) p r (omega arith))
        λ e b.
          Trail-refl e.1
            (λ us. (ts : List Token) → Items ts e.0 → Ends token (ts ++ us) (stmt_print e.0))
            (After-Reads p e.1 b) (λ ts x. rw (append-nil ts) (printed token ts e.0 k x))
  stmt_of-Gives token_return token p k last r h =
      Gives-bind p (Expr 0) (Ends token) (parse_full_expr p 0) _ (parse_full_expr-Gives p 0 r)
        λ e b.
          Trail-refl e.1
            (λ us. (ts : List Token) → Expr 0 ts e.0 → Ends token (ts ++ us) (stmt_return e.0))
            (After-Reads p e.1 b) (λ ts x. rw (append-nil ts) (returned token ts e.0 k x))
  stmt_of-Gives token_identifier token p k last r h =
      parse_call_or_assignment-Gives token p k last r
  stmt_of-Gives token_star token p k last r h =
      rw (← last) (parse_again-Gives p (inr (ap (λ (x : Token). x.kind) last ∙ k)) r)
  stmt_of-Gives token_break token p k last r h =
      Trail-refl p (λ us. Ends token us stmt_break) r (broken token k)
  stmt_of-Gives token_continue token p k last r h =
      Trail-refl p (λ us. Ends token us stmt_continue) r (continued token k)
  stmt_of-Gives _ token p k last r h =
      error_parse-Trail p "Illegal first token in statement" token (λ us. Ends token us stmt_null) r

parse_stmt-FollowsStmt : (f : ℕ) → FollowsStmt f (parse_stmt f)
unfolding parse_stmt
parse_stmt-FollowsStmt zero p r l = omega arith
parse_stmt-FollowsStmt (suc f) p r l = next_bind p Stmt _ r λ s b.
    stmt_of-Gives f (parse_stmt f) (parse_stmt-Serves f) (parse_stmt-FollowsStmt f) s.0.kind s.0 s.1
      refl b.last (After-Reads p s.1 b.after)
      (elim (b.fewer) [ inl e ↦ inl e | inr m ↦ inr (omega arith) ])

-- Parsing a statement, with no token given back and the lexer ready, returns or exits. When it returns
-- and no report was made on the way, the tokens that were taken stand for the tree by the grammar of
-- statements: a loop or branch on one comparison, `else` and its statement if there, a block with
-- its declarations and one statement at least up to `end`, and the token that `parse_stmt` reads
-- before it gives it back stands for the head of the left-hand side, once.
pub parse_full_stmt-Gives : (p : Parser) → Reads p → Runs (Gives p Stmt) (parse_full_stmt p)
parse_full_stmt-Gives p r = parse_stmt-FollowsStmt (parse_fuel p) p r (enough p)
