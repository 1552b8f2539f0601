-- ===== src/Parser/Runs/Stmts.antt =====
-- The calls of `parse_stmt` return or exit, when the fuel exceeds the tokens left.
use metagen.Base.{
  length, ℕ, zero, suc, ◌<◌, ◌≡◌, ◌≢◌, ◌∙◌, sym, ap, ◌⊎◌, inl, inr, refl, arith, true, false, not,
  ◌&&◌, ◌||◌, if_split, Runs, Runs-imp, Runs-bind,
}
use metagen.Lex.Token.{
  TokenKind, token_lparen, token_lbracket, token_dot, token_eof, token_identifier, token_begin,
  token_end, token_return, token_print, token_break, token_continue, token_if, token_then,
  token_else, token_while, token_do, token_star, Token, is_kind,
}
use metagen.Ast.{AstStmt, AstStmts}
use metagen.Ast.Make.{make_literal, make_stmt_list, stmt_list_push_back}
use metagen.Lex.Stream.{ends_stream}
use metagen.Parser.Runs.Ready.{one_at_most}
use metagen.Parser.State.{Parser, next_token, parse_fuel}
use metagen.Parser.Expr.{
  primary_of, parse_primary, parse_expr, parse_expr_list, parse_call, parse_full_expr,
}
use metagen.Parser.Stmt.{
  StmtParser, parse_relation, parse_while, parse_else, parse_if, block_run, parse_decls,
  parse_block, parse_again, parse_call_or_assignment, stmt_of, parse_stmt, parse_full_stmt,
}
use metagen.Parser.Runs.Tokens.{
  Reads, After, tokens_left, After-Reads, After-refl, After-trans, After-left, After-below, On,
  On-bind, TokenRead, next_token-Runs, error_parse-After, shown_bind, read_bind, not_kind,
  match_bind, consume_bind,
}
use metagen.Parser.Runs.Operands.{enough, parse_expr_list-Runs, parse_call-Runs}
use metagen.Parser.Runs.Exprs.{
  primary_of-Runs, expr_run-Runs, parse_expr-Serves, parse_full_expr-Runs,
}
use metagen.Parser.Runs.Parts.{parse_relation-Runs, parse_decls-Runs, parse_assignment-Runs}

-- A statement read, or the end of the input met: one token less is left when one was shown that is
-- not the end.
pub record StmtRead (p : Parser) (r : AstStmt × Parser) : Type 0 where
  pub after : After p r.1
  pub fewer :
      p.lexer.has_next ≡ true → p.lexer.next.kind ≢ token_eof → tokens_left r.1 < tokens_left p

-- A statement parser that serves every parser with fewer than `f` tokens left.
abbrev pub ServesStmt : ℕ → StmtParser → Type 0
ServesStmt f stmt = (p : Parser) → Reads p → tokens_left p < f → Runs (StmtRead p) (stmt p)

-- The parser behind the token that `unlex` gives back.
abbrev unlexed : Parser → Parser
unlexed p = record p { unlex = false }

-- An expression whose first token is given back by `unlex`.
parse_expr-unlex :
    (f : ℕ) (p : Parser)
    → Reads p
    → tokens_left p < f
    → Runs (On p) (parse_expr (suc f) (record p { unlex = true }) 0)
unfolding parse_expr parse_primary next_token
parse_expr-unlex f p r l =
    let q = unlexed p in
    let rq : Reads q = record { on = refl; ready = r.ready } in
    Runs-imp (On q) (On p) (parse_expr (suc f) (record p { unlex = true }) 0)
      (λ x a. record { on = a.on; later = a.later })
      (On-bind q (primary_of (parse_expr f) p.previous.kind p.previous q) _
        (primary_of-Runs f (parse_expr f) (parse_expr-Serves f) p.previous.kind p.previous q rq
          (inr l))
        λ e d.
          expr_run-Runs f (parse_expr f) (parse_expr-Serves f) (parse_fuel e.1) e.0 0 e.1
            (After-Reads q e.1 d) (let x = After-left q e.1 d in omega (arith, x)) (enough e.1))

parse_again-Runs : (p : Parser) → Reads p → Runs (On p) (parse_again p)
unfolding parse_again
parse_again-Runs p r =
    On-bind p (parse_full_expr (record p { unlex = true }) 0) _
      (parse_expr-unlex (suc (suc (length p.lexer.input))) p r (
        let l = p.lexer in
        let n = one_at_most (l.has_next && not (ends_stream l.next.kind)) in omega (arith, n)))
      λ e d. parse_assignment-Runs e.1 e.0 (After-Reads p e.1 d)

parse_call_or_assignment-Runs :
    (token : Token) (p : Parser) → Reads p → Runs (On p) (parse_call_or_assignment token p)
unfolding parse_call_or_assignment
parse_call_or_assignment-Runs token p r = shown_bind p _ r λ t a.
    let u = After-Reads p t.1 a.after in
    if_split (Runs (On t.1)) (is_kind t.0.kind token_lparen)
      (λ _.
        On-bind t.1 (parse_call parse_full_expr t.1 token false) _
          (parse_call-Runs (suc (tokens_left t.1)) parse_full_expr
            (λ q n s _. parse_full_expr-Runs q n s) t.1 token false u (omega arith))
          λ e b. After-refl e.1 (After-Reads t.1 e.1 b))
      (λ _. shown_bind t.1 _ u λ s b.
        let v = After-Reads t.1 s.1 b.after in
        if_split (Runs (On s.1)) (is_kind s.0.kind token_dot || is_kind s.0.kind token_lbracket)
          (λ _. parse_again-Runs s.1 v) (λ _. parse_assignment-Runs s.1 (make_literal token) v))

module _ (f : ℕ) (stmt : StmtParser) (serves : ServesStmt f stmt) where
  stmt-Runs : (p : Parser) → Reads p → tokens_left p < f → Runs (On p) (stmt p)
  stmt-Runs p r l = Runs-imp (StmtRead p) (On p) (stmt p) (λ x a. a.after) (serves p r l)

  parse_while-Runs : (p : Parser) → Reads p → tokens_left p < f → Runs (On p) (parse_while stmt p)
  unfolding parse_while
  parse_while-Runs p r l = On-bind p (parse_relation p) _ (parse_relation-Runs p r) λ c a.
      consume_bind c.1 token_do _ _ (After-Reads p c.1 a) λ d b.
        On-bind d.1 (stmt d.1) _
          (stmt-Runs d.1 (After-Reads c.1 d.1 b)
            (After-below c.1 d.1 f b (After-below p c.1 f a l)))
          λ s k. After-refl s.1 (After-Reads d.1 s.1 k)

  parse_else-Runs : (p : Parser) → Reads p → tokens_left p < f → Runs (On p) (parse_else stmt p)
  unfolding parse_else
  parse_else-Runs p r l = match_bind p token_else _ r λ m a.
      let u = After-Reads p m.1 a.after in
      if_split (Runs (On m.1)) m.0
        (λ _.
          On-bind m.1 (stmt m.1) _ (stmt-Runs m.1 u (After-below p m.1 f a.after l))
            λ s k. After-refl s.1 (After-Reads m.1 s.1 k))
        (λ _. After-refl m.1 u)

  parse_if-Runs : (p : Parser) → Reads p → tokens_left p < f → Runs (On p) (parse_if stmt p)
  unfolding parse_if
  parse_if-Runs p r l = On-bind p (parse_relation p) _ (parse_relation-Runs p r) λ c a.
      consume_bind c.1 token_then _ _ (After-Reads p c.1 a) λ d b.
        let below = After-below c.1 d.1 f b (After-below p c.1 f a l) in
        On-bind d.1 (stmt d.1) _ (stmt-Runs d.1 (After-Reads c.1 d.1 b) below) λ s k.
          On-bind s.1 (parse_else stmt s.1) _
            (parse_else-Runs s.1 (After-Reads d.1 s.1 k) (After-below d.1 s.1 f k below))
            λ e m. After-refl e.1 (After-Reads s.1 e.1 m)

  -- Every round reads a token, since the loop stops at the end of the input.
  block_run-Runs :
      (g : ℕ) (stmts : AstStmts) (p : Parser)
      → Reads p
      → tokens_left p < f
      → tokens_left p < g
      → Runs (On p) (block_run g stmt stmts p)
  unfolding block_run
  block_run-Runs zero stmts p r l m = omega arith
  block_run-Runs (suc g) stmts p r l m = shown_bind p _ r λ t a.
      let u = After-Reads p t.1 a.after in
      let below = After-below p t.1 f a.after l in
      let small = After-below p t.1 (suc g) a.after m in
      if_split (Runs (On t.1)) (is_kind t.0.kind token_end)
        (λ _. read_bind t.1 _ u λ s b. After-refl s.1 (After-Reads t.1 s.1 b.after))
        (λ _.
          if_split (Runs (On t.1)) (is_kind t.0.kind token_eof)
            (λ _. error_parse-After t.1 "Found EOF inside a block. Expected END" t.0 u)
            (λ n. Runs-bind (StmtRead t.1) (On t.1) (stmt t.1) _ (serves t.1 u below) λ s b.
              let c : tokens_left s.1 < tokens_left t.1 =
                b.fewer a.full λ e.
                  not_kind t.0.kind token_eof n (ap (λ (t : Token). t.kind) (sym a.token) ∙ e) in
              Runs-imp (On s.1) (On t.1) (block_run g stmt (stmt_list_push_back stmts s.0) s.1)
                (λ x d. After-trans t.1 s.1 x.1 b.after d)
                (block_run-Runs g (stmt_list_push_back stmts s.0) s.1 (After-Reads t.1 s.1 b.after)
                  (omega (arith, c, below)) (omega (arith, c, small)))))

  parse_block-Runs : (p : Parser) → Reads p → tokens_left p < f → Runs (On p) (parse_block stmt p)
  unfolding parse_block
  parse_block-Runs p r l = On-bind p (parse_decls p) _ (parse_decls-Runs p r) λ d a.
      let below = After-below p d.1 f a l in
      On-bind d.1 (stmt d.1) _ (stmt-Runs d.1 (After-Reads p d.1 a) below) λ s b.
        let v = After-Reads d.1 s.1 b in
        On-bind s.1 (block_run (parse_fuel s.1) stmt (make_stmt_list s.0) s.1) _
          (block_run-Runs (parse_fuel s.1) (make_stmt_list s.0) s.1 v
            (After-below d.1 s.1 f b below) (enough s.1))
          λ e k. After-refl e.1 (After-Reads s.1 e.1 k)

  -- On the end of the input nothing more is read.
  stmt_of-Runs :
      (kind : TokenKind) (token : Token) (p : Parser)
      → Reads p
      → (kind ≡ token_eof) ⊎ (tokens_left p < f)
      → Runs (On p) (stmt_of stmt kind token p)
  unfolding stmt_of
  stmt_of-Runs token_while token p r h = elim h [ inl e ↦ cc | inr l ↦ parse_while-Runs p r l ]
  stmt_of-Runs token_if token p r h = elim h [ inl e ↦ cc | inr l ↦ parse_if-Runs p r l ]
  stmt_of-Runs token_begin token p r h = elim h [ inl e ↦ cc | inr l ↦ parse_block-Runs p r l ]
  stmt_of-Runs token_print token p r h =
      On-bind p (parse_expr_list parse_full_expr p) _
        (parse_expr_list-Runs (suc (tokens_left p)) parse_full_expr
          (λ q n s _. parse_full_expr-Runs q n s) p r (omega arith))
        λ e b. After-refl e.1 (After-Reads p e.1 b)
  stmt_of-Runs token_return token p r h =
      On-bind p (parse_full_expr p 0) _ (parse_full_expr-Runs p 0 r)
        λ e b. After-refl e.1 (After-Reads p e.1 b)
  stmt_of-Runs token_identifier token p r h = parse_call_or_assignment-Runs token p r
  stmt_of-Runs token_star token p r h = parse_again-Runs p r
  stmt_of-Runs token_break token p r h = After-refl p r
  stmt_of-Runs token_continue token p r h = After-refl p r
  stmt_of-Runs _ token p r h = error_parse-After p "Illegal first token in statement" token r

-- Fuel that exceeds the tokens left is enough.
pub parse_stmt-Serves : (f : ℕ) → ServesStmt f (parse_stmt f)
unfolding parse_stmt
parse_stmt-Serves zero p r l = omega arith
parse_stmt-Serves (suc f) p r l =
    Runs-bind (TokenRead p) (StmtRead p) (next_token p) _ (next_token-Runs p r) λ s b.
      Runs-imp (On s.1) (StmtRead p) (stmt_of (parse_stmt f) s.0.kind s.0 s.1)
        (λ x d. record {
          after = After-trans p s.1 x.1 b.after d;
          fewer = λ h n. elim (b.fewer) [
            | inl e ↦ absurd (n (ap (λ (t : Token). t.kind) (sym (b.same h)) ∙ e))
            | inr m ↦ let y = After-left s.1 x.1 d in omega (arith, m, y)
          ];
        })
        (stmt_of-Runs f (parse_stmt f) (parse_stmt-Serves f) s.0.kind s.0 s.1
          (After-Reads p s.1 b.after)
          (elim (b.fewer) [ inl e ↦ inl e | inr m ↦ inr (omega arith) ]))

pub parse_full_stmt-Runs : (p : Parser) → Reads p → Runs (On p) (parse_full_stmt p)
parse_full_stmt-Runs p r =
    Runs-imp (StmtRead p) (On p) (parse_full_stmt p) (λ x a. a.after)
      (parse_stmt-Serves (parse_fuel p) p r (enough p))
