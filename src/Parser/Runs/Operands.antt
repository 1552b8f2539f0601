-- ===== src/Parser/Runs/Operands.antt =====
-- The parts of an expression between brackets and commas, and behind unary operators: their calls return
-- or exit, when the expression parser serves every parser with fewer than `f` tokens left.
use metagen.Base.{
  ℕ, zero, suc, ◌<◌, ◌≡◌, not, ◌&&◌, arith, Bool, true, false, if_split, ok, Runs, Runs-imp,
}
use metagen.Lex.Token.{
  TokenKind, token_str, token_comma, token_lparen, token_lbracket, token_rparen, token_rbracket,
  token_identifier, Token, is_kind,
}
use metagen.Ast.Make.{
  make_literal, make_list, make_call, make_unary, make_binary, ast_list_push_back,
}
use metagen.Ast.{AstExprs, nil}
use metagen.Lex.Stream.{ends_stream}
use metagen.Parser.Runs.Ready.{one_at_most}
use metagen.Parser.State.{error_parse, Parser, parse_fuel}
use metagen.Parser.Expr.{
  ExprParser, parse_item, list_run, parse_expr_list, parse_args, parse_call, parse_group,
  parse_unary, parse_address, parse_index, parse_atom,
}
use metagen.Parser.Runs.Tokens.{
  Reads, tokens_left, After-Reads, After-refl, After-trans, After-left, After-below, On, On-bind,
  TokenShown, error_parse-After, shown_bind, read_bind, shown_read, kind_not_eof, match_bind,
  consume_bind,
}

-- An expression parser that serves every parser with fewer than `f` tokens left.
abbrev pub Serves : ℕ → ExprParser → Type 0
Serves f expr =
    (p : Parser) (precedence : ℕ) → Reads p → tokens_left p < f → Runs (On p) (expr p precedence)

-- A value returned where the parser stands.
pub done {ℓ} : {A : Type ℓ} (p : Parser) (x : A) → Reads p → Runs (On p) (ok (x, p))
done p x r = After-refl p r

-- The fuel of a loop exceeds the tokens left.
pub enough : (p : Parser) → tokens_left p < parse_fuel p
enough p =
    let l = p.lexer in
    let n = one_at_most (l.has_next && not (ends_stream l.next.kind)) in omega (arith, n)

module _ (f : ℕ) (expr : ExprParser) (serves : Serves f expr) where
  parse_item-Runs : (p : Parser) → Reads p → tokens_left p < f → Runs (On p) (parse_item expr p)
  unfolding parse_item
  parse_item-Runs p r l = shown_bind p _ r λ t a.
      let u = After-Reads p t.1 a.after in
      if_split (Runs (On t.1)) (is_kind t.0.kind token_str)
        (λ h. read_bind t.1 _ u λ s b. done s.1 (make_literal s.0) (After-Reads t.1 s.1 b.after))
        (λ h. serves t.1 0 u (let x = After-left p t.1 a.after in omega (arith, x)))

  list_run-Runs :
      (g : ℕ) (list : AstExprs) (p : Parser) (t : Token × Parser)
      → Reads p
      → TokenShown p t
      → is_kind t.0.kind token_comma ≡ true
      → tokens_left t.1 < f
      → tokens_left t.1 < g
      → Runs (On t.1) (list_run g expr list t.1)
  unfolding list_run
  list_run-Runs zero list p t r a h l m = omega arith
  list_run-Runs (suc g) list p t r a h l m = read_bind t.1 _ (After-Reads p t.1 a.after) λ s b.
      let c = shown_read p t s a b (kind_not_eof t.0.kind token_comma h (λ e. cc)) in
      let v = After-Reads t.1 s.1 b.after in
      On-bind s.1 (parse_item expr s.1) _ (parse_item-Runs s.1 v (omega (arith, c))) λ e d.
        let w = After-Reads s.1 e.1 d in
        shown_bind e.1 _ w λ n k.
          let x = After-left s.1 e.1 d in
          let y = After-left e.1 n.1 k.after in
          if_split (Runs (On n.1)) (is_kind n.0.kind token_comma)
            (λ more.
              list_run-Runs g (ast_list_push_back list e.0) e.1 n w k more (omega (arith, c, x, y))
                (omega (arith, c, x, y)))
            (λ _. done n.1 (ast_list_push_back list e.0) (After-Reads e.1 n.1 k.after))

  pub parse_expr_list-Runs :
      (p : Parser) → Reads p → tokens_left p < f → Runs (On p) (parse_expr_list expr p)
  unfolding parse_expr_list
  parse_expr_list-Runs p r l = On-bind p (parse_item expr p) _ (parse_item-Runs p r l) λ e d.
      let w = After-Reads p e.1 d in
      shown_bind e.1 _ w λ n k.
        if_split (Runs (On n.1)) (is_kind n.0.kind token_comma)
          (λ more.
            list_run-Runs (parse_fuel n.1) (make_list e.0) e.1 n w k more
              (After-below e.1 n.1 f k.after (After-below p e.1 f d l)) (enough n.1))
          (λ _. done n.1 (make_list e.0) (After-Reads e.1 n.1 k.after))

  parse_args-Runs :
      (identifier : Token) (is_comptime : Bool) (p : Parser)
      → Reads p
      → tokens_left p < f
      → Runs (On p) (parse_args expr identifier is_comptime p)
  unfolding parse_args
  parse_args-Runs identifier is_comptime p r l =
      On-bind p (parse_expr_list expr p) _ (parse_expr_list-Runs p r l) λ e d.
        consume_bind e.1 token_rparen _ _ (After-Reads p e.1 d)
          λ s b. done s.1 (make_call is_comptime identifier.lexeme e.0) (After-Reads e.1 s.1 b)

  pub parse_call-Runs :
      (p : Parser) (identifier : Token) (is_comptime : Bool)
      → Reads p
      → tokens_left p < f
      → Runs (On p) (parse_call expr p identifier is_comptime)
  unfolding parse_call
  parse_call-Runs p identifier is_comptime r l = read_bind p _ r λ s b.
      let v = After-Reads p s.1 b.after in
      match_bind s.1 token_rparen _ v λ m k.
        let w = After-Reads s.1 m.1 k.after in
        if_split (Runs (On m.1)) m.0 (λ _. done m.1 (make_call is_comptime identifier.lexeme nil) w)
          (λ _.
            parse_args-Runs identifier is_comptime m.1 w
              (After-below s.1 m.1 f k.after (After-below p s.1 f b.after l)))

  pub parse_group-Runs :
      (p : Parser) → Reads p → tokens_left p < f → Runs (On p) (parse_group expr p)
  unfolding parse_group
  parse_group-Runs p r l = On-bind p (expr p 0) _ (serves p 0 r l) λ e d.
      consume_bind e.1 token_rparen _ _ (After-Reads p e.1 d)
        λ s b. done s.1 e.0 (After-Reads e.1 s.1 b)

  pub parse_unary-Runs :
      (op : TokenKind) (p : Parser)
      → Reads p
      → tokens_left p < f
      → Runs (On p) (parse_unary expr op p)
  unfolding parse_unary
  parse_unary-Runs op p r l =
      On-bind p (expr p 0) _ (serves p 0 r l)
        λ e d. done e.1 (make_unary e.0 op) (After-Reads p e.1 d)

  pub parse_address-Runs :
      (op : TokenKind) (p : Parser)
      → Reads p
      → tokens_left p < f
      → Runs (On p) (parse_address expr op p)
  unfolding parse_address
  parse_address-Runs op p r l = shown_bind p _ r λ t a.
      let u = After-Reads p t.1 a.after in
      let n = After-below p t.1 f a.after l in
      if_split (λ q. Runs (On t.1) (parse_unary expr op q)) (is_kind t.0.kind token_identifier)
        (λ _. parse_unary-Runs op t.1 u n)
        (λ _.
          let d = error_parse-After t.1 "RHS of unary * or & must start with an identifier" t.0 u in
          let q = error_parse t.1 "RHS of unary * or & must start with an identifier" t.0 in
          Runs-imp (On q) (On t.1) (parse_unary expr op q) (λ x b. After-trans t.1 q x.1 d b)
            (parse_unary-Runs op q (After-Reads t.1 q d) (After-below t.1 q f d n)))

  parse_index-Runs :
      (token next : Token) (p : Parser)
      → Reads p
      → tokens_left p < f
      → Runs (On p) (parse_index expr token next p)
  unfolding parse_index
  parse_index-Runs token next p r l = read_bind p _ r λ s b.
      On-bind s.1 (expr s.1 0) _
        (serves s.1 0 (After-Reads p s.1 b.after) (After-below p s.1 f b.after l))
        λ e d.
          consume_bind e.1 token_rbracket _ _ (After-Reads s.1 e.1 d)
            λ c k. done c.1 (make_binary (make_literal token) next.kind e.0) (After-Reads e.1 c.1 k)

  pub parse_atom-Runs :
      (token : Token) (p : Parser)
      → Reads p
      → tokens_left p < f
      → Runs (On p) (parse_atom expr token p)
  unfolding parse_atom
  parse_atom-Runs token p r l = shown_bind p _ r λ t a.
      let u = After-Reads p t.1 a.after in
      let n = After-below p t.1 f a.after l in
      if_split (Runs (On t.1)) (is_kind t.0.kind token_lparen)
        (λ _. parse_call-Runs t.1 token false u n)
        (λ _.
          if_split (Runs (On t.1)) (is_kind t.0.kind token_lbracket)
            (λ _. parse_index-Runs token t.0 t.1 u n) (λ _. done t.1 (make_literal token) u))
