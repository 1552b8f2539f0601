-- ===== src/Parser/Runs/Exprs.antt =====
-- The calls of the expression parser return or exit, when the fuel exceeds the tokens left.
use metagen.Base.{
  leb, ℕ, zero, suc, ◌<◌, ◌≡◌, ◌≢◌, ◌⊎◌, inl, inr, arith, true, Option, none, some, Option-cases,
  if_split, ok, Runs, Runs-imp, Runs-bind,
}
use metagen.Lex.Token.{
  TokenKind, token_eof, token_dot, token_lparen, token_star, token_ampersand, token_minus,
  token_num, token_null, token_identifier, Token, is_kind,
}
use metagen.Ast.Make.{make_literal}
use metagen.Ast.{AstExpr}
use metagen.Parser.State.{Parser, next_token, peek_token, is_bin_op, parse_fuel, token_precedences}
use metagen.Parser.Expr.{
  ExprParser, primary_of, parse_primary, parse_operand, parse_increasing_precedence, expr_run,
  parse_expr, parse_full_expr,
}
use metagen.Parser.Runs.Tokens.{
  Reads, After, tokens_left, After-Reads, After-trans, After-left, After-below, On, On-bind,
  TokenRead, TokenShown, next_token-Runs, peek_token-Runs, error_parse-After, read_bind, shown_read,
  consume_bind,
}
use metagen.Parser.Runs.Operands.{
  Serves, done, enough, parse_group-Runs, parse_address-Runs, parse_unary-Runs, parse_atom-Runs,
}

-- Another operand was read: one token less is left.
pub record Climbed (p : Parser) (r : Option AstExpr × Parser) : Type 0 where
  pub after : After p r.1
  pub fewer : (e : AstExpr) → r.0 ≡ some e → tokens_left r.1 < tokens_left p

module _ (f : ℕ) (expr : ExprParser) (serves : Serves f expr) where
  -- On the end of the input nothing more is read.
  pub primary_of-Runs :
      (kind : TokenKind) (token : Token) (p : Parser)
      → Reads p
      → (kind ≡ token_eof) ⊎ (tokens_left p < f)
      → Runs (On p) (primary_of expr kind token p)
  unfolding primary_of
  primary_of-Runs token_lparen token p r h = elim h [
    | inl e ↦ cc
    | inr l ↦ parse_group-Runs f expr serves p r l
  ]
  primary_of-Runs token_star token p r h = elim h [
    | inl e ↦ cc
    | inr l ↦ parse_address-Runs f expr serves token.kind p r l
  ]
  primary_of-Runs token_ampersand token p r h = elim h [
    | inl e ↦ cc
    | inr l ↦ parse_address-Runs f expr serves token.kind p r l
  ]
  primary_of-Runs token_minus token p r h = elim h [
    | inl e ↦ cc
    | inr l ↦ parse_unary-Runs f expr serves token.kind p r l
  ]
  primary_of-Runs token_num token p r h = elim h [
    | inl e ↦ cc
    | inr l ↦ parse_atom-Runs f expr serves token p r l
  ]
  primary_of-Runs token_identifier token p r h = elim h [
    | inl e ↦ cc
    | inr l ↦ parse_atom-Runs f expr serves token p r l
  ]
  primary_of-Runs token_null token p r h = done p (make_literal token) r
  primary_of-Runs _ token p r h =
      error_parse-After p "Invalid start of a primary expression" token r

  parse_primary-Runs :
      (p : Parser) → Reads p → tokens_left p < suc f → Runs (On p) (parse_primary expr p)
  unfolding parse_primary
  parse_primary-Runs p r l = read_bind p _ r λ s b.
      primary_of-Runs s.0.kind s.0 s.1 (After-Reads p s.1 b.after)
        (elim (b.fewer) [ inl e ↦ inl e | inr m ↦ inr (omega arith) ])

  parse_operand-Runs :
      (op : TokenKind) (p : Parser)
      → Reads p
      → tokens_left p < f
      → Runs (On p) (parse_operand expr op p)
  unfolding parse_operand
  parse_operand-Runs op p r l =
      if_split (Runs (On p)) (is_kind op token_dot)
        (λ _.
          consume_bind p token_identifier _ _ r
            λ s b. done s.1 (make_literal s.0) (After-Reads p s.1 b))
        (λ _. serves p (token_precedences op) r l)

  pub bin_op_not_eof : (k : TokenKind) → is_bin_op k ≡ true → k ≢ token_eof
  bin_op_not_eof token_eof h e = cc
  bin_op_not_eof _ h e = cc

  pub parse_increasing_precedence-Runs :
      (p : Parser) (left : AstExpr) (precedence : ℕ)
      → Reads p
      → tokens_left p < suc f
      → Runs (Climbed p) (parse_increasing_precedence expr p left precedence)
  unfolding parse_increasing_precedence
  parse_increasing_precedence-Runs p left precedence r l =
      Runs-bind (TokenShown p) (Climbed p) (peek_token p) _ (peek_token-Runs p r) λ t a.
        let stays : Runs (Climbed p) (ok (none, t.1)) = record {
          after = a.after;
          fewer = λ e x. cc;
        } in
        if_split (Runs (Climbed p)) (is_bin_op t.0.kind)
          (λ h.
            if_split (Runs (Climbed p)) (leb (token_precedences t.0.kind) precedence) (λ _. stays)
              (λ _.
                Runs-bind (TokenRead t.1) (Climbed p) (next_token t.1) _
                  (next_token-Runs t.1 (After-Reads p t.1 a.after))
                  λ s b.
                    let c = shown_read p t s a b (bin_op_not_eof t.0.kind h) in
                    let x = After-left p t.1 a.after in
                    Runs-bind (On s.1) (Climbed p) (parse_operand expr t.0.kind s.1) _
                      (parse_operand-Runs t.0.kind s.1 (After-Reads t.1 s.1 b.after)
                        (omega (arith, c, x)))
                      λ e d.
                        let y = After-left s.1 e.1 d in
                        record {
                          after = After-trans p s.1 e.1 (After-trans p t.1 s.1 a.after b.after) d;
                          fewer = λ _ _. omega (arith, c, x, y);
                        }))
          (λ _. stays)

  pub expr_run-Runs :
      (g : ℕ) (left : AstExpr) (precedence : ℕ) (p : Parser)
      → Reads p
      → tokens_left p < suc f
      → tokens_left p < g
      → Runs (On p) (expr_run g expr left precedence p)
  unfolding expr_run
  expr_run-Runs zero left precedence p r l m = omega arith
  expr_run-Runs (suc g) left precedence p r l m =
      Runs-bind (Climbed p) (On p) (parse_increasing_precedence expr p left precedence) _
        (parse_increasing_precedence-Runs p left precedence r l)
        λ t a. elim (Option-cases t.0) [
          | inl e ↦ rw e (a.after)
          | inr e ↦
              let c = a.fewer e.0 e.1 in
              rw (e.1) (
                Runs-imp (On t.1) (On p) (expr_run g expr e.0 precedence t.1)
                  (λ x b. After-trans p t.1 x.1 a.after b)
                  (expr_run-Runs g e.0 precedence t.1 (After-Reads p t.1 a.after) (omega (arith, c))
                    (omega (arith, c))))
        ]

-- Fuel that exceeds the tokens left is enough.
pub parse_expr-Serves : (f : ℕ) → Serves f (parse_expr f)
unfolding parse_expr
parse_expr-Serves zero p precedence r l = omega arith
parse_expr-Serves (suc f) p precedence r l =
    On-bind p (parse_primary (parse_expr f) p) _
      (parse_primary-Runs f (parse_expr f) (parse_expr-Serves f) p r l)
      λ e d.
        expr_run-Runs f (parse_expr f) (parse_expr-Serves f) (parse_fuel e.1) e.0 precedence e.1
          (After-Reads p e.1 d) (After-below p e.1 (suc f) d l) (enough e.1)

pub parse_full_expr-Runs :
    (p : Parser) (precedence : ℕ) → Reads p → Runs (On p) (parse_full_expr p precedence)
parse_full_expr-Runs p precedence r = parse_expr-Serves (parse_fuel p) p precedence r (enough p)
