-- ===== src/Parser/Sound/Stops.antt =====
-- Where `parse_expr` stops (compiler/parser.c): the next token is not an operator that binds tighter than
-- the precedence asked for, since the loop ends only at such a token.
use metagen.Base.{
  ℕ, zero, suc, ◌≤◌, ◌≡◌, inl, inr, refl, sym, ap, ◌∙◌, arith, true, false, leb, Bool-cases, Option,
  none, some, Option-cases, Outcome, ok, ◌>>=◌, if_split, >>=-eq-ok,
}
use metagen.Lex.Token.{
  TokenKind, token_plus, token_minus, token_star, token_slash, token_lshift, token_rshift,
  token_dot, Token, is_kind, is_kind_eq,
}
use metagen.Lex.State.{Lexer}
use metagen.Lex.Rules.{lex_next, lex_peek}
use metagen.Ast.{AstExpr, expr_binary}
use metagen.Ast.Make.{make_binary}
use metagen.Parser.State.{Parser, token_precedences, is_bin_op, next_token, peek_token, parse_fuel}
use metagen.Parser.Expr.{
  ExprParser, parse_primary, parse_operand, parse_increasing_precedence, expr_run, parse_expr,
}

-- No operator that binds tighter than `b` comes next.
abbrev pub Bounded : ℕ → Parser → Type 0
Bounded b p =
    (t : Token × Parser)
    → peek_token p ≡ ok t
    → is_bin_op t.0.kind ≡ true
    → token_precedences t.0.kind ≤ b

ok-inj : {A : Type 0} (a b : A) (m : Outcome A) → m ≡ ok a → m ≡ ok b → a ≡ b
ok-inj a b m e k = cc

new_peek :
    (a : Lexer)
    → a.has_next ≡ false
    → lex_peek a ≡ (lex_next a >>= λ r. ok (r.0, record (r.1) { has_next = true; next = r.0 }))
unfolding lex_peek
new_peek a e = rw (e) refl

lex_peek-again : (a : Lexer) (r : Token × Lexer) → lex_peek a ≡ ok r → lex_peek r.1 ≡ ok r
unfolding lex_peek
lex_peek-again a r e = elim (Bool-cases a.has_next) [
  | inl full ↦
      let shut : lex_peek a ≡ ok (a.next, a) = rw (lex_peek, full) refl in
      let same : r ≡ (a.next, a) = ok-inj r (a.next, a) (lex_peek a) e shut in rw (same) shut
  | inr new ↦
      let shut : (lex_next a >>= λ r. ok (r.0, record (r.1) { has_next = true; next = r.0 }))
          ≡ ok r =
        rw (← new_peek a new) e in
      let (s, one, two) =
        >>=-eq-ok (lex_next a) (λ r. ok (r.0, record (r.1) { has_next = true; next = r.0 })) shut in
      let same : r ≡ (s.0, record (s.1) { has_next = true; next = s.0 }) =
        ok-inj r (s.0, record (s.1) { has_next = true; next = s.0 }) (ok r) refl (sym two) in
      rw (same) refl
]

-- What was shown is shown again.
pub peek_token-again :
    (p : Parser) (t u : Token × Parser) → peek_token p ≡ ok t → peek_token t.1 ≡ ok u → u.0 ≡ t.0
unfolding peek_token
peek_token-again p t u e k =
    let (r, one, two) = >>=-eq-ok (lex_peek p.lexer) (λ r. ok (r.0, record p { lexer = r.1 })) e in
    let is_t : t ≡ (r.0, record p { lexer = r.1 }) =
      ok-inj t (r.0, record p { lexer = r.1 }) (ok t) refl (sym two) in
    let again : peek_token t.1 ≡ ok (r.0, record p { lexer = r.1 }) =
      rw (is_t, lex_peek-again p.lexer r one) refl in
    let is_u : u ≡ (r.0, record p { lexer = r.1 }) =
      ok-inj u (r.0, record p { lexer = r.1 }) (peek_token t.1) k again in
    ap (λ (x : Token × Parser). x.0) (is_u ∙ sym is_t)

dot_tightest : (k : TokenKind) → is_bin_op k ≡ true → token_precedences k ≤ 15
dot_tightest token_plus h = omega arith
dot_tightest token_minus h = omega arith
dot_tightest token_star h = omega arith
dot_tightest token_slash h = omega arith
dot_tightest token_lshift h = omega arith
dot_tightest token_rshift h = omega arith
dot_tightest token_dot h = omega arith
dot_tightest _ h = cc

-- No operator binds tighter than the dot.
pub Bounded-dot : (p : Parser) → Bounded 15 p
Bounded-dot p t e h = dot_tightest t.0.kind h

-- The operator of an expression that `parse_increasing_precedence` has made.
abbrev pub level_of : AstExpr → ℕ
level_of (expr_binary t left op right) = token_precedences op
level_of _ = 0

-- Stopping at what binds no tighter, wherever `expr` was called with a precedence.
abbrev pub Stops : ExprParser → Type 0
Stops expr = (p : Parser) (n : ℕ) (r : AstExpr × Parser) → expr p n ≡ ok r → Bounded n r.1

at_most : (a b : ℕ) → leb a b ≡ true → a ≤ b
at_most a b h = ground arith

-- It stops where a shown token is no operator or too loose.
none_tighter :
    (p : Parser) (t : Token × Parser) (n : ℕ)
    → peek_token p ≡ ok t
    → (is_bin_op t.0.kind ≡ true → leb (token_precedences t.0.kind) n ≡ true)
    → Bounded n t.1
none_tighter p t n e loose u k h =
    let same : u.0.kind ≡ t.0.kind = ap (λ (x : Token). x.kind) (peek_token-again p t u e k) in
    rw (same) (at_most (token_precedences t.0.kind) n (loose (rw (← same) h)))

-- What one step of the loop leaves: at its end the next token is too loose, and behind a new operator
-- it binds no tighter than that.
abbrev pub Step : ℕ → Option AstExpr × Parser → Type 0
Step n r = (r.0 ≡ none → Bounded n r.1) × ((e : AstExpr) → r.0 ≡ some e → Bounded (level_of e) r.1)

operand-Bounded :
    (expr : ExprParser) (op : TokenKind) (p : Parser) (r : AstExpr × Parser)
    → Stops expr
    → is_bin_op op ≡ true
    → parse_operand expr op p ≡ ok r
    → Bounded (token_precedences op) r.1
unfolding parse_operand
operand-Bounded expr op p r stops b e = elim (Bool-cases (is_kind op token_dot)) [
  | inl dot ↦ rw (is_kind_eq op token_dot dot) (Bounded-dot r.1)
  | inr other ↦ stops p (token_precedences op) r (rw (other) at e)
]

stopped :
    (p : Parser) (t : Token × Parser) (n : ℕ) (r : Option AstExpr × Parser)
    → peek_token p ≡ ok t
    → (is_bin_op t.0.kind ≡ true → leb (token_precedences t.0.kind) n ≡ true)
    → ok (none, t.1) ≡ ok r
    → Step n r
stopped p t n r shown loose q =
    let same : r ≡ (none, t.1) = ok-inj r (none, t.1) (ok r) refl (sym q) in
    rw (same) (λ z. none_tighter p t n shown loose, λ e z. cc)

joined_Step :
    (n : ℕ) (e : AstExpr) (p : Parser) (r : Option AstExpr × Parser)
    → ok (some e, p) ≡ ok r
    → Bounded (level_of e) p
    → Step n r
joined_Step n e p r q b =
    let same : r ≡ (some e, p) = ok-inj r (some e, p) (ok r) refl (sym q) in
    rw (same) (λ z. cc, λ e' z. let is_e : e' ≡ e = cc in rw (is_e) b)

pub parse_increasing_precedence-Step :
    (expr : ExprParser) (p : Parser) (left : AstExpr) (n : ℕ) (r : Option AstExpr × Parser)
    → Stops expr
    → parse_increasing_precedence expr p left n ≡ ok r
    → Step n r
unfolding parse_increasing_precedence
parse_increasing_precedence-Step expr p left n r stops e =
    let (t, shown, then_op) = >>=-eq-ok (peek_token p) _ e in
    let Follows : Outcome (Option AstExpr × Parser) → Type 0 = λ m. m ≡ ok r → Step n r in
    if_split Follows (is_bin_op t.0.kind)
      (λ h.
        if_split Follows (leb (token_precedences t.0.kind) n)
          (λ loose q. stopped p t n r shown (λ z. loose) q)
          (λ tight q.
            let (s, taken, then_right) = >>=-eq-ok (next_token t.1) _ q in
            let (o, operand, made) = >>=-eq-ok (parse_operand expr t.0.kind s.1) _ then_right in
            joined_Step n (make_binary left t.0.kind o.0) o.1 r made
              (operand-Bounded expr t.0.kind s.1 o stops h operand)))
      (λ h q. stopped p t n r shown (λ z. cc) q) then_op

pub expr_run-Stops :
    (g : ℕ) (expr : ExprParser) (left : AstExpr) (n : ℕ) (p : Parser) (r : AstExpr × Parser)
    → Stops expr
    → expr_run g expr left n p ≡ ok r
    → Bounded n r.1
unfolding expr_run
expr_run-Stops zero expr left n p r stops e = cc
expr_run-Stops (suc g) expr left n p r stops e =
    let (t, made, last) = >>=-eq-ok (parse_increasing_precedence expr p left n) _ e in
    let step = parse_increasing_precedence-Step expr p left n t stops made in
    elim (Option-cases t.0) [
      | inl q ↦
          let done : ok (left, t.1) ≡ ok r = rw (q) at last in
          let same : r ≡ (left, t.1) = ok-inj r (left, t.1) (ok r) refl (sym done) in
          rw (same) (step.0 q)
      | inr (made_so_far, q) ↦ expr_run-Stops g expr made_so_far n t.1 r stops (rw (q) at last)
    ]

pub parse_expr-Stops : (f : ℕ) → Stops (parse_expr f)
unfolding parse_expr
parse_expr-Stops zero p n r e = cc
parse_expr-Stops (suc f) p n r e =
    let (t, made, last) = >>=-eq-ok (parse_primary (parse_expr f) p) _ e in
    expr_run-Stops (parse_fuel t.1) (parse_expr f) t.0 n t.1 r (parse_expr-Stops f) last
