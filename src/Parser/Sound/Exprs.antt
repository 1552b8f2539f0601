-- ===== src/Parser/Sound/Exprs.antt =====
-- The trees of expressions follow the grammar.
use metagen.Base.{
  ℕ, zero, suc, ◌<◌, ◌≡◌, inl, inr, refl, ap, ◌∙◌, arith, true, false, Bool-cases, Option, none,
  some, Option-cases, leb, List, [], ◌∷◌, ◌++◌, append-nil, append_assoc, if_split, Runs, Runs-imp,
  Runs-bind, Runs-both, Runs-value, ok, ◌≤◌,
}
use metagen.Lex.Token.{
  TokenKind, token_plus, token_minus, token_star, token_slash, token_lshift, token_rshift,
  token_dot, token_identifier, Token, kind_no, is_kind, is_kind_eq,
}
use metagen.Ast.{AstExpr}
use metagen.Ast.Make.{make_binary, make_literal}
use metagen.Parser.State.{Parser, token_precedences, is_bin_op, consume_or_err, parse_fuel}
use metagen.Parser.Expr.{
  ExprParser, parse_primary, parse_operand, parse_increasing_precedence, expr_run, parse_expr,
  parse_full_expr,
}
use metagen.Parser.Runs.Tokens.{
  Reads, After, tokens_left, After-Reads, After-left, After-below, shown_read,
}
use metagen.Parser.Runs.Operands.{Serves, enough}
use metagen.Parser.Runs.Exprs.{Climbed, parse_increasing_precedence-Runs, bin_op_not_eof}
use metagen.Parser.Sound.Grammar.{BindsAt, Primary, Expr, operand, binary, member}
use metagen.Parser.Sound.Trail.{
  Trail, Trail-imp, Trail-then, Trail-refl, Gives, Gives-bind, next_bind, peek_eq_bind, Consumed,
  consume_or_err-Gives,
}
use metagen.Parser.Sound.Parts.{FollowsExpr}
use metagen.Parser.Sound.Stops.{
  Bounded, Bounded-dot, level_of, Stops, parse_increasing_precedence-Step, parse_expr-Stops,
}
use metagen.Parser.Sound.Primaries.{parse_primary-Gives}

-- What stands behind a binary operator: a name behind a dot, else an expression that binds tighter.
abbrev RightOf : TokenKind → List Token → AstExpr → Type 0
RightOf op ts e =
    (is_kind op token_dot ≡ true
      → (name : Token) × (ts ≡ name ∷ [])
        × (name.kind ≡ token_identifier)
        × (e ≡ make_literal name))
    × (is_kind op token_dot ≡ false → Expr (token_precedences op) ts e)

bin_op-BindsAt :
    (k : TokenKind)
    → is_bin_op k ≡ true
    → is_kind k token_dot ≡ false
    → BindsAt k (token_precedences k)
unfolding is_kind kind_no
bin_op-BindsAt token_lshift h d = refl
bin_op-BindsAt token_rshift h d = refl
bin_op-BindsAt token_plus h d = refl
bin_op-BindsAt token_minus h d = refl
bin_op-BindsAt token_star h d = refl
bin_op-BindsAt token_slash h d = refl
bin_op-BindsAt token_dot h d = cc
bin_op-BindsAt _ h d = cc

positive : (n m : ℕ) → n < m → (k : ℕ) × (m ≡ suc k)
positive n zero l = absurd (omega (arith, l))
positive n (suc k) l = (k, refl)

tighter : (n level : ℕ) → leb level n ≡ false → n < level
tighter n level h = ground arith

-- A tree on its way: it may be the left operand of an operator that binds no tighter than `b`.
abbrev pub Left : ℕ → List Token → AstExpr → Type 0
Left b ts e = (m : ℕ) → m < b → Expr m ts e

joined :
    (n b : ℕ) (op : Token) (ts us : List Token) (left right : AstExpr)
    → is_bin_op op.kind ≡ true
    → token_precedences op.kind ≤ b
    → n < token_precedences op.kind
    → Left b ts left
    → RightOf op.kind us right
    → Expr n (ts ++ op ∷ us) (make_binary left op.kind right)
joined n b op ts us left right h le l x r = elim (Bool-cases (is_kind op.kind token_dot)) [
  | inl d ↦
      let y = r.0 d in
      let k = ap token_precedences (is_kind_eq op.kind token_dot d) in
      rw (y.1, y.3)
        (member n op y.0 ts left (x 14 (omega (arith, k, le))) (is_kind_eq op.kind token_dot d)
          (omega (arith, k, l)) y.2)
  | inr d ↦
      let (below, k) = positive n (token_precedences op.kind) l in
      binary n below op ts us left right (x below (omega (arith, k, le)))
        (rw (← k) (bin_op-BindsAt op.kind h d)) (omega (arith, k, l)) (rw (← k) (r.1 d))
]

module _ (f : ℕ) (expr : ExprParser) (follows : FollowsExpr f expr) (stops : Stops expr) where
  follows-Serves : Serves f expr
  follows-Serves p n r l =
      Runs-imp (Gives p (Expr n)) (λ t. After p t.1) (expr p n) (λ t a. a.after) (follows p n r l)

  parse_operand-Gives :
      (op : TokenKind) (p : Parser)
      → Reads p
      → tokens_left p < f
      → Runs (Gives p (RightOf op)) (parse_operand expr op p)
  unfolding parse_operand
  parse_operand-Gives op p r l =
      if_split (Runs (Gives p (RightOf op))) (is_kind op token_dot)
        (λ h.
          Gives-bind p (Consumed token_identifier) (RightOf op)
            (consume_or_err p token_identifier _) _ (consume_or_err-Gives p token_identifier _ r)
            λ s b.
              Trail-refl s.1
                (λ us.
                  (ts : List Token)
                  → Consumed token_identifier ts s.0
                  → RightOf op (ts ++ us) (make_literal s.0))
                (After-Reads p s.1 b)
                (λ ts c. (λ _. (s.0, rw (append-nil ts) (c.0), c.1, refl), λ e. cc)))
        (λ h.
          Runs-imp (Gives p (Expr (token_precedences op))) (Gives p (RightOf op))
            (expr p (token_precedences op))
            (λ x.
              Trail-imp p x.1 (λ ts. Expr (token_precedences op) ts x.0) (λ ts. RightOf op ts x.0)
                (λ ts d. (λ e. cc, λ _. d)))
            (follows p (token_precedences op) r l))

  -- The tokens `us` behind an expression `left` leave it as it is, or make the expression `o`, which may then be
  -- the left operand of an operator that binds no tighter than its own.
  abbrev Extends : ℕ → ℕ → AstExpr → List Token → Option AstExpr → Type 0
  Extends n b left us o =
      (ts : List Token)
      → Expr n ts left
      → Left b ts left
      → (o ≡ none → Expr n (ts ++ us) left)
        × ((e : AstExpr) → o ≡ some e → Expr n (ts ++ us) e × Left (level_of e) (ts ++ us) e)

  parse_increasing_precedence-Gives :
      (p : Parser) (left : AstExpr) (n b : ℕ)
      → Reads p
      → tokens_left p < suc f
      → Bounded b p
      → Runs (Gives p (Extends n b left)) (parse_increasing_precedence expr p left n)
  unfolding parse_increasing_precedence
  parse_increasing_precedence-Gives p left n b r l bound =
      peek_eq_bind p (Extends n b left) _ r λ t shown a.
        let u = After-Reads p t.1 a.after in
        let stays : Trail t.1 t.1 (λ us. Extends n b left us none) =
          Trail-refl t.1 (λ us. Extends n b left us none) u
            (λ ts x y. (λ _. rw (append-nil ts) x, λ e h. cc)) in
        if_split (Runs (Gives t.1 (Extends n b left))) (is_bin_op t.0.kind)
          (λ h.
            if_split (Runs (Gives t.1 (Extends n b left))) (leb (token_precedences t.0.kind) n)
              (λ _. stays)
              (λ k. next_bind t.1 (Extends n b left) _ u λ s c.
                let same : s.0 ≡ t.0 = c.same a.full ∙ a.token in
                let q = shown_read p t s a c (bin_op_not_eof f expr (follows-Serves) t.0.kind h) in
                let y = After-left p t.1 a.after in
                let K : List Token → Option AstExpr → Type 0 =
                  λ us o. Extends n b left (s.0 ∷ us) o in
                Gives-bind s.1 (RightOf t.0.kind) K (parse_operand expr t.0.kind s.1) _
                  (parse_operand-Gives t.0.kind s.1 (After-Reads t.1 s.1 c.after)
                    (omega (arith, q, y)))
                  λ e d.
                    Trail-refl e.1
                      (λ us.
                        (vs : List Token)
                        → RightOf t.0.kind vs e.0
                        → K (vs ++ us) (some (make_binary left t.0.kind e.0)))
                      (After-Reads s.1 e.1 d)
                      (λ vs o ts x w. (
                        λ z. cc,
                        λ z q.
                            let is_z : make_binary left t.0.kind e.0 ≡ z = cc in
                            let made : Left (token_precedences t.0.kind) (ts ++ t.0 ∷ vs)
                                (make_binary left t.0.kind e.0) =
                              λ m below.
                                joined m b t.0 ts vs left e.0 h (bound t shown h) below w o in
                            rw (append-nil vs, same, ← is_z)
                              (made n (tighter n (token_precedences t.0.kind) k), made),
                      ))))
          (λ _. stays)

  pub expr_run-Gives :
      (g : ℕ) (left : AstExpr) (n b : ℕ) (p : Parser)
      → Reads p
      → tokens_left p < suc f
      → tokens_left p < g
      → Bounded b p
      → Runs
          (Gives p
            (λ us e. (ts : List Token) → Expr n ts left → Left b ts left → Expr n (ts ++ us) e))
          (expr_run g expr left n p)
  unfolding expr_run
  expr_run-Gives zero left n b p r l m bound = omega arith
  expr_run-Gives (suc g) left n b p r l m bound =
      let K : List Token → AstExpr → Type 0 =
        λ us e. (ts : List Token) → Expr n ts left → Left b ts left → Expr n (ts ++ us) e in
      Runs-bind
        (λ t.
          (parse_increasing_precedence expr p left n ≡ ok t)
          × (Gives p (Extends n b left) t × Climbed p t))
        (Gives p K) (parse_increasing_precedence expr p left n) _
        (Runs-value (λ t. Gives p (Extends n b left) t × Climbed p t)
          (parse_increasing_precedence expr p left n)
          (Runs-both (Gives p (Extends n b left)) (Climbed p)
            (parse_increasing_precedence expr p left n)
            (parse_increasing_precedence-Gives p left n b r l bound)
            (parse_increasing_precedence-Runs f expr follows-Serves p left n r l)))
        λ t (returned, a).
          let climbed = a.1 in
          let step = parse_increasing_precedence-Step expr p left n t stops returned in
          elim (Option-cases t.0) [
            | inl e ↦ rw e (
                Trail-imp p t.1 (λ us. Extends n b left us t.0) (λ us. K us left)
                  (λ us x ts y w. (x ts y w).0 e) a.0)
            | inr e ↦
                let c = climbed.fewer e.0 e.1 in
                let H : List Token → AstExpr → Type 0 = λ us z.
                  (ts : List Token)
                  → Expr n ts e.0
                  → Left (level_of e.0) ts e.0
                  → Expr n (ts ++ us) z in
                rw (e.1) (
                  Runs-imp (Gives t.1 H) (Gives p K) (expr_run g expr e.0 n t.1)
                    (λ z y.
                      Trail-then p t.1 z.1 (λ us. Extends n b left us t.0) (λ us. K us z.0) a.0
                        (Trail-imp t.1 z.1 (λ us. H us z.0)
                          (λ us. (vs : List Token) → Extends n b left vs t.0 → K (vs ++ us) z.0)
                          (λ us q vs x ts w v.
                            let made = (x ts w v).1 e.0 e.1 in
                            rw (← append_assoc ts vs us) (q (ts ++ vs) made.0 made.1))
                          y))
                    (expr_run-Gives g e.0 n (level_of e.0) t.1 (After-Reads p t.1 climbed.after)
                      (omega (arith, c)) (omega (arith, c)) (step.1 e.0 e.1)))
          ]

pub parse_expr-FollowsExpr : (f : ℕ) → FollowsExpr f (parse_expr f)
unfolding parse_expr
parse_expr-FollowsExpr zero p n r l = omega arith
parse_expr-FollowsExpr (suc f) p n r l =
    Gives-bind p Primary (Expr n) (parse_primary (parse_expr f) p) _
      (parse_primary-Gives f (parse_expr f) (parse_expr-FollowsExpr f) p r l)
      λ e d.
        let H : List Token → AstExpr → Type 0 =
          λ us z. (ts : List Token) → Expr n ts e.0 → Left 15 ts e.0 → Expr n (ts ++ us) z in
        Runs-imp (Gives e.1 H)
          (Gives e.1 (λ us z. (ts : List Token) → Primary ts e.0 → Expr n (ts ++ us) z))
          (expr_run (parse_fuel e.1) (parse_expr f) e.0 n e.1)
          (λ z.
            Trail-imp e.1 z.1 (λ us. H us z.0)
              (λ us. (ts : List Token) → Primary ts e.0 → Expr n (ts ++ us) z.0)
              (λ us g ts x. g ts (operand n ts e.0 x) (λ m below. operand m ts e.0 x)))
          (expr_run-Gives f (parse_expr f) (parse_expr-FollowsExpr f) (parse_expr-Stops f)
            (parse_fuel e.1) e.0 n 15 e.1 (After-Reads p e.1 d) (After-below p e.1 (suc f) d l)
            (enough e.1) (Bounded-dot e.1))

-- Parsing an expression, with no token given back and the lexer ready, returns or exits. When it returns
-- and no report was made on the way, the tokens that were taken from the lexer stand for the tree by
-- the grammar, with every binary operator outside of brackets and unary operators binding tighter than
-- the precedence asked for. In the grammar products stand inside sums inside shifts, member access
-- binds tightest, and operators of one level group from the left: the left operand has no looser
-- operator outside of brackets and unary operators, and the right operand only tighter ones.
pub parse_full_expr-Gives :
    (p : Parser) (n : ℕ) → Reads p → Runs (Gives p (Expr n)) (parse_full_expr p n)
parse_full_expr-Gives p n r = parse_expr-FollowsExpr (parse_fuel p) p n r (enough p)
