-- ===== src/Parser/Runs/Parts.antt =====
-- The functions of the statement parser that do not call `parse_stmt` return or exit.
use metagen.Base.{
  ℕ, zero, suc, ◌+◌, ◌<◌, inl, inr, arith, Bool, true, false, Bool-cases, List, ◌++◌, if◌then◌else◌,
  if_split, ok, Runs, Runs-imp,
}
use metagen.Lex.Token.{
  token_num, token_colon, token_assignment, token_lbracket, token_rbracket, token_comma,
  token_caret, token_identifier, token_var, Token, is_kind,
}
use metagen.Str.{str_view_to_u32}
use metagen.Ast.{TypedIdent, AstExpr}
use metagen.Parser.State.{Parser, next_token, is_relation_op, error_parse, parse_fuel}
use metagen.Parser.Expr.{parse_full_expr}
use metagen.Parser.Stmt.{
  caret_run, parse_elements, parse_array, parse_type, parse_type_if, variable_run,
  parse_variable_list, decl_run, parse_local_decl_list, parse_relation, parse_decls,
  parse_assignment,
}
use metagen.Parser.Runs.Tokens.{
  Reads, After, tokens_left, After-Reads, After-refl, After-left, After-below, On, On-bind,
  TokenRead, next_token-Runs, error_parse-After, shown_bind, read_bind, shown_read, kind_not_eof,
  match_bind, consume_bind,
}
use metagen.Parser.Runs.Operands.{enough, done}
use metagen.Parser.Runs.Exprs.{parse_full_expr-Runs}

caret_run-Runs :
    (g n : ℕ) (p : Parser) → Reads p → tokens_left p < g → Runs (On p) (caret_run g n p)
unfolding caret_run
caret_run-Runs zero n p r l = omega arith
caret_run-Runs (suc g) n p r l = match_bind p token_caret _ r λ t a. elim (Bool-cases t.0) [
  | inl e ↦
      let c = a.fewer e (λ x. cc) in
      rw e (caret_run-Runs g (n + 1) t.1 (After-Reads p t.1 a.after) (omega (arith, c)))
  | inr e ↦ rw e (done t.1 n (After-Reads p t.1 a.after))
]

parse_elements-Runs : (p : Parser) → Reads p → Runs (On p) (parse_elements p)
unfolding parse_elements
parse_elements-Runs p r = shown_bind p _ r λ t a.
    let u = After-Reads p t.1 a.after in
    if_split (Runs (On t.1)) (is_kind t.0.kind token_num)
      (λ _. read_bind t.1 _ u λ s b.
        let v = After-Reads t.1 s.1 b.after in
        if_split (After s.1) (str_view_to_u32 t.0.lexeme).1 (λ _. After-refl s.1 v)
          (λ _. error_parse-After s.1 "Could not be parsed as a u32" t.0 v))
      (λ _. After-refl t.1 u)

parse_array-Runs :
    (allow : Bool) (name : Token) (n : ℕ) (p : Parser)
    → Reads p
    → Runs (On p) (parse_array allow name n p)
unfolding parse_array
parse_array-Runs true name n p r = On-bind p (parse_elements p) _ (parse_elements-Runs p r) λ e a.
    consume_bind e.1 token_rbracket _ _ (After-Reads p e.1 a)
      λ s b. After-refl s.1 (After-Reads e.1 s.1 b)
parse_array-Runs false name n p r =
    consume_bind p token_rbracket _ _ r λ s b. After-refl s.1 (After-Reads p s.1 b)

pub parse_type-Runs : (p : Parser) (allow : Bool) → Reads p → Runs (On p) (parse_type p allow)
unfolding parse_type
parse_type-Runs p allow r = consume_bind p token_colon _ _ r λ c a.
    On-bind c.1 (caret_run (parse_fuel c.1) 0 c.1) _
      (caret_run-Runs (parse_fuel c.1) 0 c.1 (After-Reads p c.1 a) (enough c.1))
      λ n b. consume_bind n.1 token_identifier _ _ (After-Reads c.1 n.1 b) λ name d.
        match_bind name.1 token_lbracket _ (After-Reads n.1 name.1 d) λ m k.
          let u = After-Reads name.1 m.1 k.after in
          if_split (Runs (On m.1)) m.0 (λ _. parse_array-Runs allow name.0 n.0 m.1 u)
            (λ _. After-refl m.1 u)

parse_type_if-Runs :
    (typed allow : Bool) (p : Parser) → Reads p → Runs (On p) (parse_type_if typed allow p)
unfolding parse_type_if
parse_type_if-Runs true allow p r = parse_type-Runs p allow r
parse_type_if-Runs false allow p r = After-refl p r

variable_run-Runs :
    (g : ℕ) (allow typed : Bool) (p : Parser)
    → Reads p
    → tokens_left p < g
    → Runs (On p) (variable_run g allow typed p)
unfolding variable_run
variable_run-Runs zero allow typed p r l = omega arith
variable_run-Runs (suc g) allow typed p r l = consume_bind p token_identifier _ _ r λ i a.
    On-bind i.1 (parse_type_if typed allow i.1) _
      (parse_type_if-Runs typed allow i.1 (After-Reads p i.1 a))
      λ t b. shown_bind t.1 _ (After-Reads i.1 t.1 b) λ n k.
        let u = After-Reads t.1 n.1 k.after in
        if_split (Runs (On n.1)) (is_kind n.0.kind token_comma)
          (λ h. read_bind n.1 _ u λ s m.
            let c = shown_read t.1 n s k m (kind_not_eof n.0.kind token_comma h (λ e. cc)) in
            let below =
              After-below t.1 n.1 (suc g) k.after
                (After-below i.1 t.1 (suc g) b (After-below p i.1 (suc g) a l)) in
            let v = After-Reads n.1 s.1 m.after in
            On-bind s.1 (variable_run g allow typed s.1) _
              (variable_run-Runs g allow typed s.1 v (omega (arith, c, below)))
              λ rest d. After-refl rest.1 (After-Reads s.1 rest.1 d))
          (λ _. After-refl n.1 u)

pub parse_variable_list-Runs :
    (p : Parser) (allow typed : Bool) → Reads p → Runs (On p) (parse_variable_list p allow typed)
unfolding parse_variable_list
parse_variable_list-Runs p allow typed r =
    variable_run-Runs (parse_fuel p) allow typed p r (enough p)

decl_run-Runs :
    (g : ℕ) (identifiers : List TypedIdent) (p : Parser)
    → Reads p
    → tokens_left p < g
    → Runs (On p) (decl_run g identifiers p)
unfolding decl_run
decl_run-Runs zero identifiers p r l = omega arith
decl_run-Runs (suc g) identifiers p r l = match_bind p token_var _ r λ t a.
    let u = After-Reads p t.1 a.after in
    if_split (Runs (On t.1)) t.0
      (λ e.
        let c = a.fewer e (λ x. cc) in
        On-bind t.1 (parse_variable_list t.1 false true) _
          (parse_variable_list-Runs t.1 false true u)
          λ v b.
            let x = After-left t.1 v.1 b in
            decl_run-Runs g (identifiers ++ v.0) v.1 (After-Reads t.1 v.1 b) (omega (arith, c, x)))
      (λ _. After-refl t.1 u)

parse_local_decl_list-Runs : (p : Parser) → Reads p → Runs (On p) (parse_local_decl_list p)
unfolding parse_local_decl_list
parse_local_decl_list-Runs p r =
    On-bind p (parse_variable_list p false true) _ (parse_variable_list-Runs p false true r)
      λ v b. decl_run-Runs (parse_fuel v.1) v.0 v.1 (After-Reads p v.1 b) (enough v.1)

pub parse_decls-Runs : (p : Parser) → Reads p → Runs (On p) (parse_decls p)
unfolding parse_decls
parse_decls-Runs p r = match_bind p token_var _ r λ t a.
    let u = After-Reads p t.1 a.after in
    if_split (Runs (On t.1)) t.0 (λ _. parse_local_decl_list-Runs t.1 u) (λ _. After-refl t.1 u)

pub parse_relation-Runs : (p : Parser) → Reads p → Runs (On p) (parse_relation p)
unfolding parse_relation
parse_relation-Runs p r = On-bind p (parse_full_expr p 0) _ (parse_full_expr-Runs p 0 r) λ e a.
    shown_bind e.1 _ (After-Reads p e.1 a) λ op b.
      let u = After-Reads e.1 op.1 b.after in
      On-bind op.1
        (if is_relation_op op.0.kind
          then next_token op.1
          else ok (op.0, error_parse op.1 "Expected a relation operator" op.0))
        _
        (if_split (Runs (On op.1)) (is_relation_op op.0.kind)
          (λ _.
            Runs-imp (TokenRead op.1) (On op.1) (next_token op.1) (λ x y. y.after)
              (next_token-Runs op.1 u))
          (λ _. error_parse-After op.1 "Expected a relation operator" op.0 u))
        λ t c.
          let v = After-Reads op.1 t.1 c in
          On-bind t.1 (parse_full_expr t.1 0) _ (parse_full_expr-Runs t.1 0 v)
            λ x d. After-refl x.1 (After-Reads t.1 x.1 d)

pub parse_assignment-Runs :
    (p : Parser) (left : AstExpr) → Reads p → Runs (On p) (parse_assignment p left)
unfolding parse_assignment
parse_assignment-Runs p left r = read_bind p _ r λ t a.
    let u = After-Reads p t.1 a.after in
    if_split (Runs (On t.1)) (is_kind t.0.kind token_assignment)
      (λ _.
        On-bind t.1 (parse_full_expr t.1 0) _ (parse_full_expr-Runs t.1 0 u)
          λ x d. After-refl x.1 (After-Reads t.1 x.1 d))
      (λ _. error_parse-After t.1 "Expected assignment after expression" t.0 u)
