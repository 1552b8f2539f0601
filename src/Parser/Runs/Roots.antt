-- ===== src/Parser/Runs/Roots.antt =====
-- Parsing a whole source returns or exits.
use metagen.Base.{
  ap, ◌∙◌, ℕ, zero, suc, ◌^◌, ◌<◌, ◌≡◌, inl, inr, refl, arith, Bool, true, false, List, [],
  if_split, length, Runs, Runs-imp, Runs-bind,
}
use metagen.Diagnostics.{ErrorHandler}
use metagen.Lex.Token.{
  TokenKind, token_err, token_lparen, token_rparen, token_assignment, token_identifier, token_eof,
  token_at, token_func, token_struct, token_enum, token_var, token_compiler, Token, bare_token,
  is_kind, is_kind_eq,
}
use metagen.Lex.State.{lex_init}
use metagen.Lex.Scan.{ends_plain}
use metagen.Lex.Stream.{lex_init-WellPlaced}
use metagen.Ast.{AstRoot}
use metagen.Ast.Make.{make_root}
use metagen.Parser.State.{Parser, next_token, parse_fuel}
use metagen.Parser.Expr.{parse_call, parse_full_expr}
use metagen.Parser.Stmt.{parse_type, parse_variable_list, parse_full_stmt}
use metagen.Parser.Root.{
  parse_params, parse_body, parse_func, parse_members, decl_of, root_run, parse_root, parse,
}
use metagen.Parser.Runs.Ready.{no_eof, Ready}
use metagen.Parser.Runs.Tokens.{
  Reads, After, tokens_left, After-Reads, After-refl, After-trans, After-below, On, On-bind,
  TokenRead, next_token-Runs, error_parse-After, shown_bind, not_kind, consume_bind,
}
use metagen.Parser.Runs.Operands.{enough, parse_call-Runs}
use metagen.Parser.Runs.Exprs.{parse_full_expr-Runs}
use metagen.Parser.Runs.Parts.{parse_type-Runs, parse_variable_list-Runs}
use metagen.Parser.Runs.Stmts.{parse_full_stmt-Runs}

parse_params-Runs : (p : Parser) → Reads p → Runs (On p) (parse_params p)
unfolding parse_params
parse_params-Runs p r = shown_bind p _ r λ t a.
    let u = After-Reads p t.1 a.after in
    if_split (Runs (On t.1)) (is_kind t.0.kind token_rparen) (λ _. After-refl t.1 u)
      (λ _. parse_variable_list-Runs t.1 true true u)

parse_body-Runs :
    (require_body : Bool) (p : Parser) → Reads p → Runs (On p) (parse_body require_body p)
unfolding parse_body
parse_body-Runs true p r =
    On-bind p (parse_full_stmt p) _ (parse_full_stmt-Runs p r)
      λ s a. After-refl s.1 (After-Reads p s.1 a)
parse_body-Runs false p r = After-refl p r

parse_func-Runs :
    (p : Parser) (require_body : Bool) → Reads p → Runs (On p) (parse_func p require_body)
unfolding parse_func
parse_func-Runs p require_body r = consume_bind p token_identifier _ _ r λ i a.
    consume_bind i.1 token_lparen _ _ (After-Reads p i.1 a) λ x b.
      On-bind x.1 (parse_params x.1) _ (parse_params-Runs x.1 (After-Reads i.1 x.1 b)) λ v c.
        consume_bind v.1 token_rparen _ _ (After-Reads x.1 v.1 c) λ y d.
          On-bind y.1 (parse_type y.1 true) _ (parse_type-Runs y.1 true (After-Reads v.1 y.1 d))
            λ t k.
              On-bind t.1 (parse_body require_body t.1) _
                (parse_body-Runs require_body t.1 (After-Reads y.1 t.1 k))
                λ z m. After-refl z.1 (After-Reads t.1 z.1 m)

parse_members-Runs : (typed : Bool) (p : Parser) → Reads p → Runs (On p) (parse_members typed p)
unfolding parse_members
parse_members-Runs typed p r = consume_bind p token_identifier _ _ r λ n a.
    consume_bind n.1 token_assignment _ _ (After-Reads p n.1 a) λ c b.
      On-bind c.1 (parse_variable_list c.1 true typed) _
        (parse_variable_list-Runs c.1 true typed (After-Reads n.1 c.1 b))
        λ v d. After-refl v.1 (After-Reads c.1 v.1 d)

decl_of-Runs :
    (kind : TokenKind) (next : Token) (root : AstRoot) (p : Parser)
    → Reads p
    → Runs (On p) (decl_of kind next root p)
unfolding decl_of
decl_of-Runs token_var next root p r =
    On-bind p (parse_variable_list p true true) _ (parse_variable_list-Runs p true true r)
      λ v a. After-refl v.1 (After-Reads p v.1 a)
decl_of-Runs token_compiler next root p r = consume_bind p token_func _ _ r λ w a.
    On-bind w.1 (parse_func w.1 false) _ (parse_func-Runs w.1 false (After-Reads p w.1 a))
      λ f b. After-refl f.1 (After-Reads w.1 f.1 b)
decl_of-Runs token_func next root p r =
    On-bind p (parse_func p true) _ (parse_func-Runs p true r)
      λ f b. After-refl f.1 (After-Reads p f.1 b)
decl_of-Runs token_struct next root p r =
    On-bind p (parse_members true p) _ (parse_members-Runs true p r)
      λ m a. After-refl m.1 (After-Reads p m.1 a)
decl_of-Runs token_enum next root p r =
    On-bind p (parse_members false p) _ (parse_members-Runs false p r)
      λ m a. After-refl m.1 (After-Reads p m.1 a)
decl_of-Runs token_at next root p r = consume_bind p token_identifier _ _ r λ i a.
    On-bind i.1 (parse_call parse_full_expr i.1 i.0 true) _
      (parse_call-Runs (suc (tokens_left i.1)) parse_full_expr
        (λ q n s _. parse_full_expr-Runs q n s) i.1 i.0 true (After-Reads p i.1 a) (omega arith))
      λ c b. After-refl c.1 (After-Reads i.1 c.1 b)
decl_of-Runs _ next root p r =
    error_parse-After p "Illegal first token. Expected var, struct or func" next r

-- Parsed to the end of the input.
pub record Parsed (p : Parser) (r : AstRoot × Parser) : Type 0 where
  pub after : After p r.1
  pub at_end : r.1.previous.kind ≡ token_eof

root_run-Runs :
    (g : ℕ) (root : AstRoot) (p : Parser)
    → Reads p
    → tokens_left p < g
    → Runs (Parsed p) (root_run g root p)
unfolding root_run
root_run-Runs zero root p r l = omega arith
root_run-Runs (suc g) root p r l =
    Runs-bind (TokenRead p) (Parsed p) (next_token p) _ (next_token-Runs p r) λ t a.
      let u = After-Reads p t.1 a.after in
      if_split (Runs (Parsed p)) (is_kind t.0.kind token_eof)
        (λ h. record {
          after = a.after;
          at_end = ap (λ (s : Token). s.kind) a.last ∙ is_kind_eq t.0.kind token_eof h;
        })
        (λ n.
          let c : tokens_left t.1 < g = elim (a.fewer) [
            | inl e ↦ absurd (not_kind t.0.kind token_eof n e)
            | inr m ↦ omega (arith, m)
          ] in
          Runs-bind (On t.1) (Parsed p) (decl_of t.0.kind t.0 root t.1) _
            (decl_of-Runs t.0.kind t.0 root t.1 u)
            λ s b.
              Runs-imp (Parsed s.1) (Parsed p) (root_run g s.0 s.1)
                (λ x d. record {
                  after = After-trans p s.1 x.1 (After-trans p t.1 s.1 a.after b) d.after;
                  at_end = d.at_end;
                })
                (root_run-Runs g s.0 s.1 (After-Reads t.1 s.1 b) (After-below t.1 s.1 g b c)))

pub lex_init-Ready :
    (e : ErrorHandler) (input : List ℕ)
    → length input < 2 ^ 32
    → ends_plain input ≡ true
    → no_eof input ≡ true
    → Ready (lex_init e input)
unfolding lex_init
lex_init-Ready e input h p n = record {
  well = lex_init-WellPlaced e input h;
  plain = p;
  text = n;
  fresh = inr refl;
  reported = λ b. cc;
}

-- What `parse` starts from.
abbrev pub start : ErrorHandler → List ℕ → Parser
start e input = record { lexer = lex_init e input; unlex = false; previous = bare_token token_err }

-- Where the report of an error returns, as it does in a program built without assertions:
-- on a source of less than 2^32 bytes that does not break off inside a word or number and holds no
-- byte 0xff, `parse` calls exit, or it returns: no loop and no nest of calls runs out of the fuel that
-- the length of the source gives, no report is looked up where there is none, and no other assertion fails.
-- When it returns, the last token that was read is the end of the input, the parser reads on from the
-- same input with the lexer well placed in it, and no report was lost.
pub parse-Runs :
    (e : ErrorHandler) (input : List ℕ)
    → length input < 2 ^ 32
    → ends_plain input ≡ true
    → no_eof input ≡ true
    → Runs (Parsed (start e input)) (parse e input)
unfolding parse parse_root
parse-Runs e input h p n =
    let q = start e input in
    root_run-Runs (parse_fuel q) (make_root [] [] [] [] []) q
      (record { on = refl; ready = lex_init-Ready e input h p n }) (enough q)
