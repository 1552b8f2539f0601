-- ===== src/Parser/Tests.antt =====
-- Sources parsed.
use metagen.Base.{
  length, ◌≤◌, true, ◌≡◌, refl, none, arith, String, codes, Outcome, ok, ◌>>=◌, Runs,
}
use metagen.Diagnostics.{error_handler_init}
use metagen.Lex.Token.{token_plus, token_star, token_minus}
use metagen.Lex.Scan.{ends_plain}
use metagen.Lex.State.{lex_init}
use metagen.Lex.Token.{is_kind, kind_no}
use metagen.Lex.State.{next, emit, emit_str, backup, reset_token_ctx, accept, accept_run, match}
use metagen.Lex.Rules.{
  lex_next, lex_peek, lex_fresh, lex_switch, single_char, lex_other, lex_default, lex_ident,
  ident_run, emit_ident, find_reserved, lex_num,
}
use metagen.Parser.State.{next_token, peek_token}
use metagen.Parser.Expr.{
  parse_expr, parse_primary, primary_of, parse_unary, expr_run, parse_atom,
  parse_increasing_precedence, parse_operand,
}
use metagen.Base.{bytes_eq}
use metagen.Ast.{AstExpr, lit_num, lit_ident, expr_binary, expr_literal, expr_unary, AstStmt}
use metagen.Parser.State.{Parser}
use metagen.Parser.Expr.{parse_full_expr}
use metagen.Parser.Stmt.{parse_full_stmt}
use metagen.Parser.Root.{parse}
use metagen.Parser.Runs.Ready.{no_eof}
use metagen.Lex.Token.{token_err, bare_token}
use metagen.Parser.State.{error_parse}
use metagen.Parser.Runs.Tokens.{Reads}
use metagen.Parser.Runs.Reach.{Reach, here, further, report, give_back, InPlace, Reach-InPlace}
use metagen.Parser.Sound.Grammar.{Expr}
use metagen.Parser.Stmt.{parse_full_stmt}
use metagen.Parser.Sound.StmtGrammar.{Stmt}
use metagen.Parser.Sound.Stmts.{parse_full_stmt-Gives}
use metagen.Parser.Sound.Size.{nodes, nodes-parse_full_expr}
use metagen.Parser.Sound.Trail.{Gives}
use metagen.Parser.Sound.Exprs.{parse_full_expr-Gives}
use metagen.Parser.Runs.Roots.{lex_init-Ready, start, Parsed, parse-Runs}

abbrev of_text : String → Parser
of_text s = start error_handler_init (codes s)

abbrev tree_of : String → Outcome AstExpr
tree_of s = parse_full_expr (of_text s) 0 >>= λ r. ok r.0

abbrev stmt_tree_of : String → Outcome AstStmt
stmt_tree_of s = parse_full_stmt (of_text s) >>= λ r. ok r.0

abbrev num : String → AstExpr
num s = expr_literal none none lit_num (codes s)

abbrev ident : String → AstExpr
ident s = expr_literal none none lit_ident (codes s)

-- Products before sums, and both from the left.
tree_of_sum :
    tree_of "1+x*2-3 "
    ≡ ok (
        expr_binary none
          (expr_binary none
            (num "1")
            token_plus
            (expr_binary none (ident "x") token_star (num "2")))
          token_minus
          (num "3"))
unfolding parse_expr parse_primary next_token lex_next lex_init lex_fresh lex_switch next
    single_char is_kind emit primary_of parse_unary lex_other lex_default lex_ident ident_run
    bytes_eq emit_ident find_reserved backup reset_token_ctx expr_run parse_atom
    parse_increasing_precedence parse_operand peek_token lex_peek lex_num accept_run accept kind_no
    match emit_str
tree_of_sum = refl

-- The operand of a unary operator takes in the whole rest of the expression.
tree_of_unary :
    tree_of "-a+b "
    ≡ ok (expr_unary none token_minus (expr_binary none (ident "a") token_plus (ident "b")))
unfolding parse_expr parse_primary next_token lex_next lex_init lex_fresh lex_switch next
    single_char is_kind emit primary_of parse_unary lex_other lex_default lex_ident ident_run
    bytes_eq emit_ident find_reserved backup reset_token_ctx expr_run parse_atom
    parse_increasing_precedence parse_operand peek_token lex_peek lex_num accept_run accept kind_no
    match emit_str
tree_of_unary = refl

abbrev program : String
program =
    "var g: ^s32 func main(n: s32): s32 begin var i: s32 if n < 2 then return n else g := i end "

parse-Runs_example :
    Runs
      (Parsed (start error_handler_init (codes program)))
      (parse error_handler_init (codes program))
unfolding ends_plain no_eof
parse-Runs_example = parse-Runs error_handler_init (codes program) (omega arith) refl refl

abbrev product : Parser
product = of_text "1+x*2-3 "

product-Reads : Reads product
unfolding ends_plain no_eof
product-Reads = record {
  on = refl;
  ready = lex_init-Ready error_handler_init (codes "1+x*2-3 ") (omega arith) refl refl;
}

parse_full_expr-Gives_example : Runs (Gives product (Expr 0)) (parse_full_expr product 0)
parse_full_expr-Gives_example = parse_full_expr-Gives product 0 product-Reads

-- A report, and a token given back.
abbrev moved : Parser
moved = record (error_parse product "Illegal first token in statement" (bare_token token_err)) {
  unlex = true;
}

moved-Reach : Reach product moved
moved-Reach =
    further (error_parse product "Illegal first token in statement" (bare_token token_err)) moved
      (further product
        (error_parse product "Illegal first token in statement" (bare_token token_err)) here
        (report product "Illegal first token in statement" (bare_token token_err)))
      (give_back (error_parse product "Illegal first token in statement" (bare_token token_err)))

Reach-InPlace_example : InPlace error_handler_init (codes "1+x*2-3 ") moved
unfolding ends_plain no_eof
Reach-InPlace_example =
    Reach-InPlace error_handler_init (codes "1+x*2-3 ") moved (omega arith) refl refl moved-Reach

nodes-parse_full_expr_example :
    Runs (Gives product (λ ts e. nodes e ≤ length ts)) (parse_full_expr product 0)
nodes-parse_full_expr_example = nodes-parse_full_expr product 0 product-Reads

abbrev loop : Parser
loop = of_text "while a[1] < 3 do a := a + 1 end "

loop-Reads : Reads loop
unfolding ends_plain no_eof
loop-Reads = record {
  on = refl;
  ready =
      lex_init-Ready error_handler_init (codes "while a[1] < 3 do a := a + 1 end ") (omega arith)
        refl refl;
}

parse_full_stmt-Gives_example : Runs (Gives loop Stmt) (parse_full_stmt loop)
parse_full_stmt-Gives_example = parse_full_stmt-Gives loop loop-Reads
