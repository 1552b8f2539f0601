-- ===== src/Parser/State.antt =====
-- The parser's state and the functions that read tokens (compiler/parser.c). The arenas are left out.
-- A report returns, as it does in a program built without assertions (Diagnostics): the parser then
-- goes on. On a token that the lexer could not read the source prints the last report and exits.
use metagen.Base.{
  Fault, ℕ, suc, Bool, true, false, List, [], ◌∷◌, String, if◌then◌else◌, length, Outcome, ok,
  fault, bad_access, exited, ◌>>=◌,
}
use metagen.Diagnostics.{CompilerError, error_at}
use metagen.Lex.Token.{
  TokenKind, token_err, token_assignment, token_plus, token_minus, token_star, token_slash,
  token_lshift, token_rshift, token_eq, token_neq, token_less, token_greater, token_dot, Token,
  bare_token, is_kind,
}
use metagen.Lex.State.{Lexer}
use metagen.Lex.Rules.{lex_next, lex_peek}

pub record Parser : Type 0 where
  pub lexer : Lexer
  pub unlex : Bool
  pub previous : Token

abbrev pub token_precedences : TokenKind → ℕ
token_precedences token_assignment = 1
token_precedences token_plus = 5
token_precedences token_minus = 5
token_precedences token_star = 10
token_precedences token_slash = 10
token_precedences token_lshift = 4
token_precedences token_rshift = 4
token_precedences token_eq = 3
token_precedences token_neq = 3
token_precedences token_less = 3
token_precedences token_greater = 3
token_precedences token_dot = 15
token_precedences _ = 0

abbrev pub is_bin_op : TokenKind → Bool
is_bin_op token_plus = true
is_bin_op token_minus = true
is_bin_op token_star = true
is_bin_op token_slash = true
is_bin_op token_lshift = true
is_bin_op token_rshift = true
is_bin_op token_dot = true
is_bin_op _ = false

abbrev pub is_relation_op : TokenKind → Bool
is_relation_op token_eq = true
is_relation_op token_neq = true
is_relation_op token_less = true
is_relation_op token_greater = true
is_relation_op _ = false

-- `e->tail->msg` and the exit.
abbrev pub exit_on : List CompilerError → Fault
exit_on [] = bad_access
exit_on (error ∷ errors) = exited

unfoldable pub next_token : Parser → Outcome (Token × Parser)
next_token parser =
    if parser.unlex
    then ok (parser.previous, record parser { unlex = false })
    else (lex_next parser.lexer >>= λ r.
        if is_kind r.0.kind token_err
        then fault (exit_on r.1.e.errors)
        else ok (r.0, record parser { lexer = r.1; previous = r.0 }))

unfoldable pub peek_token : Parser → Outcome (Token × Parser)
peek_token parser = lex_peek parser.lexer >>= λ r. ok (r.0, record parser { lexer = r.1 })

unfoldable pub match_token : Parser → TokenKind → Outcome (Bool × Parser)
match_token parser kind = peek_token parser >>= λ r.
    if is_kind r.0.kind kind then (next_token r.1 >>= λ s. ok (true, s.1)) else ok (false, r.1)

-- `error_parse` on the error handler that the lexer has.
unfoldable pub error_parse : Parser → String → Token → Parser
error_parse parser msg guilty = record parser {
  lexer = record parser.lexer { e = error_at parser.lexer.e msg guilty.end.l };
}

unfoldable pub consume_or_err : Parser → TokenKind → String → Outcome (Token × Parser)
consume_or_err parser expected msg = peek_token parser >>= λ r.
    if is_kind r.0.kind expected
    then (next_token r.1 >>= λ s. ok (r.0, s.1))
    else ok (bare_token token_err, error_parse r.1 msg r.0)

-- Rounds enough for a loop that reads a token in each, and nested calls enough.
abbrev pub parse_fuel : Parser → ℕ
parse_fuel parser = suc (suc (suc (length parser.lexer.input)))
