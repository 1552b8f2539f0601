-- ===== src/Lex/Tests.antt =====
-- Runs of the lexer on concrete inputs.
use metagen.Base.{
  false, ◌<◌, ◌^◌, arith, length, Ensures, bytes_eq, ℕ, ◌≡◌, refl, codes, String, ok, ◌>>=◌,
  Outcome, List, [], ◌∷◌, zero, suc,
}
use metagen.Diagnostics.{error_handler_init}
use metagen.Lex.Token.{
  TokenKind, origin, token_eof, token_identifier, token_num, token_while, token_plus, Token,
  token_less, token_assignment, token_lshift,
}
use metagen.Lex.State.{
  Lexer, is_valid_identifier, is_numeric, lex_init, next, match, backup, accept, accept_run, emit,
  emit_str, reset_token_ctx,
}
use metagen.Lex.Rules.{
  lex_next, lex_peek, lex_fresh, lex_switch, lex_slash, lex_comment, comment_run, lex_other,
  lex_default, lex_bang, emit_pair, single_char, lex_str, str_run, finish_str, lex_num, lex_ident,
  emit_ident, ident_run, find_reserved,
}
use metagen.Lex.Position.{WellPlaced, next-Read, backup-next}
use metagen.Lex.Scan.{ends_plain, Stopped, ident_run-Stopped, accept_run-Stopped}
use metagen.Lex.Spelling.{Lexed}
use metagen.Lex.Correct.{lex_next-Lexed}
use metagen.Lex.Stream.{peek-next, tokens, IsStream, lex_init-WellPlaced, tokens-lex_init}

abbrev of_text : String → Lexer
of_text s = lex_init error_handler_init (codes s)

kinds : ℕ → Lexer → Outcome (List TokenKind)
kinds zero lexer = ok []
kinds (suc n) lexer = do
  (token, after) ← lex_next lexer
  rest ← kinds n after
  ok (token.kind ∷ rest)

run_small :
    kinds 7 (of_text "while x1 < 12 << // foo \n := ")
    ≡ ok (
        token_while ∷ token_identifier ∷ token_less ∷ token_num ∷ token_lshift ∷ token_assignment
        ∷ token_eof ∷ [])
unfolding kinds bytes_eq lex_next lex_fresh lex_switch lex_slash lex_comment comment_run lex_other
    lex_default lex_bang emit_pair single_char lex_str str_run finish_str lex_num lex_ident
    emit_ident ident_run find_reserved next match backup accept accept_run emit emit_str
    reset_token_ctx lex_init error_handler_init
run_small = refl

of_text-WellPlaced : (s : String) → length (codes s) < 2 ^ 32 → WellPlaced (of_text s)
of_text-WellPlaced s h = lex_init-WellPlaced error_handler_init (codes s) h

-- A declaration with a comment behind it.
abbrev declaration : String
declaration = "var x1 := 12 // twelve\n"

-- A string with a quote in it, behind a comment.
abbrev quoted : String
quoted = " // a string\n\"b\\\"c\" + 1\n"

lex_next-Lexed_example : Ensures (Lexed (of_text quoted)) (lex_next (of_text quoted))
unfolding ends_plain lex_init
lex_next-Lexed_example =
    lex_next-Lexed (of_text quoted) (of_text-WellPlaced quoted (omega arith)) refl refl refl

tokens-lex_init_example : Ensures IsStream (tokens 24 (of_text declaration))
unfolding ends_plain
tokens-lex_init_example = tokens-lex_init error_handler_init (codes declaration) (omega arith) refl

backup-next_example : backup (next (of_text "\nx")).1 ≡ ok (of_text "\nx")
unfolding lex_init
backup-next_example =
    backup-next (of_text "\nx") (of_text-WellPlaced "\nx" (omega arith)) (omega arith)

-- Behind the first byte of a text.
abbrev second_byte : String → Lexer
second_byte s = (next (of_text s)).1

ident_run-Stopped_example :
    Ensures
      (Stopped is_valid_identifier (second_byte "x_1 y\n"))
      (ident_run 7 (second_byte "x_1 y\n") >>= backup)
unfolding ends_plain lex_init next
ident_run-Stopped_example =
    ident_run-Stopped 7 (second_byte "x_1 y\n")
      (next-Read (of_text "x_1 y\n") (of_text-WellPlaced "x_1 y\n" (omega arith))
        (omega arith)).moved.well
      refl (0, refl, refl) (omega arith)

accept_run-Stopped_example :
    Ensures
      (Stopped is_numeric (second_byte "123y\n"))
      (accept_run 6 (codes "0123456789") (second_byte "123y\n"))
unfolding ends_plain lex_init next
accept_run-Stopped_example =
    accept_run-Stopped 6 (second_byte "123y\n")
      (next-Read (of_text "123y\n") (of_text-WellPlaced "123y\n" (omega arith))
        (omega arith)).moved.well
      refl (0, refl, refl) (omega arith)

-- The lexer behind the byte of a one-byte text, and the token in front of it.
abbrev plus_token : Token
plus_token = record {
  kind = token_plus;
  start = origin;
  end = record { l = 0; c = 1 };
  lexeme = codes "+";
}

abbrev behind_plus : Lexer
behind_plus = record (of_text "+") {
  pos_start = 1;
  pos_current = 1;
  start = record { l = 0; c = 1 };
  current = record { l = 0; c = 1 };
}

peek-next_example :
    (p : Lexer) × (lex_peek (of_text "+") ≡ ok (plus_token, p))
    × (lex_peek p ≡ ok (plus_token, p))
    × (lex_next p ≡ ok (plus_token, record behind_plus { has_next = false; next = plus_token }))
unfolding lex_next lex_fresh lex_switch single_char next emit reset_token_ctx lex_init
    error_handler_init
peek-next_example = peek-next (of_text "+") behind_plus plus_token refl refl
