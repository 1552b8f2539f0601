-- ===== src/Lex/Rules.antt =====
-- The rules of the lexer (compiler/lex.c): `lex_next` and `lex_peek` with the scanners for
-- identifiers, numbers, strings and comments. Every loop runs on fuel, one more than the length of
-- the input: a round of it reads a byte, or is the last. A report returns,
-- as it does in a program built without assertions (Diagnostics).
use metagen.Base.{
  ℕ, zero, suc, ◌+◌, Bool, true, false, ◌||◌, List, [], ◌∷◌, ◌++◌, Option, none, some, String, ◌==◌,
  if◌then◌else◌, bytes_eq, get_or, length, codes, Outcome, ok, fault, out_of_fuel, ◌>>=◌,
}
use metagen.Diagnostics.{error_at}
use metagen.Lex.Token.{
  TokenKind, token_err, token_num, token_str, token_colon, token_assignment, token_plus,
  token_minus, token_star, token_slash, token_lshift, token_rshift, token_eq, token_neq, token_less,
  token_greater, token_lparen, token_rparen, token_lbracket, token_rbracket, token_dot, token_comma,
  token_ampersand, token_caret, token_at, token_eof, token_identifier, Token, bare_token,
  reserved_words, reserved_kinds,
}
use metagen.Lex.State.{
  Lexer, eof, reset_token_ctx, next, match, backup, accept_run, current_text, emit, emit_str,
  is_numeric, is_alpha, is_valid_identifier,
}

abbrev pub loop_fuel : Lexer → ℕ
loop_fuel lexer = suc (length lexer.input)

abbrev pub report : Lexer → String → Lexer
report lexer msg = record lexer { e = error_at lexer.e msg lexer.current.l }

-- The linear search through `reserved_words` from index `i` on.
unfoldable pub find_reserved : List ℕ → List (List ℕ) → ℕ → Option ℕ
find_reserved ident [] i = none
find_reserved ident (word ∷ words) i =
    if bytes_eq ident word then some i else find_reserved ident words (i + 1)

-- The do-while loop of `lex_ident`.
unfoldable pub ident_run : ℕ → Lexer → Outcome Lexer
ident_run zero lexer = fault out_of_fuel
ident_run (suc f) lexer =
    let (c, read) = next lexer in
    elim (is_valid_identifier c) [ true ↦ ident_run f read | false ↦ ok read ]

-- After the loop: a keyword, or an identifier whose text is copied to a builder.
unfoldable pub emit_ident : Lexer → Token × Lexer
emit_ident lexer = elim (find_reserved (current_text lexer) reserved_words 0) [
  | some i ↦ emit lexer (get_or reserved_kinds i token_err)
  | none ↦ emit_str lexer (current_text lexer) token_identifier
]

unfoldable pub lex_ident : Lexer → Outcome (Token × Lexer)
lex_ident lexer = do
  read ← ident_run (loop_fuel lexer) lexer
  back ← backup read
  ok (emit_ident back)

unfoldable pub lex_num : Lexer → Outcome (Token × Lexer)
lex_num lexer = do
  read ← accept_run (loop_fuel lexer) (codes "0123456789") lexer
  ok (emit read token_num)

-- The end of `lex_str`, behind the closing quote.
unfoldable pub finish_str : Bool → List ℕ → Lexer → Token × Lexer
finish_str had_error sb lexer =
    if had_error then (bare_token token_err, reset_token_ctx lexer) else emit_str lexer sb token_str

unfoldable pub str_run : ℕ → Bool → List ℕ → Lexer → Outcome (Token × Lexer)
str_run zero had_error sb lexer = fault out_of_fuel
str_run (suc f) had_error sb lexer =
    let (c, read) = next lexer in
    let (d, escaped) = next read in
    let plain = str_run f had_error (sb ++ c ∷ []) read in
    let quote = str_run f had_error (sb ++ d ∷ []) escaped in
    let unknown =
      str_run f true sb (report escaped "Unknown escape character inside string literal") in
    if c == b'"'
    then ok (finish_str had_error sb read)
    else if c == eof || c == b'\n'
    then ok (bare_token token_err, report read "Recieved newline or EOF inside string literal")
    else if c == b'\\'
    then (if d == b'"' then quote else unknown)
    else plain

unfoldable pub lex_str : Lexer → Outcome (Token × Lexer)
lex_str lexer = str_run (loop_fuel lexer) false [] lexer

-- `again` is the call of `lex_next` behind the comment.
unfoldable pub comment_run : (Lexer → Outcome (Token × Lexer)) → ℕ → Lexer → Outcome (Token × Lexer)
comment_run again zero lexer = fault out_of_fuel
comment_run again (suc f) lexer =
    let (c, read) = next lexer in
    let rest = comment_run again f read in
    let behind = again (reset_token_ctx read) in
    if c == b'\n' then behind else if c == eof then ok (emit read token_eof) else rest

unfoldable pub lex_comment : (Lexer → Outcome (Token × Lexer)) → Lexer → Outcome (Token × Lexer)
lex_comment again lexer = comment_run again (loop_fuel lexer) lexer

-- The whitespace cases of the switch.
abbrev pub is_space : ℕ → Bool
is_space c = c == b' ' || c == b'\n' || c == b'\t' || c == b'\r' || c == 11

-- The cases of the switch that emit a token at once.
unfoldable pub single_char : ℕ → Option TokenKind
single_char c =
    if c == b'+'
    then some token_plus
    else if c == b'-'
    then some token_minus
    else if c == b'*'
    then some token_star
    else if c == b'('
    then some token_lparen
    else if c == b')'
    then some token_rparen
    else if c == b'['
    then some token_lbracket
    else if c == b']'
    then some token_rbracket
    else if c == b'='
    then some token_eq
    else if c == b'.'
    then some token_dot
    else if c == b','
    then some token_comma
    else if c == b'&'
    then some token_ampersand
    else if c == b'^'
    then some token_caret
    else if c == b'@'
    then some token_at
    else none

-- `match(lexer, second) ? emit(lexer, both) : emit(lexer, one)`
unfoldable pub emit_pair : Lexer → ℕ → TokenKind → TokenKind → Token × Lexer
emit_pair lexer second both one =
    let (found, after) = match lexer second in emit after (if found then both else one)

-- The case of '!'.
unfoldable pub lex_bang : Lexer → Token × Lexer
lex_bang lexer =
    let (found, after) = match lexer b'=' in
    if found
    then emit after token_neq
    else (bare_token token_err, report after "Expected '=' afer '!'")

-- The default case of the switch.
unfoldable pub lex_default : ℕ → Lexer → Outcome (Token × Lexer)
lex_default c lexer =
    if is_numeric c
    then lex_num lexer
    else if is_alpha c
    then lex_ident lexer
    else ok (bare_token token_err, report lexer "Unrecognized character")

-- The cases of one or two characters, and the default case.
unfoldable pub lex_other : ℕ → Lexer → Outcome (Token × Lexer)
lex_other c lexer =
    if c == b'<'
    then ok (emit_pair lexer b'<' token_lshift token_less)
    else if c == b'>'
    then ok (emit_pair lexer b'>' token_rshift token_greater)
    else if c == b':'
    then ok (emit_pair lexer b'=' token_assignment token_colon)
    else if c == b'!'
    then ok (lex_bang lexer)
    else lex_default c lexer

-- The case of '/': a comment, or a slash.
unfoldable pub lex_slash : (Lexer → Outcome (Token × Lexer)) → Lexer → Outcome (Token × Lexer)
lex_slash again lexer =
    let (found, after) = match lexer b'/' in
    if found then lex_comment again after else ok (emit after token_slash)

-- The switch of `lex_next` on the byte `c` that was read, with `again` for the recursive calls.
unfoldable pub lex_switch : (Lexer → Outcome (Token × Lexer)) → ℕ → Lexer → Outcome (Token × Lexer)
lex_switch again c lexer =
    if c == eof
    then ok (bare_token token_eof, lexer)
    else if is_space c
    then again (reset_token_ctx lexer)
    else if c == b'/'
    then lex_slash again lexer
    else if c == b'"'
    then lex_str lexer
    else elim (single_char c) [ some kind ↦ ok (emit lexer kind) | none ↦ lex_other c lexer ]

-- `lex_next` with an empty look-ahead slot.
unfoldable pub lex_fresh : ℕ → Lexer → Outcome (Token × Lexer)
lex_fresh zero lexer = fault out_of_fuel
lex_fresh (suc f) lexer = let (c, read) = next lexer in lex_switch (lex_fresh f) c read

unfoldable pub lex_next : Lexer → Outcome (Token × Lexer)
lex_next lexer =
    if lexer.has_next
    then ok (lexer.next, record lexer { has_next = false })
    else lex_fresh (loop_fuel lexer) lexer

unfoldable pub lex_peek : Lexer → Outcome (Token × Lexer)
lex_peek lexer =
    if lexer.has_next
    then ok (lexer.next, lexer)
    else (lex_next lexer >>= λ r. ok (r.0, record (r.1) { has_next = true; next = r.0 }))
