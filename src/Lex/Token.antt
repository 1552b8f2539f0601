-- ===== src/Lex/Token.antt =====
-- Tokens (compiler/lex.h) and the table of reserved words (compiler/lex.c).
use metagen.Base.{
  ◌==◌, ==_iff, get_or, ◌≡◌, refl, sym, ap, ◌∙◌, Bool, true, ℕ, List, [], ◌∷◌, codes,
}

pub data TokenKind : Type 0 where
  token_err : TokenKind
  token_num token_str token_colon token_assignment : TokenKind
  token_plus token_minus token_star token_slash : TokenKind
  token_lshift token_rshift : TokenKind
  token_eq token_neq token_less token_greater : TokenKind
  token_lparen token_rparen token_lbracket token_rbracket token_dot token_comma : TokenKind
  token_ampersand token_caret token_at token_eof : TokenKind
  token_identifier token_func token_struct token_enum token_begin token_end : TokenKind
  token_return token_print token_break token_continue token_if token_then token_else : TokenKind
  token_while token_do token_var token_null token_compiler : TokenKind

-- The enumerators in their order, and the number of each.
abbrev pub token_kinds : List TokenKind
token_kinds =
    token_err ∷ token_num ∷ token_str ∷ token_colon ∷ token_assignment ∷ token_plus ∷ token_minus
    ∷ token_star ∷ token_slash ∷ token_lshift ∷ token_rshift ∷ token_eq ∷ token_neq ∷ token_less
    ∷ token_greater ∷ token_lparen ∷ token_rparen ∷ token_lbracket ∷ token_rbracket ∷ token_dot
    ∷ token_comma ∷ token_ampersand ∷ token_caret ∷ token_at ∷ token_eof ∷ token_identifier
    ∷ token_func ∷ token_struct ∷ token_enum ∷ token_begin ∷ token_end ∷ token_return ∷ token_print
    ∷ token_break ∷ token_continue ∷ token_if ∷ token_then ∷ token_else ∷ token_while ∷ token_do
    ∷ token_var ∷ token_null ∷ token_compiler ∷ []

unfoldable pub kind_no : TokenKind → ℕ
kind_no token_err = 0
kind_no token_num = 1
kind_no token_str = 2
kind_no token_colon = 3
kind_no token_assignment = 4
kind_no token_plus = 5
kind_no token_minus = 6
kind_no token_star = 7
kind_no token_slash = 8
kind_no token_lshift = 9
kind_no token_rshift = 10
kind_no token_eq = 11
kind_no token_neq = 12
kind_no token_less = 13
kind_no token_greater = 14
kind_no token_lparen = 15
kind_no token_rparen = 16
kind_no token_lbracket = 17
kind_no token_rbracket = 18
kind_no token_dot = 19
kind_no token_comma = 20
kind_no token_ampersand = 21
kind_no token_caret = 22
kind_no token_at = 23
kind_no token_eof = 24
kind_no token_identifier = 25
kind_no token_func = 26
kind_no token_struct = 27
kind_no token_enum = 28
kind_no token_begin = 29
kind_no token_end = 30
kind_no token_return = 31
kind_no token_print = 32
kind_no token_break = 33
kind_no token_continue = 34
kind_no token_if = 35
kind_no token_then = 36
kind_no token_else = 37
kind_no token_while = 38
kind_no token_do = 39
kind_no token_var = 40
kind_no token_null = 41
kind_no token_compiler = 42

-- Whether two kinds are the same, by their numbers.
unfoldable pub is_kind : TokenKind → TokenKind → Bool
unfolding kind_no
is_kind kind expected = kind_no kind == kind_no expected

kind_at : (k : TokenKind) → get_or token_kinds (kind_no k) token_err ≡ k
unfolding kind_no
kind_at token_err = refl
kind_at _ = refl

pub is_kind_eq : (k expected : TokenKind) → is_kind k expected ≡ true → k ≡ expected
unfolding is_kind
is_kind_eq k expected h =
    let e : kind_no k ≡ kind_no expected = (==_iff (kind_no k) (kind_no expected)).0 h in
    sym (kind_at k) ∙ ap (λ n. get_or token_kinds n token_err) e ∙ kind_at expected

-- The enumerators from TOKEN_FUNC on, in their order: `TOKEN_FUNC + i` is the i-th.
abbrev pub reserved_kinds : List TokenKind
reserved_kinds =
    token_func ∷ token_struct ∷ token_enum ∷ token_begin ∷ token_end ∷ token_return ∷ token_print
    ∷ token_break ∷ token_continue ∷ token_if ∷ token_then ∷ token_else ∷ token_while ∷ token_do
    ∷ token_var ∷ token_null ∷ token_compiler ∷ []

abbrev pub reserved_words : List (List ℕ)
reserved_words =
    codes "func"
    ∷ codes "struct"
    ∷ codes "enum"
    ∷ codes "begin"
    ∷ codes "end"
    ∷ codes "return"
    ∷ codes "print"
    ∷ codes "break"
    ∷ codes "continue"
    ∷ codes "if"
    ∷ codes "then"
    ∷ codes "else"
    ∷ codes "while"
    ∷ codes "do"
    ∷ codes "var"
    ∷ codes "null"
    ∷ codes "compiler"
    ∷ []

pub record Point : Type 0 where
  pub l : ℕ
  pub c : ℕ

-- A lexeme is its bytes: the view into the input, or the text that a string builder holds.
pub record Token : Type 0 where
  pub kind : TokenKind
  pub start : Point
  pub end : Point
  pub lexeme : List ℕ

abbrev pub origin : Point
origin = record { l = 0; c = 0 }

-- `(Token){ .kind = kind }`: the other fields are zero.
abbrev pub bare_token : TokenKind → Token
bare_token kind = record { kind = kind; start = origin; end = origin; lexeme = [] }
