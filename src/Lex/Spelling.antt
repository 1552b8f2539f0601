-- ===== src/Lex/Spelling.antt =====
-- What the lexer promises of a token, stated without its code: which texts a kind of token has, where
-- in the input the token stands, and what may stand in front of it.
use metagen.Base.{
  length, ℕ, suc, ◌-◌, ◌≤◌, ◌<◌, ◌≡◌, ◌≢◌, ◌⊎◌, inl, inr, ◌∙◌, true, List, [], ◌∷◌, arith, All,
  get_or, take, drop, codes,
}
use metagen.Lex.Token.{
  TokenKind, token_err, token_num, token_str, token_colon, token_assignment, token_plus,
  token_minus, token_star, token_slash, token_lshift, token_rshift, token_eq, token_neq, token_less,
  token_greater, token_lparen, token_rparen, token_lbracket, token_rbracket, token_dot, token_comma,
  token_ampersand, token_caret, token_at, token_eof, token_identifier, token_func, token_struct,
  token_enum, token_begin, token_end, token_return, token_print, token_break, token_continue,
  token_if, token_then, token_else, token_while, token_do, token_var, token_null, token_compiler,
  Token, reserved_words,
}
use metagen.Lex.State.{Lexer, eof, peek, is_numeric, is_alpha, is_valid_identifier}
use metagen.Lex.Position.{newlines, WellPlaced}

abbrev pub IsNumber : List ℕ → Type 0
IsNumber text = (text ≢ []) × All (λ c. is_numeric c ≡ true) text

-- A letter, then letters, digits and underscores.
abbrev pub IsWord : List ℕ → Type 0
IsWord [] = ⊥
IsWord (c ∷ cs) = (is_alpha c ≡ true) × All (λ c. is_valid_identifier c ≡ true) cs

abbrev pub NotReserved : List (List ℕ) → List ℕ → Type 0
NotReserved words text = All (λ word. text ≢ word) words

-- The texts of a kind of token whose text is the source's; a string's is described by `Quoted`.
abbrev pub Spells : TokenKind → List ℕ → Type 0
Spells token_num text = IsNumber text
Spells token_identifier text = IsWord text × NotReserved reserved_words text
Spells token_str text = ⊥
Spells token_err text = ⊥
Spells token_eof text = ⊥
Spells token_colon text = text ≡ codes ":"
Spells token_assignment text = text ≡ codes ":="
Spells token_plus text = text ≡ codes "+"
Spells token_minus text = text ≡ codes "-"
Spells token_star text = text ≡ codes "*"
Spells token_slash text = text ≡ codes "/"
Spells token_lshift text = text ≡ codes "<<"
Spells token_rshift text = text ≡ codes ">>"
Spells token_eq text = text ≡ codes "="
Spells token_neq text = text ≡ codes "!="
Spells token_less text = text ≡ codes "<"
Spells token_greater text = text ≡ codes ">"
Spells token_lparen text = text ≡ codes "("
Spells token_rparen text = text ≡ codes ")"
Spells token_lbracket text = text ≡ codes "["
Spells token_rbracket text = text ≡ codes "]"
Spells token_dot text = text ≡ codes "."
Spells token_comma text = text ≡ codes ","
Spells token_ampersand text = text ≡ codes "&"
Spells token_caret text = text ≡ codes "^"
Spells token_at text = text ≡ codes "@"
Spells token_func text = text ≡ codes "func"
Spells token_struct text = text ≡ codes "struct"
Spells token_enum text = text ≡ codes "enum"
Spells token_begin text = text ≡ codes "begin"
Spells token_end text = text ≡ codes "end"
Spells token_return text = text ≡ codes "return"
Spells token_print text = text ≡ codes "print"
Spells token_break text = text ≡ codes "break"
Spells token_continue text = text ≡ codes "continue"
Spells token_if text = text ≡ codes "if"
Spells token_then text = text ≡ codes "then"
Spells token_else text = text ≡ codes "else"
Spells token_while text = text ≡ codes "while"
Spells token_do text = text ≡ codes "do"
Spells token_var text = text ≡ codes "var"
Spells token_null text = text ≡ codes "null"
Spells token_compiler text = text ≡ codes "compiler"

abbrev pub slice : List ℕ → ℕ → ℕ → List ℕ
slice xs from n = take n (drop from xs)

-- The bytes of `xs` from `p` on are the inside of a string that stands for `text`, with the closing quote
-- in front of `q`: a backslash and a quote stand for a quote, any other byte for itself.
pub data Quoted (xs : List ℕ) : ℕ → ℕ → List ℕ → Type 0 where
  closed : (p : ℕ) → get_or xs p 0 ≡ b'"' → Quoted xs p (suc p) []
  escaped :
      (p q : ℕ) (text : List ℕ)
      → get_or xs p 0 ≡ b'\\'
      → get_or xs (suc p) 0 ≡ b'"'
      → Quoted xs (suc (suc p)) q text
      → Quoted xs p q (b'"' ∷ text)
  plain :
      (p q c : ℕ) (text : List ℕ)
      → get_or xs p 0 ≡ c
      → c ≢ 0
      → c ≢ b'"'
      → c ≢ b'\n'
      → c ≢ b'\\'
      → Quoted xs (suc p) q text
      → Quoted xs p q (c ∷ text)

-- A space, newline, tab, carriage return or vertical tab.
abbrev pub IsBlank : ℕ → Type 0
IsBlank c = (c ≡ 32) ⊎ (c ≡ 10) ⊎ (c ≡ 9) ⊎ (c ≡ 13) ⊎ (c ≡ 11)

-- Two slashes stand at `p`, and no newline from there up to `n`.
abbrev pub CommentTo : List ℕ → ℕ → ℕ → Type 0
CommentTo xs p n =
    (get_or xs p 0 ≡ b'/')
    × (get_or xs (suc p) 0 ≡ b'/')
    × (suc p < n)
    × ((i : ℕ) → suc p < i → i < n → get_or xs i 0 ≢ b'\n')

-- Only blanks and whole comments stand from `p` up to `q`.
pub data Skips (xs : List ℕ) : ℕ → ℕ → Type 0 where
  stop : (p : ℕ) → Skips xs p p
  blank : (p q : ℕ) → IsBlank (get_or xs p 0) → Skips xs (suc p) q → Skips xs p q
  comment :
      (p n q : ℕ) → CommentTo xs p n → get_or xs n 0 ≡ b'\n' → Skips xs (suc n) q → Skips xs p q

Skips-trans : (xs : List ℕ) (p q r : ℕ) → Skips xs p q → Skips xs q r → Skips xs p r
Skips-trans xs p q r (stop _) t = t
Skips-trans xs p q r (blank _ _ b s) t = blank p r b (Skips-trans xs (suc p) q r s t)
Skips-trans xs p q r (comment _ n _ c l s) t = comment p n r c l (Skips-trans xs (suc n) q r s t)

-- At `n` the input ends, or has a byte 0xff.
abbrev pub StopsAt : List ℕ → ℕ → Type 0
StopsAt xs n = (get_or xs n 0 ≡ 0) ⊎ (get_or xs n 0 ≡ eof)

-- From `p` on only blanks and comments stand up to such a place, the last comment perhaps without a newline.
abbrev pub NoMore : List ℕ → ℕ → Type 0
NoMore xs p = (m : ℕ) × Skips xs p m × (StopsAt xs m ⊎ ((n : ℕ) × CommentTo xs m n × StopsAt xs n))

NoMore-skip : (xs : List ℕ) (p q : ℕ) → Skips xs p q → NoMore xs q → NoMore xs p
NoMore-skip xs p q k (m, s, end) = (m, Skips-trans xs p q m k s, end)

-- Nothing of the next token has been read.
abbrev pub Fresh : Lexer → Type 0
Fresh a = a.pos_start ≡ a.pos_current

-- The token stands in `input` from `from` up to the new position, with only blanks and comments
-- between the old position and `from`. Its text is that part of the input and fits the kind, or it is a
-- string, which begins with a quote and has for text what stands up to the closing quote.
pub record Emitted (a : Lexer) (token : Token) (b : Lexer) : Type 0 where
  pub from : ℕ
  pub behind : a.pos_current ≤ from
  pub longer : from < b.pos_current
  pub skipped : Skips a.input a.pos_current from
  pub text :
      ((token.lexeme ≡ slice a.input from (b.pos_current - from)) × Spells token.kind token.lexeme)
      ⊎ ((token.kind ≡ token_str)
          × (get_or a.input from 0 ≡ b'"')
          × Quoted a.input (suc from) b.pos_current token.lexeme)
  pub start_line : token.start.l ≡ newlines a.input from
  pub end_line : token.end.l ≡ newlines a.input b.pos_current
  pub fresh : Fresh b

-- The input holds a byte 0xff, which the lexer takes for its end.
abbrev pub HasEof : List ℕ → Type 0
HasEof xs = (p : ℕ) × (get_or xs p 0 ≡ eof)

-- What a call of `lex_next` from `a` gives: the lexer is well placed on the same input with the
-- same slot, and the token is an error that has been reported, the end of the input
-- at a fresh start at the end of the input or at a byte 0xff, or a text of the input.
pub record Lexed (a : Lexer) (r : Token × Lexer) : Type 0 where
  pub well : WellPlaced r.1
  pub input : r.1.input ≡ a.input
  pub slot : r.1.has_next ≡ a.has_next
  pub forward : a.pos_current ≤ r.1.pos_current
  pub reports : length a.e.errors ≤ length r.1.e.errors
  pub outcome :
      ((r.0.kind ≡ token_err) × (length a.e.errors < length r.1.e.errors))
      ⊎ ((r.0.kind ≡ token_eof)
          × (((peek r.1 ≡ 0) × Fresh r.1) ⊎ HasEof a.input)
          × NoMore a.input a.pos_current)
      ⊎ Emitted a r.0 r.1

Emitted-skip :
    (a b : Lexer) (t : Token) (c : Lexer)
    → b.input ≡ a.input
    → a.pos_current ≤ b.pos_current
    → Skips a.input a.pos_current b.pos_current
    → Emitted b t c
    → Emitted a t c
Emitted-skip a b t c e f k m = record {
  from = m.from;
  behind = omega (arith, m.behind);
  longer = m.longer;
  skipped = Skips-trans a.input a.pos_current b.pos_current m.from k (rw (← e) (m.skipped));
  text = rw (← e) (m.text);
  start_line = rw (← e) (m.start_line);
  end_line = rw (← e) (m.end_line);
  fresh = m.fresh;
}

-- Blanks and comments in front of the token do not change what is promised.
pub Lexed-skip :
    (a b : Lexer) (r : Token × Lexer)
    → b.input ≡ a.input
    → b.has_next ≡ a.has_next
    → a.pos_current ≤ b.pos_current
    → Skips a.input a.pos_current b.pos_current
    → length a.e.errors ≤ length b.e.errors
    → Lexed b r
    → Lexed a r
Lexed-skip a b r e s f k n l = record {
  well = l.well;
  input = l.input ∙ e;
  slot = l.slot ∙ s;
  forward = omega (arith, l.forward);
  reports = omega (arith, l.reports);
  outcome = elim (l.outcome) [
    | inl h ↦ inl (h.0, omega (arith, h.1))
    | inr o ↦ inr (elim o [
      | inl h ↦
          inl (
            h.0,
            rw (← e) (h.1),
            NoMore-skip a.input a.pos_current b.pos_current k (rw (← e) (h.2)),
          )
      | inr m ↦ inr (Emitted-skip a b r.0 r.1 e f k m)
    ])
  ];
}
