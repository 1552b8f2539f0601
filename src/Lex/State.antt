-- ===== src/Lex/State.antt =====
-- The lexer's state and the functions that move it (compiler/lex.c): `next` to `is_valid_identifier`.
-- A byte is a number below 256. The input is a C string: reading at its end gives 0.
use metagen.Base.{
  ℕ, zero, suc, Bool, true, false, ◌&&◌, ◌||◌, List, [], ◌∷◌, leb, ◌==◌, if◌then◌else◌, get_or,
  take, drop, Outcome, ok, fault, assert_failed, out_of_fuel, ◌>>=◌, inc32, dec32, sub32,
}
use metagen.Diagnostics.{ErrorHandler}
use metagen.Lex.Token.{TokenKind, Point, Token, origin, bare_token, token_err}

pub record Lexer : Type 0 where
  pub e : ErrorHandler
  pub input : List ℕ
  pub pos_start : ℕ
  pub pos_current : ℕ
  pub start : Point
  pub current : Point
  pub has_next : Bool
  pub next : Token

-- `(char)EOF`, the byte 0xff: `next` returns it at the end, and it equals a byte 0xff of the input.
abbrev pub eof : ℕ
eof = 255

abbrev pub peek : Lexer → ℕ
peek lexer = get_or lexer.input lexer.pos_current 0

unfoldable pub reset_token_ctx : Lexer → Lexer
reset_token_ctx lexer = record lexer { pos_start = lexer.pos_current; start = lexer.current }

-- The position after the byte `c`. The column is not reset at a newline.
abbrev pub advance : ℕ → Point → Point
advance c p = record { l = if c == b'\n' then inc32 p.l else p.l; c = inc32 p.c }

unfoldable pub next : Lexer → ℕ × Lexer
next lexer =
    let c = peek lexer in
    if c == 0 then (eof, lexer) else (
      c,
      record lexer { pos_current = inc32 lexer.pos_current; current = advance c lexer.current },
    )

unfoldable pub match : Lexer → ℕ → Bool × Lexer
match lexer expected = if peek lexer == expected then (true, (next lexer).1) else (false, lexer)

unfoldable pub backup : Lexer → Outcome Lexer
backup lexer =
    if lexer.pos_current == 0
    then fault assert_failed
    else let pos = dec32 lexer.pos_current in
      let under = get_or lexer.input pos 0 in
      ok (record lexer {
        pos_current = pos;
        current = record {
          l = if under == b'\n' then dec32 lexer.current.l else lexer.current.l;
          c = dec32 lexer.current.c;
        };
      })

abbrev pub mem_byte : ℕ → List ℕ → Bool
mem_byte c [] = false
mem_byte c (x ∷ xs) = x == c || mem_byte c xs

unfoldable pub accept : List ℕ → Lexer → Outcome (Bool × Lexer)
accept accept_list lexer =
    let (c, read) = next lexer in
    if mem_byte c accept_list then ok (true, read) else (backup read >>= λ back. ok (false, back))

unfoldable pub accept_run : ℕ → List ℕ → Lexer → Outcome Lexer
accept_run zero accept_list lexer = fault out_of_fuel
accept_run (suc f) accept_list lexer = accept accept_list lexer >>= λ r. elim (r.0) [
  | true ↦ accept_run f accept_list (r.1)
  | false ↦ ok (r.1)
]

-- `lexer->pos_current - lexer->pos_start` bytes from `pos_start` on.
abbrev pub current_text : Lexer → List ℕ
current_text lexer =
    take (sub32 lexer.pos_current lexer.pos_start) (drop lexer.pos_start lexer.input)

unfoldable pub emit : Lexer → TokenKind → Token × Lexer
unfolding reset_token_ctx
emit lexer kind = (
  record { kind = kind; start = lexer.start; end = lexer.current; lexeme = current_text lexer },
  reset_token_ctx lexer,
)

-- `text` is what the string builder holds before its terminating zero.
unfoldable pub emit_str : Lexer → List ℕ → TokenKind → Token × Lexer
unfolding emit
emit_str lexer text kind =
    let (token, after) = emit lexer kind in (record token { lexeme = text }, after)

abbrev pub is_numeric : ℕ → Bool
is_numeric c = leb b'0' c && leb c b'9'

abbrev pub is_alpha : ℕ → Bool
is_alpha c = (leb b'a' c && leb c b'z') || (leb b'A' c && leb c b'Z')

abbrev pub is_valid_identifier : ℕ → Bool
is_valid_identifier c = is_numeric c || is_alpha c || c == b'_'

unfoldable pub lex_init : ErrorHandler → List ℕ → Lexer
lex_init e input = record {
  e = e;
  input = input;
  pos_start = 0;
  pos_current = 0;
  start = origin;
  current = origin;
  has_next = false;
  next = bare_token token_err;
}
