-- ===== src/Lex/Tail.antt =====
-- A source that breaks off inside a word or a number (compiler/lex.c): `next` does not move at the end
-- of the input, but the `backup` behind it does.
use metagen.Base.{
  ℕ, suc, ◌≡◌, ◌≢◌, inl, inr, ◌⊎◌, ap, refl, true, false, List, [], arith, length, get_or, Outcome,
  ok, Ensures, if_split, bind_assoc, none, sub32, bytes_eq, ◌>>=◌, codes,
}
use metagen.Lex.Token.{TokenKind, token_num, token_identifier, Token, reserved_words}
use metagen.Lex.State.{
  Lexer, eof, mem_byte, is_alpha, is_valid_identifier, peek, next, backup, accept, accept_run, emit,
  emit_str, is_numeric, reset_token_ctx, current_text,
}
use metagen.Lex.Rules.{
  lex_next, lex_fresh, lex_switch, lex_other, lex_default, lex_num, lex_ident, ident_run,
  emit_ident, find_reserved, loop_fuel, single_char,
}
use metagen.Lex.Position.{WellPlaced, next_end, next-Read, backup-next}
use metagen.Lex.Scan.{ident_run_done}
use metagen.Lex.Emit.{emit_str-same}
use metagen.Lex.Stream.{ends_stream}
use metagen.Lex.Spelling.{Fresh}

-- At the end of the input a run of digits stops at once, and steps back over the last digit.
accept_run_end :
    (f : ℕ) (digits : List ℕ) (a : Lexer)
    → WellPlaced a
    → mem_byte eof digits ≡ false
    → peek a ≢ 0
    → peek (next a).1 ≡ 0
    → accept_run (suc f) digits (next a).1 ≡ ok a
unfolding accept_run accept
accept_run_end f digits a w d z h = rw (accept, next_end (next a).1 h, d, backup-next a w z)

ident_run_end :
    (f : ℕ) (a : Lexer)
    → WellPlaced a
    → peek a ≢ 0
    → peek (next a).1 ≡ 0
    → (ident_run (suc f) (next a).1 >>= backup) ≡ ok a
ident_run_end f a w z h =
    let e = next_end (next a).1 h in
    rw (ident_run_done f (next a).1 (ap (λ r. is_valid_identifier r.0) e), ap (λ r. r.1) e)
      (backup-next a w z)

lex_switch_numeric :
    (again : Lexer → Outcome (Token × Lexer)) (c : ℕ) (b : Lexer)
    → is_numeric c ≡ true
    → lex_switch again c b ≡ lex_num b
unfolding lex_switch single_char lex_other lex_default
lex_switch_numeric again c b h = ground arith

lex_switch_alpha :
    (again : Lexer → Outcome (Token × Lexer)) (c : ℕ) (b : Lexer)
    → is_alpha c ≡ true
    → lex_switch again c b ≡ lex_ident b
unfolding lex_switch single_char lex_other lex_default
lex_switch_alpha again c b h = ground arith

-- A token with an empty text that does not stop a reader, and the lexer well placed at the same
-- place of the same input with nothing read.
pub record Stuck (a : Lexer) (r : Token × Lexer) : Type 0 where
  pub text : r.0.lexeme ≡ []
  pub kind : ends_stream r.0.kind ≡ false
  pub place : r.1.pos_current ≡ a.pos_current
  pub input : r.1.input ≡ a.input
  pub slot : r.1.has_next ≡ a.has_next
  pub fresh : Fresh r.1
  pub well : WellPlaced r.1

text_of_Fresh : (a : Lexer) → WellPlaced a → Fresh a → current_text a ≡ []
text_of_Fresh a w f =
    let n : sub32 a.pos_current a.pos_start ≡ 0 = omega (arith, w.bound, w.inside) in rw n

-- Any text that is empty, emitted where nothing has been read.
emit_str-Stuck :
    (a : Lexer) (text : List ℕ) (kind : TokenKind)
    → WellPlaced a
    → Fresh a
    → text ≡ []
    → ends_stream kind ≡ false
    → Stuck a (emit_str a text kind)
unfolding emit_str emit reset_token_ctx
emit_str-Stuck a text kind w f t k = record {
  text = t;
  kind = k;
  place = refl;
  input = refl;
  slot = refl;
  fresh = refl;
  well = record {
    bound = w.bound;
    inside = w.inside;
    ordered = omega arith;
    column = w.column;
    line = w.line;
    start_line = w.line;
  };
}

not_reserved_empty :
    (a : Lexer) → WellPlaced a → Fresh a → find_reserved (current_text a) reserved_words 0 ≡ none
unfolding find_reserved bytes_eq
not_reserved_empty a w f = rw (text_of_Fresh a w f)

emit_ident-Stuck : (a : Lexer) → WellPlaced a → Fresh a → Stuck a (emit_ident a)
unfolding emit_ident
emit_ident-Stuck a w f =
    rw (not_reserved_empty a w f, emit_ident)
      (emit_str-Stuck a (current_text a) token_identifier w f (text_of_Fresh a w f) refl)

-- When one letter or digit is left in front of the end of the input, a call of `lex_next` returns a
-- token with an empty text and leaves the lexer where it was.
pub lex_next-Stuck :
    (a : Lexer)
    → WellPlaced a
    → Fresh a
    → a.has_next ≡ false
    → (is_numeric (peek a) ≡ true) ⊎ (is_alpha (peek a) ≡ true)
    → get_or a.input (suc a.pos_current) 0 ≡ 0
    → Ensures (Stuck a) (lex_next a)
unfolding lex_next lex_fresh lex_num lex_ident
lex_next-Stuck a w f e kind h =
    let z : peek a ≢ 0 = λ q. ground arith in
    let r = next-Read a w z in
    let last : peek (next a).1 ≡ 0 = rw (r.step, r.moved.input) h in
    if_split (Ensures (Stuck a)) a.has_next (λ full. cc)
      λ _. elim kind [
        | inl digit ↦
            rw
              (
                lex_switch_numeric (lex_fresh (length a.input)) (next a).0 (next a).1
                    (rw r.byte digit),
                accept_run_end (length (next a).1.input) (codes "0123456789") a w refl z last,
              )
              (rw (emit_str-same a token_num) at
                (emit_str-Stuck a (current_text a) token_num w f (text_of_Fresh a w f) refl))
        | inr letter ↦
            rw
              (
                lex_switch_alpha (lex_fresh (length a.input)) (next a).0 (next a).1
                    (rw r.byte letter),
                ← bind_assoc (ident_run (loop_fuel (next a).1) (next a).1) backup
                    (λ back. ok (emit_ident back)),
                ident_run_end (length (next a).1.input) a w z last,
              )
              (emit_ident-Stuck a w f)
      ]
