-- ===== src/Lex/Stream.antt =====
-- The look-ahead slot, and the stream of tokens that repeated calls of `lex_next` give.
use metagen.Base.{
  ℕ, zero, suc, ◌+◌, ◌^◌, ◌<◌, ◌≡◌, ◌∙◌, inl, inr, sym, ap, refl, Bool, true, false, List, [], ◌∷◌,
  arith, length, Outcome, ok, fault, out_of_fuel, ◌>>=◌, Ensures, Ensures-bind, if_split,
  if◌then◌else◌,
}
use metagen.Diagnostics.{ErrorHandler}
use metagen.Lex.Token.{TokenKind, token_err, token_eof, Token}
use metagen.Lex.State.{Lexer, lex_init}
use metagen.Lex.Rules.{lex_next, lex_peek}
use metagen.Lex.Position.{newlines, WellPlaced}
use metagen.Lex.Scan.{ends_plain}
use metagen.Lex.Spelling.{Fresh, Emitted, Lexed}
use metagen.Lex.Correct.{lex_next-Lexed}

lex_peek_empty :
    (a b : Lexer) (token : Token)
    → a.has_next ≡ false
    → lex_next a ≡ ok (token, b)
    → lex_peek a ≡ ok (token, record b { has_next = true; next = token })
unfolding lex_peek
lex_peek_empty a b token e h =
    if_split (λ m. m ≡ ok (token, record b { has_next = true; next = token })) a.has_next
      (λ full. cc) (λ _. rw h)

-- When a call of `lex_next` with an empty look-ahead slot returns, `lex_peek` shows its token, a
-- second `lex_peek` shows it again and changes nothing, and `lex_next` then hands that token over and
-- leaves the lexer as the first call would have left it, but for the spent slot.
pub peek-next :
    (a b : Lexer) (token : Token)
    → a.has_next ≡ false
    → lex_next a ≡ ok (token, b)
    → (p : Lexer) × (lex_peek a ≡ ok (token, p))
      × (lex_peek p ≡ ok (token, p))
      × (lex_next p ≡ ok (token, record b { has_next = false; next = token }))
unfolding lex_peek lex_next
peek-next a b token e h =
    (record b { has_next = true; next = token }, lex_peek_empty a b token e h, refl, refl)

-- The two kinds at which a reader of tokens stops.
abbrev pub ends_stream : TokenKind → Bool
ends_stream token_err = true
ends_stream token_eof = true
ends_stream _ = false

-- The calls of `lex_next` up to the first error or the end of the input, at most `n`.
unfoldable pub tokens : ℕ → Lexer → Outcome (List Token)
tokens zero a = fault out_of_fuel
tokens (suc n) a = lex_next a >>= λ r.
    let rest = tokens n (r.1) in
    if ends_stream r.0.kind then ok (r.0 ∷ []) else (rest >>= λ ts. ok (r.0 ∷ ts))

-- The last token stops the stream, and no token before it does.
abbrev pub IsStream : List Token → Type 0
IsStream [] = ⊥
IsStream (t ∷ []) = ends_stream t.kind ≡ true
IsStream (t ∷ u ∷ ts) = (ends_stream t.kind ≡ false) × IsStream (u ∷ ts)

IsStream-cons :
    (t : Token) (ts : List Token) → ends_stream t.kind ≡ false → IsStream ts → IsStream (t ∷ ts)
IsStream-cons t [] h s = absurd s
IsStream-cons t (u ∷ ts) h s = (h, s)

-- A token that does not stop the stream is a text of the source.
Lexed-Emitted :
    (a : Lexer) (r : Token × Lexer) → Lexed a r → ends_stream r.0.kind ≡ false → Emitted a r.0 r.1
Lexed-Emitted a r l h = elim (l.outcome) [
  | inl e ↦ absurd (let e' = e.0 in ground arith)
  | inr k ↦ elim k [ inl e ↦ absurd (let e' = e.0 in ground arith) | inr m ↦ m ]
]

-- A reader that calls `lex_next` until an error or the end of the input stops after at most one
-- call more than the input has bytes: the calls come to an end on every source of less than 2^32
-- bytes that does not break off inside a word or number.
pub tokens-IsStream :
    (n : ℕ) (a : Lexer)
    → WellPlaced a
    → Fresh a
    → ends_plain a.input ≡ true
    → a.has_next ≡ false
    → length a.input < n + a.pos_current
    → Ensures IsStream (tokens n a)
unfolding tokens
tokens-IsStream zero a w f p e h = absurd (omega (arith, w.inside))
tokens-IsStream (suc n) a w f p e h =
    Ensures-bind (Lexed a) IsStream (lex_next a) _ (lex_next-Lexed a w f p e) λ r l.
      if_split (Ensures IsStream) (ends_stream r.0.kind) (λ stop. stop)
        λ more.
          let m = Lexed-Emitted a r l more in
          Ensures-bind IsStream IsStream (tokens n r.1) _
            (tokens-IsStream n r.1 l.well m.fresh (rw (l.input) p) (l.slot ∙ e)
              (omega (arith, m.behind, m.longer, ap length l.input)))
            λ ts s. IsStream-cons r.0 ts more s

newlines-zero : (xs : List ℕ) → newlines xs 0 ≡ 0
newlines-zero [] = refl
newlines-zero (x ∷ xs) = refl

-- The initial state of the lexer is well placed, when positions in the input fit 32 bits.
pub lex_init-WellPlaced :
    (e : ErrorHandler) (input : List ℕ) → length input < 2 ^ 32 → WellPlaced (lex_init e input)
unfolding lex_init
lex_init-WellPlaced e input h = record {
  bound = h;
  inside = omega arith;
  ordered = omega arith;
  column = omega arith;
  line = sym (newlines-zero input);
  start_line = sym (newlines-zero input);
}

-- Started by `lex_init` on a source of less than 2^32 bytes that does not break off inside a word
-- or number, a reader that calls `lex_next` until an error or the end of the input comes to an end
-- after at most one call more than the source has bytes, and only its last token is one of the two,
-- where the report of an error returns, as it does without assertions.
pub tokens-lex_init :
    (e : ErrorHandler) (input : List ℕ)
    → length input < 2 ^ 32
    → ends_plain input ≡ true
    → Ensures IsStream (tokens (suc (length input)) (lex_init e input))
unfolding lex_init
tokens-lex_init e input h p =
    tokens-IsStream (suc (length input)) (lex_init e input) (lex_init-WellPlaced e input h) refl p
      refl (omega arith)
