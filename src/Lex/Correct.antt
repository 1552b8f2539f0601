-- ===== src/Lex/Correct.antt =====
-- The cases of `lex_next` (compiler/lex.c) against the description of tokens in Lex/Spelling.
use metagen.Base.{
  ℕ, zero, suc, ◌+◌, ◌<◌, ◌≡◌, ◌≢◌, ◌∙◌, inl, inr, sym, ap, refl, true, false, List, [], ◌∷◌, arith,
  length, ◌==◌, Bool-cases, Option, none, some, Option-cases, Outcome, Ensures, if_split,
}
use metagen.Lex.Token.{
  TokenKind, token_slash, token_lshift, token_less, token_rshift, token_greater, token_assignment,
  token_colon, token_neq, Token,
}
use metagen.Lex.State.{Lexer, eof, peek, next, emit, is_numeric, is_alpha}
use metagen.Lex.Rules.{
  loop_fuel, emit_pair, lex_bang, lex_default, lex_other, single_char, is_space, lex_slash,
  lex_switch, lex_fresh, lex_next,
}
use metagen.Lex.Position.{WellPlaced, Moved-trans, Read, next_end, next-Read}
use metagen.Lex.Scan.{ends_plain}
use metagen.Lex.Spelling.{Spells, Fresh, Lexed, IsBlank, CommentTo, stop, blank}
use metagen.Lex.Emit.{emit-Lexed, current_text_one, current_text_two, match_cases}
use metagen.Lex.Words.{lex_ident-Lexed, lex_num-Lexed}
use metagen.Lex.Strings.{failed-Lexed, lex_str-Lexed, Skipped, again_reset, lex_comment-Lexed}

two_bytes : (c x y : ℕ) → (c == x) ≡ true → ◌≡◌ {A = List ℕ} (c ∷ y ∷ []) (x ∷ y ∷ [])
two_bytes c x y h = ground arith

abbrev SpellsAt : ℕ → Option TokenKind → Type 0
SpellsAt c none = Unit
SpellsAt c (some kind) = Spells kind (c ∷ [])

one_byte : (c x : ℕ) → (c == x) ≡ true → ◌≡◌ {A = List ℕ} (c ∷ []) (x ∷ [])
one_byte c x h = ground arith

is_space-IsBlank : (c : ℕ) → is_space c ≡ true → IsBlank c
is_space-IsBlank c h = ground arith

single_char-SpellsAt : (c : ℕ) → SpellsAt c (single_char c)
unfolding single_char
single_char-SpellsAt c = if_split (SpellsAt c) (c == b'+') (one_byte c b'+') λ _.
    if_split (SpellsAt c) (c == b'-') (one_byte c b'-') λ _.
      if_split (SpellsAt c) (c == b'*') (one_byte c b'*') λ _.
        if_split (SpellsAt c) (c == b'(') (one_byte c b'(') λ _.
          if_split (SpellsAt c) (c == b')') (one_byte c b')') λ _.
            if_split (SpellsAt c) (c == b'[') (one_byte c b'[') λ _.
              if_split (SpellsAt c) (c == b']') (one_byte c b']') λ _.
                if_split (SpellsAt c) (c == b'=') (one_byte c b'=') λ _.
                  if_split (SpellsAt c) (c == b'.') (one_byte c b'.') λ _.
                    if_split (SpellsAt c) (c == b',') (one_byte c b',') λ _.
                      if_split (SpellsAt c) (c == b'&') (one_byte c b'&') λ _.
                        if_split (SpellsAt c) (c == b'^') (one_byte c b'^')
                          λ _. if_split (SpellsAt c) (c == b'@') (one_byte c b'@') λ _. tt

single_char-Spells : (c : ℕ) (kind : TokenKind) → single_char c ≡ some kind → Spells kind (c ∷ [])
single_char-Spells c kind h = rw h at (single_char-SpellsAt c)

-- `b` is behind the first byte `c` of a token that starts at `a`.
module _ (a b : Lexer) (c : ℕ) (f : Fresh a) (z : peek a ≢ 0) (plain : ends_plain a.input ≡ true)
    (r : Read a c b) where
  one-Lexed : (kind : TokenKind) → Spells kind (c ∷ []) → Lexed a (emit b kind)
  one-Lexed kind s =
      emit-Lexed a b kind f r.moved (omega (arith, r.step)) (rw (current_text_one a b c f z r) s)

  two-Lexed :
      (d : ℕ) (kind : TokenKind)
      → peek b ≢ 0
      → Read b d (next b).1
      → Spells kind (c ∷ d ∷ [])
      → Lexed a (emit (next b).1 kind)
  two-Lexed d kind z' r' s =
      let m = r.moved in
      let m' = r'.moved in
      emit-Lexed a (next b).1 kind f (Moved-trans a b (next b).1 m m')
        (omega (arith, r.step, m'.forward)) (rw (current_text_two a b (next b).1 c d f z r z' r') s)

  emit_pair-Lexed :
      (second : ℕ) (both one : TokenKind)
      → second ≢ 0
      → Spells both (c ∷ second ∷ [])
      → Spells one (c ∷ [])
      → Lexed a (emit_pair b second both one)
  unfolding emit_pair
  emit_pair-Lexed second both one nz sb so =
      let m = r.moved in
      elim (match_cases b second m.well nz) [
        | inl (found, z', r') ↦ rw (found, emit_pair) (two-Lexed second both z' r' sb)
        | inr other ↦ rw (other, emit_pair) (one-Lexed one so)
      ]

  lex_bang-Lexed : c ≡ b'!' → Lexed a (lex_bang b)
  unfolding lex_bang
  lex_bang-Lexed e =
      let m = r.moved in
      elim (match_cases b b'=' m.well (omega arith)) [
        | inl (found, z', r') ↦ rw (found, lex_bang) (two-Lexed b'=' token_neq z' r' (rw e))
        | inr other ↦ rw (other, lex_bang) (failed-Lexed a b _ m)
      ]

  single_char-Lexed : (kind : TokenKind) → single_char c ≡ some kind → Lexed a (emit b kind)
  single_char-Lexed kind h = one-Lexed kind (single_char-Spells c kind h)

  lex_default-Lexed : Ensures (Lexed a) (lex_default c b)
  unfolding lex_default
  lex_default-Lexed =
      if_split (Ensures (Lexed a)) (is_numeric c) (λ n. lex_num-Lexed a b c f z plain r n)
        λ _.
          if_split (Ensures (Lexed a)) (is_alpha c) (λ h. lex_ident-Lexed a b c f z plain r h)
            λ _. failed-Lexed a b _ r.moved

  lex_other-Lexed : Ensures (Lexed a) (lex_other c b)
  unfolding lex_other
  lex_other-Lexed =
      if_split (Ensures (Lexed a)) (c == b'<')
        (λ e.
          emit_pair-Lexed b'<' token_lshift token_less (omega arith) (two_bytes c b'<' b'<' e)
            (one_byte c b'<' e))
        λ _.
          if_split (Ensures (Lexed a)) (c == b'>')
            (λ e.
              emit_pair-Lexed b'>' token_rshift token_greater (omega arith)
                (two_bytes c b'>' b'>' e) (one_byte c b'>' e))
            λ _.
              if_split (Ensures (Lexed a)) (c == b':')
                (λ e.
                  emit_pair-Lexed b'=' token_assignment token_colon (omega arith)
                    (two_bytes c b':' b'=' e) (one_byte c b':' e))
                λ _.
                  if_split (Ensures (Lexed a)) (c == b'!') (λ e. lex_bang-Lexed (ground arith))
                    λ _. lex_default-Lexed

  module _ (again : Lexer → Outcome (Token × Lexer))
      (again-Lexed : (s : Lexer) → Skipped a s → Ensures (Lexed s) (again s)) where
    slashes_at :
        c ≡ b'/' → Read b b'/' (next b).1 → CommentTo a.input a.pos_current (next b).1.pos_current
    slashes_at e r' = (
      sym r.byte ∙ e,
      rw (← r.step, ← r.moved.input) (sym r'.byte),
      omega (arith, r.step, r'.step),
      λ i u v. absurd (omega (arith, r.step, r'.step)),
    )

    lex_slash-Lexed : c ≡ b'/' → Ensures (Lexed a) (lex_slash again b)
    unfolding lex_slash
    lex_slash-Lexed e =
        let m = r.moved in
        elim (match_cases b b'/' m.well (omega arith)) [
          | inl (found, z', r') ↦
              let m' = r'.moved in
              rw (found, lex_slash)
                (lex_comment-Lexed a again again-Lexed (next b).1 (Moved-trans a b (next b).1 m m')
                  (slashes_at e r'))
          | inr other ↦ rw (other, lex_slash) (one-Lexed token_slash (rw e))
        ]

    lex_switch-Lexed : Ensures (Lexed a) (lex_switch again c b)
    unfolding lex_switch
    lex_switch-Lexed =
        if_split (Ensures (Lexed a)) (c == eof)
          (λ e.
            let m = r.moved in
            record {
              well = m.well;
              input = m.input;
              slot = m.slot;
              forward = m.forward;
              reports = m.reports;
              outcome = inr (
                  inl (
                    refl,
                    inr (a.pos_current, sym r.byte ∙ ground arith),
                    (a.pos_current, stop a.pos_current, inl (inr (sym r.byte ∙ ground arith))),
                  ));
            })
          λ _.
            if_split (Ensures (Lexed a)) (is_space c)
              (λ e. again_reset a again again-Lexed b r.moved (omega (arith, r.step)) (
                rw (r.step) (
                  blank a.pos_current (suc a.pos_current) (rw (← r.byte) (is_space-IsBlank c e))
                    (stop (suc a.pos_current)))))
              λ _.
                if_split (Ensures (Lexed a)) (c == b'/') (λ e. lex_slash-Lexed (ground arith))
                  λ _.
                    if_split (Ensures (Lexed a)) (c == b'"')
                      (λ e. lex_str-Lexed a b c f r (ground arith))
                      λ _. elim (Option-cases (single_char c)) [
                        | inl new ↦ rw new lex_other-Lexed
                        | inr (kind, old) ↦ rw old (single_char-Lexed kind old)
                      ]

lex_fresh-Lexed :
    (f : ℕ) (a : Lexer)
    → WellPlaced a
    → Fresh a
    → ends_plain a.input ≡ true
    → length a.input < f + a.pos_current
    → Ensures (Lexed a) (lex_fresh f a)
unfolding lex_fresh lex_switch
lex_fresh-Lexed zero a w fr p h = absurd (omega (arith, w.inside))
lex_fresh-Lexed (suc f) a w fr p h = elim (Bool-cases (peek a == 0)) [
  | inl end_of_input ↦ rw (next_end a (ground arith)) (record {
    well = w;
    input = refl;
    slot = refl;
    forward = omega arith;
    reports = omega arith;
    outcome = inr (
        inl (
          refl,
          inl (ground arith, fr),
          (a.pos_current, stop a.pos_current, inl (inl (ground arith))),
        ));
  })
  | inr byte ↦
      lex_switch-Lexed a (next a).1 (next a).0 fr (ground arith) p (next-Read a w (ground arith))
        (lex_fresh f)
        (λ s k.
          lex_fresh-Lexed f s k.well k.fresh (rw (k.input) p)
            (omega (arith, k.ahead, ap length k.input)))
]

-- A call of `lex_next` from a well-placed fresh start with an empty look-ahead slot returns, in an
-- input that does not break off inside a word or number: it runs into no failed assertion and no
-- endless loop, where the report of an error returns, as it does without assertions. It leaves the lexer well
-- placed on the same input, not further back. The token is an error, and the list of reported errors has grown; or
-- TOKEN_EOF, at the end of the input or in an input with a byte 0xff, and from the old position on only blanks and
-- comments stand up to the end of the input or a byte 0xff; or it ends at the new position, begins
-- at or behind the old one with only blanks and comments between, and carries the lines of its two ends. In this case its text is that
-- part of the input and fits the token's kind, or it is a string, which begins with a quote: its text is what stands up to the
-- closing quote in front of the new position, each byte for itself and \" for a quote.
pub lex_next-Lexed :
    (a : Lexer)
    → WellPlaced a
    → Fresh a
    → ends_plain a.input ≡ true
    → a.has_next ≡ false
    → Ensures (Lexed a) (lex_next a)
unfolding lex_next
lex_next-Lexed a w fr p e =
    if_split (Ensures (Lexed a)) a.has_next (λ full. cc)
      λ _. lex_fresh-Lexed (loop_fuel a) a w fr p (omega arith)
