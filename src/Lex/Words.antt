-- ===== src/Lex/Words.antt =====
-- `lex_ident` and `lex_num` (compiler/lex.c) against the description of tokens in Lex/Spelling.
use metagen.Base.{
  ℕ, zero, suc, ◌+◌, ◌-◌, ◌≤◌, ◌<◌, ◌≡◌, ◌≢◌, ◌∙◌, inl, inr, sym, ap, refl, Bool, true, List, [],
  ◌∷◌, arith, All, length, get_or, get_elem?, codes, some, none, Option-cases, Bool-cases, bytes_eq,
  bytes_eq_iff, ok, ◌>>=◌, Ensures, Ensures-bind, bind_assoc,
}
use metagen.Lex.Token.{
  TokenKind, token_err, token_num, token_identifier, reserved_words, reserved_kinds,
}
use metagen.Lex.State.{
  Lexer, peek, backup, accept_run, current_text, is_numeric, is_alpha, is_valid_identifier,
}
use metagen.Lex.Rules.{loop_fuel, find_reserved, ident_run, emit_ident, lex_ident, lex_num}
use metagen.Lex.Position.{Moved, Moved-trans, Read}
use metagen.Lex.Scan.{
  ends_plain, Stopped, Within-Read, ident_run-Stopped, accept_run-Stopped, is_numeric_valid,
}
use metagen.Lex.Spelling.{slice, Spells, IsNumber, IsWord, NotReserved, Fresh, Lexed}
use metagen.Lex.Emit.{slice-cons, All-slice, current_text-slice, emit_str-same, emit-Lexed}

-- The search finds the text in the table, or the text is none of the words.
find_reserved-some :
    (text : List ℕ) (words : List (List ℕ)) (i j : ℕ)
    → find_reserved text words i ≡ some j
    → (k : ℕ) × (j ≡ i + k) × (get_elem? words k ≡ some text)
unfolding find_reserved
find_reserved-some text [] i j h = cc
find_reserved-some text (w ∷ ws) i j h = elim (Bool-cases (bytes_eq text w)) [
  | inl same ↦
      let e : i ≡ j = ground arith in (0, omega arith, ap some (sym ((bytes_eq_iff text w).0 same)))
  | inr other ↦
      let (k, e, g) = find_reserved-some text ws (i + 1) j (ground arith) in (suc k, omega arith, g)
]

find_reserved-none :
    (text : List ℕ) (words : List (List ℕ)) (i : ℕ)
    → find_reserved text words i ≡ none
    → NotReserved words text
unfolding find_reserved
find_reserved-none text [] i h = tt
find_reserved-none text (w ∷ ws) i h = elim (Bool-cases (bytes_eq text w)) [
  | inl same ↦ absurd (ground arith)
  | inr other ↦ (
    λ e. ground (arith, (bytes_eq_iff text w).1 e),
    find_reserved-none text ws (i + 1) (ground arith),
  )
]

-- The table of words and the enumerators from TOKEN_FUNC on stand in the same order.
abbrev Spelled : List (List ℕ) → List TokenKind → Type 0
Spelled [] kinds = Unit
Spelled (w ∷ ws) [] = ⊥
Spelled (w ∷ ws) (k ∷ ks) = Spells k w × Spelled ws ks

Spelled-at :
    (words : List (List ℕ)) (kinds : List TokenKind) (k : ℕ) (text : List ℕ)
    → Spelled words kinds
    → get_elem? words k ≡ some text
    → Spells (get_or kinds k token_err) text
Spelled-at [] kinds k text s h = cc
Spelled-at (w ∷ ws) [] k text s h = absurd s
Spelled-at (w ∷ ws) (t ∷ ts) zero text s h = let e : w ≡ text = cc in rw e at (s.0)
Spelled-at (w ∷ ws) (t ∷ ts) (suc k) text s h = Spelled-at ws ts k text s.1 h

reserved-Spelled : Spelled reserved_words reserved_kinds
reserved-Spelled = (
  refl,
  (
    refl,
    (
      refl,
      (
        refl,
        (
          refl,
          (
            refl,
            (
              refl,
              (refl, (refl, (refl, (refl, (refl, (refl, (refl, (refl, (refl, (refl, tt)))))))))),
            ),
          ),
        ),
      ),
    ),
  ),
)

emit_ident-Lexed :
    (a b : Lexer)
    → Fresh a
    → Moved a b
    → a.pos_current < b.pos_current
    → IsWord (current_text b)
    → Lexed a (emit_ident b)
unfolding emit_ident
emit_ident-Lexed a b f m l word =
    elim (Option-cases (find_reserved (current_text b) reserved_words 0)) [
      | inl new ↦
          rw (new, emit_ident, emit_str-same b token_identifier)
            (emit-Lexed a b token_identifier f m l (word, find_reserved-none _ _ 0 new))
      | inr (j, old) ↦
          let (k, e, g) = find_reserved-some _ _ 0 j old in
          let e' : j ≡ k = omega arith in
          rw (old, emit_ident)
            (emit-Lexed a b _ f m l
              (rw e' (Spelled-at reserved_words reserved_kinds k _ reserved-Spelled g)))
    ]

-- `b` is behind the first byte of a token, `s` behind the run that follows it.
module _ (a b s : Lexer) (c : ℕ) (f : Fresh a) (z : peek a ≢ 0) (r : Read a c b) where
  run_text :
      (pred : ℕ → Bool)
      → Stopped pred b s
      → (rest : List ℕ) × (current_text s ≡ c ∷ rest) × All (λ x. pred x ≡ true) rest
  run_text pred t =
      let m = t.moved in
      let w = m.well in
      let k = s.pos_current - b.pos_current in
      let n : s.pos_current - a.pos_current ≡ suc k = omega (arith, r.step, m.forward) in
      let inside : suc (a.pos_current) + k ≤ length a.input =
        omega (arith, r.step, m.forward, w.inside, ap length m.input, ap length r.moved.input) in
      (
        slice a.input (suc a.pos_current) k,
        current_text-slice a s f (Moved-trans a b s r.moved m)
            ∙ rw (n, slice-cons a.input a.pos_current k (omega arith), r.byte),
        All-slice a.input pred k (suc a.pos_current) inside (λ p u v.
            rw (r.moved.input) at (t.run p (omega (arith, r.step)) (omega (arith, r.step)))),
      )

  ident_text : is_alpha c ≡ true → Stopped is_valid_identifier b s → IsWord (current_text s)
  ident_text h t = let (rest, e, v) = run_text is_valid_identifier t in rw e (h, v)

  num_text : is_numeric c ≡ true → Stopped is_numeric b s → IsNumber (current_text s)
  num_text h t = let (rest, e, v) = run_text is_numeric t in rw e ((λ q. cc), (h, v))

is_alpha_valid : (c : ℕ) → is_alpha c ≡ true → is_valid_identifier c ≡ true
is_alpha_valid c h = ground arith

module _ (a b : Lexer) (c : ℕ) (f : Fresh a) (z : peek a ≢ 0) (plain : ends_plain a.input ≡ true)
    (r : Read a c b) where
  fuel_enough : length b.input < loop_fuel b + b.pos_current
  fuel_enough = omega arith

  -- An identifier or a keyword, as long as it goes.
  pub lex_ident-Lexed : is_alpha c ≡ true → Ensures (Lexed a) (lex_ident b)
  unfolding lex_ident
  lex_ident-Lexed h =
      let v : is_valid_identifier (peek a) ≡ true = rw (← r.byte) (is_alpha_valid c h) in
      let scanned =
        ident_run-Stopped (loop_fuel b) b r.moved.well (rw r.moved.input plain)
          (Within-Read a b c r v) fuel_enough in
      rw (← bind_assoc (ident_run (loop_fuel b) b) backup (λ back. ok (emit_ident back))) (
        Ensures-bind _ (Lexed a) (ident_run (loop_fuel b) b >>= backup) _ scanned λ s t.
          emit_ident-Lexed a s f (Moved-trans a b s r.moved t.moved)
            (omega (arith, r.step, t.moved.forward)) (ident_text a b s c f z r h t))

  pub lex_num-Lexed : is_numeric c ≡ true → Ensures (Lexed a) (lex_num b)
  unfolding lex_num
  lex_num-Lexed h =
      let v : is_valid_identifier (peek a) ≡ true = rw (← r.byte) (is_numeric_valid c h) in
      let scanned =
        accept_run-Stopped (loop_fuel b) b r.moved.well (rw r.moved.input plain)
          (Within-Read a b c r v) fuel_enough in
      Ensures-bind _ (Lexed a) (accept_run (loop_fuel b) (codes "0123456789") b) _ scanned λ s t.
        emit-Lexed a s token_num f (Moved-trans a b s r.moved t.moved)
          (omega (arith, r.step, t.moved.forward)) (num_text a b s c f z r h t)
