-- ===== src/Lex/Emit.antt =====
-- What `emit` hands out: the text between the two positions, and the two lines.
use metagen.Base.{
  ℕ, zero, suc, ◌+◌, ◌-◌, ◌≤◌, ◌<◌, ◌≡◌, ◌≢◌, ◌⊎◌, inl, inr, ◌∙◌, sym, refl, Bool, true, false,
  List, [], ◌∷◌, arith, All, length, get_or, sub32, ◌==◌, Bool-cases,
}
use metagen.Lex.Token.{TokenKind, token_str}
use metagen.Lex.State.{Lexer, peek, next, match, current_text, emit, emit_str, reset_token_ctx}
use metagen.Lex.Position.{WellPlaced, Moved, Moved-trans, Read, next-Read, get_or_inside}
use metagen.Lex.Spelling.{slice, Spells, Quoted, stop, Fresh, Lexed}

pub slice-cons :
    (xs : List ℕ) (from n : ℕ)
    → from < length xs
    → slice xs from (suc n) ≡ get_or xs from 0 ∷ slice xs (suc from) n
slice-cons [] from n h = absurd (omega arith)
slice-cons (x ∷ xs) zero n h = refl
slice-cons (x ∷ xs) (suc from) n h = slice-cons xs from n (omega arith)

pub All-slice :
    (xs : List ℕ) (pred : ℕ → Bool) (n from : ℕ)
    → from + n ≤ length xs
    → ((p : ℕ) → from ≤ p → p < from + n → pred (get_or xs p 0) ≡ true)
    → All (λ c. pred c ≡ true) (slice xs from n)
All-slice xs pred zero from l h = tt
All-slice xs pred (suc n) from l h = rw (slice-cons xs from n (omega arith)) (
  h from (omega arith) (omega arith),
  All-slice xs pred n (suc from) (omega arith) (λ p u v. h p (omega arith) (omega arith)),
)

-- The text so far, from a fresh start at `a`.
pub current_text-slice :
    (a b : Lexer)
    → Fresh a
    → Moved a b
    → current_text b ≡ slice a.input a.pos_current (b.pos_current - a.pos_current)
current_text-slice a b f m =
    let w = m.well in
    let n : sub32 b.pos_current b.pos_start ≡ b.pos_current - a.pos_current =
      omega (arith, m.started, m.forward, w.bound, w.inside) in
    rw (n, m.started ∙ f, m.input)

-- A token whose text is right is a token of the input.
pub emit_str-Lexed :
    (a b : Lexer) (text : List ℕ) (kind : TokenKind)
    → Fresh a
    → Moved a b
    → a.pos_current < b.pos_current
    → ((text ≡ current_text b) × Spells kind text)
      ⊎ ((kind ≡ token_str)
          × (peek a ≡ b'"')
          × Quoted a.input (suc a.pos_current) b.pos_current text)
    → Lexed a (emit_str b text kind)
unfolding emit_str emit reset_token_ctx
emit_str-Lexed a b text kind f m l t =
    let w = m.well in
    let slice_eq = current_text-slice a b f m in
    record {
      well = record {
        bound = w.bound;
        inside = w.inside;
        ordered = omega arith;
        column = w.column;
        line = w.line;
        start_line = w.line;
      };
      input = m.input;
      slot = m.slot;
      forward = omega arith;
      reports = omega (arith, m.reports);
      outcome = inr (
          inr (record {
            from = a.pos_current;
            behind = omega arith;
            longer = l;
            skipped = stop a.pos_current;
            text = elim t [ inl same ↦ inl (same.0 ∙ slice_eq, same.1) | inr str ↦ inr str ];
            start_line = rw (← m.input, ← f, ← m.started) (w.start_line);
            end_line = rw (← m.input) (w.line);
            fresh = refl;
          }));
    }

pub emit_str-same : (b : Lexer) (kind : TokenKind) → emit_str b (current_text b) kind ≡ emit b kind
unfolding emit_str emit
emit_str-same b kind = refl

pub emit-Lexed :
    (a b : Lexer) (kind : TokenKind)
    → Fresh a
    → Moved a b
    → a.pos_current < b.pos_current
    → Spells kind (current_text b)
    → Lexed a (emit b kind)
emit-Lexed a b kind f m l s =
    rw (emit_str-same b kind) at (emit_str-Lexed a b (current_text b) kind f m l (inl (refl, s)))

pub current_text_one :
    (a b : Lexer) (c : ℕ) → Fresh a → peek a ≢ 0 → Read a c b → current_text b ≡ c ∷ []
current_text_one a b c f z r =
    let n : b.pos_current - a.pos_current ≡ 1 = omega (arith, r.step) in
    current_text-slice a b f (r.moved)
    ∙ rw (n, slice-cons a.input a.pos_current 0 (get_or_inside a.input a.pos_current z), r.byte)

pub current_text_two :
    (a b c : Lexer) (x y : ℕ)
    → Fresh a
    → peek a ≢ 0
    → Read a x b
    → peek b ≢ 0
    → Read b y c
    → current_text c ≡ x ∷ y ∷ []
current_text_two a b c x y f z r z' s =
    let n : c.pos_current - a.pos_current ≡ 2 = omega (arith, r.step, s.step) in
    let next_byte : get_or a.input (suc a.pos_current) 0 ≡ y =
      (rw (← r.step, ← r.moved.input) (sym s.byte)) in
    let far : suc (a.pos_current) < length a.input =
      rw (← r.step, ← r.moved.input) (get_or_inside b.input b.pos_current z') in
    current_text-slice a c f (Moved-trans a b c r.moved s.moved)
    ∙ rw (
      n,
      slice-cons a.input a.pos_current 1 (get_or_inside a.input a.pos_current z),
      slice-cons a.input (suc a.pos_current) 0 far,
      next_byte,
      r.byte,
    )

-- `match` either reads the byte that it looks for, or leaves the lexer alone.
pub match_cases :
    (a : Lexer) (c : ℕ)
    → WellPlaced a
    → c ≢ 0
    → ((match a c ≡ (true, (next a).1)) × (peek a ≢ 0) × Read a c (next a).1)
      ⊎ (match a c ≡ (false, a))
unfolding match
match_cases a c w z = elim (Bool-cases (peek a == c)) [
  | inl same ↦
      let e : peek a ≡ c = ground arith in
      let z' : peek a ≢ 0 = λ h. z (sym e ∙ h) in
      let r = next-Read a w z' in
      inl (rw (match, same), z', record { moved = r.moved; byte = sym e; step = r.step })
  | inr other ↦ inr (rw (match, other))
]

pub Moved-reset :
    (a b : Lexer) → Moved a b → WellPlaced (reset_token_ctx b) × Fresh (reset_token_ctx b)
unfolding reset_token_ctx
Moved-reset a b m = let w = m.well in ground arith
