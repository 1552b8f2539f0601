-- ===== src/Parser/Runs/Shown.antt =====
-- A call of `lex_peek` at a lexer that is ready.
use metagen.Base.{
  ◌≤◌, ◌<◌, ◌≡◌, ◌⊎◌, inl, inr, refl, ap, arith, true, false, not, if_split, length, Ensures,
  Ensures-bind,
}
use metagen.Lex.Token.{Token}
use metagen.Lex.State.{Lexer}
use metagen.Lex.Rules.{lex_next, lex_peek}
use metagen.Lex.Spelling.{Fresh, Lexed}
use metagen.Lex.Correct.{lex_next-Lexed}
use metagen.Lex.Stream.{ends_stream}
use metagen.Parser.Runs.Ready.{
  one_at_most, no_eof_at, Emitted-kind, Broken, Ready, left, Later, Later-refl, reslot-WellPlaced,
}

-- A token shown: it is in the slot, and no fewer tokens can be read than before.
pub record Shown (a : Lexer) (r : Token × Lexer) : Type 0 where
  pub slot : r.1.has_next ≡ true
  pub token : r.1.next ≡ r.0
  pub later : Later a r.1

-- The lexer behind a token that was put into the slot.
abbrev filled : Token × Lexer → Lexer
filled r = record (r.1) { has_next = true; next = r.0 }

Lexed-Shown :
    (a : Lexer) (r : Token × Lexer)
    → Ready a
    → a.has_next ≡ false
    → Lexed a r
    → Broken (filled r) ⊎ Fresh r.1
    → (Broken (filled r) → 0 < length r.1.e.errors)
    → left (filled r) ≤ left a
    → Shown a (r.0, filled r)
Lexed-Shown a r z h l f g n = record {
  slot = refl;
  token = refl;
  later = record {
    ready = record {
      well = reslot-WellPlaced r.1 r.1.e true r.0 l.well;
      plain = rw (l.input) (z.plain);
      text = rw (l.input) (z.text);
      fresh = f;
      reported = g;
    };
    input = l.input;
    less = n;
    reports = l.reports;
  };
}

empty-Shown :
    (a : Lexer) (r : Token × Lexer)
    → Ready a
    → a.has_next ≡ false
    → Lexed a r
    → Shown a (r.0, filled r)
empty-Shown a r z h l = elim (l.outcome) [
  | inl k ↦
      Lexed-Shown a r z h l (inl (refl, k.0)) (λ _. omega (arith, k.1))
        (rw (k.0) (omega (arith, l.forward, ap length l.input)))
  | inr k ↦ elim k [
    | inl k ↦ elim (k.1) [
      | inl f ↦
          Lexed-Shown a r z h l (inr f.1) (λ b. cc)
            (rw (k.0) (omega (arith, l.forward, ap length l.input)))
      | inr x ↦ absurd (no_eof_at a.input x.0 z.text x.1)
    ]
    | inr m ↦
        Lexed-Shown a r z h l (inr m.fresh) (λ b. absurd (Emitted-kind a r.0 r.1 m b.1))
          (let w : r.1.pos_current ≤ length r.1.input = l.well.inside in
            omega (
              arith,
              m.behind,
              m.longer,
              w,
              ap length l.input,
              one_at_most (not (ends_stream r.0.kind)),
            ))
  ]
]

-- A call of `lex_peek` at a lexer that is ready.
pub lex_peek-Shown : (a : Lexer) → Ready a → Ensures (Shown a) (lex_peek a)
unfolding lex_peek
lex_peek-Shown a r =
    if_split (Ensures (Shown a)) a.has_next
      (λ h. record { slot = h; token = refl; later = Later-refl a r })
      λ h. elim (r.fresh) [
        | inl b ↦ cc
        | inr f ↦
            Ensures-bind (Lexed a) (Shown a) (lex_next a) _ (lex_next-Lexed a r.well f r.plain h)
              λ x l. empty-Shown a x r h l
      ]
