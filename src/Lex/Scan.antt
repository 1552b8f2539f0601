-- ===== src/Lex/Scan.antt =====
-- The scanning loops of the lexer (compiler/lex.c): `accept_run`, and the loop of `lex_ident` with its
-- `backup`.
use metagen.Base.{
  ℕ, zero, suc, ◌+◌, ◌≤◌, ◌<◌, ◌≡◌, ◌≢◌, ◌∙◌, sym, ap, Bool, true, false, not, ◌&&◌, List, [], ◌∷◌,
  arith, ◌==◌, Bool-cases, inl, inr, length, get_or, codes, ok, ◌>>=◌, Ensures, Ensures-imp,
}
use metagen.Lex.State.{
  Lexer, peek, next, backup, accept, accept_run, mem_byte, is_numeric, is_valid_identifier,
}
use metagen.Lex.Rules.{ident_run}
use metagen.Lex.Position.{WellPlaced, Moved, Moved-refl, Moved-trans, Read, next-Read, backup-next}

-- No byte of an identifier or a number stands directly before the end of the input. A source that
-- ends with a newline is such an input.
unfoldable pub ends_plain : List ℕ → Bool
ends_plain [] = true
ends_plain (x ∷ xs) = not (is_valid_identifier x && get_or xs 0 0 == 0) && ends_plain xs

pub ends_plain_at :
    (xs : List ℕ) (p : ℕ)
    → ends_plain xs ≡ true
    → is_valid_identifier (get_or xs p 0) ≡ true
    → get_or xs (suc p) 0 ≢ 0
unfolding ends_plain
ends_plain_at [] p h v = ground arith
ends_plain_at (x ∷ xs) zero h v = ground arith
ends_plain_at (x ∷ xs) (suc p) h v = ends_plain_at xs p (ground arith) v

-- `b` is the first place from `a` on whose byte fails `pred`.
pub record Stopped (pred : ℕ → Bool) (a b : Lexer) : Type 0 where
  pub moved : Moved a b
  pub run : (p : ℕ) → a.pos_current ≤ p → p < b.pos_current → pred (get_or a.input p 0) ≡ true
  pub stop : pred (peek b) ≡ false

Stopped-here :
    (pred : ℕ → Bool) (a : Lexer) → WellPlaced a → pred (peek a) ≡ false → Stopped pred a a
Stopped-here pred a w h = record {
  moved = Moved-refl a w;
  run = λ p l m. absurd (omega arith);
  stop = h;
}

Stopped-later :
    (pred : ℕ → Bool) (a b c : Lexer)
    → Moved a b
    → b.pos_current ≡ suc (a.pos_current)
    → pred (peek a) ≡ true
    → Stopped pred b c
    → Stopped pred a c
Stopped-later pred a b c m one h s = record {
  moved = Moved-trans a b c m s.moved;
  run = λ p l k. elim (Bool-cases (p == a.pos_current)) [
    | inl e ↦ let e' : p ≡ a.pos_current = ground arith in rw e' h
    | inr n ↦ rw m.input at (s.run p (ground arith) k)
  ];
  stop = s.stop;
}

-- The byte before `a` belongs to an identifier or a number.
abbrev pub Within : Lexer → Type 0
Within a = (q : ℕ) × (suc q ≡ a.pos_current) × (is_valid_identifier (get_or a.input q 0) ≡ true)

Within-peek : (a : Lexer) → ends_plain a.input ≡ true → Within a → peek a ≢ 0
Within-peek a h (q, e, v) = rw e at (ends_plain_at a.input q h v)

pub Within-Read :
    (a b : Lexer) (c : ℕ) → Read a c b → is_valid_identifier (peek a) ≡ true → Within b
Within-Read a b c r v = (a.pos_current, sym r.step, rw r.moved.input v)

ident_run_more :
    (f : ℕ) (a : Lexer)
    → is_valid_identifier (next a).0 ≡ true
    → ident_run (suc f) a ≡ ident_run f (next a).1
unfolding ident_run
ident_run_more f a h = rw (h, ident_run)

pub ident_run_done :
    (f : ℕ) (a : Lexer)
    → is_valid_identifier (next a).0 ≡ false
    → ident_run (suc f) a ≡ ok ((next a).1)
unfolding ident_run
ident_run_done f a h = rw (h, ident_run)

-- Called behind a byte of an identifier, the loop of `lex_ident` and the `backup` behind it return,
-- in the same token at the first place whose byte is no letter, digit or underscore: every byte
-- passed is one. The lexer must be well placed in an input that does not break off inside a word or
-- number, and the rounds must be more than the bytes left.
pub ident_run-Stopped :
    (f : ℕ) (a : Lexer)
    → WellPlaced a
    → ends_plain a.input ≡ true
    → Within a
    → length a.input < f + a.pos_current
    → Ensures (Stopped is_valid_identifier a) (ident_run f a >>= backup)
ident_run-Stopped zero a w h v l = absurd (omega (arith, w.inside))
ident_run-Stopped (suc f) a w h v l =
    let r = next-Read a w (Within-peek a h v) in
    elim (Bool-cases (is_valid_identifier (peek a))) [
      | inl valid ↦ rw (ident_run_more f a (ap is_valid_identifier r.byte ∙ valid)) (
          Ensures-imp _ _ (ident_run f (next a).1 >>= backup)
            (λ c s. Stopped-later _ a _ c r.moved r.step valid s)
            (ident_run-Stopped f (next a).1 r.moved.well (rw r.moved.input h)
              (Within-Read a _ _ r valid) (omega (arith, r.step, ap length r.moved.input))))
      | inr other ↦
          rw
            (
              ident_run_done f a (ap is_valid_identifier r.byte ∙ other),
              backup-next a w (Within-peek a h v),
            )
            (Stopped-here _ a w other)
    ]

mem_byte_digits : (c : ℕ) → mem_byte c (codes "0123456789") ≡ is_numeric c
mem_byte_digits c = ground arith

pub is_numeric_valid : (c : ℕ) → is_numeric c ≡ true → is_valid_identifier c ≡ true
is_numeric_valid c h = ground arith

accept_run_more :
    (f : ℕ) (digits : List ℕ) (a : Lexer)
    → mem_byte (next a).0 digits ≡ true
    → accept_run (suc f) digits a ≡ accept_run f digits (next a).1
unfolding accept accept_run
accept_run_more f digits a h = rw (accept, h)

accept_run_done :
    (f : ℕ) (digits : List ℕ) (a : Lexer)
    → mem_byte (next a).0 digits ≡ false
    → backup (next a).1 ≡ ok a
    → accept_run (suc f) digits a ≡ ok a
unfolding accept accept_run
accept_run_done f digits a h b = rw (accept, h, b)

-- Called behind a byte of an identifier or number, the loop of `lex_num` returns, in the same token
-- at the first place whose byte is no digit: every byte passed is one. The lexer must be well placed
-- in an input that does not break off inside a word or number, and the rounds must be more than the
-- bytes left.
pub accept_run-Stopped :
    (f : ℕ) (a : Lexer)
    → WellPlaced a
    → ends_plain a.input ≡ true
    → Within a
    → length a.input < f + a.pos_current
    → Ensures (Stopped is_numeric a) (accept_run f (codes "0123456789") a)
accept_run-Stopped zero a w h v l = absurd (omega (arith, w.inside))
accept_run-Stopped (suc f) a w h v l =
    let r = next-Read a w (Within-peek a h v) in
    let seen = mem_byte_digits (next a).0 ∙ ap is_numeric r.byte in
    elim (Bool-cases (is_numeric (peek a))) [
      | inl digit ↦ rw (accept_run_more f (codes "0123456789") a (seen ∙ digit)) (
          Ensures-imp _ _ (accept_run f (codes "0123456789") (next a).1)
            (λ c s. Stopped-later _ a _ c r.moved r.step digit s)
            (accept_run-Stopped f (next a).1 r.moved.well (rw r.moved.input h)
              (Within-Read a _ _ r (is_numeric_valid (peek a) digit))
              (omega (arith, r.step, ap length r.moved.input))))
      | inr other ↦
          rw
            (accept_run_done f (codes "0123456789") a (seen ∙ other)
              (backup-next a w (Within-peek a h v)))
            (Stopped-here _ a w other)
    ]
