-- ===== src/Lex/Position.antt =====
-- Positions in the input: the lexer's invariant, and what `next`, `backup` and `accept` do to it.
use metagen.Base.{
  ℕ, zero, suc, ◌+◌, ◌^◌, ◌≤◌, ◌<◌, ◌≡◌, ◌≢◌, ◌∙◌, refl, List, [], ◌∷◌, arith, ◌==◌, if◌then◌else◌,
  length, get_or, ok,
}
use metagen.Lex.State.{Lexer, eof, peek, next, backup}

-- The newlines among the first `n` bytes.
abbrev pub newlines : List ℕ → ℕ → ℕ
newlines [] n = 0
newlines (x ∷ xs) zero = 0
newlines (x ∷ xs) (suc n) = (if x == b'\n' then 1 else 0) + newlines xs n

pub newlines-suc :
    (xs : List ℕ) (p : ℕ)
    → p < length xs
    → newlines xs (suc p) ≡ newlines xs p + (if get_or xs p 0 == b'\n' then 1 else 0)
newlines-suc [] p h = absurd (omega arith)
newlines-suc (x ∷ []) zero h = omega arith
newlines-suc (x ∷ y ∷ xs) zero h = omega arith
newlines-suc (x ∷ xs) (suc p) h = omega (arith, newlines-suc xs p (omega arith))

pub newlines-le : (xs : List ℕ) (p : ℕ) → newlines xs p ≤ length xs
newlines-le [] p = omega arith
newlines-le (x ∷ xs) zero = omega arith
newlines-le (x ∷ xs) (suc p) = ground (arith, newlines-le xs p)

-- A byte that is not 0 lies inside the input.
pub get_or_inside : (xs : List ℕ) (p : ℕ) → get_or xs p 0 ≢ 0 → p < length xs
get_or_inside [] p h = absurd (h refl)
get_or_inside (x ∷ xs) zero h = omega arith
get_or_inside (x ∷ xs) (suc p) h = omega (arith, get_or_inside xs p h)

-- The positions stand in order inside the input, and the line counters count its newlines.
pub record WellPlaced (a : Lexer) : Type 0 where
  pub bound : length a.input < 2 ^ 32
  pub inside : a.pos_current ≤ length a.input
  pub ordered : a.pos_start ≤ a.pos_current
  pub column : a.current.c < 2 ^ 32
  pub line : a.current.l ≡ newlines a.input a.pos_current
  pub start_line : a.start.l ≡ newlines a.input a.pos_start

-- `b` is `a` further on in the same token.
pub record Moved (a b : Lexer) : Type 0 where
  pub well : WellPlaced b
  pub input : b.input ≡ a.input
  pub slot : b.has_next ≡ a.has_next
  pub started : b.pos_start ≡ a.pos_start
  pub point : b.start ≡ a.start
  pub forward : a.pos_current ≤ b.pos_current
  pub reports : length a.e.errors ≤ length b.e.errors

pub Moved-refl : (a : Lexer) → WellPlaced a → Moved a a
Moved-refl a w = ground arith

pub Moved-trans : (a b c : Lexer) → Moved a b → Moved b c → Moved a c
Moved-trans a b c m n = record {
  well = n.well;
  input = n.input ∙ m.input;
  slot = n.slot ∙ m.slot;
  started = n.started ∙ m.started;
  point = n.point ∙ m.point;
  forward = omega (arith, m.forward, n.forward);
  reports = omega (arith, m.reports, n.reports);
}

-- `next` at a byte of the input: it hands over the byte and moves one on.
pub record Read (a : Lexer) (c : ℕ) (b : Lexer) : Type 0 where
  pub moved : Moved a b
  pub byte : c ≡ peek a
  pub step : b.pos_current ≡ suc (a.pos_current)

pub next_end : (a : Lexer) → peek a ≡ 0 → next a ≡ (eof, a)
unfolding next
next_end a h = ground arith

pub next-Read : (a : Lexer) → WellPlaced a → peek a ≢ 0 → Read a (next a).0 (next a).1
unfolding next
next-Read a w h = ground (
  arith,
  get_or_inside a.input a.pos_current h,
  newlines-suc a.input a.pos_current (get_or_inside a.input a.pos_current h),
  newlines-le a.input (suc a.pos_current),
)

-- Where the lexer is well placed at a byte of the input, `backup` behind `next` returns and gives the
-- lexer as it was, its positions, line and column.
pub backup-next : (a : Lexer) → WellPlaced a → peek a ≢ 0 → backup (next a).1 ≡ ok a
unfolding next backup
backup-next a w h =
    ground (arith, get_or_inside a.input a.pos_current h, newlines-le a.input a.pos_current)
