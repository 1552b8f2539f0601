-- ===== src/Str/Decimal.antt =====
-- Number literals as decimal numbers.
use metagen.Base.{
  ℕ, suc, ◌+◌, ◌-◌, ◌*◌, ◌^◌, ◌<◌, ◌≡◌, ◌≢◌, ◌∙◌, ap, refl, arith, true, false, List, [], ◌∷◌, All,
  length, ltb, leb, ◌==◌, if◌then◌else◌, Bool,
}
use native.Mathlib.Nat.{pow-suc}
use metagen.Str.{is_digit, is_blank, digits, skip_blanks, to_ulong, read_u32, str_view_to_u32}

-- The result fits 32 bits.
pub str_view_to_u32-lt : (view : List ℕ) → (str_view_to_u32 view).0 < 2 ^ 32
unfolding str_view_to_u32 read_u32
str_view_to_u32-lt view = ground arith

abbrev pub AllDigits : List ℕ → Type 0
AllDigits text = All (λ c. is_digit c ≡ true) text

-- The number that a text of decimal digits stands for, by its digits' weights.
abbrev pub decimal : List ℕ → ℕ
decimal [] = 0
decimal (c ∷ cs) = (c - b'0') * 10 ^ length cs + decimal cs

shift : (acc d k n : ℕ) → (10 * acc + d) * 10 ^ k + n ≡ acc * 10 ^ suc k + (d * 10 ^ k + n)
shift acc d k n = let p = pow-suc 10 k in rw p (grind arith)

digits-decimal :
    (acc : ℕ) (text : List ℕ)
    → AllDigits text
    → digits acc text ≡ (acc * 10 ^ length text + decimal text, [])
unfolding digits
digits-decimal acc [] h = let e : acc ≡ acc * 10 ^ 0 + 0 = omega arith in ap (λ n. (n, [])) e
digits-decimal acc (c ∷ cs) (d, h) =
    rw d (digits-decimal (10 * acc + (c - b'0')) cs h)
    ∙ ap (λ n. (n, [])) (shift acc (c - b'0') (length cs) (decimal cs))

bounded :
    (n : ℕ)
    → ◌≡◌ {A = ℕ × Bool}
        (if ltb (to_ulong false n) (2 ^ 32) then (to_ulong false n, true) else (0, false))
        (if ltb n (2 ^ 32) then (n, true) else (0, false))
bounded n = ground arith

-- `str_view_to_u32` reads a text of one to 31 decimal digits as the number that it stands for, with
-- success, when that number is below 2^32, and as 0 without success when it is not.
pub str_view_to_u32-decimal :
    (text : List ℕ)
    → text ≢ []
    → AllDigits text
    → length text < 32
    → str_view_to_u32 text
      ≡ (if ltb (decimal text) (2 ^ 32) then (decimal text, true) else (0, false))
unfolding str_view_to_u32 read_u32 skip_blanks
str_view_to_u32-decimal [] z h l = absurd (z refl)
str_view_to_u32-decimal (c ∷ cs) z (d, h) l =
    let short : leb 32 (length (c ∷ cs)) ≡ false = ground arith in
    let value = digits-decimal 0 (c ∷ cs) (d, h) in
    let blank : is_blank c ≡ false = ground arith in
    let minus : (c == b'-') ≡ false = ground arith in
    let plus : (c == b'+') ≡ false = ground arith in
    let zero_in : 0 * 10 ^ length (c ∷ cs) + decimal (c ∷ cs) ≡ decimal (c ∷ cs) = omega arith in
    rw (short, blank, minus, plus, value, zero_in, d) (bounded (decimal (c ∷ cs)))
