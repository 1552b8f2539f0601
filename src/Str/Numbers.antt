-- ===== src/Str/Numbers.antt =====
-- Numbers printed and read.
use metagen.Base.{
  ℕ, zero, suc, ◌+◌, ◌-◌, ◌*◌, ◌/◌, ◌%◌, ◌^◌, ◌≤◌, ◌<◌, ◌≡◌, ◌≢◌, ◌∙◌, refl, ap, arith, true, List,
  [], ◌∷◌, ◌++◌, length, length-append, ltb, if_split, append-nil, bind_assoc, sym, codes, ok,
  ◌>>=◌,
}
use native.Mathlib.Nat.{pow-suc}
use metagen.Base.Int.{pos}
use metagen.Str.{str_view_to_u32}
use metagen.Str.Decimal.{AllDigits, decimal, str_view_to_u32-decimal}
use metagen.Str.Builder.{
  decimal_digits, FormatArg, int_arg, make_str_builder, str_builder_sprintf, str_builder_end,
}
use metagen.Str.Builder.Format.{format, arg_text, int_text, str_builder_end-str_builder_sprintf}

AllDigits-append : (xs ys : List ℕ) → AllDigits xs → AllDigits ys → AllDigits (xs ++ ys)
AllDigits-append [] ys h k = k
AllDigits-append (x ∷ xs) ys (d, h) k = (d, AllDigits-append xs ys h k)

move_up : (a p n d : ℕ) → a * (p * 10) + (10 * n + d) ≡ 10 * (a * p + n) + d
move_up a p n d = grind arith

decimal-append : (xs : List ℕ) (c : ℕ) → decimal (xs ++ c ∷ []) ≡ 10 * decimal xs + (c - b'0')
decimal-append [] c = omega arith
decimal-append (x ∷ xs) c =
    let p = pow-suc 10 (length xs) in
    let len : length (xs ++ c ∷ []) ≡ suc (length xs) = omega (arith, length-append xs (c ∷ [])) in
    rw (decimal-append xs c, len, p) (move_up (x - b'0') (10 ^ length xs) (decimal xs) (c - b'0'))

-- The digits of a number of at most `f` digits.
record DigitsOf (f n : ℕ) (text : List ℕ) : Type 0 where
  digits : AllDigits text
  value : decimal text ≡ n
  short : length text ≤ f
  some_digit : text ≢ []

one_digit-DigitsOf : (f n : ℕ) → n < 10 → DigitsOf (suc f) n ((b'0' + n) ∷ [])
one_digit-DigitsOf f n h = record {
  digits = (ground arith, tt);
  value = omega arith;
  short = omega arith;
  some_digit = λ e. cc;
}

more_digits-DigitsOf :
    (f n : ℕ) (text : List ℕ)
    → DigitsOf f (n / 10) text
    → DigitsOf (suc f) n (text ++ (b'0' + n % 10) ∷ [])
more_digits-DigitsOf f n text d =
    let last = decimal-append text (b'0' + n % 10) in
    let long = length-append text ((b'0' + n % 10) ∷ []) in
    record {
      digits = AllDigits-append text _ d.digits (ground arith, tt);
      value = omega (arith, last, d.value);
      short = omega (arith, long, d.short);
      some_digit = λ e. omega (arith, long, ap length e);
    }

decimal_digits-DigitsOf : (f n : ℕ) → n < 10 ^ suc f → DigitsOf (suc f) n (decimal_digits (suc f) n)
unfolding decimal_digits
decimal_digits-DigitsOf zero n h =
    if_split (DigitsOf 1 n) (ltb n 10) (λ one. one_digit-DigitsOf 0 n (omega arith))
      (λ more. absurd (ground arith))
decimal_digits-DigitsOf (suc f) n h =
    if_split (DigitsOf (suc (suc f)) n) (ltb n 10)
      (λ one. one_digit-DigitsOf (suc f) n (ground arith))
      λ more.
        let p = pow-suc 10 (suc f) in
        more_digits-DigitsOf (suc f) n (decimal_digits (suc f) (n / 10))
          (decimal_digits-DigitsOf f (n / 10) (omega arith))

str_view_to_u32-digits : (n : ℕ) → n < 2 ^ 31 → str_view_to_u32 (decimal_digits 10 n) ≡ (n, true)
str_view_to_u32-digits n h =
    let d = decimal_digits-DigitsOf 9 n (omega arith) in
    let v = d.value in
    let fits : ltb (decimal (decimal_digits 10 n)) (2 ^ 32) ≡ true = ground arith in
    str_view_to_u32-decimal (decimal_digits 10 n) d.some_digit d.digits (omega (arith, d.short))
    ∙ rw (fits, v) refl

format-number :
    (n : ℕ) → format (codes "%d") (int_arg (pos n) ∷ []) ≡ ok (decimal_digits 10 n ++ [])
unfolding format arg_text int_text
format-number n = refl

-- A number of an int that is not negative, formatted by '%d' into a new builder that is then ended with a
-- zero, is read back with success by `str_view_to_u32`.
pub str_view_to_u32-str_builder_sprintf :
    (n : ℕ)
    → n < 2 ^ 31
    → (str_builder_sprintf make_str_builder (codes "%d") (int_arg (pos n) ∷ []) >>= λ sb.
        str_builder_end sb true >>= λ text. ok (str_view_to_u32 text))
      ≡ ok (n, true)
str_view_to_u32-str_builder_sprintf n h =
    let d = decimal_digits-DigitsOf 9 n (omega arith) in
    let args : List FormatArg = int_arg (pos n) ∷ [] in
    let made =
      str_builder_end-str_builder_sprintf (codes "%d") args (decimal_digits 10 n)
        (format-number n ∙ ap ok (append-nil (decimal_digits 10 n))) (omega (arith, d.short)) in
    sym (
      bind_assoc (str_builder_sprintf make_str_builder (codes "%d") args)
        (λ sb. str_builder_end sb true) (λ text. ok (str_view_to_u32 text)))
    ∙ ap (λ m. m >>= λ text. ok (str_view_to_u32 text)) made
    ∙ ap ok (str_view_to_u32-digits n h)
