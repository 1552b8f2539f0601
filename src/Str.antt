-- ===== src/Str.antt =====
-- Strings (base/str.c): the reading of a number literal.
pub mod Builder
pub mod Numbers
pub mod Decimal
mod Tests
use metagen.Base.{
  ℕ, zero, suc, ◌+◌, ◌-◌, ◌*◌, ◌%◌, ◌^◌, Bool, true, false, ◌&&◌, ◌||◌, not, List, [], ◌∷◌, ltb,
  leb, ◌==◌, if◌then◌else◌, length,
}

abbrev pub is_digit : ℕ → Bool
is_digit c = leb b'0' c && leb c b'9'

-- The value of the digits that a text begins with, on top of `acc`, and the text behind them.
unfoldable pub digits : ℕ → List ℕ → ℕ × List ℕ
digits acc [] = (acc, [])
digits acc (c ∷ cs) = if is_digit c then digits (10 * acc + (c - b'0')) cs else (acc, c ∷ cs)

-- What `isspace` holds of.
abbrev pub is_blank : ℕ → Bool
is_blank c = c == b' ' || (leb 9 c && leb c 13)

unfoldable pub skip_blanks : List ℕ → List ℕ
skip_blanks [] = []
skip_blanks (c ∷ cs) = if is_blank c then skip_blanks cs else c ∷ cs

abbrev pub starts_with_digit : List ℕ → Bool
starts_with_digit [] = false
starts_with_digit (c ∷ cs) = is_digit c

-- The end of a C string.
abbrev pub at_end : List ℕ → Bool
at_end [] = true
at_end (c ∷ cs) = c == 0

-- A sign, and the text behind it.
abbrev pub sign : List ℕ → Bool × List ℕ
sign [] = (false, [])
sign (c ∷ cs) = if c == b'-' then (true, cs) else if c == b'+' then (false, cs) else (false, c ∷ cs)

-- `strtoul` on the digits `n` behind a sign: ULONG_MAX past 64 bits, and a negation on 64 bits.
abbrev pub to_ulong : Bool → ℕ → ℕ
to_ulong negative n =
    if leb (2 ^ 64) n then 2 ^ 64 - 1 else if negative then (2 ^ 64 - n) % 2 ^ 64 else n

-- `strtoul(buf, &endptr, 10)` and the three tests behind it: the result, and `*success`.
unfoldable pub read_u32 : List ℕ → ℕ × Bool
read_u32 buf =
    let (negative, text) = sign (skip_blanks buf) in
    let (n, rest) = digits 0 text in
    let result = to_ulong negative n in
    if starts_with_digit text && at_end rest && ltb result (2 ^ 32)
    then (result, true)
    else (0, false)

unfoldable pub str_view_to_u32 : List ℕ → ℕ × Bool
str_view_to_u32 view = if leb 32 (length view) then (0, false) else read_u32 view
