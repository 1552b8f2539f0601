-- ===== src/Comptime/Word.antt =====
-- `BytecodeWord`, an s64 (compiler/comptime/bytecode.h), and C's operators on it. What C leaves
-- undefined is a fault: a result out of range, a division by zero, a shift by less than 0 or more
-- than 63, and the left shift of a negative number. `>>` of a negative number keeps its sign.
use metagen.Base.{
  ℕ, suc, ◌-◌, ◌*◌, ◌/◌, ◌^◌, Bool, true, false, ltb, ◌==◌, if◌then◌else◌, Outcome, ok, fault,
  undefined,
}
use metagen.Base.Int.{ℤ, pos, negsuc, ◌+ℤ◌, ◌-ℤ◌, ◌*ℤ◌, ltb_ℤ}

abbrev pub in_range : ℤ → Bool
in_range (pos n) = ltb n (2 ^ 63)
in_range (negsuc n) = ltb n (2 ^ 63)

abbrev pub checked : ℤ → Outcome ℤ
checked z = if in_range z then ok z else fault undefined

abbrev pub of_bool : Bool → ℤ
of_bool true = pos 1
of_bool false = pos 0

unfoldable pub add_words : ℤ → ℤ → Outcome ℤ
add_words a b = checked (a +ℤ b)

unfoldable pub sub_words : ℤ → ℤ → Outcome ℤ
sub_words a b = checked (a -ℤ b)

unfoldable pub mul_words : ℤ → ℤ → Outcome ℤ
mul_words a b = checked (a *ℤ b)

-- The quotient, rounded towards 0.
abbrev pub quotient : ℤ → ℤ → ℤ
quotient (pos a) (pos b) = pos (a / b)
quotient (pos a) (negsuc b) = pos 0 -ℤ pos (a / suc b)
quotient (negsuc a) (pos b) = pos 0 -ℤ pos (suc a / b)
quotient (negsuc a) (negsuc b) = pos (suc a / suc b)

abbrev pub is_zero : ℤ → Bool
is_zero (pos n) = n == 0
is_zero (negsuc n) = false

unfoldable pub div_words : ℤ → ℤ → Outcome ℤ
div_words a b = if is_zero b then fault undefined else checked (quotient a b)

unfoldable pub shift_left : ℤ → ℤ → Outcome ℤ
shift_left (pos a) (pos k) = if ltb k 64 then checked (pos (a * 2 ^ k)) else fault undefined
shift_left _ _ = fault undefined

unfoldable pub shift_right : ℤ → ℤ → Outcome ℤ
shift_right (pos a) (pos k) = if ltb k 64 then ok (pos (a / 2 ^ k)) else fault undefined
shift_right (negsuc a) (pos k) = if ltb k 64 then ok (negsuc (a / 2 ^ k)) else fault undefined
shift_right _ _ = fault undefined

unfoldable pub greater_words : ℤ → ℤ → Outcome ℤ
greater_words a b = ok (of_bool (ltb_ℤ b a))

unfoldable pub less_words : ℤ → ℤ → Outcome ℤ
less_words a b = ok (of_bool (ltb_ℤ a b))

-- `!a`
abbrev pub not_word : ℤ → ℤ
not_word a = of_bool (is_zero a)

-- The 64-bit pattern of a word, and back.
abbrev pub to_bits : ℤ → ℕ
to_bits (pos n) = n
to_bits (negsuc n) = 2 ^ 64 - suc n

abbrev pub of_bits : ℕ → ℤ
of_bits n = if ltb n (2 ^ 63) then pos n else negsuc (2 ^ 64 - suc n)
