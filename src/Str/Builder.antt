-- ===== src/Str/Builder.antt =====
-- The string builder (base/str.c). `str` is what has been written and `cap` the bytes reserved: the
-- source doubles them by one more allocation in its arena, which it counts on to lie behind the
-- first. A write behind the reserved bytes is a fault. The loop of str_builder_append_cstr has the
-- fuel for every doubling of a u32.
pub mod Grow
pub mod Format
use metagen.Base.{
  ℕ, zero, suc, ◌+◌, ◌*◌, ◌/◌, ◌%◌, ◌^◌, List, [], ◌∷◌, ◌++◌, ltb, ◌==◌, if◌then◌else◌, length,
  Outcome, ok, fault, bad_access, undefined, out_of_fuel, assert_failed, ◌>>=◌, Option, none, some,
  Bool, true, false,
}
use metagen.Base.Int.{ℤ, pos, negsuc}

pub record Str8Builder : Type 0 where
  pub str : List ℕ
  pub cap : ℕ

unfoldable pub make_str_builder : Str8Builder
make_str_builder = record { str = []; cap = 16 }

-- `sb->cap *= 2`
abbrev pub grow : Str8Builder → Str8Builder
grow sb = record sb { cap = sb.cap * 2 % 2 ^ 32 }

-- Bytes stored behind what has been written.
abbrev pub store : Str8Builder → List ℕ → Outcome Str8Builder
store sb bytes =
    if ltb sb.cap (length sb.str + length bytes)
    then fault bad_access
    else ok (record sb { str = sb.str ++ bytes })

unfoldable pub str_builder_append_u8 : Str8Builder → ℕ → Outcome Str8Builder
str_builder_append_u8 sb c =
    let room = if length sb.str == sb.cap then grow sb else sb in store room (c ∷ [])

-- The loop of `str_builder_append_cstr`.
unfoldable pub reserve : ℕ → Str8Builder → ℕ → Outcome Str8Builder
reserve zero sb len = fault out_of_fuel
reserve (suc f) sb len =
    let rest = reserve f (grow sb) len in if ltb sb.cap (length sb.str + len) then rest else ok sb

unfoldable pub str_builder_append_cstr : Str8Builder → List ℕ → Outcome Str8Builder
str_builder_append_cstr sb cstr = reserve 33 sb (length cstr) >>= λ room. store room cstr

abbrev pub str_builder_append_str8 : Str8Builder → List ℕ → Outcome Str8Builder
str_builder_append_str8 sb str = str_builder_append_cstr sb str

-- The decimal digits of a number, on fuel for the number of digits.
unfoldable pub decimal_digits : ℕ → ℕ → List ℕ
decimal_digits zero n = []
decimal_digits (suc f) n =
    let rest = decimal_digits f (n / 10) in
    if ltb n 10 then (b'0' + n) ∷ [] else rest ++ (b'0' + n % 10) ∷ []

-- What `snprintf(num_buffer, 32, "%d", num)` writes for an int, which has at most ten digits.
abbrev pub print_int : ℤ → List ℕ
print_int (pos n) = decimal_digits 10 n
print_int (negsuc n) = b'-' ∷ decimal_digits 10 (suc n)

-- An argument of `str_builder_sprintf`.
pub data FormatArg : Type 0 where
  int_arg : ℤ → FormatArg
  str_arg : List ℕ → FormatArg

-- The loop over the bytes of `num_buffer`.
unfoldable pub append_bytes : Str8Builder → List ℕ → Outcome Str8Builder
append_bytes sb [] = ok sb
append_bytes sb (c ∷ cs) = str_builder_append_u8 sb c >>= λ sb₁. append_bytes sb₁ cs

-- The case of 'd', and the case of 's': the builder, and the arguments that are left.
unfoldable pub append_int : Str8Builder → List FormatArg → Outcome (Str8Builder × List FormatArg)
append_int sb ((int_arg num) ∷ rest) = append_bytes sb (print_int num) >>= λ sb₁. ok (sb₁, rest)
append_int sb _ = fault undefined

unfoldable pub append_str : Str8Builder → List FormatArg → Outcome (Str8Builder × List FormatArg)
append_str sb ((str_arg str) ∷ rest) = str_builder_append_cstr sb str >>= λ sb₁. ok (sb₁, rest)
append_str sb _ = fault undefined

-- The default case.
unfoldable pub append_unknown : Str8Builder → ℕ → Outcome Str8Builder
append_unknown sb c = str_builder_append_u8 sb b'%' >>= λ sb₁. str_builder_append_u8 sb₁ c

-- The switch on the byte behind a '%'.
unfoldable pub append_arg :
    Str8Builder → ℕ → List FormatArg → Outcome (Str8Builder × List FormatArg)
append_arg sb c args =
    if c == b'd'
    then append_int sb args
    else if c == b's'
    then append_str sb args
    else (append_unknown sb c >>= λ sb₁. ok (sb₁, args))

-- An argument missing, or of the wrong kind, is undefined.
unfoldable pub str_builder_sprintf : Str8Builder → List ℕ → List FormatArg → Outcome Str8Builder
str_builder_sprintf sb [] args = ok sb
str_builder_sprintf sb (c ∷ []) args = str_builder_append_u8 sb c
str_builder_sprintf sb (c ∷ d ∷ fmt) args =
    let as_arg = append_arg sb d args >>= λ r. str_builder_sprintf (r.0) fmt (r.1) in
    let as_char = str_builder_append_u8 sb c >>= λ sb₁. str_builder_sprintf sb₁ (d ∷ fmt) args in
    if c == b'%' then as_arg else as_char

-- The last byte, which must be the terminating zero, is left out.
abbrev pub drop_last : List ℕ → Outcome (List ℕ)
drop_last [] = fault bad_access
drop_last (c ∷ []) = if c == 0 then ok [] else fault assert_failed
drop_last (c ∷ d ∷ cs) = drop_last (d ∷ cs) >>= λ rest. ok (c ∷ rest)

unfoldable pub str_builder_end : Str8Builder → Bool → Outcome (List ℕ)
str_builder_end sb add_null_terminator = do
  sb₁ ← elim add_null_terminator [ true ↦ str_builder_append_u8 sb 0 | false ↦ ok sb ]
  drop_last sb₁.str
