-- ===== src/Str/Tests.antt =====
-- Literals read and messages formatted.
use metagen.Base.{List, ℕ, [], ◌∷◌, ok, ◌>>=◌, ◌≡◌, refl, arith, true, codes}
use metagen.Str.{str_view_to_u32}
use metagen.Base.Int.{pos, negsuc}
use metagen.Str.Builder.{
  make_str_builder, str_arg, int_arg, str_builder_sprintf, str_builder_end, decimal_digits,
}
use metagen.Str.Builder.Format.{
  format, arg_text, int_text, str_text, str_builder_end-str_builder_sprintf,
}
use metagen.Str.Numbers.{str_view_to_u32-str_builder_sprintf}
use metagen.Str.Decimal.{str_view_to_u32-decimal}

str_view_to_u32-decimal_example : str_view_to_u32 (codes "007") ≡ (7, true)
str_view_to_u32-decimal_example =
    str_view_to_u32-decimal (codes "007") (λ e. ground arith) (refl, (refl, (refl, tt)))
      (omega arith)

-- A text, a number, and a '%' that is no specifier.
abbrev message_format : List ℕ
message_format = codes "%s: %d%%x"

str_builder_end-str_builder_sprintf_example :
    (str_builder_sprintf make_str_builder message_format
        (str_arg (codes "line") ∷ int_arg (negsuc 41) ∷ [])
      >>= λ sb. str_builder_end sb true)
    ≡ ok (codes "line: -42%%x")
unfolding format arg_text int_text str_text decimal_digits
str_builder_end-str_builder_sprintf_example =
    str_builder_end-str_builder_sprintf message_format
      (str_arg (codes "line") ∷ int_arg (negsuc 41) ∷ []) (codes "line: -42%%x") refl (omega arith)

str_view_to_u32-str_builder_sprintf_example :
    (str_builder_sprintf make_str_builder (codes "%d") (int_arg (pos 2026) ∷ []) >>= λ sb.
    str_builder_end sb true >>= λ text. ok (str_view_to_u32 text))
    ≡ ok (2026, true)
str_view_to_u32-str_builder_sprintf_example = str_view_to_u32-str_builder_sprintf 2026 (omega arith)
