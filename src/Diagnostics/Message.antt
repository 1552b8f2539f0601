-- ===== src/Diagnostics/Message.antt =====
-- The text of an error message (compiler/error.c): a prefix with the file and the line, and the
-- message, put together by the string builder. `error_lex`, `error_parse` and `error_node` build it
-- alike, from different lines; `error_sym` puts the symbol's name in front of the message. The message that
-- `error_msg_str8` is given is built by its caller.
use metagen.Base.{
  ℕ, suc, ◌+◌, ◌^◌, ◌≤◌, ◌≡◌, ◌≢◌, ◌∙◌, refl, sym, ap, arith, false, List, [], ◌∷◌, ◌++◌,
  append_assoc, ◌==◌, codes, length, length-append, Outcome, ok, fault, assert_failed, ◌>>=◌,
  Ensures, Ensures-value,
}
use metagen.Base.Int.{ℤ, negsuc}
use metagen.Str.Builder.{
  Str8Builder, make_str_builder, FormatArg, int_arg, str_arg, print_int, str_builder_sprintf,
  str_builder_append_u8, str_builder_append_cstr, str_builder_end, drop_last,
}
use metagen.Str.Builder.Grow.{
  Fits, Appended, str_builder_append_u8-Appended, str_builder_append_cstr-Appended,
}
use metagen.Str.Builder.Format.{format, arg_text, int_text, str_text, sprintf-Writes}

unfoldable pub error_message : List ℕ → ℤ → List ℕ → Outcome (List ℕ)
error_message file_name line msg = do
  sb ←
      str_builder_sprintf make_str_builder (codes "[%s @ line %d] ")
        (str_arg file_name ∷ int_arg line ∷ [])
  sb₁ ← str_builder_append_cstr sb msg
  str_builder_end sb₁ false

-- The line is -1 in every message about a symbol.
unfoldable pub error_sym_message : List ℕ → List ℕ → List ℕ → Outcome (List ℕ)
error_sym_message file_name msg name = do
  sb ←
      str_builder_sprintf make_str_builder (codes "[%s:%d] ")
        (str_arg file_name ∷ int_arg (negsuc 0) ∷ [])
  sb₁ ← str_builder_append_cstr sb name
  sb₂ ← str_builder_append_u8 sb₁ b':'
  sb₃ ← str_builder_append_u8 sb₂ b' '
  sb₄ ← str_builder_append_cstr sb₃ msg
  str_builder_end sb₄ false

abbrev prefix : List ℕ → ℤ → List ℕ
prefix file_name line = b'[' ∷ (file_name ++ (codes " @ line " ++ (print_int line ++ codes "] ")))

format-prefix :
    (file_name : List ℕ) (line : ℤ)
    → format (codes "[%s @ line %d] ") (str_arg file_name ∷ int_arg line ∷ [])
      ≡ ok (prefix file_name line)
unfolding format arg_text int_text str_text
format-prefix file_name line = refl

abbrev sym_prefix : List ℕ → List ℕ
sym_prefix file_name = b'[' ∷ (file_name ++ (b':' ∷ (print_int (negsuc 0) ++ codes "] ")))

format-sym_prefix :
    (file_name : List ℕ)
    → format (codes "[%s:%d] ") (str_arg file_name ∷ int_arg (negsuc 0) ∷ [])
      ≡ ok (sym_prefix file_name)
unfolding format arg_text int_text str_text
format-sym_prefix file_name = refl

drop_last-nonzero :
    (text : List ℕ) (c : ℕ) → c ≢ 0 → drop_last (text ++ c ∷ []) ≡ fault assert_failed
drop_last-nonzero [] c h = let e : (c == 0) ≡ false = ground arith in rw e
drop_last-nonzero (x ∷ []) c h = rw (drop_last-nonzero [] c h)
drop_last-nonzero (x ∷ y ∷ text) c h = rw (drop_last-nonzero (y ∷ text) c h)

-- What is written into a new builder: the format's text.
sprintf-new :
    (fmt : List ℕ) (args : List FormatArg) (text : List ℕ)
    → format fmt args ≡ ok text
    → length text ≤ 2 ^ 30
    → Ensures (Appended make_str_builder text) (str_builder_sprintf make_str_builder fmt args)
unfolding make_str_builder
sprintf-new fmt args text e l =
    sprintf-Writes fmt make_str_builder args
      (record { inside = omega arith; least = omega arith; most = omega arith }) text e
      (omega arith)

-- The end of every report: the message, and no terminating zero.
message-fault :
    (sb : Str8Builder) (msg : List ℕ) (c : ℕ)
    → Fits sb
    → c ≢ 0
    → length sb.str + suc (length msg) ≤ 2 ^ 30
    → (str_builder_append_cstr sb (msg ++ c ∷ []) >>= λ last. str_builder_end last false)
      ≡ fault assert_failed
unfolding str_builder_end
message-fault sb msg c fits z l =
    let (last, added, b) =
      Ensures-value (Appended sb (msg ++ c ∷ [])) (str_builder_append_cstr sb (msg ++ c ∷ [])) (
        str_builder_append_cstr-Appended sb (msg ++ c ∷ []) fits
          (omega (arith, length-append msg (c ∷ [])))) in
    let text : last.str ≡ (sb.str ++ msg) ++ c ∷ [] =
      b.str ∙ sym (append_assoc sb.str msg (c ∷ [])) in
    rw (added, text) (drop_last-nonzero (sb.str ++ msg) c z)

error_message_lem :
    (file_name : List ℕ) (line : ℤ) (msg : List ℕ) (c : ℕ)
    → c ≢ 0
    → length (prefix file_name line) + suc (length msg) ≤ 2 ^ 30
    → error_message file_name line (msg ++ c ∷ []) ≡ fault assert_failed
unfolding error_message make_str_builder
error_message_lem file_name line msg c z l =
    let args = str_arg file_name ∷ int_arg line ∷ [] in
    let fmt = codes "[%s @ line %d] " in
    let (sb, made, a) =
      Ensures-value (Appended make_str_builder (prefix file_name line))
        (str_builder_sprintf make_str_builder fmt args)
        (sprintf-new fmt args (prefix file_name line) (format-prefix file_name line)
          (omega arith)) in
    rw (made) (message-fault sb msg c a.fits z (omega (arith, ap length a.str)))

error_sym_message_lem :
    (file_name name msg : List ℕ) (c : ℕ)
    → c ≢ 0
    → length (sym_prefix file_name) + length name + length msg + 3 ≤ 2 ^ 30
    → error_sym_message file_name (msg ++ c ∷ []) name ≡ fault assert_failed
unfolding error_sym_message make_str_builder
error_sym_message_lem file_name name msg c z l =
    let args = str_arg file_name ∷ int_arg (negsuc 0) ∷ [] in
    let fmt = codes "[%s:%d] " in
    let (sb, made, a) =
      Ensures-value (Appended make_str_builder (sym_prefix file_name))
        (str_builder_sprintf make_str_builder fmt args)
        (sprintf-new fmt args (sym_prefix file_name) (format-sym_prefix file_name) (omega arith)) in
    let n = ap length a.str in
    let (s₁, named, b) =
      Ensures-value (Appended sb name) (str_builder_append_cstr sb name)
        (str_builder_append_cstr-Appended sb name a.fits (omega (arith, n))) in
    let n₁ = ap length b.str ∙ length-append sb.str name in
    let (s₂, colon, d) =
      Ensures-value (Appended s₁ (b':' ∷ [])) (str_builder_append_u8 s₁ b':')
        (str_builder_append_u8-Appended s₁ b':' b.fits (omega (arith, n, n₁))) in
    let n₂ = ap length d.str ∙ length-append s₁.str (b':' ∷ []) in
    let (s₃, blank, k) =
      Ensures-value (Appended s₂ (b' ' ∷ [])) (str_builder_append_u8 s₂ b' ')
        (str_builder_append_u8-Appended s₂ b' ' d.fits (omega (arith, n, n₁, n₂))) in
    let n₃ = ap length k.str ∙ length-append s₂.str (b' ' ∷ []) in
    rw (made, named, colon, blank) (message-fault s₃ msg c k.fits z (omega (arith, n, n₁, n₂, n₃)))

-- The messages of `error_lex`, `error_parse` and `error_node`, which have one form, and that of `error_sym`
-- fail the assertion at the end of `str_builder_end`, when the text given ends with a byte `c` that is not 0 and
-- the message has at most 2^30 bytes: nothing has written the terminating zero.
pub error_message-fault :
    (file_name name : List ℕ) (line : ℤ) (msg : List ℕ) (c : ℕ)
    → c ≢ 0
    → length (prefix file_name line) + suc (length msg) ≤ 2 ^ 30
    → length (sym_prefix file_name) + length name + length msg + 3 ≤ 2 ^ 30
    → (error_message file_name line (msg ++ c ∷ []) ≡ fault assert_failed)
      × (error_sym_message file_name (msg ++ c ∷ []) name ≡ fault assert_failed)
error_message-fault file_name name line msg c z l k =
    (error_message_lem file_name line msg c z l, error_sym_message_lem file_name name msg c z k)
