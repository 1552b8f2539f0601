-- ===== src/Str/Builder/Format.antt =====
-- The formatting of a message, against the text that the format stands for.
use metagen.Base.{
  ℕ, ◌+◌, ◌^◌, ◌≤◌, ◌<◌, ◌≡◌, ◌∙◌, refl, ap, sym, arith, List, [], ◌∷◌, ◌++◌, append_assoc, ◌==◌,
  if◌then◌else◌, length, length-append, Outcome, ok, fault, true, false, Bool, undefined, ◌>>=◌,
  >>=-eq-ok, Ensures, Ensures-value, Ensures-bind, Ensures-imp, append-nil,
}
use metagen.Str.Builder.{
  Str8Builder, make_str_builder, FormatArg, int_arg, str_arg, print_int, append_bytes, append_int,
  append_str, append_unknown, append_arg, str_builder_append_u8, str_builder_append_cstr,
  str_builder_sprintf, str_builder_end, drop_last,
}
use metagen.Str.Builder.Grow.{
  Fits, Appended, Appended-then, append_bytes-Appended, str_builder_append_u8-Appended,
  str_builder_append_cstr-Appended,
}

-- The text of one argument, and the arguments left: a number behind '%d', a text behind '%s', and
-- the two bytes themselves for any other byte behind a '%'.
unfoldable pub int_text : List FormatArg → Outcome (List ℕ × List FormatArg)
int_text ((int_arg num) ∷ rest) = ok (print_int num, rest)
int_text _ = fault undefined

unfoldable pub str_text : List FormatArg → Outcome (List ℕ × List FormatArg)
str_text ((str_arg str) ∷ rest) = ok (str, rest)
str_text _ = fault undefined

unfoldable pub arg_text : ℕ → List FormatArg → Outcome (List ℕ × List FormatArg)
arg_text c args =
    if c == b'd'
    then int_text args
    else if c == b's'
    then str_text args
    else ok (b'%' ∷ c ∷ [], args)

-- The text that a format stands for.
unfoldable pub format : List ℕ → List FormatArg → Outcome (List ℕ)
format [] args = ok []
format (c ∷ []) args = ok (c ∷ [])
format (c ∷ d ∷ fmt) args =
    let as_arg = arg_text d args >>= λ r. format fmt (r.1) >>= λ rest. ok (r.0 ++ rest) in
    let as_char = format (d ∷ fmt) args >>= λ rest. ok (c ∷ rest) in
    if c == b'%' then as_arg else as_char

-- What the switch appends, when the argument has a text that fits.
abbrev ArgAppended : Str8Builder → List ℕ → List FormatArg → Str8Builder × List FormatArg → Type 0
ArgAppended sb text left r = Appended sb text r.0 × (r.1 ≡ left)

abbrev Prints :
    Str8Builder
    → Outcome (List ℕ × List FormatArg)
    → Outcome (Str8Builder × List FormatArg)
    → Type 0
Prints sb wanted code =
    (text : List ℕ) (left : List FormatArg)
    → wanted ≡ ok (text, left)
    → length sb.str + length text ≤ 2 ^ 30
    → Ensures (ArgAppended sb text left) code

Prints-if :
    (sb : Str8Builder) (b : Bool) (w w' : Outcome (List ℕ × List FormatArg))
    (m m' : Outcome (Str8Builder × List FormatArg))
    → Prints sb w m
    → Prints sb w' m'
    → Prints sb (if b then w else w') (if b then m else m')
Prints-if sb true w w' m m' p q = p
Prints-if sb false w w' m m' p q = q

-- An action that appends the text, and the arguments that it leaves.
Prints-by :
    (sb : Str8Builder) (text : List ℕ) (left : List FormatArg) (m : Outcome Str8Builder)
    → (length sb.str + length text ≤ 2 ^ 30 → Ensures (Appended sb text) m)
    → Prints sb (ok (text, left)) (m >>= λ sb₁. ok (sb₁, left))
Prints-by sb text left m h text' left' e l =
    let t : text ≡ text' = cc in
    let u : left ≡ left' = cc in
    Ensures-bind (Appended sb text) (ArgAppended sb text' left') m _
      (h (omega (arith, ap length t))) λ after a. (rw (← t) a, u)

int_text-Prints :
    (sb : Str8Builder) (args : List FormatArg)
    → Fits sb
    → Prints sb (int_text args) (append_int sb args)
unfolding int_text append_int
int_text-Prints sb ((int_arg num) ∷ rest) z =
    Prints-by sb (print_int num) rest (append_bytes sb (print_int num))
      (append_bytes-Appended sb (print_int num) z)
int_text-Prints sb ((str_arg str) ∷ rest) z = λ text left e l. cc
int_text-Prints sb [] z = λ text left e l. cc

str_text-Prints :
    (sb : Str8Builder) (args : List FormatArg)
    → Fits sb
    → Prints sb (str_text args) (append_str sb args)
unfolding str_text append_str
str_text-Prints sb ((str_arg str) ∷ rest) z =
    Prints-by sb str rest (str_builder_append_cstr sb str)
      (str_builder_append_cstr-Appended sb str z)
str_text-Prints sb ((int_arg num) ∷ rest) z = λ text left e l. cc
str_text-Prints sb [] z = λ text left e l. cc

append_unknown-Appended :
    (sb : Str8Builder) (c : ℕ)
    → Fits sb
    → length sb.str + 2 ≤ 2 ^ 30
    → Ensures (Appended sb (b'%' ∷ c ∷ [])) (append_unknown sb c)
unfolding append_unknown
append_unknown-Appended sb c z l =
    Appended-then sb (str_builder_append_u8 sb b'%') (λ sb₁. str_builder_append_u8 sb₁ c)
      (b'%' ∷ []) (c ∷ []) (str_builder_append_u8-Appended sb b'%' z (omega arith))
      λ after a.
        str_builder_append_u8-Appended after c a.fits
          (omega (arith, ap length a.str, length-append sb.str (b'%' ∷ [])))

append_arg-Prints :
    (sb : Str8Builder) (c : ℕ) (args : List FormatArg)
    → Fits sb
    → Prints sb (arg_text c args) (append_arg sb c args)
unfolding append_arg arg_text
append_arg-Prints sb c args z =
    Prints-if sb (c == b'd') (int_text args) _ (append_int sb args) _ (int_text-Prints sb args z) (
      Prints-if sb (c == b's') (str_text args) _ (append_str sb args) _ (str_text-Prints sb args z)
        (Prints-by sb (b'%' ∷ c ∷ []) args (append_unknown sb c) (append_unknown-Appended sb c z)))

-- What formatting appends, when the format has a text that fits.
abbrev pub Writes : Str8Builder → Outcome (List ℕ) → Outcome Str8Builder → Type 0
Writes sb wanted code =
    (text : List ℕ)
    → wanted ≡ ok text
    → length sb.str + length text ≤ 2 ^ 30
    → Ensures (Appended sb text) code

Writes-if :
    (sb : Str8Builder) (b : Bool) (w w' : Outcome (List ℕ)) (m m' : Outcome Str8Builder)
    → Writes sb w m
    → Writes sb w' m'
    → Writes sb (if b then w else w') (if b then m else m')
Writes-if sb true w w' m m' p q = p
Writes-if sb false w w' m m' p q = q

Writes-char :
    (sb : Str8Builder) (c : ℕ) (w : Outcome (List ℕ)) (k : Str8Builder → Outcome Str8Builder)
    → Fits sb
    → ((after : Str8Builder) → Fits after → Writes after w (k after))
    → Writes sb (w >>= λ rest. ok (c ∷ rest)) (str_builder_append_u8 sb c >>= k)
Writes-char sb c w k z h text e l =
    let (rest, found, whole) = >>=-eq-ok w _ e in
    let t : c ∷ rest ≡ text = cc in
    rw (← t) (
      Appended-then sb (str_builder_append_u8 sb c) k (c ∷ []) rest
        (str_builder_append_u8-Appended sb c z (omega (arith, ap length t)))
        λ after a.
          h after a.fits rest found
            (omega (arith, ap length t, ap length a.str, length-append sb.str (c ∷ []))))

pub sprintf-Writes :
    (fmt : List ℕ) (sb : Str8Builder) (args : List FormatArg)
    → Fits sb
    → Writes sb (format fmt args) (str_builder_sprintf sb fmt args)
unfolding str_builder_sprintf format
sprintf-Writes [] sb args z = λ text e l.
    let t : [] ≡ text = cc in record { fits = z; str = rw (← t) (sym (append-nil sb.str)) }
sprintf-Writes (c ∷ []) sb args z = λ text e l.
    let t : c ∷ [] ≡ text = cc in
    rw (← t) (str_builder_append_u8-Appended sb c z (omega (arith, ap length t)))
sprintf-Writes (c ∷ d ∷ fmt) sb args z =
    Writes-if sb (c == b'%') _ _ _ _
      (λ text e l.
        let (r, found, e') = >>=-eq-ok (arg_text d args) _ e in
        let (rest, found', whole) = >>=-eq-ok (format fmt r.1) _ e' in
        let t : r.0 ++ rest ≡ text = cc in
        let long = length-append r.0 rest in
        rw (← t) (
          Ensures-bind (ArgAppended sb r.0 r.1) (Appended sb (r.0 ++ rest)) (append_arg sb d args) _
            (append_arg-Prints sb d args z r.0 r.1 found (omega (arith, ap length t)))
            λ s a.
              let b = a.0 in
              Ensures-imp (Appended s.0 rest) (Appended sb (r.0 ++ rest))
                (str_builder_sprintf s.0 fmt s.1)
                (λ last k. record {
                  fits = k.fits;
                  str = k.str ∙ ap (λ q. q ++ rest) b.str ∙ append_assoc sb.str r.0 rest;
                })
                (sprintf-Writes fmt s.0 s.1 b.fits rest (rw (a.1) found')
                  (omega (arith, ap length t, ap length b.str, length-append sb.str r.0)))))
      (Writes-char sb c (format (d ∷ fmt) args) (λ sb₁. str_builder_sprintf sb₁ (d ∷ fmt) args) z
        (λ after fits. sprintf-Writes (d ∷ fmt) after args fits))

drop_last-zero : (text : List ℕ) → drop_last (text ++ 0 ∷ []) ≡ ok text
drop_last-zero [] = refl
drop_last-zero (c ∷ []) = refl
drop_last-zero (c ∷ d ∷ cs) = rw (drop_last-zero (d ∷ cs))

-- When a format and its arguments stand for a text of less than 2^30 bytes, formatting into a new
-- builder and ending it with a zero gives that text: no write leaves the reserved bytes.
pub str_builder_end-str_builder_sprintf :
    (fmt : List ℕ) (args : List FormatArg) (text : List ℕ)
    → format fmt args ≡ ok text
    → length text < 2 ^ 30
    → (str_builder_sprintf make_str_builder fmt args >>= λ sb. str_builder_end sb true) ≡ ok text
unfolding make_str_builder str_builder_end
str_builder_end-str_builder_sprintf fmt args text e l =
    let (sb, returned, a) =
      Ensures-value (Appended make_str_builder text) (str_builder_sprintf make_str_builder fmt args)
        (sprintf-Writes fmt make_str_builder args
          (record { inside = omega arith; least = omega arith; most = omega arith }) text e
          (omega arith)) in
    let (last, returned', b) =
      Ensures-value (Appended sb (0 ∷ [])) (str_builder_append_u8 sb 0)
        (str_builder_append_u8-Appended sb 0 a.fits (omega (arith, ap length a.str))) in
    rw (returned, returned', b.str, a.str) (drop_last-zero text)
