-- ===== src/Str/Builder/Grow.antt =====
-- The bytes that a string builder has reserved (base/str.c), and what has been appended to it.
use metagen.Base.{
  ℕ, zero, suc, ◌+◌, ◌*◌, ◌%◌, ◌^◌, ◌≤◌, ◌<◌, ◌≡◌, ◌∙◌, refl, ap, sym, arith, List, [], ◌∷◌, ◌++◌,
  append_assoc, ltb, ◌==◌, if_split, length, length-append, Outcome, ◌>>=◌, Ensures, Ensures-bind,
  Ensures-imp, append-nil,
}
use native.Mathlib.Nat.{pow-suc}
use metagen.Str.Builder.{
  Str8Builder, grow, store, str_builder_append_u8, reserve, str_builder_append_cstr, append_bytes,
}

-- What has been written lies in the reserved bytes, which are at least 16 and at most 2^31.
pub record Fits (sb : Str8Builder) : Type 0 where
  pub inside : length sb.str ≤ sb.cap
  pub least : 16 ≤ sb.cap
  pub most : sb.cap ≤ 2 ^ 31

-- `text` has been appended.
pub record Appended (sb : Str8Builder) (text : List ℕ) (after : Str8Builder) : Type 0 where
  pub fits : Fits after
  pub str : after.str ≡ sb.str ++ text

store-Appended :
    (room : Str8Builder) (text : List ℕ)
    → Fits room
    → length room.str + length text ≤ room.cap
    → Ensures (Appended room text) (store room text)
store-Appended room text z h =
    if_split (Ensures (Appended room text)) (ltb room.cap (length room.str + length text))
      (λ full. absurd (ground arith))
      λ _. record {
        fits = record {
          inside = omega (arith, length-append room.str text);
          least = z.least;
          most = z.most;
        };
        str = refl;
      }

-- Room for one byte more.
grown-Fits : (sb : Str8Builder) → Fits sb → sb.cap ≤ 2 ^ 30 → Fits (grow sb)
grown-Fits sb z l = record {
  inside = omega (arith, z.inside);
  least = omega (arith, z.least);
  most = omega (arith, z.most);
}

-- Appending a byte to less than 2^30 others stores it behind them, in reserved bytes.
pub str_builder_append_u8-Appended :
    (sb : Str8Builder) (c : ℕ)
    → Fits sb
    → length sb.str < 2 ^ 30
    → Ensures (Appended sb (c ∷ [])) (str_builder_append_u8 sb c)
unfolding str_builder_append_u8
str_builder_append_u8-Appended sb c z l =
    if_split (λ room. Ensures (Appended sb (c ∷ [])) (store room (c ∷ [])))
      (length sb.str == sb.cap)
      (λ full.
        let e : length sb.str ≡ sb.cap = ground arith in
        Ensures-imp (Appended (grow sb) (c ∷ [])) (Appended sb (c ∷ [])) (store (grow sb) (c ∷ []))
          (λ after a. record { fits = a.fits; str = a.str })
          (store-Appended (grow sb) (c ∷ []) (grown-Fits sb z (omega arith))
            (omega (arith, z.least))))
      λ space. store-Appended sb (c ∷ []) z (ground (arith, z.inside))

doubled : (cap f : ℕ) → cap * 2 ^ suc f ≡ cap * 2 * 2 ^ f
doubled cap f = let p = pow-suc 2 f in rw p (grind arith)

abbrev Reserved : Str8Builder → ℕ → Str8Builder → Type 0
Reserved sb len room = Fits room × (room.str ≡ sb.str) × (length sb.str + len ≤ room.cap)

reserve-Reserved :
    (f : ℕ) (sb : Str8Builder) (len : ℕ)
    → Fits sb
    → length sb.str + len ≤ 2 ^ 30
    → length sb.str + len ≤ sb.cap * 2 ^ f
    → Ensures (Reserved sb len) (reserve (suc f) sb len)
unfolding reserve
reserve-Reserved zero sb len z l h =
    if_split (Ensures (Reserved sb len)) (ltb sb.cap (length sb.str + len))
      (λ short. let short' : sb.cap < length sb.str + len = ground arith in absurd (omega arith))
      λ enough. (z, refl, ground arith)
reserve-Reserved (suc f) sb len z l h =
    if_split (Ensures (Reserved sb len)) (ltb sb.cap (length sb.str + len))
      (λ short.
        let short' : sb.cap < length sb.str + len = ground arith in
        let small : sb.cap * 2 % 2 ^ 32 ≡ sb.cap * 2 = omega arith in
        reserve-Reserved f (grow sb) len (grown-Fits sb z (omega arith)) l
          (rw small (rw (doubled sb.cap f) at h)))
      λ enough. (z, refl, ground arith)

-- Appending a text stores it behind what has been written, in reserved bytes, when the whole has at
-- most 2^30 bytes: the loop that doubles the reserved bytes comes to an end.
pub str_builder_append_cstr-Appended :
    (sb : Str8Builder) (cstr : List ℕ)
    → Fits sb
    → length sb.str + length cstr ≤ 2 ^ 30
    → Ensures (Appended sb cstr) (str_builder_append_cstr sb cstr)
unfolding str_builder_append_cstr
str_builder_append_cstr-Appended sb cstr z l =
    Ensures-bind (Reserved sb (length cstr)) (Appended sb cstr) (reserve 33 sb (length cstr)) _
      (reserve-Reserved 32 sb (length cstr) z l (omega (arith, z.least)))
      λ room r.
        Ensures-imp (Appended room cstr) (Appended sb cstr) (store room cstr)
          (λ after a. record { fits = a.fits; str = a.str ∙ ap (λ s. s ++ cstr) r.1 })
          (store-Appended room cstr r.0 (omega (arith, r.2, ap length r.1)))

-- One text behind another.
pub Appended-then :
    (sb : Str8Builder) (m : Outcome Str8Builder) (k : Str8Builder → Outcome Str8Builder)
    (text more : List ℕ)
    → Ensures (Appended sb text) m
    → ((after : Str8Builder) → Appended sb text after → Ensures (Appended after more) (k after))
    → Ensures (Appended sb (text ++ more)) (m >>= k)
Appended-then sb m k text more h f =
    Ensures-bind (Appended sb text) (Appended sb (text ++ more)) m k h λ after a.
      Ensures-imp (Appended after more) (Appended sb (text ++ more)) (k after)
        (λ last b. record {
          fits = b.fits;
          str = b.str ∙ ap (λ s. s ++ more) a.str ∙ append_assoc sb.str text more;
        })
        (f after a)

pub append_bytes-Appended :
    (sb : Str8Builder) (bytes : List ℕ)
    → Fits sb
    → length sb.str + length bytes ≤ 2 ^ 30
    → Ensures (Appended sb bytes) (append_bytes sb bytes)
unfolding append_bytes
append_bytes-Appended sb [] z l = record { fits = z; str = sym (append-nil sb.str) }
append_bytes-Appended sb (c ∷ cs) z l =
    Appended-then sb (str_builder_append_u8 sb c) (λ sb₁. append_bytes sb₁ cs) (c ∷ []) cs
      (str_builder_append_u8-Appended sb c z (omega arith))
      λ after a.
        append_bytes-Appended after cs a.fits
          (omega (arith, ap length a.str, length-append sb.str (c ∷ [])))
