-- ===== src/Comptime/Layout.antt =====
-- Where code stands: bytes read back as they were written, and the code that a machine holds at a
-- place.
use metagen.Base.{
  ℕ, zero, suc, ◌+◌, ◌/◌, ◌^◌, ◌<◌, ◌≡◌, ◌∙◌, refl, sym, ap, arith, true, List, [], ◌∷◌, ◌++◌,
  append_assoc, length, drop, take, ok,
}
use Prim.Native.Nat.add
use native.Mathlib.Nat.{pow-suc, zero-add}
use metagen.Base.Int.{ℤ, pos, negsuc}
use metagen.Comptime.Word.{in_range, to_bits, of_bits}
use metagen.Comptime.Code.{le_bytes, le_value, Bytecode, append_code, overwrite}

pub length-le_bytes : (k v : ℕ) → length (le_bytes k v) ≡ k
unfolding le_bytes
length-le_bytes zero v = refl
length-le_bytes (suc k) v = ap suc (length-le_bytes k (v / 256))

pub le_value-le_bytes : (k v : ℕ) → v < 256 ^ k → le_value (le_bytes k v) ≡ v
unfolding le_bytes le_value
le_value-le_bytes zero v h = omega arith
le_value-le_bytes (suc k) v h =
    let p = pow-suc 256 k in omega (arith, le_value-le_bytes k (v / 256) (omega arith))

-- A word in range is its 64-bit pattern.
pub of_bits-to_bits : (z : ℤ) → in_range z ≡ true → of_bits (to_bits z) ≡ z
of_bits-to_bits (pos n) h = ground arith
of_bits-to_bits (negsuc n) h = ground arith

pub to_bits-lt : (z : ℤ) → in_range z ≡ true → to_bits z < 2 ^ 64
to_bits-lt (pos n) h = ground arith
to_bits-lt (negsuc n) h = ground arith

-- `c` stands in `code` from `ip` on.
abbrev pub Holds : List ℕ → ℕ → List ℕ → Type 0
Holds code ip c = (rest : List ℕ) × (drop ip code ≡ c ++ rest)

drop-append : (xs ys : List ℕ) → drop (length xs) (xs ++ ys) ≡ ys
drop-append [] ys = refl
drop-append (x ∷ xs) ys = drop-append xs ys

pub take-append : (xs ys : List ℕ) → take (length xs) (xs ++ ys) ≡ xs
take-append [] ys = refl
take-append (x ∷ xs) ys = ap (◌∷◌ x) (take-append xs ys)

drop-nil : (n : ℕ) → drop {A = ℕ} n [] ≡ []
drop-nil zero = refl
drop-nil (suc n) = refl

drop-drop : (n m : ℕ) (xs : List ℕ) → drop (n + m) xs ≡ drop m (drop n xs)
drop-drop zero m xs = rw zero-add
drop-drop (suc n) m [] = drop-nil (suc n + m) ∙ sym (drop-nil m)
drop-drop (suc n) m (x ∷ xs) = rw (add.suc n m) (drop-drop n m xs)

pub Holds-in : (before c rest : List ℕ) → Holds (before ++ (c ++ rest)) (length before) c
Holds-in before c rest = (rest, drop-append before (c ++ rest))

pub Holds-first : (code : List ℕ) (ip : ℕ) (c d : List ℕ) → Holds code ip (c ++ d) → Holds code ip c
Holds-first code ip c d (rest, e) = (d ++ rest, e ∙ append_assoc c d rest)

pub Holds-second :
    (code : List ℕ) (ip : ℕ) (c d : List ℕ) → Holds code ip (c ++ d) → Holds code (ip + length c) d
Holds-second code ip c d (rest, e) =
    (rest, drop-drop ip (length c) code ∙ rw (e, append_assoc) (drop-append c (d ++ rest)))

pub append_code_lem :
    (b b' : Bytecode) (bytes : List ℕ) → append_code b bytes ≡ ok b' → b'.code ≡ b.code ++ bytes
unfolding append_code
append_code_lem b b' bytes h = ground arith

-- A patch replaces bytes that have been written by as many others.
pub overwrite-append :
    (before old after new : List ℕ)
    → length old ≡ length new
    → overwrite (before ++ (old ++ after)) (length before) new ≡ before ++ (new ++ after)
unfolding overwrite
overwrite-append before old after new e = rw (
  take-append before (old ++ after),
  drop-drop (length before) (length new) (before ++ (old ++ after)),
  drop-append before (old ++ after),
  ← e,
  drop-append old after,
)
