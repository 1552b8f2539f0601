-- ===== src/Types/Offsets.antt =====
-- The layout of a struct (compiler/type.c: the last loop of typegen): members lie one behind another.
use metagen.Base.{
  ℕ, ◌+◌, ◌*◌, ◌%◌, ◌^◌, ◌≤◌, ◌<◌, ◌≡◌, refl, sym, ap, ◌∙◌, arith, false, List, [], ◌∷◌, Option,
  none, some, bytes_eq, Outcome, ok, fault, bad_access, ◌>>=◌, Ensures, Ensures-bind,
}
use metagen.Types.{
  TypeInfo, integer, boolean, struct, enum, func, array, pointer, null_pointer, type_info_bit_size,
}
use metagen.Types.Store.{TypeInfoStructMember}
use metagen.Types.Layout.{resize, place_members}

-- A value of the type does not contain the struct, unless behind a pointer.
abbrev pub NotIn : List ℕ → TypeInfo → Type 0
NotIn name (struct n bits) = bytes_eq n name ≡ false
NotIn name (array n t elements) = NotIn name t
NotIn name _ = Unit

size-resize :
    (name : List ℕ) (size : ℕ) (t : TypeInfo)
    → NotIn name t
    → type_info_bit_size (resize name size t) ≡ type_info_bit_size t
unfolding resize type_info_bit_size
size-resize name size (struct n bits) e = rw (e) refl
size-resize name size (array n t elements) e =
    ap (λ s. elements * s % 2 ^ 32) (size-resize name size t e)
size-resize name size (pointer n t level) e = refl
size-resize name size (null_pointer n) e = refl
size-resize name size (integer n b s) e = refl
size-resize name size (boolean n) e = refl
size-resize name size (enum n) e = refl
size-resize name size (func n) e = refl

-- Every member has a type, and none contains the struct.
abbrev pub Sound : List ℕ → List TypeInfoStructMember → Type 0
Sound name [] = Unit
Sound name (m ∷ ms) = ((t : TypeInfo) × (m.type ≡ some t) × NotIn name t) × Sound name ms

abbrev pub size_of : Option TypeInfo → ℕ
size_of none = 0
size_of (some t) = type_info_bit_size t

abbrev pub total_size : List TypeInfoStructMember → ℕ
total_size [] = 0
total_size (m ∷ ms) = size_of m.type + total_size ms

-- Members in the order of `ms`, with their names and types, lie between `start` and `stop`, and none begins before
-- the one in front of it ends.
abbrev pub Apart : ℕ → ℕ → List TypeInfoStructMember → List TypeInfoStructMember → Type 0
Apart start stop [] [] = start ≤ stop
Apart start stop (m ∷ ms) (n ∷ ns) =
    (n.name ≡ m.name)
    × (n.type ≡ m.type)
    × (start ≤ n.offset)
    × Apart (n.offset + size_of m.type) stop ms ns
Apart start stop _ _ = ⊥

place_none : (name : List ℕ) (start : ℕ) → place_members name start [] ≡ ok ([], start)
unfolding place_members
place_none name start = refl

place_typed :
    (name : List ℕ) (start : ℕ) (m : TypeInfoStructMember) (ms : List TypeInfoStructMember)
    (t : TypeInfo)
    → m.type ≡ some t
    → place_members name start (m ∷ ms) ≡ (
        place_members name ((start + type_info_bit_size (resize name start t)) % 2 ^ 32) ms >>= λ r.
        ok (record m { offset = start } ∷ r.0, r.1))
unfolding place_members
place_typed name start m ms t e =
    ap
      (λ (o : Option TypeInfo). elim o as (λ o. Outcome (List TypeInfoStructMember × ℕ)) [
        | none ↦ fault bad_access
        | some t ↦
            place_members name ((start + type_info_bit_size (resize name start t)) % 2 ^ 32) ms
            >>= λ r. ok (record m { offset = start } ∷ r.0, r.1)
      ])
      e

-- Members that have types, none of which contains the struct itself, and whose sizes come from `start` on to less
-- than 2 ^ 32 in all, are placed without a stop: they keep their order, names and types, none overlaps another, and
-- the size that is given back is the sum of their sizes from `start` on.
pub place_members-Apart :
    (name : List ℕ) (start : ℕ) (ms : List TypeInfoStructMember)
    → Sound name ms
    → start + total_size ms < 2 ^ 32
    → Ensures
        (λ r. (r.1 ≡ start + total_size ms) × Apart start r.1 ms r.0)
        (place_members name start ms)
place_members-Apart name start [] known fits = rw (place_none name start) (omega arith, omega arith)
place_members-Apart name start (m ∷ ms) ((t, e, free), known) fits =
    let next = (start + type_info_bit_size (resize name start t)) % 2 ^ 32 in
    let Q : List TypeInfoStructMember × ℕ → Type 0 =
      λ r. (r.1 ≡ start + (size_of m.type + total_size ms)) × Apart start r.1 (m ∷ ms) r.0 in
    let size : type_info_bit_size (resize name start t) ≡ size_of m.type =
      size-resize name start t free ∙ ap size_of (sym e) in
    let is_next : next ≡ start + size_of m.type = omega (arith, size, fits) in
    rw (place_typed name start m ms t e) (
      Ensures-bind (λ r. (r.1 ≡ next + total_size ms) × Apart next r.1 ms r.0) Q
        (place_members name next ms) _
        (place_members-Apart name next ms known (omega (arith, is_next, fits)))
        (λ r k. (
          (let a = k.0 in omega (arith, a, is_next)),
          (refl, refl, omega arith, rw (← is_next) k.1),
        )))
