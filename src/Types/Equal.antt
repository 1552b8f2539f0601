-- ===== src/Types/Equal.antt =====
-- `type_info_equal` (compiler/type.c) as a relation between types.
use metagen.Base.{ℕ, ◌≡◌, refl, sym, ◌∙◌, arith, true, List, bytes_eq, bytes_eq_iff, bytes_eq_refl}
use metagen.Types.{
  TypeInfo, integer, boolean, struct, enum, func, array, pointer, null_pointer, type_info_equal,
}

-- No pointer in the type is a null pointer.
abbrev pub NoNull : TypeInfo → Type 0
NoNull (null_pointer name) = ⊥
NoNull (pointer name target level) = NoNull target
NoNull (array name element n) = NoNull element
NoNull _ = Unit

-- A type is equal to itself.
pub type_info_equal_refl : (t : TypeInfo) → type_info_equal t t ≡ true
unfolding type_info_equal
type_info_equal_refl (array a t n) = ground (arith, type_info_equal_refl t)
type_info_equal_refl (pointer a t n) = ground (arith, type_info_equal_refl t)
type_info_equal_refl (integer a n s) = bytes_eq_refl a
type_info_equal_refl (boolean a) = bytes_eq_refl a
type_info_equal_refl (struct a n) = bytes_eq_refl a
type_info_equal_refl (enum a) = bytes_eq_refl a
type_info_equal_refl (func a) = bytes_eq_refl a
type_info_equal_refl (null_pointer a) = refl

bytes_eq_sym : (a b : List ℕ) → bytes_eq a b ≡ true → bytes_eq b a ≡ true
bytes_eq_sym a b h = (bytes_eq_iff b a).1 (sym ((bytes_eq_iff a b).0 h))

bytes_eq_trans : (a b c : List ℕ) → bytes_eq a b ≡ true → bytes_eq b c ≡ true → bytes_eq a c ≡ true
bytes_eq_trans a b c h k = (bytes_eq_iff a c).1 ((bytes_eq_iff a b).0 h ∙ (bytes_eq_iff b c).0 k)

-- `type_info_equal` is symmetric: types that are equal are equal in the other order.
pub type_info_equal_sym : (s t : TypeInfo) → type_info_equal s t ≡ true → type_info_equal t s ≡ true
unfolding type_info_equal
type_info_equal_sym (array a s n) (array b t m) h = ground (arith, type_info_equal_sym s t)
type_info_equal_sym (pointer a s n) (pointer b t m) h = ground (arith, type_info_equal_sym s t)
type_info_equal_sym (pointer a s n) (null_pointer b) h = refl
type_info_equal_sym (null_pointer a) (pointer b t m) h = refl
type_info_equal_sym (null_pointer a) (null_pointer b) h = refl
type_info_equal_sym (integer a _ _) (integer b _ _) h = bytes_eq_sym a b h
type_info_equal_sym (boolean a) (boolean b) h = bytes_eq_sym a b h
type_info_equal_sym (struct a _) (struct b _) h = bytes_eq_sym a b h
type_info_equal_sym (enum a) (enum b) h = bytes_eq_sym a b h
type_info_equal_sym (func a) (func b) h = bytes_eq_sym a b h
type_info_equal_sym _ _ h = cc

-- `type_info_equal` is transitive, when the type in the middle has no null pointer in it.
pub type_info_equal_trans :
    (s t u : TypeInfo)
    → NoNull t
    → type_info_equal s t ≡ true
    → type_info_equal t u ≡ true
    → type_info_equal s u ≡ true
unfolding type_info_equal
type_info_equal_trans (array a s n) (array b t m) (array c u k) z h h' =
    ground (arith, type_info_equal_trans s t u z)
type_info_equal_trans (pointer a s n) (pointer b t m) (pointer c u k) z h h' =
    ground (arith, type_info_equal_trans s t u z)
type_info_equal_trans (pointer a s n) (pointer b t m) (null_pointer c) z h h' = refl
type_info_equal_trans (null_pointer a) (pointer b t m) (pointer c u k) z h h' = refl
type_info_equal_trans (null_pointer a) (pointer b t m) (null_pointer c) z h h' = refl
type_info_equal_trans (integer a _ _) (integer b _ _) (integer c _ _) z h h' =
    bytes_eq_trans a b c h h'
type_info_equal_trans (boolean a) (boolean b) (boolean c) z h h' = bytes_eq_trans a b c h h'
type_info_equal_trans (struct a _) (struct b _) (struct c _) z h h' = bytes_eq_trans a b c h h'
type_info_equal_trans (enum a) (enum b) (enum c) z h h' = bytes_eq_trans a b c h h'
type_info_equal_trans (func a) (func b) (func c) z h h' = bytes_eq_trans a b c h h'
type_info_equal_trans _ _ _ z h h' = ground arith
