-- ===== src/Types/Accepts.antt =====
-- The type checker (compiler/type.c: typecheck_expr) against the typing relation.
use metagen.Base.{
  ℕ, suc, ◌≡◌, refl, arith, true, String, [], ◌∷◌, length, Option, none, some, if◌then◌else◌,
  if_split, ok, ◌>>=◌, Settles, Settles-bind, length-append,
}
use metagen.HashMap.{StrMap}
use metagen.Diagnostics.{ErrorHandler, append_err, error_node, error_typecheck_binary}
use metagen.Lex.Token.{TokenKind, token_ampersand, token_star, is_kind}
use metagen.Ast.{AstExpr, expr_unary}
use metagen.Types.{
  TypeInfo, integer, boolean, struct, enum, func, array, pointer, null_pointer, type_info_equal,
}
use metagen.Types.Store.{Compiler}
use metagen.Types.Check.{
  head_type, equal_types, compare, address_type, dereferenced, unary_type, accessed_type,
}
use metagen.Types.Binding.{Grows, Silent}
use metagen.Types.Typing.{
  AddressOf, of_pointer, of_value, Accessed, directly, behind, HasType, address, target,
  null_target, unary,
}

error_node-length :
    (e : ErrorHandler) (msg : String) → length ((error_node e msg).errors) ≡ suc (length e.errors)
unfolding error_node append_err
error_node-length e msg =
    let l = length-append e.errors (record { line = none; name = []; msg = msg } ∷ []) in
    omega (arith, l)

-- What holds after a step that may report: `A`, if it did not.
abbrev pub Then : ErrorHandler → Type 0 → ErrorHandler → Type 0
Then e A e' = Grows e e' × (Silent e e' → A)

pub reported : (A : Type 0) (e : ErrorHandler) (msg : String) → Then e A (error_node e msg)
reported A e msg =
    let l = error_node-length e msg in (omega (arith, l), λ q. absurd (omega (arith, l, q)))

-- Two types that are there and equal.
abbrev pub Agree : Option TypeInfo → Option TypeInfo → Type 0
Agree a b = (s t : TypeInfo) × (a ≡ some s) × (b ≡ some t) × (type_info_equal s t ≡ true)

pub compare-Agree :
    (msg : String) (a b : Option TypeInfo) (e : ErrorHandler)
    → Settles (Then e (Agree a b)) (compare msg a b e)
unfolding compare equal_types
compare-Agree msg none b e = tt
compare-Agree msg (some s) none e = tt
compare-Agree msg (some s) (some t) e =
    if_split (Then e (Agree (some s) (some t))) (type_info_equal s t) {x = e}
      {y = error_typecheck_binary e msg} (λ z. (omega arith, λ q. (s, t, refl, refl, z)))
      (λ z. reported (Agree (some s) (some t)) e msg)

pub accessed_type-Accessed :
    (o : Option TypeInfo)
    → Settles (λ t. (s : TypeInfo) × (o ≡ some s) × Accessed s t) (accessed_type o)
unfolding accessed_type
accessed_type-Accessed none = tt
accessed_type-Accessed (some (pointer name t level)) =
    (pointer name t level, refl, behind name t level)
accessed_type-Accessed (some (null_pointer name)) = tt
accessed_type-Accessed (some (integer n b s)) = (integer n b s, refl, directly (integer n b s))
accessed_type-Accessed (some (boolean n)) = (boolean n, refl, directly (boolean n))
accessed_type-Accessed (some (struct n b)) = (struct n b, refl, directly (struct n b))
accessed_type-Accessed (some (enum n)) = (enum n, refl, directly (enum n))
accessed_type-Accessed (some (func n)) = (func n, refl, directly (func n))
accessed_type-Accessed (some (array n t k)) = (array n t k, refl, directly (array n t k))

address_type-AddressOf :
    (o : Option TypeInfo)
    → Settles (λ u. (t : TypeInfo) × (o ≡ some t) × AddressOf t u) (address_type o)
unfolding address_type
address_type-AddressOf none = tt
address_type-AddressOf (some (pointer name t level)) =
    (pointer name t level, refl, of_pointer name t level)
address_type-AddressOf (some (null_pointer name)) = tt
address_type-AddressOf (some (integer n b s)) =
    (integer n b s, refl, of_value (integer n b s) (λ z. cc))
address_type-AddressOf (some (boolean n)) = (boolean n, refl, of_value (boolean n) (λ z. cc))
address_type-AddressOf (some (struct n b)) = (struct n b, refl, of_value (struct n b) (λ z. cc))
address_type-AddressOf (some (enum n)) = (enum n, refl, of_value (enum n) (λ z. cc))
address_type-AddressOf (some (func n)) = (func n, refl, of_value (func n) (λ z. cc))
address_type-AddressOf (some (array n t k)) = (array n t k, refl, of_value (array n t k) (λ z. cc))

module _ (h : StrMap) (c : Compiler h.Map) where
  -- What the checker's answer says.
  abbrev pub Typed : ℕ → ErrorHandler → AstExpr × ErrorHandler → Type 0
  Typed p e r = Then e (HasType h c p r.0 (head_type r.0)) r.1

  dereferenced-Typed :
      (p : ℕ) (op : TokenKind) (expr : AstExpr) (old o : Option TypeInfo) (e : ErrorHandler)
      → is_kind op token_star ≡ true
      → Settles
          (λ r. Then e (HasType h c p expr o → HasType h c p (expr_unary r.0 op expr) r.0) r.1)
          (dereferenced old o e)
  unfolding dereferenced
  dereferenced-Typed p op expr old none e z = tt
  dereferenced-Typed p op expr old (some (pointer name t level)) e z =
      (omega arith, λ q k. target p op expr name t level z k)
  dereferenced-Typed p op expr old (some (null_pointer name)) e z =
      (omega arith, λ q k. null_target p op expr name z k)
  dereferenced-Typed p op expr old (some (integer n b s)) e z = reported _ e "Can not dereference x"
  dereferenced-Typed p op expr old (some (boolean n)) e z = reported _ e "Can not dereference x"
  dereferenced-Typed p op expr old (some (struct n b)) e z = reported _ e "Can not dereference x"
  dereferenced-Typed p op expr old (some (enum n)) e z = reported _ e "Can not dereference x"
  dereferenced-Typed p op expr old (some (func n)) e z = reported _ e "Can not dereference x"
  dereferenced-Typed p op expr old (some (array n t k)) e z = reported _ e "Can not dereference x"

  pub unary_type-Typed :
      (p : ℕ) (op : TokenKind) (expr : AstExpr) (old o : Option TypeInfo) (e : ErrorHandler)
      → Settles
          (λ r. Then e (HasType h c p expr o → HasType h c p (expr_unary r.0 op expr) r.0) r.1)
          (unary_type op old o e)
  unfolding unary_type
  unary_type-Typed p op expr old o e =
      let Q : Option TypeInfo × ErrorHandler → Type 0 =
        λ r. Then e (HasType h c p expr o → HasType h c p (expr_unary r.0 op expr) r.0) r.1 in
      if_split (Settles Q) (is_kind op token_ampersand)
        {x = address_type o >>= λ tp. ok (some tp, e)}
        {y = if is_kind op token_star then dereferenced old o e else ok (o, e)}
        (λ z.
          Settles-bind (λ u. (t : TypeInfo) × (o ≡ some t) × AddressOf t u) Q (address_type o) _
            (address_type-AddressOf o)
            (λ u k. (omega arith, λ q d. address p op expr k.0 u z (rw (← k.1) d) k.2)))
        (λ z.
          if_split (Settles Q) (is_kind op token_star) {x = dereferenced old o e} {y = ok (o, e)}
            (λ y. dereferenced-Typed p op expr old o e y)
            (λ y. (omega arith, λ q d. unary p op expr o z y d)))
