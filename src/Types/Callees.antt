-- ===== src/Types/Callees.antt =====
-- What the type checker (compiler/type.c: typecheck_expr) looks up, and its rules on types that may be NULL.
use metagen.Base.{
  ℕ, ◌≤◌, ◌≡◌, refl, sym, false, List, [], ◌∷◌, length, Option, none, some, ◌==◌, if_split, codes,
  bytes_eq, ok, fault, ◌>>=◌, undefined, Settles, Settles-bind, Settles-imp,
}
use metagen.HashMap.{StrMap}
use metagen.Lex.Token.{TokenKind, token_dot, is_kind}
use metagen.Ast.{
  LiteralType, lit_num, lit_str, lit_null, lit_ident, AstExpr, expr_binary, expr_literal, AstExprs,
  cons,
}
use metagen.Types.{
  TypeInfo, integer, boolean, struct, enum, func, array, pointer, null_pointer, generated_by,
  Symbol,
}
use metagen.Types.Store.{SymbolCell, TypeInfoFunc, Compiler, deref}
use metagen.Types.Symt.{symt_find_sym}
use metagen.Types.Check.{sym_type, literal_type, members_table, func_named, as_func, callee_of}
use metagen.Types.Scopes.{IsValid}
use metagen.Types.Lookup.{Finds}
use metagen.Types.Sizes.{deref-Settles, find-Settles}
use metagen.Types.Typing.{
  name_of_symbol, name_of_null, IsConstant, number, text, Refers, HasType, variable, constant,
  binary, HaveTypes, one_more,
}
use metagen.Types.Accepts.{Agree}

module _ (h : StrMap) (c : Compiler h.Map) (v : IsValid h c) where
  -- The rule for binary operators on types that are known to be there.
  pub binary_of :
      (p : ℕ) (left : AstExpr) (op : TokenKind) (right : AstExpr) (a b : Option TypeInfo)
      → is_kind op token_dot ≡ false
      → HasType h c p left a
      → HasType h c p right b
      → Agree a b
      → HasType h c p (expr_binary a left op right) a
  binary_of p left op right a b dot l r (s, t, ea, eb, e) =
      rw (ea) (binary p left op right s t dot (rw (← ea) l) (rw (← eb) r) e)

  pub one_of :
      (p : ℕ) (arg : AstExpr) (args : AstExprs) (a t : Option TypeInfo)
      (ts : List (Option TypeInfo))
      → HasType h c p arg a
      → Agree a t
      → HaveTypes h c p args ts
      → HaveTypes h c p (cons arg args) (t ∷ ts)
  one_of p arg args a t ts k (s, u, ea, et, e) rest =
      rw (et) (one_more p arg args s u ts (rw (← ea) k) e rest)

  func_named-Settles :
      (fs : List TypeInfoFunc) (name : List ℕ)
      → Settles (λ fn. func_named h fs name ≡ ok fn) (func_named h fs name)
  unfolding func_named
  func_named-Settles [] name = tt
  func_named-Settles (f ∷ fs) name =
      if_split (λ m. Settles (λ fn. m ≡ ok fn) m) (bytes_eq f.generated_by name) {x = ok f}
        {y = func_named h fs name} (λ z. refl) (λ z. func_named-Settles fs name)

  -- The function that a name stands for.
  abbrev pub Callee : ℕ → List ℕ → TypeInfoFunc → Type 0
  Callee p identifier fn =
      (cell : SymbolCell) × (name : List ℕ) × Refers h c p identifier cell
      × (cell.sym.type_info ≡ some (func name))
      × (func_named h c.funcs name ≡ ok fn)

  as_func-Callee :
      (o : Option TypeInfo)
      → Settles
          (λ fn. (name : List ℕ) × (o ≡ some (func name)) × (func_named h c.funcs name ≡ ok fn))
          (as_func h c o)
  unfolding as_func
  as_func-Callee none = tt
  as_func-Callee (some (func name)) =
      Settles-imp (λ fn. func_named h c.funcs name ≡ ok fn) _ (func_named h c.funcs name)
        (λ fn e. (name, refl, e)) (func_named-Settles c.funcs name)
  as_func-Callee (some (pointer name t level)) = tt
  as_func-Callee (some (null_pointer name)) = tt
  as_func-Callee (some (integer n b s)) = tt
  as_func-Callee (some (boolean n)) = tt
  as_func-Callee (some (struct n b)) = tt
  as_func-Callee (some (enum n)) = tt
  as_func-Callee (some (array n t k)) = tt

  pub callee_of-Callee :
      (p : ℕ) (identifier : List ℕ)
      → p ≤ length c.tables
      → Settles (Callee p identifier) (callee_of h c p identifier)
  unfolding callee_of
  callee_of-Callee p identifier le =
      Settles-bind (Finds h c identifier p) (Callee p identifier) (symt_find_sym h c p identifier) _
        (find-Settles h c p identifier v le)
        (λ s k.
          Settles-bind (λ cell. deref c.cells s ≡ ok cell) (Callee p identifier) (deref c.cells s) _
            (deref-Settles c.cells s)
            (λ cell e.
              Settles-imp _ (Callee p identifier) (as_func h c cell.sym.type_info)
                (λ fn a. (cell, a.0, record { s = s; finds = k; at = e }, a.1, a.2))
                (as_func-Callee cell.sym.type_info)))

  pub typed_as :
      (p : ℕ) (expr : AstExpr) (o : Option TypeInfo) (s : TypeInfo)
      → o ≡ some s
      → HasType h c p expr o
      → HasType h c p expr (some s)
  typed_as p expr o s e k = rw (← e) k

  constant_of :
      (p : ℕ) (sym : Option Symbol) (lit : LiteralType) (literal : List ℕ)
      → IsConstant lit
      → p ≤ length c.tables
      → Settles
          (λ t. HasType h c p (expr_literal t sym lit literal) t)
          (symt_find_sym h c p (codes "s32") >>= λ s.
            deref c.cells s >>= λ cell. ok (cell.sym.type_info))
  constant_of p sym lit literal k le =
      let Q : Option TypeInfo → Type 0 = λ t. HasType h c p (expr_literal t sym lit literal) t in
      Settles-bind (Finds h c (codes "s32") p) Q (symt_find_sym h c p (codes "s32")) _
        (find-Settles h c p (codes "s32") v le)
        (λ s found.
          Settles-bind (λ cell. deref c.cells s ≡ ok cell) Q (deref c.cells s) _
            (deref-Settles c.cells s)
            (λ cell e. constant p sym lit literal cell k (record { s = s; finds = found; at = e })))

  pub literal_type-Typed :
      (p : ℕ) (sym : Option Symbol) (lit : LiteralType) (literal : List ℕ)
      → p ≤ length c.tables
      → Settles (λ t. HasType h c p (expr_literal t sym lit literal) t) (literal_type h c p lit sym)
  unfolding literal_type sym_type
  literal_type-Typed p none lit_null literal le = tt
  literal_type-Typed p (some s) lit_null literal le = variable p s lit_null literal name_of_null
  literal_type-Typed p none lit_ident literal le = tt
  literal_type-Typed p (some s) lit_ident literal le = variable p s lit_ident literal name_of_symbol
  literal_type-Typed p sym lit_num literal le = constant_of p sym lit_num literal number le
  literal_type-Typed p sym lit_str literal le = constant_of p sym lit_str literal text le

  pub members_table-Refers :
      (p : ℕ) (t : TypeInfo)
      → p ≤ length c.tables
      → Settles
          (λ q.
            (cell : SymbolCell) × Refers h c p (generated_by t) cell
            × (q ≡ cell.symt_local)
            × (q ≤ length c.tables))
          (members_table h c p t)
  unfolding members_table
  members_table-Refers p t le =
      let Q : ℕ → Type 0 = λ q.
        (cell : SymbolCell) × Refers h c p (generated_by t) cell
        × (q ≡ cell.symt_local)
        × (q ≤ length c.tables) in
      Settles-bind (Finds h c (generated_by t) p) Q (symt_find_sym h c p (generated_by t)) _
        (find-Settles h c p (generated_by t) v le)
        (λ s k.
          Settles-bind (λ cell. deref c.cells s ≡ ok cell) Q (deref c.cells s) _
            (deref-Settles c.cells s)
            (λ cell e.
              if_split (Settles Q) (cell.symt_local == 0) {x = fault undefined}
                {y = ok cell.symt_local} (λ z. tt)
                (λ z. (cell, record { s = s; finds = k; at = e }, refl, (v.owned s cell e).own))))
