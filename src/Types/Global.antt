-- ===== src/Types/Global.antt =====
-- The built-in types, and the resolution of the global types (compiler/type.c: add_builtin_integral_type,
-- fill_builtin_types, resolve_global_types and the loops of typegen over the declarations).
use metagen.Base.{
  ℕ, Bool, true, false, ◌&&◌, List, [], ◌∷◌, Option, none, some, ◌==◌, if◌then◌else◌, codes,
  bytes_eq, Outcome, ok, fault, assert_failed, undefined, ◌>>=◌,
}
use metagen.Base.Int.{pos}
use metagen.HashMap.{StrMap}
use metagen.Diagnostics.{error_sym}
use metagen.Ast.{TypedIdent, AstFunc, AstStruct, AstEnum}
use metagen.Str.Builder.{
  make_str_builder, str_builder_append_u8, str_builder_append_cstr, int_arg, str_builder_sprintf,
  str_builder_end,
}
use metagen.Types.{
  TypeInfo, integer, boolean, struct, symbol_type, symbol_enum_member, symbol_global_var,
}
use metagen.Types.Store.{TypeInfoStructMember, TypeInfoStruct, Compiler, deref, symt_root}
use metagen.Types.Symt.{symt_new_sym, symt_find_sym}
use metagen.Types.Resolve.{
  ast_type_resolve, typegen_from_enum_decl, typegen_from_struct_decl, typegen_from_func_decl,
}

-- What a pointer to a struct's type points to: the first struct of the name is the one with a symbol.
unfoldable pub struct_named : List TypeInfoStruct → List ℕ → Outcome TypeInfoStruct
struct_named [] name = fault undefined
struct_named (s ∷ ss) name = if bytes_eq s.generated_by name then ok s else struct_named ss name

-- A write to the struct that `struct_named` gives.
unfoldable pub assign_struct : List TypeInfoStruct → TypeInfoStruct → List TypeInfoStruct
assign_struct [] s = []
assign_struct (t ∷ ts) s =
    let rest = assign_struct ts s in
    if bytes_eq t.generated_by s.generated_by then s ∷ ts else t ∷ rest

abbrev pub is_some : Option TypeInfo → Bool
is_some (some t) = true
is_some none = false

abbrev pub is_struct : Option TypeInfo → Bool
is_struct (some (struct name bits)) = true
is_struct _ = false

module _ (h : StrMap) where
  open h use {Map, init, get, put}

  unfoldable pub add_builtin_integral_type : Compiler Map → Bool → ℕ → Outcome (Compiler Map)
  add_builtin_integral_type c is_signed bit_size = do
    sb ← str_builder_append_u8 make_str_builder (if is_signed then b's' else b'u')
    sb ← str_builder_sprintf sb (codes "%d") (int_arg (pos bit_size) ∷ [])
    name ← str_builder_end sb true
    (s, c₁) ← symt_new_sym h c symt_root symbol_type name (some (integer name bit_size is_signed))
    ok c₁

  unfoldable pub fill_builtin_types : Compiler Map → Outcome (Compiler Map)
  fill_builtin_types c = do
    c₁ ← add_builtin_integral_type c true 32
    sb ← str_builder_append_cstr make_str_builder (codes "bool")
    name ← str_builder_end sb true
    (s, c₂) ← symt_new_sym h c₁ symt_root symbol_type name (some (boolean name))
    ok c₂

  -- The type of a member, when there is one.
  unfoldable pub resolve_member :
      Compiler Map → TypeInfoStructMember → Outcome (Option TypeInfo × Compiler Map)
  resolve_member c m = elim (m.type) [
    | some t ↦ ok (some t, c)
    | none ↦ (do
      (t, c₁) ← ast_type_resolve h c m.ast_type_info false
      elim t [
        | some member_type ↦ ok (some member_type, c₁)
        | none ↦
            ok (none, record c₁ { e = error_sym c₁.e "Type does not exist" m.ast_type_info.name })
      ])
  ]

  -- The members with their types, and whether all of them have one.
  unfoldable pub resolve_members :
      Compiler Map
      → List TypeInfoStructMember
      → Outcome (List TypeInfoStructMember × Bool × Compiler Map)
  resolve_members c [] = ok ([], true, c)
  resolve_members c (m ∷ ms) = do
    (t, c₁) ← resolve_member c m
    (members, all_resolved, c₂) ← resolve_members c₁ ms
    ok (record m { type = t } ∷ members, is_some t && all_resolved, c₂)

  unfoldable pub add_members : Compiler Map → ℕ → List TypeInfoStructMember → Outcome (Compiler Map)
  add_members c p [] = ok c
  add_members c p (m ∷ ms) = do
    (s, c₁) ← symt_new_sym h c p symbol_enum_member m.name m.type
    add_members c₁ p ms

  -- The symbols of the members, in the table of the struct.
  unfoldable pub member_symbols :
      Compiler Map → List ℕ → List TypeInfoStructMember → Outcome (Compiler Map)
  member_symbols c name ms = do
    s ← symt_find_sym h c symt_root name
    if s == 0
        then fault assert_failed
        else (deref c.cells s >>= λ cell.
            if is_struct cell.sym.type_info
            then add_members c cell.symt_local ms
            else fault assert_failed)

  unfoldable pub resolve_struct : Compiler Map → TypeInfoStruct → Outcome (Compiler Map)
  resolve_struct c t_struct = do
    (members, all_resolved, c₁) ← resolve_members c t_struct.members
    let c₂ = record c₁ {
      structs =
          assign_struct c₁.structs
            (record t_struct { is_resolved = all_resolved; members = members });
    } in
        if all_resolved then member_symbols c₂ t_struct.generated_by members else ok c₂

  -- Of the types here, only those of structs are not resolved from the start.
  unfoldable pub resolve_global_types : Compiler Map → List TypeInfo → Outcome (Compiler Map)
  resolve_global_types c [] = ok c
  resolve_global_types c (struct name bits ∷ ts) = do
    t_struct ← struct_named c.structs name
    c₁ ← if t_struct.is_resolved then ok c else resolve_struct c t_struct
    resolve_global_types c₁ ts
  resolve_global_types c (t ∷ ts) = resolve_global_types c ts

  unfoldable pub enum_decls : Compiler Map → List AstEnum → Outcome (Compiler Map)
  enum_decls c [] = ok c
  enum_decls c (decl ∷ decls) = typegen_from_enum_decl h c decl >>= λ c₁. enum_decls c₁ decls

  unfoldable pub struct_decls : Compiler Map → List AstStruct → Outcome (Compiler Map)
  struct_decls c [] = ok c
  struct_decls c (decl ∷ decls) = typegen_from_struct_decl h c decl >>= λ c₁. struct_decls c₁ decls

  unfoldable pub func_decls : Compiler Map → List AstFunc → Outcome (Compiler Map)
  func_decls c [] = ok c
  func_decls c (decl ∷ decls) = typegen_from_func_decl h c decl >>= λ c₁. func_decls c₁ decls

  unfoldable pub global_vars : Compiler Map → List TypedIdent → Outcome (Compiler Map)
  global_vars c [] = ok c
  global_vars c (v ∷ vs) = do
    (t, c₁) ← ast_type_resolve h c v.ast_type_info true
    (s, c₂) ← symt_new_sym h c₁ symt_root symbol_global_var v.name t
    global_vars c₂ vs

  unfoldable pub global_var_lists : Compiler Map → List (List TypedIdent) → Outcome (Compiler Map)
  global_var_lists c [] = ok c
  global_var_lists c (vs ∷ rest) = global_vars c vs >>= λ c₁. global_var_lists c₁ rest
