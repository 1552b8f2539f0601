-- ===== src/Types/Resolve.antt =====
-- Types from the syntax tree (compiler/type.c): the resolution of a type's name, and the types and symbols
-- of the declarations of enums, structs and functions.
use metagen.Base.{
  ℕ, Bool, true, false, List, [], ◌∷◌, ◌++◌, map, Option, none, some, ◌==◌, if◌then◌else◌, Outcome,
  ok, fault, assert_failed, ◌>>=◌,
}
use metagen.HashMap.{StrMap}
use metagen.Diagnostics.{error_sym}
use metagen.Ast.{AstTypeInfo, TypedIdent, AstFunc, AstStruct, AstEnum}
use metagen.Types.{
  TypeInfo, struct, enum, func, array, pointer, SymbolKind, symbol_type, symbol_func,
  symbol_enum_member, Symbol,
}
use metagen.Types.Store.{TypeInfoStructMember, Compiler, deref, symt_root}
use metagen.Types.Symt.{symt_new_sym, symt_find_sym}

abbrev pub is_symbol_type : SymbolKind → Bool
is_symbol_type symbol_type = true
is_symbol_type _ = false

abbrev pub with_pointer : List ℕ → ℕ → TypeInfo → TypeInfo
with_pointer name level t = if level == 0 then t else pointer name t level

abbrev pub with_array : List ℕ → Bool → ℕ → TypeInfo → TypeInfo
with_array name false elements t = t
with_array name true elements t = array name t elements

-- The type that `ati` makes of the type of its symbol.
abbrev pub declared_type : AstTypeInfo → List ℕ → TypeInfo → TypeInfo
declared_type ati name t =
    with_array name ati.is_array ati.elements (with_pointer name ati.pointer_indirection t)

-- The names in a list of variables.
abbrev pub names_of : List TypedIdent → List (List ℕ)
names_of vars = map (λ (v : TypedIdent). v.name) vars

module _ (h : StrMap) where
  open h use {Map, init, get, put}

  unfoldable pub resolve_sym :
      Compiler Map → AstTypeInfo → Symbol → Outcome (Option TypeInfo × Compiler Map)
  resolve_sym c ati sym =
      if is_symbol_type sym.kind
      then elim (sym.type_info) [
        | none ↦ fault assert_failed
        | some t ↦ ok (some (declared_type ati sym.name t), c)
      ]
      else ok (
        none,
        record c {
          e = error_sym c.e "Wants to be used as a type, but is in fact not :-(" ati.name;
        },
      )

  unfoldable pub ast_type_resolve :
      Compiler Map → AstTypeInfo → Bool → Outcome (Option TypeInfo × Compiler Map)
  ast_type_resolve c ati err_if_not_resolved = do
    s ← symt_find_sym h c symt_root ati.name
    if s == 0
        then ok (
          none,
          if err_if_not_resolved
              then record c { e = error_sym c.e "Type not found" ati.name }
              else c,
        )
        else (deref c.cells s >>= λ cell. resolve_sym c ati cell.sym)

  unfoldable pub enum_members :
      Compiler Map → ℕ → TypeInfo → List TypedIdent → Outcome (Compiler Map)
  enum_members c p t [] = ok c
  enum_members c p t (ident ∷ idents) = do
    (sym, c₁) ← symt_new_sym h c p symbol_enum_member ident.name (some t)
    enum_members c₁ p t idents

  unfoldable pub typegen_from_enum_decl : Compiler Map → AstEnum → Outcome (Compiler Map)
  typegen_from_enum_decl c decl = do
    (s, c₁) ← symt_new_sym h c symt_root symbol_type decl.name (some (enum decl.name))
    cell ← deref c₁.cells s
    enum_members c₁ cell.symt_local (enum decl.name) decl.members

  -- The members with the types that are known at once.
  unfoldable pub struct_members :
      Compiler Map → List TypedIdent → Outcome (List TypeInfoStructMember × Compiler Map)
  struct_members c [] = ok ([], c)
  struct_members c (ident ∷ idents) = do
    (member_type, c₁) ← ast_type_resolve c ident.ast_type_info false
    (members, c₂) ← struct_members c₁ idents
    ok (
      record {
        name = ident.name;
        offset = 0;
        ast_type_info = ident.ast_type_info;
        type = member_type;
      }
          ∷ members,
      c₂,
    )

  unfoldable pub typegen_from_struct_decl : Compiler Map → AstStruct → Outcome (Compiler Map)
  typegen_from_struct_decl c decl = do
    (s, c₁) ← symt_new_sym h c symt_root symbol_type decl.name (some (struct decl.name 0))
    (members, c₂) ← struct_members c₁ decl.members
    ok (record c₂ {
      structs =
          c₂.structs
          ++ record {
            generated_by = decl.name;
            is_resolved = false;
            bit_size = 0;
            members = members;
          }
            ∷ [];
    })

  unfoldable pub resolve_all :
      Compiler Map → List TypedIdent → Outcome (List (Option TypeInfo) × Compiler Map)
  resolve_all c [] = ok ([], c)
  resolve_all c (ident ∷ idents) = do
    (t, c₁) ← ast_type_resolve c ident.ast_type_info true
    (ts, c₂) ← resolve_all c₁ idents
    ok (t ∷ ts, c₂)

  unfoldable pub typegen_from_func_decl : Compiler Map → AstFunc → Outcome (Compiler Map)
  typegen_from_func_decl c decl = do
    (s, c₁) ← symt_new_sym h c symt_root symbol_func decl.name (some (func decl.name))
    (return_type, c₂) ← ast_type_resolve c₁ decl.return_type true
    (param_types, c₃) ← resolve_all c₂ decl.parameters
    ok (record c₃ {
      funcs =
          c₃.funcs
          ++ record {
            generated_by = decl.name;
            param_names = names_of decl.parameters;
            param_types = param_types;
            return_type = return_type;
          }
            ∷ [];
    })
