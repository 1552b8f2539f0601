-- ===== src/Types/Symt.antt =====
-- Symbol tables (compiler/type.c): making a symbol, and finding one from a scope outwards.
use metagen.Base.{
  ℕ, zero, suc, ◌*◌, ◌%◌, ◌^◌, Bool, true, false, ◌&&◌, List, [], ◌∷◌, ◌++◌, Option, none, some,
  length, leb, ◌==◌, if◌then◌else◌, Outcome, ok, fault, out_of_fuel, ◌>>=◌,
}
use metagen.HashMap.{StrMap}
use metagen.Diagnostics.{error_sym}
use metagen.Types.{
  TypeInfo, struct, TypeInfoKind, type_struct, type_enum, kind, SymbolKind, symbol_type,
  symbol_func, symbol_local_var, Symbol,
}
use metagen.Types.Store.{SymbolTable, Compiler, deref, assign, symt_root}

abbrev pub is_scoped_kind : TypeInfoKind → Bool
is_scoped_kind type_enum = true
is_scoped_kind type_struct = true
is_scoped_kind _ = false

abbrev pub sym_generates_type : SymbolKind → Option TypeInfo → Bool
sym_generates_type sym_kind none = false
sym_generates_type symbol_func (some type_info) = true
sym_generates_type symbol_type (some type_info) = is_scoped_kind (kind type_info)
sym_generates_type _ (some type_info) = false

abbrev pub is_local : SymbolKind → Bool
is_local symbol_local_var = true
is_local _ = false

-- Structs and enums have isolated scopes.
abbrev pub local_parent : Option TypeInfo → ℕ → ℕ
local_parent none p = p
local_parent (some type_info) p = if is_scoped_kind (kind type_info) then 0 else p

-- `arraylist_append` to the types, and to the structs.
abbrev pub add_struct : TypeInfo → List (List ℕ) → List (List ℕ)
add_struct (struct name bits) names = names ++ name ∷ []
add_struct _ names = names

abbrev pub add_type : Option TypeInfo → List TypeInfo → List TypeInfo
add_type none types = types
add_type (some type_info) types = types ++ type_info ∷ []

abbrev pub add_struct_type : Option TypeInfo → List (List ℕ) → List (List ℕ)
add_struct_type none names = names
add_struct_type (some type_info) names = add_struct type_info names

module _ (h : StrMap) where
  open h use {Map, init, get, put}

  unfoldable pub symt_init : ℕ → SymbolTable Map
  symt_init parent = record {
    symbols = [];
    sym_cap = if parent == 0 then 64 else 16;
    map = init;
    parent = parent;
  }

  -- `symt` at `p` with the symbol at `s` behind its others.
  unfoldable pub with_symbol : SymbolTable Map → List ℕ → ℕ → SymbolTable Map
  with_symbol symt name s = record symt {
    symbols = symt.symbols ++ s ∷ [];
    sym_cap =
        if leb symt.sym_cap (length symt.symbols) then symt.sym_cap * 2 % 2 ^ 32 else symt.sym_cap;
    map = put symt.map name s;
  }

  -- The part of `symt_new_sym` that makes the symbol.
  unfoldable pub add_symbol :
      Compiler Map → ℕ → SymbolTable Map → SymbolKind → List ℕ → Option TypeInfo → ℕ × Compiler Map
  unfolding symt_init with_symbol
  add_symbol c p symt sym_kind name type_info =
      let s = suc (length c.cells) in
      let generates = sym_generates_type sym_kind type_info in
      let sym : Symbol = record {
        kind = sym_kind;
        seq_no = length symt.symbols;
        name = name;
        type_info = type_info;
      } in
      let tables = assign c.tables p (with_symbol symt name s) in
      (
        s,
        record c {
          cells =
              c.cells
              ++ record { sym = sym; symt_local = if generates then suc (length c.tables) else 0 }
                ∷ [];
          tables =
              if generates
              then tables ++ record (symt_init p) { parent = local_parent type_info p } ∷ []
              else tables;
          all_types = if generates then add_type type_info c.all_types else c.all_types;
          struct_types =
              if generates then add_struct_type type_info c.struct_types else c.struct_types;
        },
      )

  -- The symbol of the same name that stands in the way, or NULL.
  unfoldable pub existing_sym : Compiler Map → SymbolTable Map → SymbolKind → List ℕ → Outcome ℕ
  existing_sym c symt sym_kind name =
      let here = get symt.map name in
      if (here == 0) && is_local sym_kind
      then (deref c.tables symt_root >>= λ root. ok (get root.map name))
      else ok here

  unfoldable pub symt_new_sym :
      Compiler Map → ℕ → SymbolKind → List ℕ → Option TypeInfo → Outcome (ℕ × Compiler Map)
  symt_new_sym c p sym_kind name type_info = do
    symt ← deref c.tables p
    existing ← existing_sym c symt sym_kind name
    if existing == 0
        then ok (add_symbol c p symt sym_kind name type_info)
        else ok (existing, record c { e = error_sym c.e "Symbol already exists" name })

  -- The loop of `symt_find_sym` from the table at `p`.
  unfoldable pub find_run : ℕ → Compiler Map → ℕ → List ℕ → Outcome ℕ
  find_run zero c p key = fault out_of_fuel
  find_run (suc f) c zero key = ok 0
  find_run (suc f) c (suc n) key = deref c.tables (suc n) >>= λ symt.
      let sym = get symt.map key in
      let rest = find_run f c symt.parent key in if sym == 0 then rest else ok sym

  -- One round more than there are tables.
  unfoldable pub symt_find_sym : Compiler Map → ℕ → List ℕ → Outcome ℕ
  symt_find_sym c p key = find_run (suc (length c.tables)) c p key
