-- ===== src/Types/Store.antt =====
-- What the passes of compiler/type.c share: the Compiler struct (compiler/compiler.h), and the symbols
-- and symbol tables (compiler/type.h) that they reach by pointers. A pointer is a number: 0 is NULL,
-- and n + 1 the n-th symbol or table that was made. The table of the Compiler itself is the first.
-- `M` is the type of the library's hash maps.
use metagen.Base.{
  ℕ, zero, suc, Bool, List, [], ◌∷◌, Option, none, some, get_elem?, Outcome, ok, fault, bad_access,
}
use metagen.Diagnostics.{ErrorHandler}
use metagen.Ast.{AstTypeInfo}
use metagen.Types.{TypeInfo, Symbol}

-- A symbol with the address of its own table, which is 0 when it has none: the source leaves the
-- table unset then.
pub record SymbolCell : Type 0 where
  pub sym : Symbol
  pub symt_local : ℕ

-- `sym_len` is the length of `symbols`.
pub record SymbolTable (M : Type 0) : Type 0 where
  pub symbols : List ℕ
  pub sym_cap : ℕ
  pub map : M
  pub parent : ℕ

-- A member is resolved when it has a type.
pub record TypeInfoStructMember : Type 0 where
  pub name : List ℕ
  pub offset : ℕ
  pub ast_type_info : AstTypeInfo
  pub type : Option TypeInfo

-- What stands behind a pointer to a struct's type, found by its name.
pub record TypeInfoStruct : Type 0 where
  pub generated_by : List ℕ
  pub is_resolved : Bool
  pub bit_size : ℕ
  pub members : List TypeInfoStructMember

-- What stands behind a pointer to a function's type. A type that could not be resolved is NULL.
pub record TypeInfoFunc : Type 0 where
  pub generated_by : List ℕ
  pub param_names : List (List ℕ)
  pub param_types : List (Option TypeInfo)
  pub return_type : Option TypeInfo

-- `all_types` and `struct_types` are the array lists of pointers, the second one as names; `structs`
-- and `funcs` hold what the pointers to the types of structs and functions point to.
pub record Compiler (M : Type 0) : Type 0 where
  pub e : ErrorHandler
  pub tables : List (SymbolTable M)
  pub cells : List SymbolCell
  pub sym_null : ℕ
  pub all_types : List TypeInfo
  pub struct_types : List (List ℕ)
  pub structs : List TypeInfoStruct
  pub funcs : List TypeInfoFunc

-- What a pointer points to.
abbrev pub deref {ℓ} : {A : Type ℓ} → List A → ℕ → Outcome A
deref xs zero = fault bad_access
deref xs (suc n) = elim (get_elem? xs n) [ none ↦ fault bad_access | some x ↦ ok x ]

-- A write through a pointer.
abbrev pub assign {ℓ} : {A : Type ℓ} → List A → ℕ → A → List A
assign [] p x = []
assign (y ∷ ys) zero x = y ∷ ys
assign (y ∷ ys) (suc zero) x = x ∷ ys
assign (y ∷ ys) (suc (suc n)) x = y ∷ assign ys (suc n) x

-- `&c->symt_root`.
abbrev pub symt_root : ℕ
symt_root = 1
