-- ===== src/Types/Typing.antt =====
-- The types of expressions as a relation, for the checker of compiler/type.c (typecheck_expr).
use metagen.Base.{
  ℕ, ◌≡◌, ◌≢◌, Bool, true, false, List, [], ◌∷◌, Option, none, some, codes, inc32, ok,
}
use metagen.HashMap.{StrMap}
use metagen.Lex.Token.{TokenKind, token_ampersand, token_star, token_dot, is_kind}
use metagen.Ast.{
  LiteralType, lit_num, lit_str, lit_null, lit_ident, AstExpr, expr_unary, expr_binary,
  expr_literal, expr_call, AstExprs, nil, cons,
}
use metagen.Types.{
  TypeInfo, type_pointer, func, pointer, null_pointer, kind, generated_by, type_info_equal, Symbol,
}
use metagen.Types.Store.{SymbolCell, TypeInfoFunc, Compiler, deref}
use metagen.Types.Check.{func_named, has_members}
use metagen.Types.Lookup.{Finds}

-- The type of a value's address.
pub data AddressOf : TypeInfo → TypeInfo → Type 0 where
  of_pointer :
      (name : List ℕ) (target : TypeInfo) (level : ℕ)
      → AddressOf
          (pointer name target level)
          (pointer name (pointer name target level) (inc32 level))
  of_value : (t : TypeInfo) → kind t ≢ type_pointer → AddressOf t (pointer (generated_by t) t 1)

-- The type whose members a value has: its own, or that behind a pointer.
pub data Accessed : TypeInfo → TypeInfo → Type 0 where
  directly : (t : TypeInfo) → Accessed t t
  behind :
      (name : List ℕ) (target : TypeInfo) (level : ℕ) → Accessed (pointer name target level) target

-- Names in a program stand for symbols, but constants do not.
pub data IsName : LiteralType → Type 0 where
  name_of_symbol : IsName lit_ident
  name_of_null : IsName lit_null

pub data IsConstant : LiteralType → Type 0 where
  number : IsConstant lit_num
  text : IsConstant lit_str

module _ (h : StrMap) (c : Compiler h.Map) where
  -- `key` is the name of the symbol in `cell` in the scope at `p`.
  pub record Refers (p : ℕ) (key : List ℕ) (cell : SymbolCell) : Type 0 where
    pub s : ℕ
    pub finds : Finds h c key p s
    pub at : deref c.cells s ≡ ok cell

  mutual
    -- An expression whose nodes carry their types has a type in the scope at an address. What a null
    -- pointer points to has no type, which is none; nor has a call of a function without a resolved type.
    pub data HasType : ℕ → AstExpr → Option TypeInfo → Type 0 where
      variable :
          (p : ℕ) (s : Symbol) (lit : LiteralType) (literal : List ℕ)
          → IsName lit
          → HasType p (expr_literal s.type_info (some s) lit literal) s.type_info
      constant :
          (p : ℕ) (sym : Option Symbol) (lit : LiteralType) (literal : List ℕ) (cell : SymbolCell)
          → IsConstant lit
          → Refers p (codes "s32") cell
          → HasType p (expr_literal cell.sym.type_info sym lit literal) cell.sym.type_info
      address :
          (p : ℕ) (op : TokenKind) (expr : AstExpr) (t u : TypeInfo)
          → is_kind op token_ampersand ≡ true
          → HasType p expr (some t)
          → AddressOf t u
          → HasType p (expr_unary (some u) op expr) (some u)
      target :
          (p : ℕ) (op : TokenKind) (expr : AstExpr) (name : List ℕ) (t : TypeInfo) (level : ℕ)
          → is_kind op token_star ≡ true
          → HasType p expr (some (pointer name t level))
          → HasType p (expr_unary (some t) op expr) (some t)
      null_target :
          (p : ℕ) (op : TokenKind) (expr : AstExpr) (name : List ℕ)
          → is_kind op token_star ≡ true
          → HasType p expr (some (null_pointer name))
          → HasType p (expr_unary none op expr) none
      unary :
          (p : ℕ) (op : TokenKind) (expr : AstExpr) (t : Option TypeInfo)
          → is_kind op token_ampersand ≡ false
          → is_kind op token_star ≡ false
          → HasType p expr t
          → HasType p (expr_unary t op expr) t
      binary :
          (p : ℕ) (left : AstExpr) (op : TokenKind) (right : AstExpr) (s t : TypeInfo)
          → is_kind op token_dot ≡ false
          → HasType p left (some s)
          → HasType p right (some t)
          → type_info_equal s t ≡ true
          → HasType p (expr_binary (some s) left op right) (some s)
      member :
          (p : ℕ) (left : AstExpr) (op : TokenKind) (right : AstExpr) (s t : TypeInfo)
          (cell : SymbolCell) (u : Option TypeInfo)
          → is_kind op token_dot ≡ true
          → HasType p left (some s)
          → Accessed s t
          → has_members t ≡ true
          → Refers p (generated_by t) cell
          → HasType cell.symt_local right u
          → HasType p (expr_binary u left op right) u
      call :
          (p : ℕ) (is_comptime : Bool) (identifier : List ℕ) (args : AstExprs) (cell : SymbolCell)
          (name : List ℕ) (fn : TypeInfoFunc)
          → Refers p identifier cell
          → cell.sym.type_info ≡ some (func name)
          → func_named h c.funcs name ≡ ok fn
          → HaveTypes p args fn.param_types
          → HasType p (expr_call fn.return_type is_comptime identifier args) fn.return_type

    -- Arguments, each of a type equal to its parameter's.
    pub data HaveTypes : ℕ → AstExprs → List (Option TypeInfo) → Type 0 where
      no_more : (p : ℕ) → HaveTypes p nil []
      one_more :
          (p : ℕ) (arg : AstExpr) (args : AstExprs) (s t : TypeInfo) (ts : List (Option TypeInfo))
          → HasType p arg (some s)
          → type_info_equal s t ≡ true
          → HaveTypes p args ts
          → HaveTypes p (cons arg args) (some t ∷ ts)
