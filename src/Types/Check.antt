-- ===== src/Types/Check.antt =====
-- The types of expressions (compiler/type.c: typecheck_expr); statements are CheckStmts.
-- The types and symbols are only read here, so the error handler is the state, and what has
-- changed in the tree is given back as a new tree. A member access binds its right side again, so
-- the recursion is on fuel, one more than the expression has nodes.
use metagen.Base.{
  ℕ, zero, suc, ◌+◌, Bool, true, false, String, List, [], ◌∷◌, Option, none, some, length, ◌==◌,
  if◌then◌else◌, codes, bytes_eq, inc32, Outcome, ok, fault, bad_access, out_of_fuel, undefined,
  ◌>>=◌,
}
use metagen.HashMap.{StrMap}
use metagen.Diagnostics.{ErrorHandler, error_node, error_typecheck_binary}
use metagen.Lex.Token.{TokenKind, token_ampersand, token_star, token_dot, is_kind}
use metagen.Ast.{
  LiteralType, lit_null, lit_ident, AstExpr, expr_null, expr_unary, expr_binary, expr_literal,
  expr_call, AstExprs, nil, cons,
}
use metagen.Types.{
  TypeInfo, struct, enum, func, pointer, null_pointer, generated_by, type_info_equal, Symbol,
}
use metagen.Types.Store.{TypeInfoFunc, Compiler, deref}
use metagen.Types.Symt.{symt_find_sym}
use metagen.Types.Infer.{bind_expr}

-- The field `type` that every node of an expression starts with.
abbrev pub head_type : AstExpr → Option TypeInfo
head_type expr_null = none
head_type (expr_unary t op expr) = t
head_type (expr_binary t left op right) = t
head_type (expr_literal t sym lit literal) = t
head_type (expr_call t is_comptime identifier args) = t

unfoldable mutual
  pub expr_size : AstExpr → ℕ
  expr_size expr_null = 1
  expr_size (expr_unary t op expr) = suc (expr_size expr)
  expr_size (expr_binary t left op right) = suc (expr_size left + expr_size right)
  expr_size (expr_literal t sym lit literal) = 1
  expr_size (expr_call t is_comptime identifier args) = suc (exprs_size args)

  pub exprs_size : AstExprs → ℕ
  exprs_size nil = 1
  exprs_size (cons expr exprs) = suc (expr_size expr + exprs_size exprs)

-- The length of the list of arguments.
abbrev pub n_args : AstExprs → ℕ
n_args nil = 0
n_args (cons expr exprs) = suc (n_args exprs)

-- `type_info_equal` on two pointers to types.
unfoldable pub equal_types : Option TypeInfo → Option TypeInfo → Outcome Bool
equal_types none b = fault bad_access
equal_types (some s) none = fault bad_access
equal_types (some s) (some t) = ok (type_info_equal s t)

-- A comparison of two types with a report when they are not equal.
unfoldable pub compare :
    String → Option TypeInfo → Option TypeInfo → ErrorHandler → Outcome ErrorHandler
compare msg a b e =
    equal_types a b >>= λ equal. ok (if equal then e else error_typecheck_binary e msg)

-- The level of the null pointer is never written.
unfoldable pub address_type : Option TypeInfo → Outcome TypeInfo
address_type none = fault bad_access
address_type (some (null_pointer name)) = fault undefined
address_type (some (pointer name target level)) =
    ok (pointer name (pointer name target level) (inc32 level))
address_type (some t) = ok (pointer (generated_by t) t 1)

-- The type of a unary operator's node, which had type `old`, over an operand of type `t`.
unfoldable pub dereferenced :
    Option TypeInfo → Option TypeInfo → ErrorHandler → Outcome (Option TypeInfo × ErrorHandler)
dereferenced old none e = fault bad_access
dereferenced old (some (pointer name target level)) e = ok (some target, e)
dereferenced old (some (null_pointer name)) e = ok (none, e)
dereferenced old (some t) e = ok (old, error_node e "Can not dereference x")

unfoldable pub unary_type :
    TokenKind
    → Option TypeInfo
    → Option TypeInfo
    → ErrorHandler
    → Outcome (Option TypeInfo × ErrorHandler)
unary_type op old t e =
    if is_kind op token_ampersand
    then (address_type t >>= λ tp. ok (some tp, e))
    else if is_kind op token_star
    then dereferenced old t e
    else ok (t, e)

-- The left side of a member access, behind a pointer if it is one.
unfoldable pub accessed_type : Option TypeInfo → Outcome TypeInfo
accessed_type none = fault bad_access
accessed_type (some (pointer name target level)) = ok target
accessed_type (some (null_pointer name)) = fault bad_access
accessed_type (some t) = ok t

abbrev pub has_members : TypeInfo → Bool
has_members (struct name bits) = true
has_members (enum name) = true
has_members _ = false

-- `typecheck_expr` in a scope.
abbrev pub Checker : Type 0
Checker = ℕ → AstExpr → ErrorHandler → Outcome (AstExpr × ErrorHandler)

module _ (h : StrMap) where
  open h use {Map, init, get, put}

  -- `->type_info` of a symbol that may be NULL.
  unfoldable pub sym_type : Option Symbol → Outcome (Option TypeInfo)
  sym_type none = fault bad_access
  sym_type (some sym) = ok sym.type_info

  unfoldable pub literal_type :
      Compiler Map → ℕ → LiteralType → Option Symbol → Outcome (Option TypeInfo)
  literal_type c p lit_null sym = sym_type sym
  literal_type c p lit_ident sym = sym_type sym
  literal_type c p _ sym =
      symt_find_sym h c p (codes "s32") >>= λ s. deref c.cells s >>= λ cell. ok (cell.sym.type_info)

  -- `&type_sym->symt_local`; a symbol without a table has never set it.
  unfoldable pub members_table : Compiler Map → ℕ → TypeInfo → Outcome ℕ
  members_table c p t = do
    s ← symt_find_sym h c p (generated_by t)
    cell ← deref c.cells s
    if cell.symt_local == 0 then fault undefined else ok (cell.symt_local)

  -- What a pointer to a function's type points to.
  unfoldable pub func_named : List TypeInfoFunc → List ℕ → Outcome TypeInfoFunc
  func_named [] name = fault undefined
  func_named (f ∷ fs) name = if bytes_eq f.generated_by name then ok f else func_named fs name

  unfoldable pub as_func : Compiler Map → Option TypeInfo → Outcome TypeInfoFunc
  as_func c none = fault bad_access
  as_func c (some (func name)) = func_named c.funcs name
  as_func c (some t) = fault undefined

  unfoldable pub callee_of : Compiler Map → ℕ → List ℕ → Outcome TypeInfoFunc
  callee_of c p identifier = symt_find_sym h c p identifier >>= λ s.
      deref c.cells s >>= λ cell. as_func c cell.sym.type_info

  -- The parts of `typecheck_expr` take its own recursive call, `rec`.
  -- The binary operators but the dot.
  unfoldable pub typecheck_operands :
      Checker → ℕ → AstExpr → TokenKind → AstExpr → ErrorHandler → Outcome (AstExpr × ErrorHandler)
  typecheck_operands rec p left op right e = do
    (right', e₁) ← rec p right e
    e₂ ← compare "bin" (head_type left) (head_type right') e₁
    ok (expr_binary (head_type left) left op right', e₂)

  -- Member access. The right side is bound in the table of the left side's type.
  unfoldable pub typecheck_inner :
      Compiler Map
      → Checker
      → ℕ
      → TypeInfo
      → AstExpr
      → TokenKind
      → AstExpr
      → ErrorHandler
      → Outcome (AstExpr × ErrorHandler)
  typecheck_inner c rec p t left op right e = do
    q ← members_table c p t
    (bound, e₁) ← bind_expr h c q right e
    (right', e₂) ← rec q bound e₁
    ok (expr_binary (head_type right') left op right', e₂)

  unfoldable pub typecheck_member :
      Compiler Map
      → Checker
      → ℕ
      → AstExpr
      → TokenKind
      → AstExpr
      → ErrorHandler
      → Outcome (AstExpr × ErrorHandler)
  typecheck_member c rec p left op right e = do
    t ← accessed_type (head_type left)
    if has_members t
        then typecheck_inner c rec p t left op right e
        else ok (expr_binary (some t) left op right, error_typecheck_binary e "Has no members")

  -- The arguments of a call, once their number is known to be right.
  unfoldable pub typecheck_all :
      Checker
      → ℕ
      → List (Option TypeInfo)
      → AstExprs
      → ErrorHandler
      → Outcome (AstExprs × ErrorHandler)
  typecheck_all rec p ts nil e = ok (nil, e)
  typecheck_all rec p [] (cons arg args) e = fault bad_access
  typecheck_all rec p (t_param ∷ ts) (cons arg args) e = do
    (arg', e₁) ← rec p arg e
    e₂ ← compare "Argument mismatch" (head_type arg') t_param e₁
    (args', e₃) ← typecheck_all rec p ts args e₂
    ok (cons arg' args', e₃)

  unfoldable pub typecheck_args :
      Checker
      → ℕ
      → List (Option TypeInfo)
      → AstExprs
      → ErrorHandler
      → Outcome (AstExprs × ErrorHandler)
  typecheck_args rec p [] nil e = ok (nil, e)
  typecheck_args rec p (t_param ∷ ts) nil e = ok (nil, error_node e "Expected n args, but got 0")
  typecheck_args rec p ts (cons arg args) e =
      if n_args (cons arg args) == length ts
      then typecheck_all rec p ts (cons arg args) e
      else ok (cons arg args, error_node e "Expected x args, but got y")

  unfoldable pub typecheck_expr :
      ℕ → Compiler Map → ℕ → AstExpr → ErrorHandler → Outcome (AstExpr × ErrorHandler)
  typecheck_expr zero c p head e = fault out_of_fuel
  typecheck_expr (suc f) c p expr_null e = fault bad_access
  typecheck_expr (suc f) c p (expr_unary old op expr) e = do
    (expr', e₁) ← typecheck_expr f c p expr e
    (t, e₂) ← unary_type op old (head_type expr') e₁
    ok (expr_unary t op expr', e₂)
  typecheck_expr (suc f) c p (expr_binary old left op right) e = do
    (left', e₁) ← typecheck_expr f c p left e
    if is_kind op token_dot
        then typecheck_member c (typecheck_expr f c) p left' op right e₁
        else typecheck_operands (typecheck_expr f c) p left' op right e₁
  typecheck_expr (suc f) c p (expr_literal old sym lit literal) e =
      literal_type c p lit sym >>= λ t. ok (expr_literal t sym lit literal, e)
  typecheck_expr (suc f) c p (expr_call old is_comptime identifier args) e = do
    callee ← callee_of c p identifier
    (args', e₁) ← typecheck_args (typecheck_expr f c) p callee.param_types args e
    ok (expr_call callee.return_type is_comptime identifier args', e₁)
