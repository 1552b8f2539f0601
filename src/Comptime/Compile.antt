-- ===== src/Comptime/Compile.antt =====
-- The bytecode compiler (compiler/comptime/bytecode.c). The source sets `compiler->flags` and
-- `compiler->locals` for a part of the tree and sets them back behind it: here they are arguments.
-- The notices that it prints on what it does not handle are left out: it writes no code for that.
use metagen.Base.{
  ℕ, suc, ◌+◌, ◌-◌, ◌/◌, ◌%◌, ◌^◌, List, [], ◌∷◌, Option, none, some, ◌==◌, if◌then◌else◌, Outcome,
  ok, fault, bad_access, assert_failed, ◌>>=◌,
}
use metagen.Base.Int.{pos}
use metagen.Lex.Token.{
  TokenKind, token_plus, token_minus, token_eq, token_neq, token_greater, token_less,
}
use metagen.Types.{TypeInfo, integer, type_info_bit_size, Symbol, symbol_local_var}
use metagen.Ast.{
  lit_str, lit_ident, lit_num, lit_null, AstExpr, expr_null, expr_unary, expr_binary, expr_literal,
  expr_call, AstExprs, nil, cons, AstStmt, stmt_null, stmt_while, stmt_if, stmt_if_else, stmt_break,
  stmt_continue, stmt_return, stmt_expr, stmt_print, stmt_block, stmt_assignment, AstStmts,
  none_left, then_stmt,
}
use metagen.HashMap.{StrMap}
use metagen.Str.{str_view_to_u32}
use metagen.Comptime.Code.{
  OpCode, op_addw, op_subw, op_ge, op_le, op_not, op_jmp, op_biz, op_consw, op_pushn, op_popn,
  op_loadl, op_storel, op_print, op_return, op_byte, Bytecode, code_offset, writeu8, writew, writei,
  patchw, patchi,
}

pub data BytecodeCompilerFlags : Type 0 where
  bcf_store_ident bcf_load_ident : BytecodeCompilerFlags

abbrev pub ident_op : BytecodeCompilerFlags → OpCode
ident_op bcf_store_ident = op_storel
ident_op bcf_load_ident = op_loadl

abbrev pub write_op : Bytecode → OpCode → Outcome Bytecode
write_op b op = writeu8 b (op_byte op)

-- The inner switch of EXPR_BINARY.
unfoldable pub binary_to_bytecode : TokenKind → Bytecode → Outcome Bytecode
binary_to_bytecode token_plus b = write_op b op_addw
binary_to_bytecode token_minus b = write_op b op_subw
binary_to_bytecode token_eq b = write_op b op_subw >>= λ b₁. write_op b₁ op_not
binary_to_bytecode token_neq b = write_op b op_subw
binary_to_bytecode token_greater b = write_op b op_ge
binary_to_bytecode token_less b = write_op b op_le
binary_to_bytecode _ b = ok b

-- `assert(expr->type->kind == TYPE_INTEGER)`
abbrev pub assert_integer : Option TypeInfo → Outcome (Unit {0})
assert_integer none = fault bad_access
assert_integer (some (integer _ _ _)) = ok tt
assert_integer (some _) = fault assert_failed

-- `n_args`, which `writeu8` cuts to a byte.
abbrev pub count_args : AstExprs → ℕ
count_args nil = 0
count_args (cons expr rest) = suc (count_args rest)

-- `(var_space + sizeof(BytecodeWord) - 1) / sizeof(BytecodeWord)`
abbrev pub space_in_words : ℕ → ℕ
space_in_words var_space = (var_space + 7) / 8

-- The jump over the then-branch, patched: from behind its immediate to the end of the code.
abbrev pub patch_forward : Bytecode → ℕ → Bytecode
patch_forward b target = patchi b target (code_offset b - target - 2)

module _ (h : StrMap) where
  open h use {Map, init, get, put}

  -- `(BytecodeImm)offset - 1` on the first hit, from the innermost scope outwards.
  unfoldable pub find_ident_offset : List Map → List ℕ → Outcome ℕ
  find_ident_offset [] ident = fault assert_failed
  find_ident_offset (m ∷ ms) ident =
      let offset = get m ident in
      if offset == 0
      then find_ident_offset ms ident
      else ok ((offset % 2 ^ 16 + 2 ^ 16 - 1) % 2 ^ 16)

  unfoldable pub ast_expr_to_bytecode :
      List Map → BytecodeCompilerFlags → AstExpr → Bytecode → Outcome Bytecode
  ast_expr_to_bytecode locals flags expr_null b = fault bad_access
  ast_expr_to_bytecode locals flags (expr_binary type left op right) b = do
    _ ← assert_integer type
    b₁ ← ast_expr_to_bytecode locals flags right b
    b₂ ← ast_expr_to_bytecode locals flags left b₁
    binary_to_bytecode op b₂
  ast_expr_to_bytecode locals flags (expr_literal type sym lit_num text) b = do
    b₁ ← write_op b op_consw
    writew b₁ (pos (str_view_to_u32 text).0)
  ast_expr_to_bytecode locals flags (expr_literal type none lit_ident text) b = fault bad_access
  ast_expr_to_bytecode locals flags (expr_literal type (some sym) lit_ident text) b = do
    b₁ ← write_op b (ident_op flags)
    offset ← find_ident_offset locals sym.name
    writei b₁ offset
  ast_expr_to_bytecode locals flags (expr_literal type sym lit_str text) b = ok b
  ast_expr_to_bytecode locals flags (expr_literal type sym lit_null text) b = ok b
  ast_expr_to_bytecode locals flags (expr_unary type op expr) b = ok b
  ast_expr_to_bytecode locals flags (expr_call type comptime name args) b = ok b

  -- The loop over the expressions of a print statement.
  unfoldable pub print_args_to_bytecode : List Map → AstExprs → Bytecode → Outcome Bytecode
  print_args_to_bytecode locals nil b = ok b
  print_args_to_bytecode locals (cons expr rest) b =
      ast_expr_to_bytecode locals bcf_load_ident expr b >>= λ b₁.
      print_args_to_bytecode locals rest b₁

  -- The loop over the symbols of a block: the scope's map, and `var_space`.
  unfoldable pub place_locals : ℕ → ℕ → Map → List Symbol → Outcome (Map × ℕ)
  place_locals offset var_space m [] = ok (m, var_space)
  place_locals offset var_space m (sym ∷ syms) = elim (sym.kind) [
    | symbol_local_var ↦ elim (sym.type_info) [
      | none ↦ fault bad_access
      | some type ↦
          place_locals offset ((var_space + type_info_bit_size type) % 2 ^ 32)
            (put m sym.name ((offset + var_space + 1) % 2 ^ 32)) syms
    ]
    | _ ↦ place_locals offset var_space m syms
  ]

  unfoldable mutual
    pub ast_stmt_to_bytecode : List Map → AstStmt → Bytecode → Outcome Bytecode
    ast_stmt_to_bytecode locals stmt_null b = fault bad_access
    ast_stmt_to_bytecode locals (stmt_assignment left right) b = do
      b₁ ← ast_expr_to_bytecode locals bcf_load_ident right b
      ast_expr_to_bytecode locals bcf_store_ident left b₁
    ast_stmt_to_bytecode locals (stmt_if condition then_branch) b = do
      b₁ ← ast_expr_to_bytecode locals bcf_load_ident condition b
      b₂ ← write_op b₁ op_biz
      b₃ ← writei b₂ 0
      b₄ ← ast_stmt_to_bytecode locals then_branch b₃
      ok (patch_forward b₄ (code_offset b₂))
    ast_stmt_to_bytecode locals (stmt_if_else condition then_branch else_branch) b = do
      b₁ ← ast_expr_to_bytecode locals bcf_load_ident condition b
      b₂ ← write_op b₁ op_biz
      b₃ ← writei b₂ 0
      b₄ ← ast_stmt_to_bytecode locals then_branch b₃
      b₅ ← write_op b₄ op_consw
      b₆ ← writew b₅ (pos 0)
      b₇ ← write_op b₆ op_jmp
      b₈ ← ast_stmt_to_bytecode locals else_branch (patch_forward b₇ (code_offset b₂))
      ok (patchw b₈ (code_offset b₅) (pos (code_offset b₈)))
    ast_stmt_to_bytecode locals (stmt_while condition body) b = do
      b₁ ← ast_expr_to_bytecode locals bcf_load_ident condition b
      b₂ ← write_op b₁ op_biz
      b₃ ← writei b₂ 0
      b₄ ← ast_stmt_to_bytecode locals body b₃
      b₅ ← write_op b₄ op_consw
      b₆ ← writew b₅ (pos (code_offset b))
      b₇ ← write_op b₆ op_jmp
      ok (patch_forward b₇ (code_offset b₂))
    ast_stmt_to_bytecode locals (stmt_block decls stmts p none) b = fault bad_access
    ast_stmt_to_bytecode locals (stmt_block decls stmts p (some [])) b =
        ast_stmts_to_bytecode locals stmts b
    ast_stmt_to_bytecode locals (stmt_block decls stmts p (some (sym ∷ syms))) b = do
      (scope, var_space) ← place_locals (code_offset b) 0 init (sym ∷ syms)
      b₁ ← write_op b op_pushn
      b₂ ← writei b₁ (space_in_words var_space)
      b₃ ← ast_stmts_to_bytecode (scope ∷ locals) stmts b₂
      b₄ ← write_op b₃ op_popn
      writei b₄ (space_in_words var_space)
    ast_stmt_to_bytecode locals (stmt_print exprs) b = do
      b₁ ← print_args_to_bytecode locals exprs b
      b₂ ← write_op b₁ op_print
      writeu8 b₂ (count_args exprs)
    ast_stmt_to_bytecode locals stmt_break b = ok b
    ast_stmt_to_bytecode locals stmt_continue b = ok b
    ast_stmt_to_bytecode locals (stmt_return expr) b = ok b
    ast_stmt_to_bytecode locals (stmt_expr expr) b = ok b

    pub ast_stmts_to_bytecode : List Map → AstStmts → Bytecode → Outcome Bytecode
    ast_stmts_to_bytecode locals none_left b = ok b
    ast_stmts_to_bytecode locals (then_stmt stmt rest) b =
        ast_stmt_to_bytecode locals stmt b >>= λ b₁. ast_stmts_to_bytecode locals rest b₁

  -- `ast_to_bytecode` on the body of the first function; a missing body fails its assertion.
  unfoldable pub ast_to_bytecode : Option AstStmt → Outcome Bytecode
  ast_to_bytecode none = fault assert_failed
  ast_to_bytecode (some body) = do
    b ← ast_stmt_to_bytecode (init ∷ []) body (record { code = [] })
    write_op b op_return
