-- ===== src/Comptime/Tests.antt =====
-- Runs of the compiler and the machine.
use metagen.Comptime.Sample.{fib_test}
use metagen.Base.{
  zero, suc, ℕ, length, ◌≡◌, inl, arith, refl, true, List, [], ◌∷◌, ◌++◌, Option, none, some, codes,
  bytes_eq, if◌then◌else◌, Outcome, ok, ◌>>=◌, String,
}
use metagen.Base.Int.{ℤ, pos, negsuc, ◌+ℤ◌, ◌-ℤ◌}
use metagen.Lex.Token.{token_plus, token_minus, token_less}
use metagen.Types.{TypeInfo, integer, Symbol, symbol_local_var, type_info_bit_size}
use metagen.Ast.{
  lit_ident, lit_num, AstExpr, expr_binary, expr_literal, nil, cons, AstStmt, stmt_while,
  stmt_print, stmt_block, stmt_assignment, none_left, then_stmt,
}
use metagen.Str.{str_view_to_u32, read_u32, digits, skip_blanks}
use metagen.Comptime.Word.{add_words, sub_words, less_words}
use metagen.Comptime.Code.{
  append_code, word_bytes, writeu8, writew, writei, overwrite, patchw, patchi, le_bytes, le_value,
}
use metagen.HashMap.{StrMap}
use metagen.Comptime.Compile.{
  ast_to_bytecode, ast_stmt_to_bytecode, ast_expr_to_bytecode, binary_to_bytecode,
  find_ident_offset, place_locals, print_args_to_bytecode,
}
use metagen.Comptime.Machine.{
  EvalOrder, left_first, right_first, line, Output, run, run_loop, round, dispatch, execute,
  start_vm, read_bytes, readw, readi, read_u8, pushn, pushw, popw, popn, loadw, storew, binary_op,
  pop_args,
}
use metagen.Comptime.Instructions.{machine}
use metagen.Comptime.Expressions.{need, eval_expr, apply_op}
use metagen.Comptime.Run.{Delivers, run-ast_expr_to_bytecode}
use metagen.Comptime.Access.{readw-writew, readi-patchi}

-- An association list in place of the hash map.
abbrev assoc_get : List (List ℕ × ℕ) → List ℕ → ℕ
assoc_get [] j = 0
assoc_get ((k, v) ∷ m) j = if bytes_eq k j then v else assoc_get m j

abbrev assoc_map : StrMap
assoc_map = record {
  Map = List (List ℕ × ℕ);
  init = [];
  get = assoc_get;
  put = λ m k v. (k, v) ∷ m;
  get-init = λ k. refl;
  get-put = λ m k j v. refl;
}

abbrev s32 : Option TypeInfo
s32 = some (integer (codes "s32") 32 true)

abbrev i_symbol : Symbol
i_symbol = record { kind = symbol_local_var; seq_no = 0; name = codes "i"; type_info = s32 }

abbrev i_expr : AstExpr
i_expr = expr_literal s32 (some i_symbol) lit_ident (codes "i")

abbrev num : String → AstExpr
num text = expr_literal s32 none lit_num (codes text)

-- var i: s32; i := 0; while i < 3 do begin print i, 7; i := i + 1 end
abbrev count_up : AstStmt
count_up =
    stmt_block []
      (then_stmt (stmt_assignment i_expr (num "0")) (
        then_stmt
          (stmt_while (expr_binary s32 i_expr token_less (num "3")) (
            stmt_block []
              (then_stmt (stmt_print (cons i_expr (cons (num "7") nil))) (
                then_stmt (stmt_assignment i_expr (expr_binary s32 i_expr token_plus (num "1")))
                  none_left))
              0 (some [])))
          none_left))
      0 (some (i_symbol ∷ []))

runs : AstStmt → Outcome (List Output)
runs body = do
  b ← ast_to_bytecode assoc_map (some body)
  vm ← run 100 left_first b.code (λ _. pos 9)
  ok vm.out

runs-count_up :
    runs count_up
    ≡ ok (line (pos 0 ∷ pos 7 ∷ []) ∷ line (pos 1 ∷ pos 7 ∷ []) ∷ line (pos 2 ∷ pos 7 ∷ []) ∷ [])
unfolding runs ast_to_bytecode ast_stmt_to_bytecode ast_expr_to_bytecode binary_to_bytecode
    find_ident_offset place_locals print_args_to_bytecode run run_loop round dispatch execute
    start_vm read_bytes readw readi read_u8 pushn pushw popw popn loadw storew binary_op pop_args
    append_code writeu8 writew writei overwrite patchw patchi le_bytes le_value add_words sub_words
    less_words str_view_to_u32 read_u32 digits skip_blanks type_info_bit_size bytes_eq ◌+ℤ◌ ◌-ℤ◌
runs-count_up = refl

abbrev printed : ℕ → List Output
printed zero = []
printed (suc n) = printed n ++ line (pos n ∷ []) ∷ []

-- What the stack holds at first does not matter, nor which operand is popped first.
fib_test_prints :
    (order : EvalOrder) (garbage : ℕ → ℤ)
    → (fib_test >>= λ b. run 128 order b.code garbage >>= λ vm. ok vm.out) ≡ ok (printed 10)
unfolding fib_test run run_loop round dispatch execute start_vm read_bytes readw readi read_u8 pushn
    pushw popw popn loadw storew binary_op pop_args append_code writeu8 writew writei overwrite
    patchw patchi le_bytes le_value add_words sub_words ◌+ℤ◌ ◌-ℤ◌
fib_test_prints left_first garbage = refl
fib_test_prints right_first garbage = refl

-- i - 2, with `i` in the first cell of the stack.
abbrev i_less_two : AstExpr
i_less_two = expr_binary s32 i_expr token_minus (num "2")

abbrev i_less_two_code : List ℕ
i_less_two_code = 12 ∷ 2 ∷ 0 ∷ 0 ∷ 0 ∷ 0 ∷ 0 ∷ 0 ∷ 0 ∷ 15 ∷ 0 ∷ 0 ∷ 1 ∷ []

run-ast_expr_to_bytecode_example :
    Delivers (i_less_two_code ++ 18 ∷ []) 0 13 (λ j. pos 40) 1 3 [] (pos 38)
unfolding ast_expr_to_bytecode binary_to_bytecode find_ident_offset append_code writeu8 writew
    writei le_bytes str_view_to_u32 read_u32 digits skip_blanks bytes_eq need eval_expr apply_op
    sub_words ◌-ℤ◌
run-ast_expr_to_bytecode_example =
    run-ast_expr_to_bytecode assoc_map (((codes "i", 1) ∷ []) ∷ []) i_less_two
      (record { code = [] }) (record { code = i_less_two_code }) (18 ∷ []) (λ j. pos 40) 1 1 3 []
      (pos 38) refl (record { above = omega arith; below = omega arith; limit = omega arith })
      ((omega arith, inl (omega arith)), tt) refl

readw-writew_example :
    readw (machine (7 ∷ word_bytes (negsuc 4) ++ []) 1 (λ j. pos 0) 0 [])
    ≡ ok (negsuc 4, machine (7 ∷ word_bytes (negsuc 4) ++ []) 9 (λ j. pos 0) 0 [])
unfolding writew append_code le_bytes
readw-writew_example =
    readw-writew (λ j. pos 0) 0 [] (record { code = 7 ∷ [] })
      (record { code = 7 ∷ word_bytes (negsuc 4) }) (negsuc 4) [] refl refl

-- BIZ with a jump over one POPN.
abbrev biz_code : ℕ → List ℕ
biz_code n = 10 ∷ n ∷ 0 ∷ 14 ∷ 1 ∷ 0 ∷ []

readi-patchi_example :
    (readi (machine (biz_code 3) 1 (λ j. pos 0) 0 [])
      ≡ ok (3, machine (biz_code 3) 3 (λ j. pos 0) 0 []))
    × (biz_code 3 ≡ biz_code 3)
    × (length (biz_code 3) ≡ length (biz_code 0))
unfolding writei append_code patchi overwrite le_bytes
readi-patchi_example =
    readi-patchi (λ j. pos 0) 0 [] (record { code = 10 ∷ [] }) (record { code = 10 ∷ 0 ∷ 0 ∷ [] })
      (record { code = biz_code 0 }) 0 3 (14 ∷ 1 ∷ 0 ∷ []) (omega arith) refl refl
