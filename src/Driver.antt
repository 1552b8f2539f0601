-- ===== src/Driver.antt =====
-- The driver (main.c): the passes in order, each of which ends the compilation when there is a report, and the run of
-- the bytecode. What is printed on the way, and the C code that transpile_to_c writes, are left out.
use metagen.Base.{
  ℕ, Bool, true, false, List, [], ◌∷◌, Option, none, some, ltb, ◌==◌, if◌then◌else◌, Outcome, ok,
  fault, assert_failed, ◌>>=◌,
}
use metagen.Base.Int.{ℤ}
use metagen.HashMap.{StrMap}
use metagen.Diagnostics.{ErrorHandler, error_handler_init}
use metagen.Ast.{AstStmt, AstFunc, AstRoot}
use metagen.Parser.Root.{parse}
use metagen.Types.Store.{Compiler}
use metagen.Types.Layout.{Nag}
use metagen.Types.Typegen.{typegen}
use metagen.Types.Infer.{infer}
use metagen.Types.CheckStmts.{typecheck}
use metagen.Comptime.Compile.{ast_to_bytecode}
use metagen.Comptime.Machine.{MetagenVm, EvalOrder, run}

-- The body of the first function. `ast_to_bytecode` asserts that there is a first function.
unfoldable pub first_body : List AstFunc → Outcome (Option AstStmt)
first_body [] = fault assert_failed
first_body (fn ∷ fns) = ok fn.body

module _ (h : StrMap) (nag : Nag) where
  open h use {Map}

  abbrev pub CompilerPass : Type 0
  CompilerPass = Compiler Map → AstRoot → Outcome (AstRoot × Compiler Map)

  -- The compiler before its first pass.
  unfoldable pub new_compiler : ErrorHandler → Compiler Map
  new_compiler e = record {
    e = e;
    tables = [];
    cells = [];
    sym_null = 0;
    all_types = [];
    struct_types = [];
    structs = [];
    funcs = [];
  }

  unfoldable pub typegen_pass : CompilerPass
  typegen_pass c root = typegen h nag c root >>= λ c₁. ok (root, c₁)

  -- The first part of the result tells whether there is a report.
  unfoldable pub run_compiler_pass :
      Compiler Map → AstRoot → CompilerPass → Outcome (Bool × AstRoot × Compiler Map)
  run_compiler_pass c root pass = do (root₁, c₁) ← pass c root; ok (ltb 0 c₁.e.n_errors, root₁, c₁)

  -- The passes from here on; whether the tree came through all of them comes first.
  unfoldable pub run_passes :
      Compiler Map → AstRoot → List CompilerPass → Outcome (Bool × AstRoot × Compiler Map)
  run_passes c root [] = ok (true, root, c)
  run_passes c root (pass ∷ passes) = do
    (failed, root₁, c₁) ← run_compiler_pass c root pass
    if failed then ok (false, root₁, c₁) else run_passes c₁ root₁ passes

  -- `compile` up to the code generators.
  unfoldable pub front_end : List ℕ → Outcome (Bool × AstRoot × Compiler Map)
  front_end input = do
    (root, parser) ← parse error_handler_init input
    let c = new_compiler parser.lexer.e in
        if c.e.n_errors == 0
        then run_passes c root (typegen_pass ∷ infer h ∷ typecheck h ∷ [])
        else ok (false, root, c)

  -- The bytecode machine runs with `fuel`, the order of evaluation of its operands and the contents of a
  -- new stack, which C leaves open.
  unfoldable pub back_end : ℕ → EvalOrder → (ℕ → ℤ) → AstRoot → Outcome MetagenVm
  back_end fuel order garbage root = do
    body ← first_body root.funcs
    bytecode ← ast_to_bytecode h body
    run fuel order bytecode.code garbage

  -- The number of reports, and the machine when the program ran.
  unfoldable pub compile : ℕ → EvalOrder → (ℕ → ℤ) → List ℕ → Outcome (ℕ × Option MetagenVm)
  compile fuel order garbage input = do
    (passed, root, c) ← front_end input
    if passed
        then (back_end fuel order garbage root >>= λ vm. ok (c.e.n_errors, some vm))
        else ok (c.e.n_errors, none)
