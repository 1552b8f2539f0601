-- ===== src/Comptime/Run.antt =====
-- The compiler and the machine together: the code of an expression, run where the compiler put it.
use metagen.Base.{ℕ, ◌+◌, ◌≡◌, List, ◌++◌, append_assoc, length, length-append, ok, ap, sym, ◌∙◌}
use metagen.Base.Int.{ℤ}
use metagen.Ast.{AstExpr}
use metagen.Comptime.Code.{Bytecode}
use metagen.HashMap.{StrMap}
use metagen.Comptime.Compile.{bcf_load_ident, ast_expr_to_bytecode}
use metagen.Comptime.Machine.{left_first, Output, run_loop}
use metagen.Comptime.Layout.{Holds, Holds-in}
use metagen.Comptime.Steps.{count_steps, run_loop-Steps}
use metagen.Comptime.Instructions.{machine}
use metagen.Comptime.Expressions.{need, Same, SlotsOutside, eval_expr}
use metagen.Comptime.Correct.{Room, compile_Computes}

-- The loop of `run` on `code` comes in some rounds from `from` to `to` with `v` pushed at `sp`; the
-- cells outside of `sp` to `hi` are as before, and nothing is printed.
abbrev pub Delivers : List ℕ → ℕ → ℕ → (ℕ → ℤ) → ℕ → ℕ → List Output → ℤ → Type 0
Delivers code from to stack sp hi out v =
    (t : ℕ → ℤ) × ((rounds : ℕ) × ((fuel : ℕ)
        → run_loop (rounds + fuel) left_first (machine code from stack sp out)
          ≡ run_loop fuel left_first (machine code to t (sp + 1) out)))
    × (t sp ≡ v)
    × Same sp hi stack t

-- Run from where its code begins, whatever code follows, a compiled expression comes to the end of
-- its code with its value pushed and the cells outside of its temporaries unchanged, when the first
-- `popw` of an instruction gives the left operand. Its variables must lie outside of the
-- temporaries, which must fit the stack, and the expression must have a value: a literal number, a
-- variable with a slot, or +, -, =, !=, < or > of such without an overflow.
pub run-ast_expr_to_bytecode :
    (h : StrMap) (locals : List h.Map) (e : AstExpr) (b b' : Bytecode) (rest : List ℕ)
    (stack : ℕ → ℤ) (sp lo hi : ℕ) (out : List Output) (v : ℤ)
    → ast_expr_to_bytecode h locals bcf_load_ident e b ≡ ok b'
    → Room sp lo hi (need e)
    → SlotsOutside h locals lo hi e
    → eval_expr h locals stack e ≡ ok v
    → Delivers (b'.code ++ rest) (length b.code) (length b'.code) stack sp hi out v
run-ast_expr_to_bytecode h locals e b b' rest stack sp lo hi out v compiled room slots value =
    let (c, text, computes) = compile_Computes h e locals b b' compiled in
    let holds : Holds (b'.code ++ rest) (length b.code) c =
      rw (text, append_assoc) (Holds-in b.code c rest) in
    let there : length b.code + length c ≡ length b'.code =
      sym (ap length text ∙ length-append b.code c) in
    let (t, steps, top, same) =
      computes (b'.code ++ rest) (length b.code) stack sp lo hi out v holds room slots value in
    let steps' = rw there at steps in (t, (count_steps steps', run_loop-Steps steps'), top, same)
