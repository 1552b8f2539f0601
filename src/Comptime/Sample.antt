-- ===== src/Comptime/Sample.antt =====
-- The program that the source assembles by hand (compiler/comptime/bytecode.c, fib_test): a loop that
-- prints the numbers below ten.
use metagen.Base.{[], Outcome, ◌>>=◌}
use metagen.Base.Int.{pos}
use metagen.Comptime.Code.{
  op_addw, op_subw, op_jmp, op_biz, op_consw, op_pushn, op_loadl, op_storel, op_print, op_return,
  Bytecode, code_offset, writeu8, writew, writei,
}
use metagen.Comptime.Compile.{write_op, patch_forward}

-- `if_start` is the offset of b₆, `else_target` that of b₁₁.
unfoldable pub fib_test : Outcome Bytecode
fib_test = do
  b₁ ← write_op (record { code = [] }) op_pushn
  b₂ ← writei b₁ 1
  b₃ ← write_op b₂ op_consw
  b₄ ← writew b₃ (pos 0)
  b₅ ← write_op b₄ op_storel
  b₆ ← writei b₅ 0
  b₇ ← write_op b₆ op_loadl
  b₈ ← writei b₇ 0
  b₉ ← write_op b₈ op_consw
  b₁₀ ← writew b₉ (pos 10)
  b ← write_op b₁₀ op_subw
  b₁₁ ← write_op b op_biz
  b₁₂ ← writei b₁₁ 0
  b₁₃ ← write_op b₁₂ op_loadl
  b₁₄ ← writei b₁₃ 0
  b₁₅ ← write_op b₁₄ op_print
  b₁₆ ← writeu8 b₁₅ 1
  b₁₇ ← write_op b₁₆ op_loadl
  b₁₈ ← writei b₁₇ 0
  b₁₉ ← write_op b₁₈ op_consw
  b₂₀ ← writew b₁₉ (pos 1)
  b₂₁ ← write_op b₂₀ op_addw
  b₂₂ ← write_op b₂₁ op_storel
  b₂₃ ← writei b₂₂ 0
  b₂₄ ← write_op b₂₃ op_consw
  b₂₅ ← writew b₂₄ (pos (code_offset b₆))
  b₂₆ ← write_op b₂₅ op_jmp
  write_op (patch_forward b₂₆ (code_offset b₁₁)) op_return
