-- ===== src/Comptime/Machine.antt =====
-- The stack machine (compiler/comptime/vm.c, vm.h). `sp` counts words: the pointer of the source
-- moves by eight bytes. A cell of the stack that was never written holds any value, which the first
-- machine is given. An access outside the code or the stack is a fault. C does not say which of two
-- operands of an operator is evaluated first, so which of the two `popw` of an instruction comes
-- first is a parameter. `bp` and `flags` stay 0 and are left out with what printf does.
use metagen.Base.{
  ℕ, zero, suc, ◌+◌, ◌-◌, List, [], ◌∷◌, ◌++◌, Option, none, some, ltb, leb, ◌==◌, if◌then◌else◌,
  length, get_elem?, drop, take, Outcome, ok, fault, bad_access, out_of_fuel, ◌>>=◌,
}
use metagen.Base.Int.{ℤ, pos, negsuc}
use metagen.Comptime.Word.{
  add_words, sub_words, mul_words, div_words, shift_left, shift_right, greater_words, less_words,
  not_word, is_zero, of_bits,
}
use metagen.Comptime.Code.{
  OpCode, op_addw, op_subw, op_mulw, op_divw, op_lshift, op_rshift, op_ge, op_le, op_not, op_jmp,
  op_biz, op_bnz, op_consw, op_pushn, op_popn, op_loadl, op_storel, op_print, op_return, op_codes,
  le_value,
}

pub data EvalOrder : Type 0 where
  left_first right_first : EvalOrder

abbrev pub stack_max : ℕ
stack_max = 1024

-- What the machine prints: the arguments of an OP_PRINT, or a byte that is no opcode.
pub data Output : Type 0 where
  line : List ℤ → Output
  unknown_opcode : ℕ → Output

pub record MetagenVm : Type 0 where
  pub code : List ℕ
  pub ip : ℕ
  pub stack : ℕ → ℤ
  pub sp : ℕ
  pub out : List Output

abbrev pub update : (ℕ → ℤ) → ℕ → ℤ → ℕ → ℤ
update stack i value j = if i == j then value else stack j

-- `n` bytes at `ip`, which moves behind them.
unfoldable pub read_bytes : MetagenVm → ℕ → Outcome (List ℕ × MetagenVm)
read_bytes vm n =
    let bytes = take n (drop vm.ip vm.code) in
    if length bytes == n then ok (bytes, record vm { ip = vm.ip + n }) else fault bad_access

unfoldable pub readw : MetagenVm → Outcome (ℤ × MetagenVm)
readw vm = read_bytes vm 8 >>= λ r. ok (of_bits (le_value r.0), r.1)

unfoldable pub readi : MetagenVm → Outcome (ℕ × MetagenVm)
readi vm = read_bytes vm 2 >>= λ r. ok (le_value r.0, r.1)

unfoldable pub read_u8 : MetagenVm → Outcome (ℕ × MetagenVm)
read_u8 vm = read_bytes vm 1 >>= λ r. ok (le_value r.0, r.1)

unfoldable pub pushn : MetagenVm → ℕ → Outcome MetagenVm
pushn vm n =
    if leb (vm.sp + n) stack_max then ok (record vm { sp = vm.sp + n }) else fault bad_access

unfoldable pub pushw : MetagenVm → ℤ → Outcome MetagenVm
pushw vm value =
    if ltb vm.sp stack_max
    then ok (record vm { stack = update vm.stack vm.sp value; sp = vm.sp + 1 })
    else fault bad_access

unfoldable pub popw : MetagenVm → Outcome (ℤ × MetagenVm)
popw vm =
    if vm.sp == 0 then fault bad_access else ok (vm.stack (vm.sp - 1), record vm { sp = vm.sp - 1 })

-- The byte that `popn` reads at the new top is not used.
unfoldable pub popn : MetagenVm → ℕ → Outcome MetagenVm
popn vm n =
    if ltb vm.sp n
    then fault bad_access
    else if ltb (vm.sp - n) stack_max
    then ok (record vm { sp = vm.sp - n })
    else fault bad_access

unfoldable pub loadw : MetagenVm → ℕ → Outcome ℤ
loadw vm bp_offset = if ltb bp_offset stack_max then ok (vm.stack bp_offset) else fault bad_access

unfoldable pub storew : MetagenVm → ℕ → ℤ → Outcome MetagenVm
storew vm bp_offset value =
    if ltb bp_offset stack_max
    then ok (record vm { stack = update vm.stack bp_offset value })
    else fault bad_access

-- `popw(&vm) op popw(&vm)`: the first pop is the left operand's, or the right one's.
abbrev pub operands : EvalOrder → (ℤ → ℤ → Outcome ℤ) → ℤ → ℤ → Outcome ℤ
operands left_first op first second = op first second
operands right_first op first second = op second first

-- `pushw(&vm, popw(&vm) op popw(&vm))`
unfoldable pub binary_op : EvalOrder → (ℤ → ℤ → Outcome ℤ) → MetagenVm → Outcome MetagenVm
binary_op order op vm = do
  (first, vm₁) ← popw vm
  (second, vm₂) ← popw vm₁
  value ← operands order op first second
  pushw vm₂ value

-- `n` words popped one after another, first popped last: the order in which they are printed.
unfoldable pub pop_args : ℕ → List ℤ → MetagenVm → Outcome (List ℤ × MetagenVm)
pop_args zero args vm = ok (args, vm)
pop_args (suc n) args vm = popw vm >>= λ r. pop_args n (r.0 ∷ args) (r.1)

-- `vm.ip = bytecode.code + target`
abbrev pub jump_to : ℤ → MetagenVm → Outcome MetagenVm
jump_to (pos target) vm = ok (record vm { ip = target })
jump_to (negsuc n) vm = fault bad_access

abbrev pub print_line : List Output → List ℤ → List Output
print_line out args = out ++ line args ∷ []

-- One case of the switch; OP_RETURN leaves the loop and is `dispatch`'s.
unfoldable pub execute : EvalOrder → OpCode → MetagenVm → Outcome MetagenVm
execute order op_consw vm = do (value, vm₁) ← readw vm; pushw vm₁ value
execute order op_addw vm = binary_op order add_words vm
execute order op_subw vm = binary_op order sub_words vm
execute order op_mulw vm = binary_op order mul_words vm
execute order op_divw vm = binary_op order div_words vm
execute order op_lshift vm = binary_op order shift_left vm
execute order op_rshift vm = binary_op order shift_right vm
execute order op_ge vm = binary_op order greater_words vm
execute order op_le vm = binary_op order less_words vm
execute order op_not vm = do (value, vm₁) ← popw vm; pushw vm₁ (not_word value)
execute order op_jmp vm = do (target, vm₁) ← popw vm; jump_to target vm₁
execute order op_biz vm = do
  (target, vm₁) ← readi vm
  (value, vm₂) ← popw vm₁
  ok (if is_zero value then record vm₂ { ip = vm₂.ip + target } else vm₂)
execute order op_bnz vm = do
  (target, vm₁) ← readi vm
  (value, vm₂) ← popw vm₁
  ok (if is_zero value then vm₂ else record vm₂ { ip = vm₂.ip + target })
execute order op_pushn vm = do (n_words, vm₁) ← readi vm; pushn vm₁ n_words
execute order op_popn vm = do (n_words, vm₁) ← readi vm; popn vm₁ n_words
execute order op_storel vm = do
  (bp_offset, vm₁) ← readi vm
  (value, vm₂) ← popw vm₁
  storew vm₂ bp_offset value
execute order op_loadl vm = do
  (bp_offset, vm₁) ← readi vm
  value ← loadw vm₁ bp_offset
  pushw vm₁ value
execute order op_print vm = do
  (n_args, vm₁) ← read_u8 vm
  (args, vm₂) ← pop_args n_args [] vm₁
  ok (record vm₂ { out = print_line vm₂.out args })
execute order op_return vm = ok vm

-- One round of the loop goes on, or ends the run.
pub data Round : Type 0 where
  goes_on : MetagenVm → Round
  ends : MetagenVm → Round

unfoldable pub dispatch : EvalOrder → Option OpCode → ℕ → MetagenVm → Outcome Round
dispatch order none byte vm = ok (ends (record vm { out = vm.out ++ unknown_opcode byte ∷ [] }))
dispatch order (some op_return) byte vm = ok (ends vm)
dispatch order (some op) byte vm = execute order op vm >>= λ next. ok (goes_on next)

unfoldable pub round : EvalOrder → MetagenVm → Outcome Round
round order vm = do (byte, vm₁) ← read_u8 vm; dispatch order (get_elem? op_codes byte) byte vm₁

-- The loop of `run` for at most `fuel` rounds: a program need not stop.
unfoldable pub run_loop : ℕ → EvalOrder → MetagenVm → Outcome MetagenVm
run_loop zero order vm = fault out_of_fuel
run_loop (suc fuel) order vm =
    round order vm >>= λ r. elim r [ goes_on next ↦ run_loop fuel order next | ends last ↦ ok last ]

unfoldable pub start_vm : List ℕ → (ℕ → ℤ) → MetagenVm
start_vm code garbage = record { code = code; ip = 0; stack = garbage; sp = 0; out = [] }

unfoldable pub run : ℕ → EvalOrder → List ℕ → (ℕ → ℤ) → Outcome MetagenVm
run fuel order code garbage = run_loop fuel order (start_vm code garbage)
