-- ===== src/Comptime/Steps.antt =====
-- Rounds of the machine on known code, one lemma for each instruction that the compiler writes.
use metagen.Base.{
  ==_iff, ℕ, suc, ◌+◌, ◌*◌, ◌^◌, ◌<◌, ◌≡◌, ◌≢◌, refl, arith, true, List, [], ◌∷◌, length, get_elem?,
  some, ok, ◌>>=◌,
}
use Prim.Native.Nat.add
use native.Mathlib.Nat.{zero-add}
use metagen.Base.Int.{ℤ}
use metagen.Comptime.Word.{in_range, to_bits}
use metagen.Comptime.Code.{
  OpCode, op_addw, op_return, op_codes, op_byte, word_bytes, imm_bytes, le_value,
}
use metagen.Comptime.Machine.{
  EvalOrder, MetagenVm, read_bytes, read_u8, readw, readi, goes_on, dispatch, round, execute,
  run_loop,
}
use metagen.Comptime.Layout.{
  length-le_bytes, le_value-le_bytes, of_bits-to_bits, to_bits-lt, take-append, Holds,
}

-- The machine comes from the first state to the second in some rounds, none of which ends the run.
pub data Steps (order : EvalOrder) : MetagenVm → MetagenVm → Type 0 where
  stay : {vm : MetagenVm} → Steps order vm vm
  more :
      {vm next last : MetagenVm}
      → round order vm ≡ ok (goes_on next)
      → Steps order next last
      → Steps order vm last

pub Steps-trans :
    {order : EvalOrder} {a b c : MetagenVm} → Steps order a b → Steps order b c → Steps order a c
Steps-trans stay t = t
Steps-trans (more h s) t = more h (Steps-trans s t)

pub count_steps : {order : EvalOrder} {a b : MetagenVm} → Steps order a b → ℕ
count_steps stay = 0
count_steps (more h s) = suc (count_steps s)

-- The loop of `run` makes these rounds.
pub run_loop-Steps :
    {order : EvalOrder} {a b : MetagenVm} (s : Steps order a b) (fuel : ℕ)
    → run_loop (count_steps s + fuel) order a ≡ run_loop fuel order b
unfolding count_steps run_loop
run_loop-Steps stay fuel = rw zero-add
run_loop-Steps (more h s) fuel = rw (add.suc (count_steps s) fuel, h) (run_loop-Steps s fuel)

read_bytes-Holds :
    (vm : MetagenVm) (bytes : List ℕ)
    → Holds vm.code vm.ip bytes
    → read_bytes vm (length bytes) ≡ ok (bytes, record vm { ip = vm.ip + length bytes })
unfolding read_bytes
read_bytes-Holds vm bytes (rest, e) =
    rw (e, take-append bytes rest, (==_iff (length bytes) (length bytes)).1 refl)

pub readi-Holds :
    (vm : MetagenVm) (n : ℕ)
    → n < 2 ^ 16
    → Holds vm.code vm.ip (imm_bytes n)
    → readi vm ≡ ok (n, record vm { ip = vm.ip + 2 })
unfolding readi
readi-Holds vm n l h =
    let r = rw (length-le_bytes 2 n) at (read_bytes-Holds vm (imm_bytes n) h) in
    rw (r, le_value-le_bytes 2 n l)

pub readw-Holds :
    (vm : MetagenVm) (z : ℤ)
    → in_range z ≡ true
    → Holds vm.code vm.ip (word_bytes z)
    → readw vm ≡ ok (z, record vm { ip = vm.ip + 8 })
unfolding readw
readw-Holds vm z l h =
    let r = rw (length-le_bytes 8 (to_bits z)) at (read_bytes-Holds vm (word_bytes z) h) in
    rw (r, le_value-le_bytes 8 (to_bits z) (to_bits-lt z l), of_bits-to_bits z l)

read_u8-Holds :
    (vm : MetagenVm) (b : ℕ)
    → Holds vm.code vm.ip (b ∷ [])
    → read_u8 vm ≡ ok (b, record vm { ip = vm.ip + 1 })
unfolding read_u8 le_value
read_u8-Holds vm b h =
    let e : b + 256 * 0 ≡ b = omega arith in rw (read_bytes-Holds vm (b ∷ []) h, e)

op_codes-op_byte : (op : OpCode) → get_elem? op_codes (op_byte op) ≡ some op
op_codes-op_byte op_addw = refl
op_codes-op_byte _ = refl

dispatch_op :
    (order : EvalOrder) (op : OpCode) (byte : ℕ) (vm : MetagenVm)
    → op ≢ op_return
    → dispatch order (some op) byte vm ≡ (execute order op vm >>= λ next. ok (goes_on next))
unfolding dispatch
dispatch_op order op_return byte vm ne = absurd (ne refl)
dispatch_op order _ byte vm ne = refl

-- A round reads the opcode and runs its case.
pub round_op :
    (order : EvalOrder) (op : OpCode) (vm : MetagenVm)
    → op ≢ op_return
    → Holds vm.code vm.ip (op_byte op ∷ [])
    → round order vm
      ≡ (execute order op (record vm { ip = vm.ip + 1 }) >>= λ next. ok (goes_on next))
unfolding round
round_op order op vm ne h =
    rw (read_u8-Holds vm (op_byte op) h, op_codes-op_byte op) (dispatch_op order op _ _ ne)
