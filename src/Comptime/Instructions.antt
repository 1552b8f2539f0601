-- ===== src/Comptime/Instructions.antt =====
-- The effect of each instruction on the machine's stack and instruction pointer.
use metagen.Base.{
  ℕ, ◌+◌, ◌-◌, ◌^◌, ◌<◌, ◌≡◌, ◌≢◌, ◌∙◌, arith, true, false, List, [], ◌∷◌, ltb, ◌==◌, Outcome, ok,
}
use native.Mathlib.Nat.{add_assoc}
use metagen.Base.Int.{ℤ}
use metagen.Comptime.Word.{in_range, not_word}
use metagen.Comptime.Code.{
  OpCode, op_not, op_consw, op_loadl, op_storel, op_return, op_byte, word_bytes, imm_bytes,
}
use metagen.Comptime.Machine.{
  EvalOrder, left_first, operands, MetagenVm, Output, update, stack_max, pushw, popw, loadw, storew,
  binary_op, readi, execute,
}
use metagen.Comptime.Layout.{Holds, Holds-first, Holds-second}
use metagen.Comptime.Steps.{Steps, stay, more, round_op, readi-Holds, readw-Holds}

abbrev pub machine : List ℕ → ℕ → (ℕ → ℤ) → ℕ → List Output → MetagenVm
machine code ip stack sp out = record { code = code; ip = ip; stack = stack; sp = sp; out = out }

module _ (code : List ℕ) (ip : ℕ) (stack : ℕ → ℤ) (out : List Output) where
  popw_lem :
      (n : ℕ) → popw (machine code ip stack (n + 1) out) ≡ ok (stack n, machine code ip stack n out)
  unfolding popw
  popw_lem n =
      let nonzero : (n + 1 == 0) ≡ false = ground arith in
      let back : n + 1 - 1 ≡ n = omega arith in rw (nonzero, back)

  pushw_lem :
      (sp : ℕ) (v : ℤ)
      → sp < stack_max
      → pushw (machine code ip stack sp out) v
        ≡ ok (machine code ip (update stack sp v) (sp + 1) out)
  unfolding pushw
  pushw_lem sp v h = let room : ltb sp stack_max ≡ true = ground arith in rw room

  loadw_lem : (sp n : ℕ) → n < stack_max → loadw (machine code ip stack sp out) n ≡ ok (stack n)
  unfolding loadw
  loadw_lem sp n h = let inside : ltb n stack_max ≡ true = ground arith in rw inside

  storew_lem :
      (sp n : ℕ) (v : ℤ)
      → n < stack_max
      → storew (machine code ip stack sp out) n v ≡ ok (machine code ip (update stack n v) sp out)
  unfolding storew
  storew_lem sp n v h = let inside : ltb n stack_max ≡ true = ground arith in rw inside

-- One round that runs an instruction.
step_by :
    (order : EvalOrder) (op : OpCode) (vm next : MetagenVm)
    → op ≢ op_return
    → Holds vm.code vm.ip (op_byte op ∷ [])
    → execute order op (record vm { ip = vm.ip + 1 }) ≡ ok next
    → Steps order vm next
step_by order op vm next ne h e = more (round_op order op vm ne h ∙ rw e) stay

module _ (order : EvalOrder) (code : List ℕ) (ip : ℕ) (stack : ℕ → ℤ) (out : List Output) where
  read_imm :
      (sp : ℕ) (op : OpCode) (n : ℕ)
      → Holds code ip (op_byte op ∷ imm_bytes n)
      → n < 2 ^ 16
      → readi (machine code (ip + 1) stack sp out) ≡ ok (n, machine code (ip + 1 + 2) stack sp out)
  read_imm sp op n h l =
      readi-Holds (machine code (ip + 1) stack sp out) n l
        (Holds-second code ip (op_byte op ∷ []) (imm_bytes n) h)

  pub step_consw :
      (sp : ℕ) (z : ℤ)
      → Holds code ip (op_byte op_consw ∷ word_bytes z)
      → in_range z ≡ true
      → sp < stack_max
      → Steps order
          (machine code ip stack sp out)
          (machine code (ip + 9) (update stack sp z) (sp + 1) out)
  unfolding execute
  step_consw sp z h r s =
      let read =
        readw-Holds (machine code (ip + 1) stack sp out) z r
          (Holds-second code ip (op_byte op_consw ∷ []) (word_bytes z) h) in
      step_by order op_consw _ _ (λ e. cc)
        (Holds-first code ip (op_byte op_consw ∷ []) (word_bytes z) h)
        (rw (read, pushw_lem code (ip + 1 + 8) stack out sp z s, add_assoc ip 1 8))

  pub step_loadl :
      (sp n : ℕ)
      → Holds code ip (op_byte op_loadl ∷ imm_bytes n)
      → n < stack_max
      → sp < stack_max
      → Steps order
          (machine code ip stack sp out)
          (machine code (ip + 3) (update stack sp (stack n)) (sp + 1) out)
  unfolding execute
  step_loadl sp n h l s =
      step_by order op_loadl _ _ (λ e. cc)
        (Holds-first code ip (op_byte op_loadl ∷ []) (imm_bytes n) h)
        (rw (
          read_imm sp op_loadl n h (omega arith),
          loadw_lem code (ip + 1 + 2) stack out sp n l,
          pushw_lem code (ip + 1 + 2) stack out sp (stack n) s,
          add_assoc ip 1 2,
        ))

  pub step_storel :
      (sp n : ℕ)
      → Holds code ip (op_byte op_storel ∷ imm_bytes n)
      → n < stack_max
      → Steps order
          (machine code ip stack (sp + 1) out)
          (machine code (ip + 3) (update stack n (stack sp)) sp out)
  unfolding execute
  step_storel sp n h l =
      step_by order op_storel _ _ (λ e. cc)
        (Holds-first code ip (op_byte op_storel ∷ []) (imm_bytes n) h)
        (rw (
          read_imm (sp + 1) op_storel n h (omega arith),
          popw_lem code (ip + 1 + 2) stack out sp,
          storew_lem code (ip + 1 + 2) stack out sp n (stack sp) l,
          add_assoc ip 1 2,
        ))

  pub step_not :
      (sp : ℕ)
      → Holds code ip (op_byte op_not ∷ [])
      → sp < stack_max
      → Steps order
          (machine code ip stack (sp + 1) out)
          (machine code (ip + 1) (update stack sp (not_word (stack sp))) (sp + 1) out)
  unfolding execute
  step_not sp h s =
      step_by order op_not _ _ (λ e. cc) h
        (rw (popw_lem code (ip + 1) stack out sp, pushw_lem code (ip + 1) stack out sp _ s))

module _ (stack : ℕ → ℤ) (out : List Output) where
  binary_op_lem :
      (code : List ℕ) (ip : ℕ) (order : EvalOrder) (sp : ℕ) (f : ℤ → ℤ → Outcome ℤ) (v : ℤ)
      → sp < stack_max
      → operands order f (stack (sp + 1)) (stack sp) ≡ ok v
      → binary_op order f (machine code ip stack (sp + 1 + 1) out)
        ≡ ok (machine code ip (update stack sp v) (sp + 1) out)
  unfolding binary_op
  binary_op_lem code ip order sp f v s e = rw (
    popw_lem code ip stack out (sp + 1),
    popw_lem code ip stack out sp,
    e,
    pushw_lem code ip stack out sp v s,
  )

  -- An instruction with two operands: the left one was pushed last.
  pub step_binary :
      (code : List ℕ) (ip : ℕ) (op : OpCode) (f : ℤ → ℤ → Outcome ℤ) (sp : ℕ) (v : ℤ)
      → op ≢ op_return
      → ((vm : MetagenVm) → execute left_first op vm ≡ binary_op left_first f vm)
      → Holds code ip (op_byte op ∷ [])
      → sp < stack_max
      → f (stack (sp + 1)) (stack sp) ≡ ok v
      → Steps left_first
          (machine code ip stack (sp + 1 + 1) out)
          (machine code (ip + 1) (update stack sp v) (sp + 1) out)
  step_binary code ip op f sp v ne d h s e =
      step_by left_first op _ _ ne h (d _ ∙ binary_op_lem code (ip + 1) left_first sp f v s e)
