-- ===== src/Comptime/Operators.antt =====
-- The code of an operator takes the two operands from the stack and leaves the result.
use metagen.Base.{
  ℕ, ◌+◌, ◌%◌, ◌≤◌, ◌<◌, ◌≡◌, ◌≢◌, ◌∙◌, inl, inr, refl, arith, false, List, [], ◌∷◌, ◌++◌,
  append_assoc, append-nil, length, ==_iff, ◌==◌, Outcome, ok, >>=-eq-ok,
}
use native.Mathlib.Nat.{add_assoc}
use metagen.Base.Int.{ℤ}
use metagen.Lex.Token.{
  TokenKind, token_plus, token_minus, token_eq, token_neq, token_greater, token_less,
}
use metagen.Comptime.Word.{not_word, add_words, sub_words, greater_words, less_words}
use metagen.Comptime.Code.{
  OpCode, op_addw, op_subw, op_ge, op_le, op_not, op_return, op_byte, word_bytes, imm_bytes,
  Bytecode, writeu8, writew, writei,
}
use metagen.Comptime.Compile.{write_op, binary_to_bytecode}
use metagen.Comptime.Machine.{left_first, MetagenVm, Output, update, stack_max, binary_op, execute}
use metagen.Comptime.Layout.{Holds, Holds-first, Holds-second, append_code_lem}
use metagen.Comptime.Steps.{Steps, Steps-trans}
use metagen.Comptime.Instructions.{machine, step_not, step_binary}
use metagen.Comptime.Expressions.{apply_op, Same}

op_byte-fits : (op : OpCode) → op_byte op % 256 ≡ op_byte op
op_byte-fits op_addw = refl
op_byte-fits _ = refl

pub write_op-code :
    (b b' : Bytecode) (op : OpCode) → write_op b op ≡ ok b' → b'.code ≡ b.code ++ op_byte op ∷ []
unfolding writeu8
write_op-code b b' op h = rw (op_byte-fits op) at (append_code_lem b b' (op_byte op % 256 ∷ []) h)

pub writew-code : (b b' : Bytecode) (z : ℤ) → writew b z ≡ ok b' → b'.code ≡ b.code ++ word_bytes z
unfolding writew
writew-code b b' z h = append_code_lem b b' (word_bytes z) h

pub writei-code : (b b' : Bytecode) (n : ℕ) → writei b n ≡ ok b' → b'.code ≡ b.code ++ imm_bytes n
unfolding writei
writei-code b b' n h = append_code_lem b b' (imm_bytes n) h

pub update_self : (stack : ℕ → ℤ) (sp : ℕ) (v : ℤ) → update stack sp v sp ≡ v
update_self stack sp v = rw ((==_iff sp sp).1 refl)

pub update-Same :
    (stack : ℕ → ℤ) (lo hi sp : ℕ) (v : ℤ)
    → lo ≤ sp
    → sp < hi
    → Same lo hi stack (update stack sp v)
update-Same stack lo hi sp v l m j out =
    let ne : (sp == j) ≡ false = elim out [ inl b ↦ ground arith | inr a ↦ ground arith ] in rw ne

pub Same-trans :
    (lo lo' hi hi' : ℕ) (s t u : ℕ → ℤ)
    → lo ≤ lo'
    → hi' ≤ hi
    → Same lo hi s t
    → Same lo' hi' t u
    → Same lo hi s u
Same-trans lo lo' hi hi' s t u a b m n j out =
    n j (elim out [ inl x ↦ inl (omega arith) | inr y ↦ inr (omega arith) ]) ∙ m j out

-- From the operands at `sp + 1`, the left one, and `sp` to the result at `sp`.
abbrev pub Operates : List ℕ → ℕ → List ℕ → (ℕ → ℤ) → ℕ → List Output → ℤ → Type 0
Operates code ip c stack sp out v =
    (t : ℕ → ℤ) × Steps left_first (machine code ip stack (sp + 1 + 1) out)
      (machine code (ip + length c) t (sp + 1) out)
    × (t sp ≡ v)
    × Same sp (sp + 1) stack t

one_Operates :
    (code : List ℕ) (ip : ℕ) (stack : ℕ → ℤ) (sp : ℕ) (out : List Output) (v : ℤ) (op : OpCode)
    (f : ℤ → ℤ → Outcome ℤ)
    → op ≢ op_return
    → ((vm : MetagenVm) → execute left_first op vm ≡ binary_op left_first f vm)
    → Holds code ip (op_byte op ∷ [])
    → sp < stack_max
    → f (stack (sp + 1)) (stack sp) ≡ ok v
    → Operates code ip (op_byte op ∷ []) stack sp out v
one_Operates code ip stack sp out v op f ne d h s e = (
  update stack sp v,
  step_binary stack out code ip op f sp v ne d h s e,
  update_self stack sp v,
  update-Same stack sp (sp + 1) sp v (omega arith) (omega arith),
)

-- The code that `binary_to_bytecode` writes for an operator that has a value.
pub operator_code : TokenKind → List ℕ
operator_code token_plus = op_byte op_addw ∷ []
operator_code token_minus = op_byte op_subw ∷ []
operator_code token_eq = op_byte op_subw ∷ op_byte op_not ∷ []
operator_code token_neq = op_byte op_subw ∷ []
operator_code token_greater = op_byte op_ge ∷ []
operator_code token_less = op_byte op_le ∷ []
operator_code _ = []

pub binary_to_bytecode-code :
    (op : TokenKind) (b b' : Bytecode)
    → binary_to_bytecode op b ≡ ok b'
    → b'.code ≡ b.code ++ operator_code op
unfolding binary_to_bytecode operator_code
binary_to_bytecode-code token_plus b b' h = write_op-code b b' op_addw h
binary_to_bytecode-code token_minus b b' h = write_op-code b b' op_subw h
binary_to_bytecode-code token_eq b b' h =
    let (b₁, h₁, h₂) = >>=-eq-ok (write_op b op_subw) (λ b₁. write_op b₁ op_not) h in
    rw (write_op-code b₁ b' op_not h₂, write_op-code b b₁ op_subw h₁, append_assoc)
binary_to_bytecode-code token_neq b b' h = write_op-code b b' op_subw h
binary_to_bytecode-code token_greater b b' h = write_op-code b b' op_ge h
binary_to_bytecode-code token_less b b' h = write_op-code b b' op_le h
binary_to_bytecode-code _ b b' h = let e : b ≡ b' = cc in rw (← e, append-nil)

pub operator_runs :
    (op : TokenKind) (code : List ℕ) (ip : ℕ) (stack : ℕ → ℤ) (sp : ℕ) (out : List Output) (v : ℤ)
    → Holds code ip (operator_code op)
    → sp < stack_max
    → apply_op op (stack (sp + 1)) (stack sp) ≡ ok v
    → Operates code ip (operator_code op) stack sp out v
unfolding apply_op operator_code execute
operator_runs token_plus code ip stack sp out v h s e =
    one_Operates code ip stack sp out v op_addw add_words (λ q. cc) (λ vm. refl) h s e
operator_runs token_minus code ip stack sp out v h s e =
    one_Operates code ip stack sp out v op_subw sub_words (λ q. cc) (λ vm. refl) h s e
operator_runs token_eq code ip stack sp out v h s e =
    let (d, h₁, h₂) = >>=-eq-ok (sub_words (stack (sp + 1)) (stack sp)) (λ d. ok (not_word d)) e in
    let (t, run, top, same) =
      one_Operates code ip stack sp out d op_subw sub_words (λ q. cc) (λ vm. refl)
        (Holds-first code ip (op_byte op_subw ∷ []) (op_byte op_not ∷ []) h) s h₁ in
    let negate =
      step_not left_first code (ip + 1) t out sp
        (Holds-second code ip (op_byte op_subw ∷ []) (op_byte op_not ∷ []) h) s in
    let value : not_word d ≡ v = cc in
    (
      update t sp (not_word (t sp)),
      Steps-trans run (rw (add_assoc ip 1 1) at negate),
      update_self t sp (not_word (t sp)) ∙ rw top value,
      Same-trans sp sp (sp + 1) (sp + 1) stack t (update t sp (not_word (t sp))) (omega arith)
          (omega arith) same
          (update-Same t sp (sp + 1) sp (not_word (t sp)) (omega arith) (omega arith)),
    )
operator_runs token_neq code ip stack sp out v h s e =
    one_Operates code ip stack sp out v op_subw sub_words (λ q. cc) (λ vm. refl) h s e
operator_runs token_greater code ip stack sp out v h s e =
    one_Operates code ip stack sp out v op_ge greater_words (λ q. cc) (λ vm. refl) h s e
operator_runs token_less code ip stack sp out v h s e =
    one_Operates code ip stack sp out v op_le less_words (λ q. cc) (λ vm. refl) h s e
operator_runs _ code ip stack sp out v h s e = cc
