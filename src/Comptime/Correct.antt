-- ===== src/Comptime/Correct.antt =====
-- The code that compiler/comptime/bytecode.c writes for an expression, case by case, on the machine
-- of compiler/comptime/vm.c.
use metagen.Base.{
  ℕ, ◌+◌, ◌≤◌, ◌≡◌, ◌∙◌, inl, inr, refl, arith, true, List, [], ◌∷◌, ◌++◌, append_assoc, append-nil,
  length, length-append, Option, some, none, Outcome, ok, fault, undefined, >>=-eq-ok,
}
use metagen.Base.Int.{ℤ, pos}
use metagen.Lex.Token.{TokenKind}
use metagen.Types.{TypeInfo, Symbol}
use metagen.Ast.{
  lit_str, lit_ident, lit_num, lit_null, AstExpr, expr_null, expr_unary, expr_binary, expr_literal,
  expr_call,
}
use metagen.Str.{str_view_to_u32}
use metagen.Str.Decimal.{str_view_to_u32-lt}
use metagen.Comptime.Word.{in_range}
use metagen.Comptime.Code.{op_consw, op_loadl, op_byte, word_bytes, imm_bytes, Bytecode}
use metagen.HashMap.{StrMap}
use metagen.Comptime.Compile.{
  bcf_load_ident, write_op, assert_integer, find_ident_offset, ast_expr_to_bytecode,
}
use metagen.Comptime.Machine.{left_first, Output, update, stack_max}
use metagen.Comptime.Layout.{length-le_bytes, Holds, Holds-first, Holds-second}
use metagen.Comptime.Steps.{Steps, Steps-trans}
use metagen.Comptime.Instructions.{machine, step_consw, step_loadl}
use metagen.Comptime.Expressions.{need, Same, Outside, eval_expr, SlotsOutside, eval_expr-Same}
use metagen.Comptime.Operators.{
  write_op-code, writew-code, writei-code, update_self, update-Same, operator_code,
  binary_to_bytecode-code, operator_runs,
}

-- From `sp` to one more cell, which holds `v`; the cells outside of `sp` to `hi` are left alone.
abbrev pub Pushes : List ℕ → ℕ → List ℕ → (ℕ → ℤ) → ℕ → ℕ → List Output → ℤ → Type 0
Pushes code ip c stack sp hi out v =
    (t : ℕ → ℤ) × Steps left_first (machine code ip stack sp out)
      (machine code (ip + length c) t (sp + 1) out)
    × (t sp ≡ v)
    × Same sp hi stack t

-- The room for the temporaries: the cells from `sp` to `hi`.
pub record Room (sp lo hi n : ℕ) : Type 0 where
  pub above : lo ≤ sp
  pub below : sp + n ≤ hi
  pub limit : hi ≤ stack_max

-- One piece of code behind another.
pub append_twice : (a a' a'' x y : List ℕ) → a' ≡ a ++ x → a'' ≡ a' ++ y → a'' ≡ a ++ (x ++ y)
append_twice a a' a'' x y p q = rw (q, p) (append_assoc a x y)

pub append_none :
    (b b' : Bytecode) → ◌≡◌ {A = Outcome Bytecode} (ok b) (ok b') → b'.code ≡ b.code ++ []
append_none b b' e = let e' : b ≡ b' = cc in rw (← e', append-nil)

module _ (h : StrMap) where
  open h use {Map}

  -- The code `c` pushes the value of `e`.
  abbrev pub Computes : List Map → AstExpr → List ℕ → Type 0
  Computes locals e c =
      (code : List ℕ) (ip : ℕ) (stack : ℕ → ℤ) (sp lo hi : ℕ) (out : List Output) (v : ℤ)
      → Holds code ip c
      → Room sp lo hi (need e)
      → SlotsOutside h locals lo hi e
      → eval_expr h locals stack e ≡ ok v
      → Pushes code ip c stack sp hi out v

  num_Computes :
      (locals : List Map) (type : Option TypeInfo) (sym : Option Symbol) (text : List ℕ)
      → Computes locals
          (expr_literal type sym lit_num text)
          (op_byte op_consw ∷ word_bytes (pos (str_view_to_u32 text).0))
  unfolding eval_expr need
  num_Computes locals type sym text code ip stack sp lo hi out v holds room slots e =
      let z = pos (str_view_to_u32 text).0 in
      let small : in_range z ≡ true = ground (arith, str_view_to_u32-lt text) in
      let v_is : z ≡ v = cc in
      (
        update stack sp z,
        rw (length-le_bytes 8 (str_view_to_u32 text).0) (
            step_consw left_first code ip stack out sp z holds small
              (omega (arith, room.below, room.limit))),
        update_self stack sp z ∙ v_is,
        update-Same stack sp hi sp z (omega arith) (omega (arith, room.below)),
      )

  ident_Computes :
      (locals : List Map) (type : Option TypeInfo) (sym : Symbol) (text : List ℕ) (slot : ℕ)
      → find_ident_offset h locals sym.name ≡ ok slot
      → Computes locals
          (expr_literal type (some sym) lit_ident text)
          (op_byte op_loadl ∷ imm_bytes slot)
  unfolding eval_expr need
  ident_Computes locals type sym text slot found code ip stack sp lo hi out v holds room slots e =
      let outside : Outside lo hi slot = rw found at slots in
      let load : stack slot ≡ v = (let e' = rw found at e in cc) in
      (
        update stack sp (stack slot),
        rw (length-le_bytes 2 slot) (
            step_loadl left_first code ip stack out sp slot holds outside.0
              (omega (arith, room.below, room.limit))),
        update_self stack sp (stack slot) ∙ load,
        update-Same stack sp hi sp (stack slot) (omega arith) (omega (arith, room.below)),
      )

  binary_Computes :
      (locals : List Map) (type : Option TypeInfo) (l r : AstExpr) (op : TokenKind) (cl cr : List ℕ)
      → Computes locals l cl
      → Computes locals r cr
      → Computes locals (expr_binary type l op r) (cr ++ (cl ++ operator_code op))
  unfolding eval_expr need
  binary_Computes locals type l r op cl cr hl hr code ip stack sp lo hi out v holds room slots e =
      let (a, ea, e') = >>=-eq-ok (eval_expr h locals stack l) _ e in
      let (b, eb, ev) = >>=-eq-ok (eval_expr h locals stack r) _ e' in
      let holds' = Holds-second code ip cr (cl ++ operator_code op) holds in
      let (t, run, top, same) =
        hr code ip stack sp lo hi out b (Holds-first code ip cr (cl ++ operator_code op) holds)
          (record { above = room.above; below = omega (arith, room.below); limit = room.limit })
          slots.1 eb in
      let (t', run', top', same') =
        hl code (ip + length cr) t (sp + 1) lo hi out a
          (Holds-first code (ip + length cr) cl (operator_code op) holds')
          (record {
            above = omega (arith, room.above);
            below = omega (arith, room.below);
            limit = room.limit;
          })
          slots.0
          (eval_expr-Same h locals lo hi stack t l slots.0
              (λ j o. same j (elim o [ inl x ↦ inl (omega (arith, room.above)) | inr y ↦ inr y ]))
            ∙ ea) in
      let second : t' sp ≡ b = same' sp (inl (omega arith)) ∙ top in
      let (u, run'', top'', same'') =
        operator_runs op code (ip + length cr + length cl) t' sp out v
          (Holds-second code (ip + length cr) cl (operator_code op) holds')
          (omega (arith, room.below, room.limit)) (rw (top', second) ev) in
      let there : ip + length cr + length cl + length (operator_code op)
          ≡ ip + length (cr ++ (cl ++ operator_code op)) =
        omega
          (arith, length-append cr (cl ++ operator_code op), length-append cl (operator_code op)) in
      (
        u,
        Steps-trans run (Steps-trans run' (rw there at run'')),
        top'',
        λ j o.
            same'' j (elim o [ inl x ↦ inl x | inr y ↦ inr (omega (arith, room.below)) ])
            ∙ same' j (elim o [ inl x ↦ inl (omega arith) | inr y ↦ inr y ])
            ∙ same j o,
      )

  no_value :
      (locals : List Map) (e : AstExpr)
      → ((store : ℕ → ℤ) → eval_expr h locals store e ≡ fault undefined)
      → Computes locals e []
  no_value locals e f code ip stack sp lo hi out v holds room slots k =
      let none_here = f stack in absurd (cc)

  -- What the compiler appends for an expression computes it.
  pub compile_Computes :
      (e : AstExpr) (locals : List Map) (b b' : Bytecode)
      → ast_expr_to_bytecode h locals bcf_load_ident e b ≡ ok b'
      → (c : List ℕ) × (b'.code ≡ b.code ++ c) × Computes locals e c
  unfolding ast_expr_to_bytecode eval_expr
  compile_Computes (expr_binary type l op r) locals b b' k =
      let (_, k₀, k') = >>=-eq-ok (assert_integer type) _ k in
      let (b₁, k₁, k'') = >>=-eq-ok (ast_expr_to_bytecode h locals bcf_load_ident r b) _ k' in
      let (b₂, k₂, k₃) = >>=-eq-ok (ast_expr_to_bytecode h locals bcf_load_ident l b₁) _ k'' in
      let (cr, er, hr) = compile_Computes r locals b b₁ k₁ in
      let (cl, el, hl) = compile_Computes l locals b₁ b₂ k₂ in
      (
        cr ++ (cl ++ operator_code op),
        append_twice (b.code) (b₁.code) (b'.code) cr (cl ++ operator_code op) er (
            append_twice (b₁.code) (b₂.code) (b'.code) cl (operator_code op) el
              (binary_to_bytecode-code op b₂ b' k₃)),
        binary_Computes locals type l r op cl cr hl hr,
      )
  compile_Computes (expr_literal type sym lit_num text) locals b b' k =
      let (b₁, k₁, k₂) = >>=-eq-ok (write_op b op_consw) _ k in
      (
        op_byte op_consw ∷ word_bytes (pos (str_view_to_u32 text).0),
        append_twice (b.code) (b₁.code) (b'.code) (op_byte op_consw ∷ []) _
            (write_op-code b b₁ op_consw k₁) (writew-code b₁ b' _ k₂),
        num_Computes locals type sym text,
      )
  compile_Computes (expr_literal type none lit_ident text) locals b b' k = cc
  compile_Computes (expr_literal type (some sym) lit_ident text) locals b b' k =
      let (b₁, k₁, k') = >>=-eq-ok (write_op b op_loadl) _ k in
      let (slot, k₂, k₃) = >>=-eq-ok (find_ident_offset h locals sym.name) _ k' in
      (
        op_byte op_loadl ∷ imm_bytes slot,
        append_twice (b.code) (b₁.code) (b'.code) (op_byte op_loadl ∷ []) _
            (write_op-code b b₁ op_loadl k₁) (writei-code b₁ b' slot k₃),
        ident_Computes locals type sym text slot k₂,
      )
  compile_Computes (expr_literal type sym lit_str text) locals b b' k =
      ([], append_none b b' k, no_value locals _ (λ store. refl))
  compile_Computes (expr_literal type sym lit_null text) locals b b' k =
      ([], append_none b b' k, no_value locals _ (λ store. refl))
  compile_Computes (expr_unary type op e) locals b b' k =
      ([], append_none b b' k, no_value locals _ (λ store. refl))
  compile_Computes (expr_call type c n a) locals b b' k =
      ([], append_none b b' k, no_value locals _ (λ store. refl))
  compile_Computes expr_null locals b b' k = cc
