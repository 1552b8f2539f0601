-- ===== src/Comptime/Code.antt =====
-- Opcodes and the writers of bytecode (compiler/comptime/bytecode.h, bytecode.c). `code` is what has
-- been written of the array of 4096 bytes, so `code_offset` is its length; a write behind the array
-- is a fault. Words and immediates are stored with their lowest byte first.
use metagen.Base.{
  ℕ, zero, suc, ◌+◌, ◌*◌, ◌/◌, ◌%◌, List, [], ◌∷◌, ◌++◌, leb, if◌then◌else◌, length, take, drop,
  Outcome, ok, fault, bad_access,
}
use metagen.Base.Int.{ℤ}
use metagen.Comptime.Word.{to_bits}

pub data OpCode : Type 0 where
  op_addw op_subw op_mulw op_divw op_lshift op_rshift op_ge op_le op_not : OpCode
  op_jmp op_biz op_bnz : OpCode
  op_consw op_pushn op_popn op_loadl op_storel : OpCode
  op_print op_return : OpCode

abbrev pub op_codes : List OpCode
op_codes =
    op_addw ∷ op_subw ∷ op_mulw ∷ op_divw ∷ op_lshift ∷ op_rshift ∷ op_ge ∷ op_le ∷ op_not ∷ op_jmp
    ∷ op_biz ∷ op_bnz ∷ op_consw ∷ op_pushn ∷ op_popn ∷ op_loadl ∷ op_storel ∷ op_print ∷ op_return
    ∷ []

-- The enumerator's number.
abbrev pub op_byte : OpCode → ℕ
op_byte op_addw = 0
op_byte op_subw = 1
op_byte op_mulw = 2
op_byte op_divw = 3
op_byte op_lshift = 4
op_byte op_rshift = 5
op_byte op_ge = 6
op_byte op_le = 7
op_byte op_not = 8
op_byte op_jmp = 9
op_byte op_biz = 10
op_byte op_bnz = 11
op_byte op_consw = 12
op_byte op_pushn = 13
op_byte op_popn = 14
op_byte op_loadl = 15
op_byte op_storel = 16
op_byte op_print = 17
op_byte op_return = 18

abbrev pub code_size : ℕ
code_size = 4096

-- The `k` lowest bytes of `v`, lowest first.
unfoldable pub le_bytes : ℕ → ℕ → List ℕ
le_bytes zero v = []
le_bytes (suc k) v = v % 256 ∷ le_bytes k (v / 256)

unfoldable pub le_value : List ℕ → ℕ
le_value [] = 0
le_value (b ∷ bs) = b + 256 * le_value bs

abbrev pub imm_bytes : ℕ → List ℕ
imm_bytes v = le_bytes 2 v

abbrev pub word_bytes : ℤ → List ℕ
word_bytes v = le_bytes 8 (to_bits v)

pub record Bytecode : Type 0 where
  pub code : List ℕ

abbrev pub code_offset : Bytecode → ℕ
code_offset b = length b.code

unfoldable pub append_code : Bytecode → List ℕ → Outcome Bytecode
append_code b bytes =
    if leb (code_offset b + length bytes) code_size
    then ok (record b { code = b.code ++ bytes })
    else fault bad_access

-- `writeu8` and `writew` also return the new offset, which is `code_offset` of the result.
unfoldable pub writeu8 : Bytecode → ℕ → Outcome Bytecode
writeu8 b byte = append_code b (byte % 256 ∷ [])

unfoldable pub writew : Bytecode → ℤ → Outcome Bytecode
writew b v = append_code b (word_bytes v)

unfoldable pub writei : Bytecode → ℕ → Outcome Bytecode
writei b v = append_code b (imm_bytes v)

-- The bytes of `new` in place of those from `offset` on.
unfoldable pub overwrite : List ℕ → ℕ → List ℕ → List ℕ
overwrite code offset new = take offset code ++ (new ++ drop (offset + length new) code)

unfoldable pub patchw : Bytecode → ℕ → ℤ → Bytecode
patchw b offset value = record b { code = overwrite b.code offset (word_bytes value) }

unfoldable pub patchi : Bytecode → ℕ → ℕ → Bytecode
patchi b offset value = record b { code = overwrite b.code offset (imm_bytes value) }
