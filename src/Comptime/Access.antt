-- ===== src/Comptime/Access.antt =====
-- What the compiler writes and what the machine reads: words, immediates and patched jumps.
use metagen.Base.{
  ℕ, ◌+◌, ◌^◌, ◌<◌, ◌≡◌, ◌∙◌, sym, ap, true, List, ◌++◌, append_assoc, length, length-append, ok,
  arith,
}
use metagen.Base.Int.{ℤ}
use metagen.Comptime.Word.{in_range}
use metagen.Comptime.Code.{
  Bytecode, code_offset, imm_bytes, word_bytes, writew, writei, overwrite, patchi,
}
use metagen.Comptime.Machine.{Output, readw, readi}
use metagen.Comptime.Layout.{length-le_bytes, Holds, Holds-in, overwrite-append}
use metagen.Comptime.Steps.{readi-Holds, readw-Holds}
use metagen.Comptime.Instructions.{machine}
use metagen.Comptime.Operators.{writew-code, writei-code}

-- A machine with any stack and output.
module _ (stack : ℕ → ℤ) (sp : ℕ) (out : List Output) where
  -- A word that `writew` appended is read back by `readw` at its offset, whatever is written behind
  -- it, and leaves the instruction pointer behind the word. It must be a 64-bit number.
  pub readw-writew :
      (b b' : Bytecode) (z : ℤ) (rest : List ℕ)
      → in_range z ≡ true
      → writew b z ≡ ok b'
      → readw (machine (b'.code ++ rest) (code_offset b) stack sp out)
        ≡ ok (z, machine (b'.code ++ rest) (code_offset b') stack sp out)
  readw-writew b b' z rest h e =
      let text = writew-code b b' z e in
      let holds : Holds (b'.code ++ rest) (code_offset b) (word_bytes z) =
        rw (text, append_assoc) (Holds-in b.code (word_bytes z) rest) in
      let there : code_offset b' ≡ code_offset b + 8 =
        ap length text
        ∙ length-append b.code (word_bytes z)
        ∙ ap (λ n. code_offset b + n) (length-le_bytes 8 _) in
      rw there (readw-Holds (machine (b'.code ++ rest) (code_offset b) stack sp out) z h holds)

  -- When `patchi` overwrites an immediate that `writei` appended, code may have been appended since:
  -- `readi` at its offset gives the new immediate, the code is as long as it was, and
  -- neither the bytes in front of the immediate nor those behind it have changed.
  pub readi-patchi :
      (b b' b'' : Bytecode) (old new : ℕ) (since : List ℕ)
      → new < 2 ^ 16
      → writei b old ≡ ok b'
      → b''.code ≡ b'.code ++ since
      → (readi (machine (patchi b'' (code_offset b) new).code (code_offset b) stack sp out)
          ≡ ok (new, machine (patchi b'' (code_offset b) new).code (code_offset b') stack sp out))
        × ((patchi b'' (code_offset b) new).code ≡ b.code ++ (imm_bytes new ++ since))
        × (code_offset (patchi b'' (code_offset b) new) ≡ code_offset b'')
  unfolding patchi
  readi-patchi b b' b'' old new since h e more =
      let text = writei-code b b' old e in
      let whole : b''.code ≡ b.code ++ (imm_bytes old ++ since) =
        more ∙ rw text (append_assoc b.code (imm_bytes old) since) in
      let new_code : overwrite b''.code (code_offset b) (imm_bytes new)
          ≡ b.code ++ (imm_bytes new ++ since) =
        rw whole (
          overwrite-append b.code (imm_bytes old) since (imm_bytes new)
            (length-le_bytes 2 old ∙ sym (length-le_bytes 2 new))) in
      let holds = Holds-in b.code (imm_bytes new) since in
      let there : code_offset b' ≡ code_offset b + 2 =
        ap length text
        ∙ length-append b.code (imm_bytes old)
        ∙ ap (λ n. code_offset b + n) (length-le_bytes 2 _) in
      let long : length (b.code ++ (imm_bytes new ++ since)) ≡ code_offset b'' = omega (
        arith,
        ap length whole,
        length-append b.code (imm_bytes new ++ since),
        length-append b.code (imm_bytes old ++ since),
        length-append (imm_bytes new) since,
        length-append (imm_bytes old) since,
        length-le_bytes 2 new,
        length-le_bytes 2 old,
      ) in
      (
        rw (new_code, there)
            (readi-Holds (machine (b.code ++ (imm_bytes new ++ since)) (code_offset b) stack sp out)
              new h holds),
        new_code,
        rw new_code long,
      )
