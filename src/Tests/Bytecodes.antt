-- ===== src/Tests/Bytecodes.antt =====
-- Runs of the bytecode writer of src/translator/translator.c and of the reader of
-- src/runtime/runtime.c.
use chloride.Base.{ℕ, none, some, ◌++◌, ◌≡◌, refl, arith, true, replicate}
use chloride.Base.Run.{ok, fault, ◌>>=◌, Returns}
use chloride.Bytecode.{
  bytes_from, uint64_to_bytes, of_bytes, push_instruction_byte, push_bytes, push_instruction_code,
  store_bytes, set_instruction_byte, set_instruction_code, set_registers, pop_byte, pop_bytes,
  pop_u64,
}
use chloride.Bytecode.Written.{
  Coded, push_instruction_code-Coded, Patched, set_instruction_code-Patched,
}
use chloride.DynArray.{DArray, resize, write_slot, push, contents}
use chloride.DynArray.Grow.{IsValid}

program : Unit {0}
unfolding bytes_from uint64_to_bytes of_bytes push_instruction_byte push_bytes push_instruction_code
    store_bytes set_instruction_byte set_instruction_code set_registers pop_byte pop_bytes pop_u64
    resize write_slot push
program = tt

-- sixteen slots, ten of them in use
abbrev code : DArray ℕ
code = record {
  slots = replicate 10 (some 7) ++ replicate 6 none;
  element_size = 1;
  size = 10;
  capacity = 16;
  resizable = true;
}

code-IsValid : IsValid code
code-IsValid = record { owned = refl; sized = omega arith; fits = omega arith; block = refl }

-- a jump whose target is set once it is known, as the translator does
jump_target :
    (push_instruction_byte code 3 >>= λ j. push_instruction_code j.1 0 >>= λ k.
    set_instruction_code k.1 k.0 19 >>= λ r. pop_u64 (contents r) 11)
    ≡ ok (19, 19)
unfolding program
jump_target = refl

read_past_the_end : pop_u64 (contents code) 3 ≡ fault
unfolding program
read_past_the_end = refl

two_registers : (set_registers 1 2 ≡ 2) × (set_registers 2 1 ≡ 2)
unfolding program
two_registers = (refl, refl)

set_byte : (set_instruction_byte code 0 9 >>= λ r. pop_byte (contents r) 0) ≡ ok (9, 1)
unfolding program
set_byte = refl

push_instruction_code-Coded_example : Returns (push_instruction_code code 258) (Coded code 258)
push_instruction_code-Coded_example =
    push_instruction_code-Coded code 258 code-IsValid (omega arith) (omega arith)

set_instruction_code-Patched_example :
    Returns (set_instruction_code code 2 300) (Patched code 2 300)
set_instruction_code-Patched_example =
    set_instruction_code-Patched code 2 300 code-IsValid (omega arith) (omega arith)
