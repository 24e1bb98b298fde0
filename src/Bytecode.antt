-- ===== src/Bytecode.antt =====
-- How the translator writes bytecode, src/translator/translator.c, and how the virtual machine reads
-- it: POP_BYTE and POP_U64 of src/runtime/runtime.c. `translated->bytecode` is a DArray of bytes.
-- set_instruction_code and POP_U64 copy the eight bytes of a uint64_t as they lie in memory, here from
-- the lowest on, the order that uint64_to_bytes writes out by hand.
pub mod Words
pub mod Written
use chloride.Base.{
  ℕ, zero, suc, ◌+◌, ◌*◌, ◌/◌, ◌%◌, ◌^◌, bit_and, Option, none, some, List, [], ◌∷◌, ltb,
  if◌then◌else◌, get_or, drop,
}
use chloride.Base.Run.{Run, ok, fault, ◌>>=◌}
use chloride.DynArray
use chloride.DynArray.{DArray}

-- the loop of uint64_to_bytes: `rounds` bytes from the one at `i * 8` on
unfoldable pub bytes_from : ℕ → ℕ → ℕ → List ℕ
bytes_from zero i value = []
bytes_from (suc rounds) i value =
    bit_and (value / 2 ^ (i * 8)) 0xFF ∷ bytes_from rounds (suc i) value

unfoldable pub uint64_to_bytes : ℕ → List ℕ
uint64_to_bytes value = bytes_from 8 0 value

-- the uint64_t whose bytes lie in memory in this order
unfoldable pub of_bytes : List ℕ → ℕ
of_bytes [] = 0
of_bytes (b ∷ bs) = b + 256 * of_bytes bs

-- the offset of the byte comes back first
unfoldable pub push_instruction_byte : DArray ℕ → ℕ → Run (ℕ × DArray ℕ)
push_instruction_byte bytecode byte = DynArray.push bytecode byte >>= λ r. ok (bytecode.size, r)

-- a loop of darray_push
unfoldable pub push_bytes : DArray ℕ → List ℕ → Run (DArray ℕ)
push_bytes bytecode [] = ok bytecode
push_bytes bytecode (b ∷ bs) = DynArray.push bytecode b >>= λ r. push_bytes r bs

unfoldable pub push_instruction_code : DArray ℕ → ℕ → Run (ℕ × DArray ℕ)
push_instruction_code bytecode code =
    push_bytes bytecode (uint64_to_bytes code) >>= λ r. ok (bytecode.size, r)

-- `memcpy(bytecode.data + index, …)` of some bytes
unfoldable pub store_bytes : DArray ℕ → ℕ → List ℕ → Run (DArray ℕ)
store_bytes bytecode index [] = ok bytecode
store_bytes bytecode index (b ∷ bs) =
    DynArray.write_slot bytecode index b >>= λ r. store_bytes r (suc index) bs

unfoldable pub set_instruction_byte : DArray ℕ → ℕ → ℕ → Run (DArray ℕ)
set_instruction_byte bytecode index byte = store_bytes bytecode index (byte ∷ [])

unfoldable pub set_instruction_code : DArray ℕ → ℕ → ℕ → Run (DArray ℕ)
set_instruction_code bytecode index code = store_bytes bytecode index (uint64_to_bytes code)

-- set_registers, on `translator->registerCount`
unfoldable pub set_registers : ℕ → ℕ → ℕ
set_registers register_count count = if ltb register_count count then count else register_count

-- POP_BYTE on the loaded bytecode: the byte and the new `ip`; a read behind the end is a fault
unfoldable pub pop_byte : List (Option ℕ) → ℕ → Run (ℕ × ℕ)
pop_byte bc ip = elim (get_or bc ip none) [ none ↦ fault | some b ↦ ok (b, suc ip) ]

unfoldable pub pop_bytes : ℕ → List (Option ℕ) → ℕ → Run (List ℕ)
pop_bytes zero bc ip = ok []
pop_bytes (suc n) bc ip = pop_byte bc ip >>= λ r. pop_bytes n bc r.1 >>= λ bs. ok (r.0 ∷ bs)

-- POP_U64
unfoldable pub pop_u64 : List (Option ℕ) → ℕ → Run (ℕ × ℕ)
pop_u64 bc ip = pop_bytes 8 bc ip >>= λ bs. ok (of_bytes bs, ip + 8)
