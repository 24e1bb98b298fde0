-- ===== src/Bytecode/Words.antt =====
-- The eight bytes of a uint64_t, as uint64_to_bytes (src/translator/translator.c) writes them and as
-- POP_U64 (src/runtime/runtime.c) reads them back from a block.
use chloride.Base.{
  ℕ, zero, suc, ◌+◌, ◌*◌, ◌/◌, ◌%◌, ◌^◌, ◌<◌, bit_and, ◌≡◌, refl, ◌∙◌, inl, inr, Option-cases,
  Option, none, some, List, [], ◌∷◌, ◌++◌, arith, length, get_or,
}
use chloride.Base.Bits.{bit_and_mask}
use chloride.Base.Run.{ok}
use chloride.Bytecode.{bytes_from, uint64_to_bytes, of_bytes, pop_byte, pop_bytes, pop_u64}

pub length-uint64_to_bytes : (value : ℕ) → length (uint64_to_bytes value) ≡ 8
unfolding uint64_to_bytes bytes_from
length-uint64_to_bytes value = refl

-- eight bytes make up the value again
pub of_bytes-uint64_to_bytes :
    (value : ℕ) → value < 2 ^ 64 → of_bytes (uint64_to_bytes value) ≡ value
unfolding of_bytes uint64_to_bytes bytes_from
of_bytes-uint64_to_bytes value h =
    let low : (x : ℕ) → bit_and x 0xFF ≡ x % 256 = λ x. bit_and_mask 8 x in
    rw
      (
        low (value / 2 ^ (0 * 8)),
        low (value / 2 ^ (1 * 8)),
        low (value / 2 ^ (2 * 8)),
        low (value / 2 ^ (3 * 8)),
        low (value / 2 ^ (4 * 8)),
        low (value / 2 ^ (5 * 8)),
        low (value / 2 ^ (6 * 8)),
        low (value / 2 ^ (7 * 8)),
      )
      (omega arith)

abbrev pub defined : List ℕ → List (Option ℕ)
defined [] = []
defined (b ∷ bs) = some b ∷ defined bs

-- reading behind the first byte of a block is reading the rest of it
pop_bytes-tail :
    (n ip : ℕ) (x : Option ℕ) (ys : List (Option ℕ))
    → pop_bytes n (x ∷ ys) (suc ip) ≡ pop_bytes n ys ip
unfolding pop_bytes pop_byte
pop_bytes-tail zero ip x ys = refl
pop_bytes-tail (suc n) ip x ys = elim (Option-cases (get_or ys ip none)) [
  | inl past ↦ rw (past, pop_bytes, pop_byte)
  | inr (b, there) ↦ rw (there, pop_bytes, pop_byte, pop_bytes-tail n (suc ip) x ys)
]

-- reading as many bytes as stand behind a prefix
pub pop_bytes-defined :
    (before after : List (Option ℕ)) (bs : List ℕ)
    → pop_bytes (length bs) (before ++ (defined bs ++ after)) (length before) ≡ ok bs
unfolding pop_bytes pop_byte
pop_bytes-defined [] after [] = refl
pop_bytes-defined [] after (b ∷ bs) =
    rw (pop_bytes-tail (length bs) 0 (some b) (defined bs ++ after), pop_bytes-defined [] after bs)
pop_bytes-defined (x ∷ before) after bs =
    pop_bytes-tail (length bs) (length before) x (before ++ (defined bs ++ after))
    ∙ pop_bytes-defined before after bs

-- POP_U64 where a value's bytes stand
pub pop_u64-defined :
    (before after : List (Option ℕ)) (value : ℕ)
    → value < 2 ^ 64
    → pop_u64 (before ++ (defined (uint64_to_bytes value) ++ after)) (length before)
      ≡ ok (value, length before + 8)
unfolding pop_u64 uint64_to_bytes bytes_from
pop_u64-defined before after value h =
    let read = pop_bytes-defined before after (uint64_to_bytes value) in
    rw (read, of_bytes-uint64_to_bytes value h)

pub read_at :
    (before after : List (Option ℕ)) (value ip : ℕ)
    → value < 2 ^ 64
    → ip ≡ length before
    → pop_u64 (before ++ (defined (uint64_to_bytes value) ++ after)) ip ≡ ok (value, ip + 8)
read_at before after value ip h e = rw e (pop_u64-defined before after value h)
