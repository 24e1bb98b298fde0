-- ===== src/Armem/Slice.antt =====
-- darray_armem_get and darray_armem_slice of
-- src/runtime/internals/dynamic_array_armem/darray_armem.c.
use native.Mathlib.Nat.{mul-div_cancel, mod-eq_of_lt, mul-le-mul_right}
use chloride.Base.{
  ℕ, ◌+◌, ◌-◌, ◌*◌, ◌/◌, ◌%◌, ◌≤◌, ◌<◌, ◌≡◌, refl, sym, ap, ◌∙◌, ◌⊎◌, false, Option, none, ◌++◌,
  arith, length, take, drop, replicate, length-append, length-take, length-drop, length-replicate,
  take-append, take-take, ltb,
}
use chloride.Base.Run.{exit_failure, Returns}
use chloride.DynArray.{size_mod}
use chloride.Armem.{ArmemArray, armem_chunk_size, slice, contents}
use chloride.Armem.Shift.{drop-take}
use chloride.Armem.Insert.{IsValid, contents-take}

-- the number of slots of the new block, rounded up
abbrev rounded_up : ℕ → ℕ
rounded_up n = (n + armem_chunk_size) / armem_chunk_size * armem_chunk_size

rounded :
    (n e : ℕ)
    → 0 < e
    → (n + armem_chunk_size) * e < size_mod
    → ((n + armem_chunk_size) % size_mod / armem_chunk_size * armem_chunk_size % size_mod
        ≡ rounded_up n)
      × (rounded_up n * e % size_mod / e ≡ rounded_up n)
      × (n ≤ rounded_up n)
rounded n e pos room =
    let few : n + armem_chunk_size < size_mod = grind arith in
    let small : (n + armem_chunk_size) % size_mod ≡ n + armem_chunk_size = mod-eq_of_lt few in
    let below : rounded_up n ≤ n + armem_chunk_size = omega arith in
    let narrow : rounded_up n < size_mod = omega arith in
    let bytes : rounded_up n * e < size_mod = omega (arith, mul-le-mul_right e below) in
    (
      rw small (mod-eq_of_lt narrow),
      ap (λ (t : ℕ). t / e) (mod-eq_of_lt bytes) ∙ mul-div_cancel (rounded_up n) pos,
      omega arith,
    )

module _ {ℓ} {A : Type ℓ} where
  -- what a slice is: an array of its own with a copy of the elements between the bounds
  pub record Sliced (arr : ArmemArray A) (start end : ℕ) (r : ArmemArray A) : Type ℓ where
    pub valid : IsValid r
    pub sized : r.size ≡ end - start
    pub copied : contents r ≡ drop start (take end (contents arr))

  abbrev copy_of : ArmemArray A → ℕ → ℕ → ArmemArray A
  copy_of arr start n = record {
    slots = take n (drop start arr.slots) ++ replicate (rounded_up n - n) none;
    element_size = arr.element_size;
    size = n;
    capacity = rounded_up n;
    offset = 0;
  }

  copy_Sliced :
      (arr : ArmemArray A) (start end : ℕ)
      → IsValid arr
      → start ≤ end
      → end ≤ arr.size
      → end - start ≤ rounded_up (end - start)
      → Sliced arr start end (copy_of arr start (end - start))
  copy_Sliced arr start end v order inside wide =
      let n = end - start in
      let copied : length (take n (drop start arr.slots)) ≡ n =
        length-take n (drop start arr.slots) ∙ omega (arith, length-drop start arr.slots) in
      record {
        valid = record {
          at_start = refl;
          sized = v.sized;
          fits = wide;
          block =
              length-append (take n (drop start arr.slots)) (replicate (rounded_up n - n) none)
              ∙ omega (arith, length-replicate {A = Option A} (rounded_up n - n) none, copied);
        };
        sized = refl;
        copied =
            take-append n (take n (drop start arr.slots)) _ (omega arith)
            ∙ take-take n n (drop start arr.slots) (omega arith)
            ∙ sym (drop-take start end arr.slots)
            ∙ ap (drop start) (
                sym (
                  ap (take end) (contents-take arr v.at_start)
                  ∙ take-take arr.size end arr.slots inside));
      }

  -- From a valid array, for bounds in order and no greater than its size, while the rounded byte
  -- count fits `size_t`, darray_armem_slice returns a valid array of its own that holds the elements
  -- between the bounds.
  pub slice_armem-Sliced :
      (arr : ArmemArray A) (start end : ℕ)
      → IsValid arr
      → start ≤ end
      → end ≤ arr.size
      → (end - start + armem_chunk_size) * arr.element_size < size_mod
      → Returns (slice arr start end) (Sliced arr start end)
  unfolding slice
  slice_armem-Sliced arr start end v order inside room =
      let (cap, slots, wide) = rounded (end - start) arr.element_size v.sized room in
      let in_order : ltb end start ≡ false = ground arith in
      let in_bounds : ltb arr.size end ≡ false = ground arith in
      let from : arr.offset + start ≡ start = omega arith in
      let to : arr.offset + end ≡ end = omega arith in
      let in_block : ltb (length arr.slots) end ≡ false = ground arith in
      let enough : ltb (rounded_up (end - start)) (end - start) ≡ false = ground arith in
      (
        copy_of arr start (end - start),
        rw (in_order, in_bounds, from, to, in_block, cap, slots, enough),
        copy_Sliced arr start end v order inside wide,
      )

  -- and it ends the process on all other bounds
  pub slice-eq-exit_failure :
      (arr : ArmemArray A) (start end : ℕ)
      → (end < start) ⊎ (arr.size < end)
      → slice arr start end ≡ exit_failure
  unfolding slice
  slice-eq-exit_failure arr start end h = ground arith
