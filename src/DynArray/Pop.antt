-- ===== src/DynArray/Pop.antt =====
-- darray_pop of src/dynamic_array/darray.c: its effect on every size.
use chloride.Base.{
  ℕ, ◌+◌, ◌-◌, ◌*◌, ◌<◌, ◌≡◌, refl, sym, ap, ◌∙◌, Bool, List, [], ◌∷◌, arith, take, take-take,
  if◌then◌else◌,
}
use chloride.Base.Run.{Returns}
use chloride.DynArray.{DArray, pop, contents}
use chloride.DynArray.Grow.{IsValid, Room, resize-Resized}

module _ {ℓ} {A : Type ℓ} where
  -- what a pop of an array of two or more elements leaves, and the slot that is handed to `free_data`
  pub record Popped (arr : DArray A) (free_data : Bool) (r : DArray A × List ℕ) : Type ℓ where
    pub valid : IsValid r.0
    pub sized : r.0.size + 1 ≡ arr.size
    pub shrunk : r.0.capacity ≡ r.0.size * 2
    pub shorter : contents r.0 ≡ take (arr.size - 1) (contents arr)
    pub freed : r.1 ≡ (if free_data then (arr.size - 1) ∷ [] else [])

  -- From a valid array of at least two elements, whose byte count doubled fits `size_t`, darray_pop
  -- ends normally, drops the last element alone, and hands its slot to `free_data` if there is one.
  pub pop-Popped :
      (arr : DArray A) (free_data : Bool)
      → IsValid arr
      → 1 < arr.size
      → Room arr (arr.size - 1)
      → Returns (pop arr free_data) (Popped arr free_data)
  unfolding pop
  pop-Popped arr free_data v more room =
      let (r, run, e) = resize-Resized arr (arr.size - 1) v (omega arith) room in
      (
        (r, if free_data then (arr.size - 1) ∷ [] else []),
        ground arith,
        record {
          valid = e.valid;
          sized = omega (arith, e.sized);
          shrunk = omega (arith, e.sized, e.doubled);
          shorter =
              ap (λ (n : ℕ). take n r.slots) e.sized
              ∙ e.keeps (arr.size - 1) (omega arith) (omega arith)
              ∙ sym (take-take arr.size (arr.size - 1) arr.slots (omega arith));
          freed = refl;
        },
      )
