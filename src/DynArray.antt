-- ===== src/DynArray.antt =====
-- The growing array of the compiler, src/dynamic_array/darray.c and darray.h.
-- The block behind `data` is a list of element slots, its allocated bytes divided by
-- `element_size`; a slot is `none` until an element is copied into it. `size_t` products keep
-- their wrap-around. A pointer that `darray_get` or `darray_slice` returns is its slot's position.
pub mod Grow
pub mod Access
pub mod Pop
use chloride.Base.{
  ℕ, zero, suc, ◌+◌, ◌-◌, ◌*◌, ◌/◌, ◌%◌, ◌^◌, Bool, true, false, not, Option, none, some, List, [],
  ◌∷◌, ◌++◌, ltb, leb, ◌==◌, if◌then◌else◌, length, take, drop, set, replicate, get_elem?, ◌||◌,
}
use chloride.Base.Run.{Run, ok, exit_failure, fault, ◌>>=◌}

abbrev pub size_mod : ℕ
size_mod = 2 ^ 64

abbrev pub chunk_size : ℕ
chunk_size = 16

module _ {ℓ} {A : Type ℓ} where
  -- `realloc`: the common prefix is kept, what is new is not initialised
  abbrev pub realloc : List (Option A) → ℕ → List (Option A)
  realloc slots n = take n (slots ++ replicate (n - length slots) none)

-- the positions that a loop over `n` slots visits
abbrev pub slots_from : ℕ → ℕ → List ℕ
slots_from i zero = []
slots_from i (suc n) = i ∷ slots_from (i + 1) n

-- DArray; `data` is null once the array is freed
pub record DArray {ℓ} (A : Type ℓ) : Type ℓ where
  pub slots : List (Option A)
  pub element_size : ℕ
  pub size : ℕ
  pub capacity : ℕ
  pub resizable : Bool

module _ {ℓ} {A : Type ℓ} where
  -- the division by a zero `element_size` traps
  unfoldable pub init : ℕ → Run (DArray A)
  init zero = fault
  init (suc n) = ok (record {
    slots = replicate (chunk_size / suc n) none;
    element_size = suc n;
    size = 0;
    capacity = chunk_size / suc n;
    resizable = true;
  })

  -- darray_resize; a new capacity of 0 returns before `size` is set, a division by 0 traps
  unfoldable pub resize : DArray A → ℕ → Run (DArray A)
  resize arr new_size =
      if not arr.resizable
      then exit_failure
      else if arr.element_size == 0
      then fault
      else let bytes = new_size * arr.element_size % size_mod * 2 % size_mod in
        let new_capacity = bytes / arr.element_size in
        if new_capacity == 0
        then ok arr
        else if new_capacity == arr.capacity
        then ok (record arr { size = new_size })
        else ok (record arr {
          slots = realloc arr.slots new_capacity;
          size = new_size;
          capacity = new_capacity;
        })

  -- `memcpy` of one element to a slot of the block
  unfoldable pub write_slot : DArray A → ℕ → A → Run (DArray A)
  write_slot arr i x =
      if ltb i (length arr.slots)
      then ok (record arr { slots = set arr.slots i (some x) })
      else fault

  unfoldable pub push : DArray A → A → Run (DArray A)
  push arr x =
      if not arr.resizable
      then exit_failure
      else (if leb arr.capacity arr.size
          then resize arr (arr.size + 1)
          else ok (record arr { size = arr.size + 1 }))
        >>= λ r. write_slot r (r.size - 1) x

  -- darray_pop; with `free_data` given, the slot that it is called on comes back as well
  unfoldable pub pop : DArray A → Bool → Run (DArray A × List ℕ)
  pop arr free_data =
      if not arr.resizable
      then exit_failure
      else if arr.size == 0
      then ok (arr, [])
      else resize arr (arr.size - 1) >>= λ r. ok (r, if free_data then (arr.size - 1) ∷ [] else [])

  -- darray_get: the slot's position behind `data`
  unfoldable pub get : DArray A → ℕ → Run ℕ
  get arr index = if leb arr.size index then exit_failure else ok index

  -- the header that darray_slice builds: it points into the same block, from its slot `start` on
  abbrev pub view : DArray A → ℕ → ℕ → DArray A
  view arr start end = record {
    slots = drop start arr.slots;
    element_size = arr.element_size;
    size = end - start;
    capacity = (end - start + chunk_size) / chunk_size * chunk_size;
    resizable = false;
  }

  -- darray_slice
  unfoldable pub slice : DArray A → ℕ → ℕ → Run (ℕ × DArray A)
  slice arr start end =
      if ltb end start || ltb arr.size end then exit_failure else ok (start, view arr start end)

  -- darray_free, and the slots that `free_data` is called on
  unfoldable pub free : DArray A → Bool → DArray A × List ℕ
  free arr free_data = if not arr.resizable then (arr, []) else (
    record { slots = []; element_size = 0; size = 0; capacity = 0; resizable = false },
    if free_data then slots_from 0 arr.size else [],
  )

  -- what the array holds
  abbrev pub contents : DArray A → List (Option A)
  contents arr = take arr.size arr.slots
