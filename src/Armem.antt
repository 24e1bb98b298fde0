-- ===== src/Armem.antt =====
-- The growing array of the runtime, src/runtime/internals/dynamic_array_armem/darray_armem.c and
-- darray_armem.h, which holds the items of an Argon array.
-- The block behind `data` is a list of element slots, `none` where nothing was stored. Every
-- operation holds the array's lock from its first access to its last, so one call is one step.
-- `size_t` sums and products keep their wrap-around; an access outside the block is a fault.
pub mod Shift
pub mod Insert
pub mod Pop
pub mod Slice
use chloride.Base.{
  ℕ, zero, suc, ◌+◌, ◌-◌, ◌*◌, ◌/◌, ◌%◌, ◌^◌, Bool, Option, none, some, List, [], ◌∷◌, ◌++◌, ltb,
  leb, ◌==◌, if◌then◌else◌, ◌||◌, ◌&&◌, not, length, take, drop, set, replicate, get_or, min,
}
use chloride.Base.Run.{Run, ok, exit_failure, fault, ◌>>=◌}
use chloride.DynArray.{size_mod, realloc}

abbrev pub armem_chunk_size : ℕ
armem_chunk_size = 128

-- darray_armem, without its lock
pub record ArmemArray {ℓ} (A : Type ℓ) : Type ℓ where
  pub slots : List (Option A)
  pub element_size : ℕ
  pub size : ℕ
  pub capacity : ℕ
  pub offset : ℕ

module _ {ℓ} {A : Type ℓ} where
  -- `memmove` of `n` slots of the block
  abbrev pub moved : List A → ℕ → ℕ → ℕ → List A
  moved slots dst src n = take dst slots ++ (take n (drop src slots) ++ drop (dst + n) slots)

  unfoldable pub memmove : List A → ℕ → ℕ → ℕ → Run (List A)
  memmove slots dst src n =
      if leb (dst + n) (length slots) && leb (src + n) (length slots)
      then ok (moved slots dst src n)
      else fault

  -- `memcpy` of one element to a slot
  unfoldable pub memcpy : List A → ℕ → A → Run (List A)
  memcpy slots i x = if ltb i (length slots) then ok (set slots i x) else fault

module _ {ℓ} {A : Type ℓ} where
  -- darray_armem_init; the division by an `element_size` of 0 traps
  unfoldable pub init : ℕ → ℕ → Run (ArmemArray A)
  init element_size initial_size =
      if ltb armem_chunk_size element_size
      then exit_failure
      else if element_size == 0
      then fault
      else let bytes_needed = initial_size * element_size % size_mod in
        let chunks = (bytes_needed + armem_chunk_size - 1) % size_mod / armem_chunk_size in
        let alloc_size = chunks * armem_chunk_size in
        ok (record {
          slots = replicate (alloc_size / element_size) none;
          element_size = element_size;
          size = initial_size;
          capacity = alloc_size / element_size;
          offset = 0;
        })

  -- darray_armem_resize_nolock, and darray_armem_resize around it
  unfoldable pub resize : ArmemArray A → ℕ → Run (ArmemArray A)
  resize arr new_size =
      if arr.element_size == 0
      then fault
      else let required_bytes = (arr.offset + new_size) % size_mod * arr.element_size % size_mod in
        let new_capacity = required_bytes * 2 % size_mod / arr.element_size in
        if new_capacity == 0 || new_capacity == arr.capacity
        then ok (record arr { size = new_size })
        else ok (record arr {
          slots = realloc arr.slots new_capacity;
          size = new_size;
          capacity = new_capacity;
        })

  -- `if (arr->size >= arr->capacity) … else arr->size++`
  unfoldable pub grow_one : ArmemArray A → Run (ArmemArray A)
  grow_one arr =
      if leb arr.capacity arr.size
      then resize arr (arr.size + 1)
      else ok (record arr { size = arr.size + 1 })

  -- darray_armem_insert from `void *base` on
  unfoldable pub put : ArmemArray A → ℕ → A → Run (ArmemArray A)
  put arr pos x = do
    let target = arr.offset + pos
    opened ←
        (if ltb pos (arr.size - 1)
          then memmove arr.slots (target + 1) target (arr.size - pos - 1)
          else ok arr.slots)
    filled ← memcpy opened target (some x)
    ok (record arr { slots = filled })

  -- darray_armem_insert
  unfoldable pub insert : ArmemArray A → ℕ → A → Run (ArmemArray A)
  insert arr pos x = grow_one arr >>= λ r. put r (if ltb arr.size pos then arr.size else pos) x

  -- darray_armem_pop, with the slot that is copied to `out`; none for its false
  unfoldable pub pop : ArmemArray A → ℕ → Run (ArmemArray A × Option (Option A))
  pop arr pos_ =
      if arr.size == 0
      then ok (arr, none)
      else let pos = if leb arr.size pos_ then arr.size - 1 else pos_ in
        let target = arr.offset + pos in
        if leb (length arr.slots) target
        then fault
        else (if ltb pos (arr.size - 1)
            then memmove arr.slots target (target + 1) (arr.size - pos - 1)
            else ok arr.slots)
          >>= λ closed. ok (
            record arr { slots = closed; size = arr.size - 1 },
            some (get_or arr.slots target none),
          )

  -- darray_armem_get: the slot's position behind `data`
  unfoldable pub get : ArmemArray A → ℕ → Run ℕ
  get arr index = if leb arr.size index then exit_failure else ok (arr.offset + index)

  -- darray_armem_slice: a new block with a copy of the slots
  unfoldable pub slice : ArmemArray A → ℕ → ℕ → Run (ArmemArray A)
  slice arr start end =
      if ltb end start || ltb arr.size end
      then exit_failure
      else if ltb (length arr.slots) (arr.offset + end)
      then fault
      else let size = end - start in
        let capacity =
          (size + armem_chunk_size) % size_mod / armem_chunk_size * armem_chunk_size % size_mod in
        let room = capacity * arr.element_size % size_mod / arr.element_size in
        if ltb room size
        then fault
        else ok (record {
          slots = take size (drop (arr.offset + start) arr.slots) ++ replicate (room - size) none;
          element_size = arr.element_size;
          size = size;
          capacity = capacity;
          offset = 0;
        })

  -- what the array holds
  abbrev pub contents : ArmemArray A → List (Option A)
  contents arr = take arr.size (drop arr.offset arr.slots)
