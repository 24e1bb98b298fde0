-- ===== src/Armem/Insert.antt =====
-- The invariant of the runtime's array, kept by darray_armem_init, darray_armem_resize and
-- darray_armem_insert of src/runtime/internals/dynamic_array_armem/darray_armem.c, and what an
-- insertion does to the contents.
use chloride.Base.{
  ℕ, suc, ◌+◌, ◌-◌, ◌*◌, ◌%◌, ◌≤◌, ◌<◌, min, ◌≡◌, refl, sym, ap, ◌∙◌, inl, inr, Bool-cases, true,
  Option, some, List, arith, length, take, drop, set, length-set, leb, ltb, ◌==◌, if◌then◌else◌,
}
use chloride.Base.Run.{ok, Returns}
use chloride.DynArray.{size_mod, realloc}
use chloride.DynArray.Grow.{grown_capacity, length-realloc, take-realloc}
use chloride.Armem.{ArmemArray, moved, memmove, memcpy, resize, grow_one, put, insert, contents}
use chloride.Armem.Shift.{inserted, length-moved, take-opened, moved-zero}

-- the elements start at the block's first slot, and lie inside it
pub record IsValid {ℓ} {A : Type ℓ} (arr : ArmemArray A) : Type 0 where
  pub at_start : arr.offset ≡ 0
  pub sized : 0 < arr.element_size
  pub fits : arr.size ≤ arr.capacity
  pub block : length arr.slots ≡ arr.capacity

-- the doubled byte count of `n` elements does not wrap
abbrev pub Room {ℓ} : {A : Type ℓ} → ArmemArray A → ℕ → Type 0
Room arr n = n * arr.element_size * 2 < size_mod

module _ {ℓ} {A : Type ℓ} where
  pub contents-take : (arr : ArmemArray A) → arr.offset ≡ 0 → contents arr ≡ take arr.size arr.slots
  contents-take arr h = ap (λ (k : ℕ). take arr.size (drop k arr.slots)) h

  -- a resize to a size that is not 0, with room
  pub record Resized (arr : ArmemArray A) (n : ℕ) (r : ArmemArray A) : Type ℓ where
    pub valid : IsValid r
    pub sized : r.size ≡ n
    pub same_elements : r.element_size ≡ arr.element_size
    pub keeps : (m : ℕ) → m ≤ n → m ≤ length arr.slots → take m r.slots ≡ take m arr.slots

  pub resize-Resized :
      (arr : ArmemArray A) (n : ℕ)
      → IsValid arr
      → 0 < n
      → Room arr n
      → Returns (resize arr n) (Resized arr n)
  unfolding resize
  resize-Resized arr n v pos room =
      let cap = grown_capacity n arr.element_size v.sized room in
      let small : (arr.offset + n) % size_mod ≡ n = grind arith in
      elim (Bool-cases (n * 2 == arr.capacity)) [
        | inl same ↦ (
          record arr { size = n },
          rw (small, cap, same) (ground arith),
          record {
            valid = ground arith;
            sized = refl;
            same_elements = refl;
            keeps = λ m p q. refl;
          },
        )
        | inr other ↦ (
          record arr { slots = realloc arr.slots (n * 2); size = n; capacity = n * 2 },
          rw (small, cap, other) (ground arith),
          record {
            valid = record {
              at_start = v.at_start;
              sized = v.sized;
              fits = omega arith;
              block = length-realloc arr.slots (n * 2);
            };
            sized = refl;
            same_elements = refl;
            keeps = λ m p q. take-realloc m (n * 2) arr.slots (omega arith) q;
          },
        )
      ]

  -- an array with one slot more than elements, the first of which are those of `arr`
  record Opened (arr r : ArmemArray A) : Type ℓ where
    valid : IsValid r
    sized : r.size ≡ arr.size + 1
    same_elements : r.element_size ≡ arr.element_size
    keeps : take arr.size r.slots ≡ take arr.size arr.slots

  grow_one-Opened :
      (arr : ArmemArray A)
      → IsValid arr
      → Room arr (arr.size + 1)
      → Returns (grow_one arr) (Opened arr)
  unfolding grow_one
  grow_one-Opened arr v room = elim (Bool-cases (leb arr.capacity arr.size)) [
    | inr spare ↦ (
      record arr { size = arr.size + 1 },
      rw spare,
      record { valid = ground arith; sized = refl; same_elements = refl; keeps = refl },
    )
    | inl full ↦
        let (g, grow, e) = resize-Resized arr (arr.size + 1) v (omega arith) room in
        (
          g,
          rw full grow,
          record {
            valid = e.valid;
            sized = e.sized;
            same_elements = e.same_elements;
            keeps = e.keeps arr.size (omega arith) (omega (arith, v.fits, v.block));
          },
        )
  ]

  -- the `memmove` of an insertion, left out where it would move no slot
  opened_slots :
      (xs : List (Option A)) (p n : ℕ)
      → p ≤ n
      → n < length xs
      → (if ltb p n then memmove xs (p + 1) p (n - p) else ok xs) ≡ ok (moved xs (p + 1) p (n - p))
  unfolding memmove
  opened_slots xs p n inside room = elim (Bool-cases (ltb p n)) [
    | inl some_slot ↦ rw some_slot (ground arith)
    | inr at_end ↦
        let none_left : n - p ≡ 0 = ground arith in rw (at_end, none_left, moved-zero xs (p + 1) p)
  ]

  put_slots :
      (r : ArmemArray A) (n p : ℕ) (x : A)
      → IsValid r
      → r.size ≡ n + 1
      → p ≤ n
      → put r p x ≡ ok (record r { slots = set (moved r.slots (p + 1) p (n - p)) p (some x) })
  unfolding put memcpy
  put_slots r n p x v sized inside =
      let target : r.offset + p ≡ p = omega arith in
      let last : r.size - 1 ≡ n = omega arith in
      let tail : r.size - p - 1 ≡ n - p = omega arith in
      let open_at = opened_slots r.slots p n inside (omega arith) in
      let room : ltb p (length (moved r.slots (p + 1) p (n - p))) ≡ true =
        ground (arith, length-moved r.slots (p + 1) p (n - p)) in
      rw (target, last, tail, open_at, room)

  -- what an insertion leaves
  pub record Inserted (arr : ArmemArray A) (pos : ℕ) (x : A) (r : ArmemArray A) : Type ℓ where
    pub valid : IsValid r
    pub grown : r.size ≡ arr.size + 1
    pub same_elements : r.element_size ≡ arr.element_size
    pub holds : contents r ≡ inserted (min pos arr.size) (some x) (contents arr)

  put_Inserted :
      (arr g : ArmemArray A) (p pos : ℕ) (x : A)
      → IsValid arr
      → Opened arr g
      → p ≤ arr.size
      → p ≡ min pos arr.size
      → Inserted arr pos x
          (record g { slots = set (moved g.slots (p + 1) p (arr.size - p)) p (some x) })
  put_Inserted arr g p pos x v o inside e =
      let total = length-moved g.slots (p + 1) p (arr.size - p) in
      let moves = length-set (moved g.slots (p + 1) p (arr.size - p)) p (some x) in
      record {
        valid = record {
          at_start = o.valid.at_start;
          sized = o.valid.sized;
          fits = o.valid.fits;
          block = moves ∙ omega (arith, o.sized, o.valid.block, o.valid.fits);
        };
        grown = o.sized;
        same_elements = o.same_elements;
        holds =
            contents-take
              (record g { slots = set (moved g.slots (p + 1) p (arr.size - p)) p (some x) })
              o.valid.at_start
            ∙ ap (λ (k : ℕ). take k (set (moved g.slots (p + 1) p (arr.size - p)) p (some x)))
                {y = suc arr.size} (omega (arith, o.sized))
            ∙ take-opened p arr.size (some x) g.slots inside
                (omega (arith, o.sized, o.valid.fits, o.valid.block))
            ∙ ap (inserted p (some x)) (o.keeps ∙ sym (contents-take arr v.at_start))
            ∙ ap (λ (k : ℕ). inserted k (some x) (contents arr)) e;
      }

  -- From a valid array, while the doubled byte count fits `size_t`, darray_armem_insert ends
  -- normally, keeps the array valid, and puts the element before the one at `pos`, or at the end if
  -- `pos` lies past it; all other elements keep their order.
  pub insert_armem-Inserted :
      (arr : ArmemArray A) (pos : ℕ) (x : A)
      → IsValid arr
      → Room arr (arr.size + 1)
      → Returns (insert arr pos x) (Inserted arr pos x)
  unfolding insert
  insert_armem-Inserted arr pos x v room =
      let (g, grow, o) = grow_one-Opened arr v room in
      let p : (if ltb arr.size pos then arr.size else pos) ≡ min pos arr.size = ground arith in
      let inside : min pos arr.size ≤ arr.size = omega arith in
      (
        record g {
          slots =
              set
                (moved g.slots (min pos arr.size + 1) (min pos arr.size)
                  (arr.size - min pos arr.size))
                (min pos arr.size) (some x);
        },
        rw (grow, p) (put_slots g arr.size (min pos arr.size) x o.valid o.sized inside),
        put_Inserted arr g (min pos arr.size) pos x v o inside refl,
      )
