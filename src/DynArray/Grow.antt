-- ===== src/DynArray/Grow.antt =====
-- The invariant of an array that owns its block, kept by darray_init, darray_resize and
-- darray_push of src/dynamic_array/darray.c; what a push does to the contents.
use native.Mathlib.Nat.{mul-div_cancel, mod-eq_of_lt}
use chloride.Base.{
  ℕ, zero, suc, ◌+◌, ◌-◌, ◌*◌, ◌/◌, ◌%◌, ◌≤◌, ◌<◌, ◌≡◌, refl, ap, ◌∙◌, inl, inr, Bool-cases, true,
  Option, none, some, List, [], ◌∷◌, ◌++◌, arith, length, take, set, replicate, length-append,
  length-set, length-take, length-replicate, take-append, take-take, take-set_end, leb, ◌==◌,
}
use chloride.Base.Run.{Returns}
use chloride.DynArray.{DArray, size_mod, realloc, init, resize, write_slot, push, contents}

-- the array owns its block, and its elements lie inside it
pub record IsValid {ℓ} {A : Type ℓ} (arr : DArray A) : Type 0 where
  pub owned : arr.resizable ≡ true
  pub sized : 0 < arr.element_size
  pub fits : arr.size ≤ arr.capacity
  pub block : length arr.slots ≡ arr.capacity

-- the doubled byte count of `n` elements does not wrap
abbrev pub Room {ℓ} : {A : Type ℓ} → DArray A → ℕ → Type 0
Room arr n = n * arr.element_size * 2 < size_mod

pub grown_capacity :
    (n e : ℕ) → 0 < e → n * e * 2 < size_mod → n * e % size_mod * 2 % size_mod / e ≡ n * 2
grown_capacity n e pos h =
    let small : n * e % size_mod ≡ n * e = mod-eq_of_lt (omega arith) in
    let whole : n * e * 2 % size_mod ≡ n * 2 * e = mod-eq_of_lt h ∙ grind arith in
    rw (small, whole) (mul-div_cancel (n * 2) pos)

module _ {ℓ} {A : Type ℓ} where
  pub length-realloc : (xs : List (Option A)) (n : ℕ) → length (realloc xs n) ≡ n
  length-realloc xs n = omega (
    arith,
    length-take n (xs ++ replicate (n - length xs) none),
    length-append xs (replicate (n - length xs) none),
    length-replicate {A = Option A} (n - length xs) none,
  )

  pub take-realloc :
      (m n : ℕ) (xs : List (Option A)) → m ≤ n → m ≤ length xs → take m (realloc xs n) ≡ take m xs
  take-realloc m n xs p q = take-take n m _ p ∙ take-append m xs _ q

  pub init-IsValid : (n : ℕ) → 0 < n → Returns (init {A = A} n) λ r. IsValid r × (contents r ≡ [])
  unfolding init
  init-IsValid zero h = absurd (omega arith)
  init-IsValid (suc n) h = (
    _,
    refl,
    (record { owned = refl; sized = h; fits = omega arith; block = length-replicate _ _ }, refl),
  )

  -- what a call of darray_resize with room and a size that is not 0 leaves
  pub record Resized (arr : DArray A) (n : ℕ) (r : DArray A) : Type ℓ where
    pub valid : IsValid r
    pub sized : r.size ≡ n
    pub same_elements : r.element_size ≡ arr.element_size
    pub doubled : r.capacity ≡ n * 2
    pub keeps : (m : ℕ) → m ≤ n → m ≤ length arr.slots → take m r.slots ≡ take m arr.slots

  pub resize-Resized :
      (arr : DArray A) (n : ℕ)
      → IsValid arr
      → 0 < n
      → Room arr n
      → Returns (resize arr n) (Resized arr n)
  unfolding resize
  resize-Resized arr n v pos room =
      let cap = grown_capacity n arr.element_size v.sized room in
      elim (Bool-cases (n * 2 == arr.capacity)) [
        | inl same ↦ (
          record arr { size = n },
          rw (v.owned, cap, same) (ground arith),
          record {
            valid = ground arith;
            sized = refl;
            same_elements = refl;
            doubled = ground arith;
            keeps = λ m p q. refl;
          },
        )
        | inr other ↦ (
          record arr { slots = realloc arr.slots (n * 2); size = n; capacity = n * 2 },
          rw (v.owned, cap, other) (ground arith),
          record {
            valid = record {
              owned = v.owned;
              sized = v.sized;
              fits = omega arith;
              block = length-realloc arr.slots (n * 2);
            };
            sized = refl;
            same_elements = refl;
            doubled = refl;
            keeps = λ m p q. take-realloc m (n * 2) arr.slots (omega arith) q;
          },
        )
      ]

  -- what a push leaves
  pub record Pushed (arr : DArray A) (x : A) (r : DArray A) : Type ℓ where
    pub valid : IsValid r
    pub sized : r.size ≡ arr.size + 1
    pub same_elements : r.element_size ≡ arr.element_size
    pub appended : contents r ≡ contents arr ++ some x ∷ []

  write_end :
      (arr r : DArray A) (x : A)
      → IsValid r
      → r.size ≡ arr.size + 1
      → r.element_size ≡ arr.element_size
      → take arr.size r.slots ≡ contents arr
      → Returns (write_slot r (r.size - 1) x) (Pushed arr x)
  unfolding write_slot
  write_end arr r x v sized same keeps = (
    record r { slots = set r.slots arr.size (some x) },
    rw sized (ground arith),
    record {
      valid = record {
        owned = v.owned;
        sized = v.sized;
        fits = v.fits;
        block = length-set r.slots arr.size (some x) ∙ v.block;
      };
      sized = sized;
      same_elements = same;
      appended =
          ap (λ (n : ℕ). take n (set r.slots arr.size (some x))) {y = suc arr.size} (omega arith)
          ∙ take-set_end arr.size r.slots (some x) (omega arith)
          ∙ ap (λ (t : List (Option A)). t ++ some x ∷ []) keeps;
    },
  )

  -- From a valid array, while the doubled byte count fits `size_t`, darray_push ends normally, keeps
  -- the array valid, and adds the element behind the others, which stay as they were.
  pub push-Pushed :
      (arr : DArray A) (x : A)
      → IsValid arr
      → Room arr (arr.size + 1)
      → Returns (push arr x) (Pushed arr x)
  unfolding push
  push-Pushed arr x v room = elim (Bool-cases (leb arr.capacity arr.size)) [
    | inr spare ↦
        let grown : IsValid (record arr { size = arr.size + 1 }) = ground arith in
        let (r, run, p) =
          write_end arr (record arr { size = arr.size + 1 }) x grown refl refl refl in
        (r, ground arith, p)
    | inl full ↦
        let (g, grow, e) = resize-Resized arr (arr.size + 1) v (omega arith) room in
        let (r, run, p) =
          write_end arr g x e.valid e.sized e.same_elements
            (e.keeps arr.size (omega arith) (omega arith)) in
        (r, ground arith, p)
  ]
