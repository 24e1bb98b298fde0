-- ===== src/Armem/Pop.antt =====
-- darray_armem_pop of src/runtime/internals/dynamic_array_armem/darray_armem.c.
use chloride.Base.{
  ℕ, zero, suc, ◌+◌, ◌-◌, ◌≤◌, ◌<◌, min, ◌≡◌, refl, sym, ap, ◌∙◌, inl, inr, Bool-cases, false,
  Option, none, some, List, [], ◌∷◌, arith, length, take, length-take, get_or, leb, ltb, ◌==◌,
  if◌then◌else◌,
}
use chloride.Base.Run.{ok, ◌>>=◌, Returns}
use chloride.Armem.{ArmemArray, moved, memmove, insert, pop, contents}
use chloride.Armem.Insert.{IsValid, Room, contents-take, insert_armem-Inserted}
use chloride.Armem.Shift.{inserted, without, get_or-take, length-moved, take-closed, moved-zero}

module _ {ℓ} {A : Type ℓ} where
  -- what a pop of an array with elements leaves, and what it hands out
  pub record Popped (arr : ArmemArray A) (pos : ℕ) (r : ArmemArray A × Option (Option A))
      : Type ℓ where
    pub valid : IsValid r.0
    pub same_elements : r.0.element_size ≡ arr.element_size
    pub holds : contents r.0 ≡ without (min pos (arr.size - 1)) (contents arr)
    pub taken : r.1 ≡ some (get_or (contents arr) (min pos (arr.size - 1)) none)

  -- the `memmove` of a pop, left out where it would move no slot; behind the last one nothing is left
  closed_slots :
      (xs : List (Option A)) (p n : ℕ)
      → p ≤ n
      → n < length xs
      → Returns
          (if ltb p n then memmove xs p (p + 1) (n - p) else ok xs)
          λ ys. (length ys ≡ length xs) × (take n ys ≡ without p (take (suc n) xs))
  unfolding memmove
  closed_slots xs p n inside room =
      let closed = take-closed p n xs inside room in
      elim (Bool-cases (ltb p n)) [
        | inl some_slot ↦ (
          moved xs p (p + 1) (n - p),
          rw some_slot (ground arith),
          (length-moved xs p (p + 1) (n - p) (omega arith) (ground arith), closed),
        )
        | inr at_end ↦
            let none_left : n - p ≡ 0 = ground arith in
            let same : moved xs p (p + 1) (n - p) ≡ xs =
              ap (moved xs p (p + 1)) none_left ∙ moved-zero xs p (p + 1) in
            (xs, rw at_end refl, (refl, ap (take n) (sym same) ∙ closed))
      ]

  pop_run :
      (arr : ArmemArray A) (pos p n : ℕ) (ys : List (Option A))
      → IsValid arr
      → arr.size ≡ suc n
      → p ≡ min pos n
      → (if ltb p n then memmove arr.slots p (p + 1) (n - p) else ok arr.slots) ≡ ok ys
      → pop arr pos ≡ ok (record arr { slots = ys; size = n }, some (get_or arr.slots p none))
  unfolding pop
  pop_run arr pos p n ys v some_element e close =
      let last : arr.size - 1 ≡ n = omega arith in
      let at : (if leb arr.size pos then n else pos) ≡ p = ground arith in
      let target : arr.offset + p ≡ p = omega arith in
      let tail : arr.size - p - 1 ≡ n - p = omega arith in
      let filled : (arr.size == 0) ≡ false = ground arith in
      let inside : leb (length arr.slots) p ≡ false = ground arith in
      rw (filled, last, at, target, tail, inside, close)

  pop_Popped :
      (arr : ArmemArray A) (pos p n : ℕ) (ys : List (Option A))
      → IsValid arr
      → arr.size ≡ suc n
      → p ≡ min pos (arr.size - 1)
      → length ys ≡ length arr.slots
      → take n ys ≡ without p (take (suc n) arr.slots)
      → Popped arr pos (record arr { slots = ys; size = n }, some (get_or arr.slots p none))
  pop_Popped arr pos p n ys v some_element e same closed = record {
    valid = record {
      at_start = v.at_start;
      sized = v.sized;
      fits = omega arith;
      block = same ∙ v.block;
    };
    same_elements = refl;
    holds =
        contents-take (record arr { slots = ys; size = n }) v.at_start
        ∙ closed
        ∙ ap (λ (k : ℕ). without p (take k arr.slots)) (sym some_element)
        ∙ ap (without p) (sym (contents-take arr v.at_start))
        ∙ ap (λ (k : ℕ). without k (contents arr)) e;
    taken = ap some (
        sym (get_or-take arr.slots p arr.size none (omega arith))
        ∙ ap (λ (t : List (Option A)). get_or t p none) (sym (contents-take arr v.at_start))
        ∙ ap (λ (k : ℕ). get_or (contents arr) k none) e);
  }

  -- From a valid array that is not empty, darray_armem_pop ends normally, keeps the array valid,
  -- takes out the element at `pos`, or the last one if `pos` lies past the end, and hands it out;
  -- all other elements keep their order.
  pub pop_armem-Popped :
      (arr : ArmemArray A) (pos : ℕ)
      → IsValid arr
      → 0 < arr.size
      → Returns (pop arr pos) (Popped arr pos)
  pop_armem-Popped arr pos v some_element =
      let n = arr.size - 1 in
      let (ys, close, (same, closed)) =
        closed_slots arr.slots (min pos n) n (omega arith) (omega arith) in
      (
        _,
        pop_run arr pos (min pos n) n ys v (omega arith) refl close,
        pop_Popped arr pos (min pos n) n ys v (omega arith) refl same closed,
      )

  without-inserted :
      (p : ℕ) (x : Option A) (xs : List (Option A))
      → p ≤ length xs
      → (without p (inserted p x xs) ≡ xs) × (get_or (inserted p x xs) p none ≡ x)
  without-inserted zero x xs h = (refl, refl)
  without-inserted (suc p) x [] h = absurd (omega arith)
  without-inserted (suc p) x (y ∷ xs) h =
      let (rest, found) = without-inserted p x xs (omega arith) in (ap (λ t. y ∷ t) rest, found)

  -- From a valid array, while the doubled byte count fits `size_t`: a pop at a position up to the
  -- size, after an insertion there, hands out what was inserted and leaves the contents as before.
  pub pop_armem-insert :
      (arr : ArmemArray A) (pos : ℕ) (x : A)
      → IsValid arr
      → Room arr (arr.size + 1)
      → pos ≤ arr.size
      → Returns
          (insert arr pos x >>= λ r. pop r pos)
          λ r. (contents r.0 ≡ contents arr) × (r.1 ≡ some (some x))
  pop_armem-insert arr pos x v room inside =
      let (g, put, i) = insert_armem-Inserted arr pos x v room in
      let (r, take_out, p) = pop_armem-Popped g pos i.valid (omega (arith, i.grown)) in
      let at_pop : min pos (g.size - 1) ≡ pos = omega (arith, i.grown) in
      let at_insert : min pos arr.size ≡ pos = omega arith in
      let total : length (contents arr) ≡ arr.size =
        ap length (contents-take arr v.at_start) ∙ length-take arr.size arr.slots ∙ omega arith in
      let holds : contents g ≡ inserted pos (some x) (contents arr) =
        i.holds ∙ ap (λ (k : ℕ). inserted k (some x) (contents arr)) at_insert in
      let (rest, found) = without-inserted pos (some x) (contents arr) (omega arith) in
      (
        r,
        rw (put, take_out),
        (
          p.holds ∙ ap (λ (k : ℕ). without k (contents g)) at_pop ∙ ap (without pos) holds ∙ rest,
          p.taken
              ∙ ap some (
                  ap (λ (k : ℕ). get_or (contents g) k none) at_pop
                  ∙ ap (λ t. get_or t pos none) holds
                  ∙ found),
        ),
      )
