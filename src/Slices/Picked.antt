-- ===== src/Slices/Picked.antt =====
-- The items of a slice of an array are those that the indices of slice_indices visit.
use chloride.Base.{
  ℕ, zero, suc, ◌+◌, ◌-◌, ◌*◌, ◌≤◌, ◌<◌, ◌≡◌, refl, true, false, some, List, [], ◌∷◌, length,
  get_elem?, arith,
}
use chloride.Base.Int.{
  ℤ, pos, negsuc, neg_of, pos_part, neg_part, ◌+ℤ◌, ◌*ℤ◌, fits_int64, +ℤ_parts, one_part,
  eq_of_parts,
}
use chloride.Base.Run.{ok, Returns}
use chloride.Ranges.{past}
use chloride.Slices.{SliceIndices, slice_size, get_at, copy_items}
use chloride.Slices.Indices.{
  pred, steps, steps-before, steps-past, pred_parts, InRange, upward, downward, slice_size-up,
  slice_size-down,
}

-- the i-th index of a slice
abbrev pub index : SliceIndices → ℕ → ℤ
index s i = s.start +ℤ pos i *ℤ s.step

-- An index of an array of this length, before the slice's stop.
abbrev pub Visited : ℕ → SliceIndices → ℕ → Type 0
Visited len s j =
    (m : ℕ) × (index s j ≡ pos m) × (m < len) × (past false (index s j) s.stop s.step ≡ false)

-- The items stand at the indices from the i-th on, which lie before the stop.
abbrev pub Picked {ℓ} : {A : Type ℓ} → List A → SliceIndices → ℕ → List A → Type ℓ
Picked arr s i [] = Unit
Picked arr s i (x ∷ xs) =
    (get_at arr (index s i) ≡ ok x)
    × (past false (index s i) s.stop s.step ≡ false)
    × Picked arr s (suc i) xs

neg_of_parts : (m : ℕ) → (pos_part (neg_of m) ≡ 0) × (neg_part (neg_of m) ≡ m)
neg_of_parts zero = (refl, refl)
neg_of_parts (suc m) = (refl, refl)

index-up :
    (len a b k j : ℕ)
    → b ≤ len
    → j < steps (b - a) k
    → Visited len (record { start = pos a; stop = pos b; step = pos (suc k) }) j
unfolding ◌*ℤ◌ past
index-up len a b k j le h =
    let room : j * suc k < b - a = steps-before (b - a) k j h in
    let same : pos a +ℤ pos (j * suc k) ≡ pos (a + j * suc k) =
      eq_of_parts (pos a +ℤ pos (j * suc k)) (pos (a + j * suc k))
        (omega (arith, +ℤ_parts (pos a) (pos (j * suc k)))) in
    (a + j * suc k, same, omega arith, rw same (ground arith))

end-up :
    (a b k : ℕ)
    → past false (pos a +ℤ pos (steps (b - a) k) *ℤ pos (suc k)) (pos b) (pos (suc k)) ≡ true
unfolding ◌*ℤ◌ past
end-up a b k =
    let n = steps (b - a) k * suc k in
    ground (arith, steps-past (b - a) k, +ℤ_parts (pos a) (pos n), one_part (pos a +ℤ pos n))

index-down :
    (len a b k j : ℕ)
    → a ≤ len
    → j < steps (a - b) k
    → Visited len (record { start = pred a; stop = pred b; step = negsuc k }) j
unfolding ◌*ℤ◌ past
index-down len a b k j le h =
    let room : j * suc k < a - b = steps-before (a - b) k j h in
    let m = a - 1 - j * suc k in
    let same : pred a +ℤ neg_of (j * suc k) ≡ pos m =
      eq_of_parts (pred a +ℤ neg_of (j * suc k)) (pos m) (
        omega (
          arith,
          pred_parts a,
          neg_of_parts (j * suc k),
          +ℤ_parts (pred a) (neg_of (j * suc k)),
        )) in
    (m, same, omega arith, rw same (ground (arith, pred_parts b, one_part (pred b))))

end-down :
    (a b k : ℕ)
    → past false (pred a +ℤ pos (steps (a - b) k) *ℤ negsuc k) (pred b) (negsuc k) ≡ true
unfolding ◌*ℤ◌ past
end-down a b k =
    let n = steps (a - b) k * suc k in
    ground (
      arith,
      steps-past (a - b) k,
      pred_parts a,
      pred_parts b,
      one_part (pred b),
      neg_of_parts n,
      +ℤ_parts (pred a) (neg_of n),
      one_part (pred a +ℤ neg_of n),
    )

-- The size is the number of the indices before the stop.
pub slice_size-Visited :
    (len : ℕ) (s : SliceIndices)
    → InRange len s
    → fits_int64 (pos (len + (pos_part s.step + neg_part s.step))) ≡ true
    → (n : ℕ) × (slice_size s ≡ ok (pos n))
      × ((j : ℕ) → j < n → Visited len s j)
      × (past false (index s n) s.stop s.step ≡ true)
slice_size-Visited len s (upward a b k la lb) room = (
  steps (b - a) k,
  slice_size-up a b k (ground arith),
  λ j h. index-up len a b k j lb h,
  end-up a b k,
)
slice_size-Visited len s (downward a b k la lb) room = (
  steps (a - b) k,
  slice_size-down a b k (ground arith),
  λ j h. index-down len a b k j la h,
  end-down a b k,
)

module _ {ℓ} {A : Type ℓ} where
  get_elem?-lt : (xs : List A) (i : ℕ) → i < length xs → (x : A) × (get_elem? xs i ≡ some x)
  get_elem?-lt [] i h = absurd (omega arith)
  get_elem?-lt (x ∷ xs) zero h = (x, refl)
  get_elem?-lt (x ∷ xs) (suc i) h = get_elem?-lt xs i (omega arith)

  pub copy_items-Picked :
      (arr : List A) (s : SliceIndices) (i n : ℕ)
      → ((j : ℕ) → j < i + n → Visited (length arr) s j)
      → Returns (copy_items arr s.start s.step i n) (λ xs. (length xs ≡ n) × Picked arr s i xs)
  unfolding copy_items
  copy_items-Picked arr s i zero all = ([], refl, (refl, tt))
  copy_items-Picked arr s i (suc n) all =
      let (m, same, inside, before) = all i (omega arith) in
      let (x, there) = get_elem?-lt arr m inside in
      let read : get_at arr (index s i) ≡ ok x = rw (same, get_at, there) in
      let (xs, runs, (counted, picked)) =
        copy_items-Picked arr s (suc i) n (λ j h. all j (omega arith)) in
      rw (read, runs) (x ∷ xs, refl, (omega arith, (read, before, picked)))
