-- ===== src/Tests/Slices.antt =====
-- Runs of ranges and slices.
use chloride.Base.{ℕ, ◌≡◌, ◌⊎◌, refl, true, false, some, List, [], ◌∷◌, arith}
use chloride.Base.Int.{ℤ, pos, negsuc, ◌+ℤ◌, ◌-ℤ◌, ◌*ℤ◌, neg_ℤ, quot}
use chloride.Base.Run.{ok, fault, Returns}
use chloride.Numbers.{small_ints, new_number_object_from_int64}
use chloride.Numbers.Divide.{returned, raised, runtime_error, index_error}
use chloride.Numbers.Divide.Remainder.{object}
use chloride.Ranges.{past, next, collect}
use chloride.Ranges.Ends.{range, progression, after, AllBefore, Before, collect-progression}
use chloride.Slices.{
  null, int64_field, Slice, from_end, clamp_up, clamp_down, bounds, slice_indices, slice_size,
  copy_items, getitem_slice, getitem_index,
}
use chloride.Slices.Getitem.{Refused, Taken, getitem_slice-Taken}
use chloride.Tests.Fractions.{fractions}

program : Unit {0}
unfolding ◌+ℤ◌ ◌-ℤ◌ ◌*ℤ◌ neg_ℤ quot small_ints new_number_object_from_int64 past next collect
    from_end clamp_up clamp_down bounds slice_indices slice_size copy_items getitem_slice
    getitem_index
program = tt

abbrev letters : List ℕ
letters = 10 ∷ 11 ∷ 12 ∷ 13 ∷ 14 ∷ []

abbrev slice : ℤ → ℤ → ℤ → Slice
slice a b c = record { start = int64_field a; stop = int64_field b; step = int64_field c }

downwards :
    collect fractions 5 (range false (pos 7) (pos 1) (negsuc 1))
    ≡ ok (
      object (pos 7) ∷ object (pos 5) ∷ object (pos 3) ∷ [],
      some (range false (pos 1) (pos 1) (negsuc 1)),
    )
unfolding program
downwards = refl

-- an inclusive range up to the greatest int64_t adds the step once more
up_to_greatest :
    collect fractions 3 (range true (pos 0x7fff_ffff_ffff_ffff) (pos 0x7fff_ffff_ffff_ffff) (pos 1))
    ≡ fault
unfolding program
up_to_greatest = refl

reversed :
    getitem_slice letters (record { start = null; stop = null; step = int64_field (negsuc 1) })
    ≡ ok (returned (14 ∷ 12 ∷ 10 ∷ []))
unfolding program
reversed = refl

-- the last two but one, with bounds from the end
from_the_end :
    getitem_slice letters (slice (negsuc 2) (negsuc 0) (pos 1)) ≡ ok (returned (12 ∷ 13 ∷ []))
unfolding program
from_the_end = refl

-- the size is computed with an overflow for a step near the greatest int64_t
long_step : getitem_slice letters (slice (pos 0) (pos 5) (pos 0x7fff_ffff_ffff_ffff)) ≡ fault
unfolding program
long_step = refl

last_item : getitem_index letters (negsuc 0) ≡ ok (returned 14)
unfolding program
last_item = refl

no_item : getitem_index letters (negsuc 5) ≡ ok (raised index_error)
unfolding program
no_item = refl

collect-progression_example :
    (n : ℕ) × (collect fractions 9 (range true (pos 1) (pos 7) (pos 3))
      ≡ ok (
        progression n (pos 1) (pos 3),
        some (range true (after n (pos 1) (pos 3)) (pos 7) (pos 3)),
      ))
    × AllBefore true n (pos 1) (pos 7) (pos 3)
    × (¬ Before true (after n (pos 1) (pos 3)) (pos 7) (pos 3))
unfolding ◌+ℤ◌
collect-progression_example =
    collect-progression fractions 9 true (pos 1) (pos 7) (pos 3) refl refl refl (omega arith)

getitem_slice-Taken_example :
    Returns (getitem_slice letters (slice (negsuc 2) (negsuc 0) (pos 2))) (λ r.
      (Refused (slice (negsuc 2) (negsuc 0) (pos 2)) × (r ≡ raised runtime_error))
      ⊎ Taken letters (slice (negsuc 2) (negsuc 0) (pos 2)) r)
getitem_slice-Taken_example =
    getitem_slice-Taken letters (slice (negsuc 2) (negsuc 0) (pos 2)) refl refl refl
