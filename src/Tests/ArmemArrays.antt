-- ===== src/Tests/ArmemArrays.antt =====
-- Runs of the runtime's array, src/runtime/internals/dynamic_array_armem/darray_armem.c.
use chloride.Base.{ℕ, none, some, [], ◌∷◌, ◌≡◌, refl, arith}
use chloride.Base.Run.{ok, exit_failure, ◌>>=◌, Returns}
use chloride.Armem.{
  ArmemArray, init, memmove, memcpy, resize, grow_one, put, insert, pop, get, slice, contents,
}
use chloride.Armem.Insert.{IsValid, Inserted, insert_armem-Inserted}
use chloride.Armem.Pop.{Popped, pop_armem-Popped, pop_armem-insert}
use chloride.Armem.Slice.{Sliced, slice_armem-Sliced}

program : Unit {0}
unfolding init memmove memcpy resize grow_one put insert pop get slice
program = tt

-- two elements in a full block of two slots
abbrev pair : ArmemArray ℕ
pair = record { slots = some 5 ∷ some 6 ∷ []; element_size = 8; size = 2; capacity = 2; offset = 0 }

pair-IsValid : IsValid pair
pair-IsValid = record { at_start = refl; sized = omega arith; fits = omega arith; block = refl }

inserted_in_the_middle :
    (insert pair 1 7 >>= λ r. ok (contents r)) ≡ ok (some 5 ∷ some 7 ∷ some 6 ∷ [])
unfolding program
inserted_in_the_middle = refl

-- an `initial_size` of elements that were never stored
fresh : (init {A = ℕ} 8 3 >>= λ r. ok (contents r)) ≡ ok (none ∷ none ∷ none ∷ [])
unfolding program
fresh = refl

out_of_range : get pair 2 ≡ exit_failure
unfolding program
out_of_range = refl

insert_armem-Inserted_example : Returns (insert pair 1 7) (Inserted pair 1 7)
insert_armem-Inserted_example = insert_armem-Inserted pair 1 7 pair-IsValid (omega arith)

pop_armem-Popped_example : Returns (pop pair 0) (Popped pair 0)
pop_armem-Popped_example = pop_armem-Popped pair 0 pair-IsValid (omega arith)

pop_armem-insert_example :
    Returns
      (insert pair 1 7 >>= λ r. pop r 1)
      λ r. (contents r.0 ≡ contents pair) × (r.1 ≡ some (some 7))
pop_armem-insert_example = pop_armem-insert pair 1 7 pair-IsValid (omega arith) (omega arith)

slice_armem-Sliced_example : Returns (slice pair 1 2) (Sliced pair 1 2)
slice_armem-Sliced_example =
    slice_armem-Sliced pair 1 2 pair-IsValid (omega arith) (omega arith) (omega arith)
