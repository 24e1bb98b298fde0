-- ===== src/Tests/DynArrays.antt =====
-- Runs of src/dynamic_array/darray.c's array of 8-byte elements.
use chloride.Base.{
  ℕ, ◌≤◌, ◌<◌, ◌-◌, ◌⊎◌, take, drop, Bool, true, none, some, [], ◌∷◌, ◌≡◌, refl, arith,
}
use chloride.Base.Run.{ok, exit_failure, ◌>>=◌, Returns}
use chloride.DynArray.{DArray, init, resize, write_slot, push, pop, get, slice, contents}
use chloride.DynArray.Grow.{IsValid, init-IsValid, Pushed, push-Pushed}
use chloride.DynArray.Pop.{Popped, pop-Popped}
use chloride.DynArray.Access.{slice-contents}

abbrev three_numbers : DArray ℕ
three_numbers = record {
  slots = some 10 ∷ some 20 ∷ some 30 ∷ none ∷ [];
  element_size = 8;
  size = 3;
  capacity = 4;
  resizable = true;
}

abbrev one_number : DArray ℕ
one_number = record {
  slots = some 10 ∷ none ∷ [];
  element_size = 8;
  size = 1;
  capacity = 2;
  resizable = true;
}

three_numbers-IsValid : IsValid three_numbers
three_numbers-IsValid = record {
  owned = refl;
  sized = omega arith;
  fits = omega arith;
  block = refl;
}

-- the last element stays where it is, although its slot goes to `free_data`
pop_only : pop one_number true ≡ ok (one_number, 0 ∷ [])
unfolding pop resize
pop_only = refl

get_inside : get three_numbers 1 ≡ ok 1
unfolding get
get_inside = refl

get_outside : get three_numbers 3 ≡ exit_failure
unfolding get
get_outside = refl

-- an array of 8-byte elements starts with room for two
push_thrice :
    init {A = ℕ} 8 >>= (λ a. push a 10) >>= (λ a. push a 20) >>= (λ a. push a 30)
    ≡ ok (record {
      slots = some 10 ∷ some 20 ∷ some 30 ∷ none ∷ none ∷ none ∷ [];
      element_size = 8;
      size = 3;
      capacity = 6;
      resizable = true;
    })
unfolding init push resize write_slot
push_thrice = refl

init-IsValid_example : Returns (init {A = ℕ} 8) λ r. IsValid r × (contents r ≡ [])
init-IsValid_example = init-IsValid 8 (omega arith)

push-Pushed_example : Returns (push three_numbers 40) (Pushed three_numbers 40)
push-Pushed_example = push-Pushed three_numbers 40 three_numbers-IsValid (omega arith)

pop-Popped_example : Returns (pop three_numbers true) (Popped three_numbers true)
pop-Popped_example = pop-Popped three_numbers true three_numbers-IsValid (omega arith) (omega arith)

slice-contents_example :
    ((2 < 1) ⊎ (three_numbers.size < 2)) × (slice three_numbers 1 2 ≡ exit_failure)
    ⊎ (1 ≤ 2)
      × (2 ≤ three_numbers.size)
      × Returns (slice three_numbers 1 2) λ r.
        (r.0 ≡ 1)
        × (contents r.1 ≡ take (2 - 1) (drop 1 (contents three_numbers)))
        × ((x : ℕ) → push r.1 x ≡ exit_failure)
        × ((f : Bool) → pop r.1 f ≡ exit_failure)
slice-contents_example = slice-contents three_numbers 1 2
