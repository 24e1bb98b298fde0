-- ===== src/DynArray/Access.antt =====
-- Reading src/dynamic_array/darray.c's array: darray_slice, on all bounds.
use chloride.Base.{
  ℕ, zero, suc, ◌+◌, ◌-◌, ◌≤◌, ◌<◌, ◌≡◌, refl, sym, ap, ◌∙◌, Bool, List, [], ◌∷◌, arith, take,
  take-take, Bool-cases, ◌||◌, drop, ltb, inl, inr, ◌⊎◌,
}
use chloride.Base.Run.{exit_failure, Returns}
use chloride.DynArray.{DArray, slice, view, push, pop, contents}

module _ {ℓ} {A : Type ℓ} where
  take-drop : (m n k : ℕ) (xs : List A) → m + n ≡ k → take n (drop m xs) ≡ drop m (take k xs)
  take-drop zero n k xs h = ap (λ (t : ℕ). take t xs) (omega arith)
  take-drop (suc m) zero zero xs h = absurd (omega arith)
  take-drop (suc m) (suc n) zero xs h = absurd (omega arith)
  take-drop (suc m) zero (suc k) [] h = refl
  take-drop (suc m) (suc n) (suc k) [] h = refl
  take-drop (suc m) n (suc k) (x ∷ xs) h = take-drop m n k xs (omega arith)

  drop-take_longer :
      (m n k : ℕ) (xs : List A)
      → m ≤ n
      → n ≤ k
      → take (n - m) (drop m xs) ≡ take (n - m) (drop m (take k xs))
  drop-take_longer m n k xs p q =
      take-drop m (n - m) n xs (omega arith)
      ∙ ap (drop m) (sym (take-take k n xs q))
      ∙ sym (take-drop m (n - m) n (take k xs) (omega arith))

module _ {ℓ} {A : Type ℓ} where
  -- darray_slice ends the process exactly when the bounds are crossed or reach past the size; else it
  -- gives a view at `start` whose contents are those of the array between the bounds, and which
  -- darray_push and darray_pop refuse.
  pub slice-contents :
      (arr : DArray A) (start end : ℕ)
      → ((end < start) ⊎ (arr.size < end)) × (slice arr start end ≡ exit_failure)
        ⊎ (start ≤ end)
          × (end ≤ arr.size)
          × Returns (slice arr start end) λ r.
            (r.0 ≡ start)
            × (contents r.1 ≡ take (end - start) (drop start (contents arr)))
            × ((x : A) → push r.1 x ≡ exit_failure)
            × ((f : Bool) → pop r.1 f ≡ exit_failure)
  unfolding slice push pop
  slice-contents arr start end = elim (Bool-cases (ltb end start || ltb arr.size end)) [
    | inl bad ↦ inl (ground arith, ground arith)
    | inr good ↦
        let lo : start ≤ end = ground arith in
        let hi : end ≤ arr.size = ground arith in
        inr (
          lo,
          hi,
          (
            (start, view arr start end),
            rw good refl,
            (refl, drop-take_longer start end arr.size arr.slots lo hi, λ x. refl, λ f. refl),
          ),
        )
  ]
