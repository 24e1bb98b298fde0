-- ===== src/Armem/Shift.antt =====
-- What the two `memmove` calls of darray_armem.c do to the used part of a block.
use chloride.Base.{
  ℕ, zero, suc, ◌+◌, ◌-◌, ◌≤◌, ◌<◌, ◌≡◌, refl, ap, ◌∙◌, List, [], ◌∷◌, ◌++◌, arith, length, take,
  drop, set, length-append, length-take, length-drop, take-append, take-take, get_or,
}
use chloride.Armem.{moved}

module _ {ℓ} {A : Type ℓ} where
  -- a list with one element more at `p`, and one with the element at `p` left out
  abbrev pub inserted : ℕ → A → List A → List A
  inserted p x xs = take p xs ++ x ∷ drop p xs

  abbrev pub without : ℕ → List A → List A
  without p xs = take p xs ++ drop (suc p) xs

  pub length-moved :
      (xs : List A) (dst src n : ℕ)
      → dst + n ≤ length xs
      → src + n ≤ length xs
      → length (moved xs dst src n) ≡ length xs
  length-moved xs dst src n h h' =
      length-append (take dst xs) (take n (drop src xs) ++ drop (dst + n) xs)
      ∙ omega (
        arith,
        length-append (take n (drop src xs)) (drop (dst + n) xs),
        length-take dst xs,
        length-take n (drop src xs),
        length-drop src xs,
        length-drop (dst + n) xs,
      )

  take-take_append : (n : ℕ) (xs ys : List A) → n ≤ length xs → take n (take n xs ++ ys) ≡ take n xs
  take-take_append n xs ys h =
      take-append n (take n xs) ys (omega (arith, length-take n xs))
      ∙ take-take n n xs (omega arith)

  opened_prefix :
      (p k n : ℕ) (x : A) (xs rest : List A)
      → n ≡ p + k
      → n < length xs
      → take (suc n) (set (take (suc p) xs ++ (take k (drop p xs) ++ rest)) p x)
        ≡ inserted p x (take n xs)
  opened_prefix p k n x [] rest e room = absurd (omega arith)
  opened_prefix zero k n x (y ∷ xs) rest e room =
      let same : k ≡ n = omega arith in
      rw same (ap (λ t. x ∷ t) (take-take_append n (y ∷ xs) rest (omega arith)))
  opened_prefix (suc p) k zero x (y ∷ xs) rest e room = absurd (omega arith)
  opened_prefix (suc p) k (suc n) x (y ∷ xs) rest e room =
      ap (λ t. y ∷ t) (opened_prefix p k n x xs rest (omega arith) (omega arith))

  -- the slots from `p` on move one up, then `x` is stored at `p`
  pub take-opened :
      (p n : ℕ) (x : A) (xs : List A)
      → p ≤ n
      → n < length xs
      → take (suc n) (set (moved xs (p + 1) p (n - p)) p x) ≡ inserted p x (take n xs)
  take-opened p n x xs h room =
      let next : p + 1 ≡ suc p = omega arith in
      rw next (opened_prefix p (n - p) n x xs _ (omega arith) room)

  closed_prefix :
      (p k n : ℕ) (xs rest : List A)
      → n ≡ p + k
      → n < length xs
      → take n (take p xs ++ (take k (drop (suc p) xs) ++ rest)) ≡ without p (take (suc n) xs)
  closed_prefix p k n [] rest e room = absurd (omega arith)
  closed_prefix zero k n (y ∷ xs) rest e room =
      let same : k ≡ n = omega arith in rw same (take-take_append n xs rest (omega arith))
  closed_prefix (suc p) k zero (y ∷ xs) rest e room = absurd (omega arith)
  closed_prefix (suc p) k (suc n) (y ∷ xs) rest e room =
      ap (λ t. y ∷ t) (closed_prefix p k n xs rest (omega arith) (omega arith))

  -- the slots behind `p` move one down
  pub take-closed :
      (p n : ℕ) (xs : List A)
      → p ≤ n
      → n < length xs
      → take n (moved xs p (p + 1) (n - p)) ≡ without p (take (suc n) xs)
  take-closed p n xs h room =
      let next : p + 1 ≡ suc p = omega arith in
      rw next (closed_prefix p (n - p) n xs _ (omega arith) room)

  take-drop : (n : ℕ) (xs : List A) → take n xs ++ drop n xs ≡ xs
  take-drop zero xs = refl
  take-drop (suc n) [] = refl
  take-drop (suc n) (x ∷ xs) = ap (λ t. x ∷ t) (take-drop n xs)

  take_nil : (n : ℕ) → [] ≡ take {A = A} n []
  take_nil zero = refl
  take_nil (suc n) = refl

  -- moving no slot changes nothing
  pub moved-zero : (xs : List A) (dst src : ℕ) → moved xs dst src 0 ≡ xs
  moved-zero xs dst src = let same : dst + 0 ≡ dst = omega arith in rw same (take-drop dst xs)

  pub get_or-take : (xs : List A) (i n : ℕ) (d : A) → i < n → get_or (take n xs) i d ≡ get_or xs i d
  get_or-take xs i zero d h = absurd (omega arith)
  get_or-take [] i (suc n) d h = refl
  get_or-take (x ∷ xs) zero (suc n) d h = refl
  get_or-take (x ∷ xs) (suc i) (suc n) d h = get_or-take xs i n d (omega arith)

  pub drop-take : (m n : ℕ) (xs : List A) → drop m (take n xs) ≡ take (n - m) (drop m xs)
  drop-take zero n xs = ap (λ (k : ℕ). take k xs) {x = n} (omega arith)
  drop-take (suc m) zero xs = let none_left : 0 - suc m ≡ 0 = omega arith in rw none_left
  drop-take (suc m) (suc n) [] = take_nil (suc n - suc m)
  drop-take (suc m) (suc n) (x ∷ xs) =
      drop-take m n xs ∙ ap (λ (k : ℕ). take k (drop m xs)) {x = n - m} (omega arith)
