-- ===== src/HashmapGc/Split.antt =====
-- The loops of resize_hashmap_GC_nolock (src/runtime/internals/hashmap/hashmap.c): a table of
-- chains split by one bit of the hashes answers as before.
use native.Mathlib.Nat.{one-le-pow, pow-suc, mod-lt}
use chloride.Base.{
  ℕ, zero, suc, ◌+◌, ◌-◌, ◌*◌, ◌%◌, ◌^◌, ◌≤◌, ◌<◌, bit_and, ◌≡◌, refl, ap, ◌∙◌, ◌⊎◌, inl, inr,
  Bool-cases, true, false, none, List, [], ◌∷◌, ◌++◌, arith, length, length-append, get_or, ltb,
  ◌==◌, if◌then◌else◌,
}
use chloride.Base.Bits.{bit_and_pow, mod_halves}
use chloride.Nodes.Buckets.{IsPlaced, view}
use chloride.Nodes.Chain.{Chain, find, count}
use chloride.HashmapGc.{split, split_all}

find-split :
    (b q : ℕ) (c : Chain)
    → (find q (split b c).0 ≡ (if bit_and q b == 0 then find q c else none))
      × (find q (split b c).1 ≡ (if bit_and q b == 0 then none else find q c))
unfolding split find
find-split b q [] = ground arith
find-split b q (n ∷ c) = ground (arith, find-split b q c)

count-split :
    (b q : ℕ) (c : Chain)
    → (count q (split b c).0 ≡ (if bit_and q b == 0 then count q c else 0))
      × (count q (split b c).1 ≡ (if bit_and q b == 0 then 0 else count q c))
unfolding split count
count-split b q [] = ground arith
count-split b q (n ∷ c) = ground (arith, count-split b q c)

length-split_all :
    (b : ℕ) (cs : List Chain)
    → (length (split_all b cs).0 ≡ length cs) × (length (split_all b cs).1 ≡ length cs)
unfolding split_all
length-split_all b [] = (refl, refl)
length-split_all b (c ∷ cs) = let (lo, hi) = length-split_all b cs in (ap suc lo, ap suc hi)

get_or-split_all :
    (b i : ℕ) (cs : List Chain)
    → (get_or (split_all b cs).0 i [] ≡ (split b (get_or cs i [])).0)
      × (get_or (split_all b cs).1 i [] ≡ (split b (get_or cs i [])).1)
unfolding split_all split
get_or-split_all b i [] = (refl, refl)
get_or-split_all b zero (c ∷ cs) = (refl, refl)
get_or-split_all b (suc i) (c ∷ cs) = get_or-split_all b i cs

get_or-append_left :
    {A : Type 0} (xs ys : List A) (i : ℕ) (d : A)
    → i < length xs
    → get_or (xs ++ ys) i d ≡ get_or xs i d
get_or-append_left [] ys i d h = absurd (omega arith)
get_or-append_left (x ∷ xs) ys zero d h = refl
get_or-append_left (x ∷ xs) ys (suc i) d h = get_or-append_left xs ys i d (omega arith)

get_or-append_right :
    {A : Type 0} (xs ys : List A) (i : ℕ) (d : A)
    → length xs ≤ i
    → get_or (xs ++ ys) i d ≡ get_or ys (i - length xs) d
get_or-append_right [] ys i d h = ap (λ (k : ℕ). get_or ys k d) {x = i} (omega arith)
get_or-append_right (x ∷ xs) ys zero d h = absurd (omega arith)
get_or-append_right (x ∷ xs) ys (suc i) d h =
    get_or-append_right xs ys i d (omega arith)
    ∙ ap (λ (k : ℕ). get_or ys k d) {x = i - length xs} (omega arith)

abbrev pub doubled : List Chain → List Chain
doubled cs = (split_all (length cs) cs).0 ++ (split_all (length cs) cs).1

pub length-doubled : (cs : List Chain) → length (doubled cs) ≡ length cs * 2
length-doubled cs =
    let (lo, hi) = length-split_all (length cs) cs in
    length-append (split_all (length cs) cs).0 (split_all (length cs) cs).1 ∙ omega arith

module _ (cs : List Chain) where
  doubled-low :
      (i : ℕ) → i < length cs → get_or (doubled cs) i [] ≡ (split (length cs) (get_or cs i [])).0
  doubled-low i h =
      get_or-append_left (split_all (length cs) cs).0 (split_all (length cs) cs).1 i []
        (omega (arith, length-split_all (length cs) cs))
      ∙ (get_or-split_all (length cs) i cs).0

  doubled-high :
      (i : ℕ)
      → length cs ≤ i
      → get_or (doubled cs) i [] ≡ (split (length cs) (get_or cs (i - length cs) [])).1
  doubled-high i h =
      let (lo, hi) = length-split_all (length cs) cs in
      get_or-append_right (split_all (length cs) cs).0 (split_all (length cs) cs).1 i []
        (omega arith)
      ∙ ap (λ (k : ℕ). get_or (split_all (length cs) cs).1 k []) {y = i - length cs} (omega arith)
      ∙ (get_or-split_all (length cs) (i - length cs) cs).1

-- the bit decides which half of the new block a hash belongs to
home_half :
    (k q : ℕ)
    → ((bit_and q (2 ^ k) == 0) ≡ true) × (q % (2 ^ k * 2) ≡ q % 2 ^ k)
      ⊎ ((bit_and q (2 ^ k) == 0) ≡ false) × (q % (2 ^ k * 2) ≡ q % 2 ^ k + 2 ^ k)
home_half k q =
    let power : 2 ^ suc k ≡ 2 ^ k * 2 = omega (arith, pow-suc 2 k) in
    let bit : bit_and q (2 ^ k) + q % 2 ^ k ≡ q % (2 ^ k * 2) =
      bit_and_pow k q ∙ ap (λ (m : ℕ). q % m) power in
    let pos : 0 < 2 ^ k = omega (arith, one-le-pow k 2) in
    elim (mod_halves q (2 ^ k) pos) [
      | inl low ↦ inl (ground arith, low)
      | inr high ↦ inr (ground arith, high)
    ]

module _ (k : ℕ) (cs : List Chain) (width : length cs ≡ 2 ^ k) (placed : IsPlaced cs) where
  half :
      (q : ℕ)
      → ((bit_and q (length cs) == 0) ≡ true) × (q % length (doubled cs) ≡ q % length cs)
        ⊎ ((bit_and q (length cs) == 0) ≡ false)
          × (q % length (doubled cs) ≡ q % length cs + length cs)
  half q = rw (length-doubled cs, width) (home_half k q)

  some_chain : 0 < length cs
  some_chain = omega (arith, width, one-le-pow k 2)

  -- every hash is found where it was
  pub view-doubled : (q : ℕ) → view (doubled cs) q ≡ view cs q
  unfolding view
  view-doubled q =
      let inside : q % length cs < length cs = mod-lt q some_chain in
      elim (half q) [
        | inl (bit, home) ↦
            ap (λ (j : ℕ). find q (get_or (doubled cs) j [])) home
            ∙ ap (find q) (doubled-low cs (q % length cs) inside)
            ∙ (find-split (length cs) q (get_or cs (q % length cs) [])).0
            ∙ ground arith
        | inr (bit, home) ↦
            ap (λ (j : ℕ). find q (get_or (doubled cs) j [])) home
            ∙ ap (find q) (doubled-high cs (q % length cs + length cs) (omega arith))
            ∙ (find-split (length cs) q _).1
            ∙ rw bit (ap (λ (j : ℕ). find q (get_or cs j [])) {y = q % length cs} (omega arith))
      ]

  count_low :
      (q i : ℕ)
      → i < length cs
      → count q (get_or (doubled cs) i [])
        ≡ (if bit_and q (length cs) == 0 then count q (get_or cs i []) else 0)
  count_low q i h =
      ap (count q) (doubled-low cs i h) ∙ (count-split (length cs) q (get_or cs i [])).0

  count_high :
      (q i : ℕ)
      → length cs ≤ i
      → count q (get_or (doubled cs) i [])
        ≡ (if bit_and q (length cs) == 0 then 0 else count q (get_or cs (i - length cs) []))
  count_high q i h = ap (count q) (doubled-high cs i h) ∙ (count-split (length cs) q _).1

  pub doubled-IsPlaced : IsPlaced (doubled cs)
  doubled-IsPlaced q i = elim (Bool-cases (ltb i (length cs))) [
    | inl low ↦ ground (arith, count_low q i, placed q i, half q)
    | inr high ↦ ground (arith, count_high q i, placed q (i - length cs), half q)
  ]
