-- ===== src/Numbers/Built.antt =====
-- The number objects that the constructors of src/runtime/objects/number/number.c build are normal: a
-- rational object never holds an integer of the range of int64_t.
use chloride.Base.{
  Bool, Bool-cases, Option-cases, true, not, none, some, ◌≡◌, refl, sym, ap, ◌∙◌, arith, inl, inr,
}
use chloride.Base.Int.{
  ℤ, pos, ◌+ℤ◌, ◌-ℤ◌, eqb_ℤ, fits_int64, pos_part, eqb_ℤ→eq, eq_of_parts, +ℤ_parts, -ℤ_parts,
  one_part,
}
use chloride.Numbers.{
  Gmp, Laws, Number, int64, rational, NumberObject, to_bool, is_small, small_ints, small_ints_min,
  new_number_object_from_int64, new_number_object, mpq_to_int64, mpq_set_si64, to_mpq, from_mpq,
}

module _ {Q : Type 0} (gmp : Gmp Q) where
  -- an int64_t in its range, or a rational number that is no such integer
  abbrev pub IsNormal : Number Q → Type 0
  IsNormal (int64 n) = fits_int64 n ≡ true
  IsNormal (rational q) = mpq_to_int64 gmp q ≡ none

  -- what the field `as_bool` of a number object says
  abbrev pub truth : Number Q → Bool
  truth (int64 n) = to_bool n
  truth (rational q) = not (eqb_ℤ (gmp.sgn q) (pos 0))

  -- the object is normal and its value is this rational number
  pub record Represents (o : NumberObject Q) (q : Q) : Type 0 where
    pub normal : IsNormal o.as_number
    pub value : to_mpq gmp o.as_number ≡ q
    pub flag : o.as_bool ≡ truth o.as_number

-- the shared object of a small integer is the one that would be built
pub small_ints-index :
    {Q : Type 0} (n : ℤ)
    → is_small n ≡ true
    → small_ints {Q = Q} (pos_part (n -ℤ small_ints_min))
      ≡ record { as_number = int64 n; as_bool = to_bool n }
unfolding small_ints
small_ints-index {Q} n h =
    let back : pos (pos_part (n -ℤ small_ints_min)) +ℤ small_ints_min ≡ n =
      eq_of_parts (pos (pos_part (n -ℤ small_ints_min)) +ℤ small_ints_min) n (
        ground (
          arith,
          -ℤ_parts n small_ints_min,
          one_part (n -ℤ small_ints_min),
          +ℤ_parts (pos (pos_part (n -ℤ small_ints_min))) small_ints_min,
        )) in
    let object : ℤ → NumberObject Q = λ m. record { as_number = int64 m; as_bool = to_bool m } in
    ap object back

pub new_number_object_from_int64-eq :
    {Q : Type 0} (n : ℤ)
    → new_number_object_from_int64 {Q = Q} n ≡ record { as_number = int64 n; as_bool = to_bool n }
unfolding new_number_object_from_int64
new_number_object_from_int64-eq n = elim (Bool-cases (is_small n)) [
  | inl small ↦ rw small (small_ints-index n small)
  | inr large ↦ rw large
]

module _ {Q : Type 0} (gmp : Gmp Q) where
  pub from_int64-Represents :
      (n : ℤ)
      → fits_int64 n ≡ true
      → Represents gmp (new_number_object_from_int64 n) (gmp.canonical n (pos 1))
  unfolding to_mpq mpq_set_si64
  from_int64-Represents n h =
      rw (new_number_object_from_int64-eq {Q = Q} n)
        (record { normal = h; value = refl; flag = refl })

  -- the integer that a rational number holds
  to_int64-some :
      (laws : Laws gmp) (q : Q) (n : ℤ)
      → mpq_to_int64 gmp q ≡ some n
      → (fits_int64 n ≡ true) × (gmp.canonical n (pos 1) ≡ q)
  unfolding mpq_to_int64
  to_int64-some laws q n h = elim (Bool-cases (eqb_ℤ (gmp.den q) (pos 1))) [
    | inr fraction ↦ absurd (ground arith)
    | inl unit ↦ elim (Bool-cases (fits_int64 (gmp.num q))) [
      | inr large ↦ absurd (ground arith)
      | inl fits ↦
          let same : gmp.num q ≡ n = ground arith in
          (
            ap fits_int64 (sym same) ∙ fits,
            ap (λ (m : ℤ). gmp.canonical m (pos 1)) (sym same)
                ∙ laws.whole q (eqb_ℤ→eq (gmp.den q) (pos 1) unit),
          )
    ]
  ]

  pub new_number_object-Represents :
      (laws : Laws gmp) (q : Q) → Represents gmp (new_number_object gmp q) q
  unfolding new_number_object to_mpq mpq_set_si64
  new_number_object-Represents laws q = elim (Option-cases (mpq_to_int64 gmp q)) [
    | inl other ↦ rw other (record { normal = other; value = refl; flag = refl })
    | inr (n, held) ↦
        let (fits, same) = to_int64-some laws q n held in
        let built : from_mpq gmp q (some n) ≡ record { as_number = int64 n; as_bool = to_bool n } =
          elim (Bool-cases (is_small n)) [
            | inl small ↦ rw small (small_ints-index n small)
            | inr large ↦ rw large
          ] in
        rw (held, built) (record { normal = fits; value = same; flag = refl })
  ]
