-- ===== src/Tests/Fractions.antt =====
-- A concrete arithmetic of fractions in the place of GMP, which meets what the numbers rely on. A
-- fraction is reduced where its denominator divides it.
use chloride.Base.{
  ℕ, zero, suc, Bool-cases, true, not, ◌&&◌, if◌then◌else◌, ◌≡◌, ◌≢◌, refl, sym, ap, ap₂, ◌∙◌, inl,
  inr, arith,
}
use native.Mathlib.Nat.{div-one, mod-one, mul-one}
use chloride.Base.Int.{
  ℤ, pos, negsuc, neg_of, ◌+ℤ◌, ◌-ℤ◌, ◌*ℤ◌, neg_ℤ, quot, rem, eqb_ℤ, ltb_ℤ, eqb_ℤ→eq, -ℤ_parts,
  eq_of_parts, neg_ℤ_parts,
}
use chloride.Base.Int.Laws.{*ℤ_one}
use chloride.Numbers.{Gmp, Laws, sign_of}

pub record Fraction : Type 0 where
  pub num : ℤ
  pub den : ℤ

unfoldable pub canonical : ℤ → ℤ → Fraction
canonical n (pos (suc (suc d))) =
    if eqb_ℤ (rem n (pos (suc (suc d)))) (pos 0)
    then record { num = quot n (pos (suc (suc d))); den = pos 1 }
    else record { num = n; den = pos (suc (suc d)) }
canonical n d = record { num = n; den = d }

unfoldable pub divide : Fraction → Fraction → Fraction
divide p q = elim q.num [
  | pos zero ↦ p
  | pos (suc n) ↦ canonical (p.num *ℤ q.den) (pos (suc n) *ℤ p.den)
  | negsuc n ↦ canonical (neg_ℤ p.num *ℤ q.den) (pos (suc n) *ℤ p.den)
]

unfoldable pub compare_fractions : Fraction → Fraction → ℤ
compare_fractions p q = sign_of (p.num *ℤ q.den -ℤ q.num *ℤ p.den)

-- zero is the fraction 0 / 1 alone
unfoldable pub sign : Fraction → ℤ
sign q = if eqb_ℤ q.num (pos 0) && not (eqb_ℤ q.den (pos 1)) then pos 1 else sign_of q.num

abbrev pub fractions : Gmp Fraction
fractions = record {
  canonical = canonical;
  num = λ q. q.num;
  den = λ q. q.den;
  add = λ p q. canonical (p.num *ℤ q.den +ℤ q.num *ℤ p.den) (p.den *ℤ q.den);
  sub = λ p q. canonical (p.num *ℤ q.den -ℤ q.num *ℤ p.den) (p.den *ℤ q.den);
  mul = λ p q. canonical (p.num *ℤ q.num) (p.den *ℤ q.den);
  div = divide;
  inv = λ q. divide (record { num = pos 1; den = pos 1 }) q;
  neg = λ q. record { num = neg_ℤ q.num; den = q.den };
  cmp = compare_fractions;
  cmp_ui = λ q n. compare_fractions q (canonical (pos n) (pos 1));
  sgn = sign;
  fdiv_q = λ a b. if ltb_ℤ (rem a b) (pos 0) then quot a b -ℤ pos 1 else quot a b;
  root = λ q p r. q;
}

sign_of-neg : (d : ℤ) → sign_of (neg_ℤ d) ≡ neg_ℤ (sign_of d)
unfolding neg_ℤ
sign_of-neg (pos zero) = refl
sign_of-neg (pos (suc n)) = refl
sign_of-neg (negsuc n) = refl

sign_of-swap : (a b : ℤ) → sign_of (a -ℤ b) ≡ neg_ℤ (sign_of (b -ℤ a))
sign_of-swap a b =
    ap sign_of {x = a -ℤ b} {y = neg_ℤ (b -ℤ a)} (
      eq_of_parts (a -ℤ b) (neg_ℤ (b -ℤ a))
        (omega (arith, -ℤ_parts a b, -ℤ_parts b a, neg_ℤ_parts (b -ℤ a))))
    ∙ sign_of-neg (b -ℤ a)

quot_one : (m : ℤ) → quot m (pos 1) ≡ m
unfolding quot
quot_one (pos n) = rw div-one
quot_one (negsuc n) = rw div-one

rem_one : (m : ℤ) → rem m (pos 1) ≡ pos 0
unfolding rem
rem_one (pos n) = ap pos (mod-one n)
rem_one (negsuc n) = ap neg_of (mod-one (suc n))

canonical-exact :
    (m : ℤ) (d : ℕ)
    → rem m (pos (suc d)) ≡ pos 0
    → canonical m (pos (suc d)) ≡ record { num = quot m (pos (suc d)); den = pos 1 }
unfolding canonical
canonical-exact m zero h = rw quot_one
canonical-exact m (suc d) h = rw h

canonical-inexact :
    (m : ℤ) (d : ℕ) → rem m (pos (suc d)) ≢ pos 0 → (canonical m (pos (suc d))).den ≢ pos 1
unfolding canonical
canonical-inexact m zero h e = h (rem_one m)
canonical-inexact m (suc d) h e = elim (Bool-cases (eqb_ℤ (rem m (pos (suc (suc d)))) (pos 0))) [
  | inl whole ↦ h (eqb_ℤ→eq (rem m (pos (suc (suc d)))) (pos 0) whole)
  | inr other ↦ absurd (ground arith)
]

sign-zero : (q : Fraction) → eqb_ℤ (sign q) (pos 0) ≡ true → (q.num ≡ pos 0) × (q.den ≡ pos 1)
unfolding sign
sign-zero q h = elim (Bool-cases (eqb_ℤ q.num (pos 0))) [
  | inl zero_num ↦ elim (Bool-cases (eqb_ℤ q.den (pos 1))) [
    | inl unit ↦ (eqb_ℤ→eq q.num (pos 0) zero_num, eqb_ℤ→eq q.den (pos 1) unit)
    | inr other ↦ absurd (ground arith)
  ]
  | inr other ↦ absurd (ground (arith, sign_of-zero q.num))
]
  where
    sign_of-zero : (d : ℤ) → eqb_ℤ (sign_of d) (pos 0) ≡ eqb_ℤ d (pos 0)
    sign_of-zero (pos zero) = refl
    sign_of-zero (pos (suc n)) = ground arith
    sign_of-zero (negsuc n) = ground arith

pub fractions-Laws : Laws fractions
unfolding canonical divide compare_fractions sign ◌*ℤ◌
fractions-Laws = record {
  num_of = λ n. refl;
  den_of = λ n. refl;
  whole = λ q h. ap (λ (d : ℤ). record { num = q.num; den = d }) (sym h);
  add_of = λ m n. rw (*ℤ_one m, *ℤ_one n);
  sub_of = λ m n. rw (*ℤ_one m, *ℤ_one n);
  mul_of = λ m n. refl;
  neg_of = λ n. refl;
  sgn_of = λ q h.
      let (zero_num, unit) = sign-zero q h in
      ap₂ (λ (n d : ℤ). record { num = n; den = d }) zero_num unit;
  sgn_pos = λ n. ground arith;
  sgn_zero = refl;
  cmp_of = λ m n. rw (*ℤ_one m, *ℤ_one n);
  cmp_swap = λ p q. sign_of-swap (p.num *ℤ q.den) (q.num *ℤ p.den);
  cmp_ui_of = λ q n. refl;
  div_of = λ m d. rw (*ℤ_one m, mul-one (suc d));
  div_of_neg = λ m d. rw (*ℤ_one (neg_ℤ m), mul-one (suc d));
  exact = canonical-exact;
  inexact = canonical-inexact;
}
