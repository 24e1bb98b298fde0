-- ===== src/Numbers/Power/Squaring.antt =====
-- Repeated squaring ends, and computes the power.
use chloride.Base.{
  ℕ, zero, suc, ◌*◌, ◌/◌, ◌%◌, ◌≤◌, ◌≡◌, ◌≢◌, ◌==◌, bit_and, Bool-cases, true, false, Option,
  Option-cases, none, some, if◌then◌else◌, refl, sym, ap, ap₂, ◌∙◌, arith, inl, inr,
}
use chloride.Base.Bits.{bit_and_mask}
use chloride.Base.Int.{ℤ, pos, ◌*ℤ◌, fits_int64}
use chloride.Base.Int.Laws.{*ℤ_assoc, *ℤ_comm, *ℤ_one}
use chloride.Base.Run.{ok, Returns}
use chloride.Numbers.{Gmp, Laws}
use chloride.Numbers.Power.{mul_overflow, when_odd, power_loop, mpq_power_loop}

-- an integer to the power of a natural number
unfoldable pub power : ℤ → ℕ → ℤ
power a zero = pos 1
power a (suc n) = power a n *ℤ a

-- the power of a square
power-square : (a : ℤ) (h : ℕ) → power (a *ℤ a) h ≡ power a (h * 2)
unfolding power
power-square a zero = refl
power-square a (suc h) =
    ap (λ (t : ℤ). t *ℤ (a *ℤ a)) (power-square a h)
    ∙ sym (*ℤ_assoc (power a (h * 2)) a a)
    ∙ ap (power a) {x = suc (suc (h * 2))} (omega arith)

odd_digit : (e : ℕ) → bit_and e 1 ≡ e % 2
odd_digit e = bit_and_mask 1 e

-- one round keeps `result * a ^ e`
pub round :
    (result a : ℤ) (e : ℕ)
    → when_odd e (result *ℤ a) result *ℤ power (a *ℤ a) (e / 2) ≡ result *ℤ power a e
unfolding power
round result a e = elim (Bool-cases (bit_and e 1 == 1)) [
  | inl odd ↦
      let split : e ≡ suc (e / 2 * 2) = ground (arith, odd_digit e) in
      rw (odd, power-square)
        (*ℤ_assoc result a (power a (e / 2 * 2))
          ∙ ap (λ (t : ℤ). result *ℤ t)
              (*ℤ_comm a (power a (e / 2 * 2)) ∙ ap (power a) (sym split)))
  | inr even ↦
      let split : e / 2 * 2 ≡ e = ground (arith, odd_digit e) in rw (even, power-square, split)
]

-- What the loop on int64_t leaves: the power, in the range, or an overflow, which takes a round.
abbrev pub Powered : ℤ → ℤ → ℕ → Option ℤ → Type 0
Powered result a e none = e ≢ 0
Powered result a e (some n) = (n ≡ result *ℤ power a e) × (fits_int64 n ≡ true)

mul_overflow-some : (a b n : ℤ) → mul_overflow a b ≡ some n → (n ≡ a *ℤ b) × (fits_int64 n ≡ true)
unfolding mul_overflow
mul_overflow-some a b n h = elim (Bool-cases (fits_int64 (a *ℤ b))) [
  | inl fits ↦ let same : a *ℤ b ≡ n = ground arith in (sym same, ap fits_int64 (sym same) ∙ fits)
  | inr large ↦ absurd (ground arith)
]

-- the first step of a round
odd_step :
    (result a : ℤ) (e : ℕ) (n : ℤ)
    → fits_int64 result ≡ true
    → when_odd e (mul_overflow result a) (some result) ≡ some n
    → (n ≡ when_odd e (result *ℤ a) result) × (fits_int64 n ≡ true)
odd_step result a e n h step = elim (Bool-cases (bit_and e 1 == 1)) [
  | inl odd ↦ rw odd (mul_overflow-some result a n (rw odd at step))
  | inr even ↦
      let same : some result ≡ some n = rw even at step in
      let equal : result ≡ n = ground arith in rw even (sym equal, ap fits_int64 (sym equal) ∙ h)
]

-- the second step, whose square is used by a further round alone
square_step :
    (a b : ℤ) (h : ℕ)
    → (if h == 0 then some a else mul_overflow a a) ≡ some b
    → power b h ≡ power (a *ℤ a) h
unfolding power
square_step a b zero step = refl
square_step a b (suc h) step =
    let more : suc h == 0 ≡ false = ground arith in
    ap (λ (t : ℤ). power t (suc h)) ((mul_overflow-some a a b (rw more at step)).0)

-- what the later rounds leave is what this round leaves
Powered-round :
    (result a : ℤ) (e : ℕ) (n b : ℤ) (o : Option ℤ)
    → e ≢ 0
    → n ≡ when_odd e (result *ℤ a) result
    → power b (e / 2) ≡ power (a *ℤ a) (e / 2)
    → Powered n b (e / 2) o
    → Powered result a e o
Powered-round result a e n b none more first second rest = more
Powered-round result a e n b (some m) more first second (value, fits) =
    (value ∙ ap₂ (λ (s t : ℤ). s *ℤ t) first second ∙ round result a e, fits)

pub power_loop-Returns :
    (fuel : ℕ) (result a : ℤ) (e : ℕ)
    → e ≤ fuel
    → fits_int64 result ≡ true
    → Returns (power_loop fuel result a e) (Powered result a e)
unfolding power_loop power
power_loop-Returns zero result a zero le h = (some result, refl, (sym (*ℤ_one result), h))
power_loop-Returns zero result a (suc e) le h = absurd (omega arith)
power_loop-Returns (suc fuel) result a e le h = elim (Bool-cases (e == 0)) [
  | inl done ↦
      let last : e ≡ 0 = ground arith in
      rw (power_loop, done)
        (
          some result,
          refl,
          (sym (*ℤ_one result) ∙ ap (λ (k : ℕ). result *ℤ power a k) (sym last), h),
        )
  | inr more ↦
      let later : e ≢ 0 = ground arith in
      elim (Option-cases (when_odd e (mul_overflow result a) (some result))) [
        | inl over ↦ rw (power_loop, more, over) (none, refl, later)
        | inr (n, step) ↦ elim (Option-cases (if e / 2 == 0 then some a else mul_overflow a a)) [
          | inl over ↦ rw (power_loop, more, step, over) (none, refl, later)
          | inr (b, square) ↦
              let (first, fits) = odd_step result a e n h step in
              let (o, runs, rest) = power_loop-Returns fuel n b (e / 2) (ground arith) fits in
              rw (power_loop, more, step, square)
                (
                  o,
                  runs,
                  Powered-round result a e n b o later first (square_step a b (e / 2) square) rest,
                )
        ]
      ]
]

module _ {Q : Type 0} (gmp : Gmp Q) (laws : Laws gmp) where
  whole_step :
      (r t : ℤ) (e : ℕ)
      → when_odd e
          (gmp.mul (gmp.canonical r (pos 1)) (gmp.canonical t (pos 1)))
          (gmp.canonical r (pos 1))
        ≡ gmp.canonical (when_odd e (r *ℤ t) r) (pos 1)
  whole_step r t e = elim (Bool-cases (bit_and e 1 == 1)) [
    | inl odd ↦ rw odd (laws.mul_of r t)
    | inr even ↦ rw even
  ]

  -- the loop of mpq_pow_z on whole numbers
  pub mpq_power_loop-whole :
      (fuel : ℕ) (r t : ℤ) (e : ℕ)
      → e ≤ fuel
      → mpq_power_loop gmp fuel (gmp.canonical r (pos 1)) (gmp.canonical t (pos 1)) e
        ≡ ok (gmp.canonical (r *ℤ power t e) (pos 1))
  unfolding mpq_power_loop power
  mpq_power_loop-whole zero r t zero le = rw *ℤ_one
  mpq_power_loop-whole zero r t (suc e) le = absurd (omega arith)
  mpq_power_loop-whole (suc fuel) r t e le = elim (Bool-cases (e == 0)) [
    | inl done ↦
        let last : e ≡ 0 = ground arith in
        rw (mpq_power_loop, done, ap (λ (k : ℕ). r *ℤ power t k) last, *ℤ_one)
    | inr more ↦
        rw (mpq_power_loop, more, whole_step, laws.mul_of)
          (mpq_power_loop-whole fuel (when_odd e (r *ℤ t) r) (t *ℤ t) (e / 2) (ground arith)
            ∙ ap (λ (n : ℤ). ok (gmp.canonical n (pos 1))) (round r t e))
  ]
