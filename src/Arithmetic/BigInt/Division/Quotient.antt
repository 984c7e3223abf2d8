-- ===== src/Arithmetic/BigInt/Division/Quotient.antt =====
-- The division of arithmetic/big_integer ends, and its results are quotient and remainder.
use mai_fa_sp_4_sem.Base.{
  ℕ, ◌+◌, ◌*◌, ◌<◌, ◌≡◌, ◌≢◌, refl, ap, sym, ◌∙◌, inl, inr, Bool, true, eqb, List, [], ◌∷◌, length,
  arith,
}
use mai_fa_sp_4_sem.Base.Int.{pos}
use mai_fa_sp_4_sem.Arithmetic.Digits.Value.{value, AllDigits}
use mai_fa_sp_4_sem.Arithmetic.BigInt.{BigInt, optimise, positive}
use mai_fa_sp_4_sem.Arithmetic.BigInt.Value.{signed, mag, to_ℤ, IsValid}
use mai_fa_sp_4_sem.Arithmetic.BigInt.Sums.{
  Is, optimise-Is, less_mag, zero_or_not, positive-IsValid,
}
use mai_fa_sp_4_sem.Arithmetic.BigInt.Division.{done, divide_assign, modulo_assign}
use mai_fa_sp_4_sem.Arithmetic.BigInt.Division.Rounds.{divide_digits-Rounds}

-- Quotient and remainder by absolute values: the quotient has the product's sign, the remainder is
-- never negative.
pub record Divides (a b q r : BigInt) : Type 0 where
  pub quotient : Is q (signed (eqb a.sign b.sign) (mag q))
  pub remainder : Is r (pos (mag r))
  pub sum : mag a ≡ mag b * mag q + mag r
  pub small : mag r < mag b

signed_size : (q : BigInt) (s : Bool) (n : ℕ) → to_ℤ q ≡ signed s n → mag q ≡ n
signed_size q s n e = ground arith

quotient-of :
    (a b : BigInt) (ds : List ℕ) (s : Bool)
    → AllDigits ds
    → 0 < length ds
    → signed s (value ds) ≡ signed (eqb a.sign b.sign) (value ds)
    → let q = optimise (record { sign = s; digits = ds }) in
      Is q (signed (eqb a.sign b.sign) (mag q)) × (mag q ≡ value ds)
quotient-of a b ds s h k e =
    let q = optimise (record { sign = s; digits = ds }) in
    let (valid, i) = optimise-Is s ds (signed s (value ds)) h k refl in
    let m = signed_size q s (value ds) i in
    ((valid, i ∙ e ∙ ap (signed (eqb a.sign b.sign)) (sym m)), m)

zero_signed : (s t : Bool) (n : ℕ) → n ≡ 0 → signed s n ≡ signed t n
zero_signed s t n h = ground arith

-- Division and remainder of valid numbers end, for every divisor other than zero, and what they
-- leave are quotient and remainder.
pub divide_assign-Divides :
    (a b : BigInt)
    → IsValid a
    → IsValid b
    → mag b ≢ 0
    → (q : BigInt) × (r : BigInt) × (divide_assign a b ≡ done q)
      × (modulo_assign a b ≡ done r)
      × Divides a b q r
unfolding divide_assign modulo_assign
divide_assign-Divides a b h k ne = elim (zero_or_not a h) [
  | inl (zero_a, e) ↦ rw zero_a (
    a,
    a,
    refl,
    refl,
    record {
      quotient = (h, zero_signed a.sign (eqb a.sign b.sign) (mag a) e);
      remainder = (h, zero_signed a.sign true (mag a) e);
      sum = grind arith;
      small = omega arith;
    },
  )
  | inr (a_not, na) ↦ elim (zero_or_not b k) [
    | inl (zero_b, e) ↦ absurd (ne e)
    | inr (b_not, nb) ↦ elim (less_mag a b (positive-IsValid a h) (positive-IsValid b k)) [
      | inl (less, lt) ↦
          rw (a_not, b_not, less)
            (let (q_is, q_size) =
                quotient-of a b (0 ∷ []) a.sign (omega arith, tt) (omega arith)
                  (zero_signed a.sign (eqb a.sign b.sign) (value (0 ∷ [])) (omega arith)) in
              (
                _,
                positive a,
                refl,
                refl,
                record {
                  quotient = q_is;
                  remainder = (positive-IsValid a h, refl);
                  sum = grind (arith, q_size);
                  small = lt;
                },
              ))
      | inr (more, le) ↦
          rw (a_not, b_not, more)
            (let rs =
                divide_digits-Rounds (positive b) (mag b) a.digits
                  (record { valid = positive-IsValid b k; sign = refl; size = refl }) (omega arith)
                  h.digits in
              let (q_is, q_size) =
                quotient-of a b rs.quotient (eqb a.sign b.sign) rs.digits
                  (omega (arith, rs.size, h.some_digit)) refl in
              let (r_valid, r_is) =
                optimise-Is true rs.remain.digits (pos rs.left_over) rs.holds.valid.digits
                  rs.holds.valid.some_digit (ap pos rs.holds.size) in
              let r_size =
                signed_size (optimise (record { sign = true; digits = rs.remain.digits })) true
                  rs.left_over r_is in
              rw rs.ends (
                _,
                _,
                refl,
                refl,
                record {
                  quotient = q_is;
                  remainder = (r_valid, r_is ∙ ap pos (sym r_size));
                  sum = grind (arith, rs.divides, q_size, r_size);
                  small = omega (arith, rs.small, r_size);
                },
              ))
    ]
  ]
]
