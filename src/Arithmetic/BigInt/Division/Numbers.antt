-- ===== src/Arithmetic/BigInt/Division/Numbers.antt =====
-- Numbers of arithmetic/big_integer that are not negative, by what they stand for.
use mai_fa_sp_4_sem.Base.{
  ℕ, ◌-◌, ◌*◌, ◌^◌, ◌≤◌, ◌<◌, ◌≡◌, ap, ap₂, sym, subst, ◌∙◌, ◌⊎◌, true, false, some, [], ◌∷◌, ◌++◌,
  length, arith,
}
use mai_fa_sp_4_sem.Base.Int.{pos, ◌-ℤ◌, ◌*ℤ◌}
use mai_fa_sp_4_sem.Arithmetic.Digits.Value.{value, AllDigits}
use mai_fa_sp_4_sem.Arithmetic.BigInt.{
  BigInt, number_digits, of_number, spaceship, is_less, minus_assign, multiply_assign,
}
use mai_fa_sp_4_sem.Arithmetic.BigInt.Value.{signed, mag, to_ℤ, IsValid, spaceship-compare_ℤ}
use mai_fa_sp_4_sem.Arithmetic.BigInt.Sums.{Is, optimise-Is, minus_assign-Is, multiply_assign-Is}

-- A valid number that is not negative.
pub record Holds (a : BigInt) (n : ℕ) : Type 0 where
  pub valid : IsValid a
  pub sign : a.sign ≡ true
  pub size : mag a ≡ n

pub Holds-of : (a : BigInt) (n : ℕ) → Is a (pos n) → Holds a n
Holds-of a n (h, e) = record {
  valid = h;
  sign = ground (arith, h.one_zero);
  size = ground (arith, h.one_zero);
}

number_digits-lem :
    (n : ℕ)
    → n < 2 ^ 64
    → (value (number_digits 2 n ++ 0 ∷ []) ≡ n)
      × AllDigits (number_digits 2 n ++ 0 ∷ [])
      × (0 < length (number_digits 2 n ++ 0 ∷ []))
unfolding number_digits
number_digits-lem n h = ground arith

pub of_number-Holds : (n : ℕ) → n < 2 ^ 64 → Holds (of_number n) n
of_number-Holds n h =
    let (v, k, l) = number_digits-lem n h in
    Holds-of (of_number n) n (optimise-Is true (number_digits 2 n ++ 0 ∷ []) (pos n) k l (ap pos v))

pub to_ℤ-Holds : (a : BigInt) (n : ℕ) → Holds a n → to_ℤ a ≡ pos n
to_ℤ-Holds a n h = subst (λ s. signed s (mag a) ≡ pos n) (sym h.sign) (ap pos h.size)

pos_times : (k n : ℕ) → pos k *ℤ pos n ≡ pos (k * n)
unfolding ◌*ℤ◌
pos_times k n = ground arith

pos_minus : (k n : ℕ) → n ≤ k → pos k -ℤ pos n ≡ pos (k - n)
unfolding ◌-ℤ◌
pos_minus k n h = ground arith

pub times :
    (o : BigInt) (k n : ℕ)
    → Holds o k
    → n < 2 ^ 64
    → (c : BigInt) × (multiply_assign o (of_number n) ≡ some c) × Holds c (k * n)
times o k n h lt =
    let num = of_number-Holds n lt in
    let (c, e, is) = multiply_assign-Is o (of_number n) h.valid num.valid in
    (
      c,
      e,
      Holds-of c (k * n) (
        is.0,
        is.1
            ∙ ap₂ (λ x y. x *ℤ y) (to_ℤ-Holds o k h) (to_ℤ-Holds (of_number n) n num)
            ∙ pos_times k n,
      ),
    )

pub minus :
    (a b : BigInt) (k n : ℕ) → Holds a k → Holds b n → n ≤ k → Holds (minus_assign a b 0) (k - n)
minus a b k n h l le =
    let (valid, e) = minus_assign-Is a b h.valid l.valid in
    Holds-of (minus_assign a b 0) (k - n)
      (valid, e ∙ ap₂ (λ x y. x -ℤ y) (to_ℤ-Holds a k h) (to_ℤ-Holds b n l) ∙ pos_minus k n le)

-- The comparison of numbers that are not negative.
pub less :
    (a b : BigInt) (k n : ℕ)
    → Holds a k
    → Holds b n
    → (is_less (spaceship a b) ≡ true) × (k < n) ⊎ (is_less (spaceship a b) ≡ false) × (n ≤ k)
less a b k n h l =
    ground (arith, spaceship-compare_ℤ a b h.valid l.valid, to_ℤ-Holds a k h, to_ℤ-Holds b n l)
