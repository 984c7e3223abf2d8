-- ===== src/Arithmetic/BigInt/Sums.antt =====
-- The sums, differences and products of arithmetic/big_integer are those of the integers.
use Prim.Native.Nat.{max}
use mai_fa_sp_4_sem.Base.{
  ℕ, zero, suc, ◌+◌, ◌*◌, ◌≤◌, ◌<◌, ◌≡◌, ◌≢◌, refl, ap, sym, ◌∙◌, ◌⊎◌, inl, inr, Bool, true, false,
  not, eqb, some, List, [], ◌∷◌, length, replicate, length-replicate, arith, Bool-cases,
}
use mai_fa_sp_4_sem.Base.Int.{ℤ, pos, ◌+ℤ◌, ◌-ℤ◌, ◌*ℤ◌}
use mai_fa_sp_4_sem.Arithmetic.Digits.{add_loop, sub_loop}
use mai_fa_sp_4_sem.Arithmetic.Digits.Value.{
  value, AllDigits, value-add_loop, add_loop-AllDigits, value-sub_loop, sub_loop-AllDigits,
}
use mai_fa_sp_4_sem.Arithmetic.Digits.Product.{bound-positive, mul_rows-Holds}
use mai_fa_sp_4_sem.Arithmetic.BigInt.{
  BigInt, is_zero, optimise, positive, spaceship, is_less, shift_left, plus_same, minus_same,
  plus_assign, minus_assign, multiply_assign,
}
use mai_fa_sp_4_sem.Arithmetic.BigInt.Value.{
  signed, mag, to_ℤ, IsValid, is_zero_lem, optimise-IsValid, to_ℤ-optimise, spaceship-compare_ℤ,
}

-- A valid number that stands for the integer.
abbrev pub Is : BigInt → ℤ → Type 0
Is a x = IsValid a × (to_ℤ a ≡ x)

pub optimise-Is :
    (s : Bool) (ds : List ℕ) (x : ℤ)
    → AllDigits ds
    → 0 < length ds
    → signed s (value ds) ≡ x
    → Is (optimise (record { sign = s; digits = ds })) x
optimise-Is s ds x h k e =
    let a : BigInt = record { sign = s; digits = ds } in
    (optimise-IsValid a h k, to_ℤ-optimise a h k ∙ e)

length-add_loop :
    (n : ℕ) (as' bs : List ℕ) (carry : ℕ) → 0 < n → 0 < length (add_loop n as' bs carry)
unfolding add_loop
length-add_loop zero as' bs carry h = absurd (omega arith)
length-add_loop (suc n) as' bs carry h = omega arith

length-sub_loop :
    (n : ℕ) (as' bs : List ℕ) (carry : ℕ) → 0 < n → 0 < length (sub_loop n as' bs carry)
unfolding sub_loop
length-sub_loop zero as' bs carry h = absurd (omega arith)
length-sub_loop (suc n) as' bs carry h = ground arith

pub positive-IsValid : (a : BigInt) → IsValid a → IsValid (positive a)
positive-IsValid a h = record {
  digits = h.digits;
  some_digit = h.some_digit;
  no_zero = h.no_zero;
  one_zero = λ e. refl;
}

plus_same-Is :
    (a b : BigInt)
    → IsValid a
    → AllDigits b.digits
    → a.sign ≡ b.sign
    → Is (plus_same a b 0) (to_ℤ a +ℤ to_ℤ b)
unfolding plus_same ◌+ℤ◌
plus_same-Is a b h k e =
    let n = max (length a.digits) (length b.digits + 0) in
    let carried = h.some_digit in
    optimise-Is a.sign (add_loop n a.digits b.digits 0) _
      (add_loop-AllDigits n a.digits b.digits 0 h.digits k (omega arith))
      (length-add_loop n a.digits b.digits 0 (omega arith))
      (ground (arith, value-add_loop n a.digits b.digits 0 (omega arith) (omega arith)))

shift_left-zero : (a : BigInt) → shift_left a 0 ≡ a
unfolding shift_left
shift_left-zero a = ground arith

-- The order of the absolute values.
pub less_mag :
    (a b : BigInt)
    → IsValid (positive a)
    → IsValid (positive b)
    → (is_less (spaceship (positive a) (positive b)) ≡ true) × (mag a < mag b)
      ⊎ (is_less (spaceship (positive a) (positive b)) ≡ false) × (mag b ≤ mag a)
less_mag a b h k = ground (arith, spaceship-compare_ℤ (positive a) (positive b) h k)

minus_same-Is :
    (a b : BigInt)
    → IsValid a
    → IsValid (positive b)
    → Is (minus_same a b 0) (to_ℤ a -ℤ signed a.sign (mag b))
unfolding minus_same ◌-ℤ◌
minus_same-Is a b h k =
    rw (shift_left-zero (positive b)) (elim (less_mag a b (positive-IsValid a h) k) [
      | inl (less, lt) ↦ rw less (
          optimise-Is (not a.sign) (sub_loop n b.digits a.digits 0) _
            (sub_loop-AllDigits n b.digits a.digits 0 k.digits h.digits)
            (length-sub_loop n b.digits a.digits 0 (omega (arith, h.some_digit)))
            (ground (
              arith,
              value-sub_loop n b.digits a.digits 0 (omega arith) (omega arith) k.digits h.digits
                  (omega arith) (omega arith),
            )))
      | inr (more, le) ↦ rw more (
          optimise-Is a.sign (sub_loop n a.digits b.digits 0) _
            (sub_loop-AllDigits n a.digits b.digits 0 h.digits k.digits)
            (length-sub_loop n a.digits b.digits 0 (omega (arith, h.some_digit)))
            (ground (
              arith,
              value-sub_loop n a.digits b.digits 0 (omega arith) (omega arith) h.digits k.digits
                  (omega arith) (omega arith),
            )))
    ])
  where
    n : ℕ
    n = max (length a.digits) (length b.digits)

-- Once more `optimise` changes nothing that counts.
optimise-again : (a : BigInt) (x : ℤ) → Is a x → Is (optimise a) x
optimise-again a x (h, e) = optimise-Is a.sign a.digits x h.digits h.some_digit e

pub zero_or_not :
    (a : BigInt) → IsValid a → (is_zero a ≡ true) × (mag a ≡ 0) ⊎ (is_zero a ≡ false) × (mag a ≢ 0)
zero_or_not a h = is_zero_lem a h.some_digit h.no_zero

signed_zero : (s : Bool) (n : ℕ) → n ≡ 0 → signed s n ≡ pos 0
signed_zero s n h = ground arith

add_zero : (x : ℤ) → x ≡ x +ℤ pos 0
unfolding ◌+ℤ◌
add_zero x = ground arith

sub_zero : (x : ℤ) → x ≡ x -ℤ pos 0
unfolding ◌-ℤ◌
sub_zero x = ground arith

signed_opposite :
    (x : ℤ) (s t : Bool) (n : ℕ)
    → eqb s t ≡ false
    → (x -ℤ signed s n ≡ x +ℤ signed t n) × (x +ℤ signed s n ≡ x -ℤ signed t n)
unfolding ◌+ℤ◌ ◌-ℤ◌
signed_opposite x s t n h = ground arith

eqb_sound : (s t : Bool) → eqb s t ≡ true → s ≡ t
eqb_sound s t h = ground arith

-- The other number with the first one's sign.
abbrev resigned : BigInt → BigInt → BigInt
resigned a b = record b { sign = a.sign }

-- `+=` on valid numbers is the sum of the integers, in its one representation.
pub plus_assign-Is :
    (a b : BigInt) → IsValid a → IsValid b → Is (plus_assign a b 0) (to_ℤ a +ℤ to_ℤ b)
unfolding plus_assign
plus_assign-Is a b h k = elim (zero_or_not b k) [
  | inl (zero_b, e) ↦
      rw zero_b (h, add_zero (to_ℤ a) ∙ ap (λ y. to_ℤ a +ℤ y) (sym (signed_zero b.sign (mag b) e)))
  | inr (other, ne) ↦ elim (Bool-cases (eqb a.sign b.sign)) [
    | inl same ↦ rw (other, same) (plus_same-Is a b h k.digits (eqb_sound a.sign b.sign same))
    | inr opposite ↦
        (let d = minus_same-Is a (resigned a b) h (positive-IsValid b k) in
          rw (other, opposite)
            (optimise-again (minus_same a (resigned a b) 0) _
              (d.0, d.1 ∙ (signed_opposite (to_ℤ a) a.sign b.sign (mag b) opposite).0)))
  ]
]

-- `-=` on valid numbers is the difference of the integers, in its one representation.
pub minus_assign-Is :
    (a b : BigInt) → IsValid a → IsValid b → Is (minus_assign a b 0) (to_ℤ a -ℤ to_ℤ b)
unfolding minus_assign
minus_assign-Is a b h k = elim (zero_or_not b k) [
  | inl (zero_b, e) ↦
      rw zero_b (h, sub_zero (to_ℤ a) ∙ ap (λ y. to_ℤ a -ℤ y) (sym (signed_zero b.sign (mag b) e)))
  | inr (other, ne) ↦ elim (Bool-cases (eqb a.sign b.sign)) [
    | inl same ↦
        (let d = minus_same-Is a b h (positive-IsValid b k) in
          rw (other, same)
            (d.0, d.1 ∙ ap (λ s. to_ℤ a -ℤ signed s (mag b)) (eqb_sound a.sign b.sign same)))
    | inr opposite ↦
        (let d = plus_same-Is a (resigned a b) h k.digits refl in
          rw (other, opposite)
            (d.0, d.1 ∙ (signed_opposite (to_ℤ a) a.sign b.sign (mag b) opposite).1))
  ]
]

value-replicate : (n : ℕ) → (value (replicate n 0) ≡ 0) × AllDigits (replicate n 0)
value-replicate zero = (refl, tt)
value-replicate (suc n) = let (e, h) = value-replicate n in (omega arith, (omega arith, h))

signed_product : (s t : Bool) (m n : ℕ) → signed (eqb s t) (m * n) ≡ signed s m *ℤ signed t n
unfolding ◌*ℤ◌
signed_product s t m n = ground arith

-- The zero that is left when a factor is zero.
product_zero :
    (a b : BigInt)
    → mag a * mag b ≡ 0
    → Is (optimise (record a { digits = 0 ∷ [] })) (to_ℤ a *ℤ to_ℤ b)
product_zero a b e =
    optimise-Is a.sign (0 ∷ []) _ (omega arith, tt) (omega arith)
      (signed_zero a.sign (value (0 ∷ [])) (omega arith)
        ∙ sym (signed_zero (eqb a.sign b.sign) (mag a * mag b) e)
        ∙ signed_product a.sign b.sign (mag a) (mag b))

-- The trivial multiplication of valid numbers never writes behind its vector; it yields the product
-- of the integers, in its one representation.
pub multiply_assign-Is :
    (a b : BigInt)
    → IsValid a
    → IsValid b
    → (c : BigInt) × (multiply_assign a b ≡ some c) × Is c (to_ℤ a *ℤ to_ℤ b)
unfolding multiply_assign
multiply_assign-Is a b h k = elim (zero_or_not b k) [
  | inl (zero_b, e) ↦ rw zero_b (_, refl, product_zero a b (grind arith))
  | inr (b_not, nb) ↦ elim (zero_or_not a h) [
    | inl (zero_a, e) ↦ rw (b_not, zero_a) (_, refl, product_zero a b (grind arith))
    | inr (a_not, na) ↦
        (let (zeros, zeros_ok) = value-replicate (length a.digits + length b.digits) in
          let room = replicate (length a.digits + length b.digits) 0 in
          let p =
            mul_rows-Holds a.digits b.digits room h.digits k.digits zeros_ok
              (length-replicate (length a.digits + length b.digits) 0)
              (omega (arith, bound-positive b.digits)) in
          rw (b_not, a_not, p.inside)
            (
              _,
              refl,
              optimise-Is (eqb a.sign b.sign) p.digits _ p.bounded
                  (omega
                    (arith, p.size, length-replicate {A = ℕ} (length a.digits + length b.digits) 0))
                  (ap (signed (eqb a.sign b.sign)) (p.sum ∙ omega arith)
                    ∙ signed_product a.sign b.sign (mag a) (mag b)),
            ))
  ]
]
