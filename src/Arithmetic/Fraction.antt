-- ===== src/Arithmetic/Fraction.antt =====
-- arithmetic/fraction/src/fraction.cpp, over the integers that big_int stands for.
pub mod Gcd
pub mod Lowest
pub mod Unique
pub mod Sums
use mai_fa_sp_4_sem.Base.{
  ℕ, zero, suc, ◌+◌, ◌/◌, ◌%◌, Bool, true, false, if◌then◌else◌, ◌==◌, Option, none, some, ltb, ◌<◌,
  ◌^◌,
}
use mai_fa_sp_4_sem.Arithmetic.Digits.{base}
use mai_fa_sp_4_sem.Base.Int.{ℤ, pos, negsuc, sub_ℕ, ◌+ℤ◌, ◌-ℤ◌, ◌*ℤ◌}

pub record Fraction : Type 0 where
  pub numerator : ℤ
  pub denominator : ℤ

abbrev pub abs : ℤ → ℕ
abs (pos n) = n
abs (negsuc n) = suc n

abbrev pub is_negative : ℤ → Bool
is_negative (pos n) = false
is_negative (negsuc n) = true

-- The loop of `gcd` on numbers that are not negative.
unfoldable pub gcd : ℕ → ℕ → ℕ → Option ℕ
gcd zero a b = none
gcd (suc fuel) a b = let rest = gcd fuel b (a % b) in if b == 0 then some a else rest

-- `/=` by a positive number.
abbrev pub quotient : ℤ → ℕ → ℤ
quotient (pos n) d = pos (n / d)
quotient (negsuc n) d = sub_ℕ 0 (suc n / d)

-- The numerator and the denominator before they are divided.
abbrev pub positive : Fraction → Fraction
positive f =
    if is_negative f.numerator
    then record { numerator = pos (abs f.numerator); denominator = pos 0 -ℤ f.denominator }
    else f

abbrev pub divided : Fraction → Option ℕ → Option Fraction
divided f none = none
divided f (some divisor) = some (record {
  numerator = quotient f.numerator divisor;
  denominator = quotient f.denominator divisor;
})

-- `none` is the exception.
unfoldable pub optimise : Fraction → Option Fraction
optimise f =
    if abs f.denominator == 0
    then none
    else if abs f.numerator == 0
    then some (record { numerator = f.numerator; denominator = pos 1 })
    else (let f' = positive f in
        divided f' (gcd (abs f'.denominator + 1) (abs f'.numerator) (abs f'.denominator)))

abbrev pub negate : Fraction → Option Fraction
negate f = optimise (record { numerator = f.numerator; denominator = pos 0 -ℤ f.denominator })

-- The second factors for which `decide_mult` of big_int.cpp picks the trivial multiplication: those
-- of at most 32 digits.
abbrev pub IsShort : ℤ → Type 0
IsShort y = abs y < base ^ 32

-- `*` and `*=` of `big_int`. A longer second factor makes it multiply by Karatsuba's rule, which is
-- not modelled: `long` is what it answers then.
unfoldable pub product : (ℤ → ℤ → ℤ) → ℤ → ℤ → ℤ
product long x y = if ltb (abs y) (base ^ 32) then x *ℤ y else long x y

-- The four operators, where `other` is another object than the one that they change.
module _ (long : ℤ → ℤ → ℤ) where
  abbrev pub plus_assign : Fraction → Fraction → Option Fraction
  plus_assign f g = optimise (record {
    numerator = product long f.numerator g.denominator +ℤ product long f.denominator g.numerator;
    denominator = product long f.denominator g.denominator;
  })

  abbrev pub minus_assign : Fraction → Fraction → Option Fraction
  minus_assign f g = optimise (record {
    numerator = product long f.numerator g.denominator -ℤ product long f.denominator g.numerator;
    denominator = product long f.denominator g.denominator;
  })

  abbrev pub multiply_assign : Fraction → Fraction → Option Fraction
  multiply_assign f g = optimise (record {
    numerator = product long f.numerator g.numerator;
    denominator = product long f.denominator g.denominator;
  })

  abbrev pub divide_assign : Fraction → Fraction → Option Fraction
  divide_assign f g = optimise (record {
    numerator = product long f.numerator g.denominator;
    denominator = product long f.denominator g.numerator;
  })
