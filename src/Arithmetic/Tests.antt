-- ===== src/Arithmetic/Tests.antt =====
-- Runs of arithmetic/ on numbers of one and two digits, and each theorem at such a run.
use mai_fa_sp_4_sem.Base.{ℕ, ◌≡◌, ◌↔◌, refl, inl, inr, true, false, some, List, [], ◌∷◌, arith}
use mai_fa_sp_4_sem.Base.Int.{◌+ℤ◌, ◌-ℤ◌, ◌*ℤ◌}
use mai_fa_sp_4_sem.Base.Int.{ℤ, pos, negsuc}
use mai_fa_sp_4_sem.Arithmetic.Fraction
use mai_fa_sp_4_sem.Arithmetic.Fraction.Unique.{SameValue, fraction, optimise-SameValue}
use mai_fa_sp_4_sem.Arithmetic.Fraction.Sums.{Operations, plus_assign-Operations}
use mai_fa_sp_4_sem.Arithmetic.Digits.{
  strip, trim, compare_digits, sub_loop, mul_row, mul_rows, shl_loop,
}
use mai_fa_sp_4_sem.Arithmetic.BigInt.{
  BigInt, optimise, number_digits, spaceship, shift_left, minus_same, plus_assign, minus_assign,
  multiply_assign,
}
use mai_fa_sp_4_sem.Arithmetic.BigInt.Value.{IsValid, to_ℤ}
use mai_fa_sp_4_sem.Arithmetic.BigInt.Sums.{Is, plus_assign-Is, multiply_assign-Is}
use mai_fa_sp_4_sem.Arithmetic.BigInt.Division.{
  done, search, divide_round, divide_digits, divide_assign, modulo_assign,
}
use mai_fa_sp_4_sem.Arithmetic.BigInt.Division.Quotient.{Divides, divide_assign-Divides}
use mai_fa_sp_4_sem.Arithmetic.BigInt.Print.{print_loop, to_string}
use mai_fa_sp_4_sem.Arithmetic.BigInt.Print.Again.{parse-to_string}
use mai_fa_sp_4_sem.Arithmetic.BigInt.Parse.{
  valid_digit, skip_zeros, parse_chars, parse_unsigned, parse,
}
use mai_fa_sp_4_sem.Arithmetic.BigInt.Parse.Horner.{minus}
use mai_fa_sp_4_sem.Arithmetic.BigInt.Parse.Digits.{Answer, parse-Answer}

-- 2^32 + 5.
abbrev big : BigInt
big = record { sign = true; digits = 5 ∷ 1 ∷ [] }

-- -7.
abbrev small : BigInt
small = record { sign = false; digits = 7 ∷ [] }

big-IsValid : IsValid big
big-IsValid = record {
  digits = (omega arith, (omega arith, tt));
  some_digit = omega arith;
  no_zero = inr (omega arith);
  one_zero = λ e. refl;
}

small-IsValid : IsValid small
small-IsValid = record {
  digits = (omega arith, tt);
  some_digit = omega arith;
  no_zero = inl refl;
  one_zero = λ e. absurd (omega arith);
}

sum_run : plus_assign big small 0 ≡ record { sign = true; digits = 4294967294 ∷ [] }
unfolding plus_assign minus_same shift_left spaceship compare_digits sub_loop optimise trim strip
sum_run = refl

product_run : multiply_assign big small ≡ some (record { sign = false; digits = 35 ∷ 7 ∷ [] })
unfolding multiply_assign mul_rows mul_row optimise trim strip
product_run = refl

abbrev one : BigInt
one = record { sign = true; digits = 1 ∷ [] }

abbrev two : BigInt
two = record { sign = true; digits = 2 ∷ [] }

-- The quotient of a negative number is cut off towards zero, and the remainder is not negative:
-- -7 / 2 = -3 and -7 % 2 = 1.
quotient_run : divide_assign small two ≡ done (record { sign = false; digits = 3 ∷ [] })
unfolding divide_assign divide_digits divide_round search spaceship compare_digits minus_assign
    minus_same shift_left sub_loop multiply_assign mul_rows mul_row number_digits optimise trim
    strip
quotient_run = refl

remainder_run : modulo_assign small two ≡ done one
unfolding modulo_assign divide_digits divide_round search spaceship compare_digits minus_assign
    minus_same shift_left sub_loop multiply_assign mul_rows mul_row number_digits optimise trim
    strip
remainder_run = refl

abbrev hex : List ℕ
hex = b'-' ∷ b'0' ∷ b'1' ∷ b'f' ∷ []

parse_run : parse hex 16 ≡ some (record { sign = false; digits = 31 ∷ [] })
unfolding parse parse_unsigned skip_zeros parse_chars valid_digit shl_loop
parse_run = refl

plus_assign-Is_example : Is (plus_assign big small 0) (to_ℤ big +ℤ to_ℤ small)
plus_assign-Is_example = plus_assign-Is big small big-IsValid small-IsValid

multiply_assign-Is_example :
    (c : BigInt) × (multiply_assign big small ≡ some c) × Is c (to_ℤ big *ℤ to_ℤ small)
multiply_assign-Is_example = multiply_assign-Is big small big-IsValid small-IsValid

divide_assign-Divides_example :
    (q : BigInt) × (r : BigInt) × (divide_assign big small ≡ done q)
    × (modulo_assign big small ≡ done r)
    × Divides big small q r
divide_assign-Divides_example =
    divide_assign-Divides big small big-IsValid small-IsValid (omega arith)

parse-Answer_example : Answer false 16 (b'0' ∷ b'1' ∷ b'f' ∷ []) (parse hex 16)
parse-Answer_example =
    parse-Answer hex (b'0' ∷ b'1' ∷ b'f' ∷ []) false 16 (minus (b'0' ∷ b'1' ∷ b'f' ∷ []))
      (omega arith) (omega arith)

to_string_run : to_string 8 small ≡ some (b'-' ∷ b'7' ∷ [])
unfolding to_string print_loop divide_assign modulo_assign divide_digits divide_round search
    spaceship compare_digits minus_assign minus_same shift_left sub_loop multiply_assign mul_rows
    mul_row number_digits optimise trim strip
to_string_run = refl

parse-to_string_example :
    (text : List ℕ) × (b : BigInt) × (to_string 8 small ≡ some text)
    × (parse text 10 ≡ some b)
    × Is b (to_ℤ small)
parse-to_string_example = parse-to_string 8 small small-IsValid (omega arith)

abbrev half : Fraction.Fraction
half = fraction (pos 2) (pos 4)

abbrev other_half : Fraction.Fraction
other_half = fraction (negsuc 2) (negsuc 5)

half_run : Fraction.optimise other_half ≡ some (fraction (pos 1) (pos 2))
unfolding Fraction.optimise Fraction.gcd ◌-ℤ◌
half_run = refl

-- Any answer to a long factor will do.
abbrev long : ℤ → ℤ → ℤ
long x y = pos 0

-- The sum of a half and minus a third.
fraction_run :
    Fraction.plus_assign long half (fraction (negsuc 0) (pos 3)) ≡ some (fraction (pos 1) (pos 6))
unfolding Fraction.product Fraction.optimise Fraction.gcd ◌+ℤ◌ ◌*ℤ◌
fraction_run = refl

optimise-SameValue_example :
    (Fraction.optimise half ≡ Fraction.optimise other_half) ↔ SameValue half other_half
optimise-SameValue_example =
    optimise-SameValue half other_half (λ e. ground (arith, e)) (λ e. ground (arith, e))

plus_assign-Operations_example : Operations long half other_half
plus_assign-Operations_example =
    plus_assign-Operations long half other_half (λ e. ground (arith, e)) (λ e. ground (arith, e))
      (omega arith) (omega arith)
