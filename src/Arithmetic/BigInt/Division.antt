-- ===== src/Arithmetic/BigInt/Division.antt =====
-- arithmetic/big_integer: division and remainder, digit by digit with a binary search.
pub mod Numbers
pub mod Rounds
pub mod Quotient
use mai_fa_sp_4_sem.Base.{
  ℕ, zero, suc, ◌+◌, ◌-◌, ◌/◌, ◌%◌, ◌^◌, Bool, true, eqb, ltb, if◌then◌else◌, Option, none, some,
  List, [], ◌∷◌,
}
use mai_fa_sp_4_sem.Arithmetic.Digits.{base}
use mai_fa_sp_4_sem.Arithmetic.BigInt.{
  BigInt, is_zero, optimise, of_number, positive, spaceship, is_less, minus_assign, multiply_assign,
}

-- `starved` is a loop out of fuel, or a write behind a vector.
pub data Division : Type 0 where
  done : BigInt → Division
  division_by_zero starved : Division

-- The binary search for the digit `q` of the quotient. `mid - 1` is on 64 bits. Each product is a
-- trivial one, since `mid` has two digits at most.
unfoldable pub search : ℕ → BigInt → BigInt → ℕ → ℕ → ℕ → Option ℕ
search zero abs_other remain left right q = none
search (suc fuel) abs_other remain left right q =
    let mid = left + (right - left) / 2 in
    let up = search fuel abs_other remain (mid + 1) right mid in
    let down = search fuel abs_other remain left ((mid + (2 ^ 64 - 1)) % 2 ^ 64) q in
    if ltb right left then some q else elim (multiply_assign abs_other (of_number mid)) [
      | none ↦ none
      | some temp ↦ if is_less (spaceship remain temp) then down else up
    ]

-- One round of the loop on the digits: `q` and the new remainder.
unfoldable pub divide_round : BigInt → ℕ → BigInt → Option (ℕ × BigInt)
divide_round abs_other digit remain =
    let shifted = optimise (record { sign = remain.sign; digits = digit ∷ remain.digits }) in
    elim (search 34 abs_other shifted 0 (2 ^ 32) 0) [
      | none ↦ none
      | some q ↦
          if ltb 0 q
          then elim (multiply_assign abs_other (of_number q)) [
            | none ↦ none
            | some temp ↦ some (q, minus_assign shifted temp 0)
          ]
          else some (q, shifted)
    ]

-- The loop, from the top digit down: the digits of the quotient and the remainder.
unfoldable pub divide_digits : BigInt → List ℕ → Option (List ℕ × BigInt)
divide_digits abs_other [] = some ([], of_number 0)
divide_digits abs_other (digit ∷ digits) = elim (divide_digits abs_other digits) [
  | none ↦ none
  | some (quotient, remain) ↦ elim (divide_round abs_other digit remain) [
    | none ↦ none
    | some (q, remain') ↦ some (q % base ∷ quotient, remain')
  ]
]

unfoldable pub divide_assign : BigInt → BigInt → Division
divide_assign a b =
    if is_zero a
    then done a
    else if is_zero b
    then division_by_zero
    else if is_less (spaceship (positive a) (positive b))
    then done (optimise (record a { digits = 0 ∷ [] }))
    else elim (divide_digits (positive b) a.digits) [
      | none ↦ starved
      | some (quotient, remain) ↦
          done (optimise (record { sign = eqb a.sign b.sign; digits = quotient }))
    ]

unfoldable pub modulo_assign : BigInt → BigInt → Division
modulo_assign a b =
    if is_zero a
    then done a
    else if is_zero b
    then division_by_zero
    else if is_less (spaceship (positive a) (positive b))
    then done (positive a)
    else elim (divide_digits (positive b) a.digits) [
      | none ↦ starved
      | some (quotient, remain) ↦ done (optimise (record { sign = true; digits = remain.digits }))
    ]
