-- ===== src/Arithmetic/BigInt/Print.antt =====
-- arithmetic/big_integer: the text of a number.
pub mod Again
use mai_fa_sp_4_sem.Base.{
  ℕ, zero, suc, ◌+◌, Bool, true, false, if◌then◌else◌, Option, none, some, List, [], ◌∷◌,
}
use mai_fa_sp_4_sem.Arithmetic.Digits.{digit}
use mai_fa_sp_4_sem.Arithmetic.BigInt.{BigInt, is_zero, of_number, positive}
use mai_fa_sp_4_sem.Arithmetic.BigInt.Division.{Division, done, divide_assign, modulo_assign}

abbrev pub ten : BigInt
ten = of_number 10

-- The loop of `to_string`, with `res` in the order that it has after the last `reverse`; `none` is
-- out of fuel or an exception.
unfoldable pub print_loop : ℕ → BigInt → List ℕ → Option (List ℕ)
print_loop zero tmp res = none
print_loop (suc fuel) tmp res = if is_zero tmp then some res else elim (modulo_assign tmp ten) [
  | done val ↦ elim (divide_assign tmp ten) [
    | done next ↦ print_loop fuel next ((b'0' + digit val.digits) ∷ res)
    | _ ↦ none
  ]
  | _ ↦ none
]

unfoldable pub to_string : ℕ → BigInt → Option (List ℕ)
to_string fuel a = if is_zero a then some (b'0' ∷ []) else elim (print_loop fuel (positive a) []) [
  | none ↦ none
  | some res ↦ some (if a.sign then res else b'-' ∷ res)
]
