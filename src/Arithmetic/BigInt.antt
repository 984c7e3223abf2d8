-- ===== src/Arithmetic/BigInt.antt =====
-- arithmetic/big_integer: `big_int`, a sign and the digits of its absolute value.
pub mod Value
pub mod Sums
pub mod Division
pub mod Parse
pub mod Print
use Prim.Native.Nat.{compare, Ordering, max}
use mai_fa_sp_4_sem.Base.{
  ℕ, zero, suc, ◌+◌, ◌-◌, ◌*◌, ◌/◌, ◌%◌, ◌^◌, Bool, true, false, not, ◌||◌, eqb, ◌==◌, ltb, leb,
  if◌then◌else◌, Option, none, some, List, [], ◌∷◌, ◌++◌, length, replicate,
}
use mai_fa_sp_4_sem.Arithmetic.Digits.{
  base, trim, compare_digits, add_loop, sub_loop, mul_rows, shl_loop,
}

-- `sign` is true for + and for zero.
pub record BigInt : Type 0 where
  pub sign : Bool
  pub digits : List ℕ

abbrev pub is_zero : BigInt → Bool
is_zero a = elim a.digits [ [] ↦ false | d ∷ [] ↦ d == 0 | d ∷ e ∷ ds ↦ false ]

unfoldable pub optimise : BigInt → BigInt
optimise a =
    let b : BigInt = record a { digits = trim a.digits } in
    if is_zero b then record b { sign = true } else b

-- `big_int(Num d)` for a number that is not negative; two rounds are enough for 64 bits.
unfoldable pub number_digits : ℕ → ℕ → List ℕ
number_digits zero number = []
number_digits (suc fuel) number =
    let more = number_digits fuel (number / base) in
    if ltb 0 number then number % base ∷ more else []

abbrev pub of_number : ℕ → BigInt
of_number d = optimise (record { sign = true; digits = number_digits 2 d ++ 0 ∷ [] })

abbrev pub positive : BigInt → BigInt
positive a = record a { sign = true }

-- `<=>`
unfoldable pub spaceship : BigInt → BigInt → Ordering
spaceship a b =
    if not (eqb a.sign b.sign)
    then (if a.sign then Ordering.gt else Ordering.lt)
    else if not (length a.digits == length b.digits)
    then (if a.sign
        then compare (length a.digits) (length b.digits)
        else compare (length b.digits) (length a.digits))
    else if a.sign
    then compare_digits a.digits b.digits
    else compare_digits b.digits a.digits

abbrev pub is_less : Ordering → Bool
is_less Ordering.lt = true
is_less _ = false

-- `<<=`
unfoldable pub shift_left : BigInt → ℕ → BigInt
shift_left a shift =
    let int_shift = shift / 32 in
    let bit_shift = shift % 32 in
    let digits : List ℕ = replicate int_shift 0 ++ a.digits in
    if shift == 0 || is_zero a
    then a
    else optimise (record a {
      digits = if ltb 0 bit_shift then shl_loop (2 ^ bit_shift) digits 0 else digits;
    })

-- The branch of `plus_assign` for numbers of one sign.
unfoldable pub plus_same : BigInt → BigInt → ℕ → BigInt
plus_same a b shift =
    let max_size = max (length a.digits) (length b.digits + shift) in
    optimise (record a { digits = add_loop max_size a.digits (replicate shift 0 ++ b.digits) 0 })

-- `minus_assign` for numbers of one sign.
unfoldable pub minus_same : BigInt → BigInt → ℕ → BigInt
minus_same a b shift =
    let other = shift_left (positive b) shift in
    let max_size = max (length a.digits) (length other.digits) in
    if is_less (spaceship (positive a) other)
    then optimise (record { sign = not a.sign; digits = sub_loop max_size other.digits a.digits 0 })
    else optimise (record { sign = a.sign; digits = sub_loop max_size a.digits other.digits 0 })

unfoldable pub plus_assign : BigInt → BigInt → ℕ → BigInt
plus_assign a b shift =
    if is_zero b
    then a
    else if eqb a.sign b.sign
    then plus_same a b shift
    else optimise (minus_same a (record b { sign = a.sign }) shift)

unfoldable pub minus_assign : BigInt → BigInt → ℕ → BigInt
minus_assign a b shift =
    if is_zero b
    then a
    else if eqb a.sign b.sign
    then minus_same a b shift
    else plus_same a (record b { sign = a.sign }) shift

-- `multiply_assign` by the trivial rule; `none` is a write behind the vector.
unfoldable pub multiply_assign : BigInt → BigInt → Option BigInt
multiply_assign a b =
    if is_zero b || is_zero a
    then some (optimise (record a { digits = 0 ∷ [] }))
    else elim (mul_rows a.digits b.digits (replicate (length a.digits + length b.digits) 0)) [
      | none ↦ none
      | some result ↦ some (optimise (record { sign = eqb a.sign b.sign; digits = result }))
    ]
