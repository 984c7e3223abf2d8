-- ===== src/Arithmetic/BigInt/Division/Rounds.antt =====
-- The rounds of the division of arithmetic/big_integer: the binary search finds each digit.
use mai_fa_sp_4_sem.Base.{
  ℕ, zero, suc, ◌+◌, ◌-◌, ◌*◌, ◌/◌, ◌%◌, ◌^◌, ◌≤◌, ◌<◌, ◌≡◌, refl, ap, sym, subst, inl, inr, true,
  false, ltb, Option, some, List, [], ◌∷◌, length, arith, Bool-cases,
}
use mai_fa_sp_4_sem.Base.Int.{pos}
use mai_fa_sp_4_sem.Arithmetic.Digits.{base}
use mai_fa_sp_4_sem.Arithmetic.Digits.Value.{value, AllDigits}
use mai_fa_sp_4_sem.Arithmetic.BigInt.{BigInt, optimise, of_number, minus_assign, multiply_assign}
use mai_fa_sp_4_sem.Arithmetic.BigInt.Value.{signed, mag}
use mai_fa_sp_4_sem.Arithmetic.BigInt.Sums.{optimise-Is}
use mai_fa_sp_4_sem.Arithmetic.BigInt.Division.{search, divide_round, divide_digits}
use mai_fa_sp_4_sem.Arithmetic.BigInt.Division.Numbers.{
  Holds, Holds-of, of_number-Holds, times, minus, less,
}

factor-lt : (k q s n : ℕ) → k * q ≤ n → n < k * s → q < s
factor-lt k q s n h l = grind arith

module _ (o r : BigInt) (k n : ℕ) (ho : Holds o k) (hr : Holds r n) where
  abbrev Found : Option ℕ → Type 0
  Found result = (q : ℕ) × (result ≡ some q) × (k * q ≤ n) × (n < k * (q + 1))

  found :
      (fuel left right q : ℕ)
      → left ≤ q + 1
      → k * q ≤ n
      → n < k * (right + 1)
      → ltb right left ≡ true
      → Found (search (suc fuel) o r left right q)
  unfolding search
  found fuel left right q low fits lt end =
      let e : right ≡ q = ground (arith, factor-lt k q (right + 1) n fits lt) in
      rw end (q, refl, fits, subst (λ x. n < k * (x + 1)) e lt)

  -- The search ends with the digit of the quotient.
  search-lem :
      (fuel left right q : ℕ)
      → right + 1 - left < 2 ^ fuel
      → left ≤ q + 1
      → right ≤ 2 ^ 32
      → k * q ≤ n
      → n < k * (right + 1)
      → Found (search (suc fuel) o r left right q)
  unfolding search
  search-lem zero left right q span low high fits lt =
      found zero left right q low fits lt (ground arith)
  search-lem (suc fuel) left right q span low high fits lt = elim (Bool-cases (ltb right left)) [
    | inl end ↦ found (suc fuel) left right q low fits lt end
    | inr go ↦
        (let mid = left + (right - left) / 2 in
          let inside : left ≤ right = ground arith in
          let (temp, e, h) = times o k mid ho (omega arith) in
          elim (less r temp n (k * mid) hr h) [
            | inl (less, over) ↦
                (let some_mid : 0 < mid = grind arith in
                  let w = (mid + (2 ^ 64 - 1)) % 2 ^ 64 in
                  let w_mid : mid ≡ w + 1 = omega arith in
                  rw (go, e, less)
                    (search-lem fuel left w q (omega arith) low (omega arith) fits
                      (subst (λ x. n < k * x) w_mid over)))
            | inr (more, under) ↦
                rw (go, e, more)
                  (search-lem fuel (mid + 1) right mid (omega arith) (omega arith) high under lt)
          ])
  ]

-- One round: the digit of the quotient, and a remainder below the divisor.
record Round (o : BigInt) (k d m : ℕ) (result : Option (ℕ × BigInt)) : Type 0 where
  q : ℕ
  remain : BigInt
  left_over : ℕ
  ends : result ≡ some (q, remain)
  holds : Holds remain left_over
  small : left_over < k
  digit : q < base
  divides : d + base * m ≡ k * q + left_over

abbrev shifted : ℕ → BigInt → BigInt
shifted d remain = optimise (record { sign = remain.sign; digits = d ∷ remain.digits })

shifted-Holds :
    (d m : ℕ) (remain : BigInt)
    → Holds remain m
    → d < base
    → Holds (shifted d remain) (d + base * m)
shifted-Holds d m remain h lt = Holds-of (shifted d remain) (d + base * m) (
    optimise-Is remain.sign (d ∷ remain.digits) (pos (d + base * m)) (lt, h.valid.digits)
      (omega arith)
      (subst (λ s. signed s (d + base * mag remain) ≡ pos (d + base * m)) (sym h.sign)
        (ap (λ x. pos (d + base * x)) h.size)))

divide_round-Round :
    (o : BigInt) (k d m : ℕ) (remain : BigInt)
    → Holds o k
    → Holds remain m
    → m < k
    → d < base
    → Round o k d m (divide_round o d remain)
unfolding divide_round
divide_round-Round o k d m remain ho hr lt dl =
    let n = d + base * m in
    let hs = shifted-Holds d m remain hr dl in
    let (q, e, le, gt) =
      search-lem o (shifted d remain) k n ho hs 33 0 (2 ^ 32) 0 (omega arith) (omega arith)
        (omega arith) (grind arith) (grind arith) in
    let small_q : q < base = grind arith in
    elim (Bool-cases (ltb 0 q)) [
      | inl some_q ↦
          (let (temp, t, ht) = times o k q ho (omega arith) in
            record {
              q = q;
              remain = minus_assign (shifted d remain) temp 0;
              left_over = n - k * q;
              ends = rounds q temp e some_q t;
              holds = minus (shifted d remain) temp n (k * q) hs ht le;
              small = grind arith;
              digit = small_q;
              divides = omega arith;
            })
      | inr no_q ↦
          (let z : q ≡ 0 = ground arith in
            record {
              q = q;
              remain = shifted d remain;
              left_over = n;
              ends = rounds_zero q e no_q;
              holds = hs;
              small = grind arith;
              digit = small_q;
              divides = grind arith;
            })
    ]
  where
    rounds :
        (q : ℕ) (temp : BigInt)
        → search 34 o (shifted d remain) 0 (2 ^ 32) 0 ≡ some q
        → ltb 0 q ≡ true
        → multiply_assign o (of_number q) ≡ some temp
        → divide_round o d remain ≡ some (q, minus_assign (shifted d remain) temp 0)
    rounds q temp e some_q t = rw (e, divide_round, some_q, t) refl

    rounds_zero :
        (q : ℕ)
        → search 34 o (shifted d remain) 0 (2 ^ 32) 0 ≡ some q
        → ltb 0 q ≡ false
        → divide_round o d remain ≡ some (q, shifted d remain)
    rounds_zero q e no_q = rw (e, divide_round, no_q) refl

-- The loop: as many digits of the quotient, and a remainder below the divisor.
pub record Rounds (o : BigInt) (k : ℕ) (ds : List ℕ) (result : Option (List ℕ × BigInt))
    : Type 0 where
  pub quotient : List ℕ
  pub remain : BigInt
  pub left_over : ℕ
  pub ends : result ≡ some (quotient, remain)
  pub holds : Holds remain left_over
  pub small : left_over < k
  pub digits : AllDigits quotient
  pub size : length quotient ≡ length ds
  pub divides : value ds ≡ k * value quotient + left_over

mod_small : (q : ℕ) → q < base → q % base ≡ q
mod_small q h = omega arith

pub divide_digits-Rounds :
    (o : BigInt) (k : ℕ) (ds : List ℕ)
    → Holds o k
    → 0 < k
    → AllDigits ds
    → Rounds o k ds (divide_digits o ds)
unfolding divide_digits
divide_digits-Rounds o k [] ho pk h = record {
  quotient = [];
  remain = of_number 0;
  left_over = 0;
  ends = refl;
  holds = of_number-Holds 0 (omega arith);
  small = pk;
  digits = tt;
  size = refl;
  divides = grind arith;
}
divide_digits-Rounds o k (d ∷ ds) ho pk (h, hs) =
    let rs = divide_digits-Rounds o k ds ho pk hs in
    let r = divide_round-Round o k d rs.left_over rs.remain ho rs.holds rs.small h in
    record {
      quotient = r.q % base ∷ rs.quotient;
      remain = r.remain;
      left_over = r.left_over;
      ends = rw (rs.ends, r.ends) refl;
      holds = r.holds;
      small = r.small;
      digits = (omega arith, rs.digits);
      size = ap suc rs.size;
      divides = grind (arith, rs.divides, r.divides, r.digit, mod_small r.q r.digit);
    }
