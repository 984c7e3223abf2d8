-- ===== src/Bathroom/Tests.antt =====
-- Runs of SP/task5/main.c, and each theorem at an input.
use mai_fa_sp_4_sem.Base.{
  ℕ, ◌+◌, ◌≤◌, ◌<◌, ◌≡◌, refl, ◌⊎◌, inl, inr, List, [], ◌∷◌, Option-cases, some, arith,
}
use mai_fa_sp_4_sem.Base.Int.{ℤ, pos, negsuc, pos_part}
use mai_fa_sp_4_sem.Libc.{codes}
use mai_fa_sp_4_sem.Bathroom.{m, w, Hall, act, turn, start, Reach, here, next}
use mai_fa_sp_4_sem.Bathroom.Safety.{total, work, Advances, never-mixed, advances}
use mai_fa_sp_4_sem.Bathroom.Number.{
  int_max, string_to_int, check_number, check_digits, to_int_loop,
}
use mai_fa_sp_4_sem.Bathroom.Number.Digits.{value}

record Run (max : ℤ) (count : ℕ) : Type 0 where
  hall : Hall
  reach : Reach max count hall

go : {max : ℤ} {count : ℕ} → Run max count → ℕ → Run max count
unfolding turn act Option-cases
go {max} r i = elim (Option-cases (turn max i r.hall)) [
  | inl blocked ↦ r
  | inr (k, e) ↦ record { hall = k; reach = next i r.reach e }
]

run : {max : ℤ} {count : ℕ} → List ℕ → Run max count → Run max count
unfolding go
run [] r = r
run (i ∷ is) r = run is (go r i)

-- One man enters a bathroom for two; a woman, and then a man, come up.
abbrev busy : Run (pos 2) 2
busy = run (0 ∷ 1 ∷ 2 ∷ []) (record { hall = start 2; reach = here })

never-mixed_example :
    ((total m busy.hall.threads ≡ 0) ⊎ (total w busy.hall.threads ≡ 0))
    × (total m busy.hall.threads + total w busy.hall.threads ≤ pos_part (pos 2))
never-mixed_example = never-mixed busy.reach

two_men : (total m busy.hall.threads ≡ 0) × (total w busy.hall.threads ≡ 2)
unfolding run total
two_men = (refl, refl)

still_busy : 0 < work busy.hall.threads
unfolding run work
still_busy = omega arith

advances_example : Advances (pos 2) busy.hall
advances_example = advances busy.reach (omega arith) still_busy

-- Nobody enters a bathroom with no room, however often the threads try.
abbrev closed : Run (negsuc 3) 2
closed = run (0 ∷ 1 ∷ 2 ∷ 0 ∷ []) (record { hall = start 2; reach = here })

abbrev twelve : List ℕ
twelve = codes "12"

reads_minus_twelve : string_to_int (codes "-12") ≡ some (negsuc 11)
unfolding string_to_int check_number check_digits to_int_loop
reads_minus_twelve = refl

abbrev too_large : List ℕ
too_large = codes "147483648"

too_large_bounds :
    (int_max < value (b'2' ∷ too_large) 0) × (value (b'2' ∷ too_large) 0 ≤ int_max + 2)
unfolding value
too_large_bounds = omega arith
