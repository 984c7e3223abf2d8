-- ===== src/Philosophers/Tests.antt =====
-- Runs of SP/task3/main.c by a given order of the children, and each theorem at such a run.
use mai_fa_sp_4_sem.Base.{
  ℕ, suc, ◌≤◌, ◌≡◌, refl, ◌⊎◌, List, [], ◌∷◌, ◌++◌, Option-cases, none, inl, inr,
}
use mai_fa_sp_4_sem.Philosophers.{
  Seat, id1, id3, id5, id7, id9, hungry, eating, Table, turn, start, Reach, here, next,
}
use mai_fa_sp_4_sem.Philosophers.Progress.{
  IsStuck, CanGo, no_deadlock, neighbours-exclude, runs-finish,
}

record Run : Type 0 where
  count : ℕ
  table : Table
  reach : Reach count table

go : Run → Seat → Run
unfolding turn Option-cases
go r s = elim (Option-cases (turn s r.table)) [
  | inl blocked ↦ r
  | inr (u, e) ↦ record { count = suc r.count; table = u; reach = next s r.reach e }
]

run : List Seat → Run → Run
unfolding go
run [] r = r
run (s ∷ ss) r = run ss (go r s)

abbrev fresh : Run
fresh = record { count = 0; table = start; reach = here }

-- One round of one philosopher, three rounds of his, and everybody's.
abbrev round : Seat → List Seat
round s = s ∷ s ∷ s ∷ s ∷ s ∷ s ∷ []

abbrev rounds : Seat → List Seat
rounds s = round s ++ (round s ++ round s)

abbrev one_eats : Run
one_eats = run (id1 ∷ id5 ∷ id1 ∷ id1 ∷ []) fresh

abbrev all_done : Run
all_done = run (rounds id1 ++ (rounds id3 ++ (rounds id5 ++ (rounds id7 ++ rounds id9)))) fresh

IsStuck-at_end : IsStuck all_done.table
unfolding run
IsStuck-at_end id1 = refl
IsStuck-at_end id3 = refl
IsStuck-at_end id5 = refl
IsStuck-at_end id7 = refl
IsStuck-at_end id9 = refl

no_deadlock_example : (all_done.count ≡ 90) × ((s : Seat) → all_done.table.pc s ≡ hungry 0)
no_deadlock_example = no_deadlock all_done.reach IsStuck-at_end

one_eats_here : one_eats.table.pc id1 ≡ eating 2
unfolding run
one_eats_here = refl

neighbours-exclude_example : ¬ (one_eats.table.pc id3 ≡ eating 2)
neighbours-exclude_example = neighbours-exclude id1 2 2 one_eats.reach one_eats_here

runs-finish_example : (one_eats.count ≤ 90) × ((one_eats.count ≡ 90) ⊎ CanGo one_eats.table)
runs-finish_example = runs-finish one_eats.reach

-- The third philosopher is not admitted while two are in the room.
third_waits : turn id9 one_eats.table ≡ none
unfolding run
third_waits = refl
