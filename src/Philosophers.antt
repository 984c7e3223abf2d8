-- ===== src/Philosophers.antt =====
-- SP/task3/main.c: five philosophers, a semaphore for each fork and one for the room.
pub mod Invariant
pub mod Progress
mod Tests
use mai_fa_sp_4_sem.Base.{
  ℕ, zero, suc, ◌+◌, ◌-◌, ◌*◌, ◌≡◌, Bool, true, false, ◌==◌, if◌then◌else◌, Option, none, some,
  List, [], ◌∷◌,
}

-- The semaphores 1 to 5. Semaphore 0, `room`, admits to the table.
pub data Fork : Type 0 where
  fork1 fork2 fork3 fork4 fork5 : Fork

-- The children of `main`, by their `id`: 1, 3, 5, 7 and 9.
pub data Seat : Type 0 where
  id1 id3 id5 id7 id9 : Seat

abbrev pub id : Seat → ℕ
id id1 = 1
id id3 = 3
id id5 = 5
id id7 = 7
id id9 = 9

-- The `switch` of `take_fork` and `return_fork`; `none` is its default.
abbrev pub fork_of : ℕ → Option Fork
fork_of num =
    if num == 0
    then some fork1
    else if num == 2
    then some fork2
    else if num == 4
    then some fork3
    else if num == 6
    then some fork4
    else if num == 8
    then some fork5
    else if num == 10
    then some fork1
    else none

-- Where a child stands in its loop, with the rounds that follow the one it is in; at the head of
-- the loop, with the rounds left.
pub data Pc : Type 0 where
  hungry : ℕ → Pc  -- before `semop(sem_id, &down0, 1)`
  seated : ℕ → Pc  -- before `take_fork(p.id - 1, p.id)`
  one_fork : ℕ → Pc  -- before `take_fork(p.id + 1, p.id)`
  eating : ℕ → Pc  -- before `return_fork(p.id - 1)`
  one_back : ℕ → Pc  -- before `return_fork(p.id + 1)`
  both_back : ℕ → Pc  -- before `semop(sem_id, &up0, 1)`

pub record Table : Type 0 where
  pub room : ℕ
  pub fork : Fork → ℕ
  pub pc : Seat → Pc

-- The numbers tell the constructors apart.
abbrev number : Fork → ℕ
number fork1 = 1
number fork2 = 2
number fork3 = 3
number fork4 = 4
number fork5 = 5

abbrev pub set_fork : (Fork → ℕ) → Fork → ℕ → Fork → ℕ
set_fork f k v j = if number k == number j then v else f j

abbrev pub set_pc : (Seat → Pc) → Seat → Pc → Seat → Pc
set_pc f s p t = if id s == id t then p else f t

-- `semop` with -1, when it does not block, and with +1; the child goes on to `p`.
abbrev down : Seat → Pc → Fork → Table → Option Table
down s p k t = elim (t.fork k) [
  | zero ↦ none
  | suc v ↦ some (record t { fork = set_fork t.fork k v; pc = set_pc t.pc s p })
]

abbrev up : Seat → Pc → Fork → Table → Option Table
up s p k t = some (record t { fork = set_fork t.fork k (t.fork k + 1); pc = set_pc t.pc s p })

-- `take_fork(num, id)` and `return_fork(num)`; at a number that names no fork nothing is modelled.
take_fork : Seat → Pc → ℕ → Table → Option Table
take_fork s p num t = elim (fork_of num) [ none ↦ none | some k ↦ down s p k t ]

return_fork : Seat → Pc → ℕ → Table → Option Table
return_fork s p num t = elim (fork_of num) [ none ↦ none | some k ↦ up s p k t ]

-- The next operation of a child that stands at `p`; `none` if it blocks or has finished.
act : Seat → Pc → Table → Option Table
unfolding take_fork return_fork
act s (hungry zero) t = none
act s (hungry (suc n)) t = elim t.room [
  | zero ↦ none
  | suc v ↦ some (record t { room = v; pc = set_pc t.pc s (seated n) })
]
act s (seated n) t = take_fork s (one_fork n) (id s - 1) t
act s (one_fork n) t = take_fork s (eating n) (id s + 1) t
act s (eating n) t = return_fork s (one_back n) (id s - 1) t
act s (one_back n) t = return_fork s (both_back n) (id s + 1) t
act s (both_back n) t = some (record t { room = t.room + 1; pc = set_pc t.pc s (hungry n) })

pub turn : Seat → Table → Option Table
unfolding act
turn s t = act s (t.pc s) t

-- The table after `main` has set the semaphores and forked five children with three rounds each.
abbrev pub start : Table
start = record { room = 2; fork = λ k. 1; pc = λ s. hungry 3 }

-- A table that the children can reach in `n` operations, in any order.
pub data Reach : ℕ → Table → Type 0 where
  here : Reach 0 start
  next : {n : ℕ} {t u : Table} (s : Seat) → Reach n t → turn s t ≡ some u → Reach (suc n) u
