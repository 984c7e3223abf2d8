-- ===== src/Philosophers/Progress.antt =====
-- Nobody eats beside an eater, nobody waits for ever, and everybody eats three times: SP/task3/main.c.
use mai_fa_sp_4_sem.Base.{
  ℕ, ◌+◌, ◌-◌, ◌≤◌, ◌≡◌, refl, ◌⊎◌, none, some, arith, Option-cases, inl, inr,
}
use mai_fa_sp_4_sem.Philosophers.{
  fork1, fork2, fork3, fork4, fork5, Seat, id1, id3, id5, id7, id9, id, fork_of, Pc, hungry, eating,
  Table, act, turn, Reach,
}
use mai_fa_sp_4_sem.Philosophers.Invariant.{
  at_table, has_left, has_right, work, total, Inv, Reach-Inv,
}

-- The neighbour on the side of the higher fork.
abbrev pub neighbour : Seat → Seat
neighbour id1 = id3
neighbour id3 = id5
neighbour id5 = id7
neighbour id7 = id9
neighbour id9 = id1

-- The value of a philosopher's own lower fork.
abbrev lower : Seat → Table → ℕ
lower id1 t = t.fork fork1
lower id3 t = t.fork fork2
lower id5 t = t.fork fork3
lower id7 t = t.fork fork4
lower id9 t = t.fork fork5

-- The forks of a philosopher are his own lower one and his neighbour's.
fork_of-shared : (s : Seat) → fork_of (id s + 1) ≡ fork_of (id (neighbour s) - 1)
fork_of-shared id1 = refl
fork_of-shared id3 = refl
fork_of-shared id5 = refl
fork_of-shared id7 = refl
fork_of-shared id9 = refl

shared :
    (s : Seat) (t : Table)
    → Inv t
    → lower (neighbour s) t + has_left (t.pc (neighbour s)) + has_right (t.pc s) ≡ 1
shared id1 t v = v.between13
shared id3 t v = v.between35
shared id5 t v = v.between57
shared id7 t v = v.between79
shared id9 t v = v.between91

has_right_eating : (p : Pc) (n : ℕ) → p ≡ eating n → (has_left p ≡ 1) × (has_right p ≡ 1)
has_right_eating p n e = ground arith

-- Whatever the order of the children's operations, two neighbours never eat at the same time.
pub neighbours-exclude :
    {k : ℕ} {t : Table} (s : Seat) (n m : ℕ)
    → Reach k t
    → t.pc s ≡ eating n
    → ¬ (t.pc (neighbour s) ≡ eating m)
neighbours-exclude {t = t} s n m r e f = omega (
  arith,
  shared s t (Reach-Inv r).0,
  has_right_eating (t.pc s) n e,
  has_right_eating (t.pc (neighbour s)) m f,
)

-- No child can go on.
abbrev pub IsStuck : Table → Type 0
IsStuck t = (s : Seat) → turn s t ≡ none

-- What is known of one child that cannot go on.
record Stuck (s : Seat) (t : Table) : Type 0 where
  no_right : has_right (t.pc s) ≡ 0
  waits_right : (has_left (t.pc s) ≡ 0) ⊎ (lower (neighbour s) t ≡ 0)
  waits_left : (has_left (t.pc s) ≡ at_table (t.pc s)) ⊎ (lower s t ≡ 0)
  waits_room : (work (t.pc s) ≡ 0) ⊎ (at_table (t.pc s) ≡ 1) ⊎ (t.room ≡ 0)

act-Stuck : (s : Seat) (p : Pc) (t : Table) → t.pc s ≡ p → act s p t ≡ none → Stuck s t
unfolding act
act-Stuck id1 p t e h = ground arith
act-Stuck id3 p t e h = ground arith
act-Stuck id5 p t e h = ground arith
act-Stuck id7 p t e h = ground arith
act-Stuck id9 p t e h = ground arith

turn-Stuck : (s : Seat) (t : Table) → turn s t ≡ none → Stuck s t
unfolding turn
turn-Stuck s t h = act-Stuck s (t.pc s) t refl h

has_left-le : (p : Pc) → (has_left p ≤ at_table p) × (has_left p ≤ 1)
has_left-le p = ground arith

-- A philosopher who waits for his second fork waits for a neighbour who does the same.
Stuck-chain :
    (s : Seat) (t : Table)
    → Inv t
    → Stuck s t
    → Stuck (neighbour s) t
    → has_left (t.pc s) ≤ has_left (t.pc (neighbour s))
Stuck-chain s t v a b =
    ground (arith, shared s t v, has_left-le (t.pc s), has_left-le (t.pc (neighbour s)))

-- The first fork of a seated philosopher is free once nobody holds a fork.
Stuck-seat :
    (s : Seat) (t : Table)
    → Inv t
    → Stuck s t
    → Stuck (neighbour s) t
    → has_left (t.pc s) ≡ 0
    → has_left (t.pc (neighbour s)) ≡ 0
    → at_table (t.pc (neighbour s)) ≡ 0
Stuck-seat s t v a b e f = ground (arith, shared s t v)

Stuck-work :
    (s : Seat) (t : Table) → t.room ≡ 2 → Stuck s t → at_table (t.pc s) ≡ 0 → work (t.pc s) ≡ 0
Stuck-work s t r a e = ground arith

module _ (t : Table) (v : Inv t) (all : (s : Seat) → Stuck s t) where
  chain : (s : Seat) → has_left (t.pc s) ≤ has_left (t.pc (neighbour s))
  chain s = Stuck-chain s t v (all s) (all (neighbour s))

  -- Five would hold a fork in a room for two.
  no_left : (s : Seat) → has_left (t.pc s) ≡ 0
  no_left s = elim s as (λ s. has_left (t.pc s) ≡ 0) [
    | id1 ↦ few.0
    | id3 ↦ few.1
    | id5 ↦ few.2
    | id7 ↦ few.3
    | id9 ↦ few.4
  ]
    where
      few :
          (has_left (t.pc id1) ≡ 0)
          × (has_left (t.pc id3) ≡ 0)
          × (has_left (t.pc id5) ≡ 0)
          × (has_left (t.pc id7) ≡ 0)
          × (has_left (t.pc id9) ≡ 0)
      few = omega (
        arith,
        v.seats,
        chain id1,
        chain id3,
        chain id5,
        chain id7,
        chain id9,
        has_left-le (t.pc id1),
        has_left-le (t.pc id3),
        has_left-le (t.pc id5),
        has_left-le (t.pc id7),
        has_left-le (t.pc id9),
      )

  no_seat : (s : Seat) → at_table (t.pc (neighbour s)) ≡ 0
  no_seat s = Stuck-seat s t v (all s) (all (neighbour s)) (no_left s) (no_left (neighbour s))

  free_room : t.room ≡ 2
  free_room =
      omega (arith, v.seats, no_seat id1, no_seat id3, no_seat id5, no_seat id7, no_seat id9)

  no_work : (s : Seat) → work (t.pc (neighbour s)) ≡ 0
  no_work s = Stuck-work (neighbour s) t free_room (all (neighbour s)) (no_seat s)

  all_done : total work t ≡ 0
  all_done = omega (arith, no_work id1, no_work id3, no_work id5, no_work id7, no_work id9)

-- There is no deadlock: in every reachable table in which no child can go on, ninety operations
-- have been made and every child has finished its three rounds.
pub no_deadlock :
    {k : ℕ} {t : Table} → Reach k t → IsStuck t → (k ≡ 90) × ((s : Seat) → t.pc s ≡ hungry 0)
no_deadlock {k} {t} r stuck =
    let (v, w) = Reach-Inv r in
    let done = all_done t v (λ s. turn-Stuck s t (stuck s)) in (omega arith, λ s. finished s done)
  where
    idle : (p : Pc) → work p ≡ 0 → p ≡ hungry 0
    idle p h = ground arith

    finished : (s : Seat) → total work t ≡ 0 → t.pc s ≡ hungry 0
    finished id1 h = idle (t.pc id1) (omega arith)
    finished id3 h = idle (t.pc id3) (omega arith)
    finished id5 h = idle (t.pc id5) (omega arith)
    finished id7 h = idle (t.pc id7) (omega arith)
    finished id9 h = idle (t.pc id9) (omega arith)

-- Some child can go on.
abbrev pub CanGo : Table → Type 0
CanGo t = (s : Seat) × (u : Table) × (turn s t ≡ some u)

-- Decided for one child, and with it for all.
go_or : (s : Seat) (t : Table) → (turn s t ≡ none → CanGo t ⊎ IsStuck t) → CanGo t ⊎ IsStuck t
go_or s t rest = elim (Option-cases (turn s t)) [
  | inl blocked ↦ rest blocked
  | inr (u, goes) ↦ inl (s, u, goes)
]

go_or_IsStuck : (t : Table) → CanGo t ⊎ IsStuck t
go_or_IsStuck t = go_or id1 t λ b1. go_or id3 t λ b3. go_or id5 t λ b5.
    go_or id7 t
      λ b7. go_or id9 t λ b9. inr (elim [ id1 ↦ b1 | id3 ↦ b3 | id5 ↦ b5 | id7 ↦ b7 | id9 ↦ b9 ])

-- Every run of the five children ends: no order of operations has more than ninety of them, and
-- before the ninetieth some child can always go on.
pub runs-finish : {k : ℕ} {t : Table} → Reach k t → (k ≤ 90) × ((k ≡ 90) ⊎ CanGo t)
runs-finish {t = t} r =
    let (v, w) = Reach-Inv r in
    (
      omega arith,
      elim (go_or_IsStuck t) [ inl go ↦ inr go | inr stuck ↦ inl (no_deadlock r stuck).0 ],
    )
