-- ===== src/Philosophers/Invariant.antt =====
-- The semaphores of SP/task3/main.c count the forks and the places at the table.
use mai_fa_sp_4_sem.Base.{ℕ, zero, suc, ◌+◌, ◌*◌, ◌≡◌, refl, some, arith}
use mai_fa_sp_4_sem.Philosophers.{
  fork1, fork2, fork3, fork4, fork5, Seat, id1, id3, id5, id7, id9, Pc, hungry, seated, one_fork,
  eating, one_back, both_back, Table, act, turn, Reach, here, next,
}

-- 1 while the philosopher is in the room, has the fork below its number, has the one above.
abbrev pub at_table : Pc → ℕ
at_table (hungry _) = 0
at_table _ = 1

abbrev pub has_left : Pc → ℕ
has_left (one_fork _) = 1
has_left (eating _) = 1
has_left _ = 0

abbrev pub has_right : Pc → ℕ
has_right (eating _) = 1
has_right (one_back _) = 1
has_right _ = 0

-- Operations left.
abbrev pub work : Pc → ℕ
work (hungry n) = 6 * n
work (seated n) = 6 * n + 5
work (one_fork n) = 6 * n + 4
work (eating n) = 6 * n + 3
work (one_back n) = 6 * n + 2
work (both_back n) = 6 * n + 1

abbrev pub total : (Pc → ℕ) → Table → ℕ
total w t = w (t.pc id1) + w (t.pc id3) + w (t.pc id5) + w (t.pc id7) + w (t.pc id9)

pub record Inv (t : Table) : Type 0 where
  pub seats : t.room + total at_table t ≡ 2
  pub between91 : t.fork fork1 + has_left (t.pc id1) + has_right (t.pc id9) ≡ 1
  pub between13 : t.fork fork2 + has_left (t.pc id3) + has_right (t.pc id1) ≡ 1
  pub between35 : t.fork fork3 + has_left (t.pc id5) + has_right (t.pc id3) ≡ 1
  pub between57 : t.fork fork4 + has_left (t.pc id7) + has_right (t.pc id5) ≡ 1
  pub between79 : t.fork fork5 + has_left (t.pc id9) + has_right (t.pc id7) ≡ 1

-- What one operation keeps and uses up.
abbrev Keeps : Table → Table → Type 0
Keeps t u = Inv u × (total work t ≡ suc (total work u))

act-Keeps : (s : Seat) (p : Pc) (t u : Table) → t.pc s ≡ p → Inv t → act s p t ≡ some u → Keeps t u
unfolding act
act-Keeps id1 (hungry zero) t u e v h = ground arith
act-Keeps id1 (hungry (suc n)) t u e v h = ground arith
act-Keeps id1 p t u e v h = ground arith
act-Keeps id3 (hungry zero) t u e v h = ground arith
act-Keeps id3 (hungry (suc n)) t u e v h = ground arith
act-Keeps id3 p t u e v h = ground arith
act-Keeps id5 (hungry zero) t u e v h = ground arith
act-Keeps id5 (hungry (suc n)) t u e v h = ground arith
act-Keeps id5 p t u e v h = ground arith
act-Keeps id7 (hungry zero) t u e v h = ground arith
act-Keeps id7 (hungry (suc n)) t u e v h = ground arith
act-Keeps id7 p t u e v h = ground arith
act-Keeps id9 (hungry zero) t u e v h = ground arith
act-Keeps id9 (hungry (suc n)) t u e v h = ground arith
act-Keeps id9 p t u e v h = ground arith

turn-Keeps : (s : Seat) (t u : Table) → Inv t → turn s t ≡ some u → Keeps t u
unfolding turn
turn-Keeps s t u v h = act-Keeps s (t.pc s) t u refl v h

pub Reach-Inv : {n : ℕ} {t : Table} → Reach n t → Inv t × (n + total work t ≡ 90)
Reach-Inv here = (omega arith, omega arith)
Reach-Inv (next {t = t} {u = u} s r h) =
    let (v, w) = Reach-Inv r in let (v', w') = turn-Keeps s t u v h in (v', omega arith)
