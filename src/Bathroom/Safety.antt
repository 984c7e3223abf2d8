-- ===== src/Bathroom/Safety.antt =====
-- Men and women are never inside together, and the bathroom is never overfull: SP/task5/main.c.
use mai_fa_sp_4_sem.Base.{
  ℕ, zero, suc, ◌+◌, ◌≤◌, ◌<◌, ◌≡◌, refl, subst, ◌∙◌, ◌*◌, ◌⊎◌, inl, inr, some, List, [], ◌∷◌, set,
  get_elem?, Option-cases, arith, dec_lt,
}
use mai_fa_sp_4_sem.Base.Int.{ℤ, pos_part}
use mai_fa_sp_4_sem.Bathroom.{
  empty, man_only, woman_only, Room, Label, m, w, Phase, waiting, inside, gone, Thread, Hall,
  wants_to_enter, leave, act, turn, created, Reach, here, next,
}

-- A thread of the kind is inside.
abbrev pub counts : Label → Thread → ℕ
counts m t = elim t.label [ m ↦ elim t.phase [ inside ↦ 1 | _ ↦ 0 ] | w ↦ 0 ]
counts w t = elim t.label [ w ↦ elim t.phase [ inside ↦ 1 | _ ↦ 0 ] | m ↦ 0 ]

-- How many threads with the label are inside.
unfoldable pub total : Label → List Thread → ℕ
total l [] = 0
total l (t ∷ ts) = counts l t + total l ts

total-set :
    (l : Label) (ts : List Thread) (i : ℕ) (t t' : Thread)
    → get_elem? ts i ≡ some t
    → total l (set ts i t') + counts l t ≡ total l ts + counts l t'
unfolding total
total-set l [] i t t' h = ground arith
total-set l (x ∷ ts) zero t t' h = ground arith
total-set l (x ∷ ts) (suc i) t t' h = omega (arith, total-set l ts i t t' h)

-- The state of the room belongs to those inside; threads started with "m" stand for women.
pub record Inv (max : ℤ) (h : Hall) : Type 0 where
  pub women : (total m h.threads ≡ 0) ⊎ (h.room.cur_state ≡ woman_only)
  pub men : (total w h.threads ≡ 0) ⊎ (h.room.cur_state ≡ man_only)
  pub count : h.room.current_number ≡ total m h.threads + total w h.threads
  pub fits : h.room.current_number ≤ pos_part max
  pub open_again : (pos_part max ≡ 0) ⊎ (h.room.cur_state ≡ empty) ⊎ (0 < h.room.current_number)

act-Inv :
    (max : ℤ) (h : Hall) (i : ℕ) (t t' : Thread) (r : Room)
    → Inv max h
    → get_elem? h.threads i ≡ some t
    → act max t h.room ≡ some (r, t')
    → Inv max (record { room = r; threads = set h.threads i t' })
unfolding act
act-Inv max h i t t' r v at e =
    ground (arith, total-set m h.threads i t t' at, total-set w h.threads i t t' at)

turn-Inv : (max : ℤ) (h k : Hall) (i : ℕ) → Inv max h → turn max i h ≡ some k → Inv max k
unfolding turn
turn-Inv max h k i v e = elim (Option-cases (get_elem? h.threads i)) [
  | inl out ↦ ground arith
  | inr (t, at) ↦ elim (Option-cases (act max t h.room)) [
    | inl idle ↦ ground arith
    | inr (done, runs) ↦ subst (Inv max) (ground arith) (act-Inv max h i t done.1 done.0 v at runs)
  ]
]

total-created : (l : Label) (count : ℕ) → total l (created count) ≡ 0
unfolding total
total-created l zero = refl
total-created m (suc count) = omega (arith, total-created m count)
total-created w (suc count) = omega (arith, total-created w count)

pub Reach-Inv : {max : ℤ} {count : ℕ} {h : Hall} → Reach max count h → Inv max h
Reach-Inv {count = count} here = record {
  women = inl (total-created m count);
  men = inl (total-created w count);
  count = omega (arith, total-created m count, total-created w count);
  fits = omega arith;
  open_again = inr (inl refl);
}
Reach-Inv {max} (next {h = h} {k = k} i r e) = turn-Inv max h k i (Reach-Inv r) e

-- Whatever the order of the threads' critical sections, men and women are never inside together,
-- and never more persons than `max_in_room` (none, if that is negative).
pub never-mixed :
    {max : ℤ} {count : ℕ} {h : Hall}
    → Reach max count h
    → ((total m h.threads ≡ 0) ⊎ (total w h.threads ≡ 0))
      × (total m h.threads + total w h.threads ≤ pos_part max)
never-mixed r = let v = Reach-Inv r in (ground (arith, v), ground (arith, v))

-- Critical sections that the threads still have to pass.
abbrev pub pending : Thread → ℕ
pending t = elim t.phase [ waiting ↦ 2 | inside ↦ 1 | gone ↦ 0 ]

unfoldable pub work : List Thread → ℕ
work [] = 0
work (t ∷ ts) = pending t + work ts

work-set :
    (ts : List Thread) (i : ℕ) (t t' : Thread)
    → get_elem? ts i ≡ some t
    → work (set ts i t') + pending t ≡ work ts + pending t'
unfolding work
work-set [] i t t' h = ground arith
work-set (x ∷ ts) zero t t' h = ground arith
work-set (x ∷ ts) (suc i) t t' h = omega (arith, work-set ts i t t' h)

-- A thread in the phase, with its index.
abbrev Found : Phase → List Thread → Type 0
Found p ts = (i : ℕ) × (t : Thread) × (get_elem? ts i ≡ some t) × (t.phase ≡ p)

phase-cases : (p : Phase) → (p ≡ waiting) ⊎ (p ≡ inside) ⊎ (p ≡ gone)
phase-cases waiting = inl refl
phase-cases inside = inr (inl refl)
phase-cases gone = inr (inr refl)

further : {p : Phase} (t : Thread) (ts : List Thread) → Found p ts → Found p (t ∷ ts)
further t ts (i, x, at, e) = (suc i, x, at, e)

find_inside : (ts : List Thread) → 0 < total m ts + total w ts → Found inside ts
unfolding total
find_inside [] h = absurd (omega arith)
find_inside (t ∷ ts) h = elim (phase-cases t.phase) [
  | inl e ↦ further t ts (find_inside ts (ground arith))
  | inr (inl e) ↦ (0, t, refl, e)
  | inr (inr e) ↦ further t ts (find_inside ts (ground arith))
]

find_waiting : (ts : List Thread) → total m ts + total w ts ≡ 0 → 0 < work ts → Found waiting ts
unfolding total work
find_waiting [] h k = absurd (omega arith)
find_waiting (t ∷ ts) h k = elim (phase-cases t.phase) [
  | inl e ↦ (0, t, refl, e)
  | inr (inl e) ↦ absurd (ground arith)
  | inr (inr e) ↦ further t ts (find_waiting ts (ground arith) (ground arith))
]

-- A thread can pass a critical section for good.
abbrev pub Advances : ℤ → Hall → Type 0
Advances max h = (i : ℕ) × (k : Hall) × (turn max i h ≡ some k) × (work k.threads < work h.threads)

leaves : (max : ℤ) (h : Hall) → Found inside h.threads → Advances max h
unfolding turn act
leaves max h (i, t, at, e) = (
  i,
  record { room = leave t.label h.room; threads = set h.threads i (record t { phase = gone }) },
  ground arith,
  ground (arith, work-set h.threads i t (record t { phase = gone }) at),
)

enters :
    (max : ℤ) (h : Hall)
    → 0 < pos_part max
    → h.room.cur_state ≡ empty
    → h.room.current_number ≡ 0
    → Found waiting h.threads
    → Advances max h
unfolding turn act
enters max h room free none_in (i, t, at, e) = (
  i,
  record {
    room = (wants_to_enter t.label max h.room).0;
    threads = set h.threads i (record t { phase = inside });
  },
  ground arith,
  ground (arith, work-set h.threads i t (record t { phase = inside }) at),
)

-- With room for at least one person the threads never block for good: while one of them has not
-- left, some thread can enter, or leave, in its next critical section.
pub advances :
    {max : ℤ} {count : ℕ} {h : Hall}
    → Reach max count h
    → 0 < pos_part max
    → 0 < work h.threads
    → Advances max h
advances {max} {h = h} r room busy =
    let v = Reach-Inv r in
    elim (dec_lt 0 h.room.current_number) [
      | yes some_in ↦ leaves max h (find_inside h.threads (omega (arith, v.count)))
      | no none_in ↦
          enters max h room (ground (arith, v)) (omega arith)
            (find_waiting h.threads (omega (arith, v.count)) busy)
    ]

act-work :
    (max : ℤ) (h : Hall) (i : ℕ) (t t' : Thread) (r : Room)
    → Inv max h
    → pos_part max ≡ 0
    → get_elem? h.threads i ≡ some t
    → act max t h.room ≡ some (r, t')
    → work (set h.threads i t') ≡ work h.threads
unfolding act
act-work max h i t t' r v z at e =
    let away = record t { phase = gone } in
    ground (
      arith,
      total-set m h.threads i t away at,
      total-set w h.threads i t away at,
      work-set h.threads i t t' at,
    )

turn-work :
    (max : ℤ) (h k : Hall) (i : ℕ)
    → Inv max h
    → pos_part max ≡ 0
    → turn max i h ≡ some k
    → work k.threads ≡ work h.threads
unfolding turn
turn-work max h k i v z e = elim (Option-cases (get_elem? h.threads i)) [
  | inl out ↦ ground arith
  | inr (t, at) ↦ elim (Option-cases (act max t h.room)) [
    | inl idle ↦ ground arith
    | inr (done, runs) ↦ ground (arith, act-work max h i t done.1 done.0 v z at runs)
  ]
]

work-created : (count : ℕ) → work (created count) ≡ 4 * count
unfolding work
work-created zero = refl
work-created (suc count) = omega (arith, work-created count)

-- With `max_in_room` zero or negative nobody ever enters: in every reachable hall all threads still
-- wait, so `main` never returns from joining them.
pub nobody-enters :
    {max : ℤ} {count : ℕ} {h : Hall}
    → Reach max count h
    → pos_part max ≡ 0
    → work h.threads ≡ 4 * count
nobody-enters {count = count} here z = work-created count
nobody-enters {max} (next {h = h} {k = k} i r e) z =
    turn-work max h k i (Reach-Inv r) z e ∙ nobody-enters r z
