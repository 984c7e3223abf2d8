-- ===== src/Bathroom.antt =====
-- SP/task5/main.c: one bathroom for men and women, a mutex and a head count.
pub mod Number
pub mod Safety
mod Tests
use mai_fa_sp_4_sem.Base.{
  ℕ, zero, suc, ◌+◌, ◌-◌, ◌≡◌, Bool, true, false, ◌||◌, ◌==◌, if◌then◌else◌, Option, none, some,
  List, [], ◌∷◌, set, get_elem?,
}
use mai_fa_sp_4_sem.Base.Int.{ℤ, pos, ltb_ℤ}

-- The values EMPTY, MAN_ONLY and WOMAN_ONLY of `cur_state`.
pub data CurState : Type 0 where
  empty man_only woman_only : CurState

pub record Room : Type 0 where
  pub cur_state : CurState
  pub current_number : ℕ

abbrev is_empty : CurState → Bool
is_empty empty = true
is_empty _ = false

abbrev is_man_only : CurState → Bool
is_man_only man_only = true
is_man_only _ = false

abbrev is_woman_only : CurState → Bool
is_woman_only woman_only = true
is_woman_only _ = false

-- One round of the loop in `woman_wants_to_enter`, from `pthread_mutex_lock` to the unlock: the
-- room, and whether the loop is left. `max` is `max_in_room`.
pub woman_wants_to_enter : ℤ → Room → Room × Bool
woman_wants_to_enter max r =
    if is_empty r.cur_state || is_woman_only r.cur_state
    then (if ltb_ℤ (pos r.current_number) max
        then (record { cur_state = woman_only; current_number = r.current_number + 1 }, true)
        else (record r { cur_state = woman_only }, false))
    else (r, false)

-- Only who is inside leaves, so that the number is not 0 here.
pub woman_leave : Room → Room
woman_leave r =
    let n = r.current_number - 1 in
    record { cur_state = if n == 0 then empty else r.cur_state; current_number = n }

pub man_wants_to_enter : ℤ → Room → Room × Bool
man_wants_to_enter max r =
    if is_empty r.cur_state || is_man_only r.cur_state
    then (if ltb_ℤ (pos r.current_number) max
        then (record { cur_state = man_only; current_number = r.current_number + 1 }, true)
        else (record r { cur_state = man_only }, false))
    else (r, false)

pub man_leave : Room → Room
man_leave r =
    let n = r.current_number - 1 in
    record { cur_state = if n == 0 then empty else r.cur_state; current_number = n }

-- The argument that `main` starts a thread with.
pub data Label : Type 0 where
  m w : Label

-- Where a thread stands in `manage_gender`.
pub data Phase : Type 0 where
  waiting inside gone : Phase

pub record Thread : Type 0 where
  pub label : Label
  pub phase : Phase

-- The two tests of `manage_gender`: the thread started with "m" calls the woman's functions.
pub wants_to_enter : Label → ℤ → Room → Room × Bool
unfolding woman_wants_to_enter man_wants_to_enter
wants_to_enter m max r = woman_wants_to_enter max r
wants_to_enter w max r = man_wants_to_enter max r

pub leave : Label → Room → Room
unfolding woman_leave man_leave
leave m r = woman_leave r
leave w r = man_leave r

pub record Hall : Type 0 where
  pub room : Room
  pub threads : List Thread

-- The next critical section of a thread; a thread that has left has none.
pub act : ℤ → Thread → Room → Option (Room × Thread)
unfolding wants_to_enter leave
act max t r = elim t.phase [
  | waiting ↦
      (let tried = wants_to_enter t.label max r in
        some (tried.0, record t { phase = if tried.1 then inside else waiting }))
  | inside ↦ some (leave t.label r, record t { phase = gone })
  | gone ↦ none
]

pub turn : ℤ → ℕ → Hall → Option Hall
turn max i h = elim (get_elem? h.threads i) [
  | none ↦ none
  | some t ↦ elim (act max t h.room) [
    | none ↦ none
    | some (r, t') ↦ some (record { room = r; threads = set h.threads i t' })
  ]
]

-- The threads that `main` creates, `count` of each kind; the source has TEST_NUMBER of each.
abbrev pub created : ℕ → List Thread
created zero = []
created (suc count) =
    record { label = w; phase = waiting } ∷ record { label = m; phase = waiting } ∷ created count

abbrev pub start : ℕ → Hall
start count = record {
  room = record { cur_state = empty; current_number = 0 };
  threads = created count;
}

-- The halls that the threads reach, their critical sections in any order.
pub data Reach (max : ℤ) (count : ℕ) : Hall → Type 0 where
  here : Reach max count (start count)
  next : {h k : Hall} (i : ℕ) → Reach max count h → turn max i h ≡ some k → Reach max count k
