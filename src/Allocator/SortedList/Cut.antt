-- ===== src/Allocator/SortedList/Cut.antt =====
-- How `do_allocate_sm` of allocator/allocator_sorted_list cuts the chosen block and unlinks it.
use mai_fa_sp_4_sem.Base.{
  ℕ, ◌+◌, ◌-◌, ◌^◌, ◌≤◌, ◌<◌, ◌≡◌, ◌≢◌, refl, sym, subst, ◌∙◌, ◌⊎◌, inl, true, false, ◌==◌, leb,
  if◌then◌else◌, List, ◌∷◌, ◌++◌, arith,
}
use mai_fa_sp_4_sem.Allocator.SortedList.{
  word, Memory, set_size, set_next, Allocator, Choice, split, take_out,
}
use mai_fa_sp_4_sem.Allocator.SortedList.Blocks.{
  Block, free, occupied, Run, is_free, is_occupied, Run-le, Run-agrees, Run-append, Run-first,
  IsValid,
}
use mai_fa_sp_4_sem.Allocator.SortedList.Front.{Front, Front-run, Front-first, Front-retarget}
use mai_fa_sp_4_sem.Allocator.SortedList.Search.{Candidate}

-- The blocks in place of the free block of `n` bytes that is chosen for `size` bytes.
abbrev pub carve : ℕ → ℕ → List Block → List Block
carve size n post =
    if leb (size + 17) n then occupied size ∷ free (n - size - 16) ∷ post else occupied n ∷ post

module _ (a : Allocator) (pre : List Block) (c : Choice) (nb : ℕ) (m : Memory) where
  pub follower : ℕ
  follower = if nb == 0 then m.next c.result else nb

  pub taken_out :
      Front a.memory a.trusted a.first a.begin pre c.prev_free c.result c.result
      → 0 < a.begin
      → ((x : ℕ) → x < c.result → (m.size x ≡ a.memory.size x) × (m.next x ≡ a.memory.next x))
      → (follower ≡ 0) ⊎ (c.result < follower)
      → let a' = take_out a c nb m in
        Run a'.memory a.trusted a'.first a.begin pre follower c.result
        × ((x : ℕ)
            → c.result ≤ x
            → (a'.memory.size x ≡ m.size x) × (x ≢ c.result → a'.memory.next x ≡ m.next x))
        × (a'.memory.next c.result ≡ a.trusted)
  unfolding take_out follower
  taken_out front pos below g =
      let a' = take_out a c nb m in
      let place = Front-first front pos in
      let sizes : (x : ℕ) → a'.memory.size x ≡ m.size x = λ x. ground (arith, place) in
      let nexts : (x : ℕ) → x ≢ c.result → x ≢ c.prev_free → a'.memory.next x ≡ m.next x =
        λ x ne ne'. ground (arith, place) in
      let linked : c.prev_free ≢ 0 → a'.memory.next c.prev_free ≡ follower =
        λ ne. ground (arith, place) in
      let starts : (if c.prev_free == 0 then follower else a.first) ≡ a'.first =
        ground (arith, place) in
      (
        subst (λ f. Run a'.memory a.trusted f a.begin pre follower c.result) starts
            (Front-run (
              Front-retarget a'.memory follower front pos (omega (arith, g))
                (λ x lo hi.
                  (sizes x ∙ (below x hi).0, λ ne. nexts x (omega arith) ne ∙ (below x hi).1))
                linked)),
        λ x le. (sizes x, λ ne. ground (arith, place)),
        ground (arith, place),
      )

-- The memory after the chosen block is cut.
abbrev pub cut : Memory → ℕ → Choice → Memory
cut m size c =
    let new_block = c.result + 16 + size in
    set_size (set_next (set_size m new_block (c.best_size - size - 16)) new_block (m.next c.result))
      c.result size

pub split-cut :
    (m : Memory) (size : ℕ) (c : Choice)
    → size + 17 ≤ c.best_size
    → c.result + 16 + c.best_size < 2 ^ 64
    → split m size c ≡ (cut m size c, c.result + 16 + size)
unfolding split
split-cut m size c big fits =
    let e : word (c.best_size + (2 ^ 64 - size)) ≡ c.best_size - size = omega arith in
    let b : leb 17 (c.best_size - size) ≡ true = ground arith in
    let n : word (c.result + 16 + size) ≡ c.result + 16 + size = omega arith in rw (e, b, n) refl

pub split-whole :
    (m : Memory) (size : ℕ) (c : Choice)
    → size + 16 ≤ c.best_size
    → c.best_size < size + 17
    → c.result + 16 + c.best_size < 2 ^ 64
    → split m size c ≡ (m, 0)
unfolding split
split-whole m size c enough small fits =
    let e : word (c.best_size + (2 ^ 64 - size)) ≡ c.best_size - size = omega arith in
    let b : leb 17 (c.best_size - size) ≡ false = ground arith in rw (e, b) refl

module _ (a : Allocator) (bs : List Block) (size : ℕ) (c : Choice) (v : IsValid a bs)
    (h : Candidate a.memory a.trusted a.first a.begin (a.begin + 16 + a.space_size) bs size c) where
  abbrev pub end : ℕ
  end = a.begin + 16 + a.space_size

  pub behind :
      (c.result + 16 + c.best_size ≤ end)
      × ((a.memory.next c.result ≡ 0) ⊎ (c.result + 16 + c.best_size ≤ a.memory.next c.result))
  behind = (Run-le h.behind, Run-first h.behind (inl refl))

  pub cut-Run :
      size + 17 ≤ c.best_size
      → let a' = take_out a c (c.result + 16 + size) (cut a.memory size c) in
        Run a'.memory a.trusted a'.first a.begin
          (h.pre ++ occupied size ∷ free (c.best_size - size - 16) ∷ h.post)
          0
          end
  unfolding follower
  cut-Run big =
      let m = cut a.memory size c in
      let nb = c.result + 16 + size in
      let a' = take_out a c nb m in
      let bound = behind in
      let (front, keeps, marked) =
        taken_out a h.pre c nb m h.front v.not_null (λ x lt. ground arith) (ground arith) in
      let goes_on : a'.memory.next nb ≡ a.memory.next c.result =
        (keeps nb (omega arith)).1 (omega arith) ∙ ground arith in
      Run-append
        (subst (λ g. Run a'.memory a.trusted a'.first a.begin h.pre g c.result) (ground arith)
          front)
        (is_occupied nb c.result size 0 end _ (omega arith)
          ((keeps c.result (omega arith)).0 ∙ ground arith) marked
          (is_free nb (c.best_size - size - 16) 0 end h.post
            ((keeps nb (omega arith)).0 ∙ ground arith)
            (subst
              (λ g. Run a'.memory a.trusted g (nb + 16 + (c.best_size - size - 16)) h.post 0 end)
              (sym goes_on)
              (subst (λ x. Run a'.memory a.trusted (a.memory.next c.result) x h.post 0 end)
                (omega arith)
                (Run-agrees a'.memory
                  (λ x lo hi. (
                    (keeps x (omega arith)).0 ∙ ground arith,
                    (keeps x (omega arith)).1 (omega arith) ∙ ground arith,
                  ))
                  h.behind)))))

  pub whole-Run :
      let a' = take_out a c 0 a.memory in
      Run a'.memory a.trusted a'.first a.begin (h.pre ++ occupied c.best_size ∷ h.post) 0 end
  unfolding follower
  whole-Run =
      let m = a.memory in
      let a' = take_out a c 0 m in
      let bound = behind in
      let (front, keeps, marked) =
        taken_out a h.pre c 0 m h.front v.not_null (λ x lt. (refl, refl)) (ground arith) in
      Run-append front (
        is_occupied _ c.result c.best_size 0 end h.post (ground arith)
          ((keeps c.result (omega arith)).0 ∙ h.stored) marked
          (Run-agrees a'.memory
            (λ x lo hi. ((keeps x (omega arith)).0, (keeps x (omega arith)).1 (omega arith)))
            h.behind))
