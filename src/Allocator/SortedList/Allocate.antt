-- ===== src/Allocator/SortedList/Allocate.antt =====
-- What `do_allocate_sm` of allocator/allocator_sorted_list makes of the blocks.
use mai_fa_sp_4_sem.Base.{
  ℕ, ◌+◌, ◌^◌, ◌≤◌, ◌<◌, ◌≡◌, refl, subst, ◌⊎◌, inl, inr, false, ◌==◌, leb, List, [], ◌∷◌, ◌++◌,
  length, arith, Bool-cases, leb→le,
}
use mai_fa_sp_4_sem.Allocator.SortedList.{
  Allocator, Choice, split, take_out, allocate, allocated, bad_alloc, nothing_held,
}
use mai_fa_sp_4_sem.Allocator.SortedList.Blocks.{
  Block, free, Run, done, Run-le, Run-extent, extent, Separate, NotFree, Separate-front,
  Separate-back, EndsPositive, EndsPositive-append, EndsPositive-back, IsValid,
}
use mai_fa_sp_4_sem.Allocator.SortedList.Front.{no_free, Front-run}
use mai_fa_sp_4_sem.Allocator.SortedList.Chosen.{Small, EachFree, IsChosen}
use mai_fa_sp_4_sem.Allocator.SortedList.Search.{Candidate, search-Found}
use mai_fa_sp_4_sem.Allocator.SortedList.Cut.{carve, split-cut, split-whole, cut-Run, whole-Run}

carve-Separate :
    (size n : ℕ) (post : List Block)
    → Separate (free n ∷ post)
    → NotFree (carve size n post) × Separate (carve size n post)
carve-Separate size n post (f, h) = ground arith

carve-EndsPositive :
    (size n : ℕ) (post : List Block)
    → size + 16 ≤ n
    → EndsPositive (free n ∷ post)
    → EndsPositive (carve size n post)
carve-EndsPositive size n [] le h = ground arith
carve-EndsPositive size n (b ∷ post) le h = ground arith

-- What an allocation answers when it does not throw: one of the free blocks is taken, by the rule of
-- the mode, and the memory is as valid as before.
pub record Allocates (a : Allocator) (bs : List Block) (request : ℕ) : Type 0 where
  pub result : Allocator
  pub at : ℕ
  pub pre : List Block
  pub post : List Block
  pub chosen_size : ℕ
  pub same_begin : result.begin ≡ a.begin
  pub whole : bs ≡ pre ++ free chosen_size ∷ post
  pub place : at ≡ a.begin + extent pre + 16
  pub enough : request + 16 ≤ chosen_size
  pub chosen : IsChosen a.mode request pre chosen_size post
  pub valid : IsValid result (pre ++ carve request chosen_size post)

module _ (a : Allocator) (bs : List Block) (size : ℕ) (c : Choice) (v : IsValid a bs)
    (h : Candidate a.memory a.trusted a.first a.begin (a.begin + 16 + a.space_size) bs size c) where
  carved-Run :
      let s = split a.memory size c in
      let a' = take_out a c s.1 s.0 in
      Run a'.memory a.trusted a'.first a.begin
        (h.pre ++ carve size c.best_size h.post)
        0
        (a.begin + 16 + a.space_size)
  carved-Run =
      let inside : c.result + 16 + c.best_size < 2 ^ 64 = omega (arith, v.fits, Run-le h.behind) in
      elim (Bool-cases (leb (size + 17) c.best_size)) [
        | inl big ↦
            rw (big, split-cut a.memory size c (leb→le (size + 17) c.best_size big) inside)
              (cut-Run a bs size c v h (leb→le (size + 17) c.best_size big))
        | inr small ↦
            rw (small, split-whole a.memory size c h.enough (ground arith) inside)
              (whole-Run a bs size c v h)
      ]

  take_out-IsValid :
      let s = split a.memory size c in
      IsValid (take_out a c s.1 s.0) (h.pre ++ carve size c.best_size h.post)
  unfolding take_out
  take_out-IsValid =
      let all = h.all in
      let separate = subst Separate all v.separate in
      let (starts, carved) =
        carve-Separate size c.best_size h.post
          (Separate-back h.pre (free c.best_size ∷ h.post) separate) in
      record {
        not_null = v.not_null;
        run = carved-Run;
        fits = v.fits;
        separate =
            Separate-front h.pre (free c.best_size) h.post (carve size c.best_size h.post) separate
              starts carved;
        ends = EndsPositive-append h.pre (carve size c.best_size h.post) (
            carve-EndsPositive size c.best_size h.post h.enough
              (EndsPositive-back h.pre (free c.best_size) h.post (subst EndsPositive all v.ends)));
      }

-- On a valid memory and a fuel above the number of blocks, an allocation of a size whose sum with a
-- header is below 2^64 ends. It throws exactly if every free block is smaller than the
-- request and a header; otherwise it takes one of the free blocks that are large enough: the first
-- one, one of the smallest or one of the largest as the mode says. It cuts off what the request does
-- not need, if that is more than a header, and leaves a valid memory.
pub allocate-Allocates :
    (fuel : ℕ) (a : Allocator) (bs : List Block) (size : ℕ)
    → IsValid a bs
    → length bs < fuel
    → size + 16 < 2 ^ 64
    → (allocate fuel a size ≡ bad_alloc) × EachFree (Small size) bs
      ⊎ ((r : Allocates a bs size) × (allocate fuel a size ≡ allocated r.result r.at))
unfolding allocate take_out
allocate-Allocates fuel a bs size v enough w =
    let (c, e, found) =
      search-Found a.memory a.trusted a.first a.begin (a.begin + 16 + a.space_size) bs fuel a.mode
        size [] bs 0 a.begin a.first nothing_held w v.run
        (no_free [] a.begin tt (done a.begin a.first)) refl v.not_null enough (inl (refl, tt)) in
    rw (e, allocate)
      (elim found [
        | inl (null, small) ↦ rw null (inl (refl, small))
        | inr (h, chosen) ↦
            (let not_null : (c.result == 0) ≡ false = ground (arith, h.some_block) in
              rw not_null (
                inr (
                  record {
                    result = take_out a c (split a.memory size c).1 (split a.memory size c).0;
                    at = c.result + 16;
                    pre = h.pre;
                    post = h.post;
                    chosen_size = c.best_size;
                    same_begin = refl;
                    whole = h.all;
                    place = omega (arith, Run-extent (Front-run h.front));
                    enough = h.enough;
                    chosen = chosen;
                    valid = take_out-IsValid a bs size c v h;
                  },
                  refl,
                )))
      ])
