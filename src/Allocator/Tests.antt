-- ===== src/Allocator/Tests.antt =====
-- Runs of allocator/ on a memory of a thousand bytes, and each theorem at such a run.
use mai_fa_sp_4_sem.Base.{
  ℕ, ◌-◌, ◌^◌, ◌≡◌, refl, ◌⊎◌, Bool, true, false, Option, some, none, List, [], ◌∷◌, arith,
}
use mai_fa_sp_4_sem.Allocator.SortedList.{
  first_fit, Memory, Allocator, set_size, set_next, is_better, search, split, take_out, Allocation,
  allocated, bad_alloc, allocate, find_prev, get_blocks_info, try_merge, Deallocation, deallocated,
  put_back, deallocate,
}
use mai_fa_sp_4_sem.Allocator.SortedList.Blocks.{
  free, occupied, done, is_free, is_occupied, IsValid,
}
use mai_fa_sp_4_sem.Allocator.SortedList.Chosen.{Small, EachFree}
use mai_fa_sp_4_sem.Allocator.SortedList.Allocate.{Allocates, allocate-Allocates}
use mai_fa_sp_4_sem.Allocator.SortedList.Release.{release}
use mai_fa_sp_4_sem.Allocator.SortedList.Deallocate.{deallocate-release}
use mai_fa_sp_4_sem.Allocator.SortedList.Again.{deallocate-allocated}

abbrev blank : Memory
blank = record { size = λ x. 7; next = λ x. 7 }

abbrev fresh : Allocator
fresh = record {
  trusted = 100;
  begin = 200;
  space_size = 1000;
  mode = first_fit;
  has_logger = false;
  first = 200;
  memory = set_next (set_size blank 200 1000) 200 0;
}

fresh-IsValid : IsValid fresh (free 1000 ∷ [])
fresh-IsValid = record {
  not_null = omega arith;
  run = is_free 200 1000 0 1216 [] refl (done 1216 0);
  fits = omega arith;
  separate = (tt, tt);
  ends = omega arith;
}

-- Behind 50 bytes in use.
abbrev used : Allocator
used = record {
  trusted = 100;
  begin = 200;
  space_size = 1000;
  mode = first_fit;
  has_logger = false;
  first = 266;
  memory = set_next (set_next (set_size (set_size blank 200 50) 266 934) 266 0) 200 100;
}

used-IsValid : IsValid used (occupied 50 ∷ free 934 ∷ [])
used-IsValid = record {
  not_null = omega arith;
  run =
      is_occupied 266 200 50 0 1216 (free 934 ∷ []) (omega arith) refl refl
        (is_free 266 934 0 1216 [] refl (done 1216 0));
  fits = omega arith;
  separate = (tt, tt);
  ends = omega arith;
}

abbrev address : Allocation → ℕ
address (allocated a at) = at
address _ = 0

abbrev blocks : Allocation → Option (List (ℕ × Bool))
blocks (allocated a at) = get_blocks_info 5 a a.begin a.first
blocks _ = none

allocates : blocks (allocate 2 fresh 50) ≡ some ((50, true) ∷ (934, false) ∷ [])
unfolding allocate search is_better split take_out get_blocks_info
allocates = refl

-- A request whose sum with a header is not a `size_t` any more is granted, in a block of 1000 bytes.
overflows : address (allocate 2 fresh (2 ^ 64 - 8)) ≡ 216
unfolding allocate search is_better split take_out
overflows = refl

abbrev left : Deallocation → Option (List (ℕ × Bool))
left (deallocated a) = get_blocks_info 5 a a.begin a.first
left _ = none

deallocates : left (deallocate 5 used 216) ≡ some ((1000, false) ∷ [])
unfolding deallocate find_prev put_back try_merge get_blocks_info
deallocates = refl

-- Without a logger a block that is not in use is given back all the same: the free list ends in a
-- circle.
abbrev next_of_first : Deallocation → ℕ
next_of_first (deallocated a) = a.memory.next a.first
next_of_first _ = 0

deallocates_twice : next_of_first (deallocate 5 fresh 216) ≡ 200
unfolding deallocate find_prev put_back try_merge
deallocates_twice = refl

allocate-Allocates_example :
    (allocate 2 fresh 50 ≡ bad_alloc) × EachFree (Small 50) (free 1000 ∷ [])
    ⊎ ((r : Allocates fresh (free 1000 ∷ []) 50) × (allocate 2 fresh 50 ≡ allocated r.result r.at))
allocate-Allocates_example =
    allocate-Allocates 2 fresh (free 1000 ∷ []) 50 fresh-IsValid (omega arith) (omega arith)

deallocate-release_example :
    (a' : Allocator) × (deallocate 5 used 216 ≡ deallocated a')
    × IsValid a' (release [] 50 (free 934 ∷ []))
deallocate-release_example =
    deallocate-release 5 used [] 50 (free 934 ∷ []) used-IsValid (omega arith)

-- The memory and the address that an allocation of 50 bytes returns.
abbrev granted : Allocation → Allocator × ℕ
granted (allocated a at) = (a, at)
granted _ = (fresh, 0)

abbrev first : Allocator × ℕ
first = granted (allocate 5 fresh 50)

first_allocated : allocate 5 fresh 50 ≡ allocated first.0 first.1
unfolding allocate search is_better split take_out
first_allocated = refl

deallocate-allocated_example :
    (a' : Allocator) × (deallocate 5 first.0 first.1 ≡ deallocated a') × IsValid a' (free 1000 ∷ [])
deallocate-allocated_example =
    deallocate-allocated 5 fresh first.0 (free 1000 ∷ []) 50 first.1 fresh-IsValid (omega arith)
      (omega arith) first_allocated
