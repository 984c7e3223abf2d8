-- ===== src/Allocator/SortedList/Deallocate.antt =====
-- What `do_deallocate_sm` of allocator/allocator_sorted_list makes of the blocks.
use mai_fa_sp_4_sem.Base.{
  ℕ, zero, suc, ◌+◌, ◌-◌, ◌<◌, ◌≡◌, refl, ap, sym, subst, inl, inr, true, false, not, ◌&&◌, ◌||◌,
  ◌==◌, leb, some, List, [], ◌∷◌, ◌++◌, append_assoc, append-nil, length, arith,
}
use mai_fa_sp_4_sem.Allocator.SortedList.{
  Memory, Allocator, find_prev, put_back, deallocate, deallocated,
}
use mai_fa_sp_4_sem.Allocator.SortedList.Blocks.{
  Block, free, occupied, Run, done, is_free, is_occupied, Run-le, Run-extent, Run-split, extent,
  EndsPositive-back, EndsPositive-extent, IsValid,
}
use mai_fa_sp_4_sem.Allocator.SortedList.Front.{Front, no_free, behind, Front-occupied, Front-free}
use mai_fa_sp_4_sem.Allocator.SortedList.Release.{
  join, release, release-Separate, release-EndsPositive, attach-all, attach-apart,
}
use mai_fa_sp_4_sem.Allocator.SortedList.Merge.{try_merge-apart, put_back-apart, put_back-merged}

put_back-Run :
    (a : Allocator) (pre : List Block) (n : ℕ) (post : List Block) (p g h : ℕ)
    → IsValid a (pre ++ occupied n ∷ post)
    → Front a.memory a.trusted a.first a.begin pre p g h
    → a.memory.size h ≡ n
    → Run a.memory a.trusted g (h + 16 + n) post 0 (a.begin + 16 + a.space_size)
    → let a' = put_back a p h in
      Run a'.memory a.trusted a'.first a.begin (release pre n post) 0 (a.begin + 16 + a.space_size)
put_back-Run a _ n post _ _ h v (no_free pre _ o r) s back =
    put_back-apart a pre n post 0 a.first h v (no_free pre h o r) s back
      (try_merge-apart _ 0 h (inl refl)) (attach-all pre (join n post) o)
put_back-Run a _ n post _ _ h v (behind pre [] p l _ ne r e o q) s back =
    put_back-merged a (pre ++ free l ∷ []) n post p (a.memory.next p) h v
      (behind pre [] p l h ne r e o q) s back pre l refl ne r e (omega (arith, Run-extent q))
put_back-Run a _ n post _ _ h v (behind pre (occupied k ∷ occs) p l _ ne r e o q) s back =
    put_back-apart a (pre ++ free l ∷ occupied k ∷ occs) n post p (a.memory.next p) h v
      (behind pre (occupied k ∷ occs) p l h ne r e o q) s back
      (try_merge-apart _ p h (inr (let far = Run-extent q in ground arith)))
      (attach-apart pre l k occs (join n post) o)
put_back-Run a _ n post _ _ h v (behind pre (free k ∷ occs) p l _ ne r e o q) s back = absurd o

-- The loop stops at the header and has the last free block before it.
find_prev-Front :
    (a : Allocator) (fuel : ℕ) (seen bs : List Block) (p c f g h : ℕ)
    → Run a.memory a.trusted f c bs g h
    → Front a.memory a.trusted a.first a.begin seen p f c
    → 0 < c
    → h < a.begin + a.space_size
    → length bs < fuel
    → (p' : ℕ) × (find_prev fuel a c f p h ≡ some p')
      × Front a.memory a.trusted a.first a.begin (seen ++ bs) p' g h
unfolding find_prev
find_prev-Front a zero seen bs p c f g h r front pos inside lt = absurd (omega arith)
find_prev-Front a (suc fuel) seen _ p _ _ _ _ (done c f) front pos inside lt =
    let here : (c == 0 || c == c) ≡ true = ground arith in
    rw here (
      p,
      refl,
      subst (λ bs. Front a.memory a.trusted a.first a.begin bs p f c) (sym (append-nil seen)) front,
    )
find_prev-Front a (suc fuel) seen _ p _ _ _ _ (is_free c n g h bs e r) front pos inside lt =
    let le = Run-le r in
    let before : (c == 0 || c == h) ≡ false = ground arith in
    let here : (c == c) ≡ true = ground arith in
    let on : leb (a.begin + a.space_size) (c + 16 + a.memory.size c) ≡ false = ground arith in
    let (p', found, front') =
      find_prev-Front a fuel (seen ++ free n ∷ []) bs c (c + 16 + n) (a.memory.next c) g h r
        (Front-free n front (omega arith) e) (omega arith) inside (omega arith) in
    rw (before, here, on, e)
      (
        p',
        found,
        subst (λ bs. Front a.memory a.trusted a.first a.begin bs p' g h)
            (append_assoc seen (free n ∷ []) bs) front',
      )
find_prev-Front a (suc fuel) seen _ p _ _ _ _ (is_occupied f c n g h bs ne e x r) front pos inside
      lt =
    let le = Run-le r in
    let before : (c == 0 || c == h) ≡ false = ground arith in
    let taken : (c == f) ≡ false = ground arith in
    let on : leb (a.begin + a.space_size) (c + 16 + a.memory.size c) ≡ false = ground arith in
    let (p', found, front') =
      find_prev-Front a fuel (seen ++ occupied n ∷ []) bs p (c + 16 + n) f g h r
        (Front-occupied n front ne e x) (omega arith) inside (omega arith) in
    rw (before, taken, on, e)
      (
        p',
        found,
        subst (λ bs. Front a.memory a.trusted a.first a.begin bs p' g h)
            (append_assoc seen (occupied n ∷ []) bs) front',
      )

-- Where an occupied block stands in memory.
Run-header :
    {m : Memory} {t f c g d n : ℕ} {bs : List Block}
    → Run m t f c (occupied n ∷ bs) g d
    → (m.size c ≡ n) × (m.next c ≡ t) × Run m t f (c + 16 + n) bs g d
Run-header (is_occupied f c n g d bs ne e x r) = (e, x, r)

put_back-IsValid :
    (a : Allocator) (pre : List Block) (n : ℕ) (post : List Block) (p g h : ℕ)
    → IsValid a (pre ++ occupied n ∷ post)
    → Front a.memory a.trusted a.first a.begin pre p g h
    → a.memory.size h ≡ n
    → Run a.memory a.trusted g (h + 16 + n) post 0 (a.begin + 16 + a.space_size)
    → IsValid (put_back a p h) (release pre n post)
unfolding put_back
put_back-IsValid a pre n post p g h v front sized back = record {
  not_null = v.not_null;
  run = put_back-Run a pre n post p g h v front sized back;
  fits = v.fits;
  separate = release-Separate pre n post v.separate;
  ends = release-EndsPositive pre n post v.ends;
}

deallocate-put_back :
    (fuel : ℕ) (a : Allocator) (at h p : ℕ)
    → at - 16 ≡ h
    → a.memory.next h ≡ a.trusted
    → find_prev fuel a a.begin a.first 0 h ≡ some p
    → deallocate fuel a at ≡ deallocated (put_back a p h)
unfolding deallocate
deallocate-put_back fuel a at h p header marked found =
    let ours : (not (a.memory.next h == a.trusted) && a.has_logger) ≡ false =
      ground (arith, marked) in
    rw (header, ours, found) (ap (λ x. deallocated (put_back a p x)) header)

-- To give back an occupied block of a valid memory, on a fuel above the number of blocks before it,
-- ends without an error: the block is free, it is
-- one with the free blocks that stood beside it, and the memory is as valid as before.
pub deallocate-release :
    (fuel : ℕ) (a : Allocator) (pre : List Block) (n : ℕ) (post : List Block)
    → IsValid a (pre ++ occupied n ∷ post)
    → length pre < fuel
    → (a' : Allocator) × (deallocate fuel a (a.begin + extent pre + 16) ≡ deallocated a')
      × IsValid a' (release pre n post)
deallocate-release fuel a pre n post v enough =
    let (g, h, front_run, rest) = Run-split pre (occupied n ∷ post) v.run in
    let (sized, marked, back) = Run-header rest in
    let last =
      EndsPositive-extent (occupied n ∷ post) (EndsPositive-back pre (occupied n) post v.ends) in
    let (p, found, front) =
      find_prev-Front a fuel [] pre 0 a.begin a.first g h front_run
        (no_free [] a.begin tt (done a.begin a.first)) v.not_null (omega (arith, Run-extent rest))
        enough in
    (
      put_back a p h,
      deallocate-put_back fuel a (a.begin + extent pre + 16) h p
          (omega (arith, Run-extent front_run)) marked found,
      put_back-IsValid a pre n post p g h v front sized back,
    )
