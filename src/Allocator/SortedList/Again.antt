-- ===== src/Allocator/SortedList/Again.antt =====
-- An allocation of allocator/allocator_sorted_list and its deallocation leave the blocks as they were.
use mai_fa_sp_4_sem.Base.{
  ℕ, ◌+◌, ◌-◌, ◌^◌, ◌<◌, ◌≡◌, ◌≢◌, length-append, refl, ap, sym, subst, ◌∙◌, inl, inr, Bool, leb,
  if◌then◌else◌, List, [], ◌∷◌, ◌++◌, length, arith, Bool-cases,
}
use mai_fa_sp_4_sem.Allocator.SortedList.{
  Allocator, create, allocate, allocated, bad_alloc, deallocate, deallocated, FitMode, Memory,
}
use mai_fa_sp_4_sem.Allocator.SortedList.Blocks.{
  Block, free, occupied, Run, done, is_free, Separate, Separate-back, NotFree, IsValid, extent,
}
use mai_fa_sp_4_sem.Allocator.SortedList.Release.{join, attach}
use mai_fa_sp_4_sem.Allocator.SortedList.Allocate.{Allocates, allocate-Allocates}
use mai_fa_sp_4_sem.Allocator.SortedList.Deallocate.{deallocate-release}

-- Nothing is merged in front of a free block that stands alone.
attach-Separate :
    (pre : List Block) (n : ℕ) (post : List Block)
    → Separate (pre ++ free n ∷ post)
    → attach pre (free n ∷ post) ≡ pre ++ free n ∷ post
unfolding attach
attach-Separate [] n post h = refl
attach-Separate (free l ∷ []) n post (f, h) = absurd f
attach-Separate (occupied l ∷ []) n post h = refl
attach-Separate (free l ∷ c ∷ pre) n post (f, h) =
    ap (λ bs. free l ∷ bs) (attach-Separate (c ∷ pre) n post h)
attach-Separate (occupied l ∷ c ∷ pre) n post h =
    ap (λ bs. occupied l ∷ bs) (attach-Separate (c ∷ pre) n post h)

join-NotFree : (n : ℕ) (post : List Block) → NotFree post → join n post ≡ free n ∷ post
join-NotFree n [] h = refl
join-NotFree n (free k ∷ post) h = absurd h
join-NotFree n (occupied k ∷ post) h = refl

granted_not_refused : (a : Allocator) (at : ℕ) → allocated a at ≢ bad_alloc
granted_not_refused a at e = ground arith

granted_same : (a b : Allocator) (at bt : ℕ) → allocated a at ≡ allocated b bt → (a ≡ b) × (at ≡ bt)
granted_same a b at bt e = (cc, cc)

before_chosen :
    (a : Allocator) (bs : List Block) (size fuel : ℕ)
    → (r : Allocates a bs size) → length bs < fuel
    → length r.pre < fuel
before_chosen a bs size fuel r enough =
    omega (arith, enough, ap length r.whole ∙ length-append r.pre (free r.chosen_size ∷ r.post))

module _ (fuel : ℕ) (a : Allocator) (bs : List Block) (size : ℕ) (v : IsValid a bs)
    (r : Allocates a bs size) (enough : length r.pre < fuel) where
  Undone : Type 0
  Undone = (a' : Allocator) × (deallocate fuel r.result r.at ≡ deallocated a') × IsValid a' bs

  place : r.at ≡ r.result.begin + extent r.pre + 16
  place = r.place ∙ ap (λ x. x + extent r.pre + 16) (sym r.same_begin)

  undone :
      (n : ℕ) (rest : List Block)
      → IsValid r.result (r.pre ++ occupied n ∷ rest)
      → join n rest ≡ free r.chosen_size ∷ r.post
      → Undone
  unfolding Undone
  undone n rest valid e =
      let (a', ends, valid') = deallocate-release fuel r.result r.pre n rest valid enough in
      (
        a',
        ap (deallocate fuel r.result) place ∙ ends,
        subst (IsValid a')
            (ap (attach r.pre) e
              ∙ attach-Separate r.pre r.chosen_size r.post (subst Separate r.whole v.separate)
              ∙ sym r.whole)
            valid',
      )

  undone_either : Undone
  undone_either = elim (Bool-cases (leb (size + 17) r.chosen_size)) [
    | inl big ↦
        undone size (free (r.chosen_size - size - 16) ∷ r.post)
          (subst (IsValid r.result)
            (ap
              (λ x.
                r.pre
                ++ (if x
                    then occupied size ∷ free (r.chosen_size - size - 16) ∷ r.post
                    else occupied r.chosen_size ∷ r.post))
              big)
            r.valid)
          (ap (λ x. free x ∷ r.post) (ground arith))
    | inr small ↦
        undone r.chosen_size r.post
          (subst (IsValid r.result)
            (ap
              (λ x.
                r.pre
                ++ (if x
                    then occupied size ∷ free (r.chosen_size - size - 16) ∷ r.post
                    else occupied r.chosen_size ∷ r.post))
              small)
            r.valid)
          (join-NotFree r.chosen_size r.post
            (Separate-back r.pre (free r.chosen_size ∷ r.post)
              (subst Separate r.whole v.separate)).0)
  ]

-- To give back at once what an allocation on a valid memory has returned, succeeds and leaves a valid
-- memory with the blocks that were there before, whether the chosen block was cut or not; the
-- request and a header fit a `size_t`, and the fuel is above the number of blocks.
pub deallocate-allocated :
    (fuel : ℕ) (a a₁ : Allocator) (bs : List Block) (size at : ℕ)
    → IsValid a bs
    → length bs < fuel
    → size + 16 < 2 ^ 64
    → allocate fuel a size ≡ allocated a₁ at
    → (a' : Allocator) × (deallocate fuel a₁ at ≡ deallocated a') × IsValid a' bs
unfolding Undone
deallocate-allocated fuel a a₁ bs size at v enough w h =
    elim (allocate-Allocates fuel a bs size v enough w) [
      | inl (refused, _) ↦ absurd (granted_not_refused a₁ at (sym h ∙ refused))
      | inr (r, e) ↦
          (let (same, same_at) = granted_same r.result a₁ r.at at (sym e ∙ h) in
            subst (λ x. (a' : Allocator) × (deallocate fuel x at ≡ deallocated a') × IsValid a' bs)
              same
              (subst
                (λ x.
                  (a' : Allocator) × (deallocate fuel r.result x ≡ deallocated a') × IsValid a' bs)
                same_at (undone_either fuel a bs size v r (before_chosen a bs size fuel r enough))))
    ]

-- The constructor makes one free block of a piece of memory that is not empty.
pub create-IsValid :
    (trusted begin space_size : ℕ) (mode : FitMode) (has_logger : Bool) (m : Memory)
    → 0 < begin
    → 0 < space_size
    → begin + 16 + space_size < 2 ^ 64
    → IsValid (create trusted begin space_size mode has_logger m) (free space_size ∷ [])
unfolding create
create-IsValid trusted begin space_size mode has_logger m b s w = record {
  not_null = b;
  run = is_free begin space_size 0 (begin + 16 + space_size) [] (ground arith) (
      subst
        (λ f.
          Run (create trusted begin space_size mode has_logger m).memory trusted f
            (begin + 16 + space_size) [] 0 (begin + 16 + space_size))
        (ground arith) (done (begin + 16 + space_size) 0));
  fits = w;
  separate = (tt, tt);
  ends = s;
}
