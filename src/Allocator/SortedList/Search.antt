-- ===== src/Allocator/SortedList/Search.antt =====
-- The search of allocator/allocator_sorted_list over the free blocks.
use mai_fa_sp_4_sem.Base.{
  ℕ, zero, suc, ◌+◌, ◌^◌, ◌≤◌, ◌<◌, ◌≡◌, ◌≢◌, refl, sym, subst, ◌∙◌, ◌⊎◌, inl, inr, true, false,
  ◌&&◌, ◌==◌, leb, some, List, [], ◌∷◌, ◌++◌, append_assoc, append-nil, length, arith, Bool-cases,
}
use mai_fa_sp_4_sem.Allocator.SortedList.{word, Memory, FitMode, Choice, is_better, stops, search}
use mai_fa_sp_4_sem.Allocator.SortedList.Blocks.{
  Block, free, occupied, Run, done, is_free, is_occupied,
}
use mai_fa_sp_4_sem.Allocator.SortedList.Front.{Front, Front-occupied, Front-free}
use mai_fa_sp_4_sem.Allocator.SortedList.Chosen.{
  EachFree, EachFree-occupied, EachFree-free, EachFree-map, Small, Prefers, IsChosen, better-zero,
  better_trans, kept-Prefers, Prefers-itself, IsChosen-of, IsChosen-first_of, taken-facts,
  kept-facts,
}

module _ (m : Memory) (t first begin end : ℕ) (whole : List Block) where
  -- A free block of the memory that is large enough.
  pub record Candidate (request : ℕ) (c : Choice) : Type 0 where
    pub pre : List Block
    pub post : List Block
    pub front : Front m t first begin pre c.prev_free c.result c.result
    pub stored : m.size c.result ≡ c.best_size
    pub behind : Run m t (m.next c.result) (c.result + 16 + c.best_size) post 0 end
    pub all : whole ≡ pre ++ free c.best_size ∷ post
    pub some_block : c.result ≢ 0
    pub enough : request + 16 ≤ c.best_size

  -- What the search holds after the blocks `seen`.
  abbrev pub Held : FitMode → ℕ → List Block → Choice → Type 0
  Held mode size seen c =
      (c.result ≡ 0) × EachFree (Small size) seen
      ⊎ Candidate size c
        × (stops mode ≡ false)
        × EachFree (λ k. Small size k ⊎ Prefers mode c.best_size k) seen

  -- What the search answers.
  abbrev pub Found : FitMode → ℕ → Choice → Type 0
  Found mode size c =
      (c.result ≡ 0) × EachFree (Small size) whole
      ⊎ ((h : Candidate size c) × IsChosen mode size h.pre c.best_size h.post)

  -- The block at hand takes the place of the one held.
  Held-taken :
      (mode : FitMode) (size n : ℕ) (seen : List Block) (held c : Choice)
      → c.best_size ≡ n
      → Candidate size c
      → stops mode ≡ false
      → is_better mode held n ≡ true
      → Held mode size seen held
      → Held mode size (seen ++ free n ∷ []) c
  Held-taken mode size n seen held c e h s b (inl (z, small)) = inr (
    h,
    s,
    EachFree-free (λ k. Small size k ⊎ Prefers mode c.best_size k) seen n
        (EachFree-map (Small size) (λ k. Small size k ⊎ Prefers mode c.best_size k) seen
          (λ k lt. inl lt) small)
        (inr (subst (λ x. Prefers mode c.best_size x) e (Prefers-itself mode c.best_size s))),
  )
  Held-taken mode size n seen held c e h s b (inr (h', s', best)) = inr (
    h,
    s,
    EachFree-free (λ k. Small size k ⊎ Prefers mode c.best_size k) seen n
        (EachFree-map (λ k. Small size k ⊎ Prefers mode held.best_size k)
          (λ k. Small size k ⊎ Prefers mode c.best_size k) seen
          (λ k. elim [
            | inl lt ↦ inl lt
            | inr p ↦ inr (
                subst (λ x. Prefers mode x k) (sym e)
                  (better_trans mode held n k h'.some_block b p))
          ])
          best)
        (inr (subst (λ x. Prefers mode c.best_size x) e (Prefers-itself mode c.best_size s))),
  )

  -- The block at hand is passed over.
  Held-kept :
      (mode : FitMode) (size n : ℕ) (seen : List Block) (held : Choice)
      → Small size n ⊎ (is_better mode held n ≡ false)
      → Held mode size seen held
      → Held mode size (seen ++ free n ∷ []) held
  Held-kept mode size n seen held (inl lt) (inl (z, small)) =
      inl (z, EachFree-free (Small size) seen n small lt)
  Held-kept mode size n seen held (inr b) (inl (z, small)) =
      absurd (ground (arith, better-zero mode held n z))
  Held-kept mode size n seen held (inl lt) (inr (h, s, best)) =
      inr (
        h,
        s,
        EachFree-free (λ k. Small size k ⊎ Prefers mode held.best_size k) seen n best (inl lt),
      )
  Held-kept mode size n seen held (inr b) (inr (h, s, best)) = inr (
    h,
    s,
    EachFree-free (λ k. Small size k ⊎ Prefers mode held.best_size k) seen n best
        (inr (kept-Prefers mode held n h.some_block b)),
  )

  Held-occupied :
      (mode : FitMode) (size n : ℕ) (seen : List Block) (held : Choice)
      → Held mode size seen held
      → Held mode size (seen ++ occupied n ∷ []) held
  Held-occupied mode size n seen held (inl (z, small)) =
      inl (z, EachFree-occupied (Small size) seen n small)
  Held-occupied mode size n seen held (inr (h, s, best)) =
      inr (h, s, EachFree-occupied (λ k. Small size k ⊎ Prefers mode held.best_size k) seen n best)

  first_candidate :
      (mode : FitMode) (size n p c : ℕ) (seen : List Block) (held : Choice)
      → stops mode ≡ true
      → Held mode size seen held
      → Candidate size (record { prev_free = p; result = c; best_size = n })
      → EachFree (Small size) seen
  first_candidate mode size n p c seen held s (inl (z, small)) h = small
  first_candidate mode size n p c seen held s (inr (h', s', best)) h = absurd (ground arith)

  abbrev candidate :
      (size n p c : ℕ) (seen bs : List Block)
      → Front m t first begin seen p c c
      → m.size c ≡ n
      → Run m t (m.next c) (c + 16 + n) bs 0 end
      → whole ≡ seen ++ free n ∷ bs
      → c ≢ 0
      → size + 16 ≤ n
      → Candidate size (record { prev_free = p; result = c; best_size = m.size c })
  candidate size n p c seen bs front e r all ne enough = record {
    pre = seen;
    post = bs;
    front = front;
    stored = refl;
    behind = subst (λ k. Run m t (m.next c) (c + 16 + k) bs 0 end) (sym e) r;
    all = subst (λ k. whole ≡ seen ++ free k ∷ bs) (sym e) all;
    some_block = ne;
    enough = omega (arith, e);
  }

  pub search-Found :
      (fuel : ℕ) (mode : FitMode) (size : ℕ) (seen bs : List Block) (p c f : ℕ) (held : Choice)
      → size + 16 < 2 ^ 64
      → Run m t f c bs 0 end
      → Front m t first begin seen p f c
      → whole ≡ seen ++ bs
      → 0 < c
      → length bs < fuel
      → Held mode size seen held
      → (c' : Choice) × (search fuel mode m size p f held ≡ some c') × Found mode size c'
  unfolding search
  search-Found zero mode size seen bs p c f held w r front e pos lt h = absurd (omega arith)
  search-Found (suc fuel) mode size seen _ p _ _ held w (done _ _) front e pos lt h =
      (held, refl, ended mode size seen held (e ∙ append-nil seen) h)
    where
      ended :
          (mode : FitMode) (size : ℕ) (seen : List Block) (held : Choice)
          → whole ≡ seen
          → Held mode size seen held
          → Found mode size held
      ended mode size seen held e (inl (z, small)) =
          inl (z, subst (EachFree (Small size)) (sym e) small)
      ended mode size seen held e (inr (k, s, best)) = inr (
        k,
        IsChosen-of mode size held.best_size k.pre k.post s (
            subst (EachFree (λ x. Small size x ⊎ Prefers mode held.best_size x)) (sym e ∙ k.all)
              best),
      )
  search-Found fuel mode size seen _ p _ _ held w (is_occupied f c n g d bs ne e' x r) front e pos
        lt h =
      search-Found fuel mode size (seen ++ occupied n ∷ []) bs p (c + 16 + n) f held w r
        (Front-occupied n front ne e' x) (e ∙ sym (append_assoc seen (occupied n ∷ []) bs))
        (omega arith) (omega arith) (Held-occupied mode size n seen held h)
  search-Found (suc fuel) mode size seen _ p _ _ held w (is_free c n g d bs e' r) front e pos lt h =
      let not_null : (c == 0) ≡ false = ground arith in
      let next_front = Front-free n front (omega arith) e' in
      let next_all = e ∙ sym (append_assoc seen (free n ∷ []) bs) in
      elim (Bool-cases (leb (word (size + 16)) (m.size c) && is_better mode held (m.size c))) [
        | inl fits ↦
            (let (enough, better) = taken-facts mode size n (m.size c) held w e' fits in
              let cand = candidate size n p c seen bs front e' r e (omega arith) enough in
              elim (Bool-cases (stops mode)) [
                | inl s ↦
                    rw (not_null, fits, s)
                      (
                        _,
                        refl,
                        inr (
                          cand,
                          IsChosen-first_of mode size (m.size c) seen bs s
                              (first_candidate mode size (m.size c) p c seen held s h cand),
                        ),
                      )
                | inr s ↦
                    rw (not_null, fits, s)
                      (search-Found fuel mode size (seen ++ free n ∷ []) bs c (c + 16 + n)
                        (m.next c) (record { prev_free = p; result = c; best_size = m.size c }) w r
                        next_front next_all (omega arith) (omega arith)
                        (Held-taken mode size n seen held
                          (record { prev_free = p; result = c; best_size = m.size c }) e' cand s
                          better h))
              ])
        | inr refuses ↦
            rw (not_null, refuses)
              (search-Found fuel mode size (seen ++ free n ∷ []) bs c (c + 16 + n) (m.next c) held w
                r next_front next_all (omega arith) (omega arith)
                (Held-kept mode size n seen held
                  (kept-facts mode size n (m.size c) held w e' refuses) h))
      ]
