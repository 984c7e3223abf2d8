-- ===== src/Allocator/SortedList/Merge.antt =====
-- How `do_deallocate_sm` of allocator/allocator_sorted_list links a header and merges it.
use mai_fa_sp_4_sem.Base.{
  ℕ, ◌+◌, ◌^◌, ◌<◌, ◌≡◌, ◌≢◌, refl, ap, sym, subst, ◌∙◌, ◌⊎◌, inl, inr, true, false, ◌&&◌, ◌||◌,
  ◌==◌, ltb, if◌then◌else◌, List, [], ◌∷◌, ◌++◌, arith, Bool-cases,
}
use mai_fa_sp_4_sem.Allocator.SortedList.{
  word, Memory, set_size, set_next, Allocator, try_merge, put_back,
}
use mai_fa_sp_4_sem.Allocator.SortedList.Blocks.{
  Block, free, occupied, Run, done, is_free, is_occupied, Run-le, Run-agrees, Run-append, Run-first,
  IsValid,
}
use mai_fa_sp_4_sem.Allocator.SortedList.Front.{Front, Front-run, Front-first, Front-retarget}
use mai_fa_sp_4_sem.Allocator.SortedList.Release.{join, attach, release, attach-free}

-- A merge writes the header of the left block only.
abbrev Outside : Memory → Memory → ℕ → Type 0
Outside m m' x = (y : ℕ) → y ≢ x → (m'.size y ≡ m.size y) × (m'.next y ≡ m.next y)

pub try_merge-apart :
    (m : Memory) (left right : ℕ)
    → (left ≡ 0) ⊎ (left + 16 + m.size left ≢ right)
    → try_merge m left right ≡ (m, false)
unfolding try_merge
try_merge-apart m left right h = elim (Bool-cases (left == 0 || right == 0)) [
  | inl null ↦ rw null refl
  | inr given ↦
      (let apart : (left + 16 + m.size left == right) ≡ false = ground arith in
        rw (given, apart) refl)
]

try_merge-meets :
    (m : Memory) (left right : ℕ)
    → left ≢ 0
    → left + 16 + m.size left ≡ right
    → ((try_merge m left right).1 ≡ true) × ((try_merge m left right).0.next left ≡ m.next right)
unfolding try_merge
try_merge-meets m left right ne h =
    let given : (left == 0 || right == 0) ≡ false = ground arith in
    let meets : (left + 16 + m.size left == right) ≡ true = ground arith in
    rw (given, meets) (refl, ground arith)

merge_with :
    (m : Memory) (t x n f e : ℕ) (post : List Block)
    → 0 < x
    → m.size x ≡ n
    → m.next x ≡ f
    → Run m t f (x + 16 + n) post 0 e
    → e < 2 ^ 64
    → let m' = (try_merge m x f).0 in Run m' t x x (join n post) 0 e × Outside m m' x
unfolding try_merge
merge_with m t x n _ _ _ pos s k (done c _) lt =
    let shut : (x == 0 || 0 == 0) ≡ true = ground arith in
    rw shut (
      is_free x n 0 c [] s (subst (λ g. Run m t g c [] 0 c) (sym k) (done c 0)),
      λ y ne. (refl, refl),
    )
merge_with m t x n _ e _ pos s k (is_free c i _ _ bs z r) lt =
    let open_ : (x == 0 || c == 0) ≡ false = ground arith in
    let meets : (x + 16 + m.size x == c) ≡ true = ground arith in
    let le = Run-le r in
    let sum : word (m.size x + m.size c + 16) ≡ n + i + 16 = omega arith in
    rw (open_, meets, sum)
      (
        is_free x (n + i + 16) 0 e bs (ground arith) (
            Run-agrees (set_next (set_size m x (n + i + 16)) x (m.next c))
              (λ y lo hi. (ground arith, ground arith))
              (subst (λ g. Run m t g (x + 16 + (n + i + 16)) bs 0 e) (ground arith)
                (subst (λ a. Run m t (m.next c) a bs 0 e) (omega arith) r))),
        λ y ne. (ground arith, ground arith),
      )
merge_with m t x n f e _ pos s k (is_occupied _ c i _ _ bs ne z y r) lt =
    rw (try_merge-apart m x f (inr (ground arith))) (
      is_free x n 0 e (occupied i ∷ bs) s (
          subst (λ g. Run m t g c (occupied i ∷ bs) 0 e) (sym k)
            (is_occupied f c i 0 e bs ne z y r)),
      λ y ne. (refl, refl),
    )

Run-uncons :
    {m : Memory} {t f c g d n : ℕ} {bs : List Block}
    → Run m t f c (free n ∷ bs) g d
    → (m.size c ≡ n) × Run m t (m.next c) (c + 16 + n) bs g d
Run-uncons (is_free c n g d bs e r) = (e, r)

module _ (a : Allocator) (pre : List Block) (n : ℕ) (post : List Block) (p g h : ℕ)
    (v : IsValid a (pre ++ occupied n ∷ post))
    (front : Front a.memory a.trusted a.first a.begin pre p g h) (size : a.memory.size h ≡ n)
    (back : Run a.memory a.trusted g (h + 16 + n) post 0 (a.begin + 16 + a.space_size)) where
  abbrev pub end : ℕ
  end = a.begin + 16 + a.space_size

  -- The header stands in the free list.
  abbrev pub linked : Memory
  linked = set_next (if p == 0 then a.memory else set_next a.memory p h) h g

  abbrev first' : ℕ
  first' = if p == 0 then h else a.first

  linked-Front : Front linked a.trusted first' a.begin pre p h h
  linked-Front =
      let place = Front-first front v.not_null in
      Front-retarget linked h front v.not_null (inr (omega arith))
        (λ x lo hi. (ground (arith, place), λ ne. ground (arith, place)))
        (λ ne. ground (arith, place))

  linked-back : Run linked a.trusted g (h + 16 + n) post 0 end
  linked-back =
      let place = Front-first front v.not_null in
      Run-agrees linked (λ x lo hi. (ground (arith, place), ground (arith, place))) back

  linked-size : linked.size h ≡ n
  linked-size = ground (arith, size)

  linked-next : linked.next h ≡ g
  linked-next = ground arith

  header_positive : 0 < h
  header_positive = omega (arith, v.not_null, Run-le (Front-run front))

  -- The header is merged with the block behind it only.
  keeps-pre : Run (try_merge linked h g).0 a.trusted first' a.begin (pre ++ join n post) 0 end
  keeps-pre =
      let (merged, outside) =
        merge_with linked a.trusted h n g end post header_positive linked-size linked-next
          linked-back v.fits in
      Run-append
        (Run-agrees (try_merge linked h g).0 (λ x lo hi. outside x (omega arith))
          (Front-run linked-Front))
        merged

  pub put_back-apart :
      try_merge linked p h ≡ (linked, false)
      → attach pre (join n post) ≡ pre ++ join n post
      → let a' = put_back a p h in
        Run a'.memory a.trusted a'.first a.begin (release pre n post) 0 end
  unfolding put_back
  put_back-apart apart e =
      let place = Front-first front v.not_null in
      let free_next : (if p == 0 then a.first else a.memory.next p) ≡ g = ground (arith, place) in
      let lies : (g ≡ 0) ⊎ (h < g) = omega (arith, Run-first back (inl refl)) in
      let starts : first' ≡ (if p == 0 && ltb h a.first || a.first == 0 then h else a.first) =
        ground (arith, place) in
      rw (free_next, apart)
        (subst
          (λ bs.
            Run (try_merge linked h g).0 a.trusted
              (if p == 0 && ltb h a.first || a.first == 0 then h else a.first) a.begin bs 0 end)
          (sym e)
          (subst (λ f. Run (try_merge linked h g).0 a.trusted f a.begin (pre ++ join n post) 0 end)
            starts keeps-pre))

  pub put_back-merged :
      (pre1 : List Block) (l : ℕ)
      → pre ≡ pre1 ++ free l ∷ []
      → p ≢ 0
      → Run a.memory a.trusted a.first a.begin pre1 p p
      → a.memory.size p ≡ l
      → h ≡ p + 16 + l
      → let a' = put_back a p h in
        Run a'.memory a.trusted a'.first a.begin (release pre n post) 0 end
  unfolding put_back
  put_back-merged pre1 l e ne r s meets =
      let place = Front-first front v.not_null in
      let free_next : (if p == 0 then a.first else a.memory.next p) ≡ g = ground (arith, place) in
      let starts : (if p == 0 && ltb h a.first || a.first == 0 then h else a.first) ≡ a.first =
        ground (arith, place) in
      let tail : Run linked a.trusted h (p + 16 + l) (free n ∷ post) 0 end =
        subst (λ x. Run linked a.trusted h x (free n ∷ post) 0 end) meets
          (is_free h n 0 end post linked-size (
            subst (λ x. Run linked a.trusted x (h + 16 + n) post 0 end) (sym linked-next)
              linked-back)) in
      let (first_merge, first_outside) =
        merge_with linked a.trusted p l h end (free n ∷ post) (omega arith) (ground arith)
          (ground arith) tail v.fits in
      let m = (try_merge linked p h).0 in
      let (merges, goes_on) = try_merge-meets linked p h ne (ground arith) in
      let (sized, rest) = Run-uncons first_merge in
      let next_g : m.next p ≡ g = goes_on ∙ linked-next in
      let (second, second_outside) =
        merge_with m a.trusted p (l + n + 16) g end post (omega arith) sized next_g
          (subst (λ x. Run m a.trusted x (p + 16 + (l + n + 16)) post 0 end) next_g rest) v.fits in
      let m' = (try_merge m p g).0 in
      let front_run : Run m' a.trusted a.first a.begin pre1 p p =
        Run-agrees m'
          (λ x lo hi.
            let (s1, n1) = first_outside x (omega arith) in
            let (s2, n2) = second_outside x (omega arith) in
            (s2 ∙ s1 ∙ ground (arith, place), n2 ∙ n1 ∙ ground (arith, place)))
          r in
      rw (free_next, merges, starts)
        (subst (λ bs. Run m' a.trusted a.first a.begin bs 0 end)
          (sym (ap (λ bs. attach bs (join n post)) e ∙ attach-free pre1 l n post))
          (Run-append front_run second))
