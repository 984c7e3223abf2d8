-- ===== src/Allocator/SortedList/Chosen.antt =====
-- The free blocks that the search of allocator/allocator_sorted_list prefers.
use mai_fa_sp_4_sem.Base.{
  ℕ, ◌+◌, ◌^◌, ◌≤◌, ◌<◌, ◌≡◌, ◌≢◌, refl, subst, ◌⊎◌, true, false, ◌&&◌, leb, List, [], ◌∷◌, ◌++◌,
  arith,
}
use mai_fa_sp_4_sem.Allocator.SortedList.{
  word, FitMode, first_fit, the_best_fit, the_worst_fit, Choice, is_better, stops,
}
use mai_fa_sp_4_sem.Allocator.SortedList.Blocks.{Block, free, occupied}

-- A statement on the size of every free block.
abbrev pub EachFree : (ℕ → Type 0) → List Block → Type 0
EachFree P [] = Unit {0}
EachFree P (free n ∷ bs) = P n × EachFree P bs
EachFree P (occupied n ∷ bs) = EachFree P bs

pub EachFree-occupied :
    (P : ℕ → Type 0) (bs : List Block) (n : ℕ) → EachFree P bs → EachFree P (bs ++ occupied n ∷ [])
EachFree-occupied P [] n h = tt
EachFree-occupied P (free k ∷ bs) n (p, h) = (p, EachFree-occupied P bs n h)
EachFree-occupied P (occupied k ∷ bs) n h = EachFree-occupied P bs n h

pub EachFree-free :
    (P : ℕ → Type 0) (bs : List Block) (n : ℕ)
    → EachFree P bs
    → P n
    → EachFree P (bs ++ free n ∷ [])
EachFree-free P [] n h q = (q, tt)
EachFree-free P (free k ∷ bs) n (p, h) q = (p, EachFree-free P bs n h q)
EachFree-free P (occupied k ∷ bs) n h q = EachFree-free P bs n h q

pub EachFree-map :
    (P Q : ℕ → Type 0) (bs : List Block) → ((n : ℕ) → P n → Q n) → EachFree P bs → EachFree Q bs
EachFree-map P Q [] f h = tt
EachFree-map P Q (free k ∷ bs) f (p, h) = (f k p, EachFree-map P Q bs f h)
EachFree-map P Q (occupied k ∷ bs) f h = EachFree-map P Q bs f h

-- A block too small for the request and its header.
abbrev pub Small : ℕ → ℕ → Type 0
Small size n = n < size + 16

-- What the mode wants of the chosen size `n` against another `k`.
abbrev pub Prefers : FitMode → ℕ → ℕ → Type 0
Prefers first_fit n k = ⊥
Prefers the_best_fit n k = n ≤ k
Prefers the_worst_fit n k = k ≤ n

-- The first free block that is large enough, or one that is the smallest or the largest of these.
abbrev pub IsChosen : FitMode → ℕ → List Block → ℕ → List Block → Type 0
IsChosen first_fit size pre n post = EachFree (Small size) pre
IsChosen mode size pre n post =
    EachFree (λ k. Small size k ⊎ Prefers mode n k) (pre ++ free n ∷ post)

pub better-zero :
    (mode : FitMode) (held : Choice) (n : ℕ) → held.result ≡ 0 → is_better mode held n ≡ true
unfolding is_better
better-zero first_fit held n h = refl
better-zero the_best_fit held n h = ground arith
better-zero the_worst_fit held n h = ground arith

-- A block that takes the place of another is preferred to all that the other was preferred to.
pub better_trans :
    (mode : FitMode) (held : Choice) (n k : ℕ)
    → held.result ≢ 0
    → is_better mode held n ≡ true
    → Prefers mode held.best_size k
    → Prefers mode n k
unfolding is_better
better_trans first_fit held n k ne h p = p
better_trans the_best_fit held n k ne h p = ground arith
better_trans the_worst_fit held n k ne h p = ground arith

pub kept-Prefers :
    (mode : FitMode) (held : Choice) (n : ℕ)
    → held.result ≢ 0
    → is_better mode held n ≡ false
    → Prefers mode held.best_size n
unfolding is_better
kept-Prefers first_fit held n ne h = ground arith
kept-Prefers the_best_fit held n ne h = ground arith
kept-Prefers the_worst_fit held n ne h = ground arith

pub Prefers-itself : (mode : FitMode) (n : ℕ) → stops mode ≡ false → Prefers mode n n
Prefers-itself first_fit n h = ground arith
Prefers-itself the_best_fit n h = omega arith
Prefers-itself the_worst_fit n h = omega arith

pub IsChosen-of :
    (mode : FitMode) (size n : ℕ) (pre post : List Block)
    → stops mode ≡ false
    → EachFree (λ k. Small size k ⊎ Prefers mode n k) (pre ++ free n ∷ post)
    → IsChosen mode size pre n post
IsChosen-of first_fit size n pre post h e = ground arith
IsChosen-of the_best_fit size n pre post h e = e
IsChosen-of the_worst_fit size n pre post h e = e

pub IsChosen-first_of :
    (mode : FitMode) (size n : ℕ) (pre post : List Block)
    → stops mode ≡ true
    → EachFree (Small size) pre
    → IsChosen mode size pre n post
IsChosen-first_of first_fit size n pre post h e = e
IsChosen-first_of the_best_fit size n pre post h e = ground arith
IsChosen-first_of the_worst_fit size n pre post h e = ground arith

pub taken-facts :
    (mode : FitMode) (size n k : ℕ) (held : Choice)
    → size + 16 < 2 ^ 64
    → k ≡ n
    → (leb (word (size + 16)) k && is_better mode held k) ≡ true
    → (size + 16 ≤ n) × (is_better mode held n ≡ true)
taken-facts mode size n k held w e h =
    (ground arith, subst (λ x. is_better mode held x ≡ true) e (ground arith))

pub kept-facts :
    (mode : FitMode) (size n k : ℕ) (held : Choice)
    → size + 16 < 2 ^ 64
    → k ≡ n
    → (leb (word (size + 16)) k && is_better mode held k) ≡ false
    → Small size n ⊎ (is_better mode held n ≡ false)
kept-facts mode size n k held w e h =
    subst (λ x. Small size x ⊎ (is_better mode held x ≡ false)) e (ground arith)
