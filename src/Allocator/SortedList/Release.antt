-- ===== src/Allocator/SortedList/Release.antt =====
-- What becomes of the list of blocks when an occupied one is given back.
use mai_fa_sp_4_sem.Base.{ℕ, ◌+◌, ◌≡◌, refl, ap, List, [], ◌∷◌, ◌++◌, arith}
use mai_fa_sp_4_sem.Allocator.SortedList.Blocks.{
  Block, free, occupied, AllOccupied, NotFree, Separate, EndsPositive, EndsPositive-cons,
}

-- A free block of `n` bytes takes in a free block behind it.
abbrev pub join : ℕ → List Block → List Block
join n (free k ∷ post) = free (n + k + 16) ∷ post
join n post = free n ∷ post

-- The last of the blocks in front takes in the first of the others if both are free.
unfoldable pub attach : List Block → List Block → List Block
attach [] bs = bs
attach (b ∷ c ∷ pre) bs = b ∷ attach (c ∷ pre) bs
attach (free l ∷ []) (free m ∷ bs) = free (l + m + 16) ∷ bs
attach (b ∷ []) bs = b ∷ bs

-- The blocks when the occupied one of `n` bytes between `pre` and `post` is free.
abbrev pub release : List Block → ℕ → List Block → List Block
release pre n post = attach pre (join n post)

join-Separate : (n : ℕ) (post : List Block) → Separate post → Separate (join n post)
join-Separate n [] h = (tt, tt)
join-Separate n (free k ∷ post) h = h
join-Separate n (occupied k ∷ post) h = (tt, h)

NotFree-attach :
    (c : Block) (pre xs bs : List Block) → NotFree (c ∷ pre ++ xs) → NotFree (attach (c ∷ pre) bs)
unfolding attach
NotFree-attach (free l) pre xs bs h = absurd h
NotFree-attach (occupied l) [] xs bs h = tt
NotFree-attach (occupied l) (c ∷ pre) xs bs h = tt

pub release-Separate :
    (pre : List Block) (n : ℕ) (post : List Block)
    → Separate (pre ++ occupied n ∷ post)
    → Separate (release pre n post)
unfolding attach
release-Separate [] n post h = join-Separate n post h
release-Separate (free l ∷ []) n [] h = (tt, tt)
release-Separate (free l ∷ []) n (free k ∷ post) (f, h) = h
release-Separate (free l ∷ []) n (occupied k ∷ post) (f, h) = (tt, h)
release-Separate (occupied l ∷ []) n post h = join-Separate n post h
release-Separate (free l ∷ c ∷ pre) n post (f, h) =
    (NotFree-attach c pre (occupied n ∷ post) (join n post) f, release-Separate (c ∷ pre) n post h)
release-Separate (occupied l ∷ c ∷ pre) n post h = release-Separate (c ∷ pre) n post h

pub release-EndsPositive :
    (pre : List Block) (n : ℕ) (post : List Block)
    → EndsPositive (pre ++ occupied n ∷ post)
    → EndsPositive (release pre n post)
unfolding attach
release-EndsPositive [] n [] h = h
release-EndsPositive [] n (free k ∷ []) h = omega arith
release-EndsPositive [] n (free k ∷ b ∷ post) h = h
release-EndsPositive [] n (occupied k ∷ post) h = h
release-EndsPositive (free l ∷ []) n [] h = omega arith
release-EndsPositive (free l ∷ []) n (free k ∷ []) h = omega arith
release-EndsPositive (free l ∷ []) n (free k ∷ b ∷ post) h = h
release-EndsPositive (free l ∷ []) n (occupied k ∷ post) h = h
release-EndsPositive (occupied l ∷ []) n post h =
    EndsPositive-cons (occupied l) (join n post) (release-EndsPositive [] n post h)
release-EndsPositive (b ∷ c ∷ pre) n post h =
    EndsPositive-cons b (attach (c ∷ pre) (join n post)) (release-EndsPositive (c ∷ pre) n post h)

pub attach-all : (xs bs : List Block) → AllOccupied xs → attach xs bs ≡ xs ++ bs
unfolding attach
attach-all [] bs h = refl
attach-all (free l ∷ xs) bs h = absurd h
attach-all (occupied l ∷ []) bs h = refl
attach-all (occupied l ∷ c ∷ xs) bs h = ap (λ ys. occupied l ∷ ys) (attach-all (c ∷ xs) bs h)

-- Behind an occupied block nothing is merged.
pub attach-apart :
    (pre : List Block) (l o : ℕ) (occs bs : List Block)
    → AllOccupied occs
    → attach (pre ++ free l ∷ occupied o ∷ occs) bs ≡ (pre ++ free l ∷ occupied o ∷ occs) ++ bs
unfolding attach
attach-apart [] l o occs bs h = ap (λ ys. free l ∷ ys) (attach-all (occupied o ∷ occs) bs h)
attach-apart (b ∷ []) l o occs bs h = ap (λ ys. b ∷ ys) (attach-apart [] l o occs bs h)
attach-apart (b ∷ c ∷ pre) l o occs bs h = ap (λ ys. b ∷ ys) (attach-apart (c ∷ pre) l o occs bs h)

pub attach-free :
    (pre : List Block) (l n : ℕ) (post : List Block)
    → attach (pre ++ free l ∷ []) (join n post) ≡ pre ++ join (l + n + 16) post
unfolding attach
attach-free [] l n [] = refl
attach-free [] l n (free k ∷ post) = ap (λ m. free m ∷ post) (omega arith)
attach-free [] l n (occupied k ∷ post) = refl
attach-free (b ∷ []) l n post = ap (λ xs. b ∷ xs) (attach-free [] l n post)
attach-free (b ∷ c ∷ pre) l n post = ap (λ xs. b ∷ xs) (attach-free (c ∷ pre) l n post)
