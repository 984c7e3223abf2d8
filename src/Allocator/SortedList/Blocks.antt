-- ===== src/Allocator/SortedList/Blocks.antt =====
-- The memory of allocator/allocator_sorted_list as a list of blocks.
use mai_fa_sp_4_sem.Base.{
  ℕ, ◌+◌, ◌^◌, ◌≤◌, ◌<◌, ◌≡◌, ◌≢◌, refl, sym, subst, ◌∙◌, ◌⊎◌, inl, inr, List, [], ◌∷◌, ◌++◌, arith,
}
use mai_fa_sp_4_sem.Allocator.SortedList.{Memory, Allocator}

pub data Block : Type 0 where
  free : ℕ → Block
  occupied : ℕ → Block

-- The blocks from address `c` up to `d` in memory: `f` is the first free block from `c` on and `g`
-- the first from `d` on. Occupied blocks are marked with `t`.
pub data Run (m : Memory) (t : ℕ) : ℕ → ℕ → List Block → ℕ → ℕ → Type 0 where
  done : (c f : ℕ) → Run m t f c [] f c
  is_free :
      (c n g d : ℕ) (bs : List Block)
      → m.size c ≡ n
      → Run m t (m.next c) (c + 16 + n) bs g d
      → Run m t c c (free n ∷ bs) g d
  is_occupied :
      (f c n g d : ℕ) (bs : List Block)
      → f ≢ c
      → m.size c ≡ n
      → m.next c ≡ t
      → Run m t f (c + 16 + n) bs g d
      → Run m t f c (occupied n ∷ bs) g d

-- What every write keeps: the memory on the addresses of the run.
abbrev pub Agrees : Memory → Memory → ℕ → ℕ → Type 0
Agrees m m' c d = (x : ℕ) → c ≤ x → x < d → (m'.size x ≡ m.size x) × (m'.next x ≡ m.next x)

pub Run-le : {m : Memory} {t f c g d : ℕ} {bs : List Block} → Run m t f c bs g d → c ≤ d
Run-le (done c f) = omega arith
Run-le (is_free c n g d bs e r) = omega (arith, Run-le r)
Run-le (is_occupied f c n g d bs ne e k r) = omega (arith, Run-le r)

pub Run-agrees :
    {m : Memory} (m' : Memory) {t f c g d : ℕ} {bs : List Block}
    → Agrees m m' c d
    → Run m t f c bs g d
    → Run m' t f c bs g d
Run-agrees m' h (done c f) = done c f
Run-agrees m' {t} h (is_free c n g d bs e r) =
    let (s, x) = h c (omega arith) (omega (arith, Run-le r)) in
    is_free c n g d bs (s ∙ e) (
      subst (λ f. Run m' t f (c + 16 + n) bs g d) (sym x)
        (Run-agrees m' (λ y lo hi. h y (omega arith) hi) r))
Run-agrees m' h (is_occupied f c n g d bs ne e k r) =
    let (s, x) = h c (omega arith) (omega (arith, Run-le r)) in
    is_occupied f c n g d bs ne (s ∙ e) (x ∙ k) (Run-agrees m' (λ y lo hi. h y (omega arith) hi) r)

pub Run-append :
    {m : Memory} {t f c g d h e : ℕ} {as' bs : List Block}
    → Run m t f c as' g d
    → Run m t g d bs h e
    → Run m t f c (as' ++ bs) h e
Run-append (done c f) q = q
Run-append (is_free c n g d bs e r) q = is_free c n _ _ _ e (Run-append r q)
Run-append (is_occupied f c n g d bs ne e k r) q = is_occupied f c n _ _ _ ne e k (Run-append r q)

-- The first free block is none or stands in the run.
pub Run-first :
    {m : Memory} {t f c g d : ℕ} {bs : List Block}
    → Run m t f c bs g d
    → (g ≡ 0) ⊎ (d ≤ g)
    → (f ≡ 0) ⊎ (c ≤ f)
Run-first (done c f) k = k
Run-first (is_free c n g d bs e r) k = inr (omega arith)
Run-first (is_occupied f c n g d bs ne e x r) k = omega (arith, Run-first r k)

pub Run-first_ge :
    {m : Memory} {t f c g d : ℕ} {bs : List Block} → Run m t f c bs g d → (f ≡ g) ⊎ (c ≤ f)
Run-first_ge (done c f) = inl refl
Run-first_ge (is_free c n g d bs e r) = inr (omega arith)
Run-first_ge (is_occupied f c n g d bs ne e x r) = omega (arith, Run-first_ge r)

pub Run-first_lt :
    {m : Memory} {t f c g d : ℕ} {bs : List Block} → Run m t f c bs g d → (f ≡ g) ⊎ (f < d)
Run-first_lt (done c f) = inl refl
Run-first_lt (is_free c n g d bs e r) = inr (omega (arith, Run-le r))
Run-first_lt (is_occupied f c n g d bs ne e x r) = Run-first_lt r

abbrev pub block_size : Block → ℕ
block_size (free n) = n
block_size (occupied n) = n

-- The memory that blocks take.
abbrev pub extent : List Block → ℕ
extent [] = 0
extent (b ∷ bs) = 16 + block_size b + extent bs

pub Run-extent :
    {m : Memory} {t f c g d : ℕ} {bs : List Block} → Run m t f c bs g d → d ≡ c + extent bs
Run-extent (done c f) = omega arith
Run-extent (is_free c n g d bs e r) = omega (arith, Run-extent r)
Run-extent (is_occupied f c n g d bs ne e x r) = omega (arith, Run-extent r)

abbrev pub AllOccupied : List Block → Type 0
AllOccupied [] = Unit {0}
AllOccupied (occupied n ∷ bs) = AllOccupied bs
AllOccupied (free n ∷ bs) = ⊥

abbrev pub NotFree : List Block → Type 0
NotFree (free n ∷ bs) = ⊥
NotFree _ = Unit {0}

-- No two free blocks stand side by side.
abbrev pub Separate : List Block → Type 0
Separate [] = Unit {0}
Separate (free n ∷ bs) = NotFree bs × Separate bs
Separate (occupied n ∷ bs) = Separate bs

abbrev pub EndsPositive : List Block → Type 0
EndsPositive [] = ⊥
EndsPositive (b ∷ []) = 0 < block_size b
EndsPositive (b ∷ c ∷ bs) = EndsPositive (c ∷ bs)

-- The memory of an allocator is the blocks: they fill it, the free ones are linked in their order,
-- no two of them stand side by side, and the last block is not empty.
pub record IsValid (a : Allocator) (bs : List Block) : Type 0 where
  pub not_null : 0 < a.begin
  pub run : Run a.memory a.trusted a.first a.begin bs 0 (a.begin + 16 + a.space_size)
  pub fits : a.begin + 16 + a.space_size < 2 ^ 64
  pub separate : Separate bs
  pub ends : EndsPositive bs

pub NotFree-front :
    (pre : List Block) (b : Block) (xs : List Block) (ys : List Block)
    → NotFree (pre ++ b ∷ xs)
    → NotFree ys
    → NotFree (pre ++ ys)
NotFree-front [] b xs ys h k = k
NotFree-front (free n ∷ pre) b xs ys h k = absurd h
NotFree-front (occupied n ∷ pre) b xs ys h k = tt

-- Behind any blocks, blocks that do not start with a free one and are separate.
pub Separate-front :
    (pre : List Block) (b : Block) (xs ys : List Block)
    → Separate (pre ++ b ∷ xs)
    → NotFree ys
    → Separate ys
    → Separate (pre ++ ys)
Separate-front [] b xs ys h k s = s
Separate-front (free n ∷ pre) b xs ys (f, h) k s =
    (NotFree-front pre b xs ys f k, Separate-front pre b xs ys h k s)
Separate-front (occupied n ∷ pre) b xs ys h k s = Separate-front pre b xs ys h k s

pub Separate-back : (pre xs : List Block) → Separate (pre ++ xs) → Separate xs
Separate-back [] xs h = h
Separate-back (free n ∷ pre) xs (f, h) = Separate-back pre xs h
Separate-back (occupied n ∷ pre) xs h = Separate-back pre xs h

pub EndsPositive-cons : (b : Block) (bs : List Block) → EndsPositive bs → EndsPositive (b ∷ bs)
EndsPositive-cons b [] h = absurd h
EndsPositive-cons b (c ∷ bs) h = h

pub EndsPositive-append : (pre ys : List Block) → EndsPositive ys → EndsPositive (pre ++ ys)
EndsPositive-append [] ys h = h
EndsPositive-append (b ∷ pre) ys h = EndsPositive-cons b (pre ++ ys) (EndsPositive-append pre ys h)

pub EndsPositive-back :
    (pre : List Block) (b : Block) (xs : List Block)
    → EndsPositive (pre ++ b ∷ xs)
    → EndsPositive (b ∷ xs)
EndsPositive-back [] b xs h = h
EndsPositive-back (c ∷ []) b xs h = h
EndsPositive-back (c ∷ d ∷ pre) b xs h = EndsPositive-back (d ∷ pre) b xs h

pub EndsPositive-extent : (bs : List Block) → EndsPositive bs → 16 < extent bs
EndsPositive-extent [] h = absurd h
EndsPositive-extent (b ∷ []) h = omega arith
EndsPositive-extent (b ∷ c ∷ bs) h = omega (arith, EndsPositive-extent (c ∷ bs) h)

-- The run up to a block and from there on.
pub Run-split :
    {m : Memory} {t : ℕ} (pre xs : List Block) {f c g d : ℕ}
    → Run m t f c (pre ++ xs) g d
    → (f' : ℕ) × (c' : ℕ) × Run m t f c pre f' c' × Run m t f' c' xs g d
Run-split [] xs {f} {c} r = (f, c, done c f, r)
Run-split (_ ∷ pre) xs (is_free c n g d _ e r) =
    let (f', c', q, s) = Run-split pre xs r in (f', c', is_free c n f' c' pre e q, s)
Run-split (_ ∷ pre) xs (is_occupied f c n g d _ ne e x r) =
    let (f', c', q, s) = Run-split pre xs r in (f', c', is_occupied f c n f' c' pre ne e x q, s)
