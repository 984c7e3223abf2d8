-- ===== src/Allocator/SortedList/Front.antt =====
-- The blocks in front of an address, with the last free one among them.
use mai_fa_sp_4_sem.Base.{
  ℕ, ◌+◌, ◌≤◌, ◌<◌, ◌≡◌, ◌≢◌, refl, sym, subst, ◌∙◌, ◌⊎◌, inl, inr, ◌==◌, if◌then◌else◌, List, [],
  ◌∷◌, ◌++◌, append_assoc, arith,
}
use mai_fa_sp_4_sem.Allocator.SortedList.{Memory}
use mai_fa_sp_4_sem.Allocator.SortedList.Blocks.{
  Block, free, occupied, AllOccupied, Run, done, is_free, is_occupied, Run-le, Run-agrees,
  Run-append, Run-first_lt, Run-first_ge,
}

-- Occupied blocks, whatever the first free block behind them is.
pub AllOccupied-run :
    {m : Memory} {t f c g d : ℕ} {bs : List Block}
    → AllOccupied bs
    → Run m t f c bs g d
    → (g' : ℕ) → (g' ≡ 0) ⊎ (d ≤ g')
    → 0 < c
    → Run m t g' c bs g' d
AllOccupied-run o (done c f) g' k p = done c g'
AllOccupied-run o (is_free c n g d bs e r) g' k p = absurd o
AllOccupied-run o (is_occupied f c n g d bs ne e x r) g' k p =
    is_occupied g' c n g' d bs (omega (arith, k, Run-le r)) e x
      (AllOccupied-run o r g' k (omega arith))

-- The blocks `pre` from `begin` to `d` when `p` is the last free one, and 0 if none is; `g` is the
-- first free block from `d` on.
pub data Front (m : Memory) (t first begin : ℕ) : List Block → ℕ → ℕ → ℕ → Type 0 where
  no_free :
      (pre : List Block) (d : ℕ)
      → AllOccupied pre
      → Run m t first begin pre first d
      → Front m t first begin pre 0 first d
  behind :
      (pre occs : List Block) (p l d : ℕ)
      → p ≢ 0
      → Run m t first begin pre p p
      → m.size p ≡ l
      → AllOccupied occs
      → Run m t (m.next p) (p + 16 + l) occs (m.next p) d
      → Front m t first begin (pre ++ free l ∷ occs) p (m.next p) d

pub Front-run :
    {m : Memory} {t first begin : ℕ} {pre : List Block} {p g d : ℕ}
    → Front m t first begin pre p g d
    → Run m t first begin pre g d
Front-run (no_free pre d o r) = r
Front-run (behind pre occs p l d ne r e o q) = Run-append r (is_free p l _ d occs e q)

AllOccupied-append :
    (as' : List Block) (n : ℕ) → AllOccupied as' → AllOccupied (as' ++ occupied n ∷ [])
AllOccupied-append [] n h = tt
AllOccupied-append (free k ∷ as') n h = absurd h
AllOccupied-append (occupied k ∷ as') n h = AllOccupied-append as' n h

-- One more occupied block.
pub Front-occupied :
    {m : Memory} {t first begin : ℕ} {pre : List Block} {p g d : ℕ} (n : ℕ)
    → Front m t first begin pre p g d
    → g ≢ d
    → m.size d ≡ n
    → m.next d ≡ t
    → Front m t first begin (pre ++ occupied n ∷ []) p g (d + 16 + n)
Front-occupied n (no_free pre d o r) ne e k =
    no_free _ _ (AllOccupied-append pre n o)
      (Run-append r (is_occupied _ d n _ _ [] ne e k (done _ _)))
Front-occupied {m} {t} {first} {begin} n (behind pre occs p l d pne r s o q) ne e k =
    subst (λ bs. Front m t first begin bs p (m.next p) (d + 16 + n))
      (sym (append_assoc pre (free l ∷ occs) (occupied n ∷ [])))
      (behind pre (occs ++ occupied n ∷ []) p l (d + 16 + n) pne r s (AllOccupied-append occs n o)
        (Run-append q (is_occupied _ d n _ _ [] ne e k (done _ _))))

-- One more free block.
pub Front-free :
    {m : Memory} {t first begin : ℕ} {pre : List Block} {p d : ℕ} (n : ℕ)
    → Front m t first begin pre p d d
    → d ≢ 0
    → m.size d ≡ n
    → Front m t first begin (pre ++ free n ∷ []) d (m.next d) (d + 16 + n)
Front-free n h ne e = behind _ [] _ n _ ne (Front-run h) e tt (done _ _)

pub Front-le :
    {m : Memory} {t first begin : ℕ} {pre : List Block} {p g d : ℕ}
    → Front m t first begin pre p g d
    → (begin ≤ d) × (p ≡ 0) ⊎ (begin ≤ p) × (p + 16 ≤ d)
Front-le (no_free pre d o r) = inl (Run-le r, refl)
Front-le (behind pre occs p l d ne r e o q) = inr (Run-le r, omega (arith, Run-le q))

-- Where the free list starts.
pub Front-first :
    {m : Memory} {t first begin : ℕ} {pre : List Block} {p g d : ℕ}
    → Front m t first begin pre p g d
    → 0 < begin
    → (p ≡ 0) × (first ≡ g) ⊎ (p ≢ 0) × (p < d) × (first ≤ p) × (first ≢ 0) × (m.next p ≡ g)
Front-first (no_free pre d o r) pos = inl (refl, refl)
Front-first (behind pre occs p l d ne r e o q) pos = inr (
  ne,
  omega (arith, Run-le q),
  omega (arith, Run-first_lt r),
  omega (arith, Run-first_ge r),
  refl,
)

-- The free list goes on at `g'`: the last free block points there, or else the list starts there.
pub Front-retarget :
    {m : Memory} (m' : Memory) {t first begin : ℕ} {pre : List Block} {p g d : ℕ} (g' : ℕ)
    → Front m t first begin pre p g d
    → 0 < begin
    → (g' ≡ 0) ⊎ (d ≤ g')
    → ((x : ℕ) → begin ≤ x → x < d → (m'.size x ≡ m.size x) × ((x ≢ p → m'.next x ≡ m.next x)))
    → (p ≢ 0 → m'.next p ≡ g')
    → Front m' t (if p == 0 then g' else first) begin pre p g' d
Front-retarget m' g' (no_free pre d o r) pos k h w = no_free pre d o (
    AllOccupied-run o (Run-agrees m' (λ x lo hi. ((h x lo hi).0, (h x lo hi).1 (omega arith))) r) g'
      k pos)
Front-retarget {m} m' {t} {first} {begin} g' (behind pre occs p l d ne r e o q) pos k h w =
    let le = Run-le r in
    let le' = Run-le q in
    let front : Run m' t first begin pre p p =
      Run-agrees m' (λ x lo hi. ((h x lo (omega arith)).0, (h x lo (omega arith)).1 (omega arith)))
        r in
    let back : Run m' t g' (p + 16 + l) occs g' d =
      AllOccupied-run o
        (Run-agrees m'
          (λ x lo hi. ((h x (omega arith) hi).0, (h x (omega arith) hi).1 (omega arith))) q)
        g' k (omega arith) in
    let whole : Front m' t first begin (pre ++ free l ∷ occs) p g' d =
      subst (λ x. Front m' t first begin (pre ++ free l ∷ occs) p x d) (w ne)
        (behind pre occs p l d ne front ((h p le (omega arith)).0 ∙ e) o
          (subst (λ x. Run m' t x (p + 16 + l) occs x d) (sym (w ne)) back)) in
    subst (λ x. Front m' t x begin (pre ++ free l ∷ occs) p g' d) (ground arith) whole
