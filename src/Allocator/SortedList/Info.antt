-- ===== src/Allocator/SortedList/Info.antt =====
-- What `get_blocks_info` of allocator/allocator_sorted_list shows of the blocks.
use mai_fa_sp_4_sem.Base.{
  ℕ, zero, suc, ◌+◌, ◌<◌, ◌≡◌, refl, ap, ◌∙◌, Bool, true, false, not, ◌==◌, leb, some, List, [],
  ◌∷◌, length, map, arith,
}
use mai_fa_sp_4_sem.Allocator.SortedList.{Allocator, following, get_blocks_info}
use mai_fa_sp_4_sem.Allocator.SortedList.Blocks.{
  Block, free, occupied, Run, done, is_free, is_occupied, Run-extent, block_size, EndsPositive,
  EndsPositive-extent, IsValid,
}

-- How `get_blocks_info` shows a block.
abbrev pub view : Block → ℕ × Bool
view (free n) = (n, false)
view (occupied n) = (n, true)

-- The rest of the loop behind the block at `c`; behind the last one it is at its end.
info-following :
    (a : Allocator) (fuel : ℕ) (b : Block) (bs : List Block) (c g d : ℕ)
    → Run a.memory a.trusted g (c + 16 + block_size b) bs 0 d
    → a.memory.size c ≡ block_size b
    → d ≡ a.begin + 16 + a.space_size
    → length bs < fuel
    → EndsPositive (b ∷ bs)
    → (EndsPositive bs → get_blocks_info fuel a (c + 16 + block_size b) g ≡ some (map view bs))
    → get_blocks_info fuel a (following a c) g ≡ some (map view bs)
unfolding get_blocks_info
info-following a zero b bs c g d r e end lt h k = absurd (omega arith)
info-following a (suc fuel) b [] c g d r e end lt h k =
    let last : leb (a.begin + a.space_size) (c + 16 + a.memory.size c) ≡ true =
      (let size = Run-extent r in ground arith) in
    let at_end : following a c ≡ 0 = rw last refl in
    ap (λ x. get_blocks_info (suc fuel) a x g) at_end
info-following a (suc fuel) b (b' ∷ bs) c g d r e end lt h k =
    let on : leb (a.begin + a.space_size) (c + 16 + a.memory.size c) ≡ false =
      (let size = Run-extent r in let more = EndsPositive-extent (b' ∷ bs) h in ground arith) in
    let next : following a c ≡ c + 16 + block_size b = rw on (ap (λ n. c + 16 + n) e) in
    ap (λ x. get_blocks_info (suc fuel) a x g) next ∙ k h

info-view :
    (a : Allocator) (fuel : ℕ) (bs : List Block) (c f d : ℕ)
    → Run a.memory a.trusted f c bs 0 d
    → d ≡ a.begin + 16 + a.space_size
    → 0 < c
    → EndsPositive bs
    → length bs < fuel
    → get_blocks_info fuel a c f ≡ some (map view bs)
unfolding get_blocks_info
info-view a zero bs c f d r end pos h lt = absurd (omega arith)
info-view a (suc fuel) _ _ _ _ (done c _) end pos h lt = absurd h
info-view a (suc fuel) _ _ _ _ (is_free c n _ d bs e r) end pos h lt =
    let not_null : (c == 0) ≡ false = ground arith in
    let here : (c == c) ≡ true = ground arith in
    let rest =
      info-following a fuel (free n) bs c (a.memory.next c) d r e end (omega arith) h (λ h'.
        info-view a fuel bs (c + 16 + n) (a.memory.next c) d r end (omega arith) h'
          (omega arith)) in
    rw (not_null, here, rest, e) (ap (λ x. some ((n, not x) ∷ map view bs)) here)
info-view a (suc fuel) _ _ _ _ (is_occupied f c n _ d bs ne e x r) end pos h lt =
    let not_null : (c == 0) ≡ false = ground arith in
    let taken : (c == f) ≡ false = ground arith in
    let rest =
      info-following a fuel (occupied n) bs c f d r e end (omega arith) h
        (λ h'. info-view a fuel bs (c + 16 + n) f d r end (omega arith) h' (omega arith)) in
    rw (not_null, taken, rest, e) (ap (λ x. some ((n, not x) ∷ map view bs)) taken)

-- On a valid memory and a fuel above the number of blocks `get_blocks_info` ends and lists the blocks in their order.
pub get_blocks_info-view :
    (fuel : ℕ) (a : Allocator) (bs : List Block)
    → IsValid a bs
    → length bs < fuel
    → get_blocks_info fuel a a.begin a.first ≡ some (map view bs)
get_blocks_info-view fuel a bs v lt =
    info-view a fuel bs a.begin a.first (a.begin + 16 + a.space_size) v.run refl v.not_null v.ends
      lt
