-- ===== src/Files/Blocks.antt =====
-- SP/task2/main.c: `xor_blocks`, the exclusive or of a file's blocks.
pub mod Lanes
use Prim.Native.Nat.{bit_xor}
use mai_fa_sp_4_sem.Base.{
  ℕ, zero, suc, ◌+◌, ◌/◌, ◌%◌, Bool, ◌==◌, if◌then◌else◌, List, [], ◌∷◌, get_or, set, replicate,
  take, drop, length, ltb, Option, none, some, ◌^◌,
}

-- The inner loop: the bytes that `fread` returned go into the first cells of `result`.
unfoldable pub xor_into : List ℕ → List ℕ → List ℕ
xor_into [] buffer = []
xor_into (r ∷ result) [] = r ∷ result
xor_into (r ∷ result) (b ∷ buffer) = bit_xor r b ∷ xor_into result buffer

-- The `while` loop on the bytes of the file that are left, one `fread` of `bytes` bytes a round.
-- `none` is a read that fills more than the eight bytes of `buffer`, and the end of the fuel.
unfoldable pub xor_loop : ℕ → ℕ → List ℕ → List ℕ → Option (List ℕ)
xor_loop zero bytes file result = none
xor_loop (suc fuel) bytes file result =
    let rest = xor_loop fuel bytes (drop bytes file) (xor_into result (take bytes file)) in
    if ltb 8 (length (take bytes file))
    then none
    else if length (take bytes file) == 0
    then some result
    else rest

-- `(block_size + 7) / 8` on a `size_t`.
abbrev pub bytes_of : ℕ → ℕ
bytes_of block_size = (block_size + 7) % 2 ^ 64 / 8

-- The last step, for half-byte blocks.
abbrev pub fold_nibbles : ℕ → List ℕ → List ℕ
fold_nibbles block_size result =
    if block_size == 4
    then set result 0 (bit_xor (get_or result 0 0 / 16) (get_or result 0 0 % 16))
    else result

-- `xor_blocks` with a `result` of as many bytes as a block has; `none` is a write behind `buffer`, or
-- a size that is no `int`. A read error (-1 from `fread`, which cannot be) has no counterpart.
unfoldable pub xor_blocks : List ℕ → ℕ → Option (List ℕ)
xor_blocks file block_size =
    let bytes = bytes_of block_size in
    if ltb bytes (2 ^ 31)
    then elim (xor_loop (suc (length file)) bytes file (replicate bytes 0)) [
      | none ↦ none
      | some result ↦ some (fold_nibbles block_size result)
    ]
    else none
