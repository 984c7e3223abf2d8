-- ===== src/Files/Mask.antt =====
-- SP/task2/main.c: `count_masked_numbers`.
pub mod Count
use Prim.Native.Nat.{bit_and}
use mai_fa_sp_4_sem.Base.{
  ℕ, zero, suc, ◌+◌, ◌*◌, ◌/◌, ◌^◌, Bool, not, ◌==◌, ltb, if◌then◌else◌, List, [], ◌∷◌, take, drop,
  length,
}

-- The value of a little-endian number whose low bytes `fread` has overwritten.
unfoldable pub overwrite : List ℕ → ℕ → ℕ
overwrite [] number = number
overwrite (b ∷ bytes) number = b + 256 * overwrite bytes (number / 256)

abbrev pub counted : ℕ → ℕ → ℕ
counted mask number = if not (bit_and number mask == 0) then 1 else 0

-- The loop: a round for each `fread`, the last the one that meets the end of the file. The test
-- `count < count++`, whose order of evaluation is left open, is false in either order.
unfoldable pub count_loop : ℕ → List ℕ → ℕ → ℕ → ℕ → ℕ
count_loop zero file mask number count = count
count_loop (suc fuel) file mask number count =
    let number' = overwrite (take 8 file) number in
    let count' = count + counted mask number' in
    let rest = count_loop fuel (drop 8 file) mask number' count' in
    if ltb (length file) 8 then count' else rest

unfoldable pub count_masked_numbers : List ℕ → ℕ → ℕ
count_masked_numbers file mask = count_loop (suc (length file)) file mask 0 0
