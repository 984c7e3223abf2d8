-- ===== src/Files/Blocks/Lanes.antt =====
-- `xor_blocks` of SP/task2/main.c against a description by lanes: byte `i` of the result takes
-- every byte of the file whose offset is `i` modulo the block's size.
use Prim.Native.Nat.{bit_xor}
use mai_fa_sp_4_sem.Base.{
  ℕ, zero, suc, ◌+◌, ◌-◌, ◌/◌, ◌%◌, ◌≤◌, ◌<◌, ◌≡◌, ◌≢◌, refl, sym, ◌∙◌, ap, false, ◌==◌, List, [],
  ◌∷◌, get_or, set, replicate, take, drop, length, length-take, length-drop, length-replicate,
  arith, Bool-cases, inl, inr, some, if◌then◌else◌, ltb, true, ◌^◌,
}
use mai_fa_sp_4_sem.Files.Blocks.{xor_into, xor_loop, bytes_of, xor_blocks}

-- Folds one byte of the file into the lane `i`, `wait` bytes before the next byte of the lane.
pub lane : ℕ → ℕ → List ℕ → ℕ → ℕ
lane bytes wait [] acc = acc
lane bytes zero (c ∷ cs) acc = lane bytes (bytes - 1) cs (bit_xor acc c)
lane bytes (suc wait) (c ∷ cs) acc = lane bytes wait cs acc

length-xor_into : (result buffer : List ℕ) → length (xor_into result buffer) ≡ length result
unfolding xor_into
length-xor_into [] buffer = refl
length-xor_into (r ∷ result) [] = refl
length-xor_into (r ∷ result) (b ∷ buffer) = ap suc (length-xor_into result buffer)

-- Bytes of other lanes are passed over.
lane-drop :
    (bytes : ℕ) (cs : List ℕ) (k wait acc : ℕ)
    → k ≤ wait
    → lane bytes wait cs acc ≡ lane bytes (wait - k) (drop k cs) acc
unfolding lane
lane-drop bytes cs zero wait acc h = ground arith
lane-drop bytes [] (suc k) wait acc h = refl
lane-drop bytes (c ∷ cs) (suc k) zero acc h = absurd (omega arith)
lane-drop bytes (c ∷ cs) (suc k) (suc wait) acc h =
    let e : wait - k ≡ suc wait - suc k = omega arith in
    lane-drop bytes cs k wait acc (omega arith) ∙ ap (λ x. lane bytes x (drop k cs) acc) e

-- One block, or the part of it that is left of the file, read from the lane's point of view.
lane-block :
    (bytes : ℕ) (file result : List ℕ) (k i : ℕ)
    → i < k
    → k ≤ bytes
    → length result ≡ k
    → lane bytes i file (get_or result i 0)
      ≡ lane bytes (bytes - k + i) (drop k file) (get_or (xor_into result (take k file)) i 0)
unfolding lane xor_into
lane-block bytes file result zero i lt le e = absurd (omega arith)
lane-block bytes file [] (suc k) i lt le e = absurd (omega arith)
lane-block bytes [] (r ∷ result) (suc k) i lt le e = refl
lane-block bytes (c ∷ file) (r ∷ result) (suc k) zero lt le e =
    let w : bytes - 1 - k ≡ bytes - suc k + 0 = omega arith in
    lane-drop bytes file k (bytes - 1) (bit_xor r c) (omega arith)
    ∙ ap (λ x. lane bytes x (drop k file) (bit_xor r c)) w
lane-block bytes (c ∷ file) (r ∷ result) (suc k) (suc i) lt le e =
    let w : bytes - k + i ≡ bytes - suc k + suc i = omega arith in
    lane-block bytes file result k i (omega arith) (omega arith) (omega arith)
    ∙ ap (λ x. lane bytes x (drop k file) (get_or (xor_into result (take k file)) i 0)) w

lane-empty : (bytes i : ℕ) (cs : List ℕ) (acc : ℕ) → length cs ≡ 0 → acc ≡ lane bytes i cs acc
unfolding lane
lane-empty bytes i [] acc h = refl
lane-empty bytes i (c ∷ cs) acc h = absurd (omega arith)

-- The rounds without the limit of `buffer`.
fold_blocks : ℕ → ℕ → List ℕ → List ℕ → List ℕ
fold_blocks zero bytes file result = result
fold_blocks (suc fuel) bytes file result =
    let rest = fold_blocks fuel bytes (drop bytes file) (xor_into result (take bytes file)) in
    if length (take bytes file) == 0 then result else rest

-- Blocks of at most eight bytes stay inside `buffer`, and the loop ends.
xor_loop-fold_blocks :
    (fuel bytes : ℕ) (file result : List ℕ)
    → length file < fuel
    → bytes ≤ 8
    → xor_loop fuel bytes file result ≡ some (fold_blocks fuel bytes file result)
unfolding xor_loop fold_blocks
xor_loop-fold_blocks zero bytes file result f le = absurd (omega arith)
xor_loop-fold_blocks (suc fuel) bytes file result f le =
    let inside : ltb 8 (length (take bytes file)) ≡ false =
      ground (arith, length-take bytes file) in
    elim (Bool-cases (length (take bytes file) == 0)) [
      | inl end ↦ rw (inside, end) refl
      | inr more ↦
          rw (inside, more)
            (xor_loop-fold_blocks fuel bytes (drop bytes file) (xor_into result (take bytes file))
              (ground (arith, length-drop bytes file, length-take bytes file)) le)
    ]

fold_blocks-lane :
    (fuel bytes : ℕ) (file result : List ℕ) (i : ℕ)
    → length file < fuel
    → i < bytes
    → length result ≡ bytes
    → get_or (fold_blocks fuel bytes file result) i 0 ≡ lane bytes i file (get_or result i 0)
unfolding fold_blocks
fold_blocks-lane zero bytes file result i f lt e = absurd (omega arith)
fold_blocks-lane (suc fuel) bytes file result i f lt e =
    elim (Bool-cases (length (take bytes file) == 0)) [
      | inl end ↦
          rw end
            (lane-empty bytes i file (get_or result i 0) (ground (arith, length-take bytes file)))
      | inr more ↦
          let w : bytes - bytes + i ≡ i = omega arith in
          rw more (
            fold_blocks-lane fuel bytes (drop bytes file) (xor_into result (take bytes file)) i
              (ground (arith, length-drop bytes file, length-take bytes file)) lt
              (length-xor_into result (take bytes file) ∙ e)
            ∙ sym (
                lane-block bytes file result bytes i lt (omega arith) e
                ∙ ap
                    (λ x.
                      lane bytes x (drop bytes file)
                        (get_or (xor_into result (take bytes file)) i 0))
                    w))
    ]

get_or-zeros : (n i : ℕ) → get_or {A = ℕ} (replicate n 0) i 0 ≡ 0
get_or-zeros zero i = refl
get_or-zeros (suc n) zero = refl
get_or-zeros (suc n) (suc i) = get_or-zeros n i

length-fold_blocks :
    (fuel bytes : ℕ) (file result : List ℕ)
    → length (fold_blocks fuel bytes file result) ≡ length result
unfolding fold_blocks
length-fold_blocks zero bytes file result = refl
length-fold_blocks (suc fuel) bytes file result = ground (
  arith,
  length-fold_blocks fuel bytes (drop bytes file) (xor_into result (take bytes file)),
  length-xor_into result (take bytes file),
)

-- For a block size of at most 64 bits other than 4, and blocks of that many bits rounded up to whole
-- bytes: nothing is written behind `buffer`, the loop ends, and byte `i` of the result is the
-- exclusive or of the file's bytes at the offsets `i`, `i + bytes`, `i + 2 bytes`, ..., a shorter
-- last block included.
pub xor_blocks-lane :
    (file : List ℕ) (block_size i : ℕ)
    → block_size ≢ 4
    → block_size ≤ 64
    → i < bytes_of block_size
    → (result : List ℕ) × (xor_blocks file block_size ≡ some result)
      × (length result ≡ bytes_of block_size)
      × (get_or result i 0 ≡ lane (bytes_of block_size) i file 0)
unfolding xor_blocks
xor_blocks-lane file block_size i ne le lt =
    let bytes = bytes_of block_size in
    let zeros : List ℕ = replicate bytes 0 in
    let whole : (block_size == 4) ≡ false = ground arith in
    let is_int : ltb bytes (2 ^ 31) ≡ true = ground arith in
    (
      fold_blocks (suc (length file)) bytes file zeros,
      rw
          (
            is_int,
            xor_loop-fold_blocks (suc (length file)) bytes file zeros (omega arith) (omega arith),
            whole,
          )
          refl,
      length-fold_blocks (suc (length file)) bytes file zeros ∙ length-replicate bytes 0,
      fold_blocks-lane (suc (length file)) bytes file zeros i (omega arith) lt
            (length-replicate bytes 0)
          ∙ ap (lane bytes i file) (get_or-zeros bytes i),
    )

-- Half-byte blocks: the result is one byte, the exclusive or of the high and the low half of the
-- exclusive or of all bytes.
pub xor_blocks-nibbles :
    (file : List ℕ)
    → let all = lane 1 0 file 0 in xor_blocks file 4 ≡ some (bit_xor (all / 16) (all % 16) ∷ [])
unfolding xor_blocks
xor_blocks-nibbles file =
    rw (xor_loop-fold_blocks (suc (length file)) 1 file (0 ∷ []) (omega arith) (omega arith)) (
      ap some (
        single _ (length-fold_blocks (suc (length file)) 1 file (0 ∷ [])) (
          fold_blocks-lane (suc (length file)) 1 file (0 ∷ []) 0 (omega arith) (omega arith) refl)))
  where
    single :
        (xs : List ℕ) {a : ℕ}
        → length xs ≡ 1
        → get_or xs 0 0 ≡ a
        → set xs 0 (bit_xor (get_or xs 0 0 / 16) (get_or xs 0 0 % 16))
          ≡ bit_xor (a / 16) (a % 16) ∷ []
    single [] h e = absurd (omega arith)
    single (x ∷ []) h e = ap (λ y. bit_xor (y / 16) (y % 16) ∷ []) e
    single (x ∷ y ∷ xs) h e = absurd (omega arith)
