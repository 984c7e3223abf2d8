-- ===== src/Files/Copy.antt =====
-- SP/task2/copy_file.c: the copying of a file in blocks; and from SP/task2/main.c the names of the
-- copies.
pub mod Whole
use mai_fa_sp_4_sem.Base.{
  ℕ, zero, suc, ◌+◌, ◌-◌, Bool, true, false, ◌==◌, if◌then◌else◌, Option, none, some, List, [], ◌∷◌,
  ◌++◌, take, drop, length, set,
}

-- The loop on the bytes of `src_file` that are left and those of `dst_file` so far. `accepts` says
-- how many bytes of a block of that size at that offset `fwrite` writes.
unfoldable pub copy_loop : ℕ → (ℕ → ℕ → ℕ) → List ℕ → List ℕ → Bool × List ℕ
copy_loop zero accepts src dst = (false, dst)
copy_loop (suc fuel) accepts src dst =
    let block = take 1024 src in
    let written = accepts (length dst) (length block) in
    let rest = copy_loop fuel accepts (drop 1024 src) (dst ++ block) in
    if length block == 0
    then (true, dst)
    else if written == length block
    then rest
    else (false, dst ++ take written block)

-- The result of `copy_file` with the content that it leaves in the destination, `none` where that
-- was never opened. `src` is `none` if the source cannot be opened.
unfoldable pub copy_file : (ℕ → ℕ → ℕ) → Option (List ℕ) → Bool → Bool × Option (List ℕ)
copy_file accepts none dst_opens = (false, none)
copy_file accepts (some src) false = (false, none)
copy_file accepts (some src) true =
    let run = copy_loop (suc (length src)) accepts src [] in (run.0, some run.1)

-- The offset of the last `.`, as `strrchr` finds it, from `i` on; `found` is the one so far.
unfoldable pub last_dot : List ℕ → ℕ → Option ℕ → Option ℕ
last_dot [] i found = found
last_dot (c ∷ cs) i found = last_dot cs (i + 1) (if c == b'.' then some i else found)

unfoldable pub base_len : List ℕ → ℕ
base_len name = elim (last_dot name 0 none) [ none ↦ length name | some i ↦ i ]

-- The index at which `copy_file` of main.c writes the final NUL of `base_name`, and the size of the
-- block that it is in.
abbrev pub terminator : List ℕ → ℕ × ℕ
terminator name = (base_len name, length name)
