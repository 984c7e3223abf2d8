-- ===== src/Listing/Client.antt =====
-- SP/task6/client/main.c: the loop that sends paths and prints the responses.
pub mod Talk
use mai_fa_sp_4_sem.Base.{
  ℕ, ◌+◌, Bool, not, ◌&&◌, ◌==◌, ltb, if◌then◌else◌, none, some, List, [], ◌∷◌, ◌++◌, take, drop,
  length,
}
use mai_fa_sp_4_sem.Listing.Wire.{htobe64, be64toh, recv, c_string}

-- Whether `realloc` to a size succeeds, and how many bytes of a block of a size `send` takes at an
-- offset of its stream.
pub record Calls : Type 0 where
  pub realloc : ℕ → Bool
  pub send : ℕ → ℕ → ℕ

-- The end of `cmd_loop`: its exit code, the bytes sent, and the lines printed; `wild` is a string
-- read past the end of `res_buf`.
pub data Ended : Type 0 where
  ended : ℕ → List ℕ → List (List ℕ) → Ended
  wild : Ended

-- `cmd_loop` on the lines that `getline` yields and the bytes that the server sends, with `res_buf`
-- and what was sent and printed so far.
unfoldable pub cmd_loop : Calls → List (List ℕ) → List ℕ → List ℕ → List ℕ → List (List ℕ) → Ended
cmd_loop y [] stream res_buf sent printed = ended 0 sent printed
cmd_loop y (line_buf ∷ lines) stream res_buf sent printed =
    let skip = cmd_loop y lines stream res_buf sent printed in
    let line_size = length line_buf + 1 in
    let first : ℕ = y.send (length sent) 8 in
    let sent' = sent ++ htobe64 line_size in
    let second : ℕ = y.send (length sent') line_size in
    let sent'' = sent' ++ (line_buf ++ 0 ∷ []) in
    if ltb 16_384 line_size
    then skip
    else if not (first == 8)
    then ended 5 (sent ++ take first (htobe64 line_size)) printed
    else if not (second == line_size)
    then ended 5 (sent' ++ take second (line_buf ++ 0 ∷ [])) printed
    else elim (recv 8 stream) [
      | none ↦ ended 6 sent'' printed
      | some (head, rest) ↦
          (let res_len = be64toh 0 head in
            if ltb (length res_buf) res_len && not (y.realloc res_len)
            then ended 7 sent'' printed
            else elim (recv res_len rest) [
              | none ↦ ended 6 sent'' printed
              | some (res, rest') ↦ elim (c_string (res ++ drop res_len res_buf)) [
                | none ↦ wild
                | some text ↦
                    cmd_loop y lines rest' (res ++ drop res_len res_buf) sent''
                      (printed ++ text ∷ [])
              ]
            ])
    ]
