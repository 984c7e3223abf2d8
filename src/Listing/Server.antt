-- ===== src/Listing/Server.antt =====
-- SP/task6/server/main.c: the listing of a directory and the loop that serves a client.
pub mod Answers
use mai_fa_sp_4_sem.Base.{
  ℕ, zero, suc, ◌+◌, Bool, not, ◌&&◌, ◌==◌, ltb, if◌then◌else◌, Option, none, some, List, [], ◌∷◌,
  ◌++◌, take, drop, length,
}
use mai_fa_sp_4_sem.Libc.{codes, strcmp_eq}
use mai_fa_sp_4_sem.Listing.Wire.{htobe64, be64toh, recv, c_string}

-- The calls outside the program: whether `realloc` to a size succeeds, how many bytes of a block
-- of a size `write` takes at an offset of its stream, the path that `realpath` resolves to, whether
-- `stat` finds a directory, and the names that `opendir` and `readdir` yield.
pub record System : Type 0 where
  pub realloc : ℕ → Bool
  pub write : ℕ → ℕ → ℕ
  pub realpath : List ℕ → Option (List ℕ)
  pub is_dir : List ℕ → Bool
  pub readdir : List ℕ → Option (List (List ℕ))

-- The stream to the client behind `send_string`.
unfoldable pub send_string : System → List ℕ → List ℕ → List ℕ
send_string y msg out =
    let msg_length = length msg + 1 in
    let out' = out ++ htobe64 msg_length in
    if y.write (length out) 8 == 8
    then out' ++ take (y.write (length out') msg_length) (msg ++ 0 ∷ [])
    else out ++ take (y.write (length out) 8) (htobe64 msg_length)

-- `abs_ent_path`, which `snprintf` cuts at MAX_PATH with the NUL.
unfoldable pub abs_ent_path : List ℕ → List ℕ → List ℕ
abs_ent_path root_path d_name =
    take 16_383
      (if strcmp_eq root_path (codes "/") then b'/' ∷ d_name else root_path ++ b'/' ∷ d_name)

-- The loop of `list_files`: `res_buf`, `none` for NULL, and the size asked for so far.
unfoldable pub list_loop : System → List ℕ → List (List ℕ) → Option (List ℕ) → ℕ → Option (List ℕ)
list_loop y root_path [] res_buf res_size = res_buf
list_loop y root_path (d_name ∷ names) res_buf res_size =
    let path = abs_ent_path root_path d_name in
    let size = res_size + (length path + 1) + 1 in
    let old : List ℕ = elim res_buf [ none ↦ [] | some s ↦ s ] in
    let rest = list_loop y root_path names (some (old ++ (path ++ b'\n' ∷ []))) size in
    if y.realloc size then rest else none

unfoldable pub list_files : System → List ℕ → Option (List ℕ)
list_files y root_path = elim (y.readdir root_path) [
  | none ↦ none
  | some names ↦ list_loop y root_path names none 0
]

-- What `process_client` sends for the path in a message.
unfoldable pub response : System → List ℕ → List ℕ
response y path = elim (y.realpath path) [
  | none ↦ codes "no such path exists"
  | some resolved_path ↦
      if not (strcmp_eq path resolved_path)
      then codes "not an absolute path"
      else if not (y.is_dir resolved_path)
      then codes "not a directory"
      else elim (list_files y resolved_path) [
        | none ↦ codes "failed to list files"
        | some listing ↦ listing
      ]
]

-- The end of a connection with all that was sent; `wild` is a string read past the end of
-- `msg_buf`, `starved` a run out of fuel.
pub data Served : Type 0 where
  closed wild : List ℕ → Served
  starved : Served

-- The loop of `process_client` on the bytes that still come, with `msg_buf` and what was sent.
unfoldable pub serve_loop : ℕ → System → List ℕ → List ℕ → List ℕ → Served
serve_loop zero y stream msg_buf out = starved
serve_loop (suc fuel) y stream msg_buf out = elim (recv 8 stream) [
  | none ↦ closed out
  | some (head, rest) ↦
      (let skip = serve_loop fuel y rest msg_buf out in
        let msg_len = be64toh 0 head in
        if msg_len == 0
        then skip
        else if ltb (length msg_buf) msg_len && not (y.realloc msg_len)
        then closed out
        else elim (recv msg_len rest) [
          | none ↦ closed out
          | some (msg, rest') ↦ elim (c_string (msg ++ drop msg_len msg_buf)) [
            | none ↦ wild out
            | some path ↦
                serve_loop fuel y rest' (msg ++ drop msg_len msg_buf)
                  (send_string y (response y path) out)
          ]
        ])
]

unfoldable pub process_client : System → List ℕ → Served
process_client y stream = serve_loop (suc (length stream)) y stream [] []
