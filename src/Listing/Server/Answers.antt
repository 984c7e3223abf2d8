-- ===== src/Listing/Server/Answers.antt =====
-- Every request of a client of SP/task6/server/main.c is answered, in order.
use mai_fa_sp_4_sem.Base.{
  ℕ, zero, suc, ◌+◌, ◌^◌, ◌<◌, ◌≤◌, ◌≡◌, true, some, List, [], ◌∷◌, ◌++◌, map, append_assoc,
  append-nil, take, drop, length, length-append, arith, ◌∙◌, ap, sym, subst, take-length_append,
}
use mai_fa_sp_4_sem.Libc.Tokens.{Lacks}
use mai_fa_sp_4_sem.Listing.Wire.{
  htobe64, recv, c_string, be64toh-htobe64, recv-append, c_string-append,
}
use mai_fa_sp_4_sem.Listing.Server.{
  System, send_string, abs_ent_path, list_loop, list_files, response, closed, serve_loop,
  process_client,
}

-- A string on the wire.
abbrev pub frame : List ℕ → List ℕ
frame s = htobe64 (length s + 1) ++ (s ++ 0 ∷ [])

abbrev pub frames : List (List ℕ) → List ℕ
frames [] = []
frames (s ∷ ss) = frame s ++ frames ss

-- Strings that a message can carry.
abbrev pub AllStrings : List (List ℕ) → Type 0
AllStrings [] = Unit {0}
AllStrings (s ∷ ss) = Lacks 0 s × (length s + 1 < 2 ^ 64) × AllStrings ss

-- The calls for memory and for output that succeed, as they mostly do.
pub record IsSound (y : System) : Type 0 where
  pub memory : (n : ℕ) → y.realloc n ≡ true
  pub output : (k n : ℕ) → y.write k n ≡ n

take-terminated : (msg : List ℕ) → take (length msg + 1) (msg ++ 0 ∷ []) ≡ msg ++ 0 ∷ []
take-terminated msg =
    subst (λ n. take n (msg ++ 0 ∷ []) ≡ msg ++ 0 ∷ []) (length-append msg (0 ∷ []))
      (ap (take (length (msg ++ 0 ∷ []))) (sym (append-nil (msg ++ 0 ∷ [])))
        ∙ take-length_append (msg ++ 0 ∷ []) [])

send_string-frame :
    (y : System) (msg out : List ℕ) → IsSound y → send_string y msg out ≡ out ++ frame msg
unfolding send_string
send_string-frame y msg out sound =
    rw
      (
        sound.output (length out) 8,
        sound.output (length (out ++ htobe64 (length msg + 1))) (length msg + 1),
        take-terminated msg,
      )
      (append_assoc out (htobe64 (length msg + 1)) (msg ++ 0 ∷ []))

pub recv-terminated :
    (s rest : List ℕ) → recv (length s + 1) ((s ++ 0 ∷ []) ++ rest) ≡ some (s ++ 0 ∷ [], rest)
recv-terminated s rest =
    subst (λ n. recv n ((s ++ 0 ∷ []) ++ rest) ≡ some (s ++ 0 ∷ [], rest))
      (length-append s (0 ∷ [])) (recv-append (s ++ 0 ∷ []) rest)

pub c_string-terminated : (s old : List ℕ) → Lacks 0 s → c_string ((s ++ 0 ∷ []) ++ old) ≡ some s
c_string-terminated s old h = ap c_string (append_assoc s (0 ∷ []) old) ∙ c_string-append s old h

serve_loop-frame :
    (fuel : ℕ) (y : System) (s rest msg_buf out : List ℕ)
    → IsSound y
    → Lacks 0 s
    → length s + 1 < 2 ^ 64
    → serve_loop (suc fuel) y (frame s ++ rest) msg_buf out
      ≡ serve_loop fuel y rest
          ((s ++ 0 ∷ []) ++ drop (length s + 1) msg_buf)
          (out ++ frame (response y s))
unfolding serve_loop
serve_loop-frame fuel y s rest msg_buf out sound lacks short = ground (
  arith,
  recv-append (htobe64 (length s + 1)) ((s ++ 0 ∷ []) ++ rest),
  be64toh-htobe64 (length s + 1) short,
  sound.memory (length s + 1),
  recv-terminated s rest,
  c_string-terminated s (drop (length s + 1) msg_buf) lacks,
  send_string-frame y (response y s) out sound,
)

serve_loop-frames :
    (fuel : ℕ) (y : System) (ss : List (List ℕ)) (msg_buf out : List ℕ)
    → IsSound y
    → AllStrings ss
    → length ss < fuel
    → serve_loop fuel y (frames ss) msg_buf out ≡ closed (out ++ frames (map (response y) ss))
unfolding serve_loop recv
serve_loop-frames zero y ss msg_buf out sound strings h = absurd (omega arith)
serve_loop-frames (suc fuel) y [] msg_buf out sound strings h = ap closed (sym (append-nil out))
serve_loop-frames (suc fuel) y (s ∷ ss) msg_buf out sound (lacks, short, more) h =
    serve_loop-frame fuel y s (frames ss) msg_buf out sound lacks short
    ∙ serve_loop-frames fuel y ss ((s ++ 0 ∷ []) ++ drop (length s + 1) msg_buf)
        (out ++ frame (response y s)) sound more (omega arith)
    ∙ ap closed (append_assoc out (frame (response y s)) (frames (map (response y) ss)))

length-frames : (ss : List (List ℕ)) → length ss ≤ length (frames ss)
length-frames [] = omega arith
length-frames (s ∷ ss) = omega (arith, length-append (frame s) (frames ss), length-frames ss)

-- The whole conversation: to the requests for any paths, back to back, the server sends the
-- response to each path in their order and nothing else, and it ends with the connection, if no
-- allocation fails and every `write` takes its block.
pub process_client-frames :
    (y : System) (ss : List (List ℕ))
    → IsSound y
    → AllStrings ss
    → process_client y (frames ss) ≡ closed (frames (map (response y) ss))
unfolding process_client
process_client-frames y ss sound strings =
    serve_loop-frames (suc (length (frames ss))) y ss [] [] sound strings
      (omega (arith, length-frames ss))

-- The lines of a listing.
abbrev pub listing_of : List ℕ → List (List ℕ) → List ℕ
listing_of root [] = []
listing_of root (e ∷ es) = (abs_ent_path root e ++ b'\n' ∷ []) ++ listing_of root es

list_loop-listing_of :
    (y : System) (root : List ℕ) (es : List (List ℕ)) (old : List ℕ) (size : ℕ)
    → IsSound y
    → list_loop y root es (some old) size ≡ some (old ++ listing_of root es)
unfolding list_loop
list_loop-listing_of y root [] old size sound = ap some (sym (append-nil old))
list_loop-listing_of y root (e ∷ es) old size sound =
    let n = size + (length (abs_ent_path root e) + 1) + 1 in
    let line : List ℕ = abs_ent_path root e ++ b'\n' ∷ [] in
    ground (
      arith,
      sound.memory n,
      list_loop-listing_of y root es (old ++ line) n sound,
      append_assoc old line (listing_of root es),
    )

-- A directory that can be read is listed with one line for each of its entries, in their order, if
-- it has some and no allocation fails.
pub list_files-listing_of :
    (y : System) (root e : List ℕ) (es : List (List ℕ))
    → IsSound y
    → y.readdir root ≡ some (e ∷ es)
    → list_files y root ≡ some (listing_of root (e ∷ es))
unfolding list_files list_loop
list_files-listing_of y root e es sound h = ground (
  arith,
  sound.memory (0 + (length (abs_ent_path root e) + 1) + 1),
  list_loop-listing_of y root es (abs_ent_path root e ++ b'\n' ∷ [])
      (0 + (length (abs_ent_path root e) + 1) + 1) sound,
)
