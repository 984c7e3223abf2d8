-- ===== src/River/Client.antt =====
-- SP/task4/client/main.c: the command list, and the loop that plays it against the server.
pub mod Parse
pub mod Protocol
use mai_fa_sp_4_sem.Base.{
  ℕ, zero, suc, ◌+◌, ◌*◌, Bool, true, false, ◌==◌, ◌||◌, if◌then◌else◌, Option, none, some, List,
  [], ◌∷◌, ◌++◌, length,
}
use mai_fa_sp_4_sem.Libc.{codes, strcmp_eq, getlines, strtok}
use mai_fa_sp_4_sem.River.Message.{
  ObjectId, obj_wolf, obj_goat, obj_cabbage, MsgId, msg_init, msg_take, msg_put, msg_move, msg_fin,
  Message, is_error, is_all_moved,
}

-- `null` is the result NULL; `crash` is a null pointer handed to `strcmp`.
pub data Parsed {ℓ} (A : Type ℓ) : Type ℓ where
  parsed : A → Parsed A
  null : Parsed A
  crash : Parsed A

infixl 5 ◌>>=◌
abbrev pub ◌>>=◌ {ℓ κ} : {A : Type ℓ} {B : Type κ} → Parsed A → (A → Parsed B) → Parsed B
parsed a >>= f = f a
null >>= f = null
crash >>= f = crash

-- A message as `memset` leaves it but for its kind and its object (OBJ_WOLF is 0).
abbrev pub cleared : MsgId → ObjectId → Message
cleared id o = record { msg_id = id; msg_text = record { queue_id = 0; obj_id = o; err_msg = "" } }

-- The tests on `arg` behind `take`.
unfoldable pub parse_object : Option (List ℕ) → Parsed ObjectId
parse_object none = crash
parse_object (some arg) =
    if strcmp_eq arg (codes "wolf;")
    then parsed obj_wolf
    else if strcmp_eq arg (codes "goat;")
    then parsed obj_goat
    else if strcmp_eq arg (codes "cabbage;")
    then parsed obj_cabbage
    else null

-- One round of the loop, up to the message that it stores.
unfoldable pub parse_cmd : List ℕ → Parsed Message
parse_cmd line = elim (strtok line) [
  | none ↦ crash
  | some (cmd, rest) ↦
      if strcmp_eq cmd (codes "take")
      then (do
        o ← parse_object (elim (strtok rest) [ none ↦ none | some (arg, _) ↦ some arg ])
        parsed (cleared msg_take o))
      else if strcmp_eq cmd (codes "put;")
      then parsed (cleared msg_put obj_wolf)
      else if strcmp_eq cmd (codes "move;")
      then parsed (cleared msg_move obj_wolf)
      else null
]

-- `cmds_buf` with its capacity; the length of the list is `*cmds_buf_size`.
pub record CmdsBuf : Type 0 where
  pub cmds : List Message
  pub cap : ℕ

-- The store at the end of a round: the buffer is doubled when it is full. `grants` says for which
-- capacities `realloc` succeeds.
unfoldable pub store_cmd : (ℕ → Bool) → CmdsBuf → Message → Parsed CmdsBuf
store_cmd grants b msg =
    if length b.cmds == b.cap
    then (if grants (b.cap * 2)
        then parsed (record { cmds = b.cmds ++ msg ∷ []; cap = b.cap * 2 })
        else null)
    else parsed (record b { cmds = b.cmds ++ msg ∷ [] })

unfoldable pub parse_lines : (ℕ → Bool) → List (List ℕ) → CmdsBuf → Parsed CmdsBuf
parse_lines grants [] b = parsed b
parse_lines grants (line ∷ lines) b = do
  msg ← parse_cmd line
  b' ← store_cmd grants b msg
  parse_lines grants lines b'

-- `file` is the content of the command list, `none` if it cannot be opened.
unfoldable pub parse_cmd_list : (ℕ → Bool) → Option (List ℕ) → Parsed CmdsBuf
parse_cmd_list grants none = null
parse_cmd_list grants (some content) =
    if grants 16
    then parse_lines grants (getlines content) (record { cmds = []; cap = 16 })
    else null

-- What happens to one SEND and the RECV behind it.
pub data Exchange : Type 0 where
  send_failed recv_failed : Exchange
  received : Message → Exchange

-- What `main` prints at its end.
pub data Report : Type 0 where
  silent all_moved some_left : Report

-- The end of `main`: its exit status, its last line, the messages handed to `msgsnd`, and whether
-- `main_cleanup` removed the client's queue.
pub record Ended : Type 0 where
  pub exit_code : ℕ
  pub report : Report
  pub sent : List Message
  pub queue_removed : Bool

abbrev pub addressed : ℕ → Message → Message
addressed q m = record {
  msg_id = m.msg_id;
  msg_text = record { queue_id = q; obj_id = m.msg_text.obj_id; err_msg = m.msg_text.err_msg };
}

-- The state of the loop over the commands when it ends, or `none` when a SEND or RECV failed; and
-- what it sent.
pub data LoopEnd : Type 0 where
  transport_failed ended_failed ended_all_moved ended_open : LoopEnd

unfoldable pub play : ℕ → List Message → List Exchange → LoopEnd × List Message
play q [] xs = (ended_open, [])
play q (m ∷ ms) [] = (transport_failed, [])
play q (m ∷ ms) (send_failed ∷ xs) = (transport_failed, [])
play q (m ∷ ms) (recv_failed ∷ xs) = (transport_failed, addressed q m ∷ [])
play q (m ∷ ms) (received r ∷ xs) =
    let rest = play q ms xs in
    if is_error r
    then (ended_failed, addressed q m ∷ [])
    else if is_all_moved r
    then (ended_all_moved, addressed q m ∷ [])
    else (rest.0, addressed q m ∷ rest.1)

abbrev pub ended : ℕ → Report → List Message → Bool → Ended
ended c r ms removed = record { exit_code = c; report = r; sent = ms; queue_removed = removed }

-- The variable `msg` behind the same loop: the last answer, or what it held before.
unfoldable pub msg_after : Message → List Message → List Exchange → Message
msg_after msg [] xs = msg
msg_after msg (m ∷ ms) [] = msg
msg_after msg (m ∷ ms) (send_failed ∷ xs) = msg
msg_after msg (m ∷ ms) (recv_failed ∷ xs) = msg
msg_after msg (m ∷ ms) (received r ∷ xs) =
    let rest = msg_after r ms xs in if is_error r || is_all_moved r then r else rest

-- FIN is `msg` with another kind and the client's queue; its arguments are those of the last answer.
abbrev pub fin : ℕ → Message → Message
fin q msg = addressed q (record msg { msg_id = msg_fin })

-- FIN, the last line and `main_cleanup`; `fin_sent` says whether the last SEND succeeds, and `msg` is
-- the variable behind the loop.
unfoldable pub finish : ℕ → Bool → LoopEnd → Message → List Message → Ended
finish q fin_sent transport_failed msg ms = ended 1 silent ms false
finish q false e msg ms = ended 1 silent ms false
finish q true ended_failed msg ms = ended 0 silent (ms ++ fin q msg ∷ []) true
finish q true ended_all_moved msg ms = ended 0 all_moved (ms ++ fin q msg ∷ []) true
finish q true ended_open msg ms = ended 0 some_left (ms ++ fin q msg ∷ []) true

-- `main` from the registration on, with the queue and the server's queue at hand.
unfoldable pub client : ℕ → List Message → Exchange → List Exchange → Bool → Ended
client q cmds send_failed xs fin_sent = ended 1 silent [] false
client q cmds recv_failed xs fin_sent =
    ended 1 silent (addressed q (cleared msg_init obj_wolf) ∷ []) false
client q cmds (received r) xs fin_sent =
    let init : Message = addressed q (cleared msg_init obj_wolf) in
    let run = play q cmds xs in
    if is_error r
    then ended 1 silent (init ∷ []) true
    else finish q fin_sent run.0 (msg_after r cmds xs) (init ∷ run.1)
