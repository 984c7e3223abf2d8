-- ===== src/River/Server.antt =====
-- SP/task4/server/main.c: the sessions, the handlers and the loop that serves them.
pub mod Sessions
pub mod Restrict
pub mod Replies
pub mod Crossing
pub mod Game
use Prim.Native.String.{String}
use mai_fa_sp_4_sem.Base.{
  ℕ, Bool, true, false, not, ◌&&◌, eqb, ◌==◌, if◌then◌else◌, Option, none, some, List, [], ◌∷◌,
  ◌++◌,
}
use mai_fa_sp_4_sem.River.Message.{
  ObjectId, obj_wolf, obj_goat, obj_cabbage, obj_none, MsgId, msg_init, msg_take, msg_put, msg_move,
  msg_ok, msg_err, msg_fin, msg_all_moved, Message,
}

-- struct session; `next` is the tail of the list that holds it.
pub record Session : Type 0 where
  pub queue_id : ℕ
  pub obj_in_boat : ObjectId
  pub wolf_on_right : Bool
  pub goat_on_right : Bool
  pub cabbage_on_right : Bool
  pub boat_on_right : Bool

-- The list `sessions`, and every message handed to `msgsnd` with the queue that it was sent to.
pub record Server : Type 0 where
  pub sessions : List Session
  pub outbox : List (ℕ × Message)

abbrev pub new_session : ℕ → Session
new_session q = record {
  queue_id = q;
  obj_in_boat = obj_none;
  wolf_on_right = false;
  goat_on_right = false;
  cabbage_on_right = false;
  boat_on_right = false;
}

-- `allocated` says whether `malloc` succeeds; `none` is the answer `false`.
abbrev pub register_client : Bool → ℕ → List Session → Option (List Session)
register_client allocated q ss = if allocated then some (new_session q ∷ ss) else none

-- The first session with the identifier is unlinked.
pub unregister_client : ℕ → List Session → List Session
unregister_client q [] = []
unregister_client q (s ∷ ss) = if s.queue_id == q then ss else s ∷ unregister_client q ss

unfoldable pub get_session : ℕ → List Session → Option Session
get_session q [] = none
get_session q (s ∷ ss) = if s.queue_id == q then some s else get_session q ss

-- A write through the pointer that `get_session` returned.
pub set_session : ℕ → Session → List Session → List Session
set_session q t [] = []
set_session q t (s ∷ ss) = if s.queue_id == q then t ∷ ss else s ∷ set_session q t ss

abbrev pub reply : MsgId → String → Message
reply id text = record {
  msg_id = id;
  msg_text = record { queue_id = 0; obj_id = obj_wolf; err_msg = text };
}

abbrev msgsnd : ℕ → Message → Server → Server
msgsnd q m σ = record σ { outbox = σ.outbox ++ (q, m) ∷ [] }

abbrev pub send_error : ℕ → String → Server → Server
send_error q text σ = msgsnd q (reply msg_err text) σ

abbrev pub send_ok : ℕ → Server → Server
send_ok q σ = msgsnd q (reply msg_ok "") σ

abbrev pub send_all_moved : ℕ → Server → Server
send_all_moved q σ = msgsnd q (reply msg_all_moved "") σ

unfoldable pub handle_init : Bool → Message → Server → Server
handle_init allocated msg σ =
    let q = msg.msg_text.queue_id in
    elim (register_client allocated q σ.sessions) [
      | none ↦ send_error q "Failed to register client" σ
      | some ss ↦ send_ok q (record σ { sessions = ss })
    ]

-- `o == OBJ_NONE`
abbrev pub is_none : ObjectId → Bool
is_none obj_none = true
is_none _ = false

pub handle_take : Message → Server → Server
handle_take msg σ =
    let q = msg.msg_text.queue_id in
    elim (get_session q σ.sessions) [
      | none ↦ send_error q "Not registered" σ
      | some s ↦
          if is_none s.obj_in_boat
          then send_ok q (record σ {
            sessions = set_session q (record s { obj_in_boat = msg.msg_text.obj_id }) σ.sessions;
          })
          else send_error q "Object already in boat" σ
    ]

abbrev pub all_objects_moved : Session → Bool
all_objects_moved s = s.wolf_on_right && s.goat_on_right && s.cabbage_on_right && s.boat_on_right

pub handle_put : Message → Server → Server
handle_put msg σ =
    let q = msg.msg_text.queue_id in
    elim (get_session q σ.sessions) [
      | none ↦ send_error q "Not registered" σ
      | some s ↦
          if is_none s.obj_in_boat
          then send_error q "No object in boat" σ
          else (let t : Session = record s { obj_in_boat = obj_none } in
              let σ' : Server = record σ { sessions = set_session q t σ.sessions } in
              if all_objects_moved t then send_all_moved q σ' else send_ok q σ')
    ]

-- The `switch` on the object in the boat, once the boat has crossed.
abbrev pub carry : ObjectId → Session → Session
carry obj_wolf s = record s { wolf_on_right = s.boat_on_right }
carry obj_goat s = record s { goat_on_right = s.boat_on_right }
carry obj_cabbage s = record s { cabbage_on_right = s.boat_on_right }
carry obj_none s = s

unfoldable pub move_boat : Session → Session
move_boat s = carry s.obj_in_boat (record s { boat_on_right = not s.boat_on_right })

abbrev pub goat_eaten : Session → Bool
goat_eaten s = eqb s.wolf_on_right s.goat_on_right && not (eqb s.wolf_on_right s.boat_on_right)

abbrev pub cabbage_eaten : Session → Bool
cabbage_eaten s =
    eqb s.goat_on_right s.cabbage_on_right && not (eqb s.goat_on_right s.boat_on_right)

unfoldable pub handle_move : Message → Server → Server
handle_move msg σ =
    let q = msg.msg_text.queue_id in
    elim (get_session q σ.sessions) [
      | none ↦ send_error q "Not registered" σ
      | some s ↦
          (let t : Session = move_boat s in
            let σ' : Server = record σ { sessions = set_session q t σ.sessions } in
            if goat_eaten t
            then send_error q "Goat eaten" σ'
            else if cabbage_eaten t
            then send_error q "Cabbage eaten" σ'
            else send_ok q σ')
    ]

unfoldable pub handle_fin : Message → Server → Server
handle_fin msg σ = record σ { sessions = unregister_client msg.msg_text.queue_id σ.sessions }

-- The `switch` of the loop in `main`; an unknown message is only printed.
unfoldable pub dispatch : Bool → Message → Server → Server
dispatch allocated msg σ = elim msg.msg_id [
  | msg_init ↦ handle_init allocated msg σ
  | msg_take ↦ handle_take msg σ
  | msg_put ↦ handle_put msg σ
  | msg_move ↦ handle_move msg σ
  | msg_fin ↦ handle_fin msg σ
  | _ ↦ σ
]

-- What `msgrcv` delivers to the loop, each message with the answer of its `malloc`. The loop ends
-- only when `msgrcv` fails, which is where the list ends.
unfoldable pub serve : List (Message × Bool) → Server → Server
serve [] σ = σ
serve ((msg, allocated) ∷ rest) σ = serve rest (dispatch allocated msg σ)
