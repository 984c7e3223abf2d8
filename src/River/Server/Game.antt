-- ===== src/River/Server/Game.antt =====
-- Whole games on one registered session: SP/task4/server/main.c against a run of one player.
use mai_fa_sp_4_sem.Base.{
  ℕ, zero, suc, ◌≤◌, ◌≡◌, refl, ap, ◌∙◌, Bool, true, not, ◌&&◌, if◌then◌else◌, List, [], ◌∷◌, ◌++◌,
  arith, map, append_assoc, append-nil,
}
use mai_fa_sp_4_sem.River.Message.{
  ObjectId, obj_wolf, obj_goat, obj_cabbage, obj_none, MsgId, msg_init, msg_take, msg_put, msg_move,
  msg_ok, msg_err, msg_fin, msg_all_moved, Message,
}
use mai_fa_sp_4_sem.River.Server.{
  Session, Server, new_session, is_none, all_objects_moved, goat_eaten, cabbage_eaten, get_session,
  set_session, handle_init, handle_take, handle_put, handle_move, move_boat, dispatch, serve, reply,
  handle_fin, unregister_client,
}

-- What a player asks for between INIT and FIN.
pub data Request : Type 0 where
  take : ObjectId → Request
  put : Request
  move : Request

abbrev pub to_message : ℕ → MsgId → ObjectId → Message
to_message q id o = record {
  msg_id = id;
  msg_text = record { queue_id = q; obj_id = o; err_msg = "" };
}

abbrev pub request_message : ℕ → Request → Message
request_message q (take o) = to_message q msg_take o
request_message q put = to_message q msg_put obj_wolf
request_message q move = to_message q msg_move obj_wolf

abbrev pub command : ℕ → Request → Message × Bool
command q r = (request_message q r, true)

abbrev pub opening : ℕ → List Request → List (Message × Bool)
opening q rs = (to_message q msg_init obj_wolf, true) ∷ map (command q) rs

-- One request on the session it finds: the session and the answer.
unfoldable pub game_step : Request → Session → Session × Message
game_step (take o) s =
    if is_none s.obj_in_boat
    then (record s { obj_in_boat = o }, reply msg_ok "")
    else (s, reply msg_err "Object already in boat")
game_step put s = if is_none s.obj_in_boat then (s, reply msg_err "No object in boat") else (
  record s { obj_in_boat = obj_none },
  if all_objects_moved s then reply msg_all_moved "" else reply msg_ok "",
)
game_step move s = (
  move_boat s,
  if goat_eaten (move_boat s)
      then reply msg_err "Goat eaten"
      else if cabbage_eaten (move_boat s)
      then reply msg_err "Cabbage eaten"
      else reply msg_ok "",
)

unfoldable pub game_run : List Request → Session → Session × List Message
game_run [] s = (s, [])
game_run (r ∷ rs) s =
    let rest = game_run rs (game_step r s).0 in (rest.0, (game_step r s).1 ∷ rest.1)

pub queue_id-game_step : (r : Request) (s : Session) → (game_step r s).0.queue_id ≡ s.queue_id
unfolding game_step move_boat
queue_id-game_step (take o) s = ground arith
queue_id-game_step put s = ground arith
queue_id-game_step move s = ground arith

queue_id-game_run : (rs : List Request) (s : Session) → (game_run rs s).0.queue_id ≡ s.queue_id
unfolding game_run
queue_id-game_run [] s = refl
queue_id-game_run (r ∷ rs) s = queue_id-game_run rs (game_step r s).0 ∙ queue_id-game_step r s

-- The server whose newest session is `s`.
abbrev pub front : Session → List Session → List (ℕ × Message) → Server
front s ss out = record { sessions = s ∷ ss; outbox = out }

pub dispatch-front :
    (r : Request) (s : Session) (ss : List Session) (out : List (ℕ × Message)) (q : ℕ)
    → s.queue_id ≡ q
    → dispatch true (request_message q r) (front s ss out)
      ≡ front (game_step r s).0 ss (out ++ (q, (game_step r s).1) ∷ [])
unfolding dispatch game_step handle_take handle_put handle_move get_session set_session
dispatch-front (take o) s ss out q e = ground arith
dispatch-front put s ss out q e = ground arith
dispatch-front move s ss out q e = ground arith

serve-front :
    (rs : List Request) (s : Session) (ss : List Session) (out : List (ℕ × Message)) (q : ℕ)
    → s.queue_id ≡ q
    → serve (map (command q) rs) (front s ss out)
      ≡ front (game_run rs s).0 ss (out ++ map (λ m. (q, m)) (game_run rs s).1)
unfolding serve game_run
serve-front [] s ss out q e = simp append-nil
serve-front (r ∷ rs) s ss out q e =
    rw (dispatch-front r s ss out q e, serve)
      (serve-front rs (game_step r s).0 ss (out ++ (q, (game_step r s).1) ∷ []) q
          (queue_id-game_step r s ∙ e)
        ∙ ap (front (game_run rs (game_step r s).0).0 ss)
            (append_assoc out ((q, (game_step r s).1) ∷ []) _))

-- The answers to a game that queue `q` opens on a running server.
abbrev answers : ℕ → List Request → List Message
answers q rs = reply msg_ok "" ∷ (game_run rs (new_session q)).1

opening-outbox :
    (q : ℕ) (rs : List Request) (σ : Server)
    → (serve (opening q rs) σ).outbox ≡ σ.outbox ++ map (λ m. (q, m)) (answers q rs)
unfolding serve dispatch handle_init
opening-outbox q rs σ =
    ap (λ τ. τ.outbox)
      (serve-front rs (new_session q) σ.sessions (σ.outbox ++ (q, reply msg_ok "") ∷ []) q refl)
    ∙ append_assoc σ.outbox ((q, reply msg_ok "") ∷ []) _

abbrev pub solution : List Request
solution =
    take obj_goat
    ∷ move
    ∷ put
    ∷ move
    ∷ take obj_wolf
    ∷ move
    ∷ put
    ∷ take obj_goat
    ∷ move
    ∷ put
    ∷ take obj_cabbage
    ∷ move
    ∷ put
    ∷ move
    ∷ take obj_goat
    ∷ move
    ∷ put
    ∷ []

abbrev pub oks : ℕ → List Message
oks zero = []
oks (suc n) = reply msg_ok "" ∷ oks n

-- On every running server, a client with any queue can open a session and win: the seven-crossing
-- solution is answered by seventeen confirmations and then by ALL_MOVED, whatever sessions exist.
pub solution-wins :
    (q : ℕ) (σ : Server)
    → (serve (opening q solution) σ).outbox
      ≡ σ.outbox ++ map (λ m. (q, m)) (oks 17 ++ reply msg_all_moved "" ∷ [])
unfolding game_run game_step move_boat
solution-wins q σ = opening-outbox q solution σ

serve-append :
    (ms ns : List (Message × Bool)) (σ : Server) → serve (ms ++ ns) σ ≡ serve ns (serve ms σ)
unfolding serve
serve-append [] ns σ = refl
serve-append ((m, a) ∷ ms) ns σ = serve-append ms ns (dispatch a m σ)

-- A game leaves no trace: once a client has opened a session, sent any requests and closed it by
-- FIN, the list of sessions is what it was.
pub game-fin :
    (q : ℕ) (rs : List Request) (a : Bool) (σ : Server)
    → (serve (opening q rs ++ (to_message q msg_fin obj_wolf, a) ∷ []) σ).sessions ≡ σ.sessions
unfolding serve dispatch handle_init handle_fin unregister_client
game-fin q rs a σ =
    rw
      (
        serve-append (opening q rs) ((to_message q msg_fin obj_wolf, a) ∷ []) σ,
        serve-front rs (new_session q) σ.sessions (σ.outbox ++ (q, reply msg_ok "") ∷ []) q refl,
      )
      (ground (arith, queue_id-game_run rs (new_session q)))

abbrev pub moves : List Request → ℕ
moves [] = 0
moves (move ∷ rs) = suc (moves rs)
moves (r ∷ rs) = moves rs

-- Crossings still needed, by the shores alone.
unfoldable pub crossings_left : Session → ℕ
crossings_left s =
    if s.boat_on_right
    then (if s.goat_on_right
        then (if s.wolf_on_right
            then (if s.cabbage_on_right then 0 else 4)
            else if s.cabbage_on_right
            then 4
            else 6)
        else 2)
    else if s.goat_on_right
    then 5
    else if s.wolf_on_right
    then (if s.cabbage_on_right then 1 else 3)
    else if s.cabbage_on_right
    then 3
    else 7

abbrev pub is_safe : Session → Bool
is_safe s = not (goat_eaten s) && not (cabbage_eaten s)

pub crossings_left-move_boat :
    (s : Session)
    → is_safe s ≡ true
    → is_safe (move_boat s) ≡ true
    → crossings_left s ≤ suc (crossings_left (move_boat s))
unfolding crossings_left move_boat
crossings_left-move_boat s h k = ground arith

-- Loading the boat moves nobody.
pub crossings_left-load :
    (s : Session) (o : ObjectId) → crossings_left (record s { obj_in_boat = o }) ≡ crossings_left s
unfolding crossings_left
crossings_left-load s o = refl

pub crossings_left-all_moved : (s : Session) → all_objects_moved s ≡ true → crossings_left s ≡ 0
unfolding crossings_left
crossings_left-all_moved s h = ground arith
