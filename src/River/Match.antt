-- ===== src/River/Match.antt =====
-- The client of SP/task4/client/main.c played against the server of SP/task4/server/main.c.
use mai_fa_sp_4_sem.Base.{ℕ, ◌≤◌, ◌≡◌, ap₂, refl, ap, ◌∙◌, true, List, [], ◌∷◌, ◌++◌, map, arith}
use mai_fa_sp_4_sem.River.Message.{
  obj_wolf, obj_goat, obj_cabbage, obj_none, msg_init, msg_ok, Message,
}
use mai_fa_sp_4_sem.River.Server.{
  Session, Server, new_session, dispatch, reply, handle_init, move_boat,
}
use mai_fa_sp_4_sem.River.Server.Game.{
  Request, take, put, move, request_message, game_step, game_run, front, dispatch-front,
  queue_id-game_step, moves, is_safe, crossings_left, crossings_left-move_boat, crossings_left-load,
  crossings_left-all_moved,
}
use mai_fa_sp_4_sem.River.Client.{
  Exchange, recv_failed, received, Report, all_moved, some_left, silent, LoopEnd, ended_open,
  ended_all_moved, addressed, cleared, play, finish, client,
}
use mai_fa_sp_4_sem.River.Client.Parse.{Command, message}

-- The newest message to come out of the server, as the client's RECV gets it.
abbrev pub newest : List (ℕ × Message) → Exchange
newest [] = recv_failed
newest ((q, m) ∷ []) = received m
newest (x ∷ y ∷ out) = newest (y ∷ out)

-- The server answers the commands one after another, with no other client in between.
pub exchanges : ℕ → List Message → Server → List Exchange
exchanges q [] σ = []
exchanges q (m ∷ ms) σ =
    let τ = dispatch true (addressed q m) σ in newest τ.outbox ∷ exchanges q ms τ

pub registered : ℕ → Server → Server
registered q σ = dispatch true (addressed q (cleared msg_init obj_wolf)) σ

-- The client's last line, from the state of the server behind its INIT on.
abbrev pub played : ℕ → List Command → Server → Report
played q cs τ =
    (client q (map message cs) (newest τ.outbox) (exchanges q (map message cs) τ) true).report

-- A match: the client with queue `q` plays its commands on the server, no call failing.
abbrev pub report : ℕ → List Command → Server → Report
report q cs σ = played q cs (registered q σ)

newest-snoc :
    (out : List (ℕ × Message)) (q : ℕ) (m : Message) → newest (out ++ (q, m) ∷ []) ≡ received m
newest-snoc [] q m = refl
newest-snoc (x ∷ []) q m = refl
newest-snoc (x ∷ y ∷ out) q m = newest-snoc (y ∷ out) q m

abbrev pub request : Command → Request
request Command.take_wolf = take obj_wolf
request Command.take_goat = take obj_goat
request Command.take_cabbage = take obj_cabbage
request Command.put = put
request Command.move = move

addressed-message : (q : ℕ) (c : Command) → addressed q (message c) ≡ request_message q (request c)
addressed-message q Command.take_wolf = refl
addressed-message q Command.take_goat = refl
addressed-message q Command.take_cabbage = refl
addressed-message q Command.put = refl
addressed-message q Command.move = refl

exchanges-game_run :
    (cs : List Command) (s : Session) (ss : List Session) (out : List (ℕ × Message)) (q : ℕ)
    → s.queue_id ≡ q
    → exchanges q (map message cs) (front s ss out) ≡ map received (game_run (map request cs) s).1
unfolding exchanges game_run
exchanges-game_run [] s ss out q e = refl
exchanges-game_run (c ∷ cs) s ss out q e = rw (
  addressed-message q c,
  dispatch-front (request c) s ss out q e,
  newest-snoc out q (game_step (request c) s).1,
  exchanges-game_run cs (game_step (request c) s).0 ss
      (out ++ (q, (game_step (request c) s).1) ∷ []) q (queue_id-game_step (request c) s ∙ e),
)

-- A client that is told ALL_MOVED has made the crossings that its session still needed.
play-crossings_left :
    (cs : List Command) (s : Session) (q : ℕ)
    → is_safe s ≡ true
    → (play q (map message cs) (map received (game_run (map request cs) s).1)).0 ≡ ended_all_moved
    → crossings_left s ≤ moves (map request cs)
unfolding play game_run game_step
play-crossings_left [] s q safe won = cc
play-crossings_left (Command.put ∷ cs) s q safe won = ground (
  arith,
  crossings_left-load s obj_none,
  crossings_left-all_moved s,
  play-crossings_left cs (record s { obj_in_boat = obj_none }) q,
)
play-crossings_left (Command.move ∷ cs) s q safe won =
    ground (arith, crossings_left-move_boat s, play-crossings_left cs (move_boat s) q)
play-crossings_left (Command.take_wolf ∷ cs) s q safe won = ground (
  arith,
  crossings_left-load s obj_wolf,
  play-crossings_left cs (record s { obj_in_boat = obj_wolf }) q,
)
play-crossings_left (Command.take_goat ∷ cs) s q safe won = ground (
  arith,
  crossings_left-load s obj_goat,
  play-crossings_left cs (record s { obj_in_boat = obj_goat }) q,
)
play-crossings_left (Command.take_cabbage ∷ cs) s q safe won = ground (
  arith,
  crossings_left-load s obj_cabbage,
  play-crossings_left cs (record s { obj_in_boat = obj_cabbage }) q,
)

-- What the client prints depends on its loop alone.
abbrev verdict : LoopEnd → Report
verdict ended_all_moved = all_moved
verdict ended_open = some_left
verdict _ = silent

finish-report :
    (q : ℕ) (e : LoopEnd) (msg : Message) (ms : List Message)
    → (finish q true e msg ms).report ≡ verdict e
unfolding finish
finish-report q e msg ms = ground arith

abbrev opened : ℕ → Server → Server
opened q σ = front (new_session q) σ.sessions (σ.outbox ++ (q, reply msg_ok "") ∷ [])

registered_lem : (q : ℕ) (σ : Server) → registered q σ ≡ opened q σ
unfolding registered dispatch handle_init
registered_lem q σ = refl

client-verdict :
    (q : ℕ) (ms : List Message) (xs : List Exchange)
    → (client q ms (received (reply msg_ok "")) xs true).report ≡ verdict (play q ms xs).0
unfolding client
client-verdict q ms xs = finish-report q _ _ _

report-verdict :
    (q : ℕ) (cs : List Command) (σ : Server)
    → report q cs σ
      ≡ verdict
          (play q (map message cs) (map received (game_run (map request cs) (new_session q)).1)).0
report-verdict q cs σ =
    ap (played q cs) (registered_lem q σ)
    ∙ ap₂ (λ x xs. (client q (map message cs) x xs true).report)
        (newest-snoc σ.outbox q (reply msg_ok ""))
        (exchanges-game_run cs (new_session q) σ.sessions (opened q σ).outbox q refl)
    ∙ client-verdict q _ _

verdict-all_moved : (e : LoopEnd) → verdict e ≡ all_moved → e ≡ ended_all_moved
verdict-all_moved e h = ground arith

-- On every running server, a client that ends by printing "All objects moved" has a command list
-- with at least seven moves.
pub report-moves :
    (q : ℕ) (cs : List Command) (σ : Server)
    → report q cs σ ≡ all_moved
    → 7 ≤ moves (map request cs)
unfolding crossings_left
report-moves q cs σ won =
    play-crossings_left cs (new_session q) q refl
      (verdict-all_moved _ (rw (report-verdict q cs σ) at won))

abbrev pub solution : List Command
solution =
    Command.take_goat ∷ Command.move ∷ Command.put ∷ Command.move ∷ Command.take_wolf ∷ Command.move
    ∷ Command.put ∷ Command.take_goat ∷ Command.move ∷ Command.put ∷ Command.take_cabbage
    ∷ Command.move ∷ Command.put ∷ Command.move ∷ Command.take_goat ∷ Command.move ∷ Command.put
    ∷ []

-- The list of seven crossings wins: on every running server and with any queue, the client that
-- plays it ends by printing "All objects moved".
pub report-solution : (q : ℕ) (σ : Server) → report q solution σ ≡ all_moved
unfolding play game_run game_step move_boat
report-solution q σ = report-verdict q solution σ
