-- ===== src/River/Tests.antt =====
-- Runs of SP/task4 with two clients, and each theorem at such a run.
use mai_fa_sp_4_sem.Base.{
  ◌+◌, ◌≤◌, ◌≡◌, ◌≢◌, refl, ◌⊎◌, Bool, true, false, some, List, [], ◌∷◌, map, arith, length,
}
use mai_fa_sp_4_sem.River.Message.{
  obj_wolf, obj_goat, msg_init, msg_take, msg_put, msg_move, msg_ok, msg_err, msg_fin, Message,
}
use mai_fa_sp_4_sem.River.Server.{
  Session, Server, new_session, get_session, reply, handle_move, move_boat, serve,
}
use mai_fa_sp_4_sem.River.Server.Restrict.{restrict, own_messages, serve-restrict}
use mai_fa_sp_4_sem.River.Server.Replies.{mail_count, requests, serve-mail}
use mai_fa_sp_4_sem.River.Server.Crossing.{
  Crossing, IsSafe, Ferried, Moved, shores, handle_move-Crossing,
}
use mai_fa_sp_4_sem.River.Server.Game.{to_message, opening, oks, game-fin, solution-wins}
use mai_fa_sp_4_sem.River.Server.Game
use mai_fa_sp_4_sem.River.Client.{
  parsed, cleared, CmdsBuf, parse_cmd_list, Exchange, recv_failed, received, all_moved, Ended,
  addressed, play, msg_after, finish, client,
}
use mai_fa_sp_4_sem.River.Client.Parse.{
  Command, take_wolf, put, move, message, print, always, IsValid, parse_cmd_list-print,
}
use mai_fa_sp_4_sem.River.Match.{request, report, report-moves, report-solution}
use mai_fa_sp_4_sem.River.Match

abbrev empty : Server
empty = record { sessions = []; outbox = [] }

-- Two clients whose messages interleave.
abbrev traffic : List (Message × Bool)
traffic =
    (to_message 3 msg_init obj_wolf, true)
    ∷ (to_message 4 msg_init obj_wolf, true)
    ∷ (to_message 3 msg_take obj_goat, true)
    ∷ (to_message 4 msg_move obj_wolf, true)
    ∷ (to_message 5 msg_put obj_wolf, true)
    ∷ []

serve-restrict_example :
    restrict 3 (serve traffic empty) ≡ serve (own_messages 3 traffic) (restrict 3 empty)
serve-restrict_example = serve-restrict 3 traffic empty

serve-mail_example :
    mail_count 3 (serve traffic empty) ≡ mail_count 3 empty + requests (own_messages 3 traffic)
serve-mail_example = serve-mail 3 traffic empty

-- The goat sits in the boat.
abbrev loaded : Session
loaded = record (new_session 3) { obj_in_boat = obj_goat }

abbrev one_client : Server
one_client = record { sessions = loaded ∷ []; outbox = [] }

abbrev crossing : Message
crossing = to_message 3 msg_move obj_wolf

crossing_found : get_session 3 one_client.sessions ≡ some loaded
unfolding get_session
crossing_found = refl

handle_move-Crossing_example :
    (t : Session) × Ferried loaded t
    × let p = shores loaded in
      let p' = shores t in
      ((Crossing p p' × IsSafe p' × Moved (reply msg_ok "") crossing t one_client)
        ⊎ ((p'.wolf ≡ p'.goat)
            × (p'.farmer ≢ p'.goat)
            × Moved (reply msg_err "Goat eaten") crossing t one_client)
        ⊎ ((p'.wolf ≢ p'.goat)
            × (p'.goat ≡ p'.cabbage)
            × (p'.farmer ≢ p'.goat)
            × Moved (reply msg_err "Cabbage eaten") crossing t one_client))
handle_move-Crossing_example = handle_move-Crossing crossing loaded one_client crossing_found

-- An empty boat leaves the goat to the wolf.
goat_is_lost :
    (handle_move crossing (record { sessions = new_session 3 ∷ []; outbox = [] })).outbox
    ≡ (3, reply msg_err "Goat eaten") ∷ []
unfolding handle_move get_session move_boat
goat_is_lost = refl

report-moves_example : 7 ≤ Game.moves (map request Match.solution)
report-moves_example = report-moves 3 Match.solution one_client (report-solution 3 one_client)

report-solution_example : report 3 Match.solution one_client ≡ all_moved
report-solution_example = report-solution 3 one_client

abbrev commands : List Command
commands = take_wolf ∷ move ∷ put ∷ []

parse_cmd_list-print_example :
    (b : CmdsBuf) × (parse_cmd_list always (some (print commands [])) ≡ parsed b)
    × (b.cmds ≡ map message commands)
    × (length b.cmds ≤ b.cap)
parse_cmd_list-print_example = parse_cmd_list-print commands

-- A full buffer of one cell.
abbrev full : CmdsBuf
full = record { cmds = message move ∷ []; cap = 1 }

full-IsValid : IsValid full
full-IsValid = record { fits = omega arith; room = omega arith }

abbrev confirmed : Exchange
confirmed = received (reply msg_ok "")

abbrev dialogue : Bool → Ended
dialogue fin_sent =
    client 3 (map message commands) confirmed (confirmed ∷ confirmed ∷ confirmed ∷ []) fin_sent

-- The first answer never arrives.
abbrev unanswered : Ended
unanswered = client 3 (map message commands) confirmed (recv_failed ∷ []) true

unanswered_lem : unanswered.queue_removed ≡ false
unfolding client play finish
unanswered_lem = refl

-- FIN still shows the error that ended the game.
abbrev refused : Exchange
refused = received (reply msg_err "Goat eaten")

fin_shows_error :
    (client 3 (message move ∷ []) confirmed (refused ∷ []) true).sent
    ≡ addressed 3 (cleared msg_init obj_wolf)
      ∷ addressed 3 (message move)
      ∷ addressed 3 (reply msg_fin "Goat eaten")
      ∷ []
unfolding client play msg_after finish
fin_shows_error = refl
