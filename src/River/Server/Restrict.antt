-- ===== src/River/Server/Restrict.antt =====
-- What one client of SP/task4/server/main.c sees of the server: its own sessions and its own mail.
use mai_fa_sp_4_sem.Base.{
  ℕ, ◌≡◌, refl, ◌∙◌, Bool, ◌==◌, if◌then◌else◌, none, some, List, [], ◌∷◌, ◌++◌, arith,
  Option-cases, inl, inr,
}
use mai_fa_sp_4_sem.River.Message.{obj_none, Message, msg_ok, msg_err, msg_all_moved}
use mai_fa_sp_4_sem.River.Server.{
  Session, Server, get_session, set_session, handle_init, handle_take, handle_put, handle_move,
  handle_fin, dispatch, serve, move_boat, reply,
}
use mai_fa_sp_4_sem.River.Server.Sessions.{
  own_sessions, get_session-queue_id, get_session-own_sessions, own_sessions-set_session,
  own_sessions-unregister_client, queue_id-move_boat,
}

unfoldable pub mail : ℕ → List (ℕ × Message) → List (ℕ × Message)
mail j [] = []
mail j ((q, m) ∷ rest) = if q == j then (q, m) ∷ mail j rest else mail j rest

unfoldable pub own_messages : ℕ → List (Message × Bool) → List (Message × Bool)
own_messages j [] = []
own_messages j ((m, a) ∷ rest) =
    if m.msg_text.queue_id == j then (m, a) ∷ own_messages j rest else own_messages j rest

-- The server with everything that is not queue `j`'s left out.
pub restrict : ℕ → Server → Server
restrict j σ = record { sessions = own_sessions j σ.sessions; outbox = mail j σ.outbox }

pub mail-snoc :
    (j q : ℕ) (m : Message) (l : List (ℕ × Message))
    → mail j (l ++ (q, m) ∷ []) ≡ (if q == j then mail j l ++ (q, m) ∷ [] else mail j l)
unfolding mail
mail-snoc j q m [] = ground arith
mail-snoc j q m ((p, n) ∷ l) = ground (arith, mail-snoc j q m l)

-- A handler does to queue `j`'s part what it does to the whole, or leaves it alone.
abbrev Local : ℕ → (Message → Server → Server) → Type 0
Local j h =
    (msg : Message) (σ : Server)
    → restrict j (h msg σ)
      ≡ (if msg.msg_text.queue_id == j then h msg (restrict j σ) else restrict j σ)

handle_fin-restrict : (j : ℕ) → Local j handle_fin
unfolding restrict handle_fin
handle_fin-restrict j msg σ =
    ground (arith, own_sessions-unregister_client j msg.msg_text.queue_id σ.sessions)

handle_init-restrict : (j : ℕ) (a : Bool) → Local j (handle_init a)
unfolding restrict handle_init own_sessions
handle_init-restrict j a msg σ = ground (
  arith,
  mail-snoc j msg.msg_text.queue_id (reply msg_ok "") σ.outbox,
  mail-snoc j msg.msg_text.queue_id (reply msg_err "Failed to register client") σ.outbox,
)

module _ (j : ℕ) (msg : Message) (σ : Server) where
  abbrev q : ℕ
  q = msg.msg_text.queue_id

  abbrev LocalAt : (Message → Server → Server) → Type 0
  LocalAt h = restrict j (h msg σ) ≡ (if q == j then h msg (restrict j σ) else restrict j σ)

  -- The facts about a session that was found, for the session that is written back.
  found : (s t : Session) → get_session q σ.sessions ≡ some s → t.queue_id ≡ s.queue_id → record {
    same : q ≡ j → get_session q (own_sessions j σ.sessions) ≡ some s;
    own : own_sessions j (set_session q t σ.sessions) ≡ (
        if q == j then set_session q t (own_sessions j σ.sessions) else own_sessions j σ.sessions);
  }
  found s t h e = record {
    same = λ p. rw (← p, get_session-own_sessions q σ.sessions) h;
    own = own_sessions-set_session j q t σ.sessions (e ∙ get_session-queue_id q σ.sessions s h);
  }

  absent :
      get_session q σ.sessions ≡ none → q ≡ j → get_session q (own_sessions j σ.sessions) ≡ none
  absent h p = rw (← p, get_session-own_sessions q σ.sessions) h

  handle_take-restrict : LocalAt handle_take
  unfolding restrict handle_take
  handle_take-restrict = elim (Option-cases (get_session q σ.sessions)) [
    | inl h ↦ ground (arith, h, absent h, mail-snoc j q (reply msg_err "Not registered") σ.outbox)
    | inr (s, h) ↦ ground (
      arith,
      h,
      found s (record s { obj_in_boat = msg.msg_text.obj_id }) h refl,
      mail-snoc j q (reply msg_err "Object already in boat") σ.outbox,
      mail-snoc j q (reply msg_ok "") σ.outbox,
    )
  ]

  handle_put-restrict : LocalAt handle_put
  unfolding restrict handle_put
  handle_put-restrict = elim (Option-cases (get_session q σ.sessions)) [
    | inl h ↦ ground (arith, h, absent h, mail-snoc j q (reply msg_err "Not registered") σ.outbox)
    | inr (s, h) ↦ ground (
      arith,
      h,
      found s (record s { obj_in_boat = obj_none }) h refl,
      mail-snoc j q (reply msg_err "No object in boat") σ.outbox,
      mail-snoc j q (reply msg_all_moved "") σ.outbox,
      mail-snoc j q (reply msg_ok "") σ.outbox,
    )
  ]

  handle_move-restrict : LocalAt handle_move
  unfolding restrict handle_move
  handle_move-restrict = elim (Option-cases (get_session q σ.sessions)) [
    | inl h ↦ ground (arith, h, absent h, mail-snoc j q (reply msg_err "Not registered") σ.outbox)
    | inr (s, h) ↦ ground (
      arith,
      h,
      found s (move_boat s) h (queue_id-move_boat s),
      mail-snoc j q (reply msg_err "Goat eaten") σ.outbox,
      mail-snoc j q (reply msg_err "Cabbage eaten") σ.outbox,
      mail-snoc j q (reply msg_ok "") σ.outbox,
    )
  ]

-- One message: queue `j`'s part of the server changes only on a message of its own.
dispatch-restrict :
    (j : ℕ) (a : Bool) (msg : Message) (σ : Server)
    → restrict j (dispatch a msg σ)
      ≡ (if msg.msg_text.queue_id == j then dispatch a msg (restrict j σ) else restrict j σ)
unfolding dispatch
dispatch-restrict j a msg σ = ground (
  arith,
  handle_init-restrict j a msg σ,
  handle_take-restrict j msg σ,
  handle_put-restrict j msg σ,
  handle_move-restrict j msg σ,
  handle_fin-restrict j msg σ,
)

-- The server is a product of independent servers: what queue `j` sees of a run over any messages
-- (its sessions and the replies sent to it) is what it sees of the run over its own messages alone.
pub serve-restrict :
    (j : ℕ) (ms : List (Message × Bool)) (σ : Server)
    → restrict j (serve ms σ) ≡ serve (own_messages j ms) (restrict j σ)
unfolding serve own_messages
serve-restrict j [] σ = refl
serve-restrict j ((msg, a) ∷ ms) σ =
    ground (arith, dispatch-restrict j a msg σ, serve-restrict j ms (dispatch a msg σ))
