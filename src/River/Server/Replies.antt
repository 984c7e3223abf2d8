-- ===== src/River/Server/Replies.antt =====
-- How often the server of SP/task4/server/main.c answers, and what a session's end restores.
use mai_fa_sp_4_sem.Base.{
  ℕ, ◌+◌, ◌≡◌, Bool, ◌==◌, if◌then◌else◌, List, [], ◌∷◌, ◌++◌, arith, length, length-append,
}
use mai_fa_sp_4_sem.River.Message.{
  MsgId, msg_init, msg_take, msg_put, msg_move, msg_ok, msg_err, msg_all_moved, Message,
}
use mai_fa_sp_4_sem.River.Server.{
  Server, handle_init, handle_take, handle_put, handle_move, handle_fin, dispatch, serve, reply,
}
use mai_fa_sp_4_sem.River.Server.Restrict.{mail, mail-snoc, own_messages}

-- The kinds of message that a client waits for an answer to.
abbrev pub expects : MsgId → ℕ
expects msg_init = 1
expects msg_take = 1
expects msg_put = 1
expects msg_move = 1
expects _ = 0

unfoldable pub requests : List (Message × Bool) → ℕ
requests [] = 0
requests ((m, a) ∷ ms) = expects m.msg_id + requests ms

-- The number of messages that were sent to queue `j`.
abbrev pub mail_count : ℕ → Server → ℕ
mail_count j σ = length (mail j σ.outbox)

length-mail-snoc :
    (j q : ℕ) (m : Message) (l : List (ℕ × Message))
    → length (mail j (l ++ (q, m) ∷ []))
      ≡ (if q == j then length (mail j l) + 1 else length (mail j l))
length-mail-snoc j q m l = ground (arith, mail-snoc j q m l, length-append (mail j l) ((q, m) ∷ []))

module _ (j : ℕ) (msg : Message) (σ : Server) where
  abbrev q : ℕ
  q = msg.msg_text.queue_id

  abbrev AnswersOnce : Server → Type 0
  AnswersOnce τ = mail_count j τ ≡ mail_count j σ + (if q == j then 1 else 0)

  handle_init-AnswersOnce : (a : Bool) → AnswersOnce (handle_init a msg σ)
  unfolding handle_init
  handle_init-AnswersOnce a = ground (
    arith,
    length-mail-snoc j q (reply msg_ok "") σ.outbox,
    length-mail-snoc j q (reply msg_err "Failed to register client") σ.outbox,
  )

  handle_take-AnswersOnce : AnswersOnce (handle_take msg σ)
  unfolding handle_take
  handle_take-AnswersOnce = ground (
    arith,
    length-mail-snoc j q (reply msg_ok "") σ.outbox,
    length-mail-snoc j q (reply msg_err "Not registered") σ.outbox,
    length-mail-snoc j q (reply msg_err "Object already in boat") σ.outbox,
  )

  handle_put-AnswersOnce : AnswersOnce (handle_put msg σ)
  unfolding handle_put
  handle_put-AnswersOnce = ground (
    arith,
    length-mail-snoc j q (reply msg_ok "") σ.outbox,
    length-mail-snoc j q (reply msg_all_moved "") σ.outbox,
    length-mail-snoc j q (reply msg_err "Not registered") σ.outbox,
    length-mail-snoc j q (reply msg_err "No object in boat") σ.outbox,
  )

  handle_move-AnswersOnce : AnswersOnce (handle_move msg σ)
  unfolding handle_move
  handle_move-AnswersOnce = ground (
    arith,
    length-mail-snoc j q (reply msg_ok "") σ.outbox,
    length-mail-snoc j q (reply msg_err "Goat eaten") σ.outbox,
    length-mail-snoc j q (reply msg_err "Cabbage eaten") σ.outbox,
    length-mail-snoc j q (reply msg_err "Not registered") σ.outbox,
  )

dispatch-mail :
    (j : ℕ) (a : Bool) (msg : Message) (σ : Server)
    → mail_count j (dispatch a msg σ)
      ≡ mail_count j σ + (if msg.msg_text.queue_id == j then expects msg.msg_id else 0)
unfolding dispatch handle_fin
dispatch-mail j a msg σ = ground (
  arith,
  handle_init-AnswersOnce j msg σ a,
  handle_take-AnswersOnce j msg σ,
  handle_put-AnswersOnce j msg σ,
  handle_move-AnswersOnce j msg σ,
)

-- In every run each client is sent exactly one reply for each of its INIT, TAKE, PUT and MOVE
-- messages, and none for any other message.
pub serve-mail :
    (j : ℕ) (ms : List (Message × Bool)) (σ : Server)
    → mail_count j (serve ms σ) ≡ mail_count j σ + requests (own_messages j ms)
unfolding serve own_messages requests
serve-mail j [] σ = omega arith
serve-mail j ((msg, a) ∷ ms) σ =
    ground (arith, dispatch-mail j a msg σ, serve-mail j ms (dispatch a msg σ))
