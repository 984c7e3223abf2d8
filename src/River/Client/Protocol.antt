-- ===== src/River/Client/Protocol.antt =====
-- What the loop of SP/task4/client/main.c sends, and how it ends.
use mai_fa_sp_4_sem.Base.{
  ℕ, ◌≡◌, refl, ◌⊎◌, Bool, true, false, not, ◌&&◌, List, [], ◌∷◌, arith, inr,
}
use mai_fa_sp_4_sem.River.Message.{Message, is_error}
use mai_fa_sp_4_sem.River.Client.{
  Exchange, send_failed, recv_failed, received, LoopEnd, transport_failed, play, finish, client,
}

-- No exchange failed before the loop stopped at an error, at ALL_MOVED or at its last command.
abbrev pub is_delivered : LoopEnd → Bool
is_delivered transport_failed = false
is_delivered _ = true

-- The last message that was received, `m` if there is none.
pub last_reply : Message → List Exchange → Message
last_reply m [] = m
last_reply m (received r ∷ xs) = last_reply r xs
last_reply m (_ ∷ xs) = last_reply m xs

-- Some SEND or RECV of the run failed.
abbrev pub is_lost : Exchange → LoopEnd → Bool → Bool
is_lost (received r) e fin_sent = not (is_error r) && not (is_delivered e && fin_sent)
is_lost _ e fin_sent = true

-- The client removes its queue at its end exactly when no SEND or RECV of the run failed; a failed
-- one ends it with status 1 and leaves the queue behind.
pub client-leaks :
    (q : ℕ) (cmds : List Message) (x : Exchange) (xs : List Exchange) (fin_sent : Bool)
    → let lost = is_lost x (play q cmds xs).0 fin_sent in
      let end = client q cmds x xs fin_sent in
      (end.queue_removed ≡ not lost) × ((lost ≡ false) ⊎ (end.exit_code ≡ 1))
unfolding client finish
client-leaks q cmds send_failed xs f = (refl, inr refl)
client-leaks q cmds recv_failed xs f = (refl, inr refl)
client-leaks q cmds (received r) xs f = (ground arith, ground arith)
