-- ===== src/River/Server/Sessions.antt =====
-- The list of sessions of SP/task4/server/main.c, seen from one queue.
use mai_fa_sp_4_sem.Base.{ℕ, ◌≡◌, refl, ◌==◌, if◌then◌else◌, some, List, [], ◌∷◌, arith}
use mai_fa_sp_4_sem.River.Server.{Session, unregister_client, get_session, set_session, move_boat}

-- The sessions of one queue, in the order of the list.
unfoldable pub own_sessions : ℕ → List Session → List Session
own_sessions j [] = []
own_sessions j (s ∷ ss) = if s.queue_id == j then s ∷ own_sessions j ss else own_sessions j ss

pub get_session-queue_id :
    (q : ℕ) (ss : List Session) (s : Session) → get_session q ss ≡ some s → s.queue_id ≡ q
unfolding get_session
get_session-queue_id q [] s h = ground arith
get_session-queue_id q (t ∷ ss) s h = ground (arith, get_session-queue_id q ss s)

pub get_session-own_sessions :
    (q : ℕ) (ss : List Session) → get_session q (own_sessions q ss) ≡ get_session q ss
unfolding get_session own_sessions
get_session-own_sessions q [] = refl
get_session-own_sessions q (t ∷ ss) = ground (arith, get_session-own_sessions q ss)

pub get_session-set_session :
    (q : ℕ) (ss : List Session) (s t : Session)
    → get_session q ss ≡ some s
    → t.queue_id ≡ q
    → get_session q (set_session q t ss) ≡ some t
unfolding get_session set_session
get_session-set_session q [] s t h e = ground arith
get_session-set_session q (x ∷ ss) s t h e = ground (arith, get_session-set_session q ss s t)

pub own_sessions-set_session :
    (j q : ℕ) (t : Session) (ss : List Session)
    → t.queue_id ≡ q
    → own_sessions j (set_session q t ss)
      ≡ (if q == j then set_session q t (own_sessions j ss) else own_sessions j ss)
unfolding own_sessions set_session
own_sessions-set_session j q t [] e = ground arith
own_sessions-set_session j q t (x ∷ ss) e = ground (arith, own_sessions-set_session j q t ss)

pub own_sessions-unregister_client :
    (j q : ℕ) (ss : List Session)
    → own_sessions j (unregister_client q ss)
      ≡ (if q == j then unregister_client q (own_sessions j ss) else own_sessions j ss)
unfolding own_sessions unregister_client
own_sessions-unregister_client j q [] = ground arith
own_sessions-unregister_client j q (x ∷ ss) = ground (arith, own_sessions-unregister_client j q ss)

-- The boat's crossing keeps the session's identifier.
pub queue_id-move_boat : (s : Session) → (move_boat s).queue_id ≡ s.queue_id
unfolding move_boat
queue_id-move_boat s = ground arith
