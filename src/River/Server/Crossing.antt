-- ===== src/River/Server/Crossing.antt =====
-- The puzzle that SP/task4/server/main.c referees, stated without boat loads: who is on the right
-- shore, and which crossings are legal.
use mai_fa_sp_4_sem.Base.{
  ◌≡◌, ◌≢◌, ◌⊎◌, inl, inr, refl, Bool, not, eqb, Bool-cases, some, [], ◌∷◌, ◌++◌, arith, subst, sym,
}
use mai_fa_sp_4_sem.River.Message.{
  ObjectId, obj_wolf, obj_goat, obj_cabbage, obj_none, Message, msg_ok, msg_err,
}
use mai_fa_sp_4_sem.River.Server.{
  Session, Server, get_session, set_session, handle_move, move_boat, reply, goat_eaten,
  cabbage_eaten,
}

pub record Shores : Type 0 where
  pub farmer : Bool
  pub wolf : Bool
  pub goat : Bool
  pub cabbage : Bool

abbrev pub shores : Session → Shores
shores s = record {
  farmer = s.boat_on_right;
  wolf = s.wolf_on_right;
  goat = s.goat_on_right;
  cabbage = s.cabbage_on_right;
}

-- Nobody eats: the wolf and the goat, or the goat and the cabbage, share a shore only with the
-- farmer.
abbrev pub IsSafe : Shores → Type 0
IsSafe p = ((p.wolf ≢ p.goat) ⊎ (p.farmer ≡ p.goat)) × ((p.goat ≢ p.cabbage) ⊎ (p.farmer ≡ p.goat))

-- The farmer crosses, alone or with one object from his own shore, and leaves nobody in danger.
pub data Crossing (p p' : Shores) : Type 0 where
  alone : p' ≡ record p { farmer = not p.farmer } → IsSafe p' → Crossing p p'
  with_wolf :
      p.wolf ≡ p.farmer
      → p' ≡ record p { farmer = not p.farmer; wolf = not p.farmer }
      → IsSafe p'
      → Crossing p p'
  with_goat :
      p.goat ≡ p.farmer
      → p' ≡ record p { farmer = not p.farmer; goat = not p.farmer }
      → IsSafe p'
      → Crossing p p'
  with_cabbage :
      p.cabbage ≡ p.farmer
      → p' ≡ record p { farmer = not p.farmer; cabbage = not p.farmer }
      → IsSafe p'
      → Crossing p p'

-- The boat crosses with its load: the farmer changes the shore, and the object in the boat comes to
-- the shore that he reaches, wherever it was taken from.
abbrev pub ferry : ObjectId → Shores → Shores
ferry obj_wolf p = record p { farmer = not p.farmer; wolf = not p.farmer }
ferry obj_goat p = record p { farmer = not p.farmer; goat = not p.farmer }
ferry obj_cabbage p = record p { farmer = not p.farmer; cabbage = not p.farmer }
ferry obj_none p = record p { farmer = not p.farmer }

-- `t` is the session `s` behind a crossing: the load stays in the boat.
pub record Ferried (s t : Session) : Type 0 where
  pub at_shores : shores t ≡ ferry s.obj_in_boat (shores s)
  pub same_load : t.obj_in_boat ≡ s.obj_in_boat
  pub same_queue : t.queue_id ≡ s.queue_id

-- What becomes of the server when a move is answered with `m` and leaves the session `t`.
abbrev pub Moved : Message → Message → Session → Server → Type 0
Moved m msg t σ = handle_move msg σ ≡ record {
  sessions = set_session msg.msg_text.queue_id t σ.sessions;
  outbox = σ.outbox ++ (msg.msg_text.queue_id, m) ∷ [];
}

move_boat-Ferried : (s : Session) → Ferried s (move_boat s)
unfolding move_boat
move_boat-Ferried s = by_load s.obj_in_boat refl
  where
    by_load : (o : ObjectId) → s.obj_in_boat ≡ o → Ferried s (move_boat s)
    by_load obj_wolf e = record {
      at_shores = rw e refl;
      same_load = rw e refl;
      same_queue = rw e refl;
    }
    by_load obj_goat e = record {
      at_shores = rw e refl;
      same_load = rw e refl;
      same_queue = rw e refl;
    }
    by_load obj_cabbage e = record {
      at_shores = rw e refl;
      same_load = rw e refl;
      same_queue = rw e refl;
    }
    by_load obj_none e = record {
      at_shores = rw e refl;
      same_load = rw e refl;
      same_queue = rw e refl;
    }

-- What is not on the boat's shore is not carried: the farmer then crosses alone.
ferry-Crossing : (o : ObjectId) (p : Shores) → IsSafe (ferry o p) → Crossing p (ferry o p)
ferry-Crossing obj_wolf p safe = elim (Bool-cases (eqb p.wolf p.farmer)) [
  | inl here ↦ with_wolf (ground arith) refl safe
  | inr away ↦ alone (ground arith) safe
]
ferry-Crossing obj_goat p safe = elim (Bool-cases (eqb p.goat p.farmer)) [
  | inl here ↦ with_goat (ground arith) refl safe
  | inr away ↦ alone (ground arith) safe
]
ferry-Crossing obj_cabbage p safe = elim (Bool-cases (eqb p.cabbage p.farmer)) [
  | inl here ↦ with_cabbage (ground arith) refl safe
  | inr away ↦ alone (ground arith) safe
]
ferry-Crossing obj_none p safe = alone refl safe

Ferried-Crossing :
    (s t : Session) → Ferried s t → IsSafe (shores t) → Crossing (shores s) (shores t)
Ferried-Crossing s t h safe =
    subst (Crossing (shores s)) (sym h.at_shores)
      (ferry-Crossing s.obj_in_boat (shores s) (subst IsSafe h.at_shores safe))

-- A registered client's MOVE takes the boat and the object in it to the other shore, and leaves the
-- load in the boat. It is confirmed if nobody is in danger afterwards, and then the crossing is a
-- legal one of the puzzle, also where the load was taken from the other shore; else the error names
-- who is eaten.
pub handle_move-Crossing :
    (msg : Message) (s : Session) (σ : Server)
    → get_session msg.msg_text.queue_id σ.sessions ≡ some s
    → (t : Session) × Ferried s t
      × let p = shores s in
        let p' = shores t in
        ((Crossing p p' × IsSafe p' × Moved (reply msg_ok "") msg t σ)
          ⊎ ((p'.wolf ≡ p'.goat)
              × (p'.farmer ≢ p'.goat)
              × Moved (reply msg_err "Goat eaten") msg t σ)
          ⊎ ((p'.wolf ≢ p'.goat)
              × (p'.goat ≡ p'.cabbage)
              × (p'.farmer ≢ p'.goat)
              × Moved (reply msg_err "Cabbage eaten") msg t σ))
unfolding handle_move
handle_move-Crossing msg s σ h = (
  move_boat s,
  move_boat-Ferried s,
  elim (Bool-cases (goat_eaten (move_boat s))) [
    | inl goat ↦ inr (inl (ground arith, ground arith, ground arith))
    | inr no_goat ↦ elim (Bool-cases (cabbage_eaten (move_boat s))) [
      | inl cabbage ↦ inr (inr (ground arith, ground arith, ground arith, ground arith))
      | inr no_cabbage ↦
          let safe : IsSafe (shores (move_boat s)) = ground arith in
          inl (Ferried-Crossing s (move_boat s) (move_boat-Ferried s) safe, safe, ground arith)
    ]
  ],
)
