-- ===== src/River/Message.antt =====
-- SP/task4/include/msg.h: what the client and the server send one another.
use Prim.Native.String.{String}
use mai_fa_sp_4_sem.Base.{ℕ, Bool, true, false}

-- enum object_id
pub data ObjectId : Type 0 where
  obj_wolf obj_goat obj_cabbage obj_none : ObjectId

-- The values of `msg_id`, MSG_INIT to MSG_ALL_MOVED, and any other `long`.
pub data MsgId : Type 0 where
  msg_init msg_take msg_put msg_move msg_ok msg_err msg_fin msg_all_moved : MsgId
  msg_other : ℕ → MsgId

-- struct message_text: the two members of the union `args` stand side by side.
pub record MessageText : Type 0 where
  pub queue_id : ℕ
  pub obj_id : ObjectId
  pub err_msg : String

pub record Message : Type 0 where
  pub msg_id : MsgId
  pub msg_text : MessageText

-- `msg.msg_id == MSG_ERR` and `msg.msg_id == MSG_ALL_MOVED`
abbrev pub is_error : Message → Bool
is_error m = elim m.msg_id [ msg_err ↦ true | _ ↦ false ]

abbrev pub is_all_moved : Message → Bool
is_all_moved m = elim m.msg_id [ msg_all_moved ↦ true | _ ↦ false ]
