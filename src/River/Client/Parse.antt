-- ===== src/River/Client/Parse.antt =====
-- The command list of SP/task4/client/main.c: what is written is read back, the buffer holds what
-- is stored in it, and a blank line is not survived.
use mai_fa_sp_4_sem.Base.{
  ℕ, ◌*◌, ◌≤◌, ◌<◌, ◌≡◌, refl, ap, sym, ◌∙◌, ◌⊎◌, Bool, true, false, ◌==◌, some, List, [], ◌∷◌,
  ◌++◌, map, arith, length, length-append, append_assoc, append-nil, replicate, Bool-cases, inl,
  inr,
}
use mai_fa_sp_4_sem.Libc.{codes, strcmp_eq, getlines, strtok, skip_spaces, split_space}
use mai_fa_sp_4_sem.Libc.Tokens.{Lacks, getlines-line, strtok-spaces, Lacks-replicate}
use mai_fa_sp_4_sem.River.Message.{
  obj_wolf, obj_goat, obj_cabbage, msg_take, msg_put, msg_move, Message,
}
use mai_fa_sp_4_sem.River.Client.{
  parsed, null, crash, cleared, parse_object, parse_cmd, CmdsBuf, store_cmd, parse_lines,
  parse_cmd_list,
}

-- The commands that a list can hold, as text and as the message that each stands for.
pub data Command : Type 0 where
  take_wolf take_goat take_cabbage put move : Command

abbrev pub text : Command → List ℕ
text take_wolf = codes "take wolf;"
text take_goat = codes "take goat;"
text take_cabbage = codes "take cabbage;"
text put = codes "put;"
text move = codes "move;"

abbrev pub message : Command → Message
message take_wolf = cleared msg_take obj_wolf
message take_goat = cleared msg_take obj_goat
message take_cabbage = cleared msg_take obj_cabbage
message put = cleared msg_put obj_wolf
message move = cleared msg_move obj_wolf

-- A file with one command to a line, and `rest` behind them.
abbrev pub print : List Command → List ℕ → List ℕ
print [] rest = rest
print (c ∷ cs) rest = text c ++ b'\n' ∷ print cs rest

parse_cmd-text : (c : Command) → parse_cmd (text c) ≡ parsed (message c)
unfolding parse_cmd parse_object strcmp_eq strtok skip_spaces split_space
parse_cmd-text take_wolf = refl
parse_cmd-text take_goat = refl
parse_cmd-text take_cabbage = refl
parse_cmd-text put = refl
parse_cmd-text move = refl

text-Lacks : (c : Command) → Lacks b'\n' (text c)
text-Lacks take_wolf = omega arith
text-Lacks take_goat = omega arith
text-Lacks take_cabbage = omega arith
text-Lacks put = omega arith
text-Lacks move = omega arith

getlines-print :
    (cs : List Command) (rest : List ℕ) → getlines (print cs rest) ≡ map text cs ++ getlines rest
getlines-print [] rest = refl
getlines-print (c ∷ cs) rest =
    getlines-line (text c) (print cs rest) (text-Lacks c)
    ∙ ap (λ l. text c ∷ l) (getlines-print cs rest)

-- The stored commands fit into the buffer, which has room for some.
pub record IsValid (b : CmdsBuf) : Type 0 where
  pub fits : length b.cmds ≤ b.cap
  pub room : 0 < b.cap

-- One store: it goes behind the commands that are there, at an index inside the buffer as it then
-- is, and it fails only if `realloc` refuses to double a full buffer.
pub store_cmd-IsValid :
    (grants : ℕ → Bool) (b : CmdsBuf) (msg : Message)
    → IsValid b
    → (store_cmd grants b msg ≡ null) × (grants (b.cap * 2) ≡ false) × (length b.cmds ≡ b.cap)
      ⊎ ((b' : CmdsBuf) × (store_cmd grants b msg ≡ parsed b')
          × (b'.cmds ≡ b.cmds ++ msg ∷ [])
          × (length b.cmds < b'.cap)
          × IsValid b')
unfolding store_cmd
store_cmd-IsValid grants b msg v = elim (Bool-cases (length b.cmds == b.cap)) [
  | inr free ↦ inr (
    record b { cmds = b.cmds ++ msg ∷ [] },
    ground arith,
    refl,
    ground arith,
    ground (arith, length-append b.cmds (msg ∷ [])),
  )
  | inl full ↦ elim (Bool-cases (grants (b.cap * 2))) [
    | inr refused ↦ inl (ground arith, refused, ground arith)
    | inl granted ↦ inr (
      record { cmds = b.cmds ++ msg ∷ []; cap = b.cap * 2 },
      ground arith,
      refl,
      ground arith,
      ground (arith, length-append b.cmds (msg ∷ [])),
    )
  ]
]

abbrev pub always : ℕ → Bool
always n = true

-- Reading commands one after another, whatever lines follow them.
Reads : List Command → List (List ℕ) → CmdsBuf → Type 0
Reads cs lines b =
    (b' : CmdsBuf) × (parse_lines always (map text cs ++ lines) b ≡ parse_lines always lines b')
    × (b'.cmds ≡ b.cmds ++ map message cs)
    × IsValid b'

parse_lines-text :
    (cs : List Command) (lines : List (List ℕ)) (b : CmdsBuf) → IsValid b → Reads cs lines b
unfolding parse_lines Reads
parse_lines-text [] lines b v = (b, refl, sym (append-nil b.cmds), v)
parse_lines-text (c ∷ cs) lines b v = elim (store_cmd-IsValid always b (message c) v) [
  | inl (_, refused, _) ↦ cc
  | inr (b₁, stored, grown, _, v₁) ↦
      let (b₂, rest, cmds, v₂) = parse_lines-text cs lines b₁ v₁ in
      (
        b₂,
        rw (parse_cmd-text c, stored) rest,
        cmds
            ∙ ap (λ l. l ++ map message cs) grown
            ∙ append_assoc b.cmds (message c ∷ []) (map message cs),
        v₂,
      )
]

empty_buf-IsValid : IsValid (record { cmds = []; cap = 16 })
empty_buf-IsValid = omega arith

-- Every list of commands that is written down, one to a line, is read back as the messages that
-- the commands stand for, into a buffer that holds them all, if no allocation fails.
pub parse_cmd_list-print :
    (cs : List Command)
    → (b : CmdsBuf) × (parse_cmd_list always (some (print cs [])) ≡ parsed b)
      × (b.cmds ≡ map message cs)
      × (length b.cmds ≤ b.cap)
unfolding parse_cmd_list parse_lines Reads getlines
parse_cmd_list-print cs =
    let (b, runs, cmds, v) =
      parse_lines-text cs [] (record { cmds = []; cap = 16 }) empty_buf-IsValid in
    (b, rw (getlines-print cs []) runs, cmds, v.fits)

parse_cmd-blank : (n : ℕ) → parse_cmd (replicate n b' ') ≡ crash
unfolding parse_cmd
parse_cmd-blank n = rw (strtok-spaces n, parse_cmd)

-- A line of spaces only, or an empty one, behind any commands makes the client hand a null pointer
-- to `strcmp`.
pub parse_cmd_list-blank :
    (cs : List Command) (n : ℕ) (rest : List ℕ)
    → parse_cmd_list always (some (print cs (replicate n b' ' ++ b'\n' ∷ rest))) ≡ crash
unfolding parse_cmd_list parse_lines Reads
parse_cmd_list-blank cs n rest =
    let (b, runs, cmds, v) =
      parse_lines-text cs (replicate n b' ' ∷ getlines rest) (record { cmds = []; cap = 16 })
        empty_buf-IsValid in
    rw
      (
        getlines-print cs (replicate n b' ' ++ b'\n' ∷ rest),
        getlines-line (replicate n b' ') rest (Lacks-replicate b'\n' b' ' n (omega arith)),
      )
      (runs ∙ rw (parse_cmd-blank n))
