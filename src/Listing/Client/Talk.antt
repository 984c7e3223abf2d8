-- ===== src/Listing/Client/Talk.antt =====
-- A client of SP/task6/client/main.c in conversation with the server of SP/task6/server/main.c.
use mai_fa_sp_4_sem.Base.{
  ℕ, ◌+◌, ◌^◌, ◌<◌, ◌≡◌, true, List, [], ◌∷◌, ◌++◌, map, append_assoc, append-nil, drop, length,
  arith, ◌∙◌, ap₂, sym,
}
use mai_fa_sp_4_sem.Libc.Tokens.{Lacks}
use mai_fa_sp_4_sem.Listing.Wire.{htobe64, be64toh-htobe64, recv-append}
use mai_fa_sp_4_sem.Listing.Client.{Calls, ended, cmd_loop}
use mai_fa_sp_4_sem.Listing.Server.{System, response, closed, process_client}
use mai_fa_sp_4_sem.Listing.Server.Answers.{
  frame, frames, AllStrings, IsSound, recv-terminated, c_string-terminated, process_client-frames,
}

-- No allocation fails and every `send` takes its block.
pub record AreSound (y : Calls) : Type 0 where
  pub memory : (n : ℕ) → y.realloc n ≡ true
  pub output : (k n : ℕ) → y.send k n ≡ n

-- Lines that are not longer than the client sends.
abbrev pub AllShort : List (List ℕ) → Type 0
AllShort [] = Unit {0}
AllShort (l ∷ ls) = (length l < 16_384) × AllShort ls

module _ (y : Calls) (sound : AreSound y) where
  cmd_loop-frame :
      (line text : List ℕ) (lines : List (List ℕ)) (rest res_buf sent : List ℕ)
      (printed : List (List ℕ))
      → length line < 16_384
      → Lacks 0 text
      → length text + 1 < 2 ^ 64
      → cmd_loop y (line ∷ lines) (frame text ++ rest) res_buf sent printed
        ≡ cmd_loop y lines rest
            ((text ++ 0 ∷ []) ++ drop (length text + 1) res_buf)
            ((sent ++ htobe64 (length line + 1)) ++ (line ++ 0 ∷ []))
            (printed ++ text ∷ [])
  unfolding cmd_loop
  cmd_loop-frame line text lines rest res_buf sent printed fits lacks short = ground (
    arith,
    sound.output (length sent) 8,
    sound.output (length (sent ++ htobe64 (length line + 1))) (length line + 1),
    recv-append (htobe64 (length text + 1)) ((text ++ 0 ∷ []) ++ rest),
    be64toh-htobe64 (length text + 1) short,
    sound.memory (length text + 1),
    recv-terminated text rest,
    c_string-terminated text (drop (length text + 1) res_buf) lacks,
  )

  cmd_loop-frames :
      (f : List ℕ → List ℕ) (lines : List (List ℕ)) (res_buf sent : List ℕ)
      (printed : List (List ℕ))
      → AllShort lines
      → AllStrings (map f lines)
      → cmd_loop y lines (frames (map f lines)) res_buf sent printed
        ≡ ended 0 (sent ++ frames lines) (printed ++ map f lines)
  unfolding cmd_loop
  cmd_loop-frames f [] res_buf sent printed fits texts =
      ap₂ (ended 0) (sym (append-nil sent)) (sym (append-nil printed))
  cmd_loop-frames f (l ∷ ls) res_buf sent printed (fit, fits) (lacks, short, texts) =
      cmd_loop-frame l (f l) ls (frames (map f ls)) res_buf sent printed fit lacks short
      ∙ cmd_loop-frames f ls ((f l ++ 0 ∷ []) ++ drop (length (f l) + 1) res_buf)
          ((sent ++ htobe64 (length l + 1)) ++ (l ++ 0 ∷ [])) (printed ++ f l ∷ []) fits texts
      ∙ ap₂ (ended 0)
          (append_assoc (sent ++ htobe64 (length l + 1)) (l ++ 0 ∷ []) (frames ls)
            ∙ append_assoc sent (htobe64 (length l + 1)) ((l ++ 0 ∷ []) ++ frames ls))
          (append_assoc printed (f l ∷ []) (map f ls))

-- Client and server understand each other: for any lines that are short enough the client's
-- requests make the server send bytes from which the client prints, for each line in turn, exactly
-- the server's response to it, and ends with 0. On both sides the calls succeed, and no response
-- holds a NUL or has 2^64 bytes.
pub cmd_loop-process_client :
    (y : System) (c : Calls) (lines : List (List ℕ))
    → IsSound y
    → AreSound c
    → AllShort lines
    → AllStrings lines
    → AllStrings (map (response y) lines)
    → (sent stream : List ℕ) × (process_client y sent ≡ closed stream)
      × (cmd_loop c lines stream [] [] [] ≡ ended 0 sent (map (response y) lines))
cmd_loop-process_client y c lines sound sounds fits strings texts = (
  frames lines,
  frames (map (response y) lines),
  process_client-frames y lines sound strings,
  cmd_loop-frames c sounds (response y) lines [] [] [] fits texts,
)
