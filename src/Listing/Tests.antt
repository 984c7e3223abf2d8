-- ===== src/Listing/Tests.antt =====
-- A conversation over SP/task6 about a directory with two entries, and each theorem at it.
use mai_fa_sp_4_sem.Base.{ℕ, ◌≡◌, ◌++◌, refl, true, some, List, [], ◌∷◌, map, arith}
use mai_fa_sp_4_sem.Libc.{codes, strcmp_eq}
use mai_fa_sp_4_sem.Listing.Server.{
  System, abs_ent_path, list_loop, list_files, response, closed, process_client,
}
use mai_fa_sp_4_sem.Listing.Server.Answers.{AllStrings, IsSound}
use mai_fa_sp_4_sem.Listing.Client.{Calls, ended, cmd_loop}
use mai_fa_sp_4_sem.Listing.Client.Talk.{AreSound, AllShort, cmd_loop-process_client}

-- Every path is the resolved path of a directory.
abbrev disk : System
disk = record {
  realloc = λ n. true;
  write = λ k n. n;
  realpath = λ p. some p;
  is_dir = λ p. true;
  readdir = λ p. some (codes "b" ∷ codes "c" ∷ []);
}

disk-IsSound : IsSound disk
disk-IsSound = record { memory = λ n. refl; output = λ k n. refl }

lists_root : list_files disk (codes "/") ≡ some (codes "/b" ++ b'\n' ∷ codes "/c" ++ b'\n' ∷ [])
unfolding list_files list_loop abs_ent_path strcmp_eq
lists_root = refl

abbrev paths : List (List ℕ)
paths = codes "/" ∷ codes "/x" ∷ []

paths-AllStrings : AllStrings paths
paths-AllStrings = omega arith

abbrev calls : Calls
calls = record { realloc = λ n. true; send = λ k n. n }

calls-AreSound : AreSound calls
calls-AreSound = record { memory = λ n. refl; output = λ k n. refl }

paths-AllShort : AllShort paths
paths-AllShort = omega arith

responses-AllStrings : AllStrings (map (response disk) paths)
unfolding response list_files list_loop abs_ent_path strcmp_eq
responses-AllStrings = omega arith

cmd_loop-process_client_example :
    (sent stream : List ℕ) × (process_client disk sent ≡ closed stream)
    × (cmd_loop calls paths stream [] [] [] ≡ ended 0 sent (map (response disk) paths))
cmd_loop-process_client_example =
    cmd_loop-process_client disk calls paths disk-IsSound calls-AreSound paths-AllShort
      paths-AllStrings responses-AllStrings
