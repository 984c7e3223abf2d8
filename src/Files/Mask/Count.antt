-- ===== src/Files/Mask/Count.antt =====
-- What `count_masked_numbers` of SP/task2/main.c counts.
use mai_fa_sp_4_sem.Base.{
  ℕ, zero, suc, false, ◌+◌, ◌/◌, ◌%◌, ◌^◌, ◌<◌, Bool, ◌&&◌, ◌||◌, ◌==◌, if◌then◌else◌, List, [],
  ◌∷◌, ◌++◌,
}

-- The eight bytes of a number, the lowest first.
abbrev bytes : ℕ → ℕ → List ℕ
bytes zero n = []
bytes (suc k) n = n % 256 ∷ bytes k (n / 256)

-- A file of numbers, eight bytes each.
abbrev pub file_of : List ℕ → List ℕ
file_of [] = []
file_of (n ∷ ns) = bytes 8 n ++ file_of ns

-- Whether two numbers have a 1 at the same one of their lowest `k` binary places.
pub shares_bit : ℕ → ℕ → ℕ → Bool
shares_bit zero a b = false
shares_bit (suc k) a b = (a % 2 == 1 && b % 2 == 1) || shares_bit k (a / 2) (b / 2)

-- A number of 64 bits counts if it has a bit of the mask.
abbrev pub if_shared : ℕ → ℕ → ℕ
if_shared mask n = if shares_bit 64 n mask then 1 else 0

-- How many of the numbers have a bit of the mask.
pub masked : ℕ → List ℕ → ℕ
masked mask [] = 0
masked mask (n ∷ ns) = if_shared mask n + masked mask ns

pub last_or : ℕ → List ℕ → ℕ
last_or d [] = d
last_or d (n ∷ ns) = last_or n ns

abbrev AllWords : List ℕ → Type 0
AllWords [] = Unit {0}
AllWords (n ∷ ns) = (n < 2 ^ 64) × AllWords ns
