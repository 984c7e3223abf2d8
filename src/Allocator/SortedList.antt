-- ===== src/Allocator/SortedList.antt =====
-- allocator/allocator_sorted_list/src/allocator_sorted_list.cpp: blocks one behind the other, the
-- free ones in a list ordered by address.
pub mod Blocks
pub mod Front
pub mod Chosen
pub mod Search
pub mod Cut
pub mod Allocate
pub mod Release
pub mod Merge
pub mod Deallocate
pub mod Info
pub mod Again
use mai_fa_sp_4_sem.Base.{
  ℕ, zero, suc, ◌+◌, ◌-◌, ◌%◌, ◌^◌, Bool, true, false, not, ◌&&◌, ◌||◌, ◌==◌, ltb, leb,
  if◌then◌else◌, Option, none, some, List, [], ◌∷◌,
}

-- What a `size_t` keeps of a number.
abbrev pub word : ℕ → ℕ
word n = n % 2 ^ 64

-- `block_metadata_size`: a `size_t` and a pointer.
abbrev pub block_metadata_size : ℕ
block_metadata_size = 16

pub data FitMode : Type 0 where
  first_fit the_best_fit the_worst_fit : FitMode

-- The headers of the blocks, by address. A pointer is its address and `nullptr` is 0.
pub record Memory : Type 0 where
  pub size : ℕ → ℕ
  pub next : ℕ → ℕ

-- The fields in front of the blocks; `begin` is where the first block starts. Of the logger only
-- its presence counts.
pub record Allocator : Type 0 where
  pub trusted : ℕ
  pub begin : ℕ
  pub space_size : ℕ
  pub mode : FitMode
  pub has_logger : Bool
  pub first : ℕ
  pub memory : Memory

abbrev pub write : (ℕ → ℕ) → ℕ → ℕ → ℕ → ℕ
write f at value a = if a == at then value else f a

abbrev pub set_size : Memory → ℕ → ℕ → Memory
set_size m at value = record m { size = write m.size at value }

abbrev pub set_next : Memory → ℕ → ℕ → Memory
set_next m at value = record m { next = write m.next at value }

-- The constructor on fresh memory.
unfoldable pub create : ℕ → ℕ → ℕ → FitMode → Bool → Memory → Allocator
create trusted begin space_size mode has_logger m = record {
  trusted = trusted;
  begin = begin;
  space_size = space_size;
  mode = mode;
  has_logger = has_logger;
  first = begin;
  memory = set_next (set_size m begin space_size) begin 0;
}

-- The block that the search holds: the free block before it, its address and its size.
pub record Choice : Type 0 where
  pub prev_free : ℕ
  pub result : ℕ
  pub best_size : ℕ

-- Whether a block that is large enough takes the place of the one held.
unfoldable pub is_better : FitMode → Choice → ℕ → Bool
is_better first_fit held size = true
is_better the_best_fit held size = held.result == 0 || ltb size held.best_size
is_better the_worst_fit held size = held.result == 0 || ltb held.best_size size

abbrev pub stops : FitMode → Bool
stops first_fit = true
stops _ = false

-- The loop over the free blocks; `none` is out of fuel.
unfoldable pub search : ℕ → FitMode → Memory → ℕ → ℕ → ℕ → Choice → Option Choice
search zero mode m size prev it held = none
search (suc fuel) mode m size prev it held =
    let block_size = m.size it in
    let taken : Choice = record { prev_free = prev; result = it; best_size = block_size } in
    let after_taken = search fuel mode m size it (m.next it) taken in
    let after_kept = search fuel mode m size it (m.next it) held in
    if it == 0
    then some held
    else if leb (word (size + block_metadata_size)) block_size && is_better mode held block_size
    then (if stops mode then some taken else after_taken)
    else after_kept

-- What is left of the chosen block becomes a block of its own, whose address is the second result;
-- 0 if it is too small.
unfoldable pub split : Memory → ℕ → Choice → Memory × ℕ
split m size c =
    let remaining = word (c.best_size + (2 ^ 64 - size)) in
    let new_block = word (c.result + block_metadata_size + size) in
    if leb (block_metadata_size + 1) remaining
    then (
      set_size
          (set_next (set_size m new_block (remaining - block_metadata_size)) new_block
            (m.next c.result))
          c.result size,
      new_block,
    )
    else (m, 0)

-- The chosen block leaves the free list.
unfoldable pub take_out : Allocator → Choice → ℕ → Memory → Allocator
take_out a c new_block m =
    let follower = if new_block == 0 then m.next c.result else new_block in
    let m' = if c.prev_free == 0 then m else set_next m c.prev_free follower in
    let follower' = if new_block == 0 then m'.next c.result else new_block in
    record a {
      first = if a.first == c.result then follower' else a.first;
      memory = set_next m' c.result a.trusted;
    }

pub data Allocation : Type 0 where
  allocated : Allocator → ℕ → Allocation
  bad_alloc starved : Allocation

abbrev pub nothing_held : Choice
nothing_held = record { prev_free = 0; result = 0; best_size = 0 }

-- `do_allocate_sm`
unfoldable pub allocate : ℕ → Allocator → ℕ → Allocation
allocate fuel a size = elim (search fuel a.mode a.memory size 0 a.first nothing_held) [
  | none ↦ starved
  | some c ↦
      if c.result == 0
      then bad_alloc
      else (let s = split a.memory size c in
          allocated (take_out a c s.1 s.0) (c.result + block_metadata_size))
]

-- `++` of the iterator over all blocks: the next block, or 0 behind the last, and the next free block.
abbrev pub following : Allocator → ℕ → ℕ
following a current =
    let new_ptr = current + block_metadata_size + a.memory.size current in
    if leb (a.begin + a.space_size) new_ptr then 0 else new_ptr

abbrev pub next_free : Allocator → ℕ → ℕ → ℕ
next_free a current free = if current == free then a.memory.next free else free

-- The loop of `do_deallocate_sm`: the last free block before the header.
unfoldable pub find_prev : ℕ → Allocator → ℕ → ℕ → ℕ → ℕ → Option ℕ
find_prev zero a current free prev header = none
find_prev (suc fuel) a current free prev header =
    let rest =
      find_prev fuel a (following a current) (next_free a current free)
        (if current == free then current else prev) header in
    if current == 0 || current == header then some prev else rest

-- `get_blocks_info`: the size of every block and whether it is occupied.
unfoldable pub get_blocks_info : ℕ → Allocator → ℕ → ℕ → Option (List (ℕ × Bool))
get_blocks_info zero a current free = none
get_blocks_info (suc fuel) a current free =
    let rest = get_blocks_info fuel a (following a current) (next_free a current free) in
    if current == 0 then some [] else elim rest [
      | none ↦ none
      | some info ↦ some ((a.memory.size current, not (current == free)) ∷ info)
    ]

unfoldable pub try_merge : Memory → ℕ → ℕ → Memory × Bool
try_merge m left right =
    let new_size = word (m.size left + m.size right + block_metadata_size) in
    if left == 0 || right == 0
    then (m, false)
    else if left + block_metadata_size + m.size left == right
    then (set_next (set_size m left new_size) left (m.next right), true)
    else (m, false)

pub data Deallocation : Type 0 where
  deallocated : Allocator → Deallocation
  incorrect starved : Deallocation

-- The header enters the free list behind `prev_free` and is merged with its neighbours.
unfoldable pub put_back : Allocator → ℕ → ℕ → Allocator
put_back a prev_free header =
    let next_free_block = if prev_free == 0 then a.first else a.memory.next prev_free in
    let linked = if prev_free == 0 then a.memory else set_next a.memory prev_free header in
    let m = set_next linked header next_free_block in
    let left = try_merge m prev_free header in
    let merged =
      if left.1
      then (try_merge left.0 prev_free next_free_block).0
      else (try_merge left.0 header next_free_block).0 in
    record a {
      first = if prev_free == 0 && ltb header a.first || a.first == 0 then header else a.first;
      memory = merged;
    }

-- `do_deallocate_sm`
unfoldable pub deallocate : ℕ → Allocator → ℕ → Deallocation
deallocate fuel a at =
    let header = at - block_metadata_size in
    if not (a.memory.next header == a.trusted) && a.has_logger
    then incorrect
    else elim (find_prev fuel a a.begin a.first 0 header) [
      | none ↦ starved
      | some prev ↦ deallocated (put_back a prev header)
    ]
