-- ===== src/Users/Vector.antt =====
-- SP/task1/vector.h and vector.c: the growing array of users.
pub mod Contents
use mai_fa_sp_4_sem.Base.{
  ℕ, zero, suc, ◌+◌, ◌*◌, Bool, true, false, ◌==◌, if◌then◌else◌, Option, none, some, List, [], ◌∷◌,
  ◌++◌, get_elem?, set, length, take,
}
use mai_fa_sp_4_sem.Base.Int.{ℤ}
use mai_fa_sp_4_sem.Libc.{strcmp_eq}

-- struct user; `login` is the string in the field.
pub record User : Type 0 where
  pub login : List ℕ
  pub pincode : ℤ
  pub sanctions : ℤ
  pub sanctions_current : ℤ

-- `buffer` is the block with whatever its cells hold.
pub record Vector : Type 0 where
  pub buffer : List User
  pub buffer_size : ℕ
  pub size : ℕ

-- `block` is what `malloc` returns: `none` for NULL, else the cells.
unfoldable pub vector_create : Option (List User) → ℕ → Option Vector
vector_create none init_buff_size = none
vector_create (some cells) init_buff_size =
    some (record { buffer = cells; buffer_size = init_buff_size; size = 0 })

abbrev pub vector_is_empty : Vector → Bool
vector_is_empty v = v.size == 0

-- The loop of `vector_search` over the cells that are left of the first `size`; the result is the
-- index of the cell that the returned pointer names.
unfoldable pub search_from : ℕ → ℕ → List User → List ℕ → Option ℕ
search_from zero i cells element = none
search_from (suc left) i [] element = none
search_from (suc left) i (u ∷ cells) element =
    let rest = search_from left (i + 1) cells element in
    if strcmp_eq u.login element then some i else rest

unfoldable pub vector_search : Vector → List ℕ → Option ℕ
vector_search v element = search_from v.size 0 v.buffer element

-- `fresh` are the cells that `realloc` adds, `none` if it returns NULL; `none` is `false`.
unfoldable pub vector_grow : Option (List User) → Vector → Option Vector
vector_grow none v = none
vector_grow (some fresh) v =
    some (record v { buffer = v.buffer ++ fresh; buffer_size = v.buffer_size * 2 })

abbrev pub append : Vector → User → Vector
append v d = record v { buffer = set v.buffer v.size d; size = v.size + 1 }

unfoldable pub vector_push : Option (List User) → Vector → User → Option Vector
vector_push fresh v d =
    if v.size == v.buffer_size
    then elim (vector_grow fresh v) [ none ↦ none | some v' ↦ some (append v' d) ]
    else some (append v d)

unfoldable pub v_set : Vector → ℕ → User → Vector
v_set v pos val = record v { buffer = set v.buffer pos val }

unfoldable pub v_get : Vector → ℕ → Option User
v_get v pos = get_elem? v.buffer pos
