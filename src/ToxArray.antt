-- ===== src/ToxArray.antt =====
-- toxcore/misc_tools.h, the growing array `tox_array` as a list. Whether `realloc` succeeds is an
-- argument. In the source tox_array_push_ptr is declared void, while its callers in
-- toxcore/Lossless_UDP.c test its result against 0: the result here is the one that they test for.
use project_tox_core.Prelude.{
  ℕ, ◌-◌, Bool, Option, none, some, List, [], ◌∷◌, ◌++◌, ◌==◌, ltb, if◌then◌else◌, length, take,
}

module _ {ℓ} {A : Type ℓ} where
  -- `none` when there is no memory for one more.
  unfoldable pub tox_array_push : Bool → List A → A → Option (List A)
  tox_array_push alloc_ok xs item = if alloc_ok then some (xs ++ item ∷ []) else none

  unfoldable pub tox_array_pop : Bool → List A → ℕ → List A
  tox_array_pop alloc_ok xs num =
      if num == 0
      then xs
      else if ltb (length xs) num
      then xs
      else if length xs == num
      then []
      else if alloc_ok
      then take (length xs - num) xs
      else xs
