-- ===== src/Tests/QuickSort.antt =====
-- Examples for quick sort and for the order by distance.
use project_tox_core.Prelude.{ℕ, ◌≡◌, List, [], ◌∷◌, arith, replicate}
use mathlib.Core.List.{Perm}
use project_tox_core.FriendRequests.{Key}
use project_tox_core.QuickSort.{quick_sort}
use project_tox_core.QuickSort.Order.{IsSorted}
use project_tox_core.QuickSort.Sorted.{quick_sort_sorts}
use project_tox_core.Dht.Distance.{id_closest, client_id_cmp}
use project_tox_core.Dht.Distance.Number.{
  distance, smaller, client_id_cmp-IsOrder, id_closest_by_distance,
}

abbrev key_of : ℕ → Key
key_of b = replicate 32 b

abbrev three_keys : List Key
three_keys = key_of 1 ∷ key_of 200 ∷ key_of 3 ∷ []

quick_sort_sorts_example :
    Perm (quick_sort (client_id_cmp (key_of 0)) 3 three_keys) three_keys
    × IsSorted (client_id_cmp (key_of 0)) (quick_sort (client_id_cmp (key_of 0)) 3 three_keys)
quick_sort_sorts_example =
    quick_sort_sorts (client_id_cmp (key_of 0)) (client_id_cmp-IsOrder (key_of 0)) 3 three_keys
      (omega arith)

id_closest_by_distance_example :
    id_closest (key_of 7) (key_of 5) (key_of 130)
    ≡ smaller (distance (key_of 7) (key_of 5)) (distance (key_of 7) (key_of 130))
id_closest_by_distance_example = id_closest_by_distance (key_of 7) (key_of 5) (key_of 130)
