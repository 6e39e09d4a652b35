-- ===== src/Dht/Lists/Replace.antt =====
-- `replace_good` of toxcore/DHT.c: which client gives way.
use project_tox_core.Prelude.{
  ℕ, ◌≤◌, ◌<◌, ◌≡◌, refl, sym, ◌∙◌, subst, Bool, true, false, Option, none, some, List, [], ◌∷◌,
  arith, length, All, Bool-cases, inl, inr, ltb→lt,
}
use mathlib.Core.List.{Perm}
use project_tox_core.Network.{IpPort}
use project_tox_core.FriendRequests.{Key}
use project_tox_core.QuickSort.{is_gt}
use project_tox_core.QuickSort.Order.{IsOrder, IsSorted, All-mono}
use project_tox_core.QuickSort.Sorted.{quick_sort_sorts}
use project_tox_core.Dht.{ClientData}
use project_tox_core.Dht.Distance.Number.{
  distance, further_iff, client_id_cmp-is_gt, client_id_cmp-IsOrder,
}
use project_tox_core.Dht.Lists.{
  new_client, replace_first, by_distance, sort_list, is_further, replace_good,
}

by_distance-IsOrder : (comp_client_id : Key) → IsOrder (by_distance comp_client_id)
by_distance-IsOrder comp_client_id =
    let o = client_id_cmp-IsOrder comp_client_id in
    record {
      flip = λ c d. o.flip c.client_id d.client_id;
      trans = λ c d e. o.trans c.client_id d.client_id e.client_id;
    }

-- sort_list puts the clients in order from the furthest to the closest, and keeps each as often as
-- it was there.
sort_list_sorts :
    (comp_client_id : Key) (clients : List ClientData)
    → Perm (sort_list comp_client_id clients) clients
      × IsSorted (by_distance comp_client_id) (sort_list comp_client_id clients)
unfolding sort_list
sort_list_sorts comp_client_id clients =
    quick_sort_sorts (by_distance comp_client_id) (by_distance-IsOrder comp_client_id)
      (length clients) clients (omega arith)

module _ (now : ℕ) (client_id : Key) (ip_port : IpPort) (comp_client_id : Key) where
  abbrev pub from : ClientData → ℕ
  from c = distance comp_client_id c.client_id

  -- Either no client is further than the new one, and all stay, or a client that no other one is
  -- further than makes room for the new one, which is closer.
  pub data Replaced (clients : List ClientData) : List ClientData × Bool → Type 0 where
    stays :
        (sorted : List ClientData)
        → Perm sorted clients
        → All (λ c. from c ≤ distance comp_client_id client_id) sorted
        → Replaced clients (sorted, false)
    gives_way :
        (worst : ClientData) (rest : List ClientData)
        → Perm (worst ∷ rest) clients
        → All (λ c. from c ≤ from worst) rest
        → distance comp_client_id client_id < from worst
        → Replaced clients (new_client now client_id ip_port worst ∷ rest, true)

  abbrev outcome : List ClientData → Option (List ClientData) → List ClientData × Bool
  outcome sorted none = (sorted, false)
  outcome sorted (some clients) = (clients, true)

  outcome_lem :
      (sorted : List ClientData) (r : Option (List ClientData))
      → outcome sorted r ≡ (elim r [ none ↦ (sorted, false) | some clients' ↦ (clients', true) ])
  outcome_lem sorted none = refl
  outcome_lem sorted (some clients) = refl

  not_further :
      (cs : List ClientData)
      → All (λ c. from c ≤ distance comp_client_id client_id) cs
      → replace_first (is_further comp_client_id client_id) now client_id ip_port cs ≡ none
  unfolding replace_first
  not_further [] h = refl
  not_further (c ∷ cs) h =
      let here : is_further comp_client_id client_id c ≡ false =
        further_iff comp_client_id c.client_id client_id ∙ ground (arith, h.0) in
      rw (here, not_further cs h.1) refl

  sorted_distances :
      (c : ClientData) (cs : List ClientData)
      → All (λ d. is_gt (by_distance comp_client_id c d) ≡ false) cs
      → All (λ d. from d ≤ from c) cs
  sorted_distances c cs =
      All-mono (λ d. is_gt (by_distance comp_client_id c d) ≡ false) (λ d. from d ≤ from c) cs
        (λ d h.
          let e = sym (client_id_cmp-is_gt comp_client_id c.client_id d.client_id) ∙ h in
          ground arith)

  replace_sorted :
      (clients sorted : List ClientData)
      → Perm sorted clients
      → IsSorted (by_distance comp_client_id) sorted
      → Replaced clients (
          outcome sorted
            (replace_first (is_further comp_client_id client_id) now client_id ip_port sorted))
  unfolding replace_first
  replace_sorted clients [] p s = stays [] p tt
  replace_sorted clients (c ∷ cs) p s =
      let below = sorted_distances c cs s.0 in
      elim (Bool-cases (is_further comp_client_id client_id c)) [
        | inl further ↦
            let lt = sym (further_iff comp_client_id c.client_id client_id) ∙ further in
            rw further (gives_way c cs p below (ltb→lt _ _ lt))
        | inr not ↦
            let e = sym (further_iff comp_client_id c.client_id client_id) ∙ not in
            let le : from c ≤ distance comp_client_id client_id = ground arith in
            let all : All (λ d. from d ≤ distance comp_client_id client_id) (c ∷ cs) = (
              le,
              All-mono (λ d. from d ≤ from c) (λ d. from d ≤ distance comp_client_id client_id) cs
                  (λ d h. omega arith) below,
            ) in
            subst (λ r. Replaced clients (outcome (c ∷ cs) r)) (sym (not_further (c ∷ cs) all))
              (stays (c ∷ cs) p all)
      ]

  -- replace_good keeps the closest clients: where it replaces none, all clients are still there and
  -- none is further from the reference id than the new one; where it replaces one, no other client
  -- is further than that one, the new one is closer than it, and all the others stay.
  pub replace_good_keeps_closest :
      (clients : List ClientData)
      → Replaced clients (replace_good now client_id ip_port comp_client_id clients)
  unfolding replace_good
  replace_good_keeps_closest clients =
      let (p, s) = sort_list_sorts comp_client_id clients in
      subst (λ r. Replaced clients r)
        (outcome_lem (sort_list comp_client_id clients) (
          replace_first (is_further comp_client_id client_id) now client_id ip_port
            (sort_list comp_client_id clients)))
        (replace_sorted clients (sort_list comp_client_id clients) p s)
