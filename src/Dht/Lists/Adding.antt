-- ===== src/Dht/Lists/Adding.antt =====
-- `addto_lists` of toxcore/DHT.c at one list: when a client gets in.
use project_tox_core.Prelude.{
  ℕ, ◌≤◌, ◌≡◌, ◌⊎◌, inl, inr, refl, ap, sym, subst, Bool, true, false, Option, none, some, List, [],
  ◌∷◌, All, Bool-cases, if◌then◌else◌, bytes_eq, bytes_eq→eq, bytes_eq_refl,
}
use mathlib.Core.List.{Perm}
use project_tox_core.Network.{IpPort, ipp_eq}
use project_tox_core.FriendRequests.{Key}
use project_tox_core.Dht.{ClientData}
use project_tox_core.Dht.Distance.Number.{distance}
use project_tox_core.Dht.Lists.{
  client_in_list, new_client, replace_first, is_bad, replace_bad, replace_good, addto_list,
}
use project_tox_core.Dht.Lists.Replace.{Replaced, stays, gives_way, replace_good_keeps_closest}

abbrev pub IsIn : Key → List ClientData → Type 0
IsIn client_id [] = ⊥
IsIn client_id (c ∷ cs) = (c.client_id ≡ client_id) ⊎ IsIn client_id cs

module _ (now : ℕ) (client_id : Key) (ip_port : IpPort) where
  -- Where the client is found it is in the list; else the list is as it was.
  abbrev InList : List ClientData → List ClientData × Bool → Type 0
  InList clients (clients', true) = IsIn client_id clients'
  InList clients (clients', false) = clients' ≡ clients

  in_rest :
      (c : ClientData) (cs cs' : List ClientData) (found : Bool)
      → InList cs (cs', found)
      → InList (c ∷ cs) (c ∷ cs', found)
  in_rest c cs cs' true h = inr h
  in_rest c cs cs' false h = ap (λ t. c ∷ t) h

  client_in_list-InList :
      (clients : List ClientData) → InList clients (client_in_list now client_id ip_port clients)
  unfolding client_in_list
  client_in_list-InList [] = refl
  client_in_list-InList (c ∷ cs) =
      let rest = client_in_list now client_id ip_port cs in
      elim (Bool-cases (ipp_eq c.ip_port ip_port)) [
        | inl same_ip ↦ rw (same_ip, bytes_eq_refl client_id) (inl refl)
        | inr other_ip ↦ elim (Bool-cases (bytes_eq c.client_id client_id)) [
          | inl same ↦ rw (other_ip, same) (inl (bytes_eq→eq c.client_id client_id same))
          | inr other ↦ rw (other_ip, other) (in_rest c cs rest.0 rest.1 (client_in_list-InList cs))
        ]
      ]

  abbrev Replaces : (ClientData → Bool) → List ClientData → Option (List ClientData) → Type 0
  Replaces test clients none = All (λ c. test c ≡ false) clients
  Replaces test clients (some clients') = IsIn client_id clients'

  behind :
      (test : ClientData → Bool) (c : ClientData) (cs : List ClientData)
      (rest : Option (List ClientData))
      → test c ≡ false
      → Replaces test cs rest
      → Replaces test (c ∷ cs) (elim rest [ none ↦ none | some cs' ↦ some (c ∷ cs') ])
  behind test c cs none e h = (e, h)
  behind test c cs (some cs') e h = inr h

  replace_first-Replaces :
      (test : ClientData → Bool) (clients : List ClientData)
      → Replaces test clients (replace_first test now client_id ip_port clients)
  unfolding replace_first
  replace_first-Replaces test [] = tt
  replace_first-Replaces test (c ∷ cs) = elim (Bool-cases (test c)) [
    | inl here ↦ rw (here, replace_first) (inl refl)
    | inr on ↦
        rw (on, replace_first)
          (behind test c cs (replace_first test now client_id ip_port cs) on
            (replace_first-Replaces test cs))
  ]

  module _ (comp_client_id : Key) where
    -- Either the client is in the new list, or the list holds the clients that it held, all good,
    -- and none of them further from the reference id than the client.
    pub data Added (clients : List ClientData) : List ClientData → Type 0 where
      stands : (clients' : List ClientData) → IsIn client_id clients' → Added clients clients'
      no_room :
          (clients' : List ClientData)
          → Perm clients' clients
          → All (λ c. is_bad now c ≡ false) clients
          → All
              (λ (c : ClientData).
                distance comp_client_id c.client_id ≤ distance comp_client_id client_id)
              clients'
          → Added clients clients'

    Replaced-Added :
        (clients : List ClientData) (r : List ClientData × Bool)
        → All (λ c. is_bad now c ≡ false) clients
        → Replaced now client_id ip_port comp_client_id clients r
        → Added clients r.0
    Replaced-Added clients _ good (stays sorted p a) = no_room sorted p good a
    Replaced-Added clients _ good (gives_way worst rest p a closer) =
        stands (new_client now client_id ip_port worst ∷ rest) (inl refl)

    -- The second half of `addto_list`.
    abbrev replaced : List ClientData → Option (List ClientData) → List ClientData
    replaced clients (some clients') = clients'
    replaced clients none = (replace_good now client_id ip_port comp_client_id clients).0

    same_elim :
        (clients : List ClientData) (o : Option (List ClientData))
        → replaced clients o ≡ (elim o [
          | some clients' ↦ clients'
          | none ↦ (replace_good now client_id ip_port comp_client_id clients).0
        ])
    same_elim clients none = refl
    same_elim clients (some clients') = refl

    replaced_lem :
        (clients : List ClientData) (o : Option (List ClientData))
        → Replaces (is_bad now) clients o
        → Added clients (replaced clients o)
    replaced_lem clients (some clients') h = stands clients' h
    replaced_lem clients none h =
        Replaced-Added clients (replace_good now client_id ip_port comp_client_id clients) h
          (replace_good_keeps_closest now client_id ip_port comp_client_id clients)

    added_lem :
        (clients : List ClientData) (found : List ClientData × Bool)
        → InList clients found
        → Added clients (
            if found.1
            then found.0
            else replaced found.0 (replace_bad now client_id ip_port found.0))
    unfolding replace_bad
    added_lem clients (clients', true) h = stands clients' h
    added_lem clients (clients', false) h =
        subst (λ cs. Added clients (replaced cs (replace_bad now client_id ip_port cs))) (sym h)
          (replaced_lem clients (replace_bad now client_id ip_port clients)
            (replace_first-Replaces (is_bad now) clients))

    pub addto_list-Added :
        (clients : List ClientData)
        → Added clients (addto_list now client_id ip_port comp_client_id clients)
    unfolding addto_list
    addto_list-Added clients =
        let found = client_in_list now client_id ip_port clients in
        subst (λ r. Added clients (if found.1 then found.0 else r))
          (same_elim found.0 (replace_bad now client_id ip_port found.0))
          (added_lem clients found (client_in_list-InList clients))
