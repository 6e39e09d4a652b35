-- ===== src/Dht/Toping.antt =====
-- `add_toping` of toxcore/ping.c: which node is remembered in order to be pinged.
use project_tox_core.Prelude.{
  ℕ, suc, ◌≤◌, ◌<◌, ◌≡◌, ◌≢◌, inl, inr, refl, ap, sym, subst, ◌∙◌, Bool, true, false, Option, none,
  some, List, [], ◌∷◌, arith, ◌==◌, All, Bool-cases, get_elem?, set, ltb→lt,
}
use project_tox_core.FriendRequests.{Key}
use project_tox_core.Dht.{NodeFormat, Dht}
use project_tox_core.Dht.Distance.{id_closest}
use project_tox_core.Dht.Distance.Number.{distance, further_iff}
use project_tox_core.Dht.Handlers.{put_toping, replace_toping, toping_with, add_toping}

module _ (self_public_key : Key) (node : NodeFormat) where
  abbrev from : NodeFormat → ℕ
  from n = distance self_public_key n.client_id

  -- The node stands in a place that was free, or in the place of a node further from the own key
  -- where none was free. It is left out where it has no address, or where no place is free and no
  -- node that stands there is further from the own key.
  pub data Remembers (ns : List NodeFormat) : List NodeFormat → Type 0 where
    in_free :
        (i : ℕ) (old : NodeFormat)
        → get_elem? ns i ≡ some old
        → old.ip_port.ip ≡ 0
        → node.ip_port.ip ≢ 0
        → Remembers ns (set ns i node)
    in_further :
        (i : ℕ) (old : NodeFormat)
        → get_elem? ns i ≡ some old
        → All (λ (n : NodeFormat). n.ip_port.ip ≢ 0) ns
        → from node < from old
        → node.ip_port.ip ≢ 0
        → Remembers ns (set ns i node)
    no_address : node.ip_port.ip ≡ 0 → Remembers ns ns
    no_room :
        All (λ (n : NodeFormat). n.ip_port.ip ≢ 0) ns
        → All (λ n. from n ≤ from node) ns
        → Remembers ns ns

  abbrev Puts : (NodeFormat → Bool) → List NodeFormat → Option (List NodeFormat) → Type 0
  Puts test ns none = All (λ n. test n ≡ false) ns
  Puts test ns (some ns') =
      (i : ℕ) × (old : NodeFormat) × (get_elem? ns i ≡ some old)
      × (ns' ≡ set ns i node)
      × (test old ≡ true)

  behind :
      (test : NodeFormat → Bool) (n : NodeFormat) (ns : List NodeFormat)
      (rest : Option (List NodeFormat))
      → test n ≡ false
      → Puts test ns rest
      → Puts test (n ∷ ns) (elim rest [ none ↦ none | some ns' ↦ some (n ∷ ns') ])
  behind test n ns none e h = (e, h)
  behind test n ns (some ns') e (i, old, here, same, passed) =
      (suc i, old, here, ap (λ t. n ∷ t) same, passed)

  abbrev is_free : NodeFormat → Bool
  is_free n = n.ip_port.ip == 0

  abbrev is_further : NodeFormat → Bool
  is_further n = id_closest self_public_key n.client_id node.client_id == 2

  put_toping-Puts : (ns : List NodeFormat) → Puts is_free ns (put_toping node ns)
  unfolding put_toping
  put_toping-Puts [] = tt
  put_toping-Puts (n ∷ ns) = elim (Bool-cases (is_free n)) [
    | inl here ↦ rw (here, put_toping) (0, n, refl, refl, here)
    | inr on ↦
        rw (on, put_toping) (behind is_free n ns (put_toping node ns) on (put_toping-Puts ns))
  ]

  replace_toping-Puts :
      (ns : List NodeFormat) → Puts is_further ns (replace_toping self_public_key node ns)
  unfolding replace_toping
  replace_toping-Puts [] = tt
  replace_toping-Puts (n ∷ ns) = elim (Bool-cases (is_further n)) [
    | inl here ↦ rw (here, replace_toping) (0, n, refl, refl, here)
    | inr on ↦
        rw (on, replace_toping)
          (behind is_further n ns (replace_toping self_public_key node ns) on
            (replace_toping-Puts ns))
  ]

  not_free :
      (ns : List NodeFormat)
      → All (λ n. is_free n ≡ false) ns
      → All (λ (n : NodeFormat). n.ip_port.ip ≢ 0) ns
  not_free [] h = tt
  not_free (n ∷ ns) h = (ground (arith, h.0), not_free ns h.1)

  not_further :
      (ns : List NodeFormat) → All (λ n. is_further n ≡ false) ns → All (λ n. from n ≤ from node) ns
  not_further [] h = tt
  not_further (n ∷ ns) h =
      let near = sym (further_iff self_public_key n.client_id node.client_id) ∙ h.0 in
      (ground (arith, near), not_further ns h.1)

  -- The new list, or the old one where there is none.
  abbrev left : List NodeFormat → Option (List NodeFormat) → List NodeFormat
  left ns none = ns
  left ns (some ns') = ns'

  replaced :
      (ns : List NodeFormat) (o : Option (List NodeFormat))
      → node.ip_port.ip ≢ 0
      → All (λ (n : NodeFormat). n.ip_port.ip ≢ 0) ns
      → Puts is_further ns o
      → Remembers ns (left ns o)
  replaced ns none known full h = no_room full (not_further ns h)
  replaced ns (some ns') known full (i, old, here, same, passed) =
      let far = sym (further_iff self_public_key old.client_id node.client_id) ∙ passed in
      subst (Remembers ns) (sym same)
        (in_further i old here full (ltb→lt (from node) (from old) far) known)

  placed :
      (ns : List NodeFormat) (o : Option (List NodeFormat))
      → node.ip_port.ip ≢ 0
      → Puts is_free ns o
      → Remembers ns
          (left ns (elim o [ some ns' ↦ some ns' | none ↦ replace_toping self_public_key node ns ]))
  placed ns none known h =
      replaced ns (replace_toping self_public_key node ns) known (not_free ns h)
        (replace_toping-Puts ns)
  placed ns (some ns') known (i, old, here, same, passed) =
      subst (Remembers ns) (sym same) (in_free i old here (ground (arith, passed)) known)

  toping_with-Remembers :
      (ns : List NodeFormat)
      → Remembers ns (left ns (toping_with self_public_key ns node.client_id node.ip_port))
  unfolding toping_with
  toping_with-Remembers ns = elim (Bool-cases (node.ip_port.ip == 0)) [
    | inl nowhere ↦ rw (nowhere, toping_with) (no_address (ground (arith, nowhere)))
    | inr known ↦
        rw (known, toping_with)
          (placed ns (put_toping node ns) (ground (arith, known)) (put_toping-Puts ns))
  ]

  same_toping :
      (dht : Dht) (o : Option (List NodeFormat))
      → (elim o as (λ _. Dht × Bool) [
        | none ↦ (dht, false)
        | some ns ↦ (record dht { toping = ns }, true)
      ]).0
        ≡ record dht { toping = left dht.toping o }
  same_toping dht none = refl
  same_toping dht (some ns) = refl

  -- add_toping puts a node that has an address in a free place of the nodes to ping, or in the place
  -- of a node that is further from the own key where no place is free. A node without an address,
  -- and one that finds neither, is left out and the list stays. Nothing else changes.
  pub add_toping-Remembers :
      (dht : Dht)
      → let dht' = (add_toping self_public_key dht node.client_id node.ip_port).0 in
        Remembers dht.toping dht'.toping × (dht' ≡ record dht { toping = dht'.toping })
  unfolding add_toping
  add_toping-Remembers dht =
      let o = toping_with self_public_key dht.toping node.client_id node.ip_port in
      subst (λ (d : Dht). Remembers dht.toping d.toping × (d ≡ record dht { toping = d.toping }))
        (sym (same_toping dht o)) (toping_with-Remembers dht.toping, refl)
