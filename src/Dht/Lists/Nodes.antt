-- ===== src/Dht/Lists/Nodes.antt =====
-- `get_close_nodes` of toxcore/DHT.c: how many nodes it finds, and where they come from.
use project_tox_core.Prelude.{
  ℕ, zero, suc, ◌+◌, ◌≤◌, ◌<◌, ◌≡◌, refl, ap, sym, ◌∙◌, subst, Bool, true, false, ◌||◌, not, List,
  [], ◌∷◌, arith, ltb, ◌==◌, length, set, take, length-set, take_all, All, Bool-cases, inl, inr,
  ltb→lt,
}
use project_tox_core.FriendRequests.{Key}
use project_tox_core.Dht.{ClientData, DhtFriend, NodeFormat, Dht, max_sent_nodes}
use project_tox_core.Dht.Distance.{id_closest}
use project_tox_core.Dht.Lists.{
  is_bad, client_in_nodelist, replace_node, node_of, consider, consider_all, consider_friends,
  get_close_nodes,
}

or_false_first : (a b : Bool) → (a || b) ≡ false → a ≡ false
or_false_first true b h = h
or_false_first false b h = refl

module _ (P : NodeFormat → Type 0) where
  -- The nodes so far are at most 8, and all of them have the property.
  abbrev Found : List NodeFormat × ℕ → Type 0
  Found (nodes, num_nodes) =
      (length nodes ≡ max_sent_nodes) × (num_nodes ≤ max_sent_nodes) × All P (take num_nodes nodes)

  -- The clients that have not timed out have the property.
  abbrev pub GoodClients : ℕ → List ClientData → Type 0
  GoodClients now clients = All (λ c. is_bad now c ≡ false → P (node_of c)) clients

  abbrev pub GoodFriends : ℕ → List DhtFriend → Type 0
  GoodFriends now friends = All (λ (f : DhtFriend). GoodClients now f.client_list) friends

  All-take-set :
      (nodes : List NodeFormat) (n : ℕ) (node : NodeFormat)
      → n < length nodes
      → All P (take n nodes)
      → P node
      → All P (take (suc n) (set nodes n node))
  All-take-set [] n node h a p = absurd (omega arith)
  All-take-set (x ∷ nodes) zero node h a p = (p, tt)
  All-take-set (x ∷ nodes) (suc n) node h a p = (a.0, All-take-set nodes n node (omega arith) a.1 p)

  All-replace_node :
      (client_id : Key) (node : NodeFormat) (nodes : List NodeFormat)
      → All P nodes
      → P node
      → All P (replace_node client_id node nodes)
  unfolding replace_node
  All-replace_node client_id node [] a p = tt
  All-replace_node client_id node (n ∷ nodes) a p =
      elim (Bool-cases (id_closest client_id n.client_id node.client_id == 2)) [
        | inl further ↦ rw further (p, a.1)
        | inr not ↦ rw not (a.0, All-replace_node client_id node nodes a.1 p)
      ]

  length-replace_node :
      (client_id : Key) (node : NodeFormat) (nodes : List NodeFormat)
      → length (replace_node client_id node nodes) ≡ length nodes
  unfolding replace_node
  length-replace_node client_id node [] = refl
  length-replace_node client_id node (n ∷ nodes) =
      elim (Bool-cases (id_closest client_id n.client_id node.client_id == 2)) [
        | inl further ↦ rw further refl
        | inr not ↦ rw not (ap suc (length-replace_node client_id node nodes))
      ]

  consider_lem :
      (now : ℕ) (client_id : Key) (c : ClientData) (nodes : List NodeFormat) (num_nodes : ℕ)
      → (is_bad now c ≡ false → P (node_of c))
      → Found (nodes, num_nodes)
      → Found (consider now client_id c (nodes, num_nodes))
  unfolding consider
  consider_lem now client_id c nodes num_nodes good (size, few, a) =
      elim (Bool-cases (is_bad now c || client_in_nodelist c.client_id nodes)) [
        | inl skipped ↦ rw (skipped, consider) (size, few, a)
        | inr taken ↦
            let p = good (or_false_first _ _ taken) in
            elim (Bool-cases (ltb num_nodes max_sent_nodes)) [
              | inl room ↦
                  let small = ltb→lt num_nodes max_sent_nodes room in
                  let more : num_nodes + 1 ≡ suc num_nodes = omega arith in
                  rw (taken, room, consider)
                    (
                      length-set nodes num_nodes (node_of c) ∙ size,
                      omega arith,
                      subst (λ k. All P (take k (set nodes num_nodes (node_of c)))) (sym more)
                          (All-take-set nodes num_nodes (node_of c) (omega arith) a p),
                    )
              | inr full ↦
                  let most : num_nodes ≡ length nodes = ground arith in
                  let result = replace_node client_id (node_of c) nodes in
                  let all_nodes = subst (All P) (take_all num_nodes nodes (omega arith)) a in
                  let counted : length result ≤ num_nodes =
                    omega (arith, length-replace_node client_id (node_of c) nodes) in
                  rw (taken, full, consider)
                    (
                      length-replace_node client_id (node_of c) nodes ∙ size,
                      few,
                      subst (All P) (sym (take_all num_nodes result counted))
                          (All-replace_node client_id (node_of c) nodes all_nodes p),
                    )
            ]
      ]

  consider_all_lem :
      (now : ℕ) (client_id : Key) (clients : List ClientData) (found : List NodeFormat × ℕ)
      → GoodClients now clients
      → Found found
      → Found (consider_all now client_id clients found)
  unfolding consider_all
  consider_all_lem now client_id [] found good f = f
  consider_all_lem now client_id (c ∷ clients) found good f =
      consider_all_lem now client_id clients (consider now client_id c found) good.1
        (consider_lem now client_id c found.0 found.1 good.0 f)

  consider_friends_lem :
      (now : ℕ) (client_id : Key) (friends : List DhtFriend) (found : List NodeFormat × ℕ)
      → GoodFriends now friends
      → Found found
      → Found (consider_friends now client_id friends found)
  unfolding consider_friends
  consider_friends_lem now client_id [] found good f = f
  consider_friends_lem now client_id (friend ∷ friends) found good f =
      consider_friends_lem now client_id friends
        (consider_all now client_id friend.client_list found) good.1
        (consider_all_lem now client_id friend.client_list found good.0 f)

  -- get_close_nodes finds at most 8 nodes, whatever stood in the array of its caller, and each is a
  -- client of the close list or of a friend that has not timed out: what holds of those clients
  -- holds of the nodes.
  pub get_close_nodes_good :
      (now : ℕ) (dht : Dht) (client_id : Key) (nodes_list : List NodeFormat)
      → length nodes_list ≡ max_sent_nodes
      → GoodClients now dht.close_clientlist
      → GoodFriends now dht.friends_list
      → let (nodes, num_nodes) = get_close_nodes now dht client_id nodes_list in
        (num_nodes ≤ max_sent_nodes)
        × (length nodes ≡ max_sent_nodes)
        × All P (take num_nodes nodes)
  unfolding get_close_nodes
  get_close_nodes_good now dht client_id nodes_list size close friends =
      let (same, few, a) =
        consider_friends_lem now client_id dht.friends_list
          (consider_all now client_id dht.close_clientlist (nodes_list, 0)) friends
          (consider_all_lem now client_id dht.close_clientlist (nodes_list, 0) close
            (size, omega arith, tt)) in
      (few, same, a)
