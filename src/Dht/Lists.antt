-- ===== src/Dht/Lists.antt =====
-- The lists of clients of toxcore/DHT.c: finding, refreshing and replacing a client.
pub mod Replace
pub mod Adding
pub mod Learnt
pub mod Nodes
use project_tox_core.Prelude.{
  ℕ, ◌+◌, Bool, true, false, not, ◌||◌, ◌&&◌, Option, none, some, List, [], ◌∷◌, ◌++◌, ◌==◌, ltb,
  if◌then◌else◌, length, get_or, set, bytes_eq, map,
}
use Prim.Native.Nat.{Ordering}
use project_tox_core.Network.{IpPort, zero_ip_port, ipp_eq}
use project_tox_core.FriendRequests.{Key}
use project_tox_core.QuickSort.{quick_sort}
use project_tox_core.Dht.{
  ClientData, DhtFriend, NodeFormat, Dht, is_timeout, bad_node_timeout, max_sent_nodes,
}
use project_tox_core.Dht.Distance.{id_closest, client_id_cmp}

-- The client that has the address or the id gets both, and a fresh timestamp.
unfoldable pub client_in_list : ℕ → Key → IpPort → List ClientData → List ClientData × Bool
client_in_list now client_id ip_port [] = ([], false)
client_in_list now client_id ip_port (c ∷ cs) =
    let c1 = if ipp_eq c.ip_port ip_port then record c { client_id = client_id } else c in
    let (cs', found) = client_in_list now client_id ip_port cs in
    if bytes_eq c1.client_id client_id
    then (record c1 { timestamp = now; ip_port = ip_port } ∷ cs, true)
    else (c1 ∷ cs', found)

unfoldable pub client_in_nodelist : Key → List NodeFormat → Bool
client_in_nodelist client_id [] = false
client_in_nodelist client_id (n ∷ ns) =
    if bytes_eq n.client_id client_id then true else client_in_nodelist client_id ns

-- What `replace_bad` and `replace_good` leave in a place.
abbrev pub new_client : ℕ → Key → IpPort → ClientData → ClientData
new_client now client_id ip_port c = record c {
  client_id = client_id;
  ip_port = ip_port;
  timestamp = now;
  ret_ip_port = zero_ip_port;
  ret_timestamp = 0;
}

-- The first client that passes the test is overwritten. `none` is the result 1.
unfoldable pub replace_first :
    (ClientData → Bool) → ℕ → Key → IpPort → List ClientData → Option (List ClientData)
replace_first test now client_id ip_port [] = none
replace_first test now client_id ip_port (c ∷ cs) =
    let rest = replace_first test now client_id ip_port cs in
    if test c
    then some (new_client now client_id ip_port c ∷ cs)
    else elim rest [ none ↦ none | some cs' ↦ some (c ∷ cs') ]

abbrev pub is_bad : ℕ → ClientData → Bool
is_bad now c = is_timeout now c.timestamp bad_node_timeout

unfoldable pub replace_bad : ℕ → Key → IpPort → List ClientData → Option (List ClientData)
unfolding replace_first is_timeout
replace_bad now client_id ip_port clients = replace_first (is_bad now) now client_id ip_port clients

abbrev pub by_distance : Key → ClientData → ClientData → Ordering
by_distance comp_client_id c d = client_id_cmp comp_client_id c.client_id d.client_id

-- From the furthest to the closest.
unfoldable pub sort_list : Key → List ClientData → List ClientData
unfolding quick_sort client_id_cmp
sort_list comp_client_id clients = quick_sort (by_distance comp_client_id) (length clients) clients

abbrev pub is_further : Key → Key → ClientData → Bool
is_further comp_client_id client_id c = id_closest comp_client_id c.client_id client_id == 2

-- The list is sorted also where no client is replaced.
unfoldable pub replace_good : ℕ → Key → IpPort → Key → List ClientData → List ClientData × Bool
unfolding replace_first sort_list id_closest
replace_good now client_id ip_port comp_client_id clients =
    let sorted = sort_list comp_client_id clients in
    elim (replace_first (is_further comp_client_id client_id) now client_id ip_port sorted) [
      | none ↦ (sorted, false)
      | some clients' ↦ (clients', true)
    ]

-- One of the lists in `addto_lists`.
unfoldable pub addto_list : ℕ → Key → IpPort → Key → List ClientData → List ClientData
unfolding client_in_list replace_bad replace_good
addto_list now client_id ip_port comp_client_id clients =
    let (clients1, found) = client_in_list now client_id ip_port clients in
    if found then clients1 else elim (replace_bad now client_id ip_port clients1) [
      | some clients2 ↦ clients2
      | none ↦ (replace_good now client_id ip_port comp_client_id clients1).0
    ]

unfoldable pub addto_lists : ℕ → Key → Dht → IpPort → Key → Dht
unfolding addto_list
addto_lists now self_public_key dht ip_port client_id = record dht {
  close_clientlist = addto_list now client_id ip_port self_public_key dht.close_clientlist;
  friends_list =
      map
        (λ (f : DhtFriend). record f {
          client_list = addto_list now client_id ip_port f.client_id f.client_list;
        })
        dht.friends_list;
}

-- The first client with the id of the node is told the address; `none` where there is none.
unfoldable pub told : ℕ → IpPort → Key → List ClientData → Option (List ClientData)
told now ip_port nodeclient_id [] = none
told now ip_port nodeclient_id (c ∷ cs) =
    let rest = told now ip_port nodeclient_id cs in
    if bytes_eq nodeclient_id c.client_id
    then some (record c { ret_ip_port = ip_port; ret_timestamp = now } ∷ cs)
    else elim rest [ none ↦ none | some cs' ↦ some (c ∷ cs') ]

-- The friends in turn: one with the id, in whose list the node stands, ends the loop.
unfoldable pub told_friends : ℕ → IpPort → Key → Key → List DhtFriend → List DhtFriend
unfolding told
told_friends now ip_port client_id nodeclient_id [] = []
told_friends now ip_port client_id nodeclient_id (f ∷ fs) =
    let rest = f ∷ told_friends now ip_port client_id nodeclient_id fs in
    if bytes_eq client_id f.client_id
    then elim (told now ip_port nodeclient_id f.client_list) [
      | none ↦ rest
      | some clients ↦ record f { client_list = clients } ∷ fs
    ]
    else rest

unfoldable pub returnedip_ports : ℕ → Key → Dht → IpPort → Key → Key → Dht
unfolding told told_friends
returnedip_ports now self_public_key dht ip_port client_id nodeclient_id =
    if bytes_eq client_id self_public_key
    then elim (told now ip_port nodeclient_id dht.close_clientlist) [
      | none ↦ dht
      | some clients ↦ record dht { close_clientlist = clients }
    ]
    else record dht {
      friends_list = told_friends now ip_port client_id nodeclient_id dht.friends_list;
    }

-- The furthest-first search of `get_close_nodes`: the first node that is further than the client.
unfoldable pub replace_node : Key → NodeFormat → List NodeFormat → List NodeFormat
unfolding id_closest
replace_node client_id node [] = []
replace_node client_id node (n ∷ ns) =
    let rest = n ∷ replace_node client_id node ns in
    if id_closest client_id n.client_id node.client_id == 2 then node ∷ ns else rest

abbrev pub node_of : ClientData → NodeFormat
node_of c = record { client_id = c.client_id; ip_port = c.ip_port }

-- One client in `get_close_nodes`, with the nodes so far and their number.
unfoldable pub consider : ℕ → Key → ClientData → List NodeFormat × ℕ → List NodeFormat × ℕ
unfolding client_in_nodelist replace_node is_timeout
consider now client_id c (nodes, num_nodes) =
    if is_bad now c || client_in_nodelist c.client_id nodes
    then (nodes, num_nodes)
    else if ltb num_nodes max_sent_nodes
    then (set nodes num_nodes (node_of c), num_nodes + 1)
    else (replace_node client_id (node_of c) nodes, num_nodes)

unfoldable pub consider_all : ℕ → Key → List ClientData → List NodeFormat × ℕ → List NodeFormat × ℕ
unfolding consider
consider_all now client_id [] found = found
consider_all now client_id (c ∷ cs) found =
    consider_all now client_id cs (consider now client_id c found)

unfoldable pub consider_friends :
    ℕ → Key → List DhtFriend → List NodeFormat × ℕ → List NodeFormat × ℕ
unfolding consider_all
consider_friends now client_id [] found = found
consider_friends now client_id (f ∷ fs) found =
    consider_friends now client_id fs (consider_all now client_id f.client_list found)

-- `nodes_list` is the array of the caller, which is not initialised.
unfoldable pub get_close_nodes : ℕ → Dht → Key → List NodeFormat → List NodeFormat × ℕ
unfolding consider_all consider_friends
get_close_nodes now dht client_id nodes_list =
    consider_friends now client_id dht.friends_list
      (consider_all now client_id dht.close_clientlist (nodes_list, 0))
