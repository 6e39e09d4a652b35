-- ===== src/Dht/Friends.antt =====
-- The friends of the hash table of toxcore/DHT.c, and the routing of packets to them.
-- A packet that is handed to `sendpacket` is returned; `send_ok` says whether it is sent whole.
pub mod Removal
pub mod Known
use project_tox_core.Prelude.{
  ℕ, ◌+◌, ◌-◌, ◌%◌, Bool, true, false, not, ◌&&◌, Option, none, some, List, [], ◌∷◌, ◌++◌, ◌==◌,
  ltb, if◌then◌else◌, length, get_or, set, take, bytes_eq,
}
use project_tox_core.Network.{IpPort, zero_ip_port}
use project_tox_core.FriendRequests.{Key}
use project_tox_core.Lossless.Handle.{Packet}
use project_tox_core.Ping.Packets.{random_64b}
use project_tox_core.Dht.{
  ClientData, DhtFriend, Dht, Env, zero_dht_friend, is_timeout, bad_node_timeout,
  max_friend_clients,
}

-- `friend_number` from number `i` on
unfoldable pub number_from : ℕ → Key → List DhtFriend → Option ℕ
number_from i client_id [] = none
number_from i client_id (f ∷ fs) =
    if bytes_eq f.client_id client_id then some i else number_from (i + 1) client_id fs

unfoldable pub friend_number : Dht → Key → Option ℕ
unfolding number_from
friend_number dht client_id = number_from 0 client_id dht.friends_list

abbrev pub friend_at : Dht → ℕ → DhtFriend
friend_at dht i = get_or dht.friends_list i zero_dht_friend

abbrev pub put_friend : Dht → ℕ → DhtFriend → Dht
put_friend dht i f = record dht { friends_list = set dht.friends_list i f }

-- `DHT_addfriend`, true for the result 0.
unfoldable pub dht_addfriend : (ℕ → ℕ) → Env → Dht → Key → Dht × Bool
unfolding friend_number random_64b
dht_addfriend random_int env dht client_id = elim (friend_number dht client_id) [
  | some i ↦ (dht, false)
  | none ↦ if not env.alloc_ok then (dht, false) else (
    record dht {
      friends_list =
          dht.friends_list
          ++ record zero_dht_friend {
            client_id = client_id;
            natping_id = random_64b random_int dht.drawn;
          }
            ∷ [];
      drawn = dht.drawn + 2;
    },
    true,
  )
]

-- `DHT_delfriend` at the friend with number `i`: only the id of the last friend is moved there.
unfoldable pub delete_at : Bool → List DhtFriend → ℕ → List DhtFriend × Bool
delete_at alloc_ok friends i =
    let last = length friends - 1 in
    let moved =
      if last == i
      then friends
      else set friends i (record (get_or friends i zero_dht_friend) {
        client_id = (get_or friends last zero_dht_friend).client_id;
      }) in
    if last == 0 then ([], true) else (take last moved, alloc_ok)

unfoldable pub dht_delfriend : Env → Dht → Key → Dht × Bool
unfolding friend_number delete_at
dht_delfriend env dht client_id = elim (friend_number dht client_id) [
  | none ↦ (dht, false)
  | some i ↦
      let (friends, done) = delete_at env.alloc_ok dht.friends_list i in
      (record dht { friends_list = friends }, done)
]

-- The first good client with the id in `DHT_getfriendip`.
unfoldable pub ip_in : ℕ → Key → List ClientData → IpPort
ip_in now client_id [] = zero_ip_port
ip_in now client_id (c ∷ cs) =
    if bytes_eq c.client_id client_id && not (is_timeout now c.timestamp bad_node_timeout)
    then c.ip_port
    else ip_in now client_id cs

-- `DHT_getfriendip`: address 0 for a friend who is not found, address 1 for nobody's friend.
unfoldable pub dht_getfriendip : ℕ → Dht → Key → IpPort
unfolding friend_number ip_in is_timeout
dht_getfriendip now dht client_id = elim (friend_number dht client_id) [
  | none ↦ record zero_ip_port { ip = 1 }
  | some i ↦ ip_in now client_id (friend_at dht i).client_list
]

-- The client has told us an address of the friend, not too long ago.
abbrev pub is_telling : ℕ → ClientData → Bool
is_telling now c =
    not (c.ret_ip_port.ip == 0) && not (is_timeout now c.ret_timestamp bad_node_timeout)

-- The loop of `friend_iplist`; a client that is the friend itself ends it with no address.
unfoldable pub iplist_loop : ℕ → Key → List IpPort → List ClientData → List IpPort
unfolding is_timeout
iplist_loop now client_id ips [] = ips
iplist_loop now client_id ips (c ∷ cs) =
    let rest =
      iplist_loop now client_id (if is_telling now c then ips ++ c.ret_ip_port ∷ [] else ips) cs in
    if is_telling now c && bytes_eq c.client_id client_id then [] else rest

-- `none` for -1; the number of addresses is the length of the list.
unfoldable pub friend_iplist : ℕ → Dht → ℕ → Option (List IpPort)
unfolding iplist_loop
friend_iplist now dht friend_num =
    if ltb friend_num (length dht.friends_list)
    then some (
        iplist_loop now (friend_at dht friend_num).client_id []
          (friend_at dht friend_num).client_list)
    else none

-- The addresses of the clients that tell us an address of the friend.
unfoldable pub telling : ℕ → List ClientData → List IpPort
unfolding is_timeout
telling now [] = []
telling now (c ∷ cs) =
    let rest = telling now cs in if is_telling now c then c.ip_port ∷ rest else rest

unfoldable pub count_sent : (IpPort → Bool) → List IpPort → ℕ
count_sent send_ok [] = 0
count_sent send_ok (a ∷ as') =
    let rest = count_sent send_ok as' in if send_ok a then rest + 1 else rest

abbrev pub to_all : List ℕ → List IpPort → List Packet
to_all packet [] = []
to_all packet (a ∷ as') = (a, packet) ∷ to_all packet as'

-- The packets, and the number that is returned.
unfoldable pub route_tofriend : Env → Dht → Key → List ℕ → List Packet × ℕ
unfolding friend_number friend_iplist telling count_sent
route_tofriend env dht friend_id packet = elim (friend_number dht friend_id) [
  | none ↦ ([], 0)
  | some num ↦
      let nodes = telling env.now (friend_at dht num).client_list in
      elim (friend_iplist env.now dht num) [
        | none ↦ ([], 0)
        | some ips ↦
            if ltb (length ips) (max_friend_clients - 4)
            then ([], 0)
            else (to_all packet nodes, count_sent env.send_ok nodes)
      ]
]

unfoldable pub routeone_tofriend : Env → Dht → Key → List ℕ → Dht × List Packet × ℕ
unfolding friend_number telling
routeone_tofriend env dht friend_id packet = elim (friend_number dht friend_id) [
  | none ↦ (dht, [], 0)
  | some num ↦
      let nodes = telling env.now (friend_at dht num).client_list in
      let node = get_or nodes (env.rand dht.rand_calls % length nodes) zero_ip_port in
      if ltb (length nodes) 1 then (dht, [], 0) else (
        record dht { rand_calls = dht.rand_calls + 1 },
        (node, packet) ∷ [],
        if env.send_ok node then 1 else 0,
      )
]

-- `friend_ips`
unfoldable pub friend_ips : ℕ → Dht → Key → Option (List IpPort)
unfolding friend_number friend_iplist
friend_ips now dht friend_id = elim (friend_number dht friend_id) [
  | none ↦ none
  | some i ↦ friend_iplist now dht i
]

-- The close client with the id in `route_packet`.
unfoldable pub node_ip : Key → List ClientData → Option IpPort
node_ip client_id [] = none
node_ip client_id (c ∷ cs) =
    if bytes_eq client_id c.client_id then some c.ip_port else node_ip client_id cs

unfoldable pub route_packet : Dht → Key → List ℕ → List Packet
unfolding node_ip
route_packet dht client_id packet = elim (node_ip client_id dht.close_clientlist) [
  | none ↦ []
  | some ip_port ↦ (ip_port, packet) ∷ []
]

unfoldable pub is_any_good : ℕ → List ClientData → Bool
unfolding is_timeout
is_any_good now [] = false
is_any_good now (c ∷ cs) =
    if not (is_timeout now c.timestamp bad_node_timeout) then true else is_any_good now cs

-- `DHT_isconnected`
unfoldable pub dht_isconnected : ℕ → Dht → Bool
unfolding is_any_good
dht_isconnected now dht = is_any_good now dht.close_clientlist
