-- ===== src/Dht/Loop.antt =====
-- The main loop of toxcore/DHT.c: pings and get nodes requests to the clients of a list, and the
-- nodes that are waiting for a ping.
use project_tox_core.Prelude.{
  ℕ, zero, suc, ◌+◌, ◌%◌, Bool, not, ◌&&◌, List, [], ◌∷◌, ◌++◌, ◌==◌, leb, if◌then◌else◌, length,
  get_or, add64,
}
use project_tox_core.FriendRequests.{Key}
use project_tox_core.Lossless.Handle.{Packet}
use project_tox_core.NetCrypto.{Box}
use project_tox_core.NetCrypto.Request.{KeyPair}
use project_tox_core.Dht.{
  ClientData, DhtFriend, NodeFormat, Dht, Env, zero_client, is_timeout, bad_node_timeout,
  kill_node_timeout, ping_interval, get_node_interval, time_toping,
}
use project_tox_core.Dht.Friends.{friend_at, put_friend}
use project_tox_core.Dht.Handlers.{ping_node, getnodes, after_ping}
use project_tox_core.Dht.Nat.{do_nat}

-- The client is not dead, and its last ping is a minute ago.
abbrev pub needs_ping : ℕ → ClientData → Bool
needs_ping now c =
    not (is_timeout now c.timestamp kill_node_timeout)
    && leb (add64 c.last_pinged ping_interval) now

-- The clients that are good, in their order.
unfoldable pub good_clients : ℕ → List ClientData → List ClientData
unfolding is_timeout
good_clients now [] = []
good_clients now (c ∷ cs) =
    let rest = good_clients now cs in
    if not (is_timeout now c.timestamp kill_node_timeout)
      && not (is_timeout now c.timestamp bad_node_timeout)
    then c ∷ rest
    else rest

abbrev pub and_client :
    ClientData
    → List Packet
    → Dht × List ClientData × List Packet
    → Dht × List ClientData × List Packet
and_client c sent (dht, clients, sent') = (dht, c ∷ clients, sent ++ sent')

module _ (box : Box) (random_int : ℕ → ℕ) where
  -- The loop of `do_Close` and `do_DHT_friends` over a list: the new list and the packets.
  unfoldable pub ping_clients :
      ℕ → KeyPair → Dht → List ClientData → Dht × List ClientData × List Packet
  unfolding ping_node is_timeout
  ping_clients now self dht [] = (dht, [], [])
  ping_clients now self dht (c ∷ cs) =
      let needed = needs_ping now c in
      let (pinged, sent) = ping_node box random_int now self dht c.ip_port c.client_id in
      and_client (if needed then record c { last_pinged = now } else c)
        (if needed then sent else []) (ping_clients now self (if needed then pinged else dht) cs)

  -- A request to a random good client of the list.
  unfoldable pub ask_random : Env → KeyPair → Dht → List ClientData → Key → Dht × List Packet
  unfolding getnodes
  ask_random env self dht good client_id =
      let c = get_or good (env.rand dht.rand_calls % length good) zero_client in
      getnodes box random_int env.now self (record dht { rand_calls = dht.rand_calls + 1 })
        c.ip_port c.client_id client_id

  unfoldable pub is_time_to_ask : ℕ → ℕ → List ClientData → Bool
  is_time_to_ask now last good = leb (add64 last get_node_interval) now && not (length good == 0)

  unfoldable pub do_close : Env → KeyPair → Dht → Dht × List Packet
  unfolding ping_clients ask_random good_clients is_time_to_ask
  do_close env self dht =
      let (dht1, clients, sent) = ping_clients env.now self dht dht.close_clientlist in
      let dht2 = record dht1 { close_clientlist = clients } in
      let good = good_clients env.now clients in
      let (dht3, asked) = ask_random env self dht2 good self.0 in
      if is_time_to_ask env.now dht2.close_lastgetnodes good
      then (record dht3 { close_lastgetnodes = env.now }, sent ++ asked)
      else (dht2, sent)

  -- `do_DHT_friends` at the friend with number `i`.
  unfoldable pub do_friend : Env → KeyPair → Dht → ℕ → Dht × List Packet
  unfolding ping_clients ask_random good_clients is_time_to_ask
  do_friend env self dht i =
      let f = friend_at dht i in
      let (dht1, clients, sent) = ping_clients env.now self dht f.client_list in
      let f' : DhtFriend = record f { client_list = clients } in
      let dht2 = put_friend dht1 i f' in
      let good = good_clients env.now clients in
      let (dht3, asked) = ask_random env self dht2 good f.client_id in
      if is_time_to_ask env.now f.lastgetnode good
      then (put_friend dht3 i (record f' { lastgetnode = env.now }), sent ++ asked)
      else (dht2, sent)

  unfoldable pub friends_loop : ℕ → Env → KeyPair → Dht → ℕ → Dht × List Packet
  unfolding do_friend
  friends_loop zero env self dht i = (dht, [])
  friends_loop (suc k) env self dht i =
      let (dht', sent) = do_friend env self dht i in
      after_ping sent (friends_loop k env self dht' (i + 1))

  unfoldable pub do_dht_friends : Env → KeyPair → Dht → Dht × List Packet
  unfolding friends_loop
  do_dht_friends env self dht = friends_loop (length dht.friends_list) env self dht 0

  -- The nodes up to the first without an address are pinged, and lose their address.
  unfoldable pub toping_loop :
      ℕ → KeyPair → Dht → List NodeFormat → Dht × List NodeFormat × List Packet
  unfolding ping_node
  toping_loop now self dht [] = (dht, [], [])
  toping_loop now self dht (n ∷ ns) =
      let (dht1, sent) = ping_node box random_int now self dht n.ip_port n.client_id in
      let (dht2, ns', sent') = toping_loop now self dht1 ns in
      let ip_port = n.ip_port in
      if n.ip_port.ip == 0
      then (dht, n ∷ ns, [])
      else (dht2, record n { ip_port = record ip_port { ip = 0 } } ∷ ns', sent ++ sent')

  unfoldable pub do_toping : ℕ → KeyPair → Dht → Dht × List Packet
  unfolding toping_loop is_timeout
  do_toping now self dht =
      let (dht1, toping, sent) =
        toping_loop now self (record dht { last_toping = now }) dht.toping in
      if not (is_timeout now dht.last_toping time_toping)
      then (dht, [])
      else (record dht1 { toping = toping }, sent)

  unfoldable pub do_dht : Env → KeyPair → Dht → Dht × List Packet
  unfolding do_close do_dht_friends do_nat do_toping
  do_dht env self dht =
      let (dht1, sent1) = do_close env self dht in
      let (dht2, sent2) = do_dht_friends env self dht1 in
      let (dht3, sent3) = do_nat box random_int env self dht2 in
      let (dht4, sent4) = do_toping env.now self dht3 in
      (dht4, sent1 ++ (sent2 ++ (sent3 ++ sent4)))
