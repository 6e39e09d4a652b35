-- ===== src/Dht/Handlers.antt =====
-- The handlers of toxcore/DHT.c for get nodes and send nodes packets, and those of toxcore/ping.c for
-- ping packets, which change the lists of the hash table.
use project_tox_core.Prelude.{
  ℕ, ◌+◌, Bool, true, false, ◌||◌, Option, none, some, List, [], ◌∷◌, ◌++◌, ◌==◌, if◌then◌else◌,
  take, drop, bytes_eq,
}
use project_tox_core.Network.{IpPort}
use project_tox_core.FriendRequests.{Key}
use project_tox_core.Lossless.Handle.{Packet}
use project_tox_core.NetCrypto.{Box, public_key_bytes}
use project_tox_core.NetCrypto.Cipher.{random_nonce}
use project_tox_core.NetCrypto.Request.{KeyPair}
use project_tox_core.Ping.{is_pinging}
use project_tox_core.Ping.Packets.{to_one, open_ping, send_ping_request, send_ping_response}
use project_tox_core.Dht.{NodeFormat, Dht}
use project_tox_core.Dht.Distance.{id_closest}
use project_tox_core.Dht.Lists.{addto_lists, returnedip_ports, get_close_nodes}
use project_tox_core.Dht.Packets.{
  add_gettingnodes, is_gettingnodes, getnodes_packet, sendnodes_packet, read_getnodes,
  read_sendnodes,
}

-- The first place without an address.
unfoldable pub put_toping : NodeFormat → List NodeFormat → Option (List NodeFormat)
put_toping node [] = none
put_toping node (n ∷ ns) =
    let rest = put_toping node ns in
    if n.ip_port.ip == 0
    then some (node ∷ ns)
    else elim rest [ none ↦ none | some ns' ↦ some (n ∷ ns') ]

-- The first place with an id that is further from ours.
unfoldable pub replace_toping : Key → NodeFormat → List NodeFormat → Option (List NodeFormat)
unfolding id_closest
replace_toping self_public_key node [] = none
replace_toping self_public_key node (n ∷ ns) =
    let rest = replace_toping self_public_key node ns in
    if id_closest self_public_key n.client_id node.client_id == 2
    then some (node ∷ ns)
    else elim rest [ none ↦ none | some ns' ↦ some (n ∷ ns') ]

-- The new list; none where nothing is added.
unfoldable pub toping_with : Key → List NodeFormat → Key → IpPort → Option (List NodeFormat)
unfolding put_toping replace_toping
toping_with self_public_key toping client_id ip_port =
    let node : NodeFormat = record { client_id = client_id; ip_port = ip_port } in
    if ip_port.ip == 0 then none else elim (put_toping node toping) [
      | some ns ↦ some ns
      | none ↦ replace_toping self_public_key node toping
    ]

-- True for the result 0.
unfoldable pub add_toping : Key → Dht → Key → IpPort → Dht × Bool
unfolding toping_with
add_toping self_public_key dht client_id ip_port =
    elim (toping_with self_public_key dht.toping client_id ip_port) [
      | none ↦ (dht, false)
      | some ns ↦ (record dht { toping = ns }, true)
    ]

abbrev pub after_ping : List Packet → Dht × List Packet → Dht × List Packet
after_ping sent (dht', sent') = (dht', sent ++ sent')

module _ (box : Box) where
  -- True for the result 0.
  unfoldable pub handle_ping_response : ℕ → KeyPair → Dht → IpPort → List ℕ → Dht × Bool
  unfolding open_ping addto_lists
  handle_ping_response now self dht source packet = elim (open_ping box self packet) [
    | none ↦ (dht, false)
    | some ping_id ↦
        let (ping, found) = is_pinging now dht.ping source ping_id in
        let asked = record dht { ping = ping } in
        if found
        then (addto_lists now self.0 asked source (take public_key_bytes (drop 1 packet)), true)
        else (asked, false)
  ]

module _ (box : Box) (random_int : ℕ → ℕ) where
  -- `send_ping_request` on the buffer of the hash table.
  unfoldable pub ping_node : ℕ → KeyPair → Dht → IpPort → Key → Dht × List Packet
  unfolding send_ping_request
  ping_node now self dht ip_port client_id =
      let (ping, drawn, sent) =
        send_ping_request box random_int now self dht.ping dht.drawn ip_port client_id in
      (record dht { ping = ping; drawn = drawn }, sent)

  unfoldable pub getnodes : ℕ → KeyPair → Dht → IpPort → Key → Key → Dht × List Packet
  unfolding getnodes_packet add_gettingnodes is_gettingnodes random_nonce
  getnodes now self dht ip_port public_key client_id =
      let (dht1, ping_id) = add_gettingnodes random_int now dht ip_port in
      let nonce = random_nonce random_int dht1.drawn in
      if bytes_eq public_key self.0 || is_gettingnodes now dht ip_port 0
      then (dht, [])
      else if ping_id == 0
      then (dht1, [])
      else (
        record dht1 { drawn = dht1.drawn + 6 },
        to_one ip_port (getnodes_packet box self public_key client_id nonce ping_id),
      )

  -- `stack_nodes` is what stands in the array of nodes before it is written.
  unfoldable pub sendnodes :
      ℕ → List NodeFormat → KeyPair → Dht → IpPort → Key → Key → ℕ → Dht × List Packet
  unfolding sendnodes_packet get_close_nodes random_nonce
  sendnodes now stack_nodes self dht ip_port public_key client_id ping_id =
      let (nodes_list, num_nodes) = get_close_nodes now dht client_id stack_nodes in
      let nonce = random_nonce random_int dht.drawn in
      if bytes_eq public_key self.0 then (dht, []) else if num_nodes == 0 then (dht, []) else (
        record dht { drawn = dht.drawn + 6 },
        to_one ip_port
            (sendnodes_packet box self public_key (take num_nodes nodes_list) nonce ping_id),
      )

  unfoldable pub handle_getnodes :
      ℕ → List NodeFormat → KeyPair → Dht → IpPort → List ℕ → Dht × List Packet
  unfolding read_getnodes sendnodes
  handle_getnodes now stack_nodes self dht source packet = elim (read_getnodes box self packet) [
    | none ↦ (dht, [])
    | some (ping_id, client_id) ↦
        sendnodes now stack_nodes self dht source (take public_key_bytes (drop 1 packet)) client_id
          ping_id
  ]

  -- The loop at the end of `handle_sendnodes`.
  unfoldable pub learn_nodes : ℕ → KeyPair → Key → Dht → List NodeFormat → Dht × List Packet
  unfolding ping_node returnedip_ports
  learn_nodes now self sender dht [] = (dht, [])
  learn_nodes now self sender dht (n ∷ ns) =
      let (dht1, sent) = ping_node now self dht n.ip_port n.client_id in
      after_ping sent (
        learn_nodes now self sender (returnedip_ports now self.0 dht1 n.ip_port n.client_id sender)
          ns)

  unfoldable pub handle_sendnodes : ℕ → KeyPair → Dht → IpPort → List ℕ → Dht × List Packet
  unfolding read_sendnodes is_gettingnodes addto_lists learn_nodes
  handle_sendnodes now self dht source packet = elim (read_sendnodes box self packet) [
    | none ↦ (dht, [])
    | some (ping_id, nodes) ↦
        let sender = take public_key_bytes (drop 1 packet) in
        let learnt = learn_nodes now self sender (addto_lists now self.0 dht source sender) nodes in
        if is_gettingnodes now dht source ping_id then learnt else (dht, [])
  ]

  unfoldable pub handle_ping_request : KeyPair → Dht → IpPort → List ℕ → Dht × List Packet
  unfolding open_ping send_ping_response add_toping
  handle_ping_request self dht source packet = elim (open_ping box self packet) [
    | none ↦ (dht, [])
    | some ping_id ↦
        let sender = take public_key_bytes (drop 1 packet) in
        let (drawn, sent) =
          send_ping_response box random_int self dht.drawn source sender ping_id in
        ((add_toping self.0 (record dht { drawn = drawn }) sender source).0, sent)
  ]

  -- `DHT_bootstrap`
  unfoldable pub dht_bootstrap : ℕ → KeyPair → Dht → IpPort → Key → Dht × List Packet
  unfolding getnodes ping_node
  dht_bootstrap now self dht ip_port public_key =
      let (dht1, sent) = getnodes now self dht ip_port public_key self.0 in
      after_ping sent (ping_node now self dht1 ip_port public_key)
