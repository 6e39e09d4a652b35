-- ===== src/Dht/Nat.antt =====
-- The hole punching of toxcore/DHT.c.
pub mod Common
use project_tox_core.Prelude.{
  ℕ, zero, suc, ◌+◌, ◌-◌, ◌*◌, ◌/◌, ◌%◌, ◌^◌, Bool, true, false, ◌&&◌, Option, none, some, List, [],
  ◌∷◌, ◌==◌, ltb, leb, if◌then◌else◌, length, get_or, drop, add32, add64, bytes64, read_le64,
}
use project_tox_core.Network.{IpPort}
use project_tox_core.FriendRequests.{Key}
use project_tox_core.Lossless.Handle.{Packet}
use project_tox_core.NetCrypto.{Box}
use project_tox_core.NetCrypto.Cipher.{random_nonce}
use project_tox_core.NetCrypto.Request.{KeyPair, create_request}
use project_tox_core.Ping.Packets.{random_64b}
use project_tox_core.Dht.{
  DhtFriend, Dht, Env, max_friend_clients, max_punching_ports, punch_interval,
}
use project_tox_core.Dht.Friends.{
  friend_number, friend_at, put_friend, friend_iplist, route_tofriend, routeone_tofriend,
}
use project_tox_core.Dht.Handlers.{ping_node, after_ping}

-- `CRYPTO_PACKET_NAT_PING`
abbrev pub crypto_packet_nat_ping : ℕ
crypto_packet_nat_ping = 254

abbrev pub nat_ping_request : ℕ
nat_ping_request = 0

abbrev pub nat_ping_response : ℕ
nat_ping_response = 1

-- How many addresses of the list have this ip.
unfoldable pub count_ip : ℕ → List IpPort → ℕ
count_ip ip [] = 0
count_ip ip (a ∷ as') = let rest = count_ip ip as' in if ip == a.ip then rest + 1 else rest

-- The loop of `NAT_commonip` over the addresses that are left.
unfoldable pub common_loop : ℕ → List IpPort → List IpPort → ℕ
unfolding count_ip
common_loop min_num ip_portlist [] = 0
common_loop min_num ip_portlist (a ∷ as') =
    if leb min_num (count_ip a.ip ip_portlist) then a.ip else common_loop min_num ip_portlist as'

unfoldable pub nat_commonip : List IpPort → ℕ → ℕ
unfolding common_loop
nat_commonip ip_portlist min_num =
    if ltb max_friend_clients (length ip_portlist)
    then 0
    else common_loop min_num ip_portlist ip_portlist

-- `ntohs` and `htons` on a little-endian host
abbrev pub swap16 : ℕ → ℕ
swap16 n = n % 256 * 256 + n / 256 % 256

unfoldable pub nat_getports : List IpPort → ℕ → List ℕ
nat_getports [] ip = []
nat_getports (a ∷ as') ip =
    let rest = nat_getports as' ip in if a.ip == ip then swap16 a.port ∷ rest else rest

-- The port number `i` that is tried: the known ports in turn, and then next to them on both sides.
unfoldable pub guess_port : List ℕ → ℕ → ℕ
guess_port port_list i =
    let numports = length port_list in
    let port = get_or port_list (i / 2 % numports) 0 in
    let away = i / (2 * numports) in
    if i % 2 == 1 then (port + 2 ^ 32 - away) % 2 ^ 16 else (port + away) % 2 ^ 16

module _ (box : Box) (random_int : ℕ → ℕ) where
  -- The loop of `punch_holes` with `k` ports left.
  unfoldable pub punch_loop : ℕ → ℕ → KeyPair → Dht → ℕ → List ℕ → Key → ℕ → Dht × List Packet
  unfolding ping_node guess_port
  punch_loop zero now self dht ip port_list client_id i = (dht, [])
  punch_loop (suc k) now self dht ip port_list client_id i =
      let pinging : IpPort = record { ip = ip; port = swap16 (guess_port port_list i) } in
      let (dht', sent) = ping_node box random_int now self dht pinging client_id in
      after_ping sent (punch_loop k now self dht' ip port_list client_id (add32 i 1))

  unfoldable pub punch_holes : ℕ → KeyPair → Dht → ℕ → List ℕ → ℕ → Dht × List Packet
  unfolding punch_loop
  punch_holes now self dht ip port_list friend_num =
      let f = friend_at dht friend_num in
      let (dht', sent) =
        punch_loop max_punching_ports now self dht ip port_list f.client_id f.punching_index in
      if ltb max_friend_clients (length port_list)
      then (dht, [])
      else if length port_list == 0
      then (dht, [])
      else (
        put_friend dht' friend_num (record (friend_at dht' friend_num) {
          punching_index = add32 f.punching_index max_punching_ports;
        }),
        sent,
      )

  -- The packet goes out on many ways where it is a request, and on one where it is an answer. The
  -- number that is returned is `none` for -1.
  unfoldable pub send_natping : Env → KeyPair → Dht → Key → ℕ → ℕ → Dht × List Packet × Option ℕ
  unfolding create_request route_tofriend routeone_tofriend random_nonce
  send_natping env self dht public_key ping_id type' =
      let nonce = random_nonce random_int dht.drawn in
      let dht1 = record dht { drawn = dht.drawn + 6 } in
      elim (create_request box self public_key (type' ∷ bytes64 ping_id) crypto_packet_nat_ping
        nonce) [
          | none ↦ (dht1, [], none)
          | some packet ↦
              let (many, num) = route_tofriend env dht1 public_key packet in
              let (dht2, one, num1) = routeone_tofriend env dht1 public_key packet in
              if type' == 0
              then (dht1, many, if num == 0 then none else some num)
              else if type' == 1
              then (dht2, one, if num1 == 0 then none else some num1)
              else (dht1, [], none)
        ]

  -- True for the result 0. `packet` is the buffer with the data of the request, of which nine bytes
  -- are read whatever their number is.
  unfoldable pub handle_natping : Env → KeyPair → Dht → Key → List ℕ → Dht × List Packet × Bool
  unfolding friend_number send_natping random_64b
  handle_natping env self dht source_pubkey packet = elim (friend_number dht source_pubkey) [
    | none ↦ (dht, [], false)
    | some i ↦
        let ping_id = read_le64 (drop 1 packet) in
        let (dht1, sent, _) = send_natping env self dht source_pubkey ping_id nat_ping_response in
        let f = friend_at dht i in
        let punching : DhtFriend = record f {
          natping_id = random_64b random_int dht.drawn;
          hole_punching = 1;
        } in
        if get_or packet 0 0 == nat_ping_request
        then (
          put_friend dht1 i (record (friend_at dht1 i) { recv_natping_timestamp = env.now }),
          sent,
          true,
        )
        else if (get_or packet 0 0 == nat_ping_response) && (f.natping_id == ping_id)
        then (record (put_friend dht i punching) { drawn = dht.drawn + 2 }, [], true)
        else (dht, [], false)
  ]

  -- The end of a round of `do_NAT`: the common address, if there is one, is tried.
  unfoldable pub punch_friend : Env → KeyPair → Dht → ℕ → List IpPort → Dht × List Packet
  unfolding nat_commonip nat_getports punch_holes
  punch_friend env self dht i ips =
      let f = friend_at dht i in
      let ip = nat_commonip ips (max_friend_clients - 4) in
      let (dht1, sent) = punch_holes env.now self dht ip (nat_getports ips ip) i in
      if (f.hole_punching == 1)
        && ltb (add64 f.punching_timestamp punch_interval) env.now
        && leb env.now (add64 f.recv_natping_timestamp (punch_interval * 2))
      then (if ip == 0 then (dht, []) else (
        put_friend dht1 i
            (record (friend_at dht1 i) { punching_timestamp = env.now; hole_punching = 0 }),
        sent,
      ))
      else (dht, [])

  -- `do_NAT` at the friend with number `i`, who is not connected and of whom four addresses are told.
  unfoldable pub nat_friend : Env → KeyPair → Dht → ℕ → Dht × List Packet
  unfolding friend_iplist send_natping punch_friend
  nat_friend env self dht i = elim (friend_iplist env.now dht i) [
    | none ↦ (dht, [])
    | some ips ↦
        let f = friend_at dht i in
        let (dht1, sent, _) = send_natping env self dht f.client_id f.natping_id nat_ping_request in
        let dht2 = put_friend dht1 i (record (friend_at dht1 i) { natping_timestamp = env.now }) in
        if ltb (length ips) (max_friend_clients - 4)
        then (dht, [])
        else if ltb (add64 f.natping_timestamp punch_interval) env.now
        then after_ping sent (punch_friend env self dht2 i ips)
        else punch_friend env self dht i ips
  ]

  unfoldable pub nat_loop : ℕ → Env → KeyPair → Dht → ℕ → Dht × List Packet
  unfolding nat_friend
  nat_loop zero env self dht i = (dht, [])
  nat_loop (suc k) env self dht i =
      let (dht', sent) = nat_friend env self dht i in
      after_ping sent (nat_loop k env self dht' (i + 1))

  unfoldable pub do_nat : Env → KeyPair → Dht → Dht × List Packet
  unfolding nat_loop
  do_nat env self dht = nat_loop (length dht.friends_list) env self dht 0
