-- ===== src/FriendRequests/Send.antt =====
-- `send_friendrequest` of toxcore/friend_requests.c.
use project_tox_core.Prelude.{
  ℕ, ◌+◌, not, Option, none, some, List, [], ◌∷◌, ◌++◌, ◌==◌, ltb, if◌then◌else◌, length, add32,
  bytes32,
}
use project_tox_core.FriendRequests.{Key}
use project_tox_core.Lossless.{max_data_size}
use project_tox_core.Lossless.Handle.{Packet}
use project_tox_core.NetCrypto.{Box}
use project_tox_core.NetCrypto.Cipher.{random_nonce}
use project_tox_core.NetCrypto.Request.{KeyPair, create_request}
use project_tox_core.Dht.{Dht, Env}
use project_tox_core.Dht.Friends.{dht_getfriendip, route_tofriend}

-- `CRYPTO_PACKET_FRIEND_REQ`
abbrev pub crypto_packet_friend_req : ℕ
crypto_packet_friend_req = 32

-- How the packet goes out: to the friend, if the address is known, or by way of others. `none` is
-- the result -1.
unfoldable pub send_on_way : Env → Dht → Key → List ℕ → List Packet × Option ℕ
unfolding dht_getfriendip route_tofriend
send_on_way env dht public_key packet =
    let ip_port = dht_getfriendip env.now dht public_key in
    let (routed, num) = route_tofriend env dht public_key packet in
    if ip_port.ip == 1
    then ([], none)
    else if not (ip_port.ip == 0)
    then ((ip_port, packet) ∷ [], if env.send_ok ip_port then some 0 else none)
    else (routed, if num == 0 then none else some num)

unfoldable pub send_friendrequest :
    Box → (ℕ → ℕ) → Env → KeyPair → Dht → Key → ℕ → List ℕ → Dht × List Packet × Option ℕ
unfolding create_request send_on_way random_nonce
send_friendrequest box random_int env self dht public_key nospam_num data' =
    let nonce = random_nonce random_int dht.drawn in
    let temp = bytes32 nospam_num ++ data' in
    let dht' = record dht { drawn = dht.drawn + 6 } in
    -- `create_request` draws its nonce after its test on the length.
    let too_long = ltb max_data_size (add32 (length temp) 106) in
    if ltb max_data_size (add32 (length data') 4)
    then (dht, [], none)
    else elim (create_request box self public_key temp crypto_packet_friend_req nonce) [
      | none ↦ (if too_long then dht else dht', [], none)
      | some packet ↦ let (sent, num) = send_on_way env dht' public_key packet in (dht', sent, num)
    ]
