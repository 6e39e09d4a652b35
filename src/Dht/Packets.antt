-- ===== src/Dht/Packets.antt =====
-- The get nodes and send nodes packets of toxcore/DHT.c and the requests that wait for an answer.
use project_tox_core.Prelude.{
  ℕ, zero, suc, ◌+◌, ◌-◌, ◌*◌, ◌/◌, ◌%◌, ◌^◌, Bool, true, false, not, ◌&&◌, Option, none, some,
  List, [], ◌∷◌, ◌++◌, ◌==◌, ltb, if◌then◌else◌, length, get_or, take, drop, bytes_eq, bytes32,
  bytes16, bytes64, read_le64, le32_at, sub32,
}
use project_tox_core.Network.{IpPort, ipp_eq}
use project_tox_core.FriendRequests.{Key}
use project_tox_core.NetCrypto.{Box, public_key_bytes, nonce_bytes, encryption_padding}
use project_tox_core.NetCrypto.Cipher.{encrypt_data, decrypt_data}
use project_tox_core.NetCrypto.Request.{KeyPair, prepend, handshake_head}
use project_tox_core.Ping.Packets.{random_64b}
use project_tox_core.Dht.{
  NodeFormat, Pinged, Dht, is_timeout, ping_timeout, client_id_size, max_sent_nodes,
}

abbrev pub packet_get_nodes : ℕ
packet_get_nodes = 2

abbrev pub packet_send_nodes : ℕ
packet_send_nodes = 3

abbrev pub one_if : Bool → ℕ
one_if true = 1
one_if false = 0

-- The test of `is_gettingnodes` at one entry: address and id agree, 0 standing for any.
abbrev pub is_asked : ℕ → IpPort → ℕ → Pinged → Bool
is_asked now ip_port ping_id e =
    let pinging =
      one_if (not (ip_port.ip == 0) && ipp_eq e.ip_port ip_port)
      + one_if (not (ping_id == 0) && (e.ping_id == ping_id)) in
    not (is_timeout now e.timestamp ping_timeout)
    && (pinging == one_if (not (ping_id == 0)) + one_if (not (ip_port.ip == 0)))

unfoldable pub any_asked : (Pinged → Bool) → List Pinged → Bool
any_asked test [] = false
any_asked test (e ∷ es) = if test e then true else any_asked test es

unfoldable pub is_gettingnodes : ℕ → Dht → IpPort → ℕ → Bool
unfolding any_asked is_timeout
is_gettingnodes now dht ip_port ping_id = any_asked (is_asked now ip_port ping_id) dht.send_nodes

-- The first entry that is older than `timeout` becomes the new one.
unfoldable pub put_asked : ℕ → ℕ → Pinged → List Pinged → Option (List Pinged)
unfolding is_timeout
put_asked now timeout new [] = none
put_asked now timeout new (e ∷ es) =
    let rest = put_asked now timeout new es in
    if is_timeout now e.timestamp timeout
    then some (new ∷ es)
    else elim rest [ none ↦ none | some es' ↦ some (e ∷ es') ]

-- With time-outs from `k` seconds down to 1.
unfoldable pub put_asked_within : ℕ → ℕ → Pinged → List Pinged → Option (List Pinged)
unfolding put_asked
put_asked_within zero now new es = none
put_asked_within (suc k) now new es =
    let later = put_asked_within k now new es in
    elim (put_asked now (suc k) new es) [ none ↦ later | some es' ↦ some es' ]

-- The number that is returned is 0 where no entry is free.
unfoldable pub add_gettingnodes : (ℕ → ℕ) → ℕ → Dht → IpPort → Dht × ℕ
unfolding put_asked_within random_64b
add_gettingnodes random_int now dht ip_port =
    let ping_id = random_64b random_int dht.drawn in
    let dht' = record dht { drawn = dht.drawn + 2 } in
    let new : Pinged = record { ip_port = ip_port; ping_id = ping_id; timestamp = now } in
    elim (put_asked_within ping_timeout now new dht.send_nodes) [
      | none ↦ (dht', 0)
      | some es ↦ (record dht' { send_nodes = es }, ping_id)
    ]

-- A `Node_format` in its 40 bytes, and the two bytes of padding of its address as zeroes.
abbrev pub node_bytes : NodeFormat → List ℕ
node_bytes n = n.client_id ++ (bytes32 n.ip_port.ip ++ (bytes16 n.ip_port.port ++ (0 ∷ 0 ∷ [])))

unfoldable pub nodes_bytes : List NodeFormat → List ℕ
nodes_bytes [] = []
nodes_bytes (n ∷ ns) = node_bytes n ++ nodes_bytes ns

unfoldable pub read_nodes : ℕ → List ℕ → List NodeFormat
read_nodes zero bytes = []
read_nodes (suc k) bytes =
    record {
      client_id = take client_id_size bytes;
      ip_port = record {
        ip = le32_at bytes 32;
        port = get_or bytes 36 0 + get_or bytes 37 0 * 2 ^ 8;
      };
    }
    ∷ read_nodes k (drop 40 bytes)

-- The id and the client id of a get nodes request.
abbrev pub open_getnodes : Option (List ℕ) → Option (ℕ × Key)
open_getnodes none = none
open_getnodes (some plain) =
    if length plain == 8 + client_id_size then some (read_le64 plain, drop 8 plain) else none

abbrev pub open_sendnodes : ℕ → Option (List ℕ) → Option (ℕ × List NodeFormat)
open_sendnodes num_nodes none = none
open_sendnodes num_nodes (some plain) =
    if length plain == 8 + 40 * num_nodes
    then some (read_le64 plain, read_nodes num_nodes (drop 8 plain))
    else none

-- The bytes before the nodes of a send nodes packet
abbrev pub sendnodes_head : ℕ
sendnodes_head = 1 + client_id_size + nonce_bytes + 8 + encryption_padding

abbrev pub sendnodes_fits : ℕ → Bool
sendnodes_fits length' =
    not (ltb (sendnodes_head + 40 * max_sent_nodes) length')
    && (sub32 length' sendnodes_head % 40 == 0)
    && not (ltb length' (sendnodes_head + 40))

module _ (box : Box) where
  unfoldable pub getnodes_packet : KeyPair → Key → Key → List ℕ → ℕ → Option (List ℕ)
  unfolding encrypt_data
  getnodes_packet (self_public_key, self_secret_key) public_key client_id nonce ping_id =
      prepend (packet_get_nodes ∷ self_public_key ++ nonce)
        (encrypt_data box public_key self_secret_key nonce (bytes64 ping_id ++ client_id))

  unfoldable pub sendnodes_packet : KeyPair → Key → List NodeFormat → List ℕ → ℕ → Option (List ℕ)
  unfolding encrypt_data nodes_bytes
  sendnodes_packet (self_public_key, self_secret_key) public_key nodes nonce ping_id =
      prepend (packet_send_nodes ∷ self_public_key ++ nonce)
        (encrypt_data box public_key self_secret_key nonce (bytes64 ping_id ++ nodes_bytes nodes))

  -- What `handle_getnodes` reads out of a packet.
  unfoldable pub read_getnodes : KeyPair → List ℕ → Option (ℕ × Key)
  unfolding decrypt_data
  read_getnodes (self_public_key, self_secret_key) packet =
      let public_key = take public_key_bytes (drop 1 packet) in
      let nonce = take nonce_bytes (drop (1 + public_key_bytes) packet) in
      if not (length packet == handshake_head + 8 + client_id_size + encryption_padding)
      then none
      else if bytes_eq public_key self_public_key
      then none
      else open_getnodes
          (decrypt_data box public_key self_secret_key nonce (drop handshake_head packet))

  -- What `handle_sendnodes` reads out of a packet.
  unfoldable pub read_sendnodes : KeyPair → List ℕ → Option (ℕ × List NodeFormat)
  unfolding decrypt_data read_nodes
  read_sendnodes (self_public_key, self_secret_key) packet =
      let public_key = take public_key_bytes (drop 1 packet) in
      let nonce = take nonce_bytes (drop (1 + public_key_bytes) packet) in
      let num_nodes = (length packet - sendnodes_head) / 40 in
      if not (sendnodes_fits (length packet))
      then none
      else open_sendnodes num_nodes
          (decrypt_data box public_key self_secret_key nonce (drop handshake_head packet))
