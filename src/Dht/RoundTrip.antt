-- ===== src/Dht/RoundTrip.antt =====
-- The get nodes and send nodes packets of toxcore/DHT.c, from one node to the other.
use project_tox_core.Prelude.{
  ℕ, zero, suc, ◌+◌, ◌-◌, ◌*◌, ◌/◌, ◌^◌, ◌≤◌, ◌<◌, ◌≡◌, refl, ap, sym, ◌∙◌, true, false, some, List,
  [], ◌∷◌, ◌++◌, arith, length, take, drop, get_or, bytes_eq, bytes16, bytes32, bytes64, le32_at,
  read_le64, read_le64-bytes64, length-append, take-append, drop-append, append_assoc, All, ◌==◌,
}
use project_tox_core.FriendRequests.{Key}
use project_tox_core.NetCrypto.{Box, IsBox, nonce_bytes, public_key_bytes}
use project_tox_core.NetCrypto.Request.{KeyPair}
use project_tox_core.NetCrypto.RoundTrip.Packets.{IsAgreed}
use project_tox_core.NetCrypto.RoundTrip.Sealed.{IsSealed, prepend-IsSealed}
use project_tox_core.Dht.{NodeFormat, client_id_size, max_sent_nodes}
use project_tox_core.Dht.Packets.{
  node_bytes, nodes_bytes, read_nodes, open_getnodes, open_sendnodes, sendnodes_head,
  sendnodes_fits, getnodes_packet, sendnodes_packet, read_getnodes, read_sendnodes,
}

-- A node as it fits in its 40 bytes.
pub record IsNode (n : NodeFormat) : Type 0 where
  pub id_length : length n.client_id ≡ client_id_size
  pub ip_small : n.ip_port.ip < 2 ^ 32
  pub port_small : n.ip_port.port < 2 ^ 16

get_or-append_right :
    (xs ys : List ℕ) (i j : ℕ) → i ≡ length xs + j → get_or (xs ++ ys) i 0 ≡ get_or ys j 0
get_or-append_right [] ys i j h = ap (λ k. get_or ys k 0) (omega arith)
get_or-append_right (x ∷ xs) ys zero j h = absurd (omega arith)
get_or-append_right (x ∷ xs) ys (suc i) j h = get_or-append_right xs ys i j (omega arith)

reads_ip : (ip : ℕ) → ip < 2 ^ 32 → (rest : List ℕ) → le32_at (bytes32 ip ++ rest) 0 ≡ ip
reads_ip ip h rest = omega arith

module _ (n : NodeFormat) (rest : List ℕ) (fits : IsNode n) where
  abbrev tail : List ℕ
  tail = bytes32 n.ip_port.ip ++ (bytes16 n.ip_port.port ++ (0 ∷ 0 ∷ [])) ++ rest

  whole : node_bytes n ++ rest ≡ n.client_id ++ tail
  whole = append_assoc n.client_id _ rest

  byte : (i j : ℕ) → i ≡ 32 + j → get_or (node_bytes n ++ rest) i 0 ≡ get_or tail j 0
  byte i j h =
      ap (λ t. get_or t i 0) whole
      ∙ get_or-append_right n.client_id tail i j (omega (arith, fits.id_length))

  reads_id : take client_id_size (node_bytes n ++ rest) ≡ n.client_id
  reads_id =
      ap (take client_id_size) whole
      ∙ take-append client_id_size n.client_id tail (sym fits.id_length)

  reads_ip_port : le32_at (node_bytes n ++ rest) 32 ≡ n.ip_port.ip
  reads_ip_port = omega (
    arith,
    byte 32 0 refl,
    byte (32 + 1) 1 refl,
    byte (32 + 2) 2 refl,
    byte (32 + 3) 3 refl,
    fits.ip_small,
  )

  reads_port :
      get_or (node_bytes n ++ rest) 36 0 + get_or (node_bytes n ++ rest) 37 0 * 2 ^ 8
      ≡ n.ip_port.port
  reads_port = omega (arith, byte 36 4 refl, byte 37 5 refl, fits.port_small)

  length-node : length (node_bytes n) ≡ 40
  length-node = omega (
    arith,
    length-append n.client_id (bytes32 n.ip_port.ip ++ (bytes16 n.ip_port.port ++ (0 ∷ 0 ∷ []))),
    fits.id_length,
  )

  skips : drop 40 (node_bytes n ++ rest) ≡ rest
  skips = drop-append 40 (node_bytes n) rest (sym length-node)

pub read_nodes-nodes_bytes :
    (ns : List NodeFormat) → All IsNode ns → read_nodes (length ns) (nodes_bytes ns) ≡ ns
unfolding read_nodes nodes_bytes
read_nodes-nodes_bytes [] fits = refl
read_nodes-nodes_bytes (n ∷ ns) fits =
    rw
      (
        reads_id n (nodes_bytes ns) fits.0,
        reads_ip_port n (nodes_bytes ns) fits.0,
        reads_port n (nodes_bytes ns) fits.0,
        skips n (nodes_bytes ns) fits.0,
      )
      (ap (λ t. n ∷ t) (read_nodes-nodes_bytes ns fits.1))

length-nodes_bytes :
    (ns : List NodeFormat) → All IsNode ns → length (nodes_bytes ns) ≡ 40 * length ns
unfolding nodes_bytes
length-nodes_bytes [] fits = omega arith
length-nodes_bytes (n ∷ ns) fits = omega (
  arith,
  length-append (node_bytes n) (nodes_bytes ns),
  length-node n (nodes_bytes ns) fits.0,
  length-nodes_bytes ns fits.1,
)

takes_id :
    (ping_id : ℕ) (rest : List ℕ) → ping_id < 2 ^ 64 → read_le64 (bytes64 ping_id ++ rest) ≡ ping_id
takes_id ping_id rest h = read_le64-bytes64 ping_id h

opens_request :
    (ping_id : ℕ) (client_id : Key)
    → ping_id < 2 ^ 64
    → length client_id ≡ client_id_size
    → open_getnodes (some (bytes64 ping_id ++ client_id)) ≡ some (ping_id, client_id)
opens_request ping_id client_id h hc =
    let size : length (bytes64 ping_id ++ client_id) ≡ 40 =
      omega (arith, length-append (bytes64 ping_id) client_id) in
    rw (size, takes_id ping_id client_id h) refl

opens_nodes :
    (ping_id : ℕ) (nodes : List NodeFormat)
    → ping_id < 2 ^ 64
    → All IsNode nodes
    → open_sendnodes (length nodes) (some (bytes64 ping_id ++ nodes_bytes nodes))
      ≡ some (ping_id, nodes)
opens_nodes ping_id nodes h fits =
    let size : (length (bytes64 ping_id ++ nodes_bytes nodes) == 8 + 40 * length nodes) ≡ true =
      ground (
        arith,
        length-append (bytes64 ping_id) (nodes_bytes nodes),
        length-nodes_bytes nodes fits,
      ) in
    rw (size, takes_id ping_id (nodes_bytes nodes) h, read_nodes-nodes_bytes nodes fits) refl

reads_getnodes :
    (box : Box) (sender : KeyPair) (rpk rsk : List ℕ) (ping_id : ℕ) (client_id : Key)
    (packet : List ℕ)
    → IsSealed box sender (rpk, rsk) (bytes64 ping_id ++ client_id) packet
    → bytes_eq sender.0 rpk ≡ false
    → ping_id < 2 ^ 64
    → length client_id ≡ client_id_size
    → read_getnodes box (rpk, rsk) packet ≡ some (ping_id, client_id)
unfolding read_getnodes
reads_getnodes box sender rpk rsk ping_id client_id packet s other h hc =
    let size : length packet ≡ 113 =
      omega (arith, s.size, length-append (bytes64 ping_id) client_id) in
    rw (size, s.from, other, s.opens, read_getnodes) (opens_request ping_id client_id h hc)

-- With a box that keeps its documented behaviour and key pairs that agree on a common key and
-- differ, a get nodes packet is made for every id of 64 bits and client id, and the receiver reads
-- both and the sender's key out of it.
pub getnodes_round_trip :
    (box : Box) (sender receiver : KeyPair) (ping_id : ℕ) (client_id : Key) (nonce : List ℕ)
    → IsBox box
    → IsAgreed box sender receiver
    → bytes_eq sender.0 receiver.0 ≡ false
    → length nonce ≡ nonce_bytes
    → ping_id < 2 ^ 64
    → length client_id ≡ client_id_size
    → (packet : List ℕ) × (getnodes_packet box sender receiver.0 client_id nonce ping_id
        ≡ some packet)
      × (read_getnodes box receiver packet ≡ some (ping_id, client_id))
      × (take public_key_bytes (drop 1 packet) ≡ sender.0)
unfolding getnodes_packet
getnodes_round_trip box (spk, ssk) (rpk, rsk) ping_id client_id nonce law agreed other ln h hc =
    let plain = bytes64 ping_id ++ client_id in
    let size : length plain ≡ 40 = omega (arith, length-append (bytes64 ping_id) client_id) in
    let (packet, made, s) =
      prepend-IsSealed box (spk, ssk) (rpk, rsk) 2 nonce plain law agreed ln (omega (arith, size))
        (omega (arith, size)) in
    (
      packet,
      made,
      reads_getnodes box (spk, ssk) rpk rsk ping_id client_id packet s other h hc,
      s.from,
    )

fits_nodes :
    (size n : ℕ)
    → size ≡ 81 + 40 * n
    → 1 ≤ n
    → n ≤ max_sent_nodes
    → (sendnodes_fits size ≡ true) × ((size - sendnodes_head) / 40 ≡ n)
fits_nodes size n e low high = (ground arith, omega arith)

reads_sendnodes :
    (box : Box) (sender : KeyPair) (rpk rsk : List ℕ) (ping_id : ℕ) (nodes : List NodeFormat)
    (packet : List ℕ)
    → IsSealed box sender (rpk, rsk) (bytes64 ping_id ++ nodes_bytes nodes) packet
    → ping_id < 2 ^ 64
    → 1 ≤ length nodes
    → length nodes ≤ max_sent_nodes
    → All IsNode nodes
    → read_sendnodes box (rpk, rsk) packet ≡ some (ping_id, nodes)
unfolding read_sendnodes
reads_sendnodes box sender rpk rsk ping_id nodes packet s h low high fits =
    let (ok, count) =
      fits_nodes (length packet) (length nodes)
        (omega (
          arith,
          s.size,
          length-append (bytes64 ping_id) (nodes_bytes nodes),
          length-nodes_bytes nodes fits,
        ))
        low high in
    rw (ok, count, s.from, s.opens, read_sendnodes) (opens_nodes ping_id nodes h fits)

-- With a box that keeps its documented behaviour and key pairs that agree on a common key, 1 to 8
-- nodes with an id of 32 bytes, an address of 32 and a port of 16 bits each go into a send nodes
-- packet for every id of 64 bits, and the receiver reads the id, the nodes in their order and the
-- sender's key out of it.
pub sendnodes_round_trip :
    (box : Box) (sender receiver : KeyPair) (ping_id : ℕ) (nodes : List NodeFormat) (nonce : List ℕ)
    → IsBox box
    → IsAgreed box sender receiver
    → length nonce ≡ nonce_bytes
    → ping_id < 2 ^ 64
    → 1 ≤ length nodes
    → length nodes ≤ max_sent_nodes
    → All IsNode nodes
    → (packet : List ℕ) × (sendnodes_packet box sender receiver.0 nodes nonce ping_id ≡ some packet)
      × (read_sendnodes box receiver packet ≡ some (ping_id, nodes))
      × (take public_key_bytes (drop 1 packet) ≡ sender.0)
unfolding sendnodes_packet
sendnodes_round_trip box (spk, ssk) (rpk, rsk) ping_id nodes nonce law agreed ln h low high fits =
    let plain = bytes64 ping_id ++ nodes_bytes nodes in
    let size : length plain ≡ 8 + 40 * length nodes =
      omega (
        arith,
        length-append (bytes64 ping_id) (nodes_bytes nodes),
        length-nodes_bytes nodes fits,
      ) in
    let (packet, made, s) =
      prepend-IsSealed box (spk, ssk) (rpk, rsk) 3 nonce plain law agreed ln (omega (arith, size))
        (omega (arith, size)) in
    (
      packet,
      made,
      reads_sendnodes box (spk, ssk) rpk rsk ping_id nodes packet s h low high fits,
      s.from,
    )
