-- ===== src/Ping/Packets.antt =====
-- The packets of toxcore/ping.c: what `send_ping_request` and `send_ping_response` send, and what
-- their handlers read. The random nonce and the random id are drawn from `random_int`, counted by
-- `drawn`.
use project_tox_core.Prelude.{
  ℕ, ◌+◌, ◌*◌, ◌%◌, ◌^◌, not, ◌||◌, Option, none, some, List, [], ◌∷◌, ◌++◌, ◌==◌, if◌then◌else◌,
  length, take, drop, bytes_eq, bytes64, read_le64,
}
use project_tox_core.Network.{IpPort}
use project_tox_core.Lossless.Handle.{Packet}
use project_tox_core.NetCrypto.{Box, public_key_bytes, nonce_bytes, encryption_padding}
use project_tox_core.NetCrypto.Cipher.{random_nonce, encrypt_data, decrypt_data}
use project_tox_core.NetCrypto.Request.{KeyPair, prepend, handshake_head}
use project_tox_core.Ping.{Ping, add_ping, is_pinging}

-- `NET_PACKET_PING_REQUEST` and `NET_PACKET_PING_RESPONSE`
abbrev pub packet_ping_request : ℕ
packet_ping_request = 0

abbrev pub packet_ping_response : ℕ
packet_ping_response = 1

-- 81 bytes
abbrev pub dht_ping_size : ℕ
dht_ping_size = 1 + public_key_bytes + nonce_bytes + 8 + encryption_padding

-- `random_64b`
unfoldable pub random_64b : (ℕ → ℕ) → ℕ → ℕ
random_64b random_int drawn = random_int drawn % 2 ^ 32 * 2 ^ 32 + random_int (drawn + 1) % 2 ^ 32

abbrev pub to_one : IpPort → Option (List ℕ) → List Packet
to_one ipp none = []
to_one ipp (some packet) = (ipp, packet) ∷ []

-- The number in eight bytes, if there are eight.
abbrev pub read_ping_id : Option (List ℕ) → Option ℕ
read_ping_id none = none
read_ping_id (some plain) = if length plain == 8 then some (read_le64 plain) else none

module _ (box : Box) where
  -- The packet of either kind; `none` where `encrypt_data` fails.
  unfoldable pub ping_packet : ℕ → KeyPair → List ℕ → List ℕ → ℕ → Option (List ℕ)
  unfolding encrypt_data
  ping_packet kind (self_public_key, self_secret_key) client_id nonce ping_id =
      prepend (kind ∷ self_public_key ++ nonce)
        (encrypt_data box client_id self_secret_key nonce (bytes64 ping_id))

  -- The id that both handlers read; `none` where they return 1 before they use it.
  unfoldable pub open_ping : KeyPair → List ℕ → Option ℕ
  unfolding decrypt_data
  open_ping (self_public_key, self_secret_key) packet =
      let public_key = take public_key_bytes (drop 1 packet) in
      let nonce = take nonce_bytes (drop (1 + public_key_bytes) packet) in
      if not (length packet == dht_ping_size)
      then none
      else if bytes_eq public_key self_public_key
      then none
      else read_ping_id
          (decrypt_data box public_key self_secret_key nonce (drop handshake_head packet))

  module _ (random_int : ℕ → ℕ) where
    -- The new buffer, the new count of random numbers and the packets.
    unfoldable pub send_ping_request :
        ℕ → KeyPair → Ping → ℕ → IpPort → List ℕ → Ping × ℕ × List Packet
    unfolding ping_packet random_64b random_nonce
    send_ping_request now self ping drawn ipp client_id =
        let (asked, waits) = is_pinging now ping ipp 0 in
        let (added, ping_id) = add_ping now (random_64b random_int drawn) asked ipp in
        let nonce = random_nonce random_int (drawn + 2) in
        if waits || bytes_eq client_id self.0 then (asked, drawn, []) else (
          added,
          drawn + 8,
          to_one ipp (ping_packet packet_ping_request self client_id nonce ping_id),
        )

    unfoldable pub send_ping_response : KeyPair → ℕ → IpPort → List ℕ → ℕ → ℕ × List Packet
    unfolding ping_packet random_nonce
    send_ping_response self drawn ipp client_id ping_id =
        if bytes_eq client_id self.0 then (drawn, []) else (
          drawn + 6,
          to_one ipp (
              ping_packet packet_ping_response self client_id (random_nonce random_int drawn)
                ping_id),
        )
