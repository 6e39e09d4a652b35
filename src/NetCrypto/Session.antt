-- ===== src/NetCrypto/Session.antt =====
-- Reading and writing on an encrypted connection of toxcore/net_crypto.c. Where a call of
-- `write_packet` can break memory, `none` is this fault.
use project_tox_core.Prelude.{
  ℕ, ◌-◌, not, Option, none, some, List, ◌∷◌, ◌==◌, ltb, if◌then◌else◌, length, get_elem?, get_or,
  set, drop, add32, sub32,
}
use project_tox_core.Lossless.{LosslessUdp, ConnectionId, max_data_size}
use project_tox_core.Lossless.Handle.{read_packet, write_packet}
use project_tox_core.NetCrypto.{
  Box, CryptoConnection, NetCrypto, zero_bytes, box_zero_bytes, conn_established,
}
use project_tox_core.NetCrypto.Cipher.{increment_nonce, encrypt_data_fast, decrypt_data_fast}

abbrev pub put_crypto : NetCrypto → ℕ → CryptoConnection → NetCrypto
put_crypto c i s = record c { crypto_connections = set c.crypto_connections i s }

-- The results 0, -1 and the length of the data.
pub data Reading : Type 0 where
  nothing : Reading
  discarded : Reading
  received : List ℕ → Reading

module _ (box : Box) where
  -- What is made of a packet of connection `i`.
  unfoldable pub unseal : NetCrypto → ℕ → CryptoConnection → List ℕ → NetCrypto × Reading
  unfolding decrypt_data_fast increment_nonce
  unseal c i s temp_data =
      let opened = decrypt_data_fast box s.shared_key s.recv_nonce (drop 1 temp_data) in
      if not (get_or temp_data 0 0 == 3) then (c, discarded) else elim opened [
        | none ↦ (c, discarded)
        | some plain ↦ (
          put_crypto c i (record s { recv_nonce = increment_nonce s.recv_nonce }),
          received plain,
        )
      ]

  unfoldable pub read_cryptpacket : NetCrypto → ConnectionId → NetCrypto × Reading
  unfolding unseal read_packet
  read_cryptpacket c none = (c, nothing)
  read_cryptpacket c (some i) = elim (get_elem? c.crypto_connections i) [
    | none ↦ (c, nothing)
    | some s ↦
        let (ludp, size, temp_data) = read_packet c.lossless_udp (some s.number) in
        if not (s.status == conn_established)
        then (c, nothing)
        else if size == 0
        then (record c { lossless_udp = ludp }, nothing)
        else unseal (record c { lossless_udp = ludp }) i s temp_data
  ]

  -- After `write_packet`: 0 when it refused.
  unfoldable pub written :
      NetCrypto → ℕ → CryptoConnection → Option (LosslessUdp × ℕ) → Option (NetCrypto × ℕ)
  unfolding increment_nonce
  written c i s none = none
  written c i s (some (ludp, ret)) =
      if ret == 0
      then some (record c { lossless_udp = ludp }, 0)
      else some (
        put_crypto (record c { lossless_udp = ludp }) i
            (record s { sent_nonce = increment_nonce s.sent_nonce }),
        1,
      )

  unfoldable pub write_cryptpacket : NetCrypto → ConnectionId → List ℕ → Option (NetCrypto × ℕ)
  unfolding encrypt_data_fast written write_packet
  write_cryptpacket c none data' = some (c, 0)
  write_cryptpacket c (some i) data' = elim (get_elem? c.crypto_connections i) [
    | none ↦ some (c, 0)
    | some s ↦
        if ltb (max_data_size - 1) (add32 (sub32 (length data') box_zero_bytes) zero_bytes)
        then some (c, 0)
        else if not (s.status == conn_established)
        then some (c, 0)
        else elim (encrypt_data_fast box s.shared_key s.sent_nonce data') [
          | none ↦ some (c, 0)
          | some encrypted ↦
              written c i s (write_packet c.lossless_udp (some s.number) (3 ∷ encrypted))
        ]
  ]
