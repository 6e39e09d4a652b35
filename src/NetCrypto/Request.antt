-- ===== src/NetCrypto/Request.antt =====
-- The packets of toxcore/net_crypto.c that are sealed with the keys of both sides: requests and the
-- handshake of an encrypted connection. The random nonce is an argument.
use project_tox_core.Prelude.{
  ℕ, ◌+◌, ◌*◌, Bool, true, false, ◌||◌, ◌&&◌, not, Option, none, some, List, [], ◌∷◌, ◌++◌, ◌==◌,
  ltb, leb, if◌then◌else◌, length, take, drop, get_or, add32, bytes_eq,
}
use project_tox_core.Lossless.{max_data_size}
use project_tox_core.NetCrypto.{
  Box, public_key_bytes, nonce_bytes, encryption_padding, packet_crypto,
}
use project_tox_core.NetCrypto.Cipher.{encrypt_data, decrypt_data}

-- The bytes in front of the sealed part of a request.
abbrev pub request_head : ℕ
request_head = 1 + public_key_bytes * 2 + nonce_bytes

abbrev pub handshake_head : ℕ
handshake_head = 1 + public_key_bytes + nonce_bytes

-- Our public and secret key.
abbrev pub KeyPair : Type 0
KeyPair = List ℕ × List ℕ

-- What `handle_request` hands out: the sender's key, the number and the data.
pub record Request : Type 0 where
  pub sender : List ℕ
  pub request_id : ℕ
  pub content : List ℕ

-- What `handle_cryptohandshake` hands out.
pub record Handshake : Type 0 where
  pub public_key : List ℕ
  pub secret_nonce : List ℕ
  pub session_key : List ℕ

abbrev pub prepend : List ℕ → Option (List ℕ) → Option (List ℕ)
prepend head none = none
prepend head (some encrypted) = some (head ++ encrypted)

-- The number and the data are not empty: `len1 == 0` is refused.
abbrev pub open_request : List ℕ → Option (List ℕ) → Option Request
open_request public_key none = none
open_request public_key (some []) = none
open_request public_key (some (request_id ∷ data')) =
    some (record { sender = public_key; request_id = request_id; content = data' })

abbrev pub open_handshake : List ℕ → Option (List ℕ) → Option Handshake
open_handshake public_key none = none
open_handshake public_key (some temp) =
    if not (length temp == nonce_bytes + public_key_bytes)
    then none
    else some (record {
      public_key = public_key;
      secret_nonce = take nonce_bytes temp;
      session_key = drop nonce_bytes temp;
    })

module _ (box : Box) where
  unfoldable pub create_request : KeyPair → List ℕ → List ℕ → ℕ → List ℕ → Option (List ℕ)
  create_request (send_public_key, send_secret_key) recv_public_key data' request_id nonce =
      if ltb max_data_size (add32 (length data') (request_head + 1 + encryption_padding))
      then none
      else prepend (packet_crypto ∷ recv_public_key ++ send_public_key ++ nonce)
          (encrypt_data box recv_public_key send_secret_key nonce (request_id ∷ data'))

  unfoldable pub handle_request : KeyPair → List ℕ → Option Request
  handle_request (self_public_key, self_secret_key) packet =
      let public_key = take public_key_bytes (drop (1 + public_key_bytes) packet) in
      let nonce = take nonce_bytes (drop (1 + public_key_bytes * 2) packet) in
      if ltb (request_head + encryption_padding) (length packet)
        && leb (length packet) (max_data_size + encryption_padding)
        && bytes_eq (take public_key_bytes (drop 1 packet)) self_public_key
      then open_request public_key
          (decrypt_data box public_key self_secret_key nonce (drop request_head packet))
      else none

  -- `cryptopacket_handle`: the request that is passed to the handler of its number, and whether the
  -- packet is given to the routing of `DHT.c` instead.
  unfoldable pub cryptopacket_handle : KeyPair → (ℕ → Bool) → List ℕ → Option Request × Bool
  unfolding handle_request
  cryptopacket_handle self handled packet =
      if not (get_or packet 0 0 == packet_crypto)
      then (none, false)
      else if leb (length packet) (request_head + encryption_padding)
          || ltb (max_data_size + encryption_padding) (length packet)
      then (none, false)
      else if not (bytes_eq (take public_key_bytes (drop 1 packet)) self.0)
      then (none, true)
      else elim (handle_request self packet) [
        | none ↦ (none, false)
        | some r ↦
            if (length r.content == 0) || not (handled r.request_id)
            then (none, false)
            else (some r, false)
      ]

  -- The packet that `send_cryptohandshake` writes.
  unfoldable pub cryptohandshake_packet :
      KeyPair → List ℕ → List ℕ → List ℕ → List ℕ → Option (List ℕ)
  cryptohandshake_packet (self_public_key, self_secret_key) public_key secret_nonce session_key
        nonce =
      prepend (2 ∷ self_public_key ++ nonce)
        (encrypt_data box public_key self_secret_key nonce (secret_nonce ++ session_key))

  unfoldable pub handle_cryptohandshake : KeyPair → List ℕ → Option Handshake
  handle_cryptohandshake (self_public_key, self_secret_key) packet =
      let public_key = take public_key_bytes (drop 1 packet) in
      let nonce = take nonce_bytes (drop (1 + public_key_bytes) packet) in
      if not (length packet == handshake_head + nonce_bytes + public_key_bytes + encryption_padding)
      then none
      else if not (get_or packet 0 0 == 2)
      then none
      else open_handshake public_key
          (decrypt_data box public_key self_secret_key nonce (drop handshake_head packet))
