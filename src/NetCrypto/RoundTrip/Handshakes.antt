-- ===== src/NetCrypto/RoundTrip/Handshakes.antt =====
-- The handshake of an encrypted connection of toxcore/net_crypto.c, from one side to the other.
use project_tox_core.Prelude.{
  ℕ, ◌+◌, ◌≡◌, refl, ap, sym, ◌∙◌, some, List, ◌∷◌, ◌++◌, arith, length, take, drop, get_or,
  length-append, take-append, drop-append, append_assoc,
}
use project_tox_core.NetCrypto.{Box, IsBox, public_key_bytes, nonce_bytes}
use project_tox_core.NetCrypto.Cipher.{decrypt_data_fast, encrypt_data, decrypt_data}
use project_tox_core.NetCrypto.Request.{
  KeyPair, handshake_head, cryptohandshake_packet, handle_cryptohandshake, open_handshake,
}
use project_tox_core.NetCrypto.RoundTrip.{encrypt_round_trip}
use project_tox_core.NetCrypto.RoundTrip.Packets.{IsAgreed}

opens_handshake :
    (public_key secret_nonce session_key : List ℕ)
    → length secret_nonce ≡ nonce_bytes
    → length session_key ≡ public_key_bytes
    → open_handshake public_key (some (secret_nonce ++ session_key))
      ≡ some (record {
        public_key = public_key;
        secret_nonce = secret_nonce;
        session_key = session_key;
      })
opens_handshake public_key secret_nonce session_key ln lk =
    let size : length (secret_nonce ++ session_key) ≡ 56 =
      omega (arith, length-append secret_nonce session_key) in
    rw
      (
        size,
        take-append nonce_bytes secret_nonce session_key (sym ln),
        drop-append nonce_bytes secret_nonce session_key (sym ln),
      )
      refl

reads_handshake :
    (box : Box) (spk rpk rsk secret_nonce session_key nonce encrypted packet : List ℕ)
    → length packet ≡ 129
    → get_or packet 0 0 ≡ 2
    → take public_key_bytes (drop 1 packet) ≡ spk
    → take nonce_bytes (drop (1 + public_key_bytes) packet) ≡ nonce
    → drop handshake_head packet ≡ encrypted
    → decrypt_data box spk rsk nonce encrypted ≡ some (secret_nonce ++ session_key)
    → length secret_nonce ≡ nonce_bytes
    → length session_key ≡ public_key_bytes
    → handle_cryptohandshake box (rpk, rsk) packet
      ≡ some (record { public_key = spk; secret_nonce = secret_nonce; session_key = session_key })
unfolding handle_cryptohandshake
reads_handshake box spk rpk rsk secret_nonce session_key nonce encrypted packet size kind e1 e2 e3
      opens ln lk =
    rw (size, kind, e1, e2, e3, opens) (opens_handshake spk secret_nonce session_key ln lk)

-- With a box that keeps its documented behaviour, key pairs that agree on a common key, and
-- nonces and keys of their proper lengths: a handshake of 129 bytes is made for every secret
-- nonce and session key, and the receiver reads both and the sender's key out of it.
pub cryptohandshake_round_trip :
    (box : Box) (sender receiver : KeyPair) (secret_nonce session_key nonce : List ℕ)
    → IsBox box
    → IsAgreed box sender receiver
    → length nonce ≡ nonce_bytes
    → length secret_nonce ≡ nonce_bytes
    → length session_key ≡ public_key_bytes
    → (packet : List ℕ) × (cryptohandshake_packet box sender receiver.0 secret_nonce session_key
          nonce
        ≡ some packet)
      × (length packet ≡ 129)
      × (handle_cryptohandshake box receiver packet
          ≡ some (record {
            public_key = sender.0;
            secret_nonce = secret_nonce;
            session_key = session_key;
          }))
unfolding cryptohandshake_packet encrypt_data decrypt_data
cryptohandshake_round_trip box (spk, ssk) (rpk, rsk) secret_nonce session_key nonce law agreed ln ls
      lk =
    let plain = secret_nonce ++ session_key in
    let size : length plain ≡ 56 = omega (arith, length-append secret_nonce session_key) in
    let (encrypted, seals, counted, opens) =
      encrypt_round_trip box (box.beforenm rpk ssk) nonce plain law (omega (arith, size))
        (omega (arith, size)) in
    let opened = ap (λ k. decrypt_data_fast box k nonce encrypted) (sym agreed.same_key) ∙ opens in
    let head : length (spk ++ nonce) ≡ 56 =
      omega (arith, length-append spk nonce, agreed.length_a) in
    let whole : length (2 ∷ spk ++ nonce ++ encrypted) ≡ 129 =
      omega (arith, length-append (spk ++ nonce) encrypted, head, counted, size) in
    (
      2 ∷ spk ++ nonce ++ encrypted,
      rw seals refl,
      whole,
      reads_handshake box spk rpk rsk secret_nonce session_key nonce encrypted
          (2 ∷ spk ++ nonce ++ encrypted) whole refl
          (ap (take public_key_bytes) (append_assoc spk nonce encrypted)
            ∙ take-append public_key_bytes spk (nonce ++ encrypted) (sym agreed.length_a))
          (ap (λ t. take nonce_bytes (drop public_key_bytes t)) (append_assoc spk nonce encrypted)
            ∙ ap (take nonce_bytes)
                (drop-append public_key_bytes spk (nonce ++ encrypted) (sym agreed.length_a))
            ∙ take-append nonce_bytes nonce encrypted (sym ln))
          (drop-append 56 (spk ++ nonce) encrypted (sym head)) opened ls lk,
    )
