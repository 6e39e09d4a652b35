-- ===== src/NetCrypto/RoundTrip/Sealed.antt =====
-- A packet with its kind, the sender's key, a nonce and a sealed part: the form of the packets of
-- toxcore/ping.c and toxcore/DHT.c.
use project_tox_core.Prelude.{
  ℕ, ◌+◌, ◌≤◌, ◌<◌, ◌≡◌, refl, ap, sym, ◌∙◌, some, List, ◌∷◌, ◌++◌, arith, length, take, drop,
  length-append, take-append, drop-append, append_assoc,
}
use project_tox_core.NetCrypto.{Box, IsBox, public_key_bytes, nonce_bytes, encryption_padding}
use project_tox_core.NetCrypto.Cipher.{decrypt_data_fast, encrypt_data, decrypt_data}
use project_tox_core.NetCrypto.Request.{KeyPair, prepend, handshake_head}
use project_tox_core.NetCrypto.RoundTrip.{encrypt_round_trip}
use project_tox_core.NetCrypto.RoundTrip.Packets.{IsAgreed}

-- A packet that the receiver opens to the bytes `plain` of the sender.
pub record IsSealed (box : Box) (sender receiver : KeyPair) (plain packet : List ℕ) : Type 0 where
  pub size : length packet ≡ handshake_head + length plain + encryption_padding
  pub from : take public_key_bytes (drop 1 packet) ≡ sender.0
  pub opens :
      decrypt_data box sender.0 receiver.1
        (take nonce_bytes (drop (1 + public_key_bytes) packet))
        (drop handshake_head packet)
      ≡ some plain

pub prepend-IsSealed :
    (box : Box) (sender receiver : KeyPair) (kind : ℕ) (nonce plain : List ℕ)
    → IsBox box
    → IsAgreed box sender receiver
    → length nonce ≡ nonce_bytes
    → 0 < length plain
    → length plain ≤ 1008
    → (packet : List ℕ) × (prepend
          (kind ∷ sender.0 ++ nonce)
          (encrypt_data box receiver.0 sender.1 nonce plain)
        ≡ some packet)
      × IsSealed box sender receiver plain packet
unfolding encrypt_data decrypt_data
prepend-IsSealed box (spk, ssk) (rpk, rsk) kind nonce plain law agreed ln some_bytes few =
    let (encrypted, seals, counted, opens) =
      encrypt_round_trip box (box.beforenm rpk ssk) nonce plain law some_bytes few in
    let opened = ap (λ k. decrypt_data_fast box k nonce encrypted) (sym agreed.same_key) ∙ opens in
    let head : length (spk ++ nonce) ≡ 56 =
      omega (arith, length-append spk nonce, agreed.length_a) in
    let key =
      ap (take public_key_bytes) (append_assoc spk nonce encrypted)
      ∙ take-append public_key_bytes spk (nonce ++ encrypted) (sym agreed.length_a) in
    let middle =
      ap (λ t. take nonce_bytes (drop public_key_bytes t)) (append_assoc spk nonce encrypted)
      ∙ ap (take nonce_bytes)
          (drop-append public_key_bytes spk (nonce ++ encrypted) (sym agreed.length_a))
      ∙ take-append nonce_bytes nonce encrypted (sym ln) in
    let rest = drop-append 56 (spk ++ nonce) encrypted (sym head) in
    (
      kind ∷ spk ++ nonce ++ encrypted,
      rw seals refl,
      record {
        size = omega (arith, length-append (spk ++ nonce) encrypted, head, counted);
        from = key;
        opens = rw (middle, rest) opened;
      },
    )
