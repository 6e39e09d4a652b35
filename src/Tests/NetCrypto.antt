-- ===== src/Tests/NetCrypto.antt =====
-- Examples for the encrypted connections.
use project_tox_core.Prelude.{
  ℕ, ◌+◌, ◌≤◌, ◌<◌, ◌≡◌, ◌≢◌, ◌⊎◌, refl, arith, true, false, some, none, List, [], ◌∷◌, length,
  replicate,
}
use project_tox_core.Lossless.{max_data_size, zero_connection}
use project_tox_core.Lossless.Conn.{recvqueue}
use project_tox_core.NetCrypto.{NetCrypto, zero_crypto_connection}
use project_tox_core.NetCrypto.Cipher.{increment_nonce}
use project_tox_core.NetCrypto.Nonce.{IsBytes, nonce_value, nonce_range, increment_nonce_adds}
use project_tox_core.NetCrypto.Request.{
  create_request, handle_request, cryptohandshake_packet, handle_cryptohandshake,
}
use project_tox_core.NetCrypto.RoundTrip.Packets.{request_round_trip}
use project_tox_core.NetCrypto.RoundTrip.Handshakes.{cryptohandshake_round_trip}
use project_tox_core.NetCrypto.Table.{crypto_kill, is_cryptoconnected}
use project_tox_core.NetCrypto.Loop.{receive_crypto, packet_kind}
use project_tox_core.NetCrypto.Laws.{crypto_kill_exact, receive_crypto_held_up}
use project_tox_core.Lossless.Handle.{id_packet}
use project_tox_core.Tests.Sample.{env, dice, two_connections}
use project_tox_core.Tests.Boxes.{open_box, open_box-IsBox, alice_keys, bob_keys, agreed}

abbrev text : List ℕ
text = 104 ∷ 105 ∷ []

increment_nonce_adds_example :
    IsBytes (increment_nonce (255 ∷ 7 ∷ []))
    × (length (increment_nonce (255 ∷ 7 ∷ [])) ≡ 2)
    × ((nonce_value (255 ∷ 7 ∷ []) + 1 < nonce_range (255 ∷ 7 ∷ []))
          × (nonce_value (increment_nonce (255 ∷ 7 ∷ [])) ≡ nonce_value (255 ∷ 7 ∷ []) + 1)
        ⊎ (nonce_value (255 ∷ 7 ∷ []) + 1 ≡ nonce_range (255 ∷ 7 ∷ []))
          × (nonce_value (increment_nonce (255 ∷ 7 ∷ [])) ≡ 0))
increment_nonce_adds_example = increment_nonce_adds (255 ∷ 7 ∷ []) (omega arith, (omega arith, tt))

request_round_trip_example :
    (packet : List ℕ) × (create_request open_box alice_keys bob_keys.0 text 32 (replicate 24 9)
      ≡ some packet)
    × (length packet ≤ max_data_size)
    × (handle_request open_box bob_keys packet
        ≡ some (record { sender = alice_keys.0; request_id = 32; content = text }))
request_round_trip_example =
    request_round_trip open_box alice_keys bob_keys text 32 (replicate 24 9) open_box-IsBox agreed
      refl (omega arith)

cryptohandshake_round_trip_example :
    (packet : List ℕ) × (cryptohandshake_packet open_box alice_keys bob_keys.0
        (replicate 24 5)
        (replicate 32 6)
        (replicate 24 9)
      ≡ some packet)
    × (length packet ≡ 129)
    × (handle_cryptohandshake open_box bob_keys packet
        ≡ some (record {
          public_key = alice_keys.0;
          secret_nonce = replicate 24 5;
          session_key = replicate 32 6;
        }))
cryptohandshake_round_trip_example =
    cryptohandshake_round_trip open_box alice_keys bob_keys (replicate 24 5) (replicate 32 6)
      (replicate 24 9) open_box-IsBox agreed refl refl refl

abbrev crypto : NetCrypto
crypto = record {
  lossless_udp = two_connections;
  crypto_connections =
      record zero_crypto_connection { status = 2; number = 0 }
      ∷ record zero_crypto_connection { status = 1; number = 1 }
      ∷ [];
  self_public_key = alice_keys.0;
  self_secret_key = alice_keys.1;
  incoming_connections = replicate 64 none;
  handled = λ n. false;
  made = 0;
}

crypto_kill_exact_example :
    let (c', done) = crypto_kill dice open_box env crypto (some 1) in
    ((is_cryptoconnected crypto (some 1) ≢ 0)
        × (done ≡ true)
        × (is_cryptoconnected c' (some 1) ≡ 0)
        × (is_cryptoconnected c' (some 0) ≡ is_cryptoconnected crypto (some 0))
      ⊎ (is_cryptoconnected crypto (some 1) ≡ 0) × (done ≡ false) × (c' ≡ crypto))
crypto_kill_exact_example = crypto_kill_exact dice open_box env crypto 1 0 (omega arith)

nothing_to_read : packet_kind crypto 0 ≡ none
unfolding id_packet recvqueue zero_connection
nothing_to_read = refl

receive_crypto_held_up_example : receive_crypto dice open_box env crypto ≡ some crypto
receive_crypto_held_up_example =
    receive_crypto_held_up dice open_box env crypto 0 refl (λ j h. absurd (omega arith))
      nothing_to_read
