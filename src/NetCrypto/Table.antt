-- ===== src/NetCrypto/Table.antt =====
-- Opening, accepting and closing encrypted connections in toxcore/net_crypto.c. A result `none` in
-- place of all that a function returns is a memory fault in `write_packet`; the id that is returned
-- is `none` for -1.
use project_tox_core.Prelude.{
  ℕ, ◌+◌, ◌%◌, ◌^◌, Bool, true, false, not, ◌&&◌, Option, none, some, List, [], ◌∷◌, ◌++◌, ◌==◌,
  if◌then◌else◌, length, get_elem?, get_or, set, take, drop, bytes_eq,
}
use project_tox_core.Network.{IpPort}
use project_tox_core.Lossless.{LosslessUdp, ConnectionId}
use project_tox_core.Lossless.Table.{Env, new_connection, kill_connection, connection_ip}
use project_tox_core.Lossless.Handle.{write_packet}
use project_tox_core.NetCrypto.{
  Box, CryptoConnection, NetCrypto, zero_crypto_connection, public_key_bytes, conn_no_connection,
  conn_handshake_sent, conn_not_confirmed, conn_established,
}
use project_tox_core.NetCrypto.Cipher.{increment_nonce, random_nonce}
use project_tox_core.NetCrypto.Request.{Handshake, cryptohandshake_packet}
use project_tox_core.NetCrypto.Session.{put_crypto, write_cryptpacket}

-- The first place from number `i` on that passes the test.
unfoldable pub find_crypto : (CryptoConnection → Bool) → ℕ → List CryptoConnection → Option ℕ
find_crypto test i [] = none
find_crypto test i (s ∷ ss) = if test s then some i else find_crypto test (i + 1) ss

unfoldable pub getcryptconnection_id : NetCrypto → List ℕ → Option ℕ
unfolding find_crypto
getcryptconnection_id c public_key =
    find_crypto (λ s. not (s.status == conn_no_connection) && bytes_eq public_key s.public_key) 0
      c.crypto_connections

abbrev pub crypto_at : NetCrypto → ℕ → CryptoConnection
crypto_at c i = get_or c.crypto_connections i zero_crypto_connection

-- The places with one zeroed place more, which counts only once it is used.
abbrev pub with_spare : List CryptoConnection → List CryptoConnection
with_spare ss = ss ++ zero_crypto_connection ∷ []

abbrev pub fill_place : List CryptoConnection → ℕ → CryptoConnection → List CryptoConnection
fill_place ss i s = if i == length ss then ss ++ s ∷ [] else set ss i s

-- The places up to the last one in use.
unfoldable pub trim : List CryptoConnection → List CryptoConnection
trim [] = []
trim (s ∷ ss) =
    let rest = trim ss in
    if (length rest == 0) && (s.status == conn_no_connection) then [] else s ∷ rest

unfoldable pub is_cryptoconnected : NetCrypto → ConnectionId → ℕ
is_cryptoconnected c none = conn_no_connection
is_cryptoconnected c (some i) = (crypto_at c i).status

unfoldable pub save_keys : NetCrypto → List ℕ
save_keys c = c.self_public_key ++ c.self_secret_key

unfoldable pub load_keys : NetCrypto → List ℕ → NetCrypto
load_keys c keys = record c {
  self_public_key = take public_key_bytes keys;
  self_secret_key = take public_key_bytes (drop public_key_bytes keys);
}

unfoldable pub new_keys : Box → NetCrypto → NetCrypto
new_keys box c = record c {
  self_public_key = (box.keypair c.made).0;
  self_secret_key = (box.keypair c.made).1;
  made = c.made + 1;
}

-- `new_incoming`: the first free place of the list takes the id; `none` for the result 1.
unfoldable pub new_incoming : List (Option ℕ) → ℕ → Option (List (Option ℕ))
new_incoming [] id = none
new_incoming (none ∷ places) id = some (some id ∷ places)
new_incoming (some other ∷ places) id = elim (new_incoming places id) [
  | none ↦ none
  | some places' ↦ some (some other ∷ places')
]

module _ (random_int : ℕ → ℕ) (box : Box) where
  -- `random_nonce` draws six numbers.
  unfoldable pub draw_nonce : NetCrypto → NetCrypto × List ℕ
  unfolding random_nonce
  draw_nonce c =
      let ludp = c.lossless_udp in
      (
        record c { lossless_udp = record ludp { drawn = ludp.drawn + 6 } },
        random_nonce random_int ludp.drawn,
      )

  abbrev pub sent_on : NetCrypto → Option (LosslessUdp × ℕ) → Option (NetCrypto × ℕ)
  sent_on c none = none
  sent_on c (some (ludp, ret)) = some (record c { lossless_udp = ludp }, ret)

  unfoldable pub send_cryptohandshake :
      NetCrypto → ℕ → List ℕ → List ℕ → List ℕ → Option (NetCrypto × ℕ)
  unfolding draw_nonce cryptohandshake_packet write_packet
  send_cryptohandshake c connection_id public_key secret_nonce session_key =
      let (c', nonce) = draw_nonce c in
      elim (cryptohandshake_packet box (c.self_public_key, c.self_secret_key) public_key
        secret_nonce session_key nonce) [
          | none ↦ some (c', 0)
          | some packet ↦ sent_on c' (write_packet c'.lossless_udp (some connection_id) packet)
        ]

  abbrev pub advance_recv_nonce : NetCrypto → ℕ → NetCrypto
  advance_recv_nonce c i =
      let s = crypto_at c i in
      put_crypto c i (record s { recv_nonce = increment_nonce s.recv_nonce })

  -- The end of `crypto_connect`, after the handshake was sent.
  abbrev pub connected_as : ℕ → Option (NetCrypto × ℕ) → Option (NetCrypto × Option ℕ)
  connected_as i none = none
  connected_as i (some (c, ret)) =
      if ret == 1 then some (advance_recv_nonce c i, some i) else some (c, none)

  -- `crypto_connect` with the free place `i` and the new connection `number`.
  unfoldable pub connect_place : NetCrypto → ℕ → ℕ → List ℕ → Option (NetCrypto × Option ℕ)
  unfolding draw_nonce send_cryptohandshake
  connect_place c i number public_key =
      let (c1, recv_nonce) = draw_nonce c in
      let keys = box.keypair c.made in
      let s = record (get_or (with_spare c.crypto_connections) i zero_crypto_connection) {
        number = number % 2 ^ 16;
        status = conn_handshake_sent;
        recv_nonce = recv_nonce;
        public_key = public_key;
        sessionpublic_key = keys.0;
        sessionsecret_key = keys.1;
      } in
      let c2 = record c1 {
        crypto_connections = fill_place c.crypto_connections i s;
        made = c.made + 1;
      } in
      connected_as i (send_cryptohandshake c2 number public_key recv_nonce keys.0)

  unfoldable pub is_connected_to : NetCrypto → List ℕ → IpPort → Bool
  unfolding getcryptconnection_id connection_ip
  is_connected_to c public_key ip_port = elim (getcryptconnection_id c public_key) [
    | none ↦ false
    | some id ↦
        let c_ip = connection_ip c.lossless_udp (some (crypto_at c id).number) in
        (c_ip.ip == ip_port.ip) && (c_ip.port == ip_port.port)
  ]

  unfoldable pub crypto_connect : Env → NetCrypto → List ℕ → IpPort → Option (NetCrypto × Option ℕ)
  unfolding is_connected_to find_crypto connect_place new_connection
  crypto_connect env c public_key ip_port =
      let (ludp, id) = new_connection random_int env c.lossless_udp ip_port in
      let c1 = record c { lossless_udp = ludp } in
      if is_connected_to c public_key ip_port
      then some (c, none)
      else if not env.alloc_ok
      then some (c, none)
      else elim (find_crypto (λ s. s.status == conn_no_connection) 0
          (with_spare c.crypto_connections)) [
            | none ↦ some (c, none)
            | some i ↦ elim id [
              | none ↦ some (c1, none)
              | some number ↦ connect_place c1 i number public_key
            ]
          ]

  -- `kill_connection` on the connection of place `i`, which is zeroed; true for the result 0.
  unfoldable pub crypto_kill : Env → NetCrypto → ConnectionId → NetCrypto × Bool
  unfolding trim kill_connection
  crypto_kill env c none = (c, false)
  crypto_kill env c (some i) = elim (get_elem? c.crypto_connections i) [
    | none ↦ (c, false)
    | some s ↦ if s.status == conn_no_connection then (c, false) else (
      record c {
        lossless_udp = (kill_connection random_int env c.lossless_udp (some s.number)).0;
        crypto_connections = trim (set c.crypto_connections i zero_crypto_connection);
      },
      true,
    )
  ]

  abbrev pub with_status : NetCrypto → ℕ → ℕ → NetCrypto
  with_status c i status' = put_crypto c i (record (crypto_at c i) { status = status' })

  abbrev pub unconfirmed : ℕ → Option (NetCrypto × ℕ) → Option NetCrypto
  unconfirmed i none = none
  unconfirmed i (some (c, ret)) = some (with_status c i conn_not_confirmed)

  -- The shared key is computed, and four zero bytes are written while the status is established.
  unfoldable pub confirm_to_peer : NetCrypto → ℕ → Option NetCrypto
  unfolding write_cryptpacket
  confirm_to_peer c i =
      let s = crypto_at c i in
      let s' = record s {
        shared_key = box.beforenm s.peersessionpublic_key s.sessionsecret_key;
        status = conn_established;
      } in
      unconfirmed i (write_cryptpacket box (put_crypto c i s') (some i) (0 ∷ 0 ∷ 0 ∷ 0 ∷ []))

  abbrev pub as_id : ℕ → Option NetCrypto → Option (NetCrypto × Option ℕ)
  as_id i none = none
  as_id i (some c) = some (c, some i)

  abbrev pub accepted_as : ℕ → Option (NetCrypto × ℕ) → Option (NetCrypto × Option ℕ)
  accepted_as i none = none
  accepted_as i (some (c, ret)) =
      if ret == 1 then as_id i (confirm_to_peer (advance_recv_nonce c i) i) else some (c, none)

  -- `accept_crypto_inbound` with the free place `i`.
  unfoldable pub accept_place : NetCrypto → ℕ → ℕ → Handshake → Option (NetCrypto × Option ℕ)
  unfolding draw_nonce send_cryptohandshake confirm_to_peer
  accept_place c i connection_id h =
      let (c1, recv_nonce) = draw_nonce c in
      let keys = box.keypair c.made in
      let s = record (get_or (with_spare c.crypto_connections) i zero_crypto_connection) {
        number = connection_id % 2 ^ 16;
        status = conn_not_confirmed;
        recv_nonce = recv_nonce;
        sent_nonce = increment_nonce h.secret_nonce;
        peersessionpublic_key = h.session_key;
        public_key = h.public_key;
        sessionpublic_key = keys.0;
        sessionsecret_key = keys.1;
      } in
      let c2 = record c1 {
        crypto_connections = fill_place c.crypto_connections i s;
        made = c.made + 1;
      } in
      accepted_as i (send_cryptohandshake c2 connection_id h.public_key recv_nonce keys.0)

  unfoldable pub accept_crypto_inbound :
      Env → NetCrypto → ConnectionId → Handshake → Option (NetCrypto × Option ℕ)
  unfolding find_crypto accept_place
  accept_crypto_inbound env c none h = some (c, none)
  accept_crypto_inbound env c (some connection_id) h =
      if not env.alloc_ok
      then some (c, none)
      else elim (find_crypto (λ s. s.status == conn_no_connection) 0
          (with_spare c.crypto_connections)) [
            | none ↦ some (c, none)
            | some i ↦ accept_place c i connection_id h
          ]
