-- ===== src/NetCrypto/Loop.antt =====
-- The main loop of toxcore/net_crypto.c: new connections, the packets of connections that are not
-- yet established, and time-outs.
use project_tox_core.Prelude.{
  ℕ, zero, suc, ◌+◌, Bool, true, false, not, ◌&&◌, ◌||◌, Option, none, some, List, [], ◌∷◌, ◌==◌,
  if◌then◌else◌, length, get_or, set, drop, bytes_eq,
}
use project_tox_core.Lossless.Table.{
  Env, kill_connection, kill_connection_in, is_connected, incoming_connection,
}
use project_tox_core.Lossless.Handle.{Packet, read_packet, id_packet}
use project_tox_core.Lossless.Timers.{do_lossless_udp}
use project_tox_core.NetCrypto.{
  Box, NetCrypto, conn_no_connection, conn_handshake_sent, conn_not_confirmed, conn_established,
  conn_timed_out, max_incoming,
}
use project_tox_core.NetCrypto.Cipher.{increment_nonce, decrypt_data}
use project_tox_core.NetCrypto.Request.{Handshake, handle_cryptohandshake}
use project_tox_core.NetCrypto.Session.{put_crypto}
use project_tox_core.NetCrypto.Table.{crypto_at, new_incoming, crypto_kill, confirm_to_peer}

-- The loop of `handle_incomings`, which ends with the first id that is refused. Every round but the
-- last takes the mark of a new connection away, so one round more than connections is enough.
unfoldable pub incomings_loop : ℕ → NetCrypto → NetCrypto
unfolding incoming_connection new_incoming
incomings_loop zero c = c
incomings_loop (suc k) c =
    let (ludp, income) = incoming_connection c.lossless_udp in
    let c1 = record c { lossless_udp = ludp } in
    elim income [
      | none ↦ c1
      | some id ↦ elim (new_incoming c.incoming_connections id) [
        | none ↦ c1
        | some places ↦ incomings_loop k (record c1 { incoming_connections = places })
      ]
    ]

unfoldable pub handle_incomings : NetCrypto → NetCrypto
unfolding incomings_loop
handle_incomings c = incomings_loop (length c.lossless_udp.connections + 1) c

-- `memcmp` of the four zero bytes and the data, after the test of its length.
abbrev pub is_empty_packet : Option (List ℕ) → Bool
is_empty_packet none = false
is_empty_packet (some data') = bytes_eq data' (0 ∷ 0 ∷ 0 ∷ 0 ∷ [])

abbrev pub packet_kind : NetCrypto → ℕ → Option ℕ
packet_kind c i = id_packet c.lossless_udp (some (crypto_at c i).number)

-- After one half of a round of `receive_crypto`: go on, or return from the function.
pub data Round : Type 0 where
  goes_on : NetCrypto → Round
  returns : NetCrypto → Round

abbrev pub going_on : Option NetCrypto → Option Round
going_on none = none
going_on (some c) = some (goes_on c)

module _ (random_int : ℕ → ℕ) (box : Box) where
  -- A handshake packet on connection `i`, to which we have sent ours.
  unfoldable pub receive_handshake : NetCrypto → ℕ → Option NetCrypto
  unfolding read_packet handle_cryptohandshake confirm_to_peer increment_nonce
  receive_handshake c i =
      let s = crypto_at c i in
      let (ludp, size, temp_data) = read_packet c.lossless_udp (some s.number) in
      let c1 = record c { lossless_udp = ludp } in
      elim (handle_cryptohandshake box (c.self_public_key, c.self_secret_key) temp_data) [
        | none ↦ some c1
        | some h ↦
            let s' = record s {
              sent_nonce = increment_nonce h.secret_nonce;
              peersessionpublic_key = h.session_key;
            } in
            let answered = confirm_to_peer random_int box (put_crypto c1 i s') i in
            if bytes_eq h.public_key s.public_key then answered else some c1
      ]

  -- The first half of a round of `receive_crypto`.
  unfoldable pub receive_sent : Env → NetCrypto → ℕ → Option Round
  unfolding receive_handshake crypto_kill
  receive_sent env c i =
      let killed = (crypto_kill random_int box env c (some i)).0 in
      let shaken = going_on (receive_handshake c i) in
      if not ((crypto_at c i).status == conn_handshake_sent)
      then some (goes_on c)
      else elim (packet_kind c i) [
        | none ↦ some (goes_on c)
        | some kind ↦ if kind == 2 then shaken else some (returns killed)
      ]

  -- A data packet on connection `i`, which is not confirmed yet.
  unfoldable pub receive_confirmation : Env → NetCrypto → ℕ → NetCrypto
  unfolding read_packet decrypt_data increment_nonce crypto_kill kill_connection_in
  receive_confirmation env c i =
      let s = crypto_at c i in
      let (ludp, size, temp_data) = read_packet c.lossless_udp (some s.number) in
      let c1 = record c { lossless_udp = ludp } in
      let opened =
        decrypt_data box s.peersessionpublic_key s.sessionsecret_key s.recv_nonce
          (drop 1 temp_data) in
      let s' = record s {
        recv_nonce = increment_nonce s.recv_nonce;
        shared_key = box.beforenm s.peersessionpublic_key s.sessionsecret_key;
        status = conn_established;
      } in
      if is_empty_packet opened
      then put_crypto
          (record c1 { lossless_udp = (kill_connection_in env ludp (some s.number) 3000000).0 }) i
          s'
      else (crypto_kill random_int box env c1 (some i)).0

  -- The second half: the loop ends at a connection that is not confirmed, whatever it has received.
  unfoldable pub receive_unconfirmed : Env → NetCrypto → ℕ → Round
  unfolding receive_confirmation crypto_kill
  receive_unconfirmed env c i =
      let killed = (crypto_kill random_int box env c (some i)).0 in
      let confirmed = receive_confirmation env c i in
      if not ((crypto_at c i).status == conn_not_confirmed)
      then goes_on c
      else elim (packet_kind c i) [
        | none ↦ returns c
        | some kind ↦ returns (if kind == 3 then confirmed else killed)
      ]

  unfoldable pub receive_loop : ℕ → Env → NetCrypto → ℕ → Option NetCrypto
  unfolding receive_sent receive_unconfirmed
  receive_loop zero env c i = some c
  receive_loop (suc k) env c i = elim (receive_sent env c i) [
    | none ↦ none
    | some (returns c1) ↦ some c1
    | some (goes_on c1) ↦ elim (receive_unconfirmed env c1 i) [
      | goes_on c2 ↦ receive_loop k env c2 (i + 1)
      | returns c2 ↦ some c2
    ]
  ]

  unfoldable pub receive_crypto : Env → NetCrypto → Option NetCrypto
  unfolding receive_loop
  receive_crypto env c = receive_loop (length c.crypto_connections) env c 0

  -- `kill_timedout` at connection `i`.
  unfoldable pub time_out : Env → NetCrypto → ℕ → NetCrypto
  unfolding is_connected kill_connection
  time_out env c i =
      let s = crypto_at c i in
      let gone = is_connected c.lossless_udp (some s.number) == 4 in
      if not (s.status == conn_no_connection) && gone
      then put_crypto c i (record s { status = conn_timed_out })
      else if gone
      then put_crypto
          (record c {
            lossless_udp = (kill_connection random_int env c.lossless_udp (some s.number)).0;
          })
          i (record s { number = 65535 })
      else c

  unfoldable pub timedout_loop : ℕ → Env → NetCrypto → ℕ → NetCrypto
  unfolding time_out
  timedout_loop zero env c i = c
  timedout_loop (suc k) env c i = timedout_loop k env (time_out env c i) (i + 1)

  unfoldable pub kill_timedout : Env → NetCrypto → NetCrypto
  unfolding timedout_loop
  kill_timedout env c = timedout_loop (length c.crypto_connections) env c 0

  abbrev pub after_receive : Env → List Packet → Option NetCrypto → Option (NetCrypto × List Packet)
  after_receive env sent none = none
  after_receive env sent (some c) = some (kill_timedout env c, sent)

  -- `none` is a fault of `do_lossless_udp` or of a write.
  unfoldable pub do_net_crypto : Env → NetCrypto → Option (NetCrypto × List Packet)
  unfolding do_lossless_udp handle_incomings receive_crypto kill_timedout
  do_net_crypto env c = elim (do_lossless_udp random_int env c.lossless_udp) [
    | none ↦ none
    | some (ludp, sent) ↦
        after_receive env sent
          (receive_crypto env (handle_incomings (record c { lossless_udp = ludp })))
  ]

  -- `crypto_inbound` from place `i` of the list on, with `k` places left.
  unfoldable pub inbound_loop : ℕ → Env → NetCrypto → ℕ → NetCrypto × Option (ℕ × Handshake)
  unfolding is_connected kill_connection id_packet read_packet handle_cryptohandshake
  inbound_loop zero env c i = (c, none)
  inbound_loop (suc k) env c i = elim (get_or c.incoming_connections i none) [
    | none ↦ inbound_loop k env c (i + 1)
    | some id ↦
        let freed = set c.incoming_connections i none in
        let state = is_connected c.lossless_udp (some id) in
        let dropped = record c {
          lossless_udp = (kill_connection random_int env c.lossless_udp (some id)).0;
          incoming_connections = freed;
        } in
        let (ludp, size, temp_data) = read_packet c.lossless_udp (some id) in
        let read' = record c { lossless_udp = ludp } in
        let shake = handle_cryptohandshake box (c.self_public_key, c.self_secret_key) temp_data in
        let is_shake : Bool = elim (id_packet c.lossless_udp (some id)) [
          | none ↦ false
          | some b ↦ b == 2
        ] in
        elim ((state == 4) || (state == 0)) [
          | true ↦ inbound_loop k env dropped (i + 1)
          | false ↦ elim is_shake [
            | false ↦ inbound_loop k env c (i + 1)
            | true ↦ elim shake [
              | none ↦ inbound_loop k env read' (i + 1)
              | some h ↦ (record read' { incoming_connections = freed }, some (id, h))
            ]
          ]
        ]
  ]

  unfoldable pub crypto_inbound : Env → NetCrypto → NetCrypto × Option (ℕ × Handshake)
  unfolding inbound_loop
  crypto_inbound env c = inbound_loop max_incoming env c 0
