-- ===== src/Lossless/Handle.antt =====
-- The packet handlers of toxcore/Lossless_UDP.c, and its operations on a connection id.
-- A handler returns the new state, its result (`none` for -1) and the packets that it sends; where
-- a handler can break memory, `none` in place of all that is this fault.
use project_tox_core.Prelude.{
  ℕ, zero, suc, ◌+◌, ◌-◌, ◌/◌, ◌%◌, not, ◌&&◌, Option, none, some, List, [], ◌∷◌, ◌==◌, ltb,
  if◌then◌else◌, length, get_elem?, set, get_or, drop,
}
use project_tox_core.Network.{IpPort}
use project_tox_core.Lossless.{
  Connection, LosslessUdp, ConnectionId, connection_at, max_data_size, max_queue_num, zero_slot,
  zero_connection,
}
use project_tox_core.Lossless.Conn
use project_tox_core.Lossless.Conn.{byte_at, read_be32, handshake_packet, sync_valid}
use project_tox_core.Lossless.Table.{
  Env, getconnection_id, is_connected, handshake_id, new_inconnection,
}

abbrev pub Packet : Type 0
Packet = IpPort × List ℕ

pub record Outcome : Type 0 where
  pub state : LosslessUdp
  pub ret : Option ℕ
  pub sent : List Packet

abbrev pub put : LosslessUdp → ℕ → Connection → LosslessUdp
put ludp i c = record ludp { connections = set ludp.connections i c }

unfoldable pub sendqueue : LosslessUdp → ConnectionId → ℕ
sendqueue ludp id = elim (connection_at ludp id) [ none ↦ 0 | some c ↦ Conn.sendqueue c ]

unfoldable pub recvqueue : LosslessUdp → ConnectionId → ℕ
recvqueue ludp id = elim (connection_at ludp id) [ none ↦ 0 | some c ↦ Conn.recvqueue c ]

-- The first byte of the next packet as a signed `char`; `none` is -1.
unfoldable pub id_packet : LosslessUdp → ConnectionId → Option ℕ
unfolding recvqueue
id_packet ludp id = elim (connection_at ludp id) [
  | none ↦ none
  | some c ↦
      let first =
        byte_at (get_or c.recvbuffer (c.successful_read % max_queue_num) zero_slot).bytes 0 in
      if Conn.recvqueue c == 0
      then none
      else if c.status == 0
      then none
      else if first == 255
      then none
      else some first
]

unfoldable pub read_packet : LosslessUdp → ConnectionId → LosslessUdp × ℕ × List ℕ
read_packet ludp none = (ludp, 0, [])
read_packet ludp (some i) = elim (get_elem? ludp.connections i) [
  | none ↦ (ludp, 0, [])
  | some c ↦ let (c', size, bytes) = Conn.read_packet c in (put ludp i c', size, bytes)
]

-- `sendqueue` is 0 for an id that is not in the table, so that the write goes to memory outside.
unfoldable pub write_packet : LosslessUdp → ConnectionId → List ℕ → Option (LosslessUdp × ℕ)
write_packet ludp none data' =
    if ltb max_data_size (length data')
    then some (ludp, 0)
    else if length data' == 0
    then some (ludp, 0)
    else none
write_packet ludp (some i) data' = elim (get_elem? ludp.connections i) [
  | none ↦
      if ltb max_data_size (length data')
      then some (ludp, 0)
      else if length data' == 0
      then some (ludp, 0)
      else none
  | some c ↦ let (c', ret) = Conn.write_packet c data' in some (put ludp i c', ret)
]

-- What a handshake reply does to the connection that asked for it.
abbrev pub shake : Connection → ℕ → ℕ → Connection
shake c handshake_id1 handshake_id2 =
    if handshake_id2 == c.handshake_id1
    then record c {
      status = 2;
      orecv_packetnum = handshake_id2;
      osent_packetnum = handshake_id1;
      recv_packetnum = handshake_id1;
      successful_read = handshake_id1;
    }
    else c

-- The numbers of a connection that `handle_SYNC1` opens.
abbrev pub numbered : Connection → ℕ → ℕ → Connection
numbered c recv_packetnum sent_packetnum = record c {
  orecv_packetnum = recv_packetnum;
  sent_packetnum = recv_packetnum;
  sendbuff_packetnum = recv_packetnum;
  successful_sent = recv_packetnum;
  osent_packetnum = sent_packetnum;
  recv_packetnum = sent_packetnum;
  successful_read = sent_packetnum;
}

-- The requested numbers that stand in a SYNC packet from byte 10 on.
unfoldable pub read_requests : ℕ → List ℕ → List ℕ
read_requests zero bytes = []
read_requests (suc n) bytes = read_be32 bytes 0 ∷ read_requests n (drop 4 bytes)

-- The cases 2 and 3 of `handle_SYNC`, and the states in which it does nothing.
unfoldable pub handle_sync_at :
    List ℕ → ℕ → LosslessUdp → ℕ → Connection → ℕ → ℕ → ℕ → List ℕ → Option Outcome
handle_sync_at stack_words now ludp i c counter recv_packetnum sent_packetnum requests =
    let answer = Conn.handle_sync2 c counter recv_packetnum in
    let done = Conn.handle_sync3 stack_words now c counter recv_packetnum sent_packetnum requests in
    if c.status == 2
    then elim answer [
      | none ↦ none
      | some (c2, ret, packet) ↦ some (record {
        state = put ludp i c2;
        ret = some ret;
        sent = elim packet [ none ↦ [] | some p ↦ (c2.ip_port, p) ∷ [] ];
      })
    ]
    else if c.status == 3
    then elim done [
      | none ↦ none
      | some (c3, ret) ↦ some (record { state = put ludp i c3; ret = some ret; sent = [] })
    ]
    else some (record { state = ludp; ret = some 0; sent = [] })

unfoldable pub handle_data : ℕ → LosslessUdp → IpPort → List ℕ → LosslessUdp × ℕ
unfolding getconnection_id
handle_data now ludp source packet = elim (getconnection_id ludp source) [
  | none ↦ (ludp, 1)
  | some i ↦
      let c = get_or ludp.connections i zero_connection in
      let (c', ret) = Conn.add_recv now c (read_be32 packet 1) (drop 5 packet) in
      if not (c.status == 3)
      then (ludp, 1)
      else if ltb (5 + max_data_size) (length packet)
      then (ludp, 1)
      else if ltb (length packet) 6
      then (ludp, 1)
      else (put ludp i c', ret)
]

module _ (random_int : ℕ → ℕ) where
  unfoldable pub handle_handshake : LosslessUdp → IpPort → List ℕ → Outcome
  unfolding getconnection_id is_connected
  handle_handshake ludp source packet =
      let id = getconnection_id ludp source in
      let handshake_id1 = read_be32 packet 1 in
      let handshake_id2 = read_be32 packet 5 in
      let bad : Outcome = record { state = ludp; ret = some 1; sent = [] } in
      let (ludp', own) = handshake_id random_int ludp source in
      let reply : Outcome = record {
        state = ludp';
        ret = some 0;
        sent = (source, handshake_packet own handshake_id1) ∷ [];
      } in
      if not (length packet == 9)
      then bad
      else if (handshake_id2 == 0) && ltb (is_connected ludp id) 3
      then reply
      else elim id [
        | none ↦ bad
        | some i ↦
            let c = get_or ludp.connections i zero_connection in
            if not (c.status == 1) then bad else record {
              state = put ludp i (shake c handshake_id1 handshake_id2);
              ret = some 0;
              sent = [];
            }
      ]

  unfoldable pub handle_sync1 : Env → LosslessUdp → IpPort → ℕ → ℕ → LosslessUdp × ConnectionId
  unfolding new_inconnection
  handle_sync1 env ludp source recv_packetnum sent_packetnum =
      let (ludp', own) = handshake_id random_int ludp source in
      let (opened, id) = new_inconnection env ludp' source in
      if own == recv_packetnum
      then elim id [
        | none ↦ (opened, none)
        | some i ↦ (
          put opened i (
              numbered (get_or opened.connections i zero_connection) recv_packetnum sent_packetnum),
          some i,
        )
      ]
      else (ludp', none)

  -- `stack_words` is what `handle_SYNC3` reads behind a variable on the stack.
  unfoldable pub handle_sync : List ℕ → Env → LosslessUdp → IpPort → List ℕ → Option Outcome
  unfolding handle_sync1 handle_sync_at getconnection_id read_requests
  handle_sync stack_words env ludp source packet =
      let number = (length packet - 10) / 4 in
      let counter = byte_at packet 1 in
      let recv_packetnum = read_be32 packet 2 in
      let sent_packetnum = read_be32 packet 6 in
      let requests = read_requests number (drop 10 packet) in
      let (opened, new_id) = handle_sync1 env ludp source recv_packetnum sent_packetnum in
      if not (sync_valid (length packet))
      then some (record { state = ludp; ret = some 1; sent = [] })
      else elim (getconnection_id ludp source) [
        | none ↦ some (record { state = opened; ret = new_id; sent = [] })
        | some i ↦
            handle_sync_at stack_words env.now ludp i (get_or ludp.connections i zero_connection)
              counter recv_packetnum sent_packetnum requests
      ]
