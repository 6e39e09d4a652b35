-- ===== src/Lossless/Conn.antt =====
-- What toxcore/Lossless_UDP.c does with one connection: the send queue, the receive buffer and the
-- packets that are built from them. A packet that is handed to `sendpacket` is returned.
pub mod Receive
pub mod Missing
pub mod Read
pub mod Delivery
pub mod Sync
pub mod Send
pub mod Ack
pub mod Overrun
pub mod Codec
pub mod Opening
pub mod Near
pub mod Returns
use project_tox_core.Prelude.{
  ℕ, zero, suc, ◌+◌, ◌-◌, ◌*◌, ◌/◌, ◌%◌, ◌^◌, Bool, true, false, not, ◌&&◌, Option, none, some,
  List, [], ◌∷◌, ◌++◌, ◌==◌, ltb, leb, if◌then◌else◌, length, get_or, set, take, drop, add8, add32,
  sub8, sub32,
}
use project_tox_core.Lossless.{
  Slot, zero_slot, Connection, max_data_size, max_queue_num, buffer_packet_num, packet_handshake,
  packet_sync, packet_data,
}

-- `sendqueue` and `recvqueue` of a connection that exists
unfoldable pub sendqueue : Connection → ℕ
sendqueue c = sub32 c.sendbuff_packetnum c.successful_sent

unfoldable pub recvqueue : Connection → ℕ
recvqueue c = sub32 c.recv_packetnum c.successful_read

-- `memcpy(slot.data, data, length); slot.size = length`
abbrev pub fill_slot : Slot → List ℕ → Slot
fill_slot s data' = record { bytes = data' ++ drop (length data') s.bytes; size = length data' }

abbrev pub recv_slot : Connection → ℕ → Slot
recv_slot c n = get_or c.recvbuffer (n % max_queue_num) zero_slot

abbrev pub send_slot : Connection → ℕ → Slot
send_slot c n = get_or c.sendbuffer (n % max_queue_num) zero_slot

-- The end of `read_packet`: the size, the bytes that are copied out, and the new state.
unfoldable pub read_packet : Connection → Connection × ℕ × List ℕ
unfolding recvqueue
read_packet c =
    let index = c.successful_read % max_queue_num in
    let slot = get_or c.recvbuffer index zero_slot in
    if recvqueue c == 0 then (c, 0, []) else (
      record c {
        successful_read = add32 c.successful_read 1;
        recvbuffer = set c.recvbuffer index (record slot { size = 0 });
      },
      slot.size,
      take slot.size slot.bytes,
    )

-- `write_packet` at a connection that exists: `(c, 0)` when it refuses.
unfoldable pub write_packet : Connection → List ℕ → Connection × ℕ
unfolding sendqueue
write_packet c data' =
    let index = c.sendbuff_packetnum % max_queue_num in
    if ltb max_data_size (length data')
    then (c, 0)
    else if length data' == 0
    then (c, 0)
    else if leb buffer_packet_num (sendqueue c)
    then (c, 0)
    else (
      record c {
        sendbuffer = set c.sendbuffer index (fill_slot (get_or c.sendbuffer index zero_slot) data');
        sendbuff_packetnum = add32 c.sendbuff_packetnum 1;
      },
      1,
    )

-- The loop of `missing_packets` from number `i`, with `k` rounds left.
unfoldable pub missing_loop : ℕ → ℕ → Connection → List ℕ
missing_loop zero i c = []
missing_loop (suc k) i c =
    let rest = missing_loop k (add32 i 1) c in if (recv_slot c i).size == 0 then i ∷ rest else rest

-- The numbers that are put in `requested`. `i != osent_packetnum` fails after
-- `osent_packetnum - recv_packetnum` rounds.
unfoldable pub missing_packets : Connection → Connection × List ℕ
unfolding recvqueue missing_loop
missing_packets c =
    let requested = missing_loop (sub32 c.osent_packetnum c.recv_packetnum) c.recv_packetnum c in
    if leb (buffer_packet_num - 1) (recvqueue c)
    then (c, [])
    else if length requested == 0
    then (record c { recv_packetnum = c.osent_packetnum }, [])
    else (c, requested)

-- `htonl` and a copy of the four bytes, and back.
abbrev pub be32 : ℕ → List ℕ
be32 n = n / 2 ^ 24 % 256 ∷ n / 2 ^ 16 % 256 ∷ n / 2 ^ 8 % 256 ∷ n % 256 ∷ []

abbrev pub byte_at : List ℕ → ℕ → ℕ
byte_at packet i = get_or packet i 0

abbrev pub read_be32 : List ℕ → ℕ → ℕ
read_be32 packet i =
    byte_at packet i * 2 ^ 24
    + byte_at packet (i + 1) * 2 ^ 16
    + byte_at packet (i + 2) * 2 ^ 8
    + byte_at packet (i + 3)

abbrev pub be32_all : List ℕ → List ℕ
be32_all [] = []
be32_all (n ∷ ns) = be32 n ++ be32_all ns

unfoldable pub handshake_packet : ℕ → ℕ → List ℕ
handshake_packet handshake_id1 handshake_id2 =
    packet_handshake ∷ be32 handshake_id1 ++ be32 handshake_id2

-- The bytes of a SYNC packet that asks for these numbers.
abbrev pub sync_packet : Connection → List ℕ → List ℕ
sync_packet c requested =
    (packet_sync ∷ c.send_counter ∷ [])
    ++ be32 c.recv_packetnum
    ++ be32 c.sent_packetnum
    ++ be32_all requested

-- `recv_packetnum` is read before `missing_packets` may change it. `none` is a write beyond the 15
-- numbers of `requested`, and the 70 bytes of `packet`.
unfoldable pub send_sync : Connection → Option (Connection × List ℕ)
unfolding missing_packets
send_sync c =
    let (c', requested) = missing_packets c in
    if ltb buffer_packet_num (length requested) then none else some (c', sync_packet c requested)

unfoldable pub data_packet : Connection → ℕ → List ℕ
data_packet c packet_num =
    let slot = send_slot c packet_num in
    (packet_data ∷ []) ++ be32 packet_num ++ take slot.size slot.bytes

-- A packet that was asked for again goes first.
unfoldable pub send_data : Connection → Connection × Option (List ℕ)
unfolding data_packet
send_data c =
    let left = c.num_req_paquets - 1 in
    if ltb 0 c.num_req_paquets
    then (
      record c {
        num_req_paquets = left;
        req_packets = take left (drop 1 c.req_packets) ++ drop left c.req_packets;
      },
      some (data_packet c (get_or c.req_packets 0 0)),
    )
    else if not (c.sendbuff_packetnum == c.sent_packetnum)
    then (
      record c { sent_packetnum = add32 c.sent_packetnum 1 },
      some (data_packet c c.sent_packetnum),
    )
    else (c, none)

-- The first loop of `add_recv`, from number `i` with `k` rounds left.
unfoldable pub store_loop : ℕ → ℕ → ℕ → ℕ → List ℕ → Connection → Connection
store_loop zero i now data_num data' c = c
store_loop (suc k) i now data_num data' c =
    let index = i % max_queue_num in
    let rest = store_loop k (add32 i 1) now data_num data' c in
    if i == data_num
    then record c {
      recvbuffer = set c.recvbuffer index (fill_slot (get_or c.recvbuffer index zero_slot) data');
      last_recvdata = now;
      osent_packetnum =
          if ltb (sub32 data_num c.osent_packetnum) buffer_packet_num
          then data_num
          else c.osent_packetnum;
    }
    else rest

-- The second loop: the number of the last packet before the first gap.
unfoldable pub advance_loop : ℕ → ℕ → ℕ → Connection → ℕ
advance_loop zero i last c = last
advance_loop (suc k) i last c =
    let rest = advance_loop k (add32 i 1) i c in if (recv_slot c i).size == 0 then last else rest

-- `maxnum - recv_packetnum`, the rounds of both loops
abbrev pub room : Connection → ℕ
room c = sub32 (add32 c.successful_read buffer_packet_num) c.recv_packetnum

unfoldable pub add_recv : ℕ → Connection → ℕ → List ℕ → Connection × ℕ
unfolding store_loop advance_loop
add_recv now c data_num data' =
    let c' = store_loop (room c) c.recv_packetnum now data_num data' c in
    if ltb max_data_size (length data') then (c, 1) else (
      record c' { recv_packetnum = advance_loop (room c) c'.recv_packetnum c'.recv_packetnum c' },
      0,
    )

-- `SYNC_valid`
unfoldable pub sync_valid : ℕ → Bool
sync_valid length' =
    if ltb length' 10
    then false
    else if ltb (buffer_packet_num * 4 + 10) length'
    then false
    else (length' - 10) % 4 == 0

-- `handle_SYNC2`: `none` for the packet that it does not send, and in place of all that for the
-- fault of `send_SYNC`.
unfoldable pub handle_sync2 : Connection → ℕ → ℕ → Option (Connection × ℕ × Option (List ℕ))
unfolding send_sync
handle_sync2 c counter recv_packetnum =
    let answer =
      send_sync
        (record c { status = 3; recv_counter = counter; send_counter = add8 c.send_counter 1 }) in
    if recv_packetnum == c.orecv_packetnum
    then elim answer [ none ↦ none | some (c', packet) ↦ some (c', 0, some packet) ]
    else some (c, 1, none)

-- `memcpy(connection->req_packets + i, &temp, 4 * number)` for each requested number: the word
-- itself and the `number - 1` words that follow the variable on the stack. `none` is a write
-- beyond the 15 words of `req_packets`.
unfoldable pub copy_loop : List ℕ → List ℕ → ℕ → ℕ → List ℕ → Option (List ℕ)
copy_loop stack_words [] i number words = some words
copy_loop stack_words (temp ∷ requests) i number words =
    let rest =
      copy_loop stack_words requests (i + 1) number
        (take i words ++ (temp ∷ take (number - 1) stack_words ++ drop (i + number) words)) in
    if ltb buffer_packet_num (i + number) then none else rest

abbrev pub comp_counter : Connection → ℕ → ℕ
comp_counter c counter = sub8 counter c.recv_counter

-- The test of `handle_SYNC3`.
unfoldable pub sync3_is_valid : Connection → ℕ → ℕ → ℕ → Bool
sync3_is_valid c counter recv_packetnum sent_packetnum =
    leb (sub32 recv_packetnum c.orecv_packetnum) buffer_packet_num
    && leb (sub32 sent_packetnum c.osent_packetnum) buffer_packet_num
    && ltb (comp_counter c counter) 10
    && not (comp_counter c counter == 0)

abbrev pub accept_sync3 : ℕ → Connection → ℕ → ℕ → ℕ → ℕ → List ℕ → Connection
accept_sync3 now c counter recv_packetnum sent_packetnum number words = record c {
  orecv_packetnum = recv_packetnum;
  osent_packetnum = sent_packetnum;
  successful_sent = recv_packetnum;
  last_recv_sync = now;
  recv_counter = counter;
  send_counter = add8 c.send_counter 1;
  req_packets = words;
  num_req_paquets = number;
}

-- `handle_SYNC3`, from the numbers that the packet asks for.
unfoldable pub handle_sync3 : List ℕ → ℕ → Connection → ℕ → ℕ → ℕ → List ℕ → Option (Connection × ℕ)
unfolding copy_loop
handle_sync3 stack_words now c counter recv_packetnum sent_packetnum requests =
    let copied = copy_loop stack_words requests 0 (length requests) c.req_packets in
    let accept = accept_sync3 now c counter recv_packetnum sent_packetnum (length requests) in
    if sync3_is_valid c counter recv_packetnum sent_packetnum
    then elim copied [ none ↦ none | some words ↦ some (accept words, 0) ]
    else some (c, 1)
