-- ===== src/Lossless.antt =====
-- toxcore/Lossless_UDP.c and Lossless_UDP.h: ordered, reliable packets over UDP.
-- This file holds the data model. Counters are `uint32_t` values with their wrap written out; a
-- connection id is an `Option ℕ`, `none` standing for every negative one.
pub mod Conn
pub mod Table
pub mod Handle
pub mod Rates
pub mod Timers
use project_tox_core.Prelude.{ℕ, List, Option, replicate, some, none, get_elem?}
use project_tox_core.Network.{IpPort, zero_ip_port}

abbrev pub max_data_size : ℕ
max_data_size = 1024

abbrev pub max_queue_num : ℕ
max_queue_num = 16

abbrev pub buffer_packet_num : ℕ
buffer_packet_num = 15

abbrev pub connexion_timeout : ℕ
connexion_timeout = 5

abbrev pub initial_sync_rate : ℕ
initial_sync_rate = 2

abbrev pub data_sync_rate : ℕ
data_sync_rate = 30

-- `NET_PACKET_HANDSHAKE`, `NET_PACKET_SYNC` and `NET_PACKET_DATA`
abbrev pub packet_handshake : ℕ
packet_handshake = 16

abbrev pub packet_sync : ℕ
packet_sync = 17

abbrev pub packet_data : ℕ
packet_data = 18

-- `Data`: an array of 1024 bytes and how many of them are in use.
pub record Slot : Type 0 where
  pub bytes : List ℕ
  pub size : ℕ

abbrev pub zero_slot : Slot
zero_slot = record { bytes = replicate max_data_size 0; size = 0 }

pub record Connection : Type 0 where
  pub ip_port : IpPort
  pub status : ℕ
  pub inbound : ℕ
  pub sync_rate : ℕ
  pub data_rate : ℕ
  pub last_sync : ℕ
  pub last_sent : ℕ
  pub last_recv_sync : ℕ
  pub last_recvdata : ℕ
  pub killat : ℕ
  pub sendbuffer : List Slot
  pub recvbuffer : List Slot
  pub handshake_id1 : ℕ
  pub handshake_id2 : ℕ
  pub recv_packetnum : ℕ
  pub orecv_packetnum : ℕ
  pub sent_packetnum : ℕ
  pub osent_packetnum : ℕ
  pub sendbuff_packetnum : ℕ
  pub successful_sent : ℕ
  pub successful_read : ℕ
  pub req_packets : List ℕ
  pub num_req_paquets : ℕ
  pub recv_counter : ℕ
  pub send_counter : ℕ
  pub timeout : ℕ

-- What `memset(connection, 0, sizeof(Connection))` leaves.
unfoldable pub zero_connection : Connection
zero_connection = record {
  ip_port = zero_ip_port;
  status = 0;
  inbound = 0;
  sync_rate = 0;
  data_rate = 0;
  last_sync = 0;
  last_sent = 0;
  last_recv_sync = 0;
  last_recvdata = 0;
  killat = 0;
  sendbuffer = replicate max_queue_num zero_slot;
  recvbuffer = replicate max_queue_num zero_slot;
  handshake_id1 = 0;
  handshake_id2 = 0;
  recv_packetnum = 0;
  orecv_packetnum = 0;
  sent_packetnum = 0;
  osent_packetnum = 0;
  sendbuff_packetnum = 0;
  successful_sent = 0;
  successful_read = 0;
  req_packets = replicate buffer_packet_num 0;
  num_req_paquets = 0;
  recv_counter = 0;
  send_counter = 0;
  timeout = 0;
}

-- `Lossless_UDP`. The table of random numbers is a function of its two indices; `drawn` counts
-- the calls of `random_int` so far.
pub record LosslessUdp : Type 0 where
  pub connections : List Connection
  pub randtable : ℕ → ℕ → ℕ
  pub drawn : ℕ

abbrev pub ConnectionId : Type 0
ConnectionId = Option ℕ

-- `tox_array_get` behind the test `connection_id >= 0 && connection_id < len`
abbrev pub connection_at : LosslessUdp → ConnectionId → Option Connection
connection_at ludp none = none
connection_at ludp (some i) = get_elem? ludp.connections i
