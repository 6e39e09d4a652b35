-- ===== src/Dht.antt =====
-- toxcore/DHT.c and DHT.h: the data model of the distributed hash table.
-- A client id is its 32 bytes. `self`, our key pair, is passed along, as is what a call learns from
-- its surroundings (`Env`). Random numbers are counted by `drawn`, calls of `rand()` by `rand_calls`.
pub mod Toping
pub mod Distance
pub mod Lists
pub mod Packets
pub mod Handlers
pub mod RoundTrip
pub mod Asked
pub mod Exchange
pub mod Lookup
pub mod Friends
pub mod Nat
pub mod Loop
use project_tox_core.Prelude.{ℕ, Bool, List, [], replicate, leb, add64}
use project_tox_core.Network.{IpPort, zero_ip_port}
use project_tox_core.FriendRequests.{Key}
use project_tox_core.Ping.{Ping}

abbrev pub client_id_size : ℕ
client_id_size = 32

abbrev pub max_friend_clients : ℕ
max_friend_clients = 8

abbrev pub lclient_list : ℕ
lclient_list = 32

abbrev pub lsend_nodes_array : ℕ
lsend_nodes_array = 128

abbrev pub max_toping : ℕ
max_toping = 16

abbrev pub bad_node_timeout : ℕ
bad_node_timeout = 70

abbrev pub max_sent_nodes : ℕ
max_sent_nodes = 8

abbrev pub ping_timeout : ℕ
ping_timeout = 5

abbrev pub kill_node_timeout : ℕ
kill_node_timeout = 300

abbrev pub ping_interval : ℕ
ping_interval = 60

abbrev pub get_node_interval : ℕ
get_node_interval = 10

abbrev pub max_punching_ports : ℕ
max_punching_ports = 32

abbrev pub punch_interval : ℕ
punch_interval = 10

abbrev pub time_toping : ℕ
time_toping = 5

-- `Client_data`
pub record ClientData : Type 0 where
  pub client_id : Key
  pub ip_port : IpPort
  pub timestamp : ℕ
  pub last_pinged : ℕ
  pub ret_ip_port : IpPort
  pub ret_timestamp : ℕ

abbrev pub zero_client : ClientData
zero_client = record {
  client_id = replicate client_id_size 0;
  ip_port = zero_ip_port;
  timestamp = 0;
  last_pinged = 0;
  ret_ip_port = zero_ip_port;
  ret_timestamp = 0;
}

-- `DHT_Friend`
pub record DhtFriend : Type 0 where
  pub client_id : Key
  pub client_list : List ClientData
  pub lastgetnode : ℕ
  pub hole_punching : ℕ
  pub punching_index : ℕ
  pub punching_timestamp : ℕ
  pub recv_natping_timestamp : ℕ
  pub natping_id : ℕ
  pub natping_timestamp : ℕ

abbrev pub zero_dht_friend : DhtFriend
zero_dht_friend = record {
  client_id = replicate client_id_size 0;
  client_list = replicate max_friend_clients zero_client;
  lastgetnode = 0;
  hole_punching = 0;
  punching_index = 0;
  punching_timestamp = 0;
  recv_natping_timestamp = 0;
  natping_id = 0;
  natping_timestamp = 0;
}

-- `Node_format`
pub record NodeFormat : Type 0 where
  pub client_id : Key
  pub ip_port : IpPort

-- `Pinged` of DHT.h
pub record Pinged : Type 0 where
  pub ip_port : IpPort
  pub ping_id : ℕ
  pub timestamp : ℕ

-- `DHT`, without the pointer to the encrypted connections
pub record Dht : Type 0 where
  pub close_clientlist : List ClientData
  pub friends_list : List DhtFriend
  pub send_nodes : List Pinged
  pub toping : List NodeFormat
  pub last_toping : ℕ
  pub close_lastgetnodes : ℕ
  pub ping : Ping
  pub drawn : ℕ
  pub rand_calls : ℕ

-- What a call learns: `unix_time()`, the results of `rand()`, whether `realloc` succeeds, and whether
-- `sendpacket` to an address sends all of a packet.
pub record Env : Type 0 where
  pub now : ℕ
  pub rand : ℕ → ℕ
  pub alloc_ok : Bool
  pub send_ok : IpPort → Bool

unfoldable pub is_timeout : ℕ → ℕ → ℕ → Bool
is_timeout time_now timestamp timeout = leb (add64 timestamp timeout) time_now
