-- ===== src/Lossless/Table.antt =====
-- The table of connections of toxcore/Lossless_UDP.c: finding, opening and closing them, and the
-- table of random numbers behind the handshake ids.
-- `random_int n` is the n-th result of `random_int`. What the surroundings answer during one call
-- is an `Env`. A result `none` of a function that returns an id stands for -1; the `Bool` of the
-- functions that return 0 or -1 is true for 0.
pub mod Full
pub mod Lookup
pub mod Free
pub mod Handshake
use project_tox_core.Prelude.{
  ℕ, zero, suc, ◌+◌, ◌-◌, ◌*◌, ◌/◌, ◌%◌, ◌^◌, bit_xor, Bool, true, false, ◌&&◌, Option, none, some,
  List, [], ◌∷◌, ◌==◌, ltb, if◌then◌else◌, length, get_elem?, get_or, set, add64,
}
use project_tox_core.ToxArray.{tox_array_push, tox_array_pop}
use project_tox_core.Network.{IpPort, zero_ip_port, ip_byte}
use project_tox_core.Lossless.{
  Connection, zero_connection, LosslessUdp, ConnectionId, connection_at, connexion_timeout,
  initial_sync_rate, data_sync_rate, max_queue_num, max_data_size, zero_slot,
}
use project_tox_core.Lossless.Conn

pub record Env : Type 0 where
  -- `current_time()`
  pub now : ℕ
  -- `rand()`
  pub rand : ℕ
  -- does `realloc` succeed
  pub alloc_ok : Bool
  -- the byte in memory where the status of the connection behind the last one would stand
  pub beyond : ℕ

-- `source.uint8[i]` for `i` below 6
abbrev pub ip_port_byte : IpPort → ℕ → ℕ
ip_port_byte source i = if ltb i 4 then ip_byte source.ip i else source.port / 256 ^ (i - 4) % 256

abbrev pub write_entry : (ℕ → ℕ → ℕ) → ℕ → ℕ → ℕ → ℕ → ℕ → ℕ
write_entry table i b v i' b' = if (i == i') && (b == b') then v else table i' b'

-- The loop of `getconnection_id` and its kin from index `i` on.
unfoldable pub find_index : (Connection → Bool) → ℕ → List Connection → Option ℕ
find_index test i [] = none
find_index test i (c ∷ cs) = if test c then some i else find_index test (i + 1) cs

abbrev pub is_live_at : IpPort → Connection → Bool
is_live_at ip_port c =
    (c.ip_port.ip == ip_port.ip) && (c.ip_port.port == ip_port.port) && ltb 0 c.status

abbrev pub is_unused : Connection → Bool
is_unused c = c.status == 0

unfoldable pub getconnection_id : LosslessUdp → IpPort → ConnectionId
unfolding find_index
getconnection_id ludp ip_port = find_index (is_live_at ip_port) 0 ludp.connections

-- The first unused place of the array, or a new one at its end.
unfoldable pub find_place : Env → LosslessUdp → Option (List Connection × ℕ)
unfolding find_index tox_array_push
find_place env ludp = elim (find_index is_unused 0 ludp.connections) [
  | some i ↦ some (ludp.connections, i)
  | none ↦ elim (tox_array_push env.alloc_ok ludp.connections zero_connection) [
    | none ↦ none
    | some cs ↦ some (cs, length cs - 1)
  ]
]

abbrev pub random_timeout : Env → ℕ
random_timeout env = connexion_timeout + env.rand % connexion_timeout

abbrev pub outgoing : Env → IpPort → ℕ → Connection
outgoing env ip_port handshake_id1 = record zero_connection {
  ip_port = ip_port;
  status = 1;
  handshake_id1 = handshake_id1;
  sent_packetnum = handshake_id1;
  sendbuff_packetnum = handshake_id1;
  successful_sent = handshake_id1;
  sync_rate = initial_sync_rate;
  data_rate = data_sync_rate;
  last_recv_sync = env.now;
  last_sent = env.now;
  killat = 2 ^ 64 - 1;
  timeout = random_timeout env;
}

abbrev pub incoming : Env → IpPort → Connection
incoming env ip_port = record zero_connection {
  ip_port = ip_port;
  status = 2;
  inbound = 2;
  sync_rate = initial_sync_rate;
  data_rate = data_sync_rate;
  last_recv_sync = env.now;
  last_sent = env.now;
  send_counter = 127;
  timeout = random_timeout env;
  killat = add64 env.now (1000000 * random_timeout env);
}

-- The rest of `new_inconnection`, from the place that was found.
unfoldable pub accept_at :
    Env → LosslessUdp → IpPort → Option (List Connection × ℕ) → LosslessUdp × ConnectionId
accept_at env ludp ip_port none = (ludp, none)
accept_at env ludp ip_port (some (cs, i)) =
    (record ludp { connections = set cs i (incoming env ip_port) }, some i)

unfoldable pub new_inconnection : Env → LosslessUdp → IpPort → LosslessUdp × ConnectionId
unfolding getconnection_id find_place accept_at
new_inconnection env ludp ip_port = elim (getconnection_id ludp ip_port) [
  | some id ↦ (ludp, none)
  | none ↦ accept_at env ludp ip_port (find_place env ludp)
]

abbrev pub is_new_incoming : Connection → Bool
is_new_incoming c = c.inbound == 2

unfoldable pub incoming_connection : LosslessUdp → LosslessUdp × ConnectionId
unfolding find_index
incoming_connection ludp = elim (find_index is_new_incoming 0 ludp.connections) [
  | none ↦ (ludp, none)
  | some i ↦ (
    record ludp {
      connections =
          set ludp.connections i
            (record (get_or ludp.connections i zero_connection) { inbound = 1 });
    },
    some i,
  )
]

-- The loop of `free_connections` looks at the element with number `i`, not `i - 1`: first at the
-- one behind the last, and never at the first.
unfoldable pub free_loop : ℕ → List Connection → ℕ → ℕ
free_loop beyond cs zero = 0
free_loop beyond cs (suc i) =
    elim ((if ltb (suc i) (length cs) then (get_or cs (suc i) zero_connection).status else beyond)
      == 0) [ true ↦ free_loop beyond cs i | false ↦ suc i ]

unfoldable pub free_connections : Env → List Connection → List Connection
unfolding free_loop tox_array_pop
free_connections env cs =
    let i = free_loop env.beyond cs (length cs) in
    if length cs == i then cs else tox_array_pop env.alloc_ok cs (length cs - i)

unfoldable pub kill_connection_in : Env → LosslessUdp → ConnectionId → ℕ → LosslessUdp × Bool
kill_connection_in env ludp none seconds = (ludp, false)
kill_connection_in env ludp (some i) seconds = elim (get_elem? ludp.connections i) [
  | none ↦ (ludp, false)
  | some c ↦
      if ltb 0 c.status
      then (
        record ludp {
          connections =
              set ludp.connections i (record c { killat = add64 env.now (1000000 * seconds) });
        },
        true,
      )
      else (ludp, false)
]

unfoldable pub is_connected : LosslessUdp → ConnectionId → ℕ
is_connected ludp id = elim (connection_at ludp id) [ none ↦ 0 | some c ↦ c.status ]

unfoldable pub connection_ip : LosslessUdp → ConnectionId → IpPort
connection_ip ludp id = elim (connection_at ludp id) [ none ↦ zero_ip_port | some c ↦ c.ip_port ]

module _ (random_int : ℕ → ℕ) where
  -- A zero entry of the table is replaced before it is used.
  unfoldable pub fill_entry : LosslessUdp → ℕ → ℕ → LosslessUdp
  fill_entry ludp i b =
      if ludp.randtable i b == 0
      then record ludp {
        randtable = write_entry ludp.randtable i b (random_int ludp.drawn);
        drawn = ludp.drawn + 1;
      }
      else ludp

  -- The loop of `handshake_id` with `k` rounds left.
  unfoldable pub handshake_loop : ℕ → ℕ → ℕ → LosslessUdp → IpPort → LosslessUdp × ℕ
  unfolding fill_entry
  handshake_loop zero i id ludp source = (ludp, id)
  handshake_loop (suc k) i id ludp source =
      let b = ip_port_byte source i in
      let ludp' = fill_entry ludp i b in
      handshake_loop k (i + 1) (bit_xor id (ludp'.randtable i b)) ludp' source

  unfoldable pub handshake_id : LosslessUdp → IpPort → LosslessUdp × ℕ
  handshake_id ludp source =
      let (ludp', id) = handshake_loop 6 0 0 ludp source in (ludp', if id == 0 then 1 else id)

  unfoldable pub change_handshake : LosslessUdp → IpPort → LosslessUdp
  change_handshake ludp source =
      let r = random_int ludp.drawn % 4 in
      record ludp {
        randtable =
            write_entry ludp.randtable r (ip_port_byte source r) (random_int (ludp.drawn + 1));
        drawn = ludp.drawn + 2;
      }

  -- The rest of `new_connection`, from the place that was found.
  unfoldable pub connect_at :
      Env → LosslessUdp → IpPort → Option (List Connection × ℕ) → LosslessUdp × ConnectionId
  unfolding handshake_id
  connect_at env ludp ip_port none = (ludp, none)
  connect_at env ludp ip_port (some (cs, i)) =
      let (ludp', id1) = handshake_id ludp ip_port in
      (record ludp' { connections = set cs i (outgoing env ip_port id1) }, some i)

  unfoldable pub new_connection : Env → LosslessUdp → IpPort → LosslessUdp × ConnectionId
  unfolding getconnection_id find_place connect_at
  new_connection env ludp ip_port = elim (getconnection_id ludp ip_port) [
    | some id ↦ (ludp, some id)
    | none ↦ connect_at env ludp ip_port (find_place env ludp)
  ]

  unfoldable pub kill_connection : Env → LosslessUdp → ConnectionId → LosslessUdp × Bool
  unfolding change_handshake free_connections
  kill_connection env ludp none = (ludp, false)
  kill_connection env ludp (some i) = elim (get_elem? ludp.connections i) [
    | none ↦ (ludp, false)
    | some c ↦
        let changed = change_handshake ludp c.ip_port in
        if ltb 0 c.status
        then (
          record changed {
            connections = free_connections env (set ludp.connections i zero_connection);
          },
          true,
        )
        else (ludp, false)
  ]
