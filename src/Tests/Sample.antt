-- ===== src/Tests/Sample.antt =====
-- Small inputs that the examples share.
use project_tox_core.Prelude.{ℕ, ◌+◌, true, List, [], ◌∷◌, replicate}
use project_tox_core.Network.{IpPort}
use project_tox_core.Lossless.{Connection, LosslessUdp}
use project_tox_core.Lossless.Table.{Env, incoming}
use project_tox_core.Lossless.Handle.{numbered}
use project_tox_core.Ping.{new_ping}
use project_tox_core.Dht.{ClientData, NodeFormat, Dht, zero_client, max_toping}
use project_tox_core.Dht as Dht

abbrev pub host : IpPort
host = record { ip = 16777343; port = 33445 }

abbrev pub other_host : IpPort
other_host = record { ip = 16777343; port = 33446 }

abbrev pub env : Env
env = record { now = 1000000; rand = 7; alloc_ok = true; beyond = 0 }

abbrev pub dirty_env : Env
dirty_env = record { now = 1000000; rand = 7; alloc_ok = true; beyond = 3 }

-- A confirmed connection: our numbers start at 40, theirs at 70.
abbrev pub confirmed : Connection
confirmed = record (numbered (incoming env host) 40 70) { status = 3 }

abbrev pub no_connections : LosslessUdp
no_connections = record { connections = []; randtable = λ i b. 0; drawn = 0 }

abbrev pub two_connections : LosslessUdp
two_connections = record no_connections {
  connections = confirmed ∷ record confirmed { ip_port = other_host } ∷ [];
}

-- Numbers that are never 0.
abbrev pub dice : ℕ → ℕ
dice n = n + 5

-- Packet `n` of the peer: two bytes.
abbrev pub letters : ℕ → List ℕ
letters n = 65 ∷ n ∷ []

abbrev pub zero_node : NodeFormat
zero_node = record { client_id = zero_client.client_id; ip_port = zero_client.ip_port }

abbrev pub carol : ClientData
carol = record zero_client { client_id = replicate 32 9; ip_port = other_host; timestamp = 1000 }

abbrev pub small_dht : Dht
small_dht = record {
  close_clientlist = carol ∷ [];
  friends_list = [];
  send_nodes = [];
  toping = replicate max_toping zero_node;
  last_toping = 0;
  close_lastgetnodes = 0;
  ping = new_ping;
  drawn = 0;
  rand_calls = 0;
}

abbrev pub unix : Dht.Env
unix = record { now = 1000; rand = λ n. n; alloc_ok = true; send_ok = λ a. true }
