-- ===== src/Tests/Table.antt =====
-- Examples for the table of connections.
use project_tox_core.Prelude.{
  ◌≡◌, ◌≢◌, refl, arith, true, some, none, ◌↔◌, ◌⊎◌, get_or, get_elem?, set, if◌then◌else◌,
}
use project_tox_core.Network.{ipp_eq}
use project_tox_core.Lossless.{zero_connection}
use project_tox_core.Lossless.Table.{
  getconnection_id, new_connection, kill_connection, is_connected, handshake_id,
}
use project_tox_core.Lossless.Table.Full.{IsFull}
use project_tox_core.Lossless.Table.Lookup.{getconnection_id-new_connection}
use project_tox_core.Lossless.Table.Free.{
  IsLast, kill_connection-drops_last, kill_connection-keeps_others,
}
use project_tox_core.Lossless.Table.Handshake.{DrawsZero, handshake_id-stable}
use project_tox_core.Tests.Sample.{
  host, other_host, env, dirty_env, no_connections, two_connections, dice,
}

getconnection_id-new_connection_example :
    let (ludp', id) = new_connection dice env no_connections host in
    (getconnection_id ludp' other_host
      ≡ (if ipp_eq host other_host then id else getconnection_id no_connections other_host))
    × ((id ≡ none) ↔ (getconnection_id no_connections host ≡ none) × IsFull env no_connections)
getconnection_id-new_connection_example =
    getconnection_id-new_connection dice env no_connections host other_host

handshake_id-stable_example :
    let (ludp', id) = handshake_id dice no_connections host in
    (id ≢ 0) × ((handshake_id dice ludp' host ≡ (ludp', id)) ⊎ DrawsZero dice no_connections ludp')
handshake_id-stable_example = handshake_id-stable dice no_connections host

second-IsLast : IsLast (set two_connections.connections 0 zero_connection) 1
second-IsLast j above inside = absurd (omega arith)

kill_connection-drops_last_example :
    let (ludp', done) = kill_connection dice env two_connections (some 0) in
    (done ≡ true)
    × (is_connected two_connections (some 1)
        ≡ (get_or two_connections.connections 1 zero_connection).status)
    × (is_connected ludp' (some 1) ≡ 0)
kill_connection-drops_last_example =
    kill_connection-drops_last dice env two_connections 1 0
      (get_or two_connections.connections 1 zero_connection)
      (get_or two_connections.connections 0 zero_connection) refl refl refl (omega arith)
      (omega arith) refl (omega arith) second-IsLast

kill_connection-keeps_others_example :
    let (ludp', done) = kill_connection dice dirty_env two_connections (some 0) in
    (done ≡ true)
    × (is_connected ludp' (some 0) ≡ 0)
    × (get_elem? ludp'.connections 1 ≡ get_elem? two_connections.connections 1)
kill_connection-keeps_others_example =
    kill_connection-keeps_others dice dirty_env two_connections 1 0
      (get_or two_connections.connections 0 zero_connection) (omega arith) refl (omega arith)
      (omega arith)
