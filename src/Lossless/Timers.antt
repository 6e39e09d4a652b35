-- ===== src/Lossless/Timers.antt =====
-- The main loop of toxcore/Lossless_UDP.c: `do_new`, `do_SYNC`, `do_data` and `adjust_rates`.
-- Each walks over the connections by their number; `fuel` is the number of connections at its
-- start, which `kill_connection` can only make smaller. `none` is the division by a rate of 0, or
-- the reach outside an array of `send_SYNC`.
use project_tox_core.Prelude.{
  ℕ, zero, suc, ◌+◌, ◌-◌, ◌*◌, ◌/◌, ◌%◌, ◌^◌, Bool, true, false, not, ◌&&◌, ◌||◌, Option, none,
  some, List, [], ◌∷◌, ◌++◌, ◌==◌, ltb, leb, if◌then◌else◌, length, get_elem?, add64,
}
use project_tox_core.Lossless.{Connection, LosslessUdp, buffer_packet_num, initial_sync_rate}
use project_tox_core.Lossless.Conn
use project_tox_core.Lossless.Conn.{handshake_packet, send_sync, send_data}
use project_tox_core.Lossless.Table.{Env, kill_connection}
use project_tox_core.Lossless.Handle.{Packet, put}

abbrev pub max_sync_rate : ℕ
max_sync_rate = 10

-- `t + 1000000 / rate <= now`
abbrev pub is_due : ℕ → ℕ → ℕ → Bool
is_due t rate now = leb (add64 t (1000000 / rate)) now

-- The first two steps of a round of `do_new`: ask again, and mark what has timed out.
unfoldable pub renew : ℕ → Connection → Connection × List Packet
renew now c =
    let asks = (c.status == 1) && is_due c.last_sent c.sync_rate now in
    let c1 = if asks then record c { last_sent = now } else c in
    let c2 =
      if ltb 0 c1.status
        && ltb (add64 c1.last_recv_sync (c1.timeout * 1000000)) now
        && not (c1.status == 4)
      then record c1 { status = 4 }
      else c1 in
    (c2, if asks then (c.ip_port, handshake_packet c.handshake_id1 0) ∷ [] else [])

-- `do_SYNC` at one connection.
unfoldable pub sync_due : ℕ → Connection → Option (Connection × List Packet)
sync_due now c =
    let built = send_sync c in
    if ((c.status == 2) || (c.status == 3)) && is_due c.last_sync c.sync_rate now
    then elim built [
      | none ↦ none
      | some (c', packet) ↦ some (record c' { last_sync = now }, (c.ip_port, packet) ∷ [])
    ]
    else some (c, [])

-- The inner loop of `do_data`, from time `j` in steps of `period`.
unfoldable pub send_loop : ℕ → ℕ → ℕ → ℕ → Connection → Connection × List Packet
send_loop zero j period now c = (c, [])
send_loop (suc fuel) j period now c = elim (ltb j now) [
  | false ↦ (c, [])
  | true ↦
      let (c1, packet) = send_data c in
      let (c2, packets) = send_loop fuel (j + period) period now c1 in
      (c2, elim packet [ none ↦ packets | some p ↦ (c.ip_port, p) ∷ packets ])
]

-- `do_data` at one connection.
unfoldable pub data_due : ℕ → Connection → Option (Connection × List Packet)
unfolding send_loop
data_due now c =
    let (c', packets) = send_loop (now - c.last_sent) c.last_sent (1000000 / c.data_rate) now c in
    if (c.status == 3) && not (Conn.sendqueue c == 0)
    then (if c.data_rate == 0
        then none
        else if is_due c.last_sent c.data_rate now
        then some (record c' { last_sent = now }, packets)
        else some (c, []))
    else some (c, [])

-- `adjust_rates` at one connection.
unfoldable pub adjust_rate : ℕ → Connection → Connection
adjust_rate now c =
    let c1 =
      if (c.status == 1) || (c.status == 2) then record c { sync_rate = max_sync_rate } else c in
    if not (c1.status == 3)
    then c1
    else if not (Conn.sendqueue c1 == 0)
    then record c1 {
      data_rate =
          (buffer_packet_num + 2 ^ 32 - c1.num_req_paquets) % 2 ^ 32 * max_sync_rate % 2 ^ 16;
      sync_rate = max_sync_rate;
    }
    else if ltb now (add64 c1.last_recvdata 1000000)
    then record c1 { sync_rate = max_sync_rate }
    else record c1 { sync_rate = initial_sync_rate }

unfoldable pub sync_all : ℕ → List Connection → Option (List Connection × List Packet)
unfolding sync_due
sync_all now [] = some ([], [])
sync_all now (c ∷ cs) = elim (sync_due now c) [
  | none ↦ none
  | some (c', out) ↦ elim (sync_all now cs) [
    | none ↦ none
    | some (cs', outs) ↦ some (c' ∷ cs', out ++ outs)
  ]
]

unfoldable pub data_all : ℕ → List Connection → Option (List Connection × List Packet)
unfolding data_due
data_all now [] = some ([], [])
data_all now (c ∷ cs) = elim (data_due now c) [
  | none ↦ none
  | some (c', out) ↦ elim (data_all now cs) [
    | none ↦ none
    | some (cs', outs) ↦ some (c' ∷ cs', out ++ outs)
  ]
]

unfoldable pub adjust_all : ℕ → List Connection → List Connection
unfolding adjust_rate
adjust_all now [] = []
adjust_all now (c ∷ cs) = adjust_rate now c ∷ adjust_all now cs

module _ (random_int : ℕ → ℕ) where
  -- `do_new` from number `i` on.
  unfoldable pub new_loop : ℕ → ℕ → Env → LosslessUdp → LosslessUdp × List Packet
  unfolding renew kill_connection
  new_loop zero i env ludp = (ludp, [])
  new_loop (suc fuel) i env ludp = elim (get_elem? ludp.connections i) [
    | none ↦ (ludp, [])
    | some c ↦
        let (c', out) = renew env.now c in
        let ludp1 = put ludp i c' in
        let ludp2 =
          if ltb 0 c'.status && ltb c'.killat env.now
          then (kill_connection random_int env ludp1 (some i)).0
          else ludp1 in
        let (ludp3, outs) = new_loop fuel (i + 1) env ludp2 in (ludp3, out ++ outs)
  ]

  unfoldable pub do_lossless_udp : Env → LosslessUdp → Option (LosslessUdp × List Packet)
  unfolding new_loop sync_all data_all adjust_all
  do_lossless_udp env ludp =
      let (ludp1, out1) = new_loop (length ludp.connections) 0 env ludp in
      elim (sync_all env.now ludp1.connections) [
        | none ↦ none
        | some (cs2, out2) ↦ elim (data_all env.now cs2) [
          | none ↦ none
          | some (cs3, out3) ↦
              some (record ludp1 { connections = adjust_all env.now cs3 }, out1 ++ (out2 ++ out3))
        ]
      ]
