-- ===== src/Tests/Send.antt =====
-- Examples for the sending side of a connection.
use project_tox_core.Prelude.{
  ◌+◌, ◌*◌, ◌-◌, ◌^◌, ◌≤◌, ◌≡◌, ◌≢◌, ◌⊎◌, ◌↔◌, refl, arith, none, some, [], ◌∷◌, ◌++◌, drop, sub32,
}
use project_tox_core.Lossless.{Connection, zero_connection, buffer_packet_num}
use project_tox_core.Lossless.Conn.{
  write_packet, handle_sync3, sendqueue, copy_loop, sync3_is_valid, accept_sync3,
}
use project_tox_core.Lossless.Conn.Send.{IsSendable, IsRefused, pending, write_packet_refines}
use project_tox_core.Lossless.Conn.Ack.{handle_sync3_acknowledges, over_acknowledged}
use project_tox_core.Lossless.Timers.{adjust_rate, data_due}
use project_tox_core.Lossless.Rates.{adjusted_rate_faults_iff}
use project_tox_core.Tests.Sample.{confirmed}

confirmed-IsSendable : IsSendable confirmed
unfolding zero_connection
confirmed-IsSendable = record {
  slots = refl;
  top_word = omega arith;
  acked_word = omega arith;
  bounded = omega arith;
}

write_packet_refines_example :
    let (c', ret) = write_packet confirmed (1 ∷ 2 ∷ []) in
    IsSendable c'
    × ((IsRefused confirmed (1 ∷ 2 ∷ []) × (ret ≡ 0) × (c' ≡ confirmed))
        ⊎ (¬ IsRefused confirmed (1 ∷ 2 ∷ [])
            × (ret ≡ 1)
            × (pending c' ≡ pending confirmed ++ (1 ∷ 2 ∷ []) ∷ [])))
write_packet_refines_example = write_packet_refines confirmed (1 ∷ 2 ∷ []) confirmed-IsSendable

-- Two packets wait.
abbrev waiting : Connection
waiting = record confirmed { sendbuff_packetnum = 42; sent_packetnum = 42 }

waiting-IsSendable : IsSendable waiting
unfolding zero_connection
waiting-IsSendable = record {
  slots = refl;
  top_word = omega arith;
  acked_word = omega arith;
  bounded = omega arith;
}

-- The other side has packet 40.
abbrev acked : Connection
acked = accept_sync3 9 waiting 1 41 70 0 waiting.req_packets

waiting-acked : handle_sync3 [] 9 waiting 1 41 70 [] ≡ some (acked, 0)
unfolding handle_sync3 copy_loop sync3_is_valid zero_connection
waiting-acked = refl

one_acked :
    sub32 41 waiting.successful_sent ≤ sub32 waiting.sendbuff_packetnum waiting.successful_sent
unfolding zero_connection
one_acked = omega arith

handle_sync3_acknowledges_example :
    IsSendable acked × (pending acked ≡ drop (sub32 41 waiting.successful_sent) (pending waiting))
handle_sync3_acknowledges_example =
    handle_sync3_acknowledges [] 9 waiting acked 1 41 70 [] waiting-IsSendable (omega arith)
      one_acked waiting-acked

-- The other side says that it has packets 40 to 42, of which none was written.
abbrev misled : Connection
misled = accept_sync3 9 confirmed 1 43 70 0 confirmed.req_packets

confirmed-misled : handle_sync3 [] 9 confirmed 1 43 70 [] ≡ some (misled, 0)
unfolding handle_sync3 copy_loop sync3_is_valid zero_connection
confirmed-misled = refl

over_acknowledged_example :
    (2 ^ 32 - buffer_packet_num ≤ sendqueue misled) × (write_packet misled (1 ∷ []) ≡ (misled, 0))
unfolding zero_connection
over_acknowledged_example =
    over_acknowledged [] 9 confirmed misled 1 43 70 [] (1 ∷ []) (omega arith) (omega arith)
      (omega arith) (omega arith) confirmed-misled

-- All 15 packets that wait were asked for.
abbrev pressed : Connection
pressed = record confirmed { sendbuff_packetnum = 55; sent_packetnum = 55; num_req_paquets = 15 }

pressed-waits : sendqueue pressed ≢ 0
unfolding sendqueue zero_connection
pressed-waits = omega arith

adjusted_rate_faults_iff_example :
    ((adjust_rate 800 pressed).data_rate + 10 * pressed.num_req_paquets ≡ 150)
    × ((data_due 900 (adjust_rate 800 pressed) ≡ none)
        ↔ (pressed.num_req_paquets ≡ buffer_packet_num))
adjusted_rate_faults_iff_example =
    adjusted_rate_faults_iff 800 900 pressed refl pressed-waits (omega arith)
