-- ===== src/Tests/Receive.antt =====
-- Examples for the receiving side of a connection.
use project_tox_core.Prelude.{
  ℕ, ◌≡◌, ◌≢◌, ◌⊎◌, refl, arith, some, none, Option, true, inr, All, ◌≤◌, List, [], ◌∷◌, length,
  add32, drop, ◌-◌, ◌/◌,
}
use project_tox_core.Lossless.{Connection, zero_connection}
use project_tox_core.Lossless.Conn.{
  add_recv, missing_packets, missing_loop, read_packet, recvqueue, send_sync, byte_at, read_be32,
  sync_valid,
}
use project_tox_core.Lossless.Conn.Receive.{Tracks, add_recv-Tracks}
use project_tox_core.Lossless.Conn.Missing.{missing_packets-Tracks}
use project_tox_core.Lossless.Conn.Read.{read_packet-Tracks}
use project_tox_core.Lossless.Conn.Delivery.{
  Event, arrive, sync_out, sync_in, read, step, run, consecutive, IsWord, Inv,
  run_delivers_in_order,
}
use project_tox_core.Lossless.Conn.Opening.{IsFresh-Inv, IsFresh-Near, opened-Inv}
use project_tox_core.Lossless.Conn.Near.{Near}
use project_tox_core.Lossless.Conn.Send.{IsSendable}
use project_tox_core.Lossless.Conn.Returns.{IsFair, After, FairRun, run_returns}
use project_tox_core.Lossless.Conn.Codec.{sync_packet_round_trip}
use project_tox_core.Lossless.Handle.{read_requests, numbered, shake}
use project_tox_core.Lossless.Table.{incoming, outgoing}
use project_tox_core.Tests.Sample.{env, host, confirmed, letters}

confirmed-Inv : Inv letters confirmed
unfolding zero_connection
confirmed-Inv =
    IsFresh-Inv letters confirmed 70
      (record { slots = refl; recv = refl; read = refl; osent = refl; word = omega arith })

letters_not_empty : (n : ℕ) → length (letters n) ≢ 0
letters_not_empty n = omega arith

opened-Inv_example :
    let accepted = numbered (incoming env host) 40 70 in
    let answered = shake (outgoing env host 40) 70 40 in
    Inv letters accepted
    × IsSendable accepted
    × Inv letters answered
    × IsSendable answered
    × Near accepted
    × Near answered
opened-Inv_example = opened-Inv letters env host 40 70 (omega arith) (omega arith)

add_recv-Tracks_example : Tracks letters (add_recv 5 confirmed 72 (letters 72)).0
add_recv-Tracks_example =
    add_recv-Tracks letters 5 72 confirmed confirmed-Inv.tracks (omega arith) (letters_not_empty 72)

missing_packets-Tracks_example : Tracks letters (missing_packets confirmed).0
missing_packets-Tracks_example =
    missing_packets-Tracks letters confirmed confirmed-Inv.tracks confirmed-Inv.osent_word

read_packet-Tracks_example :
    let (c', size, bytes) = read_packet confirmed in
    Tracks letters c'
    × ((recvqueue confirmed ≡ 0) × (c' ≡ confirmed) × (size ≡ 0) × (bytes ≡ [])
        ⊎ (recvqueue confirmed ≢ 0)
          × (c'.successful_read ≡ add32 confirmed.successful_read 1)
          × (size ≢ 0)
          × (bytes ≡ letters confirmed.successful_read))
read_packet-Tracks_example = read_packet-Tracks letters confirmed confirmed-Inv.tracks

-- The peer has sent packets 70 and 71. Packet 71 comes before packet 70, which we ask for in
-- between, and then both are read.
abbrev later_events : List Event
later_events = arrive 5 71 ∷ sync_out ∷ read ∷ arrive 6 70 ∷ read ∷ read ∷ []

abbrev events : List Event
events = sync_in [] 4 1 40 72 [] ∷ later_events

confirmed-Near : Near confirmed
unfolding zero_connection
confirmed-Near =
    IsFresh-Near confirmed 70
      (record { slots = refl; recv = refl; read = refl; osent = refl; word = omega arith })

abbrev IsOther : Event → Type 0
IsOther (arrive now n) = Unit {0}
IsOther sync_out = Unit {0}
IsOther (sync_in stack_words now counter recv_num sent_num requests) = ⊥
IsOther read = Unit {0}

other-IsFair : (c : Connection) (e : Event) → IsOther e → IsFair c e
other-IsFair c (arrive now n) h = tt
other-IsFair c sync_out h = tt
other-IsFair c (sync_in stack_words now counter recv_num sent_num requests) h = elim h [ ]
other-IsFair c read h = tt

all_after :
    (r : Option (Connection × List (List ℕ))) (P : Connection → Type 0)
    → ((c : Connection) → P c)
    → After r P
all_after none P h = tt
all_after (some (c, out)) P h = h c

other-FairRun : (c : Connection) (es : List Event) → All IsOther es → FairRun letters c es
other-FairRun c [] h = tt
other-FairRun c (e ∷ es) h = (
  other-IsFair c e h.0,
  all_after (step letters c e) (λ c'. FairRun letters c' es) (λ c'. other-FairRun c' es h.1),
)

events-FairRun : FairRun letters confirmed events
unfolding zero_connection
events-FairRun = (
  inr (omega arith, omega arith),
  all_after (step letters confirmed (sync_in [] 4 1 40 72 []))
      (λ c'. FairRun letters c' later_events)
      (λ c'. other-FairRun c' later_events (tt, (tt, (tt, (tt, (tt, (tt, tt))))))),
)

events-IsWord : All IsWord events
events-IsWord = (omega arith, (omega arith, (tt, (tt, (omega arith, (tt, (tt, tt)))))))

events_run :
    (c' : Connection) × (outs : List (List ℕ)) × (run letters confirmed events ≡ some (c', outs))
    × (outs ≡ consecutive letters confirmed.successful_read (length outs))
events_run =
    run_returns letters confirmed events letters_not_empty confirmed-Inv confirmed-Near
      events-IsWord events-FairRun

run_returns_example :
    (c' : Connection) × (outs : List (List ℕ)) × (run letters confirmed events ≡ some (c', outs))
    × (outs ≡ consecutive letters confirmed.successful_read (length outs))
run_returns_example =
    run_returns letters confirmed events letters_not_empty confirmed-Inv confirmed-Near
      events-IsWord events-FairRun

run_delivers_in_order_example :
    let outs = events_run.1 in
    let c' = events_run.0 in
    (outs ≡ consecutive letters 70 (length outs)) × (c'.successful_read ≡ add32 70 (length outs))
unfolding zero_connection
run_delivers_in_order_example =
    run_delivers_in_order letters confirmed events events_run.0 events_run.1 letters_not_empty
      confirmed-Inv events-IsWord events_run.2

-- The peer has sent packets 70 and 71, and none has come.
abbrev behind : Connection
behind = record confirmed { osent_packetnum = 72 }

sync_packet_round_trip_example :
    (packet : List ℕ) × (send_sync behind ≡ some ((missing_packets behind).0, packet))
    × (length packet ≤ 70)
    × (sync_valid (length packet) ≡ true)
    × (byte_at packet 1 ≡ behind.send_counter)
    × (read_be32 packet 2 ≡ behind.recv_packetnum)
    × (read_be32 packet 6 ≡ behind.sent_packetnum)
    × (read_requests ((length packet - 10) / 4) (drop 10 packet) ≡ (missing_packets behind).1)
unfolding zero_connection missing_packets missing_loop recvqueue
sync_packet_round_trip_example =
    sync_packet_round_trip behind (omega arith) (omega arith) (omega arith, (omega arith, tt))
      (omega arith)
