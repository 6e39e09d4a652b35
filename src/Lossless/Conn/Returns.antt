-- ===== src/Lossless/Conn/Returns.antt =====
-- Runs of a connection of toxcore/Lossless_UDP.c on which the other side keeps to its own window.
use project_tox_core.Prelude.{
  ℕ, zero, suc, ◌^◌, ◌≤◌, ◌<◌, ◌≡◌, ◌≢◌, ◌⊎◌, refl, ap, sym, subst, Bool, true, false, Option, none,
  some, List, [], ◌∷◌, ◌++◌, arith, ltb, if◌then◌else◌, length, add32, sub32, Option-cases,
  Bool-cases, inl, inr, All,
}
use project_tox_core.Lossless.{Connection, max_data_size, buffer_packet_num}
use project_tox_core.Lossless.Conn.{
  sync3_is_valid, missing_loop, missing_packets, sync_packet, send_sync, advance_loop, add_recv,
  room,
}
use project_tox_core.Lossless.Conn.Receive.{stored, stored-Tracks, store_loop_lem}
use project_tox_core.Lossless.Conn.Delivery.{
  Event, arrive, sync_out, sync_in, read, IsWord, after_sync, sent_sync, then_run, step, run, Inv,
  Ensures, step-Ensures, consecutive, run_delivers_in_order,
}
use project_tox_core.Lossless.Conn.Sync.{
  copied, handle_sync3-refused, handle_sync3-fault, handle_sync3-accepted,
}
use project_tox_core.Lossless.Conn.Overrun.{handle_sync3_overrun_iff}
use project_tox_core.Lossless.Conn.Near.{
  Near, advanced-Near, stored-Near, accepted-Near, missing_packets-Near, read_packet-Near,
}

-- A SYNC packet that passes the test asks for at most 8 packets, and its sender has sent at most 15
-- packets more than we have without a gap, as many as its own queue holds.
abbrev pub IsFair : Connection → Event → Type 0
IsFair c (arrive now n) = Unit {0}
IsFair c sync_out = Unit {0}
IsFair c (sync_in stack_words now counter recv_num sent_num requests) =
    (sync3_is_valid c counter recv_num sent_num ≡ false)
    ⊎ (length requests ≤ 8) × (sub32 sent_num c.recv_packetnum ≤ buffer_packet_num)
IsFair c read = Unit {0}

abbrev pub After : Option (Connection × List (List ℕ)) → (Connection → Type 0) → Type 0
After none P = Unit {0}
After (some (c, out)) P = P c

-- Each event is fair to the connection as it is by then.
abbrev pub FairRun : (ℕ → List ℕ) → Connection → List Event → Type 0
FairRun stream c [] = Unit {0}
FairRun stream c (e ∷ es) = IsFair c e × After (step stream c e) (λ c'. FairRun stream c' es)

length-missing_loop_le : (k i : ℕ) (c : Connection) → length (missing_loop k i c) ≤ k
unfolding missing_loop
length-missing_loop_le zero i c = omega arith
length-missing_loop_le (suc k) i c = ground (arith, length-missing_loop_le k (add32 i 1) c)

few_missing : (c : Connection) → Near c → length (missing_packets c).1 ≤ buffer_packet_num
unfolding missing_packets
few_missing c h =
    let rounds = sub32 c.osent_packetnum c.recv_packetnum in
    let near = h.ahead in ground (arith, length-missing_loop_le rounds c.recv_packetnum c, near)

send_sync-some :
    (c : Connection)
    → Near c
    → send_sync c ≡ some ((missing_packets c).0, sync_packet c (missing_packets c).1)
unfolding send_sync
send_sync-some c h =
    let few = few_missing c h in
    let fits : ltb buffer_packet_num (length (missing_packets c).1) ≡ false = ground arith in
    rw (fits, send_sync) refl

stored-Inv :
    (stream : ℕ → List ℕ) (now n : ℕ) (c : Connection)
    → Inv stream c
    → n < 2 ^ 32
    → length (stream n) ≢ 0
    → sub32 n c.recv_packetnum < room c
    → Inv stream (stored now n (stream n) c)
stored-Inv stream now n c v wn some_bytes inside =
    let wr = v.tracks.recv_word in
    let ws = v.tracks.read_word in
    let few = v.tracks.bounded in
    let wo = v.osent_word in
    record {
      tracks = stored-Tracks stream now n c v.tracks wn some_bytes (omega arith);
      osent_word = ground arith;
    }

add_recv-Near :
    (stream : ℕ → List ℕ) (now n : ℕ) (c : Connection)
    → Inv stream c
    → Near c
    → n < 2 ^ 32
    → length (stream n) ≢ 0
    → Near (add_recv now c n (stream n)).0
unfolding add_recv
add_recv-Near stream now n c v h wn some_bytes =
    elim (Bool-cases (ltb max_data_size (length (stream n)))) [
      | inl big ↦ rw big h
      | inr small ↦ rw small (
          subst
            (λ (c' : Connection). Near (record c' {
              recv_packetnum = advance_loop (room c) c'.recv_packetnum c'.recv_packetnum c';
            }))
            (sym
              (store_loop_lem (room c) c.recv_packetnum now n (stream n) c v.tracks.recv_word wn))
            (kept (ltb (sub32 n c.recv_packetnum) (room c)) refl))
    ]
  where
    kept :
        (b : Bool)
        → ltb (sub32 n c.recv_packetnum) (room c) ≡ b
        → let c' = if b then stored now n (stream n) c else c in
          Near (record c' {
            recv_packetnum = advance_loop (room c) c'.recv_packetnum c'.recv_packetnum c';
          })
    kept true e =
        let inside : sub32 n c.recv_packetnum < room c = ground arith in
        advanced-Near stream (stored now n (stream n) c)
          (stored-Inv stream now n c v wn some_bytes inside)
          (stored-Near stream now n (stream n) c v h wn inside)
    kept false e = advanced-Near stream c v h

abbrev Goes : Option (Connection × List (List ℕ)) → Type 0
Goes r = (c : Connection) × (out : List (List ℕ)) × (r ≡ some (c, out)) × Near c

step_sync_in :
    (stream : ℕ → List ℕ) (c : Connection) (stack_words : List ℕ)
    (now counter recv_num sent_num : ℕ) (requests : List ℕ)
    → Inv stream c
    → Near c
    → sent_num < 2 ^ 32
    → IsFair c (sync_in stack_words now counter recv_num sent_num requests)
    → Goes (step stream c (sync_in stack_words now counter recv_num sent_num requests))
unfolding step sync3_is_valid
step_sync_in stream c stack_words now counter recv_num sent_num requests v h ws (inl bad) = (
  c,
  [],
  ap after_sync (handle_sync3-refused stack_words now c counter recv_num sent_num requests bad),
  h,
)
step_sync_in stream c stack_words now counter recv_num sent_num requests v h ws (inr (few, near)) =
    elim (Bool-cases (sync3_is_valid c counter recv_num sent_num)) [
      | inr bad ↦ (
        c,
        [],
        ap after_sync
            (handle_sync3-refused stack_words now c counter recv_num sent_num requests bad),
        h,
      )
      | inl ok ↦ elim (Option-cases (copied stack_words now c counter recv_num sent_num requests)) [
        | inl fault ↦
            let (_, many) =
              (handle_sync3_overrun_iff stack_words now c counter recv_num sent_num requests).0 (
                handle_sync3-fault stack_words now c counter recv_num sent_num requests ok fault) in
            absurd (omega arith)
        | inr (words, e) ↦ (
          _,
          [],
          ap after_sync (
              handle_sync3-accepted stack_words now c counter recv_num sent_num requests words ok
                e),
          accepted-Near stream now c counter recv_num sent_num (length requests) words v h ws
              (ground arith) near,
        )
      ]
    ]

step-Goes :
    (stream : ℕ → List ℕ) (c : Connection) (e : Event)
    → ((n : ℕ) → length (stream n) ≢ 0)
    → Inv stream c
    → Near c
    → IsWord e
    → IsFair c e
    → Goes (step stream c e)
unfolding step
step-Goes stream c (arrive now n) some_bytes v h w fair =
    (_, _, refl, add_recv-Near stream now n c v h w (some_bytes n))
step-Goes stream c sync_out some_bytes v h w fair =
    (_, [], ap sent_sync (send_sync-some c h), missing_packets-Near stream c v h)
step-Goes stream c (sync_in stack_words now counter recv_num sent_num requests) some_bytes v h w
      fair =
    step_sync_in stream c stack_words now counter recv_num sent_num requests v h w fair
step-Goes stream c read some_bytes v h w fair = (_, _, refl, read_packet-Near stream c v h)

goes_through :
    (stream : ℕ → List ℕ) (c : Connection) (es : List Event)
    → ((n : ℕ) → length (stream n) ≢ 0)
    → Inv stream c
    → Near c
    → All IsWord es
    → FairRun stream c es
    → (c' : Connection) × (outs : List (List ℕ)) × (run stream c es ≡ some (c', outs))
unfolding run
goes_through stream c [] some_bytes v h w fair = (c, [], refl)
goes_through stream c (e ∷ es) some_bytes v h w fair =
    let (c1, out, first, near) = step-Goes stream c e some_bytes v h w.0 fair.0 in
    let kept = subst (Ensures stream c) first (step-Ensures stream c e some_bytes v w.0) in
    let later = subst (λ r. After r (λ c'. FairRun stream c' es)) first fair.1 in
    let (c2, outs, rest) = goes_through stream c1 es some_bytes kept.inv near w.1 later in
    (c2, out ++ outs, rw (first, run) (ap (then_run out) rest))

-- Take a connection that satisfies `Inv` and is `Near` the other side, and a run of events with
-- numbers of 32 bits, where no packet of the peer is empty. Each SYNC packet that passes the test
-- when it comes in asks for at most 8 packets, and its sender has then sent at most 15 packets more
-- than we have without a gap. Then no event of the run breaks memory: the run goes through to its
-- end, and the application has read the peer's packets in their order from the first unread one on.
pub run_returns :
    (stream : ℕ → List ℕ) (c : Connection) (es : List Event)
    → ((n : ℕ) → length (stream n) ≢ 0)
    → Inv stream c
    → Near c
    → All IsWord es
    → FairRun stream c es
    → (c' : Connection) × (outs : List (List ℕ)) × (run stream c es ≡ some (c', outs))
      × (outs ≡ consecutive stream c.successful_read (length outs))
run_returns stream c es some_bytes v h w fair =
    let (c', outs, e) = goes_through stream c es some_bytes v h w fair in
    (c', outs, e, (run_delivers_in_order stream c es c' outs some_bytes v w e).0)
