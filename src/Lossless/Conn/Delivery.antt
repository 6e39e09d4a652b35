-- ===== src/Lossless/Conn/Delivery.antt =====
-- The receiving side of a connection of toxcore/Lossless_UDP.c over any run of events: data packets
-- that arrive in any order, late, twice or not at all, SYNC packets both ways, and reads.
use project_tox_core.Prelude.{
  ℕ, zero, suc, ◌+◌, ◌^◌, ◌<◌, ◌≡◌, refl, ap, ap₂, sym, subst, ◌∙◌, ◌≢◌, length-append, false,
  Option, none, some, List, [], ◌∷◌, ◌++◌, arith, if◌then◌else◌, length, add32, inl, inr, ◌==◌, All,
  Bool-cases, ltb,
}
use native.Mathlib.Nat.{zero-add, suc-add}
use project_tox_core.Lossless.{Connection, buffer_packet_num}
use project_tox_core.Lossless.Conn.{
  add_recv, send_sync, missing_packets, handle_sync3, accept_sync3, read_packet, room,
}
use project_tox_core.Lossless.Conn.Receive.{Tracks, add_recv-Tracks, store_loop_lem}
use project_tox_core.Lossless.Conn.Missing.{missing_packets-Tracks}
use project_tox_core.Lossless.Conn.Sync.{handle_sync3-cases}
use project_tox_core.Lossless.Conn.Read.{read_packet-Tracks}

pub data Event : Type 0 where
  -- packet `n` of the stream comes in at time `now`
  arrive : (now n : ℕ) → Event
  -- we send a SYNC packet
  sync_out : Event
  -- a SYNC packet comes in
  sync_in : (stack_words : List ℕ) (now counter recv_num sent_num : ℕ) (requests : List ℕ) → Event
  -- the application reads
  read : Event

-- The numbers of a packet come from four bytes.
abbrev pub IsWord : Event → Type 0
IsWord (arrive now n) = n < 2 ^ 32
IsWord sync_out = Unit {0}
IsWord (sync_in stack_words now counter recv_num sent_num requests) = sent_num < 2 ^ 32
IsWord read = Unit {0}

abbrev pub after_sync : Option (Connection × ℕ) → Option (Connection × List (List ℕ))
after_sync none = none
after_sync (some (c, status)) = some (c, [])

abbrev pub sent_sync : Option (Connection × List ℕ) → Option (Connection × List (List ℕ))
sent_sync none = none
sent_sync (some (c, packet)) = some (c, [])

-- The first result, and what the second adds behind it.
abbrev pub then_run :
    List (List ℕ) → Option (Connection × List (List ℕ)) → Option (Connection × List (List ℕ))
then_run out none = none
then_run out (some (c, outs)) = some (c, out ++ outs)

-- The state after an event and the packets that the application gets; `none` is a memory error of
-- `handle_SYNC3` or of `send_SYNC`.
unfoldable pub step : (ℕ → List ℕ) → Connection → Event → Option (Connection × List (List ℕ))
step stream c (arrive now n) = some ((add_recv now c n (stream n)).0, [])
step stream c sync_out = sent_sync (send_sync c)
step stream c (sync_in stack_words now counter recv_num sent_num requests) =
    after_sync (handle_sync3 stack_words now c counter recv_num sent_num requests)
step stream c read =
    let (c', size, bytes) = read_packet c in some (c', if size == 0 then [] else bytes ∷ [])

unfoldable pub run : (ℕ → List ℕ) → Connection → List Event → Option (Connection × List (List ℕ))
run stream c [] = some (c, [])
run stream c (e ∷ es) = elim (step stream c e) [
  | none ↦ none
  | some (c', out) ↦ then_run out (run stream c' es)
]

-- `n` packets of the stream from number `start` on.
abbrev pub consecutive : (ℕ → List ℕ) → ℕ → ℕ → List (List ℕ)
consecutive stream start zero = []
consecutive stream start (suc n) = stream start ∷ consecutive stream (add32 start 1) n

pub record Inv (stream : ℕ → List ℕ) (c : Connection) : Type 0 where
  pub tracks : Tracks stream c
  pub osent_word : c.osent_packetnum < 2 ^ 32

osent-add_recv :
    (now n : ℕ) (data' : List ℕ) (c : Connection)
    → c.recv_packetnum < 2 ^ 32
    → n < 2 ^ 32
    → c.osent_packetnum < 2 ^ 32
    → ((add_recv now c n data').0.osent_packetnum < 2 ^ 32)
      × ((add_recv now c n data').0.successful_read ≡ c.successful_read)
unfolding add_recv
osent-add_recv now n data' c wr wn wo =
    ground (arith, store_loop_lem (room c) c.recv_packetnum now n data' c wr wn)

osent-missing_packets :
    (c : Connection)
    → ((missing_packets c).0.osent_packetnum ≡ c.osent_packetnum)
      × ((missing_packets c).0.successful_read ≡ c.successful_read)
unfolding missing_packets
osent-missing_packets c = ground arith

osent-read_packet : (c : Connection) → (read_packet c).0.osent_packetnum ≡ c.osent_packetnum
unfolding read_packet
osent-read_packet c = ground arith

-- What an event may do: keep the invariant, and hand out the next packet or nothing.
pub record StepOf (stream : ℕ → List ℕ) (c c' : Connection) (out : List (List ℕ)) : Type 0 where
  pub inv : Inv stream c'
  pub next : c'.successful_read ≡ add32 c.successful_read (length out)
  pub handed : out ≡ consecutive stream c.successful_read (length out)

abbrev pub Ensures : (ℕ → List ℕ) → Connection → Option (Connection × List (List ℕ)) → Type 0
Ensures stream c none = Unit {0}
Ensures stream c (some (c', out)) = StepOf stream c c' out

still :
    (stream : ℕ → List ℕ) (c c' : Connection)
    → Inv stream c'
    → c'.successful_read ≡ c.successful_read
    → c.successful_read < 2 ^ 32
    → StepOf stream c c' []
still stream c c' v e w = record { inv = v; next = omega arith; handed = refl }

step_sync_in :
    (stream : ℕ → List ℕ) (c : Connection) (stack_words : List ℕ)
    (now counter recv_num sent_num : ℕ) (requests : List ℕ)
    → Inv stream c
    → sent_num < 2 ^ 32
    → Ensures stream c (step stream c (sync_in stack_words now counter recv_num sent_num requests))
unfolding step
step_sync_in stream c stack_words now counter recv_num sent_num requests v w =
    handle_sync3-cases stack_words now c counter recv_num sent_num requests
      (λ r. Ensures stream c (after_sync r)) (still stream c c v refl v.tracks.read_word) tt
      (λ words.
        still stream c (accept_sync3 now c counter recv_num sent_num (length requests) words)
          (record { tracks = moved words; osent_word = w }) refl v.tracks.read_word)
  where
    moved :
        (words : List ℕ)
        → Tracks stream (accept_sync3 now c counter recv_num sent_num (length requests) words)
    moved words = record {
      slots = v.tracks.slots;
      recv_word = v.tracks.recv_word;
      read_word = v.tracks.read_word;
      bounded = v.tracks.bounded;
      filled = v.tracks.filled;
      beyond = v.tracks.beyond;
      faithful = v.tracks.faithful;
    }

step_sync_out :
    (stream : ℕ → List ℕ) (c : Connection)
    → Inv stream c
    → Ensures stream c (step stream c sync_out)
unfolding step send_sync
step_sync_out stream c v =
    elim (Bool-cases (ltb buffer_packet_num (length (missing_packets c).1))) [
      | inl many ↦ rw (many, step, send_sync) tt
      | inr few ↦
          let (same, unread) = osent-missing_packets c in
          rw (few, step, send_sync)
            (still stream c (missing_packets c).0
              (record {
                tracks = missing_packets-Tracks stream c v.tracks v.osent_word;
                osent_word = rw same v.osent_word;
              })
              unread v.tracks.read_word)
    ]

step_read :
    (stream : ℕ → List ℕ) (c : Connection) → Inv stream c → Ensures stream c (step stream c read)
unfolding step
step_read stream c v = elim (read_packet-Tracks stream c v.tracks).1 [
  | inl (_, same, z, _) ↦ rw z (
      still stream c _
        (record {
          tracks = (read_packet-Tracks stream c v.tracks).0;
          osent_word = rw same v.osent_word;
        })
        (ap (λ (c' : Connection). c'.successful_read) same) v.tracks.read_word)
  | inr (_, moved, full, got) ↦
      let more : ((read_packet c).1 == 0) ≡ false = ground arith in
      rw (more, got)
        (record {
          inv = record {
            tracks = (read_packet-Tracks stream c v.tracks).0;
            osent_word = rw (osent-read_packet c) v.osent_word;
          };
          next = moved;
          handed = refl;
        })
]

pub step-Ensures :
    (stream : ℕ → List ℕ) (c : Connection) (e : Event)
    → ((n : ℕ) → length (stream n) ≢ 0)
    → Inv stream c
    → IsWord e
    → Ensures stream c (step stream c e)
unfolding step
step-Ensures stream c (arrive now n) some_bytes v w =
    let (wo, same) = osent-add_recv now n (stream n) c v.tracks.recv_word w v.osent_word in
    still stream c _
      (record {
        tracks = add_recv-Tracks stream now n c v.tracks w (some_bytes n);
        osent_word = wo;
      })
      same v.tracks.read_word
step-Ensures stream c sync_out some_bytes v w = step_sync_out stream c v
step-Ensures stream c (sync_in stack_words now counter recv_num sent_num requests) some_bytes v w =
    step_sync_in stream c stack_words now counter recv_num sent_num requests v w
step-Ensures stream c read some_bytes v w = step_read stream c v

consecutive-append :
    (stream : ℕ → List ℕ) (start m n : ℕ)
    → start < 2 ^ 32
    → consecutive stream start (m + n)
      ≡ consecutive stream start m ++ consecutive stream (add32 start m) n
consecutive-append stream start zero n w =
    let same : add32 start 0 ≡ start = omega arith in rw (zero-add, same) refl
consecutive-append stream start (suc m) n w =
    let same : add32 start (suc m) ≡ add32 (add32 start 1) m = omega arith in
    rw (suc-add, same)
      (ap (λ q. stream start ∷ q) (consecutive-append stream (add32 start 1) m n (omega arith)))

then_run-Ensures :
    (stream : ℕ → List ℕ) (c c' : Connection) (out : List (List ℕ))
    (r : Option (Connection × List (List ℕ)))
    → c.successful_read < 2 ^ 32
    → StepOf stream c c' out
    → Ensures stream c' r
    → Ensures stream c (then_run out r)
then_run-Ensures stream c c' out none w h k = tt
then_run-Ensures stream c c' out (some (c'', outs)) w h k = record {
  inv = k.inv;
  next = omega (arith, k.next, h.next, length-append out outs);
  handed =
      ap₂ ◌++◌ h.handed (k.handed ∙ ap (λ s. consecutive stream s (length outs)) h.next)
      ∙ sym (consecutive-append stream c.successful_read (length out) (length outs) w)
      ∙ ap (consecutive stream c.successful_read) (sym (length-append out outs));
}

run-Ensures :
    (stream : ℕ → List ℕ) (c : Connection) (es : List Event)
    → ((n : ℕ) → length (stream n) ≢ 0)
    → Inv stream c
    → All IsWord es
    → Ensures stream c (run stream c es)
unfolding run
run-Ensures stream c [] some_bytes v w = still stream c c v refl v.tracks.read_word
run-Ensures stream c (e ∷ es) some_bytes v w =
    continue (step stream c e) (step-Ensures stream c e some_bytes v w.0)
      (λ c' v'. run-Ensures stream c' es some_bytes v' w.1)
  where
    continue :
        (r : Option (Connection × List (List ℕ)))
        → Ensures stream c r
        → ((c' : Connection) → Inv stream c' → Ensures stream c' (run stream c' es))
        → Ensures stream c
            (elim r [ none ↦ none | some (c', out) ↦ then_run out (run stream c' es) ])
    continue none h later = tt
    continue (some (c', out)) h later =
        then_run-Ensures stream c c' out (run stream c' es) v.tracks.read_word h (later c' h.inv)

-- Take a run of events that goes through to its end without a memory error of `handle_SYNC3` or
-- `send_SYNC`, on a connection that satisfies `Inv`, where no packet of the peer is empty and the
-- numbers that come in are 32 bits wide. Whatever comes in from
-- the peer and whenever, with every data packet that arrives being the peer's packet of its number,
-- the application reads the peer's packets in their order from the first unread one on: none is
-- lost, doubled or swapped. The numbers may wrap at 2^32.
pub run_delivers_in_order :
    (stream : ℕ → List ℕ) (c : Connection) (es : List Event) (c' : Connection)
    (outs : List (List ℕ))
    → ((n : ℕ) → length (stream n) ≢ 0)
    → Inv stream c
    → All IsWord es
    → run stream c es ≡ some (c', outs)
    → (outs ≡ consecutive stream c.successful_read (length outs))
      × (c'.successful_read ≡ add32 c.successful_read (length outs))
run_delivers_in_order stream c es c' outs some_bytes v w e =
    let done = subst (Ensures stream c) e (run-Ensures stream c es some_bytes v w) in
    (done.handed, done.next)
