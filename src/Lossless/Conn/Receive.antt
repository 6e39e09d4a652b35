-- ===== src/Lossless/Conn/Receive.antt =====
-- The receive buffer of toxcore/Lossless_UDP.c against the stream of packets that the peer wrote.
use project_tox_core.Prelude.{
  ℕ, zero, suc, ◌+◌, ◌%◌, ◌^◌, ◌≤◌, ◌<◌, ◌≡◌, refl, ap, sym, ◌∙◌, ◌≢◌, subst, Bool, true, false,
  List, arith, ◌==◌, ltb, if◌then◌else◌, length, get_or, set, take, add32, sub32, get_or-set_self,
  get_or-set_ne, length-set, take-append, Bool-cases, inl, inr, ◌⊎◌, dec_lt, ℕ_discrete,
}
use project_tox_core.Lossless.{
  Slot, zero_slot, Connection, max_data_size, max_queue_num, buffer_packet_num,
}
use project_tox_core.Lossless.Conn.{
  recv_slot, fill_slot, missing_loop, store_loop, advance_loop, add_recv, room,
}

abbrev pub size_at : Connection → ℕ → ℕ
size_at c n = (recv_slot c n).size

-- The slots of the first `e` numbers after the last one read are in use.
abbrev pub FilledTo : Connection → ℕ → Type 0
FilledTo c e = (k : ℕ) → k < e → size_at c (add32 c.successful_read k) ≢ 0

-- The buffer holds, for the 15 numbers from the next one to read, nothing or the peer's packet; it
-- holds all of them up to `recv_packetnum`.
pub record Tracks (stream : ℕ → List ℕ) (c : Connection) : Type 0 where
  pub slots : length c.recvbuffer ≡ max_queue_num
  pub recv_word : c.recv_packetnum < 2 ^ 32
  pub read_word : c.successful_read < 2 ^ 32
  pub bounded : sub32 c.recv_packetnum c.successful_read ≤ buffer_packet_num
  pub filled : FilledTo c (sub32 c.recv_packetnum c.successful_read)
  pub beyond : size_at c (add32 c.successful_read buffer_packet_num) ≡ 0
  pub faithful :
      (k : ℕ)
      → k < buffer_packet_num
      → size_at c (add32 c.successful_read k) ≢ 0
      → let n = add32 c.successful_read k in take (size_at c n) (recv_slot c n).bytes ≡ stream n

pub missing_loop-filled :
    (k i j : ℕ) (c : Connection)
    → length (missing_loop k i c) ≡ 0
    → j < k
    → i < 2 ^ 32
    → size_at c (add32 i j) ≢ 0
unfolding missing_loop
missing_loop-filled zero i j c e h w = absurd (omega arith)
missing_loop-filled (suc k) i zero c e h w =
    let same : add32 i 0 ≡ i = omega arith in rw same (ground arith)
missing_loop-filled (suc k) i (suc j) c e h w =
    let same : add32 i (suc j) ≡ add32 (add32 i 1) j = omega arith in
    rw same (missing_loop-filled k (add32 i 1) j c (ground arith) (omega arith) (omega arith))

FilledTo-extend :
    (c : Connection) (i : ℕ)
    → i < 2 ^ 32
    → c.successful_read < 2 ^ 32
    → sub32 i c.successful_read < buffer_packet_num
    → size_at c i ≢ 0
    → FilledTo c (sub32 i c.successful_read)
    → FilledTo c (sub32 (add32 i 1) c.successful_read)
FilledTo-extend c i wi wr h full f k hk = elim (dec_lt k (sub32 i c.successful_read)) [
  | yes below ↦ f k below
  | no last ↦ let same : add32 c.successful_read k ≡ i = omega arith in rw same full
]

advance_loop_lem :
    (k i last : ℕ) (c : Connection)
    → i < 2 ^ 32
    → last < 2 ^ 32
    → c.successful_read < 2 ^ 32
    → sub32 i c.successful_read + k ≤ buffer_packet_num
    → sub32 last c.successful_read ≤ buffer_packet_num
    → FilledTo c (sub32 i c.successful_read)
    → FilledTo c (sub32 last c.successful_read)
    → let r = advance_loop k i last c in
      (r < 2 ^ 32)
      × (sub32 r c.successful_read ≤ buffer_packet_num)
      × FilledTo c (sub32 r c.successful_read)
unfolding advance_loop
advance_loop_lem zero i last c wi wl wr h hl f fl = (wl, hl, fl)
advance_loop_lem (suc k) i last c wi wl wr h hl f fl = elim (Bool-cases (size_at c i == 0)) [
  | inl empty ↦ rw empty (wl, hl, fl)
  | inr full ↦ rw full (
      advance_loop_lem k (add32 i 1) i c (omega arith) wi wr (omega arith) (omega arith)
        (FilledTo-extend c i wi wr (omega arith) (λ e. ground arith) f) f)
]

-- Storing packet `n` fills its slot, and leaves the other 15 as they are.
abbrev pub stored : ℕ → ℕ → List ℕ → Connection → Connection
stored now n data' c = record c {
  recvbuffer =
      set c.recvbuffer (n % max_queue_num)
        (fill_slot (get_or c.recvbuffer (n % max_queue_num) zero_slot) data');
  last_recvdata = now;
  osent_packetnum =
      if ltb (sub32 n c.osent_packetnum) buffer_packet_num then n else c.osent_packetnum;
}

pub store_loop_lem :
    (k i now n : ℕ) (data' : List ℕ) (c : Connection)
    → i < 2 ^ 32
    → n < 2 ^ 32
    → store_loop k i now n data' c ≡ (if ltb (sub32 n i) k then stored now n data' c else c)
unfolding store_loop
store_loop_lem zero i now n data' c wi wn = ground arith
store_loop_lem (suc k) i now n data' c wi wn = elim (ℕ_discrete i n) [
  | yes e ↦ ground arith
  | no ne ↦ ground (arith, store_loop_lem k (add32 i 1) now n data' c (omega arith) wn)
]

recv_slot-stored_self :
    (now n : ℕ) (data' : List ℕ) (c : Connection)
    → length c.recvbuffer ≡ max_queue_num
    → recv_slot (stored now n data' c) n
      ≡ fill_slot (get_or c.recvbuffer (n % max_queue_num) zero_slot) data'
recv_slot-stored_self now n data' c h =
    get_or-set_self c.recvbuffer (n % max_queue_num) _ zero_slot (omega arith)

recv_slot-stored_ne :
    (now n m : ℕ) (data' : List ℕ) (c : Connection)
    → n % max_queue_num ≢ m % max_queue_num
    → recv_slot (stored now n data' c) m ≡ recv_slot c m
recv_slot-stored_ne now n m data' c h =
    get_or-set_ne c.recvbuffer (n % max_queue_num) (m % max_queue_num) _ zero_slot h

-- A number of the window is the one that was stored, or has its slot as before.
pub stored-cases :
    (now n k : ℕ) (data' : List ℕ) (c : Connection)
    → length c.recvbuffer ≡ max_queue_num
    → n < 2 ^ 32
    → c.successful_read < 2 ^ 32
    → sub32 n c.successful_read < buffer_packet_num
    → k ≤ buffer_packet_num
    → ((k ≢ buffer_packet_num)
        × (n ≡ add32 c.successful_read k)
        × (recv_slot (stored now n data' c) (add32 c.successful_read k)
            ≡ fill_slot (get_or c.recvbuffer (n % max_queue_num) zero_slot) data'))
      ⊎ (recv_slot (stored now n data' c) (add32 c.successful_read k)
          ≡ recv_slot c (add32 c.successful_read k))
stored-cases now n k data' c h wn wr inside hk = elim (ℕ_discrete n (add32 c.successful_read k)) [
  | yes e ↦ inl (omega arith, e, rw (← e) (recv_slot-stored_self now n data' c h))
  | no ne ↦ inr (recv_slot-stored_ne now n (add32 c.successful_read k) data' c (omega arith))
]

pub stored-Tracks :
    (stream : ℕ → List ℕ) (now n : ℕ) (c : Connection)
    → Tracks stream c
    → n < 2 ^ 32
    → length (stream n) ≢ 0
    → sub32 n c.successful_read < buffer_packet_num
    → Tracks stream (stored now n (stream n) c)
stored-Tracks stream now n c t wn some_bytes inside = record {
  slots = length-set c.recvbuffer (n % max_queue_num) _ ∙ t.slots;
  recv_word = t.recv_word;
  read_word = t.read_word;
  bounded = t.bounded;
  filled = λ k hk. elim (cases k (omega arith)) [
    | inl (_, _, e) ↦ subst (λ (s : Slot). s.size ≢ 0) (sym e) some_bytes
    | inr e ↦ subst (λ (s : Slot). s.size ≢ 0) (sym e) (t.filled k hk)
  ];
  beyond = elim (cases buffer_packet_num (omega arith)) [
    | inl (ne, _, _) ↦ absurd (ne refl)
    | inr e ↦ subst (λ (s : Slot). s.size ≡ 0) (sym e) t.beyond
  ];
  faithful = λ k hk full. elim (cases k (omega arith)) [
    | inl (_, here, e) ↦
        subst (λ (s : Slot). take s.size s.bytes ≡ stream (add32 c.successful_read k)) (sym e)
          (take-append (length (stream n)) (stream n) _ refl ∙ ap stream here)
    | inr e ↦
        subst (λ (s : Slot). take s.size s.bytes ≡ stream (add32 c.successful_read k)) (sym e)
          (t.faithful k hk (λ z. full (ap (λ (s : Slot). s.size) e ∙ z)))
  ];
}
  where
    cases :
        (k : ℕ)
        → k ≤ buffer_packet_num
        → ((k ≢ buffer_packet_num)
            × (n ≡ add32 c.successful_read k)
            × (recv_slot (stored now n (stream n) c) (add32 c.successful_read k)
                ≡ fill_slot (get_or c.recvbuffer (n % max_queue_num) zero_slot) (stream n)))
          ⊎ (recv_slot (stored now n (stream n) c) (add32 c.successful_read k)
              ≡ recv_slot c (add32 c.successful_read k))
    cases k hk = stored-cases now n k (stream n) c t.slots wn t.read_word inside hk

advanced-Tracks :
    (stream : ℕ → List ℕ) (c : Connection) (k : ℕ)
    → Tracks stream c
    → k ≡ room c
    → Tracks stream
        (record c { recv_packetnum = advance_loop k c.recv_packetnum c.recv_packetnum c })
advanced-Tracks stream c k t hk =
    let (word, bounded, filled) =
      advance_loop_lem k c.recv_packetnum c.recv_packetnum c t.recv_word t.recv_word t.read_word
        (omega arith) t.bounded t.filled t.filled in
    record {
      slots = t.slots;
      recv_word = word;
      read_word = t.read_word;
      bounded = bounded;
      filled = filled;
      beyond = t.beyond;
      faithful = t.faithful;
    }

-- `add_recv` keeps the receive buffer true to the stream of the peer's packets (`Tracks`),
-- whichever of its packets comes, as long as that packet is not empty and its number is 32 bits
-- wide.
pub add_recv-Tracks :
    (stream : ℕ → List ℕ) (now n : ℕ) (c : Connection)
    → Tracks stream c
    → n < 2 ^ 32
    → length (stream n) ≢ 0
    → Tracks stream (add_recv now c n (stream n)).0
unfolding add_recv
add_recv-Tracks stream now n c t wn some_bytes =
    elim (Bool-cases (ltb max_data_size (length (stream n)))) [
      | inl big ↦ rw big t
      | inr small ↦ rw small (
          subst
            (λ (c' : Connection). Tracks stream (record c' {
              recv_packetnum = advance_loop (room c) c'.recv_packetnum c'.recv_packetnum c';
            }))
            (sym (store_loop_lem (room c) c.recv_packetnum now n (stream n) c t.recv_word wn))
            (kept (ltb (sub32 n c.recv_packetnum) (room c)) refl))
    ]
  where
    kept :
        (b : Bool)
        → ltb (sub32 n c.recv_packetnum) (room c) ≡ b
        → let c' = if b then stored now n (stream n) c else c in
          Tracks stream (record c' {
            recv_packetnum = advance_loop (room c) c'.recv_packetnum c'.recv_packetnum c';
          })
    kept true e =
        advanced-Tracks stream (stored now n (stream n) c) (room c)
          (stored-Tracks stream now n c t wn some_bytes (ground arith)) refl
    kept false e = advanced-Tracks stream c (room c) t refl
