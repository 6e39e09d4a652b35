-- ===== src/Lossless/Conn/Read.antt =====
-- `read_packet` of toxcore/Lossless_UDP.c returns the packets of the stream in their order.
use project_tox_core.Prelude.{
  ℕ, ◌+◌, ◌%◌, ◌^◌, ◌<◌, ◌≡◌, refl, ap, sym, ◌∙◌, ◌≢◌, subst, List, [], arith, ◌==◌, if◌then◌else◌,
  get_or, set, take, add32, sub32, get_or-set_self, get_or-set_ne, length-set, Bool-cases, inl, inr,
  ◌⊎◌, dec_lt,
}
use project_tox_core.Lossless.{Slot, zero_slot, Connection, max_queue_num, buffer_packet_num}
use project_tox_core.Lossless.Conn.{recvqueue, recv_slot, read_packet}
use project_tox_core.Lossless.Conn.Receive.{Tracks, size_at}

-- The connection after its next packet was taken out.
abbrev pub taken : Connection → Connection
taken c = record c {
  successful_read = add32 c.successful_read 1;
  recvbuffer =
      set c.recvbuffer (c.successful_read % max_queue_num)
        (record (recv_slot c c.successful_read) { size = 0 });
}

size_at-taken_ne :
    (c : Connection) (m : ℕ)
    → c.successful_read % max_queue_num ≢ m % max_queue_num
    → recv_slot (taken c) m ≡ recv_slot c m
size_at-taken_ne c m h =
    get_or-set_ne c.recvbuffer (c.successful_read % max_queue_num) (m % max_queue_num) _ zero_slot h

pub taken-later :
    (c : Connection) (k : ℕ)
    → c.successful_read < 2 ^ 32
    → k < buffer_packet_num
    → recv_slot (taken c) (add32 (taken c).successful_read k)
      ≡ recv_slot c (add32 c.successful_read (k + 1))
taken-later c k w h =
    let same : add32 (add32 c.successful_read 1) k ≡ add32 c.successful_read (k + 1) =
      omega arith in
    rw same (size_at-taken_ne c (add32 c.successful_read (k + 1)) (omega arith))

taken-Tracks :
    (stream : ℕ → List ℕ) (c : Connection)
    → Tracks stream c
    → sub32 c.recv_packetnum c.successful_read ≢ 0
    → Tracks stream (taken c)
taken-Tracks stream c t some_left = record {
  slots = length-set c.recvbuffer (c.successful_read % max_queue_num) _ ∙ t.slots;
  recv_word = t.recv_word;
  read_word = omega arith;
  bounded = omega arith;
  filled = λ k hk.
      subst (λ (s : Slot). s.size ≢ 0) (sym (taken-later c k t.read_word (omega arith)))
        (t.filled (k + 1) (omega arith));
  beyond =
      let same : add32 (add32 c.successful_read 1) buffer_packet_num % max_queue_num
          ≡ c.successful_read % max_queue_num =
        omega arith in
      subst (λ i. (get_or (taken c).recvbuffer i zero_slot).size ≡ 0) (sym same)
        (ap (λ (s : Slot). s.size)
          (get_or-set_self c.recvbuffer (c.successful_read % max_queue_num) _ zero_slot
            (omega arith)));
  faithful = λ k hk full. elim (dec_lt (k + 1) buffer_packet_num) [
    | yes inside ↦
        let e = taken-later c k t.read_word hk in
        let same : add32 (add32 c.successful_read 1) k ≡ add32 c.successful_read (k + 1) =
          omega arith in
        subst (λ (s : Slot). take s.size s.bytes ≡ stream (add32 (add32 c.successful_read 1) k))
          (sym e)
          (t.faithful (k + 1) inside (λ z. full (ap (λ (s : Slot). s.size) e ∙ z))
            ∙ ap stream (sym same))
    | no last ↦
        let at_end : k + 1 ≡ buffer_packet_num = omega arith in
        absurd
          (full (ap (λ (s : Slot). s.size) (taken-later c k t.read_word hk) ∙ rw at_end t.beyond))
  ];
}

pub read_packet_lem :
    (c : Connection)
    → read_packet c ≡ (
        if recvqueue c == 0 then (c, 0, []) else (
          taken c,
          size_at c c.successful_read,
          take (size_at c c.successful_read) (recv_slot c c.successful_read).bytes,
        ))
unfolding read_packet
read_packet_lem c = refl

-- On a receive buffer that is true to the stream (`Tracks`), which it stays, `read_packet`
-- returns the next packet of the stream when `recvqueue` is not 0, and then moves on by one;
-- otherwise it changes nothing.
pub read_packet-Tracks :
    (stream : ℕ → List ℕ) (c : Connection)
    → Tracks stream c
    → let (c', size, bytes) = read_packet c in
      Tracks stream c'
      × ((recvqueue c ≡ 0) × (c' ≡ c) × (size ≡ 0) × (bytes ≡ [])
          ⊎ (recvqueue c ≢ 0)
            × (c'.successful_read ≡ add32 c.successful_read 1)
            × (size ≢ 0)
            × (bytes ≡ stream c.successful_read))
unfolding recvqueue
read_packet-Tracks stream c t = rw (read_packet_lem c) (elim (Bool-cases (recvqueue c == 0)) [
  | inl empty ↦ rw empty (t, inl (ground arith, refl, refl, refl))
  | inr left ↦ rw left (
    taken-Tracks stream c t (ground arith),
    inr (
      ground arith,
      refl,
      subst (λ n. size_at c n ≢ 0) start (t.filled 0 (ground arith)),
      (subst (λ n. take (size_at c n) (recv_slot c n).bytes ≡ stream n) start
          (t.faithful 0 (omega arith) (t.filled 0 (ground arith)))),
    ),
  )
])
  where
    start : add32 c.successful_read 0 ≡ c.successful_read
    start = omega arith
