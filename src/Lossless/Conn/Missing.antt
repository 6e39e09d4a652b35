-- ===== src/Lossless/Conn/Missing.antt =====
-- `missing_packets` of toxcore/Lossless_UDP.c: when all that the peer has sent is there.
use project_tox_core.Prelude.{
  ℕ, ◌+◌, ◌-◌, ◌^◌, ◌≤◌, ◌<◌, ◌≡◌, refl, ◌≢◌, subst, List, arith, ◌==◌, leb, length, add32, sub32,
  Bool-cases, inl, inr, dec_lt, dec_le,
}
use project_tox_core.Lossless.{Connection, buffer_packet_num}
use project_tox_core.Lossless.Conn.{recvqueue, missing_loop, missing_packets}
use project_tox_core.Lossless.Conn.Receive.{Tracks, size_at, missing_loop-filled}

complete-Tracks :
    (stream : ℕ → List ℕ) (c : Connection) (rounds : ℕ)
    → Tracks stream c
    → c.osent_packetnum < 2 ^ 32
    → rounds ≡ sub32 c.osent_packetnum c.recv_packetnum
    → length (missing_loop rounds c.recv_packetnum c) ≡ 0
    → Tracks stream (record c { recv_packetnum = c.osent_packetnum })
complete-Tracks stream c rounds t wo hr none_missing = record {
  slots = t.slots;
  recv_word = wo;
  read_word = t.read_word;
  bounded = omega (arith, short);
  filled = λ k hk. elim (dec_lt k used) [
    | yes below ↦ t.filled k below
    | no above ↦
        let fits = short in
        let same : add32 c.recv_packetnum (k - used) ≡ add32 c.successful_read k = omega arith in
        subst (λ n. size_at c n ≢ 0) same (in_use (k - used) (omega arith))
  ];
  beyond = t.beyond;
  faithful = t.faithful;
}
  where
    used : ℕ
    used = sub32 c.recv_packetnum c.successful_read

    in_use : (j : ℕ) → j < rounds → size_at c (add32 c.recv_packetnum j) ≢ 0
    in_use j hj = missing_loop-filled rounds c.recv_packetnum j c none_missing hj t.recv_word

    -- The slot past the window is free, so the loop would have met it.
    short : used + rounds ≤ buffer_packet_num
    short = elim (dec_le (used + rounds) buffer_packet_num) [
      | yes h ↦ h
      | no h ↦
          let same : add32 c.recv_packetnum (buffer_packet_num - used)
              ≡ add32 c.successful_read buffer_packet_num =
            omega arith in
          absurd (
            subst (λ n. size_at c n ≢ 0) same (in_use (buffer_packet_num - used) (omega arith))
              t.beyond)
    ]

-- `missing_packets` keeps the receive buffer true to the stream (`Tracks`), also when it finds
-- nothing missing and moves `recv_packetnum` up to `osent_packetnum`, which is 32 bits wide.
pub missing_packets-Tracks :
    (stream : ℕ → List ℕ) (c : Connection)
    → Tracks stream c
    → c.osent_packetnum < 2 ^ 32
    → Tracks stream (missing_packets c).0
unfolding missing_packets
missing_packets-Tracks stream c t wo = elim (Bool-cases (leb 14 (recvqueue c))) [
  | inl busy ↦ rw busy t
  | inr idle ↦ rw idle (elim (Bool-cases (length gaps == 0)) [
    | inl complete ↦ rw complete (complete-Tracks stream c _ t wo refl (ground arith))
    | inr gap ↦ rw gap t
  ])
]
  where
    gaps : List ℕ
    gaps = missing_loop (sub32 c.osent_packetnum c.recv_packetnum) c.recv_packetnum c
