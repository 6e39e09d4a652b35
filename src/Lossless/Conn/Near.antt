-- ===== src/Lossless/Conn/Near.antt =====
-- How far ahead of us the other side of a connection of toxcore/Lossless_UDP.c is.
use project_tox_core.Prelude.{
  ℕ, zero, suc, ◌+◌, ◌^◌, ◌≤◌, ◌<◌, ◌≡◌, ◌≢◌, ◌⊎◌, inl, inr, refl, ap, sym, ◌∙◌, subst, List, arith,
  ◌==◌, ltb, leb, if◌then◌else◌, length, add32, sub32, Bool-cases, dec_lt,
}
use project_tox_core.Lossless.{Slot, Connection, buffer_packet_num}
use project_tox_core.Lossless.Conn.{
  recvqueue, missing_loop, missing_packets, read_packet, advance_loop, room, accept_sync3,
}
use project_tox_core.Lossless.Conn.Receive.{size_at, stored, stored-cases}
use project_tox_core.Lossless.Conn.Read.{taken, taken-later, read_packet_lem}
use project_tox_core.Lossless.Conn.Delivery.{Inv}

-- The other side has sent at most 15 packets more than we have without a gap, and the window holds
-- none that it has not sent.
pub record Near (c : Connection) : Type 0 where
  pub ahead : sub32 c.osent_packetnum c.recv_packetnum ≤ buffer_packet_num
  pub within :
      (k : ℕ)
      → k < buffer_packet_num
      → size_at c (add32 c.successful_read k) ≢ 0
      → k ≤ sub32 c.recv_packetnum c.successful_read + sub32 c.osent_packetnum c.recv_packetnum

advance_reach :
    (k i last : ℕ) (c : Connection)
    → i < 2 ^ 32
    → let r = advance_loop k i last c in
      (r ≡ last) ⊎ (j : ℕ) × (j < k) × (r ≡ add32 i j) × (size_at c (add32 i j) ≢ 0)
unfolding advance_loop
advance_reach zero i last c w = inl refl
advance_reach (suc k) i last c w = elim (Bool-cases (size_at c i == 0)) [
  | inl empty ↦ rw empty (inl refl)
  | inr full ↦ rw full (elim (advance_reach k (add32 i 1) i c (omega arith)) [
    | inl e ↦
        let first : add32 i 0 ≡ i = omega arith in
        inr (0, omega arith, e ∙ sym first, subst (λ n. size_at c n ≢ 0) (sym first) (ground arith))
    | inr (j, below, e, filled) ↦
        let same : add32 (add32 i 1) j ≡ add32 i (suc j) = omega arith in
        inr (suc j, omega arith, e ∙ same, subst (λ n. size_at c n ≢ 0) same filled)
  ])
]

pub advanced-Near :
    (stream : ℕ → List ℕ) (c : Connection)
    → Inv stream c
    → Near c
    → Near (record c { recv_packetnum = advance_loop (room c) c.recv_packetnum c.recv_packetnum c })
advanced-Near stream c v h =
    elim (advance_reach (room c) c.recv_packetnum c.recv_packetnum c v.tracks.recv_word) [
      | inl e ↦ subst (λ n. Near (record c { recv_packetnum = n })) (sym e) h
      | inr (j, below, e, filled) ↦
          let wr = v.tracks.recv_word in
          let ws = v.tracks.read_word in
          let wo = v.osent_word in
          let few = v.tracks.bounded in
          let near = h.ahead in
          let d = sub32 c.recv_packetnum c.successful_read in
          let same : add32 c.recv_packetnum j ≡ add32 c.successful_read (d + j) = omega arith in
          let inside : d + j < buffer_packet_num = omega arith in
          let reached = h.within (d + j) inside (subst (λ n. size_at c n ≢ 0) same filled) in
          subst (λ n. Near (record c { recv_packetnum = n })) (sym e)
            (record {
              ahead = omega (arith, reached);
              within =
                  λ k hk full. (let bound = h.within k hk full in omega (arith, reached, bound));
            })
    ]

-- A stored packet can only bring the number that was sent last nearer to the end of the window.
sent_grows :
    (n osent recv read : ℕ)
    → n < 2 ^ 32
    → osent < 2 ^ 32
    → recv < 2 ^ 32
    → read < 2 ^ 32
    → sub32 recv read ≤ buffer_packet_num
    → sub32 osent recv ≤ buffer_packet_num
    → sub32 n recv < sub32 (add32 read buffer_packet_num) recv
    → let osent' = if ltb (sub32 n osent) buffer_packet_num then n else osent in
      (sub32 osent' recv ≤ buffer_packet_num)
      × (sub32 osent recv ≤ sub32 osent' recv)
      × (sub32 n recv ≤ sub32 osent' recv)
      × (sub32 n read ≡ sub32 recv read + sub32 n recv)
      × (sub32 n read < buffer_packet_num)
sent_grows n osent recv read wn wo wr ws few near inside = ground arith

pub stored-Near :
    (stream : ℕ → List ℕ) (now n : ℕ) (data' : List ℕ) (c : Connection)
    → Inv stream c
    → Near c
    → n < 2 ^ 32
    → sub32 n c.recv_packetnum < room c
    → Near (stored now n data' c)
stored-Near stream now n data' c v h wn inside =
    let (near, grows, reached, at_n, in_window) =
      sent_grows n c.osent_packetnum c.recv_packetnum c.successful_read wn v.osent_word
        v.tracks.recv_word v.tracks.read_word v.tracks.bounded h.ahead inside in
    let ws = v.tracks.read_word in
    record {
      ahead = near;
      within = λ k hk full.
          elim (stored-cases now n k data' c v.tracks.slots wn ws in_window (omega arith)) [
            | inl (_, here, _) ↦
                let at_k : k ≡ sub32 n c.successful_read = omega arith in
                omega (arith, reached, at_n, at_k)
            | inr e ↦
                let bound = h.within k hk (subst (λ (s : Slot). s.size ≢ 0) e full) in
                omega (arith, grows, bound)
          ];
    }

pub accepted-Near :
    (stream : ℕ → List ℕ) (now : ℕ) (c : Connection) (counter recv_num sent_num number : ℕ)
    (words : List ℕ)
    → Inv stream c
    → Near c
    → sent_num < 2 ^ 32
    → sub32 sent_num c.osent_packetnum ≤ buffer_packet_num
    → sub32 sent_num c.recv_packetnum ≤ buffer_packet_num
    → Near (accept_sync3 now c counter recv_num sent_num number words)
accepted-Near stream now c counter recv_num sent_num number words v h ws moves near =
    let wr = v.tracks.recv_word in
    let wo = v.osent_word in
    let before = h.ahead in
    let grows : sub32 c.osent_packetnum c.recv_packetnum ≤ sub32 sent_num c.recv_packetnum =
      omega arith in
    record {
      ahead = near;
      within = λ k hk full. (let bound = h.within k hk full in omega (arith, grows, bound));
    }

pub missing_packets-Near :
    (stream : ℕ → List ℕ) (c : Connection) → Inv stream c → Near c → Near (missing_packets c).0
unfolding missing_packets
missing_packets-Near stream c v h = elim (Bool-cases (leb 14 (recvqueue c))) [
  | inl busy ↦ rw busy h
  | inr idle ↦ rw idle (elim (Bool-cases (length gaps == 0)) [
    | inr gap ↦ rw gap h
    | inl complete ↦ rw complete (
        let wr = v.tracks.recv_word in
        let wo = v.osent_word in
        let ws = v.tracks.read_word in
        let few = v.tracks.bounded in
        let near = h.ahead in
        record {
          ahead = omega arith;
          within = λ k hk full. (let bound = h.within k hk full in omega (arith, bound));
        })
  ])
]
  where
    gaps : List ℕ
    gaps = missing_loop (sub32 c.osent_packetnum c.recv_packetnum) c.recv_packetnum c

taken-Near :
    (stream : ℕ → List ℕ) (c : Connection)
    → Inv stream c
    → Near c
    → sub32 c.recv_packetnum c.successful_read ≢ 0
    → Near (taken c)
taken-Near stream c v h some_left =
    let wr = v.tracks.recv_word in
    let ws = v.tracks.read_word in
    let few = v.tracks.bounded in
    record {
      ahead = h.ahead;
      within = λ k hk full.
          (let later = ap (λ (s : Slot). s.size) (taken-later c k ws hk) in
            elim (dec_lt (k + 1) buffer_packet_num) [
              | yes inside ↦
                  let bound = h.within (k + 1) inside (λ z. full (later ∙ z)) in
                  omega (arith, bound)
              | no last ↦
                  let at_end : k + 1 ≡ buffer_packet_num = omega arith in
                  absurd (full (later ∙ rw at_end v.tracks.beyond))
            ]);
    }

pub read_packet-Near :
    (stream : ℕ → List ℕ) (c : Connection) → Inv stream c → Near c → Near (read_packet c).0
unfolding recvqueue
read_packet-Near stream c v h = rw (read_packet_lem c) (elim (Bool-cases (recvqueue c == 0)) [
  | inl empty ↦ rw empty h
  | inr left ↦ rw left (taken-Near stream c v h (ground arith))
])
