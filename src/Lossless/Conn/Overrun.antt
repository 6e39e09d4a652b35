-- ===== src/Lossless/Conn/Overrun.antt =====
-- Two writes of toxcore/Lossless_UDP.c that a peer can make run past their arrays.
use project_tox_core.Prelude.{
  ℕ, zero, suc, ◌+◌, ◌-◌, ◌^◌, ◌≤◌, ◌<◌, ◌≡◌, ◌↔◌, refl, sym, subst, ◌≢◌, true, false, none, some,
  List, [], ◌∷◌, ◌++◌, arith, leb, length, add32, sub32, Bool-cases, inl, inr, take, drop, dec_le,
  Option-cases,
}
use project_tox_core.Lossless.{Connection, buffer_packet_num}
use project_tox_core.Lossless.Conn.{
  recvqueue, handle_sync3, accept_sync3, copy_loop, sync3_is_valid, missing_loop, missing_packets,
}
use project_tox_core.Lossless.Conn.Sync.{
  handle_sync3-inversion, handle_sync3-refused, handle_sync3-fault, handle_sync3-accepted,
}
use project_tox_core.Lossless.Conn.Receive.{size_at}

copy_loop_fault :
    (stack_words requests words : List ℕ) (i number : ℕ)
    → buffer_packet_num + 1 < i + number + length requests
    → 0 < length requests
    → copy_loop stack_words requests i number words ≡ none
unfolding copy_loop
copy_loop_fault stack_words [] words i number h p = absurd (omega arith)
copy_loop_fault stack_words (temp ∷ []) words i number h p = ground arith
copy_loop_fault stack_words (temp ∷ next ∷ rest) words i number h p = ground (
  arith,
  copy_loop_fault stack_words (next ∷ rest)
      (take i words ++ (temp ∷ take (number - 1) stack_words ++ drop (i + number) words)) (i + 1)
      number (omega arith) (omega arith),
)

copy_loop_total :
    (stack_words requests words : List ℕ) (i number : ℕ)
    → i + number + length requests ≤ buffer_packet_num + 1
    → copy_loop stack_words requests i number words ≢ none
unfolding copy_loop
copy_loop_total stack_words [] words i number h = λ e. cc
copy_loop_total stack_words (temp ∷ requests) words i number h = ground (
  arith,
  copy_loop_total stack_words requests
      (take i words ++ (temp ∷ take (number - 1) stack_words ++ drop (i + number) words)) (i + 1)
      number (omega arith),
)

-- `handle_SYNC3` writes past the 15 words of `req_packets` exactly when the packet passes its test
-- and asks for 9 packets or more, a number that `SYNC_valid` allows up to 15.
pub handle_sync3_overrun_iff :
    (stack_words : List ℕ) (now : ℕ) (c : Connection) (counter recv_num sent_num : ℕ)
    (requests : List ℕ)
    → (handle_sync3 stack_words now c counter recv_num sent_num requests ≡ none)
      ↔ ((sync3_is_valid c counter recv_num sent_num ≡ true) × (9 ≤ length requests))
handle_sync3_overrun_iff stack_words now c counter recv_num sent_num requests = (there, back)
  where
    there :
        handle_sync3 stack_words now c counter recv_num sent_num requests ≡ none
        → (sync3_is_valid c counter recv_num sent_num ≡ true) × (9 ≤ length requests)
    there e = elim (Bool-cases (sync3_is_valid c counter recv_num sent_num)) [
      | inr bad ↦
          absurd
            (cc (handle_sync3-refused stack_words now c counter recv_num sent_num requests bad))
      | inl ok ↦ (
        ok,
        elim (dec_le 9 (length requests)) [
          | yes many ↦ many
          | no few ↦
              elim (Option-cases
                (copy_loop stack_words requests 0 (length requests) c.req_packets)) [
                  | inl fault ↦ absurd (
                      copy_loop_total stack_words requests c.req_packets 0 (length requests)
                        (omega arith) fault)
                  | inr (words, done) ↦ absurd (
                      cc (
                        handle_sync3-accepted stack_words now c counter recv_num sent_num requests
                          words ok done))
                ]
        ],
      )
    ]

    back :
        (sync3_is_valid c counter recv_num sent_num ≡ true) × (9 ≤ length requests)
        → handle_sync3 stack_words now c counter recv_num sent_num requests ≡ none
    back h = handle_sync3-fault stack_words now c counter recv_num sent_num requests h.0 (
        copy_loop_fault stack_words requests c.req_packets 0 (length requests) (omega arith)
          (omega arith))

abbrev pub IsEmpty : Connection → Type 0
IsEmpty c = (n : ℕ) → size_at c n ≡ 0

length-missing_loop : (k i : ℕ) (c : Connection) → IsEmpty c → length (missing_loop k i c) ≡ k
unfolding missing_loop
length-missing_loop zero i c empty = refl
length-missing_loop (suc k) i c empty =
    ground (arith, empty i, length-missing_loop k (add32 i 1) c empty)

missing_packets-length :
    (c : Connection) (n : ℕ)
    → IsEmpty c
    → c.recv_packetnum ≡ c.successful_read
    → c.recv_packetnum < 2 ^ 32
    → sub32 c.osent_packetnum c.recv_packetnum ≡ n
    → 0 < n
    → length (missing_packets c).1 ≡ n
unfolding missing_packets recvqueue
missing_packets-length c n empty e w h pos =
    let all =
      length-missing_loop (sub32 c.osent_packetnum c.recv_packetnum) c.recv_packetnum c empty in
    let idle : leb 14 (sub32 c.recv_packetnum c.successful_read) ≡ false = ground arith in
    ground (arith, all, idle)

-- The test of `handle_SYNC3` does not compare the sender's number with what was received. While
-- no data packet has come, two accepted SYNC packets make `missing_packets` write as many numbers
-- to its array of 15 as the sender's number has moved in all, where that is more than 15; each of
-- the packets can move it by 15.
pub missing_packets_overrun :
    (w1 w2 : List ℕ) (t1 t2 : ℕ) (c c1 c2 : Connection) (k1 r1 s1 k2 r2 s2 : ℕ) (q1 q2 : List ℕ)
    → IsEmpty c
    → c.recv_packetnum ≡ c.successful_read
    → c.osent_packetnum ≡ c.recv_packetnum
    → c.recv_packetnum < 2 ^ 32
    → s1 < 2 ^ 32
    → s2 < 2 ^ 32
    → handle_sync3 w1 t1 c k1 r1 s1 q1 ≡ some (c1, 0)
    → handle_sync3 w2 t2 c1 k2 r2 s2 q2 ≡ some (c2, 0)
    → buffer_packet_num < sub32 s1 c.osent_packetnum + sub32 s2 s1
    → sub32 s1 c.osent_packetnum + sub32 s2 s1 < 2 ^ 32
    → length (missing_packets c2).1 ≡ sub32 s1 c.osent_packetnum + sub32 s2 s1
missing_packets_overrun w1 w2 t1 t2 c c1 c2 k1 r1 s1 k2 r2 s2 q1 q2 empty e0 e1 h0 h1 h2 a b many
      m =
    let (words1, is1) = handle_sync3-inversion w1 t1 c c1 k1 r1 s1 q1 a in
    let (words2, is2) = handle_sync3-inversion w2 t2 c1 c2 k2 r2 s2 q2 b in
    subst (λ (d : Connection). length (missing_packets d).1 ≡ moved) (sym is2)
      (subst
        (λ (d : Connection).
          length (missing_packets (accept_sync3 t2 d k2 r2 s2 (length q2) words2)).1 ≡ moved)
        (sym is1)
        (missing_packets-length
          (accept_sync3 t2 (accept_sync3 t1 c k1 r1 s1 (length q1) words1) k2 r2 s2 (length q2)
            words2)
          moved empty e0 h0 (omega arith) (omega arith)))
  where
    moved : ℕ
    moved = sub32 s1 c.osent_packetnum + sub32 s2 s1
