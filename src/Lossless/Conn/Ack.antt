-- ===== src/Lossless/Conn/Ack.antt =====
-- What an acknowledgement in a SYNC packet does to the send queue of toxcore/Lossless_UDP.c.
use project_tox_core.Prelude.{
  ℕ, zero, suc, ◌-◌, ◌^◌, ◌≤◌, ◌<◌, ◌≡◌, refl, sym, subst, ◌∙◌, ◌≢◌, some, List, arith, drop, add32,
  sub32,
}
use project_tox_core.Lossless.{Slot, Connection, buffer_packet_num}
use project_tox_core.Lossless.Conn.{sendqueue, handle_sync3, write_packet}
use project_tox_core.Lossless.Conn.Sync.{handle_sync3-inversion}
use project_tox_core.Lossless.Conn.Send.{IsSendable, payloads, pending}

drop-payloads :
    (buf : List Slot) (j n k : ℕ)
    → j ≤ k
    → n < 2 ^ 32
    → drop j (payloads buf n k) ≡ payloads buf (add32 n j) (k - j)
unfolding payloads
drop-payloads buf zero n k h w =
    let same : add32 n 0 ≡ n = omega arith in
    let all : k - 0 ≡ k = omega arith in rw (same, all) refl
drop-payloads buf (suc j) n zero h w = absurd (omega arith)
drop-payloads buf (suc j) n (suc k) h w =
    let same : add32 n (suc j) ≡ add32 (add32 n 1) j = omega arith in
    let left : suc k - suc j ≡ k - j = omega arith in
    rw (same, left) (drop-payloads buf j (add32 n 1) k (omega arith) (omega arith))

-- On a valid send buffer (`IsSendable`), which it stays, an accepted SYNC packet that
-- acknowledges no more than was written takes exactly the packets before the acknowledged number
-- off the front of the queue.
pub handle_sync3_acknowledges :
    (stack_words : List ℕ) (now : ℕ) (c c' : Connection) (counter recv_num sent_num : ℕ)
    (requests : List ℕ)
    → IsSendable c
    → recv_num < 2 ^ 32
    → sub32 recv_num c.successful_sent ≤ sub32 c.sendbuff_packetnum c.successful_sent
    → handle_sync3 stack_words now c counter recv_num sent_num requests ≡ some (c', 0)
    → IsSendable c' × (pending c' ≡ drop (sub32 recv_num c.successful_sent) (pending c))
unfolding pending sendqueue
handle_sync3_acknowledges stack_words now c c' counter recv_num sent_num requests v w within e =
    let (words, is) =
      handle_sync3-inversion stack_words now c c' counter recv_num sent_num requests e in
    subst
      (λ (d : Connection).
        IsSendable d
        × (payloads d.sendbuffer d.successful_sent (sub32 d.sendbuff_packetnum d.successful_sent)
            ≡ drop (sub32 recv_num c.successful_sent) (pending c)))
      (sym is)
      (
        record { slots = v.slots; top_word = v.top_word; acked_word = w; bounded = omega arith },
        sym (
            drop-payloads c.sendbuffer (sub32 recv_num c.successful_sent) c.successful_sent
              (sub32 c.sendbuff_packetnum c.successful_sent) within v.acked_word
            ∙ rest),
      )
  where
    rest :
        payloads c.sendbuffer
          (add32 c.successful_sent (sub32 recv_num c.successful_sent))
          (sub32 c.sendbuff_packetnum c.successful_sent - sub32 recv_num c.successful_sent)
        ≡ payloads c.sendbuffer recv_num (sub32 c.sendbuff_packetnum recv_num)
    rest =
        let at : add32 c.successful_sent (sub32 recv_num c.successful_sent) ≡ recv_num =
          omega arith in
        let left : sub32 c.sendbuff_packetnum c.successful_sent - sub32 recv_num c.successful_sent
            ≡ sub32 c.sendbuff_packetnum recv_num =
          omega arith in
        rw (at, left) refl

-- The test of `handle_SYNC3` does not compare the acknowledged number with what was written.
-- After an accepted SYNC packet that acknowledges 1 to 15 packets beyond the last one written,
-- `sendqueue` counts at least 2^32 - 15 packets, and `write_packet` refuses all data.
pub over_acknowledged :
    (stack_words : List ℕ) (now : ℕ) (c c' : Connection) (counter recv_num sent_num : ℕ)
    (requests data' : List ℕ)
    → c.sendbuff_packetnum < 2 ^ 32
    → recv_num < 2 ^ 32
    → recv_num ≢ c.sendbuff_packetnum
    → sub32 recv_num c.sendbuff_packetnum ≤ buffer_packet_num
    → handle_sync3 stack_words now c counter recv_num sent_num requests ≡ some (c', 0)
    → (2 ^ 32 - buffer_packet_num ≤ sendqueue c') × (write_packet c' data' ≡ (c', 0))
unfolding sendqueue write_packet
over_acknowledged stack_words now c c' counter recv_num sent_num requests data' wt w ne few e =
    let (words, is) =
      handle_sync3-inversion stack_words now c c' counter recv_num sent_num requests e in
    let huge : 2 ^ 32 - buffer_packet_num ≤ sendqueue c' =
      subst (λ (d : Connection). 2 ^ 32 - buffer_packet_num ≤ sendqueue d) (sym is) (omega arith) in
    (huge, refuses c' data' huge)
  where
    refuses :
        (d : Connection) (data'' : List ℕ)
        → 2 ^ 32 - buffer_packet_num ≤ sendqueue d
        → write_packet d data'' ≡ (d, 0)
    refuses d data'' huge = ground arith
