-- ===== src/Lossless/Conn/Codec.antt =====
-- The packets that toxcore/Lossless_UDP.c builds, read back the way its handlers read them.
use project_tox_core.Prelude.{
  ℕ, zero, suc, ◌+◌, ◌-◌, ◌*◌, ◌/◌, ◌^◌, ◌<◌, ◌≤◌, ◌≡◌, ◌∙◌, some, ltb, true, false, refl, ap₂,
  List, [], ◌∷◌, arith, leb, length, drop, All,
}
use project_tox_core.Lossless.{Connection, buffer_packet_num}
use project_tox_core.Lossless.Conn.{
  be32_all, read_be32, byte_at, send_sync, sync_packet, missing_packets, sync_valid,
}
use project_tox_core.Lossless.Handle.{read_requests}

length-be32_all : (ns : List ℕ) → length (be32_all ns) ≡ 4 * length ns
length-be32_all [] = refl
length-be32_all (n ∷ ns) = omega (arith, length-be32_all ns)

read_requests-be32_all :
    (ns : List ℕ) (k : ℕ)
    → k ≡ length ns
    → All (λ n. n < 2 ^ 32) ns
    → read_requests k (be32_all ns) ≡ ns
unfolding read_requests
read_requests-be32_all [] zero e h = refl
read_requests-be32_all [] (suc k) e h = absurd (omega arith)
read_requests-be32_all (n ∷ ns) zero e h = absurd (omega arith)
read_requests-be32_all (n ∷ ns) (suc k) e h =
    ap₂ ◌∷◌ (omega arith) (read_requests-be32_all ns k (omega arith) h.1)

sync_valid-requests : (m n : ℕ) → m ≡ 10 + 4 * n → sync_valid m ≡ leb n buffer_packet_num
unfolding sync_valid
sync_valid-requests m n e = ground (arith)

-- Where all numbers are 32 bits wide and at most 15 packets are missing, send_SYNC builds a packet
-- of at most 70 bytes that passes the test of `handle_SYNC` on the length. It carries the counter,
-- the two packet numbers as they were before the packet was built, and the numbers of the missing
-- packets, and `handle_SYNC` reads just these.
pub sync_packet_round_trip :
    (c : Connection)
    → c.recv_packetnum < 2 ^ 32
    → c.sent_packetnum < 2 ^ 32
    → All (λ n. n < 2 ^ 32) (missing_packets c).1
    → length (missing_packets c).1 ≤ buffer_packet_num
    → (packet : List ℕ) × (send_sync c ≡ some ((missing_packets c).0, packet))
      × (length packet ≤ 70)
      × (sync_valid (length packet) ≡ true)
      × (byte_at packet 1 ≡ c.send_counter)
      × (read_be32 packet 2 ≡ c.recv_packetnum)
      × (read_be32 packet 6 ≡ c.sent_packetnum)
      × (read_requests ((length packet - 10) / 4) (drop 10 packet) ≡ (missing_packets c).1)
unfolding send_sync
sync_packet_round_trip c hr hs hm room =
    let requested = (missing_packets c).1 in
    let few : ltb buffer_packet_num (length requested) ≡ false = ground arith in
    let fits : leb (length requested) buffer_packet_num ≡ true = ground arith in
    let long = length-be32_all requested in
    (
      sync_packet c requested,
      rw (few, send_sync) refl,
      omega (arith, long),
      sync_valid-requests _ (length requested) (omega (arith, long)) ∙ fits,
      refl,
      omega arith,
      omega arith,
      read_requests-be32_all requested _ (omega (arith, long)) hm,
    )
