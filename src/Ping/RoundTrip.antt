-- ===== src/Ping/RoundTrip.antt =====
-- The packets of toxcore/ping.c, from one node to the other.
use project_tox_core.Prelude.{
  ℕ, zero, suc, ◌+◌, ◌*◌, ◌^◌, ◌<◌, ◌≡◌, ap, false, some, List, arith, length, take, drop, bytes_eq,
  bytes32, bytes64, read_le64-bytes64, length-append,
}
use project_tox_core.NetCrypto.{Box, IsBox, public_key_bytes, nonce_bytes}
use project_tox_core.NetCrypto.Cipher.{random_words, random_nonce}
use project_tox_core.NetCrypto.Request.{KeyPair}
use project_tox_core.NetCrypto.RoundTrip.Packets.{IsAgreed}
use project_tox_core.NetCrypto.RoundTrip.Sealed.{IsSealed, prepend-IsSealed}
use project_tox_core.Ping.Packets.{random_64b, read_ping_id, ping_packet, open_ping}

length-random_words :
    (random_int : ℕ → ℕ) (drawn k : ℕ) → length (random_words random_int drawn k) ≡ 4 * k
unfolding random_words
length-random_words random_int drawn zero = omega arith
length-random_words random_int drawn (suc k) = omega (
  arith,
  length-append (bytes32 (random_int drawn)) (random_words random_int (drawn + 1) k),
  length-random_words random_int (drawn + 1) k,
)

pub length-random_nonce :
    (random_int : ℕ → ℕ) (drawn : ℕ) → length (random_nonce random_int drawn) ≡ nonce_bytes
unfolding random_nonce
length-random_nonce random_int drawn = length-random_words random_int drawn 6

pub random_64b_lt : (random_int : ℕ → ℕ) (drawn : ℕ) → random_64b random_int drawn < 2 ^ 64
unfolding random_64b
random_64b_lt random_int drawn = omega arith

reads_id : (ping_id : ℕ) → ping_id < 2 ^ 64 → read_ping_id (some (bytes64 ping_id)) ≡ some ping_id
reads_id ping_id h = ap some (read_le64-bytes64 ping_id h)

opens_ping :
    (box : Box) (sender : KeyPair) (rpk rsk : List ℕ) (ping_id : ℕ) (packet : List ℕ)
    → IsSealed box sender (rpk, rsk) (bytes64 ping_id) packet
    → bytes_eq sender.0 rpk ≡ false
    → ping_id < 2 ^ 64
    → open_ping box (rpk, rsk) packet ≡ some ping_id
unfolding open_ping
opens_ping box sender rpk rsk ping_id packet s other h =
    let size : length packet ≡ 81 = s.size in rw (size, s.from, other, s.opens) (reads_id ping_id h)

-- With a box that keeps its documented behaviour and key pairs that agree on a common key and
-- differ, a ping packet of either kind is made for every id of 64 bits, and the receiver reads the
-- id and the sender's key out of it.
pub ping_round_trip :
    (box : Box) (sender receiver : KeyPair) (kind ping_id : ℕ) (nonce : List ℕ)
    → IsBox box
    → IsAgreed box sender receiver
    → bytes_eq sender.0 receiver.0 ≡ false
    → length nonce ≡ nonce_bytes
    → ping_id < 2 ^ 64
    → (packet : List ℕ) × (ping_packet box kind sender receiver.0 nonce ping_id ≡ some packet)
      × (open_ping box receiver packet ≡ some ping_id)
      × (take public_key_bytes (drop 1 packet) ≡ sender.0)
unfolding ping_packet
ping_round_trip box (spk, ssk) (rpk, rsk) kind ping_id nonce law agreed other ln h =
    let (packet, made, s) =
      prepend-IsSealed box (spk, ssk) (rpk, rsk) kind nonce (bytes64 ping_id) law agreed ln
        (omega arith) (omega arith) in
    (packet, made, opens_ping box (spk, ssk) rpk rsk ping_id packet s other h, s.from)
