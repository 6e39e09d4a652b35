-- ===== src/NetCrypto/RoundTrip/Packets.antt =====
-- Requests and crypto handshakes of toxcore/net_crypto.c, from one side to the other.
use project_tox_core.Prelude.{
  ℕ, ◌+◌, ◌*◌, ◌≤◌, ◌<◌, ◌≡◌, refl, ap, ap₂, sym, ◌∙◌, true, false, some, List, ◌∷◌, ◌++◌, ltb, leb,
  arith, length, take, drop, add32, length-append, take-append, drop-append, append_assoc,
  bytes_eq_refl,
}
use project_tox_core.Lossless.{max_data_size}
use project_tox_core.NetCrypto.{Box, IsBox, public_key_bytes, nonce_bytes, packet_crypto}
use project_tox_core.NetCrypto.Cipher.{decrypt_data_fast, encrypt_data, decrypt_data}
use project_tox_core.NetCrypto.Request.{KeyPair, request_head, create_request, handle_request}
use project_tox_core.NetCrypto.RoundTrip.{encrypt_round_trip}

-- Three fields and what follows them.
record Slices (a b c d : List ℕ) : Type 0 where
  first : take (length a) (a ++ b ++ c ++ d) ≡ a
  second : take (length b) (drop (length a) (a ++ b ++ c ++ d)) ≡ b
  third : take (length c) (drop (length a + length b) (a ++ b ++ c ++ d)) ≡ c
  rest : drop (length a + length b + length c) (a ++ b ++ c ++ d) ≡ d

slices : (a b c d : List ℕ) → Slices a b c d
slices a b c d = record {
  first = ap (take (length a)) right ∙ take-append (length a) a (b ++ (c ++ d)) refl;
  second =
      ap (λ t. take (length b) (drop (length a) t)) right
      ∙ ap (take (length b)) (drop-append (length a) a (b ++ (c ++ d)) refl)
      ∙ take-append (length b) b (c ++ d) refl;
  third =
      ap (λ t. take (length c) (drop (length a + length b) t)) (append_assoc (a ++ b) c d)
      ∙ ap (take (length c))
          (drop-append (length a + length b) (a ++ b) (c ++ d) (sym (length-append a b)))
      ∙ take-append (length c) c d refl;
  rest =
      drop-append (length a + length b + length c) (a ++ b ++ c) d
        (omega (arith, length-append (a ++ b) c, length-append a b));
}
  where
    right : a ++ b ++ c ++ d ≡ a ++ (b ++ (c ++ d))
    right = append_assoc (a ++ b) c d ∙ append_assoc a b (c ++ d)

-- The same with the lengths of a request.
record Fields (a b c d : List ℕ) : Type 0 where
  first : take public_key_bytes (a ++ b ++ c ++ d) ≡ a
  second : take public_key_bytes (drop public_key_bytes (a ++ b ++ c ++ d)) ≡ b
  third : take nonce_bytes (drop (public_key_bytes * 2) (a ++ b ++ c ++ d)) ≡ c
  rest : drop 88 (a ++ b ++ c ++ d) ≡ d
  size : length (a ++ b ++ c ++ d) ≡ 88 + length d

fields :
    (a b c d : List ℕ)
    → length a ≡ public_key_bytes
    → length b ≡ public_key_bytes
    → length c ≡ nonce_bytes
    → Fields a b c d
fields a b c d la lb lc =
    let s = slices a b c d in
    record {
      first = ap (λ n. take n (a ++ b ++ c ++ d)) (sym la) ∙ s.first;
      second = ap₂ (λ n m. take n (drop m (a ++ b ++ c ++ d))) (sym lb) (sym la) ∙ s.second;
      third =
          ap₂ (λ n m. take n (drop m (a ++ b ++ c ++ d))) (sym lc)
            (let e : public_key_bytes * 2 ≡ length a + length b = omega arith in e)
          ∙ s.third;
      rest =
          ap (λ n. drop n (a ++ b ++ c ++ d))
            (let e : 88 ≡ length a + length b + length c = omega arith in e)
          ∙ s.rest;
      size =
          omega (arith, length-append (a ++ b ++ c) d, length-append (a ++ b) c, length-append a b);
    }

-- Both sides get one key from their own secret key and the other's public key.
pub record IsAgreed (box : Box) (a b : KeyPair) : Type 0 where
  pub same_key : box.beforenm b.0 a.1 ≡ box.beforenm a.0 b.1
  pub length_a : length a.0 ≡ public_key_bytes
  pub length_b : length b.0 ≡ public_key_bytes

small_request : (n : ℕ) → n ≤ 918 → ltb max_data_size (add32 n 106) ≡ false
small_request n h = ground arith

fits_request : (n : ℕ) → 105 < n → n ≤ 1040 → (ltb 105 n ≡ true) × (leb n 1040 ≡ true)
fits_request n lo hi = (ground arith, ground arith)

makes_request :
    (box : Box) (spk ssk rpk data' nonce encrypted : List ℕ) (request_id : ℕ)
    → length data' ≤ 918
    → encrypt_data box rpk ssk nonce (request_id ∷ data') ≡ some encrypted
    → create_request box (spk, ssk) rpk data' request_id nonce
      ≡ some (packet_crypto ∷ rpk ++ spk ++ nonce ++ encrypted)
unfolding create_request
makes_request box spk ssk rpk data' nonce encrypted request_id few seals =
    rw (small_request (length data') few, seals) refl

reads_request :
    (box : Box) (spk rpk rsk data' nonce encrypted packet : List ℕ) (request_id : ℕ)
    → 105 < length packet
    → length packet ≤ 1040
    → take public_key_bytes (drop 1 packet) ≡ rpk
    → take public_key_bytes (drop (1 + public_key_bytes) packet) ≡ spk
    → take nonce_bytes (drop (1 + public_key_bytes * 2) packet) ≡ nonce
    → drop request_head packet ≡ encrypted
    → decrypt_data box spk rsk nonce encrypted ≡ some (request_id ∷ data')
    → handle_request box (rpk, rsk) packet
      ≡ some (record { sender = spk; request_id = request_id; content = data' })
unfolding handle_request
reads_request box spk rpk rsk data' nonce encrypted packet request_id lo hi e1 e2 e3 e4 opens =
    let (fits, small) = fits_request (length packet) lo hi in
    rw (fits, small, e1, e2, e3, e4, bytes_eq_refl rpk, opens) refl

-- With a box that keeps its documented behaviour, key pairs that agree on a common key, and a
-- nonce of 24 bytes: a request with at most 918 bytes of data is made, is at most 1024 bytes
-- long, and the receiver reads the sender's key, the number and the data out of it.
pub request_round_trip :
    (box : Box) (sender receiver : KeyPair) (data' : List ℕ) (request_id : ℕ) (nonce : List ℕ)
    → IsBox box
    → IsAgreed box sender receiver
    → length nonce ≡ nonce_bytes
    → length data' ≤ 918
    → (packet : List ℕ) × (create_request box sender receiver.0 data' request_id nonce
        ≡ some packet)
      × (length packet ≤ max_data_size)
      × (handle_request box receiver packet
          ≡ some (record { sender = sender.0; request_id = request_id; content = data' }))
unfolding encrypt_data decrypt_data
request_round_trip box (spk, ssk) (rpk, rsk) data' request_id nonce law agreed ln few =
    let (encrypted, seals, counted, opens) =
      encrypt_round_trip box (box.beforenm rpk ssk) nonce (request_id ∷ data') law (omega arith)
        (omega arith) in
    let f = fields rpk spk nonce encrypted agreed.length_b agreed.length_a ln in
    let opened = ap (λ k. decrypt_data_fast box k nonce encrypted) (sym agreed.same_key) ∙ opens in
    let size : length (packet_crypto ∷ rpk ++ spk ++ nonce ++ encrypted) ≡ length data' + 106 =
      omega (arith, f.size) in
    (
      packet_crypto ∷ rpk ++ spk ++ nonce ++ encrypted,
      makes_request box spk ssk rpk data' nonce encrypted request_id few seals,
      omega (arith, size),
      reads_request box spk rpk rsk data' nonce encrypted
          (packet_crypto ∷ rpk ++ spk ++ nonce ++ encrypted) request_id (omega (arith, size))
          (omega (arith, size)) f.first f.second f.third f.rest opened,
    )
