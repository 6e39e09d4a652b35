-- ===== src/NetCrypto/Cipher.antt =====
-- Encryption and nonces of toxcore/net_crypto.c. The result `none` of a function that returns a
-- length stands for -1; the bytes that are returned have the length that the source returns.
use project_tox_core.Prelude.{
  ℕ, zero, suc, ◌+◌, ◌-◌, ◌||◌, not, Option, none, some, List, [], ◌∷◌, ◌++◌, ◌==◌, ltb, leb,
  if◌then◌else◌, length, take, drop, replicate, add8, add32, bytes32, bit_or,
}
use project_tox_core.Lossless.{max_data_size}
use project_tox_core.NetCrypto.{Box, zero_bytes, box_zero_bytes, mac_bytes}

-- The loop of `crypto_iszero`, from the value `check`.
unfoldable pub iszero_loop : ℕ → List ℕ → ℕ
iszero_loop check [] = check
iszero_loop check (b ∷ mem) = iszero_loop (bit_or check b) mem

unfoldable pub crypto_iszero : List ℕ → ℕ
unfolding iszero_loop
crypto_iszero mem = iszero_loop 0 mem

-- `++nonce[i]` from the first byte on, until one does not become 0.
unfoldable pub increment_nonce : List ℕ → List ℕ
increment_nonce [] = []
increment_nonce (b ∷ nonce) =
    let rest = increment_nonce nonce in
    if not (add8 b 1 == 0) then add8 b 1 ∷ nonce else add8 b 1 ∷ rest

-- `k` words, the first of them the result number `drawn` of `random_int`.
unfoldable pub random_words : (ℕ → ℕ) → ℕ → ℕ → List ℕ
random_words random_int drawn zero = []
random_words random_int drawn (suc k) =
    bytes32 (random_int drawn) ++ random_words random_int (drawn + 1) k

unfoldable pub random_nonce : (ℕ → ℕ) → ℕ → List ℕ
unfolding random_words
random_nonce random_int drawn = random_words random_int drawn 6

module _ (box : Box) where
  unfoldable pub encrypt_data_fast : List ℕ → List ℕ → List ℕ → Option (List ℕ)
  unfolding crypto_iszero
  encrypt_data_fast enc_key nonce plain =
      let temp_encrypted = box.afternm (replicate zero_bytes 0 ++ plain) nonce enc_key in
      if ltb max_data_size (add32 (length plain) mac_bytes) || length plain == 0
      then none
      else if not (crypto_iszero (take box_zero_bytes temp_encrypted) == 0)
      then none
      else some (take (length plain + mac_bytes) (drop box_zero_bytes temp_encrypted))

  -- The rest of `decrypt_data_fast` after the call of the library.
  unfoldable pub unpad : ℕ → Option (List ℕ) → Option (List ℕ)
  unfolding crypto_iszero
  unpad length' none = none
  unpad length' (some temp_plain) =
      if not (crypto_iszero (take zero_bytes temp_plain) == 0)
      then none
      else some (take (length' - mac_bytes) (drop zero_bytes temp_plain))

  unfoldable pub decrypt_data_fast : List ℕ → List ℕ → List ℕ → Option (List ℕ)
  unfolding unpad
  decrypt_data_fast enc_key nonce encrypted =
      if ltb max_data_size (length encrypted) || leb (length encrypted) box_zero_bytes
      then none
      else unpad (length encrypted)
          (box.open_afternm (replicate box_zero_bytes 0 ++ encrypted) nonce enc_key)

  unfoldable pub encrypt_data : List ℕ → List ℕ → List ℕ → List ℕ → Option (List ℕ)
  encrypt_data public_key secret_key nonce plain =
      encrypt_data_fast (box.beforenm public_key secret_key) nonce plain

  unfoldable pub decrypt_data : List ℕ → List ℕ → List ℕ → List ℕ → Option (List ℕ)
  decrypt_data public_key secret_key nonce encrypted =
      decrypt_data_fast (box.beforenm public_key secret_key) nonce encrypted
