-- ===== src/NetCrypto/RoundTrip.antt =====
-- What one side seals by toxcore/net_crypto.c, the other side opens.
pub mod Packets
pub mod Handshakes
pub mod Sealed
use project_tox_core.Prelude.{
  ℕ, zero, suc, ◌+◌, ◌-◌, ◌*◌, ◌≤◌, ◌<◌, ◌≡◌, refl, ap, ap₂, sym, ◌∙◌, subst, Bool, true, false,
  ◌||◌, ◌&&◌, not, Option, none, some, List, [], ◌∷◌, ◌++◌, ◌==◌, ltb, leb, arith, if◌then◌else◌,
  length, take, drop, replicate, add32, length-append, length-replicate, length-drop, length-take,
  take-append, drop-append, take_all, take_append_drop, bit_or,
}
use project_tox_core.Lossless.{max_data_size}
use project_tox_core.NetCrypto.{
  Box, IsBox, zero_bytes, box_zero_bytes, mac_bytes, public_key_bytes, nonce_bytes,
}
use project_tox_core.NetCrypto.Cipher.{
  iszero_loop, crypto_iszero, encrypt_data_fast, decrypt_data_fast, unpad, encrypt_data,
  decrypt_data,
}

iszero_zeros : (n : ℕ) → iszero_loop 0 (replicate n 0) ≡ 0
unfolding iszero_loop
iszero_zeros zero = refl
iszero_zeros (suc n) = iszero_zeros n

zeroed : (n : ℕ) (mem : List ℕ) → mem ≡ replicate n 0 → crypto_iszero mem ≡ 0
unfolding crypto_iszero
zeroed n mem e = ap (iszero_loop 0) e ∙ iszero_zeros n

module _ (box : Box) (law : IsBox box) (key nonce plain : List ℕ) where
  abbrev message : List ℕ
  message = replicate zero_bytes 0 ++ plain

  abbrev sealed : List ℕ
  sealed = box.afternm message nonce key

  length-message : length message ≡ 32 + length plain
  length-message =
      omega
        (arith, length-append (replicate zero_bytes 0) plain, length-replicate {A = ℕ} zero_bytes 0)

  take-message : take zero_bytes message ≡ replicate zero_bytes 0
  take-message = take-append zero_bytes (replicate zero_bytes 0) plain refl

  begins : take box_zero_bytes sealed ≡ replicate box_zero_bytes 0
  begins = law.padded message nonce key (omega (arith, length-message)) take-message

  length-sealed : length (drop box_zero_bytes sealed) ≡ length plain + mac_bytes
  length-sealed = omega (
    arith,
    length-drop box_zero_bytes sealed,
    law.same_length message nonce key (omega (arith, length-message)),
    length-message,
  )

  seals :
      0 < length plain
      → length plain ≤ 1008
      → encrypt_data_fast box key nonce plain ≡ some (drop box_zero_bytes sealed)
  unfolding encrypt_data_fast
  seals some_bytes few = ground (
    arith,
    zeroed box_zero_bytes (take box_zero_bytes sealed) begins,
    take_all (length plain + mac_bytes) (drop box_zero_bytes sealed) (omega (arith, length-sealed)),
  )

  opens_sealed :
      0 < length plain
      → length plain ≤ 1008
      → decrypt_data_fast box key nonce (drop box_zero_bytes sealed) ≡ some plain
  unfolding decrypt_data_fast unpad
  opens_sealed some_bytes few =
      let whole : replicate box_zero_bytes 0 ++ drop box_zero_bytes sealed ≡ sealed =
        ap (λ t. t ++ drop box_zero_bytes sealed) (sym begins)
        ∙ take_append_drop box_zero_bytes sealed in
      let opened =
        ap (λ t. box.open_afternm t nonce key) whole
        ∙ law.opens message nonce key (omega (arith, length-message)) take-message in
      let rest : take (length (drop box_zero_bytes sealed) - mac_bytes) (drop zero_bytes message)
          ≡ plain =
        ap (take (length (drop box_zero_bytes sealed) - mac_bytes))
          (drop-append zero_bytes (replicate zero_bytes 0) plain refl)
        ∙ take_all (length (drop box_zero_bytes sealed) - mac_bytes) plain
            (omega (arith, length-sealed)) in
      ground (
        arith,
        opened,
        rest,
        length-sealed,
        zeroed zero_bytes (take zero_bytes message) take-message,
      )

-- With a box that keeps its documented behaviour (`IsBox`), 1 to 1008 bytes are sealed to 16 bytes
-- more, which the same key and nonce open again.
pub encrypt_round_trip :
    (box : Box) (key nonce plain : List ℕ)
    → IsBox box
    → 0 < length plain
    → length plain ≤ 1008
    → (encrypted : List ℕ) × (encrypt_data_fast box key nonce plain ≡ some encrypted)
      × (length encrypted ≡ length plain + mac_bytes)
      × (decrypt_data_fast box key nonce encrypted ≡ some plain)
encrypt_round_trip box key nonce plain law some_bytes few = (
  drop box_zero_bytes (sealed box law key nonce plain),
  seals box law key nonce plain some_bytes few,
  length-sealed box law key nonce plain,
  opens_sealed box law key nonce plain some_bytes few,
)
