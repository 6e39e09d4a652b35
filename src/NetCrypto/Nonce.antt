-- ===== src/NetCrypto/Nonce.antt =====
-- `increment_nonce` of toxcore/net_crypto.c as arithmetic.
use project_tox_core.Prelude.{
  ℕ, suc, ◌+◌, ◌*◌, ◌<◌, ◌≡◌, ◌⊎◌, refl, ap, List, [], ◌∷◌, arith, length, All, Bool-cases, inl,
  inr, ◌==◌, add8,
}
use project_tox_core.NetCrypto.Cipher.{increment_nonce}

-- The number that the bytes spell, least significant first.
unfoldable pub nonce_value : List ℕ → ℕ
nonce_value [] = 0
nonce_value (b ∷ nonce) = b + 256 * nonce_value nonce

-- `256 ^ length nonce`
unfoldable pub nonce_range : List ℕ → ℕ
nonce_range [] = 1
nonce_range (b ∷ nonce) = 256 * nonce_range nonce

abbrev pub IsBytes : List ℕ → Type 0
IsBytes nonce = All (λ b. b < 256) nonce

nonce_value_bound : (nonce : List ℕ) → IsBytes nonce → nonce_value nonce < nonce_range nonce
unfolding nonce_value nonce_range
nonce_value_bound [] h = omega arith
nonce_value_bound (b ∷ nonce) h = omega (arith, nonce_value_bound nonce h.1, h.0)

-- On a nonce of bytes, least significant first, `increment_nonce` adds one, or goes round to 0 at
-- the greatest value; the result has as many bytes.
pub increment_nonce_adds :
    (nonce : List ℕ)
    → IsBytes nonce
    → IsBytes (increment_nonce nonce)
      × (length (increment_nonce nonce) ≡ length nonce)
      × ((nonce_value nonce + 1 < nonce_range nonce)
            × (nonce_value (increment_nonce nonce) ≡ nonce_value nonce + 1)
          ⊎ (nonce_value nonce + 1 ≡ nonce_range nonce) × (nonce_value (increment_nonce nonce) ≡ 0))
unfolding nonce_value nonce_range increment_nonce
increment_nonce_adds [] h = (tt, refl, inr (refl, refl))
increment_nonce_adds (b ∷ nonce) h = elim (Bool-cases (add8 b 1 == 0)) [
  | inr stops ↦
      let low : b < 255 = ground (arith, h.0) in
      rw stops (
        (omega arith, h.1),
        refl,
        inl (omega (arith, nonce_value_bound nonce h.1, low), omega (arith, low)),
      )
  | inl carries ↦
      let (bytes, same, counted) = increment_nonce_adds nonce h.1 in
      let top : b ≡ 255 = ground (arith, h.0) in
      rw carries (
        (ground arith, bytes),
        ap suc same,
        elim counted [
          | inl (room, e) ↦ inl (omega arith, omega arith)
          | inr (full, e) ↦ inr (omega arith, omega arith)
        ],
      )
]
