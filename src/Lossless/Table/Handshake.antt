-- ===== src/Lossless/Table/Handshake.antt =====
-- The handshake ids of toxcore/Lossless_UDP.c: once drawn, an address keeps its id.
use project_tox_core.Prelude.{
  ℕ, zero, suc, ◌+◌, ◌≤◌, ◌<◌, ◌≡◌, refl, ap, sym, subst, ◌∙◌, ◌≢◌, ◌⊎◌, inl, inr, arith, ◌==◌,
  bit_xor, if◌then◌else◌, ℕ_discrete,
}
use project_tox_core.Network.{IpPort}
use project_tox_core.Lossless.{LosslessUdp}
use project_tox_core.Lossless.Table.{fill_entry, handshake_loop, handshake_id, ip_port_byte}

-- The entry of the table that the address selects in row `j`.
abbrev entry : LosslessUdp → IpPort → ℕ → ℕ
entry ludp source j = ludp.randtable j (ip_port_byte source j)

xor_entries : ℕ → ℕ → ℕ → LosslessUdp → IpPort → ℕ
xor_entries zero i id ludp source = id
xor_entries (suc k) i id ludp source =
    xor_entries k (i + 1) (bit_xor id (entry ludp source i)) ludp source

abbrev IsDrawn : ℕ → ℕ → LosslessUdp → IpPort → Type 0
IsDrawn k i ludp source = (j : ℕ) → i ≤ j → j < i + k → entry ludp source j ≢ 0

module _ (random_int : ℕ → ℕ) where
  fill_entry-other :
      (ludp : LosslessUdp) (source : IpPort) (i j : ℕ)
      → i ≢ j
      → entry (fill_entry random_int ludp i (ip_port_byte source i)) source j ≡ entry ludp source j
  unfolding fill_entry
  fill_entry-other ludp source i j ne = ground arith

  -- A draw between two states was 0.
  abbrev pub DrawsZero : LosslessUdp → LosslessUdp → Type 0
  DrawsZero ludp ludp' = (n : ℕ) × (ludp.drawn ≤ n) × (n < ludp'.drawn) × (random_int n ≡ 0)

  fill_entry-drawn :
      (ludp : LosslessUdp) (source : IpPort) (i : ℕ)
      → let ludp' = fill_entry random_int ludp i (ip_port_byte source i) in
        (ludp.drawn ≤ ludp'.drawn) × ((entry ludp' source i ≢ 0) ⊎ DrawsZero ludp ludp')
  unfolding fill_entry
  fill_entry-drawn ludp source i = elim (ℕ_discrete (entry ludp source i) 0) [
    | no there ↦ ground arith
    | yes missing ↦ elim (ℕ_discrete (random_int ludp.drawn) 0) [
      | no some_id ↦ (ground arith, inl (ground arith))
      | yes z ↦ (ground arith, inr (ludp.drawn, omega arith, ground arith, z))
    ]
  ]

  handshake_loop-draws :
      (k i id : ℕ) (ludp : LosslessUdp) (source : IpPort)
      → ludp.drawn ≤ (handshake_loop random_int k i id ludp source).0.drawn
  unfolding handshake_loop
  handshake_loop-draws zero i id ludp source = omega arith
  handshake_loop-draws (suc k) i id ludp source =
      let filled = fill_entry random_int ludp i (ip_port_byte source i) in
      let first = fill_entry-drawn ludp source i in
      let later =
        handshake_loop-draws k (i + 1) (bit_xor id (entry filled source i)) filled source in
      omega (arith, first.0, later)

  fill_entry-same :
      (ludp : LosslessUdp) (source : IpPort) (i : ℕ)
      → entry ludp source i ≢ 0
      → fill_entry random_int ludp i (ip_port_byte source i) ≡ ludp
  unfolding fill_entry
  fill_entry-same ludp source i h = ground arith

  -- Rows before `i` keep their entries.
  handshake_loop-before :
      (k i id : ℕ) (ludp : LosslessUdp) (source : IpPort) (j : ℕ)
      → j < i
      → entry (handshake_loop random_int k i id ludp source).0 source j ≡ entry ludp source j
  unfolding handshake_loop
  handshake_loop-before zero i id ludp source j h = refl
  handshake_loop-before (suc k) i id ludp source j h =
      handshake_loop-before k (i + 1) _ (fill_entry random_int ludp i (ip_port_byte source i))
        source j (omega arith)
      ∙ fill_entry-other ludp source i j (omega arith)

  handshake_loop-xor :
      (k i id : ℕ) (ludp : LosslessUdp) (source : IpPort)
      → let (ludp', x) = handshake_loop random_int k i id ludp source in
        x ≡ xor_entries k i id ludp' source
  unfolding handshake_loop xor_entries
  handshake_loop-xor zero i id ludp source = refl
  handshake_loop-xor (suc k) i id ludp source =
      let filled = fill_entry random_int ludp i (ip_port_byte source i) in
      handshake_loop-xor k (i + 1) (bit_xor id (entry filled source i)) filled source
      ∙ ap
          (λ e.
            xor_entries k (i + 1) (bit_xor id e)
              (handshake_loop random_int k (i + 1) (bit_xor id (entry filled source i)) filled
                source).0
              source)
          (sym (
            handshake_loop-before k (i + 1) (bit_xor id (entry filled source i)) filled source i
              (omega arith)))

  IsDrawn-step :
      (k i : ℕ) (ludp : LosslessUdp) (source : IpPort)
      → entry ludp source i ≢ 0
      → IsDrawn k (i + 1) ludp source
      → IsDrawn (suc k) i ludp source
  IsDrawn-step k i ludp source here above j lo hi = elim (ℕ_discrete i j) [
    | yes same ↦ subst (λ n. entry ludp source n ≢ 0) same here
    | no later ↦ above j (omega arith) (omega arith)
  ]

  handshake_loop-IsDrawn :
      (k i id : ℕ) (ludp : LosslessUdp) (source : IpPort)
      → let ludp' = (handshake_loop random_int k i id ludp source).0 in
        IsDrawn k i ludp' source ⊎ DrawsZero ludp ludp'
  unfolding handshake_loop
  handshake_loop-IsDrawn zero i id ludp source = inl (λ j lo hi. absurd (omega arith))
  handshake_loop-IsDrawn (suc k) i id ludp source =
      let filled = fill_entry random_int ludp i (ip_port_byte source i) in
      let id' = bit_xor id (entry filled source i) in
      let more = handshake_loop-draws k (i + 1) id' filled source in
      let first = fill_entry-drawn ludp source i in
      elim first.1 [
        | inr (n, lo, hi, z) ↦ inr (n, lo, omega (arith, more, hi), z)
        | inl here ↦ elim (handshake_loop-IsDrawn k (i + 1) id' filled source) [
          | inr (n, lo, hi, z) ↦ inr (n, omega (arith, first.0, lo), hi, z)
          | inl above ↦
              let kept = handshake_loop-before k (i + 1) id' filled source i (omega arith) in
              inl (
                IsDrawn-step k i (handshake_loop random_int k (i + 1) id' filled source).0 source
                  (subst (λ n. n ≢ 0) (sym kept) here) above)
        ]
      ]

  handshake_loop-again :
      (k i id : ℕ) (ludp : LosslessUdp) (source : IpPort)
      → IsDrawn k i ludp source
      → handshake_loop random_int k i id ludp source ≡ (ludp, xor_entries k i id ludp source)
  unfolding handshake_loop xor_entries
  handshake_loop-again zero i id ludp source drawn = refl
  handshake_loop-again (suc k) i id ludp source drawn =
      rw (fill_entry-same ludp source i (drawn i (omega arith) (omega arith))) (
        handshake_loop-again k (i + 1) (bit_xor id (entry ludp source i)) ludp source
          (λ j lo hi. drawn j (omega arith) (omega arith)))

  -- The handshake id of an address is not 0. Asking again gives the same id and draws no further
  -- random number, unless one of the draws of the first time was itself 0.
  pub handshake_id-stable :
      (ludp : LosslessUdp) (source : IpPort)
      → let (ludp', id) = handshake_id random_int ludp source in
        (id ≢ 0) × ((handshake_id random_int ludp' source ≡ (ludp', id)) ⊎ DrawsZero ludp ludp')
  unfolding handshake_id
  handshake_id-stable ludp source = (
    nonzero_id (handshake_loop random_int 6 0 0 ludp source).1,
    elim (handshake_loop-IsDrawn 6 0 0 ludp source) [
      | inl drawn ↦
          inl (ap (λ (r : LosslessUdp × ℕ). (r.0, if r.1 == 0 then 1 else r.1)) (again drawn))
      | inr zero_drawn ↦ inr zero_drawn
    ],
  )
    where
      again :
          IsDrawn 6 0 (handshake_loop random_int 6 0 0 ludp source).0 source
          → handshake_loop random_int 6 0 0 (handshake_loop random_int 6 0 0 ludp source).0 source
            ≡ handshake_loop random_int 6 0 0 ludp source
      again drawn =
          handshake_loop-again 6 0 0 (handshake_loop random_int 6 0 0 ludp source).0 source drawn
          ∙ ap (λ x. ((handshake_loop random_int 6 0 0 ludp source).0, x))
              (sym (handshake_loop-xor 6 0 0 ludp source))

      nonzero_id : (x : ℕ) → (if x == 0 then 1 else x) ≢ 0
      nonzero_id x = ground arith
