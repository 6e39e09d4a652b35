-- ===== src/Lossless/Table/Full.antt =====
-- When toxcore/Lossless_UDP.c has no place for a new connection.
use project_tox_core.Prelude.{
  ℕ, ◌+◌, ◌≡◌, ◌≢◌, ◌↔◌, refl, Bool, true, false, Option, none, some, List, [], ◌∷◌, arith, All,
  Bool-cases, inl, inr, Option-cases,
}
use project_tox_core.ToxArray.{tox_array_push}
use project_tox_core.Network.{IpPort}
use project_tox_core.Lossless.{Connection, LosslessUdp}
use project_tox_core.Lossless.Table.{
  Env, find_index, is_unused, getconnection_id, find_place, new_connection, connect_at,
}

find_index-none :
    (test : Connection → Bool) (s : ℕ) (cs : List Connection)
    → (find_index test s cs ≡ none) ↔ All (λ c. test c ≡ false) cs
unfolding find_index
find_index-none test s [] = (λ e. tt, λ h. refl)
find_index-none test s (c ∷ cs) =
    let (there, back) = find_index-none test (s + 1) cs in
    elim (Bool-cases (test c)) [
      | inl hit ↦ rw hit (λ e. absurd (cc), λ h. absurd (let e : true ≡ false = h.0 in cc))
      | inr miss ↦ rw miss (λ e. (refl, there e), λ h. back h.1)
    ]

nonzero_iff :
    (cs : List Connection)
    → All (λ c. is_unused c ≡ false) cs ↔ All (λ (c : Connection). c.status ≢ 0) cs
nonzero_iff [] = (λ h. tt, λ h. tt)
nonzero_iff (c ∷ cs) =
    let (there, back) = nonzero_iff cs in
    (
      λ h. (let used = h.0 in ground (arith, used), there h.1),
      λ h. (let used = h.0 in ground (arith, used), back h.1),
    )

-- No place is unused, and there is no memory for one more.
abbrev pub IsFull : Env → LosslessUdp → Type 0
IsFull env ludp = All (λ (c : Connection). c.status ≢ 0) ludp.connections × (env.alloc_ok ≡ false)

find_place-none : (env : Env) (ludp : LosslessUdp) → (find_place env ludp ≡ none) ↔ IsFull env ludp
unfolding find_place tox_array_push
find_place-none env ludp =
    let (there, back) = find_index-none is_unused 0 ludp.connections in
    let (used, unused) = nonzero_iff ludp.connections in
    elim (Option-cases (find_index is_unused 0 ludp.connections)) [
      | inr (i, e) ↦
          rw (e, find_place) (λ f. absurd (cc), λ h. absurd (let f = back (unused h.0) in cc))
      | inl e ↦
          rw (e, find_place)
            (elim (Bool-cases env.alloc_ok) [
              | inl ok ↦ rw ok (λ f. absurd (cc), λ h. absurd (let f : true ≡ false = h.1 in cc))
              | inr full ↦ rw full (λ f. (used (there e), refl), λ h. refl)
            ])
    ]

connect_at-none :
    (random_int : ℕ → ℕ) (env : Env) (ludp : LosslessUdp) (ip_port : IpPort)
    (place : Option (List Connection × ℕ))
    → ((connect_at random_int env ludp ip_port place).1 ≡ none) ↔ (place ≡ none)
unfolding connect_at
connect_at-none random_int env ludp ip_port none = (λ e. refl, λ e. refl)
connect_at-none random_int env ludp ip_port (some (cs, i)) = (λ e. absurd (cc), λ e. absurd (cc))

pub refused_iff :
    (random_int : ℕ → ℕ) (env : Env) (ludp : LosslessUdp) (ip_port : IpPort)
    → ((new_connection random_int env ludp ip_port).1 ≡ none)
      ↔ (getconnection_id ludp ip_port ≡ none) × IsFull env ludp
unfolding new_connection
refused_iff random_int env ludp ip_port = elim (Option-cases (getconnection_id ludp ip_port)) [
  | inr (id, e) ↦ rw (e, new_connection) (λ f. absurd (cc), λ h. absurd (let f = h.0 in cc))
  | inl e ↦
      let (there, back) = connect_at-none random_int env ludp ip_port (find_place env ludp) in
      let (full, none_free) = find_place-none env ludp in
      rw (e, new_connection) (λ f. (refl, full (there f)), λ h. back (none_free h.1))
]
