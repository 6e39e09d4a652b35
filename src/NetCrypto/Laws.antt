-- ===== src/NetCrypto/Laws.antt =====
-- The table of encrypted connections of toxcore/net_crypto.c: closing one, the keys, and what holds
-- up the others.
use project_tox_core.Prelude.{
  ℕ, zero, suc, ◌+◌, ◌≤◌, ◌<◌, ◌≡◌, ◌≢◌, ◌⊎◌, dec_lt, ℕ_discrete, Option-cases, refl, ap, sym,
  subst, ◌∙◌, Bool, true, false, none, some, List, [], ◌∷◌, arith, length, get_elem?, get_or, set,
  take, inl, inr, take-append, drop-append, take_all, get_or-set_self, get_or-set_ne,
  get_or-get_elem?, get_elem?-inside,
}
use project_tox_core.Lossless.Table.{Env}
use project_tox_core.NetCrypto.{
  Box, CryptoConnection, NetCrypto, zero_crypto_connection, public_key_bytes,
}
use project_tox_core.NetCrypto.Table.{
  trim, crypto_at, crypto_kill, is_cryptoconnected, save_keys, load_keys,
}
use project_tox_core.NetCrypto.Loop.{
  goes_on, returns, packet_kind, receive_sent, receive_unconfirmed, receive_loop, receive_crypto,
}

-- Saved keys of 32 bytes each, loaded into any other state, are the same key pair.
pub save_keys_round_trip :
    (saved fresh : NetCrypto)
    → length saved.self_public_key ≡ public_key_bytes
    → length saved.self_secret_key ≡ public_key_bytes
    → let c = load_keys fresh (save_keys saved) in
      (c.self_public_key ≡ saved.self_public_key) × (c.self_secret_key ≡ saved.self_secret_key)
unfolding save_keys load_keys
save_keys_round_trip saved fresh hp hs = (
  take-append public_key_bytes saved.self_public_key saved.self_secret_key (sym hp),
  ap (take public_key_bytes)
        (drop-append public_key_bytes saved.self_public_key saved.self_secret_key (sym hp))
      ∙ take_all public_key_bytes saved.self_secret_key (omega arith),
)

abbrev status_in : List CryptoConnection → ℕ → ℕ
status_in ss i = (get_or ss i zero_crypto_connection).status

empty-status : (ss : List CryptoConnection) (i : ℕ) → length ss ≡ 0 → status_in ss i ≡ 0
empty-status [] i e = refl
empty-status (s ∷ ss) i e = absurd (omega arith)

-- Places that are cut off read as unused, which they were.
trim-status : (ss : List CryptoConnection) (i : ℕ) → status_in (trim ss) i ≡ status_in ss i
unfolding trim
trim-status [] i = refl
trim-status (s ∷ ss) zero = ground arith
trim-status (s ∷ ss) (suc i) = ground (arith, trim-status ss i, empty-status (trim ss) i)

get_or-none :
    (ss : List CryptoConnection) (i : ℕ)
    → get_elem? ss i ≡ none
    → get_or ss i zero_crypto_connection ≡ zero_crypto_connection
get_or-none [] i e = refl
get_or-none (s ∷ ss) zero e = absurd (cc)
get_or-none (s ∷ ss) (suc i) e = get_or-none ss i e

kill_used :
    (random_int : ℕ → ℕ) (box : Box) (env : Env) (c : NetCrypto) (i : ℕ) (s : CryptoConnection)
    → get_elem? c.crypto_connections i ≡ some s
    → s.status ≢ 0
    → let (c', done) = crypto_kill random_int box env c (some i) in
      (done ≡ true)
      × (c'.crypto_connections ≡ trim (set c.crypto_connections i zero_crypto_connection))
unfolding crypto_kill
kill_used random_int box env c i s e h = rw (e, crypto_kill) (ground arith)

kill_unused :
    (random_int : ℕ → ℕ) (box : Box) (env : Env) (c : NetCrypto) (i : ℕ) (s : CryptoConnection)
    → get_elem? c.crypto_connections i ≡ some s
    → s.status ≡ 0
    → crypto_kill random_int box env c (some i) ≡ (c, false)
unfolding crypto_kill
kill_unused random_int box env c i s e h = rw (e, h, crypto_kill) refl

kill_wrong :
    (random_int : ℕ → ℕ) (box : Box) (env : Env) (c : NetCrypto) (i : ℕ)
    → get_elem? c.crypto_connections i ≡ none
    → crypto_kill random_int box env c (some i) ≡ (c, false)
unfolding crypto_kill
kill_wrong random_int box env c i e = rw (e, crypto_kill) refl

-- `crypto_kill` of a connection that is in use leaves its place unused and the status of every
-- other connection as it was; for an unused place or a wrong id it changes nothing.
pub crypto_kill_exact :
    (random_int : ℕ → ℕ) (box : Box) (env : Env) (c : NetCrypto) (i j : ℕ)
    → i ≢ j
    → let (c', done) = crypto_kill random_int box env c (some i) in
      ((is_cryptoconnected c (some i) ≢ 0)
          × (done ≡ true)
          × (is_cryptoconnected c' (some i) ≡ 0)
          × (is_cryptoconnected c' (some j) ≡ is_cryptoconnected c (some j))
        ⊎ (is_cryptoconnected c (some i) ≡ 0) × (done ≡ false) × (c' ≡ c))
unfolding is_cryptoconnected
crypto_kill_exact random_int box env c i j ne =
    elim (Option-cases (get_elem? c.crypto_connections i)) [
      | inl e ↦
          let same = kill_wrong random_int box env c i e in
          inr (
            ap (λ (s : CryptoConnection). s.status) (get_or-none c.crypto_connections i e),
            ap (λ (r : NetCrypto × Bool). r.1) same,
            ap (λ (r : NetCrypto × Bool). r.0) same,
          )
      | inr (s, e) ↦
          let here = get_or-get_elem? c.crypto_connections i zero_crypto_connection s e in
          elim (ℕ_discrete s.status 0) [
            | yes free ↦
                let same = kill_unused random_int box env c i s e free in
                inr (
                  ap (λ (t : CryptoConnection). t.status) here ∙ free,
                  ap (λ (r : NetCrypto × Bool). r.1) same,
                  ap (λ (r : NetCrypto × Bool). r.0) same,
                )
            | no used ↦
                let (done, places) = kill_used random_int box env c i s e used in
                inl (
                  (λ z. used (sym (ap (λ (t : CryptoConnection). t.status) here) ∙ z)),
                  done,
                  ap (λ ss. status_in ss i) places
                      ∙ trim-status (set c.crypto_connections i zero_crypto_connection) i
                      ∙ ap (λ (t : CryptoConnection). t.status)
                          (get_or-set_self c.crypto_connections i zero_crypto_connection
                            zero_crypto_connection (get_elem?-inside c.crypto_connections i s e)),
                  (ap (λ ss. status_in ss j) places
                      ∙ trim-status (set c.crypto_connections i zero_crypto_connection) j
                      ∙ ap (λ (t : CryptoConnection). t.status)
                          (get_or-set_ne c.crypto_connections i j zero_crypto_connection
                            zero_crypto_connection ne)),
                )
          ]
    ]

passes :
    (random_int : ℕ → ℕ) (box : Box) (env : Env) (c : NetCrypto) (i : ℕ)
    → (crypto_at c i).status ≢ 1
    → receive_sent random_int box env c i ≡ some (goes_on c)
unfolding receive_sent
passes random_int box env c i h = ground arith

unused :
    (random_int : ℕ → ℕ) (box : Box) (env : Env) (c : NetCrypto) (i : ℕ)
    → (crypto_at c i).status ≢ 2
    → receive_unconfirmed random_int box env c i ≡ goes_on c
unfolding receive_unconfirmed
unused random_int box env c i h = ground arith

stops :
    (random_int : ℕ → ℕ) (box : Box) (env : Env) (c : NetCrypto) (i : ℕ)
    → (crypto_at c i).status ≡ 2
    → packet_kind c i ≡ none
    → receive_unconfirmed random_int box env c i ≡ returns c
unfolding receive_unconfirmed
stops random_int box env c i h silent = rw (h, silent) refl

held_up_from :
    (random_int : ℕ → ℕ) (box : Box) (env : Env) (c : NetCrypto) (i k m : ℕ)
    → (crypto_at c i).status ≡ 2
    → ((j : ℕ) → j < i → (crypto_at c j).status ≡ 0)
    → packet_kind c i ≡ none
    → m ≤ i
    → receive_loop random_int box k env c m ≡ some c
unfolding receive_loop
held_up_from random_int box env c i zero m waits before silent h = refl
held_up_from random_int box env c i (suc k) m waits before silent h = elim (dec_lt m i) [
  | yes below ↦
      rw
        (
          passes random_int box env c m (omega (arith, before m below)),
          unused random_int box env c m (omega (arith, before m below)),
          receive_loop,
        )
        (held_up_from random_int box env c i k (m + 1) waits before silent (omega arith))
  | no here ↦
      let same : i ≡ m = omega arith in
      let waits_here = subst (λ n. (crypto_at c n).status ≡ 2) same waits in
      let silent_here = subst (λ n. packet_kind c n ≡ none) same silent in
      rw
        (
          passes random_int box env c m (omega (arith, waits_here)),
          stops random_int box env c m waits_here silent_here,
          receive_loop,
        )
        refl
]

-- While a connection waits unconfirmed with no packet to read, and no connection before it is in
-- use, `receive_crypto` does nothing for any connection: also a handshake or a confirmation that
-- another connection has received stays unread.
pub receive_crypto_held_up :
    (random_int : ℕ → ℕ) (box : Box) (env : Env) (c : NetCrypto) (i : ℕ)
    → (crypto_at c i).status ≡ 2
    → ((j : ℕ) → j < i → (crypto_at c j).status ≡ 0)
    → packet_kind c i ≡ none
    → receive_crypto random_int box env c ≡ some c
unfolding receive_crypto
receive_crypto_held_up random_int box env c i waits before silent =
    held_up_from random_int box env c i _ 0 waits before silent (omega arith)
