-- ===== src/Lossless/Table/Lookup.antt =====
-- Opening connections in toxcore/Lossless_UDP.c, seen through `getconnection_id`.
use project_tox_core.Prelude.{
  ℕ, zero, suc, ◌+◌, ◌<◌, ◌≡◌, ◌↔◌, refl, ap, subst, ◌∙◌, Bool, true, false, Option, none, some,
  List, [], ◌∷◌, ◌++◌, arith, if◌then◌else◌, length, get_elem?, set, Bool-cases, inl, inr,
  Option-cases, get_elem?-append_end, get_elem?-inside, length-append,
}
use project_tox_core.ToxArray.{tox_array_push}
use native.Mathlib.Nat.{zero-add}
use project_tox_core.Network.{IpPort, ipp_eq, ipp_eq_iff, ipp_eq_refl}
use project_tox_core.Lossless.{Connection, zero_connection, LosslessUdp}
use project_tox_core.Lossless.Table.Full.{IsFull, refused_iff}
use project_tox_core.Lossless.Table.{
  Env, find_index, is_live_at, is_unused, getconnection_id, find_place, outgoing, new_connection,
  connect_at, handshake_id,
}

find_index-unused :
    (s : ℕ) (cs : List Connection) (i : ℕ)
    → find_index is_unused s cs ≡ some i
    → (j : ℕ) × (c : Connection) × (i ≡ s + j) × (get_elem? cs j ≡ some c) × (c.status ≡ 0)
unfolding find_index
find_index-unused s [] i e = absurd (cc)
find_index-unused s (c ∷ cs) i e = elim (Bool-cases (is_unused c)) [
  | inl unused ↦ (0, c, ground arith, refl, ground arith)
  | inr used ↦
      let (j, d, at, here, free) = find_index-unused (s + 1) cs i (ground arith) in
      (suc j, d, omega arith, here, free)
]

module _ (test : Connection → Bool) where
  -- Overwriting an item that fails the test by one that fails it as well.
  find_index-set_other :
      (s : ℕ) (cs : List Connection) (i : ℕ) (c x : Connection)
      → get_elem? cs i ≡ some c
      → test c ≡ false
      → test x ≡ false
      → find_index test s (set cs i x) ≡ find_index test s cs
  unfolding find_index
  find_index-set_other s [] i c x e h g = refl
  find_index-set_other s (y ∷ cs) zero c x e h g = ground arith
  find_index-set_other s (y ∷ cs) (suc i) c x e h g =
      rw (find_index-set_other (s + 1) cs i c x e h g) refl

  find_index-set_hit :
      (s : ℕ) (cs : List Connection) (i : ℕ) (x : Connection)
      → i < length cs
      → find_index test s cs ≡ none
      → test x ≡ true
      → find_index test s (set cs i x) ≡ some (s + i)
  unfolding find_index
  find_index-set_hit s [] i x h e g = absurd (omega arith)
  find_index-set_hit s (y ∷ cs) zero x h e g = ground arith
  find_index-set_hit s (y ∷ cs) (suc i) x h e g = elim (Bool-cases (test y)) [
    | inl hit ↦ absurd (ground arith)
    | inr miss ↦
        rw miss (ground (arith, find_index-set_hit (s + 1) cs i x (omega arith) (ground arith) g))
  ]

  find_index-append :
      (s : ℕ) (cs : List Connection) (x : Connection)
      → test x ≡ false
      → find_index test s (cs ++ x ∷ []) ≡ find_index test s cs
  unfolding find_index
  find_index-append s [] x h = rw h
  find_index-append s (y ∷ cs) x h = rw (find_index-append (s + 1) cs x h) refl

-- What `find_place` finds: an unused place in an array with the same live connections.
record IsPlace (cs cs' : List Connection) (i : ℕ) : Type 0 where
  item : Connection
  here : get_elem? cs' i ≡ some item
  unused : item.status ≡ 0
  same :
      (ip_port : IpPort)
      → find_index (is_live_at ip_port) 0 cs' ≡ find_index (is_live_at ip_port) 0 cs

abbrev Places : Env → LosslessUdp → Option (List Connection × ℕ) → Type 0
Places env ludp none = Unit {0}
Places env ludp (some (cs', i)) = IsPlace ludp.connections cs' i

unlisted : (ip_port : IpPort) (c : Connection) → c.status ≡ 0 → is_live_at ip_port c ≡ false
unlisted ip_port c h = ground arith

find_place-Places : (env : Env) (ludp : LosslessUdp) → Places env ludp (find_place env ludp)
unfolding find_place tox_array_push zero_connection
find_place-Places env ludp = elim (Option-cases (find_index is_unused 0 ludp.connections)) [
  | inr (i, e) ↦
      let (j, c, at, here, free) = find_index-unused 0 ludp.connections i e in
      let same : j ≡ i = omega arith in
      rw (e, Places, find_place)
        (record {
          item = c;
          here = subst (λ k. get_elem? ludp.connections k ≡ some c) same here;
          unused = free;
          same = λ ip_port. refl;
        })
  | inl e ↦
      rw (e, Places, find_place)
        (elim (Bool-cases env.alloc_ok) [
          | inr full ↦ rw (full, Places) tt
          | inl ok ↦
              rw (ok, Places)
                (record {
                  item = zero_connection;
                  here =
                      subst
                        (λ k.
                          get_elem? (ludp.connections ++ zero_connection ∷ []) k
                          ≡ some zero_connection)
                        (omega (arith, length-append ludp.connections (zero_connection ∷ [])))
                        (get_elem?-append_end ludp.connections zero_connection);
                  unused = refl;
                  same = λ ip_port.
                      find_index-append (is_live_at ip_port) 0 ludp.connections zero_connection
                        (unlisted ip_port zero_connection refl);
                })
        ])
]

live_at :
    (ip_port : IpPort) (x : Connection)
    → 0 < x.status
    → is_live_at ip_port x ≡ ipp_eq x.ip_port ip_port
unfolding ipp_eq
live_at ip_port x h = ground arith

-- A live connection put in an unused place is found by its address, and hides no other.
getconnection_id-placed :
    (cs cs' : List Connection) (i : ℕ) (x : Connection) (ip_port : IpPort)
    → IsPlace cs cs' i
    → find_index (is_live_at x.ip_port) 0 cs ≡ none
    → 0 < x.status
    → find_index (is_live_at ip_port) 0 (set cs' i x)
      ≡ (if ipp_eq x.ip_port ip_port then some i else find_index (is_live_at ip_port) 0 cs)
getconnection_id-placed cs cs' i x ip_port p absent live =
    elim (Bool-cases (ipp_eq x.ip_port ip_port)) [
      | inl same ↦ rw same (
          subst (λ a. find_index (is_live_at a) 0 (set cs' i x) ≡ some i)
            ((ipp_eq_iff x.ip_port ip_port).0 same)
            (find_index-set_hit (is_live_at x.ip_port) 0 cs' i x
                (get_elem?-inside cs' i p.item p.here) (p.same x.ip_port ∙ absent)
                (live_at x.ip_port x live ∙ ipp_eq_refl x.ip_port)
              ∙ ap some (zero-add i)))
      | inr other ↦ rw other (
          find_index-set_other (is_live_at ip_port) 0 cs' i p.item x p.here
            (unlisted ip_port p.item p.unused) (live_at ip_port x live ∙ other)
          ∙ p.same ip_port)
    ]

connect_at-found :
    (random_int : ℕ → ℕ) (env : Env) (ludp : LosslessUdp) (ip_port other : IpPort)
    (place : Option (List Connection × ℕ))
    → getconnection_id ludp ip_port ≡ none
    → Places env ludp place
    → let (ludp', id) = connect_at random_int env ludp ip_port place in
      getconnection_id ludp' other
      ≡ (if ipp_eq ip_port other then id else getconnection_id ludp other)
unfolding connect_at getconnection_id
connect_at-found random_int env ludp ip_port other none e p =
    elim (Bool-cases (ipp_eq ip_port other)) [
      | inl same ↦ rw same (
          subst (λ a. find_index (is_live_at a) 0 ludp.connections ≡ none)
            ((ipp_eq_iff ip_port other).0 same) e)
      | inr differs ↦ rw differs refl
    ]
connect_at-found random_int env ludp ip_port other (some (cs, i)) e p =
    getconnection_id-placed ludp.connections cs i
      (outgoing env ip_port (handshake_id random_int ludp ip_port).1) other p e (omega arith)

found_after :
    (random_int : ℕ → ℕ) (env : Env) (ludp : LosslessUdp) (ip_port other : IpPort)
    → let (ludp', id) = new_connection random_int env ludp ip_port in
      getconnection_id ludp' other
      ≡ (if ipp_eq ip_port other then id else getconnection_id ludp other)
unfolding new_connection
found_after random_int env ludp ip_port other =
    elim (Option-cases (getconnection_id ludp ip_port)) [
      | inr (id, e) ↦
          rw (e, new_connection)
            (elim (Bool-cases (ipp_eq ip_port other)) [
              | inl same ↦ rw same (
                  subst (λ a. getconnection_id ludp a ≡ some id) ((ipp_eq_iff ip_port other).0 same)
                    e)
              | inr differs ↦ rw differs refl
            ])
      | inl e ↦
          rw (e, new_connection)
            (connect_at-found random_int env ludp ip_port other (find_place env ludp) e
              (find_place-Places env ludp))
    ]

-- Looked up after `new_connection`, the address has the id that was returned, and every other
-- address has the id that it had. No id is returned exactly where the address had no connection, no
-- place of the table is unused and there is no memory for one more.
pub getconnection_id-new_connection :
    (random_int : ℕ → ℕ) (env : Env) (ludp : LosslessUdp) (ip_port other : IpPort)
    → let (ludp', id) = new_connection random_int env ludp ip_port in
      (getconnection_id ludp' other
        ≡ (if ipp_eq ip_port other then id else getconnection_id ludp other))
      × ((id ≡ none) ↔ (getconnection_id ludp ip_port ≡ none) × IsFull env ludp)
getconnection_id-new_connection random_int env ludp ip_port other =
    (found_after random_int env ludp ip_port other, refused_iff random_int env ludp ip_port)
