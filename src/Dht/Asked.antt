-- ===== src/Dht/Asked.antt =====
-- The requests that wait for an answer in toxcore/DHT.c: `add_gettingnodes` and `is_gettingnodes`.
use project_tox_core.Prelude.{
  ℕ, zero, suc, ◌+◌, ◌^◌, ◌<◌, ◌≡◌, ◌≢◌, refl, ap, sym, ◌∙◌, subst, Bool, true, Option, none, some,
  List, [], ◌∷◌, arith, Bool-cases, inl, inr, Option-cases,
}
use project_tox_core.Network.{IpPort, ipp_eq_refl}
use project_tox_core.Ping.Packets.{random_64b}
use project_tox_core.Dht.{Pinged, Dht, is_timeout, ping_timeout}
use project_tox_core.Dht.Packets.{
  is_asked, any_asked, is_gettingnodes, put_asked, put_asked_within, add_gettingnodes,
}

-- A list that was found has the property.
abbrev Finds : (List Pinged → Type 0) → Option (List Pinged) → Type 0
Finds P none = Unit {0}
Finds P (some es) = P es

module _ (test : Pinged → Bool) (new : Pinged) (passes : test new ≡ true) where
  abbrev Asked : List Pinged → Type 0
  Asked es = any_asked test es ≡ true

  behind :
      (e : Pinged) (rest : Option (List Pinged))
      → Finds Asked rest
      → Finds Asked (elim rest [ none ↦ none | some es ↦ some (e ∷ es) ])
  unfolding any_asked
  behind e none h = tt
  behind e (some es) h = ground (arith, h)

  put_asked-Finds :
      (now timeout : ℕ) (es : List Pinged) → Finds Asked (put_asked now timeout new es)
  unfolding put_asked any_asked
  put_asked-Finds now timeout [] = tt
  put_asked-Finds now timeout (e ∷ es) = elim (Bool-cases (is_timeout now e.timestamp timeout)) [
    | inl old ↦ rw (old, put_asked) (rw passes refl)
    | inr waits ↦
        rw (waits, put_asked)
          (behind e (put_asked now timeout new es) (put_asked-Finds now timeout es))
  ]

  first_of :
      (a b : Option (List Pinged))
      → Finds Asked a
      → Finds Asked b
      → Finds Asked (elim a [ none ↦ b | some es ↦ some es ])
  first_of none b ha hb = hb
  first_of (some es) b ha hb = ha

  put_asked_within-Finds :
      (k now : ℕ) (es : List Pinged) → Finds Asked (put_asked_within k now new es)
  unfolding put_asked_within
  put_asked_within-Finds zero now es = tt
  put_asked_within-Finds (suc k) now es =
      first_of (put_asked now (suc k) new es) (put_asked_within k now new es)
        (put_asked-Finds now (suc k) es) (put_asked_within-Finds k now es)

abbrev new_entry : (ℕ → ℕ) → ℕ → Dht → IpPort → Pinged
new_entry random_int now dht ip_port = record {
  ip_port = ip_port;
  ping_id = random_64b random_int dht.drawn;
  timestamp = now;
}

passes_later :
    (now later ping_id : ℕ) (ip_port : IpPort)
    → later < now + 5
    → now + 5 < 2 ^ 64
    → ip_port.ip ≢ 0
    → ping_id ≢ 0
    → is_asked later ip_port ping_id
        (record { ip_port = ip_port; ping_id = ping_id; timestamp = now })
      ≡ true
unfolding is_timeout
passes_later now later ping_id ip_port soon small known asked = ground (arith, ipp_eq_refl ip_port)

abbrev outcome : Dht → ℕ → Option (List Pinged) → Dht × ℕ
outcome dht ping_id none = (dht, 0)
outcome dht ping_id (some es) = (record dht { send_nodes = es }, ping_id)

add_gettingnodes_lem :
    (random_int : ℕ → ℕ) (now : ℕ) (dht : Dht) (ip_port : IpPort)
    → add_gettingnodes random_int now dht ip_port
      ≡ outcome
          (record dht { drawn = dht.drawn + 2 })
          (random_64b random_int dht.drawn)
          (put_asked_within ping_timeout now (new_entry random_int now dht ip_port) dht.send_nodes)
unfolding add_gettingnodes
add_gettingnodes_lem random_int now dht ip_port =
    elim (Option-cases
      (put_asked_within ping_timeout now (new_entry random_int now dht ip_port) dht.send_nodes)) [
        | inl e ↦ rw (e, add_gettingnodes) refl
        | inr (es, e) ↦ rw (e, add_gettingnodes) refl
      ]

outcome_waits :
    (test : Pinged → Bool) (dht : Dht) (ping_id : ℕ) (o : Option (List Pinged))
    → Finds (λ es. any_asked test es ≡ true) o
    → (outcome dht ping_id o).1 ≢ 0
    → (any_asked test (outcome dht ping_id o).0.send_nodes ≡ true)
      × ((outcome dht ping_id o).1 ≡ ping_id)
      × ((outcome dht ping_id o).0.drawn ≡ dht.drawn)
outcome_waits test dht ping_id none f h = absurd (h refl)
outcome_waits test dht ping_id (some es) f h = (f, refl, refl)

outcome_zero :
    (dht : Dht) (ping_id : ℕ) (o : Option (List Pinged))
    → ping_id ≡ 0
    → (outcome dht ping_id o).1 ≡ 0
outcome_zero dht ping_id none e = refl
outcome_zero dht ping_id (some es) e = e

-- What is known of a request that was put in the table.
pub record Waits (random_int : ℕ → ℕ) (later : ℕ) (dht : Dht) (ip_port : IpPort) (r : Dht × ℕ)
    : Type 0 where
  pub drawn_id : r.1 ≡ random_64b random_int dht.drawn
  pub counted : r.0.drawn ≡ dht.drawn + 2
  pub found : is_gettingnodes later r.0 ip_port r.1 ≡ true

-- A request that found a free place is found by its address and id for the five seconds that follow.
pub added-is_gettingnodes :
    (random_int : ℕ → ℕ) (now later : ℕ) (dht : Dht) (ip_port : IpPort)
    → (add_gettingnodes random_int now dht ip_port).1 ≢ 0
    → ip_port.ip ≢ 0
    → later < now + 5
    → now + 5 < 2 ^ 64
    → Waits random_int later dht ip_port (add_gettingnodes random_int now dht ip_port)
unfolding is_gettingnodes
added-is_gettingnodes random_int now later dht ip_port free known soon small =
    let ping_id = random_64b random_int dht.drawn in
    let dht' : Dht = record dht { drawn = dht.drawn + 2 } in
    let new = new_entry random_int now dht ip_port in
    let o = put_asked_within ping_timeout now new dht.send_nodes in
    let e = add_gettingnodes_lem random_int now dht ip_port in
    let free' : (outcome dht' ping_id o).1 ≢ 0 = λ z. free (ap (λ (r : Dht × ℕ). r.1) e ∙ z) in
    let some_id : ping_id ≢ 0 = λ z. free' (outcome_zero dht' ping_id o z) in
    let test = is_asked later ip_port ping_id in
    let (waits, same, counted) =
      outcome_waits test dht' ping_id o
        (put_asked_within-Finds test new
          (passes_later now later ping_id ip_port soon small known some_id) ping_timeout now
          dht.send_nodes)
        free' in
    subst (λ r. Waits random_int later dht ip_port r) (sym e)
      record { drawn_id = same; counted = counted; found = rw same waits }
