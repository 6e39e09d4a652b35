-- ===== src/Lossless/Table/Free.antt =====
-- What `kill_connection` of toxcore/Lossless_UDP.c does to the other connections, through the
-- loop of `free_connections`, which looks one element too far.
use project_tox_core.Prelude.{
  ℕ, zero, suc, ◌-◌, ◌≤◌, ◌<◌, ◌≡◌, refl, sym, subst, ◌∙◌, ◌≢◌, true, none, some, List, [], arith,
  ◌==◌, ltb, if◌then◌else◌, length, get_elem?, get_or, set, take, get_elem?-take_above,
  get_or-get_elem?, get_elem?-inside, get_elem?-set_ne, get_elem?-set_self, ℕ_discrete,
}
use project_tox_core.ToxArray.{tox_array_pop}
use project_tox_core.Lossless.{Connection, zero_connection, LosslessUdp}
use project_tox_core.Lossless.Table.{
  Env, free_loop, free_connections, kill_connection, is_connected, change_handshake,
}

-- No connection behind number `i` is in use.
abbrev pub IsLast : List Connection → ℕ → Type 0
IsLast cs i = (j : ℕ) → i < j → j < length cs → (get_or cs j zero_connection).status ≡ 0

free_loop-last :
    (cs : List Connection) (n i : ℕ)
    → (get_or cs i zero_connection).status ≢ 0
    → i < length cs
    → IsLast cs i
    → i ≤ n
    → n ≤ length cs
    → free_loop 0 cs n ≡ i
unfolding free_loop
free_loop-last cs zero i live inside last h m = omega arith
free_loop-last cs (suc n) i live inside last h m = elim (ℕ_discrete i (suc n)) [
  | yes here ↦
      let live' = subst (λ k. (get_or cs k zero_connection).status ≢ 0) here live in
      ground (arith, live')
  | no below ↦
      ground
        (arith, last (suc n), free_loop-last cs n i live inside last (omega arith) (omega arith))
]

-- When the memory behind the array reads 0, `free_connections` cuts off the last connection that
-- is in use.
free_connections-drops_last :
    (env : Env) (cs : List Connection) (i : ℕ)
    → env.beyond ≡ 0
    → env.alloc_ok ≡ true
    → (get_or cs i zero_connection).status ≢ 0
    → i < length cs
    → IsLast cs i
    → get_elem? (free_connections env cs) i ≡ none
unfolding free_connections tox_array_pop
free_connections-drops_last env cs i zeroed ok live inside last =
    rw (zeroed, free_loop-last cs (length cs) i live inside last (omega arith) (omega arith))
      (cut (length cs - i) refl)
  where
    cut :
        (n : ℕ)
        → n ≡ length cs - i
        → get_elem?
            (if length cs == i
              then cs
              else if n == 0
              then cs
              else if ltb (length cs) n
              then cs
              else if length cs == n
              then []
              else if env.alloc_ok
              then take (length cs - n) cs
              else cs)
            i
          ≡ none
    cut n e = ground (arith, get_elem?-take_above cs (length cs - n) i (omega arith))

free_loop-stays :
    (beyond n : ℕ) (cs : List Connection) → beyond ≢ 0 → n ≡ length cs → free_loop beyond cs n ≡ n
unfolding free_loop
free_loop-stays beyond zero cs dirty e = refl
free_loop-stays beyond (suc n) cs dirty e = ground arith

free_connections-keeps :
    (env : Env) (cs : List Connection) → env.beyond ≢ 0 → free_connections env cs ≡ cs
unfolding free_connections
free_connections-keeps env cs dirty =
    ground (arith, free_loop-stays env.beyond (length cs) cs dirty)

kill_connection-live :
    (random_int : ℕ → ℕ) (env : Env) (ludp : LosslessUdp) (j : ℕ) (d : Connection)
    → get_elem? ludp.connections j ≡ some d
    → d.status ≢ 0
    → kill_connection random_int env ludp (some j) ≡ (
      record (change_handshake random_int ludp d.ip_port) {
        connections = free_connections env (set ludp.connections j zero_connection);
      },
      true,
    )
unfolding kill_connection
kill_connection-live random_int env ludp j d at live =
    let used : ltb 0 d.status ≡ true = ground arith in rw (at, kill_connection) (rw used)

-- Killing a connection takes another one with it: when the byte behind the array reads 0, the last
-- connection of the others that is in use is no longer known after `kill_connection`.
pub kill_connection-drops_last :
    (random_int : ℕ → ℕ) (env : Env) (ludp : LosslessUdp) (i j : ℕ) (c d : Connection)
    → env.beyond ≡ 0
    → env.alloc_ok ≡ true
    → get_elem? ludp.connections j ≡ some d
    → d.status ≢ 0
    → i ≢ j
    → get_elem? ludp.connections i ≡ some c
    → c.status ≢ 0
    → IsLast (set ludp.connections j zero_connection) i
    → let (ludp', done) = kill_connection random_int env ludp (some j) in
      (done ≡ true) × (is_connected ludp (some i) ≡ c.status) × (is_connected ludp' (some i) ≡ 0)
unfolding is_connected
kill_connection-drops_last random_int env ludp i j c d zeroed ok at_j live_j ne at_i live_i last =
    rw (kill_connection-live random_int env ludp j d at_j live_j)
      (refl, rw (at_i, is_connected), rw (gone, is_connected))
  where
    cs : List Connection
    cs = set ludp.connections j zero_connection

    kept : get_elem? cs i ≡ some c
    kept = get_elem?-set_ne ludp.connections j i zero_connection (λ e. ne (sym e)) ∙ at_i

    gone : get_elem? (free_connections env cs) i ≡ none
    gone =
        free_connections-drops_last env cs i zeroed ok
          (subst (λ (x : Connection). x.status ≢ 0)
            (sym (get_or-get_elem? cs i zero_connection c kept)) live_i)
          (get_elem?-inside cs i c kept) last

-- When that byte is not 0, `kill_connection` of a live connection frees its place and leaves every
-- other connection as it was.
pub kill_connection-keeps_others :
    (random_int : ℕ → ℕ) (env : Env) (ludp : LosslessUdp) (i j : ℕ) (d : Connection)
    → env.beyond ≢ 0
    → get_elem? ludp.connections j ≡ some d
    → d.status ≢ 0
    → i ≢ j
    → let (ludp', done) = kill_connection random_int env ludp (some j) in
      (done ≡ true)
      × (is_connected ludp' (some j) ≡ 0)
      × (get_elem? ludp'.connections i ≡ get_elem? ludp.connections i)
unfolding is_connected zero_connection
kill_connection-keeps_others random_int env ludp i j d dirty at_j live ne =
    rw
      (
        kill_connection-live random_int env ludp j d at_j live,
        free_connections-keeps env (set ludp.connections j zero_connection) dirty,
      )
      (
        refl,
        rw (
          get_elem?-set_self ludp.connections j zero_connection
              (get_elem?-inside ludp.connections j d at_j),
          is_connected,
        ),
        get_elem?-set_ne ludp.connections j i zero_connection (λ e. ne (sym e)),
      )
