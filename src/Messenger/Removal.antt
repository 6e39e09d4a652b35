-- ===== src/Messenger/Removal.antt =====
-- `m_delfriend` of toxcore/Messenger.c: who is still a friend afterwards.
use project_tox_core.Prelude.{
  ℕ, zero, suc, ◌<◌, ◌≡◌, ◌≢◌, refl, ap, sym, ◌∙◌, Bool, true, false, ◌||◌, Option, none, some,
  List, [], ◌∷◌, arith, length, ltb, lt→ltb, if◌then◌else◌, get_elem?, get_or, set, get_or-set_self,
  get_or-set_ne, get_or-get_elem?, Option-cases, inl, inr,
}
use project_tox_core.FriendRequests.{Key}
use project_tox_core.NetCrypto.{Box}
use project_tox_core.NetCrypto.Table.{crypto_kill, is_cryptoconnected}
use project_tox_core.Lossless.Table.{Env}
use project_tox_core.Dht.Friends.{dht_delfriend}
use project_tox_core.Dht.Friends.Known.{Forgets, dht_delfriend-Forgets}
use project_tox_core.Lossless.{ConnectionId}
use project_tox_core.NetCrypto.{NetCrypto}
use project_tox_core.NetCrypto.Laws.{crypto_kill_exact}
use project_tox_core.Messenger.{Friend, zero_friend, Messenger, getclient_id, m_friendstatus}
use project_tox_core.Messenger.Send.{number_at}
use project_tox_core.Messenger.Run.{World}
use project_tox_core.Messenger.Loop.{trim_friends, m_delfriend}

-- What can be seen of friend `i`.
abbrev seen : List Friend → ℕ → ℕ × Option Key
seen fs i =
    let f = get_or fs i zero_friend in (f.status, if ltb 0 f.status then some f.client_id else none)

outside : (fs : List Friend) (i : ℕ) → get_elem? fs i ≡ none → get_or fs i zero_friend ≡ zero_friend
outside [] i e = refl
outside (f ∷ fs) zero e = absurd (cc)
outside (f ∷ fs) (suc i) e = outside fs i e

unseen : (fs : List Friend) (i : ℕ) → length fs ≡ 0 → seen fs i ≡ (0, none)
unfolding zero_friend
unseen [] i e = refl
unseen (f ∷ fs) i e = absurd (omega arith)

seen-trim_friends : (fs : List Friend) (i : ℕ) → seen (trim_friends fs) i ≡ seen fs i
unfolding trim_friends zero_friend
seen-trim_friends [] i = refl
seen-trim_friends (f ∷ fs) zero = ground arith
seen-trim_friends (f ∷ fs) (suc i) =
    ground (arith, seen-trim_friends fs i, unseen (trim_friends fs) i)

m_friendstatus-seen : (m : Messenger) (i : ℕ) → m_friendstatus m (some i) ≡ (seen m.friendlist i).0
unfolding m_friendstatus zero_friend
m_friendstatus-seen m i = elim (Option-cases (get_elem? m.friendlist i)) [
  | inl e ↦ rw (e, outside m.friendlist i e, m_friendstatus) refl
  | inr (f, e) ↦ rw (e, get_or-get_elem? m.friendlist i zero_friend f e, m_friendstatus) refl
]

getclient_id-seen : (m : Messenger) (i : ℕ) → getclient_id m (some i) ≡ (seen m.friendlist i).1
unfolding getclient_id zero_friend
getclient_id-seen m i = elim (Option-cases (get_elem? m.friendlist i)) [
  | inl e ↦ rw (e, outside m.friendlist i e, getclient_id) refl
  | inr (f, e) ↦ rw (e, get_or-get_elem? m.friendlist i zero_friend f e, getclient_id) refl
]

or_true : (a b : Bool) → b ≡ true → (a || b) ≡ true
or_true true b h = refl
or_true false b h = h

-- What a friend's connection, if he has one, and another connection are after the first is killed.
killed :
    (random_int : ℕ → ℕ) (box : Box) (env : Env) (c : NetCrypto) (id : ConnectionId) (k : ℕ)
    → id ≢ some k
    → let c' = (crypto_kill random_int box env c id).0 in
      (is_cryptoconnected c' id ≡ 0)
      × (is_cryptoconnected c' (some k) ≡ is_cryptoconnected c (some k))
unfolding crypto_kill is_cryptoconnected
killed random_int box env c none k ne = (refl, refl)
killed random_int box env c (some i) k ne =
    let other : i ≢ k = λ e. ne (ap some e) in
    elim (crypto_kill_exact random_int box env c i k other) [
      | inl (_, _, unused, kept) ↦ (unused, kept)
      | inr (unused, _, same) ↦ (
        ap (λ (d : NetCrypto). is_cryptoconnected d (some i)) same ∙ unused,
        ap (λ (d : NetCrypto). is_cryptoconnected d (some k)) same,
      )
    ]

module _ (box : Box) (w : World) (m : Messenger) (i : ℕ) where
  abbrev removed : Messenger
  removed = record m {
    dht = (dht_delfriend w.unix m.dht (number_at m i).client_id).0;
    net_crypto =
        (crypto_kill w.random_net box w.net m.net_crypto (number_at m i).crypt_connection_id).0;
    friendlist = trim_friends (set m.friendlist i zero_friend);
  }

  deletes :
      i < length m.friendlist
      → w.unix.alloc_ok ≡ true
      → m_delfriend box w m (some i) ≡ (removed, true)
  unfolding m_delfriend
  deletes inside memory =
      rw (lt→ltb i (length m.friendlist) inside) (ap (λ b. (removed, b)) (or_true _ _ memory))

  seen_there : i < length m.friendlist → seen removed.friendlist i ≡ (0, none)
  unfolding zero_friend
  seen_there inside =
      seen-trim_friends (set m.friendlist i zero_friend) i
      ∙ ap (λ (f : Friend). (f.status, if ltb 0 f.status then some f.client_id else none))
          (get_or-set_self m.friendlist i zero_friend zero_friend inside)

  seen_elsewhere : (j : ℕ) → i ≢ j → seen removed.friendlist j ≡ seen m.friendlist j
  seen_elsewhere j other =
      seen-trim_friends (set m.friendlist i zero_friend) j
      ∙ ap (λ (f : Friend). (f.status, if ltb 0 f.status then some f.client_id else none))
          (get_or-set_ne m.friendlist i j zero_friend zero_friend other)

-- Removing a friend with enough memory succeeds: his number has no friend and no key afterwards,
-- every other number has the friend with the status and the key that it had. The hash table loses
-- one friend of his key, where it has one, and no other key. His encrypted connection is unused
-- afterwards, and the connection `k`, which is not his, has the status that it had.
pub m_delfriend_exact :
    (box : Box) (w : World) (m : Messenger) (i j k : ℕ)
    → i < length m.friendlist
    → i ≢ j
    → (number_at m i).crypt_connection_id ≢ some k
    → w.unix.alloc_ok ≡ true
    → let (m', done) = m_delfriend box w m (some i) in
      (done ≡ true)
      × (m_friendstatus m' (some i) ≡ 0)
      × (getclient_id m' (some i) ≡ none)
      × (m_friendstatus m' (some j) ≡ m_friendstatus m (some j))
      × (getclient_id m' (some j) ≡ getclient_id m (some j))
      × Forgets (number_at m i).client_id m.dht m'.dht
      × (is_cryptoconnected m'.net_crypto (number_at m i).crypt_connection_id ≡ 0)
      × (is_cryptoconnected m'.net_crypto (some k) ≡ is_cryptoconnected m.net_crypto (some k))
m_delfriend_exact box w m i j k inside other not_his memory =
    let there = seen_there box w m i inside in
    let elsewhere = seen_elsewhere box w m i j other in
    let m' = removed box w m i in
    let (his, kept) =
      killed w.random_net box w.net m.net_crypto (number_at m i).crypt_connection_id k not_his in
    rw (deletes box w m i inside memory) (
      refl,
      m_friendstatus-seen m' i ∙ ap (λ (p : ℕ × Option Key). p.0) there,
      getclient_id-seen m' i ∙ ap (λ (p : ℕ × Option Key). p.1) there,
      m_friendstatus-seen m' j
          ∙ ap (λ (p : ℕ × Option Key). p.0) elsewhere
          ∙ sym (m_friendstatus-seen m j),
      getclient_id-seen m' j
          ∙ ap (λ (p : ℕ × Option Key). p.1) elsewhere
          ∙ sym (getclient_id-seen m j),
      dht_delfriend-Forgets w.unix m.dht (number_at m i).client_id,
      his,
      kept,
    )
