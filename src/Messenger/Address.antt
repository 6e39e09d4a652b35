-- ===== src/Messenger/Address.antt =====
-- The address that `getaddress` of toxcore/Messenger.c makes, given to `m_addfriend`.
use project_tox_core.Prelude.{
  ℕ, suc, ◌+◌, ◌%◌, ◌^◌, ◌≤◌, ◌<◌, ◌≡◌, ◌≢◌, refl, ap, ap₂, sym, subst, ◌∙◌, Bool, true, false,
  none, some, List, [], ◌∷◌, ◌++◌, ◌==◌, ltb, leb, if◌then◌else◌, arith, length, get_elem?, get_or,
  take, drop, bytes_eq, bytes32, Bool-cases, inl, inr, length-set, length-append, take-append,
  drop-append, take_all, append_assoc, bytes_eq_refl, bytes_eq→eq, get_elem?-set_self,
  get_elem?-append_end, get_or-get_elem?, ℕ_discrete,
}
use project_tox_core.FriendRequests.{Key, get_nospam}
use project_tox_core.Dht.{Env}
use project_tox_core.Dht.Friends.Known.{Knows, dht_addfriend-Knows}
use project_tox_core.Messenger.{
  Friend, zero_friend, Messenger, find_friend, getfriend_id, getclient_id, m_friendstatus,
  checksum_loop, address_checksum, getaddress,
}
use project_tox_core.Messenger.Adding.{
  read_le32, AddResult, added, put_friend, requested_friend, free_place, friend_or_new, add_new,
  add_or_renew, m_addfriend,
}

length-checksum_loop :
    (i : ℕ) (checksum address : List ℕ)
    → length (checksum_loop i checksum address) ≡ length checksum
unfolding checksum_loop
length-checksum_loop i checksum [] = refl
length-checksum_loop i checksum (b ∷ address) =
    length-checksum_loop (i + 1) _ address ∙ length-set checksum (i % 2) _

length-address_checksum : (address : List ℕ) → length (address_checksum address) ≡ 2
unfolding address_checksum
length-address_checksum address = length-checksum_loop 0 (0 ∷ 0 ∷ []) address

read_le32-bytes32 : (n : ℕ) → n < 2 ^ 32 → read_le32 (bytes32 n) ≡ n
read_le32-bytes32 n h = omega arith

record Fields (key : Key) (nospam : ℕ) (address : List ℕ) : Type 0 where
  id : take 32 address ≡ key
  nospam_bytes : take 4 (drop 32 address) ≡ bytes32 nospam
  checked : take 2 (drop 36 address) ≡ address_checksum (take 36 address)

getaddress-Fields :
    (m : Messenger)
    → length m.net_crypto.self_public_key ≡ 32
    → Fields m.net_crypto.self_public_key (get_nospam m.fr) (getaddress m)
unfolding getaddress
getaddress-Fields m h =
    let key = m.net_crypto.self_public_key in
    let front = key ++ bytes32 (get_nospam m.fr) in
    let check = address_checksum front in
    let size : length front ≡ 36 = omega (arith, length-append key (bytes32 (get_nospam m.fr))) in
    let split = append_assoc key (bytes32 (get_nospam m.fr)) check in
    record {
      id = ap (take 32) split ∙ take-append 32 key (bytes32 (get_nospam m.fr) ++ check) (sym h);
      nospam_bytes =
          ap (λ t. take 4 (drop 32 t)) split
          ∙ ap (take 4) (drop-append 32 key (bytes32 (get_nospam m.fr) ++ check) (sym h))
          ∙ take-append 4 (bytes32 (get_nospam m.fr)) check refl;
      checked =
          ap (take 2) (drop-append 36 front check (sym size))
          ∙ take_all 2 check (omega (arith, length-address_checksum front))
          ∙ ap address_checksum (sym (take-append 36 front check (sym size)));
    }

free_from :
    (test : Friend → Bool) (k : ℕ) (fs : List Friend) (f : Friend)
    → test f ≡ true
    → (i : ℕ) × (find_friend test k (fs ++ f ∷ []) ≡ some (k + i)) × (i ≤ length fs)
unfolding find_friend
free_from test k [] f e = (0, ground (arith, e), omega arith)
free_from test k (g ∷ fs) f e = elim (Bool-cases (test g)) [
  | inl here ↦ (0, rw here (ap some (omega arith)), omega arith)
  | inr on ↦
      let (i, found, h) = free_from test (k + 1) fs f e in
      (suc i, rw on (found ∙ ap some (omega arith)), omega arith)
]

free_place-found : (fs : List Friend) → (i : ℕ) × (free_place fs ≡ some i) × (i ≤ length fs)
unfolding free_place zero_friend
free_place-found fs =
    let (i, found, h) = free_from (λ f. f.status == 0) 0 fs zero_friend refl in
    (i, found ∙ ap some (omega arith), h)

put_friend-found :
    (fs : List Friend) (i : ℕ) (f : Friend)
    → i ≤ length fs
    → get_elem? (put_friend fs i f) i ≡ some f
put_friend-found fs i f h = elim (ℕ_discrete i (length fs)) [
  | yes end ↦ rw end (ground (arith, get_elem?-append_end fs f))
  | no inside ↦ ground (arith, get_elem?-set_self fs i f (omega arith))
]

differ : (a b : Key) → a ≢ b → bytes_eq b a ≡ false
differ a b ne = elim (Bool-cases (bytes_eq b a)) [
  | inl same ↦ absurd (ne (sym (bytes_eq→eq b a same)))
  | inr other ↦ other
]

with_memory : (b : Bool) (x y : Messenger × AddResult) → b ≡ true → (if b then x else y) ≡ x
with_memory b x y h = rw h refl

adds_new :
    (random_int : ℕ → ℕ) (env : Env) (us : Messenger) (key : Key) (nospam i : ℕ) (data' : List ℕ)
    → getfriend_id us key ≡ none
    → free_place us.friendlist ≡ some i
    → env.alloc_ok ≡ true
    → add_or_renew random_int env us key nospam data'
      ≡ add_new random_int env us key nospam data' (some i)
unfolding add_or_renew
adds_new random_int env us key nospam i data' new place memory =
    rw (new, place, add_or_renew) (with_memory env.alloc_ok _ _ memory)

adds :
    (random_int : ℕ → ℕ) (env : Env) (us : Messenger) (address data' : List ℕ) (key : Key)
    (nospam i : ℕ)
    → Fields key nospam address
    → nospam < 2 ^ 32
    → 0 < length data'
    → length data' < 984
    → bytes_eq key us.net_crypto.self_public_key ≡ false
    → getfriend_id us key ≡ none
    → free_place us.friendlist ≡ some i
    → env.alloc_ok ≡ true
    → m_addfriend random_int env us address data'
      ≡ add_new random_int env us key nospam data' (some i)
unfolding m_addfriend
adds random_int env us address data' key nospam i f small some_bytes few other new place memory =
    let long : leb 984 (length data') ≡ false = ground arith in
    let some_text : ltb (length data') 1 ≡ false = ground arith in
    let other' = ap (λ k. bytes_eq k us.net_crypto.self_public_key) f.id ∙ other in
    rw (long, f.checked, bytes_eq_refl (address_checksum (take 36 address)), some_text, other')
      (ap₂ (λ k n. add_or_renew random_int env us k n data') f.id
          (ap read_le32 f.nospam_bytes ∙ read_le32-bytes32 nospam small)
        ∙ adds_new random_int env us key nospam i data' new place memory)

new_friend :
    (random_int : ℕ → ℕ) (env : Env) (us : Messenger) (key : Key) (nospam i : ℕ) (data' : List ℕ)
    → i ≤ length us.friendlist
    → env.alloc_ok ≡ true
    → let (m, result) = add_new random_int env us key nospam data' (some i) in
      (result ≡ added i)
      × (m_friendstatus m (some i) ≡ 1)
      × (getclient_id m (some i) ≡ some key)
      × ((get_or m.friendlist i zero_friend).friendrequest_nospam ≡ nospam)
      × Knows key us.dht m.dht
unfolding add_new m_friendstatus getclient_id
new_friend random_int env us key nospam i data' h memory =
    let f = requested_friend (friend_or_new us.friendlist i) key nospam data' in
    let there = put_friend-found us.friendlist i f h in
    (
      refl,
      rw (there, m_friendstatus) refl,
      rw (there, getclient_id) refl,
      ap (λ (g : Friend). g.friendrequest_nospam)
          (get_or-get_elem? (put_friend us.friendlist i f) i zero_friend f there),
      dht_addfriend-Knows random_int env us.dht key memory,
    )

-- Given another user's address and a message of 1 to 983 bytes, `m_addfriend` accepts the address,
-- where there is memory, unless it is our own or that user is a friend already. The new friend has the user's key and is
-- added with the nospam number that the user set, and the hash table has a friend of that key: one
-- that it had before, or one that is added behind the keys that it had.
pub address_round_trip :
    (random_int : ℕ → ℕ) (env : Env) (us them : Messenger) (data' : List ℕ)
    → env.alloc_ok ≡ true
    → length them.net_crypto.self_public_key ≡ 32
    → get_nospam them.fr < 2 ^ 32
    → us.net_crypto.self_public_key ≢ them.net_crypto.self_public_key
    → getfriend_id us them.net_crypto.self_public_key ≡ none
    → 0 < length data'
    → length data' < 984
    → let (m, result) = m_addfriend random_int env us (getaddress them) data' in
      (i : ℕ) × (result ≡ added i)
      × (m_friendstatus m (some i) ≡ 1)
      × (getclient_id m (some i) ≡ some them.net_crypto.self_public_key)
      × ((get_or m.friendlist i zero_friend).friendrequest_nospam ≡ get_nospam them.fr)
      × Knows them.net_crypto.self_public_key us.dht m.dht
address_round_trip random_int env us them data' memory h32 small other new some_bytes few =
    let (i, place, h) = free_place-found us.friendlist in
    subst
      (λ (r : Messenger × AddResult).
        (k : ℕ) × (r.1 ≡ added k)
        × (m_friendstatus r.0 (some k) ≡ 1)
        × (getclient_id r.0 (some k) ≡ some them.net_crypto.self_public_key)
        × ((get_or r.0.friendlist k zero_friend).friendrequest_nospam ≡ get_nospam them.fr)
        × Knows them.net_crypto.self_public_key us.dht r.0.dht)
      (sym (
        adds random_int env us (getaddress them) data' them.net_crypto.self_public_key
          (get_nospam them.fr) i (getaddress-Fields them h32) small some_bytes few
          (differ us.net_crypto.self_public_key them.net_crypto.self_public_key other) new place
          memory))
      (let (a, b, c, d, e) =
          new_friend random_int env us them.net_crypto.self_public_key (get_nospam them.fr) i data'
            h memory in
        (i, a, b, c, d, e))
