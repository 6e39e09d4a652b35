-- ===== src/Dht/Friends/Removal.antt =====
-- `DHT_delfriend` of toxcore/DHT.c: which friends are left, and what stands under their keys.
use project_tox_core.Prelude.{
  ℕ, zero, suc, ◌+◌, ◌-◌, ◌<◌, ◌≡◌, refl, ap, sym, ◌∙◌, subst, Bool, true, false, List, [], ◌∷◌,
  arith, length, get_or, set, take, ◌==◌, Bool-cases, inl, inr, if◌then◌else◌, some, ◌+◌, bytes_eq,
  bytes_eq→eq,
}
use mathlib.Core.Option.{some-injective}
use mathlib.Core.List.{Perm, Permᴰ}
use mathlib.Core.List.Permᴰ
use project_tox_core.FriendRequests.{Key}
use project_tox_core.Dht.{ClientData, DhtFriend, Dht, Env, zero_dht_friend}
use project_tox_core.Dht.Friends.{delete_at, number_from, friend_number, dht_delfriend}

module _ {ℓ} {A : Type ℓ} where
  last_first :
      (xs : List A) (n : ℕ) (d : A) → length xs ≡ suc n → Permᴰ (get_or xs n d ∷ take n xs) xs
  last_first [] n d h = absurd (omega arith)
  last_first (x ∷ []) zero d h = Permᴰ.refl (x ∷ [])
  last_first (x ∷ y ∷ xs) zero d h = absurd (omega arith)
  last_first (x ∷ xs) (suc n) d h =
      Permᴰ.trans (Permᴰ.swap refl refl) (Permᴰ.cons refl (last_first xs n d (omega arith)))

  -- The last item goes to the place of one that is taken out.
  moved_last :
      (xs : List A) (i n : ℕ) (d : A)
      → length xs ≡ suc n
      → i < n
      → Permᴰ (get_or xs i d ∷ take n (set xs i (get_or xs n d))) xs
  moved_last [] i n d h k = absurd (omega arith)
  moved_last (x ∷ xs) i zero d h k = absurd (omega arith)
  moved_last (x ∷ xs) zero (suc n) d h k = Permᴰ.cons refl (last_first xs n d (omega arith))
  moved_last (x ∷ xs) (suc i) (suc n) d h k =
      Permᴰ.trans (Permᴰ.swap refl refl)
        (Permᴰ.cons refl (moved_last xs i n d (omega arith) (omega arith)))

abbrev pub keys : List DhtFriend → List Key
keys [] = []
keys (f ∷ fs) = f.client_id ∷ keys fs

abbrev pub clients_at : List DhtFriend → ℕ → List ClientData
clients_at fs i = (get_or fs i zero_dht_friend).client_list

abbrev pub key_at : List DhtFriend → ℕ → Key
key_at fs i = (get_or fs i zero_dht_friend).client_id

length-keys : (fs : List DhtFriend) → length (keys fs) ≡ length fs
length-keys [] = refl
length-keys (f ∷ fs) = ap suc (length-keys fs)

keys-at : (fs : List DhtFriend) (i : ℕ) → get_or (keys fs) i zero_dht_friend.client_id ≡ key_at fs i
keys-at [] i = refl
keys-at (f ∷ fs) zero = refl
keys-at (f ∷ fs) (suc i) = keys-at fs i

keys-take : (n : ℕ) (fs : List DhtFriend) → keys (take n fs) ≡ take n (keys fs)
keys-take zero fs = refl
keys-take (suc n) [] = refl
keys-take (suc n) (f ∷ fs) = ap (λ t. f.client_id ∷ t) (keys-take n fs)

abbrev with_key : List DhtFriend → ℕ → Key → List DhtFriend
with_key fs i k = set fs i (record (get_or fs i zero_dht_friend) { client_id = k })

keys-with_key : (fs : List DhtFriend) (i : ℕ) (k : Key) → keys (with_key fs i k) ≡ set (keys fs) i k
keys-with_key [] i k = refl
keys-with_key (f ∷ fs) zero k = refl
keys-with_key (f ∷ fs) (suc i) k = ap (λ t. f.client_id ∷ t) (keys-with_key fs i k)

clients_with_key :
    (fs : List DhtFriend) (i j : ℕ) (k : Key) → clients_at (with_key fs i k) j ≡ clients_at fs j
clients_with_key [] i j k = refl
clients_with_key (f ∷ fs) zero zero k = refl
clients_with_key (f ∷ fs) zero (suc j) k = refl
clients_with_key (f ∷ fs) (suc i) zero k = refl
clients_with_key (f ∷ fs) (suc i) (suc j) k = clients_with_key fs i j k

clients_take : (n j : ℕ) (fs : List DhtFriend) → j < n → clients_at (take n fs) j ≡ clients_at fs j
clients_take zero j fs h = absurd (omega arith)
clients_take (suc n) j [] h = refl
clients_take (suc n) zero (f ∷ fs) h = refl
clients_take (suc n) (suc j) (f ∷ fs) h = clients_take n j fs (omega arith)

-- What `delete_at` leaves, with the friends from place `i` moved or not.
abbrev moved : List DhtFriend → ℕ → ℕ → List DhtFriend
moved fs i n = if n == i then fs else with_key fs i (key_at fs n)

moved_keys :
    (fs : List DhtFriend) (i n : ℕ)
    → length fs ≡ suc n
    → i < suc n
    → Permᴰ (key_at fs i ∷ keys (take n (moved fs i n))) (keys fs)
moved_keys fs i n h k = elim (Bool-cases (n == i)) [
  | inl last ↦
      let e : n ≡ i = ground arith in
      let p = last_first (keys fs) n zero_dht_friend.client_id (length-keys fs ∙ h) in
      rw last (
        subst (λ t. Permᴰ (key_at fs i ∷ t) (keys fs)) (sym (keys-take n fs))
          (subst (λ t. Permᴰ (t ∷ take n (keys fs)) (keys fs)) (keys-at fs n ∙ ap (key_at fs) e) p))
  | inr before ↦
      let small : i < n = ground arith in
      let p = moved_last (keys fs) i n zero_dht_friend.client_id (length-keys fs ∙ h) small in
      let same =
        keys-take n (with_key fs i (key_at fs n))
        ∙ ap (take n)
            (keys-with_key fs i (key_at fs n) ∙ ap (set (keys fs) i) (sym (keys-at fs n))) in
      rw before (
        subst (λ t. Permᴰ (key_at fs i ∷ t) (keys fs)) (sym same)
          (subst
            (λ t.
              Permᴰ (t ∷ take n (set (keys fs) i (get_or (keys fs) n zero_dht_friend.client_id)))
                (keys fs))
            (keys-at fs i) p))
]

moved_clients :
    (fs : List DhtFriend) (i n j : ℕ)
    → j < n
    → clients_at (take n (moved fs i n)) j ≡ clients_at fs j
moved_clients fs i n j h = clients_take n j (moved fs i n) h ∙ (elim (Bool-cases (n == i)) [
  | inl last ↦ rw last refl
  | inr before ↦ rw before (clients_with_key fs i j (key_at fs n))
])

delete_at_lem :
    (alloc_ok : Bool) (fs : List DhtFriend) (i j : ℕ)
    → i < length fs
    → suc j < length fs
    → let fs' = (delete_at alloc_ok fs i).0 in
      Perm (key_at fs i ∷ keys fs') (keys fs) × (clients_at fs' j ≡ clients_at fs j)
unfolding delete_at
delete_at_lem alloc_ok fs i j hi hj =
    let n = length fs - 1 in
    let more : (n == 0) ≡ false = ground arith in
    rw more
      (∣ moved_keys fs i n (omega arith) (omega arith) ∣₁, moved_clients fs i n j (omega arith))

-- The removed key is the only one that is gone, also where it was the last friend.
pub delete_at-keys :
    (alloc_ok : Bool) (fs : List DhtFriend) (i : ℕ)
    → i < length fs
    → Perm (key_at fs i ∷ keys (delete_at alloc_ok fs i).0) (keys fs)
unfolding delete_at
delete_at-keys alloc_ok fs i h =
    let n = length fs - 1 in
    let p = moved_keys fs i n (omega arith) (omega arith) in
    elim (Bool-cases (n == 0)) [
      | inl last ↦
          let e : n ≡ 0 = ground arith in
          let q = subst (λ t. Permᴰ (key_at fs i ∷ keys (take t (moved fs i n))) (keys fs)) e p in
          rw last (∣ q ∣₁)
      | inr more ↦ rw more (∣ p ∣₁)
    ]

pub here_lem :
    (k : ℕ) (client_id : Key) (f : DhtFriend) (fs : List DhtFriend)
    → bytes_eq f.client_id client_id ≡ true
    → number_from k client_id (f ∷ fs) ≡ some k
unfolding number_from
here_lem k client_id f fs h = rw h refl

pub on_lem :
    (k : ℕ) (client_id : Key) (f : DhtFriend) (fs : List DhtFriend)
    → bytes_eq f.client_id client_id ≡ false
    → number_from k client_id (f ∷ fs) ≡ number_from (k + 1) client_id fs
unfolding number_from
on_lem k client_id f fs h = rw h refl

pub found_at :
    (k : ℕ) (client_id : Key) (fs : List DhtFriend) (i : ℕ)
    → number_from k client_id fs ≡ some i
    → (n : ℕ) × (i ≡ k + n) × (n < length fs) × (key_at fs n ≡ client_id)
unfolding number_from
found_at k client_id [] i e = absurd (cc)
found_at k client_id (f ∷ fs) i e = elim (Bool-cases (bytes_eq f.client_id client_id)) [
  | inl here ↦
      let at_k = sym (here_lem k client_id f fs here) ∙ e in
      (
        0,
        omega (arith, some-injective k i at_k),
        omega arith,
        bytes_eq→eq f.client_id client_id here,
      )
  | inr on ↦
      let (n, e', h, same) =
        found_at (k + 1) client_id fs i (sym (on_lem k client_id f fs on) ∙ e) in
      (suc n, omega arith, omega arith, same)
]

-- DHT_delfriend of a friend who is there, with another friend left: the keys of the friends are as
-- before but for one occurrence of the removed key, yet the list of clients in every place that is
-- left is the one that stood there before. Where the last key has moved to the place of the removed
-- one, its friend is left with the clients of the removed friend.
pub dht_delfriend-keeps_places :
    (env : Env) (dht : Dht) (client_id : Key) (i j : ℕ)
    → friend_number dht client_id ≡ some i
    → suc j < length dht.friends_list
    → let (dht', done) = dht_delfriend env dht client_id in
      Perm (client_id ∷ keys dht'.friends_list) (keys dht.friends_list)
      × (clients_at dht'.friends_list j ≡ clients_at dht.friends_list j)
unfolding dht_delfriend friend_number
dht_delfriend-keeps_places env dht client_id i j e h =
    let (n, at_n, inside, same) = found_at 0 client_id dht.friends_list i e in
    let (p, q) = delete_at_lem env.alloc_ok dht.friends_list i j (omega arith) h in
    rw (e, dht_delfriend)
      (
        subst
            (λ k.
              Perm (k ∷ keys (delete_at env.alloc_ok dht.friends_list i).0) (keys dht.friends_list))
            (ap (key_at dht.friends_list) (let s : i ≡ n = omega arith in s) ∙ same) p,
        q,
      )
