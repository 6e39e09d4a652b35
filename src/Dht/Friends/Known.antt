-- ===== src/Dht/Friends/Known.antt =====
-- The keys of the friends of toxcore/DHT.c after `DHT_addfriend` and `DHT_delfriend`.
use project_tox_core.Prelude.{
  ℕ, ◌+◌, ◌≡◌, ◌⊎◌, inl, inr, refl, ap, sym, subst, ◌∙◌, true, none, some, List, [], ◌∷◌, ◌++◌,
  arith, length, bytes_eq, bytes_eq_refl, Bool-cases, Option-cases,
}
use mathlib.Core.List.{Perm}
use project_tox_core.FriendRequests.{Key}
use project_tox_core.Dht.{DhtFriend, Dht, Env}
use project_tox_core.Dht.Friends.{
  number_from, friend_number, dht_addfriend, delete_at, dht_delfriend,
}
use project_tox_core.Dht.Friends.Removal.{keys, key_at, delete_at-keys, here_lem, on_lem, found_at}

keys-append :
    (fs : List DhtFriend) (f : DhtFriend) → keys (fs ++ f ∷ []) ≡ keys fs ++ f.client_id ∷ []
keys-append [] f = refl
keys-append (g ∷ fs) f = ap (λ t. g.client_id ∷ t) (keys-append fs f)

number_from-append :
    (k : ℕ) (fs : List DhtFriend) (f : DhtFriend)
    → number_from k f.client_id fs ≡ none
    → number_from k f.client_id (fs ++ f ∷ []) ≡ some (k + length fs)
unfolding number_from
number_from-append k [] f e =
    here_lem k f.client_id f [] (bytes_eq_refl f.client_id) ∙ ap some (omega arith)
number_from-append k (g ∷ fs) f e = elim (Bool-cases (bytes_eq g.client_id f.client_id)) [
  | inl here ↦ absurd (let found = sym (here_lem k f.client_id g fs here) ∙ e in cc)
  | inr on ↦
      on_lem k f.client_id g (fs ++ f ∷ []) on
      ∙ number_from-append (k + 1) fs f (sym (on_lem k f.client_id g fs on) ∙ e)
      ∙ ap some (omega arith)
]

-- The hash table has a friend of this key: it had one before and is as it was, or one is added
-- behind the others.
pub record Knows (client_id : Key) (dht dht' : Dht) : Type 0 where
  pub place : ℕ
  pub found : friend_number dht' client_id ≡ some place
  pub others :
      (dht' ≡ dht)
      ⊎ (friend_number dht client_id ≡ none)
        × (keys dht'.friends_list ≡ keys dht.friends_list ++ client_id ∷ [])
        × (dht'.close_clientlist ≡ dht.close_clientlist)

pub dht_addfriend-Knows :
    (random_int : ℕ → ℕ) (env : Env) (dht : Dht) (client_id : Key)
    → env.alloc_ok ≡ true
    → Knows client_id dht (dht_addfriend random_int env dht client_id).0
unfolding dht_addfriend friend_number
dht_addfriend-Knows random_int env dht client_id memory =
    elim (Option-cases (friend_number dht client_id)) [
      | inr (i, e) ↦ rw (e, dht_addfriend) (record { place = i; found = e; others = inl refl })
      | inl e ↦
          rw (e, memory, dht_addfriend)
            (record {
              place = 0 + length dht.friends_list;
              found = number_from-append 0 dht.friends_list _ e;
              others = inr (e, keys-append dht.friends_list _, refl);
            })
    ]

-- The hash table forgets one friend of this key, if it has one, and no other key.
pub data Forgets (client_id : Key) (dht : Dht) : Dht → Type 0 where
  unknown : friend_number dht client_id ≡ none → Forgets client_id dht dht
  forgotten :
      (i : ℕ) (dht' : Dht)
      → friend_number dht client_id ≡ some i
      → Perm (client_id ∷ keys dht'.friends_list) (keys dht.friends_list)
      → dht' ≡ record dht { friends_list = dht'.friends_list }
      → Forgets client_id dht dht'

pub dht_delfriend-Forgets :
    (env : Env) (dht : Dht) (client_id : Key)
    → Forgets client_id dht (dht_delfriend env dht client_id).0
unfolding dht_delfriend friend_number
dht_delfriend-Forgets env dht client_id = elim (Option-cases (friend_number dht client_id)) [
  | inl e ↦ rw (e, dht_delfriend) (unknown e)
  | inr (i, e) ↦
      let (n, at_n, inside, same) = found_at 0 client_id dht.friends_list i e in
      let at_i : i ≡ n = omega arith in
      let p = delete_at-keys env.alloc_ok dht.friends_list i (omega arith) in
      rw (e, dht_delfriend)
        (forgotten i (record dht { friends_list = (delete_at env.alloc_ok dht.friends_list i).0 }) e
          (subst
            (λ k.
              Perm (k ∷ keys (delete_at env.alloc_ok dht.friends_list i).0) (keys dht.friends_list))
            (ap (key_at dht.friends_list) at_i ∙ same) p)
          refl)
]
