-- ===== src/Dht/Lists/Learnt.antt =====
-- `addto_lists` of toxcore/DHT.c at all the lists of a node.
use project_tox_core.Prelude.{◌≡◌, refl, List, [], ◌∷◌, map, ℕ}
use project_tox_core.Network.{IpPort}
use project_tox_core.FriendRequests.{Key}
use project_tox_core.Dht.{DhtFriend, Dht}
use project_tox_core.Dht.Lists.{addto_list, addto_lists}
use project_tox_core.Dht.Lists.Adding.{Added, addto_list-Added}

module _ (now : ℕ) (client_id : Key) (ip_port : IpPort) where
  -- The same friends, each with the client added to his list of the clients close to him.
  abbrev pub FriendsLearn : List DhtFriend → List DhtFriend → Type 0
  FriendsLearn [] [] = Unit {0}
  FriendsLearn [] (g ∷ gs) = ⊥
  FriendsLearn (f ∷ fs) [] = ⊥
  FriendsLearn (f ∷ fs) (g ∷ gs) =
      (g ≡ record f { client_list = g.client_list })
      × Added now client_id ip_port f.client_id f.client_list g.client_list
      × FriendsLearn fs gs

  abbrev learning : DhtFriend → DhtFriend
  learning f = record f { client_list = addto_list now client_id ip_port f.client_id f.client_list }

  learning-FriendsLearn : (fs : List DhtFriend) → FriendsLearn fs (map learning fs)
  learning-FriendsLearn [] = tt
  learning-FriendsLearn (f ∷ fs) = (
    refl,
    addto_list-Added now client_id ip_port f.client_id f.client_list,
    learning-FriendsLearn fs,
  )

  -- A node with this key learns of the client: the list of the clients close to it and the list of
  -- every friend take it up where they have room for it, and nothing else changes.
  pub record Learnt (self_public_key : Key) (dht dht' : Dht) : Type 0 where
    pub close :
        Added now client_id ip_port self_public_key dht.close_clientlist dht'.close_clientlist
    pub friends : FriendsLearn dht.friends_list dht'.friends_list
    pub rest :
        dht'
        ≡ record dht { close_clientlist = dht'.close_clientlist; friends_list = dht'.friends_list }

  pub addto_lists-Learnt :
      (self_public_key : Key) (dht : Dht)
      → Learnt self_public_key dht (addto_lists now self_public_key dht ip_port client_id)
  unfolding addto_lists
  addto_lists-Learnt self_public_key dht = record {
    close = addto_list-Added now client_id ip_port self_public_key dht.close_clientlist;
    friends = learning-FriendsLearn dht.friends_list;
    rest = refl;
  }
