-- ===== src/Dht/Lookup.antt =====
-- A get nodes request of toxcore/DHT.c, its answer, and what is made of it.
use project_tox_core.Prelude.{
  ℕ, ◌+◌, ◌^◌, ◌≤◌, ◌<◌, ◌≡◌, ◌≢◌, true, subst, refl, false, some, List, [], ◌∷◌, arith, ◌==◌,
  length, take, drop, length-take, bytes_eq,
}
use project_tox_core.Network.{IpPort}
use project_tox_core.FriendRequests.{Key}
use project_tox_core.NetCrypto.{Box, IsBox, nonce_bytes, public_key_bytes}
use project_tox_core.NetCrypto.Cipher.{random_nonce}
use project_tox_core.NetCrypto.Request.{KeyPair}
use project_tox_core.NetCrypto.RoundTrip.Packets.{IsAgreed}
use project_tox_core.Ping.RoundTrip.{length-random_nonce, random_64b_lt}
use project_tox_core.Dht.{NodeFormat, Dht, client_id_size, max_sent_nodes}
use project_tox_core.Dht.Lists.{get_close_nodes, addto_lists}
use project_tox_core.Dht.Lists.Learnt.{Learnt, addto_lists-Learnt}
use project_tox_core.Dht.Lists.Nodes.{GoodClients, GoodFriends, get_close_nodes_good}
use project_tox_core.Dht.Packets.{
  add_gettingnodes, is_gettingnodes, getnodes_packet, sendnodes_packet, read_getnodes,
  read_sendnodes,
}
use project_tox_core.Dht.Handlers.{getnodes, handle_getnodes, handle_sendnodes, learn_nodes}
use project_tox_core.Dht.Exchange.{other_way}
use project_tox_core.Dht.Asked.{added-is_gettingnodes}
use project_tox_core.Dht.RoundTrip.{IsNode, getnodes_round_trip, sendnodes_round_trip}

abbrev close_nodes : ℕ → Dht → Key → List NodeFormat → List NodeFormat
close_nodes now dht client_id stack_nodes =
    let (nodes, num_nodes) = get_close_nodes now dht client_id stack_nodes in take num_nodes nodes

length-close_nodes :
    (now : ℕ) (dht : Dht) (client_id : Key) (stack_nodes : List NodeFormat)
    → (get_close_nodes now dht client_id stack_nodes).1 ≤ max_sent_nodes
    → length (get_close_nodes now dht client_id stack_nodes).0 ≡ max_sent_nodes
    → length (close_nodes now dht client_id stack_nodes)
      ≡ (get_close_nodes now dht client_id stack_nodes).1
length-close_nodes now dht client_id stack_nodes few size =
    let (nodes, num_nodes) = get_close_nodes now dht client_id stack_nodes in
    omega (arith, length-take num_nodes nodes)

answers :
    (box : Box) (random_int : ℕ → ℕ) (now : ℕ) (stack_nodes : List NodeFormat) (self : KeyPair)
    (dht : Dht) (source : IpPort) (sender client_id : Key) (ping_id : ℕ) (request response : List ℕ)
    → read_getnodes box self request ≡ some (ping_id, client_id)
    → take public_key_bytes (drop 1 request) ≡ sender
    → bytes_eq sender self.0 ≡ false
    → ((get_close_nodes now dht client_id stack_nodes).1 == 0) ≡ false
    → sendnodes_packet box self sender
        (close_nodes now dht client_id stack_nodes)
        (random_nonce random_int dht.drawn)
        ping_id
      ≡ some response
    → handle_getnodes box random_int now stack_nodes self dht source request
      ≡ (record dht { drawn = dht.drawn + 6 }, (source, response) ∷ [])
unfolding handle_getnodes
answers box random_int now stack_nodes (rpk, rsk) dht source sender client_id ping_id request
      response opened from other some_nodes made =
    rw (opened, from, other, some_nodes, made, handle_getnodes) refl

-- The answer of a node that knows a client, and what the asking node reads out of it.
lookup_answered :
    (box : Box) (random_b : ℕ → ℕ) (now : ℕ) (stack_nodes : List NodeFormat)
    (self_a self_b : KeyPair) (b : Dht) (address_a : IpPort) (client_id : Key) (ping_id : ℕ)
    (nonce : List ℕ)
    → IsBox box
    → IsAgreed box self_a self_b
    → IsAgreed box self_b self_a
    → bytes_eq self_a.0 self_b.0 ≡ false
    → length nonce ≡ nonce_bytes
    → ping_id < 2 ^ 64
    → length client_id ≡ client_id_size
    → length stack_nodes ≡ max_sent_nodes
    → GoodClients IsNode now b.close_clientlist
    → GoodFriends IsNode now b.friends_list
    → 1 ≤ (get_close_nodes now b client_id stack_nodes).1
    → (request : List ℕ) × (response : List ℕ) × (getnodes_packet box self_a self_b.0 client_id
          nonce ping_id
        ≡ some request)
      × (handle_getnodes box random_b now stack_nodes self_b b address_a request
          ≡ (record b { drawn = b.drawn + 6 }, (address_a, response) ∷ []))
      × (read_sendnodes box self_a response
          ≡ some (ping_id, close_nodes now b client_id stack_nodes))
      × (take public_key_bytes (drop 1 response) ≡ self_b.0)
lookup_answered box random_b now stack_nodes self_a self_b b address_a client_id ping_id nonce law
      ab ba differ ln h hc stack close friends some_nodes =
    let (few, size, fits) =
      get_close_nodes_good IsNode now b client_id stack_nodes stack close friends in
    let counted = length-close_nodes now b client_id stack_nodes few size in
    let (request, asked, opened, from) =
      getnodes_round_trip box self_a self_b ping_id client_id nonce law ab differ ln h hc in
    let (response, made, opens, from') =
      sendnodes_round_trip box self_b self_a ping_id (close_nodes now b client_id stack_nodes)
        (random_nonce random_b b.drawn) law ba (length-random_nonce random_b b.drawn) h
        (omega arith) (omega arith) fits in
    (
      request,
      response,
      asked,
      answers box random_b now stack_nodes self_b b address_a self_a.0 client_id ping_id request
          response opened from differ (ground arith) made,
      opens,
      from',
    )

asks :
    (box : Box) (random_int : ℕ → ℕ) (now : ℕ) (self : KeyPair) (dht : Dht) (ip_port : IpPort)
    (public_key client_id : Key) (ping_id : ℕ) (request : List ℕ)
    → bytes_eq public_key self.0 ≡ false
    → is_gettingnodes now dht ip_port 0 ≡ false
    → (add_gettingnodes random_int now dht ip_port).1 ≡ ping_id
    → (ping_id == 0) ≡ false
    → getnodes_packet box self public_key client_id
        (random_nonce random_int (add_gettingnodes random_int now dht ip_port).0.drawn)
        ping_id
      ≡ some request
    → let asking = (add_gettingnodes random_int now dht ip_port).0 in
      getnodes box random_int now self dht ip_port public_key client_id
      ≡ (record asking { drawn = asking.drawn + 6 }, (ip_port, request) ∷ [])
unfolding getnodes
asks box random_int now (spk, ssk) dht ip_port public_key client_id ping_id request other idle same
      some_id made =
    rw (other, idle, same, some_id, made, getnodes) refl

learns :
    (box : Box) (random_int : ℕ → ℕ) (later : ℕ) (self : KeyPair) (dht : Dht) (source : IpPort)
    (sender : Key) (ping_id : ℕ) (nodes : List NodeFormat) (response : List ℕ)
    → read_sendnodes box self response ≡ some (ping_id, nodes)
    → take public_key_bytes (drop 1 response) ≡ sender
    → is_gettingnodes later dht source ping_id ≡ true
    → handle_sendnodes box random_int later self dht source response
      ≡ learn_nodes box random_int later self sender
          (addto_lists later self.0 dht source sender)
          nodes
unfolding handle_sendnodes
learns box random_int later (spk, ssk) dht source sender ping_id nodes response opened from found =
    subst
      (λ k.
        handle_sendnodes box random_int later (spk, ssk) dht source response
        ≡ learn_nodes box random_int later (spk, ssk) k (addto_lists later spk dht source k) nodes)
      from (rw (opened, found, handle_sendnodes) refl)

-- What a lookup comes to: the node that asks after it has asked, the packets of both sides, and what
-- the one that asked learns.
pub record LookedUp (box : Box) (random_a random_b : ℕ → ℕ) (now now_b later : ℕ)
    (stack_nodes : List NodeFormat) (self_a self_b : KeyPair) (a b : Dht)
    (address_a address_b : IpPort) (client_id : Key) : Type 0 where
  pub asking : Dht
  pub request : List ℕ
  pub response : List ℕ
  pub asked :
      getnodes box random_a now self_a a address_b self_b.0 client_id
      ≡ (asking, (address_b, request) ∷ [])
  pub answered :
      handle_getnodes box random_b now_b stack_nodes self_b b address_a request
      ≡ (record b { drawn = b.drawn + 6 }, (address_a, response) ∷ [])
  pub told : Dht
  pub learnt : Learnt later self_b.0 address_b self_a.0 asking told
  pub accepted :
      handle_sendnodes box random_a later self_a asking address_b response
      ≡ learn_nodes box random_a later self_a self_b.0 told
          (close_nodes now_b b client_id stack_nodes)

-- A node with a free place for a request that waits, and none waiting for the address, asks another
-- one for the nodes that are close to an id. The other one, where get_close_nodes finds at least one
-- node for it, answers with the nodes that were found, and the answer that comes back in less than
-- 5 seconds is accepted. The key of the other one is then in the list of close clients of the node
-- that asked and in the list of each of its friends, but for the lists where no client has timed
-- out and none is further from the id of the list; after that the node goes on with the nodes of
-- the answer as learn_nodes does, each in turn. The box keeps its documented behaviour, the two keys differ and agree on a common key
-- both ways, the address is not 0, the time plus 5 fits in 64 bits, and the clients of the answering
-- node that have not timed out have ids of 32 bytes, addresses of 32 and ports of 16 bits.
pub lookup_exchange :
    (box : Box) (random_a random_b : ℕ → ℕ) (now now_b later : ℕ) (stack_nodes : List NodeFormat)
    (self_a self_b : KeyPair) (a b : Dht) (address_a address_b : IpPort) (client_id : Key)
    → IsBox box
    → IsAgreed box self_a self_b
    → IsAgreed box self_b self_a
    → bytes_eq self_a.0 self_b.0 ≡ false
    → length client_id ≡ client_id_size
    → length stack_nodes ≡ max_sent_nodes
    → GoodClients IsNode now_b b.close_clientlist
    → GoodFriends IsNode now_b b.friends_list
    → 1 ≤ (get_close_nodes now_b b client_id stack_nodes).1
    → is_gettingnodes now a address_b 0 ≡ false
    → (add_gettingnodes random_a now a address_b).1 ≢ 0
    → address_b.ip ≢ 0
    → later < now + 5
    → now + 5 < 2 ^ 64
    → LookedUp box random_a random_b now now_b later stack_nodes self_a self_b a b address_a
        address_b client_id
unfolding is_gettingnodes
lookup_exchange box random_a random_b now now_b later stack_nodes self_a self_b a b address_a
      address_b client_id law ab ba differ hc stack close friends some_nodes idle free known soon
      small =
    let asking = (add_gettingnodes random_a now a address_b).0 in
    let ping_id = (add_gettingnodes random_a now a address_b).1 in
    let waits = added-is_gettingnodes random_a now later a address_b free known soon small in
    let below : ping_id < 2 ^ 64 = omega (arith, waits.drawn_id, random_64b_lt random_a a.drawn) in
    let (request, response, made, sent, opens, from) =
      lookup_answered box random_b now_b stack_nodes self_a self_b b address_a client_id ping_id
        (random_nonce random_a asking.drawn) law ab ba differ
        (length-random_nonce random_a asking.drawn) below hc stack close friends some_nodes in
    record {
      asking = record asking { drawn = asking.drawn + 6 };
      request = request;
      response = response;
      asked =
          asks box random_a now self_a a address_b self_b.0 client_id ping_id request
            (other_way self_a.0 self_b.0 differ) idle refl (ground arith) made;
      answered = sent;
      told =
          addto_lists later self_a.0 (record asking { drawn = asking.drawn + 6 }) address_b
            self_b.0;
      learnt =
          addto_lists-Learnt later self_b.0 address_b self_a.0
            (record asking { drawn = asking.drawn + 6 });
      accepted =
          learns box random_a later self_a (record asking { drawn = asking.drawn + 6 }) address_b
            self_b.0 ping_id (close_nodes now_b b client_id stack_nodes) response opens from
            waits.found;
    }
