-- ===== src/Dht/Exchange.antt =====
-- Two nodes of toxcore/DHT.c and toxcore/ping.c: a ping, its answer, and what both learn.
use project_tox_core.Prelude.{
  ℕ, ◌+◌, ◌^◌, ◌≤◌, ◌<◌, ◌≡◌, ◌≢◌, refl, ap, sym, ◌∙◌, subst, Bool, true, false, ◌&&◌, not, some,
  List, [], ◌∷◌, ◌++◌, arith, ◌==◌, Bool-cases, inl, inr, take, drop, bytes_eq, bytes_eq→eq,
  bytes_eq_refl,
}
use project_tox_core.Network.{IpPort, ipp_eq_refl}
use project_tox_core.FriendRequests.{Key}
use project_tox_core.NetCrypto.{Box, IsBox, public_key_bytes}
use project_tox_core.NetCrypto.Cipher.{random_nonce}
use project_tox_core.NetCrypto.Request.{KeyPair}
use project_tox_core.NetCrypto.RoundTrip.Packets.{IsAgreed}
use project_tox_core.Ping.{Pinged, Ping, is_timeout, add_ping, matches, is_pinging}
use project_tox_core.Ping.Refine.{
  IsValid, contents, live, any, make_room, fresh, add_ping_refines, is_pinging_refines,
}
use project_tox_core.Ping.Packets.{
  packet_ping_request, packet_ping_response, random_64b, ping_packet, open_ping, send_ping_request,
  send_ping_response,
}
use project_tox_core.Ping.RoundTrip.{length-random_nonce, random_64b_lt, ping_round_trip}
use project_tox_core.Dht.{Dht}
use project_tox_core.Dht.Lists.{addto_lists}
use project_tox_core.Dht.Lists.Learnt.{Learnt, addto_lists-Learnt}
use project_tox_core.Dht.Toping.{Remembers, add_toping-Remembers}
use project_tox_core.Dht.Handlers.{ping_node, add_toping, handle_ping_request, handle_ping_response}

any_last :
    (f : Pinged → Bool) (q : List Pinged) (e : Pinged) → f e ≡ true → any f (q ++ e ∷ []) ≡ true
unfolding any
any_last f [] e m = rw m refl
any_last f (x ∷ q) e m = ground (arith, any_last f q e m)

live_last :
    (later : ℕ) (f : Pinged → Bool) (q : List Pinged) (e : Pinged)
    → f e ≡ true
    → is_timeout later e.timestamp ≡ false
    → any f (live later (q ++ e ∷ [])) ≡ true
unfolding live any
live_last later f [] e m new = rw (new, m) refl
live_last later f (x ∷ q) e m new = elim (Bool-cases (is_timeout later x.timestamp)) [
  | inl old ↦ rw old (live_last later f q e m new)
  | inr waits ↦ rw waits (any_last f (x ∷ q) e m)
]

fresh_waits :
    (now later random : ℕ) (ipp : IpPort)
    → later ≤ now + 5
    → now + 5 < 2 ^ 64
    → is_timeout later (fresh now random ipp).timestamp ≡ false
unfolding is_timeout
fresh_waits now later random ipp soon small = ground arith

fresh-matches : (now random : ℕ) (ipp : IpPort) → matches ipp random (fresh now random ipp) ≡ true
unfolding matches
fresh-matches now random ipp = ground (arith, ipp_eq_refl ipp)

is_wild : (ipp : IpPort) (random : ℕ) → ipp.ip ≢ 0 → not ((ipp.ip == 0) && (random == 0)) ≡ true
is_wild ipp random known = ground arith

-- A ping that was added is found for the five seconds that follow.
added-is_pinging :
    (now later random : ℕ) (p : Ping) (ipp : IpPort)
    → IsValid p
    → later ≤ now + 5
    → now + 5 < 2 ^ 64
    → ipp.ip ≢ 0
    → (is_pinging later (add_ping now random p ipp).0 ipp random).1 ≡ true
added-is_pinging now later random p ipp v soon small known =
    let (valid, same, e) = add_ping_refines now random p ipp v in
    let found =
      ap (λ q. any (matches ipp random) (live later q)) e
      ∙ live_last later (matches ipp random) (make_room (live now (contents p)))
          (fresh now random ipp) (fresh-matches now random ipp)
          (fresh_waits now later random ipp soon small) in
    (is_pinging_refines later (add_ping now random p ipp).0 ipp random valid).1
    ∙ rw (is_wild ipp random known, found) refl

asks :
    (box : Box) (random_int : ℕ → ℕ) (now : ℕ) (self : KeyPair) (dht : Dht) (ip_port : IpPort)
    (client_id : Key) (packet : List ℕ)
    → (is_pinging now dht.ping ip_port 0).1 ≡ false
    → bytes_eq client_id self.0 ≡ false
    → ping_packet box packet_ping_request self client_id
        (random_nonce random_int (dht.drawn + 2))
        (random_64b random_int dht.drawn)
      ≡ some packet
    → ping_node box random_int now self dht ip_port client_id ≡ (
      record dht {
        ping =
            (add_ping now
              (random_64b random_int dht.drawn)
              (is_pinging now dht.ping ip_port 0).0
              ip_port).0;
        drawn = dht.drawn + 8;
      },
      (ip_port, packet) ∷ [],
    )
unfolding ping_node send_ping_request add_ping
asks box random_int now (spk, ssk) dht ip_port client_id packet idle other made =
    rw (idle, other, made) refl

answers :
    (box : Box) (random_int : ℕ → ℕ) (self : KeyPair) (dht : Dht) (source : IpPort) (sender : Key)
    (ping_id : ℕ) (request response : List ℕ)
    → open_ping box self request ≡ some ping_id
    → take public_key_bytes (drop 1 request) ≡ sender
    → bytes_eq sender self.0 ≡ false
    → ping_packet box packet_ping_response self sender (random_nonce random_int dht.drawn) ping_id
      ≡ some response
    → handle_ping_request box random_int self dht source request ≡ (
      (add_toping self.0 (record dht { drawn = dht.drawn + 6 }) sender source).0,
      (source, response) ∷ [],
    )
unfolding handle_ping_request send_ping_response
answers box random_int (rpk, rsk) dht source sender ping_id request response opened from other
      made =
    rw (opened, from, other, made, handle_ping_request, send_ping_response) refl

accepts :
    (box : Box) (later : ℕ) (self : KeyPair) (dht : Dht) (source : IpPort) (sender : Key)
    (ping_id : ℕ) (response : List ℕ)
    → open_ping box self response ≡ some ping_id
    → take public_key_bytes (drop 1 response) ≡ sender
    → (is_pinging later dht.ping source ping_id).1 ≡ true
    → handle_ping_response box later self dht source response ≡ (
      addto_lists later self.0
          (record dht { ping = (is_pinging later dht.ping source ping_id).0 })
          source
          sender,
      true,
    )
unfolding handle_ping_response
accepts box later (spk, ssk) dht source sender ping_id response opened from found =
    subst
      (λ k. handle_ping_response box later (spk, ssk) dht source response ≡ (
        addto_lists later spk (record dht { ping = (is_pinging later dht.ping source ping_id).0 })
            source k,
        true,
      ))
      from (rw (opened, found, handle_ping_response) refl)

pub other_way : (xs ys : List ℕ) → bytes_eq xs ys ≡ false → bytes_eq ys xs ≡ false
other_way xs ys h = elim (Bool-cases (bytes_eq ys xs)) [
  | inl same ↦ absurd (
      let e = bytes_eq→eq ys xs same in
      let r = sym (ap (bytes_eq xs) e ∙ bytes_eq_refl xs) ∙ h in cc)
  | inr differ ↦ differ
]

-- What an exchange of pings comes to: the packets of both sides, the two nodes afterwards, and what
-- they have learnt.
pub record Exchanged (box : Box) (random_a random_b : ℕ → ℕ) (now later : ℕ)
    (self_a self_b : KeyPair) (a b : Dht) (address_a address_b : IpPort) : Type 0 where
  pub asking : Dht
  pub request : List ℕ
  pub response : List ℕ
  pub asked :
      ping_node box random_a now self_a a address_b self_b.0 ≡ (asking, (address_b, request) ∷ [])
  pub a_after : Dht
  pub b_after : Dht
  pub answered :
      handle_ping_request box random_b self_b b address_a request
      ≡ (b_after, (address_a, response) ∷ [])
  pub accepted : handle_ping_response box later self_a asking address_b response ≡ (a_after, true)
  pub learnt :
      Learnt later self_b.0 address_b self_a.0
        (record a { ping = a_after.ping; drawn = a.drawn + 8 })
        a_after
  pub remembers :
      Remembers self_b.0
        (record { client_id = self_a.0; ip_port = address_a })
        b.toping
        b_after.toping
  pub b_rest : b_after ≡ record b { toping = b_after.toping; drawn = b.drawn + 6 }

-- A node that has no ping waiting for an address asks there; the other one, under the key that was
-- asked for, answers the request, and the answer that comes back within 5 seconds is accepted. The
-- key is then in the list of close clients of the one that asked and in the list of each of its
-- friends, but for the lists where no client has timed out and none is further from the id of the
-- list; nothing else but its pings and random draws changes. The other one remembers the key and
-- the address of the first one in order to ping it, in a free place or in place of a node that is
-- further from its own key, unless that address is 0 or there is no such place; nothing else but
-- its random draws changes. The box keeps its documented behaviour, the two keys differ and agree
-- on a common key both ways, the buffer of pings is valid, the address that is asked is not 0, and
-- the time plus 5 fits in 64 bits.
pub ping_exchange :
    (box : Box) (random_a random_b : ℕ → ℕ) (now later : ℕ) (self_a self_b : KeyPair) (a b : Dht)
    (address_a address_b : IpPort)
    → IsBox box
    → IsAgreed box self_a self_b
    → IsAgreed box self_b self_a
    → bytes_eq self_a.0 self_b.0 ≡ false
    → IsValid a.ping
    → (is_pinging now a.ping address_b 0).1 ≡ false
    → address_b.ip ≢ 0
    → later ≤ now + 5
    → now + 5 < 2 ^ 64
    → Exchanged box random_a random_b now later self_a self_b a b address_a address_b
unfolding addto_lists
ping_exchange box random_a random_b now later self_a self_b a b address_a address_b law ab ba differ
      valid idle known soon small =
    let ping_id = random_64b random_a a.drawn in
    let below = random_64b_lt random_a a.drawn in
    let back = other_way self_a.0 self_b.0 differ in
    let (request, made, opened, from) =
      ping_round_trip box self_a self_b packet_ping_request ping_id
        (random_nonce random_a (a.drawn + 2)) law ab differ
        (length-random_nonce random_a (a.drawn + 2)) below in
    let (response, made', opened', from') =
      ping_round_trip box self_b self_a packet_ping_response ping_id (random_nonce random_b b.drawn)
        law ba back (length-random_nonce random_b b.drawn) below in
    let clean = is_pinging_refines now a.ping address_b 0 valid in
    let asking : Dht = record a {
      ping = (add_ping now ping_id (is_pinging now a.ping address_b 0).0 address_b).0;
      drawn = a.drawn + 8;
    } in
    let heard : Dht = record asking { ping = (is_pinging later asking.ping address_b ping_id).0 } in
    let (remembered, b_same) =
      add_toping-Remembers self_b.0 (record { client_id = self_a.0; ip_port = address_a })
        (record b { drawn = b.drawn + 6 }) in
    record {
      asking = asking;
      request = request;
      response = response;
      a_after = addto_lists later self_a.0 heard address_b self_b.0;
      b_after = (add_toping self_b.0 (record b { drawn = b.drawn + 6 }) self_a.0 address_a).0;
      asked = asks box random_a now self_a a address_b self_b.0 request idle back made;
      answered =
          answers box random_b self_b b address_a self_a.0 ping_id request response opened from
            differ made';
      learnt = addto_lists-Learnt later self_b.0 address_b self_a.0 heard;
      remembers = remembered;
      b_rest = b_same;
      accepted = accepts box later self_a asking address_b self_b.0 ping_id response opened' from' (
          added-is_pinging now later ping_id (is_pinging now a.ping address_b 0).0 address_b clean.0
            soon small known);
    }
