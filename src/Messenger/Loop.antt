-- ===== src/Messenger/Loop.antt =====
-- The main loop of toxcore/Messenger.c, incoming connections, and the removal of a friend. `none` in
-- place of a result is a fault of a write.
use project_tox_core.Prelude.{
  ℕ, zero, suc, ◌+◌, ◌*◌, ◌/◌, ◌%◌, Bool, false, ◌||◌, ◌&&◌, Option, none, some, List, [], ◌∷◌,
  ◌++◌, ◌==◌, ltb, if◌then◌else◌, length, set, add64,
}
use project_tox_core.Lossless.Handle.{Packet}
use project_tox_core.NetCrypto.{Box, NetCrypto}
use project_tox_core.NetCrypto.Table.{crypto_kill, accept_crypto_inbound}
use project_tox_core.NetCrypto.Loop.{do_net_crypto, crypto_inbound}
use project_tox_core.Dht.Friends.{dht_delfriend}
use project_tox_core.Dht.Loop.{do_dht}
use project_tox_core.LanDiscovery.{send_landiscovery}
use project_tox_core.Messenger.{
  Friend, zero_friend, Messenger, getfriend_id, no_friend, friend_confirmed,
}
use project_tox_core.Messenger.Send.{number_at, is_number}
use project_tox_core.Messenger.Run.{
  World, Run, ◌>>=◌, at, put_at, set_friend_status, with_net, request_friend, connect_friend,
}
use project_tox_core.Messenger.Dispatch.{own_keys, networking_poll}
use project_tox_core.Messenger.Online.{online_loop, waiting}

abbrev pub lan_discovery_interval : ℕ
lan_discovery_interval = 60

-- `htons(PORT)`
abbrev pub lan_port : ℕ
lan_port = 33445 % 256 * 256 + 33445 / 256

-- The friends up to the last one in use.
unfoldable pub trim_friends : List Friend → List Friend
trim_friends [] = []
trim_friends (f ∷ fs) =
    let rest = trim_friends fs in
    if (length rest == 0) && (f.status == no_friend) then [] else f ∷ rest

module _ (box : Box) (w : World) where
  -- The `Bool` is true for the result 0, false for -1 and for the error of no memory, which comes
  -- after the friend is removed.
  unfoldable pub m_delfriend : Messenger → Option ℕ → Messenger × Bool
  unfolding dht_delfriend crypto_kill trim_friends
  m_delfriend m none = (m, false)
  m_delfriend m (some i) =
      let f = number_at m i in
      let friends = trim_friends (set m.friendlist i zero_friend) in
      if is_number m i
      then (
        record m {
          dht = (dht_delfriend w.unix m.dht f.client_id).0;
          net_crypto = (crypto_kill w.random_net box w.net m.net_crypto f.crypt_connection_id).0;
          friendlist = friends;
        },
        (length friends == 0) || w.unix.alloc_ok,
      )
      else (m, false)

  -- `doFriends` at one friend; the loop takes one round more than packets wait.
  unfoldable pub do_friend : Run → ℕ → Option Run
  unfolding request_friend connect_friend online_loop waiting
  do_friend r i =
      connect_friend box w (request_friend box w r i) i
      >>= (λ r1. online_loop box w (waiting r1 i + 1) r1 i)

  unfoldable pub friends_loop : ℕ → Run → ℕ → Option Run
  unfolding do_friend
  friends_loop zero r i = some r
  friends_loop (suc k) r i = do_friend r i >>= (λ r1. friends_loop k r1 (i + 1))

  unfoldable pub do_friends : Run → Option Run
  unfolding friends_loop
  do_friends r = friends_loop (length r.m.friendlist) r 0

  abbrev pub accepted_for : Run → ℕ → Option (NetCrypto × Option ℕ) → Option Run
  accepted_for r i none = none
  accepted_for r i (some (c, id)) =
      let r1 = with_net r c in
      some (
        set_friend_status (put_at r1 i (record (at r1 i) { crypt_connection_id = id })) i
          friend_confirmed)

  unfoldable pub do_inbound : Run → Option Run
  unfolding crypto_inbound getfriend_id accept_crypto_inbound set_friend_status
  do_inbound r =
      let (c, inbound) = crypto_inbound w.random_net box w.net r.m.net_crypto in
      let r1 = with_net r c in
      elim inbound [
        | none ↦ some r1
        | some (inconnection, h) ↦ elim (getfriend_id r1.m h.public_key) [
          | none ↦ some r1
          | some i ↦
              let killed = (crypto_kill w.random_net box w.net c (at r1 i).crypt_connection_id).0 in
              accepted_for r1 i
                (accept_crypto_inbound w.random_net box w.net killed (some inconnection) h)
        ]
      ]

  -- `LANdiscovery`
  unfoldable pub discover : Run → Run
  unfolding send_landiscovery
  discover r =
      let m' = r.m in
      if ltb (add64 r.m.last_landiscovery lan_discovery_interval) w.unix.now
      then record r {
        m = record m' { last_landiscovery = w.unix.now };
        sent =
            r.sent
            ++ send_landiscovery w.get_broadcast lan_port
                (r.m.net_crypto.self_public_key, r.m.net_crypto.self_secret_key);
      }
      else r

  -- `arrived` is what `receivepacket` returns in this round.
  unfoldable pub do_messenger : Messenger → List Packet → Option Run
  unfolding networking_poll do_dht do_net_crypto do_inbound do_friends discover
  do_messenger m arrived =
      networking_poll box w (record { m = m; events = []; sent = [] }) arrived
      >>= (λ r.
          let m1 = r.m in
          let (dht', sent1) = do_dht box w.random_dht w.unix (own_keys r) m1.dht in
          do_net_crypto w.random_net box w.net m1.net_crypto
          >>= (λ (step : NetCrypto × List Packet). do_inbound (record r {
            m = record m1 { dht = dht'; net_crypto = step.0 };
            sent = r.sent ++ (sent1 ++ step.1);
          })))
      >>= do_friends
      >>= (λ r. some (discover r))
