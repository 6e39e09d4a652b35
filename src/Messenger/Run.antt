-- ===== src/Messenger/Run.antt =====
-- The state of a round of the main loop of toxcore/Messenger.c, and its first half: friend requests
-- and connections to friends. `none` in place of a result is a fault of a write.
use project_tox_core.Prelude.{
  ℕ, ◌*◌, ◌%◌, ◌^◌, Bool, not, ◌||◌, ◌&&◌, Option, none, some, List, [], ◌∷◌, ◌++◌, ◌==◌, ltb,
  if◌then◌else◌, take, add64,
}
use project_tox_core.FriendRequests.Send.{send_friendrequest}
use project_tox_core.Lossless.Table as Table
use project_tox_core.Lossless.Handle.{Packet}
use project_tox_core.NetCrypto.{Box, NetCrypto}
use project_tox_core.NetCrypto.Table.{is_cryptoconnected, crypto_connect, crypto_kill}
use project_tox_core.Dht as Dht
use project_tox_core.Dht.Friends.{dht_getfriendip}
use project_tox_core.Messenger.{Friend, Messenger, no_friend, friend_added, friend_confirmed}
use project_tox_core.Messenger.Send.{friend_requested, friend_online, number_at, with_friend}

-- What a round of the main loop learns: for the hash table and for the connections each what a call
-- learns and the random numbers, what stands behind the data of a packet in the buffer, and the
-- result of `get_broadcast`, and what stands in arrays on the stack before they are written.
pub record World : Type 0 where
  pub unix : Dht.Env
  pub net : Table.Env
  pub random_dht : ℕ → ℕ
  pub random_net : ℕ → ℕ
  pub beyond : List ℕ
  pub get_broadcast : ℕ
  pub stack_words : List ℕ
  pub stack_nodes : List Dht.NodeFormat

-- A call of a callback. A message comes with the length that is passed, a number of 16 bits.
pub data Event : Type 0 where
  friendrequest : List ℕ → List ℕ → Event
  message : ℕ → List ℕ → ℕ → Event
  action : ℕ → List ℕ → Event
  namechange : ℕ → List ℕ → Event
  statusmessagechange : ℕ → List ℕ → Event
  userstatuschange : ℕ → ℕ → Event
  receipt : ℕ → ℕ → Event
  connectionstatuschange : ℕ → Bool → Event

-- The state within `doMessenger`: the callbacks and the packets so far.
pub record Run : Type 0 where
  pub m : Messenger
  pub events : List Event
  pub sent : List Packet

infixl 5 ◌>>=◌
abbrev pub ◌>>=◌ : {A B : Type 0} → Option A → (A → Option B) → Option B
none >>= f = none
some a >>= f = f a

abbrev pub tells : Run → Bool → Event → Run
tells r isset e = if isset then record r { events = r.events ++ e ∷ [] } else r

abbrev pub with_m : Run → Messenger → Run
with_m r m' = record r { m = m' }

abbrev pub at : Run → ℕ → Friend
at r i = number_at r.m i

abbrev pub put_at : Run → ℕ → Friend → Run
put_at r i f = with_m r (with_friend r.m i f)

unfoldable pub check_friend_connectionstatus : Run → ℕ → ℕ → Run
check_friend_connectionstatus r i status' =
    let was_connected = (at r i).status == friend_online in
    let is_connected = status' == friend_online in
    if status' == no_friend
    then r
    else if (is_connected && not was_connected) || (was_connected && not is_connected)
    then tells r r.m.callbacks.friend_connectionstatuschange (connectionstatuschange i is_connected)
    else r

unfoldable pub set_friend_status : Run → ℕ → ℕ → Run
unfolding check_friend_connectionstatus
set_friend_status r i status' =
    let r' = check_friend_connectionstatus r i status' in
    put_at r' i (record (at r' i) { status = status' })

abbrev pub with_net : Run → NetCrypto → Run
with_net r c = let m' = r.m in with_m r (record m' { net_crypto = c })

module _ (box : Box) (w : World) where
  -- `crypto_kill` on the connection of the friend.
  abbrev pub drop_connection : Run → ℕ → Run
  drop_connection r i =
      let r' =
        with_net r
          (crypto_kill w.random_net box w.net r.m.net_crypto (at r i).crypt_connection_id).0 in
      put_at r' i (record (at r' i) { crypt_connection_id = none })

  -- The friend request of a friend who was added.
  unfoldable pub request_friend : Run → ℕ → Run
  unfolding send_friendrequest set_friend_status
  request_friend r i =
      let f = at r i in
      let c = r.m.net_crypto in
      let (dht', sent', num) =
        send_friendrequest box w.random_dht w.unix (c.self_public_key, c.self_secret_key) r.m.dht
          f.client_id f.friendrequest_nospam (take f.info_size f.info) in
      let m' = r.m in
      let r1 = record r { m = record m' { dht = dht' }; sent = r.sent ++ sent' } in
      let r2 = set_friend_status r1 i friend_requested in
      if not (f.status == friend_added) then r else elim num [
        | none ↦ r1
        | some n ↦ put_at r2 i (record (at r2 i) { friendrequest_lastsent = w.unix.now })
      ]

  -- A request that was not followed by a connection counts as failed.
  unfoldable pub give_up : Run → ℕ → Run
  unfolding set_friend_status
  give_up r i =
      let f = at r i in
      let r1 = set_friend_status r i friend_added in
      if (f.status == friend_requested)
        && ltb (add64 f.friendrequest_lastsent f.request_timeout) w.unix.now
      then put_at r1 i (record (at r1 i) { request_timeout = f.request_timeout * 2 % 2 ^ 32 })
      else r

  abbrev pub connected_to : Run → ℕ → Option (NetCrypto × Option ℕ) → Option Run
  connected_to r i none = none
  connected_to r i (some (c, id)) =
      let r1 = with_net r c in some (put_at r1 i (record (at r1 i) { crypt_connection_id = id }))

  unfoldable pub come_online : Run → ℕ → Run
  unfolding set_friend_status
  come_online r i =
      let r1 = set_friend_status r i friend_online in
      put_at r1 i (record (at r1 i) {
        name_sent = 0;
        userstatus_sent = 0;
        statusmessage_sent = 0;
        ping_lastrecv = w.unix.now;
      })

  -- A friend who is not online.
  unfoldable pub connect_friend : Run → ℕ → Option Run
  unfolding give_up come_online dht_getfriendip is_cryptoconnected crypto_connect
  connect_friend r i =
      let r1 = give_up r i in
      let f = at r1 i in
      let friendip = dht_getfriendip w.unix.now r1.m.dht f.client_id in
      let state = is_cryptoconnected r1.m.net_crypto f.crypt_connection_id in
      let connection = crypto_connect w.random_net box w.net r1.m.net_crypto f.client_id friendip in
      if not ((at r i).status == friend_requested) && not ((at r i).status == friend_confirmed)
      then some r
      else if state == 0
      then (if ltb 1 friendip.ip then connected_to r1 i connection else some r1)
      else if state == 3
      then some (come_online r1 i)
      else if state == 4
      then some (drop_connection r1 i)
      else some r1
