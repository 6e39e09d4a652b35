-- ===== src/Messenger/Online.antt =====
-- The second half of a round of the main loop of toxcore/Messenger.c: an online friend. `none` in
-- place of a result is a fault of a write.
use project_tox_core.Prelude.{
  ℕ, zero, suc, ◌+◌, ◌-◌, ◌*◌, ◌%◌, ◌^◌, Bool, true, false, ◌||◌, Option, none, some, List, ◌∷◌,
  ◌++◌, ◌==◌, ltb, leb, if◌then◌else◌, length, get_or, take, drop, add64,
}
use project_tox_core.Lossless.Handle.{recvqueue}
use project_tox_core.Lossless.Conn.{read_be32}
use project_tox_core.NetCrypto.{Box}
use project_tox_core.NetCrypto.Session.{Reading, received, read_cryptpacket}
use project_tox_core.NetCrypto.Table.{crypto_at, is_cryptoconnected}
use project_tox_core.Messenger.{Friend, Messenger, friend_confirmed, max_name_length}
use project_tox_core.Messenger.Send.{
  max_statusmessage_length, packet_id_ping, packet_id_nickname, packet_id_statusmessage,
  packet_id_userstatus, packet_id_action, packet_id_message, packet_id_receipt, friend_online,
  set_friend_statusmessage, set_friend_userstatus, write_cryptpacket_id, m_sendname,
  send_statusmessage, send_userstatus, send_ping,
}
use project_tox_core.Messenger.Run.{
  World, message, action, namechange, statusmessagechange, userstatuschange, receipt, Run, ◌>>=◌,
  tells, with_m, at, put_at, set_friend_status, with_net, drop_connection,
}

abbrev pub friend_ping_interval : ℕ
friend_ping_interval = 5

abbrev pub friend_connection_timeout : ℕ
friend_connection_timeout = friend_ping_interval * 2

-- The packets that wait on the connection of the friend.
unfoldable pub waiting : Run → ℕ → ℕ
unfolding recvqueue
waiting r i = elim (at r i).crypt_connection_id [
  | none ↦ 0
  | some id ↦ recvqueue r.m.net_crypto.lossless_udp (some (crypto_at r.m.net_crypto id).number)
]

module _ (box : Box) (w : World) where
  -- After something was to be sent to the friend: what becomes of him if it was taken.
  abbrev pub if_taken : (Friend → Friend) → Run → ℕ → Option (Messenger × ℕ) → Option Run
  if_taken mark r i none = none
  if_taken mark r i (some (m', ret)) =
      let r1 = with_m r m' in some (if ret == 0 then r1 else put_at r1 i (mark (at r1 i)))

  -- What an online friend has not been told yet, and the ping that is due.
  unfoldable pub send_news : Run → ℕ → Option Run
  unfolding m_sendname send_statusmessage send_userstatus send_ping
  send_news r i =
      (if (at r i).name_sent == 0
        then if_taken (λ f. record f { name_sent = 1 }) r i
            (m_sendname box r.m (some i) (take r.m.name_length r.m.name))
        else some r)
      >>= (λ r1.
          if (at r1 i).statusmessage_sent == 0
          then if_taken (λ f. record f { statusmessage_sent = 1 }) r1 i
              (send_statusmessage box r1.m (some i)
                (take r1.m.statusmessage_length r1.m.statusmessage))
          else some r1)
      >>= (λ r2.
          if (at r2 i).userstatus_sent == 0
          then if_taken (λ f. record f { userstatus_sent = 1 }) r2 i
              (send_userstatus box r2.m (some i) r2.m.userstatus)
          else some r2)
      >>= (λ r3.
          if ltb (add64 (at r3 i).ping_lastsent friend_ping_interval) w.unix.now
          then if_taken (λ f. f) r3 i (send_ping box w.unix.now r3.m i)
          else some r3)

  -- The new name keeps what stands behind it, and ends with a zero.
  abbrev pub renamed : Friend → List ℕ → Friend
  renamed f data' = record f {
    name = take (length data' - 1) data' ++ (0 ∷ drop (length data') f.name);
  }

  -- The receipt takes the first four bytes, which a short message leaves to the buffer.
  unfoldable pub receive_message : Run → ℕ → List ℕ → Option Run
  unfolding write_cryptpacket_id
  receive_message r i data' =
      let id = take 4 (data' ++ w.beyond) in
      let size = (length data' + 2 ^ 16 - 4) % 2 ^ 16 in
      (if (at r i).receives_read_receipts == 0
        then some r
        else if_taken (λ f. f) r i (write_cryptpacket_id box r.m (some i) packet_id_receipt id))
      >>= (λ r1. some (tells r1 r1.m.callbacks.friend_message (message i (drop 4 data') size)))

  -- What is done with a packet of an online friend.
  unfoldable pub friend_packet : Run → ℕ → ℕ → List ℕ → Option Run
  unfolding receive_message set_friend_statusmessage set_friend_userstatus
  friend_packet r i packet_id data' =
      let calls = r.m.callbacks in
      let size = length data' in
      let news = take max_statusmessage_length data' in
      let named = tells r calls.friend_namechange (namechange i data') in
      let stated = tells r calls.friend_statusmessagechange (statusmessagechange i news) in
      let status' = get_or data' 0 0 in
      let changed = tells r calls.friend_userstatuschange (userstatuschange i status') in
      if packet_id == packet_id_ping
      then some (put_at r i (record (at r i) { ping_lastrecv = w.unix.now }))
      else if packet_id == packet_id_nickname
      then (if leb max_name_length size || (size == 0)
          then some r
          else some (put_at named i (renamed (at named i) data')))
      else if packet_id == packet_id_statusmessage
      then (if size == 0
          then some r
          else some (with_m stated (set_friend_statusmessage stated.m i news)))
      else if packet_id == packet_id_userstatus
      then (if size == 1
          then some (with_m changed (set_friend_userstatus changed.m i status'))
          else some r)
      else if packet_id == packet_id_message
      then receive_message r i data'
      else if packet_id == packet_id_action
      then some (tells r calls.friend_action (action i data'))
      else if packet_id == packet_id_receipt
      then (if ltb size 4
          then some r
          else some (tells r calls.read_receipt (receipt i (read_be32 data' 0))))
      else some r

  unfoldable pub go_offline : Run → ℕ → Run
  unfolding set_friend_status
  go_offline r i = set_friend_status (drop_connection box w r i) i friend_confirmed

  -- The end of a round after a packet: without a ping for too long the connection is killed.
  unfoldable pub check_ping : Run → ℕ → Run
  unfolding go_offline
  check_ping r i =
      if ltb (add64 (at r i).ping_lastrecv friend_connection_timeout) w.unix.now
      then go_offline r i
      else r

  -- After `read_cryptpacket`: the run, and whether the loop goes on.
  unfoldable pub after_read : Run → ℕ → Reading → Option (Run × Bool)
  unfolding friend_packet check_ping go_offline is_cryptoconnected
  after_read r i (received (packet_id ∷ data')) =
      friend_packet r i packet_id data' >>= (λ r1. some (check_ping r1 i, true))
  after_read r i rest =
      if is_cryptoconnected r.m.net_crypto (at r i).crypt_connection_id == 4
      then some (go_offline r i, false)
      else some (r, false)

  -- One round of the `while` loop.
  unfoldable pub online_round : Run → ℕ → Option (Run × Bool)
  unfolding send_news read_cryptpacket after_read
  online_round r i = send_news r i >>= (λ r1.
      let (c, reading) = read_cryptpacket box r1.m.net_crypto (at r1 i).crypt_connection_id in
      after_read (with_net r1 c) i reading)

  -- Every round but the last takes a packet out of the queue of the connection.
  unfoldable pub online_loop : ℕ → Run → ℕ → Option Run
  unfolding online_round
  online_loop zero r i = some r
  online_loop (suc k) r i = elim ((at r i).status == friend_online) [
    | false ↦ some r
    | true ↦ online_round r i >>= (λ (next : Run × Bool). elim next.1 [
      | false ↦ some next.0
      | true ↦ online_loop k next.0 i
    ])
  ]
