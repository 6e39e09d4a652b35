-- ===== src/Messenger/Send.antt =====
-- What toxcore/Messenger.c sends to friends: messages, actions, names and statuses. Where a write
-- can break memory, `none` in place of all that a function returns is this fault.
use project_tox_core.Prelude.{
  ℕ, ◌-◌, ◌^◌, Bool, true, false, not, ◌||◌, Option, none, some, List, [], ◌∷◌, ◌++◌, ◌==◌, ltb,
  leb, if◌then◌else◌, length, get_elem?, get_or, set, take, drop, map, min, add32,
}
use project_tox_core.Lossless.{max_data_size}
use project_tox_core.Lossless.Conn.{be32}
use project_tox_core.NetCrypto.{Box, NetCrypto}
use project_tox_core.NetCrypto.Session.{write_cryptpacket}
use project_tox_core.Messenger.{Friend, zero_friend, Messenger, max_name_length}

abbrev pub max_statusmessage_length : ℕ
max_statusmessage_length = 128

abbrev pub packet_id_ping : ℕ
packet_id_ping = 0

abbrev pub packet_id_nickname : ℕ
packet_id_nickname = 48

abbrev pub packet_id_statusmessage : ℕ
packet_id_statusmessage = 49

abbrev pub packet_id_userstatus : ℕ
packet_id_userstatus = 50

abbrev pub packet_id_action : ℕ
packet_id_action = 63

abbrev pub packet_id_message : ℕ
packet_id_message = 64

abbrev pub packet_id_receipt : ℕ
packet_id_receipt = 65

abbrev pub userstatus_none : ℕ
userstatus_none = 0

abbrev pub userstatus_invalid : ℕ
userstatus_invalid = 3

-- `FRIEND_REQUESTED` and `FRIEND_ONLINE`
abbrev pub friend_requested : ℕ
friend_requested = 2

abbrev pub friend_online : ℕ
friend_online = 4

abbrev pub number_at : Messenger → ℕ → Friend
number_at m i = get_or m.friendlist i zero_friend

abbrev pub with_friend : Messenger → ℕ → Friend → Messenger
with_friend m i f = record m { friendlist = set m.friendlist i f }

abbrev pub is_number : Messenger → ℕ → Bool
is_number m i = ltb i (length m.friendlist)

-- `setfriendname`, with a name of 128 bytes; true for the result 0.
unfoldable pub setfriendname : Messenger → Option ℕ → List ℕ → Messenger × Bool
setfriendname m none name' = (m, false)
setfriendname m (some i) name' =
    if is_number m i
    then (with_friend m i (record (number_at m i) { name = name' }), true)
    else (m, false)

-- `none` for -1
unfoldable pub getname : Messenger → Option ℕ → Option (List ℕ)
getname m none = none
getname m (some i) = if is_number m i then some (number_at m i).name else none

unfoldable pub m_set_statusmessage : Messenger → List ℕ → Messenger × Bool
m_set_statusmessage m status' =
    if ltb max_statusmessage_length (length status') then (m, false) else (
      record m {
        statusmessage = status' ++ drop (length status') m.statusmessage;
        statusmessage_length = length status';
        friendlist = map (λ (f : Friend). record f { statusmessage_sent = 0 }) m.friendlist;
      },
      true,
    )

unfoldable pub m_set_userstatus : Messenger → ℕ → Messenger × Bool
m_set_userstatus m status' = if leb userstatus_invalid status' then (m, false) else (
  record m {
    userstatus = status';
    friendlist = map (λ (f : Friend). record f { userstatus_sent = 0 }) m.friendlist;
  },
  true,
)

unfoldable pub m_get_statusmessage_size : Messenger → Option ℕ → Option ℕ
m_get_statusmessage_size m none = none
m_get_statusmessage_size m (some i) =
    if is_number m i then some (number_at m i).statusmessage_length else none

-- `MIN(maxlen, MAX_STATUSMESSAGE_LENGTH) - 1`, in 32 bits
abbrev pub copy_size : ℕ → ℕ
copy_size maxlen = if maxlen == 0 then 2 ^ 32 - 1 else min maxlen max_statusmessage_length - 1

-- A number that is no friend's, the bytes that are copied, or a copy that reads or writes past an
-- array.
pub data Copy : Type 0 where
  refused : Copy
  copied : List ℕ → Copy
  overrun : Copy

abbrev pub copy_from : List ℕ → ℕ → Copy
copy_from source maxlen =
    if ltb (length source) (copy_size maxlen) || ltb maxlen (copy_size maxlen)
    then overrun
    else copied (take (copy_size maxlen) source)

unfoldable pub m_copy_statusmessage : Messenger → Option ℕ → ℕ → Copy
m_copy_statusmessage m none maxlen = refused
m_copy_statusmessage m (some i) maxlen =
    if is_number m i then copy_from (number_at m i).statusmessage maxlen else refused

unfoldable pub m_copy_self_statusmessage : Messenger → ℕ → Copy
m_copy_self_statusmessage m maxlen = copy_from m.statusmessage maxlen

unfoldable pub m_get_userstatus : Messenger → Option ℕ → ℕ
m_get_userstatus m none = userstatus_invalid
m_get_userstatus m (some i) =
    let status' = (number_at m i).userstatus in
    if not (is_number m i)
    then userstatus_invalid
    else if leb userstatus_invalid status'
    then userstatus_none
    else status'

-- The test `yesno != 0 || yesno != 1` holds for every number.
unfoldable pub m_set_sends_receipts : Messenger → Option ℕ → ℕ → Messenger
m_set_sends_receipts m none yesno = m
m_set_sends_receipts m (some i) yesno =
    if not (yesno == 0) || not (yesno == 1)
    then m
    else if is_number m i
    then with_friend m i (record (number_at m i) { receives_read_receipts = yesno })
    else m

unfoldable pub set_friend_statusmessage : Messenger → ℕ → List ℕ → Messenger
set_friend_statusmessage m i status' =
    with_friend m i
      (record (number_at m i) { statusmessage = status'; statusmessage_length = length status' })

unfoldable pub set_friend_userstatus : Messenger → ℕ → ℕ → Messenger
set_friend_userstatus m i status' =
    with_friend m i (record (number_at m i) { userstatus = status' })

abbrev pub on_net : Messenger → Option (NetCrypto × ℕ) → Option (Messenger × ℕ)
on_net m none = none
on_net m (some (c, ret)) = some (record m { net_crypto = c }, ret)

module _ (box : Box) where
  unfoldable pub write_cryptpacket_id : Messenger → Option ℕ → ℕ → List ℕ → Option (Messenger × ℕ)
  unfolding write_cryptpacket
  write_cryptpacket_id m none packet_id data' = some (m, 0)
  write_cryptpacket_id m (some i) packet_id data' = elim (get_elem? m.friendlist i) [
    | none ↦ some (m, 0)
    | some f ↦
        if leb max_data_size (length data') || not (f.status == friend_online)
        then some (m, 0)
        else on_net m (write_cryptpacket box m.net_crypto f.crypt_connection_id (packet_id ∷ data'))
  ]

  unfoldable pub m_sendmessage_withid : Messenger → Option ℕ → ℕ → List ℕ → Option (Messenger × ℕ)
  unfolding write_cryptpacket_id
  m_sendmessage_withid m friendnumber theid message =
      if leb (max_data_size - 4) (length message)
      then some (m, 0)
      else write_cryptpacket_id m friendnumber packet_id_message (be32 theid ++ message)

  -- The id, if the message was taken.
  abbrev pub id_if_sent : ℕ → Option (Messenger × ℕ) → Option (Messenger × ℕ)
  id_if_sent msgid none = none
  id_if_sent msgid (some (m, ret)) = some (m, if ret == 0 then 0 else msgid)

  unfoldable pub m_sendmessage : Messenger → Option ℕ → List ℕ → Option (Messenger × ℕ)
  unfolding m_sendmessage_withid
  m_sendmessage m none message = some (m, 0)
  m_sendmessage m (some i) message =
      let next = add32 (number_at m i).message_id 1 in
      let msgid = if next == 0 then 1 else next in
      if not (is_number m i)
      then some (m, 0)
      else id_if_sent msgid (
          m_sendmessage_withid (with_friend m i (record (number_at m i) { message_id = next }))
            (some i) msgid message)

  unfoldable pub m_sendaction : Messenger → Option ℕ → List ℕ → Option (Messenger × ℕ)
  unfolding write_cryptpacket_id
  m_sendaction m friendnumber action = write_cryptpacket_id m friendnumber packet_id_action action

  unfoldable pub m_sendname : Messenger → Option ℕ → List ℕ → Option (Messenger × ℕ)
  unfolding write_cryptpacket_id
  m_sendname m friendnumber name' =
      if ltb max_name_length (length name') || (length name' == 0)
      then some (m, 0)
      else write_cryptpacket_id m friendnumber packet_id_nickname name'

  unfoldable pub send_statusmessage : Messenger → Option ℕ → List ℕ → Option (Messenger × ℕ)
  unfolding write_cryptpacket_id
  send_statusmessage m friendnumber status' =
      write_cryptpacket_id m friendnumber packet_id_statusmessage status'

  unfoldable pub send_userstatus : Messenger → Option ℕ → ℕ → Option (Messenger × ℕ)
  unfolding write_cryptpacket_id
  send_userstatus m friendnumber status' =
      write_cryptpacket_id m friendnumber packet_id_userstatus (status' ∷ [])

  unfoldable pub send_ping : ℕ → Messenger → ℕ → Option (Messenger × ℕ)
  unfolding write_cryptpacket_id
  send_ping now m i =
      write_cryptpacket_id (with_friend m i (record (number_at m i) { ping_lastsent = now }))
        (some i) packet_id_ping []
