-- ===== src/Messenger/Adding.antt =====
-- Adding a friend in toxcore/Messenger.c: `m_addfriend` and `m_addfriend_norequest`.
use project_tox_core.Prelude.{
  ℕ, ◌+◌, ◌*◌, ◌^◌, not, Option, none, some, List, [], ◌∷◌, ◌++◌, ◌==◌, ltb, leb, if◌then◌else◌,
  length, get_or, set, take, drop, bytes_eq,
}
use project_tox_core.FriendRequests.{Key}
use project_tox_core.Dht.{Env}
use project_tox_core.Dht.Friends.{dht_addfriend}
use project_tox_core.Messenger.{
  friend_added, friend_confirmed, no_friend, friendrequest_timeout, Friend, zero_friend, Messenger,
  find_friend, getfriend_id, address_checksum,
}

-- The `uint32_t` in four bytes, least significant first.
abbrev pub read_le32 : List ℕ → ℕ
read_le32 bytes =
    get_or bytes 0 0
    + get_or bytes 1 0 * 2 ^ 8
    + get_or bytes 2 0 * 2 ^ 16
    + get_or bytes 3 0 * 2 ^ 24

-- What `m_addfriend` returns: a friend number or an error.
pub data AddResult : Type 0 where
  added : ℕ → AddResult
  faerr_toolong : AddResult
  faerr_nomessage : AddResult
  faerr_ownkey : AddResult
  faerr_alreadysent : AddResult
  faerr_unknown : AddResult
  faerr_badchecksum : AddResult
  faerr_setnewnospam : AddResult
  faerr_nomem : AddResult

-- The place `i` of the list, or one more at its end.
abbrev pub put_friend : List Friend → ℕ → Friend → List Friend
put_friend fs i f = if i == length fs then fs ++ f ∷ [] else set fs i f

abbrev pub requested_friend : Friend → Key → ℕ → List ℕ → Friend
requested_friend f client_id nospam data' = record f {
  status = friend_added;
  crypt_connection_id = none;
  friendrequest_lastsent = 0;
  request_timeout = friendrequest_timeout;
  client_id = client_id;
  statusmessage = 0 ∷ [];
  statusmessage_length = 1;
  userstatus = 0;
  info = data' ++ drop (length data') f.info;
  info_size = length data';
  message_id = 0;
  receives_read_receipts = 1;
  friendrequest_nospam = nospam;
}

abbrev pub confirmed_friend : Friend → Key → Friend
confirmed_friend f client_id = record f {
  status = friend_confirmed;
  crypt_connection_id = none;
  friendrequest_lastsent = 0;
  client_id = client_id;
  statusmessage = 0 ∷ [];
  statusmessage_length = 1;
  userstatus = 0;
  message_id = 0;
  receives_read_receipts = 1;
}

-- The first unused place of the list with one zeroed place more.
unfoldable pub free_place : List Friend → Option ℕ
unfolding find_friend
free_place fs = find_friend (λ f. f.status == no_friend) 0 (fs ++ zero_friend ∷ [])

abbrev pub friend_or_new : List Friend → ℕ → Friend
friend_or_new fs i = get_or fs i zero_friend

-- The end of `m_addfriend`, for a key that is not in the list.
unfoldable pub add_new :
    (ℕ → ℕ) → Env → Messenger → Key → ℕ → List ℕ → Option ℕ → Messenger × AddResult
add_new random_int env m client_id nospam data' none = (m, faerr_unknown)
add_new random_int env m client_id nospam data' (some i) = (
  record m {
    friendlist =
        put_friend m.friendlist i
          (requested_friend (friend_or_new m.friendlist i) client_id nospam data');
    dht = (dht_addfriend random_int env m.dht client_id).0;
  },
  added i,
)

-- A friend that is there gets the new nospam number, if it is another.
unfoldable pub renew_nospam : Messenger → ℕ → ℕ → Messenger × AddResult
renew_nospam m i nospam =
    let f = get_or m.friendlist i zero_friend in
    if f.friendrequest_nospam == nospam then (m, faerr_alreadysent) else (
      record m { friendlist = set m.friendlist i (record f { friendrequest_nospam = nospam }) },
      faerr_setnewnospam,
    )

-- The end of `m_addfriend`, after its tests of the address and the message.
unfoldable pub add_or_renew : (ℕ → ℕ) → Env → Messenger → Key → ℕ → List ℕ → Messenger × AddResult
add_or_renew random_int env m client_id nospam data' =
    let new = add_new random_int env m client_id nospam data' (free_place m.friendlist) in
    elim (getfriend_id m client_id) [
      | some i ↦ renew_nospam m i nospam
      | none ↦ if env.alloc_ok then new else (m, faerr_nomem)
    ]

unfoldable pub m_addfriend : (ℕ → ℕ) → Env → Messenger → List ℕ → List ℕ → Messenger × AddResult
m_addfriend random_int env m address data' =
    let client_id = take 32 address in
    let nospam = read_le32 (take 4 (drop 32 address)) in
    if leb 984 (length data')
    then (m, faerr_toolong)
    else if not (bytes_eq (take 2 (drop 36 address)) (address_checksum (take 36 address)))
    then (m, faerr_badchecksum)
    else if ltb (length data') 1
    then (m, faerr_nomessage)
    else if bytes_eq client_id m.net_crypto.self_public_key
    then (m, faerr_ownkey)
    else add_or_renew random_int env m client_id nospam data'

-- `none` for -1 and for the error of no memory.
unfoldable pub m_addfriend_norequest : (ℕ → ℕ) → Env → Messenger → Key → Messenger × Option ℕ
unfolding getfriend_id free_place
m_addfriend_norequest random_int env m client_id = elim (getfriend_id m client_id) [
  | some i ↦ (m, none)
  | none ↦ elim (free_place m.friendlist) [
    | none ↦ (m, none)
    | some i ↦
        if env.alloc_ok
        then (
          record m {
            friendlist =
                put_friend m.friendlist i
                  (confirmed_friend (friend_or_new m.friendlist i) client_id);
            dht = (dht_addfriend random_int env m.dht client_id).0;
          },
          some i,
        )
        else (m, none)
  ]
]
