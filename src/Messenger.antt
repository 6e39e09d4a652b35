-- ===== src/Messenger.antt =====
-- toxcore/Messenger.c and Messenger.h: the friend list and the address that is given to others.
-- A friend number is an `Option ℕ`, `none` standing for every negative one. The network core and the
-- data pointers of the callbacks are left out; a callback is whether it is set.
pub mod Adding
pub mod Send
pub mod Run
pub mod Online
pub mod Dispatch
pub mod Loop
pub mod Setters
pub mod Removal
pub mod Address
pub mod Placing
pub mod Laws
use project_tox_core.Prelude.{
  ℕ, ◌+◌, ◌*◌, ◌%◌, ◌^◌, bit_xor, Bool, true, false, not, ◌&&◌, ◌||◌, Option, none, some, List, [],
  ◌∷◌, ◌++◌, ◌==◌, ltb, leb, if◌then◌else◌, length, get_elem?, get_or, set, take, drop, replicate,
  bytes_eq, bytes32, map, min,
}
use project_tox_core.FriendRequests.{Key, FriendRequests, get_nospam}
use project_tox_core.Lossless.{max_data_size}
use project_tox_core.NetCrypto.{NetCrypto}
use project_tox_core.Dht.{Dht, Env}
use project_tox_core.Dht.Friends.{dht_addfriend}

abbrev pub max_name_length : ℕ
max_name_length = 128

-- `NOFRIEND`, `FRIEND_ADDED` and `FRIEND_CONFIRMED`
abbrev pub no_friend : ℕ
no_friend = 0

abbrev pub friend_added : ℕ
friend_added = 1

abbrev pub friend_confirmed : ℕ
friend_confirmed = 3

abbrev pub friendrequest_timeout : ℕ
friendrequest_timeout = 5

-- `Friend`
pub record Friend : Type 0 where
  pub client_id : Key
  pub crypt_connection_id : Option ℕ
  pub friendrequest_lastsent : ℕ
  pub request_timeout : ℕ
  pub status : ℕ
  pub info : List ℕ
  pub name : List ℕ
  pub name_sent : ℕ
  pub statusmessage : List ℕ
  pub statusmessage_length : ℕ
  pub statusmessage_sent : ℕ
  pub userstatus : ℕ
  pub userstatus_sent : ℕ
  pub info_size : ℕ
  pub message_id : ℕ
  pub receives_read_receipts : ℕ
  pub friendrequest_nospam : ℕ
  pub ping_lastrecv : ℕ
  pub ping_lastsent : ℕ

unfoldable pub zero_friend : Friend
zero_friend = record {
  client_id = replicate 32 0;
  crypt_connection_id = some 0;
  friendrequest_lastsent = 0;
  request_timeout = 0;
  status = 0;
  info = replicate max_data_size 0;
  name = replicate max_name_length 0;
  name_sent = 0;
  statusmessage = [];
  statusmessage_length = 0;
  statusmessage_sent = 0;
  userstatus = 0;
  userstatus_sent = 0;
  info_size = 0;
  message_id = 0;
  receives_read_receipts = 0;
  friendrequest_nospam = 0;
  ping_lastrecv = 0;
  ping_lastsent = 0;
}

-- Which of the callbacks of `Messenger` are set.
pub record Callbacks : Type 0 where
  pub friend_message : Bool
  pub friend_action : Bool
  pub friend_namechange : Bool
  pub friend_statusmessagechange : Bool
  pub friend_userstatuschange : Bool
  pub read_receipt : Bool
  pub friend_connectionstatuschange : Bool

-- `Messenger`; `numfriends` is the length of `friendlist`.
pub record Messenger : Type 0 where
  pub net_crypto : NetCrypto
  pub dht : Dht
  pub fr : FriendRequests
  pub name : List ℕ
  pub name_length : ℕ
  pub statusmessage : List ℕ
  pub statusmessage_length : ℕ
  pub userstatus : ℕ
  pub friendlist : List Friend
  pub last_landiscovery : ℕ
  pub callbacks : Callbacks

unfoldable pub find_friend : (Friend → Bool) → ℕ → List Friend → Option ℕ
find_friend test i [] = none
find_friend test i (f ∷ fs) = if test f then some i else find_friend test (i + 1) fs

abbrev pub is_friend_of : Key → Friend → Bool
is_friend_of client_id f = ltb 0 f.status && bytes_eq client_id f.client_id

unfoldable pub getfriend_id : Messenger → Key → Option ℕ
unfolding find_friend
getfriend_id m client_id = find_friend (is_friend_of client_id) 0 m.friendlist

unfoldable pub getclient_id : Messenger → Option ℕ → Option Key
getclient_id m none = none
getclient_id m (some i) = elim (get_elem? m.friendlist i) [
  | none ↦ none
  | some f ↦ if ltb 0 f.status then some f.client_id else none
]

unfoldable pub m_friendstatus : Messenger → Option ℕ → ℕ
m_friendstatus m none = no_friend
m_friendstatus m (some i) = elim (get_elem? m.friendlist i) [ none ↦ no_friend | some f ↦ f.status ]

-- The loop of `address_checksum` from byte `i` on; the two bytes of the sum.
unfoldable pub checksum_loop : ℕ → List ℕ → List ℕ → List ℕ
checksum_loop i checksum [] = checksum
checksum_loop i checksum (b ∷ address) =
    checksum_loop (i + 1) (set checksum (i % 2) (bit_xor (get_or checksum (i % 2) 0) b)) address

unfoldable pub address_checksum : List ℕ → List ℕ
unfolding checksum_loop
address_checksum address = checksum_loop 0 (0 ∷ 0 ∷ []) address

unfoldable pub getaddress : Messenger → List ℕ
unfolding get_nospam
getaddress m =
    let front = m.net_crypto.self_public_key ++ bytes32 (get_nospam m.fr) in
    front ++ address_checksum front

-- Our name; every friend is to be sent it again. The `Bool` is true for the result 0.
unfoldable pub setname : Messenger → List ℕ → Messenger × Bool
setname m name' =
    if ltb max_name_length (length name') || (length name' == 0) then (m, false) else (
      record m {
        name = name' ++ drop (length name') m.name;
        name_length = length name';
        friendlist = map (λ (f : Friend). record f { name_sent = 0 }) m.friendlist;
      },
      true,
    )

unfoldable pub getself_name : Messenger → ℕ → List ℕ
getself_name m nlen = if nlen == 0 then [] else take (min nlen m.name_length) m.name
