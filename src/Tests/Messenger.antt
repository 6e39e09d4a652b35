-- ===== src/Tests/Messenger.antt =====
-- Examples for the friend list.
use project_tox_core.Prelude.{
  ℕ, ◌^◌, ◌<◌, ◌≡◌, ◌≢◌, refl, ap, arith, true, some, none, List, [], ◌∷◌, get_or, replicate, All,
}
use project_tox_core.FriendRequests.{get_nospam}
use project_tox_core.Dht.Friends.Known.{Knows, Forgets}
use project_tox_core.NetCrypto.Table.{is_cryptoconnected}
use project_tox_core.Messenger.Send.{number_at}
use project_tox_core.Messenger.Run.{World}
use project_tox_core.Messenger.Loop.{m_delfriend}
use project_tox_core.Messenger.Removal.{m_delfriend_exact}
use project_tox_core.Tests.Boxes.{open_box}
use project_tox_core.Tests.Sample.{zero_node, dice, env, unix, no_connections, small_dht}
use project_tox_core.Messenger.{
  Callbacks, Friend, zero_friend, Messenger, getfriend_id, getclient_id, m_friendstatus, getaddress,
  setname, getself_name, find_friend,
}
use project_tox_core.Messenger.Adding.{added, m_addfriend}
use project_tox_core.Messenger.Address.{address_round_trip}
use project_tox_core.Messenger.Laws.{setname_round_trip}

abbrev all_set : Callbacks
all_set = record {
  friend_message = true;
  friend_action = true;
  friend_namechange = true;
  friend_statusmessagechange = true;
  friend_userstatuschange = true;
  read_receipt = true;
  friend_connectionstatuschange = true;
}

abbrev user : ℕ → ℕ → Messenger
user key nospam = record {
  net_crypto = record {
    lossless_udp = no_connections;
    crypto_connections = [];
    self_public_key = replicate 32 key;
    self_secret_key = replicate 32 0;
    incoming_connections = replicate 64 none;
    handled = λ i. true;
    made = 0;
  };
  dht = small_dht;
  fr = record {
    nospam = nospam;
    handle_isset = true;
    received_requests = replicate 32 [];
    received_requests_index = 0;
  };
  name = replicate 128 0;
  name_length = 0;
  statusmessage = replicate 128 0;
  statusmessage_length = 7;
  userstatus = 0;
  friendlist = [];
  last_landiscovery = 0;
  callbacks = all_set;
}

abbrev greeting : List ℕ
greeting = 104 ∷ 105 ∷ []

small_nospam : get_nospam (user 3 99).fr < 2 ^ 32
unfolding get_nospam
small_nospam = omega arith

no_friends : getfriend_id (user 1 7) (replicate 32 3) ≡ none
unfolding getfriend_id find_friend
no_friends = refl

other_key : (user 1 7).net_crypto.self_public_key ≢ (user 3 99).net_crypto.self_public_key
other_key e = let heads : 1 ≡ 3 = ap (λ k. get_or k 0 0) e in absurd (omega (arith, heads))

address_round_trip_example :
    let (m, result) = m_addfriend dice unix (user 1 7) (getaddress (user 3 99)) greeting in
    (i : ℕ) × (result ≡ added i)
    × (m_friendstatus m (some i) ≡ 1)
    × (getclient_id m (some i) ≡ some (user 3 99).net_crypto.self_public_key)
    × ((get_or m.friendlist i zero_friend).friendrequest_nospam ≡ get_nospam (user 3 99).fr)
    × Knows (user 3 99).net_crypto.self_public_key (user 1 7).dht m.dht
address_round_trip_example =
    address_round_trip dice unix (user 1 7) (user 3 99) greeting refl refl small_nospam other_key
      no_friends (omega arith) (omega arith)

setname_round_trip_example :
    let (m', done) = setname (user 1 7) greeting in
    (done ≡ true)
    × (getself_name m' 10 ≡ greeting)
    × All (λ (f : Friend). f.name_sent ≡ 0) m'.friendlist
setname_round_trip_example =
    setname_round_trip (user 1 7) greeting 10 (omega arith) (omega arith) (omega arith)

abbrev lone_friend : Messenger
lone_friend = record (user 1 7) {
  friendlist =
      record zero_friend { status = 3; client_id = replicate 32 3; crypt_connection_id = none }
      ∷ record zero_friend { status = 4; client_id = replicate 32 5; crypt_connection_id = none }
      ∷ [];
}

abbrev world : World
world = record {
  unix = unix;
  net = env;
  random_dht = dice;
  random_net = dice;
  beyond = replicate 4 0;
  get_broadcast = 0;
  stack_words = [];
  stack_nodes = replicate 8 zero_node;
}

m_delfriend_exact_example :
    let (m', done) = m_delfriend open_box world lone_friend (some 0) in
    (done ≡ true)
    × (m_friendstatus m' (some 0) ≡ 0)
    × (getclient_id m' (some 0) ≡ none)
    × (m_friendstatus m' (some 1) ≡ m_friendstatus lone_friend (some 1))
    × (getclient_id m' (some 1) ≡ getclient_id lone_friend (some 1))
    × Forgets (number_at lone_friend 0).client_id lone_friend.dht m'.dht
    × (is_cryptoconnected m'.net_crypto (number_at lone_friend 0).crypt_connection_id ≡ 0)
    × (is_cryptoconnected m'.net_crypto (some 2)
        ≡ is_cryptoconnected lone_friend.net_crypto (some 2))
m_delfriend_exact_example =
    m_delfriend_exact open_box world lone_friend 0 1 2 (omega arith)
      (λ e. absurd (omega (arith, e))) (λ e. absurd (cc e)) refl
