-- ===== src/FriendRequests.antt =====
-- toxcore/friend_requests.c: the filter in front of the friend request callback.
-- A public key is its 32 bytes. The callback is an effect: a call of it is returned as the key
-- and the data that it is given.
pub mod Window
pub mod Laws
pub mod Send
use project_tox_core.Prelude.{
  ℕ, zero, suc, ◌+◌, Bool, true, false, not, Option, none, some, List, [], ◌∷◌, ◌==◌, leb,
  if◌then◌else◌, length, get_or, set, take, drop, replicate, bytes_eq, bytes32,
}

abbrev pub max_received_stored : ℕ
max_received_stored = 32

abbrev pub Key : Type 0
Key = List ℕ

-- `Friend_Requests`; the slots of the array start as zeroes.
pub record FriendRequests : Type 0 where
  pub nospam : ℕ
  pub handle_isset : Bool
  pub received_requests : List Key
  pub received_requests_index : ℕ

unfoldable pub set_nospam : FriendRequests → ℕ → FriendRequests
set_nospam fr num = record fr { nospam = num }

unfoldable pub get_nospam : FriendRequests → ℕ
get_nospam fr = fr.nospam

unfoldable pub callback_friendrequest : FriendRequests → FriendRequests
callback_friendrequest fr = record fr { handle_isset = true }

-- The slot that the next key goes to.
abbrev pub next_slot : FriendRequests → ℕ
next_slot fr =
    if leb max_received_stored fr.received_requests_index then 0 else fr.received_requests_index

unfoldable pub addto_receivedlist : FriendRequests → Key → FriendRequests
addto_receivedlist fr client_id = record fr {
  received_requests = set fr.received_requests (next_slot fr) client_id;
  received_requests_index = next_slot fr + 1;
}

unfoldable pub received_loop : ℕ → List Key → ℕ → Key → Bool
received_loop zero keys i client_id = false
received_loop (suc k) keys i client_id =
    if bytes_eq (get_or keys i []) client_id then true else received_loop k keys (i + 1) client_id

unfoldable pub request_received : FriendRequests → Key → Bool
unfolding received_loop
request_received fr client_id = received_loop max_received_stored fr.received_requests 0 client_id

pub record Outcome : Type 0 where
  pub state : FriendRequests
  pub status : ℕ
  pub called : Option (Key × List ℕ)

-- `packet` holds the `length` bytes of the request.
unfoldable pub friendreq_handlepacket : FriendRequests → Key → List ℕ → Outcome
friendreq_handlepacket fr source_pubkey packet =
    let refused : Outcome = record { state = fr; status = 1; called = none } in
    let accepted : Outcome = record {
      state = addto_receivedlist fr source_pubkey;
      status = 0;
      called = some (source_pubkey, drop 4 packet);
    } in
    if not fr.handle_isset
    then refused
    else if leb (length packet) 4
    then refused
    else if request_received fr source_pubkey
    then refused
    else if not (bytes_eq (take 4 packet) (bytes32 fr.nospam))
    then refused
    else accepted
