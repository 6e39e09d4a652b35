-- ===== src/FriendRequests/Window.antt =====
-- How long toxcore/friend_requests.c remembers a key.
use project_tox_core.Prelude.{
  ℕ, zero, suc, ◌+◌, ◌-◌, ◌%◌, ◌≤◌, ◌<◌, ◌≡◌, ◌≢◌, ◌∙◌, dec_lt, true, List, [], arith, length,
  get_or, get_or-set_self, get_or-set_ne, length-set, bytes_eq_refl,
}
use project_tox_core.FriendRequests.{
  Key, FriendRequests, max_received_stored, next_slot, addto_receivedlist, received_loop,
  request_received,
}

pub record IsValid (fr : FriendRequests) : Type 0 where
  pub slots : length fr.received_requests ≡ max_received_stored
  pub index : fr.received_requests_index ≤ max_received_stored

-- The key stands in a slot that is overwritten by the delivery after the next `d`.
pub record Holds (key : Key) (d : ℕ) (fr : FriendRequests) : Type 0 where
  pub slot : ℕ
  pub here : get_or fr.received_requests slot [] ≡ key
  pub inside : slot < max_received_stored
  pub ahead : (slot + max_received_stored - next_slot fr) % max_received_stored ≡ d

received_loop_found :
    (k i j : ℕ) (keys : List Key) (key : Key)
    → get_or keys j [] ≡ key
    → i ≤ j
    → j < i + k
    → received_loop k keys i key ≡ true
unfolding received_loop
received_loop_found zero i j keys key e lo hi = absurd (omega arith)
received_loop_found (suc k) i j keys key e lo hi = elim (dec_lt i j) [
  | yes below ↦
      ground (arith, received_loop_found k (i + 1) j keys key e (omega arith) (omega arith))
  | no above ↦ let same : i ≡ j = omega arith in rw (same, e, bytes_eq_refl key)
]

pub request_received-Holds :
    (key : Key) (d : ℕ) (fr : FriendRequests) → Holds key d fr → request_received fr key ≡ true
unfolding request_received
request_received-Holds key d fr h =
    received_loop_found max_received_stored 0 h.slot fr.received_requests key h.here (omega arith)
      (omega arith)

pub addto_receivedlist-IsValid :
    (fr : FriendRequests) (key : Key) → IsValid fr → IsValid (addto_receivedlist fr key)
unfolding addto_receivedlist
addto_receivedlist-IsValid fr key v =
    ground (arith, length-set fr.received_requests (next_slot fr) key)

pub addto_receivedlist-Holds_new :
    (fr : FriendRequests) (key : Key) → IsValid fr → Holds key 31 (addto_receivedlist fr key)
unfolding addto_receivedlist
addto_receivedlist-Holds_new fr key v = record {
  slot = next_slot fr;
  here = get_or-set_self fr.received_requests (next_slot fr) key [] (ground arith);
  inside = ground arith;
  ahead = ground arith;
}

pub addto_receivedlist-Holds_old :
    (fr : FriendRequests) (key new : Key) (d : ℕ)
    → IsValid fr
    → Holds key (suc d) fr
    → Holds key d (addto_receivedlist fr new)
unfolding addto_receivedlist
addto_receivedlist-Holds_old fr key new d v h = record {
  slot = h.slot;
  here =
      let apart : next_slot fr ≢ h.slot = λ e. ground arith in
      get_or-set_ne fr.received_requests (next_slot fr) h.slot new [] apart ∙ h.here;
  inside = h.inside;
  ahead = ground arith;
}
