-- ===== src/Tests/FriendRequests.antt =====
-- Examples for the filter of friend requests.
use project_tox_core.Prelude.{
  ℕ, ◌≡◌, refl, arith, true, none, List, [], ◌∷◌, replicate, length-replicate, bytes_eq,
}
use project_tox_core.FriendRequests.{
  Key, FriendRequests, friendreq_handlepacket, addto_receivedlist, request_received, received_loop,
}
use project_tox_core.FriendRequests.Window.{IsValid}
use project_tox_core.FriendRequests.Laws.{handle_all, delivered_once}

abbrev filter : FriendRequests
filter = record {
  nospam = 513;
  handle_isset = true;
  received_requests = replicate 32 [];
  received_requests_index = 0;
}

abbrev alice : Key
alice = 1 ∷ 2 ∷ []

abbrev bob : Key
bob = 3 ∷ 4 ∷ []

-- our nospam number and the text "hi"
abbrev hello : List ℕ
hello = 1 ∷ 2 ∷ 0 ∷ 0 ∷ 104 ∷ 105 ∷ []

filter-IsValid : IsValid filter
filter-IsValid = record { slots = length-replicate {A = Key} 32 []; index = omega arith }

hello_passes : (friendreq_handlepacket filter alice hello).status ≡ 0
unfolding friendreq_handlepacket bytes_eq request_received received_loop
hello_passes = refl

one_between :
    (handle_all (friendreq_handlepacket filter alice hello).state ((bob, hello) ∷ [])).1 ≡ 1
unfolding handle_all bytes_eq friendreq_handlepacket addto_receivedlist request_received
    received_loop
one_between = refl

delivered_once_example :
    let after =
      (handle_all (friendreq_handlepacket filter alice hello).state ((bob, hello) ∷ [])).0 in
    let out = friendreq_handlepacket after alice hello in
    (out.called ≡ none) × (out.status ≡ 1) × (out.state ≡ after)
delivered_once_example =
    delivered_once filter alice hello hello ((bob, hello) ∷ []) filter-IsValid hello_passes
      (omega (arith, one_between))
