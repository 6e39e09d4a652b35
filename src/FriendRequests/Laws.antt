-- ===== src/FriendRequests/Laws.antt =====
-- When toxcore/friend_requests.c calls the callback, and that it does not do so twice for a key.
use project_tox_core.Prelude.{
  ℕ, zero, suc, ◌+◌, ◌≤◌, ◌<◌, ◌≡◌, true, false, none, some, List, [], ◌∷◌, arith, ◌⊎◌, length,
  take, drop, bytes32, bytes_eq_iff, inl, inr,
}
use project_tox_core.FriendRequests.{
  Key, FriendRequests, addto_receivedlist, request_received, friendreq_handlepacket,
}
use project_tox_core.FriendRequests.Window.{
  IsValid, Holds, request_received-Holds, addto_receivedlist-IsValid, addto_receivedlist-Holds_new,
  addto_receivedlist-Holds_old,
}

-- What a request needs in order to be passed on.
record IsWelcome (fr : FriendRequests) (key : Key) (packet : List ℕ) : Type 0 where
  handled : fr.handle_isset ≡ true
  long : 4 < length packet
  unseen : request_received fr key ≡ false
  knows_nospam : take 4 packet ≡ bytes32 fr.nospam

-- The callback is called exactly for a request that comes while a callback is set, has more than 4
-- bytes, begins with our nospam number, and is from a key that is not remembered. It is then given
-- the key and the bytes after the number, the status is 0 and the key is remembered; in all other
-- cases the status is 1 and the state is as before.
friendreq_handlepacket_exact :
    (fr : FriendRequests) (key : Key) (packet : List ℕ)
    → let out = friendreq_handlepacket fr key packet in
      (IsWelcome fr key packet
        × (out.called ≡ some (key, drop 4 packet))
        × (out.status ≡ 0)
        × (out.state ≡ addto_receivedlist fr key))
      ⊎ (¬ (IsWelcome fr key packet) × (out.called ≡ none) × (out.status ≡ 1) × (out.state ≡ fr))
unfolding friendreq_handlepacket
friendreq_handlepacket_exact fr key packet =
    ground (arith, bytes_eq_iff (take 4 packet) (bytes32 fr.nospam))

refuse_seen :
    (fr : FriendRequests) (key : Key) (packet : List ℕ)
    → request_received fr key ≡ true
    → let out = friendreq_handlepacket fr key packet in
      (out.called ≡ none) × (out.status ≡ 1) × (out.state ≡ fr)
refuse_seen fr key packet seen = elim (friendreq_handlepacket_exact fr key packet) [
  | inl (welcome, _, _, _) ↦ absurd (ground (arith, welcome.unseen))
  | inr (_, call, status, e) ↦ (call, status, e)
]

-- A run of requests, with the number of calls of the callback.
unfoldable pub handle_all : FriendRequests → List (Key × List ℕ) → FriendRequests × ℕ
handle_all fr [] = (fr, 0)
handle_all fr ((key, packet) ∷ rest) =
    let out = friendreq_handlepacket fr key packet in
    let (fr', n) = handle_all out.state rest in (fr', elim out.called [ none ↦ n | some _ ↦ n + 1 ])

run_step_IsValid :
    (fr : FriendRequests) (key : Key) (packet : List ℕ)
    → IsValid fr
    → IsValid (friendreq_handlepacket fr key packet).state
unfolding friendreq_handlepacket
run_step_IsValid fr key packet v = ground (arith, addto_receivedlist-IsValid fr key v)

run_step_Holds :
    (fr : FriendRequests) (seen key : Key) (packet : List ℕ) (d : ℕ)
    → IsValid fr
    → Holds seen (suc d) fr
    → let out = friendreq_handlepacket fr key packet in
      (Holds seen (suc d) out.state × (out.called ≡ none))
      ⊎ (Holds seen d out.state × (out.called ≡ some (key, drop 4 packet)))
run_step_Holds fr seen key packet d v h = elim (friendreq_handlepacket_exact fr key packet) [
  | inl (_, call, _, e) ↦ inr (rw e (addto_receivedlist-Holds_old fr seen key d v h), call)
  | inr (_, call, _, e) ↦ inl (rw e h, call)
]

handle_all-Holds :
    (requests : List (Key × List ℕ)) (fr : FriendRequests) (seen : Key) (d : ℕ)
    → IsValid fr
    → Holds seen d fr
    → (handle_all fr requests).1 ≤ d
    → (r : ℕ) × Holds seen r (handle_all fr requests).0
unfolding handle_all
handle_all-Holds [] fr seen d v h c = (d, h)
handle_all-Holds ((key, packet) ∷ rest) fr seen zero v h c =
    elim (friendreq_handlepacket_exact fr key packet) [
      | inl (_, call, _, e) ↦ absurd (ground (arith, call))
      | inr (_, call, _, e) ↦
          handle_all-Holds rest _ seen zero (run_step_IsValid fr key packet v) (rw e h)
            (ground (arith, call))
    ]
handle_all-Holds ((key, packet) ∷ rest) fr seen (suc d) v h c =
    let v' = run_step_IsValid fr key packet v in
    elim (run_step_Holds fr seen key packet d v h) [
      | inl (h', call) ↦ handle_all-Holds rest _ seen (suc d) v' h' (ground (arith, call))
      | inr (h', call) ↦ handle_all-Holds rest _ seen d v' h' (ground (arith, call))
    ]

-- In a valid filter, after a request of a key was passed on, a further request of that key is
-- refused without a call of the callback, whatever its nospam number and bytes, as long as at
-- most 31 requests were passed on in between.
pub delivered_once :
    (fr : FriendRequests) (key : Key) (first again : List ℕ) (between : List (Key × List ℕ))
    → IsValid fr
    → (friendreq_handlepacket fr key first).status ≡ 0
    → (handle_all (friendreq_handlepacket fr key first).state between).1 ≤ 31
    → let after = (handle_all (friendreq_handlepacket fr key first).state between).0 in
      let out = friendreq_handlepacket after key again in
      (out.called ≡ none) × (out.status ≡ 1) × (out.state ≡ after)
delivered_once fr key first again between v ok few =
    let fr1 = (friendreq_handlepacket fr key first).state in
    let (_, kept) =
      handle_all-Holds between fr1 key 31 (run_step_IsValid fr key first v) stored few in
    refuse_seen (handle_all fr1 between).0 key again (request_received-Holds key _ _ kept)
  where
    stored : Holds key 31 (friendreq_handlepacket fr key first).state
    stored = elim (friendreq_handlepacket_exact fr key first) [
      | inl (_, _, _, e) ↦ rw e (addto_receivedlist-Holds_new fr key v)
      | inr (_, _, refused, _) ↦ absurd (omega arith)
    ]
