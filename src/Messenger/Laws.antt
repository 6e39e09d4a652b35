-- ===== src/Messenger/Laws.antt =====
-- What `m_addfriend` leaves behind, and our own name, in toxcore/Messenger.c.
use project_tox_core.Prelude.{
  ℕ, ◌≤◌, ◌<◌, ◌≡◌, ◌≢◌, refl, Bool, true, false, none, List, [], arith, ◌++◌, length, take, drop,
  take-append, min, All, map, ◌∷◌,
}
use project_tox_core.FriendRequests.{Key}
use project_tox_core.Dht.Friends.Known.{Knows}
use project_tox_core.Messenger.{Friend, Messenger, getfriend_id, setname, getself_name}
use project_tox_core.Messenger.Adding.{
  AddResult, added, faerr_toolong, faerr_nomessage, faerr_ownkey, faerr_alreadysent, faerr_unknown,
  faerr_badchecksum, faerr_setnewnospam, faerr_nomem,
}
use project_tox_core.Messenger.Placing.{Placed}

abbrev pub is_error : AddResult → Bool
is_error (added i) = false
is_error faerr_toolong = true
is_error faerr_nomessage = true
is_error faerr_ownkey = true
is_error faerr_alreadysent = true
is_error faerr_unknown = true
is_error faerr_badchecksum = true
is_error faerr_setnewnospam = false
is_error faerr_nomem = true

-- A friend with this key, who waits for the request with this number and message to be sent.
pub record IsRequested (key : Key) (nospam : ℕ) (data' : List ℕ) (f : Friend) : Type 0 where
  pub added_status : f.status ≡ 1
  pub has_key : f.client_id ≡ key
  pub has_nospam : f.friendrequest_nospam ≡ nospam
  pub message : take f.info_size f.info ≡ data'
  pub unconnected : f.crypt_connection_id ≡ none

-- How adding a friend with this key ends.
pub data Adds (m : Messenger) (key : Key) (nospam : ℕ) (data' : List ℕ)
    : Messenger × AddResult → Type 0 where
  -- Nobody has the key. A friend of this key stands in an unused place, the others are as they were,
  -- and the hash table knows the key.
  as_new :
      (i : ℕ) (m' : Messenger) (f : Friend)
      → getfriend_id m key ≡ none
      → Placed f m.friendlist i m'.friendlist
      → IsRequested key nospam data' f
      → Knows key m.dht m'.dht
      → m' ≡ record m { friendlist = m'.friendlist; dht = m'.dht }
      → Adds m key nospam data' (m', added i)
  -- The friend who has the key had another number. His number is the only change.
  renewed :
      (before after : List Friend) (old : Friend)
      → m.friendlist ≡ before ++ old ∷ after
      → 0 < old.status
      → old.client_id ≡ key
      → old.friendrequest_nospam ≢ nospam
      → Adds m key nospam data' (
        record m { friendlist = before ++ record old { friendrequest_nospam = nospam } ∷ after },
        faerr_setnewnospam,
      )
  -- Nothing changes.
  refuses : (e : AddResult) → is_error e ≡ true → Adds m key nospam data' (m, e)

-- A name of 1 to 128 bytes is taken, is read back whole where there is room for it, and is marked
-- to be sent to every friend.
pub setname_round_trip :
    (m : Messenger) (name' : List ℕ) (nlen : ℕ)
    → 0 < length name'
    → length name' ≤ 128
    → length name' ≤ nlen
    → let (m', done) = setname m name' in
      (done ≡ true)
      × (getself_name m' nlen ≡ name')
      × All (λ (f : Friend). f.name_sent ≡ 0) m'.friendlist
unfolding setname getself_name
setname_round_trip m name' nlen some_bytes few room =
    let least : min nlen (length name') ≡ length name' = omega arith in
    ground (
      arith,
      least,
      take-append (length name') name' (drop (length name') m.name) refl,
      unsent m.friendlist,
    )
  where
    unsent :
        (fs : List Friend)
        → All
            (λ (f : Friend). f.name_sent ≡ 0)
            (map (λ (f : Friend). record f { name_sent = 0 }) fs)
    unsent [] = tt
    unsent (f ∷ fs) = (refl, unsent fs)
