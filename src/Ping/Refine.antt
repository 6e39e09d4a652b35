-- ===== src/Ping/Refine.antt =====
-- The cyclic buffer of toxcore/ping.c as a queue of pings, oldest first.
use project_tox_core.Prelude.{
  ℕ, zero, suc, ◌+◌, ◌-◌, ◌%◌, ◌≤◌, ◌<◌, ◌≡◌, refl, ap, ap₂, ◌∙◌, sym, Bool, true, false, ◌&&◌, not,
  List, [], ◌∷◌, ◌++◌, arith, ◌==◌, length, drop, get_or, set, if◌then◌else◌, Bool-cases, inl, inr,
  add64, sub64, get_or-set_self, get_or-set_ne, length-set,
}
use project_tox_core.Network.{IpPort}
use project_tox_core.Ping.{
  Pinged, Ping, zero_pinged, ping_num_max, is_timeout, remove_loop, remove_timeouts, drop_oldest,
  insert_ping, add_ping, matches, find_loop, is_pinging,
}

pub record IsValid (p : Ping) : Type 0 where
  pub storage : length p.pings ≡ ping_num_max
  pub count : p.num_pings ≤ ping_num_max
  pub start : p.pos_pings < ping_num_max

-- The `n` pings from position `s` on, going round at 256.
pub window : List Pinged → ℕ → ℕ → List Pinged
window buf s zero = []
window buf s (suc n) = get_or buf (s % ping_num_max) zero_pinged ∷ window buf (s + 1) n

unfoldable pub contents : Ping → List Pinged
unfolding window
contents p = window p.pings p.pos_pings p.num_pings

-- The pings that `remove_timeouts` leaves: it stops at the first that has not timed out.
unfoldable pub live : ℕ → List Pinged → List Pinged
live now [] = []
live now (e ∷ q) = if is_timeout now e.timestamp then live now q else e ∷ q

window-cong :
    (buf : List Pinged) (n s t : ℕ)
    → s % ping_num_max ≡ t % ping_num_max
    → window buf s n ≡ window buf t n
unfolding window
window-cong buf zero s t e = refl
window-cong buf (suc n) s t e =
    ap₂ ◌∷◌ (ap (λ k. get_or buf k zero_pinged) e) (window-cong buf n (s + 1) (t + 1) (omega arith))

length-window : (buf : List Pinged) (s n : ℕ) → length (window buf s n) ≡ n
unfolding window
length-window buf s zero = refl
length-window buf s (suc n) = ap suc (length-window buf (s + 1) n)

pub length-contents : (p : Ping) → length (contents p) ≡ p.num_pings
unfolding contents
length-contents p = length-window p.pings p.pos_pings p.num_pings

remove_loop_lem :
    (now : ℕ) (p : Ping) (k i np nn : ℕ)
    → p.pos_pings < ping_num_max
    → i + k ≤ ping_num_max
    → np ≡ p.pos_pings + i
    → nn ≡ k
    → let r = remove_loop now k p i np nn in
      (window p.pings r.0 r.1 ≡ live now (window p.pings np k)) × (r.1 ≤ k)
unfolding remove_loop live window
remove_loop_lem now p zero i np nn hp hi e f = ground arith
remove_loop_lem now p (suc k) i np nn hp hi e f = ground (
  arith,
  here,
  next,
  remove_loop_lem now p k (i + 1) (add64 np 1) (sub64 nn 1) hp (omega arith) (omega arith)
      (omega arith),
)
  where
    here : add64 p.pos_pings i % ping_num_max ≡ np % ping_num_max
    here = omega arith

    next : add64 np 1 ≡ np + 1
    next = omega arith

-- `remove_timeouts` leaves the buffer valid, and takes the timed out pings off its front.
pub remove_timeouts_lem :
    (now : ℕ) (p : Ping)
    → IsValid p
    → IsValid (remove_timeouts now p) × (contents (remove_timeouts now p) ≡ live now (contents p))
unfolding remove_timeouts contents
remove_timeouts_lem now p v = ground (
  arith,
  remove_loop_lem now p p.num_pings 0 p.pos_pings p.num_pings v.start (omega arith) (omega arith)
      refl,
  window-cong p.pings (remove_loop now p.num_pings p 0 p.pos_pings p.num_pings).1
      ((remove_loop now p.num_pings p 0 p.pos_pings p.num_pings).0 % ping_num_max)
      (remove_loop now p.num_pings p 0 p.pos_pings p.num_pings).0 (omega arith),
)

drop-window : (buf : List Pinged) (s n : ℕ) → drop 1 (window buf s n) ≡ window buf (s + 1) (n - 1)
unfolding window
drop-window buf s zero = ap (window buf (s + 1)) (let e : 0 ≡ zero - 1 = omega arith in e)
drop-window buf s (suc n) = ap (window buf (s + 1)) (omega arith)

-- The oldest ping makes room in a full queue.
unfoldable pub make_room : List Pinged → List Pinged
make_room q = if length q == ping_num_max then drop 1 q else q

make_room_at :
    (q : List Pinged) (n : ℕ)
    → length q ≡ n
    → (if n == ping_num_max then drop 1 q else q) ≡ make_room q
unfolding make_room
make_room_at q n e = rw e

drop_oldest_counted :
    (p : Ping)
    → IsValid p
    → IsValid (drop_oldest p)
      × ((drop_oldest p).num_pings < ping_num_max)
      × (contents (drop_oldest p)
          ≡ (if p.num_pings == ping_num_max then drop 1 (contents p) else contents p))
unfolding drop_oldest contents
drop_oldest_counted p v = elim (Bool-cases (p.num_pings == ping_num_max)) [
  | inl full ↦
      let less : p.num_pings - 1 ≡ sub64 p.num_pings 1 = ground arith in
      let moved =
        window-cong p.pings (sub64 p.num_pings 1) (add64 p.pos_pings 1 % ping_num_max)
          (p.pos_pings + 1) (omega arith) in
      rw full (
        record { storage = v.storage; count = omega arith; start = omega arith },
        ground arith,
        moved ∙ sym (drop-window p.pings p.pos_pings p.num_pings ∙ ap (window p.pings _) less),
      )
  | inr room ↦ rw room (v, ground arith, refl)
]

drop_oldest_lem :
    (p : Ping)
    → IsValid p
    → IsValid (drop_oldest p)
      × ((drop_oldest p).num_pings < ping_num_max)
      × (contents (drop_oldest p) ≡ make_room (contents p))
drop_oldest_lem p v =
    let (valid, small, e) = drop_oldest_counted p v in
    (valid, small, e ∙ make_room_at (contents p) p.num_pings (length-contents p))

-- A write just past a window extends it.
window-set :
    (buf : List Pinged) (e : Pinged) (n s i : ℕ)
    → length buf ≡ ping_num_max
    → n < ping_num_max
    → i ≡ (s + n) % ping_num_max
    → window (set buf i e) s (suc n) ≡ window buf s n ++ e ∷ []
unfolding window
window-set buf e zero s i h hn hi =
    let at_start : s % ping_num_max ≡ i = omega arith in
    ap (λ k. k ∷ []) (rw at_start (get_or-set_self buf i e zero_pinged (omega arith)))
window-set buf e (suc n) s i h hn hi =
    ap₂ ◌∷◌ (get_or-set_ne buf i (s % ping_num_max) e zero_pinged (omega arith))
      (window-set buf e n (s + 1) i h (omega arith) (omega arith))

abbrev pub fresh : ℕ → ℕ → IpPort → Pinged
fresh now random ipp = record { ipp = ipp; id = random; timestamp = now }

insert_ping_lem :
    (now random : ℕ) (p : Ping) (ipp : IpPort)
    → IsValid p
    → p.num_pings < ping_num_max
    → IsValid (insert_ping now random p ipp)
      × (contents (insert_ping now random p ipp) ≡ contents p ++ fresh now random ipp ∷ [])
unfolding insert_ping contents
insert_ping_lem now random p ipp v h = ground (
  arith,
  window-set p.pings (fresh now random ipp) p.num_pings p.pos_pings
      (add64 p.pos_pings p.num_pings % ping_num_max) v.storage h (omega arith),
  length-set p.pings (add64 p.pos_pings p.num_pings % ping_num_max) (fresh now random ipp),
  (let e : add64 p.num_pings 1 ≡ suc p.num_pings = omega arith in e),
)

-- `add_ping` keeps a valid buffer valid, returns the id that was drawn, and leaves the queue of the
-- pings that had not timed out, less the oldest if they were 256, with the new ping at the end.
pub add_ping_refines :
    (now random : ℕ) (p : Ping) (ipp : IpPort)
    → IsValid p
    → let (p', id) = add_ping now random p ipp in
      IsValid p'
      × (id ≡ random)
      × (contents p' ≡ make_room (live now (contents p)) ++ fresh now random ipp ∷ [])
unfolding add_ping
add_ping_refines now random p ipp v =
    let (v1, e1) = remove_timeouts_lem now p v in
    let (v2, small, e2) = drop_oldest_lem (remove_timeouts now p) v1 in
    let (v3, e3) = insert_ping_lem now random (drop_oldest (remove_timeouts now p)) ipp v2 small in
    (v3, refl, e3 ∙ ap (λ q. q ++ fresh now random ipp ∷ []) (e2 ∙ ap make_room e1))

unfoldable pub any : (Pinged → Bool) → List Pinged → Bool
any f [] = false
any f (e ∷ q) = if f e then true else any f q

find_loop_lem :
    (k : ℕ) (p : Ping) (i : ℕ) (ipp : IpPort) (ping_id : ℕ)
    → p.pos_pings < ping_num_max
    → i + k ≤ ping_num_max
    → find_loop k p i ipp ping_id ≡ any (matches ipp ping_id) (window p.pings (p.pos_pings + i) k)
unfolding find_loop any window
find_loop_lem zero p i ipp ping_id hp hi = refl
find_loop_lem (suc k) p i ipp ping_id hp hi = ground (
  arith,
  find_loop_lem k p (i + 1) ipp ping_id hp (omega arith),
  (let e : add64 p.pos_pings i ≡ p.pos_pings + i = omega arith in e),
  (let e : p.pos_pings + (i + 1) ≡ p.pos_pings + i + 1 = omega arith in e),
)

find_pings_lem :
    (p : Ping) (ipp : IpPort) (ping_id : ℕ)
    → IsValid p
    → find_loop p.num_pings p 0 ipp ping_id ≡ any (matches ipp ping_id) (contents p)
unfolding contents
find_pings_lem p ipp ping_id v =
    find_loop_lem p.num_pings p 0 ipp ping_id v.start (omega arith)
    ∙ ap (λ s. any (matches ipp ping_id) (window p.pings s p.num_pings)) (omega arith)

-- `is_pinging` keeps a valid buffer valid. It refuses the wildcard of both, and else says whether
-- one of the pings that have not timed out has the address and the id, 0 standing for any.
pub is_pinging_refines :
    (now : ℕ) (p : Ping) (ipp : IpPort) (ping_id : ℕ)
    → IsValid p
    → let (p', found) = is_pinging now p ipp ping_id in
      IsValid p'
      × (found
          ≡ not ((ipp.ip == 0) && (ping_id == 0))
            && any (matches ipp ping_id) (live now (contents p)))
unfolding is_pinging
is_pinging_refines now p ipp ping_id v =
    let (valid, e) = remove_timeouts_lem now p v in
    ground (arith, valid, e, find_pings_lem (remove_timeouts now p) ipp ping_id valid)
