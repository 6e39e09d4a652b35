-- ===== src/Ping/History.antt =====
-- The ping buffer over a history of calls on a clock that does not run backwards: the pings stay
-- in the order of their timestamps, so the early stop of `remove_timeouts` misses nothing.
use project_tox_core.Prelude.{
  ℕ, ◌+◌, ◌^◌, ◌≤◌, ◌<◌, ◌≡◌, refl, ap, ◌∙◌, Bool, ◌&&◌, not, List, [], ◌∷◌, ◌++◌, arith, ◌==◌, leb,
  length, Bool-cases, inl, inr, All, length-replicate,
}
use project_tox_core.Network.{IpPort}
use project_tox_core.Ping.{
  Pinged, Ping, zero_pinged, ping_timeout, is_timeout, add_ping, matches, is_pinging, new_ping,
  remove_timeouts,
}
use project_tox_core.Ping.Refine.{
  IsValid, contents, live, any, make_room, fresh, add_ping_refines, is_pinging_refines,
  remove_timeouts_lem,
}

-- In the order of their timestamps, none after `now`.
abbrev pub IsOrdered : ℕ → List Pinged → Type 0
IsOrdered now [] = Unit {0}
IsOrdered now (e ∷ q) =
    All (λ (f : Pinged). e.timestamp ≤ f.timestamp) q × (e.timestamp ≤ now) × IsOrdered now q

-- A ping that still waits for its answer at time `now`.
abbrev pub is_waiting : ℕ → Pinged → Bool
is_waiting now e = leb now (e.timestamp + ping_timeout)

IsOrdered-mono :
    (now later : ℕ) (q : List Pinged) → now ≤ later → IsOrdered now q → IsOrdered later q
IsOrdered-mono now later [] h o = tt
IsOrdered-mono now later (e ∷ q) h o = (o.0, omega arith, IsOrdered-mono now later q h o.2)

IsOrdered-live : (now t : ℕ) (q : List Pinged) → IsOrdered t q → IsOrdered t (live now q)
unfolding live
IsOrdered-live now t [] o = tt
IsOrdered-live now t (e ∷ q) o = elim (Bool-cases (is_timeout now e.timestamp)) [
  | inl old ↦ rw old (IsOrdered-live now t q o.2)
  | inr new ↦ rw new o
]

IsOrdered-make_room : (t : ℕ) (q : List Pinged) → IsOrdered t q → IsOrdered t (make_room q)
unfolding make_room
IsOrdered-make_room t [] o = tt
IsOrdered-make_room t (e ∷ q) o = elim (Bool-cases (length (e ∷ q) == 256)) [
  | inl full ↦ rw full o.2
  | inr room ↦ rw room o
]

All-snoc :
    (t : ℕ) (q : List Pinged) (e : Pinged)
    → All (λ (f : Pinged). t ≤ f.timestamp) q
    → t ≤ e.timestamp
    → All (λ (f : Pinged). t ≤ f.timestamp) (q ++ e ∷ [])
All-snoc t [] e a h = (h, tt)
All-snoc t (f ∷ q) e a h = (a.0, All-snoc t q e a.1 h)

IsOrdered-snoc :
    (now : ℕ) (q : List Pinged) (e : Pinged)
    → IsOrdered now q
    → e.timestamp ≡ now
    → IsOrdered now (q ++ e ∷ [])
IsOrdered-snoc now [] e o h = (tt, omega arith, tt)
IsOrdered-snoc now (f ∷ q) e o h =
    (All-snoc f.timestamp q e o.0 (omega arith), o.1, IsOrdered-snoc now q e o.2 h)

-- Calls on one buffer, the clock at `t` after the last of them.
pub data Reach : ℕ → Ping → Type 0 where
  created : (t : ℕ) → Reach t new_ping
  added :
      {t : ℕ} {p : Ping} (now random : ℕ) (ipp : IpPort)
      → Reach t p
      → t ≤ now
      → Reach now (add_ping now random p ipp).0
  asked :
      {t : ℕ} {p : Ping} (now ping_id : ℕ) (ipp : IpPort)
      → Reach t p
      → t ≤ now
      → Reach now (is_pinging now p ipp ping_id).0

pub record Inv (t : ℕ) (p : Ping) : Type 0 where
  pub valid : IsValid p
  pub ordered : IsOrdered t (contents p)

new_ping-Inv : (t : ℕ) → Inv t new_ping
unfolding new_ping contents
new_ping-Inv t = record {
  valid = record {
    storage = length-replicate 256 zero_pinged;
    count = omega arith;
    start = omega arith;
  };
  ordered = tt;
}

add_ping-Inv :
    (t now random : ℕ) (p : Ping) (ipp : IpPort)
    → Inv t p
    → t ≤ now
    → Inv now (add_ping now random p ipp).0
add_ping-Inv t now random p ipp v h =
    let (valid, _, e) = add_ping_refines now random p ipp v.valid in
    record {
      valid = valid;
      ordered = rw e (
          IsOrdered-snoc now (make_room (live now (contents p))) (fresh now random ipp)
            (IsOrdered-make_room now (live now (contents p))
              (IsOrdered-live now now (contents p) (IsOrdered-mono t now (contents p) h v.ordered)))
            refl);
    }

is_pinging-Inv :
    (t now ping_id : ℕ) (p : Ping) (ipp : IpPort)
    → Inv t p
    → t ≤ now
    → Inv now (is_pinging now p ipp ping_id).0
unfolding is_pinging
is_pinging-Inv t now ping_id p ipp v h = elim (Bool-cases ((ipp.ip == 0) && (ping_id == 0))) [
  | inl wild ↦ rw wild (record { valid = v.valid; ordered = later })
  | inr asks ↦ rw asks (record {
    valid = cleaned.0;
    ordered = rw cleaned.1 (IsOrdered-live now now (contents p) later);
  })
]
  where
    later : IsOrdered now (contents p)
    later = IsOrdered-mono t now (contents p) h v.ordered

    cleaned :
        IsValid (remove_timeouts now p) × (contents (remove_timeouts now p) ≡ live now (contents p))
    cleaned = remove_timeouts_lem now p v.valid

-- Whatever calls were made, the buffer is valid and its pings are in the order of their times.
pub Reach-Inv : {t : ℕ} {p : Ping} → Reach t p → Inv t p
Reach-Inv (created t) = new_ping-Inv t
Reach-Inv (added {t = t} {p = p} now random ipp r h) =
    add_ping-Inv t now random p ipp (Reach-Inv r) h
Reach-Inv (asked {t = t} {p = p} now ping_id ipp r h) =
    is_pinging-Inv t now ping_id p ipp (Reach-Inv r) h

any_waiting :
    (now s : ℕ) (f : Pinged → Bool) (q : List Pinged)
    → now ≤ s + ping_timeout
    → All (λ (e : Pinged). s ≤ e.timestamp) q
    → any f q ≡ any (λ e. f e && is_waiting now e) q
unfolding any
any_waiting now s f [] h a = refl
any_waiting now s f (e ∷ q) h a = ground (arith, any_waiting now s f q h a.1)

any-live :
    (t now : ℕ) (f : Pinged → Bool) (q : List Pinged)
    → IsOrdered t q
    → t ≤ now
    → now + ping_timeout < 2 ^ 64
    → any f (live now q) ≡ any (λ e. f e && is_waiting now e) q
unfolding any live is_timeout
any-live t now f [] o h small = refl
any-live t now f (e ∷ q) o h small = elim (Bool-cases (is_timeout now e.timestamp)) [
  | inl old ↦ ground (arith, any-live t now f q o.2 h small)
  | inr new ↦ ground (arith, any_waiting now e.timestamp f q)
]

-- After any calls on a clock that does not run backwards, `is_pinging` answers yes exactly when
-- some ping of the buffer that is at most 5 seconds old has the address and the id that are asked
-- for, 0 standing for any; it answers no when both are 0. The time plus 5 fits in 64 bits.
pub is_pinging_exact :
    (t now ping_id : ℕ) (p : Ping) (ipp : IpPort)
    → Reach t p
    → t ≤ now
    → now + ping_timeout < 2 ^ 64
    → (is_pinging now p ipp ping_id).1
      ≡ not ((ipp.ip == 0) && (ping_id == 0))
        && any (λ e. matches ipp ping_id e && is_waiting now e) (contents p)
is_pinging_exact t now ping_id p ipp r h small =
    let v = Reach-Inv r in
    (is_pinging_refines now p ipp ping_id v.valid).1
    ∙ ap (λ b. not ((ipp.ip == 0) && (ping_id == 0)) && b)
        (any-live t now (matches ipp ping_id) (contents p) v.ordered h small)
