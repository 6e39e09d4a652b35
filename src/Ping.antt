-- ===== src/Ping.antt =====
-- toxcore/ping.c, the cyclic buffer of pings that wait for an answer (`PING`, `remove_timeouts`,
-- `add_ping`, `is_pinging`). The clock is read once per call and passed in as `now`; the number
-- that `random_64b` returns is an argument.
pub mod Refine
pub mod History
pub mod Packets
pub mod RoundTrip
use project_tox_core.Prelude.{
  ℕ, zero, suc, ◌+◌, ◌%◌, Bool, true, false, ◌&&◌, ◌||◌, List, ltb, ◌==◌, if◌then◌else◌, add64,
  sub64, get_or, set, replicate,
}
use project_tox_core.Network.{IpPort, zero_ip_port, ipp_eq}

abbrev pub ping_num_max : ℕ
ping_num_max = 256

abbrev pub ping_timeout : ℕ
ping_timeout = 5

-- `pinged_t`
pub record Pinged : Type 0 where
  pub ipp : IpPort
  pub id : ℕ
  pub timestamp : ℕ

abbrev pub zero_pinged : Pinged
zero_pinged = record { ipp = zero_ip_port; id = 0; timestamp = 0 }

-- `PING`
pub record Ping : Type 0 where
  pub pings : List Pinged
  pub num_pings : ℕ
  pub pos_pings : ℕ

unfoldable pub new_ping : Ping
new_ping = record { pings = replicate ping_num_max zero_pinged; num_pings = 0; pos_pings = 0 }

unfoldable pub is_timeout : ℕ → ℕ → Bool
is_timeout now time = ltb (add64 time ping_timeout) now

abbrev pub ping_at : Ping → ℕ → Pinged
ping_at p i = get_or p.pings (add64 p.pos_pings i % ping_num_max) zero_pinged

-- The loop of `remove_timeouts` from index `i`, with `k` rounds left: `(new_pos, new_num)`.
unfoldable pub remove_loop : ℕ → ℕ → Ping → ℕ → ℕ → ℕ → ℕ × ℕ
remove_loop now zero p i new_pos new_num = (new_pos, new_num)
remove_loop now (suc k) p i new_pos new_num =
    let rest = remove_loop now k p (i + 1) (add64 new_pos 1) (sub64 new_num 1) in
    if is_timeout now (ping_at p i).timestamp then rest else (new_pos, new_num)

unfoldable pub remove_timeouts : ℕ → Ping → Ping
remove_timeouts now p =
    let (new_pos, new_num) = remove_loop now p.num_pings p 0 p.pos_pings p.num_pings in
    record p { num_pings = new_num; pos_pings = new_pos % ping_num_max }

-- "Remove oldest ping if full buffer."
pub drop_oldest : Ping → Ping
drop_oldest p =
    if p.num_pings == ping_num_max
    then record p {
      num_pings = sub64 p.num_pings 1;
      pos_pings = add64 p.pos_pings 1 % ping_num_max;
    }
    else p

-- "Insert new ping at end of list."
pub insert_ping : ℕ → ℕ → Ping → IpPort → Ping
insert_ping now random p ipp = record p {
  pings =
      set p.pings (add64 p.pos_pings p.num_pings % ping_num_max)
        (record { ipp = ipp; id = random; timestamp = now });
  num_pings = add64 p.num_pings 1;
}

-- The new buffer and the id that is returned.
unfoldable pub add_ping : ℕ → ℕ → Ping → IpPort → Ping × ℕ
unfolding insert_ping
add_ping now random p ipp =
    (insert_ping now random (drop_oldest (remove_timeouts now p)) ipp, random)

-- The test of `is_pinging`; `ping_id` 0 matches any id and address 0 any address.
unfoldable pub matches : IpPort → ℕ → Pinged → Bool
matches ipp ping_id e = (ipp_eq e.ipp ipp || ipp.ip == 0) && (e.id == ping_id || ping_id == 0)

unfoldable pub find_loop : ℕ → Ping → ℕ → IpPort → ℕ → Bool
find_loop zero p i ipp ping_id = false
find_loop (suc k) p i ipp ping_id =
    if matches ipp ping_id (ping_at p i) then true else find_loop k p (i + 1) ipp ping_id

unfoldable pub is_pinging : ℕ → Ping → IpPort → ℕ → Ping × Bool
is_pinging now p ipp ping_id =
    let p' = remove_timeouts now p in
    if (ipp.ip == 0) && (ping_id == 0)
    then (p, false)
    else (p', find_loop p'.num_pings p' 0 ipp ping_id)
