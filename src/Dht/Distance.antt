-- ===== src/Dht/Distance.antt =====
-- The distance of client ids in toxcore/DHT.c.
pub mod Number
use project_tox_core.Prelude.{ℕ, zero, suc, ◌+◌, ◌-◌, bit_xor, ltb, ◌==◌, if◌then◌else◌, get_or}
use Prim.Native.Nat.{Ordering, lt, eq, gt}
use project_tox_core.FriendRequests.{Key}
use project_tox_core.Dht.{client_id_size}

-- `abs` of the exclusive or of two signed bytes
unfoldable pub byte_distance : ℕ → ℕ → ℕ
byte_distance a b = let x = bit_xor a b in if ltb x 128 then x else 256 - x

-- The loop of `id_closest` from byte `i` on, with `k` bytes left.
unfoldable pub closest_loop : ℕ → ℕ → Key → Key → Key → ℕ
closest_loop zero i id id1 id2 = 0
closest_loop (suc k) i id id1 id2 =
    let distance1 = byte_distance (get_or id i 0) (get_or id1 i 0) in
    let distance2 = byte_distance (get_or id i 0) (get_or id2 i 0) in
    let rest = closest_loop k (i + 1) id id1 id2 in
    if ltb distance1 distance2 then 1 else if ltb distance2 distance1 then 2 else rest

-- 1 or 2 where this one of the two ids is closer to `id`, 0 where neither is
unfoldable pub id_closest : Key → Key → Key → ℕ
unfolding closest_loop
id_closest id id1 id2 = closest_loop client_id_size 0 id id1 id2

-- `client_id_cmp` for pairs that share their first part: `lt` stands for -1 and `gt` for 1, so that
-- the closer id is the greater one.
unfoldable pub client_id_cmp : Key → Key → Key → Ordering
unfolding id_closest
client_id_cmp id id1 id2 =
    let c = id_closest id id1 id2 in if c == 2 then lt else if c == 0 then eq else gt
