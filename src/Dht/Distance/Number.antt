-- ===== src/Dht/Distance/Number.antt =====
-- `id_closest` of toxcore/DHT.c compares numbers: the distance of two ids, read as one number.
use project_tox_core.Prelude.{
  ℕ, zero, suc, ◌+◌, ◌*◌, ◌≤◌, ◌<◌, ◌≡◌, inl, inr, ap, sym, ◌∙◌, false, arith, ltb, ◌==◌,
  if◌then◌else◌, get_or, Bool-cases, ltb→lt,
}
use project_tox_core.FriendRequests.{Key}
use project_tox_core.QuickSort.{is_lt, is_gt}
use project_tox_core.QuickSort.Order.{IsOrder}
use project_tox_core.Dht.{client_id_size}
use project_tox_core.Dht.Distance.{byte_distance, closest_loop, id_closest, client_id_cmp}

-- The distances of the bytes, the first one highest, as digits to the base 129.
unfoldable pub distance_loop : ℕ → ℕ → ℕ → Key → Key → ℕ
distance_loop zero i acc id id1 = acc
distance_loop (suc k) i acc id id1 =
    distance_loop k (i + 1) (acc * 129 + byte_distance (get_or id i 0) (get_or id1 i 0)) id id1

unfoldable pub distance : Key → Key → ℕ
unfolding distance_loop
distance id id1 = distance_loop client_id_size 0 0 id id1

-- 1 where the first is smaller, 2 where the second is
abbrev pub smaller : ℕ → ℕ → ℕ
smaller a b = if ltb a b then 1 else if ltb b a then 2 else 0

pub smaller_first : (a b : ℕ) → a < b → smaller a b ≡ 1
smaller_first a b h = ground arith

pub smaller_second : (a b : ℕ) → b < a → smaller a b ≡ 2
smaller_second a b h = ground arith

byte_distance_le : (a b : ℕ) → byte_distance a b ≤ 128
unfolding byte_distance
byte_distance_le a b = ground arith

distance_mono :
    (k i a b : ℕ) (id id1 id2 : Key)
    → a < b
    → distance_loop k i a id id1 < distance_loop k i b id id2
unfolding distance_loop
distance_mono zero i a b id id1 id2 h = h
distance_mono (suc k) i a b id id1 id2 h =
    distance_mono k (i + 1) _ _ id id1 id2
      (omega (arith, byte_distance_le (get_or id i 0) (get_or id1 i 0)))

closest_loop_lem :
    (k i acc : ℕ) (id id1 id2 : Key)
    → closest_loop k i id id1 id2
      ≡ smaller (distance_loop k i acc id id1) (distance_loop k i acc id id2)
unfolding closest_loop distance_loop
closest_loop_lem zero i acc id id1 id2 = ground arith
closest_loop_lem (suc k) i acc id id1 id2 =
    let d1 = byte_distance (get_or id i 0) (get_or id1 i 0) in
    let d2 = byte_distance (get_or id i 0) (get_or id2 i 0) in
    elim (Bool-cases (ltb d1 d2)) [
      | inl less ↦
          rw (less, closest_loop)
            (sym (
              smaller_first _ _
                (distance_mono k (i + 1) _ _ id id1 id2 (omega (arith, ltb→lt d1 d2 less)))))
      | inr not_less ↦ elim (Bool-cases (ltb d2 d1)) [
        | inl greater ↦
            rw (not_less, greater, closest_loop)
              (sym (
                smaller_second _ _
                  (distance_mono k (i + 1) _ _ id id2 id1 (omega (arith, ltb→lt d2 d1 greater)))))
        | inr not_greater ↦
            let same : d1 ≡ d2 = ground arith in
            rw (not_less, not_greater, closest_loop)
              (closest_loop_lem k (i + 1) (acc * 129 + d1) id id1 id2
                ∙ ap
                    (λ d.
                      smaller (distance_loop k (i + 1) (acc * 129 + d1) id id1)
                        (distance_loop k (i + 1) (acc * 129 + d) id id2))
                    same)
      ]
    ]

-- id_closest tells which of two ids is closer by one number each: the distances of the 32 bytes
-- from those of the reference id, as digits to the base 129, the first byte highest. It is 1 or 2
-- where the first or the second number is the smaller one, and 0 where they are equal.
pub id_closest_by_distance :
    (id id1 id2 : Key) → id_closest id id1 id2 ≡ smaller (distance id id1) (distance id id2)
unfolding id_closest distance
id_closest_by_distance id id1 id2 = closest_loop_lem client_id_size 0 0 id id1 id2

pub further_iff :
    (id id1 id2 : Key) → (id_closest id id1 id2 == 2) ≡ ltb (distance id id2) (distance id id1)
further_iff id id1 id2 = rw (id_closest_by_distance id id1 id2) (ground arith)

pub client_id_cmp-is_gt :
    (id id1 id2 : Key) → is_gt (client_id_cmp id id1 id2) ≡ ltb (distance id id1) (distance id id2)
unfolding client_id_cmp
client_id_cmp-is_gt id id1 id2 = rw (id_closest_by_distance id id1 id2) (ground arith)

client_id_cmp-is_lt :
    (id id1 id2 : Key) → is_lt (client_id_cmp id id1 id2) ≡ ltb (distance id id2) (distance id id1)
unfolding client_id_cmp
client_id_cmp-is_lt id id1 id2 = rw (id_closest_by_distance id id1 id2) (ground arith)

pub client_id_cmp-IsOrder : (id : Key) → IsOrder (client_id_cmp id)
client_id_cmp-IsOrder id = record {
  flip = λ x y. client_id_cmp-is_gt id x y ∙ sym (client_id_cmp-is_lt id y x);
  trans = λ x y z h k.
      client_id_cmp-is_gt id x z
      ∙ (let a : ltb (distance id x) (distance id y) ≡ false =
            sym (client_id_cmp-is_gt id x y) ∙ h in
          let b : ltb (distance id y) (distance id z) ≡ false =
            sym (client_id_cmp-is_gt id y z) ∙ k in
          ground arith);
}
