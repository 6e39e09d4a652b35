-- ===== src/Dht/Nat/Common.antt =====
-- `NAT_commonip` of toxcore/DHT.c: which address it picks, and when none.
use project_tox_core.Prelude.{
  ℕ, ◌≤◌, ◌<◌, ◌≡◌, ◌≢◌, refl, ap, false, List, [], ◌∷◌, ◌++◌, arith, ◌==◌, ltb, leb, length,
  Bool-cases, inl, inr, All,
}
use mathlib.Core.List.{Permᴰ}
use mathlib.Core.List.Permᴰ
use project_tox_core.Network.{IpPort}
use project_tox_core.Dht.{max_friend_clients}
use project_tox_core.Dht.Nat.{count_ip, common_loop, nat_commonip}

-- The addresses, in another order, are `n` addresses with this ip and the others without it.
pub record Splits (ip : ℕ) (as' : List IpPort) (n : ℕ) : Type 0 where
  pub same : List IpPort
  pub others : List IpPort
  pub order : Permᴰ (same ++ others) as'
  pub has_ip : All (λ (a : IpPort). a.ip ≡ ip) same
  pub has_other : All (λ (a : IpPort). a.ip ≢ ip) others
  pub number : length same ≡ n

insert_behind : (xs ys : List IpPort) (a : IpPort) → Permᴰ (xs ++ a ∷ ys) (a ∷ (xs ++ ys))
insert_behind [] ys a = Permᴰ.refl _
insert_behind (x ∷ xs) ys a =
    Permᴰ.trans (Permᴰ.cons refl (insert_behind xs ys a)) (Permᴰ.swap refl refl)

count_ip-Splits : (ip : ℕ) (as' : List IpPort) → Splits ip as' (count_ip ip as')
unfolding count_ip
count_ip-Splits ip [] = record {
  same = [];
  others = [];
  order = Permᴰ.nil;
  has_ip = tt;
  has_other = tt;
  number = refl;
}
count_ip-Splits ip (a ∷ as') =
    let s = count_ip-Splits ip as' in
    elim (Bool-cases (ip == a.ip)) [
      | inl here ↦
          rw (here, count_ip)
            (record {
              same = a ∷ s.same;
              others = s.others;
              order = Permᴰ.cons refl s.order;
              has_ip = (ground (arith, here), s.has_ip);
              has_other = s.has_other;
              number = omega (arith, s.number);
            })
      | inr other ↦
          rw (other, count_ip)
            (record {
              same = s.same;
              others = a ∷ s.others;
              order = Permᴰ.trans (insert_behind s.same s.others a) (Permᴰ.cons refl s.order);
              has_ip = s.has_ip;
              has_other = (ground (arith, other), s.has_other);
              number = s.number;
            })
    ]

-- The ip of so many addresses of the list, as many as are asked for or fewer.
pub record IsCommon (min_num : ℕ) (ip_portlist : List IpPort) (ip : ℕ) : Type 0 where
  pub number : ℕ
  pub split : Splits ip ip_portlist number
  pub enough : min_num ≤ number

pub record IsRare (min_num : ℕ) (ip_portlist : List IpPort) (ip : ℕ) : Type 0 where
  pub number : ℕ
  pub split : Splits ip ip_portlist number
  pub few : number < min_num

-- The result, for the addresses `as'` that are looked at: no ip of them is common, and it is 0, or
-- it is the ip of the first address whose ip is.
pub data Picks (min_num : ℕ) (ip_portlist as' : List IpPort) : ℕ → Type 0 where
  nobody :
      All (λ (a : IpPort). IsRare min_num ip_portlist a.ip) as' → Picks min_num ip_portlist as' 0
  first :
      (before after : List IpPort) (a : IpPort)
      → as' ≡ before ++ a ∷ after
      → All (λ (b : IpPort). IsRare min_num ip_portlist b.ip) before
      → IsCommon min_num ip_portlist a.ip
      → Picks min_num ip_portlist as' a.ip

behind :
    (min_num : ℕ) (ip_portlist as' : List IpPort) (a : IpPort) (ip : ℕ)
    → IsRare min_num ip_portlist a.ip
    → Picks min_num ip_portlist as' ip
    → Picks min_num ip_portlist (a ∷ as') ip
behind min_num ip_portlist as' a _ rare (nobody all) = nobody (rare, all)
behind min_num ip_portlist as' a _ rare (first before after b e all common) =
    first (a ∷ before) after b (ap (λ t. a ∷ t) e) (rare, all) common

common_loop-Picks :
    (min_num : ℕ) (ip_portlist as' : List IpPort)
    → Picks min_num ip_portlist as' (common_loop min_num ip_portlist as')
unfolding common_loop
common_loop-Picks min_num ip_portlist [] = nobody tt
common_loop-Picks min_num ip_portlist (a ∷ as') =
    let s = count_ip-Splits a.ip ip_portlist in
    elim (Bool-cases (leb min_num (count_ip a.ip ip_portlist))) [
      | inl common ↦ rw common (
          first [] as' a refl tt
            (record { number = _; split = s; enough = ground (arith, common) }))
      | inr rare ↦ rw rare (
          behind min_num ip_portlist as' a _
            (record { number = _; split = s; few = ground (arith, rare) })
            (common_loop-Picks min_num ip_portlist as'))
    ]

-- Of at most 8 addresses, NAT_commonip picks the ip of the first one whose ip stands in the list as
-- often as is asked for, counted over the whole list, and 0 where there is none.
pub nat_commonip-Picks :
    (ip_portlist : List IpPort) (min_num : ℕ)
    → length ip_portlist ≤ max_friend_clients
    → Picks min_num ip_portlist ip_portlist (nat_commonip ip_portlist min_num)
unfolding nat_commonip
nat_commonip-Picks ip_portlist min_num h =
    let few : ltb max_friend_clients (length ip_portlist) ≡ false = ground arith in
    rw few (common_loop-Picks min_num ip_portlist ip_portlist)
