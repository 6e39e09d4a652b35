-- ===== src/Network.antt =====
-- toxcore/network.h and toxcore/util.c: addresses, their comparison, client ids.
-- An `IP` is its `uint32` member; `ip_byte` reads the `uint8` member on a little-endian host.
use project_tox_core.Prelude.{ℕ, ◌/◌, ◌%◌, ◌^◌, ◌≡◌, ◌↔◌, Bool, true, ◌&&◌, arith, ◌==◌}

pub record IpPort : Type 0 where
  pub ip : ℕ
  pub port : ℕ

abbrev pub zero_ip_port : IpPort
zero_ip_port = record { ip = 0; port = 0 }

-- `ip.uint8[i]`
abbrev pub ip_byte : ℕ → ℕ → ℕ
ip_byte ip i = ip / 256 ^ i % 256

unfoldable pub ipp_eq : IpPort → IpPort → Bool
ipp_eq a b = (a.ip == b.ip) && (a.port == b.port)

pub ipp_eq_iff : (a b : IpPort) → (ipp_eq a b ≡ true) ↔ (a ≡ b)
unfolding ipp_eq
ipp_eq_iff a b = ground arith

pub ipp_eq_refl : (a : IpPort) → ipp_eq a a ≡ true
unfolding ipp_eq
ipp_eq_refl a = ground arith
