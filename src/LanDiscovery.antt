-- ===== src/LanDiscovery.antt =====
-- toxcore/LAN_discovery.c: which addresses are of the local network, and the discovery packet. The
-- result of `get_broadcast`, which asks the operating system, is an argument.
use project_tox_core.Prelude.{
  ℕ, ◌+◌, ◌-◌, ◌^◌, Bool, true, false, not, ◌&&◌, List, [], ◌∷◌, ◌==◌, leb, if◌then◌else◌, length,
  drop,
}
use project_tox_core.Network.{IpPort, ip_byte}
use project_tox_core.Lossless.Handle.{Packet}
use project_tox_core.NetCrypto.{Box, public_key_bytes}
use project_tox_core.NetCrypto.Request.{KeyPair}
use project_tox_core.Dht.{Dht}
use project_tox_core.Dht.Handlers.{dht_bootstrap}

-- `NET_PACKET_LAN_DISCOVERY`
abbrev pub packet_lan_discovery : ℕ
packet_lan_discovery = 33

-- True for the result 0.
unfoldable pub lan_ip : ℕ → Bool
lan_ip ip =
    if ip_byte ip 0 == 127
    then true
    else if ip_byte ip 0 == 10
    then true
    else if (ip_byte ip 0 == 172) && leb 16 (ip_byte ip 1) && leb (ip_byte ip 1) 31
    then true
    else if (ip_byte ip 0 == 192) && (ip_byte ip 1 == 168)
    then true
    else if (ip_byte ip 0 == 169)
        && (ip_byte ip 1 == 254)
        && not (ip_byte ip 2 == 0)
        && not (ip_byte ip 2 == 255)
    then true
    else false

unfoldable pub broadcast_ip : ℕ → ℕ
broadcast_ip get_broadcast = if get_broadcast == 0 then 2 ^ 32 - 1 else get_broadcast

-- The packet of `send_LANdiscovery`, to the broadcast address.
unfoldable pub send_landiscovery : ℕ → ℕ → KeyPair → List Packet
unfolding broadcast_ip
send_landiscovery get_broadcast port self =
    (record { ip = broadcast_ip get_broadcast; port = port }, packet_lan_discovery ∷ self.0) ∷ []

module _ (box : Box) (random_int : ℕ → ℕ) where
  -- The `Bool` is true for the result 0.
  unfoldable pub handle_landiscovery :
      ℕ → KeyPair → Dht → IpPort → List ℕ → (Dht × List Packet) × Bool
  unfolding lan_ip dht_bootstrap
  handle_landiscovery now self dht source packet =
      let done = dht_bootstrap box random_int now self dht source (drop 1 packet) in
      if not (lan_ip source.ip)
      then ((dht, []), false)
      else if not (length packet == public_key_bytes + 1)
      then ((dht, []), false)
      else (done, true)
