-- ===== src/Messenger/Dispatch.antt =====
-- `networking_poll` of toxcore/network.c with the handlers that toxcore/Lossless_UDP.c, net_crypto.c,
-- DHT.c, LAN_discovery.c and friend_requests.c register. `none` in place of a result is a fault.
use project_tox_core.Prelude.{
  ℕ, Option, none, some, List, [], ◌∷◌, ◌++◌, ◌==◌, if◌then◌else◌, get_or, take, drop,
}
use project_tox_core.Network.{IpPort}
use project_tox_core.FriendRequests.{Key, friendreq_handlepacket}
use project_tox_core.FriendRequests.Send.{crypto_packet_friend_req}
use project_tox_core.Lossless.Handle as Handle
use project_tox_core.Lossless.Handle.{Packet, handle_handshake, handle_sync, handle_data}
use project_tox_core.Lossless.{LosslessUdp, packet_handshake, packet_sync, packet_data}
use project_tox_core.NetCrypto.{Box, packet_crypto, public_key_bytes}
use project_tox_core.NetCrypto.Request.{KeyPair, Request, cryptopacket_handle}
use project_tox_core.Ping.Packets.{packet_ping_request, packet_ping_response}
use project_tox_core.Dht.{Dht}
use project_tox_core.Dht.Packets.{packet_get_nodes, packet_send_nodes}
use project_tox_core.Dht.Handlers.{
  handle_getnodes, handle_sendnodes, handle_ping_request, handle_ping_response,
}
use project_tox_core.Dht.Friends.{route_packet}
use project_tox_core.Dht.Nat.{handle_natping, crypto_packet_nat_ping}
use project_tox_core.LanDiscovery.{packet_lan_discovery, handle_landiscovery}
use project_tox_core.Messenger.Run.{World, friendrequest, Run, ◌>>=◌, with_m}

abbrev pub own_keys : Run → KeyPair
own_keys r = (r.m.net_crypto.self_public_key, r.m.net_crypto.self_secret_key)

abbrev pub with_dht : Run → Dht × List Packet → Run
with_dht r (dht', sent') =
    let m' = r.m in record r { m = record m' { dht = dht' }; sent = r.sent ++ sent' }

abbrev pub with_udp : Run → LosslessUdp → List Packet → Run
with_udp r ludp sent' =
    let m' = r.m in
    let c = m'.net_crypto in
    record r {
      m = record m' { net_crypto = record c { lossless_udp = ludp } };
      sent = r.sent ++ sent';
    }

abbrev pub after_sync : Run → Option Handle.Outcome → Option Run
after_sync r none = none
after_sync r (some o) = some (with_udp r o.state o.sent)

abbrev pub called : Run → Option (Key × List ℕ) → Run
called r none = r
called r (some (public_key, data')) = record r {
  events = r.events ++ friendrequest public_key data' ∷ [];
}

module _ (box : Box) (w : World) where
  -- A request that was opened goes to the handler of its number.
  unfoldable pub handle_opened : Run → Option Request → Run
  unfolding friendreq_handlepacket handle_natping
  handle_opened r none = r
  handle_opened r (some q) =
      let o = friendreq_handlepacket r.m.fr q.sender q.content in
      let m' = r.m in
      let (dht', sent', _) =
        handle_natping box w.random_dht w.unix (own_keys r) r.m.dht q.sender
          (q.content ++ w.beyond) in
      if q.request_id == crypto_packet_friend_req
      then called (with_m r (record m' { fr = o.state })) o.called
      else if q.request_id == crypto_packet_nat_ping
      then with_dht r (dht', sent')
      else r

  -- A request for another node is passed on.
  unfoldable pub handle_crypto : Run → List ℕ → Run
  unfolding cryptopacket_handle handle_opened route_packet
  handle_crypto r packet =
      let (request, routed) = cryptopacket_handle box (own_keys r) r.m.net_crypto.handled packet in
      let key = take public_key_bytes (drop 1 packet) in
      if routed
      then record r { sent = r.sent ++ route_packet r.m.dht key packet }
      else handle_opened r request

  -- The handler that is registered for the first byte.
  unfoldable pub handle_packet : Run → IpPort → List ℕ → Option Run
  unfolding handle_ping_request handle_ping_response handle_getnodes handle_sendnodes
      handle_handshake handle_sync handle_data handle_crypto handle_landiscovery
  handle_packet r source packet =
      let kind = get_or packet 0 0 in
      let self = own_keys r in
      let dht' = r.m.dht in
      let ludp = r.m.net_crypto.lossless_udp in
      let now = w.unix.now in
      if kind == packet_ping_request
      then some (with_dht r (handle_ping_request box w.random_dht self dht' source packet))
      else if kind == packet_ping_response
      then some (with_dht r ((handle_ping_response box now self dht' source packet).0, []))
      else if kind == packet_get_nodes
      then some
          (with_dht r (handle_getnodes box w.random_dht now w.stack_nodes self dht' source packet))
      else if kind == packet_send_nodes
      then some (with_dht r (handle_sendnodes box w.random_dht now self dht' source packet))
      else if kind == packet_handshake
      then (let o = handle_handshake w.random_net ludp source packet in
          some (with_udp r o.state o.sent))
      else if kind == packet_sync
      then after_sync r (handle_sync w.random_net w.stack_words w.net ludp source packet)
      else if kind == packet_data
      then some (with_udp r (handle_data w.net.now ludp source packet).0 [])
      else if kind == packet_crypto
      then some (handle_crypto r packet)
      else if kind == packet_lan_discovery
      then some (with_dht r (handle_landiscovery box w.random_dht now self dht' source packet).0)
      else some r

  -- The packets that `receivepacket` returns before it returns -1, in their order.
  unfoldable pub networking_poll : Run → List Packet → Option Run
  unfolding handle_packet
  networking_poll r [] = some r
  networking_poll r ((source, packet) ∷ arrived) =
      handle_packet r source packet >>= (λ r1. networking_poll r1 arrived)
