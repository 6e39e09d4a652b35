-- ===== src/Tests/Dht.antt =====
-- Examples for the hash table.
use project_tox_core.Prelude.{
  ℕ, ◌≤◌, ◌≡◌, false, drop, bytes_eq, refl, some, List, [], ◌∷◌, arith, length, take, replicate,
  All,
}
use project_tox_core.Ping.{new_ping, is_pinging, remove_timeouts, remove_loop, find_loop}
use project_tox_core.NetCrypto.{public_key_bytes}
use project_tox_core.Ping.History.{created, Reach-Inv}
use project_tox_core.Dht.{NodeFormat, max_sent_nodes, is_timeout}
use project_tox_core.Dht.{Dht, lsend_nodes_array}
use mathlib.Core.List.{Perm}
use project_tox_core.Dht.{zero_dht_friend}
use project_tox_core.Tests.Sample.{unix}
use project_tox_core.Dht.Friends.{friend_number, number_from, dht_delfriend}
use project_tox_core.Dht.Friends.Removal.{keys, clients_at, dht_delfriend-keeps_places}
use project_tox_core.Dht.Nat.{nat_commonip}
use project_tox_core.Dht.Nat.Common.{Picks, nat_commonip-Picks}
use project_tox_core.Dht.Handlers.{add_toping}
use project_tox_core.Dht.Toping.{Remembers, add_toping-Remembers}
use project_tox_core.Dht.Packets.{
  add_gettingnodes, is_gettingnodes, any_asked, put_asked, put_asked_within,
}
use project_tox_core.Network.{ipp_eq}
use project_tox_core.Ping.Packets.{random_64b}
use project_tox_core.Prelude.{◌≢◌}
use project_tox_core.Dht.Lists.{
  replace_good, get_close_nodes, consider, consider_all, consider_friends, client_in_nodelist,
}
use project_tox_core.Dht.Lists.Replace.{Replaced, replace_good_keeps_closest}
use project_tox_core.Dht.Lists.Nodes.{get_close_nodes_good}
use project_tox_core.Dht.Packets.{sendnodes_packet, read_sendnodes}
use project_tox_core.Dht.RoundTrip.{IsNode, sendnodes_round_trip}
use project_tox_core.Dht.Exchange.{Exchanged, ping_exchange}
use project_tox_core.Dht.Lookup.{LookedUp, lookup_exchange}
use project_tox_core.Tests.Sample.{host, other_host, dice, zero_node, carol, small_dht}
use project_tox_core.Tests.Boxes.{open_box, open_box-IsBox, alice_keys, bob_keys, agreed, both_ways}

abbrev stack_nodes : List NodeFormat
stack_nodes = replicate max_sent_nodes zero_node

carol-IsNode : IsNode (record { client_id = carol.client_id; ip_port = carol.ip_port })
carol-IsNode = record { id_length = refl; ip_small = omega arith; port_small = omega arith }

replace_good_keeps_closest_example :
    Replaced 1010
      (replicate 32 2)
      host
      (replicate 32 0)
      (carol ∷ [])
      (replace_good 1010 (replicate 32 2) host (replicate 32 0) (carol ∷ []))
replace_good_keeps_closest_example =
    replace_good_keeps_closest 1010 (replicate 32 2) host (replicate 32 0) (carol ∷ [])

get_close_nodes_good_example :
    let (nodes, num_nodes) = get_close_nodes 1010 small_dht (replicate 32 5) stack_nodes in
    (num_nodes ≤ max_sent_nodes)
    × (length nodes ≡ max_sent_nodes)
    × All IsNode (take num_nodes nodes)
get_close_nodes_good_example =
    get_close_nodes_good IsNode 1010 small_dht (replicate 32 5) stack_nodes refl
      (λ good. carol-IsNode, tt) tt

idle : (is_pinging 1000 small_dht.ping other_host 0).1 ≡ false
unfolding is_pinging new_ping remove_timeouts remove_loop find_loop
idle = refl

keys_differ : bytes_eq alice_keys.0 bob_keys.0 ≡ false
unfolding bytes_eq
keys_differ = refl

finds_carol : (get_close_nodes 1010 small_dht (replicate 32 5) stack_nodes).1 ≡ 1
unfolding get_close_nodes consider_all consider_friends consider is_timeout client_in_nodelist
    bytes_eq
finds_carol = refl

ping_exchange_example :
    Exchanged open_box dice dice 1000 1003 alice_keys bob_keys small_dht small_dht host other_host
ping_exchange_example =
    ping_exchange open_box dice dice 1000 1003 alice_keys bob_keys small_dht small_dht host
      other_host open_box-IsBox agreed both_ways keys_differ (Reach-Inv (created 0)).valid idle
      (omega arith) (omega arith) (omega arith)

sendnodes_round_trip_example :
    (packet : List ℕ) × (sendnodes_packet open_box alice_keys bob_keys.0
        (zero_node ∷ [])
        (replicate 24 9)
        77
      ≡ some packet)
    × (read_sendnodes open_box bob_keys packet ≡ some (77, zero_node ∷ []))
    × (take public_key_bytes (drop 1 packet) ≡ alice_keys.0)
sendnodes_round_trip_example =
    sendnodes_round_trip open_box alice_keys bob_keys 77 (zero_node ∷ []) (replicate 24 9)
      open_box-IsBox agreed refl (omega arith) (omega arith) (omega arith)
      (record { id_length = refl; ip_small = omega arith; port_small = omega arith }, tt)

abbrev asking_dht : Dht
asking_dht = record small_dht {
  send_nodes =
      replicate lsend_nodes_array
        record { ip_port = record { ip = 0; port = 0 }; ping_id = 0; timestamp = 0 };
}

none_waits : is_gettingnodes 1000 asking_dht other_host 0 ≡ false
unfolding is_gettingnodes any_asked is_timeout ipp_eq
none_waits = refl

drawn_id : (add_gettingnodes dice 1000 asking_dht other_host).1 ≡ 21474836486
unfolding add_gettingnodes put_asked_within put_asked is_timeout random_64b
drawn_id = refl

free_place_left : (add_gettingnodes dice 1000 asking_dht other_host).1 ≢ 0
free_place_left e = absurd (omega (arith, e, drawn_id))

lookup_exchange_example :
    LookedUp open_box dice dice 1000 1010 1003 stack_nodes alice_keys bob_keys asking_dht small_dht
      host other_host
      (replicate 32 5)
lookup_exchange_example =
    lookup_exchange open_box dice dice 1000 1010 1003 stack_nodes alice_keys bob_keys asking_dht
      small_dht host other_host (replicate 32 5) open_box-IsBox agreed both_ways keys_differ refl
      refl (λ good. carol-IsNode, tt) tt (omega (arith, finds_carol)) none_waits free_place_left
      (omega arith) (omega arith) (omega arith)

abbrev two_friends : Dht
two_friends = record small_dht {
  friends_list =
      record zero_dht_friend { client_id = replicate 32 3; client_list = carol ∷ [] }
      ∷ record zero_dht_friend { client_id = replicate 32 4 }
      ∷ [];
}

first_friend : friend_number two_friends (replicate 32 3) ≡ some 0
unfolding friend_number number_from bytes_eq
first_friend = refl

dht_delfriend-keeps_places_example :
    let (dht', done) = dht_delfriend unix two_friends (replicate 32 3) in
    Perm (replicate 32 3 ∷ keys dht'.friends_list) (keys two_friends.friends_list)
    × (clients_at dht'.friends_list 0 ≡ clients_at two_friends.friends_list 0)
dht_delfriend-keeps_places_example =
    dht_delfriend-keeps_places unix two_friends (replicate 32 3) 0 0 first_friend (omega arith)

nat_commonip-Picks_example :
    Picks 2
      (host ∷ other_host ∷ [])
      (host ∷ other_host ∷ [])
      (nat_commonip (host ∷ other_host ∷ []) 2)
nat_commonip-Picks_example = nat_commonip-Picks (host ∷ other_host ∷ []) 2 (omega arith)

add_toping-Remembers_example :
    let dht' = (add_toping (replicate 32 2) small_dht carol.client_id host).0 in
    Remembers
      (replicate 32 2)
      (record { client_id = carol.client_id; ip_port = host })
      small_dht.toping
      dht'.toping
    × (dht' ≡ record small_dht { toping = dht'.toping })
add_toping-Remembers_example =
    add_toping-Remembers (replicate 32 2) (record { client_id = carol.client_id; ip_port = host })
      small_dht
