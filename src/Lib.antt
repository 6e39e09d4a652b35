-- ===== src/Lib.antt =====
-- The core of ProjectTox-Core: the transport, the encryption on top of it, the distributed hash table,
-- and the filters in front of the application.
--
-- Parts, and the file that models each:
--
--   * Prelude: names and lemmas that all share. C arrays are lists indexed by native numbers, machine
--     words are numbers with their wrap written out (add32, sub32), byte strings are lists.
--   * Network: addresses (IP_Port of toxcore/network.h) and ipp_eq of toxcore/util.c.
--   * Ping: the cyclic buffer of toxcore/ping.c. Ping/Refine shows it as a queue, Ping/History follows
--     it over a history of calls. Ping/Packets holds what send_ping_request and send_ping_response
--     send, Ping/RoundTrip takes a packet from one side to the other.
--   * FriendRequests: the filter of toxcore/friend_requests.c. FriendRequests/Window says how long a
--     key is remembered, FriendRequests/Laws what is passed on, FriendRequests/Send is
--     send_friendrequest.
--   * ToxArray: the growing array of toxcore/misc_tools.h.
--   * QuickSort: make_quick_sort of toxcore/misc_tools.h. QuickSort/Partition is about its loop,
--     QuickSort/Sorted about its result.
--   * Lossless: toxcore/Lossless_UDP.c and Lossless_UDP.h. Lossless holds the data, Lossless/Conn what
--     is done with one connection (read_packet, write_packet, missing_packets, send_SYNC, send_DATA,
--     add_recv, handle_SYNC2, handle_SYNC3), Lossless/Table the table of connections and the handshake
--     ids, Lossless/Handle the packet handlers, Lossless/Timers the main loop. The modules below
--     Lossless/Conn and Lossless/Table prove what their names say, Lossless/Conn/Near and
--     Lossless/Conn/Returns for a peer that keeps to its own window; Lossless/Rates is about the rate
--     that adjust_rates sets.
--   * NetCrypto: toxcore/net_crypto.c and net_crypto.h. NetCrypto/Cipher seals and opens,
--     NetCrypto/Request builds and reads the packets, NetCrypto/Session reads and writes on a
--     connection, NetCrypto/Table opens and closes connections, NetCrypto/Loop is the main loop;
--     NetCrypto/Nonce, NetCrypto/RoundTrip and NetCrypto/Laws prove.
--   * Dht: toxcore/DHT.c and DHT.h. Dht holds the data, Dht/Distance compares ids, Dht/Lists finds and
--     replaces clients (client_in_list, replace_bad, replace_good, addto_lists, get_close_nodes),
--     Dht/Packets holds the get nodes and send nodes packets and the requests that wait, Dht/Handlers
--     the handlers, those of toxcore/ping.c among them, Dht/Friends the friend list and the routing,
--     Dht/Nat the hole punching, Dht/Loop the main loop. Dht/Distance/Number, Dht/Lists/Replace,
--     Dht/Lists/Adding, Dht/Lists/Learnt, Dht/Lists/Nodes, Dht/Toping, Dht/RoundTrip, Dht/Asked,
--     Dht/Friends/Removal, Dht/Friends/Known and Dht/Nat/Common prove; Dht/Exchange and Dht/Lookup are about two nodes.
--   * LanDiscovery: toxcore/LAN_discovery.c.
--   * Messenger: toxcore/Messenger.c and Messenger.h: the friend list, addresses, lookups and our own
--     name. Messenger/Adding is m_addfriend and m_addfriend_norequest, Messenger/Send is what is sent
--     to friends, with names and statuses; Messenger/Run and Messenger/Online are the two halves of doFriends, Messenger/Dispatch is networking_poll of
--     toxcore/network.c with the handlers of all components, Messenger/Loop the main loop, doInbound
--     and m_delfriend, Messenger/Setters the callbacks. Messenger/Placing, Messenger/Address,
--     Messenger/Laws and Messenger/Removal prove.
--   * Tests: the theorems at concrete inputs.
--
-- How they interact: Lossless UDP calls ToxArray for its table. The encrypted connections keep the
-- number of a Lossless UDP connection each, write and read its packets, and drive its main loop. A
-- request that cryptopacket_handle opens is passed on by its number; the number of friend requests
-- leads to the filter, that of NAT pings to the hash table. The hash table seals its packets by the
-- encryption, sorts its clients by QuickSort, keeps its pings in the buffer of Ping, and carries
-- friend requests. The friend list holds the encrypted connections, the hash table and the filter: it
-- reads the nospam number of the filter for its address, tells the hash table which keys to look for,
-- asks it for addresses, and opens, reads, writes and closes the connections. What it tells the
-- application by its callbacks is a list of events.
--
-- How C is read: a struct is a record and an operation returns the new state. Static buffers of a call
-- do not outlive it and are not kept. What a call learns from its surroundings is an argument: the
-- clock, the results of random_int as a function of the number of the call (the connections and the
-- hash table each have a function of their own), rand(), whether realloc
-- succeeds, whether sendpacket sends a packet, the words behind a variable on the stack, the byte
-- behind an array. A packet that is sent is part of the result, with its address. A result none stands
-- for -1 where a function returns an id or a length; where a function can reach outside of an array
-- or divide by zero, none in place of its whole result is that fault. The calls of the cryptography
-- library are the fields of the record Box, and IsBox is the behaviour that its documentation
-- promises.
--
-- Loops: a loop over an array is recursion on the list, or on the number of rounds, which is the number
-- of elements or the difference of two packet numbers, with the wrap of the latter written out. The
-- loop of handle_incomings has one round more than there are connections, since each round but the
-- last takes a mark away. The inner loop of do_data has as many rounds as microseconds have passed,
-- since its step is at least one. The loop of quick_sort has one round for each item, since each moves
-- a pointer; its calls of itself are on fuel, and the number of items is enough, since both parts are
-- shorter than the whole. The loop over the packets of an online friend has one round more than packets
-- wait on his connection, since each round but the last takes one of them.
--
-- Not modelled: sockets, the clock and the random source of toxcore/network.c, DHT_save and DHT_load,
-- Messenger_save and Messenger_load, toxcore/tox.c and the search for the broadcast address, which is
-- system calls. Allocation and freeing of whole components
-- (new_..., kill_...) are not state of the model.
pub mod Prelude
pub mod Network
pub mod Ping
pub mod FriendRequests
pub mod ToxArray
pub mod Lossless
pub mod NetCrypto
pub mod Messenger
pub mod QuickSort
pub mod Dht
pub mod LanDiscovery
pub mod Tests
