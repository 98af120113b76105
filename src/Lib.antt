-- ===== src/Lib.antt =====
-- A model of morphling-c, a replicated key-value store, and what has been proved of it.
--
-- A replica (core/morphling.cpp) divides its keys among 256 groups by the second byte of the key's
-- hash. Each group (core/smr.cpp) is a replicated log. The replica that a client writes to is the leader
-- of the group for that entry: it appends the operation, and sends it to the other replicas,
-- which append it behind the same entry or refuse it and reply; with the replies of a majority the
-- entry is committed, handed back to the replica, applied to the storage and answered. Guidance
-- (core/guidance.h), which every replica keeps and sends to those with another epoch, maps
-- key positions to replicas.
--
-- The files, and what they model:
--   Guidance: `NodeStatus` and `Guidance` of core/guidance.h, in 32-bit words; Guidance/Fields the
--     setters and getters, Guidance/Ranges the ranges of positions.
--   Message: the structs of core/message.h, and `Entry` of core/smr.h.
--   Log: the class `SMRLog` of core/smr.h and core/smr.cpp; Log/Valid its invariant, Log/Methods the
--     methods, Log/Appends several appends in a row.
--   Votes: the class `EntryVoteRecord`; Votes/Tally histories of votes, Votes/Tracks how the
--     record follows a history, Votes/Quorum when a quorum is reached.
--   Smr: the class `SMR`; Smr/Valid its invariant, Smr/Leading `handle_operation`, Smr/Following
--     `check_safety` and `handle_append_entries`, Smr/Stale `handle_stale_entries`, Smr/Replication
--     a leader and a follower together, Smr/Committing `handle_append_entries_reply`, Smr/Applying
--     whole runs of a leader.
--   Cluster: the groups of all replicas as a step relation, a step for each call of a handler;
--     Cluster/Carried a leader's message against its log, Cluster/Votes votes and what their replicas hold,
--     Cluster/Following a follower behind the leader, Cluster/Sound the invariant, Cluster/Leading,
--     Cluster/Answering, Cluster/Acknowledging and Cluster/Steps its preservation, Cluster/Agreement
--     what holds of every run, Cluster/Progress what every run can still get to.
--   Keys: `calc_key_pos` and `init_local_guidance` of core/morphling.cpp; Keys/Owner the owner of a key.
--   Morphling: the class `Morphling`; Morphling/Valid its invariant, Morphling/Stamping
--     `prepare_msgs`, Morphling/Writing a client's write, Morphling/Accepting entries of a leader,
--     Morphling/Serving `maybe_apply` as a key-value store, Morphling/Sending `bcast_msgs`.
--   Wire: app/utils.cpp, and `SocketTransport::__send` of app/server.cpp; Wire/Buffer what libevent
--     promises of `bufferevent_read`, Wire/Framing `full_read`, Wire/Receiving `recv_msg`,
--     Wire/Addresses `parse_addr`.
--   Client: the class `Client` of app/client2.cpp; Client/Quorum `check_guidance_quorum`, Client/Setup
--     `check_setup`, Client/Sending and Client/Requests `one_send` and `handle_reply`, Client/Thread the
--     loops of `thread_run`, with Client/Thread/Keeps, Client/Thread/Turns and Client/Thread/Done one
--     message, one turn and the whole run.
--   UdpClient: the classes `Client` and `Channel` of app/client3.cpp; UdpClient/Same against the client of
--     app/client2.cpp, UdpClient/Setup `set_channel_info`, UdpClient/Thread the setup in `thread_run`,
--     UdpClient/Stuck that it can turn for ever.
--   Gauge: the class `Gauge` of app/utils.h; Gauge/Averages runs of it.
--   Nested: the class `UDPServer` of extra/server.cpp, with extra/message.cpp; Nested/Answers what it
--     should send, Nested/Peers the addresses of the peers, Nested/Requests and Nested/Replies its handlers, Nested/Serving whole runs,
--     Nested/Once that each request is answered once, Nested/Stray other replies.
--   Loop: `send_multiple` of extra/client.cpp; Loop/Counts how many messages it sends, Loop/Idle which
--     connections wait, Loop/Done that it ends.
--   Echo: the class `UDPServer` of extra/echo_server.cpp; Echo/Times what it answers and measures.
--   Arena: the class `Arena` of extra/arena.cpp; Arena/Regions regions of memory, Arena/Apart runs.
--   Server: the class `Server` of app/server.cpp; Server/Peers the connections between servers,
--     Server/Reading the event of a connection to a peer.
--   Udp: the class `UDPServer` of app/server2.cpp; Udp/Socket what `recvfrom` does, Udp/Framing
--     its frames.
--   Transports: `SocketTransport` of app/server.cpp and `UDPTransport` of app/server2.cpp;
--     Transports/Delivery from one replica to the handler of another over a connection,
--     Transports/Datagrams in a datagram.
--   Base: what the files share: lists and maps over native numbers, faults, word arithmetic and bits.
--   Tests: runs at concrete inputs.
--
-- How the code is modelled. An object is a record, and a method takes it and returns the new one. A
-- callback, or a message sent through a `Transport`, is a value that the method returns, in order.
-- A `Result` is `ok`, or a fault where the process aborts, reads out of range, through a null
-- pointer or a dangling reference, frees what it does not own, or meets an exception. `uint64_t` values are numbers below 2 ^
-- 64 with their wrap-around written out, and so are the 8-bit and 32-bit words of the guidance; an
-- `int` that names a replica is given by its 32-bit pattern. The maps are association lists. Fields
-- that the source leaves without a value until `prepare_msgs` fills them in, the sender and the
-- epoch of a message, are 0 until then. The vector of a log reserves 1,000,000 entries, and the log
-- is modelled up to that size: past it the code reads a dangling reference, which is a fault.
--
-- `full_read` and `drain_read` turn until they have what they want, and take fuel; as many turns as
-- bytes asked for are enough when the bytes have arrived, since a turn takes at least one.
-- `send_multiple` takes a turn of its loop for each batch of datagrams that arrives.
-- `parse_addr` takes a turn for every comma and one more. The counters of the client are numbers
-- without a bound: they grow by one for a call, and a run has fewer than 2 ^ 31 of them.
--
-- Not under the repository and so parameters: `msgpack::unpack`, as a function from bytes to an
-- operation or a message, if there is one (for messages the record `Unpacking`, with that it undoes
-- `msgpack::pack` as the law `Inverse`); `msgpack::pack`, as functions to bytes; and `bufferevent_read`, with
-- what its documentation says of it as the laws of the record `Bufferevent`, and `recvfrom`, as the
-- record `DatagramSocket`; and where `new` puts a block of memory, with the law `Allocator`.
-- Of extra, `inet_addr`, `inet_ntoa`, the clock, what `sendto` returns and what the event loop
-- delivers are parameters too.
--
-- Of `sendto` in app/server2.cpp and app/client3.cpp it is taken that it sends everything, and of the
-- bit-fields in a header that they lie as on a little-endian machine.
--
-- Not modelled: logging (loguru, `show_all`, the debug functions), the
-- set-up of sockets, signals and events, the conversion of times to fractions, the earlier client
-- app/client.cpp, and the experiments under extra but the arena, the two
-- servers and extra/client.cpp, tests and core/test_*.
pub mod Arena
pub mod Base
pub mod Echo
pub mod Gauge
pub mod Guidance
pub mod Message
pub mod Log
pub mod Votes
pub mod Smr
pub mod Keys
pub mod Cluster
pub mod Loop
pub mod Morphling
pub mod Nested
pub mod Wire
pub mod Client
pub mod Server
pub mod Udp
pub mod UdpClient
pub mod Transports
pub mod Tests
