-- ===== src/Udp.antt =====
-- The class `UDPServer` of app/server2.cpp: a replica behind two sockets that take datagrams.
pub mod Socket
pub mod Framing
use morphling_c.Base.{
  ℕ, zero, suc, ◌+◌, ◌%◌, ◌^◌, Bool, true, false, List, [], ◌∷◌, ◌++◌, Option, none, some, Dict,
  insert, length, get_or, drop, leb, ◌==◌, if◌then◌else◌, Result, ok, aborted, out_of_range,
  unpack_error, or_fault, guard, ◌>>=◌, ◌>>◌,
}
use morphling_c.Message.{
  Bytes, ReplicaId, AppendEntriesMessage, AppendEntriesReplyMessage, Operation, ClientMessage,
}
use morphling_c.Morphling.{
  Morphling, Transport, Send, send_guidance, bcast_msgs, handle_operation, handle_append_entries,
  handle_append_entries_reply, maybe_apply,
}
use morphling_c.Wire.{
  MessageType, client, append, append_reply, guidance, get_guidance, unknown, type_byte, type_of,
  payload_size, header,
}
use morphling_c.Udp.Socket.{DatagramSocket}

-- What `UDPTransport::__send` gives to `sendto`. The bit-fields of `MessageHeader` lie as on a
-- little-endian machine: three bytes for the size, which is cut to 24 bits, and one for the type. `sendto` is taken to succeed; a failure ends the
-- program.
pub send_datagram : MessageType → Bytes → Bytes
send_datagram t payload = header t (length payload % 2 ^ 24) ++ payload

pub record UdpServer : Type 0 where
  pub replica : Morphling
  pub me : ReplicaId
  pub peer_trans : Dict Transport
  pub peer_count : ℕ

-- The loop of `set_peer_info` from `id` on, for `n` peers; `address` are the transports to their
-- sockets.
pub set_peer_trans :
    (ReplicaId → Transport) → ReplicaId → ReplicaId → ℕ → Dict Transport → Dict Transport
set_peer_trans address me id zero trans = trans
set_peer_trans address me id (suc n) trans =
    set_peer_trans address me (suc id) n (if id == me then trans else insert id (address id) trans)

-- The timer: guidance to every other peer.
pub on_period : (ReplicaId → Transport) → UdpServer → ReplicaId → ℕ → List Send
on_period address s id zero = []
on_period address s id (suc n) =
    if id == s.me
    then on_period address s (suc id) n
    else send_guidance s.replica (address id) ++ on_period address s (suc id) n

-- `msgpack::unpack` and `convert` to each kind of message; `none` is an exception.
module _ (unpack : Bytes → Option Operation) (unpack_client : Bytes → Option ClientMessage)
    (unpack_append : Bytes → Option AppendEntriesMessage)
    (unpack_append_reply : Bytes → Option AppendEntriesReplyMessage) {In : Type 0}
    (sock : DatagramSocket In) where
  open sock use {peek, recvfrom}

  -- The header of the datagram that comes next, which stays where it is.
  unfoldable pub peek_header : In → Result Bytes
  peek_header i = do guard (length (peek 4 i) == 4) aborted; ok (peek 4 i)

  unfoldable pub broadcast : UdpServer → Morphling → List Send → Result (UdpServer × List Send)
  broadcast s replica sent = do
    (replica', more) ← bcast_msgs replica s.peer_trans
    ok (record s { replica = replica' }, sent ++ more)

  -- Take the datagram, of `msg_size` bytes, into a buffer of `room`.
  unfoldable pub take_datagram : ℕ → ℕ → In → Result (Bytes × Transport × In)
  take_datagram room msg_size i = do
    let (msg_buf, from, i') = recvfrom msg_size i
    guard (leb (length msg_buf) room) out_of_range
    guard (length msg_buf == msg_size) aborted
    ok (drop 4 msg_buf, from, i')

  pub handle_client : UdpServer → ℕ → In → Result (UdpServer × List Send × In)
  handle_client s size i = do
    (payload, from, i') ← take_datagram 2048 (4 + size) i
    msg ← or_fault (unpack_client payload) unpack_error
    (replica, sent) ← handle_operation unpack s.replica msg from
    (s', all) ← broadcast s replica sent
    ok (s', all, i')

  -- The event of the service socket.
  pub on_service : UdpServer → In → Result (UdpServer × List Send × In)
  on_service s i = do
    buf ← peek_header i
    elim (type_of (get_or buf 3 0)) [
      | client ↦ handle_client s (payload_size buf) i
      | get_guidance ↦ (do
        let (_, from, i') = recvfrom 0 i
        ok (s, send_guidance s.replica from, i'))
      | _ ↦ ok (s, [], i)
    ]

  -- What the event of the peers' socket does with a message of each type.
  unfoldable pub handle_peer : UdpServer → MessageType → Bytes → Result (Morphling × List Send)
  handle_peer s append payload = do
    msg ← or_fault (unpack_append payload) unpack_error
    replica ← handle_append_entries s.replica msg msg.from
    ok (replica, [])
  handle_peer s append_reply payload = do
    msg ← or_fault (unpack_append_reply payload) unpack_error
    replica ← handle_append_entries_reply s.replica msg msg.from
    maybe_apply unpack replica
  handle_peer s _ payload = ok (s.replica, [])

  -- The buffer is made as long as the message.
  unfoldable pub on_peer : UdpServer → In → Result (UdpServer × List Send × In)
  on_peer s i = do
    buf ← peek_header i
    let msg_size = 4 + payload_size buf
    (payload, _, i') ← take_datagram msg_size msg_size i
    (replica, sent) ← handle_peer s (type_of (get_or buf 3 0)) payload
    (s', all) ← broadcast s replica sent
    ok (s', all, i')

  -- The event loop calls `on_service` for as long as a datagram is there; here so many times.
  pub serve : ℕ → UdpServer → In → Result (UdpServer × List Send × In)
  serve zero s i = ok (s, [], i)
  serve (suc n) s i = do
    (s', sent, i') ← on_service s i
    (s'', more, i'') ← serve n s' i'
    ok (s'', sent ++ more, i'')
