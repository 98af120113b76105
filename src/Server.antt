-- ===== src/Server.antt =====
-- The class `Server` of app/server.cpp: the connections of a replica to its peers, and the dispatch
-- of what they and the clients send. The callbacks take the message as `recv_msg` and
-- `msgpack::unpack` deliver it.
pub mod Peers
pub mod Reading
use morphling_c.Base.{
  ℕ, Bool, true, false, ◌||◌, List, [], ◌∷◌, ◌++◌, Option, none, some, Dict, lookup, insert, ◌==◌,
  if◌then◌else◌, Result, ok, null_pointer, or_fault, ◌>>=◌,
}
use morphling_c.Message.{
  Bytes, ReplicaId, AppendEntriesMessage, AppendEntriesReplyMessage, Operation, ClientMessage,
  GuidanceMessage,
}
use morphling_c.Morphling.{
  Morphling, Transport, Send, send_guidance, bcast_msgs, handle_operation, handle_append_entries,
  handle_append_entries_reply, maybe_apply,
}

-- The fields of `PeerContext` that the callbacks change. A `bufferevent` is named by its
-- connection.
pub record PeerContext : Type 0 where
  pub id : ReplicaId
  pub socket_bev : Option Transport
  pub proactive_connected : Bool
  pub passive_connected : Bool

-- `freed` are the connections given to `bufferevent_free`.
pub record Server : Type 0 where
  pub peer_trans : Dict Transport
  pub peer_ctx : Dict PeerContext
  pub replica : Morphling
  pub me : ReplicaId
  pub peers : List ReplicaId
  pub freed : List Transport

-- `m_peer_ctx[id]`
abbrev pub no_context : PeerContext
no_context = record {
  id = 0;
  socket_bev = none;
  proactive_connected = false;
  passive_connected = false;
}

unfoldable pub ctx_of : ReplicaId → Dict PeerContext → PeerContext
ctx_of id ctxs = elim (lookup id ctxs) [ none ↦ no_context | some ctx ↦ ctx ]

-- The loop of `init_peer_ctx`; `new_bev` are the connections that libevent makes.
pub init_peer_ctx :
    (ReplicaId → Transport) → ReplicaId → List ReplicaId → Dict PeerContext → Dict PeerContext
init_peer_ctx new_bev me [] ctxs = ctxs
init_peer_ctx new_bev me (pid ∷ pids) ctxs =
    if pid == me
    then init_peer_ctx new_bev me pids ctxs
    else init_peer_ctx new_bev me pids (
        insert pid
          (record {
            id = pid;
            socket_bev = some (new_bev pid);
            proactive_connected = false;
            passive_connected = false;
          })
          ctxs)

-- `connect_peer_event_cb` for the context of `id`, when the connection has been made.
pub connect_peer_event_cb : ReplicaId → Transport → Server → Server × List Send
connect_peer_event_cb id bev s =
    let ctx = ctx_of id s.peer_ctx in
    if ctx.passive_connected then (s, []) else (
      record s {
        peer_ctx = insert id (record ctx { proactive_connected = true }) s.peer_ctx;
        peer_trans = insert id bev s.peer_trans;
      },
      send_guidance s.replica bev,
    )

abbrev pub freed_of : Option Transport → List Transport
freed_of none = []
freed_of (some bev) = bev ∷ []

-- `recv_init_msg` on an accepted connection; `none` is a message that is no guidance.
pub recv_init_msg : Transport → Option GuidanceMessage → Server → Server
recv_init_msg bev none s = s
recv_init_msg bev (some msg) s =
    let ctx = ctx_of msg.from s.peer_ctx in
    if ctx.proactive_connected then record s { freed = s.freed ++ bev ∷ [] } else record s {
      peer_ctx =
          insert msg.from (record ctx { passive_connected = true; socket_bev = some bev })
            s.peer_ctx;
      freed = s.freed ++ freed_of ctx.socket_bev;
      peer_trans = insert msg.from bev s.peer_trans;
    }

-- The timer of `periodic_peer`.
pub on_period : ReplicaId → Server → Result (List Send)
on_period id s =
    let ctx = ctx_of id s.peer_ctx in
    if ctx.proactive_connected || ctx.passive_connected
    then (do bev ← or_fault ctx.socket_bev null_pointer; ok (send_guidance s.replica bev))
    else ok []

-- What a client sends.
pub data Request : Type 0 where
  client : ClientMessage → Request
  get_guidance : Request
  no_client_message : Request

-- What a peer sends: the messages that have a handler, and the two kinds that have none.
pub data PeerMessage : Type 0 where
  append : AppendEntriesMessage → PeerMessage
  append_reply : AppendEntriesReplyMessage → PeerMessage
  guidance : GuidanceMessage → PeerMessage
  unknown_message : PeerMessage
  no_peer_message : PeerMessage

-- The end of a callback that broadcasts.
abbrev pub broadcast : Server → Morphling → List Send → Result (Server × List Send)
broadcast s replica sent = do
  (replica', more) ← bcast_msgs replica s.peer_trans
  ok (record s { replica = replica' }, sent ++ more)

module _ (unpack : Bytes → Option Operation) where
  pub client_msg_cb : Transport → Request → Server → Result (Server × List Send)
  client_msg_cb bev (client msg) s = do
    (replica, sent) ← handle_operation unpack s.replica msg bev
    broadcast s replica sent
  client_msg_cb bev get_guidance s = ok (s, send_guidance s.replica bev)
  client_msg_cb bev no_client_message s = ok (s, [])

  -- The text that answers an unknown message is not a packet, and is left out.
  unfoldable pub peer_general_msg_cb : PeerMessage → Server → Result (Server × List Send)
  peer_general_msg_cb (append msg) s = do
    replica ← handle_append_entries s.replica msg msg.from
    broadcast s replica []
  peer_general_msg_cb (append_reply msg) s = do
    replica ← handle_append_entries_reply s.replica msg msg.from
    (replica', sent) ← maybe_apply unpack replica
    broadcast s replica' sent
  peer_general_msg_cb (guidance msg) s = broadcast s s.replica []
  peer_general_msg_cb unknown_message s = ok (s, [])
  peer_general_msg_cb no_peer_message s = ok (s, [])
