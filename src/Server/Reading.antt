-- ===== src/Server/Reading.antt =====
-- `peer_general_msg_cb` of app/server.cpp, from the bytes that have arrived: `recv_msg`, the
-- conversion of the payload, and the handler.
use morphling_c.Base.{ℕ, List, Option, Result, ok, unpack_error, or_fault, ◌>>=◌}
use morphling_c.Message.{
  Bytes, AppendEntriesMessage, AppendEntriesReplyMessage, GuidanceMessage, Operation,
}
use morphling_c.Morphling.{Send}
use morphling_c.Wire
use morphling_c.Wire.{MessageType, recv_msg, drain_read}
use morphling_c.Wire.Buffer.{Bufferevent}
use morphling_c.Server.{
  Server, PeerMessage, append, append_reply, guidance, unknown_message, no_peer_message,
  peer_general_msg_cb,
}

-- `msgpack::unpack` and `convert` to each kind of message, where `none` is an exception; and the cast
-- to a `GuidanceMessage`.
pub record Unpacking : Type 0 where
  pub unpack_append : Bytes → Option AppendEntriesMessage
  pub unpack_append_reply : Bytes → Option AppendEntriesReplyMessage
  pub cast_guidance : Bytes → GuidanceMessage

module _ (unpacking : Unpacking) where
  open unpacking use {unpack_append, unpack_append_reply, cast_guidance}

  -- The message of a payload, by its type.
  unfoldable pub peer_message : MessageType → Bytes → Result PeerMessage
  peer_message Wire.append payload = do
    msg ← or_fault (unpack_append payload) unpack_error
    ok (append msg)
  peer_message Wire.append_reply payload = do
    msg ← or_fault (unpack_append_reply payload) unpack_error
    ok (append_reply msg)
  peer_message Wire.guidance payload = ok (guidance (cast_guidance payload))
  peer_message Wire.unknown payload = ok unknown_message
  peer_message Wire.client payload = ok no_peer_message
  peer_message Wire.client_reply payload = ok no_peer_message
  peer_message Wire.get_guidance payload = ok no_peer_message

  -- The event of a connection to a peer; also what is left on it. What follows the header of a message
  -- of an unknown type is drained.
  module _ (unpack : Bytes → Option Operation) {In : Type 0} (bev : Bufferevent In) where
    unfoldable pub on_peer_event : ℕ → In → Server → Result (Server × List Send × In)
    on_peer_event fuel i s = do
      (type, payload, i') ← recv_msg bev fuel 2048 i
      rest ← elim type [ Wire.unknown ↦ drain_read bev fuel 2048 i' | _ ↦ ok i' ]
      msg ← peer_message type payload
      (s', sent) ← peer_general_msg_cb unpack msg s
      ok (s', sent, rest)
