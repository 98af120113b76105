-- ===== src/Transports.antt =====
-- The overloads of `send` of the two transports: `SocketTransport` of app/server.cpp and
-- `UDPTransport` of app/server2.cpp.
pub mod Delivery
pub mod Datagrams
use morphling_c.Base.{ℕ}
use morphling_c.Message.{
  Bytes, AppendEntriesMessage, AppendEntriesReplyMessage, ClientMessage, ClientReplyMessage,
  GuidanceMessage,
}
use morphling_c.Morphling.{Packet}
use morphling_c.Morphling
use morphling_c.Wire.{MessageType, append, append_reply, client, client_reply, guidance, send_frame}
use morphling_c.Udp.{send_datagram}

-- `msgpack::pack` of each kind of message, and the memory of a `GuidanceMessage`, which is sent as
-- it lies.
pub record Packing : Type 0 where
  pub pack_append : AppendEntriesMessage → Bytes
  pub pack_append_reply : AppendEntriesReplyMessage → Bytes
  pub pack_client : ClientMessage → Bytes
  pub pack_client_reply : ClientReplyMessage → Bytes
  pub guidance_memory : GuidanceMessage → Bytes

-- The type under which a packet travels.
pub packet_type : Packet → MessageType
packet_type (Morphling.append msg) = append
packet_type (Morphling.append_reply msg) = append_reply
packet_type (Morphling.client_reply msg) = client_reply
packet_type (Morphling.guidance msg) = guidance

module _ (packing : Packing) where
  open packing use {pack_append, pack_append_reply, pack_client, pack_client_reply, guidance_memory}

  unfoldable pub packet_payload : Packet → Bytes
  packet_payload (Morphling.append msg) = pack_append msg
  packet_payload (Morphling.append_reply msg) = pack_append_reply msg
  packet_payload (Morphling.client_reply msg) = pack_client_reply msg
  packet_payload (Morphling.guidance msg) = guidance_memory msg

  -- What the overloads of `SocketTransport` write to the connection.
  pub socket_send : Packet → Bytes
  socket_send packet = send_frame (packet_type packet) (packet_payload packet)

  -- The overload for a client's message, which no replica calls.
  pub socket_send_client : ClientMessage → Bytes
  socket_send_client msg = send_frame client (pack_client msg)

  -- The datagram of the overloads of `UDPTransport`.
  pub udp_send : Packet → Bytes
  udp_send packet = send_datagram (packet_type packet) (packet_payload packet)

  pub udp_send_client : ClientMessage → Bytes
  udp_send_client msg = send_datagram client (pack_client msg)
