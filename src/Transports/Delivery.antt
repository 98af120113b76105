-- ===== src/Transports/Delivery.antt =====
-- What one replica sends (app/server.cpp, app/server2.cpp), another handles.
use morphling_c.Base.{
  ℕ, ◌≡◌, ◌≢◌, ◌≤◌, ◌++◌, refl, some, Option, length, ok, or_fault, ◌>>=◌, List, arith,
}
use morphling_c.Message.{
  Bytes, Operation, AppendEntriesMessage, AppendEntriesReplyMessage, GuidanceMessage,
}
use morphling_c.Morphling.{Packet, Send}
use morphling_c.Morphling
use morphling_c.Wire.{
  MessageType, unknown, append, append_reply, client, client_reply, guidance, get_guidance,
  recv_msg,
}
use morphling_c.Wire.Buffer.{Bufferevent}
use morphling_c.Wire.Receiving.{recv_msg-send_frame}
use morphling_c.Udp.Framing.{send_datagram_lem}
use morphling_c.Server
use morphling_c.Server.{Server, PeerMessage, peer_general_msg_cb}
use morphling_c.Server.Reading.{Unpacking, peer_message, on_peer_event}
use morphling_c.Transports.{Packing, packet_type, packet_payload, socket_send, udp_send}

-- What a packet is to the peer that gets it: a message of its own kind. A reply to a client has no
-- handler there.
abbrev pub meant : Packet → PeerMessage
meant (Morphling.append msg) = Server.append msg
meant (Morphling.append_reply msg) = Server.append_reply msg
meant (Morphling.guidance msg) = Server.guidance msg
meant (Morphling.client_reply msg) = Server.no_peer_message

-- What unpacks what was packed: the library's promise, and that a cast gives back what lies in memory.
pub record Inverse (packing : Packing) (unpacking : Unpacking) : Type 0 where
  pub append_back :
      (msg : AppendEntriesMessage) → unpacking.unpack_append (packing.pack_append msg) ≡ some msg
  pub append_reply_back :
      (msg : AppendEntriesReplyMessage)
      → unpacking.unpack_append_reply (packing.pack_append_reply msg) ≡ some msg
  pub guidance_back :
      (msg : GuidanceMessage) → unpacking.cast_guidance (packing.guidance_memory msg) ≡ msg

pub packet_type_known : (packet : Packet) → packet_type packet ≢ unknown
unfolding packet_type
packet_type_known (Morphling.append msg) e = cc
packet_type_known (Morphling.append_reply msg) e = cc
packet_type_known (Morphling.client_reply msg) e = cc
packet_type_known (Morphling.guidance msg) e = cc

module _ (packing : Packing) (unpacking : Unpacking) (back : Inverse packing unpacking)
    (unpack : Bytes → Option Operation) {In : Type 0} (bev : Bufferevent In) where
  open bev use {arrived}

  peer_message-meant :
      (packet : Packet)
      → peer_message unpacking (packet_type packet) (packet_payload packing packet)
        ≡ ok (meant packet)
  unfolding peer_message packet_type packet_payload
  peer_message-meant (Morphling.append msg) = rw (back.append_back msg, or_fault, ◌>>=◌) refl
  peer_message-meant (Morphling.append_reply msg) =
      rw (back.append_reply_back msg, or_fault, ◌>>=◌) refl
  peer_message-meant (Morphling.client_reply msg) = refl
  peer_message-meant (Morphling.guidance msg) = rw (back.guidance_back msg) refl

  -- A message of a known type that has been read is handled.
  on_peer_event-read :
      (fuel : ℕ) (t : MessageType) (payload : Bytes) (i i' : In) (s : Server) (msg : PeerMessage)
      → t ≢ unknown
      → recv_msg bev fuel 2048 i ≡ ok (t, payload, i')
      → peer_message unpacking t payload ≡ ok msg
      → on_peer_event unpacking unpack bev fuel i s
        ≡ (peer_general_msg_cb unpack msg s >>= (λ (o : Server × List Send). ok (o.0, o.1, i')))
  unfolding on_peer_event
  on_peer_event-read fuel unknown payload i i' s msg known e f = absurd (known refl)
  on_peer_event-read fuel append payload i i' s msg known e f = rw (e, ◌>>=◌, f) refl
  on_peer_event-read fuel append_reply payload i i' s msg known e f = rw (e, ◌>>=◌, f) refl
  on_peer_event-read fuel client payload i i' s msg known e f = rw (e, ◌>>=◌, f) refl
  on_peer_event-read fuel client_reply payload i i' s msg known e f = rw (e, ◌>>=◌, f) refl
  on_peer_event-read fuel guidance payload i i' s msg known e f = rw (e, ◌>>=◌, f) refl
  on_peer_event-read fuel get_guidance payload i i' s msg known e f = rw (e, ◌>>=◌, f) refl

  -- Let the library unpack what it packed. A packet whose payload fits the buffer of 2048 bytes
  -- travels alike over both transports; and when it has arrived at a peer's server, with anything
  -- behind it, the event of the connection does what the handler does with the message that was sent,
  -- faults included, and leaves what follows. A reply to a client is ignored there.
  pub on_peer_event-socket_send :
      (packet : Packet) (rest : Bytes) (i : In) (fuel : ℕ) (s : Server)
      → length (packet_payload packing packet) ≤ 2048
      → arrived i ≡ socket_send packing packet ++ rest
      → 2048 ≤ fuel
      → (udp_send packing packet ≡ socket_send packing packet)
        × ((i' : In) × (arrived i' ≡ rest)
            × (on_peer_event unpacking unpack bev fuel i s ≡ (
                peer_general_msg_cb unpack (meant packet) s
                >>= (λ (o : Server × List Send). ok (o.0, o.1, i')))))
  unfolding udp_send socket_send
  on_peer_event-socket_send packet rest i fuel s fits come enough =
      let (i', e, left) =
        recv_msg-send_frame bev fuel 2048 (packet_type packet) (packet_payload packing packet) rest
          i (packet_type_known packet) come (omega arith) fits (omega arith) (omega arith)
          (omega arith) in
      (
        send_datagram_lem (packet_type packet) (packet_payload packing packet) (omega arith),
        (
          i',
          left,
          on_peer_event-read fuel (packet_type packet) (packet_payload packing packet) i i' s
              (meant packet) (packet_type_known packet) e (peer_message-meant packet),
        ),
      )
