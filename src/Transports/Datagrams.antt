-- ===== src/Transports/Datagrams.antt =====
-- What one replica sends in a datagram (app/server2.cpp), another handles as the server of
-- app/server.cpp does.
use morphling_c.Base.{
  ℕ, ◌+◌, ◌^◌, ◌≡◌, ◌≢◌, ◌<◌, ◌++◌, ◌∙◌, refl, ap, subst, true, Option, Result, List, [], length,
  take, leb, ◌==◌, ok, or_fault, ◌>>=◌, Result-cases, inl, inr, arith,
}
use morphling_c.Message.{Bytes, Operation, ClientMessage}
use morphling_c.Morphling
use morphling_c.Morphling.{
  Packet, Send, Transport, bcast_msgs, handle_append_entries, handle_append_entries_reply,
  maybe_apply,
}
use morphling_c.Wire.{MessageType, unknown, header, send_frame}
use morphling_c.Wire.Receiving.{payload_size-header, type_of-type_byte}
use morphling_c.Udp
use morphling_c.Udp.{UdpServer, on_peer, handle_peer, take_datagram, peek_header}
use morphling_c.Udp.Socket.{DatagramSocket}
use morphling_c.Udp.Framing.{send_datagram_lem}
use morphling_c.Server
use morphling_c.Server.{Server, peer_general_msg_cb, no_peer_message}
use morphling_c.Server.Reading.{Unpacking}
use morphling_c.Transports.{Packing, packet_type, packet_payload, udp_send}
use morphling_c.Transports.Delivery.{meant, Inverse, packet_type_known}

module _ (packing : Packing) (unpacking : Unpacking) (back : Inverse packing unpacking)
    (unpack : Bytes → Option Operation) (unpack_client : Bytes → Option ClientMessage) {In : Type 0}
    (sock : DatagramSocket In) where
  open sock use {peek, recvfrom}
  open unpacking use {unpack_append, unpack_append_reply}

  -- The rest of `on_peer`, with what the handler has made of the replica.
  abbrev finish :
      UdpServer → In → Morphling.Morphling × List Send → Result (UdpServer × List Send × In)
  finish u i' (replica, sent) = do
    (u', all) ←
        Udp.broadcast unpack unpack_client unpack_append unpack_append_reply sock u replica sent
    ok (u', all, i')

  -- What the server of app/server.cpp has done, at a server of datagrams.
  abbrev pub at_udp : UdpServer → In → Server × List Send → Result (UdpServer × List Send × In)
  at_udp u i' (s, sent) = ok (record u { replica = s.replica }, sent, i')

  -- Both broadcast.
  broadcast-at_udp :
      (u : UdpServer) (s : Server) (i' : In) (replica : Morphling.Morphling) (sent : List Send)
      → s.peer_trans ≡ u.peer_trans
      → finish u i' (replica, sent) ≡ (Server.broadcast s replica sent >>= at_udp u i')
  unfolding Udp.broadcast
  broadcast-at_udp u s i' replica sent trans =
      rw trans (elim (Result-cases (bcast_msgs replica u.peer_trans)) [
        | inl (o, e) ↦ rw (e, ◌>>=◌) refl
        | inr (f, e) ↦ rw (e, ◌>>=◌) refl
      ])

  handle_peer-meant :
      (packet : Packet) (u : UdpServer) (s : Server) (i' : In)
      → meant packet ≢ no_peer_message
      → s.replica ≡ u.replica
      → s.peer_trans ≡ u.peer_trans
      → (handle_peer unpack unpack_client unpack_append unpack_append_reply sock u
            (packet_type packet)
            (packet_payload packing packet)
          >>= finish u i')
        ≡ (peer_general_msg_cb unpack (meant packet) s >>= at_udp u i')
  unfolding handle_peer Udp.broadcast peer_general_msg_cb packet_type packet_payload
  handle_peer-meant (Morphling.append msg) u s i' peer same trans =
      rw (back.append_back msg, or_fault, ◌>>=◌, same)
        (elim (Result-cases (handle_append_entries u.replica msg msg.from)) [
          | inl (r, e) ↦ rw (e, ◌>>=◌) (broadcast-at_udp u s i' r [] trans)
          | inr (f, e) ↦ rw (e, ◌>>=◌) refl
        ])
  handle_peer-meant (Morphling.append_reply msg) u s i' peer same trans =
      rw (back.append_reply_back msg, or_fault, ◌>>=◌, same)
        (elim (Result-cases (handle_append_entries_reply u.replica msg msg.from)) [
          | inl (r, e) ↦ elim (Result-cases (maybe_apply unpack r)) [
            | inl (o, e') ↦ rw (e, ◌>>=◌, e') (broadcast-at_udp u s i' o.0 o.1 trans)
            | inr (f, e') ↦ rw (e, ◌>>=◌, e') refl
          ]
          | inr (f, e) ↦ rw (e, ◌>>=◌) refl
        ])
  handle_peer-meant (Morphling.guidance msg) u s i' peer same trans =
      rw same (broadcast-at_udp u s i' u.replica [] trans)
  handle_peer-meant (Morphling.client_reply msg) u s i' peer same trans = absurd (peer refl)

  on_peer-frame :
      (t : MessageType) (payload : Bytes) (u : UdpServer) (i i' : In) (from : Transport)
      → t ≢ unknown
      → length payload < 2 ^ 24
      → peek 4 i ≡ header t (length payload)
      → recvfrom (4 + length payload) i ≡ (header t (length payload) ++ payload, from, i')
      → on_peer unpack unpack_client unpack_append unpack_append_reply sock u i ≡ (
          handle_peer unpack unpack_client unpack_append unpack_append_reply sock u t payload
          >>= finish u i')
  unfolding on_peer peek_header take_datagram
  on_peer-frame t payload u i i' from known small first come =
      rw
        (
          first,
          ◌>>=◌,
          payload_size-header t (length payload) small,
          come,
          within,
          whole,
          type_of-type_byte t known,
        )
        refl
    where
      within : leb (length (header t (length payload) ++ payload)) (4 + length payload) ≡ true
      within = ground arith

      whole : (length (header t (length payload) ++ payload) == 4 + length payload) ≡ true
      whole = ground arith

  -- Let the library unpack what it packed, and let a packet for a peer, whose payload is below 2 ^ 24
  -- bytes, come as the next datagram on the socket for the peers. Let a server of app/server.cpp have
  -- the same replica and the same transports to its peers. Then the event of the socket does to the
  -- replica what `peer_general_msg_cb` of that server does with the message that was sent, faults
  -- included, sends the same, and takes just the datagram.
  pub on_peer-udp_send :
      (packet : Packet) (u : UdpServer) (s : Server) (i i' : In) (from : Transport)
      → meant packet ≢ no_peer_message
      → length (packet_payload packing packet) < 2 ^ 24
      → peek 4 i ≡ take 4 (udp_send packing packet)
      → recvfrom (length (udp_send packing packet)) i ≡ (udp_send packing packet, from, i')
      → s.replica ≡ u.replica
      → s.peer_trans ≡ u.peer_trans
      → on_peer unpack unpack_client unpack_append unpack_append_reply sock u i
        ≡ (peer_general_msg_cb unpack (meant packet) s >>= at_udp u i')
  unfolding udp_send send_frame
  on_peer-udp_send packet u s i i' from peer small first come same trans =
      let framed = send_datagram_lem (packet_type packet) (packet_payload packing packet) small in
      on_peer-frame (packet_type packet) (packet_payload packing packet) u i i' from
        (packet_type_known packet) small (first ∙ ap (take 4) framed)
        (ap (λ (n : ℕ). recvfrom n i) sized
          ∙ subst (λ (d : Bytes). recvfrom (length d) i ≡ (d, from, i')) framed come)
      ∙ handle_peer-meant packet u s i' peer same trans
    where
      sized :
          4 + length (packet_payload packing packet)
          ≡ length (send_frame (packet_type packet) (packet_payload packing packet))
      sized = omega arith
