-- ===== src/UdpClient.antt =====
-- The class `Client` of app/client3.cpp, which talks to the replicas in datagrams. It is the client
-- of app/client2.cpp, whose state and methods it has word for word, with channels in place of
-- connections, a gauge, and its own handlers.
pub mod Same
pub mod Setup
pub mod Thread
pub mod Stuck
use morphling_c.Base.{
  ℕ, zero, suc, ◌+◌, ◌/◌, ◌%◌, ◌^◌, Bool, true, false, List, [], ◌∷◌, ◌++◌, Option, none, some,
  length, replicate, get_elem?, get_or, set, drop, ltb, leb, ◌==◌, if◌then◌else◌, Result, ok,
  aborted, out_of_range, unpack_error, or_fault, guard, ◌>>=◌, ◌>>◌,
}
use morphling_c.Message.{Bytes, ReplicaId, Operation, ClientMessage, ClientReplyMessage}
use morphling_c.Morphling.{Transport}
use morphling_c.Guidance.{Guidance, no_guidance, map_node_id}
use morphling_c.Keys.{calc_key_pos}
use morphling_c.Wire.{
  MessageType, client_reply, guidance, type_of, payload_size, pack_get_guidance, pack_operation,
}
use morphling_c.Udp.Socket.{DatagramSocket}
use morphling_c.Gauge.{Gauge, Report, set_probe1, set_probe2, instant_time_us}
use morphling_c.Client.{
  Client, init, reading, waiting_guidance, writing, idle, is_idle, can_send, set_guidance,
  check_guidance_quorum, reset_turn_collection,
}
use morphling_c.Client.Sending.{Outgoing, Options, sent_key, sent_operation, sent_message}

-- `udp_dest` is the address and the port, of which `htons` takes 16 bits. The socket, and the port as
-- text, which nothing reads, are left out.
pub record Channel : Type 0 where
  pub replica_id : ReplicaId
  pub replica_ip : Bytes
  pub udp_dest : Bytes × ℕ

pub record UdpClient : Type 0 where
  pub client : Client
  pub channels : List Channel
  pub gauge : Gauge

-- The constructor and `set_data`.
unfoldable pub new_client : Bytes → Gauge → UdpClient
new_client value gauge = record {
  client = record {
    leading_guidance = no_guidance;
    one_turn_collection = [];
    value = value;
    max_replica_id = 3;
    quorum = 0;
    send_msg_nums = 0;
    finish_all_msg = false;
    status = init;
  };
  channels = [];
  gauge = gauge;
}

-- The loop of `set_channel_info` from `id` on: a channel for every address, with the port of the
-- same index. A port past the end of the vector is undefined.
unfoldable pub make_channels : ReplicaId → List Bytes → List ℕ → Result (List Channel)
make_channels id [] ports = ok []
make_channels id (ip ∷ ips) ports = do
  port ← or_fault (get_elem? ports id) out_of_range
  rest ← make_channels (suc id) ips ports
  ok (record { replica_id = id; replica_ip = ip; udp_dest = (ip, port % 2 ^ 16) } ∷ rest)

-- The vectors of a new client are empty before; the number of replicas is that of the ports.
unfoldable pub set_channel_info : List Bytes → List ℕ → UdpClient → Result UdpClient
set_channel_info ips ports u = do
  channels ← make_channels 0 ips ports
  ok (record u {
    client = record u.client {
      max_replica_id = length ports;
      quorum = length ports / 2 + 1;
      one_turn_collection = replicate (length ports) no_guidance;
    };
    channels = channels;
  })

-- `Channel::send` of the channel with an index. The assertion that `sendto` has taken the whole
-- message is taken to hold.
unfoldable pub send : UdpClient → ReplicaId → Bytes → Result Outgoing
send u id buf = do guard (ltb id (length u.channels)) out_of_range; ok (id, buf)

unfoldable pub request_guidance : UdpClient → ReplicaId → Result Outgoing
request_guidance u id = send u id pack_get_guidance

-- The loop of `build_comm`.
unfoldable pub request_all : UdpClient → List Channel → Result (List Outgoing)
request_all u [] = ok []
request_all u (chan ∷ chans) = do
  out ← request_guidance u chan.replica_id
  rest ← request_all u chans
  ok (out ∷ rest)

unfoldable pub build_comm : UdpClient → Result (List Outgoing)
build_comm u = request_all u u.channels

-- The loop in `one_send` over the replicas from `id` on, `n` of them.
unfoldable pub request_others : UdpClient → ReplicaId → ReplicaId → ℕ → Result (List Outgoing)
request_others u rid id zero = ok []
request_others u rid id (suc n) =
    if id == rid
    then request_others u rid (suc id) n
    else (do out ← request_guidance u id; rest ← request_others u rid (suc id) n; ok (out ∷ rest))

module _ (pack_op : Operation → Bytes) (pack_msg : ClientMessage → Bytes) where
  -- `one_send` once `can_send` has agreed.
  unfoldable pub send_operation : Options → UdpClient → Result (UdpClient × List Outgoing)
  send_operation cfg u = do
    bytes ← pack_operation pack_op pack_msg (sent_operation cfg u.client.value) sent_message
    rid ← or_fault (map_node_id u.client.leading_guidance (calc_key_pos sent_key)) aborted
    out ← send u rid bytes
    if cfg.unreplicated_read
        then ok (record u { client = record u.client { status = reading } }, out ∷ [])
        else (if cfg.is_read
            then (do
              requests ← request_others u rid 0 u.client.max_replica_id
              ok (record u { client = record u.client { status = reading } }, out ∷ requests))
            else ok (record u { client = record u.client { status = writing } }, out ∷ []))

  -- `now` is the time, and `sent` the count that all clients share.
  unfoldable pub one_send : Options → ℕ → ℕ → UdpClient → Result (UdpClient × ℕ × List Outgoing)
  one_send cfg now sent u =
      if is_idle u.client.status
      then (let (c, sent', agreed) = can_send cfg.msg_nums sent u.client in
          if agreed
          then (do
            (u', out) ←
                send_operation cfg (record u { client = c; gauge = (set_probe1 now u.gauge).0 })
            ok (u', sent', out))
          else ok (record u { client = c }, sent', []))
      else ok (u, sent, [])

-- A read or a guidance that has its quorum ends the turn.
unfoldable pub end_turn : UdpClient → UdpClient
end_turn u = record u { client = record (reset_turn_collection u.client) { status = idle } }

-- `Client::handle_reply` for a message of type guidance.
unfoldable pub handle_guidance : UdpClient → ReplicaId → Guidance → Result UdpClient
handle_guidance u id guide = do
  c ← set_guidance id guide u.client
  elim c.status [
    | waiting_guidance ↦ (do
      reached ← check_guidance_quorum c
      ok (if reached then end_turn (record u { client = c }) else record u { client = c }))
    | _ ↦ ok (record u { client = c })
  ]

-- `Client::handle_reply` for a reply to an operation. A write that is done is measured.
unfoldable pub handle_client_reply :
    ℕ → UdpClient → ReplicaId → ClientReplyMessage → Result (UdpClient × List Report)
handle_client_reply now u id msg = elim u.client.status [
  | reading ↦ (do
    c ← set_guidance id msg.guidance u.client
    reached ← check_guidance_quorum c
    ok (
      if reached
          then end_turn (record u { client = c })
          else record u { client = record c { status = waiting_guidance } },
      [],
    ))
  | writing ↦ (do
    let u' = record (end_turn u) { gauge = (set_probe2 now u.gauge).0 }
    reports ← instant_time_us u'.gauge
    ok (u', reports))
  | _ ↦ ok (u, [])
]

-- The conversions of a payload: of the memory of a `GuidanceMessage`, and `msgpack::unpack`.
module _ (cast_guidance : Bytes → Guidance) (unpack_reply : Bytes → Option ClientReplyMessage) where
  unfoldable pub handle_reply :
      ℕ → UdpClient → ReplicaId → MessageType → Bytes → Result (UdpClient × List Report)
  handle_reply now u id guidance msg_buf = do
    u' ← handle_guidance u id (cast_guidance msg_buf)
    ok (u', [])
  handle_reply now u id client_reply msg_buf = do
    msg ← or_fault (unpack_reply msg_buf) unpack_error
    handle_client_reply now u id msg
  handle_reply now u id _ msg_buf = ok (u, [])

  unfoldable pub handle_ur_reply : UdpClient → ReplicaId → MessageType → Bytes → Result UdpClient
  handle_ur_reply u id guidance msg_buf = do
    c ← set_guidance id (cast_guidance msg_buf) u.client
    ok (record u { client = c })
  handle_ur_reply u id client_reply msg_buf = do
    _ ← or_fault (unpack_reply msg_buf) unpack_error
    elim u.client.status [
      | reading ↦ ok (record u { client = record u.client { status = idle } })
      | _ ↦ ok u
    ]
  handle_ur_reply u id _ msg_buf = ok u

  -- `address` is what a sender is named by in a `sockaddr_in`.
  module _ {In : Type 0} (sock : DatagramSocket In) (address : Transport → Bytes × ℕ) where
    open sock use {peek, recvfrom}

    -- `Channel::recv` of the channel with an index, into a buffer of 2048 bytes: the header of the next
    -- datagram, and then all of it. Its sender is written over `udp_dest`.
    unfoldable pub recv : UdpClient → ReplicaId → In → Result (UdpClient × MessageType × Bytes × In)
    recv u id i = do
      chan ← or_fault (get_elem? u.channels id) out_of_range
      let head = peek 4 i
      guard (length head == 4) aborted
      let size = 4 + payload_size head
      let (buf, from, i') = recvfrom size i
      guard (leb (length buf) 2048) out_of_range
      guard (length buf == size) aborted
      let channels = set u.channels id (record chan { udp_dest = address from })
      ok (record u { channels = channels }, type_of (get_or head 3 0), buf, i')

    -- The callbacks of libevent.
    unfoldable pub on_reply : ℕ → UdpClient → ReplicaId → In → Result (UdpClient × List Report × In)
    on_reply now u id i = do
      (u₁, type, buf, i') ← recv u id i
      (u₂, reports) ← handle_reply now u₁ id type (drop 4 buf)
      ok (u₂, reports, i')

    unfoldable pub on_ur_reply : UdpClient → ReplicaId → In → Result (UdpClient × In)
    on_ur_reply u id i = do
      (u₁, type, buf, i') ← recv u id i
      u₂ ← handle_ur_reply u₁ id type (drop 4 buf)
      ok (u₂, i')
