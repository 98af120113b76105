-- ===== src/Tests/Bytes.antt =====
-- Runs of app/utils.cpp and of the transports on a connection that holds what has arrived.
use morphling_c.Base.{
  ℕ, zero, suc, ◌^◌, ◌≡◌, ◌≢◌, ◌<◌, ◌≤◌, refl, ap, ◌∙◌, min, Bool, true, false, List, [], ◌∷◌, ◌++◌,
  take, take_all, take-append, drop, drop_all, drop-append, ◌>>=◌, Option, none, some, ok, fault,
  out_of_range, out_of_fuel, length, arith,
}
use morphling_c.Message.{
  Bytes, Operation, ClientMessage, AppendEntriesMessage, AppendEntriesReplyMessage, GuidanceMessage,
  Entry,
}
use morphling_c.Guidance.{NodeStatus, no_guidance}
use morphling_c.Morphling.{Packet, append_reply}
use morphling_c.Transports.{Packing, packet_payload, socket_send, udp_send}
use morphling_c.Morphling.{Send, Transport}
use morphling_c.Morphling.Valid.{fresh}
use morphling_c.Keys.Owner.{first_guidance}
use morphling_c.Server.{Server, no_peer_message, peer_general_msg_cb}
use morphling_c.Server.Reading.{Unpacking, on_peer_event}
use morphling_c.Udp.{UdpServer, on_peer}
use morphling_c.Udp.Socket.{DatagramSocket}
use morphling_c.Transports.Datagrams.{at_udp, on_peer-udp_send}
use morphling_c.Transports.Delivery.{meant, Inverse, on_peer_event-socket_send}
use morphling_c.Wire.Buffer.{Bufferevent}
use morphling_c.Wire.{client, unknown, header, send_frame, recv_msg}
use morphling_c.Wire.Receiving.{recv_msg-send_frame, recv_msg_short, recv_msg_overflow}

take_empty : (n : ℕ) → [] ≡ take {A = ℕ} n []
take_empty zero = refl
take_empty (suc n) = refl

drop_empty : (n : ℕ) → [] ≡ drop {A = ℕ} n []
drop_empty zero = refl
drop_empty (suc n) = refl

take-min : (n : ℕ) (xs : Bytes) → take n xs ≡ take (min n (length xs)) xs
take-min zero xs =
    let none_left : 0 ≡ min 0 (length xs) = omega arith in ap (λ (k : ℕ). take k xs) none_left
take-min (suc n) [] = take_empty (min (suc n) 0)
take-min (suc n) (x ∷ xs) =
    let one_more : suc (min n (length xs)) ≡ min (suc n) (suc (length xs)) = omega arith in
    ap (◌∷◌ x) (take-min n xs) ∙ ap (λ (k : ℕ). take k (x ∷ xs)) one_more

drop-min : (n : ℕ) (xs : Bytes) → drop n xs ≡ drop (min n (length xs)) xs
drop-min zero xs =
    let none_left : 0 ≡ min 0 (length xs) = omega arith in ap (λ (k : ℕ). drop k xs) none_left
drop-min (suc n) [] = drop_empty (min (suc n) 0)
drop-min (suc n) (x ∷ xs) =
    let one_more : suc (min n (length xs)) ≡ min (suc n) (suc (length xs)) = omega arith in
    drop-min n xs ∙ ap (λ (k : ℕ). drop k (x ∷ xs)) one_more

-- A connection on which everything has arrived.
abbrev line : Bufferevent Bytes
line = record {
  read = λ n i. (take n i, drop n i);
  arrived = λ i. i;
  count = λ n i. min n (length i);
  count_bound = λ n i. omega arith;
  count_arrived = λ n i. omega arith;
  count_some = λ n i p q. omega arith;
  read_front = take-min;
  read_rest = drop-min;
}

abbrev payload : Bytes
payload = 7 ∷ 8 ∷ 9 ∷ []

abbrev addresses : Bytes
addresses = b'a' ∷ b',' ∷ b'b' ∷ []

abbrev following : Bytes
following = 1 ∷ 2 ∷ []

abbrev whole : Bytes
whole = send_frame client payload ++ following

abbrev broken_off : Bytes
broken_off = header client 5 ++ payload

abbrev too_long : Bytes
too_long = send_frame client (7 ∷ 8 ∷ 9 ∷ 10 ∷ 11 ∷ [])

abbrev pack_op : Operation → Bytes
pack_op op = op.op_type ∷ op.key_hash ∷ op.payload

abbrev pack_msg : ClientMessage → Bytes
pack_msg msg = msg.epoch ∷ msg.key_hash ∷ msg.op

abbrev sent_op : Operation
sent_op = record { op_type = 1; key_hash = 2; payload = payload }

abbrev sent_msg : ClientMessage
sent_msg = record { epoch = 1; key_hash = 2; op = [] }

known : client ≢ unknown
known = λ e. cc

-- An encoding of the entries: each with its epoch, its index and the size of its data before it.
abbrev pack_entries : List Entry → Bytes
pack_entries [] = []
pack_entries (e ∷ es) = e.epoch ∷ e.index ∷ length e.payload ∷ e.payload ++ pack_entries es

abbrev unpack_entries : ℕ → Bytes → List Entry
unpack_entries zero bytes = []
unpack_entries (suc n) (epoch ∷ index ∷ size ∷ bytes) =
    record { epoch = epoch; index = index; payload = take size bytes }
    ∷ unpack_entries n (drop size bytes)
unpack_entries (suc n) _ = []

unpack_entries-pack_entries : (es : List Entry) → unpack_entries (length es) (pack_entries es) ≡ es
unpack_entries-pack_entries [] = refl
unpack_entries-pack_entries (e ∷ es) =
    rw
      (
        take-append (length e.payload) e.payload (pack_entries es) (omega arith),
        take_all (length e.payload) e.payload (omega arith),
        drop-append (length e.payload) e.payload (pack_entries es) (omega arith),
        drop_all (length e.payload) e.payload (omega arith),
        unpack_entries-pack_entries es,
      )
      refl

abbrev pack_nodes : List NodeStatus → Bytes
pack_nodes [] = []
pack_nodes (n ∷ ns) = n.status ∷ pack_nodes ns

abbrev cast_nodes : Bytes → List NodeStatus
cast_nodes [] = []
cast_nodes (byte ∷ bytes) = record { status = byte } ∷ cast_nodes bytes

cast_nodes-pack_nodes : (ns : List NodeStatus) → cast_nodes (pack_nodes ns) ≡ ns
cast_nodes-pack_nodes [] = refl
cast_nodes-pack_nodes (n ∷ ns) = ap (◌∷◌ n) (cast_nodes-pack_nodes ns)

abbrev pack_bool : Bool → ℕ
pack_bool true = 1
pack_bool false = 0

abbrev unpack_bool : ℕ → Bool
unpack_bool zero = false
unpack_bool (suc n) = true

unpack_bool-pack_bool : (b : Bool) → unpack_bool (pack_bool b) ≡ b
unpack_bool-pack_bool true = refl
unpack_bool-pack_bool false = refl

abbrev pack_append : AppendEntriesMessage → Bytes
pack_append msg =
    msg.from
    ∷ msg.epoch
    ∷ msg.prev_term
    ∷ msg.prev_index
    ∷ msg.commit
    ∷ msg.group_id
    ∷ length msg.entries
    ∷ pack_entries msg.entries

abbrev unpack_append : Bytes → Option AppendEntriesMessage
unpack_append (from ∷ epoch ∷ prev_term ∷ prev_index ∷ commit ∷ group_id ∷ n ∷ bytes) =
    some (record {
      from = from;
      epoch = epoch;
      prev_term = prev_term;
      prev_index = prev_index;
      commit = commit;
      group_id = group_id;
      entries = unpack_entries n bytes;
    })
unpack_append _ = none

abbrev pack_append_reply : AppendEntriesReplyMessage → Bytes
pack_append_reply msg = msg.from ∷ msg.epoch ∷ pack_bool msg.success ∷ msg.group_id ∷ msg.index ∷ []

abbrev unpack_append_reply : Bytes → Option AppendEntriesReplyMessage
unpack_append_reply (from ∷ epoch ∷ success ∷ group_id ∷ index ∷ bytes) = some (record {
  from = from;
  epoch = epoch;
  success = unpack_bool success;
  group_id = group_id;
  index = index;
})
unpack_append_reply _ = none

abbrev guidance_memory : GuidanceMessage → Bytes
guidance_memory msg =
    msg.from ∷ msg.votes ∷ msg.guide.epoch ∷ msg.guide.status ∷ pack_nodes msg.guide.cluster

abbrev cast_guidance : Bytes → GuidanceMessage
cast_guidance (from ∷ votes ∷ epoch ∷ status ∷ bytes) = record {
  from = from;
  votes = votes;
  guide = record { epoch = epoch; status = status; cluster = cast_nodes bytes };
}
cast_guidance _ = record { from = 0; votes = 0; guide = no_guidance }

abbrev packing : Packing
packing = record {
  pack_append = pack_append;
  pack_append_reply = pack_append_reply;
  pack_client = pack_msg;
  pack_client_reply = λ msg. msg.key_hash ∷ msg.reply_data;
  guidance_memory = guidance_memory;
}

abbrev unpacking : Unpacking
unpacking = record {
  unpack_append = unpack_append;
  unpack_append_reply = unpack_append_reply;
  cast_guidance = cast_guidance;
}

unpacking-Inverse : Inverse packing unpacking
unpacking-Inverse = record {
  append_back = λ msg.
      ap (λ (es : List Entry). some (record msg { entries = es }))
        (unpack_entries-pack_entries msg.entries);
  append_reply_back = λ msg.
      ap (λ (b : Bool). some (record msg { success = b })) (unpack_bool-pack_bool msg.success);
  guidance_back = λ msg.
      ap (λ (ns : List NodeStatus). record msg { guide = record msg.guide { cluster = ns } })
        (cast_nodes-pack_nodes msg.guide.cluster);
}

abbrev unpack_op : Bytes → Option Operation
unpack_op (op_type ∷ key_hash ∷ payload) =
    some (record { op_type = op_type; key_hash = key_hash; payload = payload })
unpack_op _ = none

abbrev server : Server
server = record {
  peer_trans = (1, 11) ∷ (2, 12) ∷ [];
  peer_ctx = [];
  replica = fresh first_guidance 0 (0 ∷ 1 ∷ 2 ∷ []);
  me = 0;
  peers = 0 ∷ 1 ∷ 2 ∷ [];
  freed = [];
}

abbrev peek_first : ℕ → List Bytes → Bytes
peek_first n [] = []
peek_first n (d ∷ ds) = take n d

abbrev take_first : ℕ → List Bytes → Bytes × Transport × List Bytes
take_first n [] = ([], 0, [])
take_first n (d ∷ ds) = (take n d, 40, ds)

-- A socket as the datagrams that have arrived, all from 40.
abbrev sock : DatagramSocket (List Bytes)
sock = record { peek = peek_first; recvfrom = take_first }

abbrev udp_server : UdpServer
udp_server = record {
  replica = fresh first_guidance 0 (0 ∷ 1 ∷ 2 ∷ []);
  me = 0;
  peer_trans = (1, 11) ∷ (2, 12) ∷ [];
  peer_count = 3;
}

abbrev no_client : Bytes → Option ClientMessage
no_client _ = none

abbrev packet : Packet
packet = append_reply (record { from = 1; epoch = 1; success = true; group_id = 5; index = 2 })

abbrev arrived_packet : Bytes
arrived_packet = socket_send packing packet ++ following

abbrev datagrams : List Bytes
datagrams = udp_send packing packet ∷ []

for_peer : meant packet ≢ no_peer_message
for_peer e = cc

all_taken :
    take_first (length (udp_send packing packet)) datagrams ≡ (udp_send packing packet, 40, [])
all_taken =
    ap (λ (d : Bytes). (d, 40, []))
      (take_all (length (udp_send packing packet)) (udp_send packing packet) (omega arith))

below : length (packet_payload packing packet) < 2 ^ 24
unfolding packet_payload
below = omega arith

short : length (packet_payload packing packet) ≤ 2048
unfolding packet_payload
short = omega arith

on_peer_event-socket_send_example :
    (udp_send packing packet ≡ socket_send packing packet)
    × ((i' : Bytes) × (line.arrived i' ≡ following)
        × (on_peer_event unpacking unpack_op line 2048 arrived_packet server ≡ (
            peer_general_msg_cb unpack_op (meant packet) server
            >>= (λ (o : Server × List Send). ok (o.0, o.1, i')))))
on_peer_event-socket_send_example =
    on_peer_event-socket_send packing unpacking unpacking-Inverse unpack_op line packet following
      arrived_packet 2048 server short refl (omega arith)

on_peer-udp_send_example :
    on_peer unpack_op no_client unpack_append unpack_append_reply sock udp_server datagrams ≡ (
      peer_general_msg_cb unpack_op (meant packet) server
      >>= (at_udp packing unpacking unpacking-Inverse unpack_op no_client sock) udp_server [])
on_peer-udp_send_example =
    on_peer-udp_send packing unpacking unpacking-Inverse unpack_op no_client sock packet udp_server
      server datagrams [] 40 for_peer below refl all_taken refl refl

recv_msg-send_frame_example :
    (i' : Bytes) × (recv_msg line 10 2048 whole ≡ ok (client, payload, i'))
    × (line.arrived i' ≡ following)
recv_msg-send_frame_example =
    recv_msg-send_frame line 10 2048 client payload following whole known refl (omega arith)
      (omega arith) (omega arith) (omega arith) (omega arith)

recv_msg_short_example : recv_msg line 1000 2048 broken_off ≡ fault out_of_fuel
recv_msg_short_example =
    recv_msg_short line 1000 2048 client 5 payload broken_off known refl (omega arith) (omega arith)
      (omega arith) (omega arith) (omega arith)

recv_msg_overflow_example : recv_msg line 10 4 too_long ≡ fault out_of_range
recv_msg_overflow_example =
    recv_msg_overflow line 10 4 client (7 ∷ 8 ∷ 9 ∷ 10 ∷ 11 ∷ []) too_long known refl (omega arith)
      (omega arith) (omega arith) (omega arith)
