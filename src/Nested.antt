-- ===== src/Nested.antt =====
-- The class `UDPServer` of extra/server.cpp, with the messages of extra/message.cpp: a server that
-- asks its peers about every request of a client, and answers when the first of them has replied.
-- What `debug_print` would print is left out, as in the build. The clock's times are arguments.
pub mod Answers
pub mod Peers
pub mod Requests
pub mod Replies
pub mod Serving
pub mod Once
pub mod Stray
use morphling_c.Base.{
  ℕ, ◌+◌, ◌-◌, ◌%◌, ◌^◌, ◌≡◌, Bool, true, false, ◌&&◌, ◌||◌, not, List, [], ◌∷◌, ◌++◌, Option, none,
  some, Dict, lookup, insert, erase, length, get_elem?, set, replicate, ltb, ◌==◌, if◌then◌else◌,
  add_u64, Result, ok, out_of_range, null_pointer, bad_free, guard, or_fault, ◌>>=◌, ◌>>◌,
}
use morphling_c.Message.{Bytes, ReplicaId}
use morphling_c.Gauge
use morphling_c.Gauge.{Gauge, Report, new_gauge, set_probe1, set_probe2, instant_time_at}

-- An `int` is given by its 32-bit pattern.
abbrev pub IntBits : Type 0
IntBits = ℕ

pub data MessageType : Type 0 where
  client nested nested_reply client_reply : MessageType

abbrev pub number : MessageType → ℕ
number client = 0
number nested = 1
number nested_reply = 2
number client_reply = 3

-- The messages that a server sends, with their `data`.
pub data Message : Type 0 where
  nested_message nested_reply_message client_reply_message : IntBits → Message

pub record Address : Type 0 where
  pub ip : ℕ
  pub port : ℕ

-- `UDPDestination`; its socket is the server's, and `none` is the peer id -1.
pub record UdpDestination : Type 0 where
  pub addr : Address
  pub peer_id : Option ReplicaId

-- What `UDPDestination::send` gives to `sendto`.
abbrev pub Sent : Type 0
Sent = Address × Message

abbrev pub send : UdpDestination → Message → Sent
send d m = (d.addr, m)

pub record PeerInfo : Type 0 where
  pub ip : Bytes
  pub port : ℕ
  pub sock_addr : Address

-- The callbacks that are registered: a call of the method of that name.
pub data Callback : Type 0 where
  calls_on_client_msg calls_on_nested_msg calls_on_nested_reply_msg : Callback

pub record UdpServer : Type 0 where
  pub callbacks : Dict Callback
  pub me : ReplicaId
  pub seq : ℕ
  pub seq_finished : List Bool
  pub peer_info : Dict PeerInfo
  pub pending_client : Dict UdpDestination
  -- The global variable `g_client_handler_gauge`.
  pub gauge : Gauge

abbrev pub max_seq : ℕ
max_seq = 1000000

-- The constructor, before `set_info` sets `m_me`, which has any value until then.
unfoldable pub new_server : ReplicaId → UdpServer
new_server anything = record {
  callbacks = [];
  me = anything;
  seq = 0;
  seq_finished = replicate max_seq false;
  peer_info = [];
  pending_client = [];
  gauge = new_gauge;
}

-- A `uint64_t` that becomes an `int`, and an `int` that becomes a `size_t`.
abbrev pub to_int : ℕ → IntBits
to_int n = n % 2 ^ 32

abbrev pub to_size : IntBits → ℕ
to_size n = if ltb n (2 ^ 31) then n else n + (2 ^ 64 - 2 ^ 32)

-- The loop of `on_client_msg`: a message to every peer but the server itself.
abbrev pub nest_peers : ReplicaId → ℕ → Dict PeerInfo → List Sent
nest_peers me seq [] = []
nest_peers me seq ((id, info) ∷ peers) =
    let rest = nest_peers me seq peers in
    if id == me
    then rest
    else send (record { addr = info.sock_addr; peer_id = none }) (nested_message (to_int seq))
      ∷ rest

-- `start` and `end` are the times at the gauge's two probes.
unfoldable pub on_client_msg :
    ℕ → ℕ → UdpDestination → UdpServer → Result (UdpServer × List Sent × List Report)
on_client_msg start end dest s = do
  let (probing, _) = set_probe1 start s.gauge
  let (probed, probe_idx) = set_probe2 end probing
  reports ← instant_time_at probe_idx probed
  ok (
    record s {
      pending_client = insert (to_int s.seq) dest s.pending_client;
      seq = add_u64 s.seq 1;
      gauge = probed;
    },
    nest_peers s.me s.seq s.peer_info,
    reports,
  )

abbrev pub on_nested_msg : IntBits → UdpDestination → List Sent
on_nested_msg data' dest = send dest (nested_reply_message data') ∷ []

-- A bit past the end is undefined, and so is a call through the empty pointer that `operator[]`
-- makes for a missing key.
unfoldable pub on_nested_reply_msg : IntBits → UdpServer → Result (UdpServer × List Sent)
on_nested_reply_msg data' s = do
  finished ← or_fault (get_elem? s.seq_finished (to_size data')) out_of_range
  if finished then ok (s, []) else (do
    dest ← or_fault (lookup data' s.pending_client) null_pointer
    ok (
      record s {
        seq_finished = set s.seq_finished (to_size data') true;
        pending_client = erase data' s.pending_client;
      },
      send dest (client_reply_message data') ∷ [],
    ))

abbrev pub register_cb : MessageType → Callback → UdpServer → UdpServer
register_cb t cb s = record s { callbacks = insert (number t) cb s.callbacks }

-- `bound` is whether `bind` succeeds on the port of this server.
unfoldable pub init_base_service : Bool → UdpServer → UdpServer × Bool
init_base_service bound s =
    if bound
    then (
      register_cb nested_reply calls_on_nested_reply_msg
          (register_cb nested calls_on_nested_msg (register_cb client calls_on_client_msg s)),
      true,
    )
    else (s, false)

abbrev pub same_text : Bytes → Bytes → Bool
same_text [] [] = true
same_text [] (y ∷ ys) = false
same_text (x ∷ xs) [] = false
same_text (x ∷ xs) (y ∷ ys) = x == y && same_text xs ys

-- A datagram: the type in its header, the `int` that follows it (whatever the buffer holds, if the
-- datagram is shorter), the pointer that follows that, its sender, and the times that the handler of a
-- client's message reads. The pointer lies where the vector of a `NestedMessage` keeps the address of
-- its storage, and is 0 if the datagram is shorter, and in what an `on_client_msg` sends.
pub record Datagram : Type 0 where
  pub type_number : ℕ
  pub data_int : IntBits
  pub binary_start : ℕ
  pub addr : Address
  pub start : ℕ
  pub end : ℕ

-- `inet_addr` and `inet_ntoa`.
module _ (inet_addr : Bytes → ℕ) (inet_ntoa : ℕ → Bytes) where
  -- A port that is missing is inserted as 0.
  unfoldable pub set_peer_info : Dict Bytes → Dict ℕ → Dict PeerInfo → Dict PeerInfo
  set_peer_info [] ports infos = infos
  set_peer_info ((id, text) ∷ peers) ports infos =
      let port : ℕ = elim (lookup id ports) [ some p ↦ p | none ↦ 0 ] in
      set_peer_info peers ports (
        insert id
          (record {
            ip = text;
            port = port;
            sock_addr = record { ip = inet_addr text; port = port % 2 ^ 16 };
          })
          infos)

  unfoldable pub set_info : ReplicaId → Dict Bytes → Dict ℕ → UdpServer → UdpServer
  set_info self addrs ports s = record s {
    me = self;
    peer_info = set_peer_info addrs ports s.peer_info;
  }

  -- The loop of `handle_msg` that names the peer: the last one with that address.
  pub peer_of : Address → Dict PeerInfo → Option ReplicaId → Option ReplicaId
  peer_of addr [] found = found
  peer_of addr ((id, info) ∷ peers) found =
      peer_of addr peers
        (if same_text (inet_ntoa addr.ip) info.ip && addr.port == info.port then some id else found)

  -- A call of a registered callback. Each takes its message for one of its own type.
  unfoldable pub call :
      Callback
      → Datagram
      → UdpDestination
      → UdpServer
      → Result (UdpServer × List Sent × List Report)
  call calls_on_client_msg d dest s = on_client_msg d.start d.end dest s
  call calls_on_nested_msg d dest s = ok (s, on_nested_msg d.data_int dest, [])
  call calls_on_nested_reply_msg d dest s = do
    (s', sent) ← on_nested_reply_msg d.data_int s
    ok (s', sent, [])

  -- A datagram of a type that is not registered is dropped. `recvfrom` has written over the vector
  -- of a `NestedMessage`, which frees what it points to when the message goes out of scope.
  unfoldable pub handle_msg : Datagram → UdpServer → Result (UdpServer × List Sent × List Report)
  handle_msg d s = elim (lookup d.type_number s.callbacks) [
    | none ↦ ok (s, [], [])
    | some cb ↦
        let dest : UdpDestination = record {
          addr = d.addr;
          peer_id = peer_of d.addr s.peer_info none;
        } in
        if ltb d.type_number 3
        then (do
          out ← call cb d dest s
          guard (not (d.type_number == number nested) || d.binary_start == 0) bad_free
          ok out)
        else ok (s, [], [])
  ]

  -- The event loop of `start`, over the datagrams that arrive; what is printed is left out.
  unfoldable pub serve : List Datagram → UdpServer → Result (UdpServer × List Sent)
  serve [] s = ok (s, [])
  serve (d ∷ ds) s = do
    (s', sent, _) ← handle_msg d s
    (s'', later) ← serve ds s'
    ok (s'', sent ++ later)
