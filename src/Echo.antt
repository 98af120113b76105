-- ===== src/Echo.antt =====
-- The class `UDPServer` of extra/echo_server.cpp: a server that answers every request at once, and
-- measures how long it takes. What `debug_print` would print is left out, as in the build.
pub mod Times
use morphling_c.Base.{
  ℕ, zero, suc, ◌+◌, Bool, true, false, ◌&&◌, List, [], ◌∷◌, ◌++◌, Option, none, some, Dict, lookup,
  insert, replicate, ◌==◌, if◌then◌else◌, add_u64, Result, ok, ◌>>=◌,
}
use morphling_c.Message.{Bytes, ReplicaId}
use morphling_c.Gauge.{
  Gauge, Report, new_gauge, set_probe1, set_probe2, instant_time_at, average_time_us,
}
use morphling_c.Nested.{Address, PeerInfo, set_peer_info}

-- The callback that is registered.
pub data Callback : Type 0 where
  calls_on_client_msg : Callback

-- The three gauges are global variables; the fields that no method uses are left out.
pub record EchoServer : Type 0 where
  pub callbacks : Dict Callback
  pub me : ReplicaId
  pub seq : ℕ
  pub peer_info : Dict PeerInfo
  pub client_handler_gauge : Gauge
  pub recv_gauge : Gauge
  pub send_gauge : Gauge

-- The constructor; `m_me` has any value until `set_info`.
unfoldable pub new_server : ReplicaId → EchoServer
new_server anything = record {
  callbacks = [];
  me = anything;
  seq = 0;
  peer_info = [];
  client_handler_gauge = new_gauge;
  recv_gauge = new_gauge;
  send_gauge = new_gauge;
}

-- `bound` is whether `bind` succeeds on the port of this server.
unfoldable pub init_base_service : Bool → EchoServer → EchoServer × Bool
init_base_service bound s =
    if bound
    then (record s { callbacks = insert 0 calls_on_client_msg s.callbacks }, true)
    else (s, false)

-- A datagram: the type in its header, its sender, and what the clock says at the probes of its
-- handler, in order.
pub record Datagram : Type 0 where
  pub type_number : ℕ
  pub addr : Address
  pub handling : ℕ
  pub peeking : ℕ
  pub peeked : ℕ
  pub receiving : ℕ
  pub replied : ℕ
  pub handled : ℕ

-- A reply: to whom, and of how many bytes.
abbrev pub Sent : Type 0
Sent = Address × ℕ

-- The reply is 32 bytes of a buffer of which `memcpy` has filled as many as a reply has.
unfoldable pub on_client_msg : Datagram → EchoServer → Result (EchoServer × List Sent × List Report)
on_client_msg d s = do
  let (send_gauge', _) = set_probe2 d.replied s.send_gauge
  let (gauge, probe_idx) = set_probe2 d.handled s.client_handler_gauge
  reports ← instant_time_at probe_idx gauge
  ok (
    record s { seq = add_u64 s.seq 1; send_gauge = send_gauge'; client_handler_gauge = gauge },
    (d.addr, 32) ∷ [],
    reports,
  )

-- The timer: the averages of the three gauges.
pub on_period : EchoServer → Result (EchoServer × List Report)
on_period s = do
  (recv_gauge', first) ← average_time_us s.recv_gauge
  (send_gauge', second) ← average_time_us s.send_gauge
  (gauge, third) ← average_time_us s.client_handler_gauge
  ok (
    record s { recv_gauge = recv_gauge'; send_gauge = send_gauge'; client_handler_gauge = gauge },
    first ++ second ++ third,
  )

-- `recv_msg`, which only measures here.
abbrev pub recv_msg : Datagram → EchoServer → EchoServer
recv_msg d s = record s { send_gauge = (set_probe1 d.receiving s.send_gauge).0 }

-- The first lines of `handle_msg`, up to the peek.
abbrev pub peek : Datagram → EchoServer → EchoServer
peek d s = record s {
  client_handler_gauge = (set_probe1 d.handling s.client_handler_gauge).0;
  recv_gauge = (set_probe2 d.peeked (set_probe1 d.peeking s.recv_gauge).0).0;
}

-- A datagram of a type that is not registered is dropped.
unfoldable pub handle_msg : Datagram → EchoServer → Result (EchoServer × List Sent × List Report)
handle_msg d s = elim (lookup d.type_number s.callbacks) [
  | none ↦ ok (peek d s, [], [])
  | some calls_on_client_msg ↦
      if d.type_number == 0 then on_client_msg d (recv_msg d (peek d s)) else ok (peek d s, [], [])
]

-- The event loop of `start`, over the datagrams that arrive.
unfoldable pub serve : List Datagram → EchoServer → Result (EchoServer × List Sent × List Report)
serve [] s = ok (s, [], [])
serve (d ∷ ds) s = do
  (s', sent, reports) ← handle_msg d s
  (s'', sent', reports') ← serve ds s'
  ok (s'', sent ++ sent', reports ++ reports')

unfoldable pub set_info :
    (Bytes → ℕ) → (ℕ → Bytes) → ReplicaId → Dict Bytes → Dict ℕ → EchoServer → EchoServer
set_info inet_addr inet_ntoa self addrs ports s = record s {
  me = self;
  peer_info = set_peer_info inet_addr inet_ntoa addrs ports s.peer_info;
}
