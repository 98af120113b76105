-- ===== src/Loop.antt =====
-- `send_multiple` and `new_udp_event` of extra/client.cpp: a client that keeps a number of connections
-- busy until it has sent its share of requests. What the event loop delivers is an argument, and so
-- is which of its calls of `sendto` succeed. The counters are numbers without a bound.
pub mod Counts
pub mod Idle
pub mod Done
use morphling_c.Base.{
  ℕ, zero, suc, ◌+◌, Bool, true, false, not, ◌&&◌, ◌||◌, List, [], ◌∷◌, ◌++◌, Option, none, some,
  length, get_elem?, set, min, ltb, leb, ◌==◌, if◌then◌else◌, Result, ok, aborted, out_of_range,
  guard, ◌>>=◌, ◌>>◌,
}
use morphling_c.Nested.{Address}

pub record ConnectionContext : Type 0 where
  pub status : ℕ
  pub udp_dest : Address
  pub fd : ℕ

-- The loop that makes the connections, whose sockets are `fds`.
abbrev pub connect : Address → List ℕ → List ConnectionContext
connect dest [] = []
connect dest (socket ∷ fds) = record { status = 0; udp_dest = dest; fd = socket } ∷ connect dest fds

-- A datagram that arrives: the connection, the header's type and size, how long it is, and from where.
pub record Arrival : Type 0 where
  pub conn : ℕ
  pub type_number : ℕ
  pub size : ℕ
  pub available : ℕ
  pub source : Address

-- A reply is read into 2048 bytes, as many as its header says; anything else is dropped.
unfoldable pub new_udp_event : Arrival → ConnectionContext → Result ConnectionContext
new_udp_event a c =
    if not (a.type_number == 3) then ok (record c { status = 0; udp_dest = a.source }) else (do
      let read_n = min a.size a.available
      guard (leb read_n 2048) out_of_range
      guard (read_n == a.size) aborted
      ok (record c { status = 0; udp_dest = a.source }))

-- What one turn of the event loop delivers.
unfoldable pub event_base_loop :
    List Arrival → List ConnectionContext → Result (List ConnectionContext)
event_base_loop [] conns = ok conns
event_base_loop (a ∷ batch) conns = elim (get_elem? conns a.conn) [
  | none ↦ event_base_loop batch conns
  | some c ↦ (do c' ← new_udp_event a c; event_base_loop batch (set conns a.conn c'))
]

-- The variables of the loop, with the sockets of the messages that it has sent.
pub record Turn : Type 0 where
  pub conn_ctxs : List ConnectionContext
  pub send_count : ℕ
  pub send_all : Bool
  pub sent : List ℕ
  -- Whether `sendto` has returned -1.
  pub failed : Bool

-- The number of idle connections.
abbrev pub idle_count : List ConnectionContext → ℕ
idle_count [] = 0
idle_count (c ∷ conns) = (if c.status == 0 then 1 else 0) + idle_count conns

-- How `send_multiple` ends: with 0, with -1, or not yet.
pub data Exit : Type 0 where
  finished send_error going : Exit

-- `cfg_loop_times`, and whether a call of `sendto` succeeds after so many.
module _ (cfg_loop_times : ℕ) (sendto : ℕ → Bool) where
  -- The inner loop, over the connections that are left.
  unfoldable pub send_idle : List ConnectionContext → ℕ → Bool → Turn
  send_idle [] count all = record {
    conn_ctxs = [];
    send_count = count;
    send_all = all;
    sent = [];
    failed = false;
  }
  send_idle (c ∷ conns) count all = elim (c.status == 0 && ltb count cfg_loop_times) [
    | true ↦ elim (sendto count) [
      | true ↦
          let t = send_idle conns (count + 1) (all || leb cfg_loop_times (count + 1)) in
          record t { conn_ctxs = record c { status = 1 } ∷ t.conn_ctxs; sent = c.fd ∷ t.sent }
      | false ↦ record {
        conn_ctxs = c ∷ conns;
        send_count = count;
        send_all = all;
        sent = [];
        failed = true;
      }
    ]
    | false ↦ let t = send_idle conns count all in record t { conn_ctxs = c ∷ t.conn_ctxs }
  ]

  -- The loop, until there are no more batches of datagrams to wait for; also the sockets of all messages.
  unfoldable pub send_loop :
      List (List Arrival)
      → List ConnectionContext
      → ℕ
      → Bool
      → Result (Exit × List ℕ × List ConnectionContext)
  send_loop [] conns count all =
      let t = send_idle conns count all in
      ok (if t.failed then send_error else going, t.sent, t.conn_ctxs)
  send_loop (batch ∷ batches) conns count all =
      let t = send_idle conns count all in
      elim t.failed [
        | true ↦ ok (send_error, t.sent, t.conn_ctxs)
        | false ↦ (do
          answered ← event_base_loop batch t.conn_ctxs
          elim (idle_count answered == length answered && t.send_all) [
            | true ↦ ok (finished, t.sent, answered)
            | false ↦ (do
              (exit, later, last) ← send_loop batches answered t.send_count t.send_all
              ok (exit, t.sent ++ later, last))
          ])
      ]

  unfoldable pub send_multiple :
      Address → List ℕ → List (List Arrival) → Result (Exit × List ℕ × List ConnectionContext)
  send_multiple dest fds batches = send_loop batches (connect dest fds) 0 false
