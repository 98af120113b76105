-- ===== src/Echo/Times.antt =====
-- Runs of the server of extra/echo_server.cpp: what it answers, and what it measures.
use morphling_c.Base.{
  ℕ, suc, ◌-◌, ◌≡◌, inl, inr, refl, sym, ap, subst, ◌∙◌, true, false, List, [], ◌∷◌, ◌++◌,
  append_assoc, some, Dict, lookup, insert, length, length-append, get_elem?, get_elem?-append_last,
  ◌==◌, if◌then◌else◌, add_u64, ok, Bool-cases, arith,
}
use morphling_c.Message.{Bytes, ReplicaId}
use morphling_c.Gauge.{
  Gauge, Report, loop_time, new_gauge, set_probe1, set_probe2, points_at, instant_time_at,
}
use morphling_c.Echo.{
  EchoServer, calls_on_client_msg, Datagram, Sent, new_server, init_base_service, set_info,
  on_client_msg, handle_msg, recv_msg, peek, serve,
}

-- The replies: one for each request, to its sender.
abbrev pub replies : List Datagram → List Sent
replies [] = []
replies (d ∷ ds) = let rest = replies ds in if d.type_number == 0 then (d.addr, 32) ∷ rest else rest

-- What is measured after `n` requests, with the beginnings `queue` of earlier datagrams that no
-- request has been measured from: a request is measured from the oldest of them, or its own.
abbrev pub measured : ℕ → List ℕ → List Datagram → List Report
measured n queue [] = []
measured n [] (d ∷ ds) =
    let next = measured (suc n) [] ds in
    let dropped = measured n (d.handling ∷ []) ds in
    if d.type_number == 0 then loop_time n (d.handling, d.handled) ∷ next else dropped
measured n (begun ∷ queue) (d ∷ ds) =
    let next = measured (suc n) (queue ++ d.handling ∷ []) ds in
    let dropped = measured n (begun ∷ queue ++ d.handling ∷ []) ds in
    if d.type_number == 0 then loop_time n (begun, d.handled) ∷ next else dropped

-- A gauge that is on, with some beginnings and ends.
abbrev measuring : List ℕ → List ℕ → Gauge
measuring begins ends = record {
  measure_probe1 = begins;
  measure_probe2 = ends;
  disable = false;
  last_calculate_idx = 0;
}

-- A server after `n` requests, with beginnings that have not been used.
record Waits (s : EchoServer) (n : ℕ) (queue : List ℕ) : Type 0 where
  registered : s.callbacks ≡ (0, calls_on_client_msg) ∷ []
  used : List ℕ
  ends : List ℕ
  gauge : s.client_handler_gauge ≡ measuring (used ++ queue) ends
  used_size : length used ≡ n
  ends_size : length ends ≡ n

get_elem?-middle : (xs ys : List ℕ) (y : ℕ) → get_elem? (xs ++ y ∷ ys) (length xs) ≡ some y
get_elem?-middle [] ys y = refl
get_elem?-middle (x ∷ xs) ys y = get_elem?-middle xs ys y

-- The time that is reported.
reported :
    (used queue ends : List ℕ) (begun end n : ℕ)
    → length used ≡ n
    → length ends ≡ n
    → instant_time_at
        (set_probe2 end (measuring (used ++ begun ∷ queue) ends)).1
        (set_probe2 end (measuring (used ++ begun ∷ queue) ends)).0
      ≡ ok (loop_time n (begun, end) ∷ [])
unfolding instant_time_at set_probe2 points_at
reported used queue ends begun end n e f =
    let at : length (ends ++ end ∷ []) - 1 ≡ length ends =
      omega (arith, length-append ends (end ∷ [])) in
    let first : get_elem? (used ++ begun ∷ queue) (length ends) ≡ some begun =
      ap (get_elem? (used ++ begun ∷ queue)) (f ∙ sym e) ∙ get_elem?-middle used queue begun in
    rw (at, get_elem?-append_last ends end, first, f) refl

-- The server after a request.
abbrev answered : Datagram → EchoServer → Gauge → EchoServer
answered d s gauge' = record s {
  seq = add_u64 s.seq 1;
  send_gauge = (set_probe2 d.replied s.send_gauge).0;
  client_handler_gauge = gauge';
}

-- A request takes the oldest beginning.
on_client_msg-Waits :
    (d : Datagram) (s : EchoServer) (n begun : ℕ) (queue : List ℕ)
    → Waits s n (begun ∷ queue)
    → (s' : EchoServer) × (on_client_msg d s
        ≡ ok (s', (d.addr, 32) ∷ [], loop_time n (begun, d.handled) ∷ []))
      × Waits s' (suc n) queue
unfolding on_client_msg set_probe2
on_client_msg-Waits d s n begun queue w = (
  answered d s (set_probe2 d.handled s.client_handler_gauge).0,
  rw (w.gauge, reported w.used queue w.ends begun d.handled n w.used_size w.ends_size) refl,
  record {
    registered = w.registered;
    used = w.used ++ begun ∷ [];
    ends = w.ends ++ d.handled ∷ [];
    gauge =
        ap (λ (g : Gauge). (set_probe2 d.handled g).0) w.gauge
        ∙ ap (λ (begins : List ℕ). measuring begins (w.ends ++ d.handled ∷ []))
            (sym (append_assoc w.used (begun ∷ []) queue));
    used_size = omega (arith, w.used_size, length-append w.used (begun ∷ []));
    ends_size = omega (arith, w.ends_size, length-append w.ends (d.handled ∷ []));
  },
)

-- Every datagram begins to be measured.
peek-Waits :
    (d : Datagram) (s : EchoServer) (n : ℕ) (queue : List ℕ)
    → Waits s n queue
    → Waits (peek d s) n (queue ++ d.handling ∷ [])
unfolding set_probe1
peek-Waits d s n queue w = record {
  registered = w.registered;
  used = w.used;
  ends = w.ends;
  gauge =
      ap (λ (g : Gauge). (set_probe1 d.handling g).0) w.gauge
      ∙ ap (λ (begins : List ℕ). measuring begins w.ends)
          (append_assoc w.used queue (d.handling ∷ []));
  used_size = w.used_size;
  ends_size = w.ends_size;
}

recv_msg-Waits :
    (d : Datagram) (s : EchoServer) (n : ℕ) (queue : List ℕ)
    → Waits s n queue
    → Waits (recv_msg d s) n queue
recv_msg-Waits d s n queue w = record {
  registered = w.registered;
  used = w.used;
  ends = w.ends;
  gauge = w.gauge;
  used_size = w.used_size;
  ends_size = w.ends_size;
}

-- What is called for each type.
dispatch :
    (d : Datagram) (s : EchoServer)
    → s.callbacks ≡ (0, calls_on_client_msg) ∷ []
    → handle_msg d s ≡ (
        if d.type_number == 0
        then on_client_msg d (recv_msg d (peek d s))
        else ok (peek d s, [], []))
unfolding handle_msg lookup
dispatch d s e = rw e (ground arith)

-- The handler of a request, with the beginnings that it finds.
request-Waits :
    (d : Datagram) (s : EchoServer) (n begun : ℕ) (queue rest : List ℕ)
    → Waits s n queue
    → queue ++ d.handling ∷ [] ≡ begun ∷ rest
    → (d.type_number == 0) ≡ true
    → (s' : EchoServer) × (handle_msg d s
        ≡ ok (s', (d.addr, 32) ∷ [], loop_time n (begun, d.handled) ∷ []))
      × Waits s' (suc n) rest
request-Waits d s n begun queue rest w q e =
    let (s', f, w') = on_client_msg-Waits d (recv_msg d (peek d s)) n begun rest (
      subst (Waits (recv_msg d (peek d s)) n) q
        (recv_msg-Waits d (peek d s) n (queue ++ d.handling ∷ []) (peek-Waits d s n queue w))) in
    (s', dispatch d s w.registered ∙ rw e f, w')

measured_dropped :
    (d : Datagram) (ds : List Datagram) (n : ℕ) (queue : List ℕ)
    → (d.type_number == 0) ≡ false
    → measured n queue (d ∷ ds) ≡ measured n (queue ++ d.handling ∷ []) ds
measured_dropped d ds n [] e = rw e refl
measured_dropped d ds n (begun ∷ queue) e = rw e refl

-- The oldest beginning that a request finds, and the others.
oldest :
    (d : Datagram) (ds : List Datagram) (n : ℕ) (queue : List ℕ)
    → (d.type_number == 0) ≡ true
    → (begun : ℕ) × (rest : List ℕ) × (queue ++ d.handling ∷ [] ≡ begun ∷ rest)
      × (measured n queue (d ∷ ds) ≡ loop_time n (begun, d.handled) ∷ measured (suc n) rest ds)
oldest d ds n [] e = (d.handling, [], refl, rw e refl)
oldest d ds n (begun ∷ queue) e = (begun, queue ++ d.handling ∷ [], refl, rw e refl)

serve-Waits :
    (ds : List Datagram) (s : EchoServer) (n : ℕ) (queue : List ℕ)
    → Waits s n queue
    → (s' : EchoServer) × (serve ds s ≡ ok (s', replies ds, measured n queue ds))
unfolding serve
serve-Waits [] s n queue w = (s, refl)
serve-Waits (d ∷ ds) s n queue w = elim (Bool-cases (d.type_number == 0)) [
  | inl t0 ↦
      let (begun, rest, q, m) = oldest d ds n queue t0 in
      let (s1, e, w1) = request-Waits d s n begun queue rest w q t0 in
      let (s2, f) = serve-Waits ds s1 (suc n) rest w1 in (s2, rw (e, f, t0, m) refl)
  | inr t0 ↦
      let (s2, f) =
        serve-Waits ds (peek d s) n (queue ++ d.handling ∷ []) (peek-Waits d s n queue w) in
      let e : handle_msg d s ≡ ok (peek d s, [], []) = dispatch d s w.registered ∙ rw t0 refl in
      (s2, rw (e, f, t0, measured_dropped d ds n queue t0) refl)
]

-- The server that `main` starts.
abbrev pub started :
    (Bytes → ℕ) → (ℕ → Bytes) → ReplicaId → ReplicaId → Dict Bytes → Dict ℕ → EchoServer
started inet_addr inet_ntoa anything self addrs ports =
    (init_base_service true (set_info inet_addr inet_ntoa self addrs ports (new_server anything))).0

started-Waits :
    (inet_addr : Bytes → ℕ) (inet_ntoa : ℕ → Bytes) (anything self : ReplicaId) (addrs : Dict Bytes)
    (ports : Dict ℕ)
    → Waits (started inet_addr inet_ntoa anything self addrs ports) 0 []
unfolding init_base_service set_info new_server new_gauge insert
started-Waits inet_addr inet_ntoa anything self addrs ports = record {
  registered = refl;
  used = [];
  ends = [];
  gauge = refl;
  used_size = refl;
  ends_size = refl;
}

-- A server that has been started serves every run without a fault, and sends one reply of 32 bytes
-- for each request, to its sender, and nothing else. For each request it reports one time, with the
-- end of that request and the oldest beginning of a datagram, of any type, that no time has been
-- counted from yet.
pub serve-measured :
    (inet_addr : Bytes → ℕ) (inet_ntoa : ℕ → Bytes) (anything self : ReplicaId) (addrs : Dict Bytes)
    (ports : Dict ℕ) (ds : List Datagram)
    → (s' : EchoServer) × (serve ds (started inet_addr inet_ntoa anything self addrs ports)
        ≡ ok (s', replies ds, measured 0 [] ds))
serve-measured inet_addr inet_ntoa anything self addrs ports ds =
    serve-Waits ds (started inet_addr inet_ntoa anything self addrs ports) 0 []
      (started-Waits inet_addr inet_ntoa anything self addrs ports)
