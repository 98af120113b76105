-- ===== src/Nested/Serving.antt =====
-- The server of extra/server.cpp over a run, against what it should send.
use morphling_c.Base.{
  ℕ, suc, ◌≡◌, ◌<◌, inl, inr, refl, sym, ap, subst, ◌∙◌, true, false, List, [], ◌∷◌, ◌++◌,
  append_assoc, append-nil, none, Dict, lookup, insert, length, length-append, length-replicate,
  get_elem?-replicate, get_elem?_total, ◌==◌, if◌then◌else◌, ok, fault, bad_free, ◌>>=◌, Bool-cases,
  arith,
}
use native.Mathlib.Decide.{ℕ_discrete}
use morphling_c.Message.{Bytes, ReplicaId}
use morphling_c.Gauge.{Report, new_gauge}
use morphling_c.Nested.{
  Address, Sent, UdpServer, UdpDestination, Datagram, Callback, nested_reply_message,
  client_reply_message, calls_on_client_msg, calls_on_nested_msg, calls_on_nested_reply_msg,
  new_server, max_seq, on_client_msg, on_nested_reply_msg, init_base_service, peer_of, set_info,
  call, handle_msg, serve,
}
use morphling_c.Nested.Answers.{addresses, questions, requests, listed, answers, Honest, Matches}
use morphling_c.Nested.Peers.{
  AllDistinct, configured, nest_peers-questions, set_peer_info-configured,
}
use morphling_c.Nested.Requests.{on_client_msg-Matches}
use morphling_c.Nested.Replies.{
  answered_for, answered_for-Matches, on_nested_reply_msg-later, on_nested_reply_msg-first,
}

-- The callbacks that are registered.
abbrev pub registered_callbacks : Dict Callback
registered_callbacks =
    (0, calls_on_client_msg) ∷ (1, calls_on_nested_msg) ∷ (2, calls_on_nested_reply_msg) ∷ []

module _ (inet_addr : Bytes → ℕ) (inet_ntoa : ℕ → Bytes) where
  -- Who a datagram is from, for its handler.
  abbrev source : Datagram → UdpServer → UdpDestination
  source d s = record {
    addr = d.addr;
    peer_id = peer_of inet_addr inet_ntoa d.addr s.peer_info none;
  }

  -- What is called for each type.
  pub dispatch :
      (d : Datagram) (s : UdpServer)
      → s.callbacks ≡ registered_callbacks
      → handle_msg inet_addr inet_ntoa d s ≡ (
          if d.type_number == 0
          then on_client_msg d.start d.end (source d s) s
          else (if d.type_number == 1
              then (if d.binary_start == 0
                  then ok (s, (d.addr, nested_reply_message d.data_int) ∷ [], [])
                  else fault bad_free)
              else (if d.type_number == 2
                  then on_nested_reply_msg d.data_int s
                    >>= (λ (out : UdpServer × List Sent). ok (out.0, out.1, []))
                  else ok (s, [], []))))
  unfolding handle_msg call lookup
  dispatch d s e = rw e (ground arith)

  -- What one datagram does, in a run that goes on with `ds`.
  record Served (d : Datagram) (ds : List Datagram) (s : UdpServer) (clients : List Address)
      (answered : List ℕ) : Type 0 where
    after : UdpServer
    sent : List Sent
    reports : List Report
    clients' : List Address
    answered' : List ℕ
    returns : handle_msg inet_addr inet_ntoa d s ≡ ok (after, sent, reports)
    matches : Matches after clients' answered'
    same_me : after.me ≡ s.me
    same_peers : after.peer_info ≡ s.peer_info
    honest : Honest (length clients') ds
    all_requests : clients ++ requests (d ∷ ds) ≡ clients' ++ requests ds
    as_answers :
        answers s.me (addresses s.peer_info) clients answered (d ∷ ds)
        ≡ sent ++ answers s.me (addresses s.peer_info) clients' answered' ds

  serve_request :
      (d : Datagram) (ds : List Datagram) (s : UdpServer) (clients : List Address)
      (answered : List ℕ)
      → Matches s clients answered
      → Honest (length clients) (d ∷ ds)
      → (d.type_number == 0) ≡ true
      → Served d ds s clients answered
  serve_request d ds s clients answered m h request =
      let (lt, h') : (length clients < max_seq) × Honest (suc (length clients)) ds =
        rw request at h in
      let (s1, rs, e, own, peers, m1) =
        on_client_msg-Matches s clients answered d.start d.end (source d s) m lt in
      record {
        after = s1;
        sent = questions s.me (length clients) (addresses s.peer_info);
        reports = rs;
        clients' = clients ++ d.addr ∷ [];
        answered' = answered;
        returns =
            dispatch d s m.registered
            ∙ rw
                (
                  request,
                  sym (nest_peers-questions s.me (length clients) s.peer_info (omega (arith, lt))),
                )
                e;
        matches = m1;
        same_me = own;
        same_peers = peers;
        honest =
            subst (λ (n : ℕ). Honest n ds) (omega (arith, length-append clients (d.addr ∷ []))) h';
        all_requests = rw request (sym (append_assoc clients (d.addr ∷ []) (requests ds)));
        as_answers = rw request refl;
      }

  -- A datagram that changes nothing of the server.
  unchanged :
      (d : Datagram) (ds : List Datagram) (s : UdpServer) (clients : List Address)
      (answered : List ℕ) (sent : List Sent)
      → Matches s clients answered
      → Honest (length clients) ds
      → (d.type_number == 0) ≡ false
      → handle_msg inet_addr inet_ntoa d s ≡ ok (s, sent, [])
      → answers s.me (addresses s.peer_info) clients answered (d ∷ ds)
        ≡ sent ++ answers s.me (addresses s.peer_info) clients answered ds
      → Served d ds s clients answered
  unchanged d ds s clients answered sent m h other e f = record {
    after = s;
    sent = sent;
    reports = [];
    clients' = clients;
    answered' = answered;
    returns = e;
    matches = m;
    same_me = refl;
    same_peers = refl;
    honest = h;
    all_requests = rw other refl;
    as_answers = f;
  }

  serve_reply :
      (d : Datagram) (ds : List Datagram) (s : UdpServer) (clients : List Address)
      (answered : List ℕ)
      → Matches s clients answered
      → Honest (length clients) (d ∷ ds)
      → d.type_number ≡ 2
      → Served d ds s clients answered
  serve_reply d ds s clients answered m h e =
      let (lt, h') : (d.data_int < length clients) × Honest (length clients) ds = rw e at h in
      elim (Bool-cases (listed d.data_int answered)) [
        | inl old ↦
            unchanged d ds s clients answered [] m h' (rw e refl)
              (dispatch d s m.registered
                ∙ rw (e, on_nested_reply_msg-later s clients answered d.data_int m old) refl)
              (rw (e, old) refl)
        | inr fresh ↦
            let (a, at) = get_elem?_total clients d.data_int lt in
            record {
              after = answered_for d.data_int s;
              sent = (a, client_reply_message d.data_int) ∷ [];
              reports = [];
              clients' = clients;
              answered' = d.data_int ∷ answered;
              returns =
                  dispatch d s m.registered
                  ∙ rw (e, on_nested_reply_msg-first s clients answered d.data_int a m at fresh)
                      refl;
              matches = answered_for-Matches s clients answered d.data_int m lt;
              same_me = refl;
              same_peers = refl;
              honest = h';
              all_requests = rw e refl;
              as_answers = rw (e, fresh, at) refl;
            }
      ]

  serve_one :
      (d : Datagram) (ds : List Datagram) (s : UdpServer) (clients : List Address)
      (answered : List ℕ)
      → Matches s clients answered
      → Honest (length clients) (d ∷ ds)
      → Served d ds s clients answered
  serve_one d ds s clients answered m h = elim (ℕ_discrete d.type_number 0) [
    | yes e ↦ serve_request d ds s clients answered m h (ground (arith, e))
    | no r0 ↦ elim (ℕ_discrete d.type_number 1) [
      | yes e ↦
          let (null, h') : (d.binary_start ≡ 0) × Honest (length clients) ds = rw e at h in
          unchanged d ds s clients answered ((d.addr, nested_reply_message d.data_int) ∷ []) m h'
            (rw e refl) (dispatch d s m.registered ∙ rw (e, null) refl) (rw e refl)
      | no r1 ↦ elim (ℕ_discrete d.type_number 2) [
        | yes e ↦ serve_reply d ds s clients answered m h e
        | no r2 ↦
            let t0 : (d.type_number == 0) ≡ false = ground (arith, r0) in
            let t1 : (d.type_number == 1) ≡ false = ground (arith, r1) in
            let t2 : (d.type_number == 2) ≡ false = ground (arith, r2) in
            unchanged d ds s clients answered [] m (rw (t0, t1, t2) at h) t0
              (dispatch d s m.registered ∙ rw (t0, t1, t2) refl) (rw (t0, t1, t2) refl)
      ]
    ]
  ]

  -- What a server sends over a run, and that it does not fault.
  pub serve-Matches :
      (ds : List Datagram) (s : UdpServer) (clients : List Address) (answered : List ℕ)
      → Matches s clients answered
      → Honest (length clients) ds
      → (s' : UdpServer) × (answered' : List ℕ) × (serve inet_addr inet_ntoa ds s
          ≡ ok (s', answers s.me (addresses s.peer_info) clients answered ds))
        × Matches s' (clients ++ requests ds) answered'
  unfolding serve
  serve-Matches [] s clients answered m h = (s, answered, refl, rw (append-nil clients) m)
  serve-Matches (d ∷ ds) s clients answered m h =
      let o = serve_one d ds s clients answered m h in
      let (s2, a2, f, m2) = serve-Matches ds o.after o.clients' o.answered' o.matches o.honest in
      (
        s2,
        a2,
        rw (o.returns, f, o.as_answers, o.same_me, o.same_peers) refl,
        subst (λ (cs : List Address). Matches s2 cs a2) (sym o.all_requests) m2,
      )

  -- The server that `main` starts.
  abbrev pub started : ReplicaId → ReplicaId → Dict Bytes → Dict ℕ → UdpServer
  started anything self addrs ports =
      (init_base_service true
        (set_info inet_addr inet_ntoa self addrs ports (new_server anything))).0

  pub started-Matches :
      (anything self : ReplicaId) (addrs : Dict Bytes) (ports : Dict ℕ)
      → Matches (started anything self addrs ports) [] []
  unfolding init_base_service set_info new_server new_gauge insert lookup
  started-Matches anything self addrs ports = record {
    registered = refl;
    numbered = refl;
    room = omega arith;
    bits = length-replicate max_seq false;
    finished = λ i lt. get_elem?-replicate max_seq i false lt;
    issued = λ i voted. cc;
    waiting = λ i a at fresh. cc;
    none_else = λ i le. refl;
    even = refl;
  }

  started_peers :
      (anything self : ReplicaId) (addrs : Dict Bytes) (ports : Dict ℕ)
      → AllDistinct addrs
      → addresses (started anything self addrs ports).peer_info
        ≡ configured inet_addr inet_ntoa addrs ports
  unfolding init_base_service set_info new_server lookup
  started_peers anything self addrs ports distinct =
      set_peer_info-configured inet_addr inet_ntoa addrs ports [] distinct (λ id text at. refl)

  -- With the addresses that the server has.
  pub serve_lem :
      (anything self : ReplicaId) (addrs : Dict Bytes) (ports : Dict ℕ) (ds : List Datagram)
      → Honest 0 ds
      → (s' : UdpServer) × (serve inet_addr inet_ntoa ds (started anything self addrs ports)
          ≡ ok
              (s', answers self (addresses (started anything self addrs ports).peer_info) [] [] ds))
  unfolding init_base_service set_info
  serve_lem anything self addrs ports ds h =
      let (s', _, e, _) =
        serve-Matches ds (started anything self addrs ports) [] []
          (started-Matches anything self addrs ports) h in
      (s', e)

  -- A server is started with a table of the addresses of its peers, which names each once, and one of
  -- their ports. It serves every run of at most 1000000 requests in which peers reply only to numbers
  -- that have been given out, and no question writes an address where the server keeps a vector. It
  -- does not fault, and it sends exactly this: for each request a question with the next number, from
  -- 0 on, to the address and port of every peer of the tables but itself; for each question its reply,
  -- to the sender; for the first reply to a number an answer, to the client whose request has that
  -- number; and nothing for later replies or for types that are not registered.
  pub serve-answers :
      (anything self : ReplicaId) (addrs : Dict Bytes) (ports : Dict ℕ) (ds : List Datagram)
      → AllDistinct addrs
      → Honest 0 ds
      → (s' : UdpServer) × (serve inet_addr inet_ntoa ds (started anything self addrs ports)
          ≡ ok (s', answers self (configured inet_addr inet_ntoa addrs ports) [] [] ds))
  serve-answers anything self addrs ports ds distinct h =
      let (s', e) = serve_lem anything self addrs ports ds h in
      (
        s',
        e
            ∙ ap (λ (peers : Dict Address). ok (s', answers self peers [] [] ds))
                (started_peers anything self addrs ports distinct),
      )
