-- ===== src/Nested/Requests.antt =====
-- `UDPServer::on_client_msg` of extra/server.cpp, and the gauge that times it.
use morphling_c.Base.{
  ℕ, ◌-◌, ◌%◌, ◌^◌, ◌≡◌, ◌<◌, refl, sym, ap, ◌∙◌, Bool, true, false, List, [], ◌∷◌, ◌++◌, some,
  lookup, insert, lookup-insert, length, length-append, get_elem?, get_elem?-append,
  get_elem?-append_last, get_elem?-some_lt, add_u64, ok, arith,
}
use native.Mathlib.Decide.{ℕ_discrete}
use morphling_c.Gauge.{Gauge, Report, set_probe1, set_probe2, instant_time_at, points_at, loop_time}
use morphling_c.Nested.{Address, UdpServer, UdpDestination, max_seq, nest_peers, on_client_msg}
use morphling_c.Nested.Answers.{listed, Matches, Even}

-- A request is timed, and the gauge stays even.
abbrev Timed : Gauge → ℕ → ℕ → Type 0
Timed g start end =
    (rs : List Report) × (instant_time_at (set_probe2 end (set_probe1 start g).0).1
        (set_probe2 end (set_probe1 start g).0).0
      ≡ ok rs)
    × Even (set_probe2 end (set_probe1 start g).0).0

Timed-fields :
    (probe1 probe2 : List ℕ) (off : Bool) (last start end : ℕ)
    → length probe1 ≡ length probe2
    → Timed
        (record {
          measure_probe1 = probe1;
          measure_probe2 = probe2;
          disable = off;
          last_calculate_idx = last;
        })
        start
        end
unfolding instant_time_at set_probe1 set_probe2 points_at
Timed-fields probe1 probe2 true last start end even = ([], refl, even)
Timed-fields probe1 probe2 false last start end even =
    let at : length (probe2 ++ end ∷ []) - 1 ≡ length probe2 =
      omega (arith, length-append probe2 (end ∷ [])) in
    let e1 : get_elem? (probe1 ++ start ∷ []) (length probe2) ≡ some start =
      ap (get_elem? (probe1 ++ start ∷ [])) (sym even) ∙ get_elem?-append_last probe1 start in
    (
      loop_time (length (probe2 ++ end ∷ []) - 1) (start, end) ∷ [],
      rw (at, e1, get_elem?-append_last probe2 end) refl,
      omega (arith, even, length-append probe1 (start ∷ []), length-append probe2 (end ∷ [])),
    )

timed : (g : Gauge) (start end : ℕ) → Even g → Timed g start end
timed g start end even =
    Timed-fields g.measure_probe1 g.measure_probe2 g.disable g.last_calculate_idx start end even

-- The server after a request.
abbrev asked_by : ℕ → ℕ → UdpDestination → UdpServer → UdpServer
asked_by start end dest s = record s {
  pending_client = insert (s.seq % 2 ^ 32) dest s.pending_client;
  seq = add_u64 s.seq 1;
  gauge = (set_probe2 end (set_probe1 start s.gauge).0).0;
}

some_same : {A : Type 0} {x y : A} → some x ≡ some y → x ≡ y
some_same e = cc

-- A request waits under its number, which no earlier one has.
asked-waiting :
    (s : UdpServer) (clients : List Address) (answered : List ℕ) (start end : ℕ)
    (dest : UdpDestination)
    → Matches s clients answered
    → length clients < max_seq
    → (i : ℕ) (a : Address) → get_elem? (clients ++ dest.addr ∷ []) i ≡ some a
    → listed i answered ≡ false
    → (d : UdpDestination) × (lookup i (asked_by start end dest s).pending_client ≡ some d)
      × (d.addr ≡ a)
asked-waiting s clients answered start end dest m lt i a at fresh =
    let here = lookup-insert (s.seq % 2 ^ 32) i dest s.pending_client in
    let number_of : s.seq % 2 ^ 32 ≡ length clients = omega (arith, m.numbered, lt) in
    elim (ℕ_discrete i (length clients)) [
      | yes last ↦ (
        dest,
        here ∙ ground (arith, number_of, last),
        some_same (
            sym (get_elem?-append_last clients dest.addr)
            ∙ ap (get_elem? (clients ++ dest.addr ∷ [])) (sym last)
            ∙ at),
      )
      | no older ↦
          let below : i < length clients = omega (
            arith,
            older,
            get_elem?-some_lt (clients ++ dest.addr ∷ []) i at,
            length-append clients (dest.addr ∷ []),
          ) in
          let (d, e, own) =
            m.waiting i a (sym (get_elem?-append clients (dest.addr ∷ []) i below) ∙ at) fresh in
          (d, here ∙ ground (arith, number_of, below, e), own)
    ]

-- A request from a client.
pub on_client_msg-Matches :
    (s : UdpServer) (clients : List Address) (answered : List ℕ) (start end : ℕ)
    (dest : UdpDestination)
    → Matches s clients answered
    → length clients < max_seq
    → (s' : UdpServer) × (rs : List Report) × (on_client_msg start end dest s
        ≡ ok (s', nest_peers s.me (length clients) s.peer_info, rs))
      × (s'.me ≡ s.me)
      × (s'.peer_info ≡ s.peer_info)
      × Matches s' (clients ++ dest.addr ∷ []) answered
unfolding on_client_msg
on_client_msg-Matches s clients answered start end dest m lt =
    let (rs, e, even) = timed s.gauge start end m.even in
    let size = length-append clients (dest.addr ∷ []) in
    (
      asked_by start end dest s,
      rs,
      rw e (
          ap (λ (n : ℕ). ok (asked_by start end dest s, nest_peers s.me n s.peer_info, rs))
            m.numbered),
      refl,
      refl,
      record {
        registered = m.registered;
        numbered = omega (arith, m.numbered, size, lt);
        room = omega (arith, size, lt);
        bits = m.bits;
        finished = m.finished;
        issued = λ i voted. omega (arith, m.issued i voted, size);
        waiting = asked-waiting s clients answered start end dest m lt;
        none_else = λ i le.
            lookup-insert (s.seq % 2 ^ 32) i dest s.pending_client
            ∙ ground (arith, m.numbered, lt, size, le, m.none_else i);
        even = even;
      },
    )
