-- ===== src/Nested/Stray.antt =====
-- A reply to a number that the server of extra/server.cpp has not given out.
use morphling_c.Base.{
  ℕ, ◌+◌, ◌-◌, ◌^◌, ◌≡◌, ◌≤◌, inl, inr, refl, sym, ap, ◌∙◌, false, List, [], ◌∷◌, ◌++◌, Dict,
  length, get_elem?-none, ltb, if◌then◌else◌, Result-cases, ok-injective, ok-fault_ne, ok, fault,
  Fault, out_of_range, null_pointer, Bool-cases, arith,
}
use morphling_c.Message.{Bytes, ReplicaId}
use morphling_c.Nested.{
  Address, Sent, UdpServer, Datagram, max_seq, on_nested_reply_msg, handle_msg, serve,
}
use morphling_c.Nested.Answers.{Matches, Honest, requests, listed}
use morphling_c.Nested.Serving.{started, dispatch, serve-Matches, started-Matches}

-- What such a reply ends in: a read past the bits, or a call through an empty pointer.
abbrev pub stray_fault : ℕ → Fault
stray_fault n = if ltb n max_seq then null_pointer else out_of_range

on_nested_reply_msg_stray :
    (s : UdpServer) (clients : List Address) (answered : List ℕ) (n : ℕ)
    → Matches s clients answered
    → length clients ≤ n
    → on_nested_reply_msg n s ≡ fault (stray_fault n)
unfolding on_nested_reply_msg
on_nested_reply_msg_stray s clients answered n m le = elim (Bool-cases (ltb n max_seq)) [
  | inl inside ↦
      let small : (if ltb n (2 ^ 31) then n else n + (2 ^ 64 - 2 ^ 32)) ≡ n =
        ground (arith, inside) in
      let fresh : listed n answered ≡ false = ground (arith, m.issued n, le) in
      rw (small, m.finished n (ground (arith, inside)), fresh, m.none_else n le, inside) refl
  | inr past ↦
      rw
        (
          get_elem?-none s.seq_finished (if ltb n (2 ^ 31) then n else n + (2 ^ 64 - 2 ^ 32))
              (ground (arith, m.bits, past)),
          past,
        )
        refl
]

module _ (inet_addr : Bytes → ℕ) (inet_ntoa : ℕ → Bytes) where
  serve-append_fault :
      (ds ds' : List Datagram) (s s' : UdpServer) (sent : List Sent) (why : Fault)
      → serve inet_addr inet_ntoa ds s ≡ ok (s', sent)
      → serve inet_addr inet_ntoa ds' s' ≡ fault why
      → serve inet_addr inet_ntoa (ds ++ ds') s ≡ fault why
  unfolding serve
  serve-append_fault [] ds' s s' sent why e f =
      ap (λ (o : UdpServer × List Sent). serve inet_addr inet_ntoa ds' o.0) (ok-injective e) ∙ f
  serve-append_fault (d ∷ ds) ds' s s' sent why e f =
      elim (Result-cases (handle_msg inet_addr inet_ntoa d s)) [
        | inr (wrong, q) ↦ absurd (ok-fault_ne (sym (rw q at e)))
        | inl ((s1, now, rs), q) ↦ elim (Result-cases (serve inet_addr inet_ntoa ds s1)) [
          | inr (wrong, q1) ↦ absurd (ok-fault_ne (sym (rw (q, q1) at e)))
          | inl ((s2, later), q1) ↦
              let same : (s2, now ++ later) ≡ (s', sent) = ok-injective (rw (q, q1) at e) in
              let f' : serve inet_addr inet_ntoa ds' s2 ≡ fault why =
                ap (λ (o : UdpServer × List Sent). serve inet_addr inet_ntoa ds' o.0) same ∙ f in
              let rest = serve-append_fault ds ds' s1 s2 later why q1 f' in rw (q, rest) refl
        ]
      ]

  -- A server that has been started, and has served a run of at most 1000000 requests in which peers
  -- replied only to numbers that had been given out, and no question wrote an address where the
  -- server keeps a vector, stops at a datagram that replies to a number which it has not given out
  -- yet, whoever sent it: the code reads past the bits of finished numbers, or it calls through an
  -- empty pointer.
  pub stray_reply :
      (anything self : ReplicaId) (addrs : Dict Bytes) (ports : Dict ℕ) (ds later : List Datagram)
      (d : Datagram)
      → Honest 0 ds
      → d.type_number ≡ 2
      → length (requests ds) ≤ d.data_int
      → serve inet_addr inet_ntoa
          (ds ++ d ∷ later)
          (started inet_addr inet_ntoa anything self addrs ports)
        ≡ fault (stray_fault d.data_int)
  unfolding serve
  stray_reply anything self addrs ports ds later d h reply le =
      let (s', answered, e, m) =
        serve-Matches inet_addr inet_ntoa ds (started inet_addr inet_ntoa anything self addrs ports)
          [] [] (started-Matches inet_addr inet_ntoa anything self addrs ports) h in
      serve-append_fault ds (d ∷ later) (started inet_addr inet_ntoa anything self addrs ports) s' _
        (stray_fault d.data_int) e
        (rw
          (
            dispatch inet_addr inet_ntoa d s' m.registered,
            reply,
            on_nested_reply_msg_stray s' (requests ds) answered d.data_int m le,
          )
          refl)
