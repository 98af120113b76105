-- ===== src/Loop/Done.antt =====
-- `send_multiple` of extra/client.cpp ends when every request is answered.
use morphling_c.Base.{
  ℕ, zero, suc, ◌+◌, ◌≡◌, ◌≤◌, ◌<◌, inl, inr, refl, sym, ap, subst, ◌∙◌, Bool, true, false, ◌&&◌,
  ◌||◌, List, [], ◌∷◌, ◌++◌, length, ltb, leb, ◌==◌, ok, ◌>>=◌, Bool-cases, arith,
}
use morphling_c.Nested.{Address}
use morphling_c.Loop.{
  ConnectionContext, Arrival, finished, connect, send_idle, send_loop, send_multiple, idle_count,
}
use morphling_c.Loop.Counts.{send_idle-counts, send_multiple-counts}
use morphling_c.Loop.Idle.{
  IdleAt, AllAnswered, idle_count_all, some_injective, event_base_loop-idle,
}

module _ (cfg_loop_times : ℕ) (sendto : ℕ → Bool) (sends : (n : ℕ) → sendto n ≡ true) where
  send_idle_succeeds :
      (conns : List ConnectionContext) (count : ℕ) (all : Bool)
      → (send_idle cfg_loop_times sendto conns count all).failed ≡ false
  unfolding send_idle
  send_idle_succeeds [] count all = refl
  send_idle_succeeds (c ∷ conns) count all =
      elim (Bool-cases (c.status == 0 && ltb count cfg_loop_times)) [
        | inl idle ↦
            rw (idle, sends count, send_idle)
              (send_idle_succeeds conns (count + 1) (all || leb cfg_loop_times (count + 1)))
        | inr busy ↦ rw (busy, send_idle) (send_idle_succeeds conns count all)
      ]

  -- An idle connection gets a message.
  send_idle_some :
      (conns : List ConnectionContext) (count : ℕ) (all : Bool)
      → IdleAt conns 0
      → 0 < length conns
      → count < cfg_loop_times
      → 0 < length (send_idle cfg_loop_times sendto conns count all).sent
  unfolding send_idle
  send_idle_some [] count all idle some_conns lt = absurd (omega (arith, some_conns))
  send_idle_some (c ∷ conns) count all idle some_conns lt =
      let here : (c.status == 0 && ltb count cfg_loop_times) ≡ true =
        ground (arith, idle c refl, lt) in
      rw (here, sends count, send_idle) (omega arith)

  -- Each batch leaves all connections idle, so that each pass sends.
  send_loop-done :
      (batches : List (List Arrival)) (conns : List ConnectionContext) (count : ℕ) (all : Bool)
      → AllAnswered (length conns) batches
      → ((i : ℕ) → i < length conns → IdleAt conns i)
      → 0 < length conns
      → all ≡ leb cfg_loop_times count
      → count < cfg_loop_times
      → cfg_loop_times ≤ count + length batches
      → (sent : List ℕ) × (last : List ConnectionContext) × (send_loop cfg_loop_times sendto batches
            conns count all
          ≡ ok (finished, sent, last))
  unfolding send_loop
  send_loop-done [] conns count all h idle some_conns full lt fuel =
      absurd (omega (arith, lt, fuel))
  send_loop-done (batch ∷ batches) conns count all (whole, answered, later) idle some_conns full lt
        fuel =
      let t = send_idle cfg_loop_times sendto conns count all in
      let (sums, below, flag, size) =
        send_idle-counts cfg_loop_times sendto conns count all (omega (arith, lt)) full in
      let progress =
        send_idle_some conns count all (idle 0 (omega (arith, some_conns))) some_conns lt in
      let (conns', e, size', idle') = event_base_loop-idle batch t.conn_ctxs whole in
      let all_idle : (i : ℕ) → i < length conns' → IdleAt conns' i =
        λ i inside. idle' i (inr (answered i (omega (arith, inside, size, size')))) in
      let none_busy : (idle_count conns' == length conns') ≡ true =
        ground (arith, idle_count_all conns' all_idle) in
      let ok_send = send_idle_succeeds conns count all in
      elim (Bool-cases t.send_all) [
        | inl over ↦
            let stop : (idle_count conns' == length conns' && t.send_all) ≡ true =
              rw (none_busy, over) refl in
            (t.sent, conns', rw (send_loop, ok_send, e, ◌>>=◌, stop) refl)
        | inr on ↦
            let go : (idle_count conns' == length conns' && t.send_all) ≡ false =
              rw (none_busy, on) refl in
            let (sent, last, f) =
              send_loop-done batches conns' t.send_count t.send_all
                (subst (λ (n : ℕ). AllAnswered n batches) (sym (size' ∙ size)) later) all_idle
                (omega (arith, size, size', some_conns)) flag (ground (arith, flag, on, below))
                (omega (arith, sums, progress, fuel)) in
            (t.sent ++ sent, last, rw (send_loop, ok_send, e, ◌>>=◌, go, f) refl)
      ]

connect-idle :
    (dest : Address) (fds : List ℕ) (i : ℕ)
    → i < length (connect dest fds)
    → IdleAt (connect dest fds) i
connect-idle dest [] i lt c at = absurd (omega (arith, lt))
connect-idle dest (socket ∷ fds) zero lt c at =
    ap (λ (x : ConnectionContext). x.status) (sym (some_injective at))
connect-idle dest (socket ∷ fds) (suc i) lt c at = connect-idle dest fds i (omega (arith, lt)) c at

length-connect : (dest : Address) (fds : List ℕ) → length (connect dest fds) ≡ length fds
length-connect dest [] = refl
length-connect dest (socket ∷ fds) = ap suc (length-connect dest fds)

-- A client with at least one connection that is to send some messages, at least one, returns 0 when
-- `sendto` succeeds and every batch of datagrams has one for each connection, the replies among them
-- whole and of at most 2048 bytes: as many batches as messages are enough. It has then sent exactly
-- as many messages as it was to send.
pub send_multiple-done :
    (cfg_loop_times : ℕ) (sendto : ℕ → Bool) (dest : Address) (fds : List ℕ)
    (batches : List (List Arrival))
    → ((n : ℕ) → sendto n ≡ true)
    → 0 < cfg_loop_times
    → 0 < length fds
    → AllAnswered (length fds) batches
    → cfg_loop_times ≤ length batches
    → (sent : List ℕ) × (last : List ConnectionContext) × (send_multiple cfg_loop_times sendto dest
          fds batches
        ≡ ok (finished, sent, last))
      × (length sent ≡ cfg_loop_times)
unfolding send_multiple
send_multiple-done cfg_loop_times sendto dest fds batches sends some_times some_fds h fuel =
    let size = length-connect dest fds in
    let (sent, last, e) =
      send_loop-done cfg_loop_times sendto sends batches (connect dest fds) 0 false
        (subst (λ (n : ℕ). AllAnswered n batches) (sym size) h) (connect-idle dest fds)
        (omega (arith, size, some_fds)) (ground (arith, some_times)) some_times
        (omega (arith, fuel)) in
    let counted =
      send_multiple-counts cfg_loop_times sendto dest fds batches (finished, sent, last) some_times
        e in
    (sent, last, e, omega (arith, counted.0))
