-- ===== src/Loop/Counts.antt =====
-- How many messages `send_multiple` of extra/client.cpp sends.
use morphling_c.Base.{
  ℕ, suc, ◌+◌, ◌≡◌, ◌≤◌, ◌<◌, inl, inr, refl, sym, ap, subst, Bool, false, ◌&&◌, ◌||◌, List, [],
  ◌∷◌, ◌++◌, length, length-append, ltb, leb, ◌==◌, if◌then◌else◌, Result-cases, ok, ok-injective,
  ok-fault_ne, ◌>>=◌, Bool-cases, arith,
}
use morphling_c.Nested.{Address}
use morphling_c.Loop.{
  ConnectionContext, Arrival, Exit, finished, send_error, going, connect, send_idle, send_loop,
  send_multiple, event_base_loop, idle_count,
}

module _ (cfg_loop_times : ℕ) (sendto : ℕ → Bool) where
  -- A pass over the connections keeps the count, and the flag says whether it is full.
  pub send_idle-counts :
      (conns : List ConnectionContext) (count : ℕ) (all : Bool)
      → count ≤ cfg_loop_times
      → all ≡ leb cfg_loop_times count
      → ((send_idle cfg_loop_times sendto conns count all).send_count
          ≡ count + length (send_idle cfg_loop_times sendto conns count all).sent)
        × ((send_idle cfg_loop_times sendto conns count all).send_count ≤ cfg_loop_times)
        × ((send_idle cfg_loop_times sendto conns count all).send_all
            ≡ leb cfg_loop_times (send_idle cfg_loop_times sendto conns count all).send_count)
        × (length (send_idle cfg_loop_times sendto conns count all).conn_ctxs ≡ length conns)
  unfolding send_idle
  send_idle-counts [] count all le full = (omega arith, le, full, refl)
  send_idle-counts (c ∷ conns) count all le full =
      elim (Bool-cases (c.status == 0 && ltb count cfg_loop_times)) [
        | inl idle ↦ elim (Bool-cases (sendto count)) [
          | inl sends ↦
              let lt : count < cfg_loop_times = ground (arith, idle) in
              let (a, b, d, e) =
                send_idle-counts conns (count + 1) (all || leb cfg_loop_times (count + 1))
                  (omega (arith, lt)) (ground (arith, full, lt)) in
              rw (idle, sends, send_idle) (omega (arith, a), b, d, ap suc e)
          | inr fails ↦ rw (idle, fails, send_idle) (omega arith, le, full, refl)
        ]
        | inr busy ↦
            let (a, b, d, e) = send_idle-counts conns count all le full in
            rw (busy, send_idle) (a, b, d, ap suc e)
      ]

  -- How many messages a run has sent, for each way it ends.
  abbrev pub Counted : ℕ → Exit × List ℕ × List ConnectionContext → Type 0
  Counted count (finished, sent, conns) =
      (count + length sent ≡ cfg_loop_times) × (idle_count conns ≡ length conns)
  Counted count (send_error, sent, conns) = count + length sent ≤ cfg_loop_times
  Counted count (going, sent, conns) = count + length sent ≤ cfg_loop_times

  Counted-append :
      (count : ℕ) (out : Exit × List ℕ × List ConnectionContext) (now : List ℕ)
      → Counted (count + length now) out
      → Counted count (out.0, now ++ out.1, out.2)
  Counted-append count (finished, sent, conns) now c =
      (omega (arith, c.0, length-append now sent), c.1)
  Counted-append count (send_error, sent, conns) now c = omega (arith, c, length-append now sent)
  Counted-append count (going, sent, conns) now c = omega (arith, c, length-append now sent)

  send_loop-counts :
      (batches : List (List Arrival)) (conns : List ConnectionContext) (count : ℕ) (all : Bool)
      (out : Exit × List ℕ × List ConnectionContext)
      → count ≤ cfg_loop_times
      → all ≡ leb cfg_loop_times count
      → send_loop cfg_loop_times sendto batches conns count all ≡ ok out
      → Counted count out
  unfolding send_loop
  send_loop-counts [] conns count all out le full e =
      let t = send_idle cfg_loop_times sendto conns count all in
      let (sums, below, flag, _) = send_idle-counts conns count all le full in
      let same : (if t.failed then send_error else going, t.sent, t.conn_ctxs) ≡ out =
        ok-injective e in
      subst (Counted count) same (elim (Bool-cases t.failed) [
        | inl fails ↦ rw fails (omega (arith, sums, below))
        | inr sends ↦ rw sends (omega (arith, sums, below))
      ])
  send_loop-counts (batch ∷ batches) conns count all out le full e =
      let t = send_idle cfg_loop_times sendto conns count all in
      let (sums, below, flag, _) = send_idle-counts conns count all le full in
      elim (Bool-cases t.failed) [
        | inl fails ↦
            let same : (send_error, t.sent, t.conn_ctxs) ≡ out =
              ok-injective (rw (fails, send_loop) at e) in
            subst (Counted count) same (omega (arith, sums, below))
        | inr sends ↦ elim (Result-cases (event_base_loop batch t.conn_ctxs)) [
          | inr (why, q) ↦ absurd (ok-fault_ne (sym (rw (sends, q, send_loop) at e)))
          | inl (answered, q) ↦
              elim (Bool-cases (idle_count answered == length answered && t.send_all)) [
                | inl over ↦
                    let same : (finished, t.sent, answered) ≡ out =
                      ok-injective (rw (sends, q, ◌>>=◌, over, send_loop) at e) in
                    subst (Counted count) same
                      (ground (arith, sums, below, flag, over), ground (arith, over))
                | inr on ↦
                    elim (Result-cases
                      (send_loop cfg_loop_times sendto batches answered t.send_count t.send_all)) [
                        | inr (why, q1) ↦
                            absurd
                              (ok-fault_ne (sym (rw (sends, q, ◌>>=◌, on, q1, send_loop) at e)))
                        | inl (out1, q1) ↦
                            let same : (out1.0, t.sent ++ out1.1, out1.2) ≡ out =
                              ok-injective (rw (sends, q, ◌>>=◌, on, q1, send_loop) at e) in
                            subst (Counted count) same (
                              Counted-append count out1 t.sent (
                                subst (λ (n : ℕ). Counted n out1) sums
                                  (send_loop-counts batches answered t.send_count t.send_all out1
                                    below flag q1)))
                      ]
              ]
        ]
      ]

  -- However the datagrams arrive, a client that is to send some messages, at least one, never sends
  -- more. When it returns 0 it has sent exactly as many, and no connection waits for a reply.
  pub send_multiple-counts :
      (dest : Address) (fds : List ℕ) (batches : List (List Arrival))
      (out : Exit × List ℕ × List ConnectionContext)
      → 0 < cfg_loop_times
      → send_multiple cfg_loop_times sendto dest fds batches ≡ ok out
      → Counted 0 out
  unfolding send_multiple
  send_multiple-counts dest fds batches out some_times e =
      send_loop-counts batches (connect dest fds) 0 false out (omega arith)
        (ground (arith, some_times)) e
