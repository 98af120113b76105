-- ===== src/Client/Thread/Done.antt =====
-- The request loop of a thread (app/client2.cpp): how much it sends, and what holds when it ends.
use morphling_c.Base.{
  get_or, ◌==◌, ℕ, ◌+◌, ◌-◌, ◌≡◌, ◌≤◌, inl, inr, true, false, List, [], ◌∷◌, ◌++◌, length, ok,
  ◌>>=◌, Bool-cases, Option-cases, arith,
}
use morphling_c.Message.{Bytes, Operation, ClientMessage}
use morphling_c.Client.{Client}
use morphling_c.Client.Sending.{Outgoing, Options}
use morphling_c.Client.Thread.{
  Delivery, Loop, ran, failed, no_events, deliver_all, all_idle, Ending, all_done, gave_up, goes_on,
  finished, request_loop,
}
use morphling_c.Client.Thread.Turns.{
  operations, AllReady, total_sent, Turn, send_once, AllReady-later, InRange, deliver_all_lem,
}

-- What other threads take of the shared count meanwhile.
abbrev pub taken_by_others : List Loop → ℕ
taken_by_others [] = 0
taken_by_others (ran others ds ∷ turns) = others + taken_by_others turns
taken_by_others (_ ∷ turns) = taken_by_others turns

module _ (pack_op : Operation → Bytes) (pack_msg : ClientMessage → Bytes) (cfg : Options)
    (n : ℕ) where
  abbrev pub AllInRange : ℕ → List Loop → Type 0
  AllInRange m [] = Unit {0}
  AllInRange m (ran others ds ∷ turns) = InRange pack_op pack_msg cfg n m ds × AllInRange m turns
  AllInRange m (_ ∷ turns) = AllInRange m turns

  operations-append :
      (xs ys : List Outgoing) → operations (xs ++ ys) ≡ operations xs + operations ys
  operations-append [] ys = omega arith
  operations-append ((id, bytes) ∷ xs) ys = elim (Bool-cases (get_or bytes 3 0 == 2)) [
    | inl op ↦ rw op (omega (arith, operations-append xs ys))
    | inr request ↦ rw request (operations-append xs ys)
  ]

  -- How a run of the loop comes out.
  record Ran (sent : ℕ) (cs : List Client) (turns : List Loop) : Type 0 where
    last : List Client
    count : ℕ
    out : List Outgoing
    ending : Ending
    returns : request_loop pack_op pack_msg cfg sent cs turns ≡ ok (last, count, out, ending)
    counted : total_sent last ≡ total_sent cs + operations out
    at_most : total_sent last + (cfg.msg_nums - count) ≤ total_sent cs + (cfg.msg_nums - sent)
    at_least :
        total_sent cs + (cfg.msg_nums - sent)
        ≤ total_sent last + (cfg.msg_nums - count) + taken_by_others turns
    at_end : ending ≡ all_done → (all_idle last ≡ true) × (cfg.msg_nums ≤ count)

  done_signal :
      (sent : ℕ) (cs : List Client) (t : Turn pack_op pack_msg cfg n sent cs)
      → finished pack_op pack_msg t.ready t.after ≡ true
      → (all_idle t.after ≡ true) × (cfg.msg_nums ≤ t.count)
  done_signal sent cs t f = elim (Option-cases t.ready) [
    | inl e ↦ absurd (ground (arith, e, f))
    | inr (c, e) ↦ (ground (arith, e, f), t.signal c e (ground (arith, e, f)))
  ]

  -- The loop ends after a turn.
  stopped :
      (sent : ℕ) (cs : List Client) (turns : List Loop) (t : Turn pack_op pack_msg cfg n sent cs)
      (ending : Ending)
      → request_loop pack_op pack_msg cfg sent cs turns ≡ ok (t.after, t.count, t.out, ending)
      → (ending ≡ all_done → (all_idle t.after ≡ true) × (cfg.msg_nums ≤ t.count))
      → Ran sent cs turns
  stopped sent cs turns t ending e done' = record {
    last = t.after;
    count = t.count;
    out = t.out;
    ending = ending;
    returns = e;
    counted = t.counted;
    at_most = omega (arith, t.kept);
    at_least = omega (arith, t.kept);
    at_end = done';
  }

  -- It goes on after messages have arrived.
  went_on :
      (sent : ℕ) (cs : List Client) (others : ℕ) (ds : List Delivery) (turns : List Loop)
      (t : Turn pack_op pack_msg cfg n sent cs) (cs' : List Client)
      → finished pack_op pack_msg t.ready t.after ≡ false
      → deliver_all cfg t.after ds ≡ ok cs'
      → total_sent cs' ≡ total_sent t.after
      → Ran (t.count + others) cs' turns
      → Ran sent cs (ran others ds ∷ turns)
  unfolding request_loop
  went_on sent cs others ds turns t cs' f e same r = record {
    last = r.last;
    count = r.count;
    out = t.out ++ r.out;
    ending = r.ending;
    returns = rw (t.returns, ◌>>=◌, f, e, r.returns);
    counted = omega (arith, t.counted, r.counted, same, operations-append t.out r.out);
    at_most = omega (arith, t.kept, r.at_most, same);
    at_least = omega (arith, t.kept, r.at_least, same);
    at_end = r.at_end;
  }

  all_over :
      (sent : ℕ) (cs : List Client) (turns : List Loop) (t : Turn pack_op pack_msg cfg n sent cs)
      → finished pack_op pack_msg t.ready t.after ≡ true
      → Ran sent cs turns
  unfolding request_loop
  all_over sent cs [] t f =
      stopped sent cs [] t all_done (rw (t.returns, ◌>>=◌, f)) (λ e. done_signal sent cs t f)
  all_over sent cs (turn ∷ turns) t f =
      stopped sent cs (turn ∷ turns) t all_done (rw (t.returns, ◌>>=◌, f))
        (λ e. done_signal sent cs t f)

  run_loop :
      (turns : List Loop) (sent : ℕ) (cs : List Client)
      → AllReady pack_op pack_msg cfg n sent cs
      → AllInRange (length cs) turns
      → Ran sent cs turns
  unfolding request_loop
  run_loop [] sent cs a h =
      let t = send_once pack_op pack_msg cfg n sent cs a in
      elim (Bool-cases (finished pack_op pack_msg t.ready t.after)) [
        | inl f ↦ all_over sent cs [] t f
        | inr f ↦
            stopped sent cs [] t goes_on (rw (t.returns, ◌>>=◌, f))
              (λ e. absurd (ground (arith, e)))
      ]
  run_loop (failed ∷ turns) sent cs a h =
      let t = send_once pack_op pack_msg cfg n sent cs a in
      elim (Bool-cases (finished pack_op pack_msg t.ready t.after)) [
        | inl f ↦ all_over sent cs (failed ∷ turns) t f
        | inr f ↦
            stopped sent cs (failed ∷ turns) t gave_up (rw (t.returns, ◌>>=◌, f))
              (λ e. absurd (ground (arith, e)))
      ]
  run_loop (no_events ∷ turns) sent cs a h =
      let t = send_once pack_op pack_msg cfg n sent cs a in
      elim (Bool-cases (finished pack_op pack_msg t.ready t.after)) [
        | inl f ↦ all_over sent cs (no_events ∷ turns) t f
        | inr f ↦
            stopped sent cs (no_events ∷ turns) t gave_up (rw (t.returns, ◌>>=◌, f))
              (λ e. absurd (ground (arith, e)))
      ]
  run_loop (ran others ds ∷ turns) sent cs a h =
      let t = send_once pack_op pack_msg cfg n sent cs a in
      elim (Bool-cases (finished pack_op pack_msg t.ready t.after)) [
        | inl f ↦ all_over sent cs (ran others ds ∷ turns) t f
        | inr f ↦
            let (cs', e, all, same, size) =
              deliver_all_lem pack_op pack_msg cfg n t.count ds t.after t.all (rw t.size h.0) in
            went_on sent cs others ds turns t cs' f e same (
              run_loop turns (t.count + others) cs'
                (AllReady-later pack_op pack_msg cfg n t.count (t.count + others) cs' (omega arith)
                  all)
                (rw (size, t.size) h.1))
      ]

  -- A thread whose clients can send their operations, for `n` replicas, runs the request loop, and
  -- every message comes to one of the clients from one of the replicas. The loop does not fault. Among
  -- the messages that go out there are no more operations than were left of `--nums` at its start, and
  -- all of those but at most as many as other threads took meanwhile, if all requests are done at the
  -- end; and then no client waits for a reply.
  pub request_loop-done :
      (turns : List Loop) (sent : ℕ) (cs : List Client)
      → AllReady pack_op pack_msg cfg n sent cs
      → AllInRange (length cs) turns
      → (last : List Client) × (count : ℕ) × (out : List Outgoing) × (ending : Ending)
        × (request_loop pack_op pack_msg cfg sent cs turns ≡ ok (last, count, out, ending))
        × (operations out ≤ cfg.msg_nums - sent)
        × (ending ≡ all_done
            → (all_idle last ≡ true)
              × (cfg.msg_nums - sent ≤ operations out + taken_by_others turns))
  request_loop-done turns sent cs a h =
      let r = run_loop turns sent cs a h in
      (
        r.last,
        r.count,
        r.out,
        r.ending,
        r.returns,
        omega (arith, r.at_most, r.counted),
        λ e. ((r.at_end e).0, omega (arith, r.at_least, r.counted, (r.at_end e).1)),
      )
