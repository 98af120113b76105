-- ===== src/UdpClient/Stuck.antt =====
-- A thread of app/client3.cpp whose clients are given fewer addresses than there are ports.
use morphling_c.Base.{
  ℕ, zero, suc, ◌≡◌, ◌≢◌, ◌<◌, inl, inr, refl, sym, ap, subst, ◌∙◌, Bool, true, false, List, [],
  ◌∷◌, ◌++◌, Option, none, some, length, length-set, replicate, get_elem?, get_elem?-set_ne,
  get_elem?_total, get_elem?-some_lt, get_elem?-replicate, set, ok, or_fault, ◌>>=◌, Bool-cases,
  Option-cases, arith,
}
use morphling_c.Message.{Bytes, ReplicaId, ClientReplyMessage}
use morphling_c.Guidance.{Guidance, no_guidance}
use morphling_c.Wire.{
  MessageType, unknown, append, append_reply, client, client_reply, guidance, get_guidance,
}
use morphling_c.Gauge.{Gauge, set_disable}
use morphling_c.Client.{Client, init, set_guidance, has_uniform_guidance}
use morphling_c.Client.Setup.{all_epoch_cases}
use morphling_c.UdpClient.{
  UdpClient, new_client, handle_guidance, handle_client_reply, handle_reply, handle_ur_reply,
}
use morphling_c.UdpClient.Setup.{requests_from, connect}
use morphling_c.UdpClient.Thread.{
  start, start_all, check_setup, Delivery, Loop, ran, failed, no_events, reply_to, deliver,
  deliver_all, setup_loop,
}

-- A client that waits for its setup, and for a replica `k` that it does not hear of.
record Waits (k : ℕ) (u : UdpClient) : Type 0 where
  starts : u.client.status ≡ init
  silent : get_elem? u.client.one_turn_collection k ≡ some no_guidance

abbrev AllWait : ℕ → List UdpClient → Type 0
AllWait k [] = Unit {0}
AllWait k (u ∷ us) = Waits k u × AllWait k us

AllWait-get :
    (k : ℕ) (us : List UdpClient) (i : ℕ)
    → AllWait k us
    → i < length us
    → (u : UdpClient) × (get_elem? us i ≡ some u) × Waits k u
AllWait-get k [] i w lt = absurd (omega arith)
AllWait-get k (u ∷ us) zero w lt = (u, refl, w.0)
AllWait-get k (u ∷ us) (suc i) w lt = AllWait-get k us i w.1 (omega arith)

AllWait-set :
    (k : ℕ) (us : List UdpClient) (i : ℕ) (u : UdpClient)
    → AllWait k us
    → Waits k u
    → AllWait k (set us i u)
AllWait-set k [] i u w w' = tt
AllWait-set k (x ∷ us) zero u w w' = (w', w.1)
AllWait-set k (x ∷ us) (suc i) u w w' = (w.0, AllWait-set k us i u w.1 w')

Waits-set_guidance :
    (k : ℕ) (u : UdpClient) (id : ReplicaId) (guide : Guidance)
    → Waits k u
    → id < k
    → (c : Client) × (set_guidance id guide u.client ≡ ok c) × Waits k (record u { client = c })
unfolding set_guidance
Waits-set_guidance k u id guide w lt =
    let inside = get_elem?-some_lt u.client.one_turn_collection k w.silent in
    (
      record u.client { one_turn_collection = set u.client.one_turn_collection id guide },
      ground (arith, inside, lt),
      record {
        starts = w.starts;
        silent = get_elem?-set_ne u.client.one_turn_collection guide (omega (arith, lt)) ∙ w.silent;
      },
    )

Waits-not_uniform : (k : ℕ) (u : UdpClient) → Waits k u → has_uniform_guidance u.client ≡ ok false
unfolding has_uniform_guidance
Waits-not_uniform k u w =
    let inside = get_elem?-some_lt u.client.one_turn_collection k w.silent in
    let (first, at) = get_elem?_total u.client.one_turn_collection 0 (omega (arith, inside)) in
    elim (all_epoch_cases first.epoch u.client.one_turn_collection) [
      | inr (differ, _) ↦ ground (arith, at, differ)
      | inl (_, all) ↦ ground (arith, at, all k no_guidance w.silent)
    ]

module _ (cast_guidance : Bytes → Guidance) (unpack_reply : Bytes → Option ClientReplyMessage)
    (unreplicated_read : Bool) where
  -- A message for one of `n` clients, from one of `k` channels, whose payload can be unpacked.
  pub record Proper (n k : ℕ) (d : Delivery) : Type 0 where
    pub to_client : d.index < n
    pub of_channel : d.id < k
    pub unpacks : d.type ≡ client_reply → unpack_reply d.msg_buf ≢ none

  abbrev pub AllProper : ℕ → ℕ → List Delivery → Type 0
  AllProper n k [] = Unit {0}
  AllProper n k (d ∷ ds) = Proper n k d × AllProper n k ds

  -- The event loop does not fail, and it brings such messages.
  abbrev pub Turns : ℕ → ℕ → List Loop → Type 0
  Turns n k [] = Unit {0}
  Turns n k (ran ds ∷ turns) = AllProper n k ds × Turns n k turns
  Turns n k (failed ∷ turns) = ⊥
  Turns n k (no_events ∷ turns) = Turns n k turns

  -- A message leaves a client waiting.
  Waits-message :
      (k : ℕ) (u : UdpClient) (now index : ℕ) (id : ReplicaId) (type : MessageType)
      (msg_buf : Bytes)
      → Waits k u
      → id < k
      → (type ≡ client_reply → unpack_reply msg_buf ≢ none)
      → (u' : UdpClient) × (reply_to cast_guidance unpack_reply unreplicated_read
            (record { now = now; index = index; id = id; type = type; msg_buf = msg_buf })
            u
          ≡ ok u')
        × Waits k u'
  unfolding reply_to handle_reply handle_ur_reply handle_guidance handle_client_reply
  Waits-message k u now index id guidance msg_buf w lt unpacks =
      let (c, e, w') = Waits-set_guidance k u id (cast_guidance msg_buf) w lt in
      (
        record u { client = c },
        elim (Bool-cases unreplicated_read) [
          | inl y ↦ rw (y, e, ◌>>=◌) refl
          | inr n ↦ rw (n, e, ◌>>=◌, w'.starts) refl
        ],
        w',
      )
  Waits-message k u now index id client_reply msg_buf w lt unpacks =
      elim (Option-cases (unpack_reply msg_buf)) [
        | inl e ↦ absurd (unpacks refl e)
        | inr (msg, e) ↦ (
          u,
          elim (Bool-cases unreplicated_read) [
            | inl y ↦ ground (arith, y, e, w.starts)
            | inr n ↦ ground (arith, n, e, w.starts)
          ],
          w,
        )
      ]
  Waits-message k u now index id unknown msg_buf w lt unpacks = (
    u,
    elim (Bool-cases unreplicated_read) [ inl y ↦ rw (y, ◌>>=◌) refl | inr n ↦ rw (n, ◌>>=◌) refl ],
    w,
  )
  Waits-message k u now index id append msg_buf w lt unpacks = (
    u,
    elim (Bool-cases unreplicated_read) [ inl y ↦ rw (y, ◌>>=◌) refl | inr n ↦ rw (n, ◌>>=◌) refl ],
    w,
  )
  Waits-message k u now index id append_reply msg_buf w lt unpacks = (
    u,
    elim (Bool-cases unreplicated_read) [ inl y ↦ rw (y, ◌>>=◌) refl | inr n ↦ rw (n, ◌>>=◌) refl ],
    w,
  )
  Waits-message k u now index id client msg_buf w lt unpacks = (
    u,
    elim (Bool-cases unreplicated_read) [ inl y ↦ rw (y, ◌>>=◌) refl | inr n ↦ rw (n, ◌>>=◌) refl ],
    w,
  )
  Waits-message k u now index id get_guidance msg_buf w lt unpacks = (
    u,
    elim (Bool-cases unreplicated_read) [ inl y ↦ rw (y, ◌>>=◌) refl | inr n ↦ rw (n, ◌>>=◌) refl ],
    w,
  )

  deliver_all-wait :
      (ds : List Delivery) (k : ℕ) (us : List UdpClient)
      → AllWait k us
      → AllProper (length us) k ds
      → (us' : List UdpClient) × (deliver_all cast_guidance unpack_reply unreplicated_read ds us
          ≡ ok us')
        × AllWait k us'
        × (length us' ≡ length us)
  unfolding deliver_all deliver
  deliver_all-wait [] k us w p = (us, refl, w, refl)
  deliver_all-wait (d ∷ ds) k us w p =
      let (u, at, here) = AllWait-get k us d.index w p.0.to_client in
      let (u1, e1, w1) =
        Waits-message k u d.now d.index d.id d.type d.msg_buf here p.0.of_channel p.0.unpacks in
      let kept = length-set us d.index u1 in
      let (us', e2, w2, same) =
        deliver_all-wait ds k (set us d.index u1) (AllWait-set k us d.index u1 w w1)
          (subst (λ (n : ℕ). AllProper n k ds) (sym kept) p.1) in
      (us', rw (at, or_fault, ◌>>=◌, e1, e2) refl, w2, same ∙ kept)

  check_setup-wait :
      (k : ℕ) (us : List UdpClient) → AllWait k us → 0 < length us → check_setup us ≡ ok (us, false)
  unfolding check_setup
  check_setup-wait k [] w lt = absurd (omega arith)
  check_setup-wait k (u ∷ us) w lt = rw (Waits-not_uniform k u w.0, ◌>>=◌) refl

  -- The turns are over, and the clients wait.
  setup_loop-wait :
      (turns : List Loop) (k : ℕ) (us : List UdpClient)
      → AllWait k us
      → 0 < length us
      → Turns (length us) k turns
      → (us' : List UdpClient) × ((rest : List Loop)
          → setup_loop cast_guidance unpack_reply unreplicated_read us (turns ++ rest)
            ≡ setup_loop cast_guidance unpack_reply unreplicated_read us' rest)
  unfolding setup_loop
  setup_loop-wait [] k us w some_client t = (us, λ rest. refl)
  setup_loop-wait (no_events ∷ turns) k us w some_client t =
      let (us', e) = setup_loop-wait turns k us w some_client t in
      (us', λ rest. rw (check_setup-wait k us w some_client, ◌>>=◌, e rest) refl)
  setup_loop-wait (ran ds ∷ turns) k us w some_client t =
      let (us1, e1, w1, same) = deliver_all-wait ds k us w t.0 in
      let more : 0 < length us1 = omega (arith, same, some_client) in
      let (us', e) =
        setup_loop-wait turns k us1 w1 more (subst (λ (n : ℕ). Turns n k turns) (sym same) t.1) in
      (us', λ rest. rw (e1, ◌>>=◌, check_setup-wait k us1 w1 more, e rest) refl)
  setup_loop-wait (failed ∷ turns) k us w some_client t = absurd t

start_all-wait :
    (addrs : List Bytes) (ports : List ℕ) (value : Bytes) (gauges : List Gauge)
    → length addrs < length ports
    → (us : List UdpClient) × (start_all addrs ports value gauges
        ≡ ok (us, replicate (length gauges) (requests_from 0 (length addrs))))
      × (length us ≡ length gauges)
      × AllWait (length addrs) us
unfolding start_all start new_client
start_all-wait addrs ports value [] lt = ([], refl, refl, tt)
start_all-wait addrs ports value (gauge ∷ gauges) lt =
    let (u, c) =
      connect addrs ports (new_client value (set_disable true gauge)) (omega (arith, lt)) in
    let (us, e, size, w) = start_all-wait addrs ports value gauges lt in
    (
      u ∷ us,
      rw (c.returns, ◌>>=◌, c.requests, e) refl,
      ap suc size,
      (
        record {
          starts = c.status_kept;
          silent =
              ap (λ (xs : List Guidance). get_elem? xs (length addrs)) c.collection
              ∙ get_elem?-replicate (length ports) (length addrs) no_guidance lt;
        },
        w,
      ),
    )

module _ (cast_guidance : Bytes → Guidance) (unpack_reply : Bytes → Option ClientReplyMessage)
    (unreplicated_read : Bool) where
  -- Let a thread with at least one client be given fewer addresses than there are ports. It sends a
  -- request for guidance to each address from every client. Then, as long as the event loop does not
  -- fail, whatever messages it brings from the channels, with replies that can be unpacked, the loop
  -- of the setup has not ended and nothing faults; and it ends when the event loop fails.
  pub setup_loop-stuck :
      (addrs : List Bytes) (ports : List ℕ) (value : Bytes) (gauges : List Gauge)
      (turns rest : List Loop)
      → length addrs < length ports
      → 0 < length gauges
      → Turns cast_guidance unpack_reply unreplicated_read (length gauges) (length addrs) turns
      → (us us' : List UdpClient) × (start_all addrs ports value gauges
          ≡ ok (us, replicate (length gauges) (requests_from 0 (length addrs))))
        × (setup_loop cast_guidance unpack_reply unreplicated_read us (turns ++ [])
            ≡ ok (us', [], false))
        × (setup_loop cast_guidance unpack_reply unreplicated_read us (turns ++ failed ∷ rest)
            ≡ ok (us', rest, true))
  unfolding setup_loop
  setup_loop-stuck addrs ports value gauges turns rest lt some_client t =
      let (us, e, size, w) = start_all-wait addrs ports value gauges lt in
      let more : 0 < length us = omega (arith, size, some_client) in
      let t' =
        subst (λ (n : ℕ). Turns cast_guidance unpack_reply unreplicated_read n (length addrs) turns)
          (sym size) t in
      let (us', same) =
        setup_loop-wait cast_guidance unpack_reply unreplicated_read turns (length addrs) us w more
          t' in
      (us, us', e, same [], same (failed ∷ rest))
