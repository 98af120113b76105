-- ===== src/Client/Thread/Turns.antt =====
-- One turn of the request loop (app/client2.cpp): a client sends, and messages arrive.
use morphling_c.Base.{
  ℕ, zero, suc, ◌+◌, ◌-◌, ◌≡◌, ◌≤◌, ◌<◌, inl, inr, refl, ap, ◌∙◌, true, List, [], ◌∷◌, Option, none,
  some, length, length-set, set, ltb, sym, ok-injective, ok-fault_ne, ◌++◌, ◌%◌, ◌^◌, get_or,
  if◌then◌else◌, ◌==◌, get_elem?, get_elem?_total, ok, or_fault, ◌>>=◌, Bool-cases, subst, arith,
}
use mathlib.Core.Option.{some-injective}
use morphling_c.Message.{ReplicaId, Bytes, Operation, ClientMessage}
use morphling_c.Client.{Client, is_idle}
use morphling_c.Client.Sending.{Outgoing, Options, request_others, after_send, one_send}
use morphling_c.Wire.{client, header, pack_get_guidance, pack_operation, type_byte}
use morphling_c.Client.Requests.{SentOne, Unsendable, one_send_cases}
use morphling_c.Client.Thread.{Delivery, deliver, deliver_all, send_ready}
use morphling_c.Client.Thread.Keeps.{Fit, callback-Keeps}

-- The operations that the clients have sent.
abbrev pub total_sent : List Client → ℕ
total_sent [] = 0
total_sent (c ∷ cs) = c.send_msg_nums + total_sent cs

-- How many of the messages that go out are operations: the fourth byte is the type, 2 for a client's
-- message.
abbrev pub operations : List Outgoing → ℕ
operations [] = 0
operations ((id, bytes) ∷ out) =
    let rest = operations out in if get_or bytes 3 0 == 2 then suc rest else rest

-- The requests for guidance are none.
operations-request_others : (rid id : ReplicaId) (n : ℕ) → operations (request_others rid id n) ≡ 0
unfolding request_others pack_get_guidance type_byte
operations-request_others rid id zero = refl
operations-request_others rid id (suc n) = elim (Bool-cases (id == rid)) [
  | inl own ↦ rw own (operations-request_others rid (suc id) n)
  | inr other ↦ rw other (operations-request_others rid (suc id) n)
]

operations-after_send :
    (cfg : Options) (c : Client) (rid : ReplicaId) → operations (after_send cfg c rid).1 ≡ 0
unfolding after_send
operations-after_send cfg c rid = ground (arith, operations-request_others rid 0 c.max_replica_id)

pack_operation-typed :
    (pack_op : Operation → Bytes) (pack_msg : ClientMessage → Bytes) (op : Operation)
    (msg : ClientMessage) (bytes : Bytes)
    → pack_operation pack_op pack_msg op msg ≡ ok bytes
    → get_or bytes 3 0 ≡ 2
unfolding pack_operation type_byte
pack_operation-typed pack_op pack_msg op msg bytes e =
    let packed = pack_msg (record msg { op = pack_op op }) in
    elim (Bool-cases (ltb (length packed) 2000)) [
      | inl small ↦
          let same : header client (length packed % 2 ^ 32) ++ packed ≡ bytes =
            ok-injective (rw (small, ◌>>=◌, pack_operation) at e) in
          ap (λ (b : Bytes). get_or b 3 0) (sym same)
      | inr large ↦ absurd (ok-fault_ne (sym (rw (large, ◌>>=◌, pack_operation) at e)))
    ]

module _ (pack_op : Operation → Bytes) (pack_msg : ClientMessage → Bytes) (cfg : Options)
    (n : ℕ) where
  -- A client that can send its operation, if it is its turn.
  pub record Ready (sent : ℕ) (c : Client) : Type 0 where
    pub fit : Fit n c
    pub sendable : ¬ Unsendable pack_op pack_msg cfg c
    pub flagged : c.finish_all_msg ≡ true → cfg.msg_nums ≤ sent

  abbrev pub AllReady : ℕ → List Client → Type 0
  AllReady sent [] = Unit {0}
  AllReady sent (c ∷ cs) = Ready sent c × AllReady sent cs

  Ready-later : (sent count : ℕ) (c : Client) → sent ≤ count → Ready sent c → Ready count c
  Ready-later sent count c le r = record {
    fit = r.fit;
    sendable = r.sendable;
    flagged = λ f. omega (arith, r.flagged f, le);
  }

  pub AllReady-later :
      (sent count : ℕ) (cs : List Client) → sent ≤ count → AllReady sent cs → AllReady count cs
  AllReady-later sent count [] le a = tt
  AllReady-later sent count (c ∷ cs) le a =
      (Ready-later sent count c le a.0, AllReady-later sent count cs le a.1)

  -- What is left to be sent, with what has been sent, stays.
  abbrev pub budget : ℕ → List Client → ℕ
  budget sent cs = total_sent cs + (cfg.msg_nums - sent)

  -- One call of `one_send` of an idle client.
  record SentBy (sent : ℕ) (c : Client) : Type 0 where
    after : Client
    count : ℕ
    out : List Outgoing
    returns : one_send pack_op pack_msg cfg sent c ≡ ok (after, count, out)
    ready : Ready count after
    grows : sent ≤ count
    counted : after.send_msg_nums ≡ c.send_msg_nums + operations out
    kept : after.send_msg_nums + (cfg.msg_nums - count) ≡ c.send_msg_nums + (cfg.msg_nums - sent)

  -- One operation goes out, with the requests behind it.
  operations-sent :
      (c c' : Client) (out : List Outgoing)
      → SentOne pack_op pack_msg cfg c c' out
      → operations out ≡ 1
  operations-sent c c' out (rid, bytes, more, e, owner, packed, waits, same, requests, _) =
      let typed : get_or bytes 3 0 ≡ 2 = pack_operation-typed pack_op pack_msg _ _ bytes packed in
      rw (e, typed, requests) (ap suc (operations-after_send cfg c rid))

  send_one : (sent : ℕ) (c : Client) → Ready sent c → is_idle c.status ≡ true → SentBy sent c
  send_one sent c r free = elim (one_send_cases pack_op pack_msg cfg sent c) [
    | inl (busy, _) ↦ absurd (ground (arith, busy, free))
    | inr (inl (_, over, e)) ↦ record {
      after = record c { finish_all_msg = true };
      count = suc sent;
      out = [];
      returns = e;
      ready = record {
        fit = record {
          replicas = r.fit.replicas;
          collected = r.fit.collected;
          some_quorum = r.fit.some_quorum;
        };
        sendable = r.sendable;
        flagged = λ f. omega (arith, over);
      };
      grows = omega arith;
      counted = omega arith;
      kept = omega (arith, over);
    }
    | inr (inr (_, under, inr (f, e, why))) ↦ absurd (r.sendable why)
    | inr (inr (_, under, inl (c', out, e, one))) ↦ record {
      after = record c { send_msg_nums = suc c.send_msg_nums; status = c'.status };
      count = suc sent;
      out = out;
      returns = e ∙ ap (λ (x : Client). ok (x, suc sent, out)) one.7;
      ready = record {
        fit = record {
          replicas = r.fit.replicas;
          collected = r.fit.collected;
          some_quorum = r.fit.some_quorum;
        };
        sendable = r.sendable;
        flagged = λ f. absurd (omega (arith, under, r.flagged f));
      };
      grows = omega arith;
      counted =
          omega
            (arith, operations-sent (record c { send_msg_nums = suc c.send_msg_nums }) c' out one);
      kept = omega (arith, under);
    }
  ]

  -- One turn of `one_ready_client` and `one_send`.
  pub record Turn (sent : ℕ) (cs : List Client) : Type 0 where
    pub after : List Client
    pub count : ℕ
    pub ready : Option Client
    pub out : List Outgoing
    pub returns : send_ready pack_op pack_msg cfg sent cs ≡ ok (after, count, ready, out)
    pub all : AllReady count after
    pub grows : sent ≤ count
    pub counted : total_sent after ≡ total_sent cs + operations out
    pub kept : budget count after ≡ budget sent cs
    pub size : length after ≡ length cs
    pub signal : (c : Client) → ready ≡ some c → c.finish_all_msg ≡ true → cfg.msg_nums ≤ count

  pub send_once : (sent : ℕ) (cs : List Client) → AllReady sent cs → Turn sent cs
  unfolding send_ready
  send_once sent [] a = record {
    after = [];
    count = sent;
    ready = none;
    out = [];
    returns = refl;
    all = tt;
    grows = omega arith;
    counted = omega arith;
    kept = refl;
    size = refl;
    signal = λ c e. cc;
  }
  send_once sent (c ∷ cs) a = elim (Bool-cases (is_idle c.status)) [
    | inl free ↦
        let s = send_one sent c a.0 free in
        record {
          after = s.after ∷ cs;
          count = s.count;
          ready = some s.after;
          out = s.out;
          returns = rw (free, s.returns, ◌>>=◌);
          all = (s.ready, AllReady-later sent s.count cs s.grows a.1);
          grows = s.grows;
          counted = omega (arith, s.counted);
          kept = omega (arith, s.kept);
          size = refl;
          signal = λ x e f.
              s.ready.flagged (ap (λ (y : Client). y.finish_all_msg) (some-injective _ _ e) ∙ f);
        }
    | inr busy ↦
        let t = send_once sent cs a.1 in
        record {
          after = c ∷ t.after;
          count = t.count;
          ready = t.ready;
          out = t.out;
          returns = rw (busy, t.returns, ◌>>=◌);
          all = (Ready-later sent t.count c t.grows a.0, t.all);
          grows = t.grows;
          counted = omega (arith, t.counted);
          kept = omega (arith, t.kept);
          size = ap suc t.size;
          signal = t.signal;
        }
  ]

  -- Every message comes on a connection of one of `m` clients to one of the replicas.
  abbrev pub InRange : ℕ → List Delivery → Type 0
  InRange m [] = Unit {0}
  InRange m ((i, id, msg) ∷ ds) = (i < m) × (id < n) × InRange m ds

  AllReady-get :
      (sent i : ℕ) (cs : List Client) (c : Client)
      → AllReady sent cs
      → get_elem? cs i ≡ some c
      → Ready sent c
  AllReady-get sent i [] c a e = cc
  AllReady-get sent zero (x ∷ cs) c a e = subst (Ready sent) (some-injective _ _ e) a.0
  AllReady-get sent (suc i) (x ∷ cs) c a e = AllReady-get sent i cs c a.1 e

  -- A client replaced by one that has sent as much.
  AllReady-set :
      (sent i : ℕ) (cs : List Client) (c c' : Client)
      → AllReady sent cs
      → get_elem? cs i ≡ some c
      → Ready sent c'
      → c'.send_msg_nums ≡ c.send_msg_nums
      → AllReady sent (set cs i c') × (total_sent (set cs i c') ≡ total_sent cs)
  AllReady-set sent i [] c c' a e r same = cc
  AllReady-set sent zero (x ∷ cs) c c' a e r same =
      ((r, a.1), omega (arith, same, ap (λ (y : Client). y.send_msg_nums) (some-injective _ _ e)))
  AllReady-set sent (suc i) (x ∷ cs) c c' a e r same =
      let (all, total) = AllReady-set sent i cs c c' a.1 e r same in
      ((a.0, all), omega (arith, total))

  deliver_one :
      (sent : ℕ) (cs : List Client) (d : Delivery)
      → AllReady sent cs
      → d.0 < length cs
      → d.1 < n
      → (cs' : List Client) × (deliver cfg cs d ≡ ok cs')
        × AllReady sent cs'
        × (total_sent cs' ≡ total_sent cs)
        × (length cs' ≡ length cs)
  unfolding deliver
  deliver_one sent cs (i, id, msg) a lt inside =
      let (c, at) = get_elem?_total cs i lt in
      let r = AllReady-get sent i cs c a at in
      let (col, st, e, size) = callback-Keeps n c r.fit id inside cfg.unreplicated_read msg in
      let c' : Client = record c { one_turn_collection = col; status = st } in
      let r' : Ready sent c' = record {
        fit = record {
          replicas = r.fit.replicas;
          collected = size;
          some_quorum = r.fit.some_quorum;
        };
        sendable = r.sendable;
        flagged = r.flagged;
      } in
      let (all, total) = AllReady-set sent i cs c c' a at r' refl in
      (set cs i c', rw (at, or_fault, ◌>>=◌, e), all, total, length-set cs i c')

  pub deliver_all_lem :
      (sent : ℕ) (ds : List Delivery) (cs : List Client)
      → AllReady sent cs
      → InRange (length cs) ds
      → (cs' : List Client) × (deliver_all cfg cs ds ≡ ok cs')
        × AllReady sent cs'
        × (total_sent cs' ≡ total_sent cs)
        × (length cs' ≡ length cs)
  unfolding deliver_all
  deliver_all_lem sent [] cs a h = (cs, refl, a, refl, refl)
  deliver_all_lem sent (d ∷ ds) cs a h =
      let (cs1, e1, a1, t1, l1) = deliver_one sent cs d a h.0 h.1 in
      let (cs2, e2, a2, t2, l2) = deliver_all_lem sent ds cs1 a1 (rw l1 h.2) in
      (cs2, rw (e1, ◌>>=◌, e2), a2, t2 ∙ t1, l2 ∙ l1)
