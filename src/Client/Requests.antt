-- ===== src/Client/Requests.antt =====
-- `one_send` and `handle_reply` (app/client2.cpp): the life of a request.
use morphling_c.Base.{
  ℕ, suc, ◌≡◌, ◌≢◌, ◌≤◌, ◌<◌, ◌↔◌, ◌⊎◌, inl, inr, refl, sym, ap, ◌∙◌, Bool, true, false, List, [],
  ◌∷◌, ◌++◌, ◌%◌, ◌^◌, Option, none, some, length, get_elem?, set, get_elem?-set_self,
  get_elem?-set_ne, length-set, ltb, leb, Result, ok, ok-injective, ok-fault_ne, subst, Fault,
  fault, aborted, out_of_range, or_fault, ◌>>=◌, Bool-cases, arith,
}
use mathlib.Core.Option.{some-injective}
use native.Mathlib.Decide.{ℕ_discrete}
use morphling_c.Message.{Bytes, ReplicaId, Operation, ClientMessage, ClientReplyMessage}
use morphling_c.Guidance.{Guidance, map_node_id}
use morphling_c.Keys.{calc_key_pos}
use morphling_c.Wire.{client, header, pack_operation}
use morphling_c.Client.{
  Client, check_setup, idle, reading, is_idle, can_send, set_guidance, check_guidance_quorum,
  count_epoch, reset_turn_collection, client_reply, handle_reply,
}
use morphling_c.Client.Sending.{
  Outgoing, Options, sent_key, sent_operation, sent_message, after_send, send_operation, one_send,
}
use morphling_c.Client.Quorum.{Below, check_guidance_quorum_lem}
use morphling_c.Client.Setup.{
  AllOf, count_epoch-AllOf, Sized, SetUp, Each, Each-get, check_setup_lem,
}

AllOf-set :
    (e : ℕ) (gs : List Guidance) (id : ℕ) (guide : Guidance)
    → id < length gs
    → AllOf e gs
    → guide.epoch ≡ e
    → AllOf e (set gs id guide)
AllOf-set e gs id guide inside all same j g at = elim (ℕ_discrete id j) [
  | yes here ↦
      ap (λ (x : Guidance). x.epoch)
        (some-injective _ _ (
          sym at
          ∙ ap (get_elem? (set gs id guide)) (sym here)
          ∙ get_elem?-set_self gs id guide inside))
      ∙ same
  | no elsewhere ↦ all j g (sym (get_elem?-set_ne gs guide elsewhere) ∙ at)
]

-- A client that reads, and has the epoch of its leading guidance in all its collection.
handle_reply-full :
    (c : Client) (id : ReplicaId) (msg : ClientReplyMessage)
    → c.status ≡ reading
    → c.leading_guidance.epoch ≢ 0
    → AllOf c.leading_guidance.epoch c.one_turn_collection
    → Sized c
    → 0 < c.quorum
    → id < length c.one_turn_collection
    → msg.guidance.epoch ≡ c.leading_guidance.epoch
    → handle_reply c id (client_reply msg) ≡ ok (record (reset_turn_collection c) { status = idle })
unfolding handle_reply set_guidance reset_turn_collection check_guidance_quorum
handle_reply-full c id msg reads proper all sized some_quorum inside same =
    rw (reads, member, ◌>>=◌, reached)
  where
    heard : List Guidance
    heard = set c.one_turn_collection id msg.guidance

    agrees : AllOf c.leading_guidance.epoch heard
    agrees =
        AllOf-set c.leading_guidance.epoch c.one_turn_collection id msg.guidance inside all same

    verdict :
        (b : Bool) × (check_guidance_quorum (record c { one_turn_collection = heard }) ≡ ok b)
        × ((b ≡ true) ↔ (
            (c.leading_guidance.epoch ≢ 0)
            × Below c.leading_guidance.epoch heard
            × (c.quorum ≤ count_epoch c.leading_guidance.epoch heard)))
    verdict =
        check_guidance_quorum_lem (record c { one_turn_collection = heard }) some_quorum
          (omega (arith, sized.0, length-set c.one_turn_collection id msg.guidance))

    confirmed : verdict.0 ≡ true
    confirmed = verdict.2.1 (
      proper,
      λ j g at. ground (arith, agrees j g at),
      omega (
        arith,
        sized.1,
        count_epoch-AllOf heard c.leading_guidance.epoch agrees,
        length-set c.one_turn_collection id msg.guidance,
      ),
    )

    reached : check_guidance_quorum (record c { one_turn_collection = heard }) ≡ ok true
    reached = verdict.1 ∙ ap ok confirmed

    member : ltb id (length c.one_turn_collection) ≡ true
    member = ground (arith, inside)

module _ (pack_op : Operation → Bytes) (pack_msg : ClientMessage → Bytes) where
  -- An operation has gone out, and something is waited for.
  abbrev pub SentOne : Options → Client → Client → List Outgoing → Type 0
  SentOne cfg c c' out =
      (rid : ReplicaId) × (bytes : Bytes) × (more : List Outgoing) × (out ≡ (rid, bytes) ∷ more)
      × (map_node_id c.leading_guidance (calc_key_pos sent_key) ≡ some rid)
      × (pack_operation pack_op pack_msg (sent_operation cfg c.value) sent_message ≡ ok bytes)
      × (is_idle c'.status ≡ false)
      × (c' ≡ record c { status = c'.status })
      × (more ≡ (after_send cfg c rid).1)
      × (c' ≡ (after_send cfg c rid).0)

  after_send-waits :
      (cfg : Options) (c : Client) (rid : ReplicaId)
      → (is_idle (after_send cfg c rid).0.status ≡ false)
        × ((after_send cfg c rid).0 ≡ record c { status = (after_send cfg c rid).0.status })
  unfolding after_send
  after_send-waits cfg c rid = elim (Bool-cases cfg.unreplicated_read) [
    | inl ur ↦ (rw ur, rw ur)
    | inr replicated ↦ elim (Bool-cases cfg.is_read) [
      | inl read ↦ (rw (replicated, read), rw (replicated, read))
      | inr write ↦ (rw (replicated, write), rw (replicated, write))
    ]
  ]

  -- The operation is too long, or no replica holds the key, or the client does not know that
  -- replica.
  abbrev pub Unsendable : Options → Client → Type 0
  Unsendable cfg c =
      (pack_operation pack_op pack_msg (sent_operation cfg c.value) sent_message ≡ fault aborted)
      ⊎ (map_node_id c.leading_guidance (calc_key_pos sent_key) ≡ none)
      ⊎ ((rid : ReplicaId) × (map_node_id c.leading_guidance (calc_key_pos sent_key) ≡ some rid)
          × (c.max_replica_id ≤ rid))

  abbrev Outcome : Options → Client → Result (Client × List Outgoing) → Type 0
  Outcome cfg c r =
      ((c' : Client) × (out : List Outgoing) × (r ≡ ok (c', out)) × SentOne cfg c c' out)
      ⊎ ((f : Fault) × (r ≡ fault f) × Unsendable cfg c)

  sent_to :
      (cfg : Options) (c : Client) (bytes : Bytes) (owner : Option ℕ)
      → pack_operation pack_op pack_msg (sent_operation cfg c.value) sent_message ≡ ok bytes
      → map_node_id c.leading_guidance (calc_key_pos sent_key) ≡ owner
      → Outcome cfg c (send_operation pack_op pack_msg cfg c)
  unfolding send_operation
  sent_to cfg c bytes none p o = inr (aborted, rw (p, o, or_fault, ◌>>=◌), inr (inl o))
  sent_to cfg c bytes (some rid) p o = elim (Bool-cases (ltb rid c.max_replica_id)) [
    | inl inside ↦
        let w = after_send-waits cfg c rid in
        inl (
          (after_send cfg c rid).0,
          (rid, bytes) ∷ (after_send cfg c rid).1,
          rw (p, o, or_fault, ◌>>=◌, inside),
          (rid, bytes, (after_send cfg c rid).1, refl, o, p, w.0, w.1, refl, refl),
        )
    | inr outside ↦ inr (
      out_of_range,
      rw (p, o, or_fault, ◌>>=◌, outside),
      inr (inr (rid, o, ground (arith, outside))),
    )
  ]

  send_operation_cases :
      (cfg : Options) (c : Client) → Outcome cfg c (send_operation pack_op pack_msg cfg c)
  unfolding send_operation pack_operation
  send_operation_cases cfg c =
      let packed : Bytes =
        pack_msg (record sent_message { op = pack_op (sent_operation cfg c.value) }) in
      elim (Bool-cases (ltb (length packed) 2000)) [
        | inl small ↦
            sent_to cfg c (header client (length packed % 2 ^ 32) ++ packed)
              (map_node_id c.leading_guidance (calc_key_pos sent_key)) (rw (small, ◌>>=◌)) refl
        | inr large ↦ inr (aborted, rw (large, ◌>>=◌), inl (rw (large, ◌>>=◌)))
      ]

  -- One of three things happens in `one_send`. The client is not idle: nothing changes. Or it is
  -- idle, and the clients have sent as many operations as they may: nothing is sent, and the client
  -- notes that it has finished. Or it is idle and one more operation is allowed: then either the
  -- operation cannot be sent and the process ends or reads out of range, because the packed
  -- operation is too long, or no replica or an unknown one holds its key; or the count of the
  -- operations that all clients have sent and the client's own grow by one, the packed operation is
  -- the first thing that goes out, to the replica that the leading guidance maps the key to, and
  -- the client is no longer idle and otherwise as it was.
  pub one_send_cases :
      (cfg : Options) (sent : ℕ) (c : Client)
      → ((is_idle c.status ≡ false) × (one_send pack_op pack_msg cfg sent c ≡ ok (c, sent, [])))
        ⊎ ((is_idle c.status ≡ true)
            × (cfg.msg_nums ≤ sent)
            × (one_send pack_op pack_msg cfg sent c
                ≡ ok (record c { finish_all_msg = true }, suc sent, [])))
        ⊎ ((is_idle c.status ≡ true)
            × (sent < cfg.msg_nums)
            × (((c' : Client) × (out : List Outgoing) × (one_send pack_op pack_msg cfg sent c
                    ≡ ok (c', suc sent, out))
                  × SentOne cfg (record c { send_msg_nums = suc c.send_msg_nums }) c' out)
                ⊎ ((f : Fault) × (one_send pack_op pack_msg cfg sent c ≡ fault f)
                    × Unsendable cfg c)))
  unfolding one_send can_send
  one_send_cases cfg sent c = elim (Bool-cases (is_idle c.status)) [
    | inr busy ↦ inl (busy, rw busy)
    | inl free ↦ elim (Bool-cases (leb (suc sent) cfg.msg_nums)) [
      | inr over ↦ inr (inl (free, ground (arith, over), rw (free, over)))
      | inl under ↦ inr (
          inr (
            free,
            ground (arith, under),
            elim (send_operation_cases cfg (record c { send_msg_nums = suc c.send_msg_nums })) [
              | inl (c', out, e, one) ↦ inl (c', out, rw (free, under, e, ◌>>=◌), one)
              | inr (f, e, why) ↦ inr (f, rw (free, under, e, ◌>>=◌), why)
            ],
          ))
    ]
  ]

  -- A read that is sent.
  read_sent :
      (cfg : Options) (sent : ℕ) (c c' : Client) (sent' : ℕ) (out : List Outgoing)
      → c.status ≡ idle
      → cfg.is_read ≡ true
      → cfg.unreplicated_read ≡ false
      → sent < cfg.msg_nums
      → one_send pack_op pack_msg cfg sent c ≡ ok (c', sent', out)
      → c' ≡ record c { send_msg_nums = suc c.send_msg_nums; status = reading }
  unfolding after_send
  read_sent cfg sent c c' sent' out idles read replicated left sends =
      elim (one_send_cases cfg sent c) [
        | inl (busy, _) ↦ absurd (ground (arith, busy, idles))
        | inr (inl (_, over, _)) ↦ absurd (omega (arith, over, left))
        | inr (inr (_, _, inr (f, e, _))) ↦ absurd (ok-fault_ne (sym sends ∙ e))
        | inr (inr (_, _, inl (c1, out1, e, one))) ↦
            ap (λ (o : Client × ℕ × List Outgoing). o.0) (ok-injective (sym sends ∙ e))
            ∙ one.9
            ∙ rw (replicated, read) refl
      ]

  -- Let every client's collection have room for a quorum, and let `check_setup` let the clients
  -- start. One of them, with a quorum above 0, sends a read that is replicated, while operations are
  -- left, and the next thing that it hears is one reply, from any replica of its collection, with the
  -- epoch of its leading guidance. The reply makes the client idle again, with the read confirmed,
  -- whatever its quorum: what was collected before the read still counts.
  pub handle_reply-unasked :
      (cs cs' : List Client) (i : ℕ) (c c' : Client) (cfg : Options) (sent sent' : ℕ)
      (out : List Outgoing) (id : ReplicaId) (msg : ClientReplyMessage)
      → Each Sized cs
      → check_setup cs ≡ ok (cs', true)
      → get_elem? cs' i ≡ some c
      → 0 < c.quorum
      → cfg.is_read ≡ true
      → cfg.unreplicated_read ≡ false
      → sent < cfg.msg_nums
      → one_send pack_op pack_msg cfg sent c ≡ ok (c', sent', out)
      → id < length c.one_turn_collection
      → msg.guidance.epoch ≡ c.leading_guidance.epoch
      → handle_reply c' id (client_reply msg)
        ≡ ok (record (reset_turn_collection c') { status = idle })
  handle_reply-unasked cs cs' i c c' cfg sent sent' out id msg sized setup at some_quorum read
        replicated left sends inside same =
      let (cs1, b, e, _, ready, kept) = check_setup_lem cs sized in
      let started : (cs1, b) ≡ (cs', true) = ok-injective (sym e ∙ setup) in
      let all_ready : Each SetUp cs' =
        subst (Each SetUp) (ap (λ (o : List Client × Bool). o.0) started)
          (ready (ap (λ (o : List Client × Bool). o.1) started)) in
      let all_sized : Each Sized cs' =
        subst (Each Sized) (ap (λ (o : List Client × Bool). o.0) started) kept in
      let (idles, proper, all) = Each-get SetUp cs' i c all_ready at in
      let room = Each-get Sized cs' i c all_sized at in
      let reading_one : c' ≡ record c { send_msg_nums = suc c.send_msg_nums; status = reading } =
        read_sent cfg sent c c' sent' out idles read replicated left sends in
      subst
        (λ (x : Client).
          handle_reply x id (client_reply msg)
          ≡ ok (record (reset_turn_collection x) { status = idle }))
        (sym reading_one)
        (handle_reply-full (record c { send_msg_nums = suc c.send_msg_nums; status = reading }) id
          msg refl proper all room some_quorum inside same)
