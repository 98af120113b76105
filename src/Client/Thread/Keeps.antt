-- ===== src/Client/Thread/Keeps.antt =====
-- What a message leaves of a client (app/client2.cpp) in the loops of a thread.
use morphling_c.Base.{
  ℕ, ◌≡◌, ◌<◌, inl, inr, refl, ◌∙◌, Bool, true, false, List, length, length-set, length-replicate,
  set, replicate, if◌then◌else◌, Result, ok, Bool-cases, arith,
}
use morphling_c.Message.{ReplicaId, ClientReplyMessage}
use morphling_c.Guidance.{Guidance, no_guidance}
use morphling_c.Client.{
  Client, Status, reading, waiting_guidance, writing, idle, Reply, guidance, client_reply, other,
  set_guidance, check_guidance_quorum, reset_turn_collection, handle_reply, handle_ur_reply,
}
use morphling_c.Client.Quorum.{check_guidance_quorum_lem}

-- A client of `n` replicas after a message: only what it collected and its status have changed.
abbrev pub Keeps : ℕ → Client → Result Client → Type 0
Keeps n c r =
    (col : List Guidance) × (st : Status) × (r
      ≡ ok (record c { one_turn_collection = col; status = st }))
    × (length col ≡ n)

pub record Fit (n : ℕ) (c : Client) : Type 0 where
  pub replicas : c.max_replica_id ≡ n
  pub collected : length c.one_turn_collection ≡ n
  pub some_quorum : 0 < c.quorum

module _ (n : ℕ) (c : Client) (fit : Fit n c) (id : ReplicaId) (lt : id < n) where
  abbrev heard : Guidance → Client
  heard guide = record c { one_turn_collection = set c.one_turn_collection id guide }

  set_guidance_lem : (guide : Guidance) → set_guidance id guide c ≡ ok (heard guide)
  unfolding set_guidance
  set_guidance_lem guide = ground (arith, fit.collected, lt)

  heard_size : (guide : Guidance) → length (heard guide).one_turn_collection ≡ n
  heard_size guide = length-set c.one_turn_collection id guide ∙ fit.collected

  quorum_total : (guide : Guidance) → (b : Bool) × (check_guidance_quorum (heard guide) ≡ ok b)
  quorum_total guide =
      let (b, e, _) =
        check_guidance_quorum_lem (heard guide) fit.some_quorum
          (omega (arith, heard_size guide, lt)) in
      (b, e)

  reset_size : (length (reset_turn_collection c).one_turn_collection) ≡ n
  unfolding reset_turn_collection
  reset_size = length-replicate c.max_replica_id no_guidance ∙ fit.replicas

  guidance-Keeps : (guide : Guidance) → Keeps n c (handle_reply c id (guidance guide))
  unfolding handle_reply reset_turn_collection
  guidance-Keeps guide = go c.status refl
    where
      go : (s : Status) → c.status ≡ s → Keeps n c (handle_reply c id (guidance guide))
      go waiting_guidance e =
          let (b, q) = quorum_total guide in
          elim (Bool-cases b) [
            | inl reached ↦ (
              replicate c.max_replica_id no_guidance,
              idle,
              ground (arith, set_guidance_lem guide, e, q, reached),
              reset_size,
            )
            | inr short ↦ (
              set c.one_turn_collection id guide,
              waiting_guidance,
              ground (arith, set_guidance_lem guide, e, q, short),
              heard_size guide,
            )
          ]
      go s e = (
        set c.one_turn_collection id guide,
        s,
        ground (arith, set_guidance_lem guide, e),
        heard_size guide,
      )

  reply-Keeps : (msg : ClientReplyMessage) → Keeps n c (handle_reply c id (client_reply msg))
  unfolding handle_reply reset_turn_collection
  reply-Keeps msg = go c.status refl
    where
      go : (s : Status) → c.status ≡ s → Keeps n c (handle_reply c id (client_reply msg))
      go reading e =
          let (b, q) = quorum_total msg.guidance in
          elim (Bool-cases b) [
            | inl reached ↦ (
              replicate c.max_replica_id no_guidance,
              idle,
              ground (arith, set_guidance_lem msg.guidance, e, q, reached),
              reset_size,
            )
            | inr short ↦ (
              set c.one_turn_collection id msg.guidance,
              waiting_guidance,
              ground (arith, set_guidance_lem msg.guidance, e, q, short),
              heard_size msg.guidance,
            )
          ]
      go writing e = (replicate c.max_replica_id no_guidance, idle, ground (arith, e), reset_size)
      go s e = (c.one_turn_collection, s, ground (arith, e), fit.collected)

  ur_reply-Keeps : (msg : ClientReplyMessage) → Keeps n c (handle_ur_reply c id (client_reply msg))
  unfolding handle_ur_reply
  ur_reply-Keeps msg = go c.status refl
    where
      go : (s : Status) → c.status ≡ s → Keeps n c (handle_ur_reply c id (client_reply msg))
      go reading e = (c.one_turn_collection, idle, ground (arith, e), fit.collected)
      go s e = (c.one_turn_collection, s, ground (arith, e), fit.collected)

  -- Either handler, of any message.
  pub callback-Keeps :
      (ur : Bool) (msg : Reply)
      → Keeps n c (if ur then handle_ur_reply c id msg else handle_reply c id msg)
  unfolding handle_reply handle_ur_reply
  callback-Keeps false (guidance guide) = guidance-Keeps guide
  callback-Keeps false (client_reply msg) = reply-Keeps msg
  callback-Keeps false other = (c.one_turn_collection, c.status, refl, fit.collected)
  callback-Keeps true (guidance guide) =
      (set c.one_turn_collection id guide, c.status, set_guidance_lem guide, heard_size guide)
  callback-Keeps true (client_reply msg) = ur_reply-Keeps msg
  callback-Keeps true other = (c.one_turn_collection, c.status, refl, fit.collected)
