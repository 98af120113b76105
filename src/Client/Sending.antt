-- ===== src/Client/Sending.antt =====
-- `Client::one_send` of app/client2.cpp: what a client sends.
use morphling_c.Base.{
  ℕ, zero, suc, Bool, List, [], ◌∷◌, ltb, ◌==◌, if◌then◌else◌, Result, ok, aborted, out_of_range,
  or_fault, guard, ◌>>=◌, ◌>>◌,
}
use morphling_c.Message.{Bytes, ReplicaId, Operation, ClientMessage}
use morphling_c.Guidance.{map_node_id}
use morphling_c.Keys.{calc_key_pos}
use morphling_c.Wire.{pack_get_guidance, pack_operation}
use morphling_c.Client.{Client, reading, writing, is_idle, can_send}

-- What goes out to a replica.
abbrev pub Outgoing : Type 0
Outgoing = ReplicaId × Bytes

abbrev pub request_guidance : ReplicaId → Outgoing
request_guidance id = (id, pack_get_guidance)

-- The loop in `one_send` over the replicas from `id` on, `n` of them.
unfoldable pub request_others : ReplicaId → ReplicaId → ℕ → List Outgoing
request_others rid id zero = []
request_others rid id (suc n) =
    if id == rid
    then request_others rid (suc id) n
    else request_guidance id ∷ request_others rid (suc id) n

-- The options `--ro`, `--ur` and `--nums`.
pub record Options : Type 0 where
  pub is_read : Bool
  pub unreplicated_read : Bool
  pub msg_nums : ℕ

abbrev pub sent_key : ℕ
sent_key = 0x5499

abbrev pub sent_operation : Options → Bytes → Operation
sent_operation cfg value =
    if cfg.is_read
    then record { op_type = 0; key_hash = sent_key; payload = [] }
    else record { op_type = 1; key_hash = sent_key; payload = value }

abbrev pub sent_message : ClientMessage
sent_message = record { epoch = 1; key_hash = sent_key; op = [] }

-- What `one_send` asks for and waits for after it has sent the operation.
unfoldable pub after_send : Options → Client → ReplicaId → Client × List Outgoing
after_send cfg c rid =
    if cfg.unreplicated_read
    then (record c { status = reading }, [])
    else (if cfg.is_read
        then (record c { status = reading }, request_others rid 0 c.max_replica_id)
        else (record c { status = writing }, []))

module _ (pack_op : Operation → Bytes) (pack_msg : ClientMessage → Bytes) where
  -- `one_send` once `can_send` has agreed.
  unfoldable pub send_operation : Options → Client → Result (Client × List Outgoing)
  send_operation cfg c = do
    bytes ← pack_operation pack_op pack_msg (sent_operation cfg c.value) sent_message
    rid ← or_fault (map_node_id c.leading_guidance (calc_key_pos sent_key)) aborted
    guard (ltb rid c.max_replica_id) out_of_range
    let (c', requests) = after_send cfg c rid
    ok (c', (rid, bytes) ∷ requests)

  unfoldable pub one_send : Options → ℕ → Client → Result (Client × ℕ × List Outgoing)
  one_send cfg sent c =
      if is_idle c.status
      then (let (c', sent', agreed) = can_send cfg.msg_nums sent c in
          if agreed
          then (do (c'', out) ← send_operation cfg c'; ok (c'', sent', out))
          else ok (c', sent', []))
      else ok (c, sent, [])
