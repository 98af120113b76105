-- ===== src/Morphling.antt =====
-- The class `Morphling` of core/morphling.h and core/morphling.cpp: a replica, which routes the
-- keys to its 256 groups, stores the values and answers clients.
pub mod Valid
pub mod Stamping
pub mod Writing
pub mod Accepting
pub mod Serving
pub mod Sending
use morphling_c.Base.{
  ℕ, zero, suc, ◌+◌, Bool, true, false, List, [], ◌∷◌, ◌++◌, map, Option, none, some, Dict, lookup,
  insert, length, ltb, ◌==◌, if◌then◌else◌, get_elem?, set, Result, ok, fault, out_of_range,
  null_pointer, unpack_error, ◌>>=◌, ◌>>◌, guard, or_fault,
}
use morphling_c.Message.{
  Bytes, Entry, ReplicaId, AppendEntriesMessage, AppendEntriesReplyMessage, Operation,
  ClientMessage, ClientReplyMessage, GuidanceMessage, GenericMessage, Body,
}
use morphling_c.Message
use morphling_c.Guidance.{Guidance}
use morphling_c.Keys.{calc_key_pos, default_key_space, init_local_guidance}
use morphling_c.Smr.{Smr, Callback, send_append_entry, send_append_entry_reply, apply}
use morphling_c.Smr

-- A connection: where a `Transport` of core/transport.h sends to.
abbrev pub Transport : Type 0
Transport = ℕ

-- The overloads of `Transport::send` that a replica calls.
pub data Packet : Type 0 where
  append : AppendEntriesMessage → Packet
  append_reply : AppendEntriesReplyMessage → Packet
  client_reply : ClientReplyMessage → Packet
  guidance : GuidanceMessage → Packet

abbrev pub Send : Type 0
Send = Transport × Packet

pub record Morphling : Type 0 where
  pub guide : Guidance
  pub me : ReplicaId
  pub peers : List ReplicaId
  pub smrs : List Smr
  pub next_msgs : List GenericMessage
  pub apply_entries : List Entry
  pub client_pendings : Dict Transport
  pub storage : Dict Bytes

-- The groups from `gid` on, `n` of them.
unfoldable pub init_groups : ReplicaId → List ReplicaId → ℕ → ℕ → List Smr
init_groups me peers gid zero = []
init_groups me peers gid (suc n) = Smr.init me peers gid ∷ init_groups me peers (suc gid) n

-- The constructor.
pub init : ReplicaId → List ReplicaId → Result Morphling
init id peers = do
  guide ← init_local_guidance peers default_key_space
  ok (record {
    guide = guide;
    me = id;
    peers = peers;
    smrs = init_groups id peers 0 default_key_space;
    next_msgs = [];
    apply_entries = [];
    client_pendings = [];
    storage = [];
  })

-- The callbacks that the constructor gives to the groups.
pub run_callback : Morphling → Callback → Morphling
run_callback m (send_append_entry msg) = record m { next_msgs = m.next_msgs ++ msg ∷ [] }
run_callback m (send_append_entry_reply msg) = record m { next_msgs = m.next_msgs ++ msg ∷ [] }
run_callback m (apply entries) = record m { apply_entries = m.apply_entries ++ entries }

pub run_callbacks : Morphling → List Callback → Morphling
run_callbacks m [] = m
run_callbacks m (c ∷ cs) = run_callbacks (run_callback m c) cs

pub is_valid_guidance : Morphling → ℕ → Bool
is_valid_guidance m epoch = m.guide.epoch == epoch

pub guidance_message : Morphling → GuidanceMessage
guidance_message m = record { from = m.me; votes = 3; guide = m.guide }

-- `reply_guidance(int id)`
pub reply_guidance : Morphling → ReplicaId → Morphling
reply_guidance m id = record m {
  next_msgs = m.next_msgs ++ record { to = id; body = Message.guidance (guidance_message m) } ∷ [];
}

-- `reply_guidance(std::unique_ptr<Transport> &&trans)`
pub send_guidance : Morphling → Transport → List Send
send_guidance m trans = (trans, guidance (guidance_message m)) ∷ []

-- The body of the loop in `prepare_msgs`.
pub stamp : ReplicaId → ℕ → Body → Body
stamp me epoch (Body.append msg) = Body.append (record msg { from = me; epoch = epoch })
stamp me epoch (Body.append_reply msg) = Body.append_reply (record msg { from = me; epoch = epoch })
stamp me epoch (Body.client msg) = Body.client msg
stamp me epoch (Body.guidance msg) = Body.guidance msg

pub stamp_all : ReplicaId → ℕ → List GenericMessage → List GenericMessage
stamp_all me epoch [] = []
stamp_all me epoch (msg ∷ msgs) =
    record msg { body = stamp me epoch msg.body } ∷ stamp_all me epoch msgs

pub prepare_msgs : Morphling → Morphling
prepare_msgs m = record m { next_msgs = stamp_all m.me m.guide.epoch m.next_msgs }

-- A group after one of its methods has run: its state, and the effects of its callbacks.
pub put_group : Morphling → ℕ → Smr → List Callback → Morphling
put_group m gid s cs = run_callbacks (record m { smrs = set m.smrs gid s }) cs

-- `m_storage[key]`: a missing key reads as no bytes, and is made.
unfoldable pub stored : ℕ → Dict Bytes → Bytes
stored key storage = elim (lookup key storage) [ none ↦ [] | some bytes ↦ bytes ]

pub read_storage : ℕ → Dict Bytes → Dict Bytes
read_storage key storage = insert key (stored key storage) storage

pub client_reply_of : Morphling → ℕ → Bytes → ClientReplyMessage
client_reply_of m key_hash reply_data = record {
  from = m.me;
  success = true;
  guidance = m.guide;
  key_hash = key_hash;
  reply_data = reply_data;
}

pub handle_read : Morphling → ClientMessage → Transport → Morphling × List Send
handle_read m msg trans = (
  record m { storage = read_storage msg.key_hash m.storage },
  (trans, client_reply (client_reply_of m msg.key_hash (stored msg.key_hash m.storage))) ∷ [],
)

pub handle_write : Morphling → ClientMessage → Transport → Result (Morphling × List Send)
handle_write m msg trans = do
  let gid = calc_key_pos msg.key_hash
  smr ← or_fault (get_elem? m.smrs gid) out_of_range
  (smr', cs, new_idx) ← Smr.handle_operation smr msg
  let m' = put_group m gid smr' cs
  ok (prepare_msgs (record m' { client_pendings = insert new_idx trans m'.client_pendings }), [])

pub handle_append_entries : Morphling → AppendEntriesMessage → ReplicaId → Result Morphling
handle_append_entries m msg from =
    if is_valid_guidance m msg.epoch
    then (do
      -- The log line reads `entries[0]`.
      guard (ltb 0 (length msg.entries)) out_of_range
      smr ← or_fault (get_elem? m.smrs msg.group_id) out_of_range
      (smr', cs) ← Smr.handle_append_entries smr msg from
      ok (prepare_msgs (put_group m msg.group_id smr' cs)))
    else ok (reply_guidance m from)

pub handle_append_entries_reply :
    Morphling → AppendEntriesReplyMessage → ReplicaId → Result Morphling
handle_append_entries_reply m msg from =
    if is_valid_guidance m msg.epoch
    then (do
      smr ← or_fault (get_elem? m.smrs msg.group_id) out_of_range
      (smr', cs) ← Smr.handle_append_entries_reply smr msg from
      ok (prepare_msgs (put_group m msg.group_id smr' cs)))
    else ok (reply_guidance m from)

-- The switch in `bcast_msgs`. The log line of an entries message reads `entries[0]`.
pub bcast_msg : Option Transport → Body → Result (List Send)
bcast_msg trans (Body.append msg) = do
  guard (ltb 0 (length msg.entries)) out_of_range
  t ← or_fault trans null_pointer
  ok ((t, append msg) ∷ [])
bcast_msg trans (Body.append_reply msg) = do
  t ← or_fault trans null_pointer
  ok ((t, append_reply msg) ∷ [])
bcast_msg trans (Body.guidance msg) = do
  t ← or_fault trans null_pointer
  ok ((t, guidance msg) ∷ [])
bcast_msg trans (Body.client msg) = ok []

pub bcast_all : Dict Transport → List GenericMessage → Result (List Send)
bcast_all peers_trans [] = ok []
bcast_all peers_trans (msg ∷ msgs) = do
  sent ← bcast_msg (lookup msg.to peers_trans) msg.body
  more ← bcast_all peers_trans msgs
  ok (sent ++ more)

pub bcast_msgs : Morphling → Dict Transport → Result (Morphling × List Send)
bcast_msgs m peers_trans = do
  sent ← bcast_all peers_trans m.next_msgs
  ok (record m { next_msgs = [] }, sent)

-- What an operation does to the storage, and the bytes that it returns.
pub apply_operation : Operation → Dict Bytes → Dict Bytes × Bytes
apply_operation op storage =
    if op.op_type == 1
    then (insert op.key_hash op.payload storage, [])
    else (read_storage op.key_hash storage, stored op.key_hash storage)

-- `msgpack::unpack` and `convert` to an `Operation`; `none` is an exception.
module _ (unpack : Bytes → Option Operation) where
  pub parse_operation : Bytes → Result Operation
  parse_operation bytes = or_fault (unpack bytes) unpack_error

  pub handle_operation : Morphling → ClientMessage → Transport → Result (Morphling × List Send)
  handle_operation m msg trans =
      if is_valid_guidance m msg.epoch
      then (do
        op ← parse_operation msg.op
        if op.op_type == 0 then ok (handle_read m msg trans) else handle_write m msg trans)
      else ok (m, send_guidance m trans)

  -- The body of the loop in `maybe_apply`.
  pub apply_entry : Morphling → Entry → Result (Morphling × List Send)
  apply_entry m e = do
    op ← parse_operation e.payload
    trans ← or_fault (lookup e.index m.client_pendings) null_pointer
    let (storage, reply_data) = apply_operation op m.storage
    ok (
      record m { storage = storage },
      (trans, client_reply (client_reply_of m op.key_hash reply_data)) ∷ [],
    )

  pub apply_all : Morphling → List Entry → Result (Morphling × List Send)
  apply_all m [] = ok (m, [])
  apply_all m (e ∷ es) = do
    (m', sent) ← apply_entry m e
    (m'', more) ← apply_all m' es
    ok (m'', sent ++ more)

  pub maybe_apply : Morphling → Result (Morphling × List Send)
  maybe_apply m = do
    (m', sent) ← apply_all m m.apply_entries
    ok (record m' { apply_entries = [] }, sent)
