-- ===== src/Message.antt =====
-- core/message.h and the `Entry` of core/smr.h: what replicas and clients send one another.
use morphling_c.Base.{ℕ, Bool, List}
use morphling_c.Guidance.{Guidance}

-- A byte vector. `data` in the source.
abbrev pub Bytes : Type 0
Bytes = List ℕ

pub record Entry : Type 0 where
  pub epoch : ℕ
  pub index : ℕ
  pub payload : Bytes

-- An `int` that names a replica is given by its 32-bit pattern: a negative one is 2 ^ 31 or more.
abbrev pub ReplicaId : Type 0
ReplicaId = ℕ

pub record AppendEntriesMessage : Type 0 where
  pub from : ReplicaId
  pub epoch : ℕ
  pub prev_term : ℕ
  pub prev_index : ℕ
  pub commit : ℕ
  pub group_id : ℕ
  pub entries : List Entry

-- `AppenEntriesReplyMessage`
pub record AppendEntriesReplyMessage : Type 0 where
  pub from : ReplicaId
  pub epoch : ℕ
  pub success : Bool
  pub group_id : ℕ
  pub index : ℕ

-- `op_type` is 0 for a read and 1 for a write.
pub record Operation : Type 0 where
  pub op_type : ℕ
  pub key_hash : ℕ
  pub payload : Bytes

pub record ClientMessage : Type 0 where
  pub epoch : ℕ
  pub key_hash : ℕ
  pub op : Bytes

pub record ClientReplyMessage : Type 0 where
  pub from : ReplicaId
  pub success : Bool
  pub guidance : Guidance
  pub key_hash : ℕ
  pub reply_data : Bytes

pub record GuidanceMessage : Type 0 where
  pub from : ReplicaId
  pub votes : ℕ
  pub guide : Guidance

-- The constructor of a `GenericMessage` fixes its type, and one of its message fields is filled.
pub data Body : Type 0 where
  append : AppendEntriesMessage → Body
  append_reply : AppendEntriesReplyMessage → Body
  client : ClientMessage → Body
  guidance : GuidanceMessage → Body

pub record GenericMessage : Type 0 where
  pub to : ReplicaId
  pub body : Body
