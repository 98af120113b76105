-- ===== src/Cluster.antt =====
-- The groups of one key range on all replicas (core/smr.cpp), and the callbacks that they have made
-- for one another: a leader that takes operations, and followers. What a group hands over to be
-- sent stays there, so a message arrives never, once or many times, and in any order.
pub mod Carried
pub mod Votes
pub mod Following
pub mod Sound
pub mod Leading
pub mod Acknowledging
pub mod Answering
pub mod Steps
pub mod Agreement
pub mod Progress
use morphling_c.Base.{ℕ, ◌≡◌, List, [], ◌++◌, map, length, ◌==◌, if◌then◌else◌, Result, ok}
use mathlib.Core.List.{Memᴰ}
use morphling_c.Message.{
  ReplicaId, AppendEntriesMessage, AppendEntriesReplyMessage, ClientMessage, append, append_reply,
}
use morphling_c.Smr.{
  Smr, Callback, send_append_entry, send_append_entry_reply, init, handle_operation,
  handle_append_entries, handle_append_entries_reply,
}

-- A callback, with the replica whose group made it.
abbrev pub Posted : Type 0
Posted = ReplicaId × Callback

pub record Cluster : Type 0 where
  pub leader : Smr
  pub followers : ReplicaId → Smr
  pub posted : List Posted

abbrev pub post : ReplicaId → List Callback → List Posted → List Posted
post from cs ps = map (λ (c : Callback). (from, c)) cs ++ ps

abbrev pub with_follower : ReplicaId → Smr → (ReplicaId → Smr) → ReplicaId → Smr
with_follower id f fs x = if x == id then f else fs x

-- The group of a replica.
abbrev pub replica : Cluster → ReplicaId → Smr
replica c id = if id == c.leader.me then c.leader else c.followers id

abbrev pub entries_to : ReplicaId → AppendEntriesMessage → Callback
entries_to to msg = send_append_entry (record { to = to; body = append msg })

abbrev pub answer_to : ReplicaId → AppendEntriesReplyMessage → Callback
answer_to to msg = send_append_entry_reply (record { to = to; body = append_reply msg })

-- New groups, with the same peers.
abbrev pub start : ReplicaId → List ReplicaId → ℕ → Cluster
start me peers gid = record {
  leader = init me peers gid;
  followers = λ id. init id peers gid;
  posted = [];
}

-- A step of the cluster is one call of a handler: the leader's of an operation, a follower's of a
-- message that was posted to it, or the leader's of a reply that was posted to it.
pub data Step (c c' : Cluster) : Type 0 where
  propose :
      (msg : ClientMessage) (s' : Smr) (cs : List Callback) (index : ℕ)
      → handle_operation c.leader msg ≡ ok (s', cs, index)
      → c' ≡ record c { leader = s'; posted = post c.leader.me cs c.posted }
      → Step c c'
  deliver :
      (from to : ReplicaId) (msg : AppendEntriesMessage) (f' : Smr) (cs : List Callback)
      → Memᴰ (from, entries_to to msg) c.posted
      → handle_append_entries (c.followers to) msg from ≡ ok (f', cs)
      → c' ≡ record c { followers = with_follower to f' c.followers; posted = post to cs c.posted }
      → Step c c'
  acknowledge :
      (from : ReplicaId) (msg : AppendEntriesReplyMessage) (s' : Smr) (cs : List Callback)
      → Memᴰ (from, answer_to c.leader.me msg) c.posted
      → handle_append_entries_reply c.leader msg from ≡ ok (s', cs)
      → c' ≡ record c { leader = s'; posted = post c.leader.me cs c.posted }
      → Step c c'

-- The clusters that a run gets to.
pub data Reach (c : Cluster) : Cluster → Type 0 where
  here : Reach c c
  next : {d e : Cluster} → Reach c d → Step d e → Reach c e
