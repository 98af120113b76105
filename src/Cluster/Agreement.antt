-- ===== src/Cluster/Agreement.antt =====
-- What a cluster (core/smr.cpp) promises over every run: its replicas agree on what is committed, a
-- majority holds it, and no handler faults.
use morphling_c.Base.{
  ℕ, ◌+◌, ◌/◌, ◌≡◌, ◌≤◌, ◌<◌, inl, inr, sym, ◌∙◌, List, length, take, take-append, ◌==◌, min, ok,
  arith, Bool-cases,
}
use mathlib.Core.List.{Memᴰ}
use morphling_c.Message.{ReplicaId, AppendEntriesMessage, AppendEntriesReplyMessage, ClientMessage}
use morphling_c.Log.{log_capacity}
use morphling_c.Smr.{
  Smr, Callback, handle_operation, handle_append_entries, handle_append_entries_reply,
}
use morphling_c.Votes.Tally.{History}
use morphling_c.Cluster.{Cluster, replica, entries_to, answer_to, Reach, start}
use morphling_c.Cluster.Votes.{holders, voters-holders, holders_mono}
use morphling_c.Cluster.Sound.{held, Sound}
use morphling_c.Cluster.Leading.{propose-Sound}
use morphling_c.Cluster.Acknowledging.{acknowledge-Sound}
use morphling_c.Cluster.Answering.{followed}
use morphling_c.Cluster.Steps.{Reach-Sound}

-- The entries of a replica up to its commit index are those of the leader.
committed_take :
    (me : ReplicaId) (peers : List ReplicaId) (h : History) (c : Cluster) (id : ReplicaId) (k : ℕ)
    → Sound me peers h c
    → id < length peers
    → k ≤ length (replica c id).log.entries
    → take k (replica c id).log.entries ≡ take k c.leader.log.entries
committed_take me peers h c id k d lt le = elim (Bool-cases (id == c.leader.me)) [
  | inl own ↦ rw own
  | inr other ↦
      let (rest, pre) = d.prefix id lt in
      rw (other, pre) (sym (take-append k (c.followers id).log.entries rest (rw other at le)))
]

-- No replica commits what it does not hold, or what the leader has not committed.
committed_within :
    (me : ReplicaId) (peers : List ReplicaId) (h : History) (c : Cluster) (id : ReplicaId)
    → Sound me peers h c
    → id < length peers
    → ((replica c id).log.commits ≤ length (replica c id).log.entries)
      × ((replica c id).log.commits ≤ c.leader.log.commits)
committed_within me peers h c id d lt = elim (Bool-cases (id == c.leader.me)) [
  | inl own ↦ rw own (d.leader_valid.committed, omega arith)
  | inr other ↦ rw other ((d.follower_valid id lt).committed, d.behind id lt)
]

module _ (me : ReplicaId) (peers : List ReplicaId) (gid : ℕ)
    (members : (id : ReplicaId) → Memᴰ id peers → id < length peers) (me_in : me < length peers)
    (c : Cluster) (r : Reach (start me peers gid) c) where
  abbrev votes : History
  votes = (Reach-Sound me peers members me_in gid c r).0

  reached : Sound me peers votes c
  reached = (Reach-Sound me peers members me_in gid c r).1

  -- In every run of a cluster whose peers have the ids below their number, with messages and replies
  -- that are lost, repeated or out of order, the logs of any two replicas agree on the entries that
  -- both have committed.
  pub replicas_agree :
      (a b : ReplicaId)
      → a < length peers
      → b < length peers
      → let k = min (replica c a).log.commits (replica c b).log.commits in
        take k (replica c a).log.entries ≡ take k (replica c b).log.entries
  replicas_agree a b la lb =
      let k = min (replica c a).log.commits (replica c b).log.commits in
      let wa = committed_within me peers votes c a reached la in
      let wb = committed_within me peers votes c b reached lb in
      committed_take me peers votes c a k reached la (omega (arith, wa.0))
      ∙ sym (committed_take me peers votes c b k reached lb (omega (arith, wb.0)))

  held_replica : (id : ReplicaId) → held me c id ≡ length (replica c id).log.entries
  held_replica id = rw reached.is_me (ground arith)

  -- In every run of a cluster whose peers have the ids below their number, with messages and replies
  -- that are lost, repeated or out of order, what any replica has committed is held by a majority: for every index from 1
  -- up to the commit index of a replica, more than half of the replicas have that many entries, and
  -- those entries are the same in all of them and in the replica that committed them.
  pub committed_by_majority :
      (b : ReplicaId) (k : ℕ)
      → b < length peers
      → 0 < k
      → k ≤ (replica c b).log.commits
      → (length peers / 2 + 1
          ≤ holders (length peers) (λ (id : ReplicaId). length (replica c id).log.entries) k)
        × ((id : ReplicaId)
            → id < length peers
            → k ≤ length (replica c id).log.entries
            → take k (replica c id).log.entries ≡ take k (replica c b).log.entries)
  committed_by_majority b k lt pos le =
      let within = committed_within me peers votes c b reached lt in
      (
        elim reached.quorum [
          | inl none_yet ↦ absurd (omega (arith, none_yet, within.1))
          | inr majority ↦ omega (
            arith,
            majority,
            voters-holders (length peers) (held me c) votes c.leader.log.commits reached.backed,
            holders_mono (length peers) (held me c)
                (λ (id : ReplicaId). length (replica c id).log.entries) k c.leader.log.commits
                (omega (arith, within.1)) (λ id. omega (arith, held_replica id)),
          )
        ],
        λ id below holds.
            committed_take me peers votes c id k reached below holds
            ∙ sym (committed_take me peers votes c b k reached lt (omega (arith, within.0))),
      )

  -- In every run of a cluster whose peers have the ids below their number, with messages and replies
  -- that are lost, repeated or out of order, no handler faults: a follower takes every message that was ever posted to it,
  -- and the leader takes every reply that was ever posted to it and, while its log has room, every
  -- operation.
  pub never_faults :
      ((from to : ReplicaId) (msg : AppendEntriesMessage)
        → Memᴰ (from, entries_to to msg) c.posted
        → (f' : Smr) × (cs : List Callback) × (handle_append_entries (c.followers to) msg from
            ≡ ok (f', cs)))
      × ((from : ReplicaId) (msg : AppendEntriesReplyMessage)
          → Memᴰ (from, answer_to c.leader.me msg) c.posted
          → (s' : Smr) × (cs : List Callback) × (handle_append_entries_reply c.leader msg from
              ≡ ok (s', cs)))
      × ((msg : ClientMessage)
          → length c.leader.log.entries < log_capacity
          → (s' : Smr) × (cs : List Callback) × (i : ℕ) × (handle_operation c.leader msg
              ≡ ok (s', cs, i)))
  never_faults = (
    (λ from to msg m.
        let (carried, other, lt, _) = reached.fine (from, entries_to to msg) m in
        let out = followed me peers votes c reached from to msg carried other lt in
        (_, _, out.returns)),
    (λ from msg m.
        let (s', cs, e, _, _, _, _) =
          acknowledge-Sound me peers members me_in votes c from c.leader.me msg reached m in
        (s', cs, e)),
    (λ msg room.
        let (s', cs, i, e, _) = propose-Sound me peers members me_in votes c msg reached room in
        (s', cs, i, e)),
  )
