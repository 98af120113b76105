-- ===== src/Cluster/Acknowledging.antt =====
-- The leader of a cluster takes replies (core/smr.cpp).
use Prim.Native.Nat.{max}
use morphling_c.Base.{
  refl, ℕ, ◌+◌, ◌/◌, ◌≡◌, ◌≤◌, ◌<◌, ◌⊎◌, inl, inr, refl, sym, ap, ◌∙◌, Bool, true, false, List, [],
  ◌∷◌, append-nil, length, ltb, ltb→lt, if◌then◌else◌, ok, arith, Bool-cases,
}
use mathlib.Core.List.{Memᴰ}
use morphling_c.Message.{ReplicaId, AppendEntriesReplyMessage}
use morphling_c.Log.{SmrLog}
use morphling_c.Log.Valid.{last_index-length}
use morphling_c.Votes.Tally.{History, voters}
use morphling_c.Smr.{Smr, Callback, handle_append_entries_reply}
use morphling_c.Smr.Committing.{handle_append_entries_reply-commits}
use morphling_c.Smr.Applying.{handle_append_entries_reply_failed}
use morphling_c.Cluster.{Cluster, post, answer_to}
use morphling_c.Cluster.Carried.{Grown}
use morphling_c.Cluster.Sound.{held, Sound, OnlyApplies-Fine}
use morphling_c.Cluster.Leading.{held_le, led, held_grows, led-Sound}

-- A commit index that follows a vote stays, or has its quorum.
commit_cases :
    (n commits commits' index : ℕ) (reached : Bool) (h : History)
    → commits' ≡ (if reached then max commits index else commits)
    → (reached ≡ true → n / 2 + 1 ≤ voters n index h)
    → (commits' ≡ commits) ⊎ (n / 2 + 1 ≤ voters n commits' h)
commit_cases n commits commits' index false h e q = inl e
commit_cases n commits commits' index true h e q = elim (Bool-cases (ltb commits index)) [
  | inl newer ↦
      let at : commits' ≡ index = e ∙ omega (arith, ltb→lt _ _ newer) in inr (rw at (q refl))
  | inr older ↦ inl (e ∙ ground arith)
]

-- An index that has its quorum is committed, now or before.
prompt_cases :
    (before quorum commits commits' index : ℕ) (reached : Bool)
    → commits' ≡ (if reached then max commits index else commits)
    → (before < quorum → reached ≡ true)
    → (quorum ≤ before → index ≤ commits)
    → index ≤ commits'
prompt_cases before quorum commits commits' index reached e now earlier =
    elim (Bool-cases (ltb before quorum)) [
      | inl short ↦ ground (arith, e, now (ltb→lt _ _ short))
      | inr full ↦ ground (arith, e, earlier (ground (arith, full)))
    ]

module _ (me : ReplicaId) (peers : List ReplicaId)
    (members : (id : ReplicaId) → Memᴰ id peers → id < length peers)
    (me_in : me < length peers) where
  -- The leader takes a reply that was posted.
  pub acknowledge-Sound :
      (h : History) (c : Cluster) (from to : ReplicaId) (msg : AppendEntriesReplyMessage)
      → Sound me peers h c
      → Memᴰ (from, answer_to to msg) c.posted
      → (s' : Smr) × (cs : List Callback) × (handle_append_entries_reply c.leader msg from
          ≡ ok (s', cs))
        × (s'.log.entries ≡ c.leader.log.entries)
        × (h' : History) × (h' ≡ (if msg.success then (from, msg.index) ∷ h else h))
        × Sound me peers h' (record c { leader = s'; posted = post c.leader.me cs c.posted })
  acknowledge-Sound h c from to msg d m = elim (Bool-cases msg.success) [
    | inr failed ↦ (
      c.leader,
      [],
      handle_append_entries_reply_failed c.leader msg from failed,
      refl,
      h,
      ap (λ (b : Bool). if b then (from, msg.index) ∷ h else h) (sym failed),
      d,
    )
    | inl success ↦
        let (lt, upto) = d.fine (from, answer_to to msg) m in
        let within : msg.index ≤ length c.leader.log.entries =
          omega (arith, upto success, held_le me peers members me_in h c d from lt) in
        let (s', cs, reached, e, exact, log', l, voted, quiet) =
          handle_append_entries_reply-commits c.leader msg from d.leader_valid success
            (rw d.same_peers lt)
            (omega (arith, within, last_index-length c.leader.log d.leader_valid.log_valid)) in
        let grown : Grown c.leader.log s'.log = record {
          more = [];
          grown = ap (λ (x : SmrLog). x.entries) log' ∙ sym (append-nil c.leader.log.entries);
          same_dummy = ap (λ (x : SmrLog). x.dummy_entry) log';
          commits_grow = l.forward;
        } in
        (
          s',
          cs,
          e,
          ap (λ (x : SmrLog). x.entries) log',
          (from, msg.index) ∷ h,
          ap (λ (b : Bool). if b then (from, msg.index) ∷ h else h) (sym success),
          led-Sound me peers members me_in h c d s' cs l.valid grown from msg.index l.me l.peers
              voted
              (omega (
                arith,
                upto success,
                held_grows me peers members me_in h c d s' cs l.valid grown from,
              ))
              (commit_cases (length peers) c.leader.log.commits s'.log.commits msg.index reached
                ((from, msg.index) ∷ h) (ap (λ (x : SmrLog). x.commits) log')
                (λ r. rw (d.same_peers, d.leader_history) at (exact.0 r).1))
              (λ two q.
                prompt_cases (voters (length peers) msg.index h) (length peers / 2 + 1)
                  c.leader.log.commits s'.log.commits msg.index reached
                  (ap (λ (x : SmrLog). x.commits) log')
                  (λ short. (rw (d.same_peers, d.leader_history) at exact).1 (short, q))
                  (λ full. d.prompt two msg.index full))
              (λ to m other k from below.
                absurd (omega (arith, from, below, ap (λ (x : SmrLog). length x.entries) log')))
              (OnlyApplies-Fine (length peers) me s'.log
                (held me (led me peers members me_in h c d s' cs l.valid grown)) c.leader.me cs
                quiet),
        )
  ]
