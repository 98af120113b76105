-- ===== src/Tests/Clusters.antt =====
-- Runs of a cluster of three replicas (core/smr.cpp).
use morphling_c.Base.{
  zero, suc, length, ◌/◌, ◌+◌, min, take, inl, inr, true, ℕ, ◌≡◌, ◌≤◌, ◌<◌, refl, List, [], ◌∷◌,
  lookup, insert, ok, fault, Result, arith,
}
use mathlib.Core.List.{Memᴰ}
use mathlib.Core.List.Memᴰ
use morphling_c.Message.{ReplicaId, AppendEntriesMessage, AppendEntriesReplyMessage, ClientMessage}
use morphling_c.Log.{
  log_capacity, append, append_entry, get_part_entries, get_tail_entries, commit_to, curr_commit,
  entry_pos, entry_at, last_entry, last_index,
}
use morphling_c.Votes
use morphling_c.Votes.{agree_count, opened, count_vote, vote}
use morphling_c.Smr.{
  Smr, Callback, init, init_prs, status_of, touch, send_append_entries, send_to_peer, send_to_peers,
  handle_operation, check_safety, append_entries, passive_commit, accept, handle_append_entries,
  commit_and_apply, handle_append_entries_reply,
}
use morphling_c.Cluster.Progress.{can_commit}
use morphling_c.Cluster.Votes.{holders}
use morphling_c.Cluster.Agreement.{replicas_agree, committed_by_majority, never_faults}
use morphling_c.Cluster.{
  replica, Cluster, Reach, here, next, propose, deliver, acknowledge, start, post, with_follower,
  entries_to, answer_to,
}

abbrev peers : List ReplicaId
peers = 0 ∷ 1 ∷ 2 ∷ []

abbrev write : ClientMessage
write = record { epoch = 1; key_hash = 0; op = 7 ∷ [] }

-- The state and the callbacks of a step that succeeds.
abbrev or_else : Result (Smr × List Callback) → Smr → Smr × List Callback
or_else (ok (s, cs)) d = (s, cs)
or_else (fault f) d = (d, [])

abbrev or_else3 : Result (Smr × List Callback × ℕ) → Smr → Smr × List Callback × ℕ
or_else3 (ok (s, cs, i)) d = (s, cs, i)
or_else3 (fault f) d = (d, [], 0)

abbrev first : Cluster
first = start 0 peers 5

abbrev written : Smr × List Callback × ℕ
written = or_else3 (handle_operation first.leader write) first.leader

abbrev second : Cluster
second = record first { leader = written.0; posted = post 0 written.1 [] }

second_run : Reach first second
unfolding init init_prs append last_index last_entry vote Votes.init count_vote opened agree_count
    send_append_entries send_to_peer send_to_peers handle_operation status_of touch entry_at
    entry_pos get_tail_entries get_part_entries curr_commit lookup insert
second_run = next here (propose write written.0 written.1 written.2 refl refl)

abbrev message : AppendEntriesMessage
message = record {
  from = 0;
  epoch = 0;
  prev_term = 0;
  prev_index = 0;
  commit = 0;
  group_id = 5;
  entries = record { epoch = 1; index = 1; payload = 7 ∷ [] } ∷ [];
}

abbrev taken : Smr × List Callback
taken = or_else (handle_append_entries (second.followers 1) message 0) (second.followers 1)

abbrev third : Cluster
third = record second {
  followers = with_follower 1 taken.0 second.followers;
  posted = post 1 taken.1 second.posted;
}

message_posted : Memᴰ (0, entries_to 1 message) second.posted
unfolding init init_prs append last_index last_entry vote Votes.init count_vote opened agree_count
    send_append_entries send_to_peer send_to_peers handle_operation status_of touch entry_at
    entry_pos get_tail_entries get_part_entries curr_commit lookup insert
message_posted = Memᴰ.head refl

third_run : Reach first third
unfolding init init_prs append append_entry last_index last_entry check_safety append_entries
    passive_commit accept handle_append_entries entry_at entry_pos commit_to curr_commit lookup
    insert
third_run = next second_run (deliver 0 1 message taken.0 taken.1 message_posted refl refl)

abbrev answer : AppendEntriesReplyMessage
answer = record { from = 0; epoch = 0; success = true; group_id = 5; index = 1 }

abbrev settled : Smr × List Callback
settled = or_else (handle_append_entries_reply third.leader answer 1) third.leader

abbrev fourth : Cluster
fourth = record third { leader = settled.0; posted = post 0 settled.1 third.posted }

answer_posted : Memᴰ (1, answer_to third.leader.me answer) third.posted
unfolding init init_prs append last_index last_entry vote Votes.init count_vote opened agree_count
    send_append_entries send_to_peer send_to_peers handle_operation status_of touch entry_at
    entry_pos get_tail_entries get_part_entries curr_commit lookup insert append_entry check_safety
    append_entries passive_commit accept handle_append_entries commit_to
answer_posted = Memᴰ.head refl

fourth_run : Reach first fourth
unfolding init init_prs append last_index last_entry vote Votes.init count_vote opened agree_count
    send_append_entries send_to_peer send_to_peers handle_operation status_of touch entry_at
    entry_pos get_tail_entries get_part_entries curr_commit lookup insert commit_and_apply commit_to
    handle_append_entries_reply
fourth_run = next third_run (acknowledge 1 answer settled.0 settled.1 answer_posted refl refl)

-- One follower has the entry, and the leader commits it.
fourth_commits : (replica fourth 0).log.commits ≡ 1
unfolding init init_prs append last_index last_entry vote Votes.init count_vote opened agree_count
    send_append_entries send_to_peer send_to_peers handle_operation status_of touch entry_at
    entry_pos get_tail_entries get_part_entries curr_commit lookup insert commit_and_apply commit_to
    handle_append_entries_reply
fourth_commits = refl

peers-below : (id : ReplicaId) → Memᴰ id peers → id < length peers
peers-below id m = elim (Memᴰ.cases_cons m) [
  | inl e ↦ omega (arith, e)
  | inr m1 ↦ elim (Memᴰ.cases_cons m1) [
    | inl e ↦ omega (arith, e)
    | inr m2 ↦ elim (Memᴰ.cases_cons m2) [
      | inl e ↦ omega (arith, e)
      | inr m3 ↦ absurd (Memᴰ.not-nil m3)
    ]
  ]
]

peers-cover : (id : ReplicaId) → id < length peers → Memᴰ id peers
peers-cover zero lt = Memᴰ.head refl
peers-cover (suc zero) lt = Memᴰ.tail (Memᴰ.head refl)
peers-cover (suc (suc zero)) lt = Memᴰ.tail (Memᴰ.tail (Memᴰ.head refl))
peers-cover (suc (suc (suc id))) lt = absurd (omega (arith, lt))

replicas_agree_example :
    let k = min (replica fourth 0).log.commits (replica fourth 1).log.commits in
    take k (replica fourth 0).log.entries ≡ take k (replica fourth 1).log.entries
replicas_agree_example =
    replicas_agree 0 peers 5 peers-below (omega arith) fourth fourth_run 0 1 (omega arith)
      (omega arith)

committed_by_majority_example :
    (length peers / 2 + 1
      ≤ holders (length peers) (λ (id : ReplicaId). length (replica fourth id).log.entries) 1)
    × ((id : ReplicaId)
        → id < length peers
        → 1 ≤ length (replica fourth id).log.entries
        → take 1 (replica fourth id).log.entries ≡ take 1 (replica fourth 0).log.entries)
committed_by_majority_example =
    committed_by_majority 0 peers 5 peers-below (omega arith) fourth fourth_run 0 1 (omega arith)
      (omega arith) (omega (arith, fourth_commits))

never_faults_example :
    ((from to : ReplicaId) (msg : AppendEntriesMessage)
      → Memᴰ (from, entries_to to msg) fourth.posted
      → (f' : Smr) × (cs : List Callback) × (handle_append_entries (fourth.followers to) msg from
          ≡ ok (f', cs)))
    × ((from : ReplicaId) (msg : AppendEntriesReplyMessage)
        → Memᴰ (from, answer_to fourth.leader.me msg) fourth.posted
        → (s' : Smr) × (cs : List Callback) × (handle_append_entries_reply fourth.leader msg from
            ≡ ok (s', cs)))
    × ((msg : ClientMessage)
        → length fourth.leader.log.entries < log_capacity
        → (s' : Smr) × (cs : List Callback) × (i : ℕ) × (handle_operation fourth.leader msg
            ≡ ok (s', cs, i)))
never_faults_example = never_faults 0 peers 5 peers-below (omega arith) fourth fourth_run

can_commit_example :
    (c' : Cluster) × Reach second c'
    × (c'.leader.log.entries ≡ second.leader.log.entries)
    × (c'.leader.log.commits ≡ length second.leader.log.entries)
can_commit_example =
    can_commit 0 peers 5 peers-below peers-cover (omega arith) (omega arith) second second_run
