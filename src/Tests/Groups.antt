-- ===== src/Tests/Groups.antt =====
-- Runs of `SMR` (core/smr.cpp) as leader and as follower.
use Prim.Native.Nat.{max}
use morphling_c.Base.{
  ℕ, suc, ◌+◌, ◌≡◌, ◌<◌, ◌≤◌, ◌/◌, ◌↔◌, refl, min, take, Bool, true, false, List, [], ◌∷◌, ◌++◌, ok,
  fault, aborted, if◌then◌else◌, length, arith,
}
use morphling_c.Message.{
  Entry, ReplicaId, ClientMessage, AppendEntriesMessage, AppendEntriesReplyMessage,
}
use morphling_c.Log.{SmrLog, last_entry, last_index, entry_at, entry_pos}
use morphling_c.Votes
use morphling_c.Votes.Tally.{voters}
use morphling_c.Votes.Tracks.{init-Tracks}
use morphling_c.Smr.{
  Smr, Callback, init, reply_to, handle_operation, handle_append_entries,
  handle_append_entries_reply,
}
use morphling_c.Smr.Valid.{IsValid}
use morphling_c.Smr.Leading.{new_entry, carrying, to_others, handle_operation-carrying}
use morphling_c.Smr.Following.{
  Agrees, accepted, handle_append_entries-refused, handle_append_entries-in_sync,
}
use morphling_c.Smr.Stale.{
  overwritten, handle_append_entries-duplicate, handle_append_entries-past_end,
  handle_append_entries-conflict,
}
use morphling_c.Smr.Replication.{lead_all, messages_to, follow_all, entries_of, replicate_all}
use morphling_c.Smr.Committing.{applied, OnlyApplies, Led, handle_append_entries_reply-commits}
use morphling_c.Smr.Applying.{Event, operation, reply, lead, lead-applied}

abbrev three_peers : List ReplicaId
three_peers = 0 ∷ 1 ∷ 2 ∷ []

abbrev first_entry : Entry
first_entry = record { epoch = 1; index = 1; payload = 7 ∷ [] }

abbrev second_entry : Entry
second_entry = record { epoch = 1; index = 2; payload = 8 ∷ [] }

abbrev third_entry : Entry
third_entry = record { epoch = 1; index = 3; payload = 9 ∷ [] }

-- An entry of a later epoch, at the place of `second_entry`.
abbrev other_entry : Entry
other_entry = record { epoch = 2; index = 2; payload = 6 ∷ [] }

abbrev two_entries : SmrLog
two_entries = record {
  entries = first_entry ∷ second_entry ∷ [];
  commits = 1;
  dummy_entry = record { epoch = 0; index = 0; payload = [] };
}

-- Group 5 at replica 0, whose log holds two entries.
abbrev group : Smr
group = record {
  log = two_entries;
  gid = 5;
  me = 0;
  peers = three_peers;
  entry_votes = Votes.init 3;
  prs = [];
}

group-IsValid : IsValid group
group-IsValid = record {
  log_valid = record {
    numbered = (refl, (refl, tt));
    dummy_index = refl;
    dummy_epoch = refl;
    room = omega arith;
  };
  committed = omega arith;
  history = [];
  tracks = init-Tracks 3;
  me_in = omega arith;
}

abbrev write : ClientMessage
write = record { epoch = 1; key_hash = 0x500; op = 9 ∷ [] }

-- A message with the entries given, behind the entry of epoch 1 at an index.
abbrev message : ℕ → List Entry → AppendEntriesMessage
message index entries = record {
  from = 1;
  epoch = 1;
  prev_term = 1;
  prev_index = index;
  commit = 2;
  group_id = 5;
  entries = entries;
}

abbrev next_message : AppendEntriesMessage
next_message = message 2 (third_entry ∷ [])

abbrev gap_message : AppendEntriesMessage
gap_message = message 4 (third_entry ∷ [])

abbrev repeated_message : AppendEntriesMessage
repeated_message = message 1 (second_entry ∷ [])

abbrev longer_message : AppendEntriesMessage
longer_message = message 1 (second_entry ∷ third_entry ∷ [])

abbrev conflict_message : AppendEntriesMessage
conflict_message = message 1 (other_entry ∷ third_entry ∷ [])

-- The log holds the first entry, and the second.
holds_first : Agrees group.log 1 1
unfolding entry_at entry_pos last_index last_entry
holds_first = (first_entry, omega arith, refl, refl)

holds_second : Agrees group.log 1 2
unfolding entry_at entry_pos last_index last_entry
holds_second = (second_entry, omega arith, refl, refl)

no_gap : ¬ Agrees group.log 1 4
unfolding last_index last_entry
no_gap = λ a. absurd (omega (arith, a.1))

found_second : entry_at group.log 2 ≡ ok second_entry
unfolding entry_at entry_pos
found_second = refl

abbrev good_reply : AppendEntriesReplyMessage
good_reply = record { from = 1; epoch = 1; success = true; group_id = 5; index = 2 }

-- An operation, which becomes entry 1, and the replies of two replicas to it.
abbrev events : List Event
events =
    operation write
    ∷ reply (record { from = 1; epoch = 1; success = true; group_id = 5; index = 1 }) 1
    ∷ reply (record { from = 2; epoch = 1; success = true; group_id = 5; index = 1 }) 2
    ∷ []

-- Replica 1, with the same entries.
abbrev follower : Smr
follower = record group { me = 1 }

follower-IsValid : IsValid follower
follower-IsValid = record {
  log_valid = group-IsValid.log_valid;
  committed = omega arith;
  history = [];
  tracks = init-Tracks 3;
  me_in = omega arith;
}

handle_operation-carrying_example :
    (s' : Smr) × (handle_operation group write
      ≡ ok (
        s',
        to_others group.me (carrying group.log group.gid (new_entry group.log write)) group.peers,
        suc (length group.log.entries),
      ))
    × (s'.log ≡ record group.log { entries = group.log.entries ++ new_entry group.log write ∷ [] })
    × (v' : IsValid s') × (s'.me ≡ group.me)
    × (s'.peers ≡ group.peers)
    × (s'.gid ≡ group.gid)
    × (v'.history ≡ (group.me, suc (length group.log.entries)) ∷ group-IsValid.history)
handle_operation-carrying_example =
    handle_operation-carrying group write group-IsValid (omega arith)

handle_append_entries-refused_example :
    handle_append_entries group gap_message 1
    ≡ ok (group, reply_to group 1 false (last_index group.log) ∷ [])
handle_append_entries-refused_example =
    handle_append_entries-refused group gap_message 1 group-IsValid no_gap

handle_append_entries-in_sync_example :
    (handle_append_entries group next_message 1
      ≡ ok (
        record group { log = accepted group.log next_message },
        reply_to group 1 true (length group.log.entries + length next_message.entries) ∷ [],
      ))
    × IsValid (record group { log = accepted group.log next_message })
unfolding last_index last_entry
handle_append_entries-in_sync_example =
    handle_append_entries-in_sync group next_message 1 group-IsValid refl refl (omega arith)

handle_append_entries-duplicate_example :
    handle_append_entries group repeated_message 1
    ≡ ok (
      record group {
        log = record group.log {
          commits = max group.log.commits (min repeated_message.commit (last_index group.log));
        };
      },
      reply_to group 1 true (last_index group.log) ∷ [],
    )
unfolding last_index last_entry
handle_append_entries-duplicate_example =
    handle_append_entries-duplicate group repeated_message 1 group-IsValid holds_first (omega arith)
      (holds_second, tt)

handle_append_entries-past_end_example :
    handle_append_entries group longer_message 1 ≡ fault aborted
unfolding last_index last_entry
handle_append_entries-past_end_example =
    handle_append_entries-past_end group longer_message 1 group-IsValid holds_first (omega arith)
      (second_entry ∷ []) [] third_entry refl (holds_second, tt) (omega arith) (omega arith)

handle_append_entries-conflict_example :
    let l = overwritten group.log other_entry (suc (length (third_entry ∷ []))) in
    handle_append_entries group conflict_message 1
    ≡ ok (
      record group {
        log = record l { commits = max l.commits (min conflict_message.commit (last_index l)) };
      },
      reply_to group 1 true (last_index l) ∷ [],
    )
unfolding last_index last_entry
handle_append_entries-conflict_example =
    handle_append_entries-conflict group conflict_message 1 group-IsValid holds_first (omega arith)
      [] (third_entry ∷ []) other_entry second_entry refl tt (omega arith) (omega arith)
      found_second (λ h. absurd (omega (arith, h))) (omega arith)

replicate_all_example :
    (s' f' : Smr) × (cs : List Callback) × (lead_all group (write ∷ write ∷ []) ≡ ok (s', cs))
    × (s'.log.entries
        ≡ group.log.entries ++ entries_of (suc (length group.log.entries)) (write ∷ write ∷ []))
    × (follow_all follower (messages_to 1 cs) 0 ≡ ok f')
    × (f'.log.entries ≡ s'.log.entries)
replicate_all_example =
    replicate_all (write ∷ write ∷ []) group follower 0 1 group-IsValid follower-IsValid refl
      (λ h. absurd (omega (arith, h))) refl (omega arith)

handle_append_entries_reply-commits_example :
    (s' : Smr) × (cs : List Callback) × (reached : Bool) × (handle_append_entries_reply group
        good_reply 1
      ≡ ok (s', cs))
    × ((reached ≡ true) ↔ (
        (voters (length group.peers) good_reply.index group-IsValid.history
          < length group.peers / 2 + 1)
        × (length group.peers / 2 + 1
            ≤ voters
                (length group.peers)
                good_reply.index
                ((1, good_reply.index) ∷ group-IsValid.history))))
    × (s'.log ≡ record group.log {
      commits = if reached then max group.log.commits good_reply.index else group.log.commits;
    })
    × (led : Led group s' cs) × (led.valid.history ≡ (1, good_reply.index) ∷ group-IsValid.history)
    × OnlyApplies cs
unfolding last_index last_entry
handle_append_entries_reply-commits_example =
    handle_append_entries_reply-commits group good_reply 1 group-IsValid refl (omega arith)
      (omega arith)

lead-applied_example :
    (s : Smr) × (cs : List Callback) × (lead (init 0 three_peers 5) events ≡ ok (s, cs))
    × (applied cs ≡ take s.log.commits s.log.entries)
    × (s.log.commits ≤ length s.log.entries)
lead-applied_example =
    lead-applied 0 three_peers 5 events (omega arith)
      (omega arith, (omega arith, omega arith, (omega arith, omega arith, tt)))
