-- ===== src/Tests/Replicas.antt =====
-- Runs of `Morphling` (core/morphling.cpp).
use morphling_c.Base.{
  ℕ, ◌≡◌, ◌≢◌, refl, List, [], ◌∷◌, ◌++◌, Dict, lookup, Option, none, some, ok, get_elem?, arith,
}
use morphling_c.Message.{AppendEntriesMessage, Bytes, Entry, ReplicaId, Operation, ClientMessage}
use morphling_c.Keys.{calc_key_pos}
use morphling_c.Keys.Owner.{first_guidance}
use morphling_c.Log.{last_index, last_entry}
use morphling_c.Smr.{Smr}
use morphling_c.Smr
use morphling_c.Smr.Leading.{new_entry}
use morphling_c.Morphling.{
  Morphling, Transport, init_groups, client_reply, client_reply_of, stored, handle_operation,
  handle_append_entries, apply_entry, bcast_msgs, maybe_apply,
}
use morphling_c.Morphling.Valid.{IsValid, fresh, fresh-IsValid}
use morphling_c.Morphling.Writing.{
  announced, written, handle_operation-written, handle_operation-misdirected,
}
use morphling_c.Morphling.Stamping.{AllMarked}
use morphling_c.Morphling.Valid.{queued}
use morphling_c.Morphling.Accepting.{AfterEntries, handle_append_entries-taken}
use morphling_c.Morphling.Serving.{
  Store, Holds, after_all, served, Awaited, nothing_left, one_more, maybe_apply-served,
}
use morphling_c.Morphling.Sending.{
  Connected, no_peers, one_peer, announcement, sent_to_others, handle_operation-bcast_msgs,
}

abbrev three_peers : List ReplicaId
three_peers = 0 ∷ 1 ∷ 2 ∷ []

abbrev replica : Morphling
replica = fresh first_guidance 0 three_peers

replica-IsValid : IsValid replica
replica-IsValid = fresh-IsValid first_guidance 0 three_peers (omega arith)

-- An encoding of operations: the type, the key, and then the data.
abbrev unpack : Bytes → Option Operation
unpack (op_type ∷ key_hash ∷ payload) =
    some (record { op_type = op_type; key_hash = key_hash; payload = payload })
unpack _ = none

-- Two writes, to group 1 and to group 2.
abbrev first_op : Operation
first_op = record { op_type = 1; key_hash = 0x100; payload = 7 ∷ [] }

abbrev first_write : ClientMessage
first_write = record { epoch = 1; key_hash = 0x100; op = 1 ∷ 0x100 ∷ 7 ∷ [] }

abbrev second_op : Operation
second_op = record { op_type = 1; key_hash = 0x200; payload = 8 ∷ [] }

abbrev second_write : ClientMessage
second_write = record { epoch = 1; key_hash = 0x200; op = 1 ∷ 0x200 ∷ 8 ∷ [] }

abbrev group : ℕ → Smr
group gid = Smr.init 0 three_peers gid

first_group : get_elem? replica.smrs (calc_key_pos first_write.key_hash) ≡ some (group 1)
unfolding init_groups calc_key_pos
first_group = refl

second_group : get_elem? replica.smrs (calc_key_pos second_write.key_hash) ≡ some (group 2)
unfolding init_groups calc_key_pos
second_group = refl

apart : calc_key_pos first_write.key_hash ≢ calc_key_pos second_write.key_hash
unfolding calc_key_pos
apart = λ h. absurd (omega (arith, h))

writes : first_op.op_type ≢ 0
writes = λ h. absurd (omega (arith, h))

-- Every peer has a connection of its own number, and 0 has none.
abbrev address : ReplicaId → Transport
address rid = rid

abbrev connections : Dict Transport
connections = (1, 1) ∷ (2, 2) ∷ []

connected : Connected replica.me address connections replica.peers
unfolding lookup
connected = one_peer (λ h. absurd (h refl)) (one_peer (λ _. refl) (one_peer (λ _. refl) no_peers))

-- A write and then a read of the same key, as entries 1 and 2, for which clients 40 and 41 wait.
abbrev write_entry : Entry
write_entry = record { epoch = 1; index = 1; payload = 1 ∷ 0x100 ∷ 7 ∷ [] }

abbrev read_entry : Entry
read_entry = record { epoch = 1; index = 2; payload = 0 ∷ 0x100 ∷ [] }

abbrev read_op : Operation
read_op = record { op_type = 0; key_hash = 0x100; payload = [] }

abbrev serving : Morphling
serving = record replica {
  apply_entries = write_entry ∷ read_entry ∷ [];
  client_pendings = (1, 40) ∷ (2, 41) ∷ [];
}

abbrev ops : List Operation
ops = first_op ∷ read_op ∷ []

abbrev clients : List Transport
clients = 40 ∷ 41 ∷ []

abbrev nothing_stored : Store
nothing_stored _ = []

serving-Awaited : Awaited unpack serving.client_pendings serving.apply_entries ops clients
unfolding lookup
serving-Awaited = one_more refl refl (one_more refl refl nothing_left)

serving-Holds : Holds serving.storage nothing_stored
unfolding stored lookup
serving-Holds = λ key. refl

-- No client waits for the second entry.
-- Entries from replica 1 for group 1, which is empty.
abbrev entries_message : AppendEntriesMessage
entries_message = record {
  from = 1;
  epoch = 1;
  prev_term = 0;
  prev_index = 0;
  commit = 0;
  group_id = 1;
  entries = record { epoch = 1; index = 1; payload = 7 ∷ [] } ∷ [];
}

handle_append_entries-taken_example :
    (m' : Morphling) × (handle_append_entries replica entries_message 1 ≡ ok m')
    × AfterEntries replica entries_message 1 (group 1) m'
unfolding Smr.init last_index last_entry init_groups calc_key_pos
handle_append_entries-taken_example =
    handle_append_entries-taken replica entries_message 1 (group 1) replica-IsValid refl first_group
      (omega arith) refl refl (omega arith)

handle_operation-written_example :
    (s' : Smr) × (handle_operation unpack replica first_write 40
      ≡ ok (written replica first_write 40 (group 1) s', []))
    × (s'.log ≡ record (group 1).log {
      entries = (group 1).log.entries ++ new_entry (group 1).log first_write ∷ [];
    })
    × AllMarked replica.me replica.guide.epoch
        (replica.next_msgs ++ queued (announced (group 1) first_write))
        (written replica first_write 40 (group 1) s').next_msgs
    × IsValid (written replica first_write 40 (group 1) s')
unfolding Smr.init
handle_operation-written_example =
    handle_operation-written unpack replica first_write 40 first_op (group 1) replica-IsValid refl
      refl writes first_group (omega arith)

handle_operation-misdirected_example :
    (m₁ : Morphling) × (m₂ : Morphling) × (handle_operation unpack replica first_write 40
      ≡ ok (m₁, []))
    × (handle_operation unpack m₁ second_write 41 ≡ ok (m₂, []))
    × ((m₃ : Morphling) × (bytes : Bytes) × (apply_entry unpack m₂
            (new_entry (group 1).log first_write)
          ≡ ok (m₃, (41, client_reply (client_reply_of m₂ first_op.key_hash bytes)) ∷ [])))
unfolding Smr.init
handle_operation-misdirected_example =
    handle_operation-misdirected unpack replica first_write second_write 40 41 first_op second_op
      (group 1) (group 2) replica-IsValid refl refl refl refl writes writes first_group second_group
      apart refl (omega arith)

maybe_apply-served_example :
    (storage : Dict Bytes) × (maybe_apply unpack serving
      ≡ ok (
        record serving { storage = storage; apply_entries = [] },
        served serving ops clients nothing_stored,
      ))
    × Holds storage (after_all ops nothing_stored)
maybe_apply-served_example =
    maybe_apply-served unpack serving ops clients nothing_stored serving-Awaited serving-Holds

handle_operation-bcast_msgs_example :
    (m' : Morphling) × (handle_operation unpack replica first_write 40 ≡ ok (m', []))
    × (bcast_msgs m' connections
        ≡ ok (
          record m' { next_msgs = [] },
          sent_to_others replica.me address
              (announcement replica.me replica.guide.epoch (group 1) first_write)
              replica.peers,
        ))
unfolding Smr.init
handle_operation-bcast_msgs_example =
    handle_operation-bcast_msgs unpack replica first_write 40 first_op (group 1) address connections
      replica-IsValid refl refl refl writes first_group (omega arith) connected
