-- ===== src/Morphling/Accepting.antt =====
-- `Morphling::handle_append_entries` (core/morphling.cpp) at a follower whose group is up to date.
use morphling_c.Base.{
  ℕ, List, ◌+◌, ◌≡◌, ◌≤◌, ◌<◌, refl, true, [], ◌∷◌, ◌++◌, append-nil, some, length, ltb, get_elem?,
  set, ◌==◌, ok, ◌>>=◌, or_fault, arith,
}
use morphling_c.Message.{ReplicaId, AppendEntriesMessage, append_reply, GenericMessage}
use morphling_c.Log.{log_capacity, last_entry, last_index}
use morphling_c.Smr.{Smr, reply_to}
use morphling_c.Smr.Following.{accepted, handle_append_entries-in_sync}
use morphling_c.Morphling.{
  Morphling, is_valid_guidance, stamp, stamp_all, prepare_msgs, handle_append_entries,
}
use morphling_c.Morphling.Stamping.{AllMarked, stamp_all-AllMarked}
use morphling_c.Morphling.Valid.{IsGroup, IsValid, queued, put_group_lem, set-IsValid}

-- The replica `m'` after `m` has taken the entries: the group has them, one reply waits for the
-- sender behind what waited before, and nothing else is changed.
pub record AfterEntries (m : Morphling) (msg : AppendEntriesMessage) (from : ReplicaId) (s : Smr)
    (m' : Morphling) : Type 0 where
  pub group : m'.smrs ≡ set m.smrs msg.group_id (record s { log = accepted s.log msg })
  pub waiting : List GenericMessage
  pub waiting_marked : AllMarked m.me m.guide.epoch m.next_msgs waiting
  pub replied :
      m'.next_msgs
      ≡ waiting
        ++ record {
          to = from;
          body = append_reply (record {
            from = m.me;
            epoch = m.guide.epoch;
            success = true;
            group_id = s.gid;
            index = length s.log.entries + length msg.entries;
          });
        }
          ∷ []
  pub rest : m' ≡ record m { smrs = m'.smrs; next_msgs = m'.next_msgs }
  pub valid : IsValid m'

stamp_all-append :
    (me : ReplicaId) (epoch : ℕ) (xs ys : List GenericMessage)
    → stamp_all me epoch (xs ++ ys) ≡ stamp_all me epoch xs ++ stamp_all me epoch ys
unfolding stamp_all
stamp_all-append me epoch [] ys = refl
stamp_all-append me epoch (x ∷ xs) ys = rw (stamp_all-append me epoch xs ys) refl

-- Let entries of the replica's epoch come in for a group `s` of a valid replica, at least one,
-- behind the entry that is the group's last, and with room for them. Then `handle_append_entries`
-- replaces just that group, whose log has taken the entries and commits what the message says is
-- committed. One reply of success, from the replica and in its epoch, with the new last index, waits
-- for the sender behind what waited before; each message of the log that waited is marked with the
-- replica and its epoch, and unchanged otherwise, as are all other messages. Nothing else of the
-- replica changes, and it stays valid.
pub handle_append_entries-taken :
    (m : Morphling) (msg : AppendEntriesMessage) (from : ReplicaId) (s : Smr)
    → IsValid m
    → m.guide.epoch ≡ msg.epoch
    → get_elem? m.smrs msg.group_id ≡ some s
    → 0 < length msg.entries
    → msg.prev_index ≡ last_index s.log
    → msg.prev_term ≡ (last_entry s.log).epoch
    → length s.log.entries + length msg.entries ≤ log_capacity
    → (m' : Morphling) × (handle_append_entries m msg from ≡ ok m') × AfterEntries m msg from s m'
unfolding handle_append_entries is_valid_guidance prepare_msgs stamp_all stamp
handle_append_entries-taken m msg from s v epoch at some_entry behind same_term room =
    let g : IsGroup m msg.group_id s = v.each msg.group_id s at in
    let done = handle_append_entries-in_sync s msg from g.valid behind same_term room in
    let s' : Smr = record s { log = accepted s.log msg } in
    let answer = reply_to s from true (length s.log.entries + length msg.entries) ∷ [] in
    let m' : Morphling = record m {
      smrs = set m.smrs msg.group_id s';
      next_msgs = stamp_all m.me m.guide.epoch (m.next_msgs ++ queued answer);
    } in
    (
      m',
      rw (
        current,
        nonempty,
        ◌>>=◌,
        at,
        or_fault,
        done.0,
        put_group_lem m msg.group_id s' answer,
        append-nil m.apply_entries,
      ),
      record {
        group = refl;
        waiting = stamp_all m.me m.guide.epoch m.next_msgs;
        waiting_marked = stamp_all-AllMarked m.me m.guide.epoch m.next_msgs;
        replied = stamp_all-append m.me m.guide.epoch m.next_msgs (queued answer);
        rest = refl;
        valid =
            set-IsValid m m' msg.group_id s' v refl refl refl
              (record { valid = done.1; number = g.number; owner = g.owner; fellows = g.fellows });
      },
    )
  where
    current : (m.guide.epoch == msg.epoch) ≡ true
    current = ground (arith, epoch)

    nonempty : ltb 0 (length msg.entries) ≡ true
    nonempty = ground (arith, some_entry)
