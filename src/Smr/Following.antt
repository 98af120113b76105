-- ===== src/Smr/Following.antt =====
-- `SMR::check_safety` and `SMR::handle_append_entries` (core/smr.cpp): what a follower accepts.
use Prim.Native.Nat.{max}
use morphling_c.Base.{
  ℕ, suc, ◌+◌, ◌≡◌, ◌≤◌, ◌⊎◌, inl, inr, sym, ap, ◌∙◌, Bool, true, false, List, [], ◌∷◌, length, ltb,
  ltb→lt, ◌==◌, if◌then◌else◌, min, Result, ok, ok-injective, ◌>>=◌, arith, Bool-cases,
  length-append,
}
use morphling_c.Message.{Entry, ReplicaId, AppendEntriesMessage}
use morphling_c.Log.{
  SmrLog, log_capacity, last_entry, last_index, append_entry, entry_at, commit_to, curr_commit,
}
use morphling_c.Log
use morphling_c.Log.Valid.{
  extended, append_entry_lem, append_entry_full, extended-IsValid, entry_at-last, last_entry-index,
  last_index-length, curr_commit_lem,
}
use morphling_c.Log.Methods.{entry_at_cases, commit_to_lem}
use morphling_c.Log.Appends.{
  with_entries, with_entries-cons, with_entries-nil, length-with_entries, with_entries-IsValid,
}
use morphling_c.Smr.{
  Smr, reply_to, check_safety, append_entries, passive_commit, accept, handle_append_entries,
}
use morphling_c.Smr.Valid.{IsValid, committed_to-IsValid}

-- The log holds an entry of epoch `term` at index `i`; the dummy entry counts, at index 0.
abbrev pub Agrees : SmrLog → ℕ → ℕ → Type 0
Agrees l term i = (e : Entry) × (i ≤ last_index l) × (entry_at l i ≡ ok e) × (e.epoch ≡ term)

-- The verdict, once the entry at index `i` is known.
verdict :
    (s : Smr) (term i : ℕ) (e : Entry) (r : Result (Bool × Bool))
    → i ≤ last_index s.log
    → entry_at s.log i ≡ ok e
    → r ≡ (if term == e.epoch then ok (true, ltb i (last_index s.log)) else ok (false, false))
    → (Agrees s.log term i × (r ≡ ok (true, ltb i (last_index s.log))))
      ⊎ (¬ Agrees s.log term i × (r ≡ ok (false, false)))
verdict s term i e r le found returns = elim (Bool-cases (term == e.epoch)) [
  | inl same ↦ inl ((e, le, found, ground arith), rw same at returns)
  | inr other ↦ inr (
    (λ (a : Agrees s.log term i).
        let same : a.0 ≡ e = ok-injective (sym a.2 ∙ found) in
        ground (arith, a.3, ap (λ (x : Entry). x.epoch) same)),
    rw other at returns,
  )
]

-- `check_safety` never faults on a valid group. It finds a message safe exactly if the log agrees
-- with the entry that the message says comes before its own, and stale exactly if it is safe and
-- that entry is not the last one.
pub check_safety_cases :
    (s : Smr) (term i : ℕ)
    → IsValid s
    → (Agrees s.log term i × (check_safety s term i ≡ ok (true, ltb i (last_index s.log))))
      ⊎ (¬ Agrees s.log term i × (check_safety s term i ≡ ok (false, false)))
unfolding check_safety
check_safety_cases s term i v = elim (Bool-cases (ltb i (last_index s.log))) [
  | inl earlier ↦
      elim (entry_at_cases s.log i v.log_valid (omega (arith, below, ltb→lt _ _ earlier))) [
        | inl (above, _) ↦ absurd (omega (arith, ltb→lt _ _ earlier))
        | inr (e, le, found, _) ↦
            verdict s term i e _ le found (ground (arith, last_entry-index s.log))
      ]
  | inr later ↦ elim (Bool-cases (i == last_index s.log)) [
    | inl last ↦
        verdict s term i (last_entry s.log) _ (ground arith) (at_last (ground arith))
          (ground (arith, last_entry-index s.log))
    | inr past ↦
        inr (
          (λ (a : Agrees s.log term i). ground (arith, a.1)),
          ground (arith, last_entry-index s.log),
        )
  ]
]
  where
    below : last_index s.log ≤ log_capacity
    below = omega (arith, last_index-length s.log v.log_valid, v.log_valid.room)

    at_last : i ≡ last_index s.log → entry_at s.log i ≡ ok (last_entry s.log)
    at_last e = rw (e, last_index-length s.log v.log_valid) (entry_at-last s.log v.log_valid)

pub append_entries_lem :
    (es : List Entry) (l : SmrLog)
    → Log.Valid.IsValid l
    → length l.entries + length es ≤ log_capacity
    → append_entries l es ≡ ok (with_entries l es)
unfolding append_entries
append_entries_lem [] l v h = rw (with_entries-nil l)
append_entries_lem (e ∷ es) l v h =
    rw (append_entry_lem l e v (omega arith), ◌>>=◌, ← with_entries-cons l e es)
      (append_entries_lem es (extended l e e.epoch) (extended-IsValid l e e.epoch v (omega arith)) (
        omega (
          arith,
          length-append l.entries (
              record { epoch = e.epoch; index = suc (length l.entries); payload = e.payload } ∷ []),
        )))

pub passive_commit_lem :
    (l : SmrLog) (commit : ℕ)
    → passive_commit l commit
      ≡ ok (record l { commits = max l.commits (min commit (last_index l)) })
unfolding passive_commit
passive_commit_lem l commit =
    ground (arith, curr_commit_lem l, commit_to_lem l (min commit (last_index l)))

-- A message whose previous entry the log of a valid group does not hold is refused: the state stays
-- as it was, nothing is applied, and the one reply says failure and the last index.
pub handle_append_entries-refused :
    (s : Smr) (msg : AppendEntriesMessage) (from : ReplicaId)
    → IsValid s
    → ¬ Agrees s.log msg.prev_term msg.prev_index
    → handle_append_entries s msg from ≡ ok (s, reply_to s from false (last_index s.log) ∷ [])
unfolding handle_append_entries
handle_append_entries-refused s msg from v no_entry =
    elim (check_safety_cases s msg.prev_term msg.prev_index v) [
      | inl (agrees, _) ↦ absurd (no_entry agrees)
      | inr (_, unsafe) ↦ rw (unsafe, ◌>>=◌)
    ]

-- The log after a message that follows its last entry.
abbrev pub accepted : SmrLog → AppendEntriesMessage → SmrLog
accepted l msg = record (with_entries l msg.entries) {
  commits = max l.commits (min msg.commit (length l.entries + length msg.entries));
}

last_index-with_entries :
    (l : SmrLog) (es : List Entry)
    → Log.Valid.IsValid l
    → length l.entries + length es ≤ log_capacity
    → last_index (with_entries l es) ≡ length l.entries + length es
last_index-with_entries l es v h =
    last_index-length (with_entries l es) (with_entries-IsValid es l v h) ∙ length-with_entries l es

accepted-IsValid :
    (s : Smr) (msg : AppendEntriesMessage)
    → IsValid s
    → length s.log.entries + length msg.entries ≤ log_capacity
    → IsValid (record s { log = accepted s.log msg })
accepted-IsValid s msg v room = record {
  log_valid = committed_to-IsValid _ _ (with_entries-IsValid msg.entries s.log v.log_valid room);
  committed = omega (arith, v.committed, length-with_entries s.log msg.entries);
  history = v.history;
  tracks = v.tracks;
  me_in = v.me_in;
}

-- What a safe message that is not stale does to the log.
accept_fresh :
    (l : SmrLog) (msg : AppendEntriesMessage)
    → Log.Valid.IsValid l
    → length l.entries + length msg.entries ≤ log_capacity
    → accept l false msg ≡ ok (accepted l msg)
unfolding accept
accept_fresh l msg v room = rw (
  append_entries_lem msg.entries l v room,
  ◌>>=◌,
  passive_commit_lem (with_entries l msg.entries) msg.commit,
  last_index-with_entries l msg.entries v room,
)

-- The last entry of a log is found at the last index.
at_last_index : (l : SmrLog) → Log.Valid.IsValid l → entry_at l (last_index l) ≡ ok (last_entry l)
at_last_index l v = rw (last_index-length l v) (entry_at-last l v)

check_safety_in_sync :
    (s : Smr) (term i : ℕ)
    → IsValid s
    → i ≡ last_index s.log
    → term ≡ (last_entry s.log).epoch
    → check_safety s term i ≡ ok (true, false)
check_safety_in_sync s term i v prev same = elim (check_safety_cases s term i v) [
  | inl (_, e) ↦ e ∙ ap (λ (b : Bool). ok (true, b)) (ground arith)
  | inr (no_entry, _) ↦ absurd (
      no_entry (last_entry s.log, omega arith, rw prev (at_last_index s.log v.log_valid), sym same))
]

-- A message whose previous entry is the last one of a valid group, and for whose entries the log
-- has room, is taken: the entries go to the end of the log in order, with their epochs and payloads
-- and with the indices that follow, the commit index grows to the message's but not past the new
-- last entry, and never falls, and the one reply says success and the new last index. Nothing is
-- applied. The group stays valid.
pub handle_append_entries-in_sync :
    (s : Smr) (msg : AppendEntriesMessage) (from : ReplicaId)
    → IsValid s
    → msg.prev_index ≡ last_index s.log
    → msg.prev_term ≡ (last_entry s.log).epoch
    → length s.log.entries + length msg.entries ≤ log_capacity
    → (handle_append_entries s msg from
        ≡ ok (
          record s { log = accepted s.log msg },
          reply_to s from true (length s.log.entries + length msg.entries) ∷ [],
        ))
      × IsValid (record s { log = accepted s.log msg })
unfolding handle_append_entries
handle_append_entries-in_sync s msg from v prev term room = (
  rw (
    check_safety_in_sync s msg.prev_term msg.prev_index v prev term,
    ◌>>=◌,
    accept_fresh s.log msg v.log_valid room,
    last,
  ),
  accepted-IsValid s msg v room,
)
  where
    last : last_index (accepted s.log msg) ≡ length s.log.entries + length msg.entries
    last =
        last_index-length (accepted s.log msg) (accepted-IsValid s msg v room).log_valid
        ∙ length-with_entries s.log msg.entries
