-- ===== src/Smr.antt =====
-- The class `SMR` of core/smr.h and core/smr.cpp: one replicated group, as leader and as follower.
-- A method returns the new state and the callbacks that it makes, in order.
pub mod Valid
pub mod Leading
pub mod Following
pub mod Stale
pub mod Replication
pub mod Committing
pub mod Applying
use morphling_c.Base.{
  ℕ, ◌+◌, Bool, true, false, not, ◌||◌, List, [], ◌∷◌, ◌++◌, Option, none, some, Dict, lookup,
  insert, length, ltb, ◌==◌, if◌then◌else◌, min, Result, ok, ◌>>=◌, add_u64, sub_u64,
}
use morphling_c.Message.{
  Entry, ReplicaId, AppendEntriesMessage, AppendEntriesReplyMessage, ClientMessage, GenericMessage,
  append, append_reply,
}
use morphling_c.Log.{
  SmrLog, last_entry, last_index, append_entry, truncate, entry_at, get_part_entries,
  get_tail_entries, commit_to, curr_commit,
}
use morphling_c.Log
use morphling_c.Votes.{EntryVoteRecord, vote}
use morphling_c.Votes

-- `SMRMessageCallback`: the three functions that a group calls.
pub data Callback : Type 0 where
  send_append_entry : GenericMessage → Callback
  send_append_entry_reply : GenericMessage → Callback
  apply : List Entry → Callback

pub record PeerStatus : Type 0 where
  pub match : ℕ
  pub next : ℕ

pub record Smr : Type 0 where
  pub log : SmrLog
  pub gid : ℕ
  pub me : ReplicaId
  pub peers : List ReplicaId
  pub entry_votes : EntryVoteRecord
  pub prs : Dict PeerStatus

abbrev pub no_status : PeerStatus
no_status = record { match = 0; next = 0 }

-- The loop of `SMR::init`.
unfoldable pub init_prs : List ReplicaId → Dict PeerStatus → Dict PeerStatus
init_prs [] prs = prs
init_prs (id ∷ ids) prs = init_prs ids (insert id no_status prs)

-- A new group, after `set_gid`.
unfoldable pub init : ReplicaId → List ReplicaId → ℕ → Smr
unfolding init_prs
init me peers gid = record {
  log = Log.empty;
  gid = gid;
  me = me;
  peers = peers;
  entry_votes = Votes.init (length peers);
  prs = init_prs peers [];
}

-- `m_prs[id]` as a value, and as an access that makes a missing entry.
unfoldable pub status_of : ReplicaId → Dict PeerStatus → PeerStatus
status_of id prs = elim (lookup id prs) [ none ↦ no_status | some s ↦ s ]

unfoldable pub touch : ReplicaId → Dict PeerStatus → Dict PeerStatus
unfolding status_of
touch id prs = insert id (status_of id prs) prs

-- The sender and its epoch are left at 0 here, and `prepare_msgs` fills them in.
unfoldable pub send_append_entries : Smr → ReplicaId → Result (Smr × List Callback)
send_append_entries s to = do
  let next = (status_of to s.prs).next
  let prev_idx = sub_u64 next 1
  prev ← entry_at s.log prev_idx
  entries ← get_tail_entries s.log next
  let append_msg =
      let m : AppendEntriesMessage = record {
        from = 0;
        epoch = 0;
        prev_term = prev.epoch;
        prev_index = prev_idx;
        commit = curr_commit s.log;
        group_id = s.gid;
        entries = entries;
      } in
      m
  ok (
    record s { prs = touch to s.prs },
    send_append_entry (record { to = to; body = append append_msg }) ∷ [],
  )

-- The body of the loop in `handle_operation`.
unfoldable pub send_to_peer : ReplicaId → ℕ → Smr → Result (Smr × List Callback)
send_to_peer rid last_idx s =
    if rid == s.me
    then ok (s, [])
    else send_append_entries
        (record s { prs = insert rid (record (status_of rid s.prs) { next = last_idx }) s.prs }) rid

unfoldable pub send_to_peers : List ReplicaId → ℕ → Smr → Result (Smr × List Callback)
send_to_peers [] last_idx s = ok (s, [])
send_to_peers (rid ∷ rids) last_idx s = do
  (s', sent) ← send_to_peer rid last_idx s
  (s'', more) ← send_to_peers rids last_idx s'
  ok (s'', sent ++ more)

-- Also the index of the new entry.
unfoldable pub handle_operation : Smr → ClientMessage → Result (Smr × List Callback × ℕ)
handle_operation s msg = do
  (log, last_idx) ← Log.append s.log (record { epoch = 0; index = 0; payload = msg.op }) msg.epoch
  (votes, _) ← vote s.entry_votes s.me last_idx
  let s' = record s {
    log = log;
    entry_votes = votes;
    prs = insert s.me (record { match = last_idx; next = add_u64 last_idx 1 }) s.prs;
  }
  (s'', sent) ← send_to_peers s.peers last_idx s'
  ok (s'', sent, last_idx)

-- Whether a message is safe, and whether it is stale.
unfoldable pub check_safety : Smr → ℕ → ℕ → Result (Bool × Bool)
check_safety s prev_term prev_index =
    let last = last_entry s.log in
    if ltb prev_index last.index
    then (do
      te ← entry_at s.log prev_index
      if prev_term == te.epoch then ok (true, true) else ok (false, false))
    else (if prev_index == last.index
        then (if prev_term == last.epoch then ok (true, false) else ok (false, false))
        else ok (false, false))

-- The loop that appends the entries of a message.
unfoldable pub append_entries : SmrLog → List Entry → Result SmrLog
append_entries l [] = ok l
append_entries l (e ∷ es) = do (l', _) ← append_entry l e; append_entries l' es

-- The inner loop of `handle_stale_entries`: `itr` moves on to the end of the message, and `e` stays
-- the entry at which it began.
unfoldable pub append_rest : SmrLog → Entry → List Entry → Result SmrLog
append_rest l e [] = ok l
append_rest l e (_ ∷ itr) = do (l', _) ← append_entry l e; append_rest l' e itr

-- The outer loop of `handle_stale_entries`, with the last index at its start.
unfoldable pub scan_stale : SmrLog → ℕ → List Entry → Result SmrLog
scan_stale l last [] = ok l
scan_stale l last (x ∷ itr) = do
  e ← entry_at l x.index
  if ltb last x.index || not (e.epoch == x.epoch)
      then (do l' ← truncate l x.index; append_rest l' x (x ∷ itr))
      else scan_stale l last itr

unfoldable pub handle_stale_entries : SmrLog → List Entry → Result SmrLog
handle_stale_entries l entries = scan_stale l (last_index l) entries

-- The follower's commit index grows to that of the leader, up to the last entry.
unfoldable pub passive_commit : SmrLog → ℕ → Result SmrLog
passive_commit l commit =
    if ltb (curr_commit l) commit
    then (do (l', _) ← commit_to l (min commit (last_index l)); ok l')
    else ok l

-- What a safe message does to the log.
unfoldable pub accept : SmrLog → Bool → AppendEntriesMessage → Result SmrLog
accept l stale msg = do
  l' ← if stale then handle_stale_entries l msg.entries else append_entries l msg.entries
  passive_commit l' msg.commit

abbrev pub reply_to : Smr → ReplicaId → Bool → ℕ → Callback
reply_to s to success index = send_append_entry_reply (record {
  to = to;
  body =
      append_reply
        (record { from = 0; epoch = 0; success = success; group_id = s.gid; index = index });
})

unfoldable pub handle_append_entries :
    Smr → AppendEntriesMessage → ReplicaId → Result (Smr × List Callback)
handle_append_entries s msg from = do
  (safe, stale) ← check_safety s msg.prev_term msg.prev_index
  log ← if safe then accept s.log stale msg else ok s.log
  ok (record s { log = log }, reply_to s from safe (last_index log) ∷ [])

-- The entry with the given index has its quorum.
unfoldable pub commit_and_apply : Smr → ℕ → Result (Smr × List Callback)
commit_and_apply s index = do
  let old_commit = curr_commit s.log
  (log, grown) ← commit_to s.log index
  if grown
      then (do
        es ← get_part_entries log (add_u64 old_commit 1) index
        ok (record s { log = log }, apply es ∷ []))
      else ok (record s { log = log }, [])

unfoldable pub handle_append_entries_reply :
    Smr → AppendEntriesReplyMessage → ReplicaId → Result (Smr × List Callback)
handle_append_entries_reply s msg from =
    if msg.success
    then (do
      (votes, reached) ← vote s.entry_votes from msg.index
      if reached
          then commit_and_apply (record s { entry_votes = votes }) msg.index
          else ok (record s { entry_votes = votes }, []))
    else ok (s, [])
