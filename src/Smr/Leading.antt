-- ===== src/Smr/Leading.antt =====
-- `SMR::handle_operation` (core/smr.cpp): what a leader appends and sends.
use morphling_c.Base.{
  ℕ, suc, ◌≡◌, ◌<◌, refl, ap, ◌∙◌, List, [], ◌∷◌, ◌++◌, Dict, insert, lookup-insert_self, length,
  length-append, ◌==◌, if◌then◌else◌, ok, fault, dangling, ◌>>=◌, add_u64, sub_u64, Bool-cases, inl,
  inr, arith,
}
use morphling_c.Message.{Entry, ReplicaId, ClientMessage, append}
use morphling_c.Log
use morphling_c.Log.{SmrLog, log_capacity, last_entry, entry_at, get_tail_entries, curr_commit}
use morphling_c.Log.Valid.{
  extended, append_lem, append_full, extended-IsValid, entry_at-last, get_tail_entries_last,
  last_index-length, curr_commit_lem,
}
use morphling_c.Log.Methods.{entry_at-extended}
use morphling_c.Votes.{vote}
use morphling_c.Votes.Tracks.{Voted, vote-Voted}
use morphling_c.Smr.{
  Smr, Callback, send_append_entry, PeerStatus, status_of, touch, send_append_entries, send_to_peer,
  send_to_peers, handle_operation,
}
use morphling_c.Smr.Valid.{IsValid}

-- The entry that an operation becomes at the end of a log.
abbrev pub new_entry : SmrLog → ClientMessage → Entry
new_entry l msg = record { epoch = msg.epoch; index = suc (length l.entries); payload = msg.op }

-- The message that carries an entry to replica `to`: the entry alone, after the last one of the log
-- `l` as it was before.
abbrev pub carrying : SmrLog → ℕ → Entry → ReplicaId → Callback
carrying l gid e to = send_append_entry (record {
  to = to;
  body = append (record {
    from = 0;
    epoch = 0;
    prev_term = (last_entry l).epoch;
    prev_index = length l.entries;
    commit = l.commits;
    group_id = gid;
    entries = e ∷ [];
  });
})

-- One message to every peer but the sender, in the order of the peers.
abbrev pub to_others : ReplicaId → (ReplicaId → Callback) → List ReplicaId → List Callback
to_others me message [] = []
to_others me message (rid ∷ rids) =
    if rid == me then to_others me message rids else message rid ∷ to_others me message rids

-- A group whose log has just taken the operation.
record Appended (l : SmrLog) (msg : ClientMessage) (s : Smr) : Type 0 where
  grown : s.log ≡ extended l (record { epoch = 0; index = 0; payload = msg.op }) msg.epoch
  before : Log.Valid.IsValid l
  room : length l.entries < log_capacity

status_of-insert :
    (id : ReplicaId) (st : PeerStatus) (prs : Dict PeerStatus)
    → status_of id (insert id st prs) ≡ st
unfolding status_of
status_of-insert id st prs = ground (arith, lookup-insert_self id st prs)

module _ (l : SmrLog) (msg : ClientMessage) (s : Smr) (a : Appended l msg s) where
  open a use {grown, before, room}

  abbrev added : Entry
  added = record { epoch = 0; index = 0; payload = msg.op }

  prev_found : entry_at s.log (length l.entries) ≡ ok (last_entry l)
  prev_found = rw grown (
      entry_at-extended l added msg.epoch (length l.entries) before room (omega arith)
      ∙ entry_at-last l before)

  tail_found : get_tail_entries s.log (suc (length l.entries)) ≡ ok (new_entry l msg ∷ [])
  tail_found = rw grown (
      get_tail_entries_last (extended l added msg.epoch) (new_entry l msg) l.entries
        (extended-IsValid l added msg.epoch before room) refl)

  same_commit : curr_commit s.log ≡ l.commits
  same_commit = rw grown (curr_commit_lem _)

  send_append_entries_lem :
      (to : ReplicaId)
      → (status_of to s.prs).next ≡ suc (length l.entries)
      → send_append_entries s to
        ≡ ok (record s { prs = touch to s.prs }, carrying l s.gid (new_entry l msg) to ∷ [])
  unfolding send_append_entries
  send_append_entries_lem to e = rw (e, prev_at, prev_found, ◌>>=◌, tail_found, same_commit)
    where
      prev_at : sub_u64 (suc (length l.entries)) 1 ≡ length l.entries
      prev_at = omega (arith, room)

send_to_peer_lem :
    (l : SmrLog) (msg : ClientMessage) (rid : ReplicaId) (s : Smr)
    → Appended l msg s
    → (prs : Dict PeerStatus) × (send_to_peer rid (suc (length l.entries)) s
        ≡ ok (
          record s { prs = prs },
          to_others s.me (carrying l s.gid (new_entry l msg)) (rid ∷ []),
        ))
unfolding send_to_peer
send_to_peer_lem l msg rid s a = elim (Bool-cases (rid == s.me)) [
  | inl own ↦ (s.prs, rw own)
  | inr other ↦
      let next : PeerStatus = record (status_of rid s.prs) { next = suc (length l.entries) } in
      let s' : Smr = record s { prs = insert rid next s.prs } in
      let a' : Appended l msg s' = record { grown = a.grown; before = a.before; room = a.room } in
      (
        touch rid (insert rid next s.prs),
        rw other (
            send_append_entries_lem l msg s' a' rid
              (ap (λ (st : PeerStatus). st.next) (status_of-insert rid next s.prs))),
      )
]

-- The loop sends to each peer, and changes nothing but the status of the peers.
send_to_peers_lem :
    (l : SmrLog) (msg : ClientMessage) (rids : List ReplicaId) (s : Smr)
    → Appended l msg s
    → (prs : Dict PeerStatus) × (send_to_peers rids (suc (length l.entries)) s
        ≡ ok (record s { prs = prs }, to_others s.me (carrying l s.gid (new_entry l msg)) rids))
unfolding send_to_peers
send_to_peers_lem l msg [] s a = (s.prs, refl)
send_to_peers_lem l msg (rid ∷ rids) s a =
    let (prs, first) = send_to_peer_lem l msg rid s a in
    let s' : Smr = record s { prs = prs } in
    let a' : Appended l msg s' = record { grown = a.grown; before = a.before; room = a.room } in
    let (prs', rest) = send_to_peers_lem l msg rids s' a' in
    (prs', rw (first, ◌>>=◌, rest) (ground arith))

-- A valid group whose log has room takes an operation: `handle_operation` returns the index after
-- the last one, appends the operation at that index under the client's epoch and changes nothing
-- else in the log, and calls back once for every peer other than itself, in the order of the peers,
-- with a message that carries just the new entry, the index and epoch of the entry before it, the
-- commit index and the group. The group stays valid, and its history of votes grows by its own
-- vote for the new entry.
pub handle_operation-carrying :
    (s : Smr) (msg : ClientMessage) (v : IsValid s)
    → length s.log.entries < log_capacity
    → (s' : Smr) × (handle_operation s msg
        ≡ ok (
          s',
          to_others s.me (carrying s.log s.gid (new_entry s.log msg)) s.peers,
          suc (length s.log.entries),
        ))
      × (s'.log ≡ record s.log { entries = s.log.entries ++ new_entry s.log msg ∷ [] })
      × (v' : IsValid s') × (s'.me ≡ s.me)
      × (s'.peers ≡ s.peers)
      × (s'.gid ≡ s.gid)
      × (v'.history ≡ (s.me, suc (length s.log.entries)) ∷ v.history)
unfolding handle_operation
handle_operation-carrying s msg v room = (
  record stored { prs = sent.0 },
  rw (append_lem s.log added msg.epoch v.log_valid room, ◌>>=◌, w.returns, sent.1),
  refl,
  record {
    log_valid = extended-IsValid s.log added msg.epoch v.log_valid room;
    committed = omega (arith, length-append s.log.entries (new_entry s.log msg ∷ []), v.committed);
    history = (s.me, suc (length s.log.entries)) ∷ v.history;
    tracks = w.tracks;
    me_in = v.me_in;
  },
  refl,
  refl,
  refl,
  refl,
)
  where
    added : Entry
    added = record { epoch = 0; index = 0; payload = msg.op }

    w :
        Voted
          (length s.peers)
          s.entry_votes
          v.history
          s.me
          (suc (length s.log.entries))
          (vote s.entry_votes s.me (suc (length s.log.entries)))
    w = vote-Voted (length s.peers) s.entry_votes v.history s.me _ v.tracks v.me_in

    own : PeerStatus
    own = record {
      match = suc (length s.log.entries);
      next = add_u64 (suc (length s.log.entries)) 1;
    }

    stored : Smr
    stored = record s {
      log = extended s.log added msg.epoch;
      entry_votes = w.after;
      prs = insert s.me own s.prs;
    }

    is_appended : Appended s.log msg stored
    is_appended = record { grown = refl; before = v.log_valid; room = room }

    sent :
        (prs : Dict PeerStatus) × (send_to_peers s.peers (suc (length s.log.entries)) stored
          ≡ ok (
            record stored { prs = prs },
            to_others s.me (carrying s.log s.gid (new_entry s.log msg)) s.peers,
          ))
    sent = send_to_peers_lem s.log msg s.peers stored is_appended

-- A group whose log is full is lost with the next operation.
pub handle_operation_full :
    (s : Smr) (msg : ClientMessage)
    → length s.log.entries ≡ log_capacity
    → handle_operation s msg ≡ fault dangling
unfolding handle_operation
handle_operation_full s msg full =
    rw (append_full s.log (record { epoch = 0; index = 0; payload = msg.op }) msg.epoch full, ◌>>=◌)
