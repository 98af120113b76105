-- ===== src/Smr/Replication.antt =====
-- From `SMR::handle_operation` on a leader to `SMR::handle_append_entries` on a follower
-- (core/smr.cpp): messages delivered in order make the follower's log a copy of the leader's.
use morphling_c.Base.{
  ℕ, suc, ◌+◌, ◌≡◌, ◌≤◌, ◌<◌, ◌≢◌, refl, sym, ap, ◌∙◌, true, List, [], ◌∷◌, ◌++◌, append_assoc,
  append-nil, length, length-append, last_or, ◌==◌, if◌then◌else◌, Result, ok, ◌>>=◌, arith,
}
use morphling_c.Message.{Entry, ReplicaId, AppendEntriesMessage, ClientMessage, Body, append}
use morphling_c.Log
use morphling_c.Log.{SmrLog, log_capacity, last_entry, last_index}
use morphling_c.Log.Valid.{last_entry_lem, last_index-length}
use morphling_c.Smr.{
  Smr, Callback, send_append_entry, send_append_entry_reply, apply, reply_to, handle_operation,
  handle_append_entries,
}
use morphling_c.Smr.Valid.{IsValid}
use morphling_c.Smr.Leading.{new_entry, carrying, to_others, handle_operation-carrying}
use morphling_c.Smr.Following.{accepted, handle_append_entries-in_sync}

-- A leader's operations in order, with all the callbacks.
pub lead_all : Smr → List ClientMessage → Result (Smr × List Callback)
lead_all s [] = ok (s, [])
lead_all s (msg ∷ msgs) = do
  (s', sent, _) ← handle_operation s msg
  (s'', more) ← lead_all s' msgs
  ok (s'', sent ++ more)

-- The entries messages addressed to one replica, in the order of sending.
abbrev pub entries_message : Body → List AppendEntriesMessage
entries_message (append msg) = msg ∷ []
entries_message _ = []

abbrev pub messages_to : ReplicaId → List Callback → List AppendEntriesMessage
messages_to to [] = []
messages_to to (send_append_entry m ∷ cs) =
    (if m.to == to then entries_message m.body else []) ++ messages_to to cs
messages_to to (_ ∷ cs) = messages_to to cs

-- A follower's handling of messages in order.
pub follow_all : Smr → List AppendEntriesMessage → ReplicaId → Result Smr
follow_all f [] from = ok f
follow_all f (msg ∷ msgs) from = do
  (f', _) ← handle_append_entries f msg from
  follow_all f' msgs from

-- How often a replica is listed.
abbrev pub listed : ReplicaId → List ReplicaId → ℕ
listed to [] = 0
listed to (rid ∷ rids) = (if rid == to then 1 else 0) + listed to rids

messages_to-append :
    (to : ReplicaId) (cs ds : List Callback)
    → messages_to to (cs ++ ds) ≡ messages_to to cs ++ messages_to to ds
messages_to-append to [] ds = refl
messages_to-append to (send_append_entry m ∷ cs) ds =
    rw (messages_to-append to cs ds)
      (sym (append_assoc (if m.to == to then entries_message m.body else []) _ _))
messages_to-append to (send_append_entry_reply m ∷ cs) ds = messages_to-append to cs ds
messages_to-append to (apply es ∷ cs) ds = messages_to-append to cs ds

-- The message of a callback that `carrying` makes.
abbrev carried : SmrLog → ℕ → Entry → AppendEntriesMessage
carried l gid e = record {
  from = 0;
  epoch = 0;
  prev_term = (last_entry l).epoch;
  prev_index = length l.entries;
  commit = l.commits;
  group_id = gid;
  entries = e ∷ [];
}

-- A replica that is not listed gets nothing, and one that is listed once gets one message.
messages_to-others_none :
    (l : SmrLog) (gid : ℕ) (e : Entry) (me to : ReplicaId) (rids : List ReplicaId)
    → listed to rids ≡ 0
    → messages_to to (to_others me (carrying l gid e) rids) ≡ []
messages_to-others_none l gid e me to [] h = refl
messages_to-others_none l gid e me to (rid ∷ rids) h =
    ground (arith, messages_to-others_none l gid e me to rids)

messages_to-others :
    (l : SmrLog) (gid : ℕ) (e : Entry) (me to : ReplicaId) (rids : List ReplicaId)
    → to ≢ me
    → listed to rids ≡ 1
    → messages_to to (to_others me (carrying l gid e) rids) ≡ carried l gid e ∷ []
messages_to-others l gid e me to [] ne h = absurd (omega arith)
messages_to-others l gid e me to (rid ∷ rids) ne h =
    ground
      (arith, messages_to-others l gid e me to rids, messages_to-others_none l gid e me to rids)

pub last_or-epoch :
    (d d' : Entry) (es : List Entry)
    → d.epoch ≡ d'.epoch
    → (last_or d es).epoch ≡ (last_or d' es).epoch
last_or-epoch d d' [] h = h
last_or-epoch d d' (e ∷ es) h = refl

-- Valid logs with the same entries end in entries of the same epoch, empty ones included.
last_entry-epoch :
    (l l' : SmrLog)
    → Log.Valid.IsValid l
    → Log.Valid.IsValid l'
    → l.entries ≡ l'.entries
    → (last_entry l).epoch ≡ (last_entry l').epoch
last_entry-epoch l l' v v' same =
    rw (last_entry_lem l, last_entry_lem l', same)
      (last_or-epoch l.dummy_entry l'.dummy_entry l'.entries (v.dummy_epoch ∙ sym v'.dummy_epoch))

-- One operation, from the leader to a follower with the same entries.
module _ (s f : Smr) (msg : ClientMessage) (v : IsValid s) (w : IsValid f)
    (same : f.log.entries ≡ s.log.entries) (room : length s.log.entries < log_capacity) where
  follow_one :
      (from : ReplicaId)
      → (handle_append_entries f (carried s.log s.gid (new_entry s.log msg)) from
          ≡ ok (
            record f { log = accepted f.log (carried s.log s.gid (new_entry s.log msg)) },
            reply_to f from true (length f.log.entries + 1) ∷ [],
          ))
        × IsValid (record f { log = accepted f.log (carried s.log s.gid (new_entry s.log msg)) })
        × ((accepted f.log (carried s.log s.gid (new_entry s.log msg))).entries
            ≡ s.log.entries ++ new_entry s.log msg ∷ [])
  follow_one from =
      let (e, valid) =
        handle_append_entries-in_sync f (carried s.log s.gid (new_entry s.log msg)) from w
          (omega (arith, last_index-length f.log w.log_valid, ap length same))
          (last_entry-epoch s.log f.log v.log_valid w.log_valid (sym same))
          (omega (arith, ap length same)) in
      (e, valid, rw same)

-- The entries that operations become, with indices from `k` on.
abbrev pub entries_of : ℕ → List ClientMessage → List Entry
entries_of k [] = []
entries_of k (msg ∷ msgs) =
    record { epoch = msg.epoch; index = k; payload = msg.op } ∷ entries_of (suc k) msgs

-- Take a valid leader and a valid follower with the same entries, where the follower is listed once
-- among the leader's peers and is not the leader, and operations for which the log has room. The
-- leader takes them all, and its log grows by their entries, in order and numbered on. The
-- follower, given the messages that the leader addressed to it in the order of sending, takes them
-- all, and its log then has the same entries as the leader's.
pub replicate_all :
    (msgs : List ClientMessage) (s f : Smr) (from to : ReplicaId)
    → IsValid s
    → IsValid f
    → f.log.entries ≡ s.log.entries
    → to ≢ s.me
    → listed to s.peers ≡ 1
    → length s.log.entries + length msgs ≤ log_capacity
    → (s' f' : Smr) × (cs : List Callback) × (lead_all s msgs ≡ ok (s', cs))
      × (s'.log.entries ≡ s.log.entries ++ entries_of (suc (length s.log.entries)) msgs)
      × (follow_all f (messages_to to cs) from ≡ ok f')
      × (f'.log.entries ≡ s'.log.entries)
unfolding lead_all follow_all
replicate_all [] s f from to v w same ne once room =
    (s, f, [], refl, sym (append-nil s.log.entries), refl, same)
replicate_all (msg ∷ msgs) s f from to v w same ne once room =
    let (s1, led, log1, v1, me1, peers1, _, _) = handle_operation-carrying s msg v (omega arith) in
    let (followed, w1, entries1) = follow_one s f msg v w same (omega arith) from in
    let grown : s1.log.entries ≡ s.log.entries ++ new_entry s.log msg ∷ [] =
      ap (λ (l : SmrLog). l.entries) log1 in
    let size : length s1.log.entries ≡ suc (length s.log.entries) =
      ap length grown ∙ length-append s.log.entries (new_entry s.log msg ∷ []) ∙ omega arith in
    let (s2, f2, cs, led_all, grown_all, followed_all, alike) =
      replicate_all msgs s1 _ from to v1 w1 (entries1 ∙ sym grown) (rw me1 ne) (rw peers1 once)
        (omega arith) in
    (
      s2,
      f2,
      to_others s.me (carrying s.log s.gid (new_entry s.log msg)) s.peers ++ cs,
      rw (led, ◌>>=◌, led_all),
      grown_all ∙ rw (size, grown) (append_assoc s.log.entries (new_entry s.log msg ∷ []) _),
      rw
          (
            messages_to-append to
                (to_others s.me (carrying s.log s.gid (new_entry s.log msg)) s.peers) cs,
            messages_to-others s.log s.gid (new_entry s.log msg) s.me to s.peers ne once,
            followed,
            ◌>>=◌,
          )
          followed_all,
      alike,
    )
