-- ===== src/Smr/Applying.antt =====
-- A leader's group (core/smr.cpp) over a run of operations and replies: what has been committed is
-- what has been handed on to be applied.
use morphling_c.Base.{
  ℕ, suc, ◌≡◌, ◌≤◌, ◌<◌, inl, inr, refl, sym, ap, ◌∙◌, false, List, [], ◌∷◌, ◌++◌, append-nil,
  append_assoc, length, length-append, take, take-append, Result, ok, ◌>>=◌, arith, Bool-cases,
}
use morphling_c.Message.{Entry, ReplicaId, AppendEntriesReplyMessage, ClientMessage}
use morphling_c.Log.{SmrLog, log_capacity}
use morphling_c.Log.Valid.{last_index-length}
use morphling_c.Smr.{
  Smr, init, Callback, send_append_entry, send_append_entry_reply, apply, handle_operation,
  handle_append_entries_reply,
}
use morphling_c.Smr.Valid.{IsValid, init-IsValid}
use morphling_c.Smr.Leading.{new_entry, carrying, to_others, handle_operation-carrying}
use morphling_c.Smr.Committing.{
  applied, committed_entries, Led, handle_append_entries_reply-commits,
}

-- What happens to a leader: an operation of a client, or a reply of a replica.
pub data Event : Type 0 where
  operation : ClientMessage → Event
  reply : AppendEntriesReplyMessage → ReplicaId → Event

pub step : Smr → Event → Result (Smr × List Callback)
step s (operation msg) = do (s', cs, _) ← handle_operation s msg; ok (s', cs)
step s (reply msg from) = handle_append_entries_reply s msg from

pub lead : Smr → List Event → Result (Smr × List Callback)
lead s [] = ok (s, [])
lead s (e ∷ es) = do (s', cs) ← step s e; (s'', more) ← lead s' es; ok (s'', cs ++ more)

-- Events that a leader of `n` replicas with `len` entries can meet: there is room for each
-- operation, and a reply comes from a replica and names an entry that was there when it came.
abbrev pub Possible : ℕ → ℕ → List Event → Type 0
Possible n len [] = Unit {0}
Possible n len (operation msg ∷ es) = (len < log_capacity) × Possible n (suc len) es
Possible n len (reply msg from ∷ es) = (from < n) × (msg.index ≤ len) × Possible n len es

applied-append : (cs ds : List Callback) → applied (cs ++ ds) ≡ applied cs ++ applied ds
applied-append [] ds = refl
applied-append (apply es ∷ cs) ds = rw (applied-append cs ds) (sym (append_assoc es _ _))
applied-append (send_append_entry m ∷ cs) ds = applied-append cs ds
applied-append (send_append_entry_reply m ∷ cs) ds = applied-append cs ds

-- To send is not to apply.
applied-to_others :
    (l : SmrLog) (gid : ℕ) (e : Entry) (me : ReplicaId) (rids : List ReplicaId)
    → applied (to_others me (carrying l gid e) rids) ≡ []
applied-to_others l gid e me [] = refl
applied-to_others l gid e me (rid ∷ rids) = ground (arith, applied-to_others l gid e me rids)

operation-Led :
    (s : Smr) (msg : ClientMessage)
    → IsValid s
    → length s.log.entries < log_capacity
    → (s' : Smr) × (cs : List Callback) × (step s (operation msg) ≡ ok (s', cs))
      × Led s s' cs
      × (length s'.log.entries ≡ suc (length s.log.entries))
unfolding step
operation-Led s msg v room =
    let (s', e, log', valid, same_me, same_peers, _, _) = handle_operation-carrying s msg v room in
    (
      s',
      to_others s.me (carrying s.log s.gid (new_entry s.log msg)) s.peers,
      rw (e, ◌>>=◌),
      record {
        valid = valid;
        me = same_me;
        peers = same_peers;
        forward = rw log' (omega arith);
        exactly =
            rw (applied-to_others s.log s.gid (new_entry s.log msg) s.me s.peers, log')
              (append-nil (committed_entries s)
                ∙ sym (
                    take-append s.log.commits s.log.entries (new_entry s.log msg ∷ [])
                      v.committed));
      },
      rw log' (length-append s.log.entries (new_entry s.log msg ∷ []) ∙ omega arith),
    )

pub handle_append_entries_reply_failed :
    (s : Smr) (msg : AppendEntriesReplyMessage) (from : ReplicaId)
    → msg.success ≡ false
    → handle_append_entries_reply s msg from ≡ ok (s, [])
unfolding handle_append_entries_reply
handle_append_entries_reply_failed s msg from h = rw h

reply-Led :
    (s : Smr) (msg : AppendEntriesReplyMessage) (from : ReplicaId)
    → IsValid s
    → from < length s.peers
    → msg.index ≤ length s.log.entries
    → (s' : Smr) × (cs : List Callback) × (step s (reply msg from) ≡ ok (s', cs))
      × Led s s' cs
      × (length s'.log.entries ≡ length s.log.entries)
unfolding step
reply-Led s msg from v member held = elim (Bool-cases msg.success) [
  | inl success ↦
      let (s', cs, reached, e, _, log', led, _, _) =
        handle_append_entries_reply-commits s msg from v success member
          (omega (arith, held, last_index-length s.log v.log_valid)) in
      (s', cs, e, led, ap (λ (l : SmrLog). length l.entries) log')
  | inr failure ↦ (
    s,
    [],
    handle_append_entries_reply_failed s msg from failure,
    record {
      valid = v;
      me = refl;
      peers = refl;
      forward = omega arith;
      exactly = append-nil (committed_entries s);
    },
    refl,
  )
]

-- A step, and then the rest.
then-Led :
    (es : List Event) (s s1 : Smr) (e : Event) (cs1 : List Callback)
    → step s e ≡ ok (s1, cs1)
    → Led s s1 cs1
    → ((s' : Smr) × (cs : List Callback) × (lead s1 es ≡ ok (s', cs)) × Led s1 s' cs)
    → (s' : Smr) × (cs : List Callback) × (lead s (e ∷ es) ≡ ok (s', cs)) × Led s s' cs
unfolding lead
then-Led es s s1 e cs1 first led1 (s', cs, rest, led) = (
  s',
  cs1 ++ cs,
  rw (first, ◌>>=◌, rest),
  record {
    valid = led.valid;
    me = led.me ∙ led1.me;
    peers = led.peers ∙ led1.peers;
    forward = omega (arith, led.forward, led1.forward);
    exactly =
        ap (◌++◌ (committed_entries s)) (applied-append cs1 cs)
        ∙ sym (append_assoc (committed_entries s) (applied cs1) (applied cs))
        ∙ ap (λ (xs : List Entry). xs ++ applied cs) led1.exactly
        ∙ led.exactly;
  },
)

lead-Led :
    (es : List Event) (s : Smr)
    → IsValid s
    → Possible (length s.peers) (length s.log.entries) es
    → (s' : Smr) × (cs : List Callback) × (lead s es ≡ ok (s', cs)) × Led s s' cs
unfolding lead
lead-Led [] s v h = (
  s,
  [],
  refl,
  record {
    valid = v;
    me = refl;
    peers = refl;
    forward = omega arith;
    exactly = append-nil (committed_entries s);
  },
)
lead-Led (operation msg ∷ es) s v h =
    let (s1, cs1, e1, led1, size) = operation-Led s msg v h.0 in
    then-Led es s s1 (operation msg) cs1 e1 led1
      (lead-Led es s1 led1.valid (rw (led1.peers, size) h.1))
lead-Led (reply msg from ∷ es) s v h =
    let (s1, cs1, e1, led1, size) = reply-Led s msg from v h.0 h.1 in
    then-Led es s s1 (reply msg from) cs1 e1 led1
      (lead-Led es s1 led1.valid (rw (led1.peers, size) h.2))

-- A leader that starts with an empty log handles every sequence of events that it can meet, and at
-- the end the entries that it has handed on to be applied, over the whole run, are exactly the
-- entries of its log up to its commit index: each committed entry once, in the order of the log.
pub lead-applied :
    (me : ReplicaId) (peers : List ReplicaId) (gid : ℕ) (es : List Event)
    → me < length peers
    → Possible (length peers) 0 es
    → (s : Smr) × (cs : List Callback) × (lead (init me peers gid) es ≡ ok (s, cs))
      × (applied cs ≡ take s.log.commits s.log.entries)
      × (s.log.commits ≤ length s.log.entries)
unfolding init
lead-applied me peers gid es member h =
    let (s, cs, e, led) = lead-Led es (init me peers gid) (init-IsValid me peers gid member) h in
    (s, cs, e, led.exactly, led.valid.committed)
