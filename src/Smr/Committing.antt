-- ===== src/Smr/Committing.antt =====
-- `SMR::handle_append_entries_reply` (core/smr.cpp): when a leader commits, and what it hands on to
-- be applied.
use Prim.Native.Nat.{max}
use morphling_c.Base.{
  ℕ, zero, suc, ◌+◌, ◌-◌, ◌/◌, ◌≡◌, ◌≤◌, ◌<◌, ◌↔◌, inl, inr, refl, ap, ◌∙◌, Bool, true, List, [],
  ◌∷◌, ◌++◌, append-nil, length, take, drop, take-append-slice, ltb, ltb→lt, if◌then◌else◌, ok,
  ◌>>=◌, add_u64, arith, Bool-cases,
}
use morphling_c.Message.{Entry, ReplicaId, AppendEntriesReplyMessage}
use morphling_c.Log
use morphling_c.Log.{SmrLog, log_capacity, last_index, commit_to, get_part_entries, curr_commit}
use morphling_c.Log.Valid.{last_index-length, curr_commit_lem, get_part_entries_lem}
use morphling_c.Log.Methods.{commit_to_lem}
use morphling_c.Votes.{vote}
use morphling_c.Votes.Tally.{voters}
use morphling_c.Votes.Tracks.{Voted, vote-Voted}
use morphling_c.Smr.{Smr, Callback, apply, commit_and_apply, handle_append_entries_reply}
use morphling_c.Smr.Valid.{IsValid, committed_to-IsValid}

-- The entries handed on to be applied, in order.
abbrev pub applied : List Callback → List Entry
applied [] = []
applied (apply es ∷ cs) = es ++ applied cs
applied (_ ∷ cs) = applied cs

-- Nothing but calls of `apply`.
abbrev pub OnlyApplies : List Callback → Type 0
OnlyApplies [] = Unit {0}
OnlyApplies (apply es ∷ cs) = OnlyApplies cs
OnlyApplies (_ ∷ cs) = ⊥

-- The entries of a group up to its commit index.
abbrev pub committed_entries : Smr → List Entry
committed_entries s = take s.log.commits s.log.entries

-- The entries after `c`, up to `index`.
get_part_entries_after :
    (l : SmrLog) (c index : ℕ)
    → Log.Valid.IsValid l
    → c < index
    → index ≤ length l.entries
    → get_part_entries l (add_u64 c 1) index ≡ ok (take (index - c) (drop c l.entries))
get_part_entries_after l c zero v lt le = absurd (omega arith)
get_part_entries_after l c (suc b) v lt le =
    let next : add_u64 c 1 ≡ suc c = omega (arith, v.room) in
    rw next (get_part_entries_lem l c b v (omega arith) (omega arith))

-- What a commit of `index` does to a valid group.
module _ (s : Smr) (index : ℕ) (v : IsValid s) (held : index ≤ last_index s.log) where
  within : index ≤ length s.log.entries
  within = omega (arith, held, last_index-length s.log v.log_valid)

  commit_to_held :
      commit_to s.log index
      ≡ ok (record s.log { commits = max s.log.commits index }, ltb s.log.commits index)
  commit_to_held = elim (commit_to_lem s.log index) [
    | inl (above, _) ↦ absurd (omega (arith, held))
    | inr (grown, _, e, exact) ↦
        e
        ∙ ap (λ (b : Bool). ok (record s.log { commits = max s.log.commits index }, b))
            (ground (arith, exact))
  ]

  commit_and_apply_old : index ≤ s.log.commits → commit_and_apply s index ≡ ok (s, [])
  unfolding commit_and_apply
  commit_and_apply_old le = ground (arith, commit_to_held)

  commit_and_apply_new :
      s.log.commits < index
      → commit_and_apply s index
        ≡ ok (
          record s { log = record s.log { commits = index } },
          apply (take (index - s.log.commits) (drop s.log.commits s.log.entries)) ∷ [],
        )
  unfolding commit_and_apply
  commit_and_apply_new lt = ground (
    arith,
    commit_to_held,
    curr_commit_lem s.log,
    get_part_entries_after (record s.log { commits = index }) s.log.commits index
        (committed_to-IsValid s.log index v.log_valid) lt within,
  )

-- What a step of a leader leaves behind: a valid group with the same peers, and, after the entries
-- that were committed before, just the entries handed on make the entries that are committed now.
pub record Led (s s' : Smr) (cs : List Callback) : Type 0 where
  pub valid : IsValid s'
  pub me : s'.me ≡ s.me
  pub peers : s'.peers ≡ s.peers
  pub forward : s.log.commits ≤ s'.log.commits
  pub exactly : committed_entries s ++ applied cs ≡ committed_entries s'

pub committed-IsValid :
    (s : Smr) (c : ℕ)
    → IsValid s
    → c ≤ length s.log.entries
    → IsValid (record s { log = record s.log { commits = c } })
committed-IsValid s c v h = record {
  log_valid = committed_to-IsValid s.log c v.log_valid;
  committed = h;
  history = v.history;
  tracks = v.tracks;
  me_in = v.me_in;
}

commit_and_apply-Led :
    (s : Smr) (index : ℕ) (v : IsValid s)
    → index ≤ last_index s.log
    → (s' : Smr) × (cs : List Callback) × (commit_and_apply s index ≡ ok (s', cs))
      × (led : Led s s' cs) × (s'.log ≡ record s.log { commits = max s.log.commits index })
      × (led.valid.history ≡ v.history)
      × OnlyApplies cs
unfolding committed-IsValid
commit_and_apply-Led s index v held = elim (Bool-cases (ltb s.log.commits index)) [
  | inl newer ↦ (
    record s { log = record s.log { commits = index } },
    apply (take (index - s.log.commits) (drop s.log.commits s.log.entries)) ∷ [],
    commit_and_apply_new s index v held (ltb→lt _ _ newer),
    record {
      valid = committed-IsValid s index v (within s index v held);
      me = refl;
      peers = refl;
      forward = ground arith;
      exactly =
          ap (◌++◌ (committed_entries s)) (append-nil _)
          ∙ take-append-slice s.log.commits (index - s.log.commits) s.log.entries
          ∙ ap (λ (n : ℕ). take n s.log.entries) (ground arith);
    },
    ground arith,
    refl,
    tt,
  )
  | inr older ↦ (
    s,
    [],
    commit_and_apply_old s index v held (ground arith),
    record { valid = v; me = refl; peers = refl; forward = omega arith; exactly = append-nil _ },
    ground arith,
    refl,
    tt,
  )
]

-- A reply that reports success from a member of a valid group's cluster, for an index that the log
-- holds, moves the commit index exactly if it brings the number of distinct replicas that voted for
-- that index up to the majority, and then to that index, unless it is there or beyond already. What
-- the step hands on to be applied is just what it commits, it calls back for nothing else, the group stays valid with the same
-- id and peers, and its history of votes grows by the one of the reply.
pub handle_append_entries_reply-commits :
    (s : Smr) (msg : AppendEntriesReplyMessage) (from : ReplicaId) (v : IsValid s)
    → msg.success ≡ true
    → from < length s.peers
    → msg.index ≤ last_index s.log
    → (s' : Smr) × (cs : List Callback) × (reached : Bool) × (handle_append_entries_reply s msg from
        ≡ ok (s', cs))
      × ((reached ≡ true) ↔ (
          (voters (length s.peers) msg.index v.history < length s.peers / 2 + 1)
          × (length s.peers / 2 + 1
              ≤ voters (length s.peers) msg.index ((from, msg.index) ∷ v.history))))
      × (s'.log ≡ record s.log {
        commits = if reached then max s.log.commits msg.index else s.log.commits;
      })
      × (led : Led s s' cs) × (led.valid.history ≡ (from, msg.index) ∷ v.history)
      × OnlyApplies cs
unfolding handle_append_entries_reply
handle_append_entries_reply-commits s msg from v success member held = elim (Bool-cases w.reached) [
  | inl full ↦
      let (s', cs, e, led, log', hist, quiet) =
        commit_and_apply-Led counted msg.index counted-IsValid held in
      (
        s',
        cs,
        w.reached,
        rw (success, w.returns, ◌>>=◌, full) e,
        w.exact,
        rw full log',
        record {
          valid = led.valid;
          me = led.me;
          peers = led.peers;
          forward = led.forward;
          exactly = led.exactly;
        },
        hist,
        quiet,
      )
  | inr short ↦ (
    counted,
    [],
    w.reached,
    rw (success, w.returns, ◌>>=◌, short),
    w.exact,
    rw short,
    record {
      valid = counted-IsValid;
      me = refl;
      peers = refl;
      forward = omega arith;
      exactly = append-nil (committed_entries s);
    },
    refl,
    tt,
  )
]
  where
    w :
        Voted
          (length s.peers)
          s.entry_votes
          v.history
          from
          msg.index
          (vote s.entry_votes from msg.index)
    w = vote-Voted (length s.peers) s.entry_votes v.history from msg.index v.tracks member

    counted : Smr
    counted = record s { entry_votes = w.after }

    counted-IsValid : IsValid counted
    counted-IsValid = record {
      log_valid = v.log_valid;
      committed = v.committed;
      history = (from, msg.index) ∷ v.history;
      tracks = w.tracks;
      me_in = v.me_in;
    }
