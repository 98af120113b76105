-- ===== src/Cluster/Following.antt =====
-- `SMR::handle_append_entries` (core/smr.cpp) on a follower whose log is a beginning of the leader's.
use Prim.Native.Nat.{max}
use morphling_c.Base.{
  ℕ, suc, ◌+◌, ◌≡◌, ◌≤◌, ◌<◌, inl, inr, refl, sym, ap, ◌∙◌, Bool, true, false, List, [], ◌∷◌, ◌++◌,
  append_assoc, length, length-append, last_or, min, ok, arith,
}
use morphling_c.Message.{Entry, ReplicaId, AppendEntriesMessage}
use morphling_c.Log
use morphling_c.Log.{SmrLog, log_capacity, last_entry, last_index, entry_at}
use morphling_c.Log.Valid.{last_index-length, last_entry_lem}
use morphling_c.Smr.{Smr, reply_to, handle_append_entries}
use morphling_c.Smr.Valid.{IsValid}
use morphling_c.Smr.Following.{
  Agrees, accepted, handle_append_entries-refused, handle_append_entries-in_sync,
}
use morphling_c.Smr.Stale.{handle_append_entries-duplicate}
use morphling_c.Smr.Committing.{committed-IsValid}
use morphling_c.Smr.Replication.{last_or-epoch}
use morphling_c.Cluster.Carried.{
  Carried, Numbered-middle, split_cases, entry_at-before, entry_at-middle,
}

-- What a message does to a follower `f` of a leader with log `l`: it succeeds, the follower stays
-- valid and a beginning of the leader's log, and loses nothing.
pub record Followed (l : SmrLog) (f : Smr) (msg : AppendEntriesMessage) (from : ReplicaId)
    : Type 0 where
  pub after : SmrLog
  pub success : Bool
  pub returns :
      handle_append_entries f msg from
      ≡ ok (record f { log = after }, reply_to f from success (length after.entries) ∷ [])
  pub valid : IsValid (record f { log = after })
  pub rest : List Entry
  pub prefix : l.entries ≡ after.entries ++ rest
  pub kept : length f.log.entries ≤ length after.entries
  pub behind : after.commits ≤ max f.log.commits msg.commit
  pub taken : msg.prev_index ≤ length f.log.entries → success ≡ true
  pub further :
      msg.prev_index ≡ length f.log.entries → length after.entries ≡ suc (length f.log.entries)

-- The epoch before an entry is the same in any two valid logs.
prev_epoch_of :
    (l l' : SmrLog) (es : List Entry)
    → Log.Valid.IsValid l
    → Log.Valid.IsValid l'
    → (last_or l.dummy_entry es).epoch ≡ (last_or l'.dummy_entry es).epoch
prev_epoch_of l l' es v v' =
    last_or-epoch l.dummy_entry l'.dummy_entry es (v.dummy_epoch ∙ sym v'.dummy_epoch)

module _ (l : SmrLog) (f : Smr) (msg : AppendEntriesMessage) (from : ReplicaId)
    (lv : Log.Valid.IsValid l) (v : IsValid f) (c : Carried l msg) where
  numbered_entry : c.entry.index ≡ suc (length c.before)
  numbered_entry =
      omega (arith, Numbered-middle 1 c.before c.after c.entry (rw c.placed at lv.numbered))

  -- A message that the follower is too short for.
  follow_gap :
      (rest : List Entry)
      → l.entries ≡ f.log.entries ++ rest
      → length f.log.entries < length c.before
      → Followed l f msg from
  follow_gap rest pre shorter = record {
    after = f.log;
    success = false;
    returns =
        handle_append_entries-refused f msg from v
          (λ (a : Agrees f.log msg.prev_term msg.prev_index).
            omega (arith, a.1, shorter, c.prev_at, last_index-length f.log v.log_valid))
        ∙ ap (λ (i : ℕ). ok (f, reply_to f from false i ∷ []))
            (last_index-length f.log v.log_valid);
    valid = v;
    rest = rest;
    prefix = pre;
    kept = omega arith;
    behind = omega arith;
    taken = λ le. absurd (omega (arith, le, shorter, c.prev_at));
    further = λ at. absurd (omega (arith, at, shorter, c.prev_at));
  }

  -- The message that comes next.
  follow_next : f.log.entries ≡ c.before → Followed l f msg from
  follow_next same =
      let size : length f.log.entries ≡ length c.before = ap length same in
      let one : length msg.entries ≡ 1 = ap length c.alone in
      let (e, valid) =
        handle_append_entries-in_sync f msg from v
          (omega (arith, c.prev_at, size, last_index-length f.log v.log_valid))
          (c.prev_epoch
            ∙ prev_epoch_of l f.log c.before lv v.log_valid
            ∙ rw (last_entry_lem f.log, same))
          (omega (
            arith,
            one,
            size,
            ap length c.placed,
            length-append c.before (c.entry ∷ c.after),
            lv.room,
          )) in
      let grown : (accepted f.log msg).entries ≡ c.before ++ c.entry ∷ [] =
        rw (c.alone, same)
          (ap (λ (i : ℕ). c.before ++ record c.entry { index = i } ∷ []) (sym numbered_entry)) in
      let longer : length (accepted f.log msg).entries ≡ length f.log.entries + length msg.entries =
        ap length grown ∙ length-append c.before (c.entry ∷ []) ∙ omega (arith, one, size) in
      record {
        after = accepted f.log msg;
        success = true;
        returns =
            e
            ∙ ap
                (λ (i : ℕ). ok (record f { log = accepted f.log msg }, reply_to f from true i ∷ []))
                (sym longer);
        valid = valid;
        rest = c.after;
        prefix =
            c.placed
            ∙ sym (
                ap (λ (es : List Entry). es ++ c.after) grown
                ∙ append_assoc c.before (c.entry ∷ []) c.after);
        kept = omega (arith, longer);
        behind = omega arith;
        taken = λ le. refl;
        further = λ at. omega (arith, longer, one);
      }

  -- A message that came before.
  follow_again :
      (rest mid : List Entry)
      → l.entries ≡ f.log.entries ++ rest
      → f.log.entries ≡ c.before ++ c.entry ∷ mid
      → Followed l f msg from
  follow_again rest mid pre held =
      let size : length f.log.entries ≡ length c.before + suc (length mid) =
        ap length held ∙ length-append c.before (c.entry ∷ mid) in
      let last = last_index-length f.log v.log_valid in
      record {
        after = record f.log { commits = max f.log.commits (min msg.commit (last_index f.log)) };
        success = true;
        returns =
            handle_append_entries-duplicate f msg from v
              (
                last_or f.log.dummy_entry c.before,
                omega (arith, c.prev_at, size, last),
                rw c.prev_at (entry_at-before f.log c.before (c.entry ∷ mid) v.log_valid held),
                sym (c.prev_epoch ∙ prev_epoch_of l f.log c.before lv v.log_valid),
              )
              (omega (arith, c.prev_at, size, last))
              (rw c.alone (
                (
                  c.entry,
                  omega (arith, numbered_entry, size, last),
                  ap (entry_at f.log) numbered_entry
                      ∙ entry_at-middle f.log c.before mid c.entry v.log_valid held,
                  refl,
                ),
                tt,
              ))
            ∙ ap
                (λ (i : ℕ). ok (
                  record f {
                    log = record f.log {
                      commits = max f.log.commits (min msg.commit (last_index f.log));
                    };
                  },
                  reply_to f from true i ∷ [],
                ))
                last;
        valid = committed-IsValid f _ v (omega (arith, v.committed, last));
        rest = rest;
        prefix = pre;
        kept = omega arith;
        behind = omega arith;
        taken = λ le. refl;
        further = λ at. absurd (omega (arith, at, c.prev_at, size));
      }

-- Every message of the leader, whenever it comes.
pub follow :
    (l : SmrLog) (f : Smr) (msg : AppendEntriesMessage) (from : ReplicaId) (rest : List Entry)
    → Log.Valid.IsValid l
    → IsValid f
    → Carried l msg
    → l.entries ≡ f.log.entries ++ rest
    → Followed l f msg from
follow l f msg from rest lv v c pre =
    elim (split_cases f.log.entries rest c.before c.after c.entry (sym pre ∙ c.placed)) [
      | inl shorter ↦ follow_gap l f msg from lv v c rest pre shorter
      | inr (inl (same, _)) ↦ follow_next l f msg from lv v c same
      | inr (inr (mid, held)) ↦ follow_again l f msg from lv v c rest mid pre held
    ]
