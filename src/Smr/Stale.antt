-- ===== src/Smr/Stale.antt =====
-- `SMR::handle_stale_entries` (core/smr.cpp): a message whose entries begin before the end of the
-- log.
use Prim.Native.Nat.{max}
use morphling_c.Base.{
  ℕ, suc, ◌+◌, ◌-◌, ◌≡◌, ◌≢◌, ◌≤◌, ◌<◌, inl, inr, refl, sym, ap, ◌∙◌, Bool, true, List, [], ◌∷◌,
  ◌++◌, ◌||◌, not, append-nil, length, length-replicate, length-take, take, replicate, ltb, lt→ltb,
  ◌==◌, min, ok, fault, aborted, ◌>>=◌, arith,
}
use morphling_c.Message.{Entry, ReplicaId, AppendEntriesMessage}
use morphling_c.Log
use morphling_c.Log.{SmrLog, log_capacity, last_index, append_entry, truncate, entry_at}
use morphling_c.Log.Valid.{last_index-length, last_index-commits, truncate_lem}
use morphling_c.Log.Methods.{entry_at_above, truncated-IsValid}
use morphling_c.Log.Appends.{with_entries}
use morphling_c.Smr.{
  Smr, reply_to, check_safety, append_entries, append_rest, scan_stale, handle_stale_entries,
  accept, handle_append_entries,
}
use morphling_c.Smr.Valid.{IsValid}
use morphling_c.Smr.Following.{Agrees, check_safety_cases, append_entries_lem, passive_commit_lem}

-- The log holds every entry of the list at its index, as far as the epochs tell.
abbrev pub AllHeld : SmrLog → List Entry → Type 0
AllHeld l [] = Unit {0}
AllHeld l (x ∷ xs) = Agrees l x.epoch x.index × AllHeld l xs

-- The scan passes over entries that the log holds.
scan_stale-held :
    (l : SmrLog) (known rest : List Entry)
    → AllHeld l known
    → scan_stale l (last_index l) (known ++ rest) ≡ scan_stale l (last_index l) rest
unfolding scan_stale
scan_stale-held l [] rest h = refl
scan_stale-held l (x ∷ known) rest h =
    rw (h.0.2, ◌>>=◌) (ground (arith, h.0.1, h.0.3, scan_stale-held l known rest h.1))

scan_stale_all-held :
    (l : SmrLog) (known : List Entry) → AllHeld l known → scan_stale l (last_index l) known ≡ ok l
unfolding scan_stale
scan_stale_all-held l known h =
    ap (scan_stale l (last_index l)) (sym (append-nil known)) ∙ scan_stale-held l known [] h

-- The inner loop appends the one entry as often as there are entries left.
append_rest_lem :
    (l : SmrLog) (e : Entry) (itr : List Entry)
    → append_rest l e itr ≡ append_entries l (replicate (length itr) e)
unfolding append_rest append_entries
append_rest_lem l e [] = refl
append_rest_lem l e (x ∷ itr) =
    elim (append_entry l e)
      as (λ r.
        (r >>= λ p. append_rest p.0 e itr)
        ≡ (r >>= λ p. append_entries p.0 (replicate (length itr) e))) [
          | ok (l', i) ↦ append_rest_lem l' e itr
          | fault f ↦ refl
        ]

-- The log after a conflict at entry `x` of a message, with `n` entries left from `x` on.
abbrev pub overwritten : SmrLog → Entry → ℕ → SmrLog
overwritten l x n =
    with_entries (record l { entries = take (x.index - 1) l.entries }) (replicate n x)

scan_stale-conflict :
    (l : SmrLog) (x e : Entry) (rest : List Entry)
    → Log.Valid.IsValid l
    → 0 < x.index
    → x.index ≤ last_index l
    → entry_at l x.index ≡ ok e
    → e.epoch ≢ x.epoch
    → x.index + length rest ≤ log_capacity
    → scan_stale l (last_index l) (x ∷ rest) ≡ ok (overwritten l x (suc (length rest)))
unfolding scan_stale
scan_stale-conflict l x e rest v pos le found differs room =
    rw (found, ◌>>=◌, mismatch, cut)
      (append_rest_lem cut_log x (x ∷ rest)
        ∙ append_entries_lem (replicate (suc (length rest)) x) cut_log
            (truncated-IsValid l (x.index - 1) v) fits)
  where
    cut_log : SmrLog
    cut_log = record l { entries = take (x.index - 1) l.entries }

    mismatch : (ltb (last_index l) x.index || not (e.epoch == x.epoch)) ≡ true
    mismatch = ground arith

    inside : x.index ≤ length l.entries
    inside = omega (arith, last_index-length l v)

    cut : truncate l x.index ≡ ok cut_log
    cut =
        ap (truncate l) (omega arith)
        ∙ truncate_lem l (x.index - 1) v (omega (arith, inside)) (omega (arith, inside, v.room))

    fits : length cut_log.entries + length (replicate (suc (length rest)) x) ≤ log_capacity
    fits =
        omega (arith, length-take (x.index - 1) l.entries, length-replicate (suc (length rest)) x)

scan_stale-past :
    (l : SmrLog) (x : Entry) (rest : List Entry)
    → Log.Valid.IsValid l
    → last_index l < x.index
    → x.index ≤ log_capacity
    → scan_stale l (last_index l) (x ∷ rest) ≡ fault aborted
unfolding scan_stale
scan_stale-past l x rest v past small =
    rw (entry_at_above l x.index v (omega (arith, last_index-length l v)) small, ◌>>=◌)

module _ (s : Smr) (msg : AppendEntriesMessage) (from : ReplicaId) (v : IsValid s)
    (agrees : Agrees s.log msg.prev_term msg.prev_index)
    (earlier : msg.prev_index < last_index s.log) where
  stale_verdict : check_safety s msg.prev_term msg.prev_index ≡ ok (true, true)
  stale_verdict = elim (check_safety_cases s msg.prev_term msg.prev_index v) [
    | inl (_, e) ↦ e ∙ ap (λ (b : Bool). ok (true, b)) (lt→ltb _ _ earlier)
    | inr (none_such, _) ↦ absurd (none_such agrees)
  ]

  -- The rest of the handler, once the entries have been gone through.
  after_scan :
      (l : SmrLog)
      → scan_stale s.log (last_index s.log) msg.entries ≡ ok l
      → handle_append_entries s msg from
        ≡ ok (
          record s { log = record l { commits = max l.commits (min msg.commit (last_index l)) } },
          reply_to s from true (last_index l) ∷ [],
        )
  unfolding handle_append_entries accept handle_stale_entries
  after_scan l e = rw (
    stale_verdict,
    ◌>>=◌,
    e,
    passive_commit_lem l msg.commit,
    last_index-commits l (max l.commits (min msg.commit (last_index l))),
  )

  after_fault :
      scan_stale s.log (last_index s.log) msg.entries ≡ fault aborted
      → handle_append_entries s msg from ≡ fault aborted
  unfolding handle_append_entries accept handle_stale_entries
  after_fault e = rw (stale_verdict, ◌>>=◌, e)

  -- A stale message all of whose entries a valid group holds changes no entry: the commit index
  -- grows to the message's, but not past the last entry, and the reply says success and the last
  -- index. So a message that is delivered again does no harm.
  pub handle_append_entries-duplicate :
      AllHeld s.log msg.entries
      → handle_append_entries s msg from
        ≡ ok (
          record s {
            log = record s.log { commits = max s.log.commits (min msg.commit (last_index s.log)) };
          },
          reply_to s from true (last_index s.log) ∷ [],
        )
  handle_append_entries-duplicate held =
      after_scan s.log (scan_stale_all-held s.log msg.entries held)

  -- A stale message that has an entry past the end of a valid group's log, behind entries that the
  -- log holds, makes the process abort: `entry_at` does so before the loop tests for that case.
  pub handle_append_entries-past_end :
      (known rest : List Entry) (x : Entry)
      → msg.entries ≡ known ++ x ∷ rest
      → AllHeld s.log known
      → last_index s.log < x.index
      → x.index ≤ log_capacity
      → handle_append_entries s msg from ≡ fault aborted
  handle_append_entries-past_end known rest x eq held past small = after_fault (
      rw eq (
        scan_stale-held s.log known (x ∷ rest) held
        ∙ scan_stale-past s.log x rest v.log_valid past small))

  -- A stale message with entries that the log of a valid group holds, and then an entry `x` that
  -- conflicts with the log in its epoch, makes the group drop its entries from that of `x` on, and
  -- append `x` once for every entry of the message from `x` on, in place of those entries; with no
  -- entry after `x` that is `x` itself. The commit index then follows the message as usual. The
  -- reply says success and the last index.
  pub handle_append_entries-conflict :
      (known rest : List Entry) (x e : Entry)
      → msg.entries ≡ known ++ x ∷ rest
      → AllHeld s.log known
      → 0 < x.index
      → x.index ≤ last_index s.log
      → entry_at s.log x.index ≡ ok e
      → e.epoch ≢ x.epoch
      → x.index + length rest ≤ log_capacity
      → let l = overwritten s.log x (suc (length rest)) in
        handle_append_entries s msg from
        ≡ ok (
          record s { log = record l { commits = max l.commits (min msg.commit (last_index l)) } },
          reply_to s from true (last_index l) ∷ [],
        )
  handle_append_entries-conflict known rest x e eq held pos le found differs room = after_scan _ (
      rw eq (
        scan_stale-held s.log known (x ∷ rest) held
        ∙ scan_stale-conflict s.log x e rest v.log_valid pos le found differs room))
