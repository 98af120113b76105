-- ===== src/Log/Methods.antt =====
-- The contract of the methods of `SMRLog` (core/smr.cpp) in terms of `entry_at`, on valid logs.
use Prim.Native.Nat.{max}
use Prim.Native.Nat.add
use morphling_c.Base.{
  ◌↔◌, ℕ, zero, suc, ◌+◌, ◌-◌, ◌≡◌, ◌≤◌, ◌<◌, refl, ◌⊎◌, Bool, true, List, some, length, get_elem?,
  take, drop, ok, fault, aborted, arith, length-append, length-take, length-drop, get_elem?_total,
  get_elem?-some_lt, get_elem?-none, get_elem?-take, get_elem?-drop, get_elem?-append,
  get_elem?-append_last, ltb, Bool-cases, ltb→lt, inl, inr, ◌∙◌, sym,
}
use morphling_c.Message.{Entry}
use morphling_c.Log.{
  SmrLog, log_capacity, last_index, append, truncate, entry_at, get_part_entries, commit_to,
}
use morphling_c.Log.Valid.{
  IsValid, Numbered-get, Numbered-take, last_index-length, extended, append_lem, extended-IsValid,
  entry_at_lem, entry_pos_lem, truncate_lem, get_part_entries_lem,
}

-- Past the last index, `entry_at` aborts.
pub entry_at_above :
    (l : SmrLog) (i : ℕ)
    → IsValid l
    → length l.entries < i
    → i ≤ log_capacity
    → entry_at l i ≡ fault aborted
unfolding entry_at
entry_at_above l zero v h c = absurd (omega arith)
entry_at_above l (suc i) v h c = ground (arith, entry_pos_lem l i v, get_elem?-none l.entries i)

-- On a valid log `entry_at` aborts above the last index, gives the dummy entry at index 0, and
-- elsewhere an entry that bears the index asked for.
pub entry_at_cases :
    (l : SmrLog) (i : ℕ)
    → IsValid l
    → i ≤ log_capacity
    → ((last_index l < i) × (entry_at l i ≡ fault aborted))
      ⊎ ((e : Entry) × (i ≤ last_index l) × (entry_at l i ≡ ok e) × (e.index ≡ i))
unfolding entry_at
entry_at_cases l zero v c = inr (l.dummy_entry, omega arith, refl, v.dummy_index)
entry_at_cases l (suc i) v c = elim (Bool-cases (ltb i (length l.entries))) [
  | inl within ↦
      let (e, found) = get_elem?_total l.entries i (ltb→lt _ _ within) in
      inr (
        e,
        ground (arith, last_index-length l v),
        entry_at_lem l i v found,
        omega (arith, Numbered-get 1 i l.entries e v.numbered found),
      )
  | inr above ↦
      inl (ground (arith, last_index-length l v), entry_at_above l (suc i) v (ground arith) c)
]

-- An index at which two valid logs hold the same entry, or none, reads the same in both.
entry_at_cong :
    (l l' : SmrLog) (i : ℕ)
    → IsValid l
    → IsValid l'
    → l'.dummy_entry ≡ l.dummy_entry
    → i ≤ length l.entries
    → ((k : ℕ) → k < i → get_elem? l'.entries k ≡ get_elem? l.entries k)
    → entry_at l' i ≡ entry_at l i
entry_at_cong l l' zero v v' d h same = unfold entry_at in ground arith
entry_at_cong l l' (suc i) v v' d h same =
    let (e, found) = get_elem?_total l.entries i h in
    entry_at_lem l' i v' (same i (omega arith) ∙ found) ∙ sym (entry_at_lem l i v found)

-- An append leaves the older entries where they are.
pub entry_at-extended :
    (l : SmrLog) (e : Entry) (epoch i : ℕ)
    → IsValid l
    → length l.entries < log_capacity
    → i ≤ length l.entries
    → entry_at (extended l e epoch) i ≡ entry_at l i
entry_at-extended l e epoch i v h le =
    entry_at_cong l (extended l e epoch) i v (extended-IsValid l e epoch v h) refl le
      (λ k lt. get_elem?-append l.entries _ k (omega arith))

-- A valid log below its capacity takes a new entry: `append` returns the index after the last one,
-- at which `entry_at` then finds the payload under the given epoch; every entry that was there is
-- still found at its index, the commit index is unchanged and the log is valid.
pub append-entry_at :
    (l : SmrLog) (e : Entry) (epoch : ℕ)
    → IsValid l
    → length l.entries < log_capacity
    → (l' : SmrLog) × (append l e epoch ≡ ok (l', suc (last_index l)))
      × IsValid l'
      × (last_index l' ≡ suc (last_index l))
      × (entry_at l' (suc (last_index l))
          ≡ ok (record { epoch = epoch; index = suc (last_index l); payload = e.payload }))
      × ((i : ℕ) → i ≤ last_index l → entry_at l' i ≡ entry_at l i)
      × (l'.commits ≡ l.commits)
append-entry_at l e epoch v h = rw (last_index-length l v) (
  l',
  append_lem l e epoch v h,
  v',
  last_index-length l' v' ∙ grows,
  entry_at_lem l' (length l.entries) v' (get_elem?-append_last l.entries _),
  (λ i le. entry_at-extended l e epoch i v h le),
  refl,
)
  where
    l' : SmrLog
    l' = extended l e epoch

    v' : IsValid l'
    v' = extended-IsValid l e epoch v h

    grows : length l'.entries ≡ suc (length l.entries)
    grows = length-append l.entries _ ∙ omega arith

pub truncated-IsValid :
    (l : SmrLog) (n : ℕ) → IsValid l → IsValid (record l { entries = take n l.entries })
truncated-IsValid l n v = record {
  numbered = Numbered-take 1 n l.entries v.numbered;
  dummy_index = v.dummy_index;
  dummy_epoch = v.dummy_epoch;
  room = omega (arith, v.room, length-take n l.entries);
}

-- `truncate` at an index `t`, from 1 to one past the last one, keeps a valid log valid and removes
-- exactly the entries from `t` on: the last index becomes `t - 1`, and every index below `t` reads
-- as before.
pub truncate-entry_at :
    (l : SmrLog) (t : ℕ)
    → IsValid l
    → 0 < t
    → t ≤ suc (last_index l)
    → t ≤ log_capacity
    → (l' : SmrLog) × (truncate l t ≡ ok l')
      × IsValid l'
      × (suc (last_index l') ≡ t)
      × ((i : ℕ) → i < t → entry_at l' i ≡ entry_at l i)
truncate-entry_at l zero v pos le c = absurd (omega arith)
truncate-entry_at l (suc n) v pos le c = (
  l',
  truncate_lem l n v within c,
  v',
  omega (arith, within, last_index-length l' v', length-take n l.entries),
  (λ i lt.
      entry_at_cong l l' i v v' refl (omega (arith, within))
        (λ k h. get_elem?-take n k l.entries (omega arith))),
)
  where
    l' : SmrLog
    l' = record l { entries = take n l.entries }

    v' : IsValid l'
    v' = truncated-IsValid l n v

    within : n ≤ length l.entries
    within = omega (arith, last_index-length l v)

-- `get_part_entries` from an index `a` of a valid log to an index `b`, with `a` at most `b`,
-- returns `b - a + 1` entries, of which the one at position `k` is what `entry_at` finds at index
-- `a + k`.
pub get_part_entries-entry_at :
    (l : SmrLog) (a b : ℕ)
    → IsValid l
    → 0 < a
    → a ≤ b
    → b ≤ last_index l
    → (es : List Entry) × (get_part_entries l a b ≡ ok es)
      × (length es ≡ suc b - a)
      × ((k : ℕ) (e : Entry) → get_elem? es k ≡ some e → entry_at l (a + k) ≡ ok e)
get_part_entries-entry_at l zero b v pos le h = absurd (omega arith)
get_part_entries-entry_at l (suc a) zero v pos le h = absurd (omega arith)
get_part_entries-entry_at l (suc a) (suc b) v pos le h = (
  es,
  get_part_entries_lem l a b v (omega arith) below,
  omega (arith, below, length-take (suc b - a) (drop a l.entries), length-drop a l.entries),
  λ k e at. rw (add.suc a k) (entry_at_lem l (a + k) v (source k e at)),
)
  where
    below : b < length l.entries
    below = omega (arith, last_index-length l v)

    es : List Entry
    es = take (suc b - a) (drop a l.entries)

    source : (k : ℕ) (e : Entry) → get_elem? es k ≡ some e → get_elem? l.entries (a + k) ≡ some e
    source k e at =
        sym (get_elem?-drop a k l.entries)
        ∙ sym (
            get_elem?-take (suc b - a) k (drop a l.entries) (
              omega (arith, get_elem?-some_lt es k at, length-take (suc b - a) (drop a l.entries))))
        ∙ at

-- `commit_to` aborts exactly above the last index; elsewhere it sets the commit index to the larger
-- of the two, so that it never falls, touches no entry, and returns whether the commit index has
-- grown.
pub commit_to_lem :
    (l : SmrLog) (i : ℕ)
    → ((last_index l < i) × (commit_to l i ≡ fault aborted))
      ⊎ ((b : Bool) × (i ≤ last_index l)
          × (commit_to l i ≡ ok (record l { commits = max l.commits i }, b))
          × ((b ≡ true) ↔ (l.commits < i)))
unfolding commit_to
commit_to_lem l i = elim (Bool-cases (ltb (last_index l) i)) [
  | inl above ↦ inl (ground arith, ground arith)
  | inr within ↦ inr (ltb l.commits i, ground arith, ground arith, ground arith)
]
