-- ===== src/Log/Valid.antt =====
-- The well-formed logs of core/smr.cpp, and what each method of `SMRLog` does on one.
use morphling_c.Base.{
  refl, sym, ap, ◌∙◌, last_or_empty, get_elem?-last, drop-append_length, ℕ, zero, suc, ◌+◌, ◌-◌,
  ◌≡◌, ◌≤◌, ◌<◌, List, [], ◌∷◌, ◌++◌, some, length, get_elem?, take, drop, last_or, ok, fault,
  dangling, arith, length-append, get_elem?-some_lt,
}
use morphling_c.Message.{Entry}
use morphling_c.Log.{
  append_entry, curr_commit, empty, last_entry, get_tail_entries, SmrLog, log_capacity, entry_pos,
  last_index, append, truncate, entry_at, get_part_entries,
}

-- The entries bear the indices `k`, `k + 1` and so on.
abbrev pub Numbered : ℕ → List Entry → Type 0
Numbered k [] = Unit {0}
Numbered k (e ∷ es) = (e.index ≡ k) × Numbered (suc k) es

pub record IsValid (l : SmrLog) : Type 0 where
  pub numbered : Numbered 1 l.entries
  pub dummy_index : l.dummy_entry.index ≡ 0
  pub dummy_epoch : l.dummy_entry.epoch ≡ 0
  pub room : length l.entries ≤ log_capacity

pub Numbered-append :
    (k : ℕ) (es : List Entry) (e : Entry)
    → Numbered k es
    → e.index ≡ k + length es
    → Numbered k (es ++ e ∷ [])
Numbered-append k [] e n h = (omega arith, tt)
Numbered-append k (x ∷ es) e n h = (n.0, Numbered-append (suc k) es e n.1 (omega arith))

pub Numbered-take : (k n : ℕ) (es : List Entry) → Numbered k es → Numbered k (take n es)
Numbered-take k zero es h = tt
Numbered-take k (suc n) [] h = tt
Numbered-take k (suc n) (e ∷ es) h = (h.0, Numbered-take (suc k) n es h.1)

-- The entry at position `i` bears the index `k + i`.
pub Numbered-get :
    (k i : ℕ) (es : List Entry) (e : Entry)
    → Numbered k es
    → get_elem? es i ≡ some e
    → e.index ≡ k + i
Numbered-get k i [] e n h = cc
Numbered-get k zero (x ∷ es) e n h = ground arith
Numbered-get k (suc i) (x ∷ es) e n h = omega (arith, Numbered-get (suc k) i es e n.1 h)

pub Numbered-last :
    (k : ℕ) (d : Entry) (es : List Entry)
    → Numbered k es
    → suc d.index ≡ k
    → suc (last_or d es).index ≡ k + length es
Numbered-last k d [] n h = omega arith
Numbered-last k d (e ∷ es) n h = omega (arith, Numbered-last (suc k) e es n.1 (omega arith))

pub last_index-length : (l : SmrLog) → IsValid l → last_index l ≡ length l.entries
unfolding last_index
last_index-length l v =
    omega (arith, Numbered-last 1 l.dummy_entry l.entries v.numbered (omega arith))

-- What `append` adds.
abbrev pub extended : SmrLog → Entry → ℕ → SmrLog
extended l e epoch = record l {
  entries =
      l.entries
      ++ record { epoch = epoch; index = suc (length l.entries); payload = e.payload } ∷ [];
}

pub append_lem :
    (l : SmrLog) (e : Entry) (epoch : ℕ)
    → IsValid l
    → length l.entries < log_capacity
    → append l e epoch ≡ ok (extended l e epoch, suc (length l.entries))
unfolding append
append_lem l e epoch v h = ground (arith, last_index-length l v)

pub append_full :
    (l : SmrLog) (e : Entry) (epoch : ℕ)
    → length l.entries ≡ log_capacity
    → append l e epoch ≡ fault dangling
unfolding append
append_full l e epoch h = ground arith

pub extended-IsValid :
    (l : SmrLog) (e : Entry) (epoch : ℕ)
    → IsValid l
    → length l.entries < log_capacity
    → IsValid (extended l e epoch)
extended-IsValid l e epoch v h = record {
  numbered = Numbered-append 1 l.entries _ v.numbered (omega arith);
  dummy_index = v.dummy_index;
  dummy_epoch = v.dummy_epoch;
  room = omega (
    arith,
    length-append l.entries
        (record { epoch = epoch; index = suc (length l.entries); payload = e.payload } ∷ []),
  );
}

pub entry_pos_lem : (l : SmrLog) (i : ℕ) → IsValid l → i < log_capacity → entry_pos l (suc i) ≡ ok i
unfolding entry_pos
entry_pos_lem l i v h = ground arith

pub entry_at_lem :
    (l : SmrLog) (i : ℕ) {e : Entry}
    → IsValid l
    → get_elem? l.entries i ≡ some e
    → entry_at l (suc i) ≡ ok e
unfolding entry_at
entry_at_lem l i v h = ground (arith, entry_pos_lem l i v, get_elem?-some_lt l.entries i h)

pub truncate_lem :
    (l : SmrLog) (i : ℕ)
    → IsValid l
    → i ≤ length l.entries
    → i < log_capacity
    → truncate l (suc i) ≡ ok (record l { entries = take i l.entries })
unfolding truncate
truncate_lem l i v h lt = ground (arith, entry_pos_lem l i v)

pub get_part_entries_lem :
    (l : SmrLog) (a b : ℕ)
    → IsValid l
    → a ≤ b
    → b < length l.entries
    → get_part_entries l (suc a) (suc b) ≡ ok (take (suc b - a) (drop a l.entries))
unfolding get_part_entries
get_part_entries_lem l a b v h lt = ground (arith, entry_pos_lem l a v, entry_pos_lem l b v)

pub empty-IsValid : IsValid empty
empty-IsValid = omega arith

-- The entry at the last index, and the dummy entry of an empty log.
pub entry_at-last : (l : SmrLog) → IsValid l → entry_at l (length l.entries) ≡ ok (last_entry l)
unfolding entry_at last_entry
entry_at-last l v = go (length l.entries) refl
  where
    go : (k : ℕ) → length l.entries ≡ k → entry_at l k ≡ ok (last_or l.dummy_entry l.entries)
    go zero e = ap ok (sym (last_or_empty l.dummy_entry l.entries e))
    go (suc k) e = entry_at_lem l k v (get_elem?-last l.dummy_entry l.entries k e)

-- The last entry of a log, as a slice.
pub get_tail_entries_last :
    (l : SmrLog) (e : Entry) (es : List Entry)
    → IsValid l
    → l.entries ≡ es ++ e ∷ []
    → get_tail_entries l (suc (length es)) ≡ ok (e ∷ [])
unfolding get_tail_entries
get_tail_entries_last l e es v eq = rw (
  last_index-length l v,
  size,
  get_part_entries_lem l (length es) (length es) v (omega arith) (omega (arith, size)),
  eq,
  drop-append_length es (e ∷ []),
  one,
)
  where
    size : length l.entries ≡ suc (length es)
    size = ap length eq ∙ length-append es (e ∷ []) ∙ omega arith

    one : suc (length es) - length es ≡ 1
    one = omega arith

pub curr_commit_lem : (l : SmrLog) → curr_commit l ≡ l.commits
unfolding curr_commit
curr_commit_lem l = refl

pub append_entry_lem :
    (l : SmrLog) (e : Entry)
    → IsValid l
    → length l.entries < log_capacity
    → append_entry l e ≡ ok (extended l e e.epoch, suc (length l.entries))
unfolding append_entry
append_entry_lem l e v h = append_lem l e e.epoch v h

pub append_entry_full :
    (l : SmrLog) (e : Entry) → length l.entries ≡ log_capacity → append_entry l e ≡ fault dangling
unfolding append_entry
append_entry_full l e h = append_full l e e.epoch h

pub last_entry-index : (l : SmrLog) → (last_entry l).index ≡ last_index l
unfolding last_index
last_entry-index l = refl

pub last_entry_lem : (l : SmrLog) → last_entry l ≡ last_or l.dummy_entry l.entries
unfolding last_entry
last_entry_lem l = refl

pub last_index-commits : (l : SmrLog) (c : ℕ) → last_index (record l { commits = c }) ≡ last_index l
unfolding last_index
last_index-commits l c = refl
