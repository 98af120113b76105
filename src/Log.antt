-- ===== src/Log.antt =====
-- The class `SMRLog` of core/smr.h and core/smr.cpp: the replicated log of one group.
pub mod Valid
pub mod Methods
pub mod Appends
use morphling_c.Base.{
  ℕ, suc, ◌+◌, ◌-◌, ◌≡◌, ◌≤◌, ◌<◌, Bool, true, false, List, [], ◌∷◌, ◌++◌, Option, ltb, leb, ◌==◌,
  ◌||◌, ◌&&◌, if◌then◌else◌, length, get_elem?, take, drop, last_or, Result, ok, fault, aborted,
  out_of_range, dangling, or_fault, ◌>>=◌, ◌>>◌, guard, add_u64, sub_u64, not,
}
use morphling_c.Message.{Bytes, Entry}

pub record SmrLog : Type 0 where
  pub entries : List Entry
  pub commits : ℕ
  pub dummy_entry : Entry

-- `m_log.reserve`: the vector keeps this capacity, since `append` past it does not return.
abbrev pub log_capacity : ℕ
log_capacity = 1000000

abbrev pub empty : SmrLog
empty = record {
  entries = [];
  commits = 0;
  dummy_entry = record { epoch = 0; index = 0; payload = [] };
}

-- The position in the vector of the entry with index `e_index`.
unfoldable pub entry_pos : SmrLog → ℕ → Result ℕ
entry_pos l e_index =
    if e_index == 0
    then fault aborted
    else (if ltb e_index l.dummy_entry.index
        then ok 0
        else ok (sub_u64 (sub_u64 e_index l.dummy_entry.index) 1))

unfoldable pub last_entry : SmrLog → Entry
last_entry l = last_or l.dummy_entry l.entries

unfoldable pub last_index : SmrLog → ℕ
unfolding last_entry
last_index l = (last_entry l).index

-- `append(e, epoch)`. A vector that is full moves its elements when one is added, and `last_e`,
-- taken before, is then read through a reference to freed storage.
unfoldable pub append : SmrLog → Entry → ℕ → Result (SmrLog × ℕ)
append l e epoch =
    if length l.entries == 0
    then push 1
    else (if length l.entries == log_capacity
        then fault dangling
        else push (add_u64 (last_index l) 1))
  where
    push : ℕ → Result (SmrLog × ℕ)
    push index = ok (
      record l {
        entries = l.entries ++ record { epoch = epoch; index = index; payload = e.payload } ∷ [];
      },
      index,
    )

-- `append(e)`
unfoldable pub append_entry : SmrLog → Entry → Result (SmrLog × ℕ)
append_entry l e = append l e e.epoch

-- Drop the entries from index `t_idx` on. An iterator past the end of the vector is undefined.
unfoldable pub truncate : SmrLog → ℕ → Result SmrLog
truncate l t_idx = do
  pos ← entry_pos l t_idx
  guard (leb pos (length l.entries)) out_of_range
  ok (record l { entries = take pos l.entries })

unfoldable pub entry_at : SmrLog → ℕ → Result Entry
entry_at l index =
    if index == 0 || leb index l.dummy_entry.index
    then ok l.dummy_entry
    else (do real_index ← entry_pos l index; or_fault (get_elem? l.entries real_index) aborted)

-- The entries from index `start` to index `end`, both included.
unfoldable pub get_part_entries : SmrLog → ℕ → ℕ → Result (List Entry)
get_part_entries l start end = do
  guard (not (ltb end start)) aborted
  start_pos ← entry_pos l start
  last_pos ← entry_pos l end
  let ex_end_pos = add_u64 last_pos 1
  guard (leb start_pos ex_end_pos && leb ex_end_pos (length l.entries)) out_of_range
  ok (take (ex_end_pos - start_pos) (drop start_pos l.entries))

unfoldable pub get_tail_entries : SmrLog → ℕ → Result (List Entry)
get_tail_entries l start = get_part_entries l start (last_index l)

-- Whether the commit index has grown.
unfoldable pub commit_to : SmrLog → ℕ → Result (SmrLog × Bool)
commit_to l index =
    if ltb (last_index l) index
    then fault aborted
    else (if ltb l.commits index then ok (record l { commits = index }, true) else ok (l, false))

unfoldable pub curr_commit : SmrLog → ℕ
curr_commit l = l.commits
