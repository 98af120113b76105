-- ===== src/Votes.antt =====
-- The class `EntryVoteRecord` of core/smr.h and core/smr.cpp: which replicas acknowledged which
-- entry.
pub mod Tally
pub mod Tracks
pub mod Quorum
use morphling_c.Base.{
  ℕ, ◌+◌, ◌/◌, Bool, true, false, List, [], ◌∷◌, Option, none, some, Dict, lookup, insert, length,
  set, replicate, ltb, ◌==◌, if◌then◌else◌, Result, ok, out_of_range, ◌>>=◌, ◌>>◌, guard, or_fault,
}
use morphling_c.Message.{ReplicaId}

pub record EntryVoteRecord : Type 0 where
  pub records : Dict (List Bool)
  pub entry_complete : Dict Bool
  pub quorum : ℕ
  pub peer_num : ℕ

unfoldable pub init : ℕ → EntryVoteRecord
init num = record { records = []; entry_complete = []; quorum = num / 2 + 1; peer_num = num }

-- The loop that counts the replicas that agree.
unfoldable pub agree_count : List Bool → ℕ
agree_count [] = 0
agree_count (is_agree ∷ rest) = (if is_agree then 1 else 0) + agree_count rest

-- The record of an index, made when the first vote comes in.
unfoldable pub opened : EntryVoteRecord → ℕ → Dict (List Bool)
opened v index = elim (lookup index v.records) [
  | none ↦ insert index (replicate v.peer_num false) v.records
  | some _ ↦ v.records
]

-- The vote of replica `id` for an index that has no quorum yet. An `id` past the end of the vector
-- is undefined.
unfoldable pub count_vote : EntryVoteRecord → ReplicaId → ℕ → Result (EntryVoteRecord × Bool)
count_vote v id index = do
  let records = opened v index
  before ← or_fault (lookup index records) out_of_range
  guard (ltb id (length before)) out_of_range
  let entry_record = set before id true
  let v' = record v { records = insert index entry_record records }
  if agree_count entry_record == v.quorum
      then ok (record v' { entry_complete = insert index true v.entry_complete }, true)
      else ok (v', false)

unfoldable pub vote : EntryVoteRecord → ReplicaId → ℕ → Result (EntryVoteRecord × Bool)
vote v id index = elim (lookup index v.entry_complete) [
  | some _ ↦ ok (v, false)
  | none ↦ count_vote v id index
]
