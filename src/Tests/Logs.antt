-- ===== src/Tests/Logs.antt =====
-- Runs of `SMRLog` and `EntryVoteRecord` (core/smr.cpp).
use morphling_c.Base.{
  ◌+◌, ◌≡◌, ◌<◌, ◌≤◌, ◌/◌, ◌↔◌, refl, lookup, insert, Bool, true, false, [], ◌∷◌, ok, arith,
}
use morphling_c.Message.{Entry}
use morphling_c.Log.{SmrLog}
use morphling_c.Log.Valid.{IsValid}
use morphling_c.Votes.{EntryVoteRecord, init, vote, count_vote, opened, agree_count}
use morphling_c.Votes.Tally.{History, voters}
use morphling_c.Votes.Quorum.{vote_all, vote_first_quorum}

-- A log of two entries, the first of them committed.
abbrev two_entries : SmrLog
two_entries = record {
  entries =
      record { epoch = 1; index = 1; payload = 7 ∷ [] }
      ∷ record { epoch = 2; index = 2; payload = 8 ∷ [] }
      ∷ [];
  commits = 1;
  dummy_entry = record { epoch = 0; index = 0; payload = [] };
}

two_entries-IsValid : IsValid two_entries
two_entries-IsValid = record {
  numbered = (refl, (refl, tt));
  dummy_index = refl;
  dummy_epoch = refl;
  room = omega arith;
}

abbrev new_payload : Entry
new_payload = record { epoch = 0; index = 0; payload = 9 ∷ [] }

-- Replica 0 has voted for index 1, of three replicas.
abbrev one_vote : History
one_vote = (0, 1) ∷ []

-- Then replica 1 makes the majority, and replica 2 votes late.
abbrev later_votes : History
later_votes = (2, 1) ∷ []

abbrev first_record : EntryVoteRecord
first_record = record {
  records = (1, true ∷ false ∷ false ∷ []) ∷ [];
  entry_complete = [];
  quorum = 2;
  peer_num = 3;
}

abbrev second_record : EntryVoteRecord
second_record = record {
  records = (1, true ∷ true ∷ false ∷ []) ∷ [];
  entry_complete = (1, true) ∷ [];
  quorum = 2;
  peer_num = 3;
}

one_vote_lem : vote_all 3 one_vote ≡ ok first_record
unfolding vote_all vote count_vote opened agree_count init lookup insert
one_vote_lem = refl

majority_lem : vote first_record 1 1 ≡ ok (second_record, true)
unfolding vote count_vote opened agree_count lookup insert
majority_lem = refl

vote_first_quorum_example :
    (v v' : EntryVoteRecord) × (reached : Bool) × (vote_all 3 one_vote ≡ ok v)
    × (vote v 1 1 ≡ ok (v', reached))
    × ((reached ≡ true)
        ↔ ((voters 3 1 one_vote < 3 / 2 + 1) × (3 / 2 + 1 ≤ voters 3 1 ((1, 1) ∷ one_vote))))
vote_first_quorum_example = vote_first_quorum 3 one_vote 1 1 (omega arith, tt) (omega arith)
