-- ===== src/Smr/Valid.antt =====
-- The well-formed groups of core/smr.cpp: a valid log, a commit index within it, and votes that
-- have a history.
use morphling_c.Base.{ℕ, ◌≡◌, ◌≤◌, ◌<◌, refl, length, List, [], arith}
use morphling_c.Message.{ReplicaId}
use morphling_c.Log
use morphling_c.Log.{SmrLog}
use morphling_c.Log.Valid.{empty-IsValid}
use morphling_c.Votes.Tally.{History}
use morphling_c.Votes.Tracks.{Tracks, init-Tracks}
use morphling_c.Smr.{Smr, init}

pub record IsValid (s : Smr) : Type 0 where
  pub log_valid : Log.Valid.IsValid s.log
  pub committed : s.log.commits ≤ length s.log.entries
  pub history : History
  pub tracks : Tracks (length s.peers) s.entry_votes history
  pub me_in : s.me < length s.peers

-- A new group is valid if its own id is among those that its peers have.
pub init-IsValid :
    (me : ReplicaId) (peers : List ReplicaId) (gid : ℕ)
    → me < length peers
    → IsValid (init me peers gid)
unfolding init
init-IsValid me peers gid h = record {
  log_valid = empty-IsValid;
  committed = omega arith;
  history = [];
  tracks = init-Tracks (length peers);
  me_in = h;
}

-- A log with a larger commit index, of what it holds.
pub committed_to-IsValid :
    (l : SmrLog) (c : ℕ) → Log.Valid.IsValid l → Log.Valid.IsValid (record l { commits = c })
committed_to-IsValid l c v = record {
  numbered = v.numbered;
  dummy_index = v.dummy_index;
  dummy_epoch = v.dummy_epoch;
  room = v.room;
}

pub init_gid : (me : ReplicaId) (peers : List ReplicaId) (gid : ℕ) → (init me peers gid).gid ≡ gid
unfolding init
init_gid me peers gid = refl

pub init_me : (me : ReplicaId) (peers : List ReplicaId) (gid : ℕ) → (init me peers gid).me ≡ me
unfolding init
init_me me peers gid = refl

pub init_peers :
    (me : ReplicaId) (peers : List ReplicaId) (gid : ℕ) → (init me peers gid).peers ≡ peers
unfolding init
init_peers me peers gid = refl
