-- ===== src/Votes/Tracks.antt =====
-- What an `EntryVoteRecord` (core/smr.cpp) holds after a history of votes, kept by every vote.
use morphling_c.Base.{
  ℕ, ◌+◌, ◌/◌, ◌≡◌, ◌≤◌, ◌<◌, ◌≢◌, ◌↔◌, refl, sym, ap, ◌∙◌, ◌⊎◌, inl, inr, Bool, true, false, List,
  [], ◌∷◌, Option, none, some, lookup, insert, lookup-insert_self, lookup-insert_ne, length, set,
  replicate, ◌==◌, Result, ok, subst, if◌then◌else◌, arith,
}
use native.Mathlib.Decide.{ℕ_discrete}
use morphling_c.Message.{ReplicaId}
use morphling_c.Votes.{EntryVoteRecord, init, agree_count, opened, count_vote, vote}
use morphling_c.Votes.Tally.{
  History, cast, roll, voters, length-roll, agree_count-roll, replicate-roll, count_from-false,
  cast-other, voters-other, voters-same, roll-vote,
}

-- The votes recorded for an index: none at first.
abbrev pub bits_or_none : ℕ → Option (List Bool) → List Bool
bits_or_none n none = replicate n false
bits_or_none n (some bits) = bits

abbrev pub bits_of : EntryVoteRecord → ℕ → List Bool
bits_of v index = bits_or_none v.peer_num (lookup index v.records)

lookup-opened :
    (v : EntryVoteRecord) (index : ℕ) → lookup index (opened v index) ≡ some (bits_of v index)
unfolding opened
lookup-opened v index =
    ground (arith, lookup-insert_self index (replicate v.peer_num false) v.records)

lookup-opened_ne :
    (v : EntryVoteRecord) (k index : ℕ)
    → k ≢ index
    → lookup index (opened v k) ≡ lookup index v.records
unfolding opened
lookup-opened_ne v k index ne =
    ground (arith, lookup-insert_ne k index (replicate v.peer_num false) v.records)

-- What the record knows of the votes for one index.
abbrev pub Known : EntryVoteRecord → History → ℕ → Type 0
Known v h index =
    ((c : Bool) × (lookup index v.entry_complete ≡ some c) × (v.quorum ≤ voters v.peer_num index h))
    ⊎ ((lookup index v.entry_complete ≡ none)
        × (voters v.peer_num index h < v.quorum)
        × (bits_of v index ≡ roll (cast index h) 0 v.peer_num))

pub record Tracks (n : ℕ) (v : EntryVoteRecord) (h : History) : Type 0 where
  pub peers : v.peer_num ≡ n
  pub majority : v.quorum ≡ n / 2 + 1
  pub known : (index : ℕ) → Known v h index

-- The result of a vote by a member of the cluster.
pub record Voted (n : ℕ) (v : EntryVoteRecord) (h : History) (id : ReplicaId) (index : ℕ)
    (out : Result (EntryVoteRecord × Bool)) : Type 0 where
  pub after : EntryVoteRecord
  pub reached : Bool
  pub returns : out ≡ ok (after, reached)
  pub tracks : Tracks n after ((id, index) ∷ h)
  pub exact :
      (reached ≡ true)
      ↔ ((voters n index h < n / 2 + 1) × (n / 2 + 1 ≤ voters n index ((id, index) ∷ h)))

-- The record after a counted vote.
abbrev recorded : EntryVoteRecord → ReplicaId → ℕ → EntryVoteRecord
recorded v id index = record v {
  records = insert index (set (bits_of v index) id true) (opened v index);
}

abbrev completed : EntryVoteRecord → ReplicaId → ℕ → EntryVoteRecord
completed v id index = record (recorded v id index) {
  entry_complete = insert index true v.entry_complete;
}

-- A counted vote sets the bit of its replica, and completes the index exactly if the bits set are
-- then as many as the quorum.
count_vote_lem :
    (v : EntryVoteRecord) (id : ReplicaId) (index : ℕ)
    → id < length (bits_of v index)
    → count_vote v id index ≡ (
        if agree_count (set (bits_of v index) id true) == v.quorum
        then ok (completed v id index, true)
        else ok (recorded v id index, false))
unfolding count_vote
count_vote_lem v id index lt = ground (arith, lookup-opened v index)

-- What a vote for `k` does to what is known of another index.
Known-other :
    (v w : EntryVoteRecord) (h : History) (id : ReplicaId) (k index : ℕ)
    → k ≢ index
    → w.peer_num ≡ v.peer_num
    → w.quorum ≡ v.quorum
    → lookup index w.entry_complete ≡ lookup index v.entry_complete
    → lookup index w.records ≡ lookup index v.records
    → Known v h index
    → Known w ((id, k) ∷ h) index
Known-other v w h id k index ne p q c r (inl (b, done, enough)) =
    inl (b, c ∙ done, rw (p, q) (omega (arith, voters-other v.peer_num index k id h ne)))
Known-other v w h id k index ne p q c r (inr (none_yet, few, bits)) = inr (
  c ∙ none_yet,
  rw (p, q) (omega (arith, voters-other v.peer_num index k id h ne)),
  rw (r, p) (bits ∙ ap (λ (f : ℕ → Bool). roll f 0 v.peer_num) (sym (cast-other index k id h ne))),
)

module _ (n : ℕ) (v : EntryVoteRecord) (h : History) (id : ReplicaId) (index : ℕ) (t : Tracks n v h)
    (lt : id < n) where
  open t use {peers, majority, known}

  -- The vote leaves the other indices, and this one is known anew.
  Tracks-after :
      (w : EntryVoteRecord)
      → w.peer_num ≡ v.peer_num
      → w.quorum ≡ v.quorum
      → ((k : ℕ) → index ≢ k → lookup k w.entry_complete ≡ lookup k v.entry_complete)
      → ((k : ℕ) → index ≢ k → lookup k w.records ≡ lookup k v.records)
      → Known w ((id, index) ∷ h) index
      → Tracks n w ((id, index) ∷ h)
  Tracks-after w p q c r this = record {
    peers = p ∙ peers;
    majority = q ∙ majority;
    known = λ k. elim (ℕ_discrete index k) [
      | yes same ↦ subst (λ j. Known w ((id, index) ∷ h) j) same this
      | no ne ↦ Known-other v w h id index k ne p q (c k ne) (r k ne) (known k)
    ];
  }

  Voted-complete :
      (c : Bool)
      → lookup index v.entry_complete ≡ some c
      → v.quorum ≤ voters v.peer_num index h
      → Voted n v h id index (vote v id index)
  unfolding vote
  Voted-complete c done enough = record {
    after = v;
    reached = false;
    returns = rw (done, vote);
    tracks =
        Tracks-after v refl refl (λ k ne. refl) (λ k ne. refl)
          (inl (c, done, omega (arith, voters-same v.peer_num index id h)));
    exact = ground (arith, rw peers at enough, peers, majority);
  }

  module _ (none_yet : lookup index v.entry_complete ≡ none)
      (few : voters v.peer_num index h < v.quorum)
      (bits : bits_of v index ≡ roll (cast index h) 0 v.peer_num) where
    new_bits : set (bits_of v index) id true ≡ roll (cast index ((id, index) ∷ h)) 0 v.peer_num
    new_bits = rw bits (roll-vote v.peer_num index id h (omega (arith, peers)))

    counted :
        agree_count (set (bits_of v index) id true) ≡ voters v.peer_num index ((id, index) ∷ h)
    counted = rw new_bits (agree_count-roll _ 0 v.peer_num)

    in_range : id < length (bits_of v index)
    in_range = omega (arith, peers, ap length bits, length-roll (cast index h) 0 v.peer_num)

    other_records :
        (k : ℕ)
        → index ≢ k
        → lookup k (insert index (set (bits_of v index) id true) (opened v index))
          ≡ lookup k v.records
    other_records k ne =
        lookup-insert_ne index k _ (opened v index) ne ∙ lookup-opened_ne v index k ne

    Voted-quorum :
        agree_count (set (bits_of v index) id true) ≡ v.quorum
        → Voted n v h id index (vote v id index)
    unfolding vote
    Voted-quorum full = record {
      after = completed v id index;
      reached = true;
      returns = ground (arith, count_vote_lem v id index in_range);
      tracks =
          Tracks-after (completed v id index) refl refl
            (λ k ne. lookup-insert_ne index k true v.entry_complete ne) other_records
            (inl
              (true, lookup-insert_self index true v.entry_complete, omega (arith, counted, full)));
      exact = ground (arith, counted, peers, majority, rw peers at few);
    }

    Voted-more :
        agree_count (set (bits_of v index) id true) ≢ v.quorum
        → Voted n v h id index (vote v id index)
    unfolding vote
    Voted-more short = record {
      after = recorded v id index;
      reached = false;
      returns = ground (arith, count_vote_lem v id index in_range);
      tracks =
          Tracks-after (recorded v id index) refl refl (λ k ne. refl) other_records
            (inr (
              none_yet,
              omega (arith, counted, short, few, voters-same v.peer_num index id h),
              rw (lookup-insert_self index (set (bits_of v index) id true) (opened v index))
                  new_bits,
            ));
      exact = ground (arith, counted, peers, majority, rw peers at few, voters-same n index id h);
    }

  pub vote-Voted : Voted n v h id index (vote v id index)
  vote-Voted = elim (known index) [
    | inl (c, done, enough) ↦ Voted-complete c done enough
    | inr (none_yet, few, bits) ↦
        elim (ℕ_discrete (agree_count (set (bits_of v index) id true)) v.quorum) [
          | yes full ↦ Voted-quorum none_yet few bits full
          | no short ↦ Voted-more none_yet few bits short
        ]
  ]

pub init-Tracks : (n : ℕ) → Tracks n (init n) []
unfolding init lookup
init-Tracks n = record {
  peers = refl;
  majority = refl;
  known = λ index. inr (refl, omega (arith, count_from-false 0 n), replicate-roll 0 n);
}
