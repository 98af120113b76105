-- ===== src/Votes/Quorum.antt =====
-- `EntryVoteRecord::vote` (core/smr.cpp) against the history of votes: an index reaches its quorum
-- once, with the vote that makes its distinct voters a majority.
use morphling_c.Base.{
  ℕ, ◌+◌, ◌/◌, ◌≡◌, ◌≤◌, ◌<◌, ◌↔◌, refl, sym, ap, ◌∙◌, inl, inr, Bool, true, false, [], ◌∷◌, ◌++◌,
  Result, ok, ok-injective, ◌>>=◌, arith, Bool-cases,
}
use native.Mathlib.Decide.{ℕ_discrete}
use morphling_c.Message.{ReplicaId}
use morphling_c.Votes.{EntryVoteRecord, init, vote}
use morphling_c.Votes.Tally.{History, voters, voters-other, voters-same}
use morphling_c.Votes.Tracks.{Tracks, init-Tracks, vote-Voted}

-- The record after a history, cast oldest first.
unfoldable pub vote_all : ℕ → History → Result EntryVoteRecord
vote_all n [] = ok (init n)
vote_all n ((id, index) ∷ h) = do v ← vote_all n h; (v', _) ← vote v id index; ok v'

-- All votes come from the `n` replicas.
abbrev pub Members : ℕ → History → Type 0
Members n [] = Unit {0}
Members n ((id, _) ∷ h) = (id < n) × Members n h

vote_all-Tracks :
    (n : ℕ) (h : History)
    → Members n h
    → (v : EntryVoteRecord) × (vote_all n h ≡ ok v) × Tracks n v h
unfolding vote_all
vote_all-Tracks n [] m = (init n, refl, init-Tracks n)
vote_all-Tracks n ((id, index) ∷ h) m =
    let (v, e, t) = vote_all-Tracks n h m.1 in
    let w = vote-Voted n v h id index t m.0 in (w.after, rw (e, ◌>>=◌, w.returns), w.tracks)

-- In a cluster of `n` replicas, after any history of their votes, a vote succeeds, and it returns
-- true exactly if it brings the number of distinct replicas that have voted for its index from
-- below the majority `n / 2 + 1` up to it.
pub vote_first_quorum :
    (n : ℕ) (h : History) (id : ReplicaId) (index : ℕ)
    → Members n h
    → id < n
    → (v v' : EntryVoteRecord) × (reached : Bool) × (vote_all n h ≡ ok v)
      × (vote v id index ≡ ok (v', reached))
      × ((reached ≡ true)
          ↔ ((voters n index h < n / 2 + 1) × (n / 2 + 1 ≤ voters n index ((id, index) ∷ h))))
vote_first_quorum n h id index m lt =
    let (v, e, t) = vote_all-Tracks n h m in
    let w = vote-Voted n v h id index t lt in (v, w.after, w.reached, e, w.returns, w.exact)

-- More votes never make fewer voters.
pub voters-append :
    (n index : ℕ) (later h : History) → voters n index h ≤ voters n index (later ++ h)
voters-append n index [] h = omega arith
voters-append n index ((id, k) ∷ later) h = elim (ℕ_discrete k index) [
  | yes same ↦
      rw same (omega (arith, voters-append n index later h, voters-same n index id (later ++ h)))
  | no ne ↦ omega (arith, voters-append n index later h, voters-other n index k id (later ++ h) ne)
]

Members-append : (n : ℕ) (later h : History) → Members n (later ++ h) → Members n h
Members-append n [] h m = m
Members-append n ((_, _) ∷ later) h m = Members-append n later h m.1

-- In a cluster of `n` replicas, once a vote for an index has returned true, every later vote for
-- that index returns false, whatever votes came between.
pub vote_once :
    (n : ℕ) (h later : History) (id id' : ReplicaId) (index : ℕ) (v v' : EntryVoteRecord)
    → Members n (later ++ (id, index) ∷ h)
    → id' < n
    → vote_all n h ≡ ok v
    → vote v id index ≡ ok (v', true)
    → (w w' : EntryVoteRecord) × (vote_all n (later ++ (id, index) ∷ h) ≡ ok w)
      × (vote w id' index ≡ ok (w', false))
vote_once n h later id id' index v v' m lt e voted =
    let own : Members n ((id, index) ∷ h) = Members-append n later ((id, index) ∷ h) m in
    let (v1, v1', reached, e1, voted1, exact1) = vote_first_quorum n h id index own.1 own.0 in
    let (w, w', again, e2, voted2, exact2) =
      vote_first_quorum n (later ++ (id, index) ∷ h) id' index m lt in
    let same : v1 ≡ v = ok-injective (sym e1 ∙ e) in
    let first : reached ≡ true = ap (λ p. p.1) (ok-injective (sym (rw same at voted1) ∙ voted)) in
    (
      w,
      w',
      e2,
      elim (Bool-cases again) [
        | inl twice ↦ absurd (
            omega (
              arith,
              (exact1.0 first).1,
              (exact2.0 twice).0,
              voters-append n index later ((id, index) ∷ h),
            ))
        | inr never ↦ rw never at voted2
      ],
    )
