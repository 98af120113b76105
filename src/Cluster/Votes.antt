-- ===== src/Cluster/Votes.antt =====
-- The votes of a group's history (core/smr.cpp) against how much each replica holds.
use morphling_c.Base.{
  ℕ, zero, suc, ◌<◌, ◌+◌, false, refl, ◌≡◌, ◌≤◌, Bool, true, [], ◌∷◌, leb, leb→le, arith,
}
use morphling_c.Message.{ReplicaId}
use morphling_c.Votes.Tally.{History, cast, count_from, voters}

-- Each vote is for an index up to which the replica that cast it holds entries.
abbrev pub Backed : (ReplicaId → ℕ) → History → Type 0
Backed size [] = Unit {0}
Backed size ((id, index) ∷ h) = (index ≤ size id) × Backed size h

pub Backed-grows :
    (size size' : ReplicaId → ℕ) (h : History)
    → ((id : ReplicaId) → size id ≤ size' id)
    → Backed size h
    → Backed size' h
Backed-grows size size' [] le b = tt
Backed-grows size size' ((id, index) ∷ h) le b =
    (omega (arith, b.0, le id), Backed-grows size size' h le b.1)

cast-Backed :
    (size : ReplicaId → ℕ) (h : History) (index : ℕ) (id : ReplicaId)
    → Backed size h
    → cast index h id ≡ true
    → leb index (size id) ≡ true
cast-Backed size [] index id b voted = ground arith
cast-Backed size ((i, k) ∷ h) index id b voted = ground (arith, cast-Backed size h index id)

count_from_mono :
    (p q : ℕ → Bool) (i n : ℕ)
    → ((x : ℕ) → p x ≡ true → q x ≡ true)
    → count_from p i n ≤ count_from q i n
count_from_mono p q i zero h = omega arith
count_from_mono p q i (suc n) h = ground (arith, count_from_mono p q (suc i) n h, h i)

-- How many of the replicas below `n` hold entries up to an index.
abbrev pub holders : ℕ → (ReplicaId → ℕ) → ℕ → ℕ
holders n size index = count_from (λ (id : ReplicaId). leb index (size id)) 0 n

pub voters-holders :
    (n : ℕ) (size : ReplicaId → ℕ) (h : History) (index : ℕ)
    → Backed size h
    → voters n index h ≤ holders n size index
voters-holders n size h index b =
    count_from_mono _ _ 0 n (λ id voted. cast-Backed size h index id b voted)

-- Fewer entries are held by at least as many.
pub holders_mono :
    (n : ℕ) (size size' : ReplicaId → ℕ) (k k' : ℕ)
    → k ≤ k'
    → ((id : ReplicaId) → size id ≤ size' id)
    → holders n size k' ≤ holders n size' k
holders_mono n size size' k k' le grows =
    count_from_mono _ _ 0 n (λ id holds. ground (arith, le, grows id, leb→le k' (size id) holds))

count_from_none :
    (p : ℕ → Bool) (i n : ℕ) → ((x : ℕ) → i ≤ x → x < i + n → p x ≡ false) → count_from p i n ≡ 0
count_from_none p i zero h = refl
count_from_none p i (suc n) h = ground (
  arith,
  h i (omega arith) (omega arith),
  count_from_none p (suc i) n (λ x le lt. h x (omega (arith, le)) (omega (arith, lt))),
)

-- There is no vote for an index that no replica has got to.
pub voters_none :
    (n : ℕ) (size : ReplicaId → ℕ) (h : History) (index : ℕ)
    → Backed size h
    → ((id : ReplicaId) → id < n → size id < index)
    → voters n index h ≡ 0
voters_none n size h index b short = omega (
  arith,
  voters-holders n size h index b,
  count_from_none (λ (id : ReplicaId). leb index (size id)) 0 n
      (λ x le lt. ground (arith, short x (omega (arith, lt)))),
)
