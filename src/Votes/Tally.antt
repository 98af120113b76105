-- ===== src/Votes/Tally.antt =====
-- Votes as a history: which replicas have voted for an index, and how many of them there are.
use mathlib.Core.Path.{fun_ext}
use morphling_c.Base.{
  ℕ, zero, suc, ◌+◌, ◌≡◌, ◌≤◌, ◌<◌, ◌≢◌, refl, sym, ap, ◌∙◌, Bool, true, false, ◌&&◌, ◌||◌, List,
  [], ◌∷◌, length, set, replicate, ◌==◌, if◌then◌else◌, arith,
}
use morphling_c.Message.{ReplicaId}
use morphling_c.Votes.{agree_count}

-- The votes cast so far, newest first, each the replica and the index.
abbrev pub History : Type 0
History = List (ReplicaId × ℕ)

abbrev pub cast : ℕ → History → ReplicaId → Bool
cast index [] id = false
cast index ((i, k) ∷ h) id = (id == i && k == index) || cast index h id

-- The values of `p` at `i`, `i + 1` and so on, `n` of them.
abbrev pub roll : (ℕ → Bool) → ℕ → ℕ → List Bool
roll p i zero = []
roll p i (suc n) = p i ∷ roll p (suc i) n

-- How many of the `n` numbers from `i` on satisfy `p`.
abbrev pub count_from : (ℕ → Bool) → ℕ → ℕ → ℕ
count_from p i zero = 0
count_from p i (suc n) = (if p i then 1 else 0) + count_from p (suc i) n

-- How many of the replicas below `n` have voted for `index`.
abbrev pub voters : ℕ → ℕ → History → ℕ
voters n index h = count_from (cast index h) 0 n

pub length-roll : (p : ℕ → Bool) (i n : ℕ) → length (roll p i n) ≡ n
length-roll p i zero = refl
length-roll p i (suc n) = ap suc (length-roll p (suc i) n)

pub agree_count-roll : (p : ℕ → Bool) (i n : ℕ) → agree_count (roll p i n) ≡ count_from p i n
unfolding agree_count
agree_count-roll p i zero = refl
agree_count-roll p i (suc n) = omega (arith, agree_count-roll p (suc i) n)

pub replicate-roll : (i n : ℕ) → replicate n false ≡ roll (λ _. false) i n
replicate-roll i zero = refl
replicate-roll i (suc n) = ap (◌∷◌ false) (replicate-roll (suc i) n)

pub count_from-false : (i n : ℕ) → count_from (λ _. false) i n ≡ 0
count_from-false i zero = refl
count_from-false i (suc n) = omega (arith, count_from-false (suc i) n)

-- `p` with `id` added.
abbrev pub with_id : (ℕ → Bool) → ℕ → ℕ → Bool
with_id p id x = x == id || p x

roll-with_above : (p : ℕ → Bool) (id i n : ℕ) → id < i → roll (with_id p id) i n ≡ roll p i n
roll-with_above p id i zero h = refl
roll-with_above p id i (suc n) h = ground (arith, roll-with_above p id (suc i) n)

-- To set a bit of the roll is to add its replica.
pub set-roll :
    (p : ℕ → Bool) (id i n k : ℕ)
    → id ≡ i + k
    → k < n
    → set (roll p i n) k true ≡ roll (with_id p id) i n
set-roll p id i zero k e h = absurd (omega arith)
set-roll p id i (suc n) zero e h = ground (arith, roll-with_above p id (suc i) n)
set-roll p id i (suc n) (suc k) e h = ground (arith, set-roll p id (suc i) n k)

count_from-with_above :
    (p : ℕ → Bool) (id i n : ℕ) → id < i → count_from (with_id p id) i n ≡ count_from p i n
count_from-with_above p id i zero h = refl
count_from-with_above p id i (suc n) h = ground (arith, count_from-with_above p id (suc i) n)

pub count_from-with_bounds :
    (p : ℕ → Bool) (id i n : ℕ)
    → (count_from p i n ≤ count_from (with_id p id) i n)
      × (count_from (with_id p id) i n ≤ suc (count_from p i n))
count_from-with_bounds p id i zero = omega arith
count_from-with_bounds p id i (suc n) =
    ground (arith, count_from-with_bounds p id (suc i) n, count_from-with_above p id (suc i) n)

-- A vote for another index leaves the votes for this one.
pub cast-other :
    (index k : ℕ) (i : ReplicaId) (h : History) → k ≢ index → cast index ((i, k) ∷ h) ≡ cast index h
cast-other index k i h ne = fun_ext λ x. ground arith

pub cast-same :
    (index : ℕ) (i : ReplicaId) (h : History)
    → cast index ((i, index) ∷ h) ≡ with_id (cast index h) i
cast-same index i h = fun_ext λ x. ground arith

pub voters-other :
    (n index k : ℕ) (i : ReplicaId) (h : History)
    → k ≢ index
    → voters n index ((i, k) ∷ h) ≡ voters n index h
voters-other n index k i h ne = ap (λ (p : ℕ → Bool). count_from p 0 n) (cast-other index k i h ne)

pub voters-same :
    (n index : ℕ) (i : ReplicaId) (h : History)
    → (voters n index h ≤ voters n index ((i, index) ∷ h))
      × (voters n index ((i, index) ∷ h) ≤ suc (voters n index h))
voters-same n index i h = rw (cast-same index i h) (count_from-with_bounds (cast index h) i 0 n)

-- The roll of votes after one more.
pub roll-vote :
    (n index : ℕ) (i : ReplicaId) (h : History)
    → i < n
    → set (roll (cast index h) 0 n) i true ≡ roll (cast index ((i, index) ∷ h)) 0 n
roll-vote n index i h lt =
    set-roll (cast index h) i 0 n i (omega arith) lt
    ∙ ap (λ (p : ℕ → Bool). roll p 0 n) (sym (cast-same index i h))
