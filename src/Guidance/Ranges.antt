-- ===== src/Guidance/Ranges.antt =====
-- `NodeStatus::pos_is_in` and `Guidance::map_node_id` of core/guidance.h against ranges on a
-- circle.
use morphling_c.Base.{
  ℕ, zero, suc, ◌+◌, ◌-◌, ◌%◌, ◌≡◌, ◌≤◌, ◌<◌, ◌≢◌, ◌↔◌, ◌⊎◌, inl, inr, true, false, List, [], ◌∷◌,
  none, some, refl, ap, ◌∙◌, get_elem?, arith, Bool-cases,
}
use morphling_c.Guidance.{
  NodeStatus, get_start_pos, get_end_pos, alive, pos_is_in, Guidance, find_node, map_node_id,
}
use morphling_c.Guidance.Fields.{get_start_pos_lem, get_end_pos_lem}

-- The steps from `a` to `b` going up round a circle of 256 positions.
abbrev pub steps_up : ℕ → ℕ → ℕ
steps_up a b = (b + 256 - a) % 256

-- A node holds a position exactly if it is alive and the position comes, going up from the start of
-- its range, no later than the end; so a range that starts above its end goes round.
pub pos_is_in_lem :
    (n : NodeStatus) (pos : ℕ)
    → pos < 256
    → (pos_is_in n pos ≡ true) ↔ (
        (alive n ≢ 0)
        × (steps_up (get_start_pos n) pos ≤ steps_up (get_start_pos n) (get_end_pos n)))
unfolding pos_is_in
pos_is_in_lem n pos h = ground (arith, get_start_pos_lem n, get_end_pos_lem n)

-- `find_node` is at the first node of the list that holds the position.
abbrev pub First : List NodeStatus → ℕ → ℕ → Type 0
First ns pos k =
    ((n : NodeStatus) × (get_elem? ns k ≡ some n) × (pos_is_in n pos ≡ true))
    × ((j : ℕ) (m : NodeStatus) → j < k → get_elem? ns j ≡ some m → pos_is_in m pos ≡ false)

-- No node of the list holds the position.
abbrev pub Unheld : List NodeStatus → ℕ → Type 0
Unheld ns pos = (j : ℕ) (m : NodeStatus) → get_elem? ns j ≡ some m → pos_is_in m pos ≡ false

Unheld-cons :
    (n : NodeStatus) (ns : List NodeStatus) (pos : ℕ)
    → pos_is_in n pos ≡ false
    → Unheld ns pos
    → Unheld (n ∷ ns) pos
Unheld-cons n ns pos first rest zero m e = ground arith
Unheld-cons n ns pos first rest (suc j) m e = rest j m e

First-cons :
    (n : NodeStatus) (ns : List NodeStatus) (pos k : ℕ)
    → pos_is_in n pos ≡ false
    → First ns pos k
    → First (n ∷ ns) pos (suc k)
First-cons n ns pos k first rest = (rest.0, before)
  where
    before :
        (j : ℕ) (m : NodeStatus)
        → j < suc k
        → get_elem? (n ∷ ns) j ≡ some m
        → pos_is_in m pos ≡ false
    before zero m lt e = ground arith
    before (suc j) m lt e = rest.1 j m (omega arith) e

find_node_cases :
    (ns : List NodeStatus) (id pos : ℕ)
    → ((find_node ns id pos ≡ none) × Unheld ns pos)
      ⊎ ((k : ℕ) × (find_node ns id pos ≡ some (id + k)) × First ns pos k)
unfolding find_node
find_node_cases [] id pos = inl (refl, λ j m e. cc)
find_node_cases (n ∷ ns) id pos = elim (Bool-cases (pos_is_in n pos)) [
  | inl holds ↦
      inr
        (0, rw holds (ap some (omega arith)), ((n, refl, holds), λ j m lt e. absurd (omega arith)))
  | inr passes ↦ elim (find_node_cases ns (id + 1) pos) [
    | inl (e, unheld) ↦ inl (rw passes e, Unheld-cons n ns pos passes unheld)
    | inr (k, e, first) ↦
        inr (suc k, rw passes (e ∙ ap some (omega arith)), First-cons n ns pos k passes first)
  ]
]

-- `map_node_id` gives the first node of the cluster that holds the position, and -1 exactly if none
-- does.
pub map_node_id_cases :
    (g : Guidance) (pos : ℕ)
    → ((map_node_id g pos ≡ none) × Unheld g.cluster pos)
      ⊎ ((id : ℕ) × (map_node_id g pos ≡ some id) × First g.cluster pos id)
unfolding map_node_id
map_node_id_cases g pos = elim (find_node_cases g.cluster 0 pos) [
  | inl (e, unheld) ↦ inl (e, unheld)
  | inr (k, e, first) ↦ inr (k, e ∙ ap some (omega arith), first)
]
