-- ===== src/Client/Quorum.antt =====
-- `Client::check_guidance_quorum` (app/client2.cpp): when a client takes a read as confirmed.
use morphling_c.Base.{
  ℕ, zero, suc, ◌+◌, ◌≡◌, ◌≢◌, ◌≤◌, ◌<◌, ◌↔◌, ◌⊎◌, inl, inr, refl, sym, ap, ◌∙◌, Bool, true, false,
  List, [], ◌∷◌, Option, none, some, Dict, lookup, insert, lookup-insert, length, get_elem?,
  get_elem?_total, ltb, leb, leb→le, subst, ◌==◌, if◌then◌else◌, ok, or_fault, ◌>>=◌, Bool-cases,
  arith,
}
use mathlib.Core.Option.{some-injective}
use morphling_c.Guidance.{Guidance}
use morphling_c.Client.{
  Client, votes_of, epoch_votes, last_vote, count_epoch, check_guidance_quorum,
}

-- `n` more votes.
abbrev plus : Option ℕ → ℕ → Option ℕ
plus o n = if n == 0 then o else some ((elim o [ none ↦ 0 | some v ↦ v ]) + n)

plus_more :
    (o : Option ℕ) (n : ℕ) → plus (some ((elim o [ none ↦ 0 | some v ↦ v ]) + 1)) n ≡ plus o (1 + n)
plus_more none n = ground arith
plus_more (some v) n = ground arith

-- One more vote, for `epoch`.
plus-insert :
    (epoch k n : ℕ) (votes : Dict ℕ)
    → plus (if epoch == k then some (votes_of epoch votes + 1) else lookup k votes) n
      ≡ plus (lookup k votes) ((if epoch == k then 1 else 0) + n)
unfolding votes_of
plus-insert epoch k n votes = elim (Bool-cases (epoch == k)) [
  | inl same ↦ rw same (rw (equal same) (plus_more (lookup k votes) n))
  | inr other ↦ rw other (ap (plus (lookup k votes)) (omega arith))
]
  where
    equal : (epoch == k) ≡ true → epoch ≡ k
    equal e = ground (arith, e)

epoch_votes_lem :
    (gs : List Guidance) (votes : Dict ℕ) (k : ℕ)
    → lookup k (epoch_votes gs votes) ≡ plus (lookup k votes) (count_epoch k gs)
unfolding epoch_votes count_epoch
epoch_votes_lem [] votes k = refl
epoch_votes_lem (g ∷ gs) votes k =
    epoch_votes_lem gs (insert g.epoch (votes_of g.epoch votes + 1) votes) k
    ∙ ap (λ (o : Option ℕ). plus o (count_epoch k gs))
        (lookup-insert g.epoch k (votes_of g.epoch votes + 1) votes)
    ∙ plus-insert g.epoch k (count_epoch k gs) votes

-- The entry of the greatest key.
abbrev Top : Dict ℕ → ℕ → ℕ → Type 0
Top votes k v = (lookup k votes ≡ some v) × ((j w : ℕ) → lookup j votes ≡ some w → j ≤ k)

last_vote_cases :
    (votes : Dict ℕ)
    → ((last_vote votes ≡ none) × (votes ≡ []))
      ⊎ ((k v : ℕ) × (last_vote votes ≡ some (k, v)) × Top votes k v)
unfolding last_vote lookup
last_vote_cases [] = inl (refl, refl)
last_vote_cases ((k, v) ∷ votes) = elim (last_vote_cases votes) [
  | inl (e, empty) ↦ inr (k, v, rw e, (ground arith, λ j w at. ground (arith, empty, at)))
  | inr (j, w, e, (at, top)) ↦ elim (Bool-cases (ltb k j)) [
    | inl less ↦ inr (j, w, rw (e, less), (ground arith, λ i u there. ground (arith, top i u)))
    | inr more ↦ inr (k, v, rw (e, more), (ground arith, λ i u there. ground (arith, top i u)))
  ]
]

-- No guidance of the list has a greater epoch.
abbrev pub Below : ℕ → List Guidance → Type 0
Below bound gs = (j : ℕ) (g : Guidance) → get_elem? gs j ≡ some g → g.epoch ≤ bound

count_epoch-get :
    (gs : List Guidance) (j : ℕ) (g : Guidance)
    → get_elem? gs j ≡ some g
    → 0 < count_epoch g.epoch gs
unfolding count_epoch
count_epoch-get [] j g at = cc
count_epoch-get (x ∷ gs) zero g at =
    ground (arith, ap (λ (y : Guidance). y.epoch) (some-injective _ _ at))
count_epoch-get (x ∷ gs) (suc j) g at = omega (arith, count_epoch-get gs j g at)

count_epoch-some :
    (gs : List Guidance) (k : ℕ)
    → 0 < count_epoch k gs
    → (j : ℕ) × (g : Guidance) × (get_elem? gs j ≡ some g) × (g.epoch ≡ k)
unfolding count_epoch
count_epoch-some [] k h = absurd (omega arith)
count_epoch-some (x ∷ gs) k h = elim (Bool-cases (x.epoch == k)) [
  | inl same ↦ (0, x, refl, ground (arith, same))
  | inr differs ↦
      let (j, g, at, e) = count_epoch-some gs k (ground (arith, h, differs)) in (suc j, g, at, e)
]

plus-none : (n v : ℕ) → plus none n ≡ some v → (0 < n) × (v ≡ n)
plus-none n v h = elim (Bool-cases (n == 0)) [
  | inl nothing ↦ absurd (ground (arith, nothing, h))
  | inr something ↦ (ground (arith, something), ground (arith, something, h))
]

counted :
    (gs : List Guidance) (k v : ℕ)
    → lookup k (epoch_votes gs []) ≡ some v
    → (0 < count_epoch k gs) × (v ≡ count_epoch k gs)
unfolding lookup
counted gs k v at = plus-none (count_epoch k gs) v (sym (epoch_votes_lem gs [] k) ∙ at)

found :
    (gs : List Guidance) (k : ℕ)
    → 0 < count_epoch k gs
    → lookup k (epoch_votes gs []) ≡ some (count_epoch k gs)
unfolding lookup
found gs k h = epoch_votes_lem gs [] k ∙ ground arith

-- The last entry of the map counts the greatest epoch of the list.
top_vote :
    (gs : List Guidance)
    → 0 < length gs
    → (k : ℕ) × (last_vote (epoch_votes gs []) ≡ some (k, count_epoch k gs))
      × (0 < count_epoch k gs)
      × Below k gs
unfolding lookup
top_vote gs nonempty = elim (last_vote_cases (epoch_votes gs [])) [
  | inl (e, empty) ↦
      let (g, at) = get_elem?_total gs 0 nonempty in
      absurd (ground (arith, found gs g.epoch (count_epoch-get gs 0 g at), empty))
  | inr (k, v, e, (at, top)) ↦ (
    k,
    e ∙ ap (λ (n : ℕ). some (k, n)) (counted gs k v at).1,
    (counted gs k v at).0,
    λ j g there.
        top g.epoch (count_epoch g.epoch gs) (found gs g.epoch (count_epoch-get gs j g there)),
  )
]

-- The greatest epoch is within every bound, and no epoch that occurs is above it.
top_bound : (gs : List Guidance) (k bound : ℕ) → 0 < count_epoch k gs → Below bound gs → k ≤ bound
top_bound gs k bound some_vote below =
    let (j, g, at, e) = count_epoch-some gs k some_vote in ground (arith, below j g at, e)

top_reach : (gs : List Guidance) (k e : ℕ) → Below k gs → 0 < count_epoch e gs → e ≤ k
top_reach gs k e below some_vote =
    let (j, g, at, same) = count_epoch-some gs e some_vote in ground (arith, below j g at, same)

-- A client with a quorum above 0, and a collection that has room for some replica, never faults in
-- `check_guidance_quorum`. It returns true exactly if the client has leading guidance (an epoch
-- other than 0), no guidance of the collection has a greater epoch, and at least a quorum of it has
-- the epoch of the leading guidance.
pub check_guidance_quorum_lem :
    (c : Client)
    → 0 < c.quorum
    → 0 < length c.one_turn_collection
    → (b : Bool) × (check_guidance_quorum c ≡ ok b)
      × ((b ≡ true) ↔ (
          (c.leading_guidance.epoch ≢ 0)
          × Below c.leading_guidance.epoch c.one_turn_collection
          × (c.quorum ≤ count_epoch c.leading_guidance.epoch c.one_turn_collection)))
unfolding check_guidance_quorum
check_guidance_quorum_lem c some_quorum nonempty = elim (Bool-cases (leading == 0)) [
  | inl none_yet ↦ (false, rw none_yet, (λ h. cc, λ h. absurd (h.0 (ground (arith, none_yet)))))
  | inr some_yet ↦ elim (Bool-cases (k == 0)) [
    | inl zero_top ↦ (
      false,
      rw (some_yet, voted, or_fault, ◌>>=◌, zero_top),
      (
        λ h. cc,
        λ h. absurd (ground (arith, some_yet, zero_top, top_reach gs k leading top.3, h.2)),
      ),
    )
    | inr proper ↦ elim (Bool-cases (ltb leading k)) [
      | inl behind ↦ (
        false,
        rw (some_yet, voted, or_fault, ◌>>=◌, proper, behind),
        (λ h. cc, λ h. absurd (ground (arith, behind, top_bound gs k leading top.2 h.1))),
      )
      | inr not_behind ↦ elim (Bool-cases (ltb k leading)) [
        | inl ahead ↦ (
          false,
          rw (some_yet, voted, or_fault, ◌>>=◌, proper, not_behind, ahead),
          (λ h. cc, λ h. absurd (ground (arith, ahead, top_reach gs k leading top.3, h.2))),
        )
        | inr not_ahead ↦
            let same : k ≡ leading = ground (arith, not_behind, not_ahead) in
            (
              leb c.quorum (count_epoch k gs),
              rw (some_yet, voted, or_fault, ◌>>=◌, proper, not_behind, not_ahead),
              (
                λ h. (
                  ground (arith, some_yet),
                  subst (λ (n : ℕ). Below n gs) same top.3,
                  subst (λ (n : ℕ). c.quorum ≤ count_epoch n gs) same (leb→le _ _ h),
                ),
                λ h. ground (arith, subst (λ (n : ℕ). c.quorum ≤ count_epoch n gs) (sym same) h.2),
              ),
            )
      ]
    ]
  ]
]
  where
    leading : ℕ
    leading = c.leading_guidance.epoch

    gs : List Guidance
    gs = c.one_turn_collection

    top :
        (k : ℕ) × (last_vote (epoch_votes gs []) ≡ some (k, count_epoch k gs))
        × (0 < count_epoch k gs)
        × Below k gs
    top = top_vote gs nonempty

    k : ℕ
    k = top.0

    voted : last_vote (epoch_votes gs []) ≡ some (k, count_epoch k gs)
    voted = top.1
