-- ===== src/Client/Setup.antt =====
-- `check_setup` (app/client2.cpp): when the clients of a thread start to send.
use morphling_c.Base.{
  ℕ, zero, suc, ◌≡◌, ◌≢◌, ◌≤◌, ◌<◌, ◌↔◌, ◌⊎◌, inl, inr, refl, sym, ap, subst, ◌∙◌, Bool, true,
  false, List, [], ◌∷◌, some, length, get_elem?, leb, ◌==◌, ok, or_fault, ◌>>=◌, Bool-cases, arith,
}
use mathlib.Core.Option.{some-injective}
use morphling_c.Guidance.{Guidance}
use morphling_c.Client.{
  Client, idle, find_max, count_epoch, all_epoch, has_uniform_guidance, update_leading_guidance,
  check_setup,
}

-- Every guidance of the list has the epoch.
abbrev pub AllOf : ℕ → List Guidance → Type 0
AllOf e gs = (j : ℕ) (g : Guidance) → get_elem? gs j ≡ some g → g.epoch ≡ e

AllOf-tail : (e : ℕ) (g : Guidance) (gs : List Guidance) → AllOf e (g ∷ gs) → AllOf e gs
AllOf-tail e g gs all j x at = all (suc j) x at

pub all_epoch_cases :
    (e : ℕ) (gs : List Guidance)
    → ((all_epoch e gs ≡ true) × AllOf e gs) ⊎ ((all_epoch e gs ≡ false) × ¬ AllOf e gs)
unfolding all_epoch
all_epoch_cases e [] = inl (refl, λ j g at. cc)
all_epoch_cases e (g ∷ gs) = elim (Bool-cases (g.epoch == e)) [
  | inl same ↦ elim (all_epoch_cases e gs) [
    | inl (r, all) ↦ inl (rw (same, r), both (ground (arith, same)) all)
    | inr (r, differ) ↦ inr (rw (same, r), λ all. differ (AllOf-tail e g gs all))
  ]
  | inr other ↦ inr (rw other, λ all. absurd (ground (arith, other, all 0 g refl)))
]
  where
    both : g.epoch ≡ e → AllOf e gs → AllOf e (g ∷ gs)
    both first rest zero x at = sym (ap (λ (y : Guidance). y.epoch) (some-injective _ _ at)) ∙ first
    both first rest (suc j) x at = rest j x at

find_max-AllOf : (gs : List Guidance) (i e idx : ℕ) → AllOf e gs → find_max gs i e idx ≡ (e, idx)
unfolding find_max
find_max-AllOf [] i e idx all = refl
find_max-AllOf (g ∷ gs) i e idx all =
    ground (arith, all 0 g refl, find_max-AllOf gs (suc i) e idx (AllOf-tail e g gs all))

find_max-first :
    (g : Guidance) (gs : List Guidance)
    → g.epoch ≢ 0
    → AllOf g.epoch (g ∷ gs)
    → find_max (g ∷ gs) 0 0 0 ≡ (g.epoch, 0)
unfolding find_max
find_max-first g gs proper all =
    ground (arith, proper, find_max-AllOf gs 1 g.epoch 0 (AllOf-tail g.epoch g gs all))

pub count_epoch-AllOf : (gs : List Guidance) (e : ℕ) → AllOf e gs → count_epoch e gs ≡ length gs
unfolding count_epoch
count_epoch-AllOf [] e all = refl
count_epoch-AllOf (g ∷ gs) e all =
    ground (arith, all 0 g refl, count_epoch-AllOf gs e (AllOf-tail e g gs all))

-- The collection has room for a quorum.
abbrev pub Sized : Client → Type 0
Sized c = (0 < length c.one_turn_collection) × (c.quorum ≤ length c.one_turn_collection)

-- All replicas have sent guidance of one epoch.
abbrev pub Uniform : Client → Type 0
Uniform c = (e : ℕ) × (e ≢ 0) × AllOf e c.one_turn_collection

-- A client that may send: idle, with leading guidance whose epoch the whole collection has.
abbrev pub SetUp : Client → Type 0
SetUp c =
    (c.status ≡ idle)
    × (c.leading_guidance.epoch ≢ 0)
    × AllOf c.leading_guidance.epoch c.one_turn_collection

-- A client of which `check_setup` goes on to the next.
record Checked (c : Client) : Type 0 where
  leading : Guidance
  uniform : has_uniform_guidance c ≡ ok true
  updated : update_leading_guidance c ≡ ok (record c { leading_guidance = leading }, true)
  proper : leading.epoch ≢ 0
  all : AllOf leading.epoch c.one_turn_collection

checked :
    (c : Client) (g : Guidance) (gs : List Guidance)
    → c.one_turn_collection ≡ g ∷ gs
    → Sized c
    → (Checked c × Uniform c) ⊎ ((has_uniform_guidance c ≡ ok false) × ¬ Uniform c)
unfolding has_uniform_guidance update_leading_guidance
checked c g gs collection sized = elim (Bool-cases (g.epoch == 0)) [
  | inl none_yet ↦ inr (
    rw (collection, or_fault, ◌>>=◌, none_yet),
    λ u. absurd (ground (arith, none_yet, u.2 0 g at_first, u.1)),
  )
  | inr some_yet ↦ elim (all_epoch_cases g.epoch (g ∷ gs)) [
    | inl (r, all) ↦
        let whole : AllOf g.epoch c.one_turn_collection =
          subst (AllOf g.epoch) (sym collection) all in
        let proper : g.epoch ≢ 0 = ground (arith, some_yet) in
        inl (
          record {
            leading = g;
            uniform = rw (collection, or_fault, ◌>>=◌, some_yet, r);
            updated = rw (
              ap (λ (xs : List Guidance). find_max xs 0 0 0) collection
                  ∙ find_max-first g gs proper all,
              enough g.epoch whole,
              at_first,
              or_fault,
              ◌>>=◌,
            );
            proper = proper;
            all = whole;
          },
          (g.epoch, proper, whole),
        )
    | inr (r, differ) ↦ inr (
      rw (collection, or_fault, ◌>>=◌, some_yet, r),
      λ u. differ (
          subst (λ (e : ℕ). AllOf e (g ∷ gs)) (sym (u.2 0 g at_first))
            (subst (AllOf u.0) collection u.2)),
    )
  ]
]
  where
    at_first : get_elem? c.one_turn_collection 0 ≡ some g
    at_first = ap (λ (xs : List Guidance). get_elem? xs 0) collection

    enough :
        (e : ℕ)
        → AllOf e c.one_turn_collection
        → leb c.quorum (count_epoch e c.one_turn_collection) ≡ true
    enough e all = ground (arith, sized.1, count_epoch-AllOf c.one_turn_collection e all)

Checked-any :
    (c : Client) (collection : List Guidance)
    → c.one_turn_collection ≡ collection
    → Sized c
    → (Checked c × Uniform c) ⊎ ((has_uniform_guidance c ≡ ok false) × ¬ Uniform c)
Checked-any c [] same sized = absurd (omega (arith, sized.0, ap length same))
Checked-any c (g ∷ gs) same sized = checked c g gs same sized

abbrev pub Each : (Client → Type 0) → List Client → Type 0
Each P [] = Unit {0}
Each P (c ∷ cs) = P c × Each P cs

pub Each-get :
    (P : Client → Type 0) (cs : List Client) (i : ℕ) (c : Client)
    → Each P cs
    → get_elem? cs i ≡ some c
    → P c
Each-get P [] i c each at = cc
Each-get P (x ∷ cs) zero c each at = subst P (some-injective _ _ at) each.0
Each-get P (x ∷ cs) (suc i) c each at = Each-get P cs i c each.1 at

-- Let every client's collection have room for a quorum. Then `check_setup` does not fault, and it
-- returns true exactly if for every client all replicas have sent guidance of one epoch other than
-- 0. If it returns true, every client is idle and has leading guidance, with the epoch of all its
-- collection. The collections keep their sizes.
pub check_setup_lem :
    (cs : List Client)
    → Each Sized cs
    → (cs' : List Client) × (b : Bool) × (check_setup cs ≡ ok (cs', b))
      × ((b ≡ true) ↔ Each Uniform cs)
      × ((b ≡ true) → Each SetUp cs')
      × Each Sized cs'
unfolding check_setup
check_setup_lem [] sized = ([], true, refl, (λ h. tt, λ h. refl), (λ h. tt), tt)
check_setup_lem (c ∷ cs) sized = elim (Checked-any c c.one_turn_collection refl sized.0) [
  | inl (k, u) ↦
      let (cs', b, e, iff, ready, kept) = check_setup_lem cs sized.1 in
      (
        record c { leading_guidance = k.leading; status = idle } ∷ cs',
        b,
        rw (k.uniform, ◌>>=◌, k.updated, e),
        (λ h. (u, iff.0 h), λ h. iff.1 h.1),
        (λ h. ((refl, k.proper, k.all), ready h)),
        (sized.0, kept),
      )
  | inr (e, differ) ↦
      (c ∷ cs, false, rw (e, ◌>>=◌), (λ h. cc, λ h. absurd (differ h.0)), (λ h. cc), sized)
]
