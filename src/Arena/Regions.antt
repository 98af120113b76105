-- ===== src/Arena/Regions.antt =====
-- Regions of memory that do not overlap (extra/arena.cpp).
use mathlib.Core.List.{Memᴰ}
use mathlib.Core.List.Memᴰ
use morphling_c.Base.{ℕ, ◌+◌, ◌*◌, ◌≡◌, ◌≤◌, ◌⊎◌, inl, inr, List, [], ◌∷◌, arith}
use morphling_c.Arena.{Region}

abbrev pub Apart : Region → Region → Type 0
Apart r q = (r.0 + r.1 ≤ q.0) ⊎ (q.0 + q.1 ≤ r.0)

abbrev pub Within : Region → Region → Type 0
Within r b = (b.0 ≤ r.0) × (r.0 + r.1 ≤ b.0 + b.1)

abbrev pub ApartFrom : Region → List Region → Type 0
ApartFrom r [] = Unit {0}
ApartFrom r (q ∷ qs) = Apart r q × ApartFrom r qs

-- No two overlap.
abbrev pub AllApart : List Region → Type 0
AllApart [] = Unit {0}
AllApart (r ∷ rs) = ApartFrom r rs × AllApart rs

-- Each lies in one of the blocks.
abbrev pub AllHeld : List Region → List Region → Type 0
AllHeld blocks [] = Unit {0}
AllHeld blocks (r ∷ rs) = ((b : Region) × Memᴰ b blocks × Within r b) × AllHeld blocks rs

-- What `new` promises of the place of a block: it is a multiple of 8, and the block overlaps none of
-- those that are there.
pub record Allocator (place : List Region → ℕ → ℕ) : Type 0 where
  pub aligned : (blocks : List Region) (n : ℕ) → (q : ℕ) × (place blocks n ≡ 8 * q)
  pub fresh : (blocks : List Region) (n : ℕ) → ApartFrom (place blocks n, n) blocks

pub Apart-Within : (r b q : Region) → Within r b → Apart b q → Apart r q
Apart-Within r b q w (inl left) = inl (omega (arith, w.0, w.1, left))
Apart-Within r b q w (inr right) = inr (omega (arith, w.0, w.1, right))

pub ApartFrom-Within :
    (r b : Region) (qs : List Region) → Within r b → ApartFrom b qs → ApartFrom r qs
ApartFrom-Within r b [] w a = tt
ApartFrom-Within r b (q ∷ qs) w a = (Apart-Within r b q w a.0, ApartFrom-Within r b qs w a.1)

pub ApartFrom-mem :
    (r b : Region) (blocks : List Region) → ApartFrom r blocks → Memᴰ b blocks → Apart r b
ApartFrom-mem r b [] a m = absurd (Memᴰ.not-nil m)
ApartFrom-mem r b (x ∷ blocks) a m = elim (Memᴰ.cases_cons m) [
  | inl e ↦ rw e a.0
  | inr later ↦ ApartFrom-mem r b blocks a.1 later
]

-- What is apart from the blocks is apart from what lies in them.
pub ApartFrom-held :
    (r : Region) (blocks qs : List Region) → ApartFrom r blocks → AllHeld blocks qs → ApartFrom r qs
ApartFrom-held r blocks [] a h = tt
ApartFrom-held r blocks (q ∷ qs) a h =
    let (b, m, w) = h.0 in
    (
      elim (ApartFrom-mem r b blocks a m) [
        | inl left ↦ inl (omega (arith, left, w.0))
        | inr right ↦ inr (omega (arith, right, w.1))
      ],
      ApartFrom-held r blocks qs a h.1,
    )

pub AllHeld-more :
    (b : Region) (blocks rs : List Region) → AllHeld blocks rs → AllHeld (b ∷ blocks) rs
AllHeld-more b blocks [] h = tt
AllHeld-more b blocks (r ∷ rs) h = ((h.0.0, Memᴰ.tail h.0.1, h.0.2), AllHeld-more b blocks rs h.1)
