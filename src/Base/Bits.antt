-- ===== src/Base/Bits.antt =====
-- `&` with a mask of consecutive ones and `|` of disjoint fields, as arithmetic. The native
-- operations stand for a recursion on digits with fuel, and each lemma holds for all fuel that is
-- large enough.
use Prim.Native.Nat.{
  ℕ, zero, suc, ◌+◌, ◌-◌, ◌*◌, ◌/◌, ◌%◌, ◌^◌, ◌≤◌, ◌<◌, min, max, digits, bit_and, bit_or,
  bit_and-bitwise, bit_or-bitwise,
}
use mathlib.Core.Path.{◌≡◌, refl, ap}
use native.Mathlib.Nat.{pow-suc, one-le-pow, le_refl, mul-one}
use native.Mathlib.Omega.{arith}

abbrev and_digits : ℕ → ℕ → ℕ → ℕ
and_digits = digits (λ b. zero) min

abbrev or_digits : ℕ → ℕ → ℕ → ℕ
or_digits = digits (λ b. b) max

and_digits-zero : (n a : ℕ) → a ≤ n → and_digits n a 0 ≡ 0
and_digits-zero zero a h = refl
and_digits-zero (suc n) zero h = refl
and_digits-zero (suc n) (suc a) h = omega (arith, and_digits-zero n (suc a / 2) (omega arith))

half_mask : (w : ℕ) → (2 ^ suc w - 1) / 2 ≡ 2 ^ w - 1
half_mask w = omega (arith, pow-suc 2 w, one-le-pow w 2)

-- A mask of `w` ones keeps the `w` low digits `m` of `h * 2 ^ w + m`.
and_digits-low :
    (n w h m a : ℕ) → a ≤ n → m < 2 ^ w → a ≡ h * 2 ^ w + m → and_digits n a (2 ^ w - 1) ≡ m
and_digits-low n zero h m a fuel lt e = omega (arith, and_digits-zero n a fuel)
and_digits-low zero (suc w) h m zero fuel lt e = omega arith
and_digits-low zero (suc w) h m (suc a) fuel lt e = absurd (omega arith)
and_digits-low (suc n) (suc w) h m zero fuel lt e = omega arith
and_digits-low (suc n) (suc w) h m (suc a) fuel lt e =
    rw (half_mask w, and_digits-low n w h (m / 2) (suc a / 2) (omega arith) small halved)
      (omega (arith, one-le-pow w 2, pow-suc 2 w, ap (λ (t : ℕ). h * t) (pow-suc 2 w)))
  where
    small : m / 2 < 2 ^ w
    small = omega (arith, pow-suc 2 w)

    halved : suc a / 2 ≡ h * 2 ^ w + m / 2
    halved = omega (arith, ap (λ (t : ℕ). h * t) (pow-suc 2 w))

even_field : (q k : ℕ) → q * 2 ^ suc k ≡ q * 2 ^ k + q * 2 ^ k
even_field q k = omega (arith, ap (λ (t : ℕ). q * t) (pow-suc 2 k))

half_field : (q k : ℕ) → q * 2 ^ suc k / 2 ≡ q * 2 ^ k
half_field q k = omega (arith, even_field q k)

-- A mask of `w` ones, shifted by `k`, keeps the digits `m` of `(h * 2 ^ w + m) * 2 ^ k + l`.
and_digits-field :
    (n w k h m l a : ℕ)
    → a ≤ n
    → m < 2 ^ w
    → l < 2 ^ k
    → a ≡ (h * 2 ^ w + m) * 2 ^ k + l
    → and_digits n a ((2 ^ w - 1) * 2 ^ k) ≡ m * 2 ^ k
and_digits-field n w zero h m l a fuel fits low e =
    simp mul-one (and_digits-low n w h m a fuel fits (omega arith))
and_digits-field zero w (suc k) h m l zero fuel fits low e = omega arith
and_digits-field zero w (suc k) h m l (suc a) fuel fits low e = absurd (omega arith)
and_digits-field (suc n) w (suc k) h m l zero fuel fits low e = omega arith
and_digits-field (suc n) w (suc k) h m l (suc a) fuel fits low e =
    rw
      (
        half_field (2 ^ w - 1) k,
        and_digits-field n w k h m (l / 2) (suc a / 2) (omega arith) fits small halved,
      )
      (omega (arith, even_field (2 ^ w - 1) k, even_field m k))
  where
    small : l / 2 < 2 ^ k
    small = omega (arith, pow-suc 2 k)

    halved : suc a / 2 ≡ (h * 2 ^ w + m) * 2 ^ k + l / 2
    halved = omega (arith, even_field (h * 2 ^ w + m) k)

or_digits-zero : (n a : ℕ) → a ≤ n → or_digits n a 0 ≡ a
or_digits-zero zero zero h = refl
or_digits-zero zero (suc a) h = absurd (omega arith)
or_digits-zero (suc n) zero h = refl
or_digits-zero (suc n) (suc a) h = omega (arith, or_digits-zero n (suc a / 2) (omega arith))

-- A low field `r` under a high one, in either order.
or_digits-high : (n k q r a : ℕ) → a ≤ n → r < 2 ^ k → a ≡ q * 2 ^ k → or_digits n a r ≡ a + r
or_digits-high n zero q zero a h lt e = omega (arith, or_digits-zero n a h)
or_digits-high n zero q (suc r) a h lt e = absurd (omega arith)
or_digits-high zero (suc k) q r zero h lt e = omega arith
or_digits-high zero (suc k) q r (suc a) h lt e = absurd (omega arith)
or_digits-high (suc n) (suc k) q r zero h lt e = omega arith
or_digits-high (suc n) (suc k) q r (suc a) h lt e =
    rw
      (or_digits-high n k q (r / 2) (suc a / 2) (omega arith) (omega (arith, pow-suc 2 k))
        (omega (arith, even_field q k)))
      (omega (arith, even_field q k))

or_digits-low : (n k q r : ℕ) → r ≤ n → r < 2 ^ k → or_digits n r (q * 2 ^ k) ≡ q * 2 ^ k + r
or_digits-low zero k q zero h lt = omega arith
or_digits-low zero k q (suc r) h lt = absurd (omega arith)
or_digits-low (suc n) k q zero h lt = omega arith
or_digits-low (suc n) zero q (suc r) h lt = absurd (omega arith)
or_digits-low (suc n) (suc k) q (suc r) h lt =
    rw (half_field q k, or_digits-low n k q (suc r / 2) (omega arith) (omega (arith, pow-suc 2 k)))
      (omega (arith, even_field q k))

pub bit_or_high : (k q r : ℕ) → r < 2 ^ k → bit_or (q * 2 ^ k) r ≡ q * 2 ^ k + r
bit_or_high k q r h =
    simp bit_or-bitwise (or_digits-high (q * 2 ^ k) k q r (q * 2 ^ k) (le_refl _) h refl)

pub bit_or_low : (k q r : ℕ) → r < 2 ^ k → bit_or r (q * 2 ^ k) ≡ q * 2 ^ k + r
bit_or_low k q r h = simp bit_or-bitwise (or_digits-low r k q r (le_refl r) h)

-- `a & (((1 << w) - 1) << k)`
pub bit_and_field :
    (w k h m l : ℕ)
    → m < 2 ^ w
    → l < 2 ^ k
    → bit_and ((h * 2 ^ w + m) * 2 ^ k + l) ((2 ^ w - 1) * 2 ^ k) ≡ m * 2 ^ k
bit_and_field w k h m l fits low =
    simp bit_and-bitwise (and_digits-field _ w k h m l _ (le_refl _) fits low refl)

pub bit_and_low : (w a : ℕ) → bit_and a (2 ^ w - 1) ≡ a % 2 ^ w
bit_and_low w a = simp bit_and-bitwise (
    and_digits-low a w (a / 2 ^ w) (a % 2 ^ w) a (le_refl a) (omega (arith, one-le-pow w 2))
      (omega arith))
