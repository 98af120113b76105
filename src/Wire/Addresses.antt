-- ===== src/Wire/Addresses.antt =====
-- `parse_addr` (app/utils.cpp): the addresses between the commas of an argument.
use morphling_c.Base.{
  ℕ, zero, suc, ◌≡◌, ◌≢◌, ◌<◌, inl, inr, refl, ap, ◌∙◌, List, [], ◌∷◌, ◌++◌, length, length-append,
  ◌==◌, Bool-cases, Option, none, some, ok, ◌>>=◌, arith,
}
use mathlib.Core.Option.{some-injective}
use morphling_c.Message.{Bytes}
use morphling_c.Wire.{break_comma, parse_addr}

-- The pieces with a comma between each and the next.
abbrev pub join : Bytes → List Bytes → Bytes
join first [] = first
join first (next ∷ more) = first ++ b',' ∷ join next more

abbrev pub CommaFree : Bytes → Type 0
CommaFree [] = Unit {0}
CommaFree (c ∷ cs) = (c ≢ b',') × CommaFree cs

abbrev pub AllCommaFree : List Bytes → Type 0
AllCommaFree [] = Unit {0}
AllCommaFree (piece ∷ pieces) = CommaFree piece × AllCommaFree pieces

-- What `break_comma` finds.
abbrev Broken : Bytes → Bytes × Option Bytes → Type 0
Broken arg (piece, none) = (piece ≡ arg) × CommaFree piece
Broken arg (piece, some rest) = (piece ++ b',' ∷ rest ≡ arg) × CommaFree piece

Broken-cons :
    (c : ℕ) (cs : Bytes) (r : Bytes × Option Bytes)
    → c ≢ b','
    → Broken cs r
    → Broken (c ∷ cs) (c ∷ r.0, r.1)
Broken-cons c cs (piece, none) other h = (ap (◌∷◌ c) h.0, (other, h.1))
Broken-cons c cs (piece, some rest) other h = (ap (◌∷◌ c) h.0, (other, h.1))

break_comma-Broken : (arg : Bytes) → Broken arg (break_comma arg)
unfolding break_comma
break_comma-Broken [] = (refl, tt)
break_comma-Broken (c ∷ cs) = elim (Bool-cases (c == b',')) [
  | inl comma ↦ rw comma (ap (λ (b : ℕ). b ∷ cs) (ground (arith, comma)), tt)
  | inr other ↦
      rw other (Broken-cons c cs (break_comma cs) (ground (arith, other)) (break_comma-Broken cs))
]

-- What `parse_addr` makes of an argument.
abbrev pub Parsed : ℕ → Bytes → Type 0
Parsed fuel arg =
    (first : Bytes) × (more : List Bytes) × (parse_addr fuel arg ≡ ok (first ∷ more))
    × (join first more ≡ arg)
    × AllCommaFree (first ∷ more)

parse_rest :
    (fuel : ℕ) (arg : Bytes) (r : Bytes × Option Bytes)
    → break_comma arg ≡ r
    → Broken arg r
    → ((rest : Bytes) → r.1 ≡ some rest → Parsed fuel rest)
    → Parsed (suc fuel) arg
unfolding parse_addr
parse_rest fuel arg (piece, none) e b later = (
  piece,
  [],
  rw (parse_addr, e) (ap (λ (r : Bytes × Option Bytes). ok (r.0 ∷ [])) e),
  b.0,
  (b.1, tt),
)
parse_rest fuel arg (piece, some rest) e b later =
    let (first, more, returns, joined, free) = later rest refl in
    (
      piece,
      first ∷ more,
      rw (parse_addr, e, returns, ◌>>=◌)
          (ap (λ (r : Bytes × Option Bytes). ok (r.0 ∷ first ∷ more)) e),
      ap (λ (cs : Bytes). piece ++ b',' ∷ cs) joined ∙ b.0,
      (b.1, free),
    )

-- The rest after a comma is shorter.
Broken-shorter :
    (arg : Bytes) (r : Bytes × Option Bytes) (rest : Bytes)
    → Broken arg r
    → r.1 ≡ some rest
    → length rest < length arg
Broken-shorter arg (piece, none) rest b e = cc
Broken-shorter arg (piece, some after) rest b e =
    omega
      (arith, ap length (some-injective _ _ e), length-append piece (b',' ∷ after), ap length b.0)

-- With a turn for each byte and one more, `parse_addr` ends. It returns at least one piece; no
-- piece has a comma; and the pieces with a comma between each and the next are the argument.
pub parse_addr-join : (fuel : ℕ) (arg : Bytes) → length arg < fuel → Parsed fuel arg
parse_addr-join zero arg enough = absurd (omega arith)
parse_addr-join (suc fuel) arg enough =
    parse_rest fuel arg (break_comma arg) refl (break_comma-Broken arg) (λ rest e.
      parse_addr-join fuel rest
        (omega (arith, Broken-shorter arg (break_comma arg) rest (break_comma-Broken arg) e)))
