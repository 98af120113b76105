-- ===== src/Base/Faults.antt =====
-- The ways in which the C++ code stops or leaves defined behaviour, and results that may fault.
use mathlib.Core.Path.{◌≡◌, refl}
use mathlib.Core.Logic.{◌⊎◌, inl, inr}
use mathlib.Core.Option.{Option, none, some}
use mathlib.Core.Bool.{Bool, true, false}

pub data Fault : Type 0 where
  -- `ABORT_F` and `LOG_F(FATAL)` end the process.
  aborted : Fault
  -- An index or an iterator outside a vector.
  out_of_range : Fault
  -- A read through a reference into storage that was freed.
  dangling : Fault
  -- A call through an empty `unique_ptr`.
  null_pointer : Fault
  -- Storage freed that was never allocated.
  bad_free : Fault
  -- An exception of the unpacker that nobody catches.
  unpack_error : Fault
  -- A loop that has used the fuel of its model, and has not ended.
  out_of_fuel : Fault

-- What a call comes to: a value, or the fault that ends it.
pub data Result {ℓ} (R : Type ℓ) : Type ℓ where
  ok : R → Result R
  fault : Fault → Result R

-- A missing value is a fault.
abbrev pub or_fault {ℓ} : {R : Type ℓ} → Option R → Fault → Result R
or_fault (some value) why = ok value
or_fault none why = fault why

infixl 5 ◌>>=◌
abbrev pub ◌>>=◌ {ℓ κ} : {R : Type ℓ} {S : Type κ} → Result R → (R → Result S) → Result S
fault why >>= next = fault why
ok value >>= next = next value

-- A test that must hold for the code to be defined from there on.
abbrev pub guard : Bool → Fault → Result (Unit {0})
guard holds why = elim holds [ true ↦ ok tt | false ↦ fault why ]

infixl 5 ◌>>◌
abbrev pub ◌>>◌ {κ} : {S : Type κ} → Result (Unit {0}) → Result S → Result S
first >> next = first >>= λ _. next

pub ok-injective {ℓ} : {R : Type ℓ} {x y : R} → ok x ≡ ok y → x ≡ y
ok-injective same = cc

pub ok-fault_ne {ℓ} : {R : Type ℓ} {x : R} {f : Fault} → ¬ (ok x ≡ fault f)
ok-fault_ne {R} {x} {f} e = cc

pub Result-cases {ℓ} :
    {R : Type ℓ} (r : Result R) → ((x : R) × (r ≡ ok x)) ⊎ ((f : Fault) × (r ≡ fault f))
Result-cases (ok x) = inl (x, refl)
Result-cases (fault f) = inr (f, refl)
