-- ===== src/Log/Appends.antt =====
-- Runs of `append` and of passive commits on a log (core/smr.cpp), as the follower makes them.
use morphling_c.Base.{
  ℕ, suc, ◌+◌, ◌≡◌, ◌≤◌, refl, ap, ◌∙◌, List, [], ◌∷◌, ◌++◌, append-nil, append_assoc, length,
  length-append, arith,
}
use morphling_c.Message.{Entry}
use morphling_c.Log.{SmrLog, log_capacity}
use morphling_c.Log.Valid.{IsValid, extended, extended-IsValid}

-- The entries with indices from `k` on.
abbrev pub renumber : ℕ → List Entry → List Entry
renumber k [] = []
renumber k (e ∷ es) =
    record { epoch = e.epoch; index = k; payload = e.payload } ∷ renumber (suc k) es

-- A log after the entries are appended one by one.
abbrev pub with_entries : SmrLog → List Entry → SmrLog
with_entries l es = record l { entries = l.entries ++ renumber (suc (length l.entries)) es }

pub length-renumber : (k : ℕ) (es : List Entry) → length (renumber k es) ≡ length es
length-renumber k [] = refl
length-renumber k (e ∷ es) = ap suc (length-renumber (suc k) es)

pub length-with_entries :
    (l : SmrLog) (es : List Entry)
    → length (with_entries l es).entries ≡ length l.entries + length es
length-with_entries l es =
    length-append l.entries _ ∙ ap (λ (n : ℕ). length l.entries + n) (length-renumber _ es)

-- To append an entry, and then the others.
pub with_entries-cons :
    (l : SmrLog) (e : Entry) (es : List Entry)
    → with_entries (extended l e e.epoch) es ≡ with_entries l (e ∷ es)
with_entries-cons l e es =
    ap (λ (xs : List Entry). record l { entries = xs })
      (rw
        (
          length-append l.entries (
              record { epoch = e.epoch; index = suc (length l.entries); payload = e.payload } ∷ []),
          one,
        )
        (append_assoc l.entries _ _))
  where
    one : length l.entries + 1 ≡ suc (length l.entries)
    one = omega arith

pub with_entries-nil : (l : SmrLog) → with_entries l [] ≡ l
with_entries-nil l = ap (λ (xs : List Entry). record l { entries = xs }) (append-nil l.entries)

pub with_entries-IsValid :
    (es : List Entry) (l : SmrLog)
    → IsValid l
    → length l.entries + length es ≤ log_capacity
    → IsValid (with_entries l es)
with_entries-IsValid [] l v h = rw (with_entries-nil l) v
with_entries-IsValid (e ∷ es) l v h = rw (← with_entries-cons l e es) (
    with_entries-IsValid es (extended l e e.epoch) (extended-IsValid l e e.epoch v (omega arith)) (
      omega (
        arith,
        length-append l.entries
            (record { epoch = e.epoch; index = suc (length l.entries); payload = e.payload } ∷ []),
      )))
