-- ===== src/Cluster/Carried.antt =====
-- A message of `SMR::handle_operation` (core/smr.cpp) against the leader's log as it is later: it
-- carries one entry of that log, and names the entry before it.
use morphling_c.Base.{
  ℕ, suc, ◌+◌, ◌≡◌, ◌≤◌, ◌<◌, ◌⊎◌, inl, inr, refl, sym, ap, ◌∙◌, List, [], ◌∷◌, ◌++◌, append_assoc,
  length, last_or, get_elem?-append, get_elem?-last, ok, arith, some, get_elem?,
}
use morphling_c.Message.{Entry, AppendEntriesMessage}
use morphling_c.Log
use morphling_c.Log.{SmrLog, entry_at}
use morphling_c.Log.Valid.{Numbered, entry_at_lem}

pub record Carried (l : SmrLog) (msg : AppendEntriesMessage) : Type 0 where
  pub before : List Entry
  pub after : List Entry
  pub entry : Entry
  pub placed : l.entries ≡ before ++ entry ∷ after
  pub alone : msg.entries ≡ entry ∷ []
  pub prev_at : msg.prev_index ≡ length before
  pub prev_epoch : msg.prev_term ≡ (last_or l.dummy_entry before).epoch
  pub known : msg.commit ≤ l.commits

-- One log is another with entries added, and knows at least the same commits.
pub record Grown (l l' : SmrLog) : Type 0 where
  pub more : List Entry
  pub grown : l'.entries ≡ l.entries ++ more
  pub same_dummy : l'.dummy_entry ≡ l.dummy_entry
  pub commits_grow : l.commits ≤ l'.commits

pub Carried-Grown :
    (l l' : SmrLog) (msg : AppendEntriesMessage) → Grown l l' → Carried l msg → Carried l' msg
Carried-Grown l l' msg g c = record {
  before = c.before;
  after = c.after ++ g.more;
  entry = c.entry;
  placed =
      g.grown
      ∙ ap (λ (es : List Entry). es ++ g.more) c.placed
      ∙ append_assoc c.before (c.entry ∷ c.after) g.more;
  alone = c.alone;
  prev_at = c.prev_at;
  prev_epoch = c.prev_epoch ∙ ap (λ (d : Entry). (last_or d c.before).epoch) (sym g.same_dummy);
  known = omega (arith, c.known, g.commits_grow);
}

-- An entry in the middle bears the index that its place gives it.
pub Numbered-middle :
    (k : ℕ) (before after : List Entry) (e : Entry)
    → Numbered k (before ++ e ∷ after)
    → e.index ≡ k + length before
Numbered-middle k [] after e n = omega (arith, n.0)
Numbered-middle k (x ∷ before) after e n = omega (arith, Numbered-middle (suc k) before after e n.1)

-- Two ways to split a list: the first part of one ends earlier, at the same place or later.
pub split_cases {ℓ} :
    {A : Type ℓ} (f rest before after : List A) (e : A)
    → f ++ rest ≡ before ++ e ∷ after
    → (length f < length before)
      ⊎ ((f ≡ before) × (rest ≡ e ∷ after))
      ⊎ ((mid : List A) × (f ≡ before ++ e ∷ mid))
split_cases [] rest [] after e h = inr (inl (refl, h))
split_cases [] rest (x ∷ before) after e h = inl (omega arith)
split_cases (x ∷ f) rest [] after e h = inr (inr (f, cc))
split_cases (x ∷ f) rest (y ∷ before) after e h = elim (split_cases f rest before after e cc) [
  | inl shorter ↦ inl (omega (arith, shorter))
  | inr (inl (same, left)) ↦ inr (inl (cc, left))
  | inr (inr (mid, longer)) ↦ inr (inr (mid, cc))
]

-- The entry before a place.
pub entry_at-before :
    (l : SmrLog) (before after : List Entry)
    → Log.Valid.IsValid l
    → l.entries ≡ before ++ after
    → entry_at l (length before) ≡ ok (last_or l.dummy_entry before)
unfolding entry_at
entry_at-before l before after v e = go before after e
  where
    go :
        (before after : List Entry)
        → l.entries ≡ before ++ after
        → entry_at l (length before) ≡ ok (last_or l.dummy_entry before)
    go [] after e = refl
    go (x ∷ before) after e = entry_at_lem l (length before) v (
        ap (λ (es : List Entry). get_elem? es (length before)) e
        ∙ get_elem?-append (x ∷ before) after (length before) (omega arith)
        ∙ get_elem?-last l.dummy_entry (x ∷ before) (length before) refl)

-- The entry at a place.
pub entry_at-middle :
    (l : SmrLog) (before after : List Entry) (e : Entry)
    → Log.Valid.IsValid l
    → l.entries ≡ before ++ e ∷ after
    → entry_at l (suc (length before)) ≡ ok e
entry_at-middle l before after e v h =
    entry_at_lem l (length before) v
      (ap (λ (es : List Entry). get_elem? es (length before)) h ∙ at_middle before)
  where
    at_middle : (xs : List Entry) → get_elem? (xs ++ e ∷ after) (length xs) ≡ some e
    at_middle [] = refl
    at_middle (x ∷ xs) = at_middle xs
