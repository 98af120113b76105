-- ===== src/Cluster/Sound.antt =====
-- The invariant of a cluster (core/smr.cpp): followers are behind the leader on one log, every
-- message carries an entry of it, and every vote is backed by entries.
use morphling_c.Base.{
  ℕ, ◌+◌, ◌/◌, ◌≡◌, ◌≢◌, ◌≤◌, ◌<◌, ◌⊎◌, inl, inr, refl, true, List, [], ◌∷◌, ◌++◌, map, length,
  ◌==◌, if◌then◌else◌, arith, Bool-cases, subst, sym,
}
use mathlib.Core.List.{Memᴰ}
use mathlib.Core.List.Memᴰ
use morphling_c.Message.{
  AppendEntriesMessage, Entry, ReplicaId, Body, append, append_reply, client, guidance,
}
use morphling_c.Log.{SmrLog}
use morphling_c.Log.Valid.{last_entry_lem}
use morphling_c.Votes.Tally.{History, voters}
use morphling_c.Smr.{Callback, send_append_entry, send_append_entry_reply, apply}
use morphling_c.Smr.Valid.{IsValid}
use morphling_c.Smr.Leading.{carrying, to_others}
use morphling_c.Smr.Committing.{OnlyApplies}
use morphling_c.Cluster.{Cluster, Posted, post, entries_to}
use morphling_c.Cluster.Carried.{Carried, Grown, Carried-Grown}
use morphling_c.Cluster.Votes.{Backed}

-- How many entries a replica holds.
abbrev pub held : ReplicaId → Cluster → ReplicaId → ℕ
held me c id = if id == me then length c.leader.log.entries else length (c.followers id).log.entries

-- What is known of a callback in a cluster of `n` replicas that `me` leads with log `l`.
abbrev FineSend : ℕ → ReplicaId → SmrLog → ReplicaId → ReplicaId → Body → Type 0
FineSend n me l from to (append msg) = Carried l msg × (to ≢ me) × (to < n) × (from ≡ me)
FineSend n me l from to _ = Unit {0}

abbrev FineReply : ℕ → (ReplicaId → ℕ) → ReplicaId → Body → Type 0
FineReply n size from (append_reply msg) = (from < n) × (msg.success ≡ true → msg.index ≤ size from)
FineReply n size from _ = Unit {0}

abbrev pub Fine : ℕ → ReplicaId → SmrLog → (ReplicaId → ℕ) → Posted → Type 0
Fine n me l size (from, send_append_entry m) = FineSend n me l from m.to m.body
Fine n me l size (from, send_append_entry_reply m) = FineReply n size from m.body
Fine n me l size (from, apply es) = Unit {0}

-- A message for the entry at position `k` has been posted to a replica.
abbrev pub Offered : List Posted → ReplicaId → ℕ → Type 0
Offered ps to k =
    (from : ReplicaId) × (msg : AppendEntriesMessage) × Memᴰ (from, entries_to to msg) ps
    × (msg.prev_index ≡ k)

-- A cluster of the replicas `peers` that `me` leads, after the votes `h`. An index that has a majority
-- of votes is committed; a replica alone does not see the one vote that it casts itself.
pub record Sound (me : ReplicaId) (peers : List ReplicaId) (h : History) (c : Cluster)
    : Type 0 where
  pub is_me : c.leader.me ≡ me
  pub same_peers : c.leader.peers ≡ peers
  pub leader_valid : IsValid c.leader
  pub leader_history : leader_valid.history ≡ h
  pub follower_valid : (id : ReplicaId) → id < length peers → IsValid (c.followers id)
  pub prefix :
      (id : ReplicaId)
      → id < length peers
      → (rest : List Entry) × (c.leader.log.entries ≡ (c.followers id).log.entries ++ rest)
  pub behind :
      (id : ReplicaId) → id < length peers → (c.followers id).log.commits ≤ c.leader.log.commits
  pub backed : Backed (held me c) h
  pub quorum :
      (c.leader.log.commits ≡ 0)
      ⊎ (length peers / 2 + 1 ≤ voters (length peers) c.leader.log.commits h)
  pub prompt :
      2 ≤ length peers
      → (k : ℕ) → length peers / 2 + 1 ≤ voters (length peers) k h
      → k ≤ c.leader.log.commits
  pub offered :
      (to : ReplicaId)
      → Memᴰ to peers
      → to ≢ me
      → (k : ℕ) → k < length c.leader.log.entries
      → Offered c.posted to k
  pub fine : (p : Posted) → Memᴰ p c.posted → Fine (length peers) me c.leader.log (held me c) p

-- What is known stays known while logs grow.
FineSend-grows :
    (n : ℕ) (me from to : ReplicaId) (l l' : SmrLog) (b : Body)
    → Grown l l'
    → FineSend n me l from to b
    → FineSend n me l' from to b
FineSend-grows n me from to l l' (append msg) g f = (Carried-Grown l l' msg g f.0, f.1, f.2, f.3)
FineSend-grows n me from to l l' (append_reply msg) g f = tt
FineSend-grows n me from to l l' (client msg) g f = tt
FineSend-grows n me from to l l' (guidance msg) g f = tt

FineReply-grows :
    (n : ℕ) (from : ReplicaId) (size size' : ReplicaId → ℕ) (b : Body)
    → ((id : ReplicaId) → size id ≤ size' id)
    → FineReply n size from b
    → FineReply n size' from b
FineReply-grows n from size size' (append msg) le f = tt
FineReply-grows n from size size' (append_reply msg) le f =
    (f.0, λ success. omega (arith, f.1 success, le from))
FineReply-grows n from size size' (client msg) le f = tt
FineReply-grows n from size size' (guidance msg) le f = tt

pub Fine-grows :
    (n : ℕ) (me : ReplicaId) (l l' : SmrLog) (size size' : ReplicaId → ℕ) (p : Posted)
    → Grown l l'
    → ((id : ReplicaId) → size id ≤ size' id)
    → Fine n me l size p
    → Fine n me l' size' p
Fine-grows n me l l' size size' (from, send_append_entry m) g le f =
    FineSend-grows n me from m.to l l' m.body g f
Fine-grows n me l l' size size' (from, send_append_entry_reply m) g le f =
    FineReply-grows n from size size' m.body le f
Fine-grows n me l l' size size' (from, apply es) g le f = tt

-- The callbacks of one step, all fine.
abbrev pub AllFine : ℕ → ReplicaId → SmrLog → (ReplicaId → ℕ) → ReplicaId → List Callback → Type 0
AllFine n me l size from [] = Unit {0}
AllFine n me l size from (cb ∷ cs) = Fine n me l size (from, cb) × AllFine n me l size from cs

AllFine-mem :
    (n : ℕ) (me : ReplicaId) (l : SmrLog) (size : ReplicaId → ℕ) (from : ReplicaId)
    (cs : List Callback) (p : Posted)
    → AllFine n me l size from cs
    → Memᴰ p (map (λ (cb : Callback). (from, cb)) cs)
    → Fine n me l size p
AllFine-mem n me l size from [] p f m = absurd (Memᴰ.not-nil m)
AllFine-mem n me l size from (cb ∷ cs) p f m = elim (Memᴰ.cases_cons m) [
  | inl e ↦ subst (Fine n me l size) (sym e) f.0
  | inr later ↦ AllFine-mem n me l size from cs p f.1 later
]

-- Fine callbacks are posted on top of fine ones.
pub post-Fine :
    (n : ℕ) (me : ReplicaId) (l : SmrLog) (size : ReplicaId → ℕ) (from : ReplicaId)
    (cs : List Callback) (ps : List Posted)
    → AllFine n me l size from cs
    → ((p : Posted) → Memᴰ p ps → Fine n me l size p)
    → (p : Posted) → Memᴰ p (post from cs ps)
    → Fine n me l size p
post-Fine n me l size from cs ps f old p m =
    elim (Memᴰ.append_cases (map (λ (cb : Callback). (from, cb)) cs) m) [
      | inl new ↦ AllFine-mem n me l size from cs p f new
      | inr before ↦ old p before
    ]

pub OnlyApplies-Fine :
    (n : ℕ) (me : ReplicaId) (l : SmrLog) (size : ReplicaId → ℕ) (from : ReplicaId)
    (cs : List Callback)
    → OnlyApplies cs
    → AllFine n me l size from cs
OnlyApplies-Fine n me l size from [] q = tt
OnlyApplies-Fine n me l size from (apply es ∷ cs) q = (tt, OnlyApplies-Fine n me l size from cs q)
OnlyApplies-Fine n me l size from (send_append_entry m ∷ cs) q = absurd q
OnlyApplies-Fine n me l size from (send_append_entry_reply m ∷ cs) q = absurd q

-- The messages that carry the new entry of a leader.
pub to_others-Fine :
    (n : ℕ) (me : ReplicaId) (l l' : SmrLog) (size : ReplicaId → ℕ) (gid : ℕ) (e : Entry)
    (from : ReplicaId) (rids : List ReplicaId)
    → from ≡ me
    → ((rid : ReplicaId) → Memᴰ rid rids → rid < n)
    → l'.entries ≡ l.entries ++ e ∷ []
    → l'.dummy_entry ≡ l.dummy_entry
    → l.commits ≤ l'.commits
    → AllFine n me l' size from (to_others me (carrying l gid e) rids)
to_others-Fine n me l l' size gid e from [] own_name members grown dummy commits = tt
to_others-Fine n me l l' size gid e from (rid ∷ rids) own_name members grown dummy commits =
    let more =
      to_others-Fine n me l l' size gid e from rids own_name (λ r m. members r (Memᴰ.tail m)) grown
        dummy commits in
    elim (Bool-cases (rid == me)) [
      | inl own ↦ rw own more
      | inr other ↦ rw other (
        (
          record {
            before = l.entries;
            after = [];
            entry = e;
            placed = grown;
            alone = refl;
            prev_at = refl;
            prev_epoch = rw (last_entry_lem l, dummy);
            known = commits;
          },
          ground arith,
          members rid (Memᴰ.head refl),
          own_name,
        ),
        more,
      )
    ]

-- Among them is one to every replica that is listed and is not the leader.
pub carrying-to_others :
    (me to : ReplicaId) (l : SmrLog) (gid : ℕ) (e : Entry) (rids : List ReplicaId)
    → to ≢ me
    → Memᴰ to rids
    → Memᴰ (carrying l gid e to) (to_others me (carrying l gid e) rids)
carrying-to_others me to l gid e [] other m = absurd (Memᴰ.not-nil m)
carrying-to_others me to l gid e (rid ∷ rids) other m = elim (Bool-cases (rid == me)) [
  | inl own ↦ elim (Memᴰ.cases_cons m) [
    | inl here ↦ absurd (ground (arith, own, here, other))
    | inr later ↦ rw own (carrying-to_others me to l gid e rids other later)
  ]
  | inr apart ↦ elim (Memᴰ.cases_cons m) [
    | inl here ↦ rw (apart, here) (Memᴰ.head refl)
    | inr later ↦ rw apart (Memᴰ.tail (carrying-to_others me to l gid e rids other later))
  ]
]

pub post-Offered :
    (from to : ReplicaId) (k : ℕ) (cs : List Callback) (ps : List Posted)
    → Offered ps to k
    → Offered (post from cs ps) to k
post-Offered from to k cs ps (by, msg, m, at) =
    (by, msg, Memᴰ.append_right (map (λ (cb : Callback). (from, cb)) cs) m, at)
