-- ===== src/Cluster/Progress.antt =====
-- What a cluster (core/smr.cpp) can still do: from every state of a run, the messages that have been
-- posted are enough for the leader to commit its whole log.
use morphling_c.Base.{
  ℕ, zero, suc, ◌+◌, ◌-◌, ◌≡◌, ◌≢◌, ◌≤◌, ◌<◌, inl, inr, refl, sym, ap, ◌∙◌, Bool, true, List, [],
  ◌∷◌, length, length-append, arith, Bool-cases, leb, leb→le, ◌⊎◌,
}
use mathlib.Core.List.{Memᴰ}
use mathlib.Core.List.Memᴰ
use native.Mathlib.Decide.{ℕ_discrete}
use morphling_c.Message.{ReplicaId, AppendEntriesReplyMessage}
use morphling_c.Log.{SmrLog}
use morphling_c.Votes.Tally.{History, cast, count_from, voters}
use morphling_c.Smr.{Smr}
use morphling_c.Cluster.{
  Cluster, entries_to, answer_to, start, Step, deliver, acknowledge, Reach, here, next,
}
use morphling_c.Cluster.Sound.{Sound}
use morphling_c.Cluster.Acknowledging.{acknowledge-Sound}
use morphling_c.Cluster.Answering.{followed, follower, answered, answered-Sound}
use morphling_c.Cluster.Steps.{Reach-Sound}

count_from_all :
    (p : ℕ → Bool) (i n : ℕ) → ((x : ℕ) → i ≤ x → x < i + n → p x ≡ true) → count_from p i n ≡ n
count_from_all p i zero h = refl
count_from_all p i (suc n) h = ground (
  arith,
  h i (omega arith) (omega arith),
  count_from_all p (suc i) n (λ x le lt. h x (omega (arith, le)) (omega (arith, lt))),
)

count_from_but_one :
    (p : ℕ → Bool) (me i n : ℕ)
    → ((x : ℕ) → i ≤ x → x < i + n → x ≢ me → p x ≡ true)
    → n ≤ suc (count_from p i n)
count_from_but_one p me i zero h = omega arith
count_from_but_one p me i (suc n) h = elim (ℕ_discrete i me) [
  | yes own ↦
      let rest : count_from p (suc i) n ≡ n =
        count_from_all p (suc i) n
          (λ x le lt. h x (omega (arith, le)) (omega (arith, lt)) (omega (arith, le, own))) in
      ground (arith, rest)
  | no other ↦
      let rest : n ≤ suc (count_from p (suc i) n) =
        count_from_but_one p me (suc i) n
          (λ x le lt ne. h x (omega (arith, le)) (omega (arith, lt)) ne) in
      ground (arith, rest, h i (omega arith) (omega arith) other)
]

Reach-join : {c d e : Cluster} → Reach c d → Reach d e → Reach c e
Reach-join r here = r
Reach-join r (next q st) = next (Reach-join r q) st

ℕ-cases : (n : ℕ) → (n ≡ 0) ⊎ ((k : ℕ) × (n ≡ suc k))
ℕ-cases zero = inl refl
ℕ-cases (suc n) = inr (n, refl)

module _ (me : ReplicaId) (peers : List ReplicaId)
    (members : (id : ReplicaId) → Memᴰ id peers → id < length peers)
    (me_in : me < length peers) where
  -- One more message for a follower: the one for the entry at position `k`, which it has got to.
  record Answered (h : History) (c : Cluster) (to : ReplicaId) (k : ℕ) : Type 0 where
    after : Cluster
    step : Step c after
    sound : Sound me peers h after
    same_leader : after.leader ≡ c.leader
    grown :
        k ≡ length (c.followers to).log.entries → length (after.followers to).log.entries ≡ suc k
    kept : length (c.followers to).log.entries ≤ length (after.followers to).log.entries
    reply : AppendEntriesReplyMessage
    posted : Memᴰ (to, answer_to after.leader.me reply) after.posted
    success : reply.success ≡ true
    upto : reply.index ≡ length (after.followers to).log.entries

  answer :
      (h : History) (c : Cluster) (to : ReplicaId) (k : ℕ)
      → Sound me peers h c
      → Memᴰ to peers
      → to ≢ me
      → k < length c.leader.log.entries
      → k ≤ length (c.followers to).log.entries
      → Answered h c to k
  answer h c to k d mem other lt le =
      let (from, msg, m, at) = d.offered to mem other k lt in
      let (carried, _, inside, own) = d.fine (from, entries_to to msg) m in
      let out = followed me peers h c d from to msg carried other inside in
      let own_follower : ((answered me peers h c d from to msg carried other inside).followers
            to).log
          ≡ out.after =
        ground arith in
      let reply : AppendEntriesReplyMessage = record {
        from = 0;
        epoch = 0;
        success = out.success;
        group_id = (c.followers to).gid;
        index = length out.after.entries;
      } in
      record {
        after = answered me peers h c d from to msg carried other inside;
        step =
            deliver from to msg (follower me peers h c d from to msg carried other inside) _ m
              out.returns refl;
        sound = answered-Sound me peers h c d from to msg carried other inside;
        same_leader = refl;
        grown = λ e.
            ap (λ (l : SmrLog). length l.entries) own_follower
            ∙ out.further (at ∙ e)
            ∙ ap suc (sym e);
        kept = omega (arith, out.kept, ap (λ (l : SmrLog). length l.entries) own_follower);
        reply = reply;
        posted = Memᴰ.head (ap (λ (x : ReplicaId). (to, answer_to x reply)) (d.is_me ∙ sym own));
        success = out.taken (omega (arith, at, le));
        upto = ap (λ (l : SmrLog). length l.entries) (sym own_follower);
      }

  -- What a run gets to from a cluster without new operations; it keeps the votes.
  record Ahead (h : History) (c : Cluster) : Type 0 where
    after : Cluster
    run : Reach c after
    same_entries : after.leader.log.entries ≡ c.leader.log.entries
    history : History
    sound : Sound me peers history after
    votes_kept :
        (index : ℕ) (id : ReplicaId) → cast index h id ≡ true → cast index history id ≡ true

  abbrev stay : (h : History) (c : Cluster) → Sound me peers h c → Ahead h c
  stay h c d = record {
    after = c;
    run = here;
    same_entries = refl;
    history = h;
    sound = d;
    votes_kept = λ index id voted. voted;
  }

  abbrev and_then :
      (h : History) (c : Cluster) (a : Ahead h c) → Ahead a.history a.after → Ahead h c
  and_then h c a b = record {
    after = b.after;
    run = Reach-join a.run b.run;
    same_entries = b.same_entries ∙ a.same_entries;
    history = b.history;
    sound = b.sound;
    votes_kept = λ index id voted. b.votes_kept index id (a.votes_kept index id voted);
  }

  abbrev ahead :
      (h : History) (c : Cluster) (to : ReplicaId) (k : ℕ) → Answered h c to k → Ahead h c
  ahead h c to k w = record {
    after = w.after;
    run = next here w.step;
    same_entries = ap (λ (s : Smr). s.log.entries) w.same_leader;
    history = h;
    sound = w.sound;
    votes_kept = λ index id voted. voted;
  }

  -- A follower gets `g` more entries, one by one.
  catch_up :
      (g : ℕ) (h : History) (c : Cluster) (to : ReplicaId) (k : ℕ)
      → Sound me peers h c
      → Memᴰ to peers
      → to ≢ me
      → k < length c.leader.log.entries
      → length (c.followers to).log.entries + g ≡ k
      → (a : Ahead h c) × (length (a.after.followers to).log.entries ≡ k)
  catch_up zero h c to k d mem other lt e = (stay h c d, omega (arith, e))
  catch_up (suc g) h c to k d mem other lt e =
      let size = length (c.followers to).log.entries in
      let w = answer h c to size d mem other (omega (arith, e, lt)) (omega arith) in
      let (a, at) =
        catch_up g h w.after to k w.sound mem other
          (omega (arith, lt, ap (λ (s : Smr). length s.log.entries) w.same_leader))
          (omega (arith, e, w.grown refl)) in
      (and_then h c (ahead h c to size w) a, at)

  -- The leader takes the reply to the message for its last entry, as a vote.
  vote_of :
      (h : History) (c : Cluster) (to : ReplicaId) (k : ℕ) (w : Answered h c to k)
      → to < length peers
      → length c.leader.log.entries ≡ suc k
      → k ≤ length (c.followers to).log.entries
      → (a : Ahead h c) × (cast (suc k) a.history to ≡ true)
  vote_of h c to k w lt size le =
      let (rest, pre) = w.sound.prefix to lt in
      let whole : length (w.after.followers to).log.entries ≡ suc k =
        elim (ℕ_discrete k (length (c.followers to).log.entries)) [
          | yes at ↦ w.grown at
          | no past ↦ omega (
            arith,
            w.kept,
            past,
            ap length pre,
            length-append (w.after.followers to).log.entries rest,
            ap (λ (s : Smr). length s.log.entries) w.same_leader,
          )
        ] in
      let (s', cs, e, same, h', voted, sound) =
        acknowledge-Sound me peers members me_in h w.after to w.after.leader.me w.reply w.sound
          w.posted in
      let new : h' ≡ (to, w.reply.index) ∷ h = voted ∙ rw w.success in
      (
        record {
          after = _;
          run = next (next here w.step) (acknowledge to w.reply s' cs w.posted e refl);
          same_entries = same ∙ ap (λ (s : Smr). s.log.entries) w.same_leader;
          history = h';
          sound = sound;
          votes_kept = λ index id old. rw new (ground arith);
        },
        rw new (ground (arith, w.upto, whole)),
      )

  -- A follower gets all entries and votes for the last one, unless it has them and votes again.
  vote_last :
      (h : History) (c : Cluster) (to : ReplicaId) (k : ℕ)
      → Sound me peers h c
      → Memᴰ to peers
      → to ≢ me
      → length c.leader.log.entries ≡ suc k
      → (a : Ahead h c) × (cast (suc k) a.history to ≡ true)
  vote_last h c to k d mem other size =
      elim (Bool-cases (leb k (length (c.followers to).log.entries))) [
        | inl near ↦
            vote_of h c to k (answer h c to k d mem other (omega (arith, size)) (leb→le k _ near))
              (members to mem) size (leb→le k _ near)
        | inr far ↦
            let (a, at) =
              catch_up (k - length (c.followers to).log.entries) h c to k d mem other
                (omega (arith, size)) (ground (arith, far)) in
            let size' : length a.after.leader.log.entries ≡ suc k =
              ap length a.same_entries ∙ size in
            let (b, voted) =
              vote_of a.history a.after to k
                (answer a.history a.after to k a.sound mem other (omega (arith, size'))
                  (omega (arith, at)))
                (members to mem) size' (omega (arith, at)) in
            (and_then h c a b, voted)
      ]

  -- One after the other, all of them do.
  poll :
      (ids : List ReplicaId) (h : History) (c : Cluster) (k : ℕ)
      → Sound me peers h c
      → ((id : ReplicaId) → Memᴰ id ids → Memᴰ id peers)
      → length c.leader.log.entries ≡ suc k
      → (a : Ahead h c) × ((id : ReplicaId)
          → Memᴰ id ids
          → id ≢ me
          → cast (suc k) a.history id ≡ true)
  poll [] h c k d listed size = (stay h c d, λ id m other. absurd (Memᴰ.not-nil m))
  poll (to ∷ ids) h c k d listed size =
      let (a, voted) = poll ids h c k d (λ id m. listed id (Memᴰ.tail m)) size in
      elim (ℕ_discrete to me) [
        | yes own ↦ (
          a,
          λ id m other. elim (Memᴰ.cases_cons m) [
            | inl same ↦ absurd (other (same ∙ own))
            | inr later ↦ voted id later other
          ],
        )
        | no apart ↦
            let (b, last) =
              vote_last a.history a.after to k a.sound (listed to (Memᴰ.head refl)) apart
                (ap length a.same_entries ∙ size) in
            (
              and_then h c a b,
              λ id m other. elim (Memᴰ.cases_cons m) [
                | inl same ↦ ap (cast (suc k) b.history) same ∙ last
                | inr later ↦ b.votes_kept (suc k) id (voted id later other)
              ],
            )
      ]

  -- A leader of three or more replicas, with ids below their number, that has any entries.
  commit_last :
      (h : History) (c : Cluster) (k : ℕ)
      → Sound me peers h c
      → ((id : ReplicaId) → id < length peers → Memᴰ id peers)
      → 3 ≤ length peers
      → length c.leader.log.entries ≡ suc k
      → (a : Ahead h c) × (a.after.leader.log.commits ≡ suc k)
  commit_last h c k d covers many size =
      let (a, voted) = poll peers h c k d (λ id m. m) size in
      let enough : length peers ≤ suc (voters (length peers) (suc k) a.history) =
        count_from_but_one (cast (suc k) a.history) me 0 (length peers)
          (λ x le lt other. voted x (covers x (omega (arith, lt))) other) in
      let known = a.sound.prompt (omega (arith, many)) (suc k) (omega (arith, enough, many)) in
      (a, omega (arith, known, a.sound.leader_valid.committed, ap length a.same_entries, size))

-- From every cluster that a run gets to, if its peers are exactly the ids below their number and
-- there are at least three of them, messages and replies that are delivered now, among those that
-- have been posted and those that they cause, get the leader to commit its whole log: the run has a
-- continuation after which the leader's log has the same entries and its commit index is their
-- number.
pub can_commit :
    (me : ReplicaId) (peers : List ReplicaId) (gid : ℕ)
    → ((id : ReplicaId) → Memᴰ id peers → id < length peers)
    → ((id : ReplicaId) → id < length peers → Memᴰ id peers)
    → me < length peers
    → 3 ≤ length peers
    → (c : Cluster) → Reach (start me peers gid) c
    → (c' : Cluster) × Reach c c'
      × (c'.leader.log.entries ≡ c.leader.log.entries)
      × (c'.leader.log.commits ≡ length c.leader.log.entries)
can_commit me peers gid members covers me_in many c r =
    let (h, d) = Reach-Sound me peers members me_in gid c r in
    elim (ℕ-cases (length c.leader.log.entries)) [
      | inl none_yet ↦ (c, here, refl, omega (arith, none_yet, d.leader_valid.committed))
      | inr (k, size) ↦
          let (a, done_by) = commit_last me peers members me_in h c k d covers many size in
          (a.after, a.run, a.same_entries, done_by ∙ sym size)
    ]
