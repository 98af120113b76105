-- ===== src/Cluster/Leading.antt =====
-- The leader of a cluster takes operations (core/smr.cpp): the invariant from the start.
use morphling_c.Base.{
  ◌≢◌, Bool-cases, ltb, ltb→lt, ℕ, suc, ◌+◌, ◌/◌, ◌≡◌, ◌≤◌, ◌<◌, ◌⊎◌, inl, inr, refl, sym, ap, ◌∙◌,
  subst, List, [], ◌∷◌, ◌++◌, append_assoc, length, length-append, ok, arith,
}
use mathlib.Core.List.{Memᴰ}
use mathlib.Core.List.Memᴰ
use morphling_c.Message.{Entry, ReplicaId, ClientMessage}
use morphling_c.Log.{SmrLog, log_capacity}
use morphling_c.Log.Valid.{empty-IsValid}
use morphling_c.Votes.Tracks.{init-Tracks}
use morphling_c.Votes.Quorum.{voters-append}
use morphling_c.Smr.{Smr, Callback, init, handle_operation}
use morphling_c.Smr.Valid.{IsValid, init-IsValid}
use morphling_c.Smr.Leading.{new_entry, carrying, to_others, handle_operation-carrying}
use morphling_c.Cluster.{Cluster, post, start}
use morphling_c.Cluster.Carried.{Grown}
use morphling_c.Cluster.Votes.{voters_none, Backed-grows}
use native.Mathlib.Decide.{ℕ_discrete}
use morphling_c.Votes.Tally.{History, voters, voters-same, voters-other, count_from-false}
use morphling_c.Cluster.Sound.{
  carrying-to_others, post-Offered, Offered, held, Sound, Fine-grows, AllFine, post-Fine,
  to_others-Fine,
}

module _ (me : ReplicaId) (peers : List ReplicaId)
    (members : (id : ReplicaId) → Memᴰ id peers → id < length peers)
    (me_in : me < length peers) where
  pub start-Sound : (gid : ℕ) → Sound me peers [] (start me peers gid)
  unfolding init
  start-Sound gid = record {
    is_me = refl;
    same_peers = refl;
    leader_valid = record {
      log_valid = empty-IsValid;
      committed = omega arith;
      history = [];
      tracks = init-Tracks (length peers);
      me_in = me_in;
    };
    leader_history = refl;
    follower_valid = λ id lt. init-IsValid id peers gid lt;
    prefix = λ id lt. ([], refl);
    behind = λ id lt. omega arith;
    backed = tt;
    quorum = inl refl;
    prompt = λ two k q. absurd (omega (arith, q, count_from-false 0 (length peers)));
    offered = λ to m other k lt. absurd (omega (arith, lt));
    fine = λ p m. absurd (Memᴰ.not-nil m);
  }

  pub held_le :
      (h : History) (c : Cluster)
      → Sound me peers h c
      → (id : ReplicaId) → id < length peers
      → held me c id ≤ length c.leader.log.entries
  held_le h c d id lt =
      let (rest, pre) = d.prefix id lt in
      ground (arith, ap length pre, length-append (c.followers id).log.entries rest)

  -- A new state of the leader, whose log has grown.
  module _ (h : History) (c : Cluster) (d : Sound me peers h c) (s' : Smr) (cs : List Callback)
      (valid : IsValid s') (grown : Grown c.leader.log s'.log) where
    abbrev pub led : Cluster
    led = record c { leader = s'; posted = post c.leader.me cs c.posted }

    longer : length c.leader.log.entries ≤ length s'.log.entries
    longer = omega (arith, ap length grown.grown, length-append c.leader.log.entries grown.more)

    pub held_grows : (id : ReplicaId) → held me c id ≤ held me led id
    held_grows id = ground (arith, longer)

    -- The history grew by one vote, and the commit index stayed or has its quorum.
    pub led-Sound :
        (voter : ReplicaId) (index : ℕ)
        → s'.me ≡ c.leader.me
        → s'.peers ≡ c.leader.peers
        → valid.history ≡ (voter, index) ∷ d.leader_valid.history
        → index ≤ held me led voter
        → ((s'.log.commits ≡ c.leader.log.commits)
            ⊎ (length peers / 2 + 1 ≤ voters (length peers) s'.log.commits ((voter, index) ∷ h)))
        → (2 ≤ length peers
            → length peers / 2 + 1 ≤ voters (length peers) index ((voter, index) ∷ h)
            → index ≤ s'.log.commits)
        → ((to : ReplicaId)
            → Memᴰ to peers
            → to ≢ me
            → (k : ℕ) → length c.leader.log.entries ≤ k
            → k < length s'.log.entries
            → Offered (post c.leader.me cs c.posted) to k)
        → AllFine (length peers) me s'.log (held me led) c.leader.me cs
        → Sound me peers ((voter, index) ∷ h) led
    led-Sound voter index same_me same voted enough commit prompt offer fine = record {
      is_me = same_me ∙ d.is_me;
      same_peers = same ∙ d.same_peers;
      leader_valid = valid;
      leader_history = voted ∙ ap (◌∷◌ (voter, index)) d.leader_history;
      follower_valid = d.follower_valid;
      prefix = λ id lt.
          let (rest, pre) = d.prefix id lt in
          (
            rest ++ grown.more,
            grown.grown
                ∙ ap (λ (es : List Entry). es ++ grown.more) pre
                ∙ append_assoc (c.followers id).log.entries rest grown.more,
          );
      behind = λ id lt. omega (arith, d.behind id lt, grown.commits_grow);
      backed = (enough, Backed-grows (held me c) (held me led) h held_grows d.backed);
      quorum = elim commit [
        | inr reached ↦ inr reached
        | inl stayed ↦ elim d.quorum [
          | inl none_yet ↦ inl (stayed ∙ none_yet)
          | inr reached ↦ inr (
              rw stayed (
                omega (
                  arith,
                  reached,
                  voters-append (length peers) c.leader.log.commits ((voter, index) ∷ []) h,
                )))
        ]
      ];
      prompt = λ two k q. elim (ℕ_discrete index k) [
        | yes at ↦ omega (
          arith,
          at,
          prompt two (
              subst (λ (j : ℕ). length peers / 2 + 1 ≤ voters (length peers) j ((voter, index) ∷ h))
                (sym at) q),
        )
        | no other ↦ omega (
          arith,
          d.prompt two k (omega (arith, q, voters-other (length peers) k index voter h other)),
          grown.commits_grow,
        )
      ];
      offered = λ to m other k lt. elim (Bool-cases (ltb k (length c.leader.log.entries))) [
        | inl old ↦
            post-Offered c.leader.me to k cs c.posted (d.offered to m other k (ltb→lt _ _ old))
        | inr new ↦ offer to m other k (ground (arith, new)) lt
      ];
      fine = post-Fine (length peers) me s'.log (held me led) c.leader.me cs c.posted fine (λ p m.
          Fine-grows (length peers) me c.leader.log s'.log (held me c) (held me led) p grown
            held_grows (d.fine p m));
    }

  -- The leader takes an operation for which its log has room.
  pub propose-Sound :
      (h : History) (c : Cluster) (msg : ClientMessage)
      → Sound me peers h c
      → length c.leader.log.entries < log_capacity
      → (s' : Smr) × (cs : List Callback) × (i : ℕ) × (handle_operation c.leader msg
          ≡ ok (s', cs, i))
        × Sound me peers
            ((c.leader.me, suc (length c.leader.log.entries)) ∷ h)
            (record c { leader = s'; posted = post c.leader.me cs c.posted })
  propose-Sound h c msg d room =
      let (s', e, log', valid, same_me, same, _, voted) =
        handle_operation-carrying c.leader msg d.leader_valid room in
      let cs =
        to_others c.leader.me (carrying c.leader.log c.leader.gid (new_entry c.leader.log msg))
          c.leader.peers in
      let grown : Grown c.leader.log s'.log = record {
        more = new_entry c.leader.log msg ∷ [];
        grown = ap (λ (l : SmrLog). l.entries) log';
        same_dummy = ap (λ (l : SmrLog). l.dummy_entry) log';
        commits_grow = omega (arith, ap (λ (l : SmrLog). l.commits) log');
      } in
      (
        s',
        cs,
        suc (length c.leader.log.entries),
        e,
        led-Sound h c d s' cs valid grown c.leader.me (suc (length c.leader.log.entries)) same_me
            same voted
            (ground (
              arith,
              d.is_me,
              ap (λ (l : SmrLog). length l.entries) log',
              length-append c.leader.log.entries (new_entry c.leader.log msg ∷ []),
            ))
            (inl (ap (λ (l : SmrLog). l.commits) log'))
            (λ two q. absurd (
              omega (
                arith,
                two,
                q,
                voters-same (length peers) (suc (length c.leader.log.entries)) c.leader.me h,
                voters_none (length peers) (held me c) h (suc (length c.leader.log.entries))
                    d.backed (λ id lt. omega (arith, held_le h c d id lt)),
              )))
            (λ to m other k from below. (
              c.leader.me,
              _,
              Memᴰ.append_left c.posted (
                  Memᴰ.map (λ (cb : Callback). (c.leader.me, cb))
                    (carrying-to_others c.leader.me to c.leader.log c.leader.gid
                      (new_entry c.leader.log msg) c.leader.peers (rw d.is_me other)
                      (rw d.same_peers m))),
              omega (
                arith,
                from,
                below,
                ap (λ (l : SmrLog). length l.entries) log',
                length-append c.leader.log.entries (new_entry c.leader.log msg ∷ []),
              ),
            ))
            (subst
              (λ (x : ReplicaId).
                AllFine (length peers) me s'.log (held me (led h c d s' cs valid grown)) c.leader.me
                  (to_others x (carrying c.leader.log c.leader.gid (new_entry c.leader.log msg))
                    c.leader.peers))
              (sym d.is_me)
              (to_others-Fine (length peers) me c.leader.log s'.log
                (held me (led h c d s' cs valid grown)) c.leader.gid (new_entry c.leader.log msg)
                c.leader.me c.leader.peers d.is_me (rw d.same_peers members)
                (ap (λ (l : SmrLog). l.entries) log') (ap (λ (l : SmrLog). l.dummy_entry) log')
                (omega (arith, ap (λ (l : SmrLog). l.commits) log')))),
      )
