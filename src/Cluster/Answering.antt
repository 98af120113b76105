-- ===== src/Cluster/Answering.antt =====
-- A follower of a cluster takes messages (core/smr.cpp).
use morphling_c.Base.{
  ◌≢◌, ◌≤◌, ◌<◌, inl, inr, refl, sym, List, [], ◌∷◌, append-nil, length, ◌==◌, arith, Bool-cases,
}
use morphling_c.Message.{ReplicaId, AppendEntriesMessage}
use morphling_c.Smr.{Smr, reply_to}
use morphling_c.Cluster.{Cluster, post, with_follower}
use morphling_c.Cluster.Carried.{Grown, Carried}
use morphling_c.Cluster.Votes.{Backed-grows}
use morphling_c.Cluster.Following.{follow, Followed}
use morphling_c.Votes.Tally.{History}
use morphling_c.Cluster.Sound.{post-Offered, held, Sound, Fine-grows, post-Fine}

module _ (me : ReplicaId) (peers : List ReplicaId) where
  -- A replica takes a message that was posted to it.
  module _ (h : History) (c : Cluster) (d : Sound me peers h c) (from to : ReplicaId)
      (msg : AppendEntriesMessage) (carried : Carried c.leader.log msg) (other : to ≢ me)
      (lt : to < length peers) where
    pub followed : Followed c.leader.log (c.followers to) msg from
    followed =
        let (rest, pre) = d.prefix to lt in
        follow c.leader.log (c.followers to) msg from rest d.leader_valid.log_valid
          (d.follower_valid to lt) carried pre

    abbrev pub follower : Smr
    follower = record (c.followers to) { log = followed.after }

    abbrev pub answered : Cluster
    answered = record c {
      followers = with_follower to follower c.followers;
      posted =
          post to
            (reply_to (c.followers to) from followed.success (length followed.after.entries) ∷ [])
            c.posted;
    }

    same_leader : Grown c.leader.log c.leader.log
    same_leader = record {
      more = [];
      grown = sym (append-nil c.leader.log.entries);
      same_dummy = refl;
      commits_grow = omega arith;
    }

    held_after : (id : ReplicaId) → held me c id ≤ held me answered id
    held_after id = ground (arith, followed.kept)

    pub answered-Sound : Sound me peers h answered
    answered-Sound = record {
      is_me = d.is_me;
      same_peers = d.same_peers;
      leader_valid = d.leader_valid;
      leader_history = d.leader_history;
      follower_valid = λ id below. elim (Bool-cases (id == to)) [
        | inl at ↦ rw at followed.valid
        | inr apart ↦ rw apart (d.follower_valid id below)
      ];
      prefix = λ id below. elim (Bool-cases (id == to)) [
        | inl at ↦ rw at (followed.rest, followed.prefix)
        | inr apart ↦ rw apart (d.prefix id below)
      ];
      behind = λ id below. elim (Bool-cases (id == to)) [
        | inl at ↦ rw at (omega (arith, followed.behind, d.behind to lt, carried.known))
        | inr apart ↦ rw apart (d.behind id below)
      ];
      backed = Backed-grows (held me c) (held me answered) h held_after d.backed;
      quorum = d.quorum;
      prompt = d.prompt;
      offered = λ id m apart k below.
          post-Offered to id k
            (reply_to (c.followers to) from followed.success (length followed.after.entries) ∷ [])
            c.posted (d.offered id m apart k below);
      fine =
          post-Fine (length peers) me c.leader.log (held me answered) to
            (reply_to (c.followers to) from followed.success (length followed.after.entries) ∷ [])
            c.posted ((lt, λ success. ground arith), tt)
            (λ p m.
              Fine-grows (length peers) me c.leader.log c.leader.log (held me c) (held me answered)
                p same_leader held_after (d.fine p m));
    }
