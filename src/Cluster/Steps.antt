-- ===== src/Cluster/Steps.antt =====
-- Every step of a cluster (core/smr.cpp) keeps its invariant, and none of them faults.
use morphling_c.Base.{
  suc, [], ◌∷◌, ℕ, ◌≡◌, ◌<◌, inl, inr, sym, ◌∙◌, subst, List, length, ltb, ltb→lt, Result, ok,
  ok-injective, ok-fault_ne, arith, Bool-cases,
}
use mathlib.Core.List.{Memᴰ}
use morphling_c.Message.{ReplicaId}
use morphling_c.Log.{log_capacity}
use morphling_c.Smr.{Smr, Callback}
use morphling_c.Smr.Leading.{handle_operation_full}
use morphling_c.Votes.Tally.{History}
use morphling_c.Cluster.{Cluster, post, with_follower, entries_to, start}
use morphling_c.Cluster.Sound.{Sound}
use morphling_c.Cluster.{Step, propose, deliver, acknowledge, Reach, here, next}
use morphling_c.Cluster.Leading.{start-Sound, propose-Sound}
use morphling_c.Cluster.Acknowledging.{acknowledge-Sound}
use morphling_c.Cluster.Answering.{followed, answered-Sound}

module _ (me : ReplicaId) (peers : List ReplicaId)
    (members : (id : ReplicaId) → Memᴰ id peers → id < length peers)
    (me_in : me < length peers) where
  -- A step and what its handler returns are one.
  returned :
      (h : History) (c : Cluster) {out : Result (Smr × List Callback)} (s s' : Smr)
      (cs cs' : List Callback)
      → out ≡ ok (s, cs)
      → out ≡ ok (s', cs')
      → Sound me peers h (record c { leader = s; posted = post c.leader.me cs c.posted })
      → Sound me peers h (record c { leader = s'; posted = post c.leader.me cs' c.posted })
  returned h c s s' cs cs' e e' d =
      subst
        (λ (p : Smr × List Callback).
          Sound me peers h (record c { leader = p.0; posted = post c.leader.me p.1 c.posted }))
        (ok-injective (sym e ∙ e')) d

  Step-Sound :
      (h : History) (c c' : Cluster)
      → Step c c'
      → Sound me peers h c
      → (h' : History) × Sound me peers h' c'
  Step-Sound h c c' (propose msg s' cs i e eq) d =
      elim (Bool-cases (ltb (length c.leader.log.entries) log_capacity)) [
        | inl room ↦
            let (s1, cs1, i1, e1, d1) =
              propose-Sound me peers members me_in h c msg d (ltb→lt _ _ room) in
            (
              (c.leader.me, suc (length c.leader.log.entries)) ∷ h,
              rw eq (
                  subst
                    (λ (p : Smr × List Callback × ℕ).
                      Sound me peers ((c.leader.me, suc (length c.leader.log.entries)) ∷ h)
                        (record c { leader = p.0; posted = post c.leader.me p.1 c.posted }))
                    (ok-injective (sym e1 ∙ e)) d1),
            )
        | inr full ↦ absurd (
            ok-fault_ne (
              sym e
              ∙ handle_operation_full c.leader msg (ground (arith, d.leader_valid.log_valid.room))))
      ]
  Step-Sound h c c' (deliver from to msg f' cs m e eq) d =
      let (carried, other, lt, _) = d.fine (from, entries_to to msg) m in
      let out = followed me peers h c d from to msg carried other lt in
      (
        h,
        rw eq (
            subst
              (λ (p : Smr × List Callback). Sound me peers h (record c {
                followers = with_follower to p.0 c.followers;
                posted = post to p.1 c.posted;
              }))
              (ok-injective (sym out.returns ∙ e))
              (answered-Sound me peers h c d from to msg carried other lt)),
      )
  Step-Sound h c c' (acknowledge from msg s' cs m e eq) d =
      let (s1, cs1, e1, _, h', _, d1) =
        acknowledge-Sound me peers members me_in h c from c.leader.me msg d m in
      (h', rw eq (returned h' c s1 s' cs1 cs e1 e d1))

  pub Reach-Sound :
      (gid : ℕ) (c : Cluster) → Reach (start me peers gid) c → (h : History) × Sound me peers h c
  Reach-Sound gid c here = ([], start-Sound me peers members me_in gid)
  Reach-Sound gid c (next {d = b} r st) = let (h, d) = Reach-Sound gid b r in Step-Sound h b c st d
