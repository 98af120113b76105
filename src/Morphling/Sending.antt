-- ===== src/Morphling/Sending.antt =====
-- `Morphling::bcast_msgs` (core/morphling.cpp): what a replica sends to its peers.
use morphling_c.Base.{
  ℕ, ◌≡◌, ◌≢◌, ◌<◌, refl, ap, ◌∙◌, List, [], ◌∷◌, ◌++◌, Bool-cases, inl, inr, Option, some, Dict,
  lookup, length, ◌==◌, if◌then◌else◌, ok, ◌>>=◌, or_fault, get_elem?, arith,
}
use morphling_c.Message.{
  Bytes, ReplicaId, AppendEntriesMessage, ClientMessage, Operation, GenericMessage,
}
use morphling_c.Keys.{calc_key_pos}
use morphling_c.Log.{log_capacity, last_entry}
use morphling_c.Smr.{Smr}
use morphling_c.Smr.Leading.{new_entry, carrying, to_others}
use morphling_c.Morphling.{
  Morphling, Transport, Send, append, stamp, stamp_all, bcast_msg, bcast_all, bcast_msgs,
  handle_operation,
}
use morphling_c.Morphling.Valid.{IsValid, queued}
use morphling_c.Morphling.Writing.{announced, written, handle_operation-written}

-- The message that a group sends for a write, as its replica `me` sends it.
abbrev pub announcement : ReplicaId → ℕ → Smr → ClientMessage → AppendEntriesMessage
announcement me epoch s msg = record {
  from = me;
  epoch = epoch;
  prev_term = (last_entry s.log).epoch;
  prev_index = length s.log.entries;
  commit = s.log.commits;
  group_id = s.gid;
  entries = new_entry s.log msg ∷ [];
}

-- The same packet for every peer but the sender, in the order of the peers.
abbrev pub sent_to_others :
    ReplicaId → (ReplicaId → Transport) → AppendEntriesMessage → List ReplicaId → List Send
sent_to_others me address packet [] = []
sent_to_others me address packet (rid ∷ rids) =
    if rid == me
    then sent_to_others me address packet rids
    else (address rid, append packet) ∷ sent_to_others me address packet rids

-- Every peer but the replica itself is connected.
pub data Connected (me : ReplicaId) (address : ReplicaId → Transport) (trans : Dict Transport)
    : List ReplicaId → Type 0 where
  no_peers : Connected me address trans []
  one_peer :
      {rid : ReplicaId} {rids : List ReplicaId}
      → (rid ≢ me → lookup rid trans ≡ some (address rid))
      → Connected me address trans rids
      → Connected me address trans (rid ∷ rids)

bcast_all_lem :
    (me : ReplicaId) (epoch : ℕ) (s : Smr) (msg : ClientMessage) (address : ReplicaId → Transport)
    (trans : Dict Transport) {rids : List ReplicaId}
    → Connected me address trans rids
    → bcast_all trans (
        stamp_all me epoch
          (queued (to_others me (carrying s.log s.gid (new_entry s.log msg)) rids)))
      ≡ ok (sent_to_others me address (announcement me epoch s msg) rids)
unfolding bcast_all bcast_msg stamp_all stamp
bcast_all_lem me epoch s msg address trans no_peers = refl
bcast_all_lem me epoch s msg address trans (one_peer {rid} {rids} reach more) =
    elim (Bool-cases (rid == me)) [
      | inl own ↦ rw own (bcast_all_lem me epoch s msg address trans more)
      | inr other ↦ rw (
        other,
        reach (ground (arith, other)),
        or_fault,
        ◌>>=◌,
        bcast_all_lem me epoch s msg address trans more,
      )
    ]

module _ (unpack : Bytes → Option Operation) where
  -- Let a client of the replica's epoch write at a replica that has no message waiting, in a group
  -- with room, and let every other peer be connected. Then the next `bcast_msgs` sends, to each
  -- peer other than the replica and in the order of the peers, one message with the replica's
  -- number and epoch that carries just the new entry, behind the entry that was the group's last;
  -- and no message is left waiting.
  pub handle_operation-bcast_msgs :
      (m : Morphling) (msg : ClientMessage) (client : Transport) (op : Operation) (s : Smr)
      (address : ReplicaId → Transport) (trans : Dict Transport)
      → IsValid m
      → m.next_msgs ≡ []
      → m.guide.epoch ≡ msg.epoch
      → unpack msg.op ≡ some op
      → op.op_type ≢ 0
      → get_elem? m.smrs (calc_key_pos msg.key_hash) ≡ some s
      → length s.log.entries < log_capacity
      → Connected m.me address trans m.peers
      → (m' : Morphling) × (handle_operation unpack m msg client ≡ ok (m', []))
        × (bcast_msgs m' trans
            ≡ ok (
              record m' { next_msgs = [] },
              sent_to_others m.me address (announcement m.me m.guide.epoch s msg) m.peers,
            ))
  unfolding bcast_msgs
  handle_operation-bcast_msgs m msg client op s address trans v empty epoch u write at room
        connected =
      let w = handle_operation-written unpack m msg client op s v epoch u write at room in
      let g = v.each (calc_key_pos msg.key_hash) s at in
      let sent : bcast_all trans (stamp_all m.me m.guide.epoch (queued (announced s msg)))
          ≡ ok (sent_to_others m.me address (announcement m.me m.guide.epoch s msg) m.peers) =
        rw (g.owner, g.fellows) (bcast_all_lem m.me m.guide.epoch s msg address trans connected) in
      let all_sent =
        ap
          (λ (waiting : List GenericMessage).
            bcast_all trans (stamp_all m.me m.guide.epoch (waiting ++ queued (announced s msg))))
          empty
        ∙ sent in
      (written m msg client s w.0, w.1, rw (all_sent, ◌>>=◌))
