-- ===== src/Morphling/Writing.antt =====
-- `Morphling::handle_operation` (core/morphling.cpp) on a write: what the replica queues, and who
-- waits for the reply.
use morphling_c.Base.{
  suc, true, false, ◌≡◌, ◌≢◌, ◌<◌, refl, ◌∙◌, List, [], ◌∷◌, ◌++◌, append-nil, Option, some, length,
  get_elem?, set, insert, lookup, lookup-insert_self, ◌==◌, get_elem?-set_ne, ok, ◌>>=◌, or_fault,
  arith,
}
use morphling_c.Message.{Bytes, ReplicaId, ClientMessage, Operation}
use morphling_c.Keys.{calc_key_pos}
use morphling_c.Log.{log_capacity}
use morphling_c.Smr.{Smr, Callback}
use morphling_c.Smr.Leading.{new_entry, carrying, to_others, handle_operation-carrying}
use morphling_c.Smr.Committing.{applied}
use morphling_c.Morphling.{
  Morphling, Transport, client_reply, client_reply_of, is_valid_guidance, stamp_all, prepare_msgs,
  handle_write, handle_operation, parse_operation, apply_operation, apply_entry,
}
use morphling_c.Morphling.Stamping.{AllMarked, stamp_all-AllMarked}
use morphling_c.Morphling.Valid.{IsGroup, IsValid, queued, put_group_lem, set-IsValid}

-- The messages that the group of a write sends, as the replica queues them.
abbrev pub announced : Smr → ClientMessage → List Callback
announced s msg = to_others s.me (carrying s.log s.gid (new_entry s.log msg)) s.peers

-- A message to a peer is not applied.
applied-announced :
    (s : Smr) (msg : ClientMessage) (rids : List ReplicaId)
    → applied (to_others s.me (carrying s.log s.gid (new_entry s.log msg)) rids) ≡ []
applied-announced s msg [] = refl
applied-announced s msg (rid ∷ rids) = ground (arith, applied-announced s msg rids)

-- The replica after a write: the group of the key is now `s'`.
abbrev pub written : Morphling → ClientMessage → Transport → Smr → Smr → Morphling
written m msg trans s s' = record m {
  smrs = set m.smrs (calc_key_pos msg.key_hash) s';
  next_msgs = stamp_all m.me m.guide.epoch (m.next_msgs ++ queued (announced s msg));
  client_pendings = insert (suc (length s.log.entries)) trans m.client_pendings;
}

-- `handle_write` is the write of `handle_operation`, at a replica whose group of the key has room.
pub handle_write_lem :
    (m : Morphling) (msg : ClientMessage) (trans : Transport) (s : Smr)
    → IsValid m
    → get_elem? m.smrs (calc_key_pos msg.key_hash) ≡ some s
    → length s.log.entries < log_capacity
    → (s' : Smr) × (handle_write m msg trans ≡ ok (written m msg trans s s', []))
      × (s'.log ≡ record s.log { entries = s.log.entries ++ new_entry s.log msg ∷ [] })
      × IsValid (written m msg trans s s')
unfolding handle_write prepare_msgs
handle_write_lem m msg trans s v at room =
    let gid = calc_key_pos msg.key_hash in
    let g : IsGroup m gid s = v.each gid s at in
    let taken = handle_operation-carrying s msg g.valid room in
    let s' = taken.0 in
    (
      s',
      rw (
        at,
        or_fault,
        ◌>>=◌,
        taken.1,
        put_group_lem m gid s' (announced s msg),
        applied-announced s msg s.peers,
        append-nil m.apply_entries,
      ),
      taken.2,
      set-IsValid m (written m msg trans s s') gid s' v refl refl refl (record {
        valid = taken.3;
        number = taken.6 ∙ g.number;
        owner = taken.4 ∙ g.owner;
        fellows = taken.5 ∙ g.fellows;
      }),
    )

module _ (unpack : Bytes → Option Operation) where
  -- Let a client of the replica's epoch send an operation of a type other than 0, whose key's group
  -- `s` has room in its log. `handle_operation` returns and sends nothing at once; it replaces just
  -- the group of the key, whose log has grown by the operation; it queues the group's messages
  -- behind those that wait, and all of the log's are marked with the replica and its epoch, and
  -- unchanged otherwise, as are all other messages; the client waits under the index of the new
  -- entry; and the replica stays valid.
  pub handle_operation-written :
      (m : Morphling) (msg : ClientMessage) (trans : Transport) (op : Operation) (s : Smr)
      → IsValid m
      → m.guide.epoch ≡ msg.epoch
      → unpack msg.op ≡ some op
      → op.op_type ≢ 0
      → get_elem? m.smrs (calc_key_pos msg.key_hash) ≡ some s
      → length s.log.entries < log_capacity
      → (s' : Smr) × (handle_operation unpack m msg trans ≡ ok (written m msg trans s s', []))
        × (s'.log ≡ record s.log { entries = s.log.entries ++ new_entry s.log msg ∷ [] })
        × AllMarked m.me m.guide.epoch
            (m.next_msgs ++ queued (announced s msg))
            (written m msg trans s s').next_msgs
        × IsValid (written m msg trans s s')
  unfolding handle_operation parse_operation is_valid_guidance
  handle_operation-written m msg trans op s v epoch unpacked write at room =
      let w = handle_write_lem m msg trans s v at room in
      (
        w.0,
        rw (current, unpacked, or_fault, ◌>>=◌, not_read) w.1,
        w.2,
        stamp_all-AllMarked m.me m.guide.epoch (m.next_msgs ++ queued (announced s msg)),
        w.3,
      )
    where
      current : (m.guide.epoch == msg.epoch) ≡ true
      current = ground (arith, epoch)

      not_read : (op.op_type == 0) ≡ false
      not_read = ground (arith, write)

  -- Two clients write keys of different groups whose logs are equally long. Then the second client
  -- has taken the place of the first among those that wait: when the first client's operation is
  -- applied, its reply goes to the second client's connection.
  pub handle_operation-misdirected :
      (m : Morphling) (msg₁ msg₂ : ClientMessage) (trans₁ trans₂ : Transport) (op₁ op₂ : Operation)
      (s₁ s₂ : Smr)
      → IsValid m
      → m.guide.epoch ≡ msg₁.epoch
      → m.guide.epoch ≡ msg₂.epoch
      → unpack msg₁.op ≡ some op₁
      → unpack msg₂.op ≡ some op₂
      → op₁.op_type ≢ 0
      → op₂.op_type ≢ 0
      → get_elem? m.smrs (calc_key_pos msg₁.key_hash) ≡ some s₁
      → get_elem? m.smrs (calc_key_pos msg₂.key_hash) ≡ some s₂
      → calc_key_pos msg₁.key_hash ≢ calc_key_pos msg₂.key_hash
      → length s₁.log.entries ≡ length s₂.log.entries
      → length s₁.log.entries < log_capacity
      → (m₁ : Morphling) × (m₂ : Morphling) × (handle_operation unpack m msg₁ trans₁ ≡ ok (m₁, []))
        × (handle_operation unpack m₁ msg₂ trans₂ ≡ ok (m₂, []))
        × ((m₃ : Morphling) × (bytes : Bytes) × (apply_entry unpack m₂ (new_entry s₁.log msg₁)
              ≡ ok (m₃, (trans₂, client_reply (client_reply_of m₂ op₁.key_hash bytes)) ∷ [])))
  unfolding apply_entry parse_operation
  handle_operation-misdirected m msg₁ msg₂ trans₁ trans₂ op₁ op₂ s₁ s₂ v e₁ e₂ u₁ u₂ w₁ w₂ at₁ at₂
        apart same room =
      let first = handle_operation-written m msg₁ trans₁ op₁ s₁ v e₁ u₁ w₁ at₁ room in
      let m₁ = written m msg₁ trans₁ s₁ first.0 in
      let second =
        handle_operation-written m₁ msg₂ trans₂ op₂ s₂ first.4 e₂ u₂ w₂
          (get_elem?-set_ne m.smrs first.0 apart ∙ at₂) (omega (arith, same, room)) in
      let m₂ = written m₁ msg₂ trans₂ s₂ second.0 in
      let effect = apply_operation op₁ m₂.storage in
      (
        m₁,
        m₂,
        first.1,
        second.1,
        (record m₂ { storage = effect.0 }, effect.1, rw (u₁, or_fault, ◌>>=◌, waiting m₁)),
      )
    where
      waiting :
          (r : Morphling)
          → lookup
              (suc (length s₁.log.entries))
              (insert (suc (length s₂.log.entries)) trans₂ r.client_pendings)
            ≡ some trans₂
      waiting r =
          rw same (lookup-insert_self (suc (length s₂.log.entries)) trans₂ r.client_pendings)
