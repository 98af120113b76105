-- ===== src/Client.antt =====
-- The class `Client` of app/client2.cpp: a client of the benchmark, which keeps the guidance that
-- the replicas send it and has one request out at a time.
pub mod Sending
pub mod Quorum
pub mod Setup
pub mod Requests
pub mod Thread
use morphling_c.Base.{
  ℕ, zero, suc, ◌+◌, ◌/◌, Bool, true, false, not, List, [], ◌∷◌, ◌++◌, Option, none, some, Dict,
  lookup, insert, length, set, replicate, get_elem?, ltb, leb, ◌==◌, if◌then◌else◌, Result, ok,
  fault, aborted, out_of_range, or_fault, guard, ◌>>=◌, ◌>>◌,
}
use morphling_c.Message.{Bytes, ReplicaId, Operation, ClientMessage, ClientReplyMessage}
use morphling_c.Guidance.{Guidance, no_guidance, map_node_id}
use morphling_c.Keys.{calc_key_pos}
use morphling_c.Wire.{pack_get_guidance, pack_operation}

-- `status_t`
pub data Status : Type 0 where
  init reading waiting_guidance writing idle : Status

abbrev pub is_idle : Status → Bool
is_idle idle = true
is_idle _ = false

-- The fields that the requests use; `value` is what `set_data` was given.
pub record Client : Type 0 where
  pub leading_guidance : Guidance
  pub one_turn_collection : List Guidance
  pub value : Bytes
  pub max_replica_id : ℕ
  pub quorum : ℕ
  pub send_msg_nums : ℕ
  pub finish_all_msg : Bool
  pub status : Status

-- The constructor, for so many replicas, and `set_data`.
pub new_client : ℕ → Bytes → Client
new_client replicas value = record {
  leading_guidance = no_guidance;
  one_turn_collection = replicate replicas no_guidance;
  value = value;
  max_replica_id = replicas;
  quorum = replicas / 2 + 1;
  send_msg_nums = 0;
  finish_all_msg = false;
  status = init;
}

-- `g_sent_nums` is shared by all clients: it is passed in and comes out.
unfoldable pub can_send : ℕ → ℕ → Client → Client × ℕ × Bool
can_send cfg_msg_nums sent c =
    if leb (suc sent) cfg_msg_nums
    then (record c { send_msg_nums = suc c.send_msg_nums }, suc sent, true)
    else (record c { finish_all_msg = true }, suc sent, false)

unfoldable pub set_guidance : ReplicaId → Guidance → Client → Result Client
set_guidance id guide c = do
  guard (ltb id (length c.one_turn_collection)) out_of_range
  ok (record c { one_turn_collection = set c.one_turn_collection id guide })

-- The loop over the collection in `check_guidance_quorum`.
pub votes_of : ℕ → Dict ℕ → ℕ
votes_of epoch votes = elim (lookup epoch votes) [ none ↦ 0 | some n ↦ n ]

pub epoch_votes : List Guidance → Dict ℕ → Dict ℕ
epoch_votes [] votes = votes
epoch_votes (g ∷ gs) votes = epoch_votes gs (insert g.epoch (votes_of g.epoch votes + 1) votes)

-- `rbegin` of a `std::map`: the entry of the greatest key.
pub last_vote : Dict ℕ → Option (ℕ × ℕ)
last_vote [] = none
last_vote ((epoch, n) ∷ votes) = elim (last_vote votes) [
  | none ↦ some (epoch, n)
  | some (other, m) ↦ if ltb epoch other then some (other, m) else some (epoch, n)
]

unfoldable pub check_guidance_quorum : Client → Result Bool
check_guidance_quorum c = if c.leading_guidance.epoch == 0 then ok false else (do
  (epoch, n) ← or_fault (last_vote (epoch_votes c.one_turn_collection [])) out_of_range
  if epoch == 0
      then ok false
      else (if ltb c.leading_guidance.epoch epoch
          then ok false
          else (if ltb epoch c.leading_guidance.epoch then ok false else ok (leb c.quorum n))))

unfoldable pub all_epoch : ℕ → List Guidance → Bool
all_epoch fe [] = true
all_epoch fe (g ∷ gs) = if g.epoch == fe then all_epoch fe gs else false

unfoldable pub has_uniform_guidance : Client → Result Bool
has_uniform_guidance c = do
  first ← or_fault (get_elem? c.one_turn_collection 0) out_of_range
  if first.epoch == 0 then ok false else ok (all_epoch first.epoch c.one_turn_collection)

-- The first loop of `update_leading_guidance`, from index `i` on: the greatest epoch, and where it
-- stands first.
unfoldable pub find_max : List Guidance → ℕ → ℕ → ℕ → ℕ × ℕ
find_max [] i max max_idx = (max, max_idx)
find_max (g ∷ gs) i max max_idx =
    if ltb max g.epoch then find_max gs (suc i) g.epoch i else find_max gs (suc i) max max_idx

-- The second loop.
unfoldable pub count_epoch : ℕ → List Guidance → ℕ
count_epoch max [] = 0
count_epoch max (g ∷ gs) = (if g.epoch == max then 1 else 0) + count_epoch max gs

unfoldable pub update_leading_guidance : Client → Result (Client × Bool)
update_leading_guidance c =
    let (max, max_idx) = find_max c.one_turn_collection 0 0 0 in
    if leb c.quorum (count_epoch max c.one_turn_collection)
    then (do
      guide ← or_fault (get_elem? c.one_turn_collection max_idx) out_of_range
      ok (record c { leading_guidance = guide }, true))
    else ok (c, false)

unfoldable pub reset_turn_collection : Client → Client
reset_turn_collection c = record c { one_turn_collection = replicate c.max_replica_id no_guidance }

unfoldable pub check_setup : List Client → Result (List Client × Bool)
check_setup [] = ok ([], true)
check_setup (c ∷ cs) = do
  uniform ← has_uniform_guidance c
  if uniform
      then (do
        (c', updated) ← update_leading_guidance c
        guard updated aborted
        (cs', all) ← check_setup cs
        ok (record c' { status = idle } ∷ cs', all))
      else ok (c ∷ cs, false)

-- The first client that is idle.
pub one_ready_client : List Client → Option Client
one_ready_client [] = none
one_ready_client (c ∷ cs) = if is_idle c.status then some c else one_ready_client cs

-- A message as a connection delivers it, unpacked.
pub data Reply : Type 0 where
  guidance : Guidance → Reply
  client_reply : ClientReplyMessage → Reply
  other : Reply

-- `handle_reply`, on the connection of replica `id`. The measuring is left out.
unfoldable pub handle_reply : Client → ReplicaId → Reply → Result Client
handle_reply c id (guidance guide) = do
  c' ← set_guidance id guide c
  elim c'.status [
    | waiting_guidance ↦ (do
      reached ← check_guidance_quorum c'
      ok (if reached then record (reset_turn_collection c') { status = idle } else c'))
    | _ ↦ ok c'
  ]
handle_reply c id (client_reply msg) = elim c.status [
  | reading ↦ (do
    c' ← set_guidance id msg.guidance c
    reached ← check_guidance_quorum c'
    ok (
        if reached
        then record (reset_turn_collection c') { status = idle }
        else record c' { status = waiting_guidance }))
  | writing ↦ ok (record (reset_turn_collection c) { status = idle })
  | _ ↦ ok c
]
handle_reply c id other = ok c

-- `Client::handle_ur_reply`
unfoldable pub handle_ur_reply : Client → ReplicaId → Reply → Result Client
handle_ur_reply c id (guidance guide) = set_guidance id guide c
handle_ur_reply c id (client_reply msg) = elim c.status [
  | reading ↦ ok (record c { status = idle })
  | _ ↦ ok c
]
handle_ur_reply c id other = ok c
