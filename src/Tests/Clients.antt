-- ===== src/Tests/Clients.antt =====
-- Runs of `Client` (app/client2.cpp).
use morphling_c.Base.{
  ℕ, ◌+◌, ◌≡◌, ◌≢◌, ◌≤◌, ◌↔◌, inl, inr, refl, Bool, true, false, List, [], ◌∷◌, ok, ok-fault_ne,
  ◌-◌, arith,
}
use morphling_c.Message.{Bytes, Operation, ClientMessage, ClientReplyMessage}
use morphling_c.Guidance.{
  no_guidance, map_node_id, find_node, pos_is_in, alive, get_start_pos, get_end_pos,
}
use morphling_c.Keys.{calc_key_pos}
use morphling_c.Wire.{pack_operation, pack_get_guidance, type_byte}
use morphling_c.Keys.Owner.{first_guidance}
use morphling_c.Client.{
  Client, init, idle, can_send, has_uniform_guidance, all_epoch, update_leading_guidance, find_max,
  reading, check_guidance_quorum, count_epoch, check_setup, client_reply, handle_reply,
  reset_turn_collection,
}
use morphling_c.Client.Sending.{
  Options, Outgoing, one_send, send_operation, after_send, request_others,
}
use morphling_c.Client.Quorum.{Below, check_guidance_quorum_lem}
use morphling_c.Client.Thread.{Loop, ran, no_events, Ending, all_done, all_idle, request_loop}
use morphling_c.Client.Thread.Turns.{Ready, AllReady, operations}
use morphling_c.Client.Thread.Done.{taken_by_others, request_loop-done}
use morphling_c.Client.Requests.{Unsendable, handle_reply-unasked}

-- A client of three replicas that has been set up.
abbrev ready : Client
ready = record {
  leading_guidance = first_guidance;
  one_turn_collection = first_guidance ∷ first_guidance ∷ first_guidance ∷ [];
  value = 7 ∷ [];
  max_replica_id = 3;
  quorum = 2;
  send_msg_nums = 0;
  finish_all_msg = false;
  status = idle;
}

abbrev read_reply : ClientReplyMessage
read_reply = record {
  from = 0;
  success = true;
  guidance = first_guidance;
  key_hash = 0x5499;
  reply_data = [];
}

abbrev options : Options
options = record { is_read = true; unreplicated_read = false; msg_nums = 5 }

abbrev pack_op : Operation → Bytes
pack_op op = op.op_type ∷ op.key_hash ∷ op.payload

abbrev pack_msg : ClientMessage → Bytes
pack_msg msg = msg.epoch ∷ msg.key_hash ∷ msg.op

check_guidance_quorum_lem_example :
    (b : Bool) × (check_guidance_quorum ready ≡ ok b)
    × ((b ≡ true) ↔ (
        (ready.leading_guidance.epoch ≢ 0)
        × Below ready.leading_guidance.epoch ready.one_turn_collection
        × (ready.quorum ≤ count_epoch ready.leading_guidance.epoch ready.one_turn_collection)))
check_guidance_quorum_lem_example = check_guidance_quorum_lem ready (omega arith) (omega arith)

-- A client that has heard of all three replicas, and is not set up yet.
abbrev heard : Client
heard = record ready { leading_guidance = no_guidance; status = init }

heard_setup : check_setup (heard ∷ []) ≡ ok (ready ∷ [], true)
unfolding check_setup has_uniform_guidance all_epoch update_leading_guidance find_max count_epoch
heard_setup = refl

abbrev asking : Client
asking = record ready { send_msg_nums = 1; status = reading }

-- The read goes to replica 0, and the others are asked for guidance.
abbrev outgoing : List Outgoing
outgoing =
    (0, 4 ∷ 0 ∷ 0 ∷ 2 ∷ 1 ∷ 0x5499 ∷ 0 ∷ 0x5499 ∷ [])
    ∷ (1, 0 ∷ 0 ∷ 0 ∷ 5 ∷ [])
    ∷ (2, 0 ∷ 0 ∷ 0 ∷ 5 ∷ [])
    ∷ []

ready_sends : one_send pack_op pack_msg options 3 ready ≡ ok (asking, 4, outgoing)
unfolding one_send can_send send_operation after_send request_others pack_operation
    pack_get_guidance type_byte map_node_id find_node pos_is_in alive get_start_pos get_end_pos
    calc_key_pos
ready_sends = refl

handle_reply-unasked_example :
    handle_reply asking 1 (client_reply read_reply)
    ≡ ok (record (reset_turn_collection asking) { status = idle })
handle_reply-unasked_example =
    handle_reply-unasked pack_op pack_msg (heard ∷ []) (ready ∷ []) 0 ready asking options 3 4
      outgoing 1 read_reply ((omega arith, omega arith), tt) heard_setup refl (omega arith) refl
      refl (omega arith) ready_sends (omega arith) refl

-- The client can send its operation to replica 0.
ready_sendable : ¬ Unsendable pack_op pack_msg options ready
unfolding map_node_id find_node pos_is_in alive get_start_pos get_end_pos calc_key_pos
    pack_operation
ready_sendable (inl p) = ok-fault_ne p
ready_sendable (inr (inl o)) = absurd (ground (arith, o))
ready_sendable (inr (inr (rid, o, le))) = absurd (ground (arith, o, le))

all_ready : AllReady pack_op pack_msg options 3 0 (ready ∷ ready ∷ [])
all_ready = (client_ready, (client_ready, tt))
  where
    client_ready : Ready pack_op pack_msg options 3 0 ready
    client_ready = record {
      fit = record { replicas = refl; collected = refl; some_quorum = omega arith };
      sendable = ready_sendable;
      flagged = λ f. absurd (ground (arith, f));
    }

-- The first client sends, its read is answered by replica 0, and another thread sends as well.
abbrev turns : List Loop
turns = ran 1 ((0, 0, client_reply read_reply) ∷ []) ∷ no_events ∷ []

request_loop-done_example :
    (last : List Client) × (count : ℕ) × (out : List Outgoing) × (ending : Ending) × (request_loop
        pack_op pack_msg options 0
        (ready ∷ ready ∷ [])
        turns
      ≡ ok (last, count, out, ending))
    × (operations out ≤ options.msg_nums - 0)
    × (ending ≡ all_done
        → (all_idle last ≡ true) × (options.msg_nums - 0 ≤ operations out + taken_by_others turns))
request_loop-done_example =
    request_loop-done pack_op pack_msg options 3 turns 0 (ready ∷ ready ∷ []) all_ready
      ((omega arith, omega arith, tt), tt)
