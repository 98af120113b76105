-- ===== src/UdpClient/Thread.antt =====
-- `thread_run` of app/client3.cpp up to the end of its first loop. What a call of the event loop does
-- is given, as for app/client2.cpp.
use morphling_c.Base.{
  ℕ, Bool, true, false, List, [], ◌∷◌, Option, set, get_elem?, if◌then◌else◌, Result, ok, aborted,
  out_of_range, or_fault, guard, ◌>>=◌, ◌>>◌,
}
use morphling_c.Message.{Bytes, ReplicaId, ClientReplyMessage}
use morphling_c.Guidance.{Guidance}
use morphling_c.Wire.{MessageType}
use morphling_c.Gauge.{Gauge, set_disable}
use morphling_c.Client.{idle, has_uniform_guidance, update_leading_guidance}
use morphling_c.Client.Sending.{Outgoing}
use morphling_c.UdpClient.{
  UdpClient, new_client, set_channel_info, build_comm, handle_reply, handle_ur_reply,
}

-- A client is made, gets its channels and its gauge, and asks for guidance.
unfoldable pub start : List Bytes → List ℕ → Bytes → Gauge → Result (UdpClient × List Outgoing)
start addrs ports value gauge = do
  u ← set_channel_info addrs ports (new_client value (set_disable true gauge))
  out ← build_comm u
  ok (u, out)

-- One client for each gauge; also what each of them sends.
unfoldable pub start_all :
    List Bytes → List ℕ → Bytes → List Gauge → Result (List UdpClient × List (List Outgoing))
start_all addrs ports value [] = ok ([], [])
start_all addrs ports value (gauge ∷ gauges) = do
  (u, out) ← start addrs ports value gauge
  (us, outs) ← start_all addrs ports value gauges
  ok (u ∷ us, out ∷ outs)

unfoldable pub check_setup : List UdpClient → Result (List UdpClient × Bool)
check_setup [] = ok ([], true)
check_setup (u ∷ us) = do
  uniform ← has_uniform_guidance u.client
  if uniform
      then (do
        (c, updated) ← update_leading_guidance u.client
        guard updated aborted
        (us', all) ← check_setup us
        ok (record u { client = record c { status = idle } } ∷ us', all))
      else ok (u ∷ us, false)

-- A message for the client with an index, from its channel to a replica: its type, and what follows
-- the header. It comes at a time.
pub record Delivery : Type 0 where
  pub now : ℕ
  pub index : ℕ
  pub id : ReplicaId
  pub type : MessageType
  pub msg_buf : Bytes

-- `event_base_loop` with `EVLOOP_ONCE`: it runs callbacks, or it returns -1, or 1.
pub data Loop : Type 0 where
  ran : List Delivery → Loop
  failed no_events : Loop

module _ (cast_guidance : Bytes → Guidance) (unpack_reply : Bytes → Option ClientReplyMessage)
    (unreplicated_read : Bool) where
  -- The callback that `build_event` has chosen.
  unfoldable pub reply_to : Delivery → UdpClient → Result UdpClient
  reply_to d u =
      if unreplicated_read
      then handle_ur_reply cast_guidance unpack_reply u d.id d.type d.msg_buf
      else (do
        (u', reports) ← handle_reply cast_guidance unpack_reply d.now u d.id d.type d.msg_buf
        ok u')

  unfoldable pub deliver : Delivery → List UdpClient → Result (List UdpClient)
  deliver d us = do
    u ← or_fault (get_elem? us d.index) out_of_range
    u' ← reply_to d u
    ok (set us d.index u')

  unfoldable pub deliver_all : List Delivery → List UdpClient → Result (List UdpClient)
  deliver_all [] us = ok us
  deliver_all (d ∷ ds) us = do us' ← deliver d us; deliver_all ds us'

  -- The first loop. Also what is left of the turns, and whether it has ended.
  unfoldable pub setup_loop :
      List UdpClient → List Loop → Result (List UdpClient × List Loop × Bool)
  setup_loop us [] = ok (us, [], false)
  setup_loop us (failed ∷ turns) = ok (us, turns, true)
  setup_loop us (no_events ∷ turns) = do
    (us', setup) ← check_setup us
    elim setup [ true ↦ ok (us', turns, true) | false ↦ setup_loop us' turns ]
  setup_loop us (ran ds ∷ turns) = do
    us' ← deliver_all ds us
    (us'', setup) ← check_setup us'
    elim setup [ true ↦ ok (us'', turns, true) | false ↦ setup_loop us'' turns ]
