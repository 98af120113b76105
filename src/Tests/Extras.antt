-- ===== src/Tests/Extras.antt =====
-- Runs of `Gauge` (app/utils.h), of `Arena` (extra/arena.cpp) and of the client of app/client3.cpp.
use morphling_c.Base.{
  ℕ, ◌+◌, ◌*◌, ◌%◌, ◌^◌, ◌≡◌, ◌≤◌, inr, refl, true, false, List, [], ◌∷◌, ◌++◌, Option, none, some,
  ok, ◌>>=◌, length, replicate, arith,
}
use morphling_c.Message.{Bytes, ReplicaId, Operation, ClientMessage, ClientReplyMessage}
use morphling_c.Guidance.{Guidance}
use morphling_c.Keys.Owner.{first_guidance}
use morphling_c.Wire
use morphling_c.Wire.{MessageType, client_reply}
use morphling_c.Gauge.{Gauge, Report, new_gauge, average_time_us}
use morphling_c.Gauge.Averages
use morphling_c.Gauge.Averages.{
  Event, begins, ends, averages, tasks, begun_at, ended_at, averaged, averages_once,
}
use morphling_c.Arena.{Region, Arena, empty}
use morphling_c.Arena.Regions.{ApartFrom, AllApart, AllHeld, Allocator}
use morphling_c.Arena.Apart
use morphling_c.Arena.Apart.{Request, plain, aligned, usage_of, run-apart}
use morphling_c.Client
use morphling_c.Client.{Client, idle, writing, has_uniform_guidance}
use morphling_c.Client.Sending.{Options}
use morphling_c.UdpClient.{Channel, UdpClient, handle_reply}
use morphling_c.UdpClient.Same.{client_of, unpacked, handle_reply-same}
use morphling_c.UdpClient.Setup.{requests_from}
use morphling_c.UdpClient.Thread.{Delivery, Loop, ran, no_events, failed, start_all, setup_loop}
use morphling_c.UdpClient.Stuck.{setup_loop-stuck}

abbrev events : List Event
events = begins 10 ∷ ends 15 ∷ averages ∷ begins 20 ∷ averages ∷ ends 28 ∷ []

-- The address after the end of every block.
abbrev top_of : List Region → ℕ
top_of [] = 1
top_of (b ∷ blocks) = (b.0 + b.1) + top_of blocks

abbrev place_after : List Region → ℕ → ℕ
place_after blocks n = 8 * top_of blocks

ApartFrom-top : (blocks : List Region) (t n : ℕ) → top_of blocks ≤ t → ApartFrom (8 * t, n) blocks
ApartFrom-top [] t n h = tt
ApartFrom-top (b ∷ blocks) t n h = (inr (omega arith), ApartFrom-top blocks t n (omega arith))

place_after-Allocator : Allocator place_after
place_after-Allocator = record {
  aligned = λ blocks n. (top_of blocks, refl);
  fresh = λ blocks n. ApartFrom-top blocks (top_of blocks) n (omega arith);
}

abbrev requests : List Request
requests = plain 100 ∷ aligned 24 ∷ plain 2000 ∷ aligned 8 ∷ []

abbrev client : Client
client = record {
  leading_guidance = first_guidance;
  one_turn_collection = first_guidance ∷ first_guidance ∷ first_guidance ∷ [];
  value = 7 ∷ [];
  max_replica_id = 3;
  quorum = 2;
  send_msg_nums = 0;
  finish_all_msg = false;
  status = idle;
}

abbrev channel : ReplicaId → Channel
channel id = record { replica_id = id; replica_ip = 1 ∷ []; udp_dest = (1 ∷ [], 9990 + id) }

abbrev gauge : Gauge
gauge = record { measure_probe1 = []; measure_probe2 = []; disable = false; last_calculate_idx = 0 }

abbrev idle_client : UdpClient
idle_client = record {
  client = client;
  channels = channel 0 ∷ channel 1 ∷ channel 2 ∷ [];
  gauge = gauge;
}

abbrev writing_client : UdpClient
writing_client = record idle_client { client = record client { status = writing } }

abbrev options : Options
options = record { is_read = true; unreplicated_read = false; msg_nums = 5 }

abbrev pack_op : Operation → Bytes
pack_op op = op.op_type ∷ op.key_hash ∷ op.payload

abbrev pack_msg : ClientMessage → Bytes
pack_msg msg = msg.epoch ∷ msg.key_hash ∷ msg.op

abbrev cast_guidance : Bytes → Guidance
cast_guidance bytes = first_guidance

abbrev unpack_reply : Bytes → Option ClientReplyMessage
unpack_reply [] = none
unpack_reply (b ∷ bytes) = some (record {
  from = b;
  success = true;
  guidance = first_guidance;
  key_hash = 0x5499;
  reply_data = bytes;
})

abbrev two_addresses : List Bytes
two_addresses = (1 ∷ []) ∷ (2 ∷ []) ∷ []

abbrev three_ports : List ℕ
three_ports = 9990 ∷ 9991 ∷ 9992 ∷ []

abbrev two_gauges : List Gauge
two_gauges = gauge ∷ gauge ∷ []

-- Each client hears guidance from both of its channels.
abbrev heard : ℕ → ReplicaId → Delivery
heard index id = record {
  now = 100;
  index = index;
  id = id;
  type = Wire.guidance;
  msg_buf = 1 ∷ 2 ∷ [];
}

abbrev setup_turns : List Loop
setup_turns = ran (heard 0 0 ∷ heard 1 1 ∷ []) ∷ no_events ∷ ran (heard 1 0 ∷ heard 0 1 ∷ []) ∷ []

averages_once_example :
    (g g' : Gauge) × (rs qs : List Report) × (Averages.run new_gauge events ≡ ok (g, rs))
    × (average_time_us g ≡ ok (g', qs))
    × (averaged rs ++ averaged qs ≡ tasks (begun_at events) (ended_at events))
averages_once_example = averages_once events (omega arith, (omega arith, tt))

run-apart_example :
    (given : List Region) × (a : Arena) × (heap : List Region) × (Apart.run place_after requests
        empty [] []
      ≡ ok (given, a, heap))
    × AllApart given
    × AllHeld heap given
    × (a.memory_usage ≡ usage_of heap % 2 ^ 64)
run-apart_example = run-apart place_after place_after-Allocator requests (
  omega arith,
  omega arith,
  (omega arith, omega arith, (omega arith, omega arith, (omega arith, omega arith, tt))),
)

handle_reply-same_example :
    client_of
      (handle_reply cast_guidance unpack_reply 100 writing_client 1 client_reply (1 ∷ 2 ∷ []))
    ≡ (unpacked cast_guidance unpack_reply client_reply (1 ∷ 2 ∷ [])
        >>= Client.handle_reply writing_client.client 1)
handle_reply-same_example =
    handle_reply-same cast_guidance unpack_reply 100 writing_client 1 client_reply (1 ∷ 2 ∷ [])

setup_loop-stuck_example :
    (us us' : List UdpClient) × (start_all two_addresses three_ports (7 ∷ []) two_gauges
      ≡ ok (us, replicate (length two_gauges) (requests_from 0 (length two_addresses))))
    × (setup_loop cast_guidance unpack_reply false us (setup_turns ++ []) ≡ ok (us', [], false))
    × (setup_loop cast_guidance unpack_reply false us (setup_turns ++ failed ∷ [])
        ≡ ok (us', [], true))
setup_loop-stuck_example =
    setup_loop-stuck cast_guidance unpack_reply false two_addresses three_ports (7 ∷ []) two_gauges
      setup_turns [] (omega arith) (omega arith)
      (
        (
          record { to_client = omega arith; of_channel = omega arith; unpacks = λ e. cc },
          (record { to_client = omega arith; of_channel = omega arith; unpacks = λ e. cc }, tt),
        ),
        (
          (
            record { to_client = omega arith; of_channel = omega arith; unpacks = λ e. cc },
            (record { to_client = omega arith; of_channel = omega arith; unpacks = λ e. cc }, tt),
          ),
          tt,
        ),
      )
