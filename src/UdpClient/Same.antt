-- ===== src/UdpClient/Same.antt =====
-- The client of app/client3.cpp against that of app/client2.cpp: the same requests go out, and the
-- same becomes of the replies.
use morphling_c.Base.{
  ℕ, zero, suc, ◌+◌, ◌-◌, ◌≡◌, ◌≤◌, ◌<◌, ◌&&◌, inl, inr, refl, List, [], ◌∷◌, ◌++◌, Option, length,
  length-append, get_elem?_total, leb, ◌==◌, if◌then◌else◌, Result, ok, unpack_error, or_fault,
  ◌>>=◌, Bool-cases, Option-cases, Result-cases, arith,
}
use morphling_c.Message.{Bytes, ReplicaId, Operation, ClientMessage, ClientReplyMessage}
use morphling_c.Guidance.{Guidance, map_node_id}
use morphling_c.Keys.{calc_key_pos}
use morphling_c.Wire.{
  MessageType, unknown, append, append_reply, client, client_reply, guidance, get_guidance,
  pack_operation,
}
use morphling_c.Gauge.{
  Gauge, Report, loop_time, unequal, set_probe1, set_probe2, points_at, instant_time_us,
}
use morphling_c.Gauge.Averages.{set_probe2_lem}
use morphling_c.Client
use morphling_c.Client.{
  Client, Reply, Status, init, reading, waiting_guidance, writing, idle, is_idle, can_send,
  set_guidance, check_guidance_quorum,
}
use morphling_c.Client.Sending
use morphling_c.Client.Sending.{
  Outgoing, Options, sent_key, sent_operation, sent_message, after_send,
}
use morphling_c.UdpClient.{
  UdpClient, send, request_guidance, request_others, send_operation, one_send, end_turn,
  handle_guidance, handle_client_reply, handle_reply,
}

request_others_lem :
    (u : UdpClient) (rid id : ReplicaId) (n : ℕ)
    → id + n ≤ length u.channels
    → request_others u rid id n ≡ ok (Sending.request_others rid id n)
unfolding request_others request_guidance send Sending.request_others
request_others_lem u rid id zero h = refl
request_others_lem u rid id (suc n) h = ground (arith, request_others_lem u rid (suc id) n)

-- With the client replaced by another.
abbrev with_client : UdpClient → Client × List Outgoing → Result (UdpClient × List Outgoing)
with_client u (c, out) = ok (record u { client = c }, out)

module _ (pack_op : Operation → Bytes) (pack_msg : ClientMessage → Bytes) where
  send_operation_lem :
      (cfg : Options) (u : UdpClient)
      → length u.channels ≡ u.client.max_replica_id
      → send_operation pack_op pack_msg cfg u
        ≡ (Sending.send_operation pack_op pack_msg cfg u.client >>= with_client u)
  unfolding send_operation Sending.send_operation send after_send
  send_operation_lem cfg u same =
      elim (Result-cases
        (pack_operation pack_op pack_msg (sent_operation cfg u.client.value) sent_message)) [
          | inr (f, e) ↦ rw (e, ◌>>=◌)
          | inl (bytes, e) ↦
              elim (Option-cases (map_node_id u.client.leading_guidance (calc_key_pos sent_key))) [
                | inl o ↦ rw (e, o, or_fault, ◌>>=◌)
                | inr (rid, o) ↦
                    rw (e, o, or_fault, ◌>>=◌)
                      (ground (
                        arith,
                        same,
                        request_others_lem u rid 0 u.client.max_replica_id (omega (arith, same)),
                      ))
              ]
        ]

  -- The gauge takes the time when an operation goes out.
  abbrev pub measured : Options → ℕ → ℕ → UdpClient → Gauge
  measured cfg now sent u =
      if is_idle u.client.status && leb (suc sent) cfg.msg_nums
      then (set_probe1 now u.gauge).0
      else u.gauge

  -- With the client and the gauge replaced by others.
  abbrev pub with_parts :
      UdpClient → Gauge → Client × ℕ × List Outgoing → Result (UdpClient × ℕ × List Outgoing)
  with_parts u gauge (c, sent, out) = ok (record u { client = c; gauge = gauge }, sent, out)

  -- A client of datagrams with a channel for every replica does with a request what the client of
  -- connections does, in every case, faults included: the same bytes go to the same replicas in the
  -- same order, the shared count and the client's own state end up the same, and its channels stay.
  -- Its gauge takes the time exactly if the client is idle and one more operation is allowed.
  pub one_send-same :
      (cfg : Options) (now sent : ℕ) (u : UdpClient)
      → length u.channels ≡ u.client.max_replica_id
      → one_send pack_op pack_msg cfg now sent u ≡ (
          Sending.one_send pack_op pack_msg cfg sent u.client
          >>= with_parts u (measured cfg now sent u))
  unfolding one_send Sending.one_send can_send
  one_send-same cfg now sent u same = elim (Bool-cases (is_idle u.client.status)) [
    | inr busy ↦ rw busy
    | inl free ↦ elim (Bool-cases (leb (suc sent) cfg.msg_nums)) [
      | inr over ↦ rw (free, over)
      | inl under ↦
          let u1 : UdpClient = record u {
            client = record u.client { send_msg_nums = suc u.client.send_msg_nums };
            gauge = (set_probe1 now u.gauge).0;
          } in
          elim (Result-cases (Sending.send_operation pack_op pack_msg cfg u1.client)) [
            | inl ((c, out), e) ↦ rw (free, under, send_operation_lem cfg u1 same, e, ◌>>=◌)
            | inr (f, e) ↦ rw (free, under, send_operation_lem cfg u1 same, e, ◌>>=◌)
          ]
    ]
  ]

points_at_total :
    (g : Gauge) (i : ℕ)
    → i < length g.measure_probe1
    → i < length g.measure_probe2
    → (p : ℕ × ℕ) × (points_at g i ≡ ok p)
unfolding points_at
points_at_total g i lt1 lt2 =
    let (start, at1) = get_elem?_total g.measure_probe1 i lt1 in
    let (end, at2) = get_elem?_total g.measure_probe2 i lt2 in
    ((start, end), rw (at2, at1, or_fault, ◌>>=◌))

instant_time_us_total :
    (g : Gauge)
    → (length g.measure_probe1 ≡ length g.measure_probe2 → 0 < length g.measure_probe1)
    → (reports : List Report) × (instant_time_us g ≡ ok reports)
unfolding instant_time_us
instant_time_us_total g some_points = elim (Bool-cases g.disable) [
  | inl off ↦ ([], ground (arith, off))
  | inr on ↦ elim (Bool-cases (length g.measure_probe1 == length g.measure_probe2)) [
    | inr uneven ↦ (
      unequal (length g.measure_probe1) (length g.measure_probe2) ∷ [],
      ground (arith, on, uneven),
    )
    | inl even ↦
        let same : length g.measure_probe1 ≡ length g.measure_probe2 = ground (arith, even) in
        let (p, at) =
          points_at_total g (length g.measure_probe1 - 1) (omega (arith, some_points same))
            (omega (arith, some_points same, same)) in
        (loop_time (length g.measure_probe1) p ∷ [], ground (arith, on, even, some_points same, at))
  ]
]

-- The measuring of a write that is done never faults: one point has just been added, so that there is
-- one in both series if they are equally long.
instant_time_us-measured :
    (now : ℕ) (g : Gauge)
    → (reports : List Report) × (instant_time_us (set_probe2 now g).0 ≡ ok reports)
unfolding instant_time_us set_probe2
instant_time_us-measured now g = elim (Bool-cases g.disable) [
  | inl off ↦ ([], ground (arith, off))
  | inr on ↦ rw (set_probe2_lem g now on) (
      instant_time_us_total (record g { measure_probe2 = g.measure_probe2 ++ now ∷ [] })
        (λ even. omega (arith, even, length-append g.measure_probe2 (now ∷ []))))
]

-- The client, whatever is reported.
abbrev pub client_of : Result (UdpClient × List Report) → Result Client
client_of r = r >>= λ (u, _). ok u.client

module _ (cast_guidance : Bytes → Guidance) (unpack_reply : Bytes → Option ClientReplyMessage) where
  -- A message as the client of connections takes it.
  abbrev pub unpacked : MessageType → Bytes → Result Reply
  unpacked guidance msg_buf = ok (Client.guidance (cast_guidance msg_buf))
  unpacked client_reply msg_buf = do
    msg ← or_fault (unpack_reply msg_buf) unpack_error
    ok (Client.client_reply msg)
  unpacked _ msg_buf = ok Client.other

  -- A message of any type, from any replica, does to the state of a client of datagrams what it does
  -- to that of a client of connections, faults included, whatever is measured.
  pub handle_reply-same :
      (now : ℕ) (u : UdpClient) (id : ReplicaId) (type : MessageType) (msg_buf : Bytes)
      → client_of (handle_reply cast_guidance unpack_reply now u id type msg_buf)
        ≡ (unpacked type msg_buf >>= Client.handle_reply u.client id)
  unfolding handle_reply handle_guidance handle_client_reply end_turn Client.handle_reply
  handle_reply-same now u id guidance msg_buf =
      elim (Result-cases (set_guidance id (cast_guidance msg_buf) u.client)) [
        | inr (f, e) ↦ rw (e, ◌>>=◌)
        | inl (c, e) ↦ rw (e, ◌>>=◌) (ground arith)
      ]
  handle_reply-same now u id client_reply msg_buf = elim (Option-cases (unpack_reply msg_buf)) [
    | inl e ↦ rw (e, or_fault, ◌>>=◌)
    | inr (msg, e) ↦ rw (e, or_fault, ◌>>=◌) (ground (arith, instant_time_us-measured now u.gauge))
  ]
  handle_reply-same now u id unknown msg_buf = refl
  handle_reply-same now u id append msg_buf = refl
  handle_reply-same now u id append_reply msg_buf = refl
  handle_reply-same now u id client msg_buf = refl
  handle_reply-same now u id get_guidance msg_buf = refl
