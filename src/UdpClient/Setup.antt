-- ===== src/UdpClient/Setup.antt =====
-- `set_channel_info` and `build_comm` of a client (app/client3.cpp).
use morphling_c.Base.{
  ℕ, zero, suc, ◌+◌, ◌/◌, ◌≡◌, ◌≤◌, ◌<◌, inl, inr, refl, ap, ◌∙◌, List, [], ◌∷◌, length, replicate,
  get_elem?_total, get_elem?-none, ◌%◌, ◌^◌, ltb, ok, fault, out_of_range, or_fault, ◌>>=◌,
  Bool-cases, arith,
}
use morphling_c.Message.{Bytes, ReplicaId}
use morphling_c.Guidance.{no_guidance}
use morphling_c.Wire.{pack_get_guidance}
use morphling_c.Client.Sending.{Outgoing}
use morphling_c.UdpClient.{
  Channel, UdpClient, make_channels, set_channel_info, send, request_guidance, request_all,
  build_comm,
}

-- Channels with the ids from `id` on.
abbrev Consecutive : ReplicaId → List Channel → Type 0
Consecutive id [] = Unit {0}
Consecutive id (chan ∷ chans) = (chan.replica_id ≡ id) × Consecutive (suc id) chans

make_channels_fit :
    (ips : List Bytes) (id : ReplicaId) (ports : List ℕ)
    → id + length ips ≤ length ports
    → (chans : List Channel) × (make_channels id ips ports ≡ ok chans)
      × (length chans ≡ length ips)
      × Consecutive id chans
unfolding make_channels
make_channels_fit [] id ports h = ([], refl, refl, tt)
make_channels_fit (ip ∷ ips) id ports h =
    let (port, at) = get_elem?_total ports id (omega arith) in
    let (chans, e, size, ids) = make_channels_fit ips (suc id) ports (omega arith) in
    (
      record { replica_id = id; replica_ip = ip; udp_dest = (ip, port % 2 ^ 16) } ∷ chans,
      rw (at, or_fault, ◌>>=◌, e),
      ap suc size,
      (refl, ids),
    )

make_channels_short :
    (ips : List Bytes) (id : ReplicaId) (ports : List ℕ)
    → id ≤ length ports
    → length ports < id + length ips
    → make_channels id ips ports ≡ fault out_of_range
unfolding make_channels
make_channels_short [] id ports le h = absurd (omega arith)
make_channels_short (ip ∷ ips) id ports le h = elim (Bool-cases (ltb id (length ports))) [
  | inl inside ↦
      let (port, at) = get_elem?_total ports id (ground (arith, inside)) in
      rw (
        at,
        or_fault,
        ◌>>=◌,
        make_channels_short ips (suc id) ports (ground (arith, inside)) (omega arith),
      )
  | inr last ↦ rw (get_elem?-none ports id (ground (arith, last)), or_fault, ◌>>=◌)
]

-- Requests for guidance to `n` replicas from `id` on.
abbrev pub requests_from : ReplicaId → ℕ → List Outgoing
requests_from id zero = []
requests_from id (suc n) = (id, pack_get_guidance) ∷ requests_from (suc id) n

request_all_lem :
    (u : UdpClient) (chans : List Channel) (id : ReplicaId)
    → Consecutive id chans
    → id + length chans ≤ length u.channels
    → request_all u chans ≡ ok (requests_from id (length chans))
unfolding request_all request_guidance send
request_all_lem u [] id ids h = refl
request_all_lem u (chan ∷ chans) id ids h =
    ground (arith, ids.0, request_all_lem u chans (suc id) ids.1)

-- What a client is after `set_channel_info`.
pub record Connected (ips : List Bytes) (ports : List ℕ) (u u' : UdpClient) : Type 0 where
  pub returns : set_channel_info ips ports u ≡ ok u'
  pub channel_count : length u'.channels ≡ length ips
  pub requests : build_comm u' ≡ ok (requests_from 0 (length ips))
  pub status_kept : u'.client.status ≡ u.client.status
  pub collection : u'.client.one_turn_collection ≡ replicate (length ports) no_guidance
  pub replica_count : u'.client.max_replica_id ≡ length ports
  pub majority : u'.client.quorum ≡ length ports / 2 + 1

pub connect :
    (ips : List Bytes) (ports : List ℕ) (u : UdpClient)
    → length ips ≤ length ports
    → (u' : UdpClient) × Connected ips ports u u'
unfolding set_channel_info build_comm
connect ips ports u le =
    let (chans, e, size, ids) = make_channels_fit ips 0 ports (omega (arith, le)) in
    let u' : UdpClient = record u {
      client = record u.client {
        max_replica_id = length ports;
        quorum = length ports / 2 + 1;
        one_turn_collection = replicate (length ports) no_guidance;
      };
      channels = chans;
    } in
    (
      u',
      record {
        returns = rw (e, ◌>>=◌);
        channel_count = size;
        requests =
            request_all_lem u' chans 0 ids (omega arith)
            ∙ ap (λ (n : ℕ). ok (requests_from 0 n)) size;
        status_kept = refl;
        collection = refl;
        replica_count = refl;
        majority = refl;
      },
    )

-- More addresses than ports are read out of range.
pub set_channel_info_short :
    (ips : List Bytes) (ports : List ℕ) (u : UdpClient)
    → length ports < length ips
    → set_channel_info ips ports u ≡ fault out_of_range
unfolding set_channel_info
set_channel_info_short ips ports u lt =
    rw (make_channels_short ips 0 ports (omega arith) (omega (arith, lt)), ◌>>=◌)
