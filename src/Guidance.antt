-- ===== src/Guidance.antt =====
-- core/guidance.h: how the key space is divided among the replicas, packed into 32-bit words.
pub mod Fields
pub mod Ranges
use Prim.Native.Nat.{bit_and, bit_or}
use morphling_c.Base.{
  ℕ, ◌+◌, ◌*◌, ◌/◌, ◌%◌, ◌^◌, Bool, true, false, ◌&&◌, List, [], ◌∷◌, Option, none, some, ltb, leb,
  ◌==◌, if◌then◌else◌, replicate,
}

-- `HARD_CODE_REPLICAS`
abbrev pub replicas : ℕ
replicas = 3

-- `status` holds the start of the node's range in bits 0 to 7, its end in bits 8 to 15 and the
-- flags in bits 16 to 23.
pub record NodeStatus : Type 0 where
  pub status : ℕ

abbrev pub node_status_mask_start : ℕ
node_status_mask_start = 0xff

abbrev pub node_status_mask_end : ℕ
node_status_mask_end = 0xff * 2 ^ 8

abbrev pub node_status_mask_flags : ℕ
node_status_mask_flags = 0xff * 2 ^ 16

-- The results are of type `uint8_t`.
unfoldable pub get_start_pos : NodeStatus → ℕ
get_start_pos n = bit_and n.status node_status_mask_start % 2 ^ 8

unfoldable pub get_end_pos : NodeStatus → ℕ
get_end_pos n = bit_and n.status node_status_mask_end / 2 ^ 8 % 2 ^ 8

unfoldable pub alive : NodeStatus → ℕ
alive n = bit_and n.status node_status_mask_flags / 2 ^ 16 % 2 ^ 8

-- `pos` is a `uint16_t`; `start` and `end` are `uint8_t`.
unfoldable pub set_pos : NodeStatus → ℕ → ℕ → NodeStatus
set_pos n start end =
    let pos = bit_or start (end * 2 ^ 8) % 2 ^ 16 in
    record { status = bit_or (bit_and n.status 0xffff0000) pos }

unfoldable pub set_alive : NodeStatus → NodeStatus
set_alive n = record { status = bit_or (bit_and n.status 0x0000ffff) 0x00010000 }

pub set_dead : NodeStatus → NodeStatus
set_dead n = record { status = bit_and n.status 0x0000ffff }

-- A range whose start lies above its end goes round the end of the key space.
unfoldable pub pos_is_in : NodeStatus → ℕ → Bool
pos_is_in n pos =
    if alive n == 0
    then false
    else (if ltb (get_end_pos n) (get_start_pos n)
        then (if leb (get_start_pos n) pos then true else leb pos (get_end_pos n))
        else leb (get_start_pos n) pos && leb pos (get_end_pos n))

-- `status` holds the number of live nodes in bits 0 to 7 and the cluster size in bits 8 to 15.
pub record Guidance : Type 0 where
  pub epoch : ℕ
  pub status : ℕ
  pub cluster : List NodeStatus

-- The member initialisers.
abbrev pub no_guidance : Guidance
no_guidance = record { epoch = 0; status = 0; cluster = replicate replicas (record { status = 0 }) }

unfoldable pub get_cluster_size : Guidance → ℕ
get_cluster_size g = bit_and g.status 0xff00 / 2 ^ 8 % 2 ^ 8

unfoldable pub get_alive_num : Guidance → ℕ
get_alive_num g = bit_and g.status 0xff % 2 ^ 8

unfoldable pub set_cluster_size : Guidance → ℕ → Guidance
set_cluster_size g size = record g { status = bit_or (bit_and g.status 0x00ff) (size * 2 ^ 8) }

unfoldable pub set_alive_num : Guidance → ℕ → Guidance
set_alive_num g num = record g { status = bit_or (bit_and g.status 0xff00) num }

-- The loop of `map_node_id` from node `id` on.
unfoldable pub find_node : List NodeStatus → ℕ → ℕ → Option ℕ
find_node [] id pos = none
find_node (n ∷ ns) id pos =
    let rest = find_node ns (id + 1) pos in if pos_is_in n pos then some id else rest

-- The first node that holds `pos`; `none` stands for -1.
unfoldable pub map_node_id : Guidance → ℕ → Option ℕ
map_node_id g pos = find_node g.cluster 0 pos
