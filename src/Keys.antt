-- ===== src/Keys.antt =====
-- core/morphling.cpp: how key hashes map to groups, and how the key space is divided at the start.
pub mod Owner
use Prim.Native.Nat.{bit_and}
use morphling_c.Base.{
  ℕ, zero, suc, ◌+◌, ◌*◌, ◌/◌, ◌%◌, ◌^◌, List, ◌==◌, if◌then◌else◌, length, get_or, set, sub_u32,
  Result, ok, fault, aborted,
}
use morphling_c.Message.{ReplicaId}
use morphling_c.Guidance.{
  NodeStatus, Guidance, replicas, no_guidance, set_pos, set_alive, set_cluster_size, set_alive_num,
}

abbrev pub default_key_space : ℕ
default_key_space = 256

-- The group of a key, and its position in the key space.
unfoldable pub calc_key_pos : ℕ → ℕ
calc_key_pos key_hash = bit_and key_hash 0xff00 / 2 ^ 8

-- The range of node `i`: the arithmetic is on `uint32_t`, and `set_pos` takes bytes.
pub start_key_pos : ℕ → ℕ → ℕ → ℕ
start_key_pos i key_space cluster_size = i * key_space % 2 ^ 32 / cluster_size

pub end_key_pos : ℕ → ℕ → ℕ → ℕ
end_key_pos i key_space cluster_size = sub_u32 ((i + 1) * key_space % 2 ^ 32 / cluster_size) 1

pub init_node : ℕ → ℕ → ℕ → NodeStatus → NodeStatus
init_node i key_space cluster_size n = set_alive (
    set_pos n (start_key_pos i key_space cluster_size % 2 ^ 8)
      (end_key_pos i key_space cluster_size % 2 ^ 8))

-- The loop, from node `i` on with `n` nodes left.
pub init_nodes : ℕ → ℕ → ℕ → ℕ → List NodeStatus → List NodeStatus
init_nodes zero i key_space cluster_size cluster = cluster
init_nodes (suc n) i key_space cluster_size cluster =
    init_nodes n (i + 1) key_space cluster_size (
      set cluster i (init_node i key_space cluster_size (get_or cluster i (record { status = 0 }))))

-- The process exits unless there are as many peers as `replicas`.
pub init_local_guidance : List ReplicaId → ℕ → Result Guidance
init_local_guidance peers key_space =
    let cluster_size = length peers in
    if cluster_size == replicas
    then (let g =
          set_alive_num (set_cluster_size (record no_guidance { epoch = 1 }) (cluster_size % 2 ^ 8))
            (cluster_size % 2 ^ 8) in
        ok (record g { cluster = init_nodes cluster_size 0 key_space cluster_size g.cluster }))
    else fault aborted
