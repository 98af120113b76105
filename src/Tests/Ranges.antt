-- ===== src/Tests/Ranges.antt =====
-- Runs of core/guidance.h and of the key space of core/morphling.cpp.
use morphling_c.Base.{ℕ, ◌≡◌, ◌<◌, refl, true, List, [], ◌∷◌, some, ok, get_elem?}
use morphling_c.Guidance.{
  NodeStatus, Guidance, pos_is_in, map_node_id, get_cluster_size, get_alive_num,
}
use morphling_c.Message.{ReplicaId}
use morphling_c.Keys.{calc_key_pos, default_key_space, init_local_guidance}
use morphling_c.Keys.Owner.{init_local_guidance-owner}

-- A live node from 250 on, round to 5.
abbrev round_node : NodeStatus
round_node = record { status = 0x000105fa }

abbrev three_peers : List ReplicaId
three_peers = 0 ∷ 1 ∷ 2 ∷ []

init_local_guidance-owner_example :
    (g : Guidance) × (init_local_guidance three_peers default_key_space ≡ ok g)
    × (g.epoch ≡ 1)
    × (get_cluster_size g ≡ 3)
    × (get_alive_num g ≡ 3)
    × ((key_hash : ℕ)
        → (id : ℕ) × (id < 3)
          × (map_node_id g (calc_key_pos key_hash) ≡ some id)
          × ((j : ℕ) (n : NodeStatus)
              → get_elem? g.cluster j ≡ some n
              → pos_is_in n (calc_key_pos key_hash) ≡ true
              → id ≡ j))
init_local_guidance-owner_example = init_local_guidance-owner three_peers refl
