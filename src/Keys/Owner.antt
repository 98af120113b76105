-- ===== src/Keys/Owner.antt =====
-- The key space after `Morphling::init_local_guidance` (core/morphling.cpp): every key has one
-- owner.
use Prim.Native.Nat.{bit_and}
use morphling_c.Base.{
  ℕ, zero, suc, ◌*◌, ◌/◌, ◌%◌, ◌≡◌, ◌<◌, refl, ap, ◌∙◌, true, List, [], ◌∷◌, some, ltb,
  if◌then◌else◌, ok, arith, length, get_elem?,
}
use mathlib.Core.Option.{some-injective}
use morphling_c.Base.Bits.{bit_and_field}
use morphling_c.Message.{ReplicaId}
use morphling_c.Guidance.{
  NodeStatus, Guidance, get_start_pos, get_end_pos, alive, set_pos, set_alive, pos_is_in, find_node,
  map_node_id, get_cluster_size, get_alive_num, set_cluster_size, set_alive_num,
}
use morphling_c.Keys.{
  calc_key_pos, default_key_space, start_key_pos, end_key_pos, init_node, init_nodes,
  init_local_guidance,
}

-- The position of a key is its second byte, so it names a group.
pub calc_key_pos_lem :
    (key_hash : ℕ) → (calc_key_pos key_hash ≡ key_hash / 256 % 256) × (calc_key_pos key_hash < 256)
unfolding calc_key_pos
calc_key_pos_lem key_hash = omega (arith, second_byte)
  where
    second_byte : bit_and key_hash 0xff00 ≡ key_hash / 256 % 256 * 256
    second_byte =
        ap (λ (x : ℕ). bit_and x 0xff00) (omega arith)
        ∙ bit_and_field 8 8 (key_hash / 65536) (key_hash / 256 % 256) (key_hash % 256) (omega arith)
            (omega arith)

-- The guidance that three peers start with.
abbrev pub first_guidance : Guidance
first_guidance = record {
  epoch = 1;
  status = 0x0303;
  cluster =
      record { status = 0x00015400 }
      ∷ record { status = 0x0001a955 }
      ∷ record { status = 0x0001ffaa }
      ∷ [];
}

init_three :
    (peers : List ReplicaId)
    → length peers ≡ 3
    → init_local_guidance peers default_key_space ≡ ok first_guidance
unfolding init_local_guidance init_nodes init_node set_alive set_pos start_key_pos end_key_pos
    set_cluster_size set_alive_num
init_three [] h = absurd (omega arith)
init_three (a ∷ []) h = absurd (omega arith)
init_three (a ∷ b ∷ []) h = absurd (omega arith)
init_three (a ∷ b ∷ c ∷ []) h = refl
init_three (a ∷ b ∷ c ∷ d ∷ rest) h = absurd (omega arith)

-- The node whose range holds a position.
abbrev pub owner : ℕ → ℕ
owner pos = if ltb pos 85 then 0 else (if ltb pos 170 then 1 else 2)

map_node_id-owner : (pos : ℕ) → pos < 256 → map_node_id first_guidance pos ≡ some (owner pos)
unfolding map_node_id find_node pos_is_in alive get_start_pos get_end_pos
map_node_id-owner pos h = ground arith

-- A node that holds a position is its owner.
owner-holds :
    (pos j : ℕ) (n : NodeStatus)
    → get_elem? first_guidance.cluster j ≡ some n
    → pos_is_in n pos ≡ true
    → owner pos ≡ j
unfolding pos_is_in alive get_start_pos get_end_pos
owner-holds pos zero n e h = ground (arith, rw (← some-injective _ _ e) at h)
owner-holds pos (suc zero) n e h = ground (arith, rw (← some-injective _ _ e) at h)
owner-holds pos (suc (suc zero)) n e h = ground (arith, rw (← some-injective _ _ e) at h)
owner-holds pos (suc (suc (suc j))) n e h = cc

-- With three peers the process starts, with guidance of epoch 1 for a cluster of three live nodes,
-- in which every key is mapped to a node, and no other node's range holds the key's position.
pub init_local_guidance-owner :
    (peers : List ReplicaId)
    → length peers ≡ 3
    → (g : Guidance) × (init_local_guidance peers default_key_space ≡ ok g)
      × (g.epoch ≡ 1)
      × (get_cluster_size g ≡ 3)
      × (get_alive_num g ≡ 3)
      × ((key_hash : ℕ)
          → (id : ℕ) × (id < 3)
            × (map_node_id g (calc_key_pos key_hash) ≡ some id)
            × ((j : ℕ) (n : NodeStatus)
                → get_elem? g.cluster j ≡ some n
                → pos_is_in n (calc_key_pos key_hash) ≡ true
                → id ≡ j))
unfolding get_cluster_size get_alive_num
init_local_guidance-owner peers three = (
  first_guidance,
  init_three peers three,
  refl,
  refl,
  refl,
  λ key_hash.
      let pos = calc_key_pos key_hash in
      (
        owner pos,
        ground arith,
        map_node_id-owner pos (calc_key_pos_lem key_hash).1,
        owner-holds pos,
      ),
)
