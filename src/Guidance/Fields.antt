-- ===== src/Guidance/Fields.antt =====
-- The bit fields of core/guidance.h: what a setter writes, and what it leaves.
use Prim.Native.Nat.{bit_and}
use morphling_c.Base.{ℕ, ◌+◌, ◌*◌, ◌/◌, ◌%◌, ◌^◌, ◌<◌, ◌≡◌, ap, ◌∙◌, arith}
use morphling_c.Base.Bits.{bit_and_low, bit_and_field, bit_or_high, bit_or_low}
use morphling_c.Guidance.{
  NodeStatus, get_start_pos, get_end_pos, alive, set_pos, set_alive, set_dead, Guidance,
  get_cluster_size, get_alive_num, set_cluster_size, set_alive_num,
}

bit_and_second : (a : ℕ) → bit_and a 0xff00 ≡ a / 256 % 256 * 256
bit_and_second a =
    ap (λ (x : ℕ). bit_and x 0xff00) (omega arith)
    ∙ bit_and_field 8 8 (a / 65536) (a / 256 % 256) (a % 256) (omega arith) (omega arith)

bit_and_third : (a : ℕ) → bit_and a 0xff0000 ≡ a / 65536 % 256 * 65536
bit_and_third a =
    ap (λ (x : ℕ). bit_and x 0xff0000) (omega arith)
    ∙ bit_and_field 8 16 (a / 16777216) (a / 65536 % 256) (a % 65536) (omega arith) (omega arith)

bit_and_upper : (a : ℕ) → bit_and a 0xffff0000 ≡ a / 65536 % 65536 * 65536
bit_and_upper a =
    ap (λ (x : ℕ). bit_and x 0xffff0000) (omega arith)
    ∙ bit_and_field 16 16 (a / 2 ^ 32) (a / 65536 % 65536) (a % 65536) (omega arith) (omega arith)

pub get_start_pos_lem : (n : NodeStatus) → get_start_pos n ≡ n.status % 256
unfolding get_start_pos
get_start_pos_lem n = omega (arith, bit_and_low 8 n.status)

pub get_end_pos_lem : (n : NodeStatus) → get_end_pos n ≡ n.status / 256 % 256
unfolding get_end_pos
get_end_pos_lem n = omega (arith, bit_and_second n.status)

pub alive_lem : (n : NodeStatus) → alive n ≡ n.status / 65536 % 256
unfolding alive
alive_lem n = omega (arith, bit_and_third n.status)

-- The halves of the word after `set_pos`.
pub set_pos_lem :
    (n : NodeStatus) (start end : ℕ)
    → start < 256
    → end < 256
    → (set_pos n start end).status ≡ n.status / 65536 % 65536 * 65536 + (end * 256 + start)
unfolding set_pos
set_pos_lem n start end hs he =
    rw (bit_and_upper n.status, bit_or_low 8 end start hs, fits)
      (bit_or_high 16 (n.status / 65536 % 65536) (end * 256 + start) (omega arith))
  where
    fits : (end * 256 + start) % 65536 ≡ end * 256 + start
    fits = omega arith

pub set_alive_lem : (n : NodeStatus) → (set_alive n).status ≡ 65536 + n.status % 65536
unfolding set_alive
set_alive_lem n = rw (bit_and_low 16 n.status) (bit_or_low 16 1 (n.status % 65536) (omega arith))

pub set_dead_lem : (n : NodeStatus) → (set_dead n).status ≡ n.status % 65536
unfolding set_dead
set_dead_lem n = bit_and_low 16 n.status

-- `set_pos` writes both ends of the range, each a byte, and leaves the flags of the node.
pub set_pos-get :
    (n : NodeStatus) (start end : ℕ)
    → start < 256
    → end < 256
    → (get_start_pos (set_pos n start end) ≡ start)
      × (get_end_pos (set_pos n start end) ≡ end)
      × (alive (set_pos n start end) ≡ alive n)
set_pos-get n start end hs he = ground (
  arith,
  get_start_pos_lem (set_pos n start end),
  get_end_pos_lem (set_pos n start end),
  alive_lem (set_pos n start end),
  alive_lem n,
  set_pos_lem n start end hs he,
)

-- `set_alive` makes the flags 1 and `set_dead` makes them 0; both leave the range of the node.
pub set_alive-get :
    (n : NodeStatus)
    → (alive (set_alive n) ≡ 1)
      × (alive (set_dead n) ≡ 0)
      × (get_start_pos (set_alive n) ≡ get_start_pos n)
      × (get_end_pos (set_alive n) ≡ get_end_pos n)
      × (get_start_pos (set_dead n) ≡ get_start_pos n)
      × (get_end_pos (set_dead n) ≡ get_end_pos n)
set_alive-get n =
    let a = set_alive_lem n in
    let d = set_dead_lem n in
    (
      omega (arith, alive_lem (set_alive n), a),
      omega (arith, alive_lem (set_dead n), d),
      omega (arith, get_start_pos_lem (set_alive n), get_start_pos_lem n, a),
      omega (arith, get_end_pos_lem (set_alive n), get_end_pos_lem n, a),
      omega (arith, get_start_pos_lem (set_dead n), get_start_pos_lem n, d),
      omega (arith, get_end_pos_lem (set_dead n), get_end_pos_lem n, d),
    )

set_cluster_size_lem :
    (g : Guidance) (size : ℕ) → (set_cluster_size g size).status ≡ size * 256 + g.status % 256
unfolding set_cluster_size
set_cluster_size_lem g size =
    rw (bit_and_low 8 g.status) (bit_or_low 8 size (g.status % 256) (omega arith))

set_alive_num_lem :
    (g : Guidance) (num : ℕ)
    → num < 256
    → (set_alive_num g num).status ≡ g.status / 256 % 256 * 256 + num
unfolding set_alive_num
set_alive_num_lem g num h =
    rw (bit_and_second g.status) (bit_or_high 8 (g.status / 256 % 256) num (omega arith))

get_cluster_size_lem : (g : Guidance) → get_cluster_size g ≡ g.status / 256 % 256
unfolding get_cluster_size
get_cluster_size_lem g = omega (arith, bit_and_second g.status)

get_alive_num_lem : (g : Guidance) → get_alive_num g ≡ g.status % 256
unfolding get_alive_num
get_alive_num_lem g = omega (arith, bit_and_low 8 g.status)

-- The cluster size and the number of live nodes, each a byte, are read back as written, and writing
-- one leaves the other.
pub set_cluster_size-get :
    (g : Guidance) (size num : ℕ)
    → size < 256
    → num < 256
    → (get_cluster_size (set_cluster_size g size) ≡ size)
      × (get_alive_num (set_cluster_size g size) ≡ get_alive_num g)
      × (get_alive_num (set_alive_num g num) ≡ num)
      × (get_cluster_size (set_alive_num g num) ≡ get_cluster_size g)
set_cluster_size-get g size num hs hn =
    let c = set_cluster_size_lem g size in
    let a = set_alive_num_lem g num hn in
    (
      omega (arith, get_cluster_size_lem (set_cluster_size g size), c),
      omega (arith, get_alive_num_lem (set_cluster_size g size), get_alive_num_lem g, c),
      omega (arith, get_alive_num_lem (set_alive_num g num), a),
      omega (arith, get_cluster_size_lem (set_alive_num g num), get_cluster_size_lem g, a),
    )
