-- ===== src/Arena.antt =====
-- The class `Arena` of extra/arena.cpp, an allocator. A pointer is an address, and the null pointer is
-- address 0. A `size_t` is a number below 2 ^ 64, and its sums wrap. The blocks that `new` has given out are kept beside the arena, with their sizes.
pub mod Regions
pub mod Apart
use morphling_c.Base.{
  ℕ, ◌+◌, ◌-◌, ◌/◌, ◌%◌, Bool, List, [], ◌∷◌, ◌++◌, ltb, leb, add_u64, ◌==◌, if◌then◌else◌, Result,
  ok, aborted, guard, ◌>>=◌, ◌>>◌,
}

-- An address and a size in bytes.
abbrev pub Region : Type 0
Region = ℕ × ℕ

pub record Arena : Type 0 where
  pub alloc_ptr : ℕ
  pub alloc_bytes_remaining : ℕ
  pub blocks : List ℕ
  pub memory_usage : ℕ

abbrev pub block_size : ℕ
block_size = 4096

abbrev pub pointer_size : ℕ
pointer_size = 8

abbrev pub empty : Arena
empty = record { alloc_ptr = 0; alloc_bytes_remaining = 0; blocks = []; memory_usage = 0 }

-- `place` is where `new char[n]` puts a block, with the blocks that are there; that `new` throws when
-- there is no room is left out. What is left of a block is at least what is taken of it.
module _ (place : List Region → ℕ → ℕ) where
  unfoldable pub allocate_new_block : ℕ → Arena → List Region → ℕ × Arena × List Region
  allocate_new_block block_bytes a heap =
      let result = place heap block_bytes in
      (
        result,
        record a {
          blocks = a.blocks ++ result ∷ [];
          memory_usage = add_u64 a.memory_usage (add_u64 block_bytes pointer_size);
        },
        (result, block_bytes) ∷ heap,
      )

  unfoldable pub allocate_fallback : ℕ → Arena → List Region → ℕ × Arena × List Region
  allocate_fallback bytes a heap =
      if ltb (block_size / 4) bytes
      then allocate_new_block bytes a heap
      else (let (result, a', heap') = allocate_new_block block_size a heap in
          (
            result,
            record a' { alloc_ptr = result + bytes; alloc_bytes_remaining = block_size - bytes },
            heap',
          ))

  unfoldable pub allocate : ℕ → Arena → List Region → Result (ℕ × Arena × List Region)
  allocate bytes a heap = do
    guard (ltb 0 bytes) aborted
    if leb bytes a.alloc_bytes_remaining
        then ok (
          a.alloc_ptr,
          record a {
            alloc_ptr = a.alloc_ptr + bytes;
            alloc_bytes_remaining = a.alloc_bytes_remaining - bytes;
          },
          heap,
        )
        else ok (allocate_fallback bytes a heap)

  -- What is left out up to the next multiple of `align`.
  unfoldable pub slop_of : Arena → ℕ
  slop_of a = let current_mod = a.alloc_ptr % 8 in if current_mod == 0 then 0 else 8 - current_mod

  unfoldable pub allocate_aligned : ℕ → Arena → List Region → Result (ℕ × Arena × List Region)
  allocate_aligned bytes a heap =
      let slop = slop_of a in
      let needed = add_u64 bytes slop in
      let (result, a', heap') =
        if leb needed a.alloc_bytes_remaining
        then (
          a.alloc_ptr + slop,
          record a {
            alloc_ptr = a.alloc_ptr + needed;
            alloc_bytes_remaining = a.alloc_bytes_remaining - needed;
          },
          heap,
        )
        else allocate_fallback bytes a heap in
      (do guard (result % 8 == 0) aborted; ok (result, a', heap'))
