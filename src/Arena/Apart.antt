-- ===== src/Arena/Apart.antt =====
-- Runs of the allocator (extra/arena.cpp): what it gives out does not overlap.
use mathlib.Core.List.{Memᴰ}
use morphling_c.Base.{
  ℕ, ◌+◌, ◌-◌, ◌/◌, ◌%◌, ◌^◌, ◌≡◌, ◌≤◌, ◌<◌, ◌⊎◌, inl, inr, refl, true, List, [], ◌∷◌, ltb, leb,
  ◌==◌, Result, ok, guard, ◌>>=◌, Bool-cases, arith,
}
use morphling_c.Arena.{
  Region, Arena, empty, block_size, pointer_size, allocate_new_block, allocate_fallback, allocate,
  slop_of, allocate_aligned,
}
use morphling_c.Arena.Regions.{
  Within, ApartFrom, AllApart, AllHeld, Allocator, ApartFrom-Within, ApartFrom-mem, ApartFrom-held,
  AllHeld-more,
}

-- A call of `Allocate` or of `AllocateAligned`.
pub data Request : Type 0 where
  plain aligned : ℕ → Request

abbrev pub size_of : Request → ℕ
size_of (plain n) = n
size_of (aligned n) = n

-- The blocks and the pointers to them.
abbrev pub usage_of : List Region → ℕ
usage_of [] = 0
usage_of (b ∷ blocks) = (b.1 + pointer_size) + usage_of blocks

-- An arena that has given out some regions.
record Sound (a : Arena) (heap given : List Region) : Type 0 where
  free :
      (a.alloc_bytes_remaining ≡ 0)
      ⊎ ((b : Region) × Memᴰ b heap
          × Within (a.alloc_ptr, a.alloc_bytes_remaining) b
          × ApartFrom (a.alloc_ptr, a.alloc_bytes_remaining) given)
  held : AllHeld heap given
  apart : AllApart given
  usage : a.memory_usage ≡ usage_of heap % 2 ^ 64

module _ (place : List Region → ℕ → ℕ) where
  -- The calls in order, and what they gave out, newest first.
  pub run :
      List Request → Arena → List Region → List Region → Result (List Region × Arena × List Region)
  run [] a heap given = ok (given, a, heap)
  run (plain n ∷ rs) a heap given = do
    (p, a', heap') ← allocate place n a heap
    run rs a' heap' ((p, n) ∷ given)
  run (aligned n ∷ rs) a heap given = do
    (p, a', heap') ← allocate_aligned place n a heap
    run rs a' heap' ((p, n) ∷ given)

-- The sizes that `new` may be asked for: at least one byte, and fewer than 2 ^ 63.
abbrev pub AllSized : List Request → Type 0
AllSized [] = Unit {0}
AllSized (r ∷ rs) = (0 < size_of r) × (size_of r < 2 ^ 63) × AllSized rs

module _ (place : List Region → ℕ → ℕ) (new : Allocator place) where
  -- An arena that has given out one more.
  record Gave (bytes : ℕ) (given : List Region) (r : ℕ × Arena × List Region) : Type 0 where
    sound : Sound r.1 r.2 ((r.0, bytes) ∷ given)

  -- From what is left of a block.
  give_rest :
      (a : Arena) (heap given : List Region) (slop bytes : ℕ)
      → Sound a heap given
      → 0 < bytes
      → bytes + slop ≤ a.alloc_bytes_remaining
      → Gave bytes given (
        a.alloc_ptr + slop,
        record a {
          alloc_ptr = a.alloc_ptr + (bytes + slop);
          alloc_bytes_remaining = a.alloc_bytes_remaining - (bytes + slop);
        },
        heap,
      )
  give_rest a heap given slop bytes s pos fits = elim s.free [
    | inl full ↦ absurd (omega (arith, full))
    | inr (b, m, w, apart) ↦
        let old : Region = (a.alloc_ptr, a.alloc_bytes_remaining) in
        let part : Within (a.alloc_ptr + slop, bytes) old = (omega arith, omega (arith, fits)) in
        let rest : Within (a.alloc_ptr + (bytes + slop), a.alloc_bytes_remaining - (bytes + slop))
            old =
          (omega arith, omega (arith, fits)) in
        record {
          sound = record {
            free = inr (
              b,
              m,
              (omega (arith, w.0), omega (arith, w.1, fits)),
              (inr (omega arith), ApartFrom-Within _ old given rest apart),
            );
            held = ((b, m, (omega (arith, w.0), omega (arith, w.1, fits))), s.held);
            apart = (ApartFrom-Within _ old given part apart, s.apart);
            usage = s.usage;
          };
        }
  ]

  -- From a block of its own.
  give_block :
      (a : Arena) (heap given : List Region) (bytes : ℕ)
      → Sound a heap given
      → Gave bytes given (allocate_new_block place bytes a heap)
  unfolding allocate_new_block
  give_block a heap given bytes s =
      let block : Region = (place heap bytes, bytes) in
      let fresh = new.fresh heap bytes in
      record {
        sound = record {
          free = elim s.free [
            | inl full ↦ inl full
            | inr (b, m, w, apart) ↦ inr (
              b,
              Memᴰ.tail m,
              w,
              (
                elim (ApartFrom-mem block b heap fresh m) [
                  | inl left ↦ inr (omega (arith, left, w.0))
                  | inr right ↦ inl (omega (arith, right, w.1))
                ],
                apart,
              ),
            )
          ];
          held = (
            (block, Memᴰ.head refl, (omega arith, omega arith)),
            AllHeld-more block heap given s.held,
          );
          apart = (ApartFrom-held block heap given fresh s.held, s.apart);
          usage = omega (arith, s.usage);
        };
      }

  -- From the beginning of a new block, of which the rest is kept.
  give_fallback :
      (a : Arena) (heap given : List Region) (bytes : ℕ)
      → Sound a heap given
      → 0 < bytes
      → Gave bytes given (allocate_fallback place bytes a heap)
  unfolding allocate_fallback allocate_new_block
  give_fallback a heap given bytes s pos = elim (Bool-cases (ltb (block_size / 4) bytes)) [
    | inl large ↦ rw large (give_block a heap given bytes s)
    | inr small ↦
        let block : Region = (place heap block_size, block_size) in
        let fits : bytes ≤ block_size = ground (arith, small) in
        let fresh = new.fresh heap block_size in
        let out : ApartFrom block given = ApartFrom-held block heap given fresh s.held in
        rw small (record {
          sound = record {
            free = inr (
              block,
              Memᴰ.head refl,
              (omega arith, omega (arith, fits)),
              (
                inr (omega arith),
                ApartFrom-Within _ block given (omega arith, omega (arith, fits)) out,
              ),
            );
            held = (
              (block, Memᴰ.head refl, (omega arith, omega (arith, fits))),
              AllHeld-more block heap given s.held,
            );
            apart =
                (ApartFrom-Within _ block given (omega arith, omega (arith, fits)) out, s.apart);
            usage = omega (arith, s.usage);
          };
        })
  ]

  -- What a call returns.
  record Served (bytes : ℕ) (heap given : List Region) (r : Result (ℕ × Arena × List Region))
      : Type 0 where
    out : ℕ × Arena × List Region
    returns : r ≡ ok out
    gave : Gave bytes given out

  serve_plain :
      (a : Arena) (heap given : List Region) (bytes : ℕ)
      → Sound a heap given
      → 0 < bytes
      → Served bytes heap given (allocate place bytes a heap)
  unfolding allocate
  serve_plain a heap given bytes s pos = elim (Bool-cases (leb bytes a.alloc_bytes_remaining)) [
    | inl fits ↦ record {
      out = (
        a.alloc_ptr + 0,
        record a {
          alloc_ptr = a.alloc_ptr + (bytes + 0);
          alloc_bytes_remaining = a.alloc_bytes_remaining - (bytes + 0);
        },
        heap,
      );
      returns = ground (arith, pos, fits);
      gave = give_rest a heap given 0 bytes s pos (ground (arith, fits));
    }
    | inr short ↦ record {
      out = allocate_fallback place bytes a heap;
      returns = ground (arith, pos, short);
      gave = give_fallback a heap given bytes s pos;
    }
  ]

  slop_of-aligned : (a : Arena) → ((a.alloc_ptr + slop_of place a) % 8 == 0) ≡ true
  unfolding slop_of
  slop_of-aligned a = ground arith

  slop_of_small : (a : Arena) → slop_of place a < 8
  unfolding slop_of
  slop_of_small a = ground arith

  allocate_fallback-aligned :
      (a : Arena) (heap : List Region) (bytes : ℕ)
      → ((allocate_fallback place bytes a heap).0 % 8 == 0) ≡ true
  unfolding allocate_fallback allocate_new_block
  allocate_fallback-aligned a heap bytes =
      ground (arith, new.aligned heap bytes, new.aligned heap block_size)

  serve_aligned :
      (a : Arena) (heap given : List Region) (bytes : ℕ)
      → Sound a heap given
      → 0 < bytes
      → bytes < 2 ^ 63
      → Served bytes heap given (allocate_aligned place bytes a heap)
  unfolding allocate_aligned
  serve_aligned a heap given bytes s pos small =
      let whole : (bytes + slop_of place a) % 2 ^ 64 ≡ bytes + slop_of place a =
        omega (arith, small, slop_of_small a) in
      elim (Bool-cases (leb (bytes + slop_of place a) a.alloc_bytes_remaining)) [
        | inl fits ↦ record {
          out = (
            a.alloc_ptr + slop_of place a,
            record a {
              alloc_ptr = a.alloc_ptr + (bytes + slop_of place a);
              alloc_bytes_remaining = a.alloc_bytes_remaining - (bytes + slop_of place a);
            },
            heap,
          );
          returns = rw (whole, fits, slop_of-aligned a, guard, ◌>>=◌);
          gave = give_rest a heap given (slop_of place a) bytes s pos (ground (arith, fits));
        }
        | inr short ↦ record {
          out = allocate_fallback place bytes a heap;
          returns = rw (whole, short, allocate_fallback-aligned a heap bytes, guard, ◌>>=◌);
          gave = give_fallback a heap given bytes s pos;
        }
      ]

  run_lem :
      (rs : List Request) (a : Arena) (heap given : List Region)
      → Sound a heap given
      → AllSized rs
      → (given' : List Region) × (a' : Arena) × (heap' : List Region) × (run place rs a heap given
          ≡ ok (given', a', heap'))
        × Sound a' heap' given'
  unfolding run
  run_lem [] a heap given s h = (given, a, heap, refl, s)
  run_lem (plain n ∷ rs) a heap given s h =
      let c = serve_plain a heap given n s h.0 in
      let (given', a', heap', e, s') =
        run_lem rs c.out.1 c.out.2 ((c.out.0, n) ∷ given) c.gave.sound h.2 in
      (given', a', heap', rw (c.returns, ◌>>=◌, e), s')
  run_lem (aligned n ∷ rs) a heap given s h =
      let c = serve_aligned a heap given n s h.0 h.1 in
      let (given', a', heap', e, s') =
        run_lem rs c.out.1 c.out.2 ((c.out.0, n) ∷ given) c.gave.sound h.2 in
      (given', a', heap', rw (c.returns, ◌>>=◌, e), s')

  -- Take an allocator of blocks that puts them at multiples of 8 and apart from one another. A new
  -- arena serves any sequence of calls for at least one byte and fewer than 2 ^ 63 each: none of its
  -- assertions fails, no two of the regions that it gives out overlap, each lies in one of the blocks,
  -- and its memory usage is the size of the blocks and of the pointers to them, modulo 2 ^ 64.
  pub run-apart :
      (rs : List Request)
      → AllSized rs
      → (given : List Region) × (a : Arena) × (heap : List Region) × (run place rs empty [] []
          ≡ ok (given, a, heap))
        × AllApart given
        × AllHeld heap given
        × (a.memory_usage ≡ usage_of heap % 2 ^ 64)
  run-apart rs h =
      let (given, a, heap, e, s) =
        run_lem rs empty [] [] (record { free = inl refl; held = tt; apart = tt; usage = refl })
          h in
      (given, a, heap, e, s.apart, s.held, s.usage)
