-- ===== src/Alloc/Allocator/Stats.antt =====
-- `allocator_get_stats` of a valid allocator agrees with the table of live allocations.
use otus_work.Base.{ℕ, zero, suc, ◌+◌, ◌-◌, ◌*◌, ◌<◌, ◌≡◌, refl, arith, List, min, ◌∙◌}
use otus_work.Alloc.Bitmap.{bm_test_bit, bm_count_set}
use otus_work.Alloc.Bitmap.Count.{ones, ones-le, bm_count_set-ones}
use otus_work.Alloc.Bitmap.Fragmentation.{bm_fragmentation_percent_bounds}
use otus_work.Alloc.Allocator.{
  alloc_total_size, alloc_block_size, alloc_total_blocks, AllocationInfo, MemoryAllocator,
  allocator_get_stats,
}
use otus_work.Alloc.Allocator.Table.{entry, hit, cover}
use otus_work.Alloc.Allocator.Invariant.{IsPlaced, IsValid}

-- The blocks of the first `n` entries.
unfoldable pub live_blocks : List AllocationInfo → ℕ → ℕ
live_blocks table zero = 0
live_blocks table (suc n) = live_blocks table n + (entry table n).num_blocks

-- The sum of a function below `t`.
sum_below : (ℕ → ℕ) → ℕ → ℕ
sum_below f zero = 0
sum_below f (suc t) = sum_below f t + f t

sum_below-add : (f g : ℕ → ℕ) (t : ℕ) → sum_below (λ j. f j + g j) t ≡ sum_below f t + sum_below g t
unfolding sum_below
sum_below-add f g zero = omega arith
sum_below-add f g (suc t) = omega (arith, sum_below-add f g t)

sum_below-zero : (t : ℕ) → sum_below (λ _. 0) t ≡ 0
unfolding sum_below
sum_below-zero zero = refl
sum_below-zero (suc t) = omega (arith, sum_below-zero t)

sum_below-hit :
    (e : AllocationInfo) (t : ℕ) → sum_below (hit e) t ≡ min e.num_blocks (t - e.start_block)
unfolding sum_below hit
sum_below-hit e zero = omega arith
sum_below-hit e (suc t) = ground (arith, sum_below-hit e t)

sum_below-ones :
    (bmap : List ℕ) (f : ℕ → ℕ) (t : ℕ)
    → ((j : ℕ) → j < t → bm_test_bit bmap j ≡ f j)
    → ones bmap t ≡ sum_below f t
unfolding sum_below ones
sum_below-ones bmap f zero h = refl
sum_below-ones bmap f (suc t) h =
    omega (arith, sum_below-ones bmap f t (λ j p. h j (omega arith)), h t (omega arith))

sum_below-cover :
    (pool : ℕ) (table : List AllocationInfo) (n : ℕ)
    → ((i : ℕ) → i < n → IsPlaced pool (entry table i))
    → sum_below (cover table n) alloc_total_blocks ≡ live_blocks table n
unfolding cover live_blocks
sum_below-cover pool table zero h = sum_below-zero alloc_total_blocks
sum_below-cover pool table (suc n) h =
    let p = h n (omega arith) in
    omega (
      arith,
      sum_below-add (cover table n) (hit (entry table n)) alloc_total_blocks,
      sum_below-hit (entry table n) alloc_total_blocks,
      sum_below-cover pool table n (λ i q. h i (omega arith)),
      p.inside,
    )

-- The statistics of a valid allocator count the blocks of its live allocations as allocated, split
-- the pool of 10 MiB into allocated and free memory, and give a fragmentation below 100 percent.
pub allocator_get_stats_lem :
    {a : MemoryAllocator}
    → IsValid a
    → let s = allocator_get_stats a in
      (s.allocated_blocks ≡ live_blocks a.allocations a.num_allocations)
      × (s.allocated_blocks + s.free_blocks ≡ alloc_total_blocks)
      × (s.total_memory ≡ alloc_total_size)
      × (s.allocated_memory ≡ s.allocated_blocks * alloc_block_size)
      × (s.allocated_memory + s.free_memory ≡ s.total_memory)
      × (s.fragmentation_percent < 100)
unfolding allocator_get_stats
allocator_get_stats_lem {a} v =
    let counted : bm_count_set a.bitmap a.total_blocks ≡ ones a.bitmap alloc_total_blocks =
      rw v.blocks (bm_count_set-ones a.bitmap alloc_total_blocks v.bytes) in
    let small = ones-le a.bitmap alloc_total_blocks v.bytes in
    let live =
      sum_below-ones a.bitmap (cover a.allocations a.num_allocations) alloc_total_blocks v.exact
      ∙ sum_below-cover a.memory_pool a.allocations a.num_allocations v.placed in
    let bounds =
      bm_fragmentation_percent_bounds a.bitmap a.total_blocks v.bytes (omega (arith, v.blocks)) in
    (
      counted ∙ live,
      omega (arith, v.blocks),
      rw (v.blocks, v.block) (omega arith),
      rw (counted, v.block) (omega arith),
      rw (counted, v.blocks, v.block) (omega arith),
      bounds.0,
    )
