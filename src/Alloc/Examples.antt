-- ===== src/Alloc/Examples.antt =====
-- The allocator's theorems at concrete states, and tests of its functions.
use otus_work.Base.{
  ◌%◌, ◌++◌, ℕ, zero, suc, ◌+◌, ◌-◌, ◌*◌, ◌^◌, ◌<◌, ◌≤◌, ◌≡◌, ◌≢◌, ◌⊎◌, ◌↔◌, refl, sym,
  if◌then◌else◌, Option, none, some, List, [], ◌∷◌, replicate, arith, leb,
}
use otus_work.Base.Int.{pos}
use otus_work.Alloc.Bitmap.{
  bit_of, set_bit, clear_bit, update_bit, update_from, bm_test_bit, bm_set_region, bm_clear_region,
  size_mod, bm_find_free_region, find_from, bm_count_set, count_from, bm_fragmentation_percent,
  frag_from, frag_step,
}
use otus_work.Alloc.Bitmap.Region.{IsBytes}
use otus_work.Alloc.Bitmap.Search.{IsFree, Finds, bm_find_free_region-Finds}
use otus_work.Alloc.Bitmap.Fragmentation.{runs, bm_fragmentation_percent_bounds}
use otus_work.Alloc.Allocator.{
  MemoryAllocator, ok, not_found, invalid, allocator_init, allocator_alloc, allocator_free,
  blocks_for, commit, release, find_allocation, allocator_get_stats, alloc_total_blocks,
  alloc_total_size, alloc_block_size,
}
use otus_work.Alloc.Allocator.Table.{entry}
use otus_work.Alloc.Allocator.Invariant.{IsValid, Promises, fresh, fresh-IsValid}
use otus_work.Alloc.Allocator.Alloc.{
  Refused, Allocated, allocator_alloc_lem, allocator_alloc-IsValid,
}
use otus_work.Alloc.Allocator.Free.{Freed, allocator_free_lem}
use otus_work.Alloc.Allocator.Stats.{live_blocks, allocator_get_stats_lem}
use otus_work.Alloc.Allocator.Calls.{Call, IsRestored, calls, free-alloc, calls-Disjoint}
use otus_work.Alloc.Allocator.Disjoint.{Disjoint}
use otus_work.Alloc.Allocator.Reclaim.{release_first, alloc-release_first}
use otus_work.Kernel.Print.{print_each}
use otus_work.Alloc.Allocator.Info.{Format, map_start, allocator_bitmap_info}

program : Unit {0}
unfolding bit_of set_bit clear_bit update_bit update_from bm_test_bit bm_set_region bm_clear_region
    bm_find_free_region find_from bm_count_set count_from bm_fragmentation_percent frag_from
    frag_step allocator_alloc allocator_free blocks_for commit release find_allocation
    allocator_get_stats allocator_init calls
program = tt

-- 0b0000_0111, then 0b0000_0001
abbrev sample : List ℕ
sample = 7 ∷ 1 ∷ []

sample-IsBytes : IsBytes sample
sample-IsBytes zero = omega arith
sample-IsBytes (suc zero) = omega arith
sample-IsBytes (suc (suc i)) = omega arith

find_test : bm_find_free_region sample 16 6 ≡ pos 9
unfolding program
find_test = refl

count_test : bm_count_set sample 16 ≡ 4
unfolding program
count_test = refl

-- two free runs
percent_test : bm_fragmentation_percent sample 16 ≡ 50
unfolding program
percent_test = refl

bm_find_free_region-Finds_example : Finds sample 16 6 (bm_find_free_region sample 16 6)
bm_find_free_region-Finds_example =
    bm_find_free_region-Finds sample 16 6 (omega arith) (omega arith)

sample-IsFree : IsFree sample 3 8
unfolding program
sample-IsFree (suc (suc (suc zero))) lo hi = refl
sample-IsFree (suc (suc (suc (suc zero)))) lo hi = refl
sample-IsFree (suc (suc (suc (suc (suc zero))))) lo hi = refl
sample-IsFree (suc (suc (suc (suc (suc (suc zero)))))) lo hi = refl
sample-IsFree (suc (suc (suc (suc (suc (suc (suc zero))))))) lo hi = refl
sample-IsFree k lo hi = absurd (omega arith)

bm_fragmentation_percent_bounds_example :
    (bm_fragmentation_percent sample 16 < 100)
    × ((bm_fragmentation_percent sample 16 ≡ 0) ↔ (runs sample 16 ≤ 1))
bm_fragmentation_percent_bounds_example =
    bm_fragmentation_percent_bounds sample 16 sample-IsBytes (omega arith)

-- A kernel with memory: the pool at address 65536.
abbrev pub kzalloc : ℕ → Option (List ℕ)
kzalloc n = some (replicate n 0)

abbrev pub vzalloc : ℕ → ℕ
vzalloc n = if leb n (2 ^ 32) then 65536 else 0

pub promises : Promises kzalloc vzalloc
promises = record { zeroed = λ n b e. sym (ground arith); fits = λ n. ground arith }

start : MemoryAllocator
start = fresh kzalloc vzalloc promises

start-IsValid : IsValid start
unfolding start
start-IsValid = fresh-IsValid kzalloc vzalloc promises (omega arith)

-- 5000 bytes take the first two blocks.
one : MemoryAllocator
one = (allocator_alloc start 5000).1

one-IsValid : IsValid one
unfolding one
one-IsValid = allocator_alloc-IsValid start-IsValid 5000 (omega arith)

address_test : (allocator_alloc start 5000).0 ≡ 65536
unfolding program start
address_test = refl

second_test : (allocator_alloc one 1).0 ≡ 73728
unfolding program start one
second_test = refl

wrap_test : (allocator_alloc start (2 ^ 64 - 1)).0 ≡ 0
unfolding program start
wrap_test = refl

free_test : (allocator_free one 65536).0 ≡ ok
unfolding program start one
free_test = refl

allocator_alloc_lem_example :
    (Refused one 1 × (allocator_alloc one 1 ≡ (0, one)))
    ⊎ ((first : ℕ) × Allocated one 1 first (allocator_alloc one 1))
allocator_alloc_lem_example = allocator_alloc_lem one-IsValid 1 (omega arith)

abbrev granted : ℕ
granted = 65536

allocator_free_lem_example :
    ((granted ≡ 0) × (allocator_free one granted ≡ (invalid, one)))
    ⊎ ((granted ≢ 0)
        × ((k : ℕ) → k < one.num_allocations → (entry one.allocations k).ptr ≢ granted)
        × (allocator_free one granted ≡ (not_found, one)))
    ⊎ ((i : ℕ) × Freed one granted i (allocator_free one granted))
allocator_free_lem_example = allocator_free_lem one-IsValid granted

free-alloc_example :
    let (status, b) =
      allocator_free (allocator_alloc start 5000).1 (allocator_alloc start 5000).0 in
    (status ≡ ok) × IsRestored start b
free-alloc_example =
    free-alloc start-IsValid 5000 (omega arith) (λ e. absurd (omega (arith, address_test)))

allocator_get_stats_lem_example :
    let s = allocator_get_stats one in
    (s.allocated_blocks ≡ live_blocks one.allocations one.num_allocations)
    × (s.allocated_blocks + s.free_blocks ≡ alloc_total_blocks)
    × (s.total_memory ≡ alloc_total_size)
    × (s.allocated_memory ≡ s.allocated_blocks * alloc_block_size)
    × (s.allocated_memory + s.free_memory ≡ s.total_memory)
    × (s.fragmentation_percent < 100)
allocator_get_stats_lem_example = allocator_get_stats_lem one-IsValid

abbrev session : List Call
session = Call.alloc 5000 ∷ Call.alloc 1 ∷ Call.free 65536 ∷ Call.alloc 9000 ∷ []

session_test : (calls start session).num_allocations ≡ 2
unfolding program start
session_test = refl

calls-Disjoint_example :
    Disjoint (entry (calls start session).allocations 0) (entry (calls start session).allocations 1)
calls-Disjoint_example =
    calls-Disjoint session start-IsValid 0 1 (omega arith) (omega (arith, session_test))

abbrev pub kstrtoul : List ℕ → Option ℕ
kstrtoul [] = none
kstrtoul (c ∷ cs) = if leb size_mod c then none else some c

pub kstrtoul_lt : (t : List ℕ) (n : ℕ) → kstrtoul t ≡ some n → n < size_mod
kstrtoul_lt [] n e = absurd (cc)
kstrtoul_lt (c ∷ cs) n e = ground arith

alloc-release_first_example :
    let b = release_first one.num_allocations one in
    (b.num_allocations ≡ 0) × ((allocator_alloc b 10_485_760).0 ≡ one.memory_pool)
alloc-release_first_example = alloc-release_first 10_485_760 one-IsValid (omega arith) (omega arith)

-- A spelling of numbers by their last digit.
abbrev pub digits : Format
digits = record {
  count = λ n. (b'0' + n % 10) ∷ 10 ∷ [];
  allocation = λ i e. (b'0' + i % 10) ∷ b':' ∷ (b'0' + e.num_blocks % 10) ∷ 10 ∷ [];
}

info_test : (allocator_bitmap_info digits one 32).1 ≡ map_start ++ b'X' ∷ b'X' ∷ b'.' ∷ b'.' ∷ []
unfolding program start one allocator_bitmap_info print_each
info_test = refl
