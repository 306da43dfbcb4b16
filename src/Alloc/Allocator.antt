-- ===== src/Alloc/Allocator.antt =====
-- Linux_kernel/HW_05_bit_maps/src/allocator.c: fixed blocks of a pool, with a bitmap of the blocks in
-- use and a table of the live allocations. The one static `alloc` is passed in and returned. Every
-- operation holds `alloc.lock` from its first access to its last, so each is one step.
-- A pointer is its address, and NULL is 0; the NULL bitmap is the empty array.
pub mod Table
pub mod Invariant
pub mod Alloc
pub mod Disjoint
pub mod Free
pub mod Stats
pub mod Calls
pub mod Reclaim
pub mod Info
use otus_work.Base.{
  ℕ, zero, suc, ◌+◌, ◌-◌, ◌*◌, ◌/◌, ◌%◌, List, [], get_or, set, ltb, leb, ◌==◌, replicate,
  if◌then◌else◌, Option, none, some,
}
use otus_work.Base.Int.{pos, negsuc}
use otus_work.Alloc.Bitmap.{
  size_mod, bm_find_free_region, bm_set_region, bm_clear_region, bm_count_set,
  bm_fragmentation_percent,
}

abbrev pub alloc_total_size : ℕ
alloc_total_size = 10 * 1024 * 1024

abbrev pub alloc_block_size : ℕ
alloc_block_size = 4096

abbrev pub alloc_total_blocks : ℕ
alloc_total_blocks = alloc_total_size / alloc_block_size

abbrev pub alloc_bitmap_bytes : ℕ
alloc_bitmap_bytes = (alloc_total_blocks + 7) / 8

abbrev pub max_allocations : ℕ
max_allocations = 1024

-- ALLOC_OK, ALLOC_NOMEM, ALLOC_INVALID, ALLOC_NOT_FOUND
pub data Status : Type 0 where
  ok nomem invalid not_found : Status

pub record AllocationInfo : Type 0 where
  pub start_block : ℕ
  pub num_blocks : ℕ
  pub ptr : ℕ

pub record StatsInfo : Type 0 where
  pub total_blocks : ℕ
  pub free_blocks : ℕ
  pub allocated_blocks : ℕ
  pub total_memory : ℕ
  pub free_memory : ℕ
  pub allocated_memory : ℕ
  pub fragmentation_percent : ℕ

pub record MemoryAllocator : Type 0 where
  pub bitmap : List ℕ
  pub memory_pool : ℕ
  pub total_blocks : ℕ
  pub block_size : ℕ
  pub allocations : List AllocationInfo
  pub num_allocations : ℕ

-- An entry of the table that `memset` cleared.
abbrev pub no_allocation : AllocationInfo
no_allocation = record { start_block = 0; num_blocks = 0; ptr = 0 }

-- `alloc` after `memset` and the two sizes.
abbrev pub cleared : MemoryAllocator
cleared = record {
  bitmap = [];
  memory_pool = 0;
  total_blocks = alloc_total_blocks;
  block_size = alloc_block_size;
  allocations = replicate max_allocations no_allocation;
  num_allocations = 0;
}

-- `kzalloc` gives the bytes of a new buffer or fails, `vzalloc` gives the address of one or 0.
unfoldable pub allocator_init : (ℕ → Option (List ℕ)) → (ℕ → ℕ) → Status × MemoryAllocator
allocator_init kzalloc vzalloc = elim (kzalloc alloc_bitmap_bytes) [
  | none ↦ (nomem, cleared)
  | some bitmap ↦
      let pool = vzalloc alloc_total_size in
      if pool == 0
      then (nomem, cleared)
      else (ok, record cleared { bitmap = bitmap; memory_pool = pool })
]

-- The blocks that hold `bytes` bytes; the sum is a `size_t`.
unfoldable pub blocks_for : ℕ → ℕ
blocks_for bytes = (bytes + alloc_block_size - 1) % size_mod / alloc_block_size

-- `(char *)alloc.memory_pool + start * ALLOC_BLOCK_SIZE`
abbrev pub address : ℕ → ℕ → ℕ
address pool start = (pool + start * alloc_block_size) % size_mod

-- The updates of `allocator_alloc` once it has found a region.
unfoldable pub commit : MemoryAllocator → ℕ → ℕ → ℕ × MemoryAllocator
commit a start num_blocks =
    let ptr = address a.memory_pool start in
    (
      ptr,
      record a {
        bitmap = bm_set_region a.bitmap start num_blocks;
        allocations =
            set a.allocations a.num_allocations
              (record { start_block = start; num_blocks = num_blocks; ptr = ptr });
        num_allocations = a.num_allocations + 1;
      },
    )

unfoldable pub allocator_alloc : MemoryAllocator → ℕ → ℕ × MemoryAllocator
allocator_alloc a bytes =
    let num_blocks = blocks_for bytes in
    if bytes == 0 then (0, a) else elim (bm_find_free_region a.bitmap a.total_blocks num_blocks) [
      | negsuc m ↦ (0, a)
      | pos start ↦
          if leb max_allocations a.num_allocations then (0, a) else commit a start num_blocks
    ]

-- The loop of `allocator_free`: the first `i` with the pointer, in `rounds` more rounds.
unfoldable pub find_allocation : List AllocationInfo → ℕ → ℕ → ℕ → Option ℕ
find_allocation table ptr zero i = none
find_allocation table ptr (suc rounds) i =
    let rest : Option ℕ = find_allocation table ptr rounds (i + 1) in
    if (get_or table i no_allocation).ptr == ptr then some i else rest

-- The updates of `allocator_free` once it has found the entry `i`.
unfoldable pub release : MemoryAllocator → ℕ → MemoryAllocator
release a i =
    let e = get_or a.allocations i no_allocation in
    let last = a.num_allocations - 1 in
    record a {
      bitmap = bm_clear_region a.bitmap e.start_block e.num_blocks;
      num_allocations = last;
      allocations =
          if ltb i last
          then set a.allocations i (get_or a.allocations last no_allocation)
          else a.allocations;
    }

unfoldable pub allocator_free : MemoryAllocator → ℕ → Status × MemoryAllocator
allocator_free a ptr =
    if ptr == 0
    then (invalid, a)
    else elim (find_allocation a.allocations ptr a.num_allocations 0) [
      | none ↦ (not_found, a)
      | some i ↦ (ok, release a i)
    ]

unfoldable pub allocator_get_stats : MemoryAllocator → StatsInfo
allocator_get_stats a =
    let allocated = bm_count_set a.bitmap a.total_blocks in
    let free = (a.total_blocks + size_mod - allocated) % size_mod in
    record {
      total_blocks = a.total_blocks;
      allocated_blocks = allocated;
      free_blocks = free;
      total_memory = a.total_blocks * a.block_size % size_mod;
      free_memory = free * a.block_size % size_mod;
      allocated_memory = allocated * a.block_size % size_mod;
      fragmentation_percent = bm_fragmentation_percent a.bitmap a.total_blocks;
    }

-- `vfree` and `kfree` take a buffer that is there; both pointers end as NULL.
unfoldable pub allocator_cleanup : MemoryAllocator → MemoryAllocator
allocator_cleanup a = record a { memory_pool = 0; bitmap = []; num_allocations = 0 }
