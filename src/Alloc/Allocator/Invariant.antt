-- ===== src/Alloc/Allocator/Invariant.antt =====
-- The invariant of the allocator: the table's live entries lie in the pool, and the bitmap holds
-- exactly the blocks that they cover, each block once.
use otus_work.Base.{
  ℕ, zero, suc, ◌+◌, ◌*◌, ◌<◌, ◌≤◌, ◌≡◌, ◌⊎◌, ◌≢◌, ℕ_discrete, ==_no, refl, arith, List, [], length,
  get_or, replicate, length-replicate, Option, none, some, inl, inr, Option-cases,
}
use native.Mathlib.Nat.{zero-div}
use otus_work.Alloc.Bitmap.{size_mod, bit_of, bm_test_bit}
use otus_work.Alloc.Bitmap.Region.{IsBytes}
use otus_work.Alloc.Allocator.{
  alloc_total_size, alloc_block_size, alloc_total_blocks, alloc_bitmap_bytes, max_allocations, ok,
  nomem, AllocationInfo, MemoryAllocator, no_allocation, allocator_init, cleared, address,
}
use otus_work.Alloc.Allocator.Table.{entry, cover}

-- An entry's region is not empty, lies in the pool, and is what its pointer points to.
pub record IsPlaced (pool : ℕ) (e : AllocationInfo) : Type 0 where
  pub nonempty : 0 < e.num_blocks
  pub inside : e.start_block + e.num_blocks ≤ alloc_total_blocks
  pub points : e.ptr ≡ pool + e.start_block * alloc_block_size

pub record IsValid (a : MemoryAllocator) : Type 0 where
  pub bitmap_size : length a.bitmap ≡ alloc_bitmap_bytes
  pub bytes : IsBytes a.bitmap
  pub blocks : a.total_blocks ≡ alloc_total_blocks
  pub block : a.block_size ≡ alloc_block_size
  pub pool : 0 < a.memory_pool
  pub pool_end : a.memory_pool + alloc_total_size ≤ size_mod
  pub table_size : length a.allocations ≡ max_allocations
  pub count : a.num_allocations ≤ max_allocations
  pub placed : (i : ℕ) → i < a.num_allocations → IsPlaced a.memory_pool (entry a.allocations i)
  pub exact :
      (j : ℕ)
      → j < alloc_total_blocks
      → bm_test_bit a.bitmap j ≡ cover a.allocations a.num_allocations j

-- No pointer of the pool wraps.
pub address_lem :
    {a : MemoryAllocator}
    → IsValid a
    → (start : ℕ) → start < alloc_total_blocks
    → address a.memory_pool start ≡ a.memory_pool + start * alloc_block_size
address_lem {a} v start h = omega (arith, v.pool_end)

get_or-zeros : (n i : ℕ) → get_or {A = ℕ} (replicate n 0) i 0 ≡ 0
get_or-zeros zero i = refl
get_or-zeros (suc n) zero = refl
get_or-zeros (suc n) (suc i) = get_or-zeros n i

bit_of-zero : (k : ℕ) → bit_of 0 k ≡ 0
unfolding bit_of
bit_of-zero k = rw zero-div refl

pub bm_test_bit-zeros : (n j : ℕ) → bm_test_bit (replicate n 0) j ≡ 0
unfolding bm_test_bit
bm_test_bit-zeros n j = rw get_or-zeros (bit_of-zero _)

-- What the kernel's allocators promise: zeroed bytes, and a buffer that ends in the address space.
pub record Promises (kzalloc : ℕ → Option (List ℕ)) (vzalloc : ℕ → ℕ) : Type 0 where
  pub zeroed : (n : ℕ) (buffer : List ℕ) → kzalloc n ≡ some buffer → buffer ≡ replicate n 0
  pub fits : (n : ℕ) → vzalloc n ≢ 0 → vzalloc n + n ≤ size_mod

module _ (kzalloc : ℕ → Option (List ℕ)) (vzalloc : ℕ → ℕ) (p : Promises kzalloc vzalloc) where
  -- `alloc` over the two buffers.
  abbrev pub fresh : MemoryAllocator
  fresh = record cleared {
    bitmap = replicate alloc_bitmap_bytes 0;
    memory_pool = vzalloc alloc_total_size;
  }

  pub fresh-IsValid : vzalloc alloc_total_size ≢ 0 → IsValid fresh
  unfolding cover
  fresh-IsValid found = record {
    bitmap_size = length-replicate {A = ℕ} alloc_bitmap_bytes 0;
    bytes = λ i. rw get_or-zeros (omega arith);
    blocks = refl;
    block = refl;
    pool = omega arith;
    pool_end = p.fits alloc_total_size found;
    table_size = length-replicate max_allocations no_allocation;
    count = omega arith;
    placed = λ i h. absurd (omega arith);
    exact = λ j h. bm_test_bit-zeros alloc_bitmap_bytes j;
  }

  init_failed :
      (kzalloc alloc_bitmap_bytes ≡ none) ⊎ (vzalloc alloc_total_size ≡ 0)
      → allocator_init kzalloc vzalloc ≡ (nomem, cleared)
  unfolding allocator_init
  init_failed h = ground arith

  init_done :
      kzalloc alloc_bitmap_bytes ≡ some (replicate alloc_bitmap_bytes 0)
      → vzalloc alloc_total_size ≢ 0
      → allocator_init kzalloc vzalloc ≡ (ok, fresh)
  unfolding allocator_init
  init_done h ne = rw (h, ==_no ne, allocator_init) refl

  -- `allocator_init` succeeds exactly when both buffers are there, and then leaves a valid allocator
  -- with no allocation and every block free.
  pub allocator_init-IsValid :
      let (status, a) = allocator_init kzalloc vzalloc in
      ((status ≡ ok) × IsValid a × (a.num_allocations ≡ 0) × ((j : ℕ) → bm_test_bit a.bitmap j ≡ 0))
      ⊎ ((status ≡ nomem)
          × ((kzalloc alloc_bitmap_bytes ≡ none) ⊎ (vzalloc alloc_total_size ≡ 0))
          × (a.bitmap ≡ [])
          × (a.memory_pool ≡ 0))
  allocator_init-IsValid = elim (Option-cases (kzalloc alloc_bitmap_bytes)) [
    | inl e ↦ rw (init_failed (inl e)) (inr (refl, inl e, refl, refl))
    | inr (buffer, e) ↦ elim (ℕ_discrete (vzalloc alloc_total_size) 0) [
      | yes missing ↦ rw (init_failed (inr missing)) (inr (refl, inr missing, refl, refl))
      | no found ↦
          rw (init_done (rw (p.zeroed _ _ e) at e) found)
            (inl (refl, fresh-IsValid found, refl, λ j. bm_test_bit-zeros alloc_bitmap_bytes j))
    ]
  ]
