-- ===== src/Alloc/Allocator/Alloc.antt =====
-- `allocator_alloc`: what it returns on every branch, and that it keeps the invariant.
use otus_work.Base.{
  ℕ, zero, suc, suc, ◌+◌, ◌-◌, ◌*◌, ◌/◌, ◌<◌, ◌≤◌, ◌≡◌, ◌≢◌, ◌⊎◌, refl, ◌∙◌, leb, ◌==◌,
  if◌then◌else◌, arith, List, set, length-set, inl, inr, ℕ_discrete, dec_lt, ==_yes, ==_no, add-one,
}
use otus_work.Base.Int.{ℤ, pos, negsuc}
use otus_work.Alloc.Bitmap.{size_mod, bm_test_bit, bm_find_free_region, bm_set_region}
use otus_work.Alloc.Bitmap.Region.{within, IsWritten, bm_set_region-IsWritten}
use otus_work.Alloc.Bitmap.Search.{
  IsFree, IsFirstFit, Finds, bm_find_free_region-Finds, bm_find_free_region-zero,
}
use otus_work.Alloc.Allocator.{
  alloc_block_size, alloc_total_blocks, max_allocations, AllocationInfo, MemoryAllocator,
  blocks_for, address, commit, allocator_alloc,
}
use otus_work.Alloc.Allocator.Table.{entry, hit, cover, entry-set, cover-set_past}
use otus_work.Alloc.Allocator.Invariant.{IsPlaced, IsValid, address_lem}

-- The number of blocks that hold `bytes` bytes, with no wrap.
abbrev pub needed : ℕ → ℕ
needed bytes = (bytes + (alloc_block_size - 1)) / alloc_block_size

-- Why an allocation is refused.
abbrev pub Refused : MemoryAllocator → ℕ → Type 0
Refused a bytes =
    (bytes ≡ 0)
    ⊎ ((t : ℕ) → t + needed bytes ≤ alloc_total_blocks → ¬ IsFree a.bitmap t (t + needed bytes))
    ⊎ (a.num_allocations ≡ max_allocations)

-- `r` is the result of an allocation that began at the block `start`.
pub record Allocated (a : MemoryAllocator) (bytes start : ℕ) (r : ℕ × MemoryAllocator)
    : Type 0 where
  pub fit : IsFirstFit a.bitmap alloc_total_blocks (needed bytes) start
  pub pointer : r.0 ≡ a.memory_pool + start * alloc_block_size
  pub counted : r.1.num_allocations ≡ a.num_allocations + 1
  pub same_pool : r.1.memory_pool ≡ a.memory_pool
  pub recorded :
      entry r.1.allocations a.num_allocations
      ≡ record { start_block = start; num_blocks = needed bytes; ptr = r.0 }
  pub kept : (i : ℕ) → i < a.num_allocations → entry r.1.allocations i ≡ entry a.allocations i
  pub marked :
      (j : ℕ)
      → bm_test_bit r.1.bitmap j
        ≡ (if within start (needed bytes) j then 1 else bm_test_bit a.bitmap j)
  pub valid : IsValid r.1

module _ {a : MemoryAllocator} (v : IsValid a) where
  module _ (bytes start : ℕ) (fit : IsFirstFit a.bitmap alloc_total_blocks (needed bytes) start)
      (some_bytes : 0 < bytes) (room : a.num_allocations < max_allocations) where
    abbrev new : AllocationInfo
    new = record {
      start_block = start;
      num_blocks = needed bytes;
      ptr = address a.memory_pool start;
    }

    written :
        IsWritten 1 start (needed bytes) a.bitmap (bm_set_region a.bitmap start (needed bytes))
    written =
        bm_set_region-IsWritten a.bitmap start (needed bytes)
          (omega (arith, fit.fits, v.bitmap_size)) (omega (arith, fit.fits)) v.bytes

    table : List AllocationInfo
    table = set a.allocations a.num_allocations new

    entry-table :
        (i : ℕ) → entry table i ≡ (if a.num_allocations == i then new else entry a.allocations i)
    unfolding table
    entry-table i = entry-set a.allocations a.num_allocations i new (omega (arith, v.table_size))

    new-IsPlaced : IsPlaced a.memory_pool new
    new-IsPlaced = record {
      nonempty = omega arith;
      inside = fit.fits;
      points = address_lem v start (omega (arith, fit.fits));
    }

    exact-new :
        (j : ℕ)
        → j < alloc_total_blocks
        → bm_test_bit (bm_set_region a.bitmap start (needed bytes)) j
          ≡ cover table (suc a.num_allocations) j
    unfolding cover hit table
    exact-new j h = ground (
      arith,
      written.reads j,
      v.exact j h,
      fit.free j,
      entry-table a.num_allocations,
      cover-set_past a.allocations a.num_allocations a.num_allocations j new,
      v.table_size,
    )

    commit-IsValid : IsValid (commit a start (needed bytes)).1
    unfolding commit table
    commit-IsValid = record {
      bitmap_size = written.same_length ∙ v.bitmap_size;
      bytes = written.bytes;
      blocks = v.blocks;
      block = v.block;
      pool = v.pool;
      pool_end = v.pool_end;
      table_size = length-set a.allocations a.num_allocations new ∙ v.table_size;
      count = omega arith;
      placed = λ i h. elim (ℕ_discrete a.num_allocations i) [
        | yes same ↦ rw (entry-table i, ==_yes same) new-IsPlaced
        | no other ↦ rw (entry-table i, ==_no other) (v.placed i (omega arith))
      ];
      exact = λ j h. rw add-one (exact-new j h);
    }

    commit-Allocated : Allocated a bytes start (commit a start (needed bytes))
    unfolding commit table
    commit-Allocated = record {
      fit = fit;
      pointer = address_lem v start (omega (arith, fit.fits));
      counted = refl;
      same_pool = refl;
      recorded = ground (arith, entry-table a.num_allocations);
      kept = λ i h. ground (arith, entry-table i);
      marked = written.reads;
      valid = commit-IsValid;
    }

  module _ (bytes : ℕ) where
    abbrev search : ℤ
    search = bm_find_free_region a.bitmap a.total_blocks (blocks_for bytes)

    alloc_failed : {m : ℕ} → (bytes ≡ 0) ⊎ (search ≡ negsuc m) → allocator_alloc a bytes ≡ (0, a)
    unfolding allocator_alloc
    alloc_failed h = ground arith

    alloc_found :
        {start : ℕ}
        → bytes ≢ 0
        → search ≡ pos start
        → allocator_alloc a bytes ≡ (
            if leb max_allocations a.num_allocations
            then (0, a)
            else commit a start (blocks_for bytes))
    unfolding allocator_alloc
    alloc_found ne e = rw (==_no ne, e, allocator_alloc) refl

    -- What `allocator_alloc` promises of its result.
    abbrev Promised : Type 0
    Promised =
        (Refused a bytes × (allocator_alloc a bytes ≡ (0, a)))
        ⊎ ((start : ℕ) × Allocated a bytes start (allocator_alloc a bytes))

    alloc_searched :
        (r : ℤ)
        → search ≡ r
        → bytes ≢ 0
        → blocks_for bytes ≡ needed bytes
        → Finds a.bitmap alloc_total_blocks (needed bytes) r
        → Promised
    alloc_searched (negsuc zero) e ne size f = inl (inr (inl f), alloc_failed (inr e))
    alloc_searched (negsuc (suc m)) e ne size f = absurd f
    alloc_searched (pos start) e ne size f = elim (dec_lt a.num_allocations max_allocations) [
      | no full ↦
          inl (inr (inr (omega (arith, v.count))), alloc_found ne e ∙ ground (arith, v.count))
      | yes room ↦
          let result : allocator_alloc a bytes ≡ commit a start (needed bytes) =
            alloc_found ne e ∙ ground arith in
          inr (start, rw result (commit-Allocated bytes start f (omega arith) room))
    ]

    -- `allocator_alloc` of a valid allocator refuses, returning NULL and changing nothing, only if
    -- the request is for no bytes, or no free region in the pool holds it, or the table is full.
    -- Else it returns the address of the first free region that holds the bytes, in whole blocks
    -- rounded up, marks just these blocks, adds just that entry to the table, and leaves the
    -- allocator valid. The request is any `size_t`, also one whose rounding up wraps.
    pub allocator_alloc_lem :
        bytes < size_mod
        → (Refused a bytes × (allocator_alloc a bytes ≡ (0, a)))
          ⊎ ((start : ℕ) × Allocated a bytes start (allocator_alloc a bytes))
    allocator_alloc_lem small = elim (ℕ_discrete bytes 0) [
      | yes none_asked ↦ inl (inl none_asked, alloc_failed {m = 0} (inl none_asked))
      | no ne ↦ elim (dec_lt (bytes + (alloc_block_size - 1)) size_mod) [
        | yes fits ↦
            let size : blocks_for bytes ≡ needed bytes = unfold blocks_for in omega arith in
            alloc_searched search refl ne size (
              rw (size, v.blocks)
                (bm_find_free_region-Finds a.bitmap alloc_total_blocks (needed bytes) (omega arith)
                  (omega arith)))
        | no wraps ↦
            let size : blocks_for bytes ≡ 0 = unfold blocks_for in omega arith in
            inl (
              inr (inl (λ t h. absurd (omega arith))),
              alloc_failed {m = 0}
                  (inr (rw size (bm_find_free_region-zero a.bitmap a.total_blocks))),
            )
      ]
    ]

    -- `allocator_alloc` keeps the invariant, whatever it returns.
    pub allocator_alloc-IsValid : bytes < size_mod → IsValid (allocator_alloc a bytes).1
    allocator_alloc-IsValid small = elim (allocator_alloc_lem small) [
      | inl (_, e) ↦ rw e v
      | inr (_, r) ↦ r.valid
    ]
