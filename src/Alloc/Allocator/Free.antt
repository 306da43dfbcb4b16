-- ===== src/Alloc/Allocator/Free.antt =====
-- `allocator_free`: what it returns on every branch, and that it keeps the invariant.
use otus_work.Base.{
  ℕ, suc, ◌+◌, ◌-◌, ◌<◌, ◌≡◌, ◌≢◌, ◌⊎◌, refl, ap, ◌∙◌, ltb, ◌==◌, if◌then◌else◌, arith, List,
  length, set, length-set, inl, inr, ℕ_discrete, ==_yes, ==_no, subst, Option, none, some,
}
use otus_work.Alloc.Bitmap.{bm_test_bit, bm_clear_region}
use otus_work.Alloc.Bitmap.Region.{within, IsWritten, bm_test_bit-le, bm_clear_region-IsWritten}
use otus_work.Alloc.Allocator.{
  alloc_total_blocks, Status, ok, invalid, not_found, AllocationInfo, MemoryAllocator,
  find_allocation, release, allocator_free,
}
use otus_work.Alloc.Allocator.Table.{
  entry, hit, cover, entry-set, cover-swap_remove, Searched, find_allocation-Searched,
}
use otus_work.Alloc.Allocator.Invariant.{IsPlaced, IsValid}

-- `r` is the result of freeing the entry `i`, which the last entry replaces.
pub record Freed (a : MemoryAllocator) (ptr i : ℕ) (r : Status × MemoryAllocator) : Type 0 where
  pub live : i < a.num_allocations
  pub named : (entry a.allocations i).ptr ≡ ptr
  pub status : r.0 ≡ ok
  pub counted : r.1.num_allocations + 1 ≡ a.num_allocations
  pub same_pool : r.1.memory_pool ≡ a.memory_pool
  pub kept :
      (k : ℕ)
      → k < r.1.num_allocations
      → entry r.1.allocations k
        ≡ (if i == k then entry a.allocations r.1.num_allocations else entry a.allocations k)
  pub cleared :
      let e = entry a.allocations i in
      (j : ℕ)
      → bm_test_bit r.1.bitmap j
        ≡ (if within e.start_block e.num_blocks j then 0 else bm_test_bit a.bitmap j)
  pub valid : IsValid r.1

module _ {a : MemoryAllocator} (v : IsValid a) where
  module _ (i : ℕ) (live : i < a.num_allocations) where
    e : AllocationInfo
    e = entry a.allocations i

    last : ℕ
    last = a.num_allocations - 1

    suc-last : suc last ≡ a.num_allocations
    unfolding last
    suc-last = omega arith

    e-IsPlaced : IsPlaced a.memory_pool e
    unfolding e
    e-IsPlaced = v.placed i live

    written :
        IsWritten 0 e.start_block e.num_blocks a.bitmap
          (bm_clear_region a.bitmap e.start_block e.num_blocks)
    written =
        bm_clear_region-IsWritten a.bitmap e.start_block e.num_blocks
          (omega (arith, e-IsPlaced.inside, v.bitmap_size)) (omega (arith, e-IsPlaced.inside))
          v.bytes

    table : List AllocationInfo
    table = if ltb i last then set a.allocations i (entry a.allocations last) else a.allocations

    entry-table :
        (k : ℕ)
        → k < last
        → entry table k ≡ (if i == k then entry a.allocations last else entry a.allocations k)
    unfolding table last
    entry-table k h =
        ground
          (arith, entry-set a.allocations i k (entry a.allocations last), v.table_size, v.count)

    -- The table loses the cover of the freed entry.
    cover-table : (j : ℕ) → cover table last j + hit e j ≡ cover a.allocations a.num_allocations j
    unfolding table e last
    cover-table j =
        cover-swap_remove a.allocations last i j (omega arith)
          (omega (arith, v.table_size, v.count))
        ∙ ap (λ m. cover a.allocations m j) suc-last

    exact-cleared :
        (j : ℕ)
        → j < alloc_total_blocks
        → bm_test_bit (bm_clear_region a.bitmap e.start_block e.num_blocks) j ≡ cover table last j
    unfolding hit
    exact-cleared j h =
        ground
          (arith, written.reads j, v.exact j h, cover-table j, bm_test_bit-le a.bitmap j v.bytes)

    length-table : length table ≡ length a.allocations
    unfolding table
    length-table = ground (arith, length-set a.allocations i (entry a.allocations last))

    release-IsValid : IsValid (release a i)
    unfolding release table e last
    release-IsValid = record {
      bitmap_size = written.same_length ∙ v.bitmap_size;
      bytes = written.bytes;
      blocks = v.blocks;
      block = v.block;
      pool = v.pool;
      pool_end = v.pool_end;
      table_size = length-table ∙ v.table_size;
      count = omega (arith, v.count);
      placed = λ k h. elim (ℕ_discrete i k) [
        | yes same ↦ rw (entry-table k h, ==_yes same) (v.placed last (omega arith))
        | no other ↦ rw (entry-table k h, ==_no other) (v.placed k (omega arith))
      ];
      exact = exact-cleared;
    }

    release-Freed : Freed a (entry a.allocations i).ptr i (ok, release a i)
    unfolding release table e last
    release-Freed = record {
      live = live;
      named = refl;
      status = refl;
      counted = omega arith;
      same_pool = refl;
      kept = entry-table;
      cleared = written.reads;
      valid = release-IsValid;
    }

  module _ (ptr : ℕ) where
    abbrev search : Option ℕ
    search = find_allocation a.allocations ptr a.num_allocations 0

    free_null : ptr ≡ 0 → allocator_free a ptr ≡ (invalid, a)
    unfolding allocator_free
    free_null e = ground arith

    free_missing : ptr ≢ 0 → search ≡ none → allocator_free a ptr ≡ (not_found, a)
    unfolding allocator_free
    free_missing ne e = rw (==_no ne, e, allocator_free) refl

    free_found : {i : ℕ} → ptr ≢ 0 → search ≡ some i → allocator_free a ptr ≡ (ok, release a i)
    unfolding allocator_free
    free_found ne e = rw (==_no ne, e, allocator_free) refl

    -- No live allocation has this address.
    abbrev IsUnknown : Type 0
    IsUnknown = (k : ℕ) → k < a.num_allocations → (entry a.allocations k).ptr ≢ ptr

    -- What `allocator_free` promises of its result.
    abbrev Promised : Type 0
    Promised =
        ((ptr ≡ 0) × (allocator_free a ptr ≡ (invalid, a)))
        ⊎ ((ptr ≢ 0) × IsUnknown × (allocator_free a ptr ≡ (not_found, a)))
        ⊎ ((i : ℕ) × Freed a ptr i (allocator_free a ptr))

    free_searched :
        (r : Option ℕ)
        → search ≡ r
        → ptr ≢ 0
        → Searched a.allocations ptr 0 a.num_allocations r
        → Promised
    free_searched none e ne s = inr (inl (ne, (λ k h. s k (omega arith) h), free_missing ne e))
    free_searched (some i) e ne s = inr (
        inr (
          i,
          rw (free_found ne e)
              (subst (λ q. Freed a q i (ok, release a i)) s.2 (release-Freed i s.1)),
        ))

    -- `allocator_free` of a valid allocator refuses NULL as invalid and an address that no live
    -- allocation has as not found, and then changes nothing. Else it clears exactly the blocks of the
    -- allocation with that address, takes its entry from the table, where the last entry moves
    -- into its place, and leaves the allocator valid.
    pub allocator_free_lem :
        ((ptr ≡ 0) × (allocator_free a ptr ≡ (invalid, a)))
        ⊎ ((ptr ≢ 0)
            × ((k : ℕ) → k < a.num_allocations → (entry a.allocations k).ptr ≢ ptr)
            × (allocator_free a ptr ≡ (not_found, a)))
        ⊎ ((i : ℕ) × Freed a ptr i (allocator_free a ptr))
    allocator_free_lem = elim (ℕ_discrete ptr 0) [
      | yes null ↦ inl (null, free_null null)
      | no ne ↦ free_searched search refl ne (
          let e : a.num_allocations + 0 ≡ a.num_allocations = omega arith in
          rw e at (find_allocation-Searched a.allocations ptr a.num_allocations 0))
    ]

    -- `allocator_free` keeps the invariant, whatever it returns.
    pub allocator_free-IsValid : IsValid (allocator_free a ptr).1
    allocator_free-IsValid = elim allocator_free_lem [
      | inl (_, e) ↦ rw e v
      | inr (inl (_, _, e)) ↦ rw e v
      | inr (inr (_, r)) ↦ r.valid
    ]
