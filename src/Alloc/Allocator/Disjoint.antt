-- ===== src/Alloc/Allocator/Disjoint.antt =====
-- The live allocations of a valid allocator do not overlap.
use Prim.Native.Nat.{max}
use otus_work.Base.{ℕ, ◌+◌, ◌*◌, ◌<◌, ◌≤◌, ◌≢◌, ◌⊎◌, sym, arith, inl, inr, dec_lt}
use otus_work.Alloc.Bitmap.Region.{bm_test_bit-le}
use otus_work.Alloc.Allocator.{
  alloc_block_size, alloc_total_blocks, AllocationInfo, MemoryAllocator,
}
use otus_work.Alloc.Allocator.Table.{entry, hit, hits-le-cover}
use otus_work.Alloc.Allocator.Invariant.{IsPlaced, IsValid}

-- The bytes of one entry end before those of the other begin.
abbrev pub Disjoint : AllocationInfo → AllocationInfo → Type 0
Disjoint d e =
    (d.ptr + d.num_blocks * alloc_block_size ≤ e.ptr)
    ⊎ (e.ptr + e.num_blocks * alloc_block_size ≤ d.ptr)

module _ {a : MemoryAllocator} (v : IsValid a) where
  module _ (i k : ℕ) (h : i < k) (below : k < a.num_allocations) where
    d : AllocationInfo
    d = entry a.allocations i

    e : AllocationInfo
    e = entry a.allocations k

    d-IsPlaced : IsPlaced a.memory_pool d
    unfolding d
    d-IsPlaced = v.placed i (omega arith)

    e-IsPlaced : IsPlaced a.memory_pool e
    unfolding e
    e-IsPlaced = v.placed k below

    -- No block is covered by both.
    not_both : (j : ℕ) → j < alloc_total_blocks → hit d j + hit e j ≤ 1
    unfolding d e
    not_both j inside = omega (
      arith,
      hits-le-cover a.allocations a.num_allocations i k j h below,
      v.exact j inside,
      bm_test_bit-le a.bitmap j v.bytes,
    )

    apart :
        (d.start_block + d.num_blocks ≤ e.start_block)
        ⊎ (e.start_block + e.num_blocks ≤ d.start_block)
    unfolding hit
    apart =
        let j = max d.start_block e.start_block in
        ground (arith, not_both j, d-IsPlaced, e-IsPlaced)

    -- Any two live allocations of a valid allocator hold disjoint bytes of the pool.
    pub live-Disjoint : Disjoint (entry a.allocations i) (entry a.allocations k)
    unfolding d e
    live-Disjoint = elim apart [
      | inl p ↦ inl (omega (arith, d-IsPlaced.points, e-IsPlaced.points))
      | inr p ↦ inr (omega (arith, d-IsPlaced.points, e-IsPlaced.points))
    ]

    -- So they have different addresses.
    ptr_ne_lt : (entry a.allocations i).ptr ≢ (entry a.allocations k).ptr
    unfolding d e
    ptr_ne_lt same = elim live-Disjoint [
      | inl p ↦ omega (arith, d-IsPlaced.nonempty)
      | inr p ↦ omega (arith, e-IsPlaced.nonempty)
    ]

  pub ptr_ne :
      (i k : ℕ)
      → i < a.num_allocations
      → k < a.num_allocations
      → i ≢ k
      → (entry a.allocations i).ptr ≢ (entry a.allocations k).ptr
  ptr_ne i k hi hk ne = elim (dec_lt i k) [
    | yes less ↦ ptr_ne_lt i k less hk
    | no more ↦ λ same. ptr_ne_lt k i (omega arith) hi (sym same)
  ]
