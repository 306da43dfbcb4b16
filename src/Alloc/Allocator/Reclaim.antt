-- ===== src/Alloc/Allocator/Reclaim.antt =====
-- A client that releases what it holds gets the whole pool back.
use otus_work.Base.{ℕ, zero, suc, ◌<◌, ◌≤◌, ◌≡◌, refl, ap, ◌∙◌, inl, inr, arith, ℕ_discrete}
use otus_work.Alloc.Bitmap.Search.{IsFree}
use otus_work.Alloc.Allocator.{
  alloc_total_size, alloc_total_blocks, MemoryAllocator, allocator_alloc, allocator_free,
}
use otus_work.Alloc.Allocator.Table.{entry, cover}
use otus_work.Alloc.Allocator.Invariant.{IsValid}
use otus_work.Alloc.Allocator.Alloc.{allocator_alloc_lem}
use otus_work.Alloc.Allocator.Free.{Freed, allocator_free_lem}

-- As many releases, each of the address in the first entry of the table.
unfoldable pub release_first : ℕ → MemoryAllocator → MemoryAllocator
release_first zero a = a
release_first (suc n) a = release_first n (allocator_free a (entry a.allocations 0).ptr).1

module _ {a : MemoryAllocator} (v : IsValid a) where
  -- The release of a live address succeeds.
  free_first :
      0 < a.num_allocations
      → (i : ℕ) × Freed a
          (entry a.allocations 0).ptr
          i
          (allocator_free a (entry a.allocations 0).ptr)
  free_first some_live = elim (allocator_free_lem v (entry a.allocations 0).ptr) [
    | inl (null, _) ↦ absurd (omega (arith, (v.placed 0 some_live).points, v.pool))
    | inr (inl (_, unknown, _)) ↦ absurd (unknown 0 some_live refl)
    | inr (inr freed) ↦ freed
  ]

  -- With no live allocation the whole pool is free.
  all_free : a.num_allocations ≡ 0 → IsFree a.bitmap 0 alloc_total_blocks
  unfolding cover
  all_free none_live k from below = v.exact k below ∙ ap (λ n. cover a.allocations n k) none_live

  -- A request of at most the pool is then granted, at the start of the pool.
  alloc_all_free :
      (bytes : ℕ)
      → a.num_allocations ≡ 0
      → 0 < bytes
      → bytes ≤ alloc_total_size
      → (allocator_alloc a bytes).0 ≡ a.memory_pool
  alloc_all_free bytes none_live some_bytes fits =
      let free = all_free none_live in
      elim (allocator_alloc_lem v bytes (omega arith)) [
        | inl (inl nothing, _) ↦ absurd (omega arith)
        | inl (inr (inl no_room), _) ↦
            absurd (no_room 0 (omega arith) (λ k from below. free k from (omega arith)))
        | inl (inr (inr full), _) ↦ absurd (omega arith)
        | inr (start, granted) ↦ elim (ℕ_discrete start 0) [
          | yes e ↦ omega (arith, granted.pointer)
          | no ne ↦
              absurd (granted.fit.first 0 (omega arith) (λ k from below. free k from (omega arith)))
        ]
      ]

-- What is left after the releases: no live allocation, in the same pool.
pub record IsReclaimed (a b : MemoryAllocator) : Type 0 where
  pub none_live : b.num_allocations ≡ 0
  pub same_pool : b.memory_pool ≡ a.memory_pool
  pub valid : IsValid b

release_first-IsReclaimed :
    (n : ℕ) (a : MemoryAllocator)
    → IsValid a
    → a.num_allocations ≡ n
    → IsReclaimed a (release_first n a)
unfolding release_first
release_first-IsReclaimed zero a v e = record { none_live = e; same_pool = refl; valid = v }
release_first-IsReclaimed (suc n) a v e =
    let (i, freed) = free_first v (omega arith) in
    let rest =
      release_first-IsReclaimed n (allocator_free a (entry a.allocations 0).ptr).1 freed.valid
        (omega (arith, freed.counted)) in
    record {
      none_live = rest.none_live;
      same_pool = rest.same_pool ∙ freed.same_pool;
      valid = rest.valid;
    }

-- From any valid state, the release of the address in the first entry of the table, as often as there
-- are live allocations, leaves none live, and then every request from 1 byte to the 10 MiB of the
-- pool is granted, at the start of the pool.
pub alloc-release_first :
    {a : MemoryAllocator} (bytes : ℕ)
    → IsValid a
    → 0 < bytes
    → bytes ≤ alloc_total_size
    → let b = release_first a.num_allocations a in
      (b.num_allocations ≡ 0) × ((allocator_alloc b bytes).0 ≡ a.memory_pool)
alloc-release_first {a} bytes v some_bytes fits =
    let r = release_first-IsReclaimed a.num_allocations a v refl in
    (r.none_live, alloc_all_free r.valid bytes r.none_live some_bytes fits ∙ r.same_pool)
