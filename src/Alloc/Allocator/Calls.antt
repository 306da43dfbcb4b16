-- ===== src/Alloc/Allocator/Calls.antt =====
-- Sequences of calls: what a client sees of an allocation, of its release and of a second release,
-- and the invariant of every state that calls reach.
use otus_work.Base.{ℕ, ◌%◌, ◌<◌, ◌≡◌, ◌≢◌, sym, ◌∙◌, ap, arith, List, [], ◌∷◌, inl, inr, ℕ_discrete}
use otus_work.Alloc.Bitmap.{size_mod, bm_test_bit}
use otus_work.Alloc.Allocator.{
  Status, ok, invalid, not_found, MemoryAllocator, allocator_alloc, allocator_free,
}
use otus_work.Alloc.Allocator.Table.{entry}
use otus_work.Alloc.Allocator.Invariant.{IsValid}
use otus_work.Alloc.Allocator.Disjoint.{Disjoint, live-Disjoint, ptr_ne}
use otus_work.Alloc.Allocator.Alloc.{allocator_alloc_lem, allocator_alloc-IsValid, Allocated}
use otus_work.Alloc.Allocator.Free.{allocator_free_lem, allocator_free-IsValid, Freed}

-- `b` has the live entries and the bits of `a`.
pub record IsRestored (a b : MemoryAllocator) : Type 0 where
  pub count : b.num_allocations ≡ a.num_allocations
  pub entries : (i : ℕ) → i < a.num_allocations → entry b.allocations i ≡ entry a.allocations i
  pub bits : (j : ℕ) → bm_test_bit b.bitmap j ≡ bm_test_bit a.bitmap j
  pub valid : IsValid b

ne_invalid : invalid ≢ ok
ne_invalid e = cc

ne_not_found : not_found ≢ ok
ne_not_found e = cc

module _ {a : MemoryAllocator} (v : IsValid a) where
  -- The entry that is freed is the one that the allocation added.
  module _ {bytes start i : ℕ} {r : ℕ × MemoryAllocator} {s : Status × MemoryAllocator}
      (granted : Allocated a bytes start r) (freed : Freed r.1 r.0 i s) where
    freed_added : i ≡ a.num_allocations
    freed_added = elim (ℕ_discrete i a.num_allocations) [
      | yes e ↦ e
      | no ne ↦ absurd (
          ptr_ne granted.valid i a.num_allocations freed.live (omega (arith, granted.counted)) ne
            (freed.named ∙ sym (ap (λ e. e.ptr) granted.recorded)))
    ]

    restored_count : s.1.num_allocations ≡ a.num_allocations
    restored_count = omega (arith, granted.counted, freed.counted)

    restored : IsRestored a s.1
    restored = record {
      count = restored_count;
      entries = λ k h.
          freed.kept k (omega (arith, restored_count))
          ∙ ground (arith, freed_added, granted.kept k h);
      bits = λ j. ground (
        arith,
        freed.cleared j,
        granted.marked j,
        granted.fit.free j,
        freed_added,
        granted.recorded,
        ap (λ k. entry r.1.allocations k) freed_added,
      );
      valid = freed.valid;
    }

  -- An allocation followed by the release of the address that it returned, which is not NULL,
  -- succeeds, and gives back the live entries and the bits that there were before.
  pub free-alloc :
      (bytes : ℕ)
      → bytes < size_mod
      → (allocator_alloc a bytes).0 ≢ 0
      → let (status, b) = allocator_free (allocator_alloc a bytes).1 (allocator_alloc a bytes).0 in
        (status ≡ ok) × IsRestored a b
  free-alloc bytes small found = elim (allocator_alloc_lem v bytes small) [
    | inl (_, e) ↦ absurd (found (ap (λ r. r.0) e))
    | inr (start, granted) ↦ elim (allocator_free_lem granted.valid (allocator_alloc a bytes).0) [
      | inl (e, _) ↦ absurd (found e)
      | inr (inl (_, unknown, _)) ↦ absurd (
          unknown a.num_allocations (omega (arith, granted.counted))
            (ap (λ e. e.ptr) granted.recorded))
      | inr (inr (i, freed)) ↦ (freed.status, restored granted freed)
    ]
  ]

  -- No entry that stays has the address of the freed one.
  Freed-ptr_ne :
      {ptr i : ℕ} {s : Status × MemoryAllocator}
      → Freed a ptr i s
      → (k : ℕ) → k < s.1.num_allocations
      → (entry s.1.allocations k).ptr ≢ ptr
  Freed-ptr_ne {ptr} {i} {s} freed k h e = ground (
    arith,
    freed.kept k h,
    freed.named,
    ptr_ne v s.1.num_allocations i,
    ptr_ne v k i,
    freed.counted,
    freed.live,
  )

  -- A second release of an address that was released with success is refused as not found, and
  -- changes nothing.
  pub free-free :
      (ptr : ℕ)
      → (allocator_free a ptr).0 ≡ ok
      → let b = (allocator_free a ptr).1 in allocator_free b ptr ≡ (not_found, b)
  free-free ptr done = elim (allocator_free_lem v ptr) [
    | inl (_, e) ↦ absurd (ne_invalid (sym (ap (λ r. r.0) e) ∙ done))
    | inr (inl (_, _, e)) ↦ absurd (ne_not_found (sym (ap (λ r. r.0) e) ∙ done))
    | inr (inr (i, freed)) ↦ elim (allocator_free_lem freed.valid ptr) [
      | inl (e, _) ↦ absurd (omega (arith, (v.placed i freed.live).points, v.pool, freed.named))
      | inr (inl (_, _, e)) ↦ e
      | inr (inr (k, again)) ↦ absurd (Freed-ptr_ne freed k again.live again.named)
    ]
  ]

-- A call of a client.
pub data Call : Type 0 where
  alloc : ℕ → Call
  free : ℕ → Call

unfoldable pub call : MemoryAllocator → Call → MemoryAllocator
call a (alloc bytes) = (allocator_alloc a (bytes % size_mod)).1
call a (free ptr) = (allocator_free a ptr).1

unfoldable pub calls : MemoryAllocator → List Call → MemoryAllocator
unfolding call
calls a [] = a
calls a (c ∷ cs) = calls (call a c) cs

call-IsValid : {a : MemoryAllocator} (c : Call) → IsValid a → IsValid (call a c)
unfolding call
call-IsValid (alloc bytes) v = allocator_alloc-IsValid v (bytes % size_mod) (omega arith)
call-IsValid (free ptr) v = allocator_free-IsValid v ptr

calls-IsValid : {a : MemoryAllocator} (cs : List Call) → IsValid a → IsValid (calls a cs)
unfolding calls
calls-IsValid {a} [] v = v
calls-IsValid {a} (c ∷ cs) v = calls-IsValid {a = call a c} cs (call-IsValid c v)

-- After any sequence of allocations and releases, of any sizes and addresses, any two of the
-- allocations that are live in the state reached hold disjoint bytes, if the first state is valid.
pub calls-Disjoint :
    {a : MemoryAllocator} (cs : List Call)
    → IsValid a
    → (i k : ℕ) → i < k
    → k < (calls a cs).num_allocations
    → Disjoint (entry (calls a cs).allocations i) (entry (calls a cs).allocations k)
calls-Disjoint cs v i k h below = live-Disjoint (calls-IsValid cs v) i k h below
