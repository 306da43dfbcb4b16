-- ===== src/Alloc/Files/Loaded.antt =====
-- The module from its load on: `kernel_alloc_init`, then any reads and writes of its parameters.
use otus_work.Base.{
  ℕ, ◌+◌, ◌-◌, ◌*◌, ◌<◌, ◌≤◌, ◌≡◌, refl, ap, ◌∙◌, Option, some, List, [], ◌∷◌, take, length, inl,
  inr, arith, Option-cases, Bool-cases, ◌/◌, ◌==◌,
}
use otus_work.Base.Int.{pos}
use otus_work.Kernel.{page_size, enomem, text, newline, dec, Reply, shown}
use otus_work.Kernel.Files.{Access, access, accesses, read, got}
use otus_work.Kernel.Files.Laws.{Keeps, AllGiven-Unit, accesses-keeps}
use otus_work.Alloc.Bitmap.{size_mod}
use otus_work.Alloc.Allocator.{
  MemoryAllocator, alloc_total_size, alloc_block_size, alloc_total_blocks, allocator_alloc,
  allocator_init, allocator_get_stats,
}
use otus_work.Alloc.Allocator.Table.{entry}
use otus_work.Alloc.Allocator.Invariant.{IsValid, Promises, allocator_init-IsValid}
use otus_work.Alloc.Allocator.Alloc.{allocator_alloc-IsValid}
use otus_work.Alloc.Allocator.Free.{allocator_free-IsValid}
use otus_work.Alloc.Allocator.Disjoint.{Disjoint, live-Disjoint}
use otus_work.Alloc.Allocator.Stats.{live_blocks, allocator_get_stats_lem}
use otus_work.Alloc.Allocator.Info.{Format, info_text, allocator_bitmap_info_lem}
use otus_work.Alloc.Params.{
  init_result, param_set_alloc, param_set_free, param_get_stats, param_get_bitmap_info,
  kernel_alloc_init,
}
use otus_work.Alloc.Files.{Parameter, alloc, free, stats, bitmap_info, parameters}

module _ (kstrtoul : List ℕ → Option ℕ)
    (small : (t : List ℕ) (n : ℕ) → kstrtoul t ≡ some n → n < size_mod) (fmt : Format) where
  set_alloc-IsValid :
      (val : List ℕ) (a : MemoryAllocator)
      → IsValid a
      → IsValid (param_set_alloc kstrtoul (some val) a).1
  unfolding param_set_alloc
  set_alloc-IsValid val a v = elim (Option-cases (kstrtoul val)) [
    | inl e ↦ rw (e, param_set_alloc) v
    | inr (bytes, e) ↦
        rw (e, param_set_alloc)
          (let valid = allocator_alloc-IsValid v bytes (small val bytes e) in
            elim (Bool-cases ((allocator_alloc a bytes).0 == 0)) [
              | inl null ↦ rw null valid
              | inr given ↦ rw given valid
            ])
  ]

  set_free-IsValid :
      (val : List ℕ) (a : MemoryAllocator)
      → IsValid a
      → IsValid (param_set_free kstrtoul (some val) a).1
  unfolding param_set_free
  set_free-IsValid val a v = elim (Option-cases (kstrtoul val)) [
    | inl e ↦ rw (e, param_set_free) v
    | inr (addr, e) ↦ rw (e, param_set_free) (allocator_free-IsValid v addr)
  ]

  parameters-keep : (p : Parameter) → Keeps (λ _. Unit {0}) IsValid (parameters kstrtoul fmt p)
  parameters-keep alloc = record { set = λ _ val a _ v. set_alloc-IsValid val a v; get = tt }
  parameters-keep free = record { set = λ _ val a _ v. set_free-IsValid val a v; get = tt }
  parameters-keep stats = record { set = tt; get = λ _ a _ v. v }
  parameters-keep bitmap_info = record { set = tt; get = λ _ a _ v. v }

  -- From a valid allocator on, every sequence of accesses leaves a valid one.
  accesses-IsValid :
      (xs : List (Access Parameter (Unit {0}))) (a : MemoryAllocator)
      → IsValid a
      → IsValid (accesses (parameters kstrtoul fmt) xs a).1
  accesses-IsValid xs a v =
      accesses-keeps (λ _. Unit {0}) IsValid (parameters kstrtoul fmt) parameters-keep xs a
        (AllGiven-Unit xs) v

  init-IsValid :
      (kzalloc : ℕ → Option (List ℕ)) (vzalloc : ℕ → ℕ)
      → Promises kzalloc vzalloc
      → (kernel_alloc_init kzalloc vzalloc).0 ≡ pos 0
      → IsValid (kernel_alloc_init kzalloc vzalloc).1
  unfolding kernel_alloc_init
  init-IsValid kzalloc vzalloc p done = elim (allocator_init-IsValid kzalloc vzalloc p) [
    | inl (_, v, _, _) ↦ v
    | inr (failed, _, _, _) ↦ absurd (
        let refused : init_result (allocator_init kzalloc vzalloc).0 ≡ enomem =
          ap init_result failed in
        cc)
  ]

  -- "Total: … KB | Free: … KB | Allocated: … KB | Fragmentation: …%"
  abbrev pub stats_text : ℕ → ℕ → ℕ → ℕ → Reply
  stats_text total_kb free_kb allocated_kb fragmentation = shown (
      text "Total: "
      ∷ dec (pos total_kb)
      ∷ text " KB | Free: "
      ∷ dec (pos free_kb)
      ∷ text " KB | Allocated: "
      ∷ dec (pos allocated_kb)
      ∷ text " KB | Fragmentation: "
      ∷ dec (pos fragmentation)
      ∷ text "%"
      ∷ newline
      ∷ [])

  -- What a user of the module can rely on in a state `a`.
  pub record IsSound (a : MemoryAllocator) : Type 0 where
    pub disjoint :
        (i k : ℕ)
        → i < k
        → k < a.num_allocations
        → Disjoint (entry a.allocations i) (entry a.allocations k)
    pub inside :
        (i : ℕ)
        → i < a.num_allocations
        → let e = entry a.allocations i in
          (a.memory_pool ≤ e.ptr)
          × (e.ptr + e.num_blocks * alloc_block_size ≤ a.memory_pool + alloc_total_size)
    pub stats_shown :
        let blocks = live_blocks a.allocations a.num_allocations in
        (f : ℕ) × (f < 100)
        × ((access (parameters kstrtoul fmt) (read stats tt) a).0
            ≡ got (inl (stats_text 10240 ((alloc_total_blocks - blocks) * 4) (blocks * 4) f)))
    pub info_shown :
        let shown_text = take (page_size - 1) (info_text fmt a) in
        (access (parameters kstrtoul fmt) (read bitmap_info tt) a).0
        ≡ got (inr (pos (length shown_text), shown_text))

  module _ {a : MemoryAllocator} (v : IsValid a) where
    IsValid-inside :
        (i : ℕ)
        → i < a.num_allocations
        → let e = entry a.allocations i in
          (a.memory_pool ≤ e.ptr)
          × (e.ptr + e.num_blocks * alloc_block_size ≤ a.memory_pool + alloc_total_size)
    IsValid-inside i h = (omega (arith, v.placed i h), omega (arith, v.placed i h))

    stats_of :
        let blocks = live_blocks a.allocations a.num_allocations in
        (f : ℕ) × (f < 100)
        × (param_get_stats a ≡ stats_text 10240 ((alloc_total_blocks - blocks) * 4) (blocks * 4) f)
    unfolding param_get_stats
    stats_of =
        let s = allocator_get_stats a in
        let (live, split, total, allocated, sum, small) = allocator_get_stats_lem v in
        let kb_total : s.total_memory / 1024 ≡ 10240 = omega (arith, total) in
        let kb_free : s.free_memory / 1024
            ≡ (alloc_total_blocks - live_blocks a.allocations a.num_allocations) * 4 =
          omega (arith, total, sum, allocated, live) in
        let kb_used : s.allocated_memory / 1024 ≡ live_blocks a.allocations a.num_allocations * 4 =
          omega (arith, allocated, live) in
        (s.fragmentation_percent, small, rw (kb_total, kb_free, kb_used) refl)

    info_of :
        let whole = take (page_size - 1) (info_text fmt a) in
        param_get_bitmap_info fmt a ≡ (pos (length whole), whole)
    unfolding param_get_bitmap_info
    info_of =
        let (len, out) = allocator_bitmap_info_lem fmt (page_size - 1) v in
        let told = len ∙ ap (λ t. pos (length t)) out in λ i. (told i, out i)

    IsValid-IsSound : IsSound a
    unfolding access
    IsValid-IsSound = record {
      disjoint = live-Disjoint v;
      inside = IsValid-inside;
      stats_shown = let (f, small, e) = stats_of in (f, small, ap (λ r. got (inl r)) e);
      info_shown = ap (λ r. got (inr r)) info_of;
    }

  -- After an init that returns 0 and any reads and writes of the parameters, any two live allocations
  -- hold disjoint bytes of the pool; `stats` shows the sizes of the live allocations and of the
  -- rest of the pool's 10240 KB, and a fragmentation below 100 percent; and `bitmap_info` shows
  -- the text of the table of allocations, cut to a page less one byte. What `kstrtoul` reads has
  -- 64 bits, and the buffers are zeroed and lie in the address space.
  pub accesses-kernel_alloc_init :
      (kzalloc : ℕ → Option (List ℕ)) (vzalloc : ℕ → ℕ) (xs : List (Access Parameter (Unit {0})))
      → Promises kzalloc vzalloc
      → (kernel_alloc_init kzalloc vzalloc).0 ≡ pos 0
      → IsSound (accesses (parameters kstrtoul fmt) xs (kernel_alloc_init kzalloc vzalloc).1).1
  accesses-kernel_alloc_init kzalloc vzalloc xs p done = IsValid-IsSound (
      accesses-IsValid xs (kernel_alloc_init kzalloc vzalloc).1
        (init-IsValid kzalloc vzalloc p done))
