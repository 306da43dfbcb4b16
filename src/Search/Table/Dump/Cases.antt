-- ===== src/Search/Table/Dump/Cases.antt =====
-- What `ht_bucket_dump` of Linux_kernel/HW_06_binary_hashtable/src/search.c returns and writes in each case.
use otus_work.Base.{
  ℕ, ◌-◌, ◌^◌, ◌<◌, ◌≤◌, ◌≡◌, ◌≢◌, Bool, true, false, List, [], ◌++◌, map, length, take, ◌⊎◌,
}
use otus_work.Base.Int.{ℤ, pos}
use otus_work.Kernel.Buckets.{Buckets}
use otus_work.Kernel.Hashtable.{contains}
use otus_work.Kernel.Sort.{Sort, SortLaws, IsSorted}
use otus_work.Search.Table.{bs_invalid, bs_nomem, BucketSearchCtx, cmp_entry_ptr}
use otus_work.Search.Table.Dump.{Format, all_values}

module _ (size : ℕ) (small : size < 2 ^ 64 - 1) where
  module _ (h : Buckets) (srt : Sort) (sort_laws : SortLaws srt) (fmt : Format) where
    -- The bucket's entries in the order of the text.
    abbrev pub in_order : BucketSearchCtx h → ℕ → List ℕ
    in_order c b = srt.sort (cmp_entry_ptr c.heap) (h.bucket b c.htable)

    -- What a dump of a bucket with entries promises.
    pub record IsDump (c : BucketSearchCtx h) (b : ℕ) (r : ℤ × List ℕ) : Type 0 where
      pub sorted : IsSorted (cmp_entry_ptr c.heap) (in_order c b)
      pub same : (n : ℕ) → contains n (in_order c b) ≡ contains n (h.bucket b c.htable)
      pub length_told : r.0 ≡ pos (length r.1)
      pub written :
          r.1
          ≡ take size (
              fmt.head b (length (h.bucket b c.htable))
              ++ (all_values fmt.value (map c.heap (in_order c b)) ++ fmt.newline))

    -- What `ht_bucket_dump` promises in each case.
    abbrev pub Dumped : Bool → BucketSearchCtx h → ℕ → ℤ × List ℕ → Type 0
    Dumped kmalloc_array c b r =
        ((64 ≤ b) × (r ≡ (bs_invalid, [])))
        ⊎ ((b < 64)
            × (h.bucket b c.htable ≡ [])
            × (r ≡ (pos (length (take size (fmt.no_entry b))), take size (fmt.no_entry b))))
        ⊎ ((b < 64) × (h.bucket b c.htable ≢ []) × (kmalloc_array ≡ false) × (r ≡ (bs_nomem, [])))
        ⊎ ((b < 64) × (h.bucket b c.htable ≢ []) × (kmalloc_array ≡ true) × IsDump c b r)
