-- ===== src/Search/Table.antt =====
-- Linux_kernel/HW_06_binary_hashtable/src/build.c and search.c (its dump is in Dump). The table holds
-- pointers to entries, whose values are in the heap of the context. A context that is NULL is `none`.
pub mod Order
pub mod Find
pub mod Build
pub mod Dump
use otus_work.Base.{
  ℕ, zero, suc, ◌+◌, ◌%◌, ◌^◌, Bool, Option, none, some, List, [], ◌∷◌, ◌==◌, ltb, leb, length,
  if◌then◌else◌,
}
use otus_work.Base.Int.{ℤ, pos, negsuc, ltb_ℤ}
use otus_work.Kernel.{einval, enomem, enoent}
use otus_work.Kernel.Buckets.{Buckets}
use otus_work.Kernel.Sort.{Sort}

abbrev pub bs_ok : ℤ
bs_ok = pos 0

abbrev pub bs_invalid : ℤ
bs_invalid = einval

abbrev pub bs_nomem : ℤ
bs_nomem = enomem

abbrev pub bs_not_found : ℤ
bs_not_found = enoent

abbrev pub hash_table_bits : ℕ
hash_table_bits = 6

abbrev pub hash_table_size : ℕ
hash_table_size = 2 ^ hash_table_bits

-- A write of `entry->value`.
unfoldable pub store : ℕ → ℕ → (ℕ → ℕ) → ℕ → ℕ
store n value heap m = if n == m then value else heap m

unfoldable pub cmp_entry_ptr : (ℕ → ℕ) → ℕ → ℕ → ℤ
cmp_entry_ptr heap a b =
    if ltb (heap a) (heap b) then negsuc 0 else if ltb (heap b) (heap a) then pos 1 else pos 0

unfoldable pub cmp_key_entry : (ℕ → ℕ) → ℕ → ℕ → ℤ
cmp_key_entry heap k e =
    if ltb k (heap e) then negsuc 0 else if ltb (heap e) k then pos 1 else pos 0

module _ (h : Buckets) where
  pub record BucketSearchCtx : Type 0 where
    pub array_size : ℕ
    pub num_buckets_bits : ℕ
    pub htable : h.Table
    pub last_found : ℕ
    pub last_value : ℕ
    pub last_bucket : ℕ
    pub current_bucket_id : ℕ
    pub heap : ℕ → ℕ

  unfoldable pub delete_all : List ℕ → h.Table → h.Table
  delete_all [] t = t
  delete_all (n ∷ ns) t = delete_all ns (h.del n t)

  -- `ht_clear` of a context that is there: each node is taken out and freed.
  unfoldable pub clear : BucketSearchCtx → BucketSearchCtx
  clear c = record c { htable = delete_all (h.nodes c.htable) c.htable }

  unfoldable pub ht_clear : Option BucketSearchCtx → Option BucketSearchCtx
  ht_clear none = none
  ht_clear (some c) = some (clear c)

  -- The loop of `ht_build`, `rounds` rounds from `i` on. `random` gives the `i`-th random number, and
  -- `kmalloc` the address of the `i`-th new entry, beside the nodes in the table, or `none`.
  unfoldable pub build_from :
      (ℕ → ℕ) → (ℕ → List ℕ → Option ℕ) → ℕ → ℕ → BucketSearchCtx → ℤ × BucketSearchCtx
  build_from random kmalloc zero i c = (bs_ok, c)
  build_from random kmalloc (suc rounds) i c = elim (kmalloc i (h.nodes c.htable)) [
    | none ↦ (bs_nomem, clear c)
    | some n ↦
        let val = random i % c.array_size in
        build_from random kmalloc rounds (i + 1)
          (record c { heap = store n val c.heap; htable = h.add val n c.htable })
  ]

  unfoldable pub ht_build :
      (ℕ → ℕ) → (ℕ → List ℕ → Option ℕ) → Option BucketSearchCtx → ℤ × Option BucketSearchCtx
  ht_build random kmalloc none = (bs_invalid, none)
  ht_build random kmalloc (some c) =
      let (ret, c') = build_from random kmalloc c.array_size 0 c in (ret, some c')

  unfoldable pub ht_rebuild :
      (ℕ → ℕ) → (ℕ → List ℕ → Option ℕ) → Option BucketSearchCtx → ℤ × Option BucketSearchCtx
  ht_rebuild random kmalloc none = (bs_invalid, none)
  ht_rebuild random kmalloc (some c) =
      ht_build random kmalloc (some (record (clear c) { htable = h.init }))

  -- The number of entries or an error, and the array.
  unfoldable pub collect_bucket : Bool → BucketSearchCtx → ℕ → ℤ × List ℕ
  collect_bucket kmalloc_array c bucket =
      let ns = h.bucket bucket c.htable in
      if leb hash_table_size bucket
      then (bs_invalid, [])
      else if length ns == 0
      then (pos 0, [])
      else if kmalloc_array
      then (pos (length ns), ns)
      else (bs_nomem, [])

  -- The last part of `ht_search`: the array is sorted and searched.
  unfoldable pub search_array : Sort → ℕ → List ℕ → BucketSearchCtx → ℤ × BucketSearchCtx
  search_array srt x arr c =
      elim (srt.bsearch (cmp_key_entry c.heap x) (srt.sort (cmp_entry_ptr c.heap) arr)) [
        | some found ↦ (bs_ok, record c { last_found = 1 })
        | none ↦ (bs_not_found, record c { last_found = 0 })
      ]

  -- What `ht_search` does with the bucket of `x`, once the context names it.
  unfoldable pub search_bucket : Sort → Bool → ℕ → BucketSearchCtx → ℤ × BucketSearchCtx
  unfolding search_array
  search_bucket srt kmalloc_array x c =
      let (len, arr) = collect_bucket kmalloc_array c c.last_bucket in
      if ltb_ℤ len (pos 0)
      then (len, c)
      else if length arr == 0
      then (bs_not_found, c)
      else search_array srt x arr c

  -- `ht_search` of a context that is there.
  unfoldable pub search_ctx : Sort → Bool → ℕ → BucketSearchCtx → ℤ × BucketSearchCtx
  search_ctx srt kmalloc_array x c =
      let c₁ = record c { last_found = 0; last_value = x; last_bucket = 0 } in
      if leb c.array_size x
      then (bs_not_found, c₁)
      else search_bucket srt kmalloc_array x
          (record c₁ { last_bucket = h.hash_min x hash_table_bits })

  unfoldable pub ht_search : Sort → Bool → ℕ → Option BucketSearchCtx → ℤ × Option BucketSearchCtx
  ht_search srt kmalloc_array x none = (bs_invalid, none)
  ht_search srt kmalloc_array x (some c) =
      let (ret, c') = search_ctx srt kmalloc_array x c in (ret, some c')
