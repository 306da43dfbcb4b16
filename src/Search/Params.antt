-- ===== src/Search/Params.antt =====
-- Linux_kernel/HW_06_binary_hashtable/src/params.c and main.c: the parameters and the module's init and
-- exit. `g_ctx` is passed in and returned, and is `none` for NULL; `kstrtouint` is a parameter: the
-- number that a text spells, or `none`; a text that is NULL is `none`.
use otus_work.Base.{
  ◌-◌, take, length, ℕ, ◌==◌, leb, Bool, Option, none, some, List, [], ◌∷◌, if◌then◌else◌,
}
use otus_work.Base.Int.{ℤ, pos, eqb_ℤ, ltb_ℤ}
use otus_work.Kernel.{einval, enomem, page_size, text, newline, dec, Reply, fail, shown}
use otus_work.Kernel.Buckets.{Buckets}
use otus_work.Kernel.Sort.{Sort}
use otus_work.Search.Table.Dump.{Format, ht_bucket_dump}
use otus_work.Search.Table.{
  bs_ok, hash_table_bits, hash_table_size, BucketSearchCtx, ht_search, ht_build, ht_rebuild,
}

module _ (h : Buckets) (kstrtouint : List ℕ → Option ℕ) where
  unfoldable pub param_set_search :
      Sort → Bool → Option (List ℕ) → Option (BucketSearchCtx h) → ℤ × Option (BucketSearchCtx h)
  param_set_search srt kmalloc_array none g_ctx = (einval, g_ctx)
  param_set_search srt kmalloc_array (some val) none = (einval, none)
  param_set_search srt kmalloc_array (some val) (some c) = elim (kstrtouint val) [
    | none ↦ (einval, some c)
    | some x ↦ let (ret, c') = ht_search h srt kmalloc_array x (some c) in (pos 0, c')
  ]

  unfoldable pub param_set_rebuild :
      (ℕ → ℕ)
      → (ℕ → List ℕ → Option ℕ)
      → Option (List ℕ)
      → Option (BucketSearchCtx h)
      → ℤ × Option (BucketSearchCtx h)
  param_set_rebuild random kmalloc none g_ctx = (einval, g_ctx)
  param_set_rebuild random kmalloc (some val) none = (einval, none)
  param_set_rebuild random kmalloc (some val) (some c) = elim (kstrtouint val) [
    | none ↦ (einval, some c)
    | some v ↦
        let (ret, c') = ht_rebuild h random kmalloc (some c) in
        if v == 0 then (pos 0, some c) else if eqb_ℤ ret bs_ok then (pos 0, c') else (ret, c')
  ]

  unfoldable pub param_set_bucket_id :
      Option (List ℕ) → Option (BucketSearchCtx h) → ℤ × Option (BucketSearchCtx h)
  param_set_bucket_id none g_ctx = (einval, g_ctx)
  param_set_bucket_id (some val) none = (einval, none)
  param_set_bucket_id (some val) (some c) = elim (kstrtouint val) [
    | none ↦ (einval, some c)
    | some id ↦
        if leb hash_table_size id
        then (einval, some c)
        else (pos 0, some (record c { current_bucket_id = id }))
  ]

module _ (h : Buckets) where
  -- "found=%d value=%u bucket=%u\n"
  unfoldable pub param_get_result : Bool → Option (BucketSearchCtx h) → Reply
  param_get_result buf none = fail einval
  param_get_result buf (some c) =
      if buf
      then shown (
          text "found="
          ∷ dec (pos c.last_found)
          ∷ text " value="
          ∷ dec (pos c.last_value)
          ∷ text " bucket="
          ∷ dec (pos c.last_bucket)
          ∷ newline
          ∷ [])
      else fail einval

  -- The context after `kzalloc` and the assignments of `kernel_hashtable_init`.
  abbrev pub new_context : ℕ → (ℕ → ℕ) → BucketSearchCtx h
  new_context array_size heap = record {
    array_size = array_size;
    num_buckets_bits = hash_table_bits;
    htable = h.init;
    last_found = 0;
    last_value = 0;
    last_bucket = 0;
    current_bucket_id = 0;
    heap = heap;
  }

  -- `kzalloc` says whether the context was allocated.
  unfoldable pub kernel_hashtable_init :
      (ℕ → ℕ) → (ℕ → List ℕ → Option ℕ) → Bool → ℕ → (ℕ → ℕ) → ℤ × Option (BucketSearchCtx h)
  kernel_hashtable_init random kmalloc kzalloc array_size heap =
      let (ret, g_ctx) = ht_build h random kmalloc (some (new_context array_size heap)) in
      if array_size == 0
      then (einval, none)
      else if kzalloc
      then (if eqb_ℤ ret bs_ok then (pos 0, g_ctx) else (ret, none))
      else (enomem, none)

  -- The second part is the nodes that `ht_clear` frees before the context is freed.
  unfoldable pub kernel_hashtable_exit :
      Option (BucketSearchCtx h) → Option (BucketSearchCtx h) × List ℕ
  kernel_hashtable_exit none = (none, [])
  kernel_hashtable_exit (some c) = (none, h.nodes c.htable)

-- `error_text` is how `scnprintf` spells "error: invalid bucket_id=%u\n"; it writes all but the last byte
-- of a page.
unfoldable pub param_get_bucket_dump :
    (h : Buckets)
    → Sort
    → Format
    → (ℕ → List ℕ)
    → Bool
    → Bool
    → Option (BucketSearchCtx h)
    → ℤ × List ℕ
param_get_bucket_dump h srt fmt error_text kmalloc_array buf none = (einval, [])
param_get_bucket_dump h srt fmt error_text kmalloc_array buf (some c) =
    let (ret, out) =
      ht_bucket_dump h srt fmt kmalloc_array (some c) c.current_bucket_id page_size in
    let shown_error = take (page_size - 1) (error_text c.current_bucket_id) in
    if buf
    then (if ltb_ℤ ret (pos 0) then (pos (length shown_error), shown_error) else (ret, out))
    else (einval, [])
