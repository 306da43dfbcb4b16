-- ===== src/Search/Files/Keeps.antt =====
-- What a build and a search of HW_06_binary_hashtable leave as it is in the context.
use otus_work.Base.{
  ℕ, zero, suc, ◌+◌, ◌≡◌, inl, inr, refl, Bool, true, false, Option, List, ◌==◌, leb, length,
  Option-cases, if◌then◌else◌,
}
use otus_work.Base.Int.{ℤ, pos, ltb_ℤ}
use otus_work.Kernel.Buckets.{Buckets}
use otus_work.Kernel.Sort.{Sort}
use otus_work.Search.Table.{
  BucketSearchCtx, build_from, clear, collect_bucket, search_array, search_bucket, search_ctx,
  hash_table_bits, cmp_entry_ptr, cmp_key_entry, bs_not_found,
}

module _ (h : Buckets) where
  pub build_from-keeps :
      (random : ℕ → ℕ) (kmalloc : ℕ → List ℕ → Option ℕ) (rounds i : ℕ) (c : BucketSearchCtx h)
      → (build_from h random kmalloc rounds i c).1.current_bucket_id ≡ c.current_bucket_id
  unfolding build_from clear
  build_from-keeps random kmalloc zero i c = refl
  build_from-keeps random kmalloc (suc rounds) i c =
      elim (Option-cases (kmalloc i (h.nodes c.htable))) [
        | inl e ↦ rw (e, build_from) refl
        | inr (n, e) ↦ rw (e, build_from) (build_from-keeps random kmalloc rounds (i + 1) _)
      ]

module _ (h : Buckets) (srt : Sort) where
  -- A search changes neither the array size nor the bucket to dump.
  abbrev pub Keeps : BucketSearchCtx h → BucketSearchCtx h → Type 0
  Keeps c c' = (c'.array_size ≡ c.array_size) × (c'.current_bucket_id ≡ c.current_bucket_id)

  if-Keeps :
      (c : BucketSearchCtx h) (b : Bool) (x y : ℤ × BucketSearchCtx h)
      → Keeps c x.1
      → Keeps c y.1
      → Keeps c (if b then x else y).1
  if-Keeps c true x y kx ky = kx
  if-Keeps c false x y kx ky = ky

  search_array-Keeps :
      (x : ℕ) (arr : List ℕ) (c : BucketSearchCtx h) → Keeps c (search_array h srt x arr c).1
  unfolding search_array
  search_array-Keeps x arr c =
      elim (Option-cases
        (srt.bsearch (cmp_key_entry c.heap x) (srt.sort (cmp_entry_ptr c.heap) arr))) [
          | inl e ↦ rw (search_array, e) (refl, refl)
          | inr (n, e) ↦ rw (search_array, e) (refl, refl)
        ]

  pub search_ctx-Keeps :
      (kmalloc_array : Bool) (x : ℕ) (c : BucketSearchCtx h)
      → Keeps c (search_ctx h srt kmalloc_array x c).1
  unfolding search_ctx search_bucket
  search_ctx-Keeps kmalloc_array x c =
      let c₁ : BucketSearchCtx h = record c {
        last_found = 0;
        last_value = x;
        last_bucket = h.hash_min x hash_table_bits;
      } in
      let (len, arr) = collect_bucket h kmalloc_array c₁ c₁.last_bucket in
      if-Keeps c (leb c.array_size x) _ (search_bucket h srt kmalloc_array x c₁) (refl, refl)
        (if-Keeps c (ltb_ℤ len (pos 0)) (len, c₁) _ (refl, refl)
          (if-Keeps c (length arr == 0) (bs_not_found, c₁) (search_array h srt x arr c₁)
            (refl, refl) (search_array-Keeps x arr c₁)))
