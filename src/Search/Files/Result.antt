-- ===== src/Search/Files/Result.antt =====
-- What a search through the parameters shows, whatever was written before it.
use otus_work.Base.{ℕ, ◌≡◌, ◌⊎◌, inl, inr, refl, Bool, true, Option, none, some, List, [], ◌∷◌}
use otus_work.Base.Int.{ℤ, pos}
use otus_work.Kernel.{text, newline, dec, shown, Reply}
use otus_work.Kernel.Buckets.{Buckets, BucketsLaws}
use otus_work.Kernel.Sort.{Sort, SortLaws}
use otus_work.Search.Table.{BucketSearchCtx, search_ctx, ht_search}
use otus_work.Search.Table.Find.{HasValue, ht_search_lem}
use otus_work.Search.Params.{param_set_search, param_get_result, kernel_hashtable_init}
use otus_work.Kernel.Files.{Access, accesses}
use otus_work.Kernel.Files.Laws.{AllGiven}
use otus_work.Search.Table.Dump.{Format}
use otus_work.Search.Files.{Parameter, Given, parameters}
use otus_work.Search.Files.Serving.{Serving, IsGiven, accesses-Serving, init-Serving}

-- The text of `param_get_result`.
abbrev pub result_text : ℕ → ℕ → ℕ → Reply
result_text found value bucket = shown (
    text "found="
    ∷ dec (pos found)
    ∷ text " value="
    ∷ dec (pos value)
    ∷ text " bucket="
    ∷ dec (pos bucket)
    ∷ newline
    ∷ [])

module _ (h : Buckets) where
  param_get_result-text :
      (c : BucketSearchCtx h) (found value : ℕ)
      → c.last_found ≡ found
      → c.last_value ≡ value
      → param_get_result h true (some c) ≡ result_text found value c.last_bucket
  unfolding param_get_result
  param_get_result-text c found value f v = rw (f, v) refl

  -- After a search of `x`: 0 is returned, and the result tells whether an entry has the value.
  abbrev pub Reported : ℕ → Option (BucketSearchCtx h) → ℤ × Option (BucketSearchCtx h) → Type 0
  Reported x none r = ⊥
  Reported x (some c) (ret, g_ctx) =
      (ret ≡ pos 0)
      × (bucket : ℕ) × (((param_get_result h true g_ctx ≡ result_text 1 x bucket) × HasValue h c x)
          ⊎ ((param_get_result h true g_ctx ≡ result_text 0 x bucket) × ¬ HasValue h c x))

module _ (h : Buckets) (kstrtouint : List ℕ → Option ℕ) (srt : Sort) where
  module _ (laws : BucketsLaws 6 h) (sort_laws : SortLaws srt) where
    param_set_search-Reported :
        (val : List ℕ) (x : ℕ) (g_ctx : Option (BucketSearchCtx h))
        → kstrtouint val ≡ some x
        → Serving h g_ctx
        → Reported h x g_ctx (param_set_search h kstrtouint srt true (some val) g_ctx)
    unfolding param_set_search ht_search
    param_set_search-Reported val x none spelled is = elim is [ ]
    param_set_search-Reported val x (some c) spelled is =
        let c' = (search_ctx h srt true x c).1 in
        let (_, _, value, verdict) = ht_search_lem h laws srt sort_laws true x c is.valid in
        rw (spelled, param_set_search)
          (
            refl,
            c'.last_bucket,
            elim verdict [
              | inl (_, one, has) ↦ inl (param_get_result-text h c' 1 x one value, has)
              | inr (inl (_, zip, has_not)) ↦
                  inr (param_get_result-text h c' 0 x zip value, has_not)
              | inr (inr (_, _, failed)) ↦ absurd (cc)
            ],
          )

    -- After an init that returns 0 and any reads and writes of the parameters, a write of search with
    -- the text of a number returns 0, and result then shows found=1 and the number exactly where
    -- an entry of the table has that value, and else found=0 and the number. The array for the
    -- bucket is allocated in that search; no new entry gets the address of an entry in the table;
    -- the kernel's table, `sort` and `bsearch` do as documented.
    pub param_set_search-accesses :
        (fmt : Format) (error_text : ℕ → List ℕ) (given : Given) (kzalloc : Bool) (array_size : ℕ)
        (heap : ℕ → ℕ) (xs : List (Access Parameter Given)) (val : List ℕ) (x : ℕ)
        → IsGiven h kstrtouint srt laws sort_laws given
        → AllGiven (IsGiven h kstrtouint srt laws sort_laws) xs
        → (kernel_hashtable_init h given.random given.kmalloc kzalloc array_size heap).0 ≡ pos 0
        → kstrtouint val ≡ some x
        → let loaded =
            (kernel_hashtable_init h given.random given.kmalloc kzalloc array_size heap).1 in
          let g_ctx = (accesses (parameters h kstrtouint srt fmt error_text) xs loaded).1 in
          Reported h x g_ctx (param_set_search h kstrtouint srt true (some val) g_ctx)
    param_set_search-accesses fmt error_text given kzalloc array_size heap xs val x fresh all ok
          spelled =
        let loaded =
          (kernel_hashtable_init h given.random given.kmalloc kzalloc array_size heap).1 in
        param_set_search-Reported val x
          (accesses (parameters h kstrtouint srt fmt error_text) xs loaded).1 spelled
          (accesses-Serving h kstrtouint srt laws sort_laws fmt error_text xs loaded all (
            init-Serving h kstrtouint srt laws sort_laws given.random given.kmalloc kzalloc
              array_size heap fresh ok))
