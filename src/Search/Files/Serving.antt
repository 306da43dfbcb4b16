-- ===== src/Search/Files/Serving.antt =====
-- The context of a loaded module stays one that serves: a valid table of a positive array size, and a bucket
-- to dump that there is.
use otus_work.Base.{
  ℕ, zero, suc, ◌<◌, ◌≡◌, inl, inr, refl, sym, ap, ◌∙◌, Bool, true, false, Option, none, some, List,
  ◌==◌, leb, arith, Bool-cases, Option-cases, if◌then◌else◌,
}
use otus_work.Base.Int.{ℤ, pos, negsuc, eqb_ℤ}
use otus_work.Kernel.{einval, enomem}
use otus_work.Kernel.Buckets.{Buckets, BucketsLaws}
use otus_work.Kernel.Hashtable.{contains}
use otus_work.Kernel.Sort.{Sort, SortLaws}
use otus_work.Search.Table.{
  bs_ok, BucketSearchCtx, build_from, ht_build, ht_rebuild, clear, search_ctx, ht_search,
  hash_table_size,
}
use otus_work.Search.Table.Find.{IsValid, ht_search_lem}
use otus_work.Search.Table.Build.{IsFresh, build_from-Built, no_nodes-IsValid, ht_rebuild-IsValid}
use otus_work.Search.Params.{
  param_set_search, param_set_rebuild, param_set_bucket_id, new_context, kernel_hashtable_init,
}
use otus_work.Kernel.Files.{Access, accesses}
use otus_work.Kernel.Files.Laws.{Keeps, AllGiven, accesses-keeps}
use otus_work.Search.Table.Dump.{Format}
use otus_work.Search.Files.{
  Parameter, search, result, rebuild, bucket_id, bucket_dump, Given, parameters,
}
use otus_work.Search.Files.Keeps.{build_from-keeps, search_ctx-Keeps}

module _ (h : Buckets) where
  -- The context that a loaded module has.
  pub record IsServing (c : BucketSearchCtx h) : Type 0 where
    pub valid : IsValid h c
    pub some_size : 0 < c.array_size
    pub bucket_named : c.current_bucket_id < 64

  abbrev pub Serving : Option (BucketSearchCtx h) → Type 0
  Serving none = ⊥
  Serving (some c) = IsServing c

  if-Serving :
      (b : Bool) (x y : ℤ × Option (BucketSearchCtx h))
      → Serving x.1
      → Serving y.1
      → Serving (if b then x else y).1
  if-Serving true x y sx sy = sx
  if-Serving false x y sx sy = sy

module _ (h : Buckets) (kstrtouint : List ℕ → Option ℕ) (srt : Sort) where
  module _ (laws : BucketsLaws 6 h) (sort_laws : SortLaws srt) where
    -- No new entry of a rebuild has the address of an entry that is in the table.
    abbrev pub IsGiven : Given → Type 0
    IsGiven env = IsFresh h laws env.random env.kmalloc

    IsValid-same :
        (c c' : BucketSearchCtx h)
        → IsValid h c
        → c'.htable ≡ c.htable
        → c'.heap ≡ c.heap
        → c'.array_size ≡ c.array_size
        → IsValid h c'
    IsValid-same c c' v table heap size = record {
      member = λ b n here.
          rw (heap, size) (v.member b n (ap (λ t. contains n (h.bucket b t)) (sym table) ∙ here));
    }

    search-Serving :
        (kmalloc_array : Bool) (x : ℕ) (c : BucketSearchCtx h)
        → IsServing h c
        → Serving h (ht_search h srt kmalloc_array x (some c)).1
    unfolding ht_search
    search-Serving kmalloc_array x c is =
        let (table, heap, _, _) = ht_search_lem h laws srt sort_laws kmalloc_array x c is.valid in
        let (size, named) = search_ctx-Keeps h srt kmalloc_array x c in
        record {
          valid = IsValid-same c (search_ctx h srt kmalloc_array x c).1 is.valid table heap size;
          some_size = omega (arith, size, is.some_size);
          bucket_named = omega (arith, named, is.bucket_named);
        }

    rebuild-Serving :
        (random : ℕ → ℕ) (kmalloc : ℕ → List ℕ → Option ℕ) (c : BucketSearchCtx h)
        → IsFresh h laws random kmalloc
        → IsServing h c
        → Serving h (ht_rebuild h random kmalloc (some c)).1
    unfolding ht_rebuild ht_build clear
    rebuild-Serving random kmalloc c fresh is =
        let (v, size, _) = ht_rebuild-IsValid h laws random kmalloc c fresh is.some_size in
        record {
          valid = v;
          some_size = omega (arith, size, is.some_size);
          bucket_named = omega (
            arith,
            build_from-keeps h random kmalloc c.array_size 0
                (record (clear h c) { htable = h.init }),
            is.bucket_named,
          );
        }

    set_search-Serving :
        (kmalloc_array : Bool) (val : List ℕ) (g_ctx : Option (BucketSearchCtx h))
        → Serving h g_ctx
        → Serving h (param_set_search h kstrtouint srt kmalloc_array (some val) g_ctx).1
    unfolding param_set_search
    set_search-Serving kmalloc_array val none is = elim is [ ]
    set_search-Serving kmalloc_array val (some c) is = elim (Option-cases (kstrtouint val)) [
      | inl e ↦ rw (e, param_set_search) is
      | inr (x, e) ↦ rw (e, param_set_search) (search-Serving kmalloc_array x c is)
    ]

    set_bucket_id-Serving :
        (val : List ℕ) (g_ctx : Option (BucketSearchCtx h))
        → Serving h g_ctx
        → Serving h (param_set_bucket_id h kstrtouint (some val) g_ctx).1
    unfolding param_set_bucket_id
    set_bucket_id-Serving val none is = elim is [ ]
    set_bucket_id-Serving val (some c) is = elim (Option-cases (kstrtouint val)) [
      | inl e ↦ rw (e, param_set_bucket_id) is
      | inr (id, e) ↦
          rw (e, param_set_bucket_id)
            (elim (Bool-cases (leb hash_table_size id)) [
              | inl big ↦ rw big is
              | inr small ↦ rw small record {
                valid = IsValid-same c _ is.valid refl refl refl;
                some_size = is.some_size;
                bucket_named = ground arith;
              }
            ])
    ]

    set_rebuild-Serving :
        (env : Given) (val : List ℕ) (g_ctx : Option (BucketSearchCtx h))
        → IsGiven env
        → Serving h g_ctx
        → Serving h (param_set_rebuild h kstrtouint env.random env.kmalloc (some val) g_ctx).1
    unfolding param_set_rebuild
    set_rebuild-Serving env val none fresh is = elim is [ ]
    set_rebuild-Serving env val (some c) fresh is = elim (Option-cases (kstrtouint val)) [
      | inl e ↦ rw (e, param_set_rebuild) is
      | inr (v, e) ↦
          let again = rebuild-Serving env.random env.kmalloc c fresh is in
          let (ret, c') = ht_rebuild h env.random env.kmalloc (some c) in
          rw (e, param_set_rebuild)
            (if-Serving h (v == 0) (pos 0, some c) _ is
              (if-Serving h (eqb_ℤ ret bs_ok) (pos 0, c') (ret, c') again again))
    ]

    module _ (fmt : Format) (error_text : ℕ → List ℕ) where
      parameters-keep :
          (p : Parameter) → Keeps IsGiven (Serving h) (parameters h kstrtouint srt fmt error_text p)
      parameters-keep search = record {
        set = λ env val c _ is. set_search-Serving env.kmalloc_array val c is;
        get = tt;
      }
      parameters-keep result = record { set = tt; get = λ env c _ is. is }
      parameters-keep rebuild = record {
        set = λ env val c fresh is. set_rebuild-Serving env val c fresh is;
        get = tt;
      }
      parameters-keep bucket_id = record {
        set = λ env val c _ is. set_bucket_id-Serving val c is;
        get = tt;
      }
      parameters-keep bucket_dump = record { set = tt; get = λ env c _ is. is }

      pub accesses-Serving :
          (xs : List (Access Parameter Given)) (g_ctx : Option (BucketSearchCtx h))
          → AllGiven IsGiven xs
          → Serving h g_ctx
          → Serving h (accesses (parameters h kstrtouint srt fmt error_text) xs g_ctx).1
      accesses-Serving =
          accesses-keeps IsGiven (Serving h) (parameters h kstrtouint srt fmt error_text)
            parameters-keep

    -- The tests of `kernel_hashtable_init`: 0 is returned only where the build succeeded.
    ok-Serving :
        (no_size room : Bool) (ret : ℤ) (g_ctx : Option (BucketSearchCtx h))
        → (no_size ≡ false → Serving h g_ctx)
        → let r : ℤ × Option (BucketSearchCtx h) =
            if no_size
            then (einval, none)
            else if room
            then (if eqb_ℤ ret bs_ok then (pos 0, g_ctx) else (ret, none))
            else (enomem, none) in
          r.0 ≡ pos 0 → Serving h r.1
    ok-Serving true room ret g_ctx is ok = absurd (cc)
    ok-Serving false false ret g_ctx is ok = absurd (cc)
    ok-Serving false true (pos zero) g_ctx is ok = is refl
    ok-Serving false true (pos (suc n)) g_ctx is ok = absurd (ground arith)
    ok-Serving false true (negsuc n) g_ctx is ok = absurd (ground arith)

    pub init-Serving :
        (random : ℕ → ℕ) (kmalloc : ℕ → List ℕ → Option ℕ) (kzalloc : Bool) (array_size : ℕ)
        (heap : ℕ → ℕ)
        → IsFresh h laws random kmalloc
        → (kernel_hashtable_init h random kmalloc kzalloc array_size heap).0 ≡ pos 0
        → Serving h (kernel_hashtable_init h random kmalloc kzalloc array_size heap).1
    unfolding kernel_hashtable_init ht_build
    init-Serving random kmalloc kzalloc array_size heap fresh =
        let c = new_context h array_size heap in
        let built = build_from h random kmalloc array_size 0 c in
        ok-Serving (array_size == 0) kzalloc built.0 (some built.1) λ some_entry.
          let positive : 0 < array_size = ground arith in
          let (v, size, _) =
            build_from-Built h laws random kmalloc array_size 0 c fresh positive
              (no_nodes-IsValid h laws c laws.nodes-init) in
          record {
            valid = v;
            some_size = omega (arith, size, positive);
            bucket_named = omega (arith, build_from-keeps h random kmalloc array_size 0 c);
          }
