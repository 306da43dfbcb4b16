-- ===== src/Search/Table/Find.antt =====
-- The search of a value in its bucket, as in `ht_search` of search.c: the bucket is sorted by value and
-- searched by halves.
use otus_work.Base.{
  ℕ, ◌<◌, ◌≡◌, ◌⊎◌, inl, inr, refl, sym, ap, ◌∙◌, Bool, true, false, Option, none, some, List, [],
  ◌∷◌, ◌==◌, leb, length, arith, Bool-cases, Option-cases, subst,
}
use otus_work.Base.Int.{ℤ, pos, ltb_ℤ}
use otus_work.Kernel.Buckets.{Buckets, BucketsLaws}
use otus_work.Kernel.Hashtable.{contains}
use otus_work.Kernel.Sort.{Sort, SortLaws}
use otus_work.Search.Table.{
  bs_ok, bs_nomem, bs_not_found, hash_table_bits, BucketSearchCtx, cmp_entry_ptr, cmp_key_entry,
  collect_bucket, search_array, search_bucket, search_ctx, ht_search,
}
use otus_work.Search.Table.Order.{cmp_entry_ptr-IsOrder, key_eq, eq_key, sorted-IsPartitioned}

empty_bucket : (n : ℕ) (xs : List ℕ) → (length xs == 0) ≡ true → contains n xs ≡ true → ⊥
empty_bucket n [] e c = ground arith
empty_bucket n (x ∷ xs) e c = ground arith

module _ (h : Buckets) where
  -- Every entry is in the bucket of its value, and its value is below the array size.
  pub record IsValid (c : BucketSearchCtx h) : Type 0 where
    pub member :
        (b n : ℕ)
        → contains n (h.bucket b c.htable) ≡ true
        → (c.heap n < c.array_size) × (h.hash_min (c.heap n) hash_table_bits ≡ b)

  -- Whether an entry of the table has a value.
  abbrev pub HasValue : BucketSearchCtx h → ℕ → Type 0
  HasValue c x = (n : ℕ) × (contains n (h.nodes c.htable) ≡ true) × (c.heap n ≡ x)

  -- The three answers of a search.
  abbrev pub Verdict : Bool → ℕ → BucketSearchCtx h → ℤ → BucketSearchCtx h → Type 0
  Verdict kmalloc_array x c ret c' =
      ((ret ≡ bs_ok) × (c'.last_found ≡ 1) × HasValue c x)
      ⊎ ((ret ≡ bs_not_found) × (c'.last_found ≡ 0) × ¬ HasValue c x)
      ⊎ ((ret ≡ bs_nomem) × (c'.last_found ≡ 0) × (kmalloc_array ≡ false))

  abbrev pub Answered : Bool → ℕ → BucketSearchCtx h → ℤ × Option (BucketSearchCtx h) → Type 0
  Answered kmalloc_array x c (ret, none) = ⊥
  Answered kmalloc_array x c (ret, some c') =
      (c'.htable ≡ c.htable)
      × (c'.heap ≡ c.heap)
      × (c'.last_value ≡ x)
      × Verdict kmalloc_array x c ret c'

  module _ (laws : BucketsLaws 6 h) (srt : Sort) (sort_laws : SortLaws srt) where
    -- A value of the table is the value of an entry of its own bucket.
    in_bucket :
        (c : BucketSearchCtx h) (x : ℕ)
        → IsValid c
        → HasValue c x
        → (n : ℕ) × (contains n (h.bucket (h.hash_min x hash_table_bits) c.htable) ≡ true)
          × (c.heap n ≡ x)
    in_bucket c x v (n, there, e) =
        let (b, small, here) = laws.contains-nodes n c.htable there in
        let same : b ≡ h.hash_min x hash_table_bits =
          sym (v.member b n here).1 ∙ ap (λ k. h.hash_min k hash_table_bits) e in
        (n, subst (λ k. contains n (h.bucket k c.htable) ≡ true) same here, e)

    search_array_lem :
        (kmalloc_array : Bool) (x b : ℕ) (c : BucketSearchCtx h)
        → IsValid c
        → b ≡ h.hash_min x hash_table_bits
        → let arr = h.bucket b c.htable in
          let out = search_array h srt x arr c in
          (out.1.htable ≡ c.htable)
          × (out.1.heap ≡ c.heap)
          × (out.1.last_value ≡ c.last_value)
          × Verdict kmalloc_array x c out.0 out.1
    unfolding search_array
    search_array_lem kmalloc_array x b c v at =
        let arr = h.bucket b c.htable in
        let xs = srt.sort (cmp_entry_ptr c.heap) arr in
        elim (Option-cases (srt.bsearch (cmp_key_entry c.heap x) xs)) [
          | inl e ↦
              rw (e, search_array)
                (
                  refl,
                  refl,
                  refl,
                  inr (
                      inl (
                        refl,
                        refl,
                        λ has.
                            let (n, home, same) = in_bucket c x v has in
                            let here : contains n arr ≡ true =
                              subst (λ k. contains n (h.bucket k c.htable) ≡ true) (sym at) home in
                            sort_laws.bsearch-none (cmp_key_entry c.heap x) xs
                              (sorted-IsPartitioned c.heap x xs
                                (sort_laws.sort-IsSorted _ arr (cmp_entry_ptr-IsOrder c.heap)))
                              e n (sort_laws.contains-sort _ arr n ∙ here) (eq_key c.heap x n same),
                      )),
                )
          | inr (n, e) ↦
              let (there, zero_here) = sort_laws.bsearch-some (cmp_key_entry c.heap x) xs n e in
              rw (e, search_array)
                (
                  refl,
                  refl,
                  refl,
                  inl (
                    refl,
                    refl,
                    (
                      n,
                      laws.contains-bucket b n c.htable
                          (sym (sort_laws.contains-sort _ arr n) ∙ there),
                      key_eq c.heap x n zero_here,
                    ),
                  ),
                )
        ]

    bucket_empty :
        (kmalloc_array : Bool) (x : ℕ) (c : BucketSearchCtx h)
        → leb 64 c.last_bucket ≡ false
        → (length (h.bucket c.last_bucket c.htable) == 0) ≡ true
        → search_bucket h srt kmalloc_array x c ≡ (bs_not_found, c)
    unfolding search_bucket collect_bucket
    bucket_empty kmalloc_array x c small e = rw (small, e) refl

    bucket_full :
        (x : ℕ) (c : BucketSearchCtx h)
        → leb 64 c.last_bucket ≡ false
        → (length (h.bucket c.last_bucket c.htable) == 0) ≡ false
        → search_bucket h srt true x c ≡ search_array h srt x (h.bucket c.last_bucket c.htable) c
    unfolding search_bucket collect_bucket
    bucket_full x c small e =
        let len = length (h.bucket c.last_bucket c.htable) in
        let up : ltb_ℤ (pos len) (pos 0) ≡ false = ground arith in rw (small, e, up) (rw e refl)

    bucket_nomem :
        (x : ℕ) (c : BucketSearchCtx h)
        → leb 64 c.last_bucket ≡ false
        → (length (h.bucket c.last_bucket c.htable) == 0) ≡ false
        → search_bucket h srt false x c ≡ (bs_nomem, c)
    unfolding search_bucket collect_bucket
    bucket_nomem x c small e = rw (small, e) refl

    search_bucket_lem :
        (kmalloc_array : Bool) (x : ℕ) (c : BucketSearchCtx h)
        → IsValid c
        → c.last_bucket ≡ h.hash_min x hash_table_bits
        → c.last_found ≡ 0
        → let out = search_bucket h srt kmalloc_array x c in
          (out.1.htable ≡ c.htable)
          × (out.1.heap ≡ c.heap)
          × (out.1.last_value ≡ c.last_value)
          × Verdict kmalloc_array x c out.0 out.1
    search_bucket_lem kmalloc_array x c v at nothing =
        let b = h.hash_min x hash_table_bits in
        let small : leb 64 c.last_bucket ≡ false = ground (arith, laws.hash_min-lt x) in
        elim (Bool-cases (length (h.bucket c.last_bucket c.htable) == 0)) [
          | inl e ↦ rw (bucket_empty kmalloc_array x c small e) (
            refl,
            refl,
            refl,
            inr (
                inl (
                  refl,
                  nothing,
                  λ has.
                      let (n, here, _) = in_bucket c x v has in
                      empty_bucket n (h.bucket b c.htable)
                        (subst (λ k. (length (h.bucket k c.htable) == 0) ≡ true) at e) here,
                )),
          )
          | inr e ↦ some_there kmalloc_array small e
        ]
      where
        some_there :
            (k : Bool)
            → leb 64 c.last_bucket ≡ false
            → (length (h.bucket c.last_bucket c.htable) == 0) ≡ false
            → let out = search_bucket h srt k x c in
              (out.1.htable ≡ c.htable)
              × (out.1.heap ≡ c.heap)
              × (out.1.last_value ≡ c.last_value)
              × Verdict k x c out.0 out.1
        some_there true small e =
            rw (bucket_full x c small e) (search_array_lem true x c.last_bucket c v at)
        some_there false small e =
            rw (bucket_nomem x c small e) (refl, refl, refl, inr (inr (refl, nothing, refl)))

    -- In a valid table, `ht_search` of a value leaves the table as it is, keeps the value for the
    -- result, and returns: success, and 1 as `last_found`, where an entry has the value; not found,
    -- and 0, where none has it; or out of memory, and 0, where the array for the bucket cannot be
    -- allocated. `sort`, `bsearch` and the table do as documented.
    pub ht_search_lem :
        (kmalloc_array : Bool) (x : ℕ) (c : BucketSearchCtx h)
        → IsValid c
        → Answered kmalloc_array x c (ht_search h srt kmalloc_array x (some c))
    unfolding ht_search search_ctx
    ht_search_lem kmalloc_array x c v = elim (Bool-cases (leb c.array_size x)) [
      | inl e ↦ rw e (
        refl,
        refl,
        refl,
        inr (
            inl (
              refl,
              refl,
              λ has.
                  let (n, here, same) = in_bucket c x v has in
                  let bound = (v.member (h.hash_min x hash_table_bits) n here).0 in ground arith,
            )),
      )
      | inr e ↦
          let c₁ : BucketSearchCtx h = record c {
            last_found = 0;
            last_value = x;
            last_bucket = h.hash_min x hash_table_bits;
          } in
          let v₁ : IsValid c₁ = record { member = v.member } in
          rw (e, search_ctx) (search_bucket_lem kmalloc_array x c₁ v₁ refl refl)
    ]
