-- ===== src/Search/Table/Build.antt =====
-- The table that build.c fills: every entry lands in the bucket of its value, and a failed build
-- leaves none behind.
use otus_work.Base.{
  ℕ, zero, suc, ◌+◌, ◌%◌, ◌<◌, ◌≡◌, ◌⊎◌, inl, inr, refl, sym, ap, ◌∙◌, true, false, Option, none,
  some, List, [], ◌∷◌, arith, Option-cases, ℕ_discrete, ==_yes, ==_no,
}
use mathlib.Core.Bool.{false≢true}
use otus_work.Base.Int.{ℤ}
use otus_work.Kernel.Buckets.{Buckets, BucketsLaws}
use otus_work.Kernel.Hashtable.{contains, erase}
use otus_work.Search.Table.{
  bs_ok, bs_nomem, BucketSearchCtx, store, delete_all, clear, build_from, ht_build, ht_rebuild,
}
use otus_work.Search.Table.Find.{IsValid}

module _ (h : Buckets) (laws : BucketsLaws 6 h) where
  delete_all-nodes : (ns : List ℕ) (t : h.Table) → h.nodes t ≡ ns → h.nodes (delete_all h ns t) ≡ []
  unfolding delete_all
  delete_all-nodes [] t e = e
  delete_all-nodes (n ∷ ns) t e =
      delete_all-nodes ns (h.del n t)
        (laws.nodes-del n t ∙ ap (erase n) e ∙ rw (==_yes {a = n} refl) refl)

  clear-nodes : (c : BucketSearchCtx h) → h.nodes (clear h c).htable ≡ []
  unfolding clear
  clear-nodes c = delete_all-nodes (h.nodes c.htable) c.htable refl

  pub no_nodes-IsValid : (c : BucketSearchCtx h) → h.nodes c.htable ≡ [] → IsValid h c
  no_nodes-IsValid c e = record {
    member = λ b n here.
        absurd (false≢true (sym (ap (contains n) e) ∙ laws.contains-bucket b n c.htable here));
  }

  -- A new entry with a value below the array size goes to the bucket of its value.
  added-IsValid :
      (c : BucketSearchCtx h) (n val : ℕ)
      → IsValid h c
      → contains n (h.nodes c.htable) ≡ false
      → val < c.array_size
      → IsValid h (record c { heap = store n val c.heap; htable = h.add val n c.htable })
  unfolding store
  added-IsValid c n val v fresh small = record {
    member = λ b m here. elim (ℕ_discrete n m) [
      | yes same ↦
          let out : contains m (h.bucket b c.htable) ≡ true → ⊥ = λ there. false≢true (
            sym fresh
            ∙ ap (λ k. contains k (h.nodes c.htable)) same
            ∙ laws.contains-bucket b m c.htable there) in
          rw (==_yes same)
            (small, ground (arith, ap (contains m) (laws.bucket-add val n b c.htable)))
      | no other ↦
          rw (==_no other)
            (v.member b m (ground (arith, ap (contains m) (laws.bucket-add val n b c.htable))))
    ];
  }

  module _ (random : ℕ → ℕ) (kmalloc : ℕ → List ℕ → Option ℕ) where
    -- No new entry has the address of an entry that is in the table.
    abbrev pub IsFresh : Type 0
    IsFresh = (i : ℕ) (ns : List ℕ) (n : ℕ) → kmalloc i ns ≡ some n → contains n ns ≡ false

    abbrev pub Built : BucketSearchCtx h → ℤ × BucketSearchCtx h → Type 0
    Built c (ret, c') =
        IsValid h c'
        × (c'.array_size ≡ c.array_size)
        × ((ret ≡ bs_ok) ⊎ ((ret ≡ bs_nomem) × (h.nodes c'.htable ≡ [])))

    pub build_from-Built :
        (rounds i : ℕ) (c : BucketSearchCtx h)
        → IsFresh
        → 0 < c.array_size
        → IsValid h c
        → Built c (build_from h random kmalloc rounds i c)
    unfolding build_from clear
    build_from-Built zero i c fresh some_size v = (v, refl, inl refl)
    build_from-Built (suc rounds) i c fresh some_size v =
        elim (Option-cases (kmalloc i (h.nodes c.htable))) [
          | inl e ↦
              rw (e, build_from)
                (no_nodes-IsValid (clear h c) (clear-nodes c), refl, inr (refl, clear-nodes c))
          | inr (n, e) ↦
              let val = random i % c.array_size in
              let c' : BucketSearchCtx h = record c {
                heap = store n val c.heap;
                htable = h.add val n c.htable;
              } in
              rw (e, build_from)
                (build_from-Built rounds (i + 1) c' fresh some_size
                  (added-IsValid c n val v (fresh i (h.nodes c.htable) n e) (omega arith)))
        ]

    abbrev pub Rebuilt : BucketSearchCtx h → ℤ × Option (BucketSearchCtx h) → Type 0
    Rebuilt c (ret, none) = ⊥
    Rebuilt c (ret, some c') = Built c (ret, c')

    -- Whatever the table held, `ht_rebuild` of a context with a positive array size gives a valid
    -- table of the same array size, and returns success, or out of memory and then the table has no
    -- entry. `kmalloc` gives no address of an entry in the table.
    pub ht_rebuild-IsValid :
        (c : BucketSearchCtx h)
        → IsFresh
        → 0 < c.array_size
        → Rebuilt c (ht_rebuild h random kmalloc (some c))
    unfolding ht_rebuild ht_build clear
    ht_rebuild-IsValid c fresh some_size =
        let c' : BucketSearchCtx h = record (clear h c) { htable = h.init } in
        build_from-Built c.array_size 0 c' fresh some_size (no_nodes-IsValid c' laws.nodes-init)
