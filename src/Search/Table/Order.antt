-- ===== src/Search/Table/Order.antt =====
-- The two comparison functions of search.c: `cmp_entry_ptr` orders the entries, and an array in that order can be
-- searched with `cmp_key_entry`.
use otus_work.Base.{ℕ, ◌≤◌, ◌≡◌, inl, inr, true, List, arith, dec_lt}
use otus_work.Base.Int.{pos, ltb_ℤ}
use otus_work.Kernel.Order.{Ordered-map}
use otus_work.Kernel.Sort.{leq, IsSorted, IsOrder, IsPartitioned}
use otus_work.Search.Table.{cmp_entry_ptr, cmp_key_entry}

module _ (heap : ℕ → ℕ) where
  entry_leq : (a b : ℕ) → leq (cmp_entry_ptr heap) a b ≡ true → heap a ≤ heap b
  unfolding cmp_entry_ptr
  entry_leq a b h = ground arith

  leq_entry : (a b : ℕ) → heap a ≤ heap b → leq (cmp_entry_ptr heap) a b ≡ true
  unfolding cmp_entry_ptr
  leq_entry a b h = ground arith

  -- `cmp_entry_ptr` is a total order, by rising values.
  pub cmp_entry_ptr-IsOrder : IsOrder (cmp_entry_ptr heap)
  cmp_entry_ptr-IsOrder = record {
    total = λ a b. elim (dec_lt (heap b) (heap a)) [
      | yes p ↦ inr (leq_entry b a (omega arith))
      | no p ↦ inl (leq_entry a b (omega arith))
    ];
    trans = λ a b c hab hbc. leq_entry a c (omega (arith, entry_leq a b hab, entry_leq b c hbc));
  }

  pub key_eq : (x n : ℕ) → cmp_key_entry heap x n ≡ pos 0 → heap n ≡ x
  unfolding cmp_key_entry
  key_eq x n h = ground arith

  pub eq_key : (x n : ℕ) → heap n ≡ x → cmp_key_entry heap x n ≡ pos 0
  unfolding cmp_key_entry
  eq_key x n h = ground arith

  key_part :
      (x a b : ℕ)
      → leq (cmp_entry_ptr heap) a b ≡ true
      → (ltb_ℤ (cmp_key_entry heap x a) (pos 0) ≡ true
          → ltb_ℤ (cmp_key_entry heap x b) (pos 0) ≡ true)
        × (ltb_ℤ (pos 0) (cmp_key_entry heap x b) ≡ true
            → ltb_ℤ (pos 0) (cmp_key_entry heap x a) ≡ true)
  unfolding cmp_key_entry
  key_part x a b h = let le = entry_leq a b h in ((λ e. ground arith), (λ e. ground arith))

  -- An array that `cmp_entry_ptr` sorts can be searched with `cmp_key_entry`.
  pub sorted-IsPartitioned :
      (x : ℕ) (xs : List ℕ)
      → IsSorted (cmp_entry_ptr heap) xs
      → IsPartitioned (cmp_key_entry heap x) xs
  sorted-IsPartitioned x xs s =
      Ordered-map (λ a b. leq (cmp_entry_ptr heap) a b ≡ true)
        (λ a b.
          (ltb_ℤ (cmp_key_entry heap x a) (pos 0) ≡ true
            → ltb_ℤ (cmp_key_entry heap x b) (pos 0) ≡ true)
          × (ltb_ℤ (pos 0) (cmp_key_entry heap x b) ≡ true
              → ltb_ℤ (pos 0) (cmp_key_entry heap x a) ≡ true))
        xs (key_part x) s
