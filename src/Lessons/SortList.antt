-- ===== src/Lessons/SortList.antt =====
-- Linux_kernel/Lesson 12/sort_list_0-510203-39c27f.c: random values, sorted in an array and then read through
-- a list of the array's records.
use otus_work.Base.{
  ℕ, ◌≤◌, ◌≡◌, refl, sym, ap, ◌∙◌, true, List, [], arith, length, get_or, subst, ◌++◌, map,
  replicate,
}
use otus_work.Base.Int.{ℤ, pos}
use otus_work.Kernel.Hashtable.{contains}
use otus_work.Kernel.Order.{Ordered-map}
use otus_work.Kernel.Sort.{leq, Ordered}
use otus_work.Kernel.SwapSort.{SwapSort, SwapSortLaws, count, contains-sort}
use otus_work.Lessons.Arrays.{Statics, fn_cmp_arr, fn_swap_arr, fill_arr, fill_list}
use otus_work.Lessons.Arrays.Laws.{
  fn_swap_arr-IsExchange, by_value, by_value-leq, by_value-IsOrder, fn_cmp_arr-Agree, IsSmall,
  fill_arr-IsSmall, replicate-IsSmall, indices, fill_list-indices, read_all,
}

abbrev pub nr_val : ℕ
nr_val = 100

unfoldable pub init_arr : (ℕ → ℕ) → Statics → Statics
unfolding fill_arr
init_arr random s = record s { arr = fill_arr random nr_val 0 s.arr }

unfoldable pub init_list : Statics → Statics
unfolding fill_list
init_list s = record s { my_list = fill_list nr_val 0 s.my_list }

-- The values that are printed.
unfoldable pub pr_list : Statics → List ℕ
pr_list s = map (λ i. get_or s.arr i 0) s.my_list

-- The values that are printed before the array is sorted, and the list's after.
pub record Printed : Type 0 where
  pub before : List ℕ
  pub after : List ℕ

unfoldable pub my_module_init : SwapSort → (ℕ → ℕ) → Statics → ℤ × Printed × Statics
my_module_init srt random s =
    let s₁ = init_arr random s in
    let s₂ : Statics = record s₁ { arr = srt.sort fn_cmp_arr fn_swap_arr s₁.arr } in
    let s₃ = init_list s₂ in (pos 0, record { before = s₁.arr; after = pr_list s₃ }, s₃)

-- What the two printed lists promise.
pub record IsSortedCopy (out : Printed) : Type 0 where
  pub size : length out.after ≡ nr_val
  pub sorted : Ordered (λ a b. a ≤ b) out.after
  pub same : (n : ℕ) → count n out.after ≡ count n out.before
  pub small : IsSmall out.after

-- The init, as the module is loaded, returns 0 and prints the same 100 values twice, each as often and
-- below 1000, the second time in rising order: the comparison by difference orders them, the
-- exchange is one, and the list meets each record of the array once. `sort` does as documented.
pub my_module_init_lem :
    (srt : SwapSort)
    → SwapSortLaws srt
    → (random : ℕ → ℕ) (s : Statics) → s.arr ≡ replicate nr_val 0
    → s.my_list ≡ []
    → let (ret, out, s') = my_module_init srt random s in (ret ≡ pos 0) × IsSortedCopy out
unfolding my_module_init init_arr init_list pr_list
my_module_init_lem srt laws random s cleared no_nodes =
    let arr = fill_arr random nr_val 0 s.arr in
    let (small, size) =
      fill_arr-IsSmall random nr_val 0 s.arr (rw cleared (replicate-IsSmall nr_val)) in
    let ex = fn_swap_arr-IsExchange in
    let sorted_arr = srt.sort fn_cmp_arr fn_swap_arr arr in
    let long : length sorted_arr ≡ nr_val =
      laws.length-sort fn_cmp_arr fn_swap_arr arr ex ∙ size ∙ ap length cleared in
    let agree = fn_cmp_arr-Agree arr (λ n c. omega (arith, small n c)) in
    let nodes : fill_list nr_val 0 s.my_list ≡ indices nr_val 0 =
      fill_list-indices nr_val 0 s.my_list ∙ ap (λ l. l ++ indices nr_val 0) no_nodes in
    let read : map (λ i. get_or sorted_arr i 0) (fill_list nr_val 0 s.my_list) ≡ sorted_arr =
      ap (map (λ i. get_or sorted_arr i 0)) (nodes ∙ ap (λ n. indices n 0) (sym long))
      ∙ read_all [] sorted_arr 0 refl in
    (
      refl,
      record {
        size = ap length read ∙ long;
        sorted = subst (Ordered (λ a b. a ≤ b)) (sym read) (
            Ordered-map (λ a b. leq by_value a b ≡ true) (λ a b. a ≤ b) sorted_arr by_value-leq
              (laws.sort-IsSorted fn_cmp_arr by_value fn_swap_arr arr ex by_value-IsOrder agree));
        same = λ n. ap (count n) read ∙ laws.count-sort fn_cmp_arr fn_swap_arr arr ex n;
        small = λ n c. small n (
            sym (contains-sort srt laws fn_cmp_arr fn_swap_arr arr ex n)
            ∙ ap (contains n) (sym read)
            ∙ c);
      },
    )
