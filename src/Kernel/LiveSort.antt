-- ===== src/Kernel/LiveSort.antt =====
-- `sort` of <linux/sort.h> over an array of pointers to data that may change while it is sorted: each call of
-- the comparison reads what is there at that moment.
use otus_work.Base.{ℕ, ◌≡◌, List, length}
use otus_work.Base.Int.{ℤ}
use otus_work.Kernel.Hashtable.{contains}
use otus_work.Kernel.Sort.{IsSorted, IsOrder}
use otus_work.Kernel.Lists.{sort_list, length-sort_list, contains-sort_list, sort_list-IsSorted}

-- The `k`-th call of the comparison is a call of the `k`-th function.
pub record LiveSort : Type 0 where
  pub sort : (ℕ → ℕ → ℕ → ℤ) → List ℕ → List ℕ

-- Elements are only exchanged, whatever the comparisons answer; and the array is sorted where all calls
-- are of one order.
pub record LiveSortLaws (s : LiveSort) : Type 0 where
  pub length-sort : (cmps : ℕ → ℕ → ℕ → ℤ) (xs : List ℕ) → length (s.sort cmps xs) ≡ length xs
  pub contains-sort :
      (cmps : ℕ → ℕ → ℕ → ℤ) (xs : List ℕ) (n : ℕ) → contains n (s.sort cmps xs) ≡ contains n xs
  pub sort-IsSorted :
      (cmp : ℕ → ℕ → ℤ) (xs : List ℕ) → IsOrder cmp → IsSorted cmp (s.sort (λ _. cmp) xs)

-- An insertion sort that reads all data at once.
abbrev pub at_once : LiveSort
at_once = record { sort = λ cmps xs. sort_list (cmps 0) xs }

pub at_once-laws : LiveSortLaws at_once
at_once-laws = record {
  length-sort = λ cmps xs. length-sort_list (cmps 0) xs;
  contains-sort = λ cmps xs n. contains-sort_list (cmps 0) xs n;
  sort-IsSorted = λ cmp xs order. sort_list-IsSorted cmp order xs;
}
