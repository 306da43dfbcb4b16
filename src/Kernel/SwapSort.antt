-- ===== src/Kernel/SwapSort.antt =====
-- `sort` of <linux/sort.h> with a function that exchanges two entries, and `bsearch`, over arrays of records
-- that are told apart by a number alone.
pub mod Model
use otus_work.Base.{
  ℕ, suc, ◌<◌, ◌≡◌, ◌≢◌, ◌==◌, if◌then◌else◌, ltb, arith, refl, ap, sym, ◌∙◌, true, List, [], ◌∷◌,
  Option, none, some, length, get_elem?,
}
use otus_work.Base.Int.{ℤ, pos}
use otus_work.Kernel.Hashtable.{contains}
use otus_work.Kernel.Sort.{IsSorted, IsOrder, IsPartitioned}

-- What `sort` asks of the exchange of the entries at two places.
pub record IsExchange (swap : List ℕ → ℕ → ℕ → List ℕ) : Type 0 where
  pub size : (xs : List ℕ) (i j : ℕ) → length (swap xs i j) ≡ length xs
  pub left :
      (xs : List ℕ) (i j : ℕ)
      → i < length xs
      → j < length xs
      → get_elem? (swap xs i j) i ≡ get_elem? xs j
  pub right :
      (xs : List ℕ) (i j : ℕ)
      → i < length xs
      → j < length xs
      → get_elem? (swap xs i j) j ≡ get_elem? xs i
  pub others :
      (xs : List ℕ) (i j k : ℕ) → k ≢ i → k ≢ j → get_elem? (swap xs i j) k ≡ get_elem? xs k

-- Two comparisons give the same on all entries of an array.
abbrev pub Agree : (ℕ → ℕ → ℤ) → (ℕ → ℕ → ℤ) → List ℕ → Type 0
Agree f g xs = (a b : ℕ) → contains a xs ≡ true → contains b xs ≡ true → f a b ≡ g a b

-- How often a number is among the entries.
abbrev pub count : ℕ → List ℕ → ℕ
count n [] = 0
count n (x ∷ xs) = if x == n then suc (count n xs) else count n xs

pub contains-count : (n : ℕ) (xs : List ℕ) → contains n xs ≡ ltb 0 (count n xs)
contains-count n [] = refl
contains-count n (x ∷ xs) = ground (arith, contains-count n xs)

pub record SwapSort : Type 0 where
  pub sort : (ℕ → ℕ → ℤ) → (List ℕ → ℕ → ℕ → List ℕ) → List ℕ → List ℕ
  pub bsearch : (ℕ → ℤ) → List ℕ → Option ℕ

-- The comparison need be an order only on the entries: it agrees there with one.
pub record SwapSortLaws (s : SwapSort) : Type 0 where
  pub length-sort :
      (cmp : ℕ → ℕ → ℤ) (swap : List ℕ → ℕ → ℕ → List ℕ) (xs : List ℕ)
      → IsExchange swap
      → length (s.sort cmp swap xs) ≡ length xs
  pub count-sort :
      (cmp : ℕ → ℕ → ℤ) (swap : List ℕ → ℕ → ℕ → List ℕ) (xs : List ℕ)
      → IsExchange swap
      → (n : ℕ) → count n (s.sort cmp swap xs) ≡ count n xs
  pub sort-IsSorted :
      (cmp order : ℕ → ℕ → ℤ) (swap : List ℕ → ℕ → ℕ → List ℕ) (xs : List ℕ)
      → IsExchange swap
      → IsOrder order
      → Agree cmp order xs
      → IsSorted order (s.sort cmp swap xs)
  pub bsearch-some :
      (key : ℕ → ℤ) (xs : List ℕ) (n : ℕ)
      → s.bsearch key xs ≡ some n
      → (contains n xs ≡ true) × (key n ≡ pos 0)
  pub bsearch-none :
      (key : ℕ → ℤ) (xs : List ℕ)
      → IsPartitioned key xs
      → s.bsearch key xs ≡ none
      → (n : ℕ) → contains n xs ≡ true
      → ¬ (key n ≡ pos 0)

-- A sorted array has the entries of the array.
pub contains-sort :
    (s : SwapSort)
    → SwapSortLaws s
    → (cmp : ℕ → ℕ → ℤ) (swap : List ℕ → ℕ → ℕ → List ℕ) (xs : List ℕ) → IsExchange swap
    → (n : ℕ) → contains n (s.sort cmp swap xs) ≡ contains n xs
contains-sort s laws cmp swap xs ex n =
    contains-count n (s.sort cmp swap xs)
    ∙ ap (ltb 0) (laws.count-sort cmp swap xs ex n)
    ∙ sym (contains-count n xs)
