-- ===== src/Kernel/SwapSort/Model.antt =====
-- Insertion into a list behaves as `sort` is documented, so what the theorems ask of it can be met.
use otus_work.Base.{ℕ, suc, ◌≡◌, refl, true, List, [], ◌∷◌, ◌==◌, if◌then◌else◌, arith}
use otus_work.Base.Int.{ℤ}
use otus_work.Kernel.Hashtable.{contains}
use otus_work.Kernel.Lists.{insert, sort_list, first_equal, insertion-laws}
use otus_work.Kernel.SwapSort.{Agree, count, SwapSort, SwapSortLaws}

insert_agreeing :
    (f g : ℕ → ℕ → ℤ) (n : ℕ) (xs : List ℕ)
    → ((x : ℕ) → contains x xs ≡ true → f n x ≡ g n x)
    → insert f n xs ≡ insert g n xs
unfolding insert
insert_agreeing f g n [] same = refl
insert_agreeing f g n (x ∷ xs) same =
    let here : f n x ≡ g n x = same x (ground arith) in
    rw (here, insert_agreeing f g n xs (λ y c. same y (ground arith))) refl

sort_list-Agree : (f g : ℕ → ℕ → ℤ) (xs : List ℕ) → Agree f g xs → sort_list f xs ≡ sort_list g xs
unfolding sort_list
sort_list-Agree f g [] same = refl
sort_list-Agree f g (x ∷ xs) same =
    rw (sort_list-Agree f g xs (λ a b ca cb. same a b (ground arith) (ground arith))) (
      insert_agreeing f g x (sort_list g xs)
        λ y c. same x y (ground arith) (ground (arith, insertion-laws.contains-sort g xs y)))

count-insert :
    (cmp : ℕ → ℕ → ℤ) (m n : ℕ) (xs : List ℕ)
    → count m (insert cmp n xs) ≡ (if n == m then suc (count m xs) else count m xs)
unfolding insert
count-insert cmp m n [] = refl
count-insert cmp m n (x ∷ xs) = ground (arith, count-insert cmp m n xs)

count-sort_list : (cmp : ℕ → ℕ → ℤ) (m : ℕ) (xs : List ℕ) → count m (sort_list cmp xs) ≡ count m xs
unfolding sort_list
count-sort_list cmp m [] = refl
count-sort_list cmp m (x ∷ xs) =
    ground (arith, count-insert cmp m x (sort_list cmp xs), count-sort_list cmp m xs)

abbrev pub inserting : SwapSort
inserting = record { sort = λ cmp swap xs. sort_list cmp xs; bsearch = first_equal }

pub inserting-laws : SwapSortLaws inserting
inserting-laws = record {
  length-sort = λ cmp swap xs ex. insertion-laws.length-sort cmp xs;
  count-sort = λ cmp swap xs ex n. count-sort_list cmp n xs;
  sort-IsSorted = λ cmp order swap xs ex is same.
      rw (sort_list-Agree cmp order xs same) (insertion-laws.sort-IsSorted order xs is);
  bsearch-some = insertion-laws.bsearch-some;
  bsearch-none = insertion-laws.bsearch-none;
}
