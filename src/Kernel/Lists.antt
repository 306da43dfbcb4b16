-- ===== src/Kernel/Lists.antt =====
-- The kernel's hash table, `sort` and `bsearch` as functions on lists, and an allocation of addresses: they
-- behave as documented, so what the theorems ask of them can be met.
use otus_work.Base.{
  ltb, ◌<◌, ◌+◌, ℕ, suc, ◌≡◌, inl, inr, refl, ap, ◌∙◌, true, false, ◌||◌, List, [], ◌∷◌, ◌==◌,
  if◌then◌else◌, arith, Option, none, some, length, Bool-cases, ℕ_discrete,
}
use otus_work.Base.Int.{ℤ, pos, negsuc, ltb_ℤ}
use otus_work.Kernel.Hashtable.{Hashtable, HashtableLaws, contains, erase}
use otus_work.Kernel.Sort.{Sort, SortLaws, leq, All, IsSorted, IsOrder}
use otus_work.Kernel.Order.{All-map}

-- One bucket for all keys.
abbrev pub list_table : Hashtable
list_table = record {
  Table = List ℕ;
  init = [];
  add = λ k n t. n ∷ t;
  del = erase;
  nodes = λ t. t;
  possible = λ k t. t;
}

pub list_table-laws : HashtableLaws list_table
list_table-laws = record {
  nodes-init = refl;
  nodes-del = λ n t. refl;
  contains-nodes-add = λ k n m t. refl;
  possible-add = λ k j n t. inl refl;
  contains-possible = λ k n t c. c;
}

module _ (cmp : ℕ → ℕ → ℤ) where
  unfoldable pub insert : ℕ → List ℕ → List ℕ
  insert n [] = n ∷ []
  insert n (x ∷ xs) = if leq cmp n x then n ∷ x ∷ xs else x ∷ insert n xs

  unfoldable pub sort_list : List ℕ → List ℕ
  unfolding insert
  sort_list [] = []
  sort_list (x ∷ xs) = insert x (sort_list xs)

  length-insert : (n : ℕ) (xs : List ℕ) → length (insert n xs) ≡ suc (length xs)
  unfolding insert
  length-insert n [] = refl
  length-insert n (x ∷ xs) = ground (arith, length-insert n xs)

  pub length-sort_list : (xs : List ℕ) → length (sort_list xs) ≡ length xs
  unfolding sort_list
  length-sort_list [] = refl
  length-sort_list (x ∷ xs) = length-insert x (sort_list xs) ∙ ap suc (length-sort_list xs)

  contains-insert : (m n : ℕ) (xs : List ℕ) → contains m (insert n xs) ≡ ((n == m) || contains m xs)
  unfolding insert
  contains-insert m n [] = refl
  contains-insert m n (x ∷ xs) = ground (arith, contains-insert m n xs)

  pub contains-sort_list : (xs : List ℕ) (m : ℕ) → contains m (sort_list xs) ≡ contains m xs
  unfolding sort_list
  contains-sort_list [] m = refl
  contains-sort_list (x ∷ xs) m =
      contains-insert m x (sort_list xs) ∙ ap (λ b. (x == m) || b) (contains-sort_list xs m)

  module _ (order : IsOrder cmp) where
    All-insert :
        (n x : ℕ) (xs : List ℕ)
        → leq cmp x n ≡ true
        → All (λ y. leq cmp x y ≡ true) xs
        → All (λ y. leq cmp x y ≡ true) (insert n xs)
    unfolding insert
    All-insert n x [] h all = (h, tt)
    All-insert n x (y ∷ ys) h all = ground (arith, All-insert n x ys h)

    insert-IsSorted : (n : ℕ) (xs : List ℕ) → IsSorted cmp xs → IsSorted cmp (insert n xs)
    unfolding insert
    insert-IsSorted n [] s = (tt, tt)
    insert-IsSorted n (x ∷ xs) s = elim (Bool-cases (leq cmp n x)) [
      | inl le ↦ rw le (
        (
          le,
          All-map (λ y. leq cmp x y ≡ true) (λ y. leq cmp n y ≡ true) xs
              (λ y h. order.trans n x y le h) s.0,
        ),
        s,
      )
      | inr gt ↦
          let back : leq cmp x n ≡ true = elim (order.total n x) [
            | inl h ↦ absurd (cc)
            | inr h ↦ h
          ] in
          rw gt (All-insert n x xs back s.0, insert-IsSorted n xs s.1)
    ]

    pub sort_list-IsSorted : (xs : List ℕ) → IsSorted cmp (sort_list xs)
    unfolding sort_list
    sort_list-IsSorted [] = tt
    sort_list-IsSorted (x ∷ xs) = insert-IsSorted x (sort_list xs) (sort_list-IsSorted xs)

unfoldable pub first_equal : (ℕ → ℤ) → List ℕ → Option ℕ
first_equal key [] = none
first_equal key (x ∷ xs) =
    if ltb_ℤ (key x) (pos 0) || ltb_ℤ (pos 0) (key x) then first_equal key xs else some x

eq_zero : (v : ℤ) → (ltb_ℤ v (pos 0) || ltb_ℤ (pos 0) v) ≡ false → v ≡ pos 0
eq_zero (pos n) h = ground arith
eq_zero (negsuc n) h = ground arith

first_equal-some :
    (key : ℕ → ℤ) (xs : List ℕ) (n : ℕ)
    → first_equal key xs ≡ some n
    → (contains n xs ≡ true) × (key n ≡ pos 0)
unfolding first_equal
first_equal-some key [] n e = absurd (cc)
first_equal-some key (x ∷ xs) n e =
    ground (arith, first_equal-some key xs n, eq_zero (key x), ap key)

first_equal-none :
    (key : ℕ → ℤ) (xs : List ℕ) (n : ℕ)
    → first_equal key xs ≡ none
    → contains n xs ≡ true
    → ¬ (key n ≡ pos 0)
unfolding first_equal
first_equal-none key [] n e c z = absurd (cc)
first_equal-none key (x ∷ xs) n e c z = elim (ℕ_discrete x n) [
  | yes same ↦
      let zero_here : key x ≡ pos 0 = ap key same ∙ z in
      let found : first_equal key (x ∷ xs) ≡ some x = rw (zero_here, first_equal) refl in
      absurd (cc)
  | no other ↦ ground (arith, first_equal-none key xs n)
]

abbrev pub insertion : Sort
insertion = record { sort = sort_list; bsearch = first_equal }

pub insertion-laws : SortLaws insertion
insertion-laws = record {
  length-sort = length-sort_list;
  contains-sort = contains-sort_list;
  sort-IsSorted = λ cmp xs order. sort_list-IsSorted cmp order xs;
  bsearch-some = first_equal-some;
  bsearch-none = λ key xs p e n. first_equal-none key xs n e;
}

-- An address above all nodes of a list.
abbrev pub above : List ℕ → ℕ
above [] = 16
above (n ∷ ns) = let m = above ns in if ltb n m then m else n + 1

pub above_lem : (m : ℕ) (ns : List ℕ) → contains m ns ≡ true → m < above ns
above_lem m [] c = absurd (cc)
above_lem m (n ∷ ns) c = ground (arith, above_lem m ns)

pub above_new : (ns : List ℕ) → contains (above ns) ns ≡ false
above_new ns = ground (arith, above_lem (above ns) ns)
