-- ===== src/Kernel/Sort.antt =====
-- `sort` of <linux/sort.h> and `bsearch` of <linux/bsearch.h>, over arrays of pointers, with what
-- their documentation says.
use otus_work.Base.{ℕ, ◌≡◌, ◌⊎◌, Bool, true, not, List, [], ◌∷◌, Option, none, some, length}
use otus_work.Base.Int.{ℤ, pos, ltb_ℤ}
use otus_work.Kernel.Hashtable.{contains}

-- `cmp(a, b) <= 0`
abbrev pub leq : (ℕ → ℕ → ℤ) → ℕ → ℕ → Bool
leq cmp a b = not (ltb_ℤ (pos 0) (cmp a b))

-- A property of all entries.
abbrev pub All : (ℕ → Type 0) → List ℕ → Type 0
All P [] = Unit {0}
All P (x ∷ xs) = P x × All P xs

-- Each entry stands in the relation to all that follow it.
abbrev pub Ordered : (ℕ → ℕ → Type 0) → List ℕ → Type 0
Ordered R [] = Unit {0}
Ordered R (x ∷ xs) = All (R x) xs × Ordered R xs

abbrev pub IsSorted : (ℕ → ℕ → ℤ) → List ℕ → Type 0
IsSorted cmp xs = Ordered (λ a b. leq cmp a b ≡ true) xs

-- What `sort` asks of a comparison.
pub record IsOrder (cmp : ℕ → ℕ → ℤ) : Type 0 where
  pub total : (a b : ℕ) → (leq cmp a b ≡ true) ⊎ (leq cmp b a ≡ true)
  pub trans : (a b c : ℕ) → leq cmp a b ≡ true → leq cmp b c ≡ true → leq cmp a c ≡ true

-- `sort` takes the comparison and the array, `bsearch` the comparison of the key with an entry.
pub record Sort : Type 0 where
  pub sort : (ℕ → ℕ → ℤ) → List ℕ → List ℕ
  pub bsearch : (ℕ → ℤ) → List ℕ → Option ℕ

-- Along the array the key is first above, then equal to, then below the entries.
abbrev pub IsPartitioned : (ℕ → ℤ) → List ℕ → Type 0
IsPartitioned key xs =
    Ordered
      (λ a b.
        (ltb_ℤ (key a) (pos 0) ≡ true → ltb_ℤ (key b) (pos 0) ≡ true)
        × (ltb_ℤ (pos 0) (key b) ≡ true → ltb_ℤ (pos 0) (key a) ≡ true))
      xs

pub record SortLaws (s : Sort) : Type 0 where
  pub length-sort : (cmp : ℕ → ℕ → ℤ) (xs : List ℕ) → length (s.sort cmp xs) ≡ length xs
  pub contains-sort :
      (cmp : ℕ → ℕ → ℤ) (xs : List ℕ) (n : ℕ) → contains n (s.sort cmp xs) ≡ contains n xs
  pub sort-IsSorted : (cmp : ℕ → ℕ → ℤ) (xs : List ℕ) → IsOrder cmp → IsSorted cmp (s.sort cmp xs)
  pub bsearch-some :
      (key : ℕ → ℤ) (xs : List ℕ) (n : ℕ)
      → s.bsearch key xs ≡ some n
      → (contains n xs ≡ true) × (key n ≡ pos 0)
  pub bsearch-none :
      (key : ℕ → ℤ) (xs : List ℕ)
      → IsPartitioned key xs
      → s.bsearch key xs ≡ none
      → (n : ℕ) → contains n xs ≡ true
      → ¬ (key n ≡ pos 0)
