-- ===== src/Kernel/Order.antt =====
-- Lists of pointers in order: what holds of the entries that are taken from the front.
use otus_work.Base.{ℕ, zero, suc, ◌≡◌, true, false, List, [], ◌∷◌, arith, take, ℕ_discrete, subst}
use mathlib.Core.Bool.{false≢true}
use otus_work.Kernel.Hashtable.{contains}
use otus_work.Kernel.Sort.{All, Ordered}

pub All-contains : (P : ℕ → Type 0) (m : ℕ) (xs : List ℕ) → All P xs → contains m xs ≡ true → P m
All-contains P m [] all c = absurd (false≢true c)
All-contains P m (x ∷ xs) all c = elim (ℕ_discrete x m) [
  | yes same ↦ subst P same all.0
  | no other ↦ All-contains P m xs all.1 (ground arith)
]

pub All-map : (P Q : ℕ → Type 0) (xs : List ℕ) → ((x : ℕ) → P x → Q x) → All P xs → All Q xs
All-map P Q [] f all = tt
All-map P Q (x ∷ xs) f all = (f x all.0, All-map P Q xs f all.1)

-- The same, where the entries' being in the list may be used.
pub All-map_of_contains :
    (P Q : ℕ → Type 0) (xs : List ℕ)
    → ((x : ℕ) → contains x xs ≡ true → P x → Q x)
    → All P xs
    → All Q xs
All-map_of_contains P Q [] f all = tt
All-map_of_contains P Q (x ∷ xs) f all =
    (f x (ground arith) all.0, All-map_of_contains P Q xs (λ y c. f y (ground arith)) all.1)

pub All-take : (P : ℕ → Type 0) (n : ℕ) (xs : List ℕ) → All P xs → All P (take n xs)
All-take P zero xs all = tt
All-take P (suc n) [] all = tt
All-take P (suc n) (x ∷ xs) all = (all.0, All-take P n xs all.1)

-- What was taken was there.
pub contains-take : (n m : ℕ) (xs : List ℕ) → contains m (take n xs) ≡ true → contains m xs ≡ true
contains-take zero m xs c = absurd (false≢true c)
contains-take (suc n) m [] c = absurd (false≢true c)
contains-take (suc n) m (x ∷ xs) c = elim (ℕ_discrete x m) [
  | yes same ↦ ground arith
  | no other ↦ ground (arith, contains-take n m xs)
]

module _ (R : ℕ → ℕ → Type 0) where
  pub Ordered-take : (n : ℕ) (xs : List ℕ) → Ordered R xs → Ordered R (take n xs)
  Ordered-take zero xs o = tt
  Ordered-take (suc n) [] o = tt
  Ordered-take (suc n) (x ∷ xs) o = (All-take (R x) n xs o.0, Ordered-take n xs o.1)

  -- What was taken stands in the relation to what was not.
  pub Ordered-taken :
      (n : ℕ) (xs : List ℕ) (c m : ℕ)
      → Ordered R xs
      → contains c (take n xs) ≡ true
      → contains m xs ≡ true
      → contains m (take n xs) ≡ false
      → R c m
  Ordered-taken zero xs c m o hc hm out = absurd (false≢true hc)
  Ordered-taken (suc n) [] c m o hc hm out = absurd (false≢true hc)
  Ordered-taken (suc n) (x ∷ xs) c m o hc hm out = elim (ℕ_discrete x c) [
    | yes same ↦ subst (λ t. R t m) same (All-contains (R x) m xs o.0 (ground arith))
    | no other ↦ Ordered-taken n xs c m o.1 (ground arith) (ground arith) (ground arith)
  ]

pub Ordered-map :
    (R S : ℕ → ℕ → Type 0) (xs : List ℕ) → ((a b : ℕ) → R a b → S a b) → Ordered R xs → Ordered S xs
Ordered-map R S [] f o = tt
Ordered-map R S (x ∷ xs) f o = (All-map (R x) (S x) xs (f x) o.0, Ordered-map R S xs f o.1)
