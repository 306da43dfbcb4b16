-- ===== src/Lessons/Arrays/Laws.antt =====
-- What the comparison, the exchange and the loops of the arrays do.
use otus_work.Base.{
  ℕ, zero, suc, ◌+◌, ◌-◌, ◌%◌, ◌^◌, ◌<◌, ◌≤◌, ◌≡◌, inl, inr, refl, sym, ◌∙◌, true, some, List, [],
  ◌∷◌, if◌then◌else◌, ltb, arith, length, get_elem?, get_or, set, length-set, get_elem?-set_self,
  get_elem?-set_ne, ℕ_discrete, dec_lt, subst, ◌++◌, map, replicate, length-append, ==_yes,
}
use mathlib.Core.Bool.{false≢true}
use mathlib.Core.List.{append_assoc, append-nil}
use otus_work.Base.Int.{ℤ, pos, negsuc}
use otus_work.Kernel.Hashtable.{contains}
use otus_work.Kernel.Sort.{leq, IsOrder}
use otus_work.Kernel.SwapSort.{IsExchange, Agree}
use otus_work.Lessons.Arrays.{fn_cmp_arr, fn_swap_arr, fill_arr, fill_list}

get_elem?-get_or : (xs : List ℕ) (i d : ℕ) → i < length xs → get_elem? xs i ≡ some (get_or xs i d)
get_elem?-get_or [] i d h = absurd (omega arith)
get_elem?-get_or (x ∷ xs) zero d h = refl
get_elem?-get_or (x ∷ xs) (suc i) d h = get_elem?-get_or xs i d (omega arith)

-- `fn_swap_arr` exchanges two entries, also where they are one.
pub fn_swap_arr-IsExchange : IsExchange fn_swap_arr
unfolding fn_swap_arr
fn_swap_arr-IsExchange = record {
  size = λ xs i j.
      length-set (set xs j (get_or xs i 0)) i (get_or xs j 0) ∙ length-set xs j (get_or xs i 0);
  left = λ xs i j hi hj.
      get_elem?-set_self (set xs j (get_or xs i 0)) i (get_or xs j 0)
        (omega (arith, length-set xs j (get_or xs i 0)))
      ∙ sym (get_elem?-get_or xs j 0 hj);
  right = λ xs i j hi hj. elim (ℕ_discrete i j) [
    | yes e ↦
        subst (λ k. get_elem? (set (set xs k (get_or xs i 0)) i (get_or xs k 0)) k ≡ get_elem? xs i)
          e
          (get_elem?-set_self (set xs i (get_or xs i 0)) i (get_or xs i 0)
              (omega (arith, length-set xs i (get_or xs i 0)))
            ∙ sym (get_elem?-get_or xs i 0 hi))
    | no ne ↦
        get_elem?-set_ne (set xs j (get_or xs i 0)) (get_or xs j 0) ne
        ∙ get_elem?-set_self xs j (get_or xs i 0) hj
        ∙ sym (get_elem?-get_or xs i 0 hi)
  ];
  others = λ xs i j k ni nj.
      get_elem?-set_ne (set xs j (get_or xs i 0)) (get_or xs j 0) (λ e. ni (sym e))
      ∙ get_elem?-set_ne xs (get_or xs i 0) (λ e. nj (sym e));
}

-- The comparison of the values themselves.
unfoldable pub by_value : ℕ → ℕ → ℤ
by_value a b = if ltb a b then negsuc (b - a - 1) else pos (a - b)

pub by_value-leq : (a b : ℕ) → leq by_value a b ≡ true → a ≤ b
unfolding by_value
by_value-leq a b h = ground arith

leq-by_value : (a b : ℕ) → a ≤ b → leq by_value a b ≡ true
unfolding by_value
leq-by_value a b h = ground arith

pub by_value-IsOrder : IsOrder by_value
by_value-IsOrder = record {
  total = λ a b. elim (dec_lt b a) [
    | yes p ↦ inr (leq-by_value b a (omega arith))
    | no p ↦ inl (leq-by_value a b (omega arith))
  ];
  trans =
      λ a b c hab hbc. leq-by_value a c (omega (arith, by_value-leq a b hab, by_value-leq b c hbc));
}

-- Below 2 ^ 31 the difference of two values does not wrap.
pub fn_cmp_arr-by_value : (a b : ℕ) → a < 2 ^ 31 → b < 2 ^ 31 → fn_cmp_arr a b ≡ by_value a b
unfolding fn_cmp_arr by_value
fn_cmp_arr-by_value a b ha hb = ground arith

pub fn_cmp_arr-Agree :
    (xs : List ℕ) → ((n : ℕ) → contains n xs ≡ true → n < 2 ^ 31) → Agree fn_cmp_arr by_value xs
fn_cmp_arr-Agree xs small a b ca cb = fn_cmp_arr-by_value a b (small a ca) (small b cb)

-- Every value of the array is below 1000.
abbrev pub IsSmall : List ℕ → Type 0
IsSmall xs = (n : ℕ) → contains n xs ≡ true → n < 1000

set-IsSmall : (xs : List ℕ) (i v : ℕ) → IsSmall xs → v < 1000 → IsSmall (set xs i v)
set-IsSmall [] i v k small n c = absurd (false≢true c)
set-IsSmall (x ∷ xs) zero v k small n c = elim (ℕ_discrete v n) [
  | yes e ↦ subst (λ m. m < 1000) e small
  | no ne ↦ k n (ground arith)
]
set-IsSmall (x ∷ xs) (suc i) v k small n c = elim (ℕ_discrete x n) [
  | yes e ↦ k n (rw (==_yes e) refl)
  | no ne ↦ set-IsSmall xs i v (λ m h. k m (ground arith)) small n (ground arith)
]

pub fill_arr-IsSmall :
    (random : ℕ → ℕ) (rounds i : ℕ) (arr : List ℕ)
    → IsSmall arr
    → IsSmall (fill_arr random rounds i arr) × (length (fill_arr random rounds i arr) ≡ length arr)
unfolding fill_arr
fill_arr-IsSmall random zero i arr k = (k, refl)
fill_arr-IsSmall random (suc rounds) i arr k =
    let v = random i % 1000 in
    let (small, size) =
      fill_arr-IsSmall random rounds (i + 1) (set arr i v) (set-IsSmall arr i v k (omega arith)) in
    (small, size ∙ length-set arr i v)

pub replicate-IsSmall : (n : ℕ) → IsSmall (replicate n 0)
replicate-IsSmall zero m c = absurd (false≢true c)
replicate-IsSmall (suc n) m c = elim (ℕ_discrete 0 m) [
  | yes e ↦ subst (λ k. k < 1000) e (omega arith)
  | no ne ↦ replicate-IsSmall n m (ground arith)
]

-- The indices from `i` on.
abbrev pub indices : ℕ → ℕ → List ℕ
indices zero i = []
indices (suc n) i = i ∷ indices n (i + 1)

pub fill_list-indices :
    (rounds i : ℕ) (nodes : List ℕ) → fill_list rounds i nodes ≡ nodes ++ indices rounds i
unfolding fill_list
fill_list-indices zero i nodes = sym (append-nil nodes)
fill_list-indices (suc rounds) i nodes =
    fill_list-indices rounds (i + 1) (nodes ++ i ∷ [])
    ∙ append_assoc nodes (i ∷ []) (indices rounds (i + 1))

get_or-append :
    (pre : List ℕ) (x : ℕ) (xs : List ℕ) (i : ℕ) → i ≡ length pre → get_or (pre ++ x ∷ xs) i 0 ≡ x
get_or-append [] x xs zero e = refl
get_or-append [] x xs (suc i) e = absurd (omega arith)
get_or-append (y ∷ pre) x xs zero e = absurd (omega arith)
get_or-append (y ∷ pre) x xs (suc i) e = get_or-append pre x xs i (omega arith)

-- To read all entries by their indices is to read the array; here behind the entries `pre`.
pub read_all :
    (pre xs : List ℕ) (i : ℕ)
    → i ≡ length pre
    → map (λ k. get_or (pre ++ xs) k 0) (indices (length xs) i) ≡ xs
read_all pre [] i e = refl
read_all pre (x ∷ xs) i e =
    let moved = append_assoc pre (x ∷ []) xs in
    let rest : map (λ k. get_or (pre ++ x ∷ xs) k 0) (indices (length xs) (i + 1)) ≡ xs =
      subst (λ zs. map (λ k. get_or zs k 0) (indices (length xs) (i + 1)) ≡ xs) moved
        (read_all (pre ++ x ∷ []) xs (i + 1) (omega (arith, length-append pre (x ∷ [])))) in
    (λ j. get_or-append pre x xs i e j ∷ rest j)
