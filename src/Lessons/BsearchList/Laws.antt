-- ===== src/Lessons/BsearchList/Laws.antt =====
-- The loop of `my_module_init` finds the smallest value from 35 on, and ends.
use otus_work.Base.{
  ℕ, zero, suc, ◌+◌, ◌-◌, ◌%◌, ◌^◌, ◌<◌, ◌≤◌, ◌≡◌, refl, sym, ap, ◌∙◌, true, false, Option, none,
  some, Option-cases, Bool-cases, inl, inr, List, [], ◌∷◌, ◌==◌, if◌then◌else◌, arith, ltb,
  replicate, ℕ_discrete, ==_yes, ==_no, subst,
}
use otus_work.Base.Int.{ℤ, pos, ltb_ℤ}
use otus_work.Kernel.Hashtable.{contains}
use otus_work.Kernel.Order.{All-map_of_contains, Ordered-map}
use otus_work.Kernel.Sort.{leq, Ordered, IsSorted, IsPartitioned}
use otus_work.Kernel.SwapSort.{SwapSort, SwapSortLaws, contains-sort}
use otus_work.Lessons.Arrays.{u32_mod, Statics, fn_cmp_arr, fn_swap_arr, fill_arr}
use otus_work.Lessons.Arrays.Laws.{
  fn_swap_arr-IsExchange, by_value, by_value-leq, by_value-IsOrder, fn_cmp_arr-Agree,
  fn_cmp_arr-by_value, IsSmall, fill_arr-IsSmall, replicate-IsSmall,
}
use otus_work.Lessons.BsearchList.{
  nr_val, init_arr, init_list, srh_in_arr, next_found, Printed, my_module_init,
}

-- Along values in order, their comparison with a value below 2 ^ 31 goes from above to below.
key_part :
    (t a b : ℕ)
    → t < 2 ^ 31
    → a < 2 ^ 31
    → b < 2 ^ 31
    → a ≤ b
    → (ltb_ℤ (fn_cmp_arr t a) (pos 0) ≡ true → ltb_ℤ (fn_cmp_arr t b) (pos 0) ≡ true)
      × (ltb_ℤ (pos 0) (fn_cmp_arr t b) ≡ true → ltb_ℤ (pos 0) (fn_cmp_arr t a) ≡ true)
unfolding by_value
key_part t a b ht ha hb le =
    rw (fn_cmp_arr-by_value t a ht ha, fn_cmp_arr-by_value t b ht hb)
      ((λ e. ground arith), (λ e. ground arith))

key_eq : (t n : ℕ) → t < 2 ^ 31 → n < 2 ^ 31 → fn_cmp_arr t n ≡ pos 0 → t ≡ n
unfolding by_value
key_eq t n ht hn e = let e' = sym (fn_cmp_arr-by_value t n ht hn) ∙ e in ground arith

eq_key : (t n : ℕ) → t < 2 ^ 31 → n < 2 ^ 31 → t ≡ n → fn_cmp_arr t n ≡ pos 0
unfolding by_value
eq_key t n ht hn e = fn_cmp_arr-by_value t n ht hn ∙ ground arith

-- A sorted array of small values can be searched.
partitioned :
    (t : ℕ) (xs : List ℕ)
    → t < 2 ^ 31
    → IsSmall xs
    → IsSorted by_value xs
    → IsPartitioned (fn_cmp_arr t) xs
partitioned t [] ht small s = tt
partitioned t (x ∷ xs) ht small s = (
  All-map_of_contains (λ b. leq by_value x b ≡ true) _ xs
      (λ b c le.
        key_part t x b ht (omega (arith, small x (ground arith)))
          (omega (arith, small b (ground arith))) (by_value-leq x b le))
      s.0,
  partitioned t xs ht (λ n c. small n (ground arith)) s.1,
)

ltb_self : (lo : ℕ) → lo ≡ nr_val → ltb lo nr_val ≡ false
ltb_self lo e = ground arith

module _ (srt : SwapSort) (laws : SwapSortLaws srt) (arr : List ℕ) (small : IsSmall arr)
    (sorted : IsSorted by_value arr) where
  -- In a sorted array, `srh_in_arr` finds just the values that are there.
  pub srh_in_arr-contains : (t : ℕ) → t ≤ nr_val → srh_in_arr srt arr t ≡ contains t arr
  unfolding srh_in_arr
  srh_in_arr-contains t ht = elim (Option-cases (srt.bsearch (fn_cmp_arr t) arr)) [
    | inl e ↦
        let missing : contains t arr ≡ true → ⊥ = λ c.
          laws.bsearch-none (fn_cmp_arr t) arr (partitioned t arr (omega arith) small sorted) e t c
            (eq_key t t (omega arith) (omega arith) refl) in
        rw (e, srh_in_arr)
          (elim (Bool-cases (contains t arr)) [ inl c ↦ absurd (missing c) | inr c ↦ sym c ])
    | inr (n, e) ↦
        let (there, zero_here) = laws.bsearch-some (fn_cmp_arr t) arr n e in
        let same = key_eq t n (omega arith) (omega (arith, small n there)) zero_here in
        rw (e, srh_in_arr) (sym (ap (λ k. contains k arr) same ∙ there))
  ]

  -- What the loop gives: the smallest value from `lo` on that is there, or 1000 where there is none.
  pub record IsNext (lo t : ℕ) : Type 0 where
    pub range : (lo ≤ t) × (t ≤ nr_val)
    pub there : t < nr_val → contains t arr ≡ true
    pub least : (u : ℕ) → lo ≤ u → u < t → contains u arr ≡ false

  pub next_found-IsNext :
      (rounds lo : ℕ)
      → lo ≤ nr_val
      → nr_val - lo < rounds
      → (t : ℕ) × (next_found srt arr rounds lo ≡ some t) × IsNext lo t
  unfolding next_found
  next_found-IsNext zero lo h enough = absurd (omega arith)
  next_found-IsNext (suc rounds) lo h enough =
      let here = srh_in_arr-contains lo h in
      elim (Bool-cases (contains lo arr)) [
        | inl c ↦ (
          lo,
          rw (here ∙ c, next_found) refl,
          record { range = omega arith; there = λ _. c; least = λ u a b. absurd (omega arith) },
        )
        | inr c ↦ elim (ℕ_discrete lo nr_val) [
          | yes e ↦ (
            lo,
            rw (here ∙ c, ltb_self lo e, next_found) refl,
            record {
              range = omega arith;
              there = λ below. absurd (omega arith);
              least = λ u a b. absurd (omega arith);
            },
          )
          | no ne ↦
              let (t, ran, is) = next_found-IsNext rounds (lo + 1) (omega arith) (omega arith) in
              let going : ltb lo nr_val ≡ true = ground arith in
              let up : (lo + 1) % u32_mod ≡ lo + 1 = omega arith in
              (
                t,
                rw (here ∙ c, going, next_found) (rw up ran),
                record {
                  range = omega (arith, is.range);
                  there = is.there;
                  least = λ u a b. elim (ℕ_discrete lo u) [
                    | yes e ↦ subst (λ k. contains k arr ≡ false) e c
                    | no apart ↦ is.least u (omega arith) b
                  ];
                },
              )
        ]
      ]

-- What is found among values: the smallest from 35 on, if there is one.
abbrev pub Found : List ℕ → Option ℕ → Type 0
Found values none = (u : ℕ) → 35 ≤ u → contains u values ≡ false
Found values (some t) =
    (35 ≤ t) × (contains t values ≡ true) × ((u : ℕ) → 35 ≤ u → u < t → contains u values ≡ false)

-- How the init ends, where `drawn` are the values that it drew.
abbrev pub Ends : List ℕ → Option (ℤ × Printed × Statics) → Type 0
Ends drawn none = ⊥
Ends drawn (some (ret, out, s)) =
    (ret ≡ pos 0)
    × Ordered (λ a b. a ≤ b) out.values
    × ((n : ℕ) → contains n out.values ≡ contains n drawn)
    × Found out.values out.found

IsNext-Found :
    (srt : SwapSort) (laws : SwapSortLaws srt) (arr : List ℕ) (small : IsSmall arr)
    (sorted : IsSorted by_value arr) (t : ℕ)
    → IsNext srt laws arr small sorted 35 t
    → Found arr (if t == nr_val then none else some t)
IsNext-Found srt laws arr small sorted t is = elim (ℕ_discrete t nr_val) [
  | yes e ↦ rw (==_yes e) λ u from. elim (Bool-cases (contains u arr)) [
    | inr out ↦ out
    | inl c ↦ is.least u from (omega (arith, small u c))
  ]
  | no ne ↦ rw (==_no ne) (is.range.0, is.there (omega (arith, is.range)), is.least)
]

-- The init, as the module is loaded, ends where its loop is granted 966 rounds: it returns 0, prints the
-- values it drew in rising order, and reports the smallest of them from 35 on, or none exactly
-- where none is. `sort` and `bsearch` do as documented.
pub my_module_init-Ends :
    (srt : SwapSort)
    → SwapSortLaws srt
    → (random : ℕ → ℕ) (rounds : ℕ) (s : Statics) → s.arr ≡ replicate nr_val 0
    → 965 < rounds
    → Ends (init_arr random s).arr (my_module_init srt random rounds s)
unfolding my_module_init init_arr init_list
my_module_init-Ends srt laws random rounds s cleared enough =
    let drawn = fill_arr random nr_val 0 s.arr in
    let (small, _) =
      fill_arr-IsSmall random nr_val 0 s.arr (rw cleared (replicate-IsSmall nr_val)) in
    let ex = fn_swap_arr-IsExchange in
    let arr = srt.sort fn_cmp_arr fn_swap_arr drawn in
    let same = contains-sort srt laws fn_cmp_arr fn_swap_arr drawn ex in
    let agree = fn_cmp_arr-Agree drawn (λ n c. omega (arith, small n c)) in
    let sorted =
      laws.sort-IsSorted fn_cmp_arr by_value fn_swap_arr drawn ex by_value-IsOrder agree in
    let small' : IsSmall arr = λ n c. small n (sym (same n) ∙ c) in
    let (t, ran, is) =
      next_found-IsNext srt laws arr small' sorted rounds 35 (omega arith) (omega arith) in
    rw (ran, my_module_init)
      (
        refl,
        Ordered-map (λ a b. leq by_value a b ≡ true) (λ a b. a ≤ b) arr by_value-leq sorted,
        same,
        IsNext-Found srt laws arr small' sorted t is,
      )
