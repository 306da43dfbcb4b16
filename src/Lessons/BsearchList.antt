-- ===== src/Lessons/BsearchList.antt =====
-- Linux_kernel/Lesson 12/bsearch_list-510203-441135.c: random values, sorted in an array in which the
-- smallest value from 35 on is then looked for by halves.
pub mod Laws
use otus_work.Base.{
  ℕ, zero, suc, ◌+◌, ◌%◌, Bool, true, false, not, ◌&&◌, Option, none, some, List, ◌==◌,
  if◌then◌else◌, ltb,
}
use otus_work.Base.Int.{ℤ, pos}
use otus_work.Kernel.SwapSort.{SwapSort}
use otus_work.Lessons.Arrays.{u32_mod, Statics, fn_cmp_arr, fn_swap_arr, fill_arr, fill_list}

abbrev pub nr_val : ℕ
nr_val = 1000

unfoldable pub init_arr : (ℕ → ℕ) → Statics → Statics
init_arr random s = record s { arr = fill_arr random nr_val 0 s.arr }

unfoldable pub init_list : Statics → Statics
init_list s = record s { my_list = fill_list nr_val 0 s.my_list }

unfoldable pub srh_in_arr : SwapSort → List ℕ → ℕ → Bool
srh_in_arr srt arr target = elim (srt.bsearch (fn_cmp_arr target) arr) [
  | none ↦ false
  | some result ↦ true
]

-- The `while` loop of `my_module_init`: `target.val` after it, or `none` where it makes more rounds
-- than were granted.
unfoldable pub next_found : SwapSort → List ℕ → ℕ → ℕ → Option ℕ
next_found srt arr zero target = none
next_found srt arr (suc rounds) target =
    elim (not (srh_in_arr srt arr target) && ltb target nr_val) [
      | true ↦ next_found srt arr rounds ((target + 1) % u32_mod)
      | false ↦ some target
    ]

-- What is printed: the value that was found, if one was, and the array.
pub record Printed : Type 0 where
  pub found : Option ℕ
  pub values : List ℕ

unfoldable pub my_module_init : SwapSort → (ℕ → ℕ) → ℕ → Statics → Option (ℤ × Printed × Statics)
my_module_init srt random rounds s =
    let s₁ = init_arr random s in
    let s₂ : Statics = record s₁ { arr = srt.sort fn_cmp_arr fn_swap_arr s₁.arr } in
    let s₃ = init_list s₂ in
    elim (next_found srt s₃.arr rounds 35) [
      | none ↦ none
      | some val ↦
          some (
            pos 0,
            record { found = if val == nr_val then none else some val; values = s₃.arr },
            s₃,
          )
    ]
