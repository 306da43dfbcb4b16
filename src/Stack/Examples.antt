-- ===== src/Stack/Examples.antt =====
-- The stack's theorems on small stacks, and tests.
use otus_work.Base.{ℕ, ◌≡◌, ◌≢◌, ◌⊎◌, refl, true, false, none, some, List, [], ◌∷◌}
use otus_work.Base.Int.{ℤ, pos, negsuc}
use otus_work.Stack.Ops.{
  int_of_word, Stack, stack_push, stack_pop, stack_peek, stack_is_empty, stack_size, stack_clear,
  delete_entries,
}
use otus_work.Stack.Sysfs.{push_store, pop_show, emitted, Sysfs, kernel_stack_init}
use otus_work.Stack.Refine.{
  Call, push, pop, peek, size, is_empty, clear, step, run, run_spec, Holds, RunAgrees, run_agrees,
  kernel_stack_init_lem,
}

abbrev pub two : Stack
two = record { elements = pos 5 ∷ negsuc 0 ∷ []; size = 2 }

two-Holds : Holds (pos 5 ∷ negsuc 0 ∷ []) two
two-Holds = record { elements = refl; size = refl }

abbrev calls : List Call
calls =
    push true (pos 9) ∷ push false (pos 4) ∷ pop ∷ peek ∷ size ∷ pop ∷ is_empty ∷ clear ∷ pop ∷ []

run_test :
    (run calls two).0
    ≡ (pos 0, none)
      ∷ (negsuc 1, none)
      ∷ (pos 0, some (pos 9))
      ∷ (pos 0, some (pos 5))
      ∷ (pos 2, none)
      ∷ (pos 0, some (pos 5))
      ∷ (pos 0, none)
      ∷ (pos 0, none)
      ∷ (negsuc 0, none)
      ∷ []
unfolding run step stack_push stack_pop stack_peek stack_is_empty stack_size stack_clear
    delete_entries int_of_word
run_test = refl

run_agrees_example : RunAgrees (run calls two) (run_spec calls (pos 5 ∷ negsuc 0 ∷ []))
run_agrees_example = run_agrees calls (pos 5 ∷ negsuc 0 ∷ []) two two-Holds

abbrev pub kstrtoint : List ℕ → ℤ × ℤ
kstrtoint [] = (negsuc 21, pos 0)
kstrtoint (c ∷ cs) = (pos 0, pos c)

push_pop_test :
    let (ret, s') = push_store kstrtoint true (7 ∷ []) 1 two in
    (ret ≡ pos 1) × (pop_show s' ≡ (emitted (pos 7), two))
unfolding push_store pop_show stack_push stack_pop
push_pop_test = (refl, refl)

abbrev pub nothing : Sysfs
nothing = record { directory = false; files = false }

kernel_stack_init_lem_example :
    let (ret, k', s') = kernel_stack_init true (negsuc 11) nothing two in
    Holds [] s'
    × (((ret ≡ pos 0) × (k'.directory ≡ true) × (k'.files ≡ true))
        ⊎ ((ret ≢ pos 0) × (k'.directory ≡ false) × (k'.files ≡ false)))
kernel_stack_init_lem_example = kernel_stack_init_lem true (negsuc 11) nothing two refl refl
