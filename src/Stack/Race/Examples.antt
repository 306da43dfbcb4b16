-- ===== src/Stack/Race/Examples.antt =====
-- The theorems on a stack of two entries, and tests.
use otus_work.Base.{ℕ, ◌≡◌, ◌⊎◌, refl, ◌==◌, if◌then◌else◌, Option, none, some, List, [], ◌∷◌, ◌++◌}
use otus_work.Base.Int.{ℤ, pos}
use otus_work.Stack.Race.{
  Shared, World, start, run, popped, finishes, advance, stack_pop_step, list_first_entry, list_del,
  kfree, under_way,
}
use otus_work.Stack.Race.Alone.{Pops, alone, run-stack_pop}
use otus_work.Stack.Race.Exclusive.{Overlap, Sound, run-Sound}
use otus_work.Stack.Race.Fault.{same_entry, Dangles, run-same_entry}

abbrev two : Shared
two = record {
  elements = 8 ∷ 9 ∷ [];
  data_at = λ a. if a == 8 then some (pos 5) else (if a == 9 then some (pos 6) else none);
  size = 2;
}

abbrev fresh : World
fresh = record { calls = λ i. start; shared = two }

run-stack_pop_example : Pops 0 1 start (pos 5 ∷ pos 6 ∷ []) (run (alone 0) fresh)
run-stack_pop_example =
    run-stack_pop 0 1 start fresh (pos 5 ∷ pos 6 ∷ []) (λ e. cc) refl refl
      (refl, refl, (refl, refl, refl)) refl

run-same_entry_example : Dangles 0 1 8 (pos 5) (run (same_entry 0 1) fresh)
run-same_entry_example = run-same_entry 0 1 fresh 8 (9 ∷ []) (pos 5) (λ e. cc) refl refl refl refl

abbrev numbers : List ℤ
numbers = pos 5 ∷ pos 6 ∷ []

fresh-Sound : Sound numbers fresh
unfolding under_way
fresh-Sound = (
  0,
  record {
    others = λ j ne. refl;
    fits = record { linked = (refl, refl, (refl, refl, refl)); size = refl };
  },
)

-- Two calls one after the other.
abbrev in_turn : List ℕ
in_turn = 1 ∷ 1 ∷ 1 ∷ 1 ∷ 1 ∷ 1 ∷ 1 ∷ 0 ∷ 0 ∷ 0 ∷ 0 ∷ 0 ∷ 0 ∷ 0 ∷ []

run-Sound_example :
    Overlap in_turn fresh
    ⊎ ((w : World) × (left : List ℤ) × (run in_turn fresh ≡ some w)
        × (numbers ≡ popped in_turn fresh ++ left)
        × Sound left w)
run-Sound_example = run-Sound in_turn numbers fresh fresh-Sound

popped_test : popped in_turn fresh ≡ numbers
unfolding run popped finishes advance stack_pop_step list_first_entry list_del kfree
popped_test = refl

-- Two calls that both read the size before one writes it lower it once.
abbrev size_after : Option World → Option ℕ
size_after none = none
size_after (some w) = some w.shared.size

lost_update_test :
    size_after (run (0 ∷ 0 ∷ 0 ∷ 0 ∷ 1 ∷ 1 ∷ 1 ∷ 1 ∷ 0 ∷ 1 ∷ 0 ∷ 1 ∷ 0 ∷ 1 ∷ []) fresh) ≡ some 1
unfolding run advance stack_pop_step list_first_entry list_del kfree
lost_update_test = refl
