-- ===== src/Stack/Race/Fault.antt =====
-- Two calls of `stack_pop` of Linux_kernel/HW_03_kernel_stack/lib/stack_ops.c that take the same entry.
use otus_work.Base.{
  Option, ℕ, ◌≡◌, ◌≢◌, ◌-◌, ◌+◌, ◌%◌, refl, ◌==◌, if◌then◌else◌, none, some, List, [], ◌∷◌, ==_yes,
}
use otus_work.Base.Int.{ℤ}
use otus_work.Stack.Ops.{int_mod, stack_ok}
use otus_work.Stack.Race.{start, chosen, returned, World, advance, run, stack_pop_step}
use otus_work.Stack.Race.Steps.{
  start-more, tested_lem, chosen_lem, chosen-lost, copied_lem, lowered_lem, run-first, run-nil,
  advance-lost, Stand-swap,
}

-- Two calls test the list and take its first entry, then the first of them goes on to its end.
abbrev pub same_entry : ℕ → ℕ → List ℕ
same_entry i j = i ∷ i ∷ j ∷ j ∷ i ∷ i ∷ i ∷ i ∷ i ∷ []

-- The first call has returned the number of the entry, which is freed; the second has the entry as the one
-- to read, and its next access has no result.
pub record Dangling (i j e : ℕ) (v : ℤ) (w : World) : Type 0 where
  pub gone : w.calls i ≡ returned stack_ok (some v)
  pub held : w.calls j ≡ chosen e
  pub freed : w.shared.data_at e ≡ none
  pub lost : advance j w ≡ none

abbrev pub Dangles : ℕ → ℕ → ℕ → ℤ → Option World → Type 0
Dangles i j e v reached = (w : World) × (reached ≡ some w) × Dangling i j e v w

-- Where two calls have not begun and the stack is not empty, there is a schedule of nine accesses, all of
-- which are carried out, after which the first call has returned the first number and freed its
-- entry, and the second is about to read the number in that same entry. That read has no result.
pub run-same_entry :
    (i j : ℕ) (w : World) (e : ℕ) (rest : List ℕ) (v : ℤ)
    → i ≢ j
    → w.calls i ≡ start
    → w.calls j ≡ start
    → w.shared.elements ≡ e ∷ rest
    → w.shared.data_at e ≡ some v
    → Dangles i j e v (run (same_entry i j) w)
unfolding stack_pop_step
run-same_entry i j w e rest v ne si sj el there =
    let P = Dangles i j e v in
    let s = w.shared in
    let s1 = record s { elements = rest } in
    let s2 = record s1 { size = (s.size + (int_mod - 1)) % int_mod } in
    let s3 = record s2 { data_at = λ a. if a == e then none else s.data_at a } in
    let lost : s3.data_at e ≡ none = rw (==_yes {a = e} refl) refl in
    run-first P _ (record { apart = ne; first = si; second = sj; shared = refl })
      (start-more s e rest el)
      λ _ a. run-first P _ a (tested_lem s e rest el) λ _ a.
        run-first P _ (Stand-swap a) (start-more s e rest el) λ _ a.
          run-first P _ a (tested_lem s e rest el) λ _ a.
            run-first P _ (Stand-swap a) (chosen_lem s e v there) λ _ a.
              run-first P _ a (copied_lem s e rest v v el there) λ _ a. run-first P _ a refl λ _ a.
                run-first P _ a refl λ _ a. run-first P _ a (lowered_lem s2 e v v there) λ w' a. (
                  w',
                  run-nil w',
                  record {
                    gone = a.first;
                    held = a.second;
                    freed = rw a.shared lost;
                    lost = advance-lost (Stand-swap a) (chosen-lost s3 e lost);
                  },
                )
