-- ===== src/Stack/Race/Alone.antt =====
-- A call of `stack_pop` of Linux_kernel/HW_03_kernel_stack/lib/stack_ops.c between whose accesses no other
-- call makes one.
use otus_work.Base.{
  ℕ, ◌≡◌, ◌≢◌, ◌-◌, ◌+◌, ◌%◌, refl, sym, ap, Option, some, List, [], ◌∷◌, ◌⊎◌, subst, inl, inr,
  List-cases, length, ◌∙◌,
}
use otus_work.Base.Int.{ℤ}
use otus_work.Stack.Ops.{int_mod, Stack, stack_pop}
use otus_work.Stack.Refine.{Answer, pop, spec, step, step_lem}
use otus_work.Stack.Race.{Shared, Pop, start, returned, World, run, Linked, stack_pop_step}
use otus_work.Stack.Race.Fits.{Linked-free}
use otus_work.Stack.Race.Steps.{
  Stand, run-first, start-empty, start-more, tested_lem, chosen_lem, copied_lem, lowered_lem,
  run-nil,
}

cons_not_nil : (v : ℤ) (vs : List ℤ) → v ∷ vs ≢ []
cons_not_nil v vs e = cc

-- As many accesses as a call makes.
abbrev pub alone : ℕ → List ℕ
alone i = i ∷ i ∷ i ∷ i ∷ i ∷ i ∷ i ∷ []

-- The shared stack stands for a stack of the model in Stack/Ops.
pub record Shows (t : Stack) (s : Shared) : Type 0 where
  pub linked : Linked s.data_at s.elements t.elements
  pub size : s.size ≡ t.size

-- The call has returned what it should, another call stands where it stood, and the shared stack shows
-- what it should.
pub record Popped (i j : ℕ) (ret : ℤ) (value : Option ℤ) (q : Pop) (t : Stack) (w : World)
    : Type 0 where
  pub done : w.calls i ≡ returned ret value
  pub other : w.calls j ≡ q
  pub shows : Shows t w.shared

-- The same against a list of numbers: what the call answers, and what the entries hold.
pub record Answered (i j : ℕ) (a : Answer) (q : Pop) (vs : List ℤ) (w : World) : Type 0 where
  pub done : w.calls i ≡ returned a.0 a.1
  pub other : w.calls j ≡ q
  pub linked : Linked w.shared.data_at w.shared.elements vs
  pub size : w.shared.size ≡ length vs % int_mod

module _ (i j : ℕ) (q : Pop) where
  abbrev pub Pops : List ℤ → Option World → Type 0
  Pops vs reached =
      (w : World) × (reached ≡ some w) × Answered i j (spec pop vs).0 q (spec pop vs).1 w

  abbrev Ends : ℤ × Option ℤ × Stack → Option World → Type 0
  Ends (ret, value, t) reached = (w : World) × (reached ≡ some w) × Popped i j ret value q t w

  -- A call on an empty stack returns at its first access, and what it is asked for then does nothing.
  alone-empty :
      (w : World) (s : Shared) (size : ℕ)
      → Stand i j start q s w
      → s.elements ≡ []
      → Shows (record { elements = []; size = size }) s
      → Ends (stack_pop (record { elements = []; size = size })) (run (alone i) w)
  unfolding stack_pop_step stack_pop
  alone-empty w s size st el shows =
      let P = Ends (stack_pop (record { elements = []; size = size })) in
      run-first P _ st (start-empty s el) λ _ a. run-first P _ a refl λ _ a.
        run-first P _ a refl λ _ a. run-first P _ a refl λ _ a. run-first P _ a refl λ _ a.
          run-first P _ a refl λ _ a. run-first P _ a refl λ w' a. (
            w',
            run-nil w',
            record {
              done = a.first;
              other = a.second;
              shows = subst (Shows _) (sym a.shared) shows;
            },
          )

  alone-more :
      (w : World) (s : Shared) (e : ℕ) (rest : List ℕ) (v : ℤ) (vs : List ℤ) (size : ℕ)
      → Stand i j start q s w
      → s.elements ≡ e ∷ rest
      → Shows (record { elements = v ∷ vs; size = size }) s
      → Ends (stack_pop (record { elements = v ∷ vs; size = size })) (run (alone i) w)
  unfolding stack_pop_step stack_pop
  alone-more w s e rest v vs size st el shows =
      let P = Ends (stack_pop (record { elements = v ∷ vs; size = size })) in
      let l = subst (λ es. Linked s.data_at es (v ∷ vs)) el shows.linked in
      let s' = record s { elements = rest; size = (s.size + (int_mod - 1)) % int_mod } in
      run-first P _ st (start-more s e rest el) λ _ a.
        run-first P _ a (tested_lem s e rest el) λ _ a.
          run-first P _ a (chosen_lem s e v l.0) λ _ a.
            run-first P _ a (copied_lem s e rest v v el l.0) λ _ a. run-first P _ a refl λ _ a.
              run-first P _ a refl λ _ a. run-first P _ a (lowered_lem s' e v v l.0) λ w' a. (
                w',
                run-nil w',
                record {
                  done = a.first;
                  other = a.second;
                  shows = subst (Shows _) (sym a.shared) (record {
                    linked = Linked-free s.data_at e rest vs l.1 l.2;
                    size = ap (λ n. (n + (int_mod - 1)) % int_mod) shows.size;
                  });
                },
              )

  -- The seven accesses leave what `stack_pop` as one step leaves.
  as_one_step :
      (w : World) (t : Stack)
      → i ≢ j
      → w.calls i ≡ start
      → w.calls j ≡ q
      → Shows t w.shared
      → Ends (stack_pop t) (run (alone i) w)
  as_one_step w t ne si sj shows = go t.elements (List-cases w.shared.elements) shows
    where
      st : Stand i j start q w.shared w
      st = record { apart = ne; first = si; second = sj; shared = refl }

      go :
          (vs : List ℤ)
          → (w.shared.elements ≡ []) ⊎ ((e : ℕ) × (rest : List ℕ) × (w.shared.elements ≡ e ∷ rest))
          → Shows (record t { elements = vs }) w.shared
          → Ends (stack_pop (record t { elements = vs })) (run (alone i) w)
      go [] (inl el) shows = alone-empty w w.shared t.size st el shows
      go (v ∷ vs) (inl el) shows =
          absurd
            (cons_not_nil v vs (subst (λ es. Linked w.shared.data_at es (v ∷ vs)) el shows.linked))
      go [] (inr (e, rest, el)) shows =
          absurd (subst (λ es. Linked w.shared.data_at es []) el shows.linked refl)
      go (v ∷ vs) (inr (e, rest, el)) shows = alone-more w w.shared e rest v vs t.size st el shows

  -- Seven accesses of a call of `stack_pop` with no other between them, where the entries hold a list of
  -- numbers and the size is the list's length as an `int`: all are carried out. From the empty
  -- list the call has returned STACK_EMPTY and no number, and the stack is as it was; else it has
  -- returned STACK_OK and the first number, the entries hold the others, and the size is their
  -- number as an `int`. Another call stands where it stood. The linked entries are allocated and
  -- distinct.
  pub run-stack_pop :
      (w : World) (vs : List ℤ)
      → i ≢ j
      → w.calls i ≡ start
      → w.calls j ≡ q
      → Linked w.shared.data_at w.shared.elements vs
      → w.shared.size ≡ length vs % int_mod
      → Pops vs (run (alone i) w)
  unfolding step
  run-stack_pop w vs ne si sj l size =
      let t : Stack = record { elements = vs; size = length vs % int_mod } in
      let (w', ran, p) = as_one_step w t ne si sj (record { linked = l; size = size }) in
      let (same, holds) = step_lem pop vs t (record { elements = refl; size = refl }) in
      (
        w',
        ran,
        record {
          done = p.done ∙ (λ k. returned (same k).0 (same k).1);
          other = p.other;
          linked =
              subst (Linked w'.shared.data_at w'.shared.elements) holds.elements p.shows.linked;
          size = p.shows.size ∙ holds.size;
        },
      )
