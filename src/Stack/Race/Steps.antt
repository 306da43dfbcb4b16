-- ===== src/Stack/Race/Steps.antt =====
-- The accesses of `stack_pop` of Linux_kernel/HW_03_kernel_stack/lib/stack_ops.c, where they are allowed.
use otus_work.Base.{
  Option, ℕ, ◌≡◌, refl, ◌==◌, if◌then◌else◌, none, some, List, [], ◌∷◌, ==_yes, ==_no, ◌≢◌, sym,
  false, inl, inr, List-cases,
}
use otus_work.Base.Int.{ℤ}
use otus_work.Stack.Ops.{stack_ok, stack_empty}
use otus_work.Stack.Race.{
  Shared, start, tested, chosen, copied, unlinked, lowering, lowered, returned, list_del, kfree,
  list_first_entry, stack_pop_step, Pop, World, update, advance, under_way, run, finishes,
}

module _ (s : Shared) where
  pub start-empty : s.elements ≡ [] → stack_pop_step start s ≡ some (returned stack_empty none, s)
  unfolding stack_pop_step
  start-empty el = rw el refl

  module _ (e : ℕ) (rest : List ℕ) where
    pub start-more : s.elements ≡ e ∷ rest → stack_pop_step start s ≡ some (tested, s)
    unfolding stack_pop_step
    start-more el = rw el refl

    pub tested_lem : s.elements ≡ e ∷ rest → stack_pop_step tested s ≡ some (chosen e, s)
    unfolding stack_pop_step list_first_entry
    tested_lem el = rw el refl

    pub copied_lem :
        (v w : ℤ)
        → s.elements ≡ e ∷ rest
        → s.data_at e ≡ some w
        → stack_pop_step (copied e v) s ≡ some (unlinked e v, record s { elements = rest })
    unfolding stack_pop_step list_del
    copied_lem v w el there = rw (there, el, ==_yes {a = e} refl, stack_pop_step, list_del) refl

  module _ (e : ℕ) where
    pub chosen_lem :
        (v : ℤ) → s.data_at e ≡ some v → stack_pop_step (chosen e) s ≡ some (copied e v, s)
    unfolding stack_pop_step
    chosen_lem v there = rw (there, stack_pop_step) refl

    pub chosen-lost : s.data_at e ≡ none → stack_pop_step (chosen e) s ≡ none
    unfolding stack_pop_step
    chosen-lost lost = rw (lost, stack_pop_step) refl

    pub lowered_lem :
        (v w : ℤ)
        → s.data_at e ≡ some w
        → stack_pop_step (lowered e v) s
          ≡ some (
            returned stack_ok (some v),
            record s { data_at = λ a. if a == e then none else s.data_at a },
          )
    unfolding stack_pop_step kfree
    lowered_lem v w there = rw (there, stack_pop_step, kfree) refl

-- A call that has not begun, or has returned, leaves the shared stack as it is.
pub quiet_step :
    (p : Pop) (s : Shared)
    → under_way p ≡ false
    → (p' : Pop) × (stack_pop_step p s ≡ some (p', s)) × (finishes p ≡ [])
unfolding under_way stack_pop_step finishes
quiet_step start s quiet = elim (List-cases s.elements) [
  | inl empty ↦ (returned stack_empty none, start-empty s empty, refl)
  | inr (e, rest, el) ↦ (tested, start-more s e rest el, refl)
]
quiet_step (returned ret v) s quiet = (returned ret v, refl, refl)
quiet_step tested s quiet = absurd (cc)
quiet_step (chosen e) s quiet = absurd (cc)
quiet_step (copied e v) s quiet = absurd (cc)
quiet_step (unlinked e v) s quiet = absurd (cc)
quiet_step (lowering e v n) s quiet = absurd (cc)
quiet_step (lowered e v) s quiet = absurd (cc)

pub advance_lem :
    (i : ℕ) (w : World) (p : Pop) (s : Shared)
    → stack_pop_step (w.calls i) w.shared ≡ some (p, s)
    → advance i w ≡ some (record { calls = update i p w.calls; shared = s })
unfolding advance
advance_lem i w p s e = rw (e, advance) refl

-- Where two calls stand, and what is shared.
pub record Stand (i j : ℕ) (p q : Pop) (s : Shared) (w : World) : Type 0 where
  pub apart : i ≢ j
  pub first : w.calls i ≡ p
  pub second : w.calls j ≡ q
  pub shared : w.shared ≡ s

module _ {i j : ℕ} {p q p' : Pop} {s s' : Shared} {w : World} where
  -- What holds of every run from where the first call has moved holds of the run that moves it.
  pub run-first :
      (P : Option World → Type 0) (is : List ℕ)
      → Stand i j p q s w
      → stack_pop_step p s ≡ some (p', s')
      → ((w' : World) → Stand i j p' q s' w' → P (run is w'))
      → P (run (i ∷ is) w)
  unfolding run
  run-first P is st e next =
      let here = advance_lem i w p' s' (rw (st.first, st.shared) e) in
      rw (here, run)
        (next (record { calls = update i p' w.calls; shared = s' })
          (record {
            apart = st.apart;
            first = rw (==_yes {a = i} refl) refl;
            second = rw (==_no (λ same. st.apart (sym same))) st.second;
            shared = refl;
          }))

pub advance-lost :
    {i j : ℕ} {p q : Pop} {s : Shared} {w : World}
    → Stand i j p q s w
    → stack_pop_step p s ≡ none
    → advance i w ≡ none
unfolding advance
advance-lost st e = rw (st.first, st.shared, e, advance) refl

pub Stand-swap :
    {i j : ℕ} {p q : Pop} {s : Shared} {w : World} → Stand i j p q s w → Stand j i q p s w
Stand-swap st = record {
  apart = λ same. st.apart (sym same);
  first = st.second;
  second = st.first;
  shared = st.shared;
}

pub run-nil : (w : World) → run [] w ≡ some w
unfolding run
run-nil w = refl
