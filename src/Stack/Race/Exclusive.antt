-- ===== src/Stack/Race/Exclusive.antt =====
-- The calls of Linux_kernel/HW_03_kernel_stack/lib/stack_ops.c `stack_pop` that do not overlap.
use otus_work.Base.{
  ℕ, ◌≡◌, ◌≢◌, ◌⊎◌, inl, inr, refl, ◌==◌, some, List, [], ◌∷◌, true, false, arith, ==_yes, ==_no,
  Bool-cases, subst, sym, ap, ◌∙◌, ◌++◌,
}
use mathlib.Core.List.{append_assoc}
use otus_work.Base.Int.{ℤ}
use otus_work.Stack.Race.{Pop, World, update, advance, run, popped, finishes, under_way}
use otus_work.Stack.Race.Steps.{quiet_step, advance_lem}
use otus_work.Stack.Race.Fits.{Fits, step-Moves, Fits-Stands, Stands-Fits}

-- Two calls are under way.
abbrev pub Both : World → Type 0
Both w =
    (i : ℕ) × (j : ℕ) × (i ≢ j) × (under_way (w.calls i) ≡ true) × (under_way (w.calls j) ≡ true)

-- Two calls are under way at some point of a schedule.
pub data Overlap : List ℕ → World → Type 0 where
  now : (is : List ℕ) (w : World) → Both w → Overlap is w
  later :
      (i : ℕ) (is : List ℕ) (w w' : World)
      → advance i w ≡ some w'
      → Overlap is w'
      → Overlap (i ∷ is) w

-- At most this call is under way, and the shared stack is what that needs, where the numbers of the
-- stack are `vs`: those whose calls have returned are not among them.
pub record Only (i : ℕ) (vs : List ℤ) (w : World) : Type 0 where
  pub others : (j : ℕ) → j ≢ i → under_way (w.calls j) ≡ false
  pub fits : Fits vs (w.calls i) w.shared

abbrev pub Sound : List ℤ → World → Type 0
Sound vs w = (i : ℕ) × Only i vs w

-- Where the call is not under way either, another can be the one.
Only-other :
    (i k : ℕ) (vs : List ℤ) (w : World)
    → under_way (w.calls i) ≡ false
    → under_way (w.calls k) ≡ false
    → Only i vs w
    → Only k vs w
Only-other i k vs w quiet idle o = record {
  others = λ j ne. elim (Bool-cases (j == i)) [
    | inl same ↦ subst (λ a. under_way (w.calls a) ≡ false) (ground (arith, same)) quiet
    | inr other ↦ o.others j (ground (arith, other))
  ];
  fits =
      Stands-Fits vs w.shared (w.calls k) idle (Fits-Stands vs w.shared (w.calls i) quiet o.fits);
}

-- An access ends well, and then two calls are under way, or the world is sound and has the numbers but
-- the one that the access returned.
Advanced : ℕ → List ℤ → World → Type 0
Advanced k vs w =
    (w' : World) × (advance k w ≡ some w')
    × (Both w' ⊎ ((us : List ℤ) × (vs ≡ finishes (w.calls k) ++ us) × Sound us w'))

-- The access of the one call that may be under way.
advance_sole-Advanced : (i : ℕ) (vs : List ℤ) (w : World) → Only i vs w → Advanced i vs w
unfolding Advanced
advance_sole-Advanced i vs w o =
    let (p, s, us, e, top, f) = step-Moves vs (w.calls i) w.shared o.fits in
    (
      record { calls = update i p w.calls; shared = s },
      advance_lem i w p s e,
      inr (
        us,
        top,
        (
          i,
          record {
            others = λ j ne. rw (==_no ne) (o.others j ne);
            fits = rw (==_yes {a = i} refl) f;
          },
        ),
      ),
    )

-- The access of another call, while one is under way.
advance_other-Advanced :
    (i k : ℕ) (vs : List ℤ) (w : World)
    → i ≢ k
    → under_way (w.calls i) ≡ true
    → under_way (w.calls k) ≡ false
    → Only i vs w
    → Advanced k vs w
unfolding Advanced
advance_other-Advanced i k vs w ne busy idle o =
    let (p, e, silent) = quiet_step (w.calls k) w.shared idle in
    (
      record { calls = update k p w.calls; shared = w.shared },
      advance_lem k w p w.shared e,
      elim (Bool-cases (under_way p)) [
        | inl begun ↦ inl (i, k, ne, rw (==_no ne) busy, rw (==_yes {a = k} refl) begun)
        | inr over ↦ inr (
          vs,
          rw silent refl,
          (
            i,
            record {
              others = λ j other. elim (Bool-cases (j == k)) [
                | inl same ↦ rw same over
                | inr apart ↦ rw apart (o.others j other)
              ];
              fits = rw (==_no ne) o.fits;
            },
          ),
        )
      ],
    )

advance-Sound : (k : ℕ) (vs : List ℤ) (w : World) → Sound vs w → Advanced k vs w
advance-Sound k vs w (i, o) = elim (Bool-cases (k == i)) [
  | inl same ↦ advance_sole-Advanced k vs w (subst (λ a. Only a vs w) (ground (arith, same)) o)
  | inr other ↦
      let idle = o.others k (ground (arith, other)) in
      elim (Bool-cases (under_way (w.calls i))) [
        | inl busy ↦ advance_other-Advanced i k vs w (ground (arith, other)) busy idle o
        | inr quiet ↦ advance_sole-Advanced k vs w (Only-other i k vs w quiet idle o)
      ]
]

-- From a sound world that has the numbers `vs`, every schedule is carried out without an access to an
-- entry that is not linked or not allocated any more, and the numbers that calls return on the way
-- are the first of `vs`, in their order, and the world is then sound with the others; or two calls
-- are under way at some point of it.
pub run-Sound :
    (is : List ℕ) (vs : List ℤ) (w : World)
    → Sound vs w
    → Overlap is w
      ⊎ ((w' : World) × (us : List ℤ) × (run is w ≡ some w')
          × (vs ≡ popped is w ++ us)
          × Sound us w')
unfolding run popped Advanced
run-Sound [] vs w sound = inr (w, vs, refl, refl, sound)
run-Sound (i ∷ is) vs w sound =
    let (w', e, after) = advance-Sound i vs w sound in
    elim after [
      | inl both ↦ inl (later i is w w' e (now is w' both))
      | inr (us, top, sound') ↦ elim (run-Sound is us w' sound') [
        | inl overlap ↦ inl (later i is w w' e overlap)
        | inr (end, left, reached, out, last) ↦ inr (
          end,
          left,
          rw (e, run) reached,
          rw (e, popped) (joined (w.calls i) us (popped is w') left top out),
          last,
        )
      ]
    ]
  where
    joined :
        (p : Pop) (us taken left : List ℤ)
        → vs ≡ finishes p ++ us
        → us ≡ taken ++ left
        → vs ≡ (finishes p ++ taken) ++ left
    joined p us taken left top out =
        top ∙ ap (λ l. finishes p ++ l) out ∙ sym (append_assoc (finishes p) taken left)
