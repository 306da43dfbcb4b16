-- ===== src/Stack/Race/Fits.antt =====
-- What the shared stack is while one call of `stack_pop` of
-- Linux_kernel/HW_03_kernel_stack/lib/stack_ops.c is under way, and that each access keeps it.
use otus_work.Base.{
  ℕ, ◌≡◌, ◌+◌, ◌-◌, ◌%◌, inl, inr, refl, ap, ◌∙◌, ◌==◌, Option, none, some, List, [], if◌then◌else◌,
  ◌∷◌, ◌++◌, length, false, arith, Bool-cases, List-cases, subst,
}
use otus_work.Base.Int.{ℤ}
use otus_work.Stack.Ops.{int_mod, stack_ok, stack_empty}
use otus_work.Stack.Race.{
  Shared, Pop, start, tested, chosen, copied, unlinked, lowering, lowered, returned, stack_pop_step,
  has, Linked, under_way, finishes,
}
use otus_work.Stack.Race.Steps.{
  start-empty, start-more, tested_lem, copied_lem, chosen_lem, lowered_lem,
}

-- The linked entries hold the numbers, and the size is how many they are and `k` more.
pub record Stands (vs : List ℤ) (k : ℕ) (s : Shared) : Type 0 where
  pub linked : Linked s.data_at s.elements vs
  pub size : s.size ≡ (length vs + k) % int_mod

-- An entry that is allocated and not linked.
pub record Apart (e : ℕ) (s : Shared) : Type 0 where
  pub some_data : (v : ℤ) × (s.data_at e ≡ some v)
  pub out : has e s.elements ≡ false

abbrev pub First : ℕ → Shared → Type 0
First e s = (rest : List ℕ) × (s.elements ≡ e ∷ rest)

-- The first number is taken out, and the others are still there.
abbrev pub Rest : List ℤ → ℤ → ℕ → Shared → Type 0
Rest vs v k s = (us : List ℤ) × (vs ≡ v ∷ us) × Stands us k s

-- What the shared stack is while a call is the only one under way, where the stack has the numbers `vs`
-- until that call returns.
abbrev pub Fits : List ℤ → Pop → Shared → Type 0
Fits vs start s = Stands vs 0 s
Fits vs tested s = Stands vs 0 s × ((e : ℕ) × First e s)
Fits vs (chosen e) s = Stands vs 0 s × First e s
Fits vs (copied e v) s = Stands vs 0 s × First e s × (s.data_at e ≡ some v)
Fits vs (unlinked e v) s = Rest vs v 1 s × Apart e s
Fits vs (lowering e v n) s = Rest vs v 1 s × Apart e s × (n ≡ s.size)
Fits vs (lowered e v) s = Rest vs v 0 s × Apart e s
Fits vs (returned ret v) s = Stands vs 0 s

-- The lists are still linked where an entry that is none of them is freed.
pub Linked-free :
    (data_at : ℕ → Option ℤ) (e : ℕ) (es : List ℕ) (vs : List ℤ)
    → has e es ≡ false
    → Linked data_at es vs
    → Linked (λ a. if a == e then none else data_at a) es vs
Linked-free data_at e [] vs out l = l
Linked-free data_at e (x ∷ es) [] out l = l
Linked-free data_at e (x ∷ es) (v ∷ vs) out l = elim (Bool-cases (x == e)) [
  | inl same ↦ absurd (cc)
  | inr other ↦ (rw other l.0, l.1, Linked-free data_at e es vs (ground (arith, other, out)) l.2)
]

-- The next access of a call that is the only one under way: where it returns a number, that is the first.
abbrev pub Moves : List ℤ → Pop → Shared → Type 0
Moves vs p s =
    (p' : Pop) × (s' : Shared) × (us : List ℤ) × (stack_pop_step p s ≡ some (p', s'))
    × (vs ≡ finishes p ++ us)
    × Fits us p' s'

-- The first entry holds the first number.
pub First-data :
    (vs : List ℤ) (k e : ℕ) (s : Shared)
    → Stands vs k s
    → First e s
    → (v : ℤ) × (us : List ℤ) × (rest : List ℕ) × (s.elements ≡ e ∷ rest)
      × (vs ≡ v ∷ us)
      × (s.data_at e ≡ some v)
      × (has e rest ≡ false)
      × Linked s.data_at rest us
First-data vs k e s st (rest, el) = split vs (subst (λ es. Linked s.data_at es vs) el st.linked)
  where
    split :
        (vs : List ℤ)
        → Linked s.data_at (e ∷ rest) vs
        → (v : ℤ) × (us : List ℤ) × (rest : List ℕ) × (s.elements ≡ e ∷ rest)
          × (vs ≡ v ∷ us)
          × (s.data_at e ≡ some v)
          × (has e rest ≡ false)
          × Linked s.data_at rest us
    split [] l = absurd (l refl)
    split (v ∷ us) l = (v, us, rest, el, refl, l.0, l.1, l.2)

pub step-Moves : (vs : List ℤ) (p : Pop) (s : Shared) → Fits vs p s → Moves vs p s
unfolding stack_pop_step finishes
step-Moves vs start s fit = elim (List-cases s.elements) [
  | inl empty ↦ (returned stack_empty none, s, vs, start-empty s empty, refl, fit)
  | inr (e, rest, el) ↦ (tested, s, vs, start-more s e rest el, refl, (fit, (e, (rest, el))))
]
step-Moves vs tested s (fit, (e, (rest, el))) =
    (chosen e, s, vs, tested_lem s e rest el, refl, (fit, (rest, el)))
step-Moves vs (chosen e) s (fit, first) =
    let (v, us, rest, el, _, there, _, _) = First-data vs 0 e s fit first in
    (copied e v, s, vs, chosen_lem s e v there, refl, (fit, first, there))
step-Moves vs (copied e v) s (fit, first, here) =
    let (w, us, rest, el, top, there, out, l) = First-data vs 0 e s fit first in
    (
      unlinked e v,
      record s { elements = rest },
      vs,
      copied_lem s e rest v w el there,
      refl,
      (
        (us, cc, record { linked = l; size = fit.size ∙ ap (λ n. n % int_mod) (counted top) }),
        record { some_data = (w, there); out = out },
      ),
    )
  where
    counted : {w : ℤ} {us : List ℤ} → vs ≡ w ∷ us → length vs + 0 ≡ length us + 1
    counted {us} top = rw top (omega arith)
step-Moves vs (unlinked e v) s (rest, apart) =
    (lowering e v s.size, s, vs, refl, refl, (rest, apart, refl))
step-Moves vs (lowering e v n) s ((us, top, st), apart, same) = (
  lowered e v,
  record s { size = (n + (int_mod - 1)) % int_mod },
  vs,
  refl,
  refl,
  (
    (us, top, record { linked = st.linked; size = omega (arith, same, st.size) }),
    record { some_data = apart.some_data; out = apart.out },
  ),
)
step-Moves vs (lowered e v) s ((us, top, st), apart) =
    let (w, there) = apart.some_data in
    (
      returned stack_ok (some v),
      record s { data_at = λ a. if a == e then none else s.data_at a },
      us,
      lowered_lem s e v w there,
      top,
      record { linked = Linked-free s.data_at e s.elements us apart.out st.linked; size = st.size },
    )
step-Moves vs (returned ret v) s fit = (returned ret v, s, vs, refl, refl, fit)

-- A call that is not under way needs what every other such call needs.
module _ (vs : List ℤ) (s : Shared) where
  pub Fits-Stands : (p : Pop) → under_way p ≡ false → Fits vs p s → Stands vs 0 s
  unfolding under_way
  Fits-Stands start quiet f = f
  Fits-Stands (returned ret v) quiet f = f
  Fits-Stands tested quiet f = absurd (cc)
  Fits-Stands (chosen e) quiet f = absurd (cc)
  Fits-Stands (copied e v) quiet f = absurd (cc)
  Fits-Stands (unlinked e v) quiet f = absurd (cc)
  Fits-Stands (lowering e v n) quiet f = absurd (cc)
  Fits-Stands (lowered e v) quiet f = absurd (cc)

  pub Stands-Fits : (p : Pop) → under_way p ≡ false → Stands vs 0 s → Fits vs p s
  unfolding under_way
  Stands-Fits start quiet f = f
  Stands-Fits (returned ret v) quiet f = f
  Stands-Fits tested quiet f = absurd (cc)
  Stands-Fits (chosen e) quiet f = absurd (cc)
  Stands-Fits (copied e v) quiet f = absurd (cc)
  Stands-Fits (unlinked e v) quiet f = absurd (cc)
  Stands-Fits (lowering e v n) quiet f = absurd (cc)
  Stands-Fits (lowered e v) quiet f = absurd (cc)
