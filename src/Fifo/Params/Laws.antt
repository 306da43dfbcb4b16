-- ===== src/Fifo/Params/Laws.antt =====
-- What a user of the parameters of params.c sees.
use otus_work.Base.{
  ℕ, ◌≡◌, ◌≢◌, ◌⊎◌, ◌↔◌, inl, inr, refl, ◌∙◌, true, false, if◌then◌else◌, Option, none, some, List,
  [], ◌∷◌, ◌++◌, length, arith, Option-cases, ℕ_discrete,
}
use otus_work.Base.Int.{ℤ, pos, negsuc, IsInt, ltb_ℤ, eqb_ℤ}
use otus_work.Kernel.{einval, Reply}
use otus_work.Kernel.Kfifo.{Kfifo, KfifoLaws, IntLayout}
use otus_work.Fifo.Ops.{fifo_ok, FifoDevice, fifo_enqueue}
use otus_work.Fifo.Queue.{Op, answer}
use otus_work.Fifo.Model.{Models, Results}
use otus_work.Fifo.Refine.{apply, apply_refines, enqueue_full, enqueue_room}
use otus_work.Fifo.Params.{number, print_value, param_set_enqueue, param_get_dequeue}

print_value-pos : (n : ℕ) → print_value (pos n) ≡ number (pos n)
unfolding print_value
print_value-pos n = ground arith

print_value-negsuc : (n : ℕ) (v : ℤ) → print_value (negsuc n) ≢ number v
unfolding print_value
print_value-negsuc n v e = ground arith

module _ (k : Kfifo) (laws : KfifoLaws k) (layout : IntLayout) (cap : ℕ) (d : FifoDevice k) where
  dequeued :
      (v : ℤ) (vs : List ℤ)
      → Models k laws layout cap (v ∷ vs) d
      → (d' : FifoDevice k) × (param_get_dequeue k layout true (some d) ≡ (print_value v, some d'))
        × Models k laws layout cap vs d'
  unfolding param_get_dequeue apply answer
  dequeued v vs m =
      let r = apply_refines k laws layout Op.dequeue (v ∷ vs) tt m in
      (r.after, (λ i. (print_value (r.answers i), r.is_after i)), r.models)

  -- Reading `dequeue` takes the first value out of the queue, whatever it is. A value that is not
  -- negative is printed; in place of a negative one an error text is printed, so that value is lost.
  pub param_get_dequeue_lem :
      (v : ℤ) (vs : List ℤ)
      → Models k laws layout cap (v ∷ vs) d
      → (d' : FifoDevice k) × (reply : Reply) × (param_get_dequeue k layout true (some d)
          ≡ (reply, some d'))
        × Models k laws layout cap vs d'
        × ((reply ≡ number v) ↔ (ltb_ℤ v (pos 0) ≡ false))
  param_get_dequeue_lem (pos n) vs m =
      let (d', e, m') = dequeued (pos n) vs m in
      (d', print_value (pos n), e, m', ((λ _. ground arith), λ _. print_value-pos n))
  param_get_dequeue_lem (negsuc n) vs m =
      let (d', e, m') = dequeued (negsuc n) vs m in
      (
        d',
        print_value (negsuc n),
        e,
        m',
        ((λ same. absurd (print_value-negsuc n (negsuc n) same)), λ h. ground arith),
      )

  module _ (kstrtoint : List ℕ → Option ℤ) (val : Option (List ℕ)) where
    -- What a write of `enqueue` promises: the value is in the queue, or nothing has changed and
    -- there is a reason.
    abbrev pub Enqueued : List ℤ → ℤ × Option (FifoDevice k) → Type 0
    Enqueued vs r =
        ((v : ℤ) × (text : List ℕ) × (val ≡ some text)
          × (kstrtoint text ≡ some v)
          × Results k laws layout cap r (pos 0, vs ++ v ∷ []))
        ⊎ ((r ≡ (einval, some d))
            × ((val ≡ none)
                ⊎ ((text : List ℕ) × (val ≡ some text) × (kstrtoint text ≡ none))
                ⊎ (length vs ≡ cap)))

  module _ (kstrtoint : List ℕ → Option ℤ)
      (ints : (t : List ℕ) (v : ℤ) → kstrtoint t ≡ some v → IsInt v) where
    set_value :
        (t : List ℕ) {v : ℤ}
        → kstrtoint t ≡ some v
        → param_set_enqueue k layout kstrtoint (some t) (some d) ≡ (
            let (ret, dev) = fifo_enqueue k layout v (some d) in
            if eqb_ℤ ret fifo_ok then (pos 0, dev) else (einval, dev))
    unfolding param_set_enqueue
    set_value t e = rw (e, param_set_enqueue) refl

    set_parsed :
        (t : List ℕ) (v : ℤ) (vs : List ℤ)
        → kstrtoint t ≡ some v
        → Models k laws layout cap vs d
        → Enqueued kstrtoint (some t) vs (param_set_enqueue k layout kstrtoint (some t) (some d))
    set_parsed t v vs e m = elim (ℕ_discrete (length vs) cap) [
      | yes full ↦
          inr (set_value t e ∙ rw (enqueue_full k laws layout m v full) refl, inr (inr full))
      | no room ↦
          let (d', done, m') = enqueue_room k laws layout m v (ints t v e) room in
          inl (
            v,
            t,
            refl,
            e,
            rw (set_value t e, done)
                (record { answers = refl; after = d'; is_after = refl; models = m' }),
          )
    ]

    set_unparsed :
        (t : List ℕ)
        → kstrtoint t ≡ none
        → param_set_enqueue k layout kstrtoint (some t) (some d) ≡ (einval, some d)
    unfolding param_set_enqueue
    set_unparsed t e = rw (e, param_set_enqueue) refl

    set_null : param_set_enqueue k layout kstrtoint none (some d) ≡ (einval, some d)
    unfolding param_set_enqueue
    set_null = refl

    -- A write of `enqueue` to a device that holds a queue either returns 0 and leaves the number that
    -- the text spells at the end of the queue, or returns -EINVAL and leaves the device as it was,
    -- because the text is NULL, spells no number, or the queue is full. What `kstrtoint` reads is
    -- always an `int`.
    pub param_set_enqueue_lem :
        (val : Option (List ℕ)) (vs : List ℤ)
        → Models k laws layout cap vs d
        → Enqueued kstrtoint val vs (param_set_enqueue k layout kstrtoint val (some d))
    param_set_enqueue_lem none vs m = inr (set_null, inl refl)
    param_set_enqueue_lem (some t) vs m = elim (Option-cases (kstrtoint t)) [
      | inl e ↦ inr (set_unparsed t e, inr (inl (t, refl, e)))
      | inr (v, e) ↦ set_parsed t v vs e m
    ]
