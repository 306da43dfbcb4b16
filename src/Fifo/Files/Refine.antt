-- ===== src/Fifo/Files/Refine.antt =====
-- The parameters of params.c keep their promise, in every sequence of reads and writes.
use otus_work.Base.{
  inl, inr, ℕ, ◌≡◌, refl, ap, ◌∙◌, Bool, true, false, Option, none, some, List, [], ◌∷◌, length,
  arith, Option-cases, ℕ_discrete, ==_yes, ==_no, ◌==◌, if◌then◌else◌, ◌-◌,
}
use otus_work.Base.Int.{ℤ, pos, IsInt}
use otus_work.Kernel.{Reply}
use otus_work.Kernel.Files.{Access, accesses}
use otus_work.Kernel.Files.Laws.{Agrees, AllGiven-Unit, accesses-agrees}
use otus_work.Kernel.Kfifo.{Kfifo, KfifoLaws, IntLayout}
use otus_work.Fifo.Ops.{FifoDevice}
use otus_work.Fifo.Queue.{Op, answer}
use otus_work.Fifo.Model.{Models, Results}
use otus_work.Fifo.Refine.{apply, apply_refines, enqueue_full, enqueue_room}
use otus_work.Fifo.Params.{
  number, print_value, print_number, param_set_enqueue, param_get_dequeue, param_get_peek,
  param_get_size, param_get_available, param_get_is_empty, param_get_is_full, param_set_clear,
}
use otus_work.Fifo.Files.{
  Parameter, enqueue, dequeue, peek, size, available, is_empty, is_full, clear, parameters,
}
use otus_work.Fifo.Files.Promise.{
  enqueued, dequeued, peeked, promised, yes_no, read_only, write_only,
}

print_number-pos : (n : ℕ) → print_number (pos n) ≡ number (pos n)
unfolding print_number
print_number-pos n = ground arith

print_number-yes_no : (b : Bool) → print_number (if b then pos 1 else pos 0) ≡ yes_no b
print_number-yes_no true = print_number-pos 1
print_number-yes_no false = print_number-pos 0

module _ (k : Kfifo) (laws : KfifoLaws k) (layout : IntLayout) (cap : ℕ) where
  -- A device is there, and it holds the queue.
  abbrev pub Holds : Option (FifoDevice k) → List ℤ → Type 0
  Holds none vs = ⊥
  Holds (some d) vs = Models k laws layout cap vs d

  Results-Holds :
      {r : ℤ × Option (FifoDevice k)} {ans : ℤ × List ℤ}
      → Results k laws layout cap r ans
      → (r.0 ≡ ans.0) × Holds r.1 ans.1
  Results-Holds res = (res.answers, rw res.is_after res.models)

  -- It is enough to look at a device that is there.
  shown :
      (get : Option (FifoDevice k) → Reply × Option (FifoDevice k)) (get' : List ℤ → Reply × List ℤ)
      → ((d : FifoDevice k) (vs : List ℤ)
          → Models k laws layout cap vs d
          → ((get (some d)).0 ≡ (get' vs).0) × Holds (get (some d)).1 (get' vs).1)
      → Agrees
          (λ _. Unit {0})
          Holds
          (record { set = none; get = some (λ _. get); mode = 0o440 })
          (read_only get')
  shown get get' one = record { set = tt; get = both; mode = refl }
    where
      both :
          (env : Unit {0}) (dev : Option (FifoDevice k)) (vs : List ℤ)
          → Unit {0}
          → Holds dev vs
          → ((get dev).0 ≡ (get' vs).0) × Holds (get dev).1 (get' vs).1
      both env none vs g h = elim h [ ]
      both env (some d) vs g h = one d vs h

  written :
      (set : List ℕ → Option (FifoDevice k) → ℤ × Option (FifoDevice k))
      (set' : List ℕ → List ℤ → ℤ × List ℤ)
      → ((val : List ℕ) (d : FifoDevice k) (vs : List ℤ)
          → Models k laws layout cap vs d
          → ((set val (some d)).0 ≡ (set' val vs).0) × Holds (set val (some d)).1 (set' val vs).1)
      → Agrees
          (λ _. Unit {0})
          Holds
          (record { set = some (λ _. set); get = none; mode = 0o220 })
          (write_only set')
  written set set' one = record { set = both; get = tt; mode = refl }
    where
      both :
          (env : Unit {0}) (val : List ℕ) (dev : Option (FifoDevice k)) (vs : List ℤ)
          → Unit {0}
          → Holds dev vs
          → ((set val dev).0 ≡ (set' val vs).0) × Holds (set val dev).1 (set' val vs).1
      both env val none vs g h = elim h [ ]
      both env val (some d) vs g h = one val d vs h

  dequeue-Holds :
      (d : FifoDevice k) (vs : List ℤ)
      → Models k laws layout cap vs d
      → let r = param_get_dequeue k layout true (some d) in
        (r.0 ≡ (dequeued vs).0) × Holds r.1 (dequeued vs).1
  unfolding param_get_dequeue apply answer print_value
  dequeue-Holds d [] m =
      let (same, is) = Results-Holds (apply_refines k laws layout Op.dequeue [] tt m) in
      (ap print_value same, is)
  dequeue-Holds d (v ∷ vs) m =
      let (same, is) = Results-Holds (apply_refines k laws layout Op.dequeue (v ∷ vs) tt m) in
      (ap print_value same, is)

  peek-Holds :
      (d : FifoDevice k) (vs : List ℤ)
      → Models k laws layout cap vs d
      → (param_get_peek k layout true (some d) ≡ (peeked vs).0) × Holds (some d) (peeked vs).1
  unfolding param_get_peek apply answer print_value
  peek-Holds d [] m = (ap print_value (apply_refines k laws layout Op.peek [] tt m).answers, m)
  peek-Holds d (v ∷ vs) m =
      (ap print_value (apply_refines k laws layout Op.peek (v ∷ vs) tt m).answers, m)

  module _ (d : FifoDevice k) (vs : List ℤ) (m : Models k laws layout cap vs d) where
    size-Holds : param_get_size k true (some d) ≡ number (pos (length vs))
    unfolding param_get_size apply answer
    size-Holds =
        ap print_number (apply_refines k laws layout Op.size vs tt m).answers ∙ print_number-pos _

    available-Holds : param_get_available k true (some d) ≡ number (pos (cap - length vs))
    unfolding param_get_available apply answer
    available-Holds =
        ap print_number (apply_refines k laws layout Op.available vs tt m).answers
        ∙ print_number-pos _

    is_empty-Holds : param_get_is_empty k true (some d) ≡ yes_no (length vs == 0)
    unfolding param_get_is_empty apply answer
    is_empty-Holds =
        ap print_number (apply_refines k laws layout Op.is_empty vs tt m).answers
        ∙ print_number-yes_no (length vs == 0)

    is_full-Holds : param_get_is_full k true (some d) ≡ yes_no (length vs == cap)
    unfolding param_get_is_full apply answer
    is_full-Holds =
        ap print_number (apply_refines k laws layout Op.is_full vs tt m).answers
        ∙ print_number-yes_no (length vs == cap)

    clear-Holds : ((param_set_clear k (some d)).0 ≡ pos 0) × Holds (param_set_clear k (some d)).1 []
    unfolding param_set_clear apply answer
    clear-Holds = Results-Holds (apply_refines k laws layout Op.clear vs tt m)

  module _ (kstrtoint : List ℕ → Option ℤ)
      (ints : (t : List ℕ) (v : ℤ) → kstrtoint t ≡ some v → IsInt v) where
    enqueue-Holds :
        (val : List ℕ) (d : FifoDevice k) (vs : List ℤ)
        → Models k laws layout cap vs d
        → let r = param_set_enqueue k layout kstrtoint (some val) (some d) in
          (r.0 ≡ (enqueued kstrtoint cap val vs).0) × Holds r.1 (enqueued kstrtoint cap val vs).1
    unfolding param_set_enqueue enqueued
    enqueue-Holds val d vs m = elim (Option-cases (kstrtoint val)) [
      | inl e ↦ rw (e, param_set_enqueue, enqueued) (refl, m)
      | inr (v, e) ↦
          rw (e, param_set_enqueue, enqueued)
            (elim (ℕ_discrete (length vs) cap) [
              | yes full ↦ rw (enqueue_full k laws layout m v full, ==_yes full) (refl, m)
              | no room ↦
                  let (d', done, m') = enqueue_room k laws layout m v (ints val v e) room in
                  rw (done, ==_no room) (refl, m')
            ])
    ]

    parameters-Agrees :
        (p : Parameter)
        → Agrees (λ _. Unit {0}) Holds (parameters k layout kstrtoint p) (promised kstrtoint cap p)
    parameters-Agrees enqueue = written _ _ enqueue-Holds
    parameters-Agrees dequeue = shown _ _ dequeue-Holds
    parameters-Agrees peek = shown _ _ peek-Holds
    parameters-Agrees size = shown _ _ λ d vs m. (size-Holds d vs m, m)
    parameters-Agrees available = shown _ _ λ d vs m. (available-Holds d vs m, m)
    parameters-Agrees is_empty = shown _ _ λ d vs m. (is_empty-Holds d vs m, m)
    parameters-Agrees is_full = shown _ _ λ d vs m. (is_full-Holds d vs m, m)
    parameters-Agrees clear = written _ _ λ val d vs m. clear-Holds d vs m

    -- Then no sequence of reads and writes tells the module from the queue.
    pub parameters_refine :
        (xs : List (Access Parameter (Unit {0}))) (dev : Option (FifoDevice k)) (vs : List ℤ)
        → Holds dev vs
        → (accesses (parameters k layout kstrtoint) xs dev).0
          ≡ (accesses (promised kstrtoint cap) xs vs).0
    parameters_refine xs dev vs h =
        (accesses-agrees (λ _. Unit {0}) Holds (parameters k layout kstrtoint)
          (promised kstrtoint cap) parameters-Agrees xs dev vs (AllGiven-Unit xs) h).0
