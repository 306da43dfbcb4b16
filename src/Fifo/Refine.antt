-- ===== src/Fifo/Refine.antt =====
-- The operations of fifo_ops.c refine the bounded queue of integers.
use otus_work.Base.{
  ℕ, ◌≡◌, ◌≢◌, refl, ap, ◌∙◌, false, Option, some, List, [], ◌∷◌, ◌++◌, length, arith, ℕ_discrete,
  ==_yes, ==_no,
}
use otus_work.Base.Int.{ℤ, pos, IsInt}
use otus_work.Kernel.Kfifo.{Kfifo, KfifoLaws, IntLayout}
use otus_work.Fifo.Ops.{
  fifo_ok, fifo_full, entry_size, FifoDevice, fifo_enqueue, fifo_dequeue, fifo_peek, fifo_is_empty,
  fifo_is_full, fifo_size, fifo_available, fifo_clear,
}
use otus_work.Fifo.Queue.{Op, answer, answers}
use otus_work.Fifo.Model.{
  AllInt-append, encode_all, Models, Results, take-append_exact, drop-append_exact, length-le-cap,
  full, empty, len_entries, avail_entries, put_entry,
}

-- The call of fifo_ops.c for an operation.
unfoldable pub apply :
    (k : Kfifo) → IntLayout → Op → Option (FifoDevice k) → ℤ × Option (FifoDevice k)
apply k layout (Op.enqueue v) dev = fifo_enqueue k layout v dev
apply k layout Op.dequeue dev = fifo_dequeue k layout dev
apply k layout Op.peek dev = (fifo_peek k layout dev, dev)
apply k layout Op.size dev = (fifo_size k dev, dev)
apply k layout Op.available dev = (fifo_available k dev, dev)
apply k layout Op.is_empty dev = (fifo_is_empty k dev, dev)
apply k layout Op.is_full dev = (fifo_is_full k dev, dev)
apply k layout Op.clear dev = (pos 0, fifo_clear k dev)

-- The answers of the module to a sequence of calls.
unfoldable pub run : (k : Kfifo) → IntLayout → List Op → Option (FifoDevice k) → List ℤ
run k layout [] dev = []
run k layout (op ∷ ops) dev = let (r, rest) = apply k layout op dev in r ∷ run k layout ops rest

-- The argument of a call is an `int`.
abbrev pub IsCall : Op → Type 0
IsCall (Op.enqueue v) = IsInt v
IsCall _ = Unit {0}

abbrev pub AllCalls : List Op → Type 0
AllCalls [] = Unit {0}
AllCalls (op ∷ ops) = IsCall op × AllCalls ops

module _ (k : Kfifo) (laws : KfifoLaws k) (layout : IntLayout) where
  module _ {cap : ℕ} {vs : List ℤ} {d : FifoDevice k} (m : Models k laws layout cap vs d) where
    pub enqueue_full :
        (v : ℤ) → length vs ≡ cap → fifo_enqueue k layout v (some d) ≡ (fifo_full, some d)
    unfolding fifo_enqueue
    enqueue_full v e = rw (full k laws layout m, ==_yes e)

    -- With room in the queue, and an `int` for a value, the device after it holds one value more.
    pub enqueue_room :
        (v : ℤ)
        → IsInt v
        → length vs ≢ cap
        → (d' : FifoDevice k) × (fifo_enqueue k layout v (some d) ≡ (fifo_ok, some d'))
          × Models k laws layout cap (vs ++ v ∷ []) d'
    unfolding fifo_enqueue
    enqueue_room v small ne =
        let p = put_entry k laws layout m v (omega (arith, length-le-cap k laws layout m)) in
        (
          record d { queue = (k.put d.queue (layout.encode v)).1 },
          rw (full k laws layout m, ==_no ne, ==_yes p.0),
          record {
            holds = p.1;
            room = p.2 ∙ m.room;
            some_room = m.some_room;
            ints = AllInt-append vs v m.ints small;
          },
        )

    enqueue_refines :
        (v : ℤ)
        → IsInt v
        → Results k laws layout cap
            (fifo_enqueue k layout v (some d))
            (answer cap (Op.enqueue v) vs)
    unfolding answer
    enqueue_refines v small = elim (ℕ_discrete (length vs) cap) [
      | yes e ↦
          rw (enqueue_full v e, ==_yes e)
            (record { answers = refl; after = d; is_after = refl; models = m })
      | no ne ↦
          let (d', e, m') = enqueue_room v small ne in
          rw (e, ==_no ne) (record { answers = refl; after = d'; is_after = refl; models = m' })
    ]

    -- A call that leaves the device alone.
    reads :
        {r : ℤ × Option (FifoDevice k)} (r_val : ℤ)
        → r ≡ (r_val, some d)
        → Results k laws layout cap r (r_val, vs)
    reads r_val e = record {
      answers = ap (λ t. t.0) e;
      after = d;
      is_after = ap (λ t. t.1) e;
      models = m;
    }

    clear_refines :
        Results k laws layout cap (apply k layout Op.clear (some d)) (answer cap Op.clear vs)
    unfolding apply fifo_clear answer encode_all
    clear_refines =
        let r = laws.reset_lem d.queue in
        record {
          answers = refl;
          after = record d { queue = k.reset d.queue };
          is_after = refl;
          models = record { holds = r.0; room = r.1 ∙ m.room; some_room = m.some_room; ints = tt };
        }

    size_refines :
        Results k laws layout cap (apply k layout Op.size (some d)) (answer cap Op.size vs)
    unfolding apply fifo_size answer
    size_refines = reads _ (rw (len_entries k laws layout m))

    available_refines :
        Results k laws layout cap
          (apply k layout Op.available (some d))
          (answer cap Op.available vs)
    unfolding apply fifo_available answer
    available_refines = reads _ (rw (avail_entries k laws layout m))

    is_empty_refines :
        Results k laws layout cap (apply k layout Op.is_empty (some d)) (answer cap Op.is_empty vs)
    unfolding apply fifo_is_empty answer
    is_empty_refines = reads _ (rw (empty k laws layout m))

    is_full_refines :
        Results k laws layout cap (apply k layout Op.is_full (some d)) (answer cap Op.is_full vs)
    unfolding apply fifo_is_full answer
    is_full_refines = reads _ (rw (full k laws layout m))

  module _ {cap : ℕ} {d : FifoDevice k} where
    holding :
        (v : ℤ) (vs : List ℤ) → Models k laws layout cap (v ∷ vs) d → k.is_empty d.queue ≡ false
    holding v vs m = empty k laws layout m ∙ ==_no (λ e. omega arith)

    dequeue_refines :
        (vs : List ℤ)
        → Models k laws layout cap vs d
        → Results k laws layout cap (fifo_dequeue k layout (some d)) (answer cap Op.dequeue vs)
    unfolding fifo_dequeue answer
    dequeue_refines [] m = reads m _ (rw (empty k laws layout m))
    dequeue_refines (v ∷ vs) m =
        let o = laws.out_lem d.queue entry_size in
        let first : (k.out d.queue entry_size).0 ≡ layout.encode v =
          o.0
          ∙ rw m.holds (
              unfold encode_all in
              take-append_exact entry_size (layout.encode v) _ (layout.length-encode v)) in
        rw (holding v vs m, first, layout.length-encode v, layout.decode-encode v m.ints.0)
          (record {
            answers = refl;
            after = record d { queue = (k.out d.queue entry_size).1 };
            is_after = refl;
            models = record {
              holds =
                  o.1
                  ∙ rw m.holds (
                      unfold encode_all in
                      drop-append_exact entry_size (layout.encode v) _ (layout.length-encode v));
              room = o.2 ∙ m.room;
              some_room = m.some_room;
              ints = m.ints.1;
            };
          })

    peek_refines :
        (vs : List ℤ)
        → Models k laws layout cap vs d
        → Results k laws layout cap (apply k layout Op.peek (some d)) (answer cap Op.peek vs)
    unfolding apply fifo_peek answer
    peek_refines [] m = reads m _ (rw (empty k laws layout m))
    peek_refines (v ∷ vs) m =
        let first : k.out_peek d.queue entry_size ≡ layout.encode v =
          laws.out_peek_lem d.queue entry_size
          ∙ rw m.holds (
              unfold encode_all in
              take-append_exact entry_size (layout.encode v) _ (layout.length-encode v)) in
        reads m _
          (rw (holding v vs m, first, layout.length-encode v, layout.decode-encode v m.ints.0))

    -- Every operation on a device that holds a queue returns the answer of the bounded queue, and
    -- leaves the device holding the queue after it. The kernel's queue and the layout of an `int`
    -- behave as documented, and the argument of `fifo_enqueue` is an `int`.
    pub apply_refines :
        (op : Op) (vs : List ℤ)
        → IsCall op
        → Models k laws layout cap vs d
        → Results k laws layout cap (apply k layout op (some d)) (answer cap op vs)
    apply_refines (Op.enqueue v) vs c m = unfold apply in enqueue_refines m v c
    apply_refines Op.dequeue vs c m = unfold apply in dequeue_refines vs m
    apply_refines Op.peek vs c m = peek_refines vs m
    apply_refines Op.size vs c m = size_refines m
    apply_refines Op.available vs c m = available_refines m
    apply_refines Op.is_empty vs c m = is_empty_refines m
    apply_refines Op.is_full vs c m = is_full_refines m
    apply_refines Op.clear vs c m = clear_refines m

  -- No sequence of calls tells a device that holds a queue from that queue: every answer is the same,
  -- in order. The kernel's queue and the layout of an `int` behave as documented, and the arguments
  -- of `fifo_enqueue` are values of an `int`.
  pub run_refines :
      {cap : ℕ} (ops : List Op) (vs : List ℤ) (d : FifoDevice k)
      → AllCalls ops
      → Models k laws layout cap vs d
      → run k layout ops (some d) ≡ answers cap ops vs
  unfolding run answers
  run_refines [] vs d c m = refl
  run_refines {cap} (op ∷ ops) vs d c m =
      let r = apply_refines op vs c.0 m in
      rw (r.answers, r.is_after)
        (ap (λ t. (answer cap op vs).0 ∷ t) (run_refines ops _ r.after c.1 r.models))
