-- ===== src/Fifo/Examples.antt =====
-- The queue's theorems over a kernel queue kept as a list, and tests.
use otus_work.Base.{
  ℕ, ◌-◌, ◌≤◌, ◌≡◌, ◌⊎◌, ◌↔◌, refl, true, false, if◌then◌else◌, Option, none, some, List, [], ◌∷◌,
  arith, leb, ◌&&◌,
}
use otus_work.Base.Int.{ℤ, pos, negsuc, IsInt, ltb_ℤ}
use otus_work.Kernel.{einval, Reply}
use otus_work.Kernel.Kfifo.Model.{kernel, laws, little_endian, nil_fits}
use otus_work.Fifo.Ops.{
  fifo_ok, fifo_nomem, FifoDevice, fifo_init, fifo_enqueue, fifo_dequeue, fifo_peek, fifo_is_empty,
  fifo_is_full, fifo_size, fifo_available, fifo_clear,
}
use otus_work.Fifo.Files.{Parameter, enqueue, dequeue, size, parameters}
use otus_work.Fifo.Files.Promise.{promised}
use otus_work.Fifo.Files.Loaded.{accesses-kernel_fifo_init}
use otus_work.Kernel.Files.{Access, write, read, wrote, got, refused, access, accesses}
use otus_work.Fifo.Queue.{Op, answer, answers}
use otus_work.Fifo.Model.{Models, encode_all}
use otus_work.Fifo.Refine.{apply, run, run_refines}
use otus_work.Fifo.Init.{IsFresh, fifo_init_lem, kernel_fifo_init}
use otus_work.Fifo.Params.Laws.{param_get_dequeue_lem}
use otus_work.Fifo.Params.{
  number, param_get_dequeue, param_set_enqueue, param_get_size, print_number, print_value,
}

program : Unit {0}
unfolding fifo_init fifo_enqueue fifo_dequeue fifo_peek fifo_is_empty fifo_is_full fifo_size
    fifo_available fifo_clear apply run encode_all param_get_dequeue param_set_enqueue answer
    answers
program = tt

fifo_init_lem_example :
    ((fifo_init kernel true (pos 3) none ≡ (fifo_nomem, none))
      × ((true ≡ false) ⊎ (kernel.alloc 12 ≡ none)))
    ⊎ ((d : FifoDevice kernel) × (fifo_init kernel true (pos 3) none ≡ (fifo_ok, some d))
        × IsFresh kernel laws little_endian 3 d)
fifo_init_lem_example =
    fifo_init_lem kernel laws little_endian 3 (omega arith) (omega arith) true none

abbrev empty : FifoDevice kernel
empty = record { queue = record { size = 16; bytes = []; fits = nil_fits 16 }; max_size = pos 3 }

-- A size of 3 gives room for 4.
available_test : fifo_available kernel (some empty) ≡ pos 4
unfolding program
available_test = refl

empty-Models : Models kernel laws little_endian 4 [] empty
unfolding program
empty-Models = record { holds = refl; room = refl; some_room = omega arith; ints = tt }

abbrev session : List Op
session =
    Op.enqueue (pos 5) ∷ Op.enqueue (negsuc 0) ∷ Op.size ∷ Op.dequeue ∷ Op.dequeue ∷ Op.dequeue ∷ []

run_test :
    run kernel little_endian session (some empty)
    ≡ pos 0 ∷ pos 0 ∷ pos 2 ∷ pos 5 ∷ negsuc 0 ∷ negsuc 0 ∷ []
unfolding program
run_test = refl

run_refines_example : run kernel little_endian session (some empty) ≡ answers 4 session []
run_refines_example =
    run_refines kernel laws little_endian session [] empty (omega arith) empty-Models

-- The device that holds -1.
abbrev negative : FifoDevice kernel
negative = record {
  queue = record { size = 16; bytes = 255 ∷ 255 ∷ 255 ∷ 255 ∷ []; fits = omega arith };
  max_size = pos 3;
}

negative-Models : Models kernel laws little_endian 4 (negsuc 0 ∷ []) negative
unfolding program
negative-Models = record { holds = refl; room = refl; some_room = omega arith; ints = omega arith }

param_get_dequeue_lem_example :
    (d : FifoDevice kernel) × (reply : Reply) × (param_get_dequeue kernel little_endian true
        (some negative)
      ≡ (reply, some d))
    × Models kernel laws little_endian 4 [] d
    × ((reply ≡ number (negsuc 0)) ↔ (ltb_ℤ (negsuc 0) (pos 0) ≡ false))
param_get_dequeue_lem_example =
    param_get_dequeue_lem kernel laws little_endian 4 negative (negsuc 0) [] negative-Models

-- A reader of one digit.
abbrev kstrtoint : List ℕ → Option ℤ
kstrtoint (c ∷ []) = if leb b'0' c && leb c b'9' then some (pos (c - b'0')) else none
kstrtoint _ = none

kstrtoint-IsInt : (t : List ℕ) (v : ℤ) → kstrtoint t ≡ some v → IsInt v
kstrtoint-IsInt (c ∷ []) v e = ground arith
kstrtoint-IsInt (c ∷ b ∷ t) v e = absurd (cc)
kstrtoint-IsInt [] v e = absurd (cc)

-- Two numbers are written, and the first is read back; an empty text and a read of `enqueue` get none.
abbrev two_writes : List (Access Parameter (Unit {0}))
two_writes =
    write enqueue tt (b'7' ∷ [])
    ∷ write enqueue tt []
    ∷ write enqueue tt (b'8' ∷ [])
    ∷ read enqueue tt
    ∷ read dequeue tt
    ∷ read size tt
    ∷ []

accesses_test :
    (accesses (parameters kernel little_endian kstrtoint) two_writes (some empty)).0
    ≡ wrote (pos 0)
      ∷ wrote einval
      ∷ wrote (pos 0)
      ∷ refused
      ∷ got (number (pos 7))
      ∷ got (number (pos 1))
      ∷ []
unfolding program access accesses param_get_size print_number print_value
accesses_test = refl

loaded_test : (kernel_fifo_init kernel true (pos 3) none).0 ≡ pos 0
unfolding program kernel_fifo_init
loaded_test = refl

accesses-kernel_fifo_init_example :
    (cap : ℕ) × (3 ≤ cap)
    × ((xs : List (Access Parameter (Unit {0})))
        → (accesses
            (parameters kernel little_endian kstrtoint)
            xs
            (kernel_fifo_init kernel true (pos 3) none).1).0
          ≡ (accesses (promised kstrtoint cap) xs []).0)
accesses-kernel_fifo_init_example =
    accesses-kernel_fifo_init kernel laws little_endian kstrtoint kstrtoint-IsInt 3 true
      (omega arith) (omega arith) loaded_test
