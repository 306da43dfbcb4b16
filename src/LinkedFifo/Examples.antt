-- ===== src/LinkedFifo/Examples.antt =====
-- The queue's theorems with a `malloc` that takes the lowest unused address, and tests.
use otus_work.Base.{
  ℕ, zero, suc, ◌+◌, ◌≡◌, inl, inr, refl, false, none, some, List, [], ◌∷◌, arith, Option-cases,
}
use otus_work.Base.Int.{pos, negsuc}
use otus_work.LinkedFifo.Memory.{Memory, Malloc, IsFresh, write, Outcome, done, load, free}
use otus_work.LinkedFifo.Program.{
  Fifo, alloc_node, create_fifo, fifo_is_empty, fifo_out, link, fifo_in, drain, main,
}
use otus_work.LinkedFifo.Chain.{IsFifo}
use otus_work.LinkedFifo.Refine.{
  Call, put, out, is_empty, Answer, value, step, run, run_spec, Agrees, run-Agrees,
}
use otus_work.LinkedFifo.Main.{Drained, drain-Drained}

-- The first unused address from `p` on, of so many that are tried.
unfoldable lowest : ℕ → ℕ → Malloc
lowest zero p m = 0
lowest (suc tries) p m = elim (m p) [ none ↦ p | some n ↦ lowest tries (p + 1) m ]

lowest-IsFresh : (tries p : ℕ) → IsFresh (lowest tries p)
unfolding lowest
lowest-IsFresh zero p m ne = absurd (ne refl)
lowest-IsFresh (suc tries) p m ne = elim (Option-cases (m p)) [
  | inl e ↦ rw (e, lowest) e
  | inr (n, e) ↦ rw (e, lowest) (lowest-IsFresh tries (p + 1) m (rw (e, lowest) at ne))
]

abbrev malloc : Malloc
malloc = lowest 4 100

abbrev clean : Memory
clean a = none

abbrev no_nodes : Fifo
no_nodes = record { start = 0; end = 0 }

clean-IsFifo : IsFifo [] no_nodes clean
clean-IsFifo = record { start = refl; end = refl; chain = tt; exact = λ a _. refl }

program : Unit {0}
unfolding lowest load free alloc_node create_fifo fifo_is_empty fifo_out link fifo_in drain main
    step run
program = tt

abbrev calls : List Call
calls = put (pos 7) ∷ put (negsuc 0) ∷ out ∷ is_empty ∷ out ∷ out ∷ []

abbrev answers : Outcome (List Answer × Fifo × Memory) → List Answer
answers (done (given, q, m)) = given
answers _ = []

run_test :
    answers (run malloc calls no_nodes clean)
    ≡ Answer.nothing
      ∷ Answer.nothing
      ∷ value (pos 7)
      ∷ Answer.test false
      ∷ value (negsuc 0)
      ∷ value (negsuc 0)
      ∷ []
unfolding program
run_test = refl

run-Agrees_example :
    Agrees malloc calls no_nodes clean (run malloc calls no_nodes clean) (run_spec calls [])
run-Agrees_example =
    run-Agrees malloc (lowest-IsFresh 4 100) calls [] no_nodes clean ([], refl, clean-IsFifo)

abbrev one : Memory
one = write clean 100 (some (record { node_data = pos 7; next = 0 }))

abbrev one_node : Fifo
one_node = record { start = 100; end = 100 }

one-IsFifo : IsFifo ((100, pos 7) ∷ []) one_node one
one-IsFifo = record {
  start = refl;
  end = refl;
  chain = ((λ e. omega arith), refl, refl, tt);
  exact = λ a away. ground arith;
}

drain-Drained_example : Drained (drain 2 one_node one)
drain-Drained_example = drain-Drained 2 ((100, pos 7) ∷ []) one_node one one-IsFifo (omega arith)
