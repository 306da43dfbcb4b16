-- ===== src/LinkedFifo/Main.antt =====
-- The loop that empties the queue in Linux_kernel/Lesson 9/fifo.c, and its `main`.
use otus_work.Base.{
  ℕ, zero, suc, ◌<◌, ◌≡◌, ◌⊎◌, inl, inr, refl, sym, ◌∙◌, Bool, true, false, none, [], ◌∷◌, ◌++◌,
  ◌==◌, arith, ℕ_discrete, ==_no, length,
}
use otus_work.Base.Int.{ℤ, pos}
use otus_work.LinkedFifo.Memory.{
  Memory, Malloc, IsFresh, write, Outcome, done, exit_failure, fault, out_of_fuel, ◌>>=◌,
}
use otus_work.LinkedFifo.Program.{
  Fifo, create_fifo, fifo_is_empty, fifo_out, fifo_in, drain, Printed, main,
}
use otus_work.LinkedFifo.Chain.{Cells, IsFifo}
use otus_work.LinkedFifo.Queue.{fifo_in-null, fifo_in-IsFifo, fifo_out-IsFifo}

-- The loop was given rounds enough: it ended, with no node left in memory.
abbrev pub Drained : Outcome (Fifo × Memory) → Type 0
Drained (done (q, m)) = (q.start ≡ 0) × (q.end ≡ 0) × ((a : ℕ) → m a ≡ none)
Drained exit_failure = ⊥
Drained fault = ⊥
Drained out_of_fuel = ⊥

-- The loop that empties a queue ends, with more rounds granted than the queue has nodes: then both
-- its ends are NULL, and every node of it is given back, so memory holds no node.
pub drain-Drained :
    (rounds : ℕ) (xs : Cells) (q : Fifo) (m : Memory)
    → IsFifo xs q m
    → length xs < rounds
    → Drained (drain rounds q m)
unfolding drain fifo_is_empty
drain-Drained zero xs q m is enough = absurd (omega arith)
drain-Drained (suc rounds) [] q m is enough =
    rw (is.start, drain) (is.start, is.end, λ a. is.exact a refl)
drain-Drained (suc rounds) ((a, v) ∷ xs) q m is enough =
    let (q', ran, is') = fifo_out-IsFifo a v xs q m is in
    let more : (q.start == 0) ≡ false = ==_no (λ e. is.chain.0 (sym is.start ∙ e)) in
    rw (more, drain) (rw ran (drain-Drained rounds xs q' (write m a none) is' (omega arith)))

module _ (malloc : Malloc) (room : Bool) where
  -- How `main` ends, from a memory with no node.
  abbrev pub Finished : Outcome (Printed × Memory) → Type 0
  Finished (done (printed, m)) =
      (printed ≡ record { first = pos 10; second = pos 20; is_empty = false })
      × ((a : ℕ) → m a ≡ none)
  Finished exit_failure = (room ≡ false) ⊎ ((m : Memory) × (malloc m ≡ 0))
  Finished fault = ⊥
  Finished out_of_fuel = ⊥

  finish :
      (o : Outcome (Fifo × Memory)) (first second : ℤ) (empty : Bool)
      → Drained o
      → first ≡ pos 10
      → second ≡ pos 20
      → empty ≡ false
      → Finished
          (o >>= λ (q, m). done (record { first = first; second = second; is_empty = empty }, m))
  finish (done (q, m)) first second empty d e f g =
      ((λ i. record { first = e i; second = f i; is_empty = g i }), d.2)
  finish exit_failure first second empty d e f g = absurd d
  finish fault first second empty d e f g = absurd d
  finish out_of_fuel first second empty d e f g = absurd d

  module _ (fresh : IsFresh malloc) where
    -- `fifo_in`, and what follows it where `malloc` gives a node.
    put_then :
        (v : ℤ) (xs : Cells) (q : Fifo) (m : Memory)
        (rest : Fifo × Memory → Outcome (Printed × Memory))
        → IsFifo xs q m
        → ((q' : Fifo) (m' : Memory) (p : ℕ)
            → IsFifo (xs ++ (p, v) ∷ []) q' m'
            → Finished (rest (q', m')))
        → Finished (fifo_in malloc v q m >>= rest)
    put_then v xs q m rest is next = elim (ℕ_discrete (malloc m) 0) [
      | yes null ↦ rw (fifo_in-null malloc fresh v q m null) (inr (m, null))
      | no some_room ↦
          let (q', m', ran, is') = fifo_in-IsFifo malloc fresh v xs q m is some_room in
          rw ran (next q' m' (malloc m) is')
    ]

    -- The last part of `main`, with three nodes in the queue.
    taken :
        (p₁ p₂ p₃ rounds : ℕ) (q : Fifo) (m : Memory)
        → IsFifo ((p₁, pos 10) ∷ (p₂, pos 20) ∷ (p₃, pos 30) ∷ []) q m
        → 1 < rounds
        → Finished (
            fifo_out q m >>= λ (first, q, m). fifo_out q m >>= λ (second, q, m).
            drain rounds q m >>= λ (q', m').
            done (record { first = first; second = second; is_empty = fifo_is_empty q }, m'))
    unfolding fifo_is_empty
    taken p₁ p₂ p₃ rounds q m is enough =
        let (q₁, ran₁, is₁) = fifo_out-IsFifo p₁ (pos 10) _ q m is in
        let (q₂, ran₂, is₂) = fifo_out-IsFifo p₂ (pos 20) _ q₁ (write m p₁ none) is₁ in
        let m₂ : Memory = write (write m p₁ none) p₂ none in
        rw ran₁ (
          rw ran₂ (
            finish (drain rounds q₂ m₂) (pos 10) (pos 20) (q₂.start == 0)
              (drain-Drained rounds ((p₃, pos 30) ∷ []) q₂ m₂ is₂ (omega arith)) refl refl
              (==_no (λ e. is₂.chain.0 (sym is₂.start ∙ e)))))

-- From a memory with no node, and with at least two rounds granted to its loop, `main` takes out 10 and
-- 20, finds the queue not empty, and ends with every node given back, or it ends early because an
-- allocation failed. It never uses an address that holds no node. `malloc` returns NULL or the
-- address of no node.
main-Finished :
    (malloc : Malloc) (room : Bool) (rounds : ℕ) (m : Memory)
    → IsFresh malloc
    → ((a : ℕ) → m a ≡ none)
    → 1 < rounds
    → Finished malloc room (main malloc room rounds m)
unfolding main create_fifo
main-Finished malloc false rounds m fresh clean enough = inl refl
main-Finished malloc true rounds m fresh clean enough =
    let q : Fifo = record { start = 0; end = 0 } in
    let is : IsFifo [] q m = record {
      start = refl;
      end = refl;
      chain = tt;
      exact = λ a _. clean a;
    } in
    put_then malloc true fresh (pos 10) [] q m _ is λ q₁ m₁ p₁ is₁.
      put_then malloc true fresh (pos 20) ((p₁, pos 10) ∷ []) q₁ m₁ _ is₁ λ q₂ m₂ p₂ is₂.
        put_then malloc true fresh (pos 30) ((p₁, pos 10) ∷ (p₂, pos 20) ∷ []) q₂ m₂ _ is₂
          λ q₃ m₃ p₃ is₃. taken malloc true fresh p₁ p₂ p₃ rounds q₃ m₃ is₃ enough
