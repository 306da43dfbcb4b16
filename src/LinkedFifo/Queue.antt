-- ===== src/LinkedFifo/Queue.antt =====
-- What `fifo_in` and `fifo_out` do to the chain of a queue.
use otus_work.Base.{
  ℕ, ◌≡◌, ◌≢◌, refl, sym, ap, ◌∙◌, Bool, false, ◌||◌, none, some, [], ◌∷◌, ◌++◌, ◌==◌,
  if◌then◌else◌, arith, ℕ_discrete, ==_yes, ==_no,
}
use otus_work.Base.Int.{ℤ, negsuc}
use otus_work.LinkedFifo.Memory.{Memory, Malloc, IsFresh, write, done, exit_failure, load, free}
use otus_work.LinkedFifo.Program.{Fifo, alloc_node, fifo_is_empty, fifo_out, link, fifo_in}
use otus_work.LinkedFifo.Chain.{
  Cells, has, first, last_of, node, Chain, IsFifo, Chain-write, has-append, last_of-append,
  Chain-link, last_node, has-last_of, ne_of_has,
}

or_left : (b c : Bool) → (b || c) ≡ false → b ≡ false
or_left b c e = ground arith

or_right : (b c : Bool) → (b || c) ≡ false → c ≡ false
or_right b c e = ground arith

module _ (malloc : Malloc) (fresh : IsFresh malloc) where
  -- An unused address is in no chain.
  unused : (xs : Cells) (m : Memory) (a : ℕ) → Chain m xs → m a ≡ none → has a xs ≡ false
  unused [] m a k e = refl
  unused ((b, v) ∷ xs) m a k e = elim (ℕ_discrete b a) [
    | yes same ↦ absurd (ground (arith, k.1, ap m same))
    | no other ↦ rw (==_no other) (unused xs m a k.3 e)
  ]

  pub fifo_in-null :
      (v : ℤ) (q : Fifo) (m : Memory) → malloc m ≡ 0 → fifo_in malloc v q m ≡ exit_failure
  unfolding fifo_in alloc_node
  fifo_in-null v q m e = rw e refl

  -- The queue and memory after a value was put in.
  pub fifo_in-IsFifo :
      (v : ℤ) (xs : Cells) (q : Fifo) (m : Memory)
      → IsFifo xs q m
      → malloc m ≢ 0
      → (q' : Fifo) × (m' : Memory) × (fifo_in malloc v q m ≡ done (q', m'))
        × IsFifo (xs ++ (malloc m, v) ∷ []) q' m'
  unfolding fifo_in alloc_node link load
  fifo_in-IsFifo v [] q m is ne =
      let p = malloc m in
      (
        record { start = p; end = p },
        write m p (some (node v 0)),
        (rw (==_no ne) (rw is.end refl)),
        record {
          start = refl;
          end = refl;
          chain = (ne, ground arith, refl, tt);
          exact = λ a out. ground (arith, is.exact a refl);
        },
      )
  fifo_in-IsFifo v ((a, u) ∷ xs) q m is ne =
      let p = malloc m in
      let m₁ : Memory = write m p (some (node v 0)) in
      let out = unused ((a, u) ∷ xs) m p is.chain (fresh m ne) in
      let k₁ = Chain-write m p (some (node v 0)) ((a, u) ∷ xs) is.chain out in
      let (w, old, last_ne) = last_node m₁ a u xs k₁ in
      let new : m₁ p ≡ some (node v 0) = ground arith in
      (
        record q { end = p },
        write m₁ (last_of a xs) (some (node w p)),
        (let e : q.end ≡ last_of a xs = is.end in
            let stuck : (q.end == 0) ≡ false = ground arith in
            rw (==_no ne) (rw stuck (rw (e, old) refl))),
        record {
          start = is.start;
          end = sym (last_of-append a xs p v);
          chain = Chain-link m₁ a u xs p v w k₁ ne out new old;
          exact = λ b apart.
              let split = sym (has-append b ((a, u) ∷ xs) p v) ∙ apart in
              let away : has b ((a, u) ∷ xs) ≡ false =
                or_left (has b ((a, u) ∷ xs)) (p == b) split in
              let other : (p == b) ≡ false = or_right (has b ((a, u) ∷ xs)) (p == b) split in
              let other' : (b == p) ≡ false = ground arith in
              let end = ne_of_has ((a, u) ∷ xs) b (last_of a xs) away (has-last_of a u xs) in
              rw (==_no end, other') (is.exact b away);
        },
      )

pub fifo_out-nil : (q : Fifo) (m : Memory) → IsFifo [] q m → fifo_out q m ≡ done (negsuc 0, q, m)
unfolding fifo_out fifo_is_empty
fifo_out-nil q m is = rw (is.start, fifo_is_empty) refl

end_after :
    (m : Memory) (a e : ℕ) (xs : Cells)
    → Chain m xs
    → e ≡ last_of a xs
    → (if first xs == 0 then 0 else e) ≡ last_of 0 xs
end_after m a e [] k h = refl
end_after m a e ((b, w) ∷ xs) k h = rw (==_no k.0) h

-- The queue after a value was taken out: the first node is free, and the rest is as it was.
pub fifo_out-IsFifo :
    (a : ℕ) (v : ℤ) (xs : Cells) (q : Fifo) (m : Memory)
    → IsFifo ((a, v) ∷ xs) q m
    → (q' : Fifo) × (fifo_out q m ≡ done (v, q', write m a none)) × IsFifo xs q' (write m a none)
unfolding fifo_out fifo_is_empty load free
fifo_out-IsFifo a v xs q m is =
    let k = is.chain in
    let there : (q.start == 0) ≡ false = ==_no (λ e. k.0 (sym is.start ∙ e)) in
    let found : m q.start ≡ some (node v (first xs)) = ap m is.start ∙ k.1 in
    (
      record { start = first xs; end = if first xs == 0 then 0 else q.end },
      rw there (rw found (rw is.start (rw (k.1, free) refl))),
      record {
        start = refl;
        end = end_after m a q.end xs k.3 is.end;
        chain = Chain-write m a none xs k.3 k.2;
        exact = λ b out. elim (ℕ_discrete b a) [
          | yes same ↦ rw (==_yes same) refl
          | no other ↦ rw (==_no other) (is.exact b (rw (==_no (λ e. other (sym e))) out))
        ];
      },
    )
