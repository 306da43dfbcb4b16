-- ===== src/LinkedFifo/Refine.antt =====
-- The queue of Linux_kernel/Lesson 9/fifo.c against a list of integers.
use otus_work.Base.{
  ◌≡◌, refl, sym, ap, ◌∙◌, Bool, true, false, none, List, [], ◌∷◌, ◌++◌, ◌==◌, ℕ_discrete, ==_yes,
  ==_no, subst,
}
use otus_work.Base.Int.{ℤ, negsuc}
use otus_work.LinkedFifo.Memory.{
  Memory, Malloc, IsFresh, write, Outcome, done, exit_failure, fault, out_of_fuel, ◌>>=◌,
}
use otus_work.LinkedFifo.Program.{Fifo, fifo_is_empty, fifo_out, fifo_in}
use otus_work.LinkedFifo.Chain.{Cells, values, IsFifo, values-append}
use otus_work.LinkedFifo.Queue.{fifo_in-null, fifo_in-IsFifo, fifo_out-nil, fifo_out-IsFifo}

-- The calls of the queue, and what `fifo_out` and `fifo_is_empty` return.
pub data Call : Type 0 where
  put : ℤ → Call
  out : Call
  is_empty : Call

pub data Answer : Type 0 where
  nothing : Answer
  value : ℤ → Answer
  test : Bool → Answer

unfoldable pub step : Malloc → Call → Fifo → Memory → Outcome (Answer × Fifo × Memory)
step malloc (put v) q m = do (q', m') ← fifo_in malloc v q m; done (nothing, q', m')
step malloc out q m = do (v, q', m') ← fifo_out q m; done (value v, q', m')
step malloc is_empty q m = done (test (fifo_is_empty q), q, m)

unfoldable pub run : Malloc → List Call → Fifo → Memory → Outcome (List Answer × Fifo × Memory)
run malloc [] q m = done ([], q, m)
run malloc (c ∷ cs) q m = do
  (a, q', m') ← step malloc c q m
  (answers, q'', m'') ← run malloc cs q' m'
  done (a ∷ answers, q'', m'')

-- The same calls on a list: a value is put at its end and taken from its front, and to take from the
-- empty list gives -1.
unfoldable pub spec : Call → List ℤ → Answer × List ℤ
spec (put v) vs = (nothing, vs ++ v ∷ [])
spec out [] = (value (negsuc 0), [])
spec out (v ∷ vs) = (value v, vs)
spec is_empty [] = (test true, [])
spec is_empty (v ∷ vs) = (test false, v ∷ vs)

unfoldable pub run_spec : List Call → List ℤ → List Answer × List ℤ
run_spec [] vs = ([], vs)
run_spec (c ∷ cs) vs =
    let (a, vs') = spec c vs in let (answers, vs'') = run_spec cs vs' in (a ∷ answers, vs'')

-- The queue holds a list of values in its nodes.
abbrev pub Holds : List ℤ → Fifo → Memory → Type 0
Holds vs q m = (xs : Cells) × (values xs ≡ vs) × IsFifo xs q m

-- A call returned what the list gives, or the program ended in a `put` because `malloc` found no memory.
abbrev pub StepAgrees :
    Malloc → Call → Memory → Outcome (Answer × Fifo × Memory) → Answer × List ℤ → Type 0
StepAgrees malloc c m (done (a, q, m')) (b, vs) = (a ≡ b) × Holds vs q m'
StepAgrees malloc c m exit_failure r = (v : ℤ) × (c ≡ put v) × (malloc m ≡ 0)
StepAgrees malloc c m fault r = ⊥
StepAgrees malloc c m out_of_fuel r = ⊥

-- The calls before some `put` have returned, and at that `put` `malloc` returns NULL.
pub record OutOfMemory (malloc : Malloc) (cs : List Call) (q : Fifo) (m : Memory) : Type 0 where
  pub before : List Call
  pub value : ℤ
  pub after : List Call
  pub calls : cs ≡ before ++ put value ∷ after
  pub answers : List Answer
  pub queue : Fifo
  pub memory : Memory
  pub ran : run malloc before q m ≡ done (answers, queue, memory)
  pub null : malloc memory ≡ 0

-- The calls returned what the list gives, or the program ended for want of memory.
abbrev pub Agrees :
    Malloc
    → List Call
    → Fifo
    → Memory
    → Outcome (List Answer × Fifo × Memory)
    → List Answer × List ℤ
    → Type 0
Agrees malloc cs q m (done (a, q', m')) (b, vs) = (a ≡ b) × Holds vs q' m'
Agrees malloc cs q m exit_failure r = OutOfMemory malloc cs q m
Agrees malloc cs q m fault r = ⊥
Agrees malloc cs q m out_of_fuel r = ⊥

module _ (malloc : Malloc) (fresh : IsFresh malloc) where
  step-Agrees :
      (c : Call) (vs : List ℤ) (q : Fifo) (m : Memory)
      → Holds vs q m
      → StepAgrees malloc c m (step malloc c q m) (spec c vs)
  unfolding step spec fifo_is_empty
  step-Agrees (put v) vs q m (xs, e, is) = elim (ℕ_discrete (malloc m) 0) [
    | yes null ↦ rw (fifo_in-null malloc fresh v q m null) (v, refl, null)
    | no room ↦
        let (q', m', ran, is') = fifo_in-IsFifo malloc fresh v xs q m is room in
        rw ran (
          refl,
          (xs ++ (malloc m, v) ∷ [], values-append xs (malloc m) v ∙ ap (λ t. t ++ v ∷ []) e, is'),
        )
  ]
  step-Agrees out vs q m ([], e, is) = rw (fifo_out-nil q m is) (
      subst (λ t. StepAgrees malloc out m (done (value (negsuc 0), q, m)) (spec out t)) e
        (refl, ([], refl, is)))
  step-Agrees out vs q m ((a, v) ∷ xs, e, is) =
      let (q', ran, is') = fifo_out-IsFifo a v xs q m is in
      rw ran (
        subst (λ t. StepAgrees malloc out m (done (value v, q', write m a none)) (spec out t)) e
          (refl, (xs, refl, is')))
  step-Agrees is_empty vs q m ([], e, is) =
      subst (λ t. StepAgrees malloc is_empty m (done (test (q.start == 0), q, m)) (spec is_empty t))
        e (rw (==_yes is.start) refl, ([], refl, is))
  step-Agrees is_empty vs q m ((a, v) ∷ xs, e, is) =
      subst (λ t. StepAgrees malloc is_empty m (done (test (q.start == 0), q, m)) (spec is_empty t))
        e (rw (==_no (λ z. is.chain.0 (sym is.start ∙ z))) refl, ((a, v) ∷ xs, refl, is))

  module _ (c : Call) (cs : List Call) (q : Fifo) (m : Memory) where
    -- The answers of a call and of those after it.
    cons-Agrees :
        (a b : Answer) (q' : Fifo) (m' : Memory) (o : Outcome (List Answer × Fifo × Memory))
        (r : List Answer × List ℤ)
        → step malloc c q m ≡ done (a, q', m')
        → a ≡ b
        → Agrees malloc cs q' m' o r
        → Agrees malloc
            (c ∷ cs)
            q
            m
            (o >>= λ (answers, q, m). done (a ∷ answers, q, m))
            (b ∷ r.0, r.1)
    unfolding run
    cons-Agrees a b q' m' (done (answers, q'', m'')) r st e h = ((λ i. e i ∷ h.0 i), h.1)
    cons-Agrees a b q' m' exit_failure r st e h = record {
      before = c ∷ h.before;
      value = h.value;
      after = h.after;
      calls = ap (λ t. c ∷ t) h.calls;
      answers = a ∷ h.answers;
      queue = h.queue;
      memory = h.memory;
      ran = rw (st, h.ran) refl;
      null = h.null;
    }
    cons-Agrees a b q' m' fault r st e h = h
    cons-Agrees a b q' m' out_of_fuel r st e h = h

    then-Agrees :
        (o : Outcome (Answer × Fifo × Memory)) (b : Answer) (vs : List ℤ)
        → step malloc c q m ≡ o
        → StepAgrees malloc c m o (b, vs)
        → ((q' : Fifo) (m' : Memory)
            → Holds vs q' m'
            → Agrees malloc cs q' m' (run malloc cs q' m') (run_spec cs vs))
        → Agrees malloc
            (c ∷ cs)
            q
            m
            (o >>= λ (a, q, m).
              run malloc cs q m >>= λ (answers, q', m'). done (a ∷ answers, q', m'))
            (b ∷ (run_spec cs vs).0, (run_spec cs vs).1)
    unfolding run
    then-Agrees (done (a, q', m')) b vs st h rest =
        cons-Agrees a b q' m' (run malloc cs q' m') (run_spec cs vs) st h.0 (rest q' m' h.1)
    then-Agrees exit_failure b vs st (v, is_put, null) rest = record {
      before = [];
      value = v;
      after = cs;
      calls = ap (λ t. t ∷ cs) is_put;
      answers = [];
      queue = q;
      memory = m;
      ran = refl;
      null = null;
    }
    then-Agrees fault b vs st h rest = absurd h
    then-Agrees out_of_fuel b vs st h rest = absurd h

  -- Any calls on a queue that holds a list return what the list gives, and leave a queue that holds
  -- the list that is left, in just so many nodes as it has values; or the program ends, and then
  -- the calls before some `fifo_in` have returned and `malloc` returns NULL in the memory that they
  -- leave. No call uses an address that holds no node. `malloc` returns NULL or the address of no
  -- node.
  pub run-Agrees :
      (cs : List Call) (vs : List ℤ) (q : Fifo) (m : Memory)
      → Holds vs q m
      → Agrees malloc cs q m (run malloc cs q m) (run_spec cs vs)
  unfolding run run_spec
  run-Agrees [] vs q m hs = (refl, hs)
  run-Agrees (c ∷ cs) vs q m hs =
      then-Agrees c cs q m (step malloc c q m) (spec c vs).0 (spec c vs).1 refl
        (step-Agrees c vs q m hs) (run-Agrees cs (spec c vs).1)
