-- ===== src/Fifo/Queue.antt =====
-- A queue of at most `cap` integers, oldest first: what the module promises to its users.
use otus_work.Base.{ℕ, List, [], ◌∷◌, ◌++◌, ◌-◌, length, ◌==◌, if◌then◌else◌}
use otus_work.Base.Int.{ℤ, pos}
use otus_work.Fifo.Ops.{fifo_ok, fifo_empty, fifo_full}

-- A call of a user.
pub data Op : Type 0 where
  enqueue : ℤ → Op
  dequeue peek size available is_empty is_full clear : Op

-- What a call returns (`fifo_clear` returns nothing, given as 0), and the queue after it.
unfoldable pub answer : ℕ → Op → List ℤ → ℤ × List ℤ
answer cap (enqueue v) vs = if length vs == cap then (fifo_full, vs) else (fifo_ok, vs ++ v ∷ [])
answer cap dequeue [] = (fifo_empty, [])
answer cap dequeue (v ∷ vs) = (v, vs)
answer cap peek [] = (fifo_empty, [])
answer cap peek (v ∷ vs) = (v, v ∷ vs)
answer cap size vs = (pos (length vs), vs)
answer cap available vs = (pos (cap - length vs), vs)
answer cap is_empty vs = ((if length vs == 0 then pos 1 else pos 0), vs)
answer cap is_full vs = ((if length vs == cap then pos 1 else pos 0), vs)
answer cap clear vs = (pos 0, [])

-- The answers to a sequence of calls.
unfoldable pub answers : ℕ → List Op → List ℤ → List ℤ
answers cap [] vs = []
answers cap (op ∷ ops) vs = let (r, rest) = answer cap op vs in r ∷ answers cap ops rest
