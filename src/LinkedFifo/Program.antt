-- ===== src/LinkedFifo/Program.antt =====
-- The functions of Linux_kernel/Lesson 9/fifo.c. The queue `q` points to is a record that is passed in and
-- returned beside the memory of the nodes.
use otus_work.Base.{ℕ, zero, suc, Bool, true, false, ◌==◌, if◌then◌else◌, some}
use otus_work.Base.Int.{ℤ, pos, negsuc}
use otus_work.LinkedFifo.Memory.{
  Memory, Malloc, write, Outcome, done, exit_failure, out_of_fuel, ◌>>=◌, load, free,
}

pub record Fifo : Type 0 where
  pub start : ℕ
  pub end : ℕ

-- The address of the new node.
unfoldable pub alloc_node : Malloc → ℤ → Memory → Outcome (ℕ × Memory)
alloc_node malloc value m =
    let p = malloc m in
    if p == 0
    then exit_failure
    else done (p, write m p (some (record { node_data = value; next = 0 })))

-- `room` says whether the queue itself was allocated.
unfoldable pub create_fifo : Bool → Outcome Fifo
create_fifo room = if room then done (record { start = 0; end = 0 }) else exit_failure

unfoldable pub fifo_is_empty : Fifo → Bool
fifo_is_empty q = q.start == 0

unfoldable pub fifo_out : Fifo → Memory → Outcome (ℤ × Fifo × Memory)
unfolding fifo_is_empty
fifo_out q m = if fifo_is_empty q then done (negsuc 0, q, m) else do
  n ← load m q.start
  m' ← free m q.start
  done (n.node_data, record { start = n.next; end = if n.next == 0 then 0 else q.end }, m')

-- `q->end->next = tmp; q->end = tmp`
unfoldable pub link : Fifo → ℕ → Memory → Outcome (Fifo × Memory)
link q p m = do
  last ← load m q.end
  done (record q { end = p }, write m q.end (some (record last { next = p })))

unfoldable pub fifo_in : Malloc → ℤ → Fifo → Memory → Outcome (Fifo × Memory)
unfolding link alloc_node
fifo_in malloc value q m = do
  (p, m') ← alloc_node malloc value m
  if q.end == 0 then done (record { start = p; end = p }, m') else link q p m'

-- The loop at the end of `main`; `rounds` bounds how often it can go round.
unfoldable pub drain : ℕ → Fifo → Memory → Outcome (Fifo × Memory)
drain zero q m = out_of_fuel
drain (suc rounds) q m = elim (fifo_is_empty q) [
  | true ↦ done (q, m)
  | false ↦ do (value, q', m') ← fifo_out q m; drain rounds q' m'
]

-- What `main` prints: the two values, and whether the queue is empty then.
pub record Printed : Type 0 where
  pub first : ℤ
  pub second : ℤ
  pub is_empty : Bool

unfoldable pub main : Malloc → Bool → ℕ → Memory → Outcome (Printed × Memory)
main malloc room rounds m = do
  q ← create_fifo room
  (q, m) ← fifo_in malloc (pos 10) q m
  (q, m) ← fifo_in malloc (pos 20) q m
  (q, m) ← fifo_in malloc (pos 30) q m
  (first, q, m) ← fifo_out q m
  (second, q, m) ← fifo_out q m
  let printed : Printed = record { first = first; second = second; is_empty = fifo_is_empty q }
  (q, m) ← drain rounds q m
  done (printed, m)
