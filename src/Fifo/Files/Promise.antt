-- ===== src/Fifo/Files/Promise.antt =====
-- What the parameters promise to user space: a queue of at most `cap` integers behind the same files.
use otus_work.Base.{
  Bool, ℕ, ◌-◌, Option, none, some, List, [], ◌∷◌, ◌++◌, length, ◌==◌, if◌then◌else◌,
}
use otus_work.Base.Int.{ℤ, pos}
use otus_work.Kernel.{einval, Reply}
use otus_work.Kernel.Files.{File}
use otus_work.Fifo.Params.{number, print_value, queue_is_empty}
use otus_work.Fifo.Files.{
  Parameter, enqueue, dequeue, peek, size, available, is_empty, is_full, clear,
}

abbrev pub QueueFile : Type 0
QueueFile = File (Unit {0}) (List ℤ) Reply

abbrev pub write_only : (List ℕ → List ℤ → ℤ × List ℤ) → QueueFile
write_only set = record { set = some (λ _. set); get = none; mode = 0o220 }

abbrev pub read_only : (List ℤ → Reply × List ℤ) → QueueFile
read_only get = record { set = none; get = some (λ _. get); mode = 0o440 }

-- A number that says yes or no.
abbrev pub yes_no : Bool → Reply
yes_no b = number (if b then pos 1 else pos 0)

abbrev pub dequeued : List ℤ → Reply × List ℤ
dequeued [] = (queue_is_empty, [])
dequeued (v ∷ vs) = (print_value v, vs)

abbrev pub peeked : List ℤ → Reply × List ℤ
peeked [] = (queue_is_empty, [])
peeked (v ∷ vs) = (print_value v, v ∷ vs)

module _ (kstrtoint : List ℕ → Option ℤ) (cap : ℕ) where
  unfoldable pub enqueued : List ℕ → List ℤ → ℤ × List ℤ
  enqueued val vs = elim (kstrtoint val) [
    | none ↦ (einval, vs)
    | some v ↦ if length vs == cap then (einval, vs) else (pos 0, vs ++ v ∷ [])
  ]

  abbrev pub promised : Parameter → QueueFile
  promised enqueue = write_only enqueued
  promised dequeue = read_only dequeued
  promised peek = read_only peeked
  promised size = read_only (λ vs. (number (pos (length vs)), vs))
  promised available = read_only (λ vs. (number (pos (cap - length vs)), vs))
  promised is_empty = read_only (λ vs. (yes_no (length vs == 0), vs))
  promised is_full = read_only (λ vs. (yes_no (length vs == cap), vs))
  promised clear = write_only (λ val vs. (pos 0, []))
