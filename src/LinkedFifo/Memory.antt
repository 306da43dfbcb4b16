-- ===== src/LinkedFifo/Memory.antt =====
-- The nodes of Linux_kernel/Lesson 9/fifo.c in memory. An address is a number, and NULL is 0. `malloc` is a
-- parameter: the address of an unused node, or NULL. The error texts on stderr are left out.
use otus_work.Base.{ℕ, ◌≡◌, ◌≢◌, Option, none, some, ◌==◌, if◌then◌else◌}
use otus_work.Base.Int.{ℤ}

pub record Node : Type 0 where
  pub node_data : ℤ
  pub next : ℕ

abbrev pub Memory : Type 0
Memory = ℕ → Option Node

abbrev pub write : Memory → ℕ → Option Node → Memory
write m p c a = if a == p then c else m a

abbrev pub Malloc : Type 0
Malloc = Memory → ℕ

-- What `malloc` returns is NULL or the address of no node.
abbrev pub IsFresh : Malloc → Type 0
IsFresh malloc = (m : Memory) → malloc m ≢ 0 → m (malloc m) ≡ none

-- How a call ends: it returns, or `exit(EXIT_FAILURE)` ends the program, or it uses an address that
-- holds no node, or its loop makes more rounds than were granted.
pub data Outcome (A : Type 0) : Type 0 where
  done : A → Outcome A
  exit_failure : Outcome A
  fault : Outcome A
  out_of_fuel : Outcome A

abbrev pub then_do : {A B : Type 0} → Outcome A → (A → Outcome B) → Outcome B
then_do (done a) k = k a
then_do exit_failure k = exit_failure
then_do fault k = fault
then_do out_of_fuel k = out_of_fuel

infixl 5 ◌>>=◌
abbrev pub ◌>>=◌ : {A B : Type 0} → Outcome A → (A → Outcome B) → Outcome B
m >>= k = then_do m k

-- A read of a node, and `free`.
unfoldable pub load : Memory → ℕ → Outcome Node
load m p = if p == 0 then fault else elim (m p) [ none ↦ fault | some n ↦ done n ]

unfoldable pub free : Memory → ℕ → Outcome Memory
free m p = elim (m p) [ none ↦ fault | some n ↦ done (write m p none) ]
