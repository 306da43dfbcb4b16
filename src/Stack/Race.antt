-- ===== src/Stack/Race.antt =====
-- `stack_pop` of Linux_kernel/HW_03_kernel_stack/lib/stack_ops.c, one access to the shared stack at a time:
-- the code takes no lock, so the accesses of several calls mix. The entries lie in memory, and an
-- entry that is not linked or not allocated any more must not be used.
pub mod Steps
pub mod Fits
pub mod Alone
pub mod Exclusive
pub mod Fault
mod Examples
use otus_work.Base.{
  ℕ, ◌≡◌, ◌≢◌, ◌-◌, ◌+◌, ◌%◌, ◌==◌, Option, none, some, List, [], ◌∷◌, ◌++◌, Bool, true, false,
  if◌then◌else◌,
}
use otus_work.Base.Int.{ℤ}
use otus_work.Stack.Ops.{int_mod, stack_ok, stack_empty}

-- The addresses of the linked entries, the number in each allocated entry, and the word of the size.
pub record Shared : Type 0 where
  pub elements : List ℕ
  pub data_at : ℕ → Option ℤ
  pub size : ℕ

-- Where a call stands: the entry that it has found not to be missing, taken as the first, read, and
-- taken out of the list; the size that it has read, and has written; what it has returned.
pub data Pop : Type 0 where
  start tested : Pop
  chosen : ℕ → Pop
  copied unlinked : ℕ → ℤ → Pop
  lowering : ℕ → ℤ → ℕ → Pop
  lowered : ℕ → ℤ → Pop
  returned : ℤ → Option ℤ → Pop

-- A removed entry has no neighbours: to remove it again has no result.
unfoldable pub list_del : ℕ → List ℕ → Option (List ℕ)
list_del entry [] = none
list_del entry (e ∷ rest) =
    if e == entry
    then some rest
    else (elim (list_del entry rest) [ none ↦ none | some left ↦ some (e ∷ left) ])

-- The entry that `list_first_entry` makes of the head of an empty list is no entry.
unfoldable pub list_first_entry : List ℕ → Option ℕ
list_first_entry [] = none
list_first_entry (e ∷ rest) = some e

unfoldable pub kfree : ℕ → (ℕ → Option ℤ) → Option (ℕ → Option ℤ)
kfree entry data_at = elim (data_at entry) [
  | none ↦ none
  | some v ↦ some (λ e. if e == entry then none else data_at e)
]

-- One access; `none` where it uses memory that it must not use.
unfoldable pub stack_pop_step : Pop → Shared → Option (Pop × Shared)
stack_pop_step start s = elim s.elements [
  | [] ↦ some (returned stack_empty none, s)
  | e ∷ rest ↦ some (tested, s)
]
stack_pop_step tested s = elim (list_first_entry s.elements) [
  | none ↦ none
  | some entry ↦ some (chosen entry, s)
]
stack_pop_step (chosen entry) s = elim (s.data_at entry) [
  | none ↦ none
  | some value ↦ some (copied entry value, s)
]
stack_pop_step (copied entry value) s = elim (s.data_at entry) [
  | none ↦ none
  | some v ↦ elim (list_del entry s.elements) [
    | none ↦ none
    | some left ↦ some (unlinked entry value, record s { elements = left })
  ]
]
stack_pop_step (unlinked entry value) s = some (lowering entry value s.size, s)
stack_pop_step (lowering entry value size) s =
    some (lowered entry value, record s { size = (size + (int_mod - 1)) % int_mod })
stack_pop_step (lowered entry value) s = elim (kfree entry s.data_at) [
  | none ↦ none
  | some data_at ↦ some (returned stack_ok (some value), record s { data_at = data_at })
]
stack_pop_step (returned ret value) s = some (returned ret value, s)

-- Whether a call has begun and has not returned.
unfoldable pub under_way : Pop → Bool
under_way start = false
under_way tested = true
under_way (chosen e) = true
under_way (copied e v) = true
under_way (unlinked e v) = true
under_way (lowering e v n) = true
under_way (lowered e v) = true
under_way (returned ret v) = false

-- The number that a call returns at its next access, if it then returns one.
unfoldable pub finishes : Pop → List ℤ
finishes start = []
finishes tested = []
finishes (chosen e) = []
finishes (copied e v) = []
finishes (unlinked e v) = []
finishes (lowering e v n) = []
finishes (lowered e v) = v ∷ []
finishes (returned ret v) = []

-- The calls by their number, and what they share.
pub record World : Type 0 where
  pub calls : ℕ → Pop
  pub shared : Shared

abbrev pub update : ℕ → Pop → (ℕ → Pop) → ℕ → Pop
update i p calls j = if j == i then p else calls j

unfoldable pub advance : ℕ → World → Option World
advance i w = elim (stack_pop_step (w.calls i) w.shared) [
  | none ↦ none
  | some (p, s) ↦ some (record { calls = update i p w.calls; shared = s })
]

-- Each number lets that call make its next access.
unfoldable pub run : List ℕ → World → Option World
run [] w = some w
run (i ∷ schedule) w = elim (advance i w) [ none ↦ none | some w' ↦ run schedule w' ]

-- The numbers that the calls return, in the order in which they return.
unfoldable pub popped : List ℕ → World → List ℤ
popped [] w = []
popped (i ∷ schedule) w = elim (advance i w) [
  | none ↦ []
  | some w' ↦ finishes (w.calls i) ++ popped schedule w'
]

-- The entries are allocated, and no two have one address.
abbrev pub has : ℕ → List ℕ → Bool
has a [] = false
has a (e ∷ rest) = if e == a then true else has a rest

abbrev pub Linked : (ℕ → Option ℤ) → List ℕ → List ℤ → Type 0
Linked data_at [] vs = vs ≡ []
Linked data_at (e ∷ rest) [] = e ≢ e
Linked data_at (e ∷ rest) (v ∷ vs) =
    (data_at e ≡ some v) × (has e rest ≡ false) × Linked data_at rest vs
