-- ===== src/Stack/Ops.antt =====
-- Linux_kernel/HW_03_kernel_stack/lib/stack_ops.c. The static stack is passed in and returned. Its list
-- is the list of the entries' data, the head first, and `size` is the 32-bit word of an `int`. No
-- operation takes a lock: these are the operations one after the other.
use otus_work.Base.{
  ℕ, ◌+◌, ◌-◌, ◌%◌, ◌^◌, Bool, Option, none, some, List, [], ◌∷◌, ltb, if◌then◌else◌,
}
use otus_work.Base.Int.{ℤ, pos, negsuc}

abbrev pub stack_ok : ℤ
stack_ok = pos 0

abbrev pub stack_empty : ℤ
stack_empty = negsuc 0

abbrev pub stack_nomem : ℤ
stack_nomem = negsuc 1

abbrev pub int_mod : ℕ
int_mod = 2 ^ 32

-- The `int` that a 32-bit word stands for.
unfoldable pub int_of_word : ℕ → ℤ
int_of_word w = if ltb w (2 ^ 31) then pos w else negsuc (int_mod - 1 - w)

pub record Stack : Type 0 where
  pub elements : List ℤ
  pub size : ℕ

unfoldable pub stack_init : Stack → Stack
stack_init s = record { elements = []; size = 0 }

-- `kmalloc` says whether the entry was allocated.
unfoldable pub stack_push : Bool → ℤ → Stack → ℤ × Stack
stack_push kmalloc value s =
    if kmalloc
    then (stack_ok, record { elements = value ∷ s.elements; size = (s.size + 1) % int_mod })
    else (stack_nomem, s)

-- The second part is what is written to `*value`, if anything is.
unfoldable pub stack_pop : Stack → ℤ × Option ℤ × Stack
stack_pop s = elim s.elements [
  | [] ↦ (stack_empty, none, s)
  | entry ∷ rest ↦
      (stack_ok, some entry, record { elements = rest; size = (s.size + (int_mod - 1)) % int_mod })
]

unfoldable pub stack_peek : Stack → ℤ × Option ℤ
stack_peek s = elim s.elements [ [] ↦ (stack_empty, none) | entry ∷ rest ↦ (stack_ok, some entry) ]

unfoldable pub stack_is_empty : Stack → ℤ
stack_is_empty s = elim s.elements [ [] ↦ pos 1 | entry ∷ rest ↦ pos 0 ]

unfoldable pub stack_size : Stack → ℤ
stack_size s = int_of_word s.size

-- `list_for_each_entry_safe`: what is left when each entry is taken out.
unfoldable pub delete_entries : List ℤ → List ℤ
delete_entries [] = []
delete_entries (entry ∷ rest) = delete_entries rest

unfoldable pub stack_clear : Stack → Stack
stack_clear s = record { elements = delete_entries s.elements; size = 0 }
