-- ===== src/Stack/Files.antt =====
-- The attributes that Linux_kernel/HW_03_kernel_stack/src/sysfs.c puts into the directory: the operations
-- and the mode of each. Beside the text the kernel gives an operation the answer of `kmalloc`.
-- The `count` of a store is the length of the text.
pub mod Promise
pub mod Refine
mod Examples
use otus_work.Base.{Bool, none, some, List, ℕ, length}
use otus_work.Base.Int.{ℤ}
use otus_work.Kernel.{Reply}
use otus_work.Kernel.Files.{File}
use otus_work.Stack.Ops.{Stack}
use otus_work.Stack.Sysfs.{push_store, pop_show, peek_show, size_show, is_empty_show, clear_store}

pub data Attribute : Type 0 where
  push pop peek size is_empty clear : Attribute

abbrev pub StackFile : Type 0
StackFile = File Bool Stack Reply

-- `__ATTR_WO`
abbrev pub attr_wo : (Bool → List ℕ → Stack → ℤ × Stack) → StackFile
attr_wo store = record { set = some store; get = none; mode = 0o200 }

-- `__ATTR_RO`
abbrev pub attr_ro : (Stack → Reply × Stack) → StackFile
attr_ro show = record { set = none; get = some (λ _. show); mode = 0o444 }

abbrev pub push_attr : (List ℕ → ℤ × ℤ) → StackFile
push_attr kstrtoint = attr_wo (λ kmalloc buf s. push_store kstrtoint kmalloc buf (length buf) s)

abbrev pub pop_attr : StackFile
pop_attr = attr_ro pop_show

abbrev pub peek_attr : StackFile
peek_attr = attr_ro (λ s. (peek_show s, s))

abbrev pub size_attr : StackFile
size_attr = attr_ro (λ s. (size_show s, s))

abbrev pub is_empty_attr : StackFile
is_empty_attr = attr_ro (λ s. (is_empty_show s, s))

abbrev pub clear_attr : StackFile
clear_attr = attr_wo (λ kmalloc buf s. clear_store (length buf) s)

abbrev pub stack_attrs : (List ℕ → ℤ × ℤ) → Attribute → StackFile
stack_attrs kstrtoint push = push_attr kstrtoint
stack_attrs kstrtoint pop = pop_attr
stack_attrs kstrtoint peek = peek_attr
stack_attrs kstrtoint size = size_attr
stack_attrs kstrtoint is_empty = is_empty_attr
stack_attrs kstrtoint clear = clear_attr
