-- ===== src/Stack/Sysfs.antt =====
-- Linux_kernel/HW_03_kernel_stack/src/sysfs.c and main.c. `kstrtoint` gives its return value and the
-- number; `sysfs_emit` gives the text.
use otus_work.Base.{ℕ, Bool, true, false, Option, none, some, List, [], ◌∷◌, if◌then◌else◌}
use otus_work.Base.Int.{ℤ, pos, eqb_ℤ}
use otus_work.Kernel.{enomem, enodata, newline, dec, Reply, fail, shown}
use otus_work.Stack.Ops.{
  Stack, stack_ok, stack_empty, stack_init, stack_push, stack_pop, stack_peek, stack_is_empty,
  stack_size, stack_clear,
}

unfoldable pub push_store : (List ℕ → ℤ × ℤ) → Bool → List ℕ → ℕ → Stack → ℤ × Stack
push_store kstrtoint kmalloc buf count s =
    let (parsed, value) = kstrtoint buf in
    let (ret, s') = stack_push kmalloc value s in
    if eqb_ℤ parsed (pos 0)
    then (if eqb_ℤ ret stack_ok then (pos count, s') else (enomem, s'))
    else (parsed, s)

-- "%d\n"
abbrev pub emitted : ℤ → Reply
emitted value = shown (dec value ∷ newline ∷ [])

-- `value` has the number 0 where nothing was written to it; then it is not read.
abbrev pub written : Option ℤ → ℤ
written none = pos 0
written (some value) = value

unfoldable pub pop_show : Stack → Reply × Stack
pop_show s =
    let (ret, value, s') = stack_pop s in
    if eqb_ℤ ret stack_empty then (fail enodata, s') else (emitted (written value), s')

unfoldable pub peek_show : Stack → Reply
peek_show s =
    let (ret, value) = stack_peek s in
    if eqb_ℤ ret stack_empty then fail enodata else emitted (written value)

unfoldable pub size_show : Stack → Reply
size_show s = emitted (stack_size s)

unfoldable pub is_empty_show : Stack → Reply
is_empty_show s = emitted (stack_is_empty s)

unfoldable pub clear_store : ℕ → Stack → ℤ × Stack
clear_store count s = (pos count, stack_clear s)

-- What is left in the kernel: the directory and the files in it.
pub record Sysfs : Type 0 where
  pub directory : Bool
  pub files : Bool

-- Whether the directory could be made, and what `sysfs_create_group` returns: 0, or an error and
-- then no files.
unfoldable pub stack_sysfs_init : Bool → ℤ → Sysfs → ℤ × Sysfs
stack_sysfs_init kobject group k =
    if kobject
    then (if eqb_ℤ group (pos 0)
        then (pos 0, record { directory = true; files = true })
        else (group, record k { directory = false }))
    else (enomem, k)

unfoldable pub stack_sysfs_exit : Sysfs → Sysfs
stack_sysfs_exit k = record { directory = false; files = false }

unfoldable pub kernel_stack_init : Bool → ℤ → Sysfs → Stack → ℤ × Sysfs × Stack
kernel_stack_init kobject group k s =
    let s' = stack_init s in
    let (ret, k') = stack_sysfs_init kobject group k in
    if eqb_ℤ ret (pos 0) then (pos 0, k', s') else (ret, k', s')

unfoldable pub kernel_stack_exit : Sysfs → Stack → Sysfs × Stack
kernel_stack_exit k s = (stack_sysfs_exit k, stack_clear s)
