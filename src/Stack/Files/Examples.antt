-- ===== src/Stack/Files/Examples.antt =====
-- The stack's files at a concrete sequence of accesses.
use otus_work.Base.{◌≡◌, refl, Bool, true, false, List, [], ◌∷◌}
use otus_work.Base.Int.{pos}
use otus_work.Kernel.{enomem, enodata, fail}
use otus_work.Kernel.Files.{Access, read, write, refused, wrote, got, access, accesses}
use otus_work.Stack.Ops.{stack_init, stack_push, stack_pop, stack_size, int_of_word}
use otus_work.Stack.Sysfs.{
  push_store, pop_show, size_show, emitted, kernel_stack_init, stack_sysfs_init,
}
use otus_work.Stack.Refine.{Holds}
use otus_work.Stack.Files.{Attribute, push, pop, size, stack_attrs}
use otus_work.Stack.Files.Promise.{promised}
use otus_work.Stack.Files.Refine.{accesses-kernel_stack_init}
use otus_work.Stack.Examples.{two, kstrtoint, nothing}

-- A push without memory, two that succeed, a read of a file that can only be written, and three pops.
abbrev session : List (Access Attribute Bool)
session =
    write push false (4 ∷ [])
    ∷ write push true (7 ∷ [])
    ∷ write push true (8 ∷ 10 ∷ [])
    ∷ read push true
    ∷ read size true
    ∷ read pop true
    ∷ read pop true
    ∷ read pop true
    ∷ []

session_test :
    (accesses (stack_attrs kstrtoint) session (kernel_stack_init true (pos 0) nothing two).2).0
    ≡ wrote enomem
      ∷ wrote (pos 1)
      ∷ wrote (pos 2)
      ∷ refused
      ∷ got (emitted (pos 2))
      ∷ got (emitted (pos 8))
      ∷ got (emitted (pos 7))
      ∷ got (fail enodata)
      ∷ []
unfolding access accesses push_store pop_show size_show stack_init stack_push stack_pop stack_size
    int_of_word kernel_stack_init stack_sysfs_init
session_test = refl

accesses-kernel_stack_init_example :
    let (ret, k', s') = kernel_stack_init true (pos 0) nothing two in
    ((accesses (stack_attrs kstrtoint) session s').0 ≡ (accesses (promised kstrtoint) session []).0)
    × Holds
        (accesses (promised kstrtoint) session []).1
        (accesses (stack_attrs kstrtoint) session s').1
accesses-kernel_stack_init_example =
    accesses-kernel_stack_init kstrtoint true (pos 0) nothing two session
