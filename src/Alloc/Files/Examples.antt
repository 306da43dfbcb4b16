-- ===== src/Alloc/Files/Examples.antt =====
-- The allocator module from its load on, at a concrete sequence of accesses.
use otus_work.Base.{◌≡◌, refl, List, [], ◌∷◌}
use otus_work.Base.Int.{pos}
use otus_work.Kernel.{einval}
use otus_work.Kernel.Files.{Access, read, write, refused, wrote, access, accesses}
use otus_work.Alloc.Allocator.{allocator_init}
use otus_work.Alloc.Params.{kernel_alloc_init, param_set_alloc}
use otus_work.Alloc.Files.{Parameter, alloc, free, stats, parameters}
use otus_work.Alloc.Files.Loaded.{IsSound, accesses-kernel_alloc_init}
use otus_work.Alloc.Examples.{kzalloc, vzalloc, promises, kstrtoul, kstrtoul_lt, digits}

-- An allocation of 100 bytes, one of no bytes, the release of an address that was not given, and the
-- read of a file that can only be written.
abbrev session : List (Access Parameter (Unit {0}))
session =
    write alloc tt (100 ∷ [])
    ∷ write alloc tt (0 ∷ [])
    ∷ write free tt (5 ∷ [])
    ∷ write stats tt (1 ∷ [])
    ∷ read alloc tt
    ∷ []

loaded_test : (kernel_alloc_init kzalloc vzalloc).0 ≡ pos 0
unfolding kernel_alloc_init allocator_init
loaded_test = refl

refused_test :
    (accesses
      (parameters kstrtoul digits)
      (write stats tt (1 ∷ []) ∷ read alloc tt ∷ write alloc tt [] ∷ [])
      (kernel_alloc_init kzalloc vzalloc).1).0
    ≡ refused ∷ refused ∷ wrote einval ∷ []
unfolding access accesses param_set_alloc
refused_test = refl

accesses-kernel_alloc_init_example :
    IsSound kstrtoul kstrtoul_lt digits
      (accesses (parameters kstrtoul digits) session (kernel_alloc_init kzalloc vzalloc).1).1
accesses-kernel_alloc_init_example =
    accesses-kernel_alloc_init kstrtoul kstrtoul_lt digits kzalloc vzalloc session promises
      loaded_test
