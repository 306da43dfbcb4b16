-- ===== src/Alloc/Files.antt =====
-- The parameters that Linux_kernel/HW_05_bit_maps/src/params.c registers: the operations and the mode
-- of each. What the kernel gives an operation is only the text, so `E` is the unit type. A read
-- gives what the operation printed, in pieces or as bytes.
pub mod Loaded
mod Examples
use otus_work.Base.{Option, none, some, List, ℕ, ◌⊎◌, inl, inr}
use otus_work.Base.Int.{ℤ}
use otus_work.Kernel.{Reply}
use otus_work.Kernel.Files.{File}
use otus_work.Alloc.Allocator.{MemoryAllocator}
use otus_work.Alloc.Allocator.Info.{Format}
use otus_work.Alloc.Params.{param_set_alloc, param_set_free, param_get_stats, param_get_bitmap_info}

pub data Parameter : Type 0 where
  alloc free stats bitmap_info : Parameter

abbrev pub AllocatorFile : Type 0
AllocatorFile = File (Unit {0}) MemoryAllocator (Reply ⊎ (ℤ × List ℕ))

module _ (kstrtoul : List ℕ → Option ℕ) where
  abbrev pub param_ops_alloc : AllocatorFile
  param_ops_alloc = record {
    set = some (λ _ val a. param_set_alloc kstrtoul (some val) a);
    get = none;
    mode = 0o220;
  }

  abbrev pub param_ops_free : AllocatorFile
  param_ops_free = record {
    set = some (λ _ val a. param_set_free kstrtoul (some val) a);
    get = none;
    mode = 0o220;
  }

abbrev pub param_ops_stats : AllocatorFile
param_ops_stats = record {
  set = none;
  get = some (λ _ a. (inl (param_get_stats a), a));
  mode = 0o444;
}

abbrev pub param_ops_bitmap_info : Format → AllocatorFile
param_ops_bitmap_info fmt = record {
  set = none;
  get = some (λ _ a. (inr (param_get_bitmap_info fmt a), a));
  mode = 0o444;
}

abbrev pub parameters : (List ℕ → Option ℕ) → Format → Parameter → AllocatorFile
parameters kstrtoul fmt alloc = param_ops_alloc kstrtoul
parameters kstrtoul fmt free = param_ops_free kstrtoul
parameters kstrtoul fmt stats = param_ops_stats
parameters kstrtoul fmt bitmap_info = param_ops_bitmap_info fmt
