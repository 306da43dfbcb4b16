-- ===== src/Alloc/Params.antt =====
-- Linux_kernel/HW_05_bit_maps/src/params.c and main.c. `kstrtoul` is a parameter: the number that a text
-- spells, or `none`. A text that is NULL is `none`.
pub mod Laws
use otus_work.Base.{ℕ, ◌==◌, ◌/◌, Option, none, some, List, [], ◌∷◌, if◌then◌else◌}
use otus_work.Base.Int.{ℤ, pos}
use otus_work.Kernel.{einval, enomem, page_size, text, newline, dec, Reply, shown}
use otus_work.Alloc.Allocator.{
  Status, ok, nomem, invalid, not_found, MemoryAllocator, allocator_init, allocator_alloc,
  allocator_free, allocator_get_stats, allocator_cleanup,
}
use otus_work.Alloc.Allocator.Info.{Format, allocator_bitmap_info}

unfoldable pub param_set_alloc :
    (List ℕ → Option ℕ) → Option (List ℕ) → MemoryAllocator → ℤ × MemoryAllocator
param_set_alloc kstrtoul none a = (einval, a)
param_set_alloc kstrtoul (some val) a = elim (kstrtoul val) [
  | none ↦ (einval, a)
  | some bytes ↦
      let (ptr, a') = allocator_alloc a bytes in if ptr == 0 then (enomem, a') else (pos 0, a')
]

-- What `param_set_free` makes of the result of `allocator_free`.
abbrev pub free_result : Status → ℤ
free_result ok = pos 0
free_result nomem = einval
free_result invalid = einval
free_result not_found = einval

unfoldable pub param_set_free :
    (List ℕ → Option ℕ) → Option (List ℕ) → MemoryAllocator → ℤ × MemoryAllocator
param_set_free kstrtoul none a = (einval, a)
param_set_free kstrtoul (some val) a = elim (kstrtoul val) [
  | none ↦ (einval, a)
  | some addr ↦ let (ret, a') = allocator_free a addr in (free_result ret, a')
]

unfoldable pub param_get_stats : MemoryAllocator → Reply
param_get_stats a =
    let stats = allocator_get_stats a in
    shown (
      text "Total: "
      ∷ dec (pos (stats.total_memory / 1024))
      ∷ text " KB | Free: "
      ∷ dec (pos (stats.free_memory / 1024))
      ∷ text " KB | Allocated: "
      ∷ dec (pos (stats.allocated_memory / 1024))
      ∷ text " KB | Fragmentation: "
      ∷ dec (pos stats.fragmentation_percent)
      ∷ text "%"
      ∷ newline
      ∷ [])

-- The returned length, and the text in the buffer of a page.
unfoldable pub param_get_bitmap_info : Format → MemoryAllocator → ℤ × List ℕ
param_get_bitmap_info fmt a = allocator_bitmap_info fmt a page_size

abbrev pub init_result : Status → ℤ
init_result ok = pos 0
init_result nomem = enomem
init_result invalid = enomem
init_result not_found = enomem

unfoldable pub kernel_alloc_init : (ℕ → Option (List ℕ)) → (ℕ → ℕ) → ℤ × MemoryAllocator
kernel_alloc_init kzalloc vzalloc =
    let (ret, a) = allocator_init kzalloc vzalloc in (init_result ret, a)

unfoldable pub kernel_alloc_exit : MemoryAllocator → MemoryAllocator
kernel_alloc_exit a = allocator_cleanup a
