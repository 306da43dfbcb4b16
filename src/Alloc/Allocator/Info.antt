-- ===== src/Alloc/Allocator/Info.antt =====
-- `allocator_bitmap_info` of allocator.c: the text about the first blocks and the live allocations.
use otus_work.Base.{
  get_or, ℕ, suc, ◌≡◌, refl, ap, ◌∙◌, List, [], ◌∷◌, ◌++◌, ◌==◌, length, take, min, if◌then◌else◌,
  arith,
}
use mathlib.Core.List.{append_assoc}
use otus_work.Base.Int.{ℤ, pos}
use otus_work.Kernel.Print.{print_at, print_each, texts, texts_cong, print_at-take, print_each-take}
use otus_work.Alloc.Bitmap.{bm_test_bit}
use otus_work.Alloc.Allocator.{AllocationInfo, MemoryAllocator, no_allocation}
use otus_work.Alloc.Allocator.Table.{entry, cover}
use otus_work.Alloc.Allocator.Invariant.{IsValid}

-- How `scnprintf` spells the lines with numbers.
pub record Format : Type 0 where
  -- "Active allocations: %zu\n"
  pub count : ℕ → List ℕ
  -- "  [%zu] block %zu, %zu blocks, ptr %px\n"
  pub allocation : ℕ → AllocationInfo → List ℕ

-- "Bitmap (first 80 blocks): ["
abbrev pub map_start : List ℕ
map_start =
    b'B' ∷ b'i' ∷ b't' ∷ b'm' ∷ b'a' ∷ b'p' ∷ b' ' ∷ b'(' ∷ b'f' ∷ b'i' ∷ b'r' ∷ b's' ∷ b't' ∷ b' '
    ∷ b'8' ∷ b'0' ∷ b' ' ∷ b'b' ∷ b'l' ∷ b'o' ∷ b'c' ∷ b'k' ∷ b's' ∷ b')' ∷ b':' ∷ b' ' ∷ b'[' ∷ []

-- "]\n"
abbrev pub map_end : List ℕ
map_end = b']' ∷ 10 ∷ []

-- "%c" of `X` or `.`
abbrev pub mark : ℕ → List ℕ
mark bit = if bit == 0 then b'.' ∷ [] else b'X' ∷ []

-- The returned length, and the text in the buffer.
unfoldable pub allocator_bitmap_info : Format → MemoryAllocator → ℕ → ℤ × List ℕ
allocator_bitmap_info fmt a buf_size =
    let start = print_at buf_size [] map_start in
    let blocks =
      print_each (λ i. mark (bm_test_bit a.bitmap i)) buf_size (min 80 a.total_blocks) 0 start in
    let ended = print_at buf_size blocks map_end in
    let counted = print_at buf_size ended (fmt.count a.num_allocations) in
    let out =
      print_each (λ i. fmt.allocation i (get_or a.allocations i no_allocation)) buf_size
        a.num_allocations 0 counted in
    (pos (length out), out)

-- The whole text, by the table of allocations alone.
unfoldable pub info_text : Format → MemoryAllocator → List ℕ
info_text fmt a =
    map_start
    ++ (texts (λ j. mark (cover a.allocations a.num_allocations j)) 80 0
        ++ (map_end
            ++ (fmt.count a.num_allocations
                ++ texts (λ i. fmt.allocation i (entry a.allocations i)) a.num_allocations 0)))

-- The calls of `allocator_bitmap_info` print the texts one after the other.
printed-take :
    (size : ℕ) (start end counted : List ℕ) (block line : ℕ → List ℕ) (n k : ℕ)
    → print_each line (suc size) k 0 (
        print_at
          (suc size)
          (print_at (suc size) (print_each block (suc size) n 0 (print_at (suc size) [] start)) end)
          counted)
      ≡ take size (start ++ (texts block n 0 ++ (end ++ (counted ++ texts line k 0))))
printed-take size start end counted block line n k =
    let blocks = start ++ texts block n 0 in
    let first : print_at (suc size) [] start ≡ take size start =
      ap (λ n. take n start) (omega arith) in
    let upto_map : print_each block (suc size) n 0 (print_at (suc size) [] start)
        ≡ take size blocks =
      rw first (print_each-take size block n 0 start) in
    rw (upto_map, print_at-take size blocks end, print_at-take size (blocks ++ end) counted)
      (print_each-take size line k 0 ((blocks ++ end) ++ counted)
        ∙ rw (append_assoc, append_assoc, append_assoc) refl)

pub allocator_bitmap_info_lem :
    {a : MemoryAllocator} (fmt : Format) (size : ℕ)
    → IsValid a
    → let (len, out) = allocator_bitmap_info fmt a (suc size) in
      (len ≡ pos (length out)) × (out ≡ take size (info_text fmt a))
unfolding allocator_bitmap_info info_text
allocator_bitmap_info_lem {a} fmt size v =
    let block : ℕ → List ℕ = λ i. mark (bm_test_bit a.bitmap i) in
    let line : ℕ → List ℕ = λ i. fmt.allocation i (entry a.allocations i) in
    let eighty : min 80 a.total_blocks ≡ 80 = omega (arith, v.blocks) in
    let marks : texts block 80 0
        ≡ texts (λ j. mark (cover a.allocations a.num_allocations j)) 80 0 =
      texts_cong block _ 80 0 (λ j below. ap mark (v.exact j (omega arith))) in
    (
      refl,
      printed-take size map_start map_end (fmt.count a.num_allocations) block line
            (min 80 a.total_blocks) a.num_allocations
          ∙ rw (eighty, marks) refl,
    )
