-- ===== src/Alloc/Bitmap.antt =====
-- Linux_kernel/HW_05_bit_maps/src/bitmap.c: a bitmap in an array of bytes.
-- A read outside the array gives 0 and a write outside it is dropped; the theorems on the
-- allocator keep every access inside.
pub mod Bytes
pub mod Region
pub mod Search
pub mod Count
pub mod Fragmentation
use otus_work.Base.{
  ℕ, zero, suc, ◌+◌, ◌-◌, ◌*◌, ◌/◌, ◌%◌, ◌^◌, Bool, true, false, List, get_or, set, leb, ◌==◌,
  if◌then◌else◌, ◌||◌, bit_and, bit_or, bit_xor,
}
use otus_work.Base.Int.{ℤ, negsuc, signed64}

-- `size_t` wraps at this value.
abbrev pub size_mod : ℕ
size_mod = 2 ^ 64

-- `(b >> k) & 1`
unfoldable pub bit_of : ℕ → ℕ → ℕ
bit_of b k = bit_and (b / 2 ^ k) 1

-- `b |= (1 << k)`
unfoldable pub set_bit : ℕ → ℕ → ℕ
set_bit b k = bit_or b (2 ^ k)

-- `b &= ~(1 << k)`: the store keeps the low eight bits of the complement.
unfoldable pub clear_bit : ℕ → ℕ → ℕ
clear_bit b k = bit_and b (bit_xor 255 (2 ^ k))

unfoldable pub bm_test_bit : List ℕ → ℕ → ℕ
bm_test_bit bmap bit = bit_of (get_or bmap (bit / 8) 0) (bit % 8)

-- The loop body of both region functions, with the byte operation as `f`.
unfoldable pub update_bit : (ℕ → ℕ → ℕ) → List ℕ → ℕ → List ℕ
update_bit f bmap i = set bmap (i / 8) (f (get_or bmap (i / 8) 0) (i % 8))

-- `n` rounds from `i` on
unfoldable pub update_from : (ℕ → ℕ → ℕ) → ℕ → ℕ → List ℕ → List ℕ
update_from f zero i bmap = bmap
update_from f (suc n) i bmap = update_from f n (i + 1) (update_bit f bmap i)

-- `for (i = start; i < start + num_blocks; i++)`; the sum is a `size_t`
unfoldable pub bm_set_region : List ℕ → ℕ → ℕ → List ℕ
bm_set_region bmap start num_blocks =
    update_from set_bit ((start + num_blocks) % size_mod - start) start bmap

unfoldable pub bm_clear_region : List ℕ → ℕ → ℕ → List ℕ
bm_clear_region bmap start num_blocks =
    update_from clear_bit ((start + num_blocks) % size_mod - start) start bmap

-- `rounds` is `total_bits - i`. `count` is at most `i`, so it cannot wrap.
unfoldable pub find_from : List ℕ → ℕ → ℕ → ℕ → ℕ → ℕ → ℤ
find_from bmap num_blocks zero i start count = negsuc 0
find_from bmap num_blocks (suc rounds) i start count =
    let start' : ℕ = if count == 0 then i else start in
    let more : ℤ = find_from bmap num_blocks rounds (i + 1) start' (count + 1) in
    let reset : ℤ = find_from bmap num_blocks rounds (i + 1) start 0 in
    if bm_test_bit bmap i == 0
    then if count + 1 == num_blocks then signed64 start' else more
    else reset

unfoldable pub bm_find_free_region : List ℕ → ℕ → ℕ → ℤ
bm_find_free_region bmap total_bits num_blocks = find_from bmap num_blocks total_bits 0 0 0

unfoldable pub count_from : List ℕ → ℕ → ℕ → ℕ → ℕ
count_from bmap zero i count = count
count_from bmap (suc rounds) i count =
    count_from bmap rounds (i + 1) (if bm_test_bit bmap i == 0 then count else count + 1)

unfoldable pub bm_count_set : List ℕ → ℕ → ℕ
bm_count_set bmap total_bits = count_from bmap total_bits 0 0

-- The variables of the loop of `bm_fragmentation_percent`.
pub record Frag : Type 0 where
  pub free_regions : ℕ
  pub free_blocks : ℕ
  pub in_free : Bool

unfoldable pub frag_step : List ℕ → ℕ → Frag → Frag
frag_step bmap i s =
    if bm_test_bit bmap i == 0
    then record {
      free_regions = if s.in_free then s.free_regions else s.free_regions + 1;
      free_blocks = s.free_blocks + 1;
      in_free = true;
    }
    else record s { in_free = false }

unfoldable pub frag_from : List ℕ → ℕ → ℕ → Frag → Frag
frag_from bmap zero i s = s
frag_from bmap (suc rounds) i s = frag_from bmap rounds (i + 1) (frag_step bmap i s)

abbrev pub frag_start : Frag
frag_start = record { free_regions = 0; free_blocks = 0; in_free = false }

-- `(free_regions - 1) * 100` wraps only past 2 ^ 57 regions.
unfoldable pub bm_fragmentation_percent : List ℕ → ℕ → ℕ
bm_fragmentation_percent bmap total_bits =
    let s = frag_from bmap total_bits 0 frag_start in
    if (s.free_blocks == 0) || leb s.free_regions 1
    then 0
    else ((s.free_regions - 1) * 100 % size_mod) / s.free_regions
