-- ===== src/Alloc/Bitmap/Count.antt =====
-- `bm_count_set` counts the set bits, and how a written region changes that number.
use otus_work.Base.{
  ℕ, zero, suc, ◌+◌, ◌-◌, ◌*◌, ◌<◌, ◌≤◌, ◌≡◌, sym, ap, ◌∙◌, true, false, ◌==◌, if◌then◌else◌, arith,
  List, length, add-one, min,
}
use otus_work.Alloc.Bitmap.{
  size_mod, bm_test_bit, count_from, bm_count_set, bm_set_region, bm_clear_region,
}
use otus_work.Alloc.Bitmap.Region.{
  IsBytes, within, bm_test_bit-le, bm_set_region-IsWritten, bm_clear_region-IsWritten,
}
use otus_work.Alloc.Bitmap.Search.{IsFree}

-- The number of set bits below `n`.
unfoldable pub ones : List ℕ → ℕ → ℕ
ones bmap zero = 0
ones bmap (suc n) = ones bmap n + bm_test_bit bmap n

pub ones-le : (bmap : List ℕ) (n : ℕ) → IsBytes bmap → ones bmap n ≤ n
unfolding ones
ones-le bmap zero bytes = omega arith
ones-le bmap (suc n) bytes = omega (arith, ones-le bmap n bytes, bm_test_bit-le bmap n bytes)

count_from-ones :
    (bmap : List ℕ) (rounds i : ℕ)
    → IsBytes bmap
    → count_from bmap rounds i (ones bmap i) ≡ ones bmap (rounds + i)
unfolding count_from ones
count_from-ones bmap zero i bytes = ap (ones bmap) (omega arith)
count_from-ones bmap (suc rounds) i bytes =
    rw add-one (ap (count_from bmap rounds (suc i)) next)
    ∙ count_from-ones bmap rounds (suc i) bytes
    ∙ ap (ones bmap) (omega arith)
  where
    next : (if bm_test_bit bmap i == 0 then ones bmap i else ones bmap i + 1) ≡ ones bmap (suc i)
    next = ground (arith, bm_test_bit-le bmap i bytes)

-- `bm_count_set` returns the number of set bits below the bound, if the entries are bytes.
pub bm_count_set-ones :
    (bmap : List ℕ) (total_bits : ℕ)
    → IsBytes bmap
    → bm_count_set bmap total_bits ≡ ones bmap total_bits
unfolding bm_count_set
bm_count_set-ones bmap total_bits bytes =
    unfold ones in count_from-ones bmap total_bits 0 bytes ∙ ap (ones bmap) (omega arith)

module _ (bmap bmap' : List ℕ) (start n : ℕ)
    (off : (j : ℕ) → within start n j ≡ true → bm_test_bit bmap j ≡ 0)
    (on : (j : ℕ) → within start n j ≡ true → bm_test_bit bmap' j ≡ 1)
    (same : (j : ℕ) → within start n j ≡ false → bm_test_bit bmap' j ≡ bm_test_bit bmap j) where
  ones_grow : (t : ℕ) → ones bmap' t ≡ ones bmap t + min n (t - start)
  unfolding ones
  ones_grow zero = omega arith
  ones_grow (suc t) = ground (arith, ones_grow t, off t, on t, same t)

-- Turning on a free region of `n` blocks adds `n` to the count, if the region lies in the map.
pub bm_count_set-set_region :
    (bmap : List ℕ) (total_bits start num_blocks : ℕ)
    → IsBytes bmap
    → IsFree bmap start (start + num_blocks)
    → start + num_blocks ≤ total_bits
    → total_bits ≤ 8 * length bmap
    → total_bits < size_mod
    → bm_count_set (bm_set_region bmap start num_blocks) total_bits
      ≡ bm_count_set bmap total_bits + num_blocks
bm_count_set-set_region bmap total start n bytes free inside fits small =
    let w = bm_set_region-IsWritten bmap start n (omega arith) (omega arith) bytes in
    rw (bm_count_set-ones bmap total bytes, bm_count_set-ones _ total w.bytes)
      (omega (
        arith,
        ones_grow bmap (bm_set_region bmap start n) start n
            (λ j h. free j (ground arith) (ground arith)) (λ j h. w.reads j ∙ rw h)
            (λ j h. w.reads j ∙ rw h) total,
      ))

-- Turning off a region of `n` set bits takes `n` from the count, if the region lies in the map.
pub bm_count_set-clear_region :
    (bmap : List ℕ) (total_bits start num_blocks : ℕ)
    → IsBytes bmap
    → ((j : ℕ) → within start num_blocks j ≡ true → bm_test_bit bmap j ≡ 1)
    → start + num_blocks ≤ total_bits
    → total_bits ≤ 8 * length bmap
    → total_bits < size_mod
    → bm_count_set (bm_clear_region bmap start num_blocks) total_bits + num_blocks
      ≡ bm_count_set bmap total_bits
bm_count_set-clear_region bmap total start n bytes taken inside fits small =
    let w = bm_clear_region-IsWritten bmap start n (omega arith) (omega arith) bytes in
    rw (bm_count_set-ones bmap total bytes, bm_count_set-ones _ total w.bytes)
      (omega (
        arith,
        ones_grow (bm_clear_region bmap start n) bmap start n (λ j h. w.reads j ∙ rw h) taken
            (λ j h. sym (w.reads j ∙ rw h)) total,
      ))
