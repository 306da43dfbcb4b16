-- ===== src/Alloc/Bitmap/Fragmentation.antt =====
-- `bm_fragmentation_percent` against the number of maximal runs of free bits.
use otus_work.Base.{
  ℕ, zero, suc, ◌+◌, ◌-◌, ◌*◌, ◌/◌, ◌^◌, ◌<◌, ◌≤◌, ◌≡◌, ◌↔◌, ap, ◌∙◌, false, leb, ◌==◌, ◌&&◌,
  if◌then◌else◌, arith, List, Bool, not, add-one,
}
use native.Mathlib.Nat.{mod-eq_of_lt}
use otus_work.Alloc.Bitmap.{
  size_mod, bm_test_bit, Frag, frag_step, frag_from, frag_start, bm_fragmentation_percent,
}
use otus_work.Alloc.Bitmap.Region.{IsBytes, bm_test_bit-le}
use otus_work.Alloc.Bitmap.Count.{ones, ones-le}

-- Whether the bit before `i` exists and is free.
abbrev free_before : List ℕ → ℕ → Bool
free_before bmap zero = false
free_before bmap (suc i) = bm_test_bit bmap i == 0

-- The number of runs of free bits that begin below `n`.
unfoldable pub runs : List ℕ → ℕ → ℕ
runs bmap zero = 0
runs bmap (suc n) =
    runs bmap n + (if (bm_test_bit bmap n == 0) && not (free_before bmap n) then 1 else 0)

runs-le-free : (bmap : List ℕ) (n : ℕ) → IsBytes bmap → runs bmap n + ones bmap n ≤ n
unfolding runs ones
runs-le-free bmap zero bytes = omega arith
runs-le-free bmap (suc n) bytes =
    ground (arith, runs-le-free bmap n bytes, bm_test_bit-le bmap n bytes)

-- The loop's variables after `n` rounds.
abbrev state_at : List ℕ → ℕ → Frag
state_at bmap n = record {
  free_regions = runs bmap n;
  free_blocks = n - ones bmap n;
  in_free = free_before bmap n;
}

frag_step-state_at :
    (bmap : List ℕ) (i : ℕ)
    → IsBytes bmap
    → frag_step bmap i (state_at bmap i) ≡ state_at bmap (suc i)
unfolding frag_step runs ones
frag_step-state_at bmap zero bytes = ground (arith, bm_test_bit-le bmap 0 bytes)
frag_step-state_at bmap (suc i) bytes =
    ground (arith, ones-le bmap (suc i) bytes, bm_test_bit-le bmap (suc i) bytes)

frag_from-state_at :
    (bmap : List ℕ) (rounds i : ℕ)
    → IsBytes bmap
    → frag_from bmap rounds i (state_at bmap i) ≡ state_at bmap (rounds + i)
unfolding frag_from
frag_from-state_at bmap zero i bytes = ap (state_at bmap) (omega arith)
frag_from-state_at bmap (suc rounds) i bytes =
    rw (frag_step-state_at bmap i bytes, add-one)
      (frag_from-state_at bmap rounds (suc i) bytes ∙ ap (state_at bmap) (omega arith))

frag_from-start :
    (bmap : List ℕ) (n : ℕ) → IsBytes bmap → frag_from bmap n 0 frag_start ≡ state_at bmap n
unfolding runs ones
frag_from-start bmap n bytes = frag_from-state_at bmap n 0 bytes ∙ ap (state_at bmap) (omega arith)

percent_range : (r : ℕ) → 2 ≤ r → (0 < (r - 1) * 100 / r) × ((r - 1) * 100 / r < 100)
percent_range r h = grind arith

-- `bm_fragmentation_percent` is `(r - 1) * 100 / r` for the number `r` of maximal runs of free bits,
-- and 0 where there is at most one, for a map of bytes of fewer than 2 ^ 57 bits.
pub bm_fragmentation_percent-runs :
    (bmap : List ℕ) (total_bits : ℕ)
    → IsBytes bmap
    → total_bits < 2 ^ 57
    → bm_fragmentation_percent bmap total_bits ≡ (
        if leb (runs bmap total_bits) 1
        then 0
        else (runs bmap total_bits - 1) * 100 / runs bmap total_bits)
unfolding bm_fragmentation_percent
bm_fragmentation_percent-runs bmap total bytes small = rw (frag_from-start bmap total bytes) (
    ground (
      arith,
      runs-le-free bmap total bytes,
      mod-eq_of_lt {n = (runs bmap total - 1) * 100} {m = size_mod},
    ))

-- The percentage is below 100, and it is 0 exactly when the free bits make at most one run, for a
-- map of bytes of fewer than 2 ^ 57 bits.
pub bm_fragmentation_percent_bounds :
    (bmap : List ℕ) (total_bits : ℕ)
    → IsBytes bmap
    → total_bits < 2 ^ 57
    → (bm_fragmentation_percent bmap total_bits < 100)
      × ((bm_fragmentation_percent bmap total_bits ≡ 0) ↔ (runs bmap total_bits ≤ 1))
bm_fragmentation_percent_bounds bmap total bytes small =
    ground
      (arith, bm_fragmentation_percent-runs bmap total bytes small, percent_range (runs bmap total))
