-- ===== src/Alloc/Bitmap/Region.antt =====
-- What a write of one bit, and of a region of bits, does to every bit of the map.
use otus_work.Base.{
  ℕ, zero, suc, ◌+◌, ◌-◌, ◌*◌, ◌/◌, ◌%◌, ◌<◌, ◌≤◌, ◌≡◌, refl, Bool, ltb, leb, ◌==◌, ◌&&◌,
  if◌then◌else◌, arith, List, [], ◌∷◌, length, get_or, set, length-set,
}
use otus_work.Alloc.Bitmap.{
  size_mod, bit_of, set_bit, clear_bit, bm_test_bit, update_bit, update_from, bm_set_region,
  bm_clear_region,
}
use otus_work.Alloc.Bitmap.Bytes.{
  bit_of-set_bit, bit_of-clear_bit, set_bit-lt, clear_bit-lt, bit_of-le,
}

-- Every entry is a byte.
abbrev pub IsBytes : List ℕ → Type 0
IsBytes bmap = (i : ℕ) → get_or bmap i 0 < 256

-- `i` lies in the region of `n` blocks from `s` on.
abbrev pub within : ℕ → ℕ → ℕ → Bool
within s n i = leb s i && ltb i (s + n)

pub get_or-set :
    (xs : List ℕ) (i j v : ℕ)
    → i < length xs
    → get_or (set xs i v) j 0 ≡ (if i == j then v else get_or xs j 0)
get_or-set [] i j v h = absurd (omega arith)
get_or-set (x ∷ xs) (suc i) (suc j) v h = ground (arith, get_or-set xs i j v)
get_or-set (x ∷ xs) zero zero v h = ground arith
get_or-set (x ∷ xs) i j v h = ground arith

pub bm_test_bit-le : (bmap : List ℕ) (j : ℕ) → IsBytes bmap → bm_test_bit bmap j ≤ 1
unfolding bm_test_bit
bm_test_bit-le bmap j bytes =
    bit_of-le (get_or bmap (j / 8) 0) (j % 8) (bytes (j / 8)) (omega arith)

-- A byte operation that gives its bit the value `v` and leaves the other bits alone.
record Writes (f : ℕ → ℕ → ℕ) (v : ℕ) : Type 0 where
  small : (b k : ℕ) → b < 256 → k < 8 → f b k < 256
  reads :
      (b k j : ℕ) → b < 256 → k < 8 → j < 8 → bit_of (f b k) j ≡ (if k == j then v else bit_of b j)

set_bit-Writes : Writes set_bit 1
set_bit-Writes = record { small = set_bit-lt; reads = bit_of-set_bit }

clear_bit-Writes : Writes clear_bit 0
clear_bit-Writes = record { small = clear_bit-lt; reads = bit_of-clear_bit }

module _ (f : ℕ → ℕ → ℕ) (v : ℕ) (w : Writes f v) where
  length-update_bit : (bmap : List ℕ) (i : ℕ) → length (update_bit f bmap i) ≡ length bmap
  unfolding update_bit
  length-update_bit bmap i = length-set bmap (i / 8) _

  update_bit-IsBytes :
      (bmap : List ℕ) (i : ℕ) → i < 8 * length bmap → IsBytes bmap → IsBytes (update_bit f bmap i)
  unfolding update_bit
  update_bit-IsBytes bmap i h bytes j = ground (
    arith,
    get_or-set bmap (i / 8) j (f (get_or bmap (i / 8) 0) (i % 8)),
    w.small (get_or bmap (i / 8) 0) (i % 8) (bytes (i / 8)),
    bytes j,
  )

  bm_test_bit-update_bit :
      (bmap : List ℕ) (i j : ℕ)
      → i < 8 * length bmap
      → IsBytes bmap
      → bm_test_bit (update_bit f bmap i) j ≡ (if i == j then v else bm_test_bit bmap j)
  unfolding update_bit bm_test_bit
  bm_test_bit-update_bit bmap i j h bytes = ground (
    arith,
    get_or-set bmap (i / 8) (j / 8) (f (get_or bmap (i / 8) 0) (i % 8)),
    w.reads (get_or bmap (i / 8) 0) (i % 8) (j % 8) (bytes (i / 8)),
  )

  length-update_from : (n i : ℕ) (bmap : List ℕ) → length (update_from f n i bmap) ≡ length bmap
  unfolding update_from
  length-update_from zero i bmap = refl
  length-update_from (suc n) i bmap =
      omega (arith, length-update_from n (i + 1) (update_bit f bmap i), length-update_bit bmap i)

  update_from-IsBytes :
      (n i : ℕ) (bmap : List ℕ)
      → i + n ≤ 8 * length bmap
      → IsBytes bmap
      → IsBytes (update_from f n i bmap)
  unfolding update_from
  update_from-IsBytes zero i bmap h bytes = bytes
  update_from-IsBytes (suc n) i bmap h bytes =
      update_from-IsBytes n (i + 1) (update_bit f bmap i) (omega (arith, length-update_bit bmap i))
        (update_bit-IsBytes bmap i (omega arith) bytes)

  bm_test_bit-update_from :
      (n i : ℕ) (bmap : List ℕ) (j : ℕ)
      → i + n ≤ 8 * length bmap
      → IsBytes bmap
      → bm_test_bit (update_from f n i bmap) j ≡ (if within i n j then v else bm_test_bit bmap j)
  unfolding update_from
  bm_test_bit-update_from zero i bmap j h bytes = ground arith
  bm_test_bit-update_from (suc n) i bmap j h bytes = ground (
    arith,
    bm_test_bit-update_from n (i + 1) (update_bit f bmap i) j
        (omega (arith, length-update_bit bmap i)) (update_bit-IsBytes bmap i (omega arith) bytes),
    bm_test_bit-update_bit bmap i j (omega arith) bytes,
  )

-- `bmap'` is `bmap` with the `n` bits from `start` on given the value `v`.
pub record IsWritten (v start n : ℕ) (bmap bmap' : List ℕ) : Type 0 where
  pub same_length : length bmap' ≡ length bmap
  pub bytes : IsBytes bmap'
  pub reads : (j : ℕ) → bm_test_bit bmap' j ≡ (if within start n j then v else bm_test_bit bmap j)

module _ (bmap : List ℕ) (start num_blocks : ℕ) (fits : start + num_blocks ≤ 8 * length bmap)
    (small : start + num_blocks < size_mod) (bytes : IsBytes bmap) where
  rounds : (start + num_blocks) % size_mod - start ≡ num_blocks
  rounds = omega arith

  -- `bm_set_region` turns on the bits of its region, leaves every other bit as it was, and keeps
  -- the array's length and its entries bytes, if the region lies in the array and its end does
  -- not wrap.
  pub bm_set_region-IsWritten :
      IsWritten 1 start num_blocks bmap (bm_set_region bmap start num_blocks)
  unfolding bm_set_region
  bm_set_region-IsWritten = rw rounds record {
    same_length = length-update_from set_bit 1 set_bit-Writes num_blocks start bmap;
    bytes = update_from-IsBytes set_bit 1 set_bit-Writes num_blocks start bmap fits bytes;
    reads =
        λ j. bm_test_bit-update_from set_bit 1 set_bit-Writes num_blocks start bmap j fits bytes;
  }

  -- `bm_clear_region` turns off the bits of its region, leaves every other bit as it was, and keeps
  -- the array's length and its entries bytes, if the region lies in the array and its end does
  -- not wrap.
  pub bm_clear_region-IsWritten :
      IsWritten 0 start num_blocks bmap (bm_clear_region bmap start num_blocks)
  unfolding bm_clear_region
  bm_clear_region-IsWritten = rw rounds record {
    same_length = length-update_from clear_bit 0 clear_bit-Writes num_blocks start bmap;
    bytes = update_from-IsBytes clear_bit 0 clear_bit-Writes num_blocks start bmap fits bytes;
    reads = λ j.
        bm_test_bit-update_from clear_bit 0 clear_bit-Writes num_blocks start bmap j fits bytes;
  }
