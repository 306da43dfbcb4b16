-- ===== src/Alloc/Bitmap/Bytes.antt =====
-- The bit operations on one byte, checked over all bytes and positions.
use otus_work.Base.{
  ℕ, zero, suc, ◌<◌, ◌≡◌, refl, Bool, true, ltb, leb, ◌==◌, ◌&&◌, if◌then◌else◌, arith, ◌≤◌,
}
use otus_work.Alloc.Bitmap.{bit_of, set_bit, clear_bit}

-- A test that passes at every number under a bound.
passes_under : (ℕ → Bool) → ℕ → Bool
passes_under test zero = true
passes_under test (suc bound) = passes_under test bound && test bound

passes_at :
    (test : ℕ → Bool) (bound n : ℕ) → n < bound → passes_under test bound ≡ true → test n ≡ true
unfolding passes_under
passes_at test zero n inside passed = absurd (omega arith)
passes_at test (suc bound) n inside passed = ground (arith, passes_at test bound n)

-- A test of a byte and two positions in it, over all of them.
all_bits : (ℕ → ℕ → ℕ → Bool) → Bool
unfolding passes_under
all_bits p = passes_under (λ b. passes_under (λ k. passes_under (p b k) 8) 8) 256

module _ (p : ℕ → ℕ → ℕ → Bool) (b k j : ℕ) (hb : b < 256) (hk : k < 8) (hj : j < 8) where
  all_bits_sound : all_bits p ≡ true → p b k j ≡ true
  unfolding all_bits
  all_bits_sound h =
      let at_byte = passes_at (λ b. passes_under (λ k. passes_under (p b k) 8) 8) 256 b hb h in
      passes_at (p b k) 8 j hj (passes_at (λ k. passes_under (p b k) 8) 8 k hk at_byte)

abbrev set_test : ℕ → ℕ → ℕ → Bool
set_test b k j =
    (bit_of (set_bit b k) j == (if k == j then 1 else bit_of b j)) && ltb (set_bit b k) 256

abbrev clear_test : ℕ → ℕ → ℕ → Bool
clear_test b k j =
    (bit_of (clear_bit b k) j == (if k == j then 0 else bit_of b j)) && ltb (clear_bit b k) 256

abbrev bit_test : ℕ → ℕ → ℕ → Bool
bit_test b k j = leb (bit_of b j) 1

set_table : all_bits set_test ≡ true
unfolding all_bits bit_of set_bit
set_table = refl

clear_table : all_bits clear_test ≡ true
unfolding all_bits bit_of clear_bit
clear_table = refl

bit_table : all_bits bit_test ≡ true
unfolding all_bits bit_of
bit_table = refl

module _ (b k j : ℕ) (hb : b < 256) (hk : k < 8) (hj : j < 8) where
  pub bit_of-set_bit : bit_of (set_bit b k) j ≡ (if k == j then 1 else bit_of b j)
  bit_of-set_bit = ground (arith, all_bits_sound set_test b k j hb hk hj set_table)

  pub bit_of-clear_bit : bit_of (clear_bit b k) j ≡ (if k == j then 0 else bit_of b j)
  bit_of-clear_bit = ground (arith, all_bits_sound clear_test b k j hb hk hj clear_table)

module _ (b k : ℕ) (hb : b < 256) (hk : k < 8) where
  pub set_bit-lt : set_bit b k < 256
  set_bit-lt = ground (arith, all_bits_sound set_test b k 0 hb hk (omega arith) set_table)

  pub clear_bit-lt : clear_bit b k < 256
  clear_bit-lt = ground (arith, all_bits_sound clear_test b k 0 hb hk (omega arith) clear_table)

  pub bit_of-le : bit_of b k ≤ 1
  bit_of-le = ground (arith, all_bits_sound bit_test b 0 k hb (omega arith) hk bit_table)
