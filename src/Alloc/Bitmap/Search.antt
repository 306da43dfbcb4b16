-- ===== src/Alloc/Bitmap/Search.antt =====
-- `bm_find_free_region` is a first-fit search: it finds the first free region of the size asked for
-- exactly when there is one.
use otus_work.Base.{
  ℕ, zero, suc, ◌+◌, ◌-◌, ◌^◌, ◌<◌, ◌≤◌, ◌≡◌, ◌≢◌, refl, ◌==◌, if◌then◌else◌, arith, List, dec_lt,
  ℕ_discrete, lt→ltb, ==_yes, ==_no,
}
use otus_work.Base.Int.{ℤ, pos, negsuc, signed64}
use otus_work.Alloc.Bitmap.{bm_test_bit, find_from, bm_find_free_region}

-- The bits from `s` up to `e` are all clear.
abbrev pub IsFree : List ℕ → ℕ → ℕ → Type 0
IsFree bmap s e = (k : ℕ) → s ≤ k → k < e → bm_test_bit bmap k ≡ 0

-- The region from `s` on is free, and no region of that size begins before it.
pub record IsFirstFit (bmap : List ℕ) (total n s : ℕ) : Type 0 where
  pub fits : s + n ≤ total
  pub free : IsFree bmap s (s + n)
  pub first : (t : ℕ) → t < s → ¬ IsFree bmap t (t + n)

-- What the search promises of its result: the position of the first fit, or -1 where there is none. It
-- gives no other negative number.
abbrev pub Finds : List ℕ → ℕ → ℕ → ℤ → Type 0
Finds bmap total n (pos s) = IsFirstFit bmap total n s
Finds bmap total n (negsuc zero) = (t : ℕ) → t + n ≤ total → ¬ IsFree bmap t (t + n)
Finds bmap total n (negsuc (suc m)) = ⊥

module _ (bmap : List ℕ) (n total : ℕ) (n_pos : 0 < n) (small : total < 2 ^ 63) where
  -- The loop invariant at `i`: the last `count` bits are free and no longer run ends at `i`, and no
  -- region of the size asked for ends up to `i`.
  record Scanned (i start count : ℕ) : Type 0 where
    short : count < n
    run : count ≤ i
    begin : count ≢ 0 → start + count ≡ i
    free : IsFree bmap (i - count) i
    longest : (t : ℕ) → t ≤ i → IsFree bmap t i → i ≤ t + count
    none_yet : (t : ℕ) → t + n ≤ i → ¬ IsFree bmap t (t + n)

  module _ {i start count : ℕ} (s : Scanned i start count) where
    begin_at : (if count == 0 then i else start) ≡ i - count
    begin_at = ground (arith, s.begin, s.run)

    module _ (clear : bm_test_bit bmap i ≡ 0) where
      IsFree-next : IsFree bmap (i - count) (i + 1)
      IsFree-next k lo hi = elim (dec_lt k i) [
        | yes p ↦ s.free k lo p
        | no p ↦ let same : k ≡ i = omega arith in rw same clear
      ]

      extend : count + 1 ≢ n → Scanned (i + 1) (if count == 0 then i else start) (count + 1)
      extend more = record {
        short = omega (arith, s.short);
        run = omega (arith, s.run);
        begin = λ _. rw begin_at (omega (arith, s.run));
        free = λ k lo hi. IsFree-next k (omega arith) hi;
        longest = λ t h f. elim (dec_lt i t) [
          | yes p ↦ omega arith
          | no p ↦ omega (arith, s.longest t (omega arith) (λ k lo hi. f k lo (omega arith)))
        ];
        none_yet = λ t h f. elim (dec_lt i (t + n)) [
          | yes p ↦
              absurd (
                omega (arith, s.short, s.longest t (omega arith) (λ k lo hi. f k lo (omega arith))))
          | no p ↦ s.none_yet t (omega arith) f
        ];
      }

      found : count + 1 ≡ n → i < total → IsFirstFit bmap total n (i - count)
      found full inside = record {
        fits = omega (arith, s.run);
        free = λ k lo hi. IsFree-next k lo (omega (arith, s.run));
        first = λ t h f. s.none_yet t (omega arith) f;
      }

    reset : bm_test_bit bmap i ≢ 0 → Scanned (i + 1) start 0
    reset taken = record {
      short = n_pos;
      run = omega arith;
      begin = λ h. absurd (h refl);
      free = λ k lo hi. absurd (omega arith);
      longest = λ t h f. elim (dec_lt i t) [
        | yes p ↦ omega arith
        | no p ↦ absurd (taken (f i (omega arith) (omega arith)))
      ];
      none_yet = λ t h f. elim (dec_lt i (t + n)) [
        | yes p ↦ absurd (taken (f i (omega arith) p))
        | no p ↦ s.none_yet t (omega arith) f
      ];
    }

  signed64_small : (w : ℕ) → w < total → signed64 w ≡ pos w
  signed64_small w h = rw (lt→ltb w (2 ^ 63) (omega arith))

  find_from-Finds :
      (rounds i start count : ℕ)
      → rounds + i ≡ total
      → Scanned i start count
      → Finds bmap total n (find_from bmap n rounds i start count)
  unfolding find_from
  find_from-Finds zero i start count e s = λ t h. s.none_yet t (omega arith)
  find_from-Finds (suc rounds) i start count e s = elim (ℕ_discrete (bm_test_bit bmap i) 0) [
    | no taken ↦
        rw (==_no taken) (find_from-Finds rounds (i + 1) start 0 (omega arith) (reset s taken))
    | yes clear ↦ elim (ℕ_discrete (count + 1) n) [
      | yes full ↦
          rw (==_yes clear, ==_yes full, begin_at s, signed64_small (i - count) (omega arith))
            (found s clear full (omega arith))
      | no more ↦
          rw (==_yes clear, ==_no more)
            (find_from-Finds rounds (i + 1) _ (count + 1) (omega arith) (extend s clear more))
    ]
  ]

-- `bm_find_free_region` returns the start of a free region of the size asked for that ends in the
-- map, and of the first such region, or -1 if every region of that size that ends in the map holds
-- a set bit. The size is positive and the map has fewer than 2 ^ 63 bits.
pub bm_find_free_region-Finds :
    (bmap : List ℕ) (total_bits num_blocks : ℕ)
    → 0 < num_blocks
    → total_bits < 2 ^ 63
    → Finds bmap total_bits num_blocks (bm_find_free_region bmap total_bits num_blocks)
unfolding bm_find_free_region
bm_find_free_region-Finds bmap total n n_pos small =
    find_from-Finds bmap n total n_pos small total 0 0 0 (omega arith) record {
      short = n_pos;
      run = omega arith;
      begin = λ h. absurd (h refl);
      free = λ k lo hi. absurd (omega arith);
      longest = λ t h f. omega arith;
      none_yet = λ t h f. absurd (omega arith);
    }

find_from-zero :
    (bmap : List ℕ) (rounds i start count : ℕ) → find_from bmap 0 rounds i start count ≡ negsuc 0
unfolding find_from
find_from-zero bmap zero i start count = refl
find_from-zero bmap (suc rounds) i start count = ground (
  arith,
  find_from-zero bmap rounds (i + 1) start 0,
  find_from-zero bmap rounds (i + 1) (if count == 0 then i else start) (count + 1),
)

-- A search for no blocks at all fails.
pub bm_find_free_region-zero :
    (bmap : List ℕ) (total_bits : ℕ) → bm_find_free_region bmap total_bits 0 ≡ negsuc 0
unfolding bm_find_free_region
bm_find_free_region-zero bmap total = find_from-zero bmap total 0 0 0
