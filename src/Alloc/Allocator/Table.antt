-- ===== src/Alloc/Allocator/Table.antt =====
-- The table of live allocations: which blocks its first entries cover, and the search by pointer.
use otus_work.Base.{
  ℕ, zero, suc, ◌+◌, ◌<◌, ◌≤◌, ◌≡◌, ◌≢◌, refl, ltb, ◌==◌, ==_yes, ==_no, if◌then◌else◌, arith, List,
  [], ◌∷◌, length, get_or, set, Option, none, some, ℕ_discrete, dec_lt,
}
use otus_work.Alloc.Bitmap.Region.{within}
use otus_work.Alloc.Allocator.{AllocationInfo, no_allocation, find_allocation}

abbrev pub entry : List AllocationInfo → ℕ → AllocationInfo
entry table i = get_or table i no_allocation

-- Whether an entry covers the block `j`, as a number.
unfoldable pub hit : AllocationInfo → ℕ → ℕ
hit e j = if within e.start_block e.num_blocks j then 1 else 0

-- How many of the first `n` entries cover the block `j`.
unfoldable pub cover : List AllocationInfo → ℕ → ℕ → ℕ
cover table zero j = 0
cover table (suc n) j = cover table n j + hit (entry table n) j

pub entry-set :
    (table : List AllocationInfo) (i j : ℕ) (e : AllocationInfo)
    → i < length table
    → entry (set table i e) j ≡ (if i == j then e else entry table j)
entry-set [] i j e h = absurd (omega arith)
entry-set (x ∷ xs) (suc i) (suc j) e h = ground (arith, entry-set xs i j e)
entry-set (x ∷ xs) zero zero e h = ground arith
entry-set (x ∷ xs) i j e h = ground arith

-- A write at or past `n` leaves the first `n` entries' cover.
pub cover-set_past :
    (table : List AllocationInfo) (n i j : ℕ) (e : AllocationInfo)
    → i < length table
    → n ≤ i
    → cover (set table i e) n j ≡ cover table n j
unfolding cover
cover-set_past table zero i j e h past = refl
cover-set_past table (suc n) i j e h past =
    ground (arith, cover-set_past table n i j e h, entry-set table i n e h)

-- A write below `n` exchanges the old entry's cover for the new one's.
pub cover-set :
    (table : List AllocationInfo) (n i j : ℕ) (e : AllocationInfo)
    → i < length table
    → i < n
    → cover (set table i e) n j + hit (entry table i) j ≡ cover table n j + hit e j
unfolding cover
cover-set table zero i j e h below = absurd (omega arith)
cover-set table (suc n) i j e h below = elim (ℕ_discrete i n) [
  | yes same ↦ ground (arith, cover-set_past table n i j e h, entry-set table i n e h)
  | no other ↦ ground (arith, cover-set table n i j e h, entry-set table i n e h)
]

pub hit-le-cover :
    (table : List AllocationInfo) (n i j : ℕ) → i < n → hit (entry table i) j ≤ cover table n j
unfolding cover
hit-le-cover table zero i j h = absurd (omega arith)
hit-le-cover table (suc n) i j h = elim (ℕ_discrete i n) [
  | yes same ↦ rw same (omega arith)
  | no other ↦ omega (arith, hit-le-cover table n i j (omega arith))
]

-- Two different entries cover a block as often as both do.
pub hits-le-cover :
    (table : List AllocationInfo) (n i k j : ℕ)
    → i < k
    → k < n
    → hit (entry table i) j + hit (entry table k) j ≤ cover table n j
unfolding cover
hits-le-cover table zero i k j h below = absurd (omega arith)
hits-le-cover table (suc n) i k j h below = elim (ℕ_discrete k n) [
  | yes same ↦ rw same (omega (arith, hit-le-cover table n i j (omega arith)))
  | no other ↦ omega (arith, hits-le-cover table n i k j h (omega arith))
]

-- What the search promises of its result, from `i` on.
abbrev pub Searched : List AllocationInfo → ℕ → ℕ → ℕ → Option ℕ → Type 0
Searched table ptr i end none = (k : ℕ) → i ≤ k → k < end → (entry table k).ptr ≢ ptr
Searched table ptr i end (some r) =
    (i ≤ r)
    × (r < end)
    × ((entry table r).ptr ≡ ptr)
    × ((k : ℕ) → i ≤ k → k < r → (entry table k).ptr ≢ ptr)

Searched-past :
    (table : List AllocationInfo) (ptr i end : ℕ) (r : Option ℕ)
    → (entry table i).ptr ≢ ptr
    → Searched table ptr (i + 1) end r
    → Searched table ptr i end r
Searched-past table ptr i end none ne s =
    λ k lo hi. elim (ℕ_discrete k i) [ yes same ↦ rw same ne | no other ↦ s k (omega arith) hi ]
Searched-past table ptr i end (some r) ne s = (
  omega (arith, s.0),
  s.1,
  s.2,
  λ k lo hi. elim (ℕ_discrete k i) [ yes same ↦ rw same ne | no other ↦ s.3 k (omega arith) hi ],
)

pub find_allocation-Searched :
    (table : List AllocationInfo) (ptr rounds i : ℕ)
    → Searched table ptr i (rounds + i) (find_allocation table ptr rounds i)
unfolding find_allocation
find_allocation-Searched table ptr zero i = λ k lo hi. absurd (omega arith)
find_allocation-Searched table ptr (suc rounds) i = elim (ℕ_discrete (entry table i).ptr ptr) [
  | yes same ↦ rw (==_yes same) (omega arith, omega arith, same, λ k lo hi. absurd (omega arith))
  | no other ↦ rw (==_no other) (
      Searched-past table ptr i (suc rounds + i) (find_allocation table ptr rounds (i + 1)) other (
        let e : suc rounds + i ≡ rounds + (i + 1) = omega arith in
        rw e (find_allocation-Searched table ptr rounds (i + 1))))
]

-- To move the last entry over the entry `i` takes the cover of `i` away.
pub cover-swap_remove :
    (table : List AllocationInfo) (last i j : ℕ)
    → i ≤ last
    → last < length table
    → cover (if ltb i last then set table i (entry table last) else table) last j
        + hit (entry table i) j
      ≡ cover table (suc last) j
unfolding cover
cover-swap_remove table last i j h inside = elim (dec_lt i last) [
  | yes p ↦ ground (arith, cover-set table last i j (entry table last))
  | no p ↦ let same : i ≡ last = omega arith in rw same (ground arith)
]
