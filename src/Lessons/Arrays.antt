-- ===== src/Lessons/Arrays.antt =====
-- What the two programs of Linux_kernel/Lesson 12 that sort an array declare alike: the array and the list of
-- its records, how they are filled, the comparison and the exchange. A record of the array is its
-- `val`, and its node is its index; `random` gives the `u32` that is drawn for an index.
pub mod Laws
use otus_work.Base.{ℕ, zero, suc, ◌+◌, ◌-◌, ◌%◌, ◌^◌, List, [], ◌∷◌, get_or, set, ◌++◌}
use otus_work.Base.Int.{ℤ, signed32}

abbrev pub u32_mod : ℕ
u32_mod = 2 ^ 32

-- `(int)(a->val - b->val)` of two `u32`
unfoldable pub fn_cmp_arr : ℕ → ℕ → ℤ
fn_cmp_arr a b = signed32 ((a + u32_mod - b) % u32_mod)

-- The two writes of `val`.
unfoldable pub fn_swap_arr : List ℕ → ℕ → ℕ → List ℕ
fn_swap_arr arr a b = let tmp = get_or arr b 0 in set (set arr b (get_or arr a 0)) a tmp

-- The module's static variables.
pub record Statics : Type 0 where
  pub arr : List ℕ
  pub my_list : List ℕ

-- The loop of `init_arr`, `rounds` rounds from `i` on.
unfoldable pub fill_arr : (ℕ → ℕ) → ℕ → ℕ → List ℕ → List ℕ
fill_arr random zero i arr = arr
fill_arr random (suc rounds) i arr = fill_arr random rounds (i + 1) (set arr i (random i % 1000))

-- The loop of `init_list`: `list_add_tail` of each record.
unfoldable pub fill_list : ℕ → ℕ → List ℕ → List ℕ
fill_list zero i nodes = nodes
fill_list (suc rounds) i nodes = fill_list rounds (i + 1) (nodes ++ i ∷ [])
