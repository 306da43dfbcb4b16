-- ===== src/Kernel/Buckets.antt =====
-- The hash table of <linux/hashtable.h> as an array of buckets: the code reads one bucket by its index,
-- which `hash_min` gives for a key.
use otus_work.Base.{ℕ, ◌^◌, ◌<◌, ◌≡◌, true, List, [], ◌∷◌, ◌==◌, if◌then◌else◌}
use otus_work.Kernel.Hashtable.{contains, erase}

pub record Buckets : Type 1 where
  pub Table : Type 0
  -- A key and a number of bits.
  pub hash_min : ℕ → ℕ → ℕ
  pub init : Table
  -- `hash_add`: a key, a node
  pub add : ℕ → ℕ → Table → Table
  pub del : ℕ → Table → Table
  -- The nodes that `hash_for_each` visits, and those of one bucket, in order.
  pub nodes : Table → List ℕ
  pub bucket : ℕ → Table → List ℕ

-- A table of 2 ^ bits buckets.
pub record BucketsLaws (bits : ℕ) (h : Buckets) : Type 0 where
  pub hash_min-lt : (x : ℕ) → h.hash_min x bits < 2 ^ bits
  pub nodes-init : h.nodes h.init ≡ []
  pub nodes-del : (n : ℕ) (t : h.Table) → h.nodes (h.del n t) ≡ erase n (h.nodes t)
  pub bucket-add :
      (k n b : ℕ) (t : h.Table)
      → h.bucket b (h.add k n t)
        ≡ (if h.hash_min k bits == b then n ∷ h.bucket b t else h.bucket b t)
  pub contains-bucket :
      (b n : ℕ) (t : h.Table) → contains n (h.bucket b t) ≡ true → contains n (h.nodes t) ≡ true
  pub contains-nodes :
      (n : ℕ) (t : h.Table)
      → contains n (h.nodes t) ≡ true
      → (b : ℕ) × (b < 2 ^ bits) × (contains n (h.bucket b t) ≡ true)
