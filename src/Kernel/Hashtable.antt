-- ===== src/Kernel/Hashtable.antt =====
-- The hash table of <linux/hashtable.h> over nodes, which are addresses, with what its macros do.
use otus_work.Base.{ℕ, ◌≡◌, ◌≢◌, ◌⊎◌, Bool, true, false, List, [], ◌∷◌, ◌==◌, ◌||◌, if◌then◌else◌}

-- Whether a node is in a list.
abbrev pub contains : ℕ → List ℕ → Bool
contains n [] = false
contains n (x ∷ xs) = (x == n) || contains n xs

-- A list without the first place of a node.
abbrev pub erase : ℕ → List ℕ → List ℕ
erase n [] = []
erase n (x ∷ xs) = if x == n then xs else x ∷ erase n xs

pub record Hashtable : Type 1 where
  pub Table : Type 0
  -- `hash_init`
  pub init : Table
  -- `hash_add`: a key, a node
  pub add : ℕ → ℕ → Table → Table
  -- `hash_del`
  pub del : ℕ → Table → Table
  -- The nodes that `hash_for_each` visits, in order.
  pub nodes : Table → List ℕ
  -- The nodes that `hash_for_each_possible` visits for a key, in order: those of its bucket.
  pub possible : ℕ → Table → List ℕ

-- A node is added at the head of its key's bucket, and a visit meets every node once.
pub record HashtableLaws (h : Hashtable) : Type 0 where
  pub nodes-init : h.nodes h.init ≡ []
  pub nodes-del : (n : ℕ) (t : h.Table) → h.nodes (h.del n t) ≡ erase n (h.nodes t)
  pub contains-nodes-add :
      (k n m : ℕ) (t : h.Table)
      → contains m (h.nodes (h.add k n t)) ≡ ((n == m) || contains m (h.nodes t))
  pub possible-add :
      (k j n : ℕ) (t : h.Table)
      → (h.possible j (h.add k n t) ≡ n ∷ h.possible j t)
        ⊎ ((j ≢ k) × (h.possible j (h.add k n t) ≡ h.possible j t))
  pub contains-possible :
      (k n : ℕ) (t : h.Table) → contains n (h.possible k t) ≡ true → contains n (h.nodes t) ≡ true
