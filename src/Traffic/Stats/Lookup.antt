-- ===== src/Traffic/Stats/Lookup.antt =====
-- The counters that the table holds for a pair of addresses, as a map, and what a write does to it.
use otus_work.Base.{ℕ, ◌≡◌, refl, true, Option, none, some, List, [], ◌∷◌, arith}
use otus_work.Kernel.Hashtable.{Hashtable, contains}
use otus_work.Traffic.Stats.{AddrStat, Stats, pair_key, find_pair}

-- The received and the sent bytes of an entry.
abbrev pub counters : AddrStat → ℕ × ℕ
counters e = (e.recv_bytes, e.send_bytes)

module _ (h : Hashtable) where
  -- The node that the code finds for a pair.
  abbrev pub node_of : Stats h → ℕ → ℕ → Option ℕ
  node_of s p q = find_pair s.heap p q (h.possible (pair_key p q) s.table)

  -- The counters that the code finds for a pair.
  unfoldable pub lookup : Stats h → ℕ → ℕ → Option (ℕ × ℕ)
  lookup s p q = elim (node_of s p q) [ none ↦ none | some n ↦ some (counters (s.heap n)) ]

-- The node found holds the pair.
pub find_pair_sound :
    (heap : ℕ → AddrStat) (p q : ℕ) (ns : List ℕ) (n : ℕ)
    → find_pair heap p q ns ≡ some n
    → ((heap n).saddr ≡ p) × ((heap n).daddr ≡ q) × (contains n ns ≡ true)
unfolding find_pair
find_pair_sound heap p q [] n e = absurd (cc)
find_pair_sound heap p q (m ∷ ns) n e = ground (arith, find_pair_sound heap p q ns n)

-- Heaps that agree on the addresses of the listed entries find the same node.
pub find_pair-congr :
    (heap heap' : ℕ → AddrStat) (p q : ℕ) (ns : List ℕ)
    → ((n : ℕ)
        → contains n ns ≡ true
        → ((heap' n).saddr ≡ (heap n).saddr) × ((heap' n).daddr ≡ (heap n).daddr))
    → find_pair heap' p q ns ≡ find_pair heap p q ns
unfolding find_pair
find_pair-congr heap heap' p q [] same = refl
find_pair-congr heap heap' p q (m ∷ ns) same =
    ground (arith, same m, find_pair-congr heap heap' p q ns (λ n c. same n (ground arith)))

module _ (h : Hashtable) (s : Stats h) (p q : ℕ) where
  pub lookup-none : node_of h s p q ≡ none → lookup h s p q ≡ none
  unfolding lookup
  lookup-none e = rw (e, lookup) refl

  pub lookup-some : {n : ℕ} → node_of h s p q ≡ some n → lookup h s p q ≡ some (counters (s.heap n))
  unfolding lookup
  lookup-some e = rw (e, lookup) refl
