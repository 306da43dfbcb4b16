-- ===== src/LinkedFifo/Chain.antt =====
-- What a queue of Linux_kernel/Lesson 9/fifo.c stands for: its nodes in order, with their addresses.
use otus_work.Base.{
  ℕ, ◌≡◌, ◌≢◌, refl, sym, ap, ◌∙◌, Bool, true, false, ◌||◌, Option, none, some, List, [], ◌∷◌, ◌++◌,
  ◌==◌, arith, ==_no,
}
use mathlib.Core.Bool.{false≢true}
use otus_work.Base.Int.{ℤ}
use otus_work.LinkedFifo.Memory.{Node, Memory, write}
use otus_work.LinkedFifo.Program.{Fifo}

-- An address and a value for each node.
abbrev pub Cells : Type 0
Cells = List (ℕ × ℤ)

abbrev pub values : Cells → List ℤ
values [] = []
values ((a, v) ∷ xs) = v ∷ values xs

abbrev pub has : ℕ → Cells → Bool
has a [] = false
has a ((b, v) ∷ xs) = (b == a) || has a xs

-- The address of the first node, and of the last: NULL if there is none.
abbrev pub first : Cells → ℕ
first [] = 0
first ((a, v) ∷ xs) = a

abbrev pub last_of : ℕ → Cells → ℕ
last_of d [] = d
last_of d ((a, v) ∷ xs) = last_of a xs

abbrev pub node : ℤ → ℕ → Node
node v p = record { node_data = v; next = p }

-- Each node is in memory and points to the next, the last to NULL, and no two share an address.
abbrev pub Chain : Memory → Cells → Type 0
Chain m [] = Unit {0}
Chain m ((a, v) ∷ xs) = (a ≢ 0) × (m a ≡ some (node v (first xs))) × (has a xs ≡ false) × Chain m xs

-- The queue points to both ends of the chain, and memory holds no other node.
pub record IsFifo (xs : Cells) (q : Fifo) (m : Memory) : Type 0 where
  pub start : q.start ≡ first xs
  pub end : q.end ≡ last_of 0 xs
  pub chain : Chain m xs
  pub exact : (a : ℕ) → has a xs ≡ false → m a ≡ none

-- A chain survives a write elsewhere.
pub Chain-write :
    (m : Memory) (p : ℕ) (c : Option Node) (xs : Cells)
    → Chain m xs
    → has p xs ≡ false
    → Chain (write m p c) xs
Chain-write m p c [] k out = tt
Chain-write m p c ((a, v) ∷ xs) k out =
    (k.0, ground (arith, k.1), k.2, Chain-write m p c xs k.3 (ground arith))

pub values-append : (xs : Cells) (p : ℕ) (v : ℤ) → values (xs ++ (p, v) ∷ []) ≡ values xs ++ v ∷ []
values-append [] p v = refl
values-append ((a, w) ∷ xs) p v = ap (λ vs. w ∷ vs) (values-append xs p v)

pub has-append :
    (b : ℕ) (xs : Cells) (p : ℕ) (v : ℤ) → has b (xs ++ (p, v) ∷ []) ≡ (has b xs || (p == b))
has-append b [] p v = ground arith
has-append b ((a, w) ∷ xs) p v = ground (arith, has-append b xs p v)

pub last_of-append : (d : ℕ) (xs : Cells) (p : ℕ) (v : ℤ) → last_of d (xs ++ (p, v) ∷ []) ≡ p
last_of-append d [] p v = refl
last_of-append d ((a, w) ∷ xs) p v = last_of-append a xs p v

pub first-append :
    (a : ℕ) (w : ℤ) (xs : Cells) (p : ℕ) (v : ℤ) → first (((a, w) ∷ xs) ++ (p, v) ∷ []) ≡ a
first-append a w xs p v = refl

-- The last node of a chain with a node is one of its nodes.
pub has-last_of : (a : ℕ) (v : ℤ) (xs : Cells) → has (last_of a xs) ((a, v) ∷ xs) ≡ true
has-last_of a v [] = ground arith
has-last_of a v ((b, w) ∷ xs) = ground (arith, has-last_of b w xs)

pub ne_of_has : (xs : Cells) (a b : ℕ) → has a xs ≡ false → has b xs ≡ true → a ≢ b
ne_of_has xs a b out there e = false≢true (sym out ∙ ap (λ c. has c xs) e ∙ there)

-- What the last node holds.
pub last_node :
    (m : Memory) (a : ℕ) (v : ℤ) (xs : Cells)
    → Chain m ((a, v) ∷ xs)
    → (w : ℤ) × (m (last_of a xs) ≡ some (node w 0)) × (last_of a xs ≢ 0)
last_node m a v [] k = (v, k.1, k.0)
last_node m a v ((b, w) ∷ xs) k = last_node m b w xs k.3

-- To hang a new node on the last node of a chain makes the chain one node longer.
pub Chain-link :
    (m : Memory) (a : ℕ) (v : ℤ) (xs : Cells) (p : ℕ) (u w : ℤ)
    → Chain m ((a, v) ∷ xs)
    → p ≢ 0
    → has p ((a, v) ∷ xs) ≡ false
    → m p ≡ some (node u 0)
    → m (last_of a xs) ≡ some (node w 0)
    → Chain (write m (last_of a xs) (some (node w p))) (((a, v) ∷ xs) ++ (p, u) ∷ [])
Chain-link m a v [] p u w k ne out new old =
    (k.0, ground (arith, k.1, old), ground arith, (ne, ground arith, refl, tt))
Chain-link m a v ((b, x) ∷ xs) p u w k ne out new old =
    let rest = Chain-link m b x xs p u w k.3 ne (ground arith) new old in
    let apart = ne_of_has ((b, x) ∷ xs) a (last_of b xs) k.2 (has-last_of b x xs) in
    let lost : (p == a) ≡ false = ground arith in
    (k.0, rw (==_no apart) k.1, has-append a ((b, x) ∷ xs) p u ∙ rw k.2 lost, rest)
