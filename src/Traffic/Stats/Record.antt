-- ===== src/Traffic/Stats/Record.antt =====
-- `stats_record_traffic` adds to the counters of one pair of addresses, and to no other.
use otus_work.Base.{
  ℕ, ◌+◌, ◌%◌, ◌≡◌, ◌≢◌, ◌⊎◌, inl, inr, refl, sym, ap, ◌∙◌, Bool, true, false, ◌&&◌, Option, none,
  some, ◌==◌, if◌then◌else◌, arith, Option-cases, ==_yes, ==_no, Bool-cases,
}
use otus_work.Kernel.Hashtable.{Hashtable, HashtableLaws, contains}
use otus_work.Traffic.Stats.{
  u64_mod, AddrStat, Stats, pair_key, store, find_pair, count_bytes, stats_record_traffic,
}
use otus_work.Traffic.Stats.Lookup.{
  counters, node_of, lookup, lookup-none, lookup-some, find_pair_sound, find_pair-congr,
}

-- `bytes` more on one side of a pair's counters.
abbrev pub added : Bool → ℕ → ℕ × ℕ → ℕ × ℕ
added true bytes (recv, send) = (recv, (send + bytes) % u64_mod)
added false bytes (recv, send) = ((recv + bytes) % u64_mod, send)

-- The counters of a pair that had none: `bytes` on one side.
abbrev pub begun : Bool → ℕ → ℕ × ℕ
begun true bytes = (0, bytes)
begun false bytes = (bytes, 0)

-- The map after `bytes` bytes are counted for a pair.
abbrev pub Counted : (h : Hashtable) → Stats h → ℕ → ℕ → Bool → ℕ → Stats h → Type 0
Counted h s saddr daddr is_send bytes s' =
    (p q : ℕ)
    → lookup h s' p q ≡ (
        if (p == saddr) && (q == daddr)
        then elim (lookup h s saddr daddr) [
          | none ↦ some (begun is_send bytes)
          | some c ↦ some (added is_send bytes c)
        ]
        else lookup h s p q)

counters-count_bytes :
    (is_send : Bool) (bytes : ℕ) (e : AddrStat)
    → counters (count_bytes is_send bytes e) ≡ added is_send bytes (counters e)
unfolding count_bytes
counters-count_bytes true bytes e = refl
counters-count_bytes false bytes e = refl

begun_counters :
    (is_send : Bool) (bytes : ℕ)
    → ◌≡◌ {A = ℕ × ℕ}
        ((if is_send then 0 else bytes), (if is_send then bytes else 0))
        (begun is_send bytes)
begun_counters true bytes = refl
begun_counters false bytes = refl

-- `kmalloc` gives no address of an entry in the table.
abbrev pub IsNew : (h : Hashtable) → Stats h → Option ℕ → Type 0
IsNew h s none = Unit {0}
IsNew h s (some n) = contains n (h.nodes s.table) ≡ false

module _ (h : Hashtable) (laws : HashtableLaws h) (saddr daddr : ℕ) (is_send : Bool)
    (bytes : ℕ) where
  module _ (s : Stats h) where
    -- The pair has an entry: its counters are added to in place.
    module _ {n : ℕ} (found : node_of h s saddr daddr ≡ some n) where
      abbrev updated : Stats h
      updated = record s { heap = store n (count_bytes is_send bytes (s.heap n)) s.heap }

      same_node : (p q : ℕ) → node_of h updated p q ≡ node_of h s p q
      unfolding store count_bytes
      same_node p q =
          find_pair-congr s.heap updated.heap p q (h.possible (pair_key p q) s.table)
            (λ m c. ground arith)

      updated_self : lookup h updated saddr daddr ≡ some (added is_send bytes (counters (s.heap n)))
      unfolding store
      updated_self =
          lookup-some h updated saddr daddr (same_node saddr daddr ∙ found)
          ∙ ap some (rw (==_yes {a = n} refl) (counters-count_bytes is_send bytes (s.heap n)))

      updated_other : (p q : ℕ) → (p ≢ saddr) ⊎ (q ≢ daddr) → lookup h updated p q ≡ lookup h s p q
      unfolding store
      updated_other p q ne = elim (Option-cases (node_of h s p q)) [
        | inl e ↦ lookup-none h updated p q (same_node p q ∙ e) ∙ sym (lookup-none h s p q e)
        | inr (m, e) ↦
            let here = find_pair_sound s.heap saddr daddr _ n found in
            let there = find_pair_sound s.heap p q _ m e in
            let apart : n ≢ m = λ same. ground (arith, here, there, ap s.heap same) in
            lookup-some h updated p q (same_node p q ∙ e)
            ∙ rw (==_no apart) (sym (lookup-some h s p q e))
      ]

      updated-Counted : Counted h s saddr daddr is_send bytes updated
      updated-Counted p q = elim (Bool-cases ((p == saddr) && (q == daddr))) [
        | inl same ↦
            let here : lookup h updated p q ≡ lookup h updated saddr daddr = ground arith in
            here ∙ updated_self ∙ rw (same, lookup-some h s saddr daddr found) refl
        | inr other ↦ updated_other p q (ground arith) ∙ rw other refl
      ]

    -- The pair has no entry: one is made at a new address and added to the table.
    module _ (n : ℕ) (missing : node_of h s saddr daddr ≡ none)
        (new : contains n (h.nodes s.table) ≡ false) where
      abbrev entry : AddrStat
      entry = record {
        saddr = saddr;
        daddr = daddr;
        recv_bytes = if is_send then 0 else bytes;
        send_bytes = if is_send then bytes else 0;
      }

      abbrev extended : Stats h
      extended = record {
        table = h.add (pair_key saddr daddr) n s.table;
        heap = store n entry s.heap;
      }

      not_possible : (k : ℕ) → contains n (h.possible k s.table) ≡ false
      not_possible k = ground (arith, laws.contains-possible k n s.table)

      -- In the old buckets nothing changes.
      old_node :
          (p q k : ℕ)
          → find_pair extended.heap p q (h.possible k s.table)
            ≡ find_pair s.heap p q (h.possible k s.table)
      unfolding store
      old_node p q k =
          find_pair-congr s.heap extended.heap p q (h.possible k s.table)
            (λ m c. ground (arith, not_possible k, ap (λ x. contains x (h.possible k s.table))))

      extended_self : node_of h extended saddr daddr ≡ some n
      unfolding store find_pair
      extended_self = elim (laws.possible-add key key n s.table) [
        | inl e ↦ rw e (ground arith)
        | inr (ne, _) ↦ absurd (ne refl)
      ]
        where
          key : ℕ
          key = pair_key saddr daddr

      node_other : (p q : ℕ) → (p ≢ saddr) ⊎ (q ≢ daddr) → node_of h extended p q ≡ node_of h s p q
      unfolding store find_pair
      node_other p q ne = elim (laws.possible-add (pair_key saddr daddr) (pair_key p q) n s.table) [
        | inl e ↦ rw e (ground (arith, old_node p q (pair_key p q)))
        | inr (_, e) ↦ rw e (old_node p q (pair_key p q))
      ]

      extended_other :
          (p q : ℕ) → (p ≢ saddr) ⊎ (q ≢ daddr) → lookup h extended p q ≡ lookup h s p q
      unfolding store
      extended_other p q ne = elim (Option-cases (node_of h s p q)) [
        | inl e ↦ lookup-none h extended p q (node_other p q ne ∙ e) ∙ sym (lookup-none h s p q e)
        | inr (m, e) ↦
            let here = find_pair_sound s.heap p q _ m e in
            let apart : n ≢ m = λ same. ground (
              arith,
              here,
              not_possible (pair_key p q),
              ap (λ x. contains x (h.possible (pair_key p q) s.table)) same,
            ) in
            lookup-some h extended p q (node_other p q ne ∙ e)
            ∙ rw (==_no apart) (sym (lookup-some h s p q e))
      ]

      begun_self : lookup h extended saddr daddr ≡ some (begun is_send bytes)
      unfolding store
      begun_self =
          lookup-some h extended saddr daddr extended_self
          ∙ ap some (rw (==_yes {a = n} refl) (begun_counters is_send bytes))

      extended-Counted : Counted h s saddr daddr is_send bytes extended
      extended-Counted p q = elim (Bool-cases ((p == saddr) && (q == daddr))) [
        | inl same ↦
            let here : lookup h extended p q ≡ lookup h extended saddr daddr = ground arith in
            here ∙ begun_self ∙ rw (same, lookup-none h s saddr daddr missing) refl
        | inr other ↦ extended_other p q (ground arith) ∙ rw other refl
      ]

    missing :
        (kmalloc : Option ℕ)
        → IsNew h s kmalloc
        → node_of h s saddr daddr ≡ none
        → let s' = stats_record_traffic h kmalloc saddr daddr is_send bytes s in
          Counted h s saddr daddr is_send bytes s'
          ⊎ ((kmalloc ≡ none) × (lookup h s saddr daddr ≡ none) × (s' ≡ s))
    unfolding stats_record_traffic
    missing none new e =
        rw (e, stats_record_traffic) (inr (refl, lookup-none h s saddr daddr e, refl))
    missing (some n) new e = rw (e, stats_record_traffic) (inl (extended-Counted n e new))

    -- `stats_record_traffic` adds the bytes, modulo 2 ^ 64, to the sent or the received bytes of the
    -- pair of addresses, where a pair that had no entry begins at 0, and leaves the counters of every
    -- other pair. Only if the pair has no entry and `kmalloc` fails it changes nothing. `kmalloc`
    -- gives no address of an entry in the table, and the kernel's table behaves as documented.
    pub stats_record_traffic_lem :
        (kmalloc : Option ℕ)
        → IsNew h s kmalloc
        → let s' = stats_record_traffic h kmalloc saddr daddr is_send bytes s in
          Counted h s saddr daddr is_send bytes s'
          ⊎ ((kmalloc ≡ none) × (lookup h s saddr daddr ≡ none) × (s' ≡ s))
    unfolding stats_record_traffic
    stats_record_traffic_lem kmalloc fresh = elim (Option-cases (node_of h s saddr daddr)) [
      | inr (n, e) ↦ rw (e, stats_record_traffic) (inl (updated-Counted e))
      | inl e ↦ missing kmalloc fresh e
    ]
