-- ===== src/Traffic/Laws.antt =====
-- What the probe handlers count, and what the module's init and exit leave behind.
use otus_work.Base.{
  ℕ, ◌+◌, ◌%◌, ◌^◌, ℕ_discrete, ◌<◌, ◌≡◌, ◌≢◌, ◌⊎◌, inl, inr, refl, ap, ◌∙◌, true, false, ◌&&◌, not,
  Option, none, some, List, [], ◌∷◌, ◌==◌, arith, ltb, ==_yes, Bool-cases,
}
use otus_work.Base.Int.{ℤ, pos, negsuc, signed32, ltb_ℤ, pos_part}
use otus_work.Kernel.Hashtable.{Hashtable, HashtableLaws, contains, erase}
use otus_work.Traffic.Stats.{
  u64_mod, AddrStat, Stats, pair_key, find_pair, delete_all, stats_init, stats_exit,
}
use otus_work.Traffic.Stats.Lookup.{lookup, lookup-none}
use otus_work.Traffic.Stats.Record.{Counted, IsNew, stats_record_traffic_lem}
use otus_work.Traffic.Probe.{
  SendData, RecvData, Probes, send_ret_handler, recv_ret_handler, kprobe_traffic_register,
  kprobe_traffic_init,
}

negative_register : (retval m : ℕ) → signed32 (retval % 2 ^ 32) ≡ negsuc m → 0 < retval
negative_register retval m e = elim (ℕ_discrete retval 0) [
  | yes zero_there ↦ absurd (ground arith)
  | no ne ↦ omega arith
]

module _ (h : Hashtable) (laws : HashtableLaws h) where
  -- A call of `tcp_sendmsg` that fails leaves a negative `int` in the low half of the return register,
  -- and anything in the upper half. For a pair of addresses that are not 0 and that has an entry, the
  -- handler adds the whole register to the sent bytes, modulo 2 ^ 64: the sent bytes change although
  -- nothing was sent, and the received bytes stay. The register has 64 bits, and `kmalloc` gives no
  -- address of an entry in the table.
  pub send_ret_handler-error :
      (kmalloc : Option ℕ) (retval m : ℕ) (d : SendData) (s : Stats h) (recv send : ℕ)
      → IsNew h s kmalloc
      → d.saddr ≢ 0
      → d.daddr ≢ 0
      → retval < u64_mod
      → signed32 (retval % 2 ^ 32) ≡ negsuc m
      → send < u64_mod
      → lookup h s d.saddr d.daddr ≡ some (recv, send)
      → let after = (send + retval) % u64_mod in
        (lookup h (send_ret_handler h kmalloc retval d s) d.saddr d.daddr ≡ some (recv, after))
        × (after ≢ send)
  unfolding send_ret_handler
  send_ret_handler-error kmalloc retval m d s recv send new sa da word failed small has =
      let counted = stats_record_traffic_lem h laws d.saddr d.daddr true retval s kmalloc new in
      let some_bits : 0 < retval = negative_register retval m failed in
      let test : ltb 0 retval && (not (d.saddr == 0) && not (d.daddr == 0)) ≡ true = ground arith in
      (
        rw test (elim counted [
          | inr (_, none_there, _) ↦ absurd (ground arith)
          | inl c ↦
              c d.saddr d.daddr
              ∙ rw (has, ==_yes {a = d.saddr} refl, ==_yes {a = d.daddr} refl) refl
        ]),
        (λ e. omega arith),
      )

  -- The return handler of the receive probe counts the copied bytes as received by the pair, and
  -- only if their number is positive and neither address is 0. Else it changes nothing. Only where
  -- the pair is new and `kmalloc` fails are the bytes lost.
  pub recv_ret_handler_lem :
      (kmalloc : Option ℕ) (d : RecvData) (s : Stats h)
      → IsNew h s kmalloc
      → let s' = recv_ret_handler h kmalloc d s in
        ((ltb_ℤ (pos 0) d.copied ≡ true)
          × (d.saddr ≢ 0)
          × (d.daddr ≢ 0)
          × (Counted h s d.saddr d.daddr false (pos_part d.copied) s'
              ⊎ ((kmalloc ≡ none) × (lookup h s d.saddr d.daddr ≡ none) × (s' ≡ s))))
        ⊎ (((ltb_ℤ (pos 0) d.copied ≡ false) ⊎ (d.saddr ≡ 0) ⊎ (d.daddr ≡ 0)) × (s' ≡ s))
  unfolding recv_ret_handler
  recv_ret_handler_lem kmalloc d s new =
      let test = ltb_ℤ (pos 0) d.copied && (not (d.saddr == 0) && not (d.daddr == 0)) in
      elim (Bool-cases test) [
        | inl e ↦ rw e (
            inl (
              ground arith,
              (λ z. ground arith),
              (λ z. ground arith),
              stats_record_traffic_lem h laws d.saddr d.daddr false (pos_part d.copied) s kmalloc
                  new,
            ))
        | inr e ↦ rw e (inr (ground arith, refl))
      ]

  delete_all-nodes : (ns : List ℕ) (t : h.Table) → h.nodes t ≡ ns → h.nodes (delete_all h ns t) ≡ []
  unfolding delete_all
  delete_all-nodes [] t e = e
  delete_all-nodes (n ∷ ns) t e =
      delete_all-nodes ns (h.del n t)
        (laws.nodes-del n t ∙ ap (erase n) e ∙ rw (==_yes {a = n} refl) refl)

  find_pair-nil :
      (heap : ℕ → AddrStat) (p q : ℕ) (ns : List ℕ)
      → ((n : ℕ) → contains n ns ≡ true → ⊥)
      → find_pair heap p q ns ≡ none
  unfolding find_pair
  find_pair-nil heap p q [] h = refl
  find_pair-nil heap p q (m ∷ ns) h = absurd (h m (ground arith))

  -- With no node in the table no pair has counters.
  pub lookup-nil : (s : Stats h) (p q : ℕ) → h.nodes s.table ≡ [] → lookup h s p q ≡ none
  lookup-nil s p q e = lookup-none h s p q (
      find_pair-nil s.heap p q (h.possible (pair_key p q) s.table)
        λ n c. ground (arith, laws.contains-possible (pair_key p q) n s.table c, ap (contains n) e))

  -- `stats_exit` frees each node of the table, in the order of a visit, and leaves a table with no
  -- node, in which no pair has counters.
  pub stats_exit_lem :
      (s : Stats h)
      → let (s', freed) = stats_exit h s in
        (freed ≡ h.nodes s.table) × (h.nodes s'.table ≡ []) × ((p q : ℕ) → lookup h s' p q ≡ none)
  unfolding stats_exit
  stats_exit_lem s =
      let empty = delete_all-nodes (h.nodes s.table) s.table refl in
      (refl, empty, λ p q. lookup-nil _ p q empty)

  -- The module's init from no probe registered: it returns 0 and leaves both probes registered, or a
  -- negative error of a registration and leaves none. In both cases the table has no node.
  pub kprobe_traffic_init_lem :
      (send_ret recv_ret : ℤ) (p : Probes h) (s : Stats h)
      → p.send ≡ false
      → p.recv ≡ false
      → let (ret, p', s', freed) = kprobe_traffic_init h send_ret recv_ret p s in
        (h.nodes s'.table ≡ [])
        × (((ret ≡ pos 0) × (p'.send ≡ true) × (p'.recv ≡ true))
            ⊎ ((ltb_ℤ ret (pos 0) ≡ true) × (p'.send ≡ false) × (p'.recv ≡ false)))
  unfolding kprobe_traffic_init kprobe_traffic_register stats_init
  kprobe_traffic_init_lem send_ret recv_ret p s no_send no_recv =
      let ended = stats_exit_lem (stats_init h s) in ground (arith, ended, laws.nodes-init)
