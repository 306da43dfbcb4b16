-- ===== src/Traffic/Examples.antt =====
-- The theorems on traffic statistics over a kernel table with one bucket, and tests.
use otus_work.Base.{
  ℕ, ◌+◌, ◌-◌, ◌%◌, ◌^◌, ◌<◌, ◌≡◌, ◌≢◌, ◌⊎◌, refl, true, false, Option, none, some, List, [], ◌∷◌,
  arith, length,
}
use otus_work.Base.Int.{pos, negsuc, ltb_ℤ}
use otus_work.Kernel.Lists.{above, above_new, list_table, list_table-laws, sort_list, insert}
use otus_work.Kernel.LiveSort.{at_once, at_once-laws}
use otus_work.Kernel.{page_size}
use otus_work.Traffic.Stats.{
  u64_mod, AddrStat, Stats, store, find_pair, count_bytes, delete_all, stats_init, stats_exit,
  stats_record_traffic, stats_get_top, top_addrs_get, total_bytes, cmp_bytes_desc, print_top,
  print_lines, collected, limited, Live, read_entries,
}
use otus_work.Traffic.Stats.Lookup.{lookup}
use otus_work.Traffic.Stats.Record.{Counted, stats_record_traffic_lem}
use otus_work.Traffic.Probe.{
  RecvData, Probes, send_ret_handler, recv_ret_handler, kprobe_traffic_init,
  kprobe_traffic_register,
}
use otus_work.Traffic.Laws.{send_ret_handler-error, stats_exit_lem, kprobe_traffic_init_lem}
use otus_work.Traffic.Events.{
  Event, sent, received, tally, totals, wrapped, handle_all, lookup-handle_all,
}
use otus_work.Traffic.Report.{top_addrs_get-fits}

program : Unit {0}
unfolding store find_pair count_bytes delete_all stats_init stats_exit stats_record_traffic
    stats_get_top top_addrs_get total_bytes cmp_bytes_desc print_top print_lines read_entries
    collected limited lookup send_ret_handler recv_ret_handler kprobe_traffic_init
    kprobe_traffic_register
program = tt

abbrev nothing : AddrStat
nothing = record { saddr = 0; daddr = 0; recv_bytes = 0; send_bytes = 0 }

abbrev empty : Stats list_table
empty = record { table = []; heap = λ n. nothing }

-- Two pairs: (1, 2) at the address 16 and (1, 3) at 32.
abbrev two : Stats list_table
two =
    stats_record_traffic list_table (some 32) 1 3 false 50
      (stats_record_traffic list_table (some 16) 1 2 true 700 empty)

two_test : (lookup list_table two 1 2 ≡ some (0, 700)) × (lookup list_table two 1 3 ≡ some (50, 0))
unfolding program
two_test = (refl, refl)

stats_record_traffic_lem_example :
    let s' = stats_record_traffic list_table (some 48) 1 2 true 5 two in
    Counted list_table two 1 2 true 5 s'
    ⊎ ((◌≡◌ {A = Option ℕ} (some 48) none) × (lookup list_table two 1 2 ≡ none) × (s' ≡ two))
stats_record_traffic_lem_example =
    stats_record_traffic_lem list_table list_table-laws 1 2 true 5 two (some 48)
      (unfold program in refl)

-- EAGAIN, with nothing in the upper half of the register.
send_ret_handler-error_example :
    (lookup list_table
        (send_ret_handler list_table none (2 ^ 32 - 11) (record { daddr = 2; saddr = 1 }) two)
        1
        2
      ≡ some (0, (700 + (2 ^ 32 - 11)) % u64_mod))
    × ((700 + (2 ^ 32 - 11)) % u64_mod ≢ 700)
send_ret_handler-error_example =
    send_ret_handler-error list_table list_table-laws none (2 ^ 32 - 11) 10
      (record { daddr = 2; saddr = 1 }) two 0 700 tt (omega arith) (omega arith) (omega arith) refl
      (omega arith) two_test.0

abbrev copied_9 : RecvData
copied_9 = record { daddr = 3; saddr = 1; copied = pos 9 }

stats_exit_lem_example :
    let (s', freed) = stats_exit list_table two in
    (freed ≡ two.table) × (s'.table ≡ []) × ((p q : ℕ) → lookup list_table s' p q ≡ none)
stats_exit_lem_example = stats_exit_lem list_table list_table-laws two

abbrev unplanted : Probes list_table
unplanted = record { send = false; recv = false }

kprobe_traffic_init_lem_example :
    let (ret, p', s', freed) = kprobe_traffic_init list_table (pos 0) (negsuc 1) unplanted two in
    (s'.table ≡ [])
    × (((ret ≡ pos 0) × (p'.send ≡ true) × (p'.recv ≡ true))
        ⊎ ((ltb_ℤ ret (pos 0) ≡ true) × (p'.send ≡ false) × (p'.recv ≡ false)))
kprobe_traffic_init_lem_example =
    kprobe_traffic_init_lem list_table list_table-laws (pos 0) (negsuc 1) unplanted two refl refl

-- A line: the two addresses, a digit each, and the end of the line.
abbrev line : AddrStat → List ℕ
line e = (b'0' + e.saddr) ∷ (b'0' + e.daddr) ∷ 10 ∷ []

-- Nothing is counted meanwhile.
abbrev quiet : Live
quiet = record { compared = λ k. two.heap; printed = λ i. two.heap }

report_test :
    top_addrs_get list_table at_once line true quiet two (pos 5)
    ≡ b'1' ∷ b'2' ∷ 10 ∷ b'1' ∷ b'3' ∷ 10 ∷ []
unfolding program sort_list insert
report_test = refl

top_addrs_get-fits_example :
    length (top_addrs_get list_table at_once line true quiet two (negsuc 0)) < page_size
top_addrs_get-fits_example =
    top_addrs_get-fits list_table at_once at_once-laws line (λ e. omega arith) quiet two true
      (negsuc 0)

abbrev kmalloc : List ℕ → Option ℕ
kmalloc ns = some (above ns)

abbrev returns : List Event
returns =
    sent 700 (record { daddr = 2; saddr = 1 })
    ∷ received (record { daddr = 2; saddr = 1; copied = pos 30 })
    ∷ sent 40 (record { daddr = 3; saddr = 1 })
    ∷ sent (u64_mod - 1) (record { daddr = 2; saddr = 1 })
    ∷ received (record { daddr = 0; saddr = 1; copied = pos 9 })
    ∷ []

lookup-handle_all_example :
    lookup list_table (handle_all list_table list_table-laws kmalloc returns empty) 1 2
    ≡ wrapped (totals 1 2 returns none)
lookup-handle_all_example =
    lookup-handle_all list_table list_table-laws kmalloc (λ ns. (above ns, refl, above_new ns))
      returns empty 1 2 (omega arith) refl

totals_test : wrapped (totals 1 2 returns none) ≡ some (30, 699)
unfolding totals tally
totals_test = refl
