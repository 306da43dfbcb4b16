-- ===== src/Traffic/Probe.antt =====
-- Linux_kernel/final_work_kprobe/src/kprobe_handler.c and main.c: the handlers of the two kernel
-- return probes, and their registration. The build is for x86, where the entry handlers read the
-- socket and the size from registers; what they read is a parameter here.
use otus_work.Base.{ℕ, [], Bool, true, false, not, ◌&&◌, Option, List, ◌==◌, ltb, if◌then◌else◌}
use otus_work.Base.Int.{ℤ, pos, pos_part, ltb_ℤ, eqb_ℤ}
use otus_work.Kernel.Hashtable.{Hashtable}
use otus_work.Traffic.Stats.{Stats, stats_init, stats_exit, stats_record_traffic}

pub record SendData : Type 0 where
  pub daddr : ℕ
  pub saddr : ℕ

pub record RecvData : Type 0 where
  pub daddr : ℕ
  pub saddr : ℕ
  pub copied : ℤ

-- The part of a socket that the handlers read.
pub record InetSock : Type 0 where
  pub inet_daddr : ℕ
  pub inet_saddr : ℕ

-- Whether `current->mm` is there. A probe whose entry handler returns 1 has no return handler run.
unfoldable pub send_entry_handler : Bool → InetSock → SendData → ℕ × SendData
send_entry_handler mm sk data' =
    if mm then (0, record { daddr = sk.inet_daddr; saddr = sk.inet_saddr }) else (1, data')

unfoldable pub recv_entry_handler : Bool → InetSock → ℤ → RecvData → ℕ × RecvData
recv_entry_handler mm sk si data' =
    if mm
    then (0, record { daddr = sk.inet_daddr; saddr = sk.inet_saddr; copied = si })
    else (1, data')

module _ (h : Hashtable) where
  -- `retval` is an `unsigned long`.
  unfoldable pub send_ret_handler : Option ℕ → ℕ → SendData → Stats h → Stats h
  send_ret_handler kmalloc retval d s =
      if ltb 0 retval && (not (d.saddr == 0) && not (d.daddr == 0))
      then stats_record_traffic h kmalloc d.saddr d.daddr true retval s
      else s

  unfoldable pub recv_ret_handler : Option ℕ → RecvData → Stats h → Stats h
  recv_ret_handler kmalloc d s =
      if ltb_ℤ (pos 0) d.copied && (not (d.saddr == 0) && not (d.daddr == 0))
      then stats_record_traffic h kmalloc d.saddr d.daddr false (pos_part d.copied) s
      else s

  -- Which of the two probes are registered.
  pub record Probes : Type 0 where
    pub send : Bool
    pub recv : Bool

  -- The answers of the two calls of `register_kretprobe`: 0, or a negative error.
  unfoldable pub kprobe_traffic_register : ℤ → ℤ → Probes → ℤ × Probes
  kprobe_traffic_register send_ret recv_ret p =
      if ltb_ℤ send_ret (pos 0)
      then (send_ret, p)
      else if ltb_ℤ recv_ret (pos 0)
      then (recv_ret, record p { send = false })
      else (pos 0, record { send = true; recv = true })

  unfoldable pub kprobe_traffic_unregister : Probes → Probes
  kprobe_traffic_unregister p = record { send = false; recv = false }

  -- The last part is the nodes that were freed.
  unfoldable pub kprobe_traffic_init : ℤ → ℤ → Probes → Stats h → ℤ × Probes × Stats h × List ℕ
  kprobe_traffic_init send_ret recv_ret p s =
      let (ret, p') = kprobe_traffic_register send_ret recv_ret p in
      let (s', freed) = stats_exit h (stats_init h s) in
      if eqb_ℤ ret (pos 0) then (pos 0, p', stats_init h s, []) else (ret, p', s', freed)

  unfoldable pub kprobe_traffic_exit : Probes → Stats h → Probes × Stats h × List ℕ
  kprobe_traffic_exit p s =
      let (s', freed) = stats_exit h s in (kprobe_traffic_unregister p, s', freed)
