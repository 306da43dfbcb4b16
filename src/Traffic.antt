-- ===== src/Traffic.antt =====
-- Linux_kernel/final_work_kprobe: traffic statistics per pair of addresses, from kernel probes.
pub mod Stats
pub mod Probe
pub mod Laws
pub mod Events
pub mod Report
mod Examples
