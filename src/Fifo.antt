-- ===== src/Fifo.antt =====
-- Linux_kernel/HW_04_kernel_fifo/src: a queue of integers over the kernel's byte queue.
pub mod Ops
pub mod Queue
pub mod Model
pub mod Refine
pub mod Init
pub mod Params
pub mod Files
mod Examples
