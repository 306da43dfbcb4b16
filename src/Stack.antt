-- ===== src/Stack.antt =====
-- Linux_kernel/HW_03_kernel_stack: a stack of integers, with its files in sysfs.
pub mod Ops
pub mod Sysfs
pub mod Race
pub mod Refine
pub mod Files
pub mod Examples
