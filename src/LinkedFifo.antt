-- ===== src/LinkedFifo.antt =====
-- Linux_kernel/Lesson 9/fifo.c: a queue of integers as a chain of nodes, and the program that shows it.
pub mod Memory
pub mod Program
pub mod Chain
pub mod Queue
pub mod Refine
pub mod Main
pub mod Examples
