-- ===== src/Search.antt =====
-- Linux_kernel/HW_06_binary_hashtable/src: a hash table of numbers, searched by sorting a bucket.
pub mod Table
pub mod Params
pub mod Files
pub mod Examples
