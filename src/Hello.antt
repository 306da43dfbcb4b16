-- ===== src/Hello.antt =====
-- Linux_kernel/HW_02_hello_world: a string of 256 bytes that a user writes one character at a time.
pub mod Params
pub mod Laws
pub mod Spell
pub mod Files
pub mod Examples
