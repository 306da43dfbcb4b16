-- ===== src/Alloc.antt =====
-- Linux_kernel/HW_05_bit_maps/src: the bitmap memory allocator.
pub mod Bitmap
pub mod Allocator
pub mod Params
pub mod Files
pub mod Examples
