-- ===== src/Kernel.antt =====
-- What the modules take from the kernel: error numbers, printed text, and the interfaces of the
-- kernel's own queue. None of it is code of this repository.
pub mod Hashtable
pub mod Kfifo
pub mod Sort
pub mod Order
pub mod Buckets
pub mod Lists
pub mod Text
pub mod Print
pub mod Files
pub mod SwapSort
pub mod LiveSort
use Prim.Native.String.{String}
use otus_work.Base.{ℕ, List}
use otus_work.Base.Int.{ℤ, negsuc}

-- -ENOENT, -ENOMEM, -EINVAL, -ENODATA
abbrev pub enoent : ℤ
enoent = negsuc 1

abbrev pub enomem : ℤ
enomem = negsuc 11

abbrev pub einval : ℤ
einval = negsuc 21

abbrev pub enodata : ℤ
enodata = negsuc 60

-- PAGE_SIZE, the size of the buffer that the `get` of a parameter writes to.
abbrev pub page_size : ℕ
page_size = 4096

-- A part of a text that `snprintf` or one of its kin writes: literal text, the end of a line, or a
-- number.
pub data Piece : Type 0 where
  text : String → Piece
  newline : Piece
  dec : ℤ → Piece

-- What the `get` of a parameter returns: a negative error, or the text that it wrote to the buffer,
-- whose length is the returned number.
pub data Reply : Type 0 where
  fail : ℤ → Reply
  shown : List Piece → Reply
