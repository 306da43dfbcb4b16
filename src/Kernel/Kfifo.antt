-- ===== src/Kernel/Kfifo.antt =====
-- The byte queue of <linux/kfifo.h>, with what its documentation says, and the way an `int` is laid
-- out in memory.
pub mod Model
use otus_work.Base.{
  ℕ, ◌-◌, ◌^◌, ◌<◌, ◌≤◌, ◌≡◌, Bool, leb, ◌==◌, Option, some, List, [], ◌++◌, length, take, drop,
  min,
}
use otus_work.Base.Int.{ℤ, IsInt}

pub record Kfifo : Type 1 where
  pub Queue : Type 0
  -- `kfifo_alloc`, given the size in bytes
  pub alloc : ℕ → Option Queue
  pub is_full : Queue → Bool
  pub is_empty : Queue → Bool
  -- `kfifo_in` returns how many bytes it took.
  pub put : Queue → List ℕ → ℕ × Queue
  -- `kfifo_out` and `kfifo_out_peek` give the bytes that they copied.
  pub out : Queue → ℕ → List ℕ × Queue
  pub out_peek : Queue → ℕ → List ℕ
  pub len : Queue → ℕ
  pub avail : Queue → ℕ
  pub reset : Queue → Queue

-- A queue holds bytes, oldest first, in a buffer of `size` bytes.
pub record KfifoLaws (k : Kfifo) : Type 0 where
  pub bytes : k.Queue → List ℕ
  pub size : k.Queue → ℕ
  -- "the size will be rounded-up to a power of 2"; the size is an `unsigned int`
  pub alloc_lem :
      (n : ℕ) (q : k.Queue)
      → n < 2 ^ 32
      → k.alloc n ≡ some q
      → (bytes q ≡ []) × (n ≤ size q) × (e : ℕ) × (size q ≡ 2 ^ e)
  pub bytes-le-size : (q : k.Queue) → length (bytes q) ≤ size q
  pub is_full_lem : (q : k.Queue) → k.is_full q ≡ leb (size q) (length (bytes q))
  pub is_empty_lem : (q : k.Queue) → k.is_empty q ≡ (length (bytes q) == 0)
  pub put_lem :
      (q : k.Queue) (xs : List ℕ)
      → let n = min (length xs) (size q - length (bytes q)) in
        ((k.put q xs).0 ≡ n)
        × (bytes (k.put q xs).1 ≡ bytes q ++ take n xs)
        × (size (k.put q xs).1 ≡ size q)
  pub out_lem :
      (q : k.Queue) (n : ℕ)
      → ((k.out q n).0 ≡ take n (bytes q))
        × (bytes (k.out q n).1 ≡ drop n (bytes q))
        × (size (k.out q n).1 ≡ size q)
  pub out_peek_lem : (q : k.Queue) (n : ℕ) → k.out_peek q n ≡ take n (bytes q)
  pub len_lem : (q : k.Queue) → k.len q ≡ length (bytes q)
  pub avail_lem : (q : k.Queue) → k.avail q ≡ size q - length (bytes q)
  pub reset_lem : (q : k.Queue) → (bytes (k.reset q) ≡ []) × (size (k.reset q) ≡ size q)

-- How the compiler lays an `int` out in four bytes, and reads it back.
pub record IntLayout : Type 0 where
  pub encode : ℤ → List ℕ
  pub decode : List ℕ → ℤ
  pub length-encode : (v : ℤ) → length (encode v) ≡ 4
  pub decode-encode : (v : ℤ) → IsInt v → decode (encode v) ≡ v
