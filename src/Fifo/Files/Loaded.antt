-- ===== src/Fifo/Files/Loaded.antt =====
-- The module from its load on: `kernel_fifo_init`, then any reads and writes of its parameters.
use otus_work.Base.{
  ℕ, ◌^◌, ◌<◌, ◌≤◌, ◌≡◌, refl, Bool, true, Option, none, some, List, [], inl, inr, arith,
}
use otus_work.Base.Int.{ℤ, pos, IsInt, ltb_ℤ}
use otus_work.Kernel.{enomem}
use otus_work.Kernel.Files.{Access, accesses}
use otus_work.Kernel.Kfifo.{Kfifo, KfifoLaws, IntLayout}
use otus_work.Fifo.Init.{kernel_fifo_init, fifo_init_lem}
use otus_work.Fifo.Files.{Parameter, parameters}
use otus_work.Fifo.Files.Promise.{promised}
use otus_work.Fifo.Files.Refine.{parameters_refine}

module _ (k : Kfifo) (laws : KfifoLaws k) (layout : IntLayout) (kstrtoint : List ℕ → Option ℤ)
    (ints : (t : List ℕ) (v : ℤ) → kstrtoint t ≡ some v → IsInt v) where
  -- After an init with `initial_size` from 1 to below 2 ^ 30 that returns 0, there is a capacity, at
  -- least that size, such that every sequence of reads and writes of the parameters gives what
  -- it gives over a queue of at most that many integers that starts empty: what each write
  -- returns, what each read shows, and which accesses are refused. The kernel's queue and the
  -- layout of an `int` do as documented, and what `kstrtoint` reads is an `int`.
  pub accesses-kernel_fifo_init :
      (n : ℕ) (kmalloc : Bool)
      → 0 < n
      → n < 2 ^ 30
      → (kernel_fifo_init k kmalloc (pos n) none).0 ≡ pos 0
      → (cap : ℕ) × (n ≤ cap)
        × ((xs : List (Access Parameter (Unit {0})))
            → (accesses
                (parameters k layout kstrtoint)
                xs
                (kernel_fifo_init k kmalloc (pos n) none).1).0
              ≡ (accesses (promised kstrtoint cap) xs []).0)
  unfolding kernel_fifo_init
  accesses-kernel_fifo_init n kmalloc some_size small ok =
      let up : ltb_ℤ (pos 0) (pos n) ≡ true = ground arith in
      elim (fifo_init_lem k laws layout n some_size small kmalloc none) [
        | inl (failed, why) ↦
            let refused : (kernel_fifo_init k kmalloc (pos n) none).0 ≡ enomem =
              rw (up, failed) refl in
            absurd (cc)
        | inr (d, done, fresh) ↦ (
          fresh.cap,
          fresh.roomy,
          λ xs.
              rw (up, done)
                (parameters_refine k laws layout fresh.cap kstrtoint ints xs (some d) []
                  fresh.models),
        )
      ]
