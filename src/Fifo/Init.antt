-- ===== src/Fifo/Init.antt =====
-- `fifo_init` and the module's own init of Linux_kernel/HW_04_kernel_fifo/src/main.c.
use otus_work.Base.{
  ℕ, zero, suc, ◌*◌, ◌%◌, ◌^◌, ◌<◌, ◌≤◌, ◌≡◌, ◌⊎◌, inl, inr, refl, ◌∙◌, Bool, true, false,
  if◌then◌else◌, Option, none, some, [], arith, Option-cases,
}
use native.Mathlib.Nat.{pow-suc}
use otus_work.Base.Int.{ℤ, pos, ltb_ℤ, eqb_ℤ}
use otus_work.Kernel.{einval, enomem}
use otus_work.Kernel.Kfifo.{Kfifo, KfifoLaws, IntLayout}
use otus_work.Fifo.Ops.{fifo_ok, fifo_nomem, entry_size, FifoDevice, fifo_init, fifo_cleanup}
use otus_work.Fifo.Model.{Models, encode_all}

module _ (k : Kfifo) where
  -- `kernel_fifo_init` with the module parameter `initial_size`
  unfoldable pub kernel_fifo_init : Bool → ℤ → Option (FifoDevice k) → ℤ × Option (FifoDevice k)
  kernel_fifo_init kmalloc initial_size dev =
      let (ret, dev') = fifo_init k kmalloc initial_size dev in
      if ltb_ℤ (pos 0) initial_size
      then if eqb_ℤ ret fifo_ok then (pos 0, dev') else (enomem, dev')
      else (einval, dev)

  unfoldable pub kernel_fifo_exit : Option (FifoDevice k) → Option (FifoDevice k)
  kernel_fifo_exit dev = fifo_cleanup k dev

four_divides : (e n : ℕ) → 0 < n → entry_size * n ≤ 2 ^ e → (f : ℕ) × (2 ^ e ≡ entry_size * 2 ^ f)
four_divides zero n h le = absurd (omega arith)
four_divides (suc zero) n h le = absurd (omega arith)
four_divides (suc (suc f)) n h le = (f, omega (arith, pow-suc 2 (suc f), pow-suc 2 f))

module _ (k : Kfifo) (laws : KfifoLaws k) (layout : IntLayout) where
  -- A device with the size asked for that holds the empty queue, with room for a power of two of
  -- integers, at least that size.
  pub record IsFresh (n : ℕ) (d : FifoDevice k) : Type 0 where
    pub cap : ℕ
    pub exponent : ℕ
    pub power : cap ≡ 2 ^ exponent
    pub roomy : n ≤ cap
    pub size : d.max_size ≡ pos n
    pub models : Models k laws layout cap [] d

  module _ (n : ℕ) (h : 0 < n) (small : n < 2 ^ 30) where
    bytes_fit : n * entry_size % 2 ^ 64 % 2 ^ 32 ≡ n * entry_size
    bytes_fit = omega arith

    positive : ltb_ℤ (pos 0) (pos n) ≡ true
    positive = ground arith

    fresh :
        (q : k.Queue)
        → k.alloc (n * entry_size) ≡ some q
        → IsFresh n (record { queue = q; max_size = pos n })
    unfolding encode_all
    fresh q e =
        let a = laws.alloc_lem (n * entry_size) q (omega arith) e in
        let (f, four) = four_divides a.2 n h (omega (arith, a.1, a.3)) in
        record {
          cap = 2 ^ f;
          exponent = f;
          power = refl;
          roomy = omega (arith, a.1, a.3, four);
          size = refl;
          models = record {
            holds = a.0;
            room = a.3 ∙ four;
            some_room = omega (arith, a.1, a.3, four);
            ints = tt;
          };
        }

    init_refused :
        (dev : Option (FifoDevice k)) → fifo_init k false (pos n) dev ≡ (fifo_nomem, none)
    unfolding fifo_init
    init_refused dev = rw (positive, fifo_init) refl

    init_none :
        (dev : Option (FifoDevice k))
        → k.alloc (n * entry_size) ≡ none
        → fifo_init k true (pos n) dev ≡ (fifo_nomem, none)
    unfolding fifo_init
    init_none dev e = rw (positive, bytes_fit, e) refl

    init_some :
        (dev : Option (FifoDevice k)) {q : k.Queue}
        → k.alloc (n * entry_size) ≡ some q
        → fifo_init k true (pos n) dev ≡ (fifo_ok, some (record { queue = q; max_size = pos n }))
    unfolding fifo_init
    init_some dev e = rw (positive, bytes_fit, e) refl

    -- `fifo_init` of a positive size below 2 ^ 30 either fails with FIFO_NOMEM and leaves no device,
    -- because one of the two allocations failed, or succeeds and leaves a device that holds the empty
    -- queue. Its capacity is then a power of two that is at least the size asked for.
    pub fifo_init_lem :
        (kmalloc : Bool) (dev : Option (FifoDevice k))
        → ((fifo_init k kmalloc (pos n) dev ≡ (fifo_nomem, none))
            × ((kmalloc ≡ false) ⊎ (k.alloc (n * entry_size) ≡ none)))
          ⊎ ((d : FifoDevice k) × (fifo_init k kmalloc (pos n) dev ≡ (fifo_ok, some d))
              × IsFresh n d)
    fifo_init_lem false dev = inl (init_refused dev, inl refl)
    fifo_init_lem true dev = elim (Option-cases (k.alloc (n * entry_size))) [
      | inl e ↦ inl (init_none dev e, inr e)
      | inr (q, e) ↦ inr (record { queue = q; max_size = pos n }, init_some dev e, fresh q e)
    ]
