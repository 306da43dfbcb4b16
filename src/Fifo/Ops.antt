-- ===== src/Fifo/Ops.antt =====
-- Linux_kernel/HW_04_kernel_fifo/src/fifo_ops.c. The one static `fifo_dev` is passed in and returned;
-- NULL is `none`. The kernel's queue, the layout of an `int` and the answer of `kmalloc` are
-- parameters.
use otus_work.Base.{ℕ, ◌*◌, ◌/◌, ◌%◌, ◌^◌, Bool, Option, none, some, length, ◌==◌, if◌then◌else◌}
use otus_work.Base.Int.{ℤ, pos, negsuc, pos_part, ltb_ℤ}
use otus_work.Kernel.Kfifo.{Kfifo, IntLayout}

abbrev pub fifo_ok : ℤ
fifo_ok = pos 0

abbrev pub fifo_empty : ℤ
fifo_empty = negsuc 0

abbrev pub fifo_full : ℤ
fifo_full = negsuc 1

abbrev pub fifo_nomem : ℤ
fifo_nomem = negsuc 2

abbrev pub fifo_invalid : ℤ
fifo_invalid = negsuc 3

-- `sizeof(struct fifo_entry)`
abbrev pub entry_size : ℕ
entry_size = 4

module _ (k : Kfifo) where
  pub record FifoDevice : Type 0 where
    pub queue : k.Queue
    pub max_size : ℤ

  -- `kmalloc` says whether the structure was allocated. The byte size is a `size_t`,
  -- of which `kfifo_alloc` takes the `unsigned int`.
  unfoldable pub fifo_init : Bool → ℤ → Option FifoDevice → ℤ × Option FifoDevice
  fifo_init kmalloc size dev =
      if ltb_ℤ (pos 0) size
      then (if kmalloc
          then elim (k.alloc (pos_part size * entry_size % 2 ^ 64 % 2 ^ 32)) [
            | none ↦ (fifo_nomem, none)
            | some q ↦ (fifo_ok, some (record { queue = q; max_size = size }))
          ]
          else (fifo_nomem, none))
      else (fifo_invalid, dev)

  unfoldable pub fifo_cleanup : Option FifoDevice → Option FifoDevice
  fifo_cleanup none = none
  fifo_cleanup (some d) = none

  unfoldable pub fifo_is_empty : Option FifoDevice → ℤ
  fifo_is_empty none = fifo_invalid
  fifo_is_empty (some d) = if k.is_empty d.queue then pos 1 else pos 0

  unfoldable pub fifo_is_full : Option FifoDevice → ℤ
  fifo_is_full none = fifo_invalid
  fifo_is_full (some d) = if k.is_full d.queue then pos 1 else pos 0

  unfoldable pub fifo_size : Option FifoDevice → ℤ
  fifo_size none = fifo_invalid
  fifo_size (some d) = pos (k.len d.queue / entry_size)

  unfoldable pub fifo_available : Option FifoDevice → ℤ
  fifo_available none = fifo_invalid
  fifo_available (some d) = pos (k.avail d.queue / entry_size)

  unfoldable pub fifo_clear : Option FifoDevice → Option FifoDevice
  fifo_clear none = none
  fifo_clear (some d) = some (record d { queue = k.reset d.queue })

  module _ (layout : IntLayout) where
    unfoldable pub fifo_enqueue : ℤ → Option FifoDevice → ℤ × Option FifoDevice
    fifo_enqueue value none = (fifo_invalid, none)
    fifo_enqueue value (some d) =
        let (taken, q) = k.put d.queue (layout.encode value) in
        if k.is_full d.queue
        then (fifo_full, some d)
        else ((if taken == entry_size then fifo_ok else fifo_full), some (record d { queue = q }))

    unfoldable pub fifo_dequeue : Option FifoDevice → ℤ × Option FifoDevice
    fifo_dequeue none = (fifo_invalid, none)
    fifo_dequeue (some d) =
        let (entry, q) = k.out d.queue entry_size in
        if k.is_empty d.queue then (fifo_empty, some d) else (
          (if length entry == entry_size then layout.decode entry else fifo_empty),
          some (record d { queue = q }),
        )

    unfoldable pub fifo_peek : Option FifoDevice → ℤ
    fifo_peek none = fifo_invalid
    fifo_peek (some d) =
        let entry = k.out_peek d.queue entry_size in
        if k.is_empty d.queue
        then fifo_empty
        else if length entry == entry_size
        then layout.decode entry
        else fifo_empty
