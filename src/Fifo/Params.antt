-- ===== src/Fifo/Params.antt =====
-- Linux_kernel/HW_04_kernel_fifo/src/params.c: the module's parameters. `kstrtoint` is a parameter:
-- the number that a text spells, or `none`. A text that is NULL is `none`, and a buffer is there
-- (`true`) or NULL.
pub mod Laws
use otus_work.Base.{Bool, Option, none, some, List, [], ◌∷◌, ℕ, if◌then◌else◌}
use otus_work.Base.Int.{ℤ, pos, ltb_ℤ, eqb_ℤ}
use otus_work.Kernel.{einval, text, newline, dec, Reply, fail, shown}
use otus_work.Kernel.Kfifo.{Kfifo, IntLayout}
use otus_work.Fifo.Ops.{
  fifo_ok, fifo_empty, fifo_invalid, FifoDevice, fifo_enqueue, fifo_dequeue, fifo_peek, fifo_size,
  fifo_available, fifo_is_empty, fifo_is_full, fifo_clear,
}

-- "%d\n"
abbrev pub number : ℤ → Reply
number v = shown (dec v ∷ newline ∷ [])

-- "error: %d\n"
abbrev pub error_number : ℤ → Reply
error_number v = shown (text "error: " ∷ dec v ∷ newline ∷ [])

-- "error: queue is empty\n"
abbrev pub queue_is_empty : Reply
queue_is_empty = shown (text "error: queue is empty" ∷ newline ∷ [])

-- "error: FIFO not initialized\n"
abbrev pub not_initialized : Reply
not_initialized = shown (text "error: FIFO not initialized" ∷ newline ∷ [])

-- How `param_get_dequeue` and `param_get_peek` print the value that they got.
unfoldable pub print_value : ℤ → Reply
print_value value =
    if eqb_ℤ value fifo_empty
    then queue_is_empty
    else if eqb_ℤ value fifo_invalid
    then not_initialized
    else if ltb_ℤ value (pos 0)
    then error_number value
    else number value

-- How the other `get` functions print a number, once they know that the buffer is there.
unfoldable pub print_number : ℤ → Reply
print_number value = if ltb_ℤ value (pos 0) then error_number value else number value

module _ (k : Kfifo) where
  unfoldable pub param_get_size : Bool → Option (FifoDevice k) → Reply
  param_get_size buf dev = if buf then print_number (fifo_size k dev) else fail einval

  unfoldable pub param_get_available : Bool → Option (FifoDevice k) → Reply
  param_get_available buf dev = if buf then print_number (fifo_available k dev) else fail einval

  unfoldable pub param_get_is_empty : Bool → Option (FifoDevice k) → Reply
  param_get_is_empty buf dev = if buf then print_number (fifo_is_empty k dev) else fail einval

  unfoldable pub param_get_is_full : Bool → Option (FifoDevice k) → Reply
  param_get_is_full buf dev = if buf then print_number (fifo_is_full k dev) else fail einval

  unfoldable pub param_set_clear : Option (FifoDevice k) → ℤ × Option (FifoDevice k)
  param_set_clear dev = (pos 0, fifo_clear k dev)

  module _ (layout : IntLayout) where
    unfoldable pub param_set_enqueue :
        (List ℕ → Option ℤ) → Option (List ℕ) → Option (FifoDevice k) → ℤ × Option (FifoDevice k)
    param_set_enqueue kstrtoint none dev = (einval, dev)
    param_set_enqueue kstrtoint (some val) dev = elim (kstrtoint val) [
      | none ↦ (einval, dev)
      | some value ↦
          let (ret, dev') = fifo_enqueue k layout value dev in
          if eqb_ℤ ret fifo_ok then (pos 0, dev') else (einval, dev')
    ]

    unfoldable pub param_get_dequeue : Bool → Option (FifoDevice k) → Reply × Option (FifoDevice k)
    param_get_dequeue buf dev =
        let (value, dev') = fifo_dequeue k layout dev in
        if buf then (print_value value, dev') else (fail einval, dev)

    unfoldable pub param_get_peek : Bool → Option (FifoDevice k) → Reply
    param_get_peek buf dev = if buf then print_value (fifo_peek k layout dev) else fail einval
