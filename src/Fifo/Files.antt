-- ===== src/Fifo/Files.antt =====
-- The parameters that Linux_kernel/HW_04_kernel_fifo/src/params.c registers: the operations and the mode
-- of each. What the kernel gives an operation is only the text, so `E` is the unit type.
pub mod Promise
pub mod Refine
pub mod Loaded
use otus_work.Base.{Option, none, some, List, ℕ, true}
use otus_work.Base.Int.{ℤ}
use otus_work.Kernel.{Reply}
use otus_work.Kernel.Files.{File}
use otus_work.Kernel.Kfifo.{Kfifo, IntLayout}
use otus_work.Fifo.Ops.{FifoDevice}
use otus_work.Fifo.Params.{
  param_set_enqueue, param_get_dequeue, param_get_peek, param_get_size, param_get_available,
  param_get_is_empty, param_get_is_full, param_set_clear,
}

pub data Parameter : Type 0 where
  enqueue dequeue peek size available is_empty is_full clear : Parameter

module _ (k : Kfifo) (layout : IntLayout) (kstrtoint : List ℕ → Option ℤ) where
  abbrev pub DeviceFile : Type 0
  DeviceFile = File (Unit {0}) (Option (FifoDevice k)) Reply

  abbrev pub param_ops_enqueue : DeviceFile
  param_ops_enqueue = record {
    set = some (λ _ val dev. param_set_enqueue k layout kstrtoint (some val) dev);
    get = none;
    mode = 0o220;
  }

  abbrev pub param_ops_dequeue : DeviceFile
  param_ops_dequeue = record {
    set = none;
    get = some (λ _ dev. param_get_dequeue k layout true dev);
    mode = 0o440;
  }

  abbrev pub param_ops_peek : DeviceFile
  param_ops_peek = record {
    set = none;
    get = some (λ _ dev. (param_get_peek k layout true dev, dev));
    mode = 0o440;
  }

  abbrev pub param_ops_size : DeviceFile
  param_ops_size = record {
    set = none;
    get = some (λ _ dev. (param_get_size k true dev, dev));
    mode = 0o440;
  }

  abbrev pub param_ops_available : DeviceFile
  param_ops_available = record {
    set = none;
    get = some (λ _ dev. (param_get_available k true dev, dev));
    mode = 0o440;
  }

  abbrev pub param_ops_is_empty : DeviceFile
  param_ops_is_empty = record {
    set = none;
    get = some (λ _ dev. (param_get_is_empty k true dev, dev));
    mode = 0o440;
  }

  abbrev pub param_ops_is_full : DeviceFile
  param_ops_is_full = record {
    set = none;
    get = some (λ _ dev. (param_get_is_full k true dev, dev));
    mode = 0o440;
  }

  abbrev pub param_ops_clear : DeviceFile
  param_ops_clear = record {
    set = some (λ _ val dev. param_set_clear k dev);
    get = none;
    mode = 0o220;
  }

  abbrev pub parameters : Parameter → DeviceFile
  parameters enqueue = param_ops_enqueue
  parameters dequeue = param_ops_dequeue
  parameters peek = param_ops_peek
  parameters size = param_ops_size
  parameters available = param_ops_available
  parameters is_empty = param_ops_is_empty
  parameters is_full = param_ops_is_full
  parameters clear = param_ops_clear
