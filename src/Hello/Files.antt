-- ===== src/Hello/Files.antt =====
-- The parameters that Linux_kernel/HW_02_hello_world registers: the operations and the mode of each. The
-- state is `none` once a write has gone outside the array.
pub mod Safe
use otus_work.Base.{ℕ, Option, none, some, List, ◌⊎◌, inl, inr}
use otus_work.Base.Int.{ℤ, pos}
use otus_work.Kernel.{Reply}
use otus_work.Kernel.Files.{File}
use otus_work.Hello.Params.{
  Params, ch_val_param_set, ch_val_param_get, idx_param_set, idx_param_get, my_str_param_get,
}

pub data Parameter : Type 0 where
  my_str idx ch_val : Parameter

abbrev pub State : Type 0
State = Option Params

-- A read gives pieces or bytes; nothing that is read counts once the state is lost.
abbrev pub Shown : Type 0
Shown = Reply ⊎ List ℕ

abbrev pub HelloFile : Type 0
HelloFile = File (Unit {0}) State (Option Shown)

unfoldable pub setting : (List ℕ → Params → Option (ℤ × Params)) → List ℕ → State → ℤ × State
setting set val none = (pos 0, none)
setting set val (some p) = elim (set val p) [
  | none ↦ (pos 0, none)
  | some (ret, p') ↦ (ret, some p')
]

abbrev pub getting : (Params → Shown) → State → Option Shown × State
getting get none = (none, none)
getting get (some p) = (some (get p), some p)

abbrev pub my_str_params : HelloFile
my_str_params = record {
  set = none;
  get = some (λ _. getting (λ p. inr (my_str_param_get p)));
  mode = 0o444;
}

abbrev pub idx_params : (List ℕ → ℤ × ℤ) → HelloFile
idx_params kstrtoint = record {
  set = some (λ _. setting (λ val p. some (idx_param_set kstrtoint val p)));
  get = some (λ _. getting (λ p. inl (idx_param_get p)));
  mode = 0o664;
}

abbrev pub ch_val_params : HelloFile
ch_val_params = record {
  set = some (λ _. setting ch_val_param_set);
  get = some (λ _. getting (λ p. inr (ch_val_param_get p)));
  mode = 0o664;
}

abbrev pub parameters : (List ℕ → ℤ × ℤ) → Parameter → HelloFile
parameters kstrtoint my_str = my_str_params
parameters kstrtoint idx = idx_params kstrtoint
parameters kstrtoint ch_val = ch_val_params
