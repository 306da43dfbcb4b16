-- ===== src/Hello/Params.antt =====
-- Linux_kernel/HW_02_hello_world: update.c, ch_val_param.c, idx_param.c and my_str_param.c. The three global
-- variables are a record that is passed in and returned. `none` stands for a write outside the
-- array, whose effect C leaves open. A text is its bytes before the final 0.
use otus_work.Base.{
  ℕ, ◌==◌, ltb, Option, none, some, List, [], ◌∷◌, if◌then◌else◌, get_or, set, length, ◌-◌,
}
use otus_work.Base.Int.{ℤ, pos, negsuc, eqb_ℤ, ltb_ℤ}
use otus_work.Kernel.Text.{c_string}
use otus_work.Kernel.{dec, Reply, shown}

abbrev pub my_str_max_size : ℕ
my_str_max_size = 256

-- E2BIG and EINVAL as they are returned, positive.
abbrev pub e2big : ℤ
e2big = pos 7

abbrev pub einval : ℤ
einval = pos 22

pub record Params : Type 0 where
  pub my_str_param : List ℕ
  pub idx : ℤ
  pub ch_val : ℕ

-- The two writes: the first is inside the array only where `idx` is one of its positions.
unfoldable pub write_char : Params → Option (ℤ × Params)
write_char p = elim p.idx [
  | negsuc n ↦ none
  | pos i ↦
      if ltb i my_str_max_size
      then some (
        pos 0,
        record p { my_str_param = set (set p.my_str_param i p.ch_val) (my_str_max_size - 1) 0 },
      )
      else none
]

unfoldable pub update_hello_world : Params → Option (ℤ × Params)
update_hello_world p = if ltb_ℤ p.idx (pos my_str_max_size) then write_char p else some (e2big, p)

unfoldable pub ch_val_param_set : List ℕ → Params → Option (ℤ × Params)
ch_val_param_set val p =
    if length val == 1
    then update_hello_world (record p { ch_val = get_or val 0 0 })
    else some (einval, p)

-- "%c"
unfoldable pub ch_val_param_get : Params → List ℕ
ch_val_param_get p = p.ch_val ∷ []

-- `kstrtoint` gives its return value and the number, which it stores only if it returns 0.
unfoldable pub idx_param_set : (List ℕ → ℤ × ℤ) → List ℕ → Params → ℤ × Params
idx_param_set kstrtoint val p =
    let (ret, value) = kstrtoint val in
    if eqb_ℤ ret (pos 0) then (pos 0, record p { idx = value }) else (ret, p)

unfoldable pub idx_param_get : Params → Reply
idx_param_get p = shown (dec p.idx ∷ [])

-- "%s"
unfoldable pub my_str_param_get : Params → List ℕ
unfolding c_string
my_str_param_get p = c_string p.my_str_param
