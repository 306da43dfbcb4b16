-- ===== src/Lessons/MyModule.antt =====
-- Linux_kernel/Lesson 6/docs/my_module.c: two parameters, a number and a text of up to 63 characters.
-- `kstrtoint` gives its return value and the number, which it stores only if it returns 0.
pub mod Files
use otus_work.Base.{
  ℕ, ◌-◌, ◌≡◌, ◌≤◌, ◌<◌, ◌⊎◌, inl, inr, refl, leb, List, [], ◌∷◌, length, set, if◌then◌else◌, arith,
  Bool-cases, length-set,
}
use otus_work.Base.Int.{ℤ, pos, eqb_ℤ}
use otus_work.Kernel.{einval, dec, Reply, shown}
use otus_work.Kernel.Text.{c_string, strncpy, IsText, c_string-set-strncpy, length-strncpy}

abbrev pub max_size : ℕ
max_size = 64

-- The module's static variables.
pub record MyModule : Type 0 where
  pub int_val : ℤ
  pub string_val : List ℕ

unfoldable pub int_val_set : (List ℕ → ℤ × ℤ) → List ℕ → MyModule → ℤ × MyModule
int_val_set kstrtoint val s =
    let (ret, value) = kstrtoint val in
    if eqb_ℤ ret (pos 0) then (pos 0, record s { int_val = value }) else (ret, s)

unfoldable pub int_val_get : MyModule → Reply
int_val_get s = shown (dec s.int_val ∷ [])

unfoldable pub string_val_set : List ℕ → MyModule → ℤ × MyModule
string_val_set val s = if leb max_size (length val) then (einval, s) else (
  pos 0,
  record s { string_val = set (strncpy (max_size - 1) val s.string_val) (max_size - 1) 0 },
)

unfoldable pub string_val_get : MyModule → List ℕ
string_val_get s = c_string s.string_val

-- A write of `string_val`, whose array has its 64 bytes: a text of 64 bytes or more is refused with
-- -EINVAL and changes nothing, and any other is accepted and read back as it was written; the
-- number stays, and the array keeps its size.
pub string_val_get-set :
    (val : List ℕ) (s : MyModule)
    → length s.string_val ≡ max_size
    → IsText val
    → let (ret, s') = string_val_set val s in
      ((max_size ≤ length val) × (ret ≡ einval) × (s' ≡ s))
      ⊎ ((length val < max_size)
          × (ret ≡ pos 0)
          × (string_val_get s' ≡ val)
          × (s'.int_val ≡ s.int_val)
          × (length s'.string_val ≡ max_size))
unfolding string_val_set string_val_get
string_val_get-set val s size text = elim (Bool-cases (leb max_size (length val))) [
  | inl long ↦ rw long (inl (ground arith, refl, refl))
  | inr short ↦ rw short (
      inr (
        ground arith,
        refl,
        c_string-set-strncpy 63 val s.string_val text (ground arith) size,
        refl,
        omega (
          arith,
          length-set (strncpy 63 val s.string_val) 63 0,
          length-strncpy 63 val s.string_val,
        ),
      ))
]
