-- ===== src/Lessons/MyModule/Files.antt =====
-- The parameters that Linux_kernel/Lesson 6/docs/my_module.c registers: the operations and the mode of each,
-- and any reads and writes of them.
use otus_work.Base.{
  ℕ, ◌≡◌, ◌<◌, ◌⊎◌, inl, inr, refl, leb, some, List, [], ◌∷◌, length, arith, Bool-cases, length-set,
}
use otus_work.Base.Int.{ℤ, pos, eqb_ℤ}
use otus_work.Kernel.{Reply}
use otus_work.Kernel.Text.{strncpy, IsText, length-strncpy}
use otus_work.Kernel.Files.{File, Access, read, write, wrote, got, access, accesses}
use otus_work.Kernel.Files.Laws.{Keeps, accesses-keeps, AllGiven-Unit}
use otus_work.Lessons.MyModule.{
  MyModule, max_size, int_val_set, int_val_get, string_val_set, string_val_get, string_val_get-set,
}

pub data Parameter : Type 0 where
  int_val string_val : Parameter

-- A read gives pieces or bytes.
abbrev pub MyModuleFile : Type 0
MyModuleFile = File (Unit {0}) MyModule (Reply ⊎ List ℕ)

abbrev pub int_val_params : (List ℕ → ℤ × ℤ) → MyModuleFile
int_val_params kstrtoint = record {
  set = some (λ _ val s. int_val_set kstrtoint val s);
  get = some (λ _ s. (inl (int_val_get s), s));
  mode = 0o664;
}

abbrev pub string_val_params : MyModuleFile
string_val_params = record {
  set = some (λ _ val s. string_val_set val s);
  get = some (λ _ s. (inr (string_val_get s), s));
  mode = 0o664;
}

abbrev pub parameters : (List ℕ → ℤ × ℤ) → Parameter → MyModuleFile
parameters kstrtoint int_val = int_val_params kstrtoint
parameters kstrtoint string_val = string_val_params

abbrev Sized : MyModule → Type 0
Sized s = length s.string_val ≡ max_size

int_val_set-Sized :
    (kstrtoint : List ℕ → ℤ × ℤ) (val : List ℕ) (s : MyModule)
    → Sized s
    → Sized (int_val_set kstrtoint val s).1
unfolding int_val_set
int_val_set-Sized kstrtoint val s h = elim (Bool-cases (eqb_ℤ (kstrtoint val).0 (pos 0))) [
  | inl ok ↦ rw ok h
  | inr bad ↦ rw bad h
]

string_val_set-Sized : (val : List ℕ) (s : MyModule) → Sized s → Sized (string_val_set val s).1
unfolding string_val_set
string_val_set-Sized val s h = elim (Bool-cases (leb max_size (length val))) [
  | inl long ↦ rw long h
  | inr short ↦ rw short (
      omega
        (arith, length-set (strncpy 63 val s.string_val) 63 0, length-strncpy 63 val s.string_val))
]

module _ (kstrtoint : List ℕ → ℤ × ℤ) where
  parameters-keep : (f : Parameter) → Keeps (λ _. Unit {0}) Sized (parameters kstrtoint f)
  parameters-keep int_val = record {
    set = λ _ val s _ h. int_val_set-Sized kstrtoint val s h;
    get = λ _ s _ h. h;
  }
  parameters-keep string_val = record {
    set = λ _ val s _ h. string_val_set-Sized val s h;
    get = λ _ s _ h. h;
  }

  -- After any reads and writes of the parameters, from a string of 64 bytes, a write of string_val with a
  -- text of less than 64 bytes returns 0, and string_val then reads as that text.
  pub string_val_get-accesses :
      (xs : List (Access Parameter (Unit {0}))) (s : MyModule) (val : List ℕ)
      → length s.string_val ≡ max_size
      → IsText val
      → length val < max_size
      → (accesses
          (parameters kstrtoint)
          (write string_val tt val ∷ read string_val tt ∷ [])
          (accesses (parameters kstrtoint) xs s).1).0
        ≡ wrote (pos 0) ∷ got (inr val) ∷ []
  unfolding accesses access
  string_val_get-accesses xs s val size text short =
      let s' = (accesses (parameters kstrtoint) xs s).1 in
      let sized : Sized s' =
        accesses-keeps (λ _. Unit {0}) Sized (parameters kstrtoint) parameters-keep xs s
          (AllGiven-Unit xs) size in
      elim (string_val_get-set val s' sized text) [
        | inl (long, _, _) ↦ absurd (omega (arith, long, short))
        | inr (_, done, back, _, _) ↦ rw (done, back) refl
      ]
