-- ===== src/Kernel/Files.antt =====
-- The files by which user space reaches a module: a kernel parameter with its operations and its mode, or
-- an attribute in sysfs. The kernel calls an operation only where the mode lets the file be
-- opened that way and the operation is not NULL.
pub mod Laws
use otus_work.Base.{ℕ, Bool, not, Option, none, some, List, [], ◌∷◌, ◌==◌, bit_and, true, false}
use otus_work.Base.Int.{ℤ}

-- `E` is what the kernel gives an operation while it runs, `S` the state of the module, `R` what a
-- read gives.
pub record File {ℓ} (E S R : Type ℓ) : Type ℓ where
  pub set : Option (E → List ℕ → S → ℤ × S)
  pub get : Option (E → S → R × S)
  pub mode : ℕ

-- Whether a mode has one of some bits.
abbrev pub permits : ℕ → ℕ → Bool
permits bits mode = not (bit_and bits mode == 0)

abbrev pub to_write : ℕ
to_write = 0o222

abbrev pub to_read : ℕ
to_read = 0o444

pub data Access {ℓ} (F E : Type ℓ) : Type ℓ where
  write : F → E → List ℕ → Access F E
  read : F → E → Access F E

-- `refused` where no operation is called, else what the operation returned.
pub data Outcome {ℓ} (R : Type ℓ) : Type ℓ where
  refused : Outcome R
  wrote : ℤ → Outcome R
  got : R → Outcome R

module _ {ℓ} {E S R : Type ℓ} where
  abbrev pub store : Bool → Option (E → List ℕ → S → ℤ × S) → E → List ℕ → S → Outcome R × S
  store true (some set) env val s = let (ret, s') = set env val s in (wrote ret, s')
  store true none env val s = (refused, s)
  store false set env val s = (refused, s)

module _ {ℓ} {E S R : Type ℓ} where
  abbrev pub show : Bool → Option (E → S → R × S) → E → S → Outcome R × S
  show true (some get) env s = let (reply, s') = get env s in (got reply, s')
  show true none env s = (refused, s)
  show false get env s = (refused, s)

module _ {ℓ} {F E S R : Type ℓ} (files : F → File E S R) where
  unfoldable pub access : Access F E → S → Outcome R × S
  access (write f env val) s = store (permits to_write (files f).mode) (files f).set env val s
  access (read f env) s = show (permits to_read (files f).mode) (files f).get env s

  unfoldable pub accesses : List (Access F E) → S → List (Outcome R) × S
  accesses [] s = ([], s)
  accesses (a ∷ rest) s =
      let (outcome, s') = access a s in
      let (outcomes, s'') = accesses rest s' in (outcome ∷ outcomes, s'')
