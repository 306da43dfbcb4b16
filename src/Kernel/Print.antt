-- ===== src/Kernel/Print.antt =====
-- `scnprintf` into what is left of a buffer, as the modules call it: `buf + len` and `size - len`, where `len`
-- is what the calls before have written.
use otus_work.Base.{
  ℕ, zero, suc, ◌+◌, ◌-◌, ◌<◌, ◌≤◌, ◌≡◌, refl, ap, ◌∙◌, List, [], ◌++◌, length, take, length-take,
  length-append, append-take, take-take_append, arith,
}
use mathlib.Core.List.{append_assoc, append-nil}

-- The last byte of the buffer is kept.
abbrev pub print_at : ℕ → List ℕ → List ℕ → List ℕ
print_at buf_size out piece = out ++ take (buf_size - length out - 1) piece

-- A loop of such calls: `rounds` of them, from the index `i` on.
unfoldable pub print_each : (ℕ → List ℕ) → ℕ → ℕ → ℕ → List ℕ → List ℕ
print_each piece buf_size zero i out = out
print_each piece buf_size (suc rounds) i out =
    print_each piece buf_size rounds (i + 1) (print_at buf_size out (piece i))

-- The texts of so many indices, one after the other.
unfoldable pub texts : (ℕ → List ℕ) → ℕ → ℕ → List ℕ
texts piece zero i = []
texts piece (suc rounds) i = piece i ++ texts piece rounds (i + 1)

pub texts_cong :
    (piece other : ℕ → List ℕ) (rounds i : ℕ)
    → ((j : ℕ) → j < rounds + i → piece j ≡ other j)
    → texts piece rounds i ≡ texts other rounds i
unfolding texts
texts_cong piece other zero i same = refl
texts_cong piece other (suc rounds) i same =
    rw (same i (omega arith), texts_cong piece other rounds (i + 1) (λ j b. same j (omega arith)))
      refl

module _ (size : ℕ) where
  pub room : (out : List ℕ) → suc size - length out - 1 ≡ size - length out
  room out = omega arith

  pub print_at-length :
      (out piece : List ℕ) → length out ≤ size → length (print_at (suc size) out piece) ≤ size
  print_at-length out piece fits = omega (
    arith,
    length-append out (take (suc size - length out - 1) piece),
    length-take (suc size - length out - 1) piece,
  )

  -- To print after a text that was cut is to cut the whole.
  pub print_at-take :
      (before piece : List ℕ)
      → print_at (suc size) (take size before) piece ≡ take size (before ++ piece)
  print_at-take before piece = rw (room (take size before)) (
      append-take size (take size before) piece (omega (arith, length-take size before))
      ∙ take-take_append size before piece)

  pub print_each-take :
      (piece : ℕ → List ℕ) (rounds i : ℕ) (before : List ℕ)
      → print_each piece (suc size) rounds i (take size before)
        ≡ take size (before ++ texts piece rounds i)
  unfolding print_each texts
  print_each-take piece zero i before = rw append-nil refl
  print_each-take piece (suc rounds) i before =
      ap (print_each piece (suc size) rounds (i + 1)) (print_at-take before (piece i))
      ∙ print_each-take piece rounds (i + 1) (before ++ piece i)
      ∙ ap (take size) (append_assoc before (piece i) (texts piece rounds (i + 1)))
