-- ===== src/Stack/Files/Promise.antt =====
-- What the attributes promise to user space: a list of integers behind the same files, its front the top.
use otus_work.Base.{Bool, ℕ, ◌%◌, none, some, List, [], ◌∷◌, length, if◌then◌else◌}
use otus_work.Base.Int.{ℤ, pos, eqb_ℤ}
use otus_work.Kernel.{enomem, enodata, Reply, fail}
use otus_work.Kernel.Files.{File}
use otus_work.Stack.Ops.{int_mod, int_of_word}
use otus_work.Stack.Sysfs.{emitted}
use otus_work.Stack.Files.{Attribute, push, pop, peek, size, is_empty, clear}

abbrev pub ListFile : Type 0
ListFile = File Bool (List ℤ) Reply

abbrev pub write_only : (Bool → List ℕ → List ℤ → ℤ × List ℤ) → ListFile
write_only set = record { set = some set; get = none; mode = 0o200 }

abbrev pub read_only : (List ℤ → Reply × List ℤ) → ListFile
read_only get = record { set = none; get = some (λ _. get); mode = 0o444 }

-- A text that spells no number gives the error of `kstrtoint`, and no memory gives -ENOMEM.
abbrev pub pushed : (List ℕ → ℤ × ℤ) → Bool → List ℕ → List ℤ → ℤ × List ℤ
pushed kstrtoint kmalloc buf vs =
    let (parsed, v) = kstrtoint buf in
    if eqb_ℤ parsed (pos 0)
    then (if kmalloc then (pos (length buf), v ∷ vs) else (enomem, vs))
    else (parsed, vs)

abbrev pub popped : List ℤ → Reply × List ℤ
popped [] = (fail enodata, [])
popped (v ∷ vs) = (emitted v, vs)

abbrev pub peeked : List ℤ → Reply × List ℤ
peeked [] = (fail enodata, [])
peeked (v ∷ vs) = (emitted v, v ∷ vs)

-- 1 for the empty list, else 0.
abbrev pub emptiness : List ℤ → Reply
emptiness [] = emitted (pos 1)
emptiness (v ∷ vs) = emitted (pos 0)

abbrev pub promised : (List ℕ → ℤ × ℤ) → Attribute → ListFile
promised kstrtoint push = write_only (pushed kstrtoint)
promised kstrtoint pop = read_only popped
promised kstrtoint peek = read_only peeked
promised kstrtoint size = read_only (λ vs. (emitted (int_of_word (length vs % int_mod)), vs))
promised kstrtoint is_empty = read_only (λ vs. (emptiness vs, vs))
promised kstrtoint clear = write_only (λ kmalloc buf vs. (pos (length buf), []))
