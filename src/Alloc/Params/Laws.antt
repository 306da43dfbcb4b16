-- ===== src/Alloc/Params/Laws.antt =====
-- What a user of the parameters `alloc` and `free` gets.
use otus_work.Base.{
  ℕ, ◌<◌, ◌≡◌, ◌≢◌, ◌⊎◌, inl, inr, refl, Option, none, some, Option-cases, List, arith, ==_no,
}
use otus_work.Base.Int.{pos}
use otus_work.Kernel.{einval, enomem}
use otus_work.Alloc.Bitmap.{size_mod}
use otus_work.Alloc.Allocator.{MemoryAllocator, allocator_alloc}
use otus_work.Alloc.Allocator.Invariant.{IsValid}
use otus_work.Alloc.Allocator.Alloc.{Refused, Allocated, allocator_alloc_lem}
use otus_work.Alloc.Params.{param_set_alloc}

module _ {a : MemoryAllocator} (v : IsValid a) (kstrtoul : List ℕ → Option ℕ)
    (small : (t : List ℕ) (n : ℕ) → kstrtoul t ≡ some n → n < size_mod) (val : List ℕ) where
  -- Writing a text to `alloc`, with a valid allocator: it returns -EINVAL and changes nothing where the
  -- text spells no number, -ENOMEM and changes nothing where the allocator refuses the number
  -- of bytes, and else 0, and the allocation is made. `kstrtoul` gives a number of 64 bits.
  pub param_set_alloc_lem :
      ((kstrtoul val ≡ none) × (param_set_alloc kstrtoul (some val) a ≡ (einval, a)))
      ⊎ ((bytes : ℕ) × (kstrtoul val ≡ some bytes)
          × ((Refused a bytes × (param_set_alloc kstrtoul (some val) a ≡ (enomem, a)))
              ⊎ ((start : ℕ) × Allocated a bytes start (allocator_alloc a bytes)
                  × (param_set_alloc kstrtoul (some val) a
                      ≡ (pos 0, (allocator_alloc a bytes).1)))))
  unfolding param_set_alloc
  param_set_alloc_lem = elim (Option-cases (kstrtoul val)) [
    | inl e ↦ inl (e, rw (e, param_set_alloc) refl)
    | inr (bytes, e) ↦ inr (
      bytes,
      e,
      (elim (allocator_alloc_lem v bytes (small val bytes e)) [
        | inl (why, same) ↦ inl (why, rw (e, param_set_alloc) (rw same refl))
        | inr (start, done) ↦
            let there : (allocator_alloc a bytes).0 ≢ 0 =
              λ z. omega (arith, done.pointer, v.pool) in
            inr (start, done, rw (e, param_set_alloc) (rw (==_no there) refl))
      ]),
    )
  ]
