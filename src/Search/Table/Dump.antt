-- ===== src/Search/Table/Dump.antt =====
-- `ht_bucket_dump` in search.c, and how its calls of `scnprintf` fill the buffer.
pub mod Cases
use otus_work.Base.{
  ℕ, suc, ◌+◌, ◌-◌, ◌%◌, ◌^◌, ◌<◌, ◌≤◌, ◌≡◌, ◌≢◌, inl, inr, refl, sym, ap, ◌∙◌, Bool, true, false,
  Option, none, some, List, [], ◌∷◌, ◌++◌, map, ◌==◌, ltb, leb, length, take, take_rest,
  take_all_append, append-take, if◌then◌else◌, arith, Bool-cases, List-cases, ==_no, ◌⊎◌,
}
use mathlib.Core.List.{append_assoc}
use otus_work.Base.Int.{ℤ, pos, ltb_ℤ}
use otus_work.Kernel.Buckets.{Buckets}
use otus_work.Kernel.Print.{print_at, room, print_at-length}
use otus_work.Kernel.Hashtable.{contains}
use otus_work.Kernel.Sort.{Sort, SortLaws, IsSorted}
use otus_work.Search.Table.{
  bs_invalid, bs_nomem, hash_table_size, BucketSearchCtx, cmp_entry_ptr, collect_bucket,
}
use otus_work.Search.Table.Order.{cmp_entry_ptr-IsOrder}

-- How `scnprintf` spells the parts of the text.
pub record Format : Type 0 where
  -- "bucket=%u len=0:\n"
  pub no_entry : ℕ → List ℕ
  -- "bucket=%u len=%d:"
  pub head : ℕ → ℕ → List ℕ
  -- " %u"
  pub value : ℕ → List ℕ
  -- "\n"
  pub newline : List ℕ

-- `buf_size - 1`, a `size_t`
abbrev pub last_byte : ℕ → ℕ
last_byte buf_size = (buf_size + (2 ^ 64 - 1)) % 2 ^ 64

unfoldable pub print_values : (ℕ → List ℕ) → ℕ → List ℕ → List ℕ → List ℕ
print_values value buf_size [] out = out
print_values value buf_size (v ∷ vs) out =
    let rest : List ℕ = print_values value buf_size vs (print_at buf_size out (value v)) in
    if leb (last_byte buf_size) (length out) then out else rest

unfoldable pub print_end : List ℕ → ℕ → List ℕ → List ℕ
print_end newline buf_size out =
    if ltb (length out) (last_byte buf_size) then print_at buf_size out newline else out

module _ (h : Buckets) (srt : Sort) (fmt : Format) where
  -- The loop and what follows, for the array `arr`.
  unfoldable pub dump_array : (ℕ → ℕ) → ℕ → List ℕ → ℕ → List ℕ
  unfolding print_values print_end
  dump_array heap bucket_id arr buf_size =
      let sorted = map heap (srt.sort (cmp_entry_ptr heap) arr) in
      let start = print_at buf_size [] (fmt.head bucket_id (length arr)) in
      print_end fmt.newline buf_size (print_values fmt.value buf_size sorted start)

  -- `ht_bucket_dump` of a buffer that is there: the returned number, and the text in the buffer.
  unfoldable pub ht_bucket_dump : Bool → Option (BucketSearchCtx h) → ℕ → ℕ → ℤ × List ℕ
  unfolding dump_array
  ht_bucket_dump kmalloc_array none bucket_id buf_size = (bs_invalid, [])
  ht_bucket_dump kmalloc_array (some c) bucket_id buf_size =
      let (len, arr) = collect_bucket h kmalloc_array c bucket_id in
      let short = print_at buf_size [] (fmt.no_entry bucket_id) in
      let out = dump_array c.heap bucket_id arr buf_size in
      if leb hash_table_size bucket_id
      then (bs_invalid, [])
      else if ltb_ℤ len (pos 0)
      then (len, [])
      else if length arr == 0
      then (pos (length short), short)
      else (pos (length out), out)

-- The texts of values, one after the other.
unfoldable pub all_values : (ℕ → List ℕ) → List ℕ → List ℕ
all_values value [] = []
all_values value (v ∷ vs) = value v ++ all_values value vs

module _ (size : ℕ) (small : size < 2 ^ 64 - 1) where
  last : last_byte (suc size) ≡ size
  last = omega arith

  pub print_values-take :
      (value : ℕ → List ℕ) (vs out rest : List ℕ)
      → length out ≤ size
      → take size (print_values value (suc size) vs out ++ rest)
        ≡ take size (out ++ (all_values value vs ++ rest))
  unfolding print_values all_values
  print_values-take value [] out rest fits = refl
  print_values-take value (v ∷ vs) out rest fits = elim (Bool-cases (leb size (length out))) [
    | inl full ↦
        rw (last, full)
          (take_all_append size out rest (ground arith)
            ∙ sym (take_all_append size out _ (ground arith)))
    | inr less ↦
        rw (last, less)
          (print_values-take value vs (print_at (suc size) out (value v)) rest
              (print_at-length size out (value v) fits)
            ∙ rw (room size out) (
                take_rest size out (value v) (all_values value vs ++ rest)
                ∙ ap (λ t. take size (out ++ t))
                    (sym (append_assoc (value v) (all_values value vs) rest))))
  ]

  pub print_values-length :
      (value : ℕ → List ℕ) (vs out : List ℕ)
      → length out ≤ size
      → length (print_values value (suc size) vs out) ≤ size
  unfolding print_values
  print_values-length value [] out fits = fits
  print_values-length value (v ∷ vs) out fits = elim (Bool-cases (leb size (length out))) [
    | inl full ↦ rw (last, full) fits
    | inr less ↦
        rw (last, less)
          (print_values-length value vs (print_at (suc size) out (value v))
            (print_at-length size out (value v) fits))
  ]

  pub print_end-take :
      (newline out : List ℕ)
      → length out ≤ size
      → print_end newline (suc size) out ≡ take size (out ++ newline)
  unfolding print_end
  print_end-take newline out fits = elim (Bool-cases (ltb (length out) size)) [
    | inl less ↦ rw (last, less) (rw (room size out) (append-take size out newline fits))
    | inr full ↦ rw (last, full) (sym (take_all_append size out newline (ground arith)))
  ]
