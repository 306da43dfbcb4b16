-- ===== src/Traffic/Report.antt =====
-- The text of `stats_get_top`: it fits the buffer, and lists the entries with the most bytes first.
use otus_work.Base.{
  take_rest, take_all_append, take_long, ℕ, suc, ◌-◌, ◌<◌, ◌≤◌, ◌≡◌, ◌≢◌, inl, inr, refl, sym, ap,
  ◌∙◌, Bool, true, false, List, [], ◌∷◌, ◌++◌, ◌==◌, arith, ltb, ==_yes, ==_no, Bool-cases, length,
  take, length-append, length-take, min, ℕ_discrete, lt→ltb,
}
use mathlib.Core.List.{append-nil}
use otus_work.Base.Int.{ℤ, pos, pos_part}
use otus_work.Kernel.{page_size}
use otus_work.Kernel.Hashtable.{Hashtable, contains}
use otus_work.Kernel.Sort.{Ordered}
use otus_work.Kernel.LiveSort.{LiveSort, LiveSortLaws}
use otus_work.Traffic.Stats.{
  AddrStat, Stats, Live, read_entries, total_bytes, cmp_bytes_desc, print_lines, print_top,
  collected, limited, stats_get_top, top_addrs_get,
}

-- The texts of a list of entries, one after the other.
unfoldable pub all_lines : (AddrStat → List ℕ) → List AddrStat → List ℕ
all_lines line [] = []
all_lines line (e ∷ es) = line e ++ all_lines line es

module _ (line : AddrStat → List ℕ) (nonempty : (e : AddrStat) → 0 < length (line e))
    (size : ℕ) where
  -- The loop writes as much of the lines as the buffer takes, one byte of it kept for the end.
  print_lines-take :
      (es : List AddrStat) (out : List ℕ)
      → length out ≤ size
      → print_lines line (suc size) es out ≡ take size (out ++ all_lines line es)
  unfolding print_lines all_lines
  print_lines-take [] out fits = sym (rw append-nil (take_long size out fits))
  print_lines-take (e ∷ es) out fits =
      let written = take (suc size - length out - 1) (line e) in
      let room : suc size - length out - 1 ≡ size - length out = omega arith in
      let open_buf : ltb (length out) (suc size) ≡ true = lt→ltb _ _ (omega arith) in
      elim (ℕ_discrete (length out) size) [
        | yes full ↦
            let none_left : length written ≡ 0 =
              omega (arith, length-take (suc size - length out - 1) (line e)) in
            rw (open_buf, ==_yes none_left) (sym (take_all_append size out _ full))
        | no less ↦
            let some_left : length written ≢ 0 =
              λ z. omega (arith, length-take (suc size - length out - 1) (line e), nonempty e) in
            rw (open_buf, ==_no some_left)
              (print_lines-take es (out ++ written) (
                  omega (
                    arith,
                    length-append out written,
                    length-take (suc size - length out - 1) (line e),
                  ))
                ∙ rw room (take_rest size out (line e) (all_lines line es)))
      ]

print_top-nonempty :
    (line : AddrStat → List ℕ) (size : ℕ) (es : List AddrStat) (buf : List ℕ)
    → es ≢ []
    → print_top line (suc size) es buf ≡ print_lines line (suc size) es []
unfolding print_top
print_top-nonempty line size [] buf ne = absurd (ne refl)
print_top-nonempty line size (e ∷ es) buf ne = rw (lt→ltb 0 (suc size) (omega arith)) refl

print_top-fits :
    (line : AddrStat → List ℕ)
    → ((e : AddrStat) → 0 < length (line e))
    → (size : ℕ) (es : List AddrStat) → length (print_top line (suc size) es []) ≤ size
unfolding print_top
print_top-fits line nonempty size [] = omega arith
print_top-fits line nonempty size (e ∷ es) = omega (
  arith,
  ap length (
      print_top-nonempty line size (e ∷ es) [] (λ h. cc)
      ∙ print_lines-take line nonempty size (e ∷ es) [] (omega arith)),
  length-take size (all_lines line (e ∷ es)),
)

module _ (h : Hashtable) (srt : LiveSort) (sort_laws : LiveSortLaws srt) (line : AddrStat → List ℕ)
    (nonempty : (e : AddrStat) → 0 < length (line e)) (live : Live) (s : Stats h) where
  -- The array once it is sorted, and the pointers of the entries that are printed.
  abbrev pub arranged : List ℕ
  arranged = srt.sort (λ k. cmp_bytes_desc (live.compared k)) (collected h s)

  abbrev pub chosen : ℤ → List ℕ
  chosen top_n = take (pos_part (limited top_n (length (collected h s)))) arranged

  abbrev pub total : ℕ → ℕ
  total n = total_bytes (s.heap n)

  -- What the text of a report of the first `n` entries promises, in a buffer with `size` bytes beside
  -- the last.
  pub record IsReport (n size : ℕ) (report : List ℕ) : Type 0 where
    pub count : length (chosen (pos n)) ≡ min n (length (collected h s))
    pub visited : (c : ℕ) → contains c (chosen (pos n)) ≡ true → contains c (collected h s) ≡ true
    pub descending : Ordered (λ a b. total b ≤ total a) (chosen (pos n))
    pub best :
        (c m : ℕ)
        → contains c (chosen (pos n)) ≡ true
        → contains m (collected h s) ≡ true
        → contains m (chosen (pos n)) ≡ false
        → total m ≤ total c
    pub lines : report ≡ take size (all_lines line (read_entries live.printed 0 (chosen (pos n))))

  -- Reading `top_addrs` gives a text that fits a page with its end, whatever `top_n` is, whether or not
  -- the array was allocated, and whatever is counted meanwhile. The line of an entry is not empty.
  pub top_addrs_get-fits :
      (kmalloc_array : Bool) (top_n : ℤ)
      → length (top_addrs_get h srt line kmalloc_array live s top_n) < page_size
  unfolding top_addrs_get stats_get_top
  top_addrs_get-fits false top_n = omega arith
  top_addrs_get-fits true top_n = elim (Bool-cases (length (collected h s) == 0)) [
    | inl none_there ↦ rw none_there (omega arith)
    | inr some_there ↦ rw some_there (
        omega
          (arith, print_top-fits line nonempty 4095 (read_entries live.printed 0 (chosen top_n))))
  ]
