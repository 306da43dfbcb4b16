-- ===== src/Hello/Files/Safe.antt =====
-- What any sequence of reads and writes of the parameters keeps of the string.
use otus_work.Base.{
  ℕ, zero, suc, ◌<◌, ◌≤◌, ◌≡◌, ◌≢◌, inl, inr, refl, sym, ◌∙◌, true, false, none, some, List, [],
  ◌∷◌, length, get_elem?, arith, Bool-cases, ◌==◌, ℕ_discrete, ==_yes,
}
use mathlib.Core.Option.{some-injective}
use mathlib.Core.Bool.{false≢true}
use otus_work.Base.Int.{ℤ, pos, negsuc, ltb_ℤ, eqb_ℤ}
use otus_work.Kernel.Files.{Access, write, read, access, accesses}
use otus_work.Kernel.Text.{c_string}
use otus_work.Hello.Params.{Params, ch_val_param_set, idx_param_set, my_str_param_get}
use otus_work.Hello.Laws.{IsText, ch_val_param_set_lem}
use otus_work.Hello.Files.{
  Parameter, my_str, idx, ch_val, State, Shown, setting, getting, parameters,
}

-- A text with a 0 among its bytes ends before it.
c_string-lt : (s : List ℕ) (i : ℕ) → get_elem? s i ≡ some 0 → length (c_string s) ≤ i
unfolding c_string
c_string-lt [] i e = absurd (cc)
c_string-lt (c ∷ s) zero e = elim (ℕ_discrete c 0) [
  | yes z ↦ rw (==_yes z) (omega arith)
  | no ne ↦ absurd (ne (some-injective _ _ e))
]
c_string-lt (c ∷ s) (suc i) e = elim (Bool-cases (c == 0)) [
  | inl z ↦ rw z (omega arith)
  | inr more ↦ rw more (omega (arith, c_string-lt s i e))
]

module _ (kstrtoint : List ℕ → ℤ × ℤ) where
  -- A write of `idx` gives a text that spells no negative number. Nothing is asked of other accesses.
  abbrev pub Spelled : Access Parameter (Unit {0}) → Type 0
  Spelled (write my_str env val) = Unit {0}
  Spelled (write ch_val env val) = Unit {0}
  Spelled (write idx env val) = (n : ℕ) → kstrtoint val ≢ (pos 0, negsuc n)
  Spelled (read f env) = Unit {0}

  abbrev pub AllSpelled : List (Access Parameter (Unit {0})) → Type 0
  AllSpelled [] = Unit {0}
  AllSpelled (x ∷ xs) = Spelled x × AllSpelled xs

  -- No write went outside the array; the string is in its array, with its final 0, and my_str shows at
  -- most 255 bytes; the index is not negative.
  abbrev pub IsSafe : State → Type 0
  IsSafe none = ⊥
  IsSafe (some p) =
      IsText p.my_str_param × (length (my_str_param_get p) < 256) × (ltb_ℤ p.idx (pos 0) ≡ false)

  text-IsSafe : (p : Params) → IsText p.my_str_param → ltb_ℤ p.idx (pos 0) ≡ false → IsSafe (some p)
  unfolding my_str_param_get
  text-IsSafe p t i = (t, omega (arith, c_string-lt p.my_str_param 255 t.ended), i)

  ch_val-IsSafe : (val : List ℕ) (s : State) → IsSafe s → IsSafe (setting ch_val_param_set val s).1
  unfolding setting
  ch_val-IsSafe val none safe = absurd safe
  ch_val-IsSafe val (some p) (t, short, i) = elim (ch_val_param_set_lem val p t) [
    | inl (_, e) ↦ rw (e, setting) (t, short, i)
    | inr (inl (_, _, e)) ↦ rw (e, setting) (text-IsSafe _ t i)
    | inr (inr (inl (_, negative, e))) ↦ absurd (false≢true (sym i ∙ negative))
    | inr (inr (inr (k, s', _, at, small, w, e))) ↦ rw (e, setting) (text-IsSafe _ w.text i)
  ]

  sign :
      (val : List ℕ) (r : ℤ × ℤ)
      → kstrtoint val ≡ r
      → ((n : ℕ) → kstrtoint val ≢ (pos 0, negsuc n))
      → eqb_ℤ r.0 (pos 0) ≡ true
      → ltb_ℤ r.1 (pos 0) ≡ false
  sign val (pos zero, pos n) e no_negative ok = ground arith
  sign val (pos zero, negsuc n) e no_negative ok = absurd (no_negative n e)
  sign val (pos (suc k), v) e no_negative ok = absurd (ground arith)
  sign val (negsuc k, v) e no_negative ok = absurd (ground arith)

  idx-IsSafe :
      (val : List ℕ) (s : State)
      → ((n : ℕ) → kstrtoint val ≢ (pos 0, negsuc n))
      → IsSafe s
      → IsSafe (setting (λ v p. some (idx_param_set kstrtoint v p)) val s).1
  unfolding setting idx_param_set
  idx-IsSafe val none g safe = absurd safe
  idx-IsSafe val (some p) g (t, short, i) = elim (Bool-cases (eqb_ℤ (kstrtoint val).0 (pos 0))) [
    | inr e ↦ rw e (t, short, i)
    | inl e ↦ rw e (text-IsSafe _ t (sign val (kstrtoint val) refl g e))
  ]

  got_IsSafe : (get : Params → Shown) (s : State) → IsSafe s → IsSafe (getting get s).1
  got_IsSafe get none safe = safe
  got_IsSafe get (some p) safe = safe

  access-IsSafe :
      (x : Access Parameter (Unit {0})) (s : State)
      → Spelled x
      → IsSafe s
      → IsSafe (access (parameters kstrtoint) x s).1
  unfolding access
  access-IsSafe (write my_str env val) s g safe = safe
  access-IsSafe (write ch_val env val) s g safe = ch_val-IsSafe val s safe
  access-IsSafe (write idx env val) s g safe = idx-IsSafe val s g safe
  access-IsSafe (read my_str env) s g safe = got_IsSafe _ s safe
  access-IsSafe (read ch_val env) s g safe = got_IsSafe _ s safe
  access-IsSafe (read idx env) s g safe = got_IsSafe _ s safe

  accesses_from :
      (xs : List (Access Parameter (Unit {0}))) (s : State)
      → AllSpelled xs
      → IsSafe s
      → IsSafe (accesses (parameters kstrtoint) xs s).1
  unfolding accesses
  accesses_from [] s g safe = safe
  accesses_from (x ∷ xs) s g safe =
      accesses_from xs (access (parameters kstrtoint) x s).1 g.1 (access-IsSafe x s g.0 safe)

  -- From a string of 256 bytes with a final 0 and an index that is not negative, any reads and writes
  -- of the parameters, of which no write of idx spells a negative number, make no write outside
  -- the array and keep the size and the final 0, so that my_str shows at most 255 bytes.
  pub accesses-IsSafe :
      (xs : List (Access Parameter (Unit {0}))) (p : Params)
      → IsText p.my_str_param
      → ltb_ℤ p.idx (pos 0) ≡ false
      → AllSpelled xs
      → IsSafe (accesses (parameters kstrtoint) xs (some p)).1
  accesses-IsSafe xs p t positive spelled =
      accesses_from xs (some p) spelled (text-IsSafe p t positive)
