-- ===== src/Hello/Spell.antt =====
-- A text that is written one character at a time, as a user does it: the index, then the character.
use otus_work.Base.{
  ℕ, zero, suc, ◌+◌, ◌<◌, ◌≤◌, ◌≡◌, ◌≢◌, refl, sym, ap, ◌∙◌, true, Option, none, some, List, [],
  ◌∷◌, ◌++◌, length, replicate, set, arith, length-append, ◌&&◌, if◌then◌else◌, lt→ltb,
}
use mathlib.Core.List.{append_assoc, append-nil}
use otus_work.Base.Int.{ℤ, pos, ltb_ℤ, eqb_ℤ}
use otus_work.Kernel.Text.{IsText, c_string-append, set-append}
use otus_work.Hello.Params.{
  Params, write_char, update_hello_world, ch_val_param_set, idx_param_set, my_str_param_get,
}

-- The writes for a text from the position `i` on; `digits` is how the user spells an index. `none`
-- where one of them returns another code than 0 or writes outside the array.
unfoldable pub spell : (List ℕ → ℤ × ℤ) → (ℕ → List ℕ) → ℕ → List ℕ → Params → Option Params
spell kstrtoint digits i [] p = some p
spell kstrtoint digits i (c ∷ cs) p =
    let (ret, p₁) = idx_param_set kstrtoint (digits i) p in
    elim (ch_val_param_set (c ∷ []) p₁) [
      | none ↦ none
      | some (code, p₂) ↦
          let rest = spell kstrtoint digits (i + 1) cs p₂ in
          if eqb_ℤ ret (pos 0) && eqb_ℤ code (pos 0) then rest else none
    ]

-- A string of a text and zeros.
abbrev pub filled : List ℕ → ℕ → List ℕ
filled t n = t ++ replicate n 0

-- To write a 0 over one of the zeros changes nothing.
zero_stays :
    (t : List ℕ) (n i : ℕ) → i ≡ length t + n → set (filled t (suc n)) i 0 ≡ filled t (suc n)
zero_stays [] n zero e = refl
zero_stays [] zero (suc i) e = absurd (omega arith)
zero_stays [] (suc n) (suc i) e = ap (λ u. 0 ∷ u) (zero_stays [] n i (omega arith))
zero_stays (c ∷ t) n zero e = absurd (omega arith)
zero_stays (c ∷ t) n (suc i) e = ap (λ u. c ∷ u) (zero_stays t n i (omega arith))

-- The next character goes to the first of the zeros, of which one stays at the end.
next_char :
    (t : List ℕ) (n c : ℕ)
    → length t + suc (suc n) ≡ 256
    → set (set (filled t (suc (suc n))) (length t) c) 255 0 ≡ filled (t ++ c ∷ []) (suc n)
next_char t n c e =
    let moved =
      set-append t (replicate (suc n) 0) 0 c
      ∙ sym (append_assoc t (c ∷ []) (replicate (suc n) 0)) in
    ap (λ s. set s 255 0) moved
    ∙ zero_stays (t ++ c ∷ []) n 255 (omega (arith, length-append t (c ∷ [])))

IsText-append : (t : List ℕ) (c : ℕ) → IsText t → c ≢ 0 → IsText (t ++ c ∷ [])
IsText-append [] c k ne = (ne, tt)
IsText-append (d ∷ t) c k ne = (k.0, IsText-append t c k.1 ne)

module _ (kstrtoint : List ℕ → ℤ × ℤ) (digits : ℕ → List ℕ)
    (spelled : (i : ℕ) → i < 256 → kstrtoint (digits i) ≡ (pos 0, pos i)) where
  -- What the string reads as after a text was spelled; the writes were accepted.
  abbrev pub Reads : List ℕ → Option Params → Type 0
  Reads t none = ⊥
  Reads t (some p) = my_str_param_get p ≡ t

  index_set :
      (i : ℕ) (p : Params)
      → i < 256
      → idx_param_set kstrtoint (digits i) p ≡ (pos 0, record p { idx = pos i })
  unfolding idx_param_set
  index_set i p small = rw (spelled i small) refl

  char_set :
      (i c : ℕ) (p : Params)
      → i < 256
      → ch_val_param_set (c ∷ []) (record p { idx = pos i })
        ≡ some (
          pos 0,
          record { my_str_param = set (set p.my_str_param i c) 255 0; idx = pos i; ch_val = c },
        )
  unfolding ch_val_param_set update_hello_world write_char
  char_set i c p small =
      let within : ltb_ℤ (pos i) (pos 256) ≡ true = ground arith in
      rw (within, lt→ltb i 256 small) refl

  -- One character: both writes are accepted, and leave this state.
  spelled_char :
      (i c : ℕ) (cs : List ℕ) (p : Params)
      → i < 256
      → spell kstrtoint digits i (c ∷ cs) p
        ≡ spell kstrtoint digits
            (i + 1)
            cs
            (record { my_str_param = set (set p.my_str_param i c) 255 0; idx = pos i; ch_val = c })
  unfolding spell
  spelled_char i c cs p small =
      rw (index_set i p small, char_set i c p small, spell, index_set i p small) refl

  spell_from :
      (cs t : List ℕ) (n i : ℕ) (p : Params)
      → p.my_str_param ≡ filled t (suc n)
      → i ≡ length t
      → length t + suc n ≡ 256
      → length cs ≤ n
      → IsText t
      → IsText cs
      → Reads (t ++ cs) (spell kstrtoint digits i cs p)
  unfolding spell my_str_param_get
  spell_from [] t n i p e at size fits kt kc =
      rw (append-nil, e) (c_string-append t (replicate n 0) kt)
  spell_from (c ∷ cs) t zero i p e at size fits kt kc = absurd (omega arith)
  spell_from (c ∷ cs) t (suc n) i p e at size fits kt kc =
      let written =
        ap (λ s. set (set s i c) 255 0) e
        ∙ ap (λ k. set (set (filled t (suc (suc n))) k c) 255 0) at
        ∙ next_char t n c size in
      rw (spelled_char i c cs p (omega arith)) (
        rw (← append_assoc t (c ∷ []) cs) (
          spell_from cs (t ++ c ∷ []) n (i + 1) _ written (omega (arith, length-append t (c ∷ [])))
            (omega (arith, length-append t (c ∷ []))) (omega arith) (IsText-append t c kt kc.0)
            kc.1))

  -- A text of at most 255 characters, none of them 0, that is written one character at a time into
  -- the string as it is when the module is loaded is accepted: each of the writes returns 0, and
  -- reading the string then gives the text back. `kstrtoint` reads the digits of an index below 256.
  pub my_str_param_get-spell :
      (cs : List ℕ) (p : Params)
      → p.my_str_param ≡ replicate 256 0
      → length cs ≤ 255
      → IsText cs
      → Reads cs (spell kstrtoint digits 0 cs p)
  my_str_param_get-spell cs p e fits k = spell_from cs [] 255 0 p e refl refl fits tt k
