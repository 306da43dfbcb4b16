-- ===== src/Hello/Laws.antt =====
-- What a write of `ch_val` does to the string.
use otus_work.Base.{
  ℕ, ◌<◌, ◌≡◌, ◌≢◌, ◌⊎◌, inl, inr, refl, ◌∙◌, true, false, none, some, List, get_or, get_elem?, set,
  length, length-set, get_elem?-set_self, get_elem?-set_ne, arith, ==_yes, ==_no, ℕ_discrete,
  Bool-cases, subst, sym, lt→ltb,
}
use otus_work.Base.Int.{ℤ, pos, negsuc, ltb_ℤ}
use otus_work.Hello.Params.{
  my_str_max_size, e2big, einval, Params, write_char, update_hello_world, ch_val_param_set,
}

-- The string has its 256 bytes, and the last is 0.
pub record IsText (s : List ℕ) : Type 0 where
  pub size : length s ≡ my_str_max_size
  pub ended : get_elem? s 255 ≡ some 0

-- The string after the byte `i` became `c`: the other bytes stay, and the last is 0 in any case.
pub record Written (s : List ℕ) (i c : ℕ) (s' : List ℕ) : Type 0 where
  pub text : IsText s'
  pub here : i < 255 → get_elem? s' i ≡ some c
  pub others : (j : ℕ) → j ≢ i → get_elem? s' j ≡ get_elem? s j

set_last : (s : List ℕ) (i c : ℕ) → i < 256 → IsText s → Written s i c (set (set s i c) 255 0)
set_last s i c small t =
    let size = length-set (set s i c) 255 0 ∙ length-set s i c ∙ t.size in
    let long : length (set s i c) ≡ 256 = length-set s i c ∙ t.size in
    let ended = get_elem?-set_self (set s i c) 255 0 (omega arith) in
    record {
      text = record { size = size; ended = ended };
      here = λ below.
          get_elem?-set_ne (set s i c) 0 (λ e. omega arith)
          ∙ get_elem?-set_self s i c (omega (arith, t.size));
      others = λ j ne. elim (ℕ_discrete 255 j) [
        | yes e ↦
            subst (λ k. get_elem? (set (set s i c) 255 0) k ≡ get_elem? s k) e (ended ∙ sym t.ended)
        | no apart ↦ get_elem?-set_ne (set s i c) 0 apart ∙ get_elem?-set_ne s c (λ e. ne (sym e))
      ];
    }

-- What a write of `ch_val` promises.
abbrev pub Promised : List ℕ → Params → Type 0
Promised val p =
    ((length val ≢ 1) × (ch_val_param_set val p ≡ some (einval, p)))
    ⊎ ((length val ≡ 1)
        × (ltb_ℤ p.idx (pos 256) ≡ false)
        × (ch_val_param_set val p ≡ some (e2big, record p { ch_val = get_or val 0 0 })))
    ⊎ ((length val ≡ 1) × (ltb_ℤ p.idx (pos 0) ≡ true) × (ch_val_param_set val p ≡ none))
    ⊎ ((i : ℕ) × (s' : List ℕ) × (length val ≡ 1)
        × (p.idx ≡ pos i)
        × (i < 256)
        × Written p.my_str_param i (get_or val 0 0) s'
        × (ch_val_param_set val p
            ≡ some (pos 0, record { my_str_param = s'; idx = p.idx; ch_val = get_or val 0 0 })))

set_by_idx :
    (val s : List ℕ) (k : ℤ) (old : ℕ)
    → IsText s
    → Promised val (record { my_str_param = s; idx = k; ch_val = old })
unfolding ch_val_param_set update_hello_world write_char
set_by_idx val s (negsuc n) old t = elim (ℕ_discrete (length val) 1) [
  | no ne ↦ rw (==_no ne) (inl (ne, refl))
  | yes e ↦
      let below : ltb_ℤ (negsuc n) (pos 256) ≡ true = ground arith in
      rw (==_yes e, below) (inr (inr (inl (e, ground arith, refl))))
]
set_by_idx val s (pos i) old t = elim (ℕ_discrete (length val) 1) [
  | no ne ↦ rw (==_no ne) (inl (ne, refl))
  | yes e ↦ elim (Bool-cases (ltb_ℤ (pos i) (pos 256))) [
    | inr out ↦ rw (==_yes e, out) (inr (inl (e, refl, refl)))
    | inl within ↦
        let small : i < 256 = ground arith in
        rw (==_yes e, within, lt→ltb i 256 small)
          (inr (
            inr (
              inr (
                i,
                set (set s i (get_or val 0 0)) 255 0,
                e,
                refl,
                small,
                set_last s i (get_or val 0 0) small t,
                refl,
              ))))
  ]
]

-- A write of `ch_val`, where the string has its 256 bytes and ends with 0: a text that is not one
-- character is refused and changes nothing. With a text of one character, an index of 256 or more is
-- refused and changes no byte; an index from 0 to 255 writes that byte alone and keeps the final 0;
-- a negative index, which passes the test of its range, writes outside the array.
pub ch_val_param_set_lem : (val : List ℕ) (p : Params) → IsText p.my_str_param → Promised val p
ch_val_param_set_lem val p t = set_by_idx val p.my_str_param p.idx p.ch_val t
