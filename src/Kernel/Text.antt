-- ===== src/Kernel/Text.antt =====
-- Texts in C: bytes up to a 0. `%s` of the printf family prints the bytes before the first 0, and `strncpy`
-- copies a text into the first bytes of an array and fills these up with 0.
use otus_work.Base.{
  ℕ, zero, suc, ◌≤◌, ◌≡◌, ◌≢◌, refl, ap, ◌∙◌, List, [], ◌∷◌, ◌++◌, ◌==◌, if◌then◌else◌, length,
  replicate, take, drop, set, arith, ==_no, length-append, length-take, length-drop,
  length-replicate, subst,
}
use otus_work.Kernel.Sort.{All}

unfoldable pub c_string : List ℕ → List ℕ
c_string [] = []
c_string (c ∷ cs) = if c == 0 then [] else c ∷ c_string cs

unfoldable pub strncpy : ℕ → List ℕ → List ℕ → List ℕ
strncpy n val dst = take n (val ++ replicate n 0) ++ drop n dst

-- No byte of a text is 0.
abbrev pub IsText : List ℕ → Type 0
IsText = All (λ c. c ≢ 0)

pub c_string-append : (t r : List ℕ) → IsText t → c_string (t ++ 0 ∷ r) ≡ t
unfolding c_string
c_string-append [] r k = refl
c_string-append (c ∷ t) r k = rw (==_no k.0) (ap (λ u. c ∷ u) (c_string-append t r k.1))

pub set-append : (t r : List ℕ) (x y : ℕ) → set (t ++ x ∷ r) (length t) y ≡ t ++ y ∷ r
set-append [] r x y = refl
set-append (c ∷ t) r x y = ap (λ u. c ∷ u) (set-append t r x y)

-- The text, cut to `n` bytes and filled up with 0, and then a 0.
padded :
    (n m : ℕ) (val r : List ℕ)
    → length val ≤ n
    → (r' : List ℕ) × (take n (val ++ replicate m 0) ++ 0 ∷ r ≡ val ++ 0 ∷ r')
padded zero m [] r fits = (r, refl)
padded (suc n) zero [] r fits = (r, refl)
padded (suc n) (suc m) [] r fits = (take n (replicate m 0) ++ 0 ∷ r, refl)
padded zero m (c ∷ val) r fits = absurd (omega arith)
padded (suc n) m (c ∷ val) r fits =
    let (r', e) = padded n m val r (omega arith) in (r', ap (λ u. c ∷ u) e)

one_left : (n : ℕ) (dst : List ℕ) → length dst ≡ suc n → (d : ℕ) × (drop n dst ≡ d ∷ [])
one_left zero [] e = absurd (omega arith)
one_left zero (d ∷ []) e = (d, refl)
one_left zero (d ∷ c ∷ dst) e = absurd (omega arith)
one_left (suc n) [] e = absurd (omega arith)
one_left (suc n) (d ∷ dst) e = one_left n dst (omega arith)

-- A copy into all bytes of an array but the last, which then is 0, leaves the text in the array.
pub c_string-set-strncpy :
    (n : ℕ) (val dst : List ℕ)
    → IsText val
    → length val ≤ n
    → length dst ≡ suc n
    → c_string (set (strncpy n val dst) n 0) ≡ val
unfolding strncpy
c_string-set-strncpy n val dst k fits size =
    let kept = take n (val ++ replicate n 0) in
    let long : length kept ≡ n = omega (
      arith,
      length-take n (val ++ replicate n 0),
      length-append val (replicate n 0),
      length-replicate {A = ℕ} n 0,
    ) in
    let (d, left) = one_left n dst size in
    let (r, e) = padded n n val [] fits in
    let ended : set (kept ++ d ∷ []) n 0 ≡ kept ++ 0 ∷ [] =
      subst (λ i. set (kept ++ d ∷ []) i 0 ≡ kept ++ 0 ∷ []) long (set-append kept [] d 0) in
    rw left (ap c_string (ended ∙ e) ∙ c_string-append val r k)

pub length-strncpy :
    (n : ℕ) (val dst : List ℕ) → n ≤ length dst → length (strncpy n val dst) ≡ length dst
unfolding strncpy
length-strncpy n val dst fits = omega (
  arith,
  length-append (take n (val ++ replicate n 0)) (drop n dst),
  length-take n (val ++ replicate n 0),
  length-append val (replicate n 0),
  length-replicate {A = ℕ} n 0,
  length-drop n dst,
)
