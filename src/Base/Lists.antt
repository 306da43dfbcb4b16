-- ===== src/Base/Lists.antt =====
-- Lists measured and indexed by native numbers, under the library's names.
use Prim.Native.Nat.{ℕ, zero, suc, ◌+◌, ◌-◌, ◌<◌, ◌≤◌, min}
use mathlib.Core.Path.{◌≡◌, refl, ap}
use mathlib.Core.Logic.{◌≢◌}
use mathlib.Core.List.{List, [], ◌∷◌, ◌++◌, map}
use mathlib.Core.Option.{Option, none, some}
use native.Mathlib.Omega.{arith}

module _ {ℓ} {A : Type ℓ} where
  abbrev pub length : List A → ℕ
  length [] = 0
  length (x ∷ xs) = suc (length xs)

  abbrev pub get_elem? : List A → ℕ → Option A
  get_elem? [] i = none
  get_elem? (x ∷ xs) zero = some x
  get_elem? (x ∷ xs) (suc i) = get_elem? xs i

  -- A write out of bounds changes nothing.
  abbrev pub set : List A → ℕ → A → List A
  set [] i v = []
  set (x ∷ xs) zero v = v ∷ xs
  set (x ∷ xs) (suc i) v = x ∷ set xs i v

  pub length-append : (xs ys : List A) → length (xs ++ ys) ≡ length xs + length ys
  length-append [] ys = omega arith
  length-append (x ∷ xs) ys = omega (arith, length-append xs ys)

module _ {ℓ} {A : Type ℓ} where
  pub length-set : (xs : List A) (i : ℕ) (v : A) → length (set xs i v) ≡ length xs
  length-set [] i v = refl
  length-set (x ∷ xs) zero v = refl
  length-set (x ∷ xs) (suc i) v = ap suc (length-set xs i v)

  pub get_elem?-set_self :
      (xs : List A) (i : ℕ) (v : A) → i < length xs → get_elem? (set xs i v) i ≡ some v
  get_elem?-set_self [] i v h = elim h [ ]
  get_elem?-set_self (x ∷ xs) zero v h = refl
  get_elem?-set_self (x ∷ xs) (suc i) v h = get_elem?-set_self xs i v (omega arith)

  pub get_elem?-set_ne :
      (xs : List A) {i j : ℕ} (v : A) → i ≢ j → get_elem? (set xs i v) j ≡ get_elem? xs j
  get_elem?-set_ne [] v h = refl
  get_elem?-set_ne (x ∷ xs) {i = zero} {j = zero} v h = absurd (h refl)
  get_elem?-set_ne (x ∷ xs) {i = zero} {j = suc j} v h = refl
  get_elem?-set_ne (x ∷ xs) {i = suc i} {j = zero} v h = refl
  get_elem?-set_ne (x ∷ xs) {i = suc i} {j = suc j} v h = get_elem?-set_ne xs v (λ e. h (ap suc e))

module _ {ℓ} {A : Type ℓ} where
  abbrev pub get_or : List A → ℕ → A → A
  get_or [] i d = d
  get_or (x ∷ xs) zero d = x
  get_or (x ∷ xs) (suc i) d = get_or xs i d

  abbrev pub take : ℕ → List A → List A
  take zero xs = []
  take (suc n) [] = []
  take (suc n) (x ∷ xs) = x ∷ take n xs

  abbrev pub drop : ℕ → List A → List A
  drop zero xs = xs
  drop (suc n) [] = []
  drop (suc n) (x ∷ xs) = drop n xs

  abbrev pub replicate : ℕ → A → List A
  replicate zero a = []
  replicate (suc n) a = a ∷ replicate n a

  pub take-append-drop : (n : ℕ) (xs : List A) → take n xs ++ drop n xs ≡ xs
  take-append-drop zero xs = refl
  take-append-drop (suc n) [] = refl
  take-append-drop (suc n) (x ∷ xs) = rw (take-append-drop n xs)

  pub length-take : (n : ℕ) (xs : List A) → length (take n xs) ≡ min n (length xs)
  length-take zero xs = omega arith
  length-take (suc n) [] = omega arith
  length-take (suc n) (x ∷ xs) = omega (arith, length-take n xs)

  pub length-drop : (n : ℕ) (xs : List A) → length (drop n xs) ≡ length xs - n
  length-drop zero xs = omega arith
  length-drop (suc n) [] = omega arith
  length-drop (suc n) (x ∷ xs) = omega (arith, length-drop n xs)

  pub length-replicate : (n : ℕ) (a : A) → length (replicate n a) ≡ n
  length-replicate zero a = refl
  length-replicate (suc n) a = ap suc (length-replicate n a)

  pub length-map {κ} : {B : Type κ} (xs : List A) (f : A → B) → length (map f xs) ≡ length xs
  length-map [] f = refl
  length-map (x ∷ xs) f = ap suc (length-map xs f)

module _ {ℓ} {A : Type ℓ} where
  -- To cut a text that was cut before is to cut the whole.
  pub take-take_append : (n : ℕ) (l r : List A) → take n (take n l ++ r) ≡ take n (l ++ r)
  take-take_append zero l r = refl
  take-take_append (suc n) [] r = refl
  take-take_append (suc n) (x ∷ l) r = ap (λ t. x ∷ t) (take-take_append n l r)

  pub take_rest :
      (n : ℕ) (out l r : List A)
      → take n ((out ++ take (n - length out) l) ++ r) ≡ take n (out ++ (l ++ r))
  take_rest n [] l r = let e : n - 0 ≡ n = omega arith in rw e (take-take_append n l r)
  take_rest zero (x ∷ out) l r = refl
  take_rest (suc n) (x ∷ out) l r =
      ap (λ t. x ∷ t)
        (let e : suc n - suc (length out) ≡ n - length out = omega arith in
          rw e (take_rest n out l r))

  pub take_all_append : (n : ℕ) (out r : List A) → length out ≡ n → take n (out ++ r) ≡ out
  take_all_append zero [] r h = refl
  take_all_append zero (x ∷ out) r h = absurd (omega arith)
  take_all_append (suc n) [] r h = absurd (omega arith)
  take_all_append (suc n) (x ∷ out) r h = ap (λ t. x ∷ t) (take_all_append n out r (omega arith))

  pub take_long : (n : ℕ) (out : List A) → length out ≤ n → take n out ≡ out
  take_long zero [] h = refl
  take_long zero (x ∷ out) h = absurd (omega arith)
  take_long (suc n) [] h = refl
  take_long (suc n) (x ∷ out) h = ap (λ t. x ∷ t) (take_long n out (omega arith))

  pub append-take :
      (n : ℕ) (out r : List A) → length out ≤ n → out ++ take (n - length out) r ≡ take n (out ++ r)
  append-take n [] r h = let e : n - 0 ≡ n = omega arith in rw e refl
  append-take zero (x ∷ out) r h = absurd (omega arith)
  append-take (suc n) (x ∷ out) r h =
      ap (λ t. x ∷ t)
        (let e : suc n - suc (length out) ≡ n - length out = omega arith in
          rw e (append-take n out r (omega arith)))
