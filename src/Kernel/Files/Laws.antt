-- ===== src/Kernel/Files/Laws.antt =====
-- What holds of every sequence of accesses, from what holds of the operations of each file.
use otus_work.Base.{ℕ, ◌≡◌, refl, ap, Bool, Option, none, some, List, [], ◌∷◌, true, false}
use otus_work.Base.Int.{ℤ}
use otus_work.Kernel.Files.{
  File, permits, to_write, to_read, Access, write, read, wrote, got, store, show, access, accesses,
}

module _ {ℓ} {F E : Type ℓ} (G : E → Type ℓ) where
  -- What the kernel gives with an access, and with a sequence of them.
  abbrev pub Given : Access F E → Type ℓ
  Given (write f env val) = G env
  Given (read f env) = G env

  abbrev pub AllGiven : List (Access F E) → Type ℓ
  AllGiven [] = Unit {ℓ}
  AllGiven (a ∷ rest) = Given a × AllGiven rest

-- Where nothing is asked of it, everything that is given will do.
pub AllGiven-Unit {ℓ} : {F E : Type ℓ} (xs : List (Access F E)) → AllGiven (λ _. Unit {ℓ}) xs
AllGiven-Unit [] = tt
AllGiven-Unit (write f env val ∷ xs) = (tt, AllGiven-Unit xs)
AllGiven-Unit (read f env ∷ xs) = (tt, AllGiven-Unit xs)

-- The operations of a file keep a property of the state.
module _ {ℓ} {E S : Type ℓ} (G : E → Type ℓ) (P : S → Type ℓ) where
  abbrev pub KeepsSet : Option (E → List ℕ → S → ℤ × S) → Type ℓ
  KeepsSet none = Unit {ℓ}
  KeepsSet (some set) = (env : E) (val : List ℕ) (s : S) → G env → P s → P (set env val s).1

module _ {ℓ} {E S R : Type ℓ} (G : E → Type ℓ) (P : S → Type ℓ) where
  abbrev pub KeepsGet : Option (E → S → R × S) → Type ℓ
  KeepsGet none = Unit {ℓ}
  KeepsGet (some get) = (env : E) (s : S) → G env → P s → P (get env s).1

  show-keeps :
      (opened : Bool) (get : Option (E → S → R × S)) (env : E) (s : S)
      → KeepsGet get
      → G env
      → P s
      → P (show opened get env s).1
  show-keeps true (some get) env s k g p = k env s g p
  show-keeps true none env s k g p = p
  show-keeps false get env s k g p = p

module _ {ℓ} {E S R : Type ℓ} (G : E → Type ℓ) (P : S → Type ℓ) where
  pub record Keeps (file : File E S R) : Type ℓ where
    pub set : KeepsSet G P file.set
    pub get : KeepsGet G P file.get

module _ {ℓ} {E S : Type ℓ} (R : Type ℓ) (G : E → Type ℓ) (P : S → Type ℓ) where
  store-keeps :
      (opened : Bool) (set : Option (E → List ℕ → S → ℤ × S)) (env : E) (val : List ℕ) (s : S)
      → KeepsSet G P set
      → G env
      → P s
      → P (store {R = R} opened set env val s).1
  store-keeps true (some set) env val s k g p = k env val s g p
  store-keeps true none env val s k g p = p
  store-keeps false set env val s k g p = p

module _ {ℓ} {F E S R : Type ℓ} (G : E → Type ℓ) (P : S → Type ℓ) (files : F → File E S R)
    (all : (f : F) → Keeps G P (files f)) where
  access-keeps : (a : Access F E) (s : S) → Given G a → P s → P (access files a s).1
  unfolding access
  access-keeps (write f env val) s g p =
      store-keeps R G P (permits to_write (files f).mode) (files f).set env val s (all f).set g p
  access-keeps (read f env) s g p =
      show-keeps G P (permits to_read (files f).mode) (files f).get env s (all f).get g p

  -- Then every sequence of accesses keeps it.
  pub accesses-keeps :
      (rest : List (Access F E)) (s : S) → AllGiven G rest → P s → P (accesses files rest s).1
  unfolding accesses
  accesses-keeps [] s g p = p
  accesses-keeps (a ∷ rest) s g p =
      accesses-keeps rest (access files a s).1 g.1 (access-keeps a s g.0 p)

-- The operations of a file return what those of another file return, which acts on `A`, and keep the
-- two states related.
module _ {E S A : Type 0} (G : E → Type 0) (Rel : S → A → Type 0) where
  abbrev pub AgreesSet : Option (E → List ℕ → S → ℤ × S) → Option (E → List ℕ → A → ℤ × A) → Type 0
  AgreesSet none none = Unit {0}
  AgreesSet none (some set') = ⊥
  AgreesSet (some set) none = ⊥
  AgreesSet (some set) (some set') =
      (env : E) (val : List ℕ) (s : S) (a : A)
      → G env
      → Rel s a
      → ((set env val s).0 ≡ (set' env val a).0) × Rel (set env val s).1 (set' env val a).1

module _ {E S A R : Type 0} (G : E → Type 0) (Rel : S → A → Type 0) where
  abbrev pub AgreesGet : Option (E → S → R × S) → Option (E → A → R × A) → Type 0
  AgreesGet none none = Unit {0}
  AgreesGet none (some get') = ⊥
  AgreesGet (some get) none = ⊥
  AgreesGet (some get) (some get') =
      (env : E) (s : S) (a : A)
      → G env
      → Rel s a
      → ((get env s).0 ≡ (get' env a).0) × Rel (get env s).1 (get' env a).1

  show-agrees :
      (opened : Bool) (get : Option (E → S → R × S)) (get' : Option (E → A → R × A)) (env : E)
      (s : S) (a : A)
      → AgreesGet get get'
      → G env
      → Rel s a
      → ((show opened get env s).0 ≡ (show opened get' env a).0)
        × Rel (show opened get env s).1 (show opened get' env a).1
  show-agrees false get get' env s a ag g r = (refl, r)
  show-agrees true none none env s a ag g r = (refl, r)
  show-agrees true none (some get') env s a ag g r = elim ag [ ]
  show-agrees true (some get) none env s a ag g r = elim ag [ ]
  show-agrees true (some get) (some get') env s a ag g r =
      let (same, r') = ag env s a g r in (ap got same, r')

module _ {E S A R : Type 0} (G : E → Type 0) (Rel : S → A → Type 0) where
  pub record Agrees (file : File E S R) (spec : File E A R) : Type 0 where
    pub set : AgreesSet G Rel file.set spec.set
    pub get : AgreesGet G Rel file.get spec.get
    pub mode : file.mode ≡ spec.mode

module _ {E S A : Type 0} (R : Type 0) (G : E → Type 0) (Rel : S → A → Type 0) where
  store-agrees :
      (opened : Bool) (set : Option (E → List ℕ → S → ℤ × S))
      (set' : Option (E → List ℕ → A → ℤ × A)) (env : E) (val : List ℕ) (s : S) (a : A)
      → AgreesSet G Rel set set'
      → G env
      → Rel s a
      → ((store {R = R} opened set env val s).0 ≡ (store opened set' env val a).0)
        × Rel (store {R = R} opened set env val s).1 (store {R = R} opened set' env val a).1
  store-agrees false set set' env val s a ag g r = (refl, r)
  store-agrees true none none env val s a ag g r = (refl, r)
  store-agrees true none (some set') env val s a ag g r = elim ag [ ]
  store-agrees true (some set) none env val s a ag g r = elim ag [ ]
  store-agrees true (some set) (some set') env val s a ag g r =
      let (same, r') = ag env val s a g r in (ap wrote same, r')

module _ {F E S A R : Type 0} (G : E → Type 0) (Rel : S → A → Type 0) (files : F → File E S R)
    (spec : F → File E A R) (all : (f : F) → Agrees G Rel (files f) (spec f)) where
  access-agrees :
      (x : Access F E) (s : S) (a : A)
      → Given G x
      → Rel s a
      → ((access files x s).0 ≡ (access spec x a).0) × Rel (access files x s).1 (access spec x a).1
  unfolding access
  access-agrees (write f env val) s a g r = rw (all f).mode (
      store-agrees R G Rel (permits to_write (spec f).mode) (files f).set (spec f).set env val s a
        (all f).set g r)
  access-agrees (read f env) s a g r = rw (all f).mode (
      show-agrees G Rel (permits to_read (spec f).mode) (files f).get (spec f).get env s a
        (all f).get g r)

  -- Then every sequence of accesses gives what it gives over the other files.
  pub accesses-agrees :
      (xs : List (Access F E)) (s : S) (a : A)
      → AllGiven G xs
      → Rel s a
      → ((accesses files xs s).0 ≡ (accesses spec xs a).0)
        × Rel (accesses files xs s).1 (accesses spec xs a).1
  unfolding accesses
  accesses-agrees [] s a g r = (refl, r)
  accesses-agrees (x ∷ xs) s a g r =
      let (same, r') = access-agrees x s a g.0 r in
      let (rest, r'') = accesses-agrees xs (access files x s).1 (access spec x a).1 g.1 r' in
      ((λ i. same i ∷ rest i), r'')
