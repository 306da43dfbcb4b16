-- ===== src/Stack/Files/Refine.antt =====
-- The attributes keep their promise, in every sequence of reads and writes.
use otus_work.Base.{
  inl, inr, ℕ, ◌%◌, ◌≡◌, refl, sym, ap, ◌∙◌, Bool, true, false, List, [], ◌∷◌, length, arith,
  Bool-cases, subst,
}
use otus_work.Base.Int.{ℤ, pos, eqb_ℤ}
use otus_work.Kernel.{Reply}
use otus_work.Kernel.Files.{Access, accesses}
use otus_work.Kernel.Files.Laws.{Agrees, AllGiven-Unit, accesses-agrees}
use otus_work.Stack.Ops.{
  int_mod, int_of_word, Stack, stack_init, stack_push, stack_pop, stack_peek, stack_is_empty,
  stack_size, stack_clear,
}
use otus_work.Stack.Sysfs.{
  push_store, pop_show, peek_show, size_show, is_empty_show, clear_store, emitted, Sysfs,
  stack_sysfs_init, kernel_stack_init,
}
use otus_work.Stack.Refine.{Holds, delete_entries_nil, pop_size}
use otus_work.Stack.Files.{
  Attribute, push, pop, peek, size, is_empty, clear, attr_ro, attr_wo, stack_attrs,
}
use otus_work.Stack.Files.Promise.{
  pushed, popped, peeked, emptiness, promised, read_only, write_only,
}

abbrev pub Stands : Stack → List ℤ → Type 0
Stands s vs = Holds vs s

-- A stack that is the list `vs`, and the word of its size.
abbrev stack_of : List ℤ → ℕ → Stack
stack_of vs n = record { elements = vs; size = n }

shown :
    (get : Stack → Reply × Stack) (get' : List ℤ → Reply × List ℤ)
    → ((vs : List ℤ) (n : ℕ)
        → n ≡ length vs % int_mod
        → ((get (stack_of vs n)).0 ≡ (get' vs).0) × Holds (get' vs).1 (get (stack_of vs n)).1)
    → Agrees (λ _. Unit {0}) Stands (attr_ro get) (read_only get')
shown get get' one = record {
  set = tt;
  get = λ _ s vs _ hs.
      subst (λ ws. ((get s).0 ≡ (get' ws).0) × Holds (get' ws).1 (get s).1) hs.elements
        (one s.elements s.size (hs.size ∙ ap (λ l. length l % int_mod) (sym hs.elements)));
  mode = refl;
}

written :
    (set : Bool → List ℕ → Stack → ℤ × Stack) (set' : Bool → List ℕ → List ℤ → ℤ × List ℤ)
    → ((kmalloc : Bool) (buf : List ℕ) (vs : List ℤ) (n : ℕ)
        → n ≡ length vs % int_mod
        → ((set kmalloc buf (stack_of vs n)).0 ≡ (set' kmalloc buf vs).0)
          × Holds (set' kmalloc buf vs).1 (set kmalloc buf (stack_of vs n)).1)
    → Agrees (λ _. Unit {0}) Stands (attr_wo set) (write_only set')
written set set' one = record {
  set = λ kmalloc buf s vs _ hs.
      subst
        (λ ws.
          ((set kmalloc buf s).0 ≡ (set' kmalloc buf ws).0)
          × Holds (set' kmalloc buf ws).1 (set kmalloc buf s).1)
        hs.elements
        (one kmalloc buf s.elements s.size
          (hs.size ∙ ap (λ l. length l % int_mod) (sym hs.elements)));
  get = tt;
  mode = refl;
}

module _ (vs : List ℤ) (n : ℕ) (e : n ≡ length vs % int_mod) where
  same_Holds : Holds vs (stack_of vs n)
  same_Holds = record { elements = refl; size = e }

  push-Holds :
      (kstrtoint : List ℕ → ℤ × ℤ) (kmalloc : Bool) (buf : List ℕ)
      → let r = push_store kstrtoint kmalloc buf (length buf) (stack_of vs n) in
        (r.0 ≡ (pushed kstrtoint kmalloc buf vs).0) × Holds (pushed kstrtoint kmalloc buf vs).1 r.1
  unfolding push_store stack_push
  push-Holds kstrtoint true buf = elim (Bool-cases (eqb_ℤ (kstrtoint buf).0 (pos 0))) [
    | inl spelled ↦ rw spelled (refl, record { elements = refl; size = omega arith })
    | inr not_spelled ↦ rw not_spelled (refl, same_Holds)
  ]
  push-Holds kstrtoint false buf = elim (Bool-cases (eqb_ℤ (kstrtoint buf).0 (pos 0))) [
    | inl spelled ↦ rw spelled (refl, same_Holds)
    | inr not_spelled ↦ rw not_spelled (refl, same_Holds)
  ]

pop-Holds :
    (vs : List ℤ) (n : ℕ)
    → n ≡ length vs % int_mod
    → ((pop_show (stack_of vs n)).0 ≡ (popped vs).0)
      × Holds (popped vs).1 (pop_show (stack_of vs n)).1
unfolding pop_show stack_pop
pop-Holds [] n e = (refl, same_Holds [] n e)
pop-Holds (v ∷ vs) n e = (refl, record { elements = refl; size = rw e (pop_size (length vs)) })

peek-Holds :
    (vs : List ℤ) (n : ℕ)
    → n ≡ length vs % int_mod
    → (peek_show (stack_of vs n) ≡ (peeked vs).0) × Holds (peeked vs).1 (stack_of vs n)
unfolding peek_show stack_peek
peek-Holds [] n e = (refl, same_Holds [] n e)
peek-Holds (v ∷ vs) n e = (refl, same_Holds (v ∷ vs) n e)

is_empty-emptiness : (vs : List ℤ) (n : ℕ) → is_empty_show (stack_of vs n) ≡ emptiness vs
unfolding is_empty_show stack_is_empty
is_empty-emptiness [] n = refl
is_empty-emptiness (v ∷ vs) n = refl

init-Holds :
    (kobject : Bool) (group : ℤ) (k : Sysfs) (s : Stack)
    → Holds [] (kernel_stack_init kobject group k s).2
unfolding kernel_stack_init stack_init
init-Holds kobject group k s =
    elim (Bool-cases (eqb_ℤ (stack_sysfs_init kobject group k).0 (pos 0))) [
      | inl e ↦ rw e (same_Holds [] 0 refl)
      | inr e ↦ rw e (same_Holds [] 0 refl)
    ]

module _ (kstrtoint : List ℕ → ℤ × ℤ) where
  stack_attrs-Agrees :
      (f : Attribute)
      → Agrees (λ _. Unit {0}) Stands (stack_attrs kstrtoint f) (promised kstrtoint f)
  unfolding size_show stack_size clear_store stack_clear
  stack_attrs-Agrees push =
      written _ _ λ kmalloc buf vs n e. push-Holds vs n e kstrtoint kmalloc buf
  stack_attrs-Agrees pop = shown _ _ pop-Holds
  stack_attrs-Agrees peek = shown _ _ peek-Holds
  stack_attrs-Agrees size =
      shown _ _ λ vs n e. (ap (λ w. emitted (int_of_word w)) e, same_Holds vs n e)
  stack_attrs-Agrees is_empty = shown _ _ λ vs n e. (is_empty-emptiness vs n, same_Holds vs n e)
  stack_attrs-Agrees clear =
      written _ _
        λ kmalloc buf vs n e. (refl, record { elements = delete_entries_nil vs; size = refl })

  -- After the init of the module, every sequence of reads and writes of its files, whatever `kmalloc`
  -- answers, gives what it gives over a list of integers that starts empty: what each write
  -- returns, what each read shows, and which accesses are refused; and the stack then holds that
  -- list. A size is shown as an `int`.
  pub accesses-kernel_stack_init :
      (kobject : Bool) (group : ℤ) (k : Sysfs) (s : Stack) (xs : List (Access Attribute Bool))
      → let (ret, k', s') = kernel_stack_init kobject group k s in
        ((accesses (stack_attrs kstrtoint) xs s').0 ≡ (accesses (promised kstrtoint) xs []).0)
        × Holds (accesses (promised kstrtoint) xs []).1 (accesses (stack_attrs kstrtoint) xs s').1
  accesses-kernel_stack_init kobject group k s xs =
      accesses-agrees (λ _. Unit {0}) Stands (stack_attrs kstrtoint) (promised kstrtoint)
        stack_attrs-Agrees xs (kernel_stack_init kobject group k s).2 [] (AllGiven-Unit xs)
        (init-Holds kobject group k s)
