-- ===== src/Stack/Refine.antt =====
-- The stack's operations against a list of integers, and what its files in sysfs show.
use otus_work.Base.{
  ℕ, suc, ◌+◌, ◌-◌, ◌%◌, ◌≡◌, ◌≢◌, ◌⊎◌, inl, inr, refl, sym, ap, ◌∙◌, Bool, true, false, Option,
  none, some, List, [], ◌∷◌, length, arith, Bool-cases, subst,
}
use otus_work.Base.Int.{ℤ, pos, negsuc, eqb_ℤ}
use otus_work.Stack.Ops.{
  int_mod, int_of_word, Stack, stack_init, stack_push, stack_pop, stack_peek, stack_is_empty,
  stack_size, stack_clear, delete_entries,
}
use otus_work.Stack.Sysfs.{
  push_store, pop_show, emitted, Sysfs, stack_sysfs_init, kernel_stack_init,
}

-- The calls of the stack; a push says whether its `kmalloc` succeeds.
pub data Call : Type 0 where
  push : Bool → ℤ → Call
  pop peek size is_empty clear : Call

-- What a call returns, and the value that it writes.
abbrev pub Answer : Type 0
Answer = ℤ × Option ℤ

unfoldable pub step : Call → Stack → Answer × Stack
unfolding stack_push stack_pop stack_peek stack_is_empty stack_size stack_clear
step (push kmalloc v) s = let (ret, s') = stack_push kmalloc v s in ((ret, none), s')
step pop s = let (ret, value, s') = stack_pop s in ((ret, value), s')
step peek s = (stack_peek s, s)
step size s = ((stack_size s, none), s)
step is_empty s = ((stack_is_empty s, none), s)
step clear s = ((pos 0, none), stack_clear s)

unfoldable pub run : List Call → Stack → List Answer × Stack
run [] s = ([], s)
run (c ∷ cs) s = let (a, s') = step c s in let (answers, s'') = run cs s' in (a ∷ answers, s'')

-- The same calls on a list of integers.
unfoldable pub spec : Call → List ℤ → Answer × List ℤ
spec (push true v) vs = ((pos 0, none), v ∷ vs)
spec (push false v) vs = ((negsuc 1, none), vs)
spec pop [] = ((negsuc 0, none), [])
spec pop (v ∷ vs) = ((pos 0, some v), vs)
spec peek [] = ((negsuc 0, none), [])
spec peek (v ∷ vs) = ((pos 0, some v), v ∷ vs)
spec size vs = ((int_of_word (length vs % int_mod), none), vs)
spec is_empty [] = ((pos 1, none), [])
spec is_empty (v ∷ vs) = ((pos 0, none), v ∷ vs)
spec clear vs = ((pos 0, none), [])

unfoldable pub run_spec : List Call → List ℤ → List Answer × List ℤ
run_spec [] vs = ([], vs)
run_spec (c ∷ cs) vs =
    let (a, vs') = spec c vs in let (answers, vs'') = run_spec cs vs' in (a ∷ answers, vs'')

-- `size` counts the entries, up to the width of an `int`.
pub record Holds (vs : List ℤ) (s : Stack) : Type 0 where
  pub elements : s.elements ≡ vs
  pub size : s.size ≡ length vs % int_mod

pub delete_entries_nil : (vs : List ℤ) → delete_entries vs ≡ []
unfolding delete_entries
delete_entries_nil [] = refl
delete_entries_nil (v ∷ vs) = delete_entries_nil vs

pub pop_size : (n : ℕ) → (suc n % int_mod + (int_mod - 1)) % int_mod ≡ n % int_mod
pop_size n = omega arith

abbrev pub Agrees : Answer × Stack → Answer × List ℤ → Type 0
Agrees (a, s) (b, vs) = (a ≡ b) × Holds vs s

step-Agrees :
    (c : Call) (vs : List ℤ) (n : ℕ)
    → n ≡ length vs % int_mod
    → Agrees (step c (record { elements = vs; size = n })) (spec c vs)
unfolding step spec stack_push stack_pop stack_peek stack_is_empty stack_size stack_clear
step-Agrees (push true v) vs n e = (refl, record { elements = refl; size = omega arith })
step-Agrees (push false v) vs n e = (refl, record { elements = refl; size = e })
step-Agrees pop [] n e = (refl, record { elements = refl; size = e })
step-Agrees pop (v ∷ vs) n e =
    (refl, record { elements = refl; size = rw e (pop_size (length vs)) })
step-Agrees peek [] n e = (refl, record { elements = refl; size = e })
step-Agrees peek (v ∷ vs) n e = (refl, record { elements = refl; size = e })
step-Agrees size vs n e = (ap (λ k. (int_of_word k, none)) e, record { elements = refl; size = e })
step-Agrees is_empty [] n e = (refl, record { elements = refl; size = e })
step-Agrees is_empty (v ∷ vs) n e = (refl, record { elements = refl; size = e })
step-Agrees clear vs n e = (refl, record { elements = delete_entries_nil vs; size = refl })

pub step_lem : (c : Call) (vs : List ℤ) (s : Stack) → Holds vs s → Agrees (step c s) (spec c vs)
step_lem c vs s hs =
    let sized = hs.size ∙ ap (λ l. length l % int_mod) (sym hs.elements) in
    subst (λ ws. Agrees (step c s) (spec c ws)) hs.elements (step-Agrees c s.elements s.size sized)

abbrev pub RunAgrees : List Answer × Stack → List Answer × List ℤ → Type 0
RunAgrees (given, s) (wanted, vs) = (given ≡ wanted) × Holds vs s

-- Any sequence of calls on a stack that holds a list, whatever the answers of `kmalloc`, gives the
-- answers of the list: a push goes to its front, a pop and a peek give the front or fail exactly on
-- the empty list, and the size is the length, as an `int`. The stack then holds the list that is left.
pub run_agrees :
    (cs : List Call) (vs : List ℤ) (s : Stack) → Holds vs s → RunAgrees (run cs s) (run_spec cs vs)
unfolding run run_spec
run_agrees [] vs s hs = (refl, hs)
run_agrees (c ∷ cs) vs s hs =
    let (same, hs') = step_lem c vs s hs in
    let (rest, hs'') = run_agrees cs (spec c vs).1 (step c s).1 hs' in
    ((λ i. same i ∷ rest i), hs'')

-- Where `push` accepts a number, reading `pop` shows that number and leaves the stack as it was.
pop_show-push_store :
    (kstrtoint : List ℕ → ℤ × ℤ) (buf : List ℕ) (count : ℕ) (v : ℤ) (vs : List ℤ) (s : Stack)
    → Holds vs s
    → kstrtoint buf ≡ (pos 0, v)
    → let (ret, s') = push_store kstrtoint true buf count s in
      (ret ≡ pos count) × (pop_show s' ≡ (emitted v, s))
unfolding push_store pop_show stack_push stack_pop
pop_show-push_store kstrtoint buf count v vs s hs parsed = rw parsed (
  refl,
  ap (λ n. (emitted v, record { elements = s.elements; size = n })) (omega (arith, hs.size)),
)

-- The module's init, from nothing in sysfs: it returns 0 and leaves the directory with its files, or
-- it returns an error and leaves neither. In both cases the stack is empty.
pub kernel_stack_init_lem :
    (kobject : Bool) (group : ℤ) (k : Sysfs) (s : Stack)
    → k.directory ≡ false
    → k.files ≡ false
    → let (ret, k', s') = kernel_stack_init kobject group k s in
      Holds [] s'
      × (((ret ≡ pos 0) × (k'.directory ≡ true) × (k'.files ≡ true))
          ⊎ ((ret ≢ pos 0) × (k'.directory ≡ false) × (k'.files ≡ false)))
unfolding kernel_stack_init stack_sysfs_init stack_init
kernel_stack_init_lem false group k s no_dir no_files =
    (record { elements = refl; size = refl }, inr ((λ e. ground arith), no_dir, no_files))
kernel_stack_init_lem true group k s no_dir no_files = elim (Bool-cases (eqb_ℤ group (pos 0))) [
  | inl e ↦ rw e (record { elements = refl; size = refl }, inl (refl, refl, refl))
  | inr e ↦
      rw e
        (rw e (record { elements = refl; size = refl }, inr ((λ z. ground arith), refl, no_files)))
]
