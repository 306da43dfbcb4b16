-- ===== src/Lessons/Objects/Laws.antt =====
-- What the object table of hashtable_example finds.
use otus_work.Base.{
  ℕ, ◌≡◌, inl, inr, refl, sym, ap, ◌∙◌, true, false, Option, none, some, List, [], ◌∷◌, take, ◌==◌,
  if◌then◌else◌, arith, ==_yes, ==_no, ℕ_discrete, Bool-cases,
}
use mathlib.Core.Bool.{false≢true}
use otus_work.Base.Int.{ℤ, pos}
use otus_work.Kernel.Hashtable.{Hashtable, HashtableLaws, contains, erase}
use otus_work.Lessons.Objects.{
  Object, store, find_id, Objects, add_object, add_all, objs, add_objects, print_object_by_key,
  delete_objects, free_all_objects, Loaded, hashtable_module_init, hashtable_module_exit,
}

find_id-store :
    (n key : ℕ) (o : Object) (heap : ℕ → Object) (ns : List ℕ)
    → contains n ns ≡ false
    → find_id (store n o heap) key ns ≡ find_id heap key ns
unfolding find_id store
find_id-store n key o heap [] out = refl
find_id-store n key o heap (m ∷ ns) out = elim (ℕ_discrete n m) [
  | yes e ↦ absurd (false≢true (sym out ∙ rw (==_yes (sym e)) refl))
  | no ne ↦ rw (==_no ne) (rw (find_id-store n key o heap ns (ground arith)) refl)
]

find_id-nil :
    (heap : ℕ → Object) (key : ℕ) (ns : List ℕ)
    → ((n : ℕ) → contains n ns ≡ true → ⊥)
    → find_id heap key ns ≡ none
unfolding find_id
find_id-nil heap key [] none_there = refl
find_id-nil heap key (n ∷ ns) none_there = absurd (none_there n (ground arith))

-- What the last of the objects with an id has as its name, or `d` where none has the id.
unfoldable pub newest : ℕ → List (ℕ × List ℕ) → Option (List ℕ) → Option (List ℕ)
newest key [] d = d
newest key ((id, name) ∷ os) d = newest key os (if id == key then some (take 15 name) else d)

module _ (h : Hashtable) (laws : HashtableLaws h) where
  not_possible :
      (n key : ℕ) (t : h.Table)
      → contains n (h.nodes t) ≡ false
      → contains n (h.possible key t) ≡ false
  not_possible n key t out = elim (Bool-cases (contains n (h.possible key t))) [
    | inr e ↦ e
    | inl e ↦ absurd (false≢true (sym out ∙ laws.contains-possible key n t e))
  ]

  find_id-add :
      (n id : ℕ) (name : List ℕ) (heap : ℕ → Object) (t : h.Table) (key : ℕ)
      → contains n (h.nodes t) ≡ false
      → find_id (store n (record { id = id; name = name }) heap) key (h.possible key (h.add id n t))
        ≡ (if id == key then some name else find_id heap key (h.possible key t))
  unfolding find_id store
  find_id-add n id name heap t key fresh =
      let o : Object = record { id = id; name = name } in
      let old = find_id-store n key o heap (h.possible key t) (not_possible n key t fresh) in
      elim (laws.possible-add id key n t) [
        | inl e ↦ rw e (rw (==_yes {a = n} refl) (rw old refl))
        | inr (ne, e) ↦ rw e (rw (==_no {a = id} (λ z. ne (sym z))) old)
      ]

  -- An object that is added is found under its id, and under the other ids what was found before.
  print_object_by_key-add_object :
      (kmalloc : List ℕ → Option ℕ) (n id : ℕ) (name : List ℕ) (s : Objects h) (key : ℕ)
      → kmalloc (h.nodes s.htable) ≡ some n
      → contains n (h.nodes s.htable) ≡ false
      → print_object_by_key h key (add_object h kmalloc id name s)
        ≡ (if id == key then some (take 15 name) else print_object_by_key h key s)
  unfolding print_object_by_key add_object
  print_object_by_key-add_object kmalloc n id name s key got fresh =
      rw (got, add_object) (find_id-add n id (take 15 name) s.heap s.htable key fresh)

  -- An allocation never fails, and gives no address of a node that is in the table.
  abbrev pub Allocates : (List ℕ → Option ℕ) → Type 0
  Allocates kmalloc = (ns : List ℕ) → (n : ℕ) × (kmalloc ns ≡ some n) × (contains n ns ≡ false)

  print_object_by_key-add_all :
      (kmalloc : List ℕ → Option ℕ) (os : List (ℕ × List ℕ)) (s : Objects h) (key : ℕ)
      → Allocates kmalloc
      → print_object_by_key h key (add_all h kmalloc os s)
        ≡ newest key os (print_object_by_key h key s)
  unfolding add_all newest
  print_object_by_key-add_all kmalloc [] s key allocates = refl
  print_object_by_key-add_all kmalloc ((id, name) ∷ os) s key allocates =
      let (n, got, fresh) = allocates (h.nodes s.htable) in
      print_object_by_key-add_all kmalloc os (add_object h kmalloc id name s) key allocates
      ∙ ap (newest key os) (print_object_by_key-add_object kmalloc n id name s key got fresh)

  delete_objects-nodes :
      (ns : List ℕ) (t : h.Table) → h.nodes t ≡ ns → h.nodes (delete_objects h ns t) ≡ []
  unfolding delete_objects
  delete_objects-nodes [] t e = e
  delete_objects-nodes (n ∷ ns) t e =
      delete_objects-nodes ns (h.del n t)
        (laws.nodes-del n t ∙ ap (erase n) e ∙ rw (==_yes {a = n} refl) refl)

  empty_lookup :
      (s : Objects h) (key : ℕ) → h.nodes s.htable ≡ [] → print_object_by_key h key s ≡ none
  unfolding print_object_by_key
  empty_lookup s key e =
      find_id-nil s.heap key (h.possible key s.htable)
        λ n c. false≢true (sym (ap (contains n) e) ∙ laws.contains-possible key n s.htable c)

  -- What the module leaves behind and prints: under each key the name of the last object that the
  -- program gives that id, and nothing under the others; "obj1" under 1 and nothing under 5; and
  -- its exit frees each object of the table once and leaves a table with none.
  pub record Served (ret : ℤ) (out : Loaded h) (s : Objects h) : Type 0 where
    pub returned : ret ≡ pos 0
    pub found : (key : ℕ) → print_object_by_key h key s ≡ newest key (objs h) none
    pub obj1 : out.under_1 ≡ some (b'o' ∷ b'b' ∷ b'j' ∷ b'1' ∷ [])
    pub none_5 : out.under_5 ≡ none
    pub freed : (hashtable_module_exit h s).1 ≡ h.nodes s.htable
    pub none_left : h.nodes (hashtable_module_exit h s).0.htable ≡ []

  -- From a table with no object, where no allocation fails and none gives the address of an object in
  -- the table, the init returns 0 and leaves a table in which a key finds the name of the last
  -- object with that id, cut to 15 bytes, and nothing where no object has it; it finds "obj1" under
  -- 1 and nothing under 5. The exit then frees each object of the table and leaves none. The
  -- kernel's table does as documented.
  pub hashtable_module_init-Served :
      (kmalloc : List ℕ → Option ℕ) (s : Objects h)
      → h.nodes s.htable ≡ []
      → Allocates kmalloc
      → let (ret, out, s') = hashtable_module_init h kmalloc s in Served ret out s'
  unfolding hashtable_module_init hashtable_module_exit free_all_objects add_objects
  hashtable_module_init-Served kmalloc s empty allocates =
      let found : (key : ℕ)
          → print_object_by_key h key (add_all h kmalloc (objs h) s) ≡ newest key (objs h) none =
        λ key.
          print_object_by_key-add_all kmalloc (objs h) s key allocates
          ∙ ap (newest key (objs h)) (empty_lookup s key empty) in
      let s' = add_all h kmalloc (objs h) s in
      record {
        returned = refl;
        found = found;
        obj1 = found 1 ∙ (unfold newest in refl);
        none_5 = found 5 ∙ (unfold newest in refl);
        freed = refl;
        none_left = delete_objects-nodes (h.nodes s'.htable) s'.htable refl;
      }
