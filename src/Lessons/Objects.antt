-- ===== src/Lessons/Objects.antt =====
-- Linux_kernel/Lesson 12/hashtable_example-510203-42ce9b.c: objects in a hash table of the kernel, found by
-- their ids. The table holds addresses of objects, which live in the heap of the state. The ids of
-- the program are not negative.
pub mod Laws
use otus_work.Base.{ℕ, ◌==◌, Option, none, some, List, [], ◌∷◌, map, take, if◌then◌else◌}
use otus_work.Base.Int.{ℤ, pos}
use otus_work.Kernel.Hashtable.{Hashtable}

pub record Object : Type 0 where
  pub id : ℕ
  pub name : List ℕ

-- A write of one object.
unfoldable pub store : ℕ → Object → (ℕ → Object) → ℕ → Object
store p o heap q = if p == q then o else heap q

-- The loop of `print_object_by_key` over the nodes of a bucket.
unfoldable pub find_id : (ℕ → Object) → ℕ → List ℕ → Option (List ℕ)
find_id heap key [] = none
find_id heap key (n ∷ ns) = if (heap n).id == key then some (heap n).name else find_id heap key ns

module _ (h : Hashtable) where
  pub record Objects : Type 0 where
    pub htable : h.Table
    pub heap : ℕ → Object

  -- `kmalloc` gives the address of the object, or `none`, and may look at the nodes in the table;
  -- `snprintf` keeps 15 bytes of the name.
  unfoldable pub add_object : (List ℕ → Option ℕ) → ℕ → List ℕ → Objects → Objects
  unfolding store
  add_object kmalloc id name s = elim (kmalloc (h.nodes s.htable)) [
    | none ↦ s
    | some n ↦ record {
      htable = h.add id n s.htable;
      heap = store n (record { id = id; name = take 15 name }) s.heap;
    }
  ]

  -- The loop of `add_objects` over an array of ids and names.
  unfoldable pub add_all : (List ℕ → Option ℕ) → List (ℕ × List ℕ) → Objects → Objects
  add_all kmalloc [] s = s
  add_all kmalloc ((id, name) ∷ objs) s = add_all kmalloc objs (add_object kmalloc id name s)

  -- "obj1", "obj2", "obj3" and "obj9"
  abbrev pub objs : List (ℕ × List ℕ)
  objs =
      (1, b'o' ∷ b'b' ∷ b'j' ∷ b'1' ∷ [])
      ∷ (2, b'o' ∷ b'b' ∷ b'j' ∷ b'2' ∷ [])
      ∷ (3, b'o' ∷ b'b' ∷ b'j' ∷ b'3' ∷ [])
      ∷ (9, b'o' ∷ b'b' ∷ b'j' ∷ b'9' ∷ [])
      ∷ []

  unfoldable pub add_objects : (List ℕ → Option ℕ) → Objects → Objects
  unfolding add_all
  add_objects kmalloc s = add_all kmalloc objs s

  -- The name that is printed, or `none` where the key is not found.
  unfoldable pub print_object_by_key : ℕ → Objects → Option (List ℕ)
  unfolding find_id
  print_object_by_key key s = find_id s.heap key (h.possible key s.htable)

  -- The ids and names that are printed, in the order of a visit.
  unfoldable pub print_all_buckets : Objects → List Object
  print_all_buckets s = map s.heap (h.nodes s.htable)

  unfoldable pub delete_objects : List ℕ → h.Table → h.Table
  delete_objects [] t = t
  delete_objects (n ∷ ns) t = delete_objects ns (h.del n t)

  -- The second part is the addresses that were freed, in order.
  unfoldable pub free_all_objects : Objects → Objects × List ℕ
  unfolding delete_objects
  free_all_objects s =
      (record s { htable = delete_objects (h.nodes s.htable) s.htable }, h.nodes s.htable)

  -- What the init prints: all objects, and what it finds under 1 and under 5.
  pub record Loaded : Type 0 where
    pub all : List Object
    pub under_1 : Option (List ℕ)
    pub under_5 : Option (List ℕ)

  unfoldable pub hashtable_module_init : (List ℕ → Option ℕ) → Objects → ℤ × Loaded × Objects
  hashtable_module_init kmalloc s =
      let s' = add_objects kmalloc s in
      (
        pos 0,
        record {
          all = print_all_buckets s';
          under_1 = print_object_by_key 1 s';
          under_5 = print_object_by_key 5 s';
        },
        s',
      )

  unfoldable pub hashtable_module_exit : Objects → Objects × List ℕ
  unfolding free_all_objects
  hashtable_module_exit s = free_all_objects s
