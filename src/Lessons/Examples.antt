-- ===== src/Lessons/Examples.antt =====
-- The theorems of the lessons at concrete inputs, and tests.
use otus_work.Base.{inl, inr, ℕ, ◌+◌, ◌*◌, ◌≡◌, refl, Option, some, List, [], ◌∷◌, arith, replicate}
use otus_work.Base.Int.{ℤ, pos}
use otus_work.Kernel.{einval}
use otus_work.Kernel.Lists.{list_table, list_table-laws, above, above_new}
use otus_work.Kernel.Text.{strncpy, c_string}
use otus_work.Kernel.SwapSort.Model.{inserting, inserting-laws}
use otus_work.Lessons.Arrays.{Statics}
use otus_work.Kernel.Files.{Access, read, write, wrote, got, access, accesses}
use otus_work.Lessons.MyModule.Files.{
  Parameter, int_val, string_val, parameters, string_val_get-accesses,
}
use otus_work.Lessons.MyModule.{MyModule, int_val_set, int_val_get, string_val_set, string_val_get}
use otus_work.Lessons.SortList
use otus_work.Lessons.SortList.{IsSortedCopy, my_module_init_lem}
use otus_work.Lessons.BsearchList
use otus_work.Lessons.BsearchList.Laws.{Ends, my_module_init-Ends}
use otus_work.Lessons.Objects.{Objects, hashtable_module_init}
use otus_work.Lessons.Objects.Laws.{Allocates, Served, hashtable_module_init-Served}

-- Values that fall and wrap.
abbrev random : ℕ → ℕ
random i = 4_294_967_295 * (i + 1)

abbrev loaded : ℕ → Statics
loaded n = record { arr = replicate n 0; my_list = [] }

my_module_init_lem_example :
    let (ret, out, s') = SortList.my_module_init inserting random (loaded 100) in
    (ret ≡ pos 0) × IsSortedCopy out
my_module_init_lem_example =
    my_module_init_lem inserting inserting-laws random (loaded 100) refl refl

my_module_init-Ends_example :
    Ends
      (BsearchList.init_arr random (loaded 1000)).arr
      (BsearchList.my_module_init inserting random 966 (loaded 1000))
my_module_init-Ends_example =
    my_module_init-Ends inserting inserting-laws random 966 (loaded 1000) refl (omega arith)

abbrev kmalloc : List ℕ → Option ℕ
kmalloc ns = some (above ns)

kmalloc-Allocates : Allocates list_table list_table-laws kmalloc
kmalloc-Allocates ns = (above ns, refl, above_new ns)

abbrev no_objects : Objects list_table
no_objects = record { htable = []; heap = λ n. record { id = 0; name = [] } }

hashtable_module_init-Served_example :
    let (ret, out, s) = hashtable_module_init list_table kmalloc no_objects in
    Served list_table list_table-laws ret out s
hashtable_module_init-Served_example =
    hashtable_module_init-Served list_table list_table-laws kmalloc no_objects refl
      kmalloc-Allocates

abbrev fresh : MyModule
fresh = record { int_val = pos 10; string_val = replicate 64 0 }

abbrev hi : List ℕ
hi = b'H' ∷ b'i' ∷ []

string_val_test : string_val_get (string_val_set hi fresh).1 ≡ hi
unfolding string_val_set string_val_get strncpy c_string
string_val_test = refl

string_val_long_test : (string_val_set (replicate 64 b'a') fresh).0 ≡ einval
unfolding string_val_set
string_val_long_test = refl

-- A reader of one character.
abbrev kstrtoint : List ℕ → ℤ × ℤ
kstrtoint [] = (einval, pos 0)
kstrtoint (c ∷ cs) = (pos 0, pos c)

-- A text that is too long and a number are written before.
abbrev before : List (Access Parameter (Unit {0}))
before =
    write string_val tt (replicate 64 b'a')
    ∷ write int_val tt (b'7' ∷ [])
    ∷ write string_val tt hi
    ∷ read int_val tt
    ∷ []

before_test :
    (accesses (parameters kstrtoint) before fresh).0
    ≡ wrote einval
      ∷ wrote (pos 0)
      ∷ wrote (pos 0)
      ∷ got (inl (int_val_get (record fresh { int_val = pos b'7' })))
      ∷ []
unfolding access accesses string_val_set int_val_set int_val_get
before_test = refl

string_val_get-accesses_example :
    (accesses
      (parameters kstrtoint)
      (write string_val tt hi ∷ read string_val tt ∷ [])
      (accesses (parameters kstrtoint) before fresh).1).0
    ≡ wrote (pos 0) ∷ got (inr hi) ∷ []
string_val_get-accesses_example =
    string_val_get-accesses kstrtoint before fresh hi refl
      ((λ e. omega arith), ((λ e. omega arith), tt)) (omega arith)
