-- ===== src/Search/Examples.antt =====
-- The theorems on the search over a table with one bucket that is kept as a list, and tests.
use otus_work.Base.{
  Bool, false, inl, none, ◌-◌, ℕ, zero, suc, ◌+◌, ◌*◌, ◌<◌, ◌≡◌, refl, sym, true, false, Option,
  some, List, [], ◌∷◌, ◌==◌, if◌then◌else◌, arith, ℕ_discrete,
}
use otus_work.Base.Int.{pos}
use otus_work.Kernel.Buckets.{Buckets, BucketsLaws}
use otus_work.Kernel.Hashtable.{contains, erase}
use otus_work.Kernel.Lists.{
  above, above_new, insertion, insertion-laws, insert, sort_list, first_equal,
}
use otus_work.Search.Table.{
  bs_ok, BucketSearchCtx, store, cmp_entry_ptr, cmp_key_entry, delete_all, clear, build_from,
  ht_build, ht_rebuild, collect_bucket, search_array, search_bucket, search_ctx, ht_search,
}
use otus_work.Search.Table.Find.{IsValid, Answered, ht_search_lem}
use otus_work.Search.Table.Build.{Rebuilt, ht_rebuild-IsValid}
use otus_work.Search.Table.Dump.{Format, ht_bucket_dump, dump_array, print_values, print_end}
use otus_work.Search.Params.{new_context, param_set_search, param_get_result, kernel_hashtable_init}
use otus_work.Kernel.Files.{Access, write, read, wrote, got, refused, access, accesses}
use otus_work.Search.Files.{
  Parameter, search, result, rebuild, bucket_id, bucket_dump, Given, parameters,
}
use otus_work.Search.Files.Result.{result_text, Reported, param_set_search-accesses}

abbrev one_bucket : Buckets
one_bucket = record {
  Table = List ℕ;
  hash_min = λ x bits. 0;
  init = [];
  add = λ k n t. n ∷ t;
  del = erase;
  nodes = λ t. t;
  bucket = λ b t. if b == 0 then t else [];
}

bucket_add :
    (n b : ℕ) (t : List ℕ)
    → one_bucket.bucket b (n ∷ t)
      ≡ (if 0 == b then n ∷ one_bucket.bucket b t else one_bucket.bucket b t)
bucket_add n zero t = refl
bucket_add n (suc b) t =
    let ne : (0 == suc b) ≡ false = ground arith in
    let ne' : (suc b == 0) ≡ false = ground arith in rw (ne, ne') refl

bucket_contains :
    (b n : ℕ) (t : List ℕ) → contains n (one_bucket.bucket b t) ≡ true → contains n t ≡ true
bucket_contains zero n t c = c
bucket_contains (suc b) n t c = ground arith

one_bucket-laws : BucketsLaws 6 one_bucket
one_bucket-laws = record {
  hash_min-lt = λ x. omega arith;
  nodes-init = refl;
  nodes-del = λ n t. refl;
  bucket-add = λ k n b t. bucket_add n b t;
  contains-bucket = bucket_contains;
  contains-nodes = λ n t c. (0, omega arith, c);
}

-- A new entry stands above those in the table.
abbrev random : ℕ → ℕ
random i = 7 + 4 * i

abbrev kmalloc : ℕ → List ℕ → Option ℕ
kmalloc i ns = some (above ns)

kmalloc_fresh : (i : ℕ) (ns : List ℕ) (n : ℕ) → kmalloc i ns ≡ some n → contains n ns ≡ false
kmalloc_fresh i ns n e = ground (arith, above_new ns)

program : Unit {0}
unfolding store cmp_entry_ptr cmp_key_entry delete_all clear build_from ht_build ht_rebuild
    collect_bucket search_array search_bucket search_ctx ht_search insert sort_list first_equal
program = tt

abbrev heap : ℕ → ℕ
heap n = if n == 16 then 7 else if n == 17 then 1 else 5

-- Three entries, of values 5, 1 and 7.
abbrev three : BucketSearchCtx one_bucket
three = record (new_context one_bucket 10 heap) { htable = 18 ∷ 17 ∷ 16 ∷ [] }

three_values : (n : ℕ) → heap n < 10
three_values n = ground arith

three-IsValid : IsValid one_bucket three
three-IsValid = record {
  member = λ b n c. elim (ℕ_discrete b 0) [
    | yes e ↦ (three_values n, sym e)
    | no ne ↦ absurd (ground arith)
  ];
}

search_test :
    ht_search one_bucket insertion true 7 (some three)
    ≡ (bs_ok, some (record three { last_found = 1; last_value = 7 }))
unfolding program
search_test = refl

ht_search_lem_example :
    Answered one_bucket true 7 three (ht_search one_bucket insertion true 7 (some three))
ht_search_lem_example =
    ht_search_lem one_bucket one_bucket-laws insertion insertion-laws true 7 three three-IsValid

ht_rebuild-IsValid_example :
    Rebuilt one_bucket one_bucket-laws random kmalloc three
      (ht_rebuild one_bucket random kmalloc (some three))
ht_rebuild-IsValid_example =
    ht_rebuild-IsValid one_bucket one_bucket-laws random kmalloc three kmalloc_fresh (omega arith)

-- One character per number.
abbrev fmt : Format
fmt = record {
  no_entry = λ b. b'-' ∷ [];
  head = λ b len. b'#' ∷ [];
  value = λ v. (b'0' + v) ∷ [];
  newline = 10 ∷ [];
}

dump_test :
    ht_bucket_dump one_bucket insertion fmt true (some three) 0 100
    ≡ (pos 5, b'#' ∷ b'1' ∷ b'5' ∷ b'7' ∷ 10 ∷ [])
unfolding program ht_bucket_dump dump_array print_values print_end
dump_test = refl

-- The number of one digit.
abbrev kstrtouint : List ℕ → Option ℕ
kstrtouint [] = none
kstrtouint (c ∷ cs) = some (c - b'0')

abbrev answers : Bool → Given
answers room = record { kmalloc_array = room; random = random; kmalloc = kmalloc }

abbrev session : List (Access Parameter Given)
session =
    write search (answers false) (b'3' ∷ [])
    ∷ write rebuild (answers true) (b'1' ∷ [])
    ∷ write bucket_id (answers true) (b'9' ∷ [])
    ∷ read bucket_dump (answers true)
    ∷ []

error_text : ℕ → List ℕ
error_text b = b'!' ∷ []

init_test : (kernel_hashtable_init one_bucket random kmalloc true 4 (λ n. 0)).0 ≡ pos 0
unfolding program kernel_hashtable_init
init_test = refl

param_set_search-accesses_example :
    let loaded = (kernel_hashtable_init one_bucket random kmalloc true 4 (λ n. 0)).1 in
    let g_ctx =
      (accesses (parameters one_bucket kstrtouint insertion fmt error_text) session loaded).1 in
    Reported one_bucket 3 g_ctx
      (param_set_search one_bucket kstrtouint insertion true (some (b'3' ∷ [])) g_ctx)
param_set_search-accesses_example =
    param_set_search-accesses one_bucket kstrtouint insertion one_bucket-laws insertion-laws fmt
      error_text (answers true) true 4 (λ n. 0) session (b'3' ∷ []) 3 kmalloc_fresh
      (kmalloc_fresh, (kmalloc_fresh, (kmalloc_fresh, (kmalloc_fresh, tt)))) init_test refl

-- The four entries have the value 3.
session_test :
    let loaded = (kernel_hashtable_init one_bucket random kmalloc true 4 (λ n. 0)).1 in
    (accesses
      (parameters one_bucket kstrtouint insertion fmt error_text)
      (write search (answers true) (b'3' ∷ [])
        ∷ read result (answers true)
        ∷ read search (answers true)
        ∷ [])
      loaded).0
    ≡ wrote (pos 0) ∷ got (inl (result_text 1 3 0)) ∷ refused ∷ []
unfolding program kernel_hashtable_init access accesses param_set_search param_get_result
session_test = refl
