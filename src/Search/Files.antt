-- ===== src/Search/Files.antt =====
-- The parameters that Linux_kernel/HW_06_binary_hashtable/src/params.c registers: the operations and the
-- mode of each. A read gives what the operation printed, in pieces or as bytes.
pub mod Keeps
pub mod Serving
pub mod Result
use otus_work.Base.{ℕ, Bool, true, Option, none, some, List, ◌⊎◌, inl, inr}
use otus_work.Base.Int.{ℤ}
use otus_work.Kernel.{Reply}
use otus_work.Kernel.Files.{File}
use otus_work.Kernel.Buckets.{Buckets}
use otus_work.Kernel.Sort.{Sort}
use otus_work.Search.Table.{BucketSearchCtx}
use otus_work.Search.Table.Dump.{Format}
use otus_work.Search.Params.{
  param_set_search, param_get_result, param_set_rebuild, param_set_bucket_id, param_get_bucket_dump,
}

pub data Parameter : Type 0 where
  search result rebuild bucket_id bucket_dump : Parameter

-- What the kernel gives while an operation runs: the answer of `kmalloc_array`, random numbers, and the
-- addresses of new entries.
pub record Given : Type 0 where
  pub kmalloc_array : Bool
  pub random : ℕ → ℕ
  pub kmalloc : ℕ → List ℕ → Option ℕ

module _ (h : Buckets) where
  abbrev pub ContextFile : Type 0
  ContextFile = File Given (Option (BucketSearchCtx h)) (Reply ⊎ (ℤ × List ℕ))

  module _ (kstrtouint : List ℕ → Option ℕ) where
    abbrev pub param_ops_search : Sort → ContextFile
    param_ops_search srt = record {
      set = some (λ env val c. param_set_search h kstrtouint srt env.kmalloc_array (some val) c);
      get = none;
      mode = 0o220;
    }

    abbrev pub param_ops_rebuild : ContextFile
    param_ops_rebuild = record {
      set = some (λ env val c. param_set_rebuild h kstrtouint env.random env.kmalloc (some val) c);
      get = none;
      mode = 0o220;
    }

    abbrev pub param_ops_bucket_id : ContextFile
    param_ops_bucket_id = record {
      set = some (λ env val c. param_set_bucket_id h kstrtouint (some val) c);
      get = none;
      mode = 0o220;
    }

  abbrev pub param_ops_result : ContextFile
  param_ops_result = record {
    set = none;
    get = some (λ env c. (inl (param_get_result h true c), c));
    mode = 0o440;
  }

  abbrev pub param_ops_bucket_dump : Sort → Format → (ℕ → List ℕ) → ContextFile
  param_ops_bucket_dump srt fmt error_text = record {
    set = none;
    get =
        some
          (λ env c. (inr (param_get_bucket_dump h srt fmt error_text env.kmalloc_array true c), c));
    mode = 0o440;
  }

  abbrev pub parameters :
      (List ℕ → Option ℕ) → Sort → Format → (ℕ → List ℕ) → Parameter → ContextFile
  parameters kstrtouint srt fmt error_text search = param_ops_search kstrtouint srt
  parameters kstrtouint srt fmt error_text result = param_ops_result
  parameters kstrtouint srt fmt error_text rebuild = param_ops_rebuild kstrtouint
  parameters kstrtouint srt fmt error_text bucket_id = param_ops_bucket_id kstrtouint
  parameters kstrtouint srt fmt error_text bucket_dump = param_ops_bucket_dump srt fmt error_text
