-- ===== src/Hello/Examples.antt =====
-- The theorem on a string of zeros, and a test.
use otus_work.Base.{ℕ, ◌≡◌, ◌≢◌, refl, none, some, List, [], ◌∷◌, replicate, arith}
use otus_work.Base.Int.{ℤ, pos, negsuc}
use otus_work.Base.{inr}
use otus_work.Kernel.Text.{c_string}
use otus_work.Kernel.Files.{Access, read, write, refused, wrote, got, access, accesses}
use otus_work.Hello.Files.{Parameter, my_str, idx, ch_val, setting, parameters}
use otus_work.Hello.Files.Safe.{IsSafe, accesses-IsSafe}
use otus_work.Hello.Params.{
  Params, einval, idx_param_set, my_str_param_get, write_char, update_hello_world, ch_val_param_set,
}
use otus_work.Hello.Spell.{spell, Reads, my_str_param_get-spell}
use otus_work.Hello.Laws.{IsText, Promised, ch_val_param_set_lem}

abbrev zeros : Params
zeros = record { my_str_param = replicate 256 0; idx = pos 0; ch_val = 0 }

zeros-IsText : IsText (replicate 256 0)
zeros-IsText = record { size = refl; ended = refl }

ch_val_param_set_lem_example : Promised (b'H' ∷ []) zeros
ch_val_param_set_lem_example = ch_val_param_set_lem (b'H' ∷ []) zeros zeros-IsText

negative_test : ch_val_param_set (b'H' ∷ []) (record zeros { idx = negsuc 0 }) ≡ none
unfolding ch_val_param_set update_hello_world write_char
negative_test = refl

-- The digits of an index are one byte here.
abbrev digits : ℕ → List ℕ
digits i = i ∷ []

abbrev kstrtoint : List ℕ → ℤ × ℤ
kstrtoint [] = (negsuc 21, pos 0)
kstrtoint (c ∷ cs) = (pos 0, pos c)

abbrev hi : List ℕ
hi = b'H' ∷ b'i' ∷ []

my_str_param_get-spell_example :
    Reads kstrtoint digits (λ i small. refl) hi (spell kstrtoint digits 0 hi zeros)
my_str_param_get-spell_example =
    my_str_param_get-spell kstrtoint digits (λ i small. refl) hi zeros refl (omega arith)
      ((λ e. omega arith), ((λ e. omega arith), tt))

abbrev hello_accesses : List (Access Parameter (Unit {0}))
hello_accesses =
    write ch_val tt (b'H' ∷ [])
    ∷ write my_str tt hi
    ∷ write idx tt (1 ∷ [])
    ∷ write ch_val tt (b'i' ∷ [])
    ∷ write ch_val tt hi
    ∷ read my_str tt
    ∷ []

accesses_test :
    (accesses (parameters kstrtoint) hello_accesses (some zeros)).0
    ≡ wrote (pos 0)
      ∷ refused
      ∷ wrote (pos 0)
      ∷ wrote (pos 0)
      ∷ wrote einval
      ∷ got (some (inr hi))
      ∷ []
unfolding access accesses setting ch_val_param_set idx_param_set update_hello_world write_char
    my_str_param_get c_string
accesses_test = refl

not_negative : (n : ℕ) → kstrtoint (1 ∷ []) ≢ (pos 0, negsuc n)
not_negative n e = cc

accesses-IsSafe_example :
    IsSafe kstrtoint (accesses (parameters kstrtoint) hello_accesses (some zeros)).1
accesses-IsSafe_example =
    accesses-IsSafe kstrtoint hello_accesses zeros zeros-IsText refl
      (tt, (tt, ((λ n e. not_negative n e), (tt, (tt, (tt, tt))))))
