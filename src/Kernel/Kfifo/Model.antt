-- ===== src/Kernel/Kfifo/Model.antt =====
-- A queue of bytes that is kept as a list, and the bytes of an `int` from the lowest on: what is asked of the
-- kernel's queue and of the layout of an `int` can be met.
use otus_work.Base.{
  ℕ, ◌+◌, ◌-◌, ◌*◌, ◌/◌, ◌%◌, ◌^◌, ◌<◌, ◌≤◌, ◌≡◌, inl, inr, refl, sym, ap, ◌∙◌, if◌then◌else◌, none,
  some, List, [], ◌∷◌, ◌++◌, length, arith, get_or, ltb, leb, ◌==◌, take, drop, min, length-append,
  length-take, length-drop, Bool-cases, leb→le,
}
use mathlib.Core.Option.{some-injective}
use otus_work.Base.Int.{ℤ, pos, negsuc, IsInt}
use otus_work.Kernel.Kfifo.{Kfifo, KfifoLaws, IntLayout}

-- A buffer's size, and its bytes.
pub record Buffer : Type 0 where
  pub size : ℕ
  pub bytes : List ℕ
  pub fits : length bytes ≤ size

abbrev taken : Buffer → List ℕ → ℕ
taken q xs = min (length xs) (q.size - length q.bytes)

pub put_fits : (q : Buffer) (xs : List ℕ) → length (q.bytes ++ take (taken q xs) xs) ≤ q.size
put_fits q xs =
    omega (arith, q.fits, length-append q.bytes (take (taken q xs) xs), length-take (taken q xs) xs)

pub drop_fits : (q : Buffer) (n : ℕ) → length (drop n q.bytes) ≤ q.size
drop_fits q n = omega (arith, q.fits, length-drop n q.bytes)

pub nil_fits : (n : ℕ) → length {A = ℕ} [] ≤ n
nil_fits n = omega arith

-- A kernel queue of 16 bytes, for any size up to that.
abbrev pub kernel : Kfifo
kernel = record {
  Queue = Buffer;
  alloc =
      λ n. if leb n 16 then some (record { size = 16; bytes = []; fits = nil_fits 16 }) else none;
  is_full = λ q. leb q.size (length q.bytes);
  is_empty = λ q. length q.bytes == 0;
  put = λ q xs. (
    taken q xs,
    record { size = q.size; bytes = q.bytes ++ take (taken q xs) xs; fits = put_fits q xs },
  );
  out = λ q n.
      (take n q.bytes, record { size = q.size; bytes = drop n q.bytes; fits = drop_fits q n });
  out_peek = λ q n. take n q.bytes;
  len = λ q. length q.bytes;
  avail = λ q. q.size - length q.bytes;
  reset = λ q. record { size = q.size; bytes = []; fits = nil_fits q.size };
}

pub alloc_16 :
    (n : ℕ) (q : Buffer)
    → n < 2 ^ 32
    → kernel.alloc n ≡ some q
    → (q.bytes ≡ []) × (n ≤ q.size) × (e : ℕ) × (q.size ≡ 2 ^ e)
alloc_16 n q small e = elim (Bool-cases (leb n 16)) [
  | inl le ↦
      let same : some (record { size = 16; bytes = []; fits = nil_fits 16 }) ≡ some q =
        sym (rw le refl) ∙ e in
      let p = some-injective _ _ same in
      (
        sym (ap (λ b. b.bytes) p),
        omega (arith, leb→le n 16 le, ap (λ b. b.size) p),
        4,
        sym (ap (λ b. b.size) p),
      )
  | inr no_room ↦ absurd (ground arith)
]

abbrev pub laws : KfifoLaws kernel
laws = record {
  bytes = λ q. q.bytes;
  size = λ q. q.size;
  alloc_lem = alloc_16;
  bytes-le-size = λ q. q.fits;
  is_full_lem = λ q. refl;
  is_empty_lem = λ q. refl;
  put_lem = λ q xs. (refl, refl, refl);
  out_lem = λ q n. (refl, refl, refl);
  out_peek_lem = λ q n. refl;
  len_lem = λ q. refl;
  avail_lem = λ q. refl;
  reset_lem = λ q. (refl, refl);
}

-- The 32-bit word of an `int`, and its bytes, lowest first.
abbrev word : ℤ → ℕ
word (pos n) = n
word (negsuc n) = 2 ^ 32 - 1 - n

abbrev bytes_of : ℕ → List ℕ
bytes_of w = w % 256 ∷ w / 2 ^ 8 % 256 ∷ w / 2 ^ 16 % 256 ∷ w / 2 ^ 24 % 256 ∷ []

abbrev word_of : List ℕ → ℕ
word_of bs = get_or bs 0 0 + 2 ^ 8 * get_or bs 1 0 + 2 ^ 16 * get_or bs 2 0 + 2 ^ 24 * get_or bs 3 0

abbrev signed32 : ℕ → ℤ
signed32 w = if ltb w (2 ^ 31) then pos w else negsuc (2 ^ 32 - 1 - w)

pub word_of-bytes_of : (w : ℕ) → w < 2 ^ 32 → word_of (bytes_of w) ≡ w
word_of-bytes_of w h = omega arith

pub signed32-word : (v : ℤ) → IsInt v → signed32 (word v) ≡ v
signed32-word (pos n) h = ground arith
signed32-word (negsuc n) h = ground arith

pub word-lt : (v : ℤ) → IsInt v → word v < 2 ^ 32
word-lt (pos n) h = omega arith
word-lt (negsuc n) h = omega arith

abbrev pub little_endian : IntLayout
little_endian = record {
  encode = λ v. bytes_of (word v);
  decode = λ bs. signed32 (word_of bs);
  length-encode = λ v. refl;
  decode-encode = λ v h. ap signed32 (word_of-bytes_of (word v) (word-lt v h)) ∙ signed32-word v h;
}
