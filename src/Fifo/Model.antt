-- ===== src/Fifo/Model.antt =====
-- How a device stands for a queue of integers, and each operation of fifo_ops.c on such a device.
use otus_work.Base.{
  ℕ, zero, suc, ◌-◌, ◌*◌, ◌/◌, ◌<◌, ◌≤◌, ◌≡◌, refl, sym, ap, ◌∙◌, ◌==◌, Option, some, List, [], ◌∷◌,
  ◌++◌, length, take, drop, min, arith, length-append,
}
use mathlib.Core.List.{append-nil, append_assoc}
use otus_work.Base.Int.{ℤ, IsInt}
use otus_work.Kernel.Kfifo.{Kfifo, KfifoLaws, IntLayout}
use otus_work.Fifo.Ops.{entry_size, FifoDevice}

pub take-append_exact : (n : ℕ) (xs ys : List ℕ) → length xs ≡ n → take n (xs ++ ys) ≡ xs
take-append_exact zero [] ys h = refl
take-append_exact zero (x ∷ xs) ys h = absurd (omega arith)
take-append_exact (suc n) [] ys h = absurd (omega arith)
take-append_exact (suc n) (x ∷ xs) ys h = ap (λ t. x ∷ t) (take-append_exact n xs ys (omega arith))

pub drop-append_exact : (n : ℕ) (xs ys : List ℕ) → length xs ≡ n → drop n (xs ++ ys) ≡ ys
drop-append_exact zero [] ys h = refl
drop-append_exact zero (x ∷ xs) ys h = absurd (omega arith)
drop-append_exact (suc n) [] ys h = absurd (omega arith)
drop-append_exact (suc n) (x ∷ xs) ys h = drop-append_exact n xs ys (omega arith)

take_exact : (n : ℕ) (xs : List ℕ) → length xs ≡ n → take n xs ≡ xs
take_exact n xs h = ap (take n) (sym (append-nil xs)) ∙ take-append_exact n xs [] h

-- The values are values of an `int`.
abbrev pub AllInt : List ℤ → Type 0
AllInt [] = Unit {0}
AllInt (v ∷ vs) = IsInt v × AllInt vs

pub AllInt-append : (vs : List ℤ) (v : ℤ) → AllInt vs → IsInt v → AllInt (vs ++ v ∷ [])
AllInt-append [] v h i = (i, tt)
AllInt-append (w ∷ vs) v h i = (h.0, AllInt-append vs v h.1 i)

module _ (layout : IntLayout) where
  -- The bytes of a queue of integers.
  unfoldable pub encode_all : List ℤ → List ℕ
  encode_all [] = []
  encode_all (v ∷ vs) = layout.encode v ++ encode_all vs

  length-encode_all : (vs : List ℤ) → length (encode_all vs) ≡ entry_size * length vs
  unfolding encode_all
  length-encode_all [] = omega arith
  length-encode_all (v ∷ vs) = omega (
    arith,
    length-append (layout.encode v) (encode_all vs),
    layout.length-encode v,
    length-encode_all vs,
  )

  encode_all-append :
      (vs : List ℤ) (v : ℤ) → encode_all (vs ++ v ∷ []) ≡ encode_all vs ++ layout.encode v
  unfolding encode_all
  encode_all-append [] v = append-nil (layout.encode v)
  encode_all-append (w ∷ vs) v =
      ap (λ t. layout.encode w ++ t) (encode_all-append vs v)
      ∙ sym (append_assoc (layout.encode w) (encode_all vs) (layout.encode v))

module _ (k : Kfifo) (laws : KfifoLaws k) (layout : IntLayout) where
  -- The device holds the queue `vs`, and has room for `cap` integers in all.
  pub record Models (cap : ℕ) (vs : List ℤ) (d : FifoDevice k) : Type 0 where
    pub holds : laws.bytes d.queue ≡ encode_all layout vs
    pub room : laws.size d.queue ≡ entry_size * cap
    pub some_room : 0 < cap
    pub ints : AllInt vs

  -- A call's result: its answer, and a device that holds the queue after it.
  pub record Results (cap : ℕ) (r : ℤ × Option (FifoDevice k)) (ans : ℤ × List ℤ) : Type 0 where
    pub answers : r.0 ≡ ans.0
    pub after : FifoDevice k
    pub is_after : r.1 ≡ some after
    pub models : Models cap ans.1 after

  module _ {cap : ℕ} {vs : List ℤ} {d : FifoDevice k} (m : Models cap vs d) where
    bytes-length : length (laws.bytes d.queue) ≡ entry_size * length vs
    bytes-length = rw m.holds (length-encode_all layout vs)

    pub length-le-cap : length vs ≤ cap
    length-le-cap = omega (arith, bytes-length, laws.bytes-le-size d.queue, m.room)

    pub full : k.is_full d.queue ≡ (length vs == cap)
    full = rw (laws.is_full_lem d.queue, m.room, bytes-length) (ground (arith, length-le-cap))

    pub empty : k.is_empty d.queue ≡ (length vs == 0)
    empty = rw (laws.is_empty_lem d.queue, bytes-length) (ground arith)

    pub len_entries : k.len d.queue / entry_size ≡ length vs
    len_entries = rw (laws.len_lem d.queue, bytes-length) (omega arith)

    pub avail_entries : k.avail d.queue / entry_size ≡ cap - length vs
    avail_entries = rw (laws.avail_lem d.queue, m.room, bytes-length) (omega arith)

    -- With room for one more, the kernel's queue takes all four bytes.
    pub put_entry :
        (v : ℤ)
        → length vs < cap
        → ((k.put d.queue (layout.encode v)).0 ≡ entry_size)
          × (laws.bytes (k.put d.queue (layout.encode v)).1 ≡ encode_all layout (vs ++ v ∷ []))
          × (laws.size (k.put d.queue (layout.encode v)).1 ≡ laws.size d.queue)
    put_entry v h =
        let p = laws.put_lem d.queue (layout.encode v) in
        let n : min (length (layout.encode v)) (laws.size d.queue - length (laws.bytes d.queue))
            ≡ entry_size =
          omega (arith, layout.length-encode v, bytes-length, m.room) in
        (
          p.0 ∙ n,
          p.1
              ∙ rw (n, take_exact entry_size (layout.encode v) (layout.length-encode v), m.holds)
                  (sym (encode_all-append layout vs v)),
          p.2,
        )
