-- ===== src/Traffic/Events.antt =====
-- The two return handlers over a sequence of events, against plain sums.
use otus_work.Base.{
  ℕ, ◌+◌, ◌%◌, ◌<◌, ◌≡◌, ◌≢◌, inl, inr, sym, ap, ◌∙◌, Bool, true, false, ◌&&◌, not, Option, none,
  some, List, [], ◌∷◌, ◌==◌, if◌then◌else◌, arith, ltb, Bool-cases,
}
use mathlib.Core.Path.{ap₂}
use otus_work.Base.Int.{ℤ, pos, negsuc, ltb_ℤ, pos_part, IsInt}
use otus_work.Kernel.Hashtable.{Hashtable, HashtableLaws, contains}
use otus_work.Traffic.Stats.{u64_mod, Stats, stats_record_traffic}
use otus_work.Traffic.Stats.Lookup.{lookup}
use otus_work.Traffic.Stats.Record.{IsNew, added, begun, stats_record_traffic_lem}
use otus_work.Traffic.Probe.{SendData, RecvData, send_ret_handler, recv_ret_handler}
use otus_work.Traffic.Laws.{lookup-nil}

-- A return of a probed function: `tcp_sendmsg` with what it returned, or `tcp_cleanup_rbuf`.
pub data Event : Type 0 where
  sent : ℕ → SendData → Event
  received : RecvData → Event

-- The values that the C types can hold.
abbrev pub IsTyped : Event → Type 0
IsTyped (sent retval d) = retval < u64_mod
IsTyped (received d) = IsInt d.copied

abbrev pub AllTyped : List Event → Type 0
AllTyped [] = Unit {0}
AllTyped (e ∷ es) = IsTyped e × AllTyped es

-- The totals of one pair, received and sent, as numbers without a bound.
abbrev pub grown : Bool → ℕ → Option (ℕ × ℕ) → Option (ℕ × ℕ)
grown true bytes none = some (0, bytes)
grown false bytes none = some (bytes, 0)
grown true bytes (some (recv, send)) = some (recv, send + bytes)
grown false bytes (some (recv, send)) = some (recv + bytes, send)

unfoldable pub tally : ℕ → ℕ → Event → Option (ℕ × ℕ) → Option (ℕ × ℕ)
tally p q (sent retval d) c =
    if (ltb 0 retval && (not (d.saddr == 0) && not (d.daddr == 0)))
      && ((p == d.saddr) && (q == d.daddr))
    then grown true retval c
    else c
tally p q (received d) c =
    if (ltb_ℤ (pos 0) d.copied && (not (d.saddr == 0) && not (d.daddr == 0)))
      && ((p == d.saddr) && (q == d.daddr))
    then grown false (pos_part d.copied) c
    else c

unfoldable pub totals : ℕ → ℕ → List Event → Option (ℕ × ℕ) → Option (ℕ × ℕ)
totals p q [] c = c
totals p q (e ∷ es) c = totals p q es (tally p q e c)

-- The totals as 64-bit counters show them.
abbrev pub wrapped : Option (ℕ × ℕ) → Option (ℕ × ℕ)
wrapped none = none
wrapped (some (recv, send)) = some (recv % u64_mod, send % u64_mod)

-- What `stats_record_traffic` makes of counters.
abbrev counted_for : Bool → ℕ → Option (ℕ × ℕ) → Option (ℕ × ℕ)
counted_for is_send bytes none = some (begun is_send bytes)
counted_for is_send bytes (some c) = some (added is_send bytes c)

wrapped-grown :
    (is_send : Bool) (bytes : ℕ) (c : Option (ℕ × ℕ))
    → bytes < u64_mod
    → counted_for is_send bytes (wrapped c) ≡ wrapped (grown is_send bytes c)
wrapped-grown true bytes none small = ap (λ n. some (0, n)) (omega arith)
wrapped-grown false bytes none small = ap (λ n. some (n, 0)) (omega arith)
wrapped-grown true bytes (some (recv, send)) small =
    ap (λ n. some (recv % u64_mod, n)) (omega arith)
wrapped-grown false bytes (some (recv, send)) small =
    ap (λ n. some (n, send % u64_mod)) (omega arith)

-- The same, as `Counted` says it.
wrapped-counted :
    (is_send : Bool) (bytes : ℕ) (c : Option (ℕ × ℕ))
    → bytes < u64_mod
    → (elim (wrapped c) as (λ x. Option (ℕ × ℕ)) [
      | none ↦ some (begun is_send bytes)
      | some n ↦ some (added is_send bytes n)
    ])
      ≡ wrapped (grown is_send bytes c)
wrapped-counted is_send bytes none small = wrapped-grown is_send bytes none small
wrapped-counted is_send bytes (some n) small = wrapped-grown is_send bytes (some n) small

eq_left : (p a : ℕ) (b : Bool) → ((p == a) && b) ≡ true → p ≡ a
eq_left p a b e = ground arith

eq_right : (q a : ℕ) (b : Bool) → (b && (q == a)) ≡ true → q ≡ a
eq_right q a b e = ground arith

copied_small : (v : ℤ) → IsInt v → pos_part v < u64_mod
copied_small (pos n) typed = omega arith
copied_small (negsuc n) typed = omega arith

module _ (h : Hashtable) (laws : HashtableLaws h) (kmalloc : List ℕ → Option ℕ) where
  -- The handler of an event, and those of a sequence.
  unfoldable pub handle : Event → Stats h → Stats h
  handle (sent retval d) s = send_ret_handler h (kmalloc (h.nodes s.table)) retval d s
  handle (received d) s = recv_ret_handler h (kmalloc (h.nodes s.table)) d s

  unfoldable pub handle_all : List Event → Stats h → Stats h
  handle_all [] s = s
  handle_all (e ∷ es) s = handle_all es (handle e s)

  -- An allocation never fails, and gives no address of an entry in the table.
  abbrev pub Allocates : Type 0
  Allocates = (ns : List ℕ) → (n : ℕ) × (kmalloc ns ≡ some n) × (contains n ns ≡ false)

  module _ (allocates : Allocates) where
    IsNew-kmalloc : (s : Stats h) → IsNew h s (kmalloc (h.nodes s.table))
    IsNew-kmalloc s = let (n, e, fresh) = allocates (h.nodes s.table) in rw e fresh

    never_none : (s : Stats h) → kmalloc (h.nodes s.table) ≢ none
    never_none s z = let (n, e, fresh) = allocates (h.nodes s.table) in cc

    -- To count bytes for a pair adds them to its totals.
    count_pair :
        (saddr daddr : ℕ) (is_send : Bool) (bytes : ℕ) (s : Stats h) (p q : ℕ) (c : Option (ℕ × ℕ))
        → bytes < u64_mod
        → lookup h s p q ≡ wrapped c
        → lookup h
            (stats_record_traffic h (kmalloc (h.nodes s.table)) saddr daddr is_send bytes s)
            p
            q
          ≡ wrapped (if (p == saddr) && (q == daddr) then grown is_send bytes c else c)
    count_pair saddr daddr is_send bytes s p q c small e =
        elim (stats_record_traffic_lem h laws saddr daddr is_send bytes s
          (kmalloc (h.nodes s.table)) (IsNew-kmalloc s)) [
            | inr (z, _, _) ↦ absurd (never_none s z)
            | inl counted ↦ elim (Bool-cases ((p == saddr) && (q == daddr))) [
              | inr other ↦ counted p q ∙ rw other e
              | inl same ↦
                  let here : lookup h s saddr daddr ≡ wrapped c =
                    ap₂ (lookup h s) (sym (eq_left p saddr (q == daddr) same))
                      (sym (eq_right q daddr (p == saddr) same))
                    ∙ e in
                  counted p q ∙ rw (same, here) (wrapped-counted is_send bytes c small)
            ]
          ]

    handle-tally :
        (e : Event) (s : Stats h) (p q : ℕ) (c : Option (ℕ × ℕ))
        → IsTyped e
        → lookup h s p q ≡ wrapped c
        → lookup h (handle e s) p q ≡ wrapped (tally p q e c)
    unfolding handle tally send_ret_handler recv_ret_handler
    handle-tally (sent retval d) s p q c typed e =
        elim (Bool-cases (ltb 0 retval && (not (d.saddr == 0) && not (d.daddr == 0)))) [
          | inl go ↦ rw go (count_pair d.saddr d.daddr true retval s p q c typed e)
          | inr stop ↦ rw stop e
        ]
    handle-tally (received d) s p q c typed e =
        elim (Bool-cases (ltb_ℤ (pos 0) d.copied && (not (d.saddr == 0) && not (d.daddr == 0)))) [
          | inl go ↦ rw go (
              count_pair d.saddr d.daddr false (pos_part d.copied) s p q c
                (copied_small d.copied typed) e)
          | inr stop ↦ rw stop e
        ]

    handle_all-totals :
        (es : List Event) (s : Stats h) (p q : ℕ) (c : Option (ℕ × ℕ))
        → AllTyped es
        → lookup h s p q ≡ wrapped c
        → lookup h (handle_all es s) p q ≡ wrapped (totals p q es c)
    unfolding handle_all totals
    handle_all-totals [] s p q c typed e = e
    handle_all-totals (ev ∷ es) s p q c typed e =
        handle_all-totals es (handle ev s) p q (tally p q ev c) typed.1
          (handle-tally ev s p q c typed.0 e)

    -- From a table with no node, after any returns of the probed functions, the counters that the code
    -- finds for a pair are the sums of the bytes that were received and sent by it, over the returns
    -- that count, modulo 2 ^ 64, and it finds none exactly where no return counts for the pair. A
    -- return counts where its number of bytes is positive and both addresses are set. What the
    -- returns carry fits its C types, an allocation never fails and gives no address of an entry
    -- in the table, and the kernel's table does as documented.
    pub lookup-handle_all :
        (es : List Event) (s : Stats h) (p q : ℕ)
        → AllTyped es
        → h.nodes s.table ≡ []
        → lookup h (handle_all es s) p q ≡ wrapped (totals p q es none)
    lookup-handle_all es s p q typed empty =
        handle_all-totals es s p q none typed (lookup-nil h laws s p q empty)
