-- ===== src/Traffic/Stats.antt =====
-- Linux_kernel/final_work_kprobe/src/stats.c. The table holds pointers to entries, which live in the
-- heap of the state; the code's static table and that heap are passed in and returned. Each
-- operation that changes the table holds `stats_lock`, so it is one step. `stats_get_top` gives the lock
-- back once it has the pointers; what it reads of the entries then is a parameter.
pub mod Lookup
pub mod Record
use otus_work.Base.{
  ℕ, suc, ◌+◌, ◌-◌, ◌*◌, ◌%◌, ◌^◌, Bool, ◌&&◌, Option, none, some, List, [], ◌∷◌, ◌++◌, ◌==◌, ltb,
  if◌then◌else◌, bit_or, take, length,
}
use otus_work.Base.Int.{ℤ, pos, negsuc, pos_part, ltb_ℤ}
use otus_work.Kernel.{page_size}
use otus_work.Kernel.Hashtable.{Hashtable}
use otus_work.Kernel.LiveSort.{LiveSort}

-- `u64` and `size_t` wrap at this value.
abbrev pub u64_mod : ℕ
u64_mod = 2 ^ 64

abbrev pub max_top_addrs : ℕ
max_top_addrs = 100

pub record AddrStat : Type 0 where
  pub saddr : ℕ
  pub daddr : ℕ
  pub recv_bytes : ℕ
  pub send_bytes : ℕ

-- `((u64)saddr << 32) | (u32)daddr`
abbrev pub pair_key : ℕ → ℕ → ℕ
pair_key saddr daddr = bit_or (saddr * 2 ^ 32 % u64_mod) daddr

-- A write of one heap cell.
unfoldable pub store : ℕ → AddrStat → (ℕ → AddrStat) → ℕ → AddrStat
store p e heap q = if p == q then e else heap q

-- The loop of `stats_record_traffic` over the nodes of a bucket.
unfoldable pub find_pair : (ℕ → AddrStat) → ℕ → ℕ → List ℕ → Option ℕ
find_pair heap saddr daddr [] = none
find_pair heap saddr daddr (n ∷ ns) =
    if ((heap n).saddr == saddr) && ((heap n).daddr == daddr)
    then some n
    else find_pair heap saddr daddr ns

-- `entry->send_bytes += bytes` or `entry->recv_bytes += bytes`
unfoldable pub count_bytes : Bool → ℕ → AddrStat → AddrStat
count_bytes is_send bytes e =
    if is_send
    then record e { send_bytes = (e.send_bytes + bytes) % u64_mod }
    else record e { recv_bytes = (e.recv_bytes + bytes) % u64_mod }

unfoldable pub total_bytes : AddrStat → ℕ
total_bytes s = (s.recv_bytes + s.send_bytes) % u64_mod

unfoldable pub cmp_bytes_desc : (ℕ → AddrStat) → ℕ → ℕ → ℤ
cmp_bytes_desc heap a b =
    if ltb (total_bytes (heap a)) (total_bytes (heap b))
    then pos 1
    else if ltb (total_bytes (heap b)) (total_bytes (heap a))
    then negsuc 0
    else pos 0

-- `scnprintf` into what is left of a buffer of `len` bytes: all but the last byte can be written.
abbrev pub fitting : ℕ → List ℕ → List ℕ
fitting size line = take (size - 1) line

-- The printing loop of `stats_get_top`. `line` is the text of an entry, and `out` what the buffer
-- holds, whose length is `pos`.
unfoldable pub print_lines : (AddrStat → List ℕ) → ℕ → List AddrStat → List ℕ → List ℕ
print_lines line len [] out = out
print_lines line len (e ∷ es) out =
    let written = fitting (len - length out) (line e) in
    let rest : List ℕ = print_lines line len es (out ++ written) in
    if ltb (length out) len then if length written == 0 then out else rest else out

-- What `stats_get_top` reads of the entries after it has given the lock back, while more bytes may be
-- counted: at each comparison of the sort, and for each line that it prints.
pub record Live : Type 0 where
  pub compared : ℕ → ℕ → AddrStat
  pub printed : ℕ → ℕ → AddrStat

-- The entries of so many lines, from the line `i` on.
unfoldable pub read_entries : (ℕ → ℕ → AddrStat) → ℕ → List ℕ → List AddrStat
read_entries printed i [] = []
read_entries printed i (n ∷ ns) = printed i n ∷ read_entries printed (suc i) ns

-- `top_n` after the test against `count`
unfoldable pub limited : ℤ → ℕ → ℤ
limited top_n count = if ltb_ℤ (pos count) top_n then pos count else top_n

-- The loop over the chosen entries. Where it makes no round the buffer keeps its text.
unfoldable pub print_top : (AddrStat → List ℕ) → ℕ → List AddrStat → List ℕ → List ℕ
unfolding print_lines
print_top line len [] buf = buf
print_top line len (e ∷ es) buf = if ltb 0 len then print_lines line len (e ∷ es) [] else buf

module _ (h : Hashtable) where
  pub record Stats : Type 0 where
    pub table : h.Table
    pub heap : ℕ → AddrStat

  unfoldable pub stats_init : Stats → Stats
  stats_init s = record s { table = h.init }

  -- `hash_for_each_safe` over the nodes: each is taken out of the table and freed.
  unfoldable pub delete_all : List ℕ → h.Table → h.Table
  delete_all [] t = t
  delete_all (n ∷ ns) t = delete_all ns (h.del n t)

  -- The second part is the nodes that were freed, in order.
  unfoldable pub stats_exit : Stats → Stats × List ℕ
  stats_exit s = (record s { table = delete_all (h.nodes s.table) s.table }, h.nodes s.table)

  -- `kmalloc` is the address of the new entry, or `none`.
  unfoldable pub stats_record_traffic : Option ℕ → ℕ → ℕ → Bool → ℕ → Stats → Stats
  stats_record_traffic kmalloc saddr daddr is_send bytes s =
      let key = pair_key saddr daddr in
      elim (find_pair s.heap saddr daddr (h.possible key s.table)) [
        | some n ↦ record s { heap = store n (count_bytes is_send bytes (s.heap n)) s.heap }
        | none ↦ elim kmalloc [
          | none ↦ s
          | some n ↦ record {
            table = h.add key n s.table;
            heap =
                store n
                  (record {
                    saddr = saddr;
                    daddr = daddr;
                    recv_bytes = if is_send then 0 else bytes;
                    send_bytes = if is_send then bytes else 0;
                  })
                  s.heap;
          }
        ]
      ]

  -- The pointers that `stats_get_top` sorts.
  unfoldable pub collected : Stats → List ℕ
  collected s = take max_top_addrs (h.nodes s.table)

  -- `kmalloc_array` says whether the array was allocated; the entries are read
  -- through their pointers. The result is the text in the buffer.
  unfoldable pub stats_get_top :
      LiveSort → (AddrStat → List ℕ) → Bool → Live → Stats → List ℕ → ℕ → ℤ → List ℕ
  unfolding print_top collected limited read_entries
  stats_get_top srt line kmalloc_array live s buf len top_n =
      let entries = collected s in
      let count = length entries in
      let sorted = srt.sort (λ k. cmp_bytes_desc (live.compared k)) entries in
      let chosen = take (pos_part (limited top_n count)) sorted in
      if kmalloc_array
      then (if count == 0 then [] else print_top line len (read_entries live.printed 0 chosen) buf)
      else buf

  -- params.c: the text that reading `top_addrs` gives.
  unfoldable pub top_addrs_get : LiveSort → (AddrStat → List ℕ) → Bool → Live → Stats → ℤ → List ℕ
  top_addrs_get srt line kmalloc_array live s top_n =
      stats_get_top srt line kmalloc_array live s [] page_size top_n
